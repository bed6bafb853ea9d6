-- ===== src/Scanner/Fleet/Rows.antt =====
-- What the calls of internal/worker/scanner/store.go do to the rows of the repositories, whether they
-- fail or not.
use software_engineering_sch.Prelude.{
  ℕ, ◌≡◌, refl, sym, ap, ◌∙◌, subst, inl, inr, Bool, true, false, not, ◌&&◌, Option, none, some,
  List, [], ◌∷◌, ◌++◌, arith, ◌==◌, ==_iff, Bool-cases, Option-cases, filter, map_where, All,
  All-map_where, Error, Result, ok, err, Result-cases, Within,
}
use software_engineering_sch.Events.{Json}
use software_engineering_sch.Db.{Contents, Repository, idle, is_idle}
use software_engineering_sch.Db.Gorm.{Gorm, repositories, live}
use software_engineering_sch.Outbox.{Event}
use software_engineering_sch.Handlers.Store.{one_of}
use software_engineering_sch.Scanner.Store.{
  in_status, scanned_as, ids_of, claimable, recover_stuck_repos, claim_body, claimed_ids,
  find_claimed, claim_result, claim_idle, write_with_events, update_scan_status,
  mark_moved_and_unsubscribe,
}
use software_engineering_sch.Scanner.Claims.{All-Within, All-filters, with_claimed, claim_done}
use software_engineering_sch.Scanner.Writes.{
  with_move, MoveWrite, both, neither, first_only, write_move-MoveWrite, update_scan_status_done,
  update_scan_status_failed,
}
use software_engineering_sch.Scanner.Moves.{
  mark_moved_and_unsubscribe_done, mark_moved_and_unsubscribe_failed,
}
use software_engineering_sch.Scanner.Fleet.{claimed_by, unless}

-- Every row of the repositories, the deleted ones included.
abbrev pub Rows : (Repository → Type 0) → Contents → Type 0
Rows P c = All P c.repositories

-- The live rows of the keys.
abbrev pub Among : List ℕ → (Repository → Type 0) → Repository → Type 0
Among ids P r = r.deleted ≡ false → one_of ids r.id ≡ true → P r

pub one_of-append_left : (k : ℕ) (xs ys : List ℕ) → one_of xs k ≡ true → one_of (xs ++ ys) k ≡ true
one_of-append_left k [] ys h = cc
one_of-append_left k (x ∷ xs) ys h = let rest = one_of-append_left k xs ys in ground (arith, rest)

pub one_of-append :
    (k : ℕ) (xs ys : List ℕ) → one_of xs k ≡ false → one_of (xs ++ ys) k ≡ true → one_of ys k ≡ true
one_of-append k [] ys out h = h
one_of-append k (x ∷ xs) ys out h = let rest = one_of-append k xs ys in ground (arith, rest)

-- What holds of all the keys of rows holds of every key that is one of them.
pub one_of-All : (P : ℕ → Type 0) (ids : List ℕ) (k : ℕ) → All P ids → one_of ids k ≡ true → P k
one_of-All P [] k h m = cc
one_of-All P (x ∷ xs) k h m = elim (Bool-cases (x == k)) [
  | inl same ↦ subst P ((==_iff x k).0 same) h.0
  | inr differs ↦ one_of-All P xs k h.1 (rest differs)
]
  where
    rest : (x == k) ≡ false → one_of xs k ≡ true
    rest differs = ground arith

pub not_inv : (b : Bool) → not b ≡ true → b ≡ false
not_inv b h = ground arith

pub All-map_where_each :
    {A : Type 0} (P Q : A → Type 0) (p : A → Bool) (f : A → A) (xs : List A)
    → ((x : A) → Q x → p x ≡ true → P (f x))
    → ((x : A) → Q x → p x ≡ false → P x)
    → All Q xs
    → All P (map_where p f xs)
All-map_where_each P Q p f [] on off h = tt
All-map_where_each P Q p f (x ∷ xs) on off h =
    let rest = All-map_where_each P Q p f xs on off h.1 in
    elim (Bool-cases (p x)) [
      | inl hit ↦ rw hit (on x h.0 hit, rest)
      | inr miss ↦ rw miss (off x h.0 miss, rest)
    ]

matched : (b c : Bool) → (not b && c) ≡ true → (b ≡ false) × (c ≡ true)
matched b c h = ground arith

module _ (g : Gorm) (P : Repository → Type 0) where
  pub recover_stuck_repos-Rows :
      (db : g.Db)
      → ((r : Repository) → P r → P (in_status idle r))
      → Rows P (g.contents db)
      → Rows P (g.contents (recover_stuck_repos g db).1)
  unfolding recover_stuck_repos
  recover_stuck_repos-Rows db keep h =
      elim (Result-cases
        (g.update repositories (λ r. not (is_idle r.status)) (in_status idle) db).0) [
          | inl (n, done) ↦
              subst (Rows P) (sym (g.update_rows repositories _ (in_status idle) db done)) (
                All-map_where P _ (in_status idle) (g.contents db).repositories (λ r k m. keep r k)
                  h)
          | inr (e, bad) ↦
              subst (Rows P) (sym (g.update_failed repositories _ (in_status idle) db bad).0) h
        ]

  claim_result-Rows :
      (e : Option Error) (ids : List ℕ) (db : g.Db)
      → Rows P (g.contents db)
      → Rows P (g.contents (claim_result g e ids db).1)
  unfolding claim_result find_claimed
  claim_result-Rows (some e) ids db h = h
  claim_result-Rows none [] db h = h
  claim_result-Rows none (k ∷ ks) db h = subst (Rows P) (sym (g.find_keeps repositories _ db)) h

  -- The rows after a claim, from the rows that it leaves when it commits and when it does not.
  pub claim_idle-Rows :
      (now size min_interval : ℕ) (db : g.Db)
      → (claimed_by g min_interval now size db ≡ [] → Rows P (g.contents db))
      → Rows P (with_claimed now (claimed_by g min_interval now size db) (g.contents db))
      → Rows P (g.contents (claim_idle g now size min_interval db).1)
  unfolding claim_idle claimed_by
  claim_idle-Rows now size min_interval db failed claimed =
      claim_result-Rows _ _ _
        (elim (Option-cases (g.transaction (claim_body g now size min_interval) db).0) [
          | inl done ↦
              subst (Rows P)
                (ap
                    (λ e.
                      with_claimed now (unless e (claimed_ids g now size min_interval db))
                        (g.contents db))
                    done
                  ∙ sym (claim_done g now size min_interval db done))
                claimed
          | inr (e, bad) ↦
              subst (Rows P)
                (sym (g.transaction_failed (claim_body g now size min_interval) db bad).0)
                (failed (ap (λ x. unless x (claimed_ids g now size min_interval db)) bad))
        ])

module _ (g : Gorm) (json : Json) (P : Repository → Type 0) where
  pub update_scan_status-Rows :
      (now : ℕ) (repo : Repository) (events : List Event) (db : g.Db)
      → ((r : Repository) → P r → (r.id == repo.id) ≡ true → P (scanned_as now repo r))
      → Rows P (g.contents db)
      → Rows P (g.contents (update_scan_status g json now repo events db).1)
  update_scan_status-Rows now repo events db keep h =
      elim (Option-cases (update_scan_status g json now repo events db).0) [
        | inl done ↦
            let (rows, is_queued, e) = update_scan_status_done g json now repo events db done in
            subst (Rows P) (sym e) (
              All-map_where P _ (scanned_as now repo) (g.contents db).repositories
                (λ r k m. keep r k (matched r.deleted (r.id == repo.id) m).1) h)
        | inr (e, bad) ↦
            subst (Rows P) (sym (update_scan_status_failed g json now repo events db bad)) h
      ]

  with_move-Rows :
      (repo : Repository) (db : g.Db)
      → ((r : Repository) → P r → P (record r { deleted = true }))
      → Rows P (g.contents db)
      → Rows P (with_move repo (g.contents db))
  with_move-Rows repo db keep h =
      All-map_where P _ repositories.mark_deleted (g.contents db).repositories (λ r k m. keep r k) h

  pub mark_moved_and_unsubscribe-Rows :
      (repo : Repository) (events : List Event) (db : g.Db)
      → ((r : Repository) → P r → P (record r { deleted = true }))
      → Rows P (g.contents db)
      → Rows P (g.contents (mark_moved_and_unsubscribe g json repo events db).1)
  unfolding mark_moved_and_unsubscribe write_with_events
  mark_moved_and_unsubscribe-Rows repo [] db keep h = of_write (write_move-MoveWrite g repo db)
    where
      of_write :
          {e : Option Error} {after : Contents}
          → MoveWrite g repo (g.contents db) after e
          → Rows P after
      of_write (both k) = subst (Rows P) (sym k) (with_move-Rows repo db keep h)
      of_write (neither k) = subst (Rows P) (sym k) h
      of_write (first_only k) = subst (Rows P) (sym k) h
  mark_moved_and_unsubscribe-Rows repo (event ∷ events) db keep h =
      elim (Option-cases (mark_moved_and_unsubscribe g json repo (event ∷ events) db).0) [
        | inl done ↦
            let (rows, is_queued, e) =
              mark_moved_and_unsubscribe_done g json repo (event ∷ events) db done in
            subst (Rows P) (sym e) (with_move-Rows repo db keep h)
        | inr (e, bad) ↦
            subst (Rows P) (sym (mark_moved_and_unsubscribe_failed g json repo event events db bad))
              h
      ]

-- What is claimed was live and claimable.
pub claimed_by-All :
    (g : Gorm) (min_interval now size : ℕ) (db : g.Db) (P : ℕ → Type 0)
    → Rows (λ r. r.deleted ≡ false → claimable now min_interval r ≡ true → P r.id) (g.contents db)
    → All P (claimed_by g min_interval now size db)
unfolding claimed_by claimed_ids
claimed_by-All g min_interval now size db P h =
    elim (Option-cases (g.transaction (claim_body g now size min_interval) db).0) [
      | inl done ↦ rw done (locked-All _ refl)
      | inr (e, bad) ↦ rw bad tt
    ]
  where
    ids_of-All : (rs : List Repository) → All (λ r. P r.id) rs → All P (ids_of (ok rs))
    ids_of-All [] h = tt
    ids_of-All (r ∷ rs) h = (h.0, ids_of-All rs h.1)

    candidates :
        (rs : List Repository)
        → All (λ r. r.deleted ≡ false → claimable now min_interval r ≡ true → P r.id) rs
        → All (λ r. P r.id) (filter (claimable now min_interval) (filter (λ r. not r.deleted) rs))
    candidates [] k = tt
    candidates (r ∷ rs) k =
        All-filters (λ r. P r.id) (claimable now min_interval) (λ r. not r.deleted) r rs
          (λ alive can. k.0 (not_inv r.deleted alive) can) (candidates rs k.1)

    locked-All :
        (found : Result (List Repository))
        → (g.lock repositories (claimable now min_interval) size (g.begin db)).0 ≡ found
        → All P (ids_of found)
    locked-All (err e) read = tt
    locked-All (ok rs) read = ids_of-All rs (
        All-Within (λ r. P r.id) rs _
          (subst (λ d. Within rs (filter (claimable now min_interval) (live repositories d)))
            (g.begin_keeps db)
            (g.lock_ok repositories (claimable now min_interval) size (g.begin db) read).0)
          (candidates (g.contents db).repositories h))

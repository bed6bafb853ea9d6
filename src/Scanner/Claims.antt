-- ===== src/Scanner/Claims.antt =====
-- Which repositories `ClaimIdle` of internal/worker/scanner/store.go claims.
use software_engineering_sch.Prelude.{
  ℕ, suc, ◌≤◌, ◌≡◌, refl, sym, ap, ◌∙◌, subst, inl, inr, Bool, true, false, not, none, List, [],
  ◌∷◌, arith, if◌then◌else◌, Bool-cases, length, filter, map_where, All, Result, ok, err,
}
use software_engineering_sch.Prelude.{Mem, Within}
use software_engineering_sch.Db.{Contents, Repository}
use software_engineering_sch.Db.Gorm.{Gorm, repositories, matching, live, updated}
use software_engineering_sch.Outbox.{error_of-none}
use software_engineering_sch.Handlers.Store.{one_of}
use software_engineering_sch.Scanner.Store.{
  ids_of, claimable, claimed_at, mark_claimed, claim_body, claimed_ids,
}

All-Mem : {A : Type 0} (P : A → Type 0) (x : A) (ys : List A) → Mem x ys → All P ys → P x
All-Mem P x [] m h = elim m [ ]
All-Mem P x (y ∷ ys) Mem.first h = h.0
All-Mem P x (y ∷ ys) (Mem.later m) h = All-Mem P x ys m h.1

pub All-Within : {A : Type 0} (P : A → Type 0) (xs ys : List A) → Within xs ys → All P ys → All P xs
All-Within P [] ys w h = tt
All-Within P (x ∷ xs) ys w h = (All-Mem P x ys w.0 h, All-Within P xs ys w.1 h)

-- The tables once the repositories of the ids have been claimed.
abbrev pub with_claimed : ℕ → List ℕ → Contents → Contents
with_claimed now ids c =
    updated repositories (λ (x : Repository). one_of ids x.id) (claimed_at now) c

pub All-filters :
    {A : Type 0} (P : A → Type 0) (p q : A → Bool) (y : A) (ys : List A)
    → (q y ≡ true → p y ≡ true → P y)
    → All P (filter p (filter q ys))
    → All P (filter p (filter q (y ∷ ys)))
All-filters P p q y ys here rest = elim (Bool-cases (q y)) [
  | inr out ↦ rw out rest
  | inl in_list ↦ elim (Bool-cases (p y)) [
    | inl passes ↦ rw (in_list, passes) (here in_list passes, rest)
    | inr fails ↦ rw (in_list, fails) rest
  ]
]

map_where_never :
    {A : Type 0} (p : A → Bool) (f : A → A) (xs : List A)
    → ((x : A) → p x ≡ false)
    → map_where p f xs ≡ xs
map_where_never p f [] h = refl
map_where_never p f (x ∷ xs) h = rw (h x) (ap (λ rest. x ∷ rest) (map_where_never p f xs h))

-- A repository that is claimed cannot be claimed.
claimable_others :
    (ids : List ℕ) (now later_now min_interval : ℕ) (xs : List Repository)
    → All
        (λ r. one_of ids r.id ≡ false)
        (filter (claimable later_now min_interval) (
          filter
            (λ r. not r.deleted)
            (map_where (matching repositories (λ r. one_of ids r.id)) (claimed_at now) xs)))
claimable_others ids now later_now min_interval [] = tt
claimable_others ids now later_now min_interval (x ∷ xs) =
    All-filters (λ r. one_of ids r.id ≡ false) (claimable later_now min_interval)
      (λ r. not r.deleted)
      (if matching repositories (λ r. one_of ids r.id) x then claimed_at now x else x)
      (map_where (matching repositories (λ r. one_of ids r.id)) (claimed_at now) xs)
      (still_claimable (matching repositories (λ r. one_of ids r.id) x) refl)
      (claimable_others ids now later_now min_interval xs)
  where
    still_claimable :
        (b : Bool)
        → matching repositories (λ r. one_of ids r.id) x ≡ b
        → not (if b then claimed_at now x else x).deleted ≡ true
        → claimable later_now min_interval (if b then claimed_at now x else x) ≡ true
        → one_of ids (if b then claimed_at now x else x).id ≡ false
    still_claimable true taken is_live can = cc
    still_claimable false free is_live can = ground arith

All-ids_of :
    (ids : List ℕ) (rs : List Repository)
    → All (λ r. one_of ids r.id ≡ false) rs
    → All (λ k. one_of ids k ≡ false) (ids_of (ok rs))
All-ids_of ids [] h = tt
All-ids_of ids (r ∷ rs) h = (h.0, All-ids_of ids rs h.1)

module _ (g : Gorm) where
  mark_claimed_done :
      (now : ℕ) (found : Result (List Repository)) (tx : g.Db)
      → (mark_claimed g now found tx).0 ≡ none
      → g.contents (mark_claimed g now found tx).1 ≡ with_claimed now (ids_of found) (g.contents tx)
  unfolding mark_claimed
  mark_claimed_done now (err e) tx h = cc
  mark_claimed_done now (ok []) tx h =
      ap (λ rs. record (g.contents tx) { repositories = rs })
        (sym (
          map_where_never (matching repositories (λ x. one_of [] x.id)) (claimed_at now)
            (g.contents tx).repositories (λ x. ground arith)))
  mark_claimed_done now (ok (r ∷ rs)) tx h =
      let (n, done) = error_of-none _ h in
      g.update_rows repositories (λ x. one_of (ids_of (ok (r ∷ rs))) x.id) (claimed_at now) tx done

  claim_body_done :
      (now batch_size min_interval : ℕ) (tx : g.Db)
      → (claim_body g now batch_size min_interval tx).0 ≡ none
      → g.contents (claim_body g now batch_size min_interval tx).1
        ≡ with_claimed now
            (ids_of (g.lock repositories (claimable now min_interval) batch_size tx).0)
            (g.contents tx)
  unfolding claim_body
  claim_body_done now batch_size min_interval tx h =
      mark_claimed_done now _ _ h
      ∙ ap
          (λ c.
            with_claimed now
              (ids_of (g.lock repositories (claimable now min_interval) batch_size tx).0) c)
          (g.lock_keeps repositories (claimable now min_interval) batch_size tx)

  -- A claim that commits has marked exactly the repositories of its ids, and nothing else.
  pub claim_done :
      (now batch_size min_interval : ℕ) (db : g.Db)
      → (g.transaction (claim_body g now batch_size min_interval) db).0 ≡ none
      → g.contents (g.transaction (claim_body g now batch_size min_interval) db).1
        ≡ with_claimed now (claimed_ids g now batch_size min_interval db) (g.contents db)
  unfolding claimed_ids
  claim_done now batch_size min_interval db h =
      let (body, committed) = g.transaction_ok (claim_body g now batch_size min_interval) db h in
      committed
      ∙ claim_body_done now batch_size min_interval (g.begin db) body
      ∙ ap (λ c. with_claimed now (claimed_ids g now batch_size min_interval db) c)
          (g.begin_keeps db)

  locked_others :
      (ids : List ℕ) (now later_now batch_size min_interval : ℕ) (c : Contents) (tx : g.Db)
      (found : Result (List Repository))
      → g.contents tx ≡ with_claimed now ids c
      → (g.lock repositories (claimable later_now min_interval) batch_size tx).0 ≡ found
      → All (λ k. one_of ids k ≡ false) (ids_of found)
  locked_others ids now later_now batch_size min_interval c tx (err e) held read = tt
  locked_others ids now later_now batch_size min_interval c tx (ok rs) held read =
      let (within, bound) =
        g.lock_ok repositories (claimable later_now min_interval) batch_size tx read in
      All-ids_of ids rs (
        All-Within (λ r. one_of ids r.id ≡ false) rs _
          (subst (λ d. Within rs (filter (claimable later_now min_interval) (live repositories d)))
            held within)
          (claimable_others ids now later_now min_interval c.repositories))

  -- No repository is claimed twice: on the tables that a committed claim has left, a claim of another
  -- scanner, at any later time and of any size, takes none of its repositories.
  pub claim_exclusive :
      (now later_now batch_size later_size min_interval : ℕ) (db later_db : g.Db)
      → (g.transaction (claim_body g now batch_size min_interval) db).0 ≡ none
      → g.contents later_db
        ≡ g.contents (g.transaction (claim_body g now batch_size min_interval) db).1
      → All
          (λ k. one_of (claimed_ids g now batch_size min_interval db) k ≡ false)
          (claimed_ids g later_now later_size min_interval later_db)
  unfolding claimed_ids
  claim_exclusive now later_now batch_size later_size min_interval db later_db h same =
      locked_others (claimed_ids g now batch_size min_interval db) now later_now later_size
        min_interval (g.contents db) (g.begin later_db) _
        (g.begin_keeps later_db ∙ same ∙ claim_done now batch_size min_interval db h) refl

  length-ids_of :
      (batch_size : ℕ) (p : Repository → Bool) (tx : g.Db) (found : Result (List Repository))
      → (g.lock repositories p batch_size tx).0 ≡ found
      → length (ids_of found) ≤ batch_size
  length-ids_of batch_size p tx (err e) read = omega arith
  length-ids_of batch_size p tx (ok rs) read =
      let bound = (g.lock_ok repositories p batch_size tx read).1 in
      omega (arith, bound, length-ids rs)
    where
      length-ids : (rs : List Repository) → length (ids_of (ok rs)) ≡ length rs
      length-ids [] = refl
      length-ids (r ∷ rs) = ap (λ n. suc n) (length-ids rs)

  pub length-claimed_ids :
      (now batch_size min_interval : ℕ) (db : g.Db)
      → length (claimed_ids g now batch_size min_interval db) ≤ batch_size
  unfolding claimed_ids
  length-claimed_ids now batch_size min_interval db =
      length-ids_of batch_size (claimable now min_interval) (g.begin db)
        (g.lock repositories (claimable now min_interval) batch_size (g.begin db)).0 refl

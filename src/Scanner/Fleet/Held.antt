-- ===== src/Scanner/Fleet/Held.antt =====
-- Which scanner holds which repository, under the calls of internal/worker/scanner/store.go.
use software_engineering_sch.Prelude.{
  ℕ, ◌≡◌, ◌≢◌, refl, sym, subst, inl, inr, true, false, List, [], ◌∷◌, ◌++◌, arith, ◌==◌, ==_iff,
  Bool-cases, All, All-imp, All-map_where, ◌+◌,
}
use software_engineering_sch.Events.{Json}
use software_engineering_sch.Db.{Contents, Repository, is_idle}
use software_engineering_sch.Db.Gorm.{Gorm, repositories, matching}
use software_engineering_sch.Outbox.{Event}
use software_engineering_sch.Handlers.Store.{one_of}
use software_engineering_sch.Scanner.Store.{claimable, claimed_at}
use software_engineering_sch.Scanner.Fleet.{
  Fleet, StoreCall, claiming, moving, scanning, starting, is_restart, put, drop_key, claimed_by,
  claim_by, scan_by, move_by, call, call_each, fresh_fleet,
}
use software_engineering_sch.Scanner.Fleet.Rows.{
  Rows, Among, one_of-append, one_of-All, All-map_where_each, claim_idle-Rows,
  update_scan_status-Rows, mark_moved_and_unsubscribe-Rows, claimed_by-All,
}

abbrev Busy : Repository → Type 0
Busy r = is_idle r.status ≡ false

-- What is held is in processing, and no key has two holders.
record Exclusive (c : Contents) (held : ℕ → List ℕ) : Type 0 where
  busy : (i : ℕ) → Rows (Among (held i) Busy) c
  one_holder : (i j k : ℕ) → one_of (held i) k ≡ true → one_of (held j) k ≡ true → i ≡ j

one_of-drop_key : (k x : ℕ) (ids : List ℕ) → one_of (drop_key x ids) k ≡ true → one_of ids k ≡ true
one_of-drop_key k x [] h = h
one_of-drop_key k x (i ∷ ids) h = let rest = one_of-drop_key k x ids in ground (arith, rest)

drop_key_gone : (k x : ℕ) (ids : List ℕ) → (k == x) ≡ true → one_of (drop_key x ids) k ≡ false
drop_key_gone k x [] same = refl
drop_key_gone k x (i ∷ ids) same = let rest = drop_key_gone k x ids same in ground (arith, rest)

-- Two members of the fleet, one of which has a list of its own.
put-elim :
    (i j : ℕ) (ids : List ℕ) (held : ℕ → List ℕ) (P : ℕ → List ℕ → Type 0)
    → P i ids
    → ((j == i) ≡ false → P j (held j))
    → P j (put i ids held j)
put-elim i j ids held P here there = elim (Bool-cases (j == i)) [
  | inl same ↦ rw same (subst (λ n. P n ids) (sym ((==_iff j i).0 same)) here)
  | inr differs ↦ rw differs (there differs)
]

module _ (g : Gorm) (json : Json) (min_interval : ℕ) where
  -- A key that is claimed was held by nobody.
  claimed_by_free :
      (now size : ℕ) (s : Fleet g.Db) (j : ℕ)
      → Exclusive (g.contents s.store) s.held
      → All (λ k. one_of (s.held j) k ≡ false) (claimed_by g min_interval now size s.store)
  claimed_by_free now size s j inv =
      claimed_by-All g min_interval now size s.store (λ k. one_of (s.held j) k ≡ false)
        (All-imp (Among (s.held j) Busy) _ (g.contents s.store).repositories
          (λ r busy alive can. not_held r busy alive can) (inv.busy j))
    where
      not_held :
          (r : Repository)
          → Among (s.held j) Busy r
          → r.deleted ≡ false
          → claimable now min_interval r ≡ true
          → one_of (s.held j) r.id ≡ false
      not_held r busy alive can = elim (Bool-cases (one_of (s.held j) r.id)) [
        | inl hit ↦ let is_busy = busy alive hit in ground (arith, is_busy)
        | inr miss ↦ miss
      ]

  claim_by-Exclusive :
      (i now size : ℕ) (s : Fleet g.Db)
      → Exclusive (g.contents s.store) s.held
      → Exclusive
          (g.contents (claim_by g json min_interval i now size s).store)
          (claim_by g json min_interval i now size s).held
  unfolding claim_by
  claim_by-Exclusive i now size s inv = record {
    busy = λ j.
        put-elim i j (ids ++ s.held i) s.held (λ n held. Rows (Among held Busy) after)
          (claim_idle-Rows g _ now size min_interval s.store
            (λ nothing.
              subst (λ xs. Rows (Among (xs ++ s.held i) Busy) (g.contents s.store)) (sym nothing)
                (inv.busy i))
            (All-map_where_each (Among (ids ++ s.held i) Busy) (Among (s.held i) Busy) _
              (claimed_at now) (g.contents s.store).repositories (λ r old hit alive in_held. refl)
              (λ r old miss alive in_held.
                old alive (one_of-append r.id ids (s.held i) (missed r miss alive) in_held))
              (inv.busy i)))
          (λ differs.
            claim_idle-Rows g _ now size min_interval s.store (λ nothing. inv.busy j)
              (All-map_where (Among (s.held j) Busy) _ (claimed_at now)
                (g.contents s.store).repositories (λ r old hit alive in_held. refl) (inv.busy j)));
    one_holder = λ j l k.
        put-elim i j (ids ++ s.held i) s.held
          (λ n held.
            one_of held k ≡ true → one_of (put i (ids ++ s.held i) s.held l) k ≡ true → n ≡ l)
          (λ in_i.
            put-elim i l (ids ++ s.held i) s.held (λ n held. one_of held k ≡ true → i ≡ n)
              (λ in_l. refl) (λ differs in_l. joined l k in_i in_l))
          (λ differs in_j.
            put-elim i l (ids ++ s.held i) s.held (λ n held. one_of held k ≡ true → j ≡ n)
              (λ in_l. sym (joined j k in_l in_j))
              (λ l_differs in_l. inv.one_holder j l k in_j in_l));
  }
    where
      ids : List ℕ
      ids = claimed_by g min_interval now size s.store

      after : Contents
      after = g.contents (claim_by g json min_interval i now size s).store

      missed :
          (r : Repository)
          → matching repositories (λ x. one_of ids x.id) r ≡ false
          → r.deleted ≡ false
          → one_of ids r.id ≡ false
      missed r miss alive = ground arith

      joined : (l k : ℕ) → one_of (ids ++ s.held i) k ≡ true → one_of (s.held l) k ≡ true → i ≡ l
      joined l k in_i in_l = elim (Bool-cases (one_of ids k)) [
        | inl new ↦
            let free =
              one_of-All (λ x. one_of (s.held l) x ≡ false) ids k (claimed_by_free now size s l inv)
                new in
            absurd (ground (arith, free))
        | inr old ↦ inv.one_holder i l k (one_of-append k ids (s.held i) old in_i) in_l
      ]

  scan_by-Exclusive :
      (i now : ℕ) (repo : Repository) (events : List Event) (s : Fleet g.Db)
      → one_of (s.held i) repo.id ≡ true
      → Exclusive (g.contents s.store) s.held
      → Exclusive
          (g.contents (scan_by g json min_interval i now repo events s).store)
          (scan_by g json min_interval i now repo events s).held
  unfolding scan_by
  scan_by-Exclusive i now repo events s holds inv = record {
    busy = λ j.
        update_scan_status-Rows g json _ now repo events s.store
          (λ r old same alive in_held. absurd (elsewhere j r in_held same))
          (All-imp (Among (s.held j) Busy) _ (g.contents s.store).repositories
            (λ r old alive in_held. old alive (kept j r.id in_held)) (inv.busy j));
    one_holder = λ j l k in_j in_l. inv.one_holder j l k (kept j k in_j) (kept l k in_l);
  }
    where
      after : ℕ → List ℕ
      after = put i (drop_key repo.id (s.held i)) s.held

      kept : (j k : ℕ) → one_of (after j) k ≡ true → one_of (s.held j) k ≡ true
      kept j k =
          put-elim i j (drop_key repo.id (s.held i)) s.held
            (λ n held. one_of held k ≡ true → one_of (s.held n) k ≡ true)
            (one_of-drop_key k repo.id (s.held i)) (λ differs in_j. in_j)

      elsewhere :
          (j : ℕ) (r : Repository) → one_of (after j) r.id ≡ true → (r.id == repo.id) ≡ true → ⊥
      elsewhere j r in_j same =
          put-elim i j (drop_key repo.id (s.held i)) s.held (λ n held. one_of held r.id ≡ true → ⊥)
            (λ in_i. let gone = drop_key_gone r.id repo.id (s.held i) same in ground (arith, gone))
            (λ differs in_held.
              let same_holder =
                inv.one_holder j i repo.id
                  (subst (λ k. one_of (s.held j) k ≡ true) ((==_iff r.id repo.id).0 same) in_held)
                  holds in
              ground (arith, same_holder))
            in_j

  move_by-Exclusive :
      (repo : Repository) (events : List Event) (s : Fleet g.Db)
      → Exclusive (g.contents s.store) s.held
      → Exclusive
          (g.contents (move_by g json min_interval repo events s).store)
          (move_by g json min_interval repo events s).held
  unfolding move_by
  move_by-Exclusive repo events s inv = record {
    busy = λ j.
        mark_moved_and_unsubscribe-Rows g json _ repo events s.store (λ r old alive in_held. cc)
          (inv.busy j);
    one_holder = inv.one_holder;
  }

  call-Exclusive :
      (c : StoreCall) (s : Fleet g.Db)
      → is_restart c ≡ false
      → Exclusive (g.contents s.store) s.held
      → Exclusive
          (g.contents (call g json min_interval c s).store)
          (call g json min_interval c s).held
  unfolding call
  call-Exclusive (claiming i wait size) s calm inv =
      claim_by-Exclusive i (s.clock + wait) size s inv
  call-Exclusive (moving i repo events) s calm inv = elim (Bool-cases (one_of (s.held i) repo.id)) [
    | inl holds ↦ rw holds (move_by-Exclusive repo events s inv)
    | inr lacks ↦ rw lacks inv
  ]
  call-Exclusive (scanning i wait repo events) s calm inv =
      elim (Bool-cases (one_of (s.held i) repo.id)) [
        | inl holds ↦ rw holds (scan_by-Exclusive i (s.clock + wait) repo events s holds inv)
        | inr lacks ↦ rw lacks inv
      ]
  call-Exclusive (starting i) s calm inv = cc

  call_each-Exclusive :
      (cs : List StoreCall) (s : Fleet g.Db)
      → All (λ c. is_restart c ≡ false) cs
      → Exclusive (g.contents s.store) s.held
      → Exclusive
          (g.contents (call_each g json min_interval cs s).store)
          (call_each g json min_interval cs s).held
  unfolding call_each
  call_each-Exclusive [] s calm inv = inv
  call_each-Exclusive (c ∷ cs) s calm inv =
      call_each-Exclusive cs (call g json min_interval c s) calm.1 (call-Exclusive c s calm.0 inv)

  -- While no scanner starts afresh, no two scanners of a fleet hold one repository, in whatever order
  -- they claim and write, whichever of these calls fails, and whatever the tables were at first.
  pub call_each-one_holder :
      (cs : List StoreCall) (db : g.Db) (now i j k : ℕ)
      → i ≢ j
      → All (λ c. is_restart c ≡ false) cs
      → one_of ((call_each g json min_interval cs (fresh_fleet db now)).held i) k ≡ true
      → one_of ((call_each g json min_interval cs (fresh_fleet db now)).held j) k ≡ false
  call_each-one_holder cs db now i j k differ calm in_i =
      elim (Bool-cases
        (one_of ((call_each g json min_interval cs (fresh_fleet db now)).held j) k)) [
          | inl in_j ↦ absurd (
              differ (
                (call_each-Exclusive cs (fresh_fleet db now) calm at_first).one_holder i j k in_i
                  in_j))
          | inr out ↦ out
        ]
    where
      nothing_held : (rs : List Repository) → All (Among [] Busy) rs
      nothing_held [] = tt
      nothing_held (r ∷ rs) = (λ alive in_held. cc, nothing_held rs)

      at_first : Exclusive (g.contents db) (λ j. [])
      at_first = record {
        busy = λ j. nothing_held (g.contents db).repositories;
        one_holder = λ j l k in_j in_l. cc;
      }

-- ===== src/Scanner/Fleet/Spaced.antt =====
-- How far apart the claims of one repository are, under the calls of
-- internal/worker/scanner/store.go, restarts included.
use software_engineering_sch.Prelude.{
  ℕ, ◌≡◌, sym, subst, inl, inr, Bool, true, false, List, [], none, some, ◌∷◌, arith, Bool-cases,
  All, All-imp, All-map_where, ◌+◌, ◌≤◌, leb,
}
use software_engineering_sch.Events.{Json}
use software_engineering_sch.Db.{Contents, Repository}
use software_engineering_sch.Db.Gorm.{Gorm}
use software_engineering_sch.Handlers.Store.{one_of}
use software_engineering_sch.Scanner.Store.{claimable, claimed_at}
use software_engineering_sch.Scanner.Fleet.{
  Fleet, StoreCall, claiming, moving, scanning, starting, claimed_by, claim_by, scan_by, move_by,
  restart_by, call, call_each, fresh_fleet,
}
use software_engineering_sch.Scanner.Fleet.Rows.{
  Rows, Among, one_of-All, All-map_where_each, claim_idle-Rows, recover_stuck_repos-Rows,
  update_scan_status-Rows, mark_moved_and_unsubscribe-Rows, claimed_by-All,
}

-- Of two claims of one key the later one comes at least the interval after the other.
abbrev pub Spaced : ℕ → List (ℕ × List ℕ) → Type 0
Spaced min_interval [] = Unit
Spaced min_interval (e ∷ es) =
    All (λ d. (k : ℕ) → one_of e.1 k ≡ true → one_of d.1 k ≡ true → d.0 + min_interval ≤ e.0) es
    × Spaced min_interval es

abbrev scanned_since : ℕ → Repository → Bool
scanned_since t r = elim r.last_scanned_at [ none ↦ false | some u ↦ leb t u ]

-- The live rows of a claim were last scanned at its time or later.
abbrev Stamped : ℕ × List ℕ → Repository → Type 0
Stamped e r = Among e.1 (λ x. scanned_since e.0 x ≡ true) r

record Recorded (min_interval : ℕ) (c : Contents) (clock : ℕ) (log : List (ℕ × List ℕ))
    : Type 0 where
  past : All (λ e. e.0 ≤ clock) log
  stamped : All (λ e. Rows (Stamped e) c) log
  spaced : Spaced min_interval log

-- What is due was last scanned the interval ago.
due_after :
    (t now min_interval : ℕ) (r : Repository)
    → scanned_since t r ≡ true
    → claimable now min_interval r ≡ true
    → t + min_interval ≤ now
due_after t now min_interval r since can = ground arith

stamped_now : (t now : ℕ) (r : Repository) → t ≤ now → scanned_since t (claimed_at now r) ≡ true
stamped_now t now r before = ground arith

-- A change that keeps the stamps of every claim of the past keeps the record.
All-Stamped :
    (before after : Contents) (clock : ℕ) (log : List (ℕ × List ℕ))
    → ((e : ℕ × List ℕ) → e.0 ≤ clock → Rows (Stamped e) before → Rows (Stamped e) after)
    → All (λ e. e.0 ≤ clock) log
    → All (λ e. Rows (Stamped e) before) log
    → All (λ e. Rows (Stamped e) after) log
All-Stamped before after clock [] keep past stamped = tt
All-Stamped before after clock (e ∷ es) keep past stamped =
    (keep e past.0 stamped.0, All-Stamped before after clock es keep past.1 stamped.1)

Recorded-later :
    {min_interval clock now : ℕ} (before after : Contents) (log : List (ℕ × List ℕ))
    → clock ≤ now
    → ((e : ℕ × List ℕ) → e.0 ≤ clock → Rows (Stamped e) before → Rows (Stamped e) after)
    → Recorded min_interval before clock log
    → Recorded min_interval after now log
Recorded-later before after log later keep inv = record {
  past = All-imp _ _ log (λ e in_past. omega (arith, in_past, later)) inv.past;
  stamped = All-Stamped before after _ log keep inv.past inv.stamped;
  spaced = inv.spaced;
}

module _ (g : Gorm) (json : Json) (min_interval : ℕ) where
  -- A claim that is in the past when the clock is read again stays stamped.
  claim_by-Recorded :
      (i now size : ℕ) (s : Fleet g.Db)
      → s.clock ≤ now
      → Recorded min_interval (g.contents s.store) s.clock s.log
      → Recorded min_interval
          (g.contents (claim_by g json min_interval i now size s).store)
          now
          (claim_by g json min_interval i now size s).log
  unfolding claim_by
  claim_by-Recorded i now size s later inv =
      let old =
        Recorded-later {now = now} (g.contents s.store)
          (g.contents (claim_by g json min_interval i now size s).store) s.log later old_claim
          inv in
      record {
        past = (omega arith, old.past);
        stamped = (new_claim, old.stamped);
        spaced = (apart s.log inv.stamped, inv.spaced);
      }
    where
      ids : List ℕ
      ids = claimed_by g min_interval now size s.store

      unclaimed : (rs : List Repository) → All (Stamped (now, [])) rs
      unclaimed [] = tt
      unclaimed (r ∷ rs) = (λ alive in_ids. cc, unclaimed rs)

      trivial : (rs : List Repository) → All {0, 0} (λ _. Unit) rs
      trivial [] = tt
      trivial (r ∷ rs) = (tt, trivial rs)

      new_claim :
          Rows (Stamped (now, ids)) (g.contents (claim_by g json min_interval i now size s).store)
      new_claim =
          claim_idle-Rows g (Stamped (now, ids)) now size min_interval s.store
            (λ nothing.
              subst (λ xs. Rows (Stamped (now, xs)) (g.contents s.store)) (sym nothing)
                (unclaimed (g.contents s.store).repositories))
            (All-map_where_each (Stamped (now, ids)) (λ _. Unit) _ (claimed_at now)
              (g.contents s.store).repositories
              (λ r u hit alive in_ids. stamped_now now now r (omega arith))
              (λ r u miss alive in_ids. absurd (ground (arith, miss, alive, in_ids)))
              (trivial (g.contents s.store).repositories))

      old_claim :
          (e : ℕ × List ℕ)
          → e.0 ≤ s.clock
          → Rows (Stamped e) (g.contents s.store)
          → Rows (Stamped e) (g.contents (claim_by g json min_interval i now size s).store)
      old_claim e before stamped =
          claim_idle-Rows g (Stamped e) now size min_interval s.store (λ nothing. stamped)
            (All-map_where (Stamped e) _ (claimed_at now) (g.contents s.store).repositories
              (λ r old hit alive in_e. stamped_now e.0 now r (omega (arith, before, later)))
              stamped)

      due_again :
          (e : ℕ × List ℕ) (r : Repository)
          → Stamped e r
          → r.deleted ≡ false
          → claimable now min_interval r ≡ true
          → one_of e.1 r.id ≡ true
          → e.0 + min_interval ≤ now
      due_again e r stamped alive can in_e =
          due_after e.0 now min_interval r (stamped alive in_e) can

      apart :
          (log : List (ℕ × List ℕ))
          → All (λ e. Rows (Stamped e) (g.contents s.store)) log
          → All
              (λ e. (k : ℕ) → one_of ids k ≡ true → one_of e.1 k ≡ true → e.0 + min_interval ≤ now)
              log
      apart [] stamped = tt
      apart (e ∷ es) stamped = (
        λ k new old.
            one_of-All (λ x. one_of e.1 x ≡ true → e.0 + min_interval ≤ now) ids k
              (claimed_by-All g min_interval now size s.store _
                (All-imp (Stamped e) _ (g.contents s.store).repositories (due_again e) stamped.0))
              new old,
        apart es stamped.1,
      )

  call-Recorded :
      (c : StoreCall) (s : Fleet g.Db)
      → Recorded min_interval (g.contents s.store) s.clock s.log
      → Recorded min_interval
          (g.contents (call g json min_interval c s).store)
          (call g json min_interval c s).clock
          (call g json min_interval c s).log
  unfolding call claim_by scan_by move_by restart_by
  call-Recorded (claiming i wait size) s inv =
      claim_by-Recorded i (s.clock + wait) size s (omega arith) inv
  call-Recorded (moving i repo events) s inv = elim (Bool-cases (one_of (s.held i) repo.id)) [
    | inl holds ↦ rw holds (
        Recorded-later (g.contents s.store)
          (g.contents (move_by g json min_interval repo events s).store) s.log (omega arith)
          (λ e before stamped.
            mark_moved_and_unsubscribe-Rows g json (Stamped e) repo events s.store
              (λ r old alive in_e. cc) stamped)
          inv)
    | inr lacks ↦ rw lacks inv
  ]
  call-Recorded (scanning i wait repo events) s inv =
      elim (Bool-cases (one_of (s.held i) repo.id)) [
        | inl holds ↦ rw holds (
            Recorded-later (g.contents s.store)
              (g.contents (scan_by g json min_interval i (s.clock + wait) repo events s).store)
              s.log (omega arith)
              (λ e before stamped.
                update_scan_status-Rows g json (Stamped e) (s.clock + wait) repo events s.store
                  (λ r old same alive in_e.
                    stamped_now e.0 (s.clock + wait) r (omega (arith, before)))
                  stamped)
              inv)
        | inr lacks ↦ rw lacks inv
      ]
  call-Recorded (starting i) s inv =
      Recorded-later (g.contents s.store) (g.contents (restart_by g json min_interval i s).store)
        s.log (omega arith)
        (λ e before stamped. recover_stuck_repos-Rows g (Stamped e) s.store (λ r old. old) stamped)
        inv

  call_each-Recorded :
      (cs : List StoreCall) (s : Fleet g.Db)
      → Recorded min_interval (g.contents s.store) s.clock s.log
      → Spaced min_interval (call_each g json min_interval cs s).log
  unfolding call_each
  call_each-Recorded [] s inv = inv.spaced
  call_each-Recorded (c ∷ cs) s inv =
      call_each-Recorded cs (call g json min_interval c s) (call-Recorded c s inv)

  -- In whatever order the scanners of a fleet claim, write and start afresh, and whichever of these
  -- calls fails, two claims that take one repository are at least the least interval apart.
  pub call_each-Spaced :
      (cs : List StoreCall) (db : g.Db) (now : ℕ)
      → Spaced min_interval (call_each g json min_interval cs (fresh_fleet db now)).log
  call_each-Spaced cs db now =
      call_each-Recorded cs (fresh_fleet db now) (record { past = tt; stamped = tt; spaced = tt })

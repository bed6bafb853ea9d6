-- ===== src/Scanner/Fleet.antt =====
-- Several scanners over one database: the calls of internal/worker/scanner/store.go that each of them
-- makes, one after the other in any order. A scanner holds the keys that it has claimed and not yet
-- settled; one that starts afresh holds none.
pub mod Rows
pub mod Held
pub mod Spaced
mod Tests
use software_engineering_sch.Prelude.{
  ℕ, Bool, true, false, not, Option, none, some, List, [], ◌∷◌, ◌++◌, ◌==◌, if◌then◌else◌, filter,
  ◌+◌, Error,
}
use software_engineering_sch.Events.{Json}
use software_engineering_sch.Db.{Repository}
use software_engineering_sch.Db.Gorm.{Gorm}
use software_engineering_sch.Outbox.{Event}
use software_engineering_sch.Handlers.Store.{one_of}
use software_engineering_sch.Scanner.Store.{
  recover_stuck_repos, claim_body, claimed_ids, claim_idle, update_scan_status,
  mark_moved_and_unsubscribe,
}

-- The database, the time of the last call, what each scanner holds, and every claim with its time,
-- the last one first.
pub record Fleet (D : Type 0) : Type 0 where
  pub store : D
  pub clock : ℕ
  pub held : ℕ → List ℕ
  pub log : List (ℕ × List ℕ)

-- One call of one scanner: the claim of a tick, the two writes of a worker, the recovery of `Start`.
-- The time of a call that reads the clock is given as the time since the last one.
pub data StoreCall : Type 0 where
  claiming : ℕ → ℕ → ℕ → StoreCall
  moving : ℕ → Repository → List Event → StoreCall
  scanning : ℕ → ℕ → Repository → List Event → StoreCall
  starting : ℕ → StoreCall

abbrev pub is_restart : StoreCall → Bool
is_restart (starting i) = true
is_restart _ = false

abbrev pub put : ℕ → List ℕ → (ℕ → List ℕ) → ℕ → List ℕ
put i ids held j = if j == i then ids else held j

abbrev pub drop_key : ℕ → List ℕ → List ℕ
drop_key k ids = filter (λ x. not (x == k)) ids

abbrev pub unless : Option Error → List ℕ → List ℕ
unless (some e) ids = []
unless none ids = ids

module _ (g : Gorm) (min_interval : ℕ) where
  -- The keys of a claim that commits.
  unfoldable pub claimed_by : ℕ → ℕ → g.Db → List ℕ
  claimed_by now size db =
      unless (g.transaction (claim_body g now size min_interval) db).0
        (claimed_ids g now size min_interval db)

module _ (g : Gorm) (json : Json) (min_interval : ℕ) where
  unfoldable pub claim_by : ℕ → ℕ → ℕ → Fleet g.Db → Fleet g.Db
  unfolding claimed_by
  claim_by i now size s =
      let ids = claimed_by g min_interval now size s.store in
      record {
        store = (claim_idle g now size min_interval s.store).1;
        clock = now;
        held = put i (ids ++ s.held i) s.held;
        log = (now, ids) ∷ s.log;
      }

  unfoldable pub scan_by : ℕ → ℕ → Repository → List Event → Fleet g.Db → Fleet g.Db
  scan_by i now repo events s = record s {
    store = (update_scan_status g json now repo events s.store).1;
    clock = now;
    held = put i (drop_key repo.id (s.held i)) s.held;
  }

  unfoldable pub move_by : Repository → List Event → Fleet g.Db → Fleet g.Db
  move_by repo events s = record s {
    store = (mark_moved_and_unsubscribe g json repo events s.store).1;
  }

  unfoldable pub restart_by : ℕ → Fleet g.Db → Fleet g.Db
  restart_by i s = record s { store = (recover_stuck_repos g s.store).1; held = put i [] s.held }

  -- A worker settles only what its own scanner holds.
  unfoldable pub call : StoreCall → Fleet g.Db → Fleet g.Db
  unfolding claim_by scan_by move_by restart_by
  call (claiming i wait size) s = claim_by i (s.clock + wait) size s
  call (moving i repo events) s = if one_of (s.held i) repo.id then move_by repo events s else s
  call (scanning i wait repo events) s =
      if one_of (s.held i) repo.id then scan_by i (s.clock + wait) repo events s else s
  call (starting i) s = restart_by i s

  unfoldable pub call_each : List StoreCall → Fleet g.Db → Fleet g.Db
  unfolding call
  call_each [] s = s
  call_each (c ∷ cs) s = call_each cs (call c s)

-- Nothing is held before the first call.
abbrev pub fresh_fleet : {D : Type 0} → D → ℕ → Fleet D
fresh_fleet db now = record { store = db; clock = now; held = λ j. []; log = [] }

-- ===== src/Scanner/Worker.antt =====
-- internal/worker/scanner/worker.go and scanner.go: the workers that take repositories from the queue,
-- and the scanner that recovers, ticks and stops. The turns of the workers and the ticks come in any
-- order, one after the other. The limiter's Wait is a parameter.
use software_engineering_sch.Prelude.{
  ℕ, zero, suc, ◌-◌, Bool, Option, none, some, List, [], ◌∷◌, Error,
}
use software_engineering_sch.Events.{Json, Stamp}
use software_engineering_sch.Db.{Repository}
use software_engineering_sch.Db.Gorm.{Gorm}
use software_engineering_sch.Github.Limits.{RateLimits}
use software_engineering_sch.Github.Client.{Client, get_repository, get_latest_release}
use software_engineering_sch.Scanner.Store.{recover_stuck_repos}
use software_engineering_sch.Scanner.Processor.{Remote, process_repo}
use software_engineering_sch.Scanner.Quota.{Float, Quota, Clock, freeze}
use software_engineering_sch.Scanner.Producer.{Producer, produce}

-- What is beside the database: the quota, and the world of the GitHub client.
abbrev pub World : Type 0 → Type 0 → Type 0
World F V = Quota F × V

-- The GitHub client and the quota, as the processor uses them.
abbrev pub remote : {F V : Type 0} → Float F → Client V → Remote (World F V)
remote f client = record {
  get_repository =
      λ owner name etag w. let (r, v) = get_repository client owner name etag w.1 in (r, (w.0, v));
  get_latest_release = λ owner name etag w.
      let (r, v) = get_latest_release client owner name etag w.1 in (r, (w.0, v));
  freeze = λ w. (freeze f w.0, w.1);
}

-- The queue, the database, the world, and how many workers have not returned.
pub record State (D F V : Type 0) : Type 0 where
  pub queue : List Repository
  pub store : D
  pub world : World F V
  pub workers : ℕ

-- A tick of the producer, or a turn of a worker.
pub data Act : Type 0 where
  tick : Clock → Option RateLimits → ℕ → (ℕ → Bool) → Act
  turn : ℕ → (ℕ → Stamp) → Act

module _ {F V : Type 0} (f : Float F) (g : Gorm) (json : Json) (p : Producer) (client : Client V)
    (wait : World F V → Option Error × World F V) where
  unfoldable pub waited :
      ℕ → (ℕ → Stamp) → Repository → Option Error → State g.Db F V → State g.Db F V
  waited now stamps r (some e) s = record s { workers = s.workers - 1 }
  waited now stamps r none s =
      let done = process_repo g json stamps (remote f client) now r s.store s.world in
      record s { store = done.store; world = done.world }

  -- One round of `worker` after a receive: a worker whose wait fails returns, with the repository.
  unfoldable pub received : ℕ → (ℕ → Stamp) → Repository → State g.Db F V → State g.Db F V
  unfolding waited
  received now stamps r s =
      let (e, w) = wait s.world in waited now stamps r e (record s { world = w })

  unfoldable pub work : ℕ → (ℕ → Stamp) → ℕ → List Repository → State g.Db F V → State g.Db F V
  unfolding received
  work now stamps zero queue s = s
  work now stamps (suc n) [] s = s
  work now stamps (suc n) (r ∷ rs) s = received now stamps r (record s { queue = rs })

  unfoldable pub perform : Act → State g.Db F V → State g.Db F V
  unfolding work
  perform (tick clock limits now done) s =
      let made = produce f g p clock limits now done s.world.0 s.queue s.store in
      record s { queue = made.queue; store = made.store; world = (made.quota, s.world.1) }
  perform (turn now stamps) s = work now stamps s.workers s.queue s

  unfoldable pub perform_all : List Act → State g.Db F V → State g.Db F V
  unfolding perform
  perform_all [] s = s
  perform_all (a ∷ acts) s = perform_all acts (perform a s)

  -- `Start`: the repositories that a former run left in processing are recovered first; an error of
  -- that is only logged.
  unfoldable pub start : List Act → State g.Db F V → State g.Db F V
  unfolding perform_all
  start acts s = perform_all acts (record s { store = (recover_stuck_repos g s.store).1 })

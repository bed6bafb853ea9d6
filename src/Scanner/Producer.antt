-- ===== src/Scanner/Producer.antt =====
-- internal/worker/scanner/producer.go: the repositories that are claimed and queued in one tick. The
-- queue is a channel of a fixed capacity, and its length is read once.
use software_engineering_sch.Prelude.{
  ℕ, zero, suc, ◌-◌, Bool, ◌&&◌, Option, List, [], ◌∷◌, ◌++◌, leb, if◌then◌else◌, length, Result,
  ok, err,
}
use software_engineering_sch.Prelude.Int.{ℤ, pos, negsuc}
use software_engineering_sch.Db.{Repository}
use software_engineering_sch.Db.Gorm.{Gorm}
use software_engineering_sch.Github.Limits.{RateLimits}
use software_engineering_sch.Scanner.Store.{claim_idle}
use software_engineering_sch.Scanner.Quota.{Float, nought, Quota, Clock, refresh}

-- `domainRepoProducer` and the queue's capacity.
pub record Producer : Type 0 where
  pub producer_interval : ℕ
  pub min_check_interval : ℕ
  pub capacity : ℕ

pub record Produced (F D : Type 0) : Type 0 where
  pub queue : List Repository
  pub quota : Quota F
  pub store : D

-- The least of a computed size and the free places, where a size that is not positive stops the tick.
unfoldable pub batch_size : ℤ → ℕ → ℕ
batch_size (negsuc n) free = 0
batch_size (pos n) free = if leb n free then n else free

-- The sends, until the context is done; `done k` says whether the k-th select takes that case.
unfoldable pub send_all : (ℕ → Bool) → ℕ → List Repository → List Repository → List Repository
send_all done k queue [] = queue
send_all done k queue (r ∷ rs) =
    let sent = send_all done (suc k) (queue ++ (r ∷ [])) rs in if done k then queue else sent

module _ {F : Type 0} (f : Float F) (g : Gorm) (p : Producer) where
  unfoldable pub send_claimed :
      (ℕ → Bool) → List Repository → Result (List Repository) → List Repository
  unfolding send_all
  send_claimed done queue (err e) = queue
  send_claimed done queue (ok rs) = send_all done 0 queue rs

  unfoldable pub produce_batch :
      ℕ → (ℕ → Bool) → ℕ → List Repository → g.Db → List Repository × g.Db
  unfolding send_claimed
  produce_batch now done zero queue db = (queue, db)
  produce_batch now done (suc n) queue db =
      let (claimed, db') = claim_idle g now (suc n) p.min_check_interval db in
      (send_claimed done queue claimed, db')

  -- `rps == 0` is two comparisons, which are false for NaN.
  abbrev pub is_nought : F → Bool
  is_nought x = f.le x (nought f) && f.le (nought f) x

  unfoldable pub produce_at : ℕ → (ℕ → Bool) → F → List Repository → g.Db → List Repository × g.Db
  unfolding produce_batch batch_size
  produce_at now done rps queue db =
      let size =
        batch_size (f.ceil (f.mul rps (f.seconds p.producer_interval)))
          (p.capacity - length queue) in
      let batch = produce_batch now done size queue db in
      if is_nought rps then (queue, db) else batch

  unfoldable pub produce :
      Clock
      → Option RateLimits
      → ℕ
      → (ℕ → Bool)
      → Quota F
      → List Repository
      → g.Db
      → Produced F g.Db
  unfolding produce_at
  produce clock limits now done q queue db =
      let (rps, q') = refresh f clock limits q in
      let (queue', db') = produce_at now done rps queue db in
      record { queue = queue'; quota = q'; store = db' }

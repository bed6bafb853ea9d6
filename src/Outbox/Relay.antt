-- ===== src/Outbox/Relay.antt =====
-- internal/infra/outbox/relay.go: the rows of the outbox published in order and then deleted. The
-- broker is a parameter: what it answers to one publish, over a state of its own.
use software_engineering_sch.Prelude.{
  ℕ, zero, suc, String, Bool, true, false, ◌&&◌, Option, none, some, List, [], ◌∷◌, ◌++◌, leb, ◌==◌,
  if◌then◌else◌, length, Error, ok, err,
}
use software_engineering_sch.Db.{Row}
use software_engineering_sch.Db.Gorm.{Gorm, outbox_rows}
use software_engineering_sch.Broker.Topology.{events_exchange}
use software_engineering_sch.Outbox.{error_of}

-- One row that was sent: what the publish returned and, if it was nil, what the delete returned.
pub record Relayed : Type 0 where
  pub row : Row
  pub publish_error : Option Error
  pub delete_error : Option Error

-- What a call of `deliver` leaves: what it did, whether it returned before the fuel ran out, and the
-- states of the database and of the broker.
pub record Delivered {ℓ} (D : Type 0) (B : Type ℓ) : Type ℓ where
  pub log : List Relayed
  pub returned : Bool
  pub store : D
  pub broker : B

-- The batch size is a natural number: gorm takes a negative limit for none, which is not modelled.
pub record Relay {ℓ} (B : Type ℓ) : Type ℓ where
  pub publish : String → String → String → B → Option Error × B
  pub batch_size : ℕ

module _ {ℓ} {B : Type ℓ} (g : Gorm) (relay : Relay B) where
  -- Whether the batch was published to its end.
  pub record Passed : Type ℓ where
    pub log : List Relayed
    pub complete : Bool
    pub store : g.Db
    pub broker : B

  unfoldable pub delete_row : Row → g.Db → Option Error × g.Db
  delete_row row db =
      let (r, db') = g.delete outbox_rows (λ x. x.id == row.id) db in (error_of r, db')

  -- The loop over the rows of a batch: the first publish that fails ends it, and a delete that
  -- fails is only logged.
  unfoldable pub pass : List Row → g.Db → B → Passed
  unfolding delete_row
  pass [] db b = record { log = []; complete = true; store = db; broker = b }
  pass (row ∷ rows) db b =
      let (e, b') = relay.publish events_exchange row.routing_key row.payload b in
      let (d, db') = delete_row row db in
      let rest = pass rows db' b' in
      elim e [
        | some x ↦ record {
          log = record { row = row; publish_error = some x; delete_error = none } ∷ [];
          complete = false;
          store = db;
          broker = b';
        }
        | none ↦ record rest {
          log = record { row = row; publish_error = none; delete_error = d } ∷ rest.log;
        }
      ]

  -- The loop of `deliver`, by fuel. It goes on after a full batch that was published to its end.
  unfoldable pub deliver : ℕ → g.Db → B → Delivered g.Db B
  unfolding pass
  deliver zero db b = record { log = []; returned = false; store = db; broker = b }
  deliver (suc f) db b =
      let (found, db') = g.batch outbox_rows (λ r. true) relay.batch_size db in
      elim found [
        | err e ↦ record { log = []; returned = true; store = db'; broker = b }
        | ok rows ↦
            let passed = pass rows db' b in
            let rest = deliver f passed.store passed.broker in
            if leb 1 (length rows) && passed.complete && leb relay.batch_size (length rows)
            then record rest { log = passed.log ++ rest.log }
            else record {
              log = passed.log;
              returned = true;
              store = passed.store;
              broker = passed.broker;
            }
      ]

  -- `Run` delivers at once and then on each of the ticks that come before the cancellation.
  unfoldable pub run : ℕ → ℕ → g.Db → B → Delivered g.Db B
  unfolding deliver
  run fuel zero db b = deliver fuel db b
  run fuel (suc ticks) db b =
      let one = deliver fuel db b in
      let rest = run fuel ticks one.store one.broker in
      record rest { log = one.log ++ rest.log; returned = one.returned && rest.returned }

-- ===== src/Broker/Settler.antt =====
-- The Settler interface of internal/infra/rabbitmq/consumer.go as its callers see it: what a handler
-- asks the broker to do with the delivery, in the order of the calls, beside the state that the
-- handler works on.
use software_engineering_sch.Prelude.{String, List, [], ◌∷◌, ◌++◌}

pub data Settlement : Type 0 where
  ack : Settlement
  retry dead_letter : String → Settlement

pub record Session {ℓ} (S : Type ℓ) : Type ℓ where
  pub store : S
  pub settled : List Settlement

module _ {ℓ} {S : Type ℓ} where
  unfoldable pub settle : Settlement → Session S → Session S
  settle x s = record s { settled = s.settled ++ (x ∷ []) }

  abbrev pub with_store : S → Session S → Session S
  with_store st s = record s { store = st }

-- ===== src/Broker/Schedule.antt =====
-- The way of one message through the retry tiers of internal/infra/rabbitmq/consumer.go.
use software_engineering_sch.Prelude.{
  ℕ, zero, suc, ◌-◌, ◌^◌, ◌<◌, String, ◌≡◌, ap, ◌∙◌, inl, inr, none, some, List, [], ◌∷◌, arith,
  str_eq, eq_refl, Bool-cases,
}
use software_engineering_sch.Prelude.Int.{ℤ, pos, suc64}
use software_engineering_sch.Broker.Topology.{header_attempts}
use software_engineering_sch.Broker.Consumer.{
  Header, int64, Delivery, Publishing, Consumer, Answers, confirmed, lookup, insert, copied,
  attempts, retried,
}

-- A broker that takes and confirms everything.
abbrev pub reliable : Answers
reliable = record { open_channel = none; confirm_mode = none; publish = none; wait = confirmed }

-- The message as it comes back to the main queue when its wait is over.
abbrev pub redelivered : Publishing → Delivery
redelivered p = record {
  body = p.body;
  content_type = p.content_type;
  correlation_id = p.correlation_id;
  headers = some p.headers;
}

lookup-insert_self :
    (k : String) (v : Header) (m : List (String × Header)) → lookup k (insert k v m) ≡ some v
lookup-insert_self k v [] = rw (eq_refl k)
lookup-insert_self k v ((j, w) ∷ m) = elim (Bool-cases (str_eq j k)) [
  | inl same ↦ rw (same, eq_refl k)
  | inr differ ↦ rw (differ, differ) (lookup-insert_self k v m)
]

-- What the consumer reads of a message that it has retried is the number that it wrote.
pub attempts-retried : (d : Delivery) (att : ℤ) → attempts (redelivered (retried d att)) ≡ att
unfolding attempts retried
attempts-retried d att = rw (lookup-insert_self header_attempts (int64 att) (copied d.headers))

-- The delivery after `k` failed rounds, each of which ended in a retry.
unfoldable pub after : ℕ → Delivery → Delivery
after zero d = d
after (suc k) d = let d' = after k d in redelivered (retried d' (suc64 (attempts d')))

suc64_pos : (k : ℕ) → k < 2 ^ 63 - 1 → suc64 (pos k) ≡ pos (suc k)
suc64_pos k h = ground arith

pub attempts-after :
    (d : Delivery) (k : ℕ) → attempts d ≡ pos 0 → k < 2 ^ 63 → attempts (after k d) ≡ pos k
unfolding after
attempts-after d zero fresh h = fresh
attempts-after d (suc k) fresh h =
    attempts-retried (after k d) _
    ∙ ap suc64 (attempts-after d k fresh (omega arith))
    ∙ suc64_pos k (omega arith)

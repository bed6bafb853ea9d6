-- ===== src/Notifier/Tests.antt =====
-- The notifier with a dedup store and a publisher that never fail.
use software_engineering_sch.Prelude.{
  String, ◌≡◌, refl, Bool, false, ◌||◌, not, none, List, [], ◌∷◌, Error, Result, ok, str_eq,
  eq_refl, Bool-cases, inl, inr, Option, if◌then◌else◌,
}
use software_engineering_sch.Events.{
  subscription_created, SubscriptionCreated, new_subscription_created, new_envelope,
  decode_release_detected, release_detected,
}
use software_engineering_sch.Events.Reference
use software_engineering_sch.Broker.Settler.{Session, ack, settle}
use software_engineering_sch.Command.{DeliveryMessage, new_release}
use software_engineering_sch.Grpc.{from_proto, to_proto}
use software_engineering_sch.Saga.Settlement.{SettledBy}
use software_engineering_sch.Notifier.{
  Services, to_command, command_for, release_command, published, publish_fresh, send_command,
  process,
}
use software_engineering_sch.Notifier.Commands.{to_command-from_proto}
use software_engineering_sch.Notifier.Dedup.{Remembers, process_redelivered_once}

-- The keys that are marked, and the commands that were published.
record World : Type 0 where
  keys : List String
  log : List DeliveryMessage

abbrev holds : List String → String → Bool
holds [] k = false
holds (j ∷ js) k = str_eq j k || holds js k

abbrev without : String → List String → List String
without k [] = []
without k (j ∷ js) = let rest = without k js in if str_eq j k then rest else j ∷ rest

abbrev mark_in : String → World → Result Bool × World
mark_in k w = (ok (not (holds w.keys k)), record w { keys = k ∷ w.keys })

abbrev unmark_in : String → World → Option Error × World
unmark_in k w = (none, record w { keys = without k w.keys })

abbrev publish_in : DeliveryMessage → World → Option Error × World
publish_in cmd w = (none, record w { log = cmd ∷ w.log })

abbrev services : Services World
services = record { mark_processed = mark_in; unmark = unmark_in; publish = publish_in }

holds-without : (k : String) (js : List String) → holds (without k js) k ≡ false
holds-without k [] = refl
holds-without k (j ∷ js) = elim (Bool-cases (str_eq j k)) [
  | inl same ↦ rw same (holds-without k js)
  | inr differ ↦ rw (differ, differ) (holds-without k js)
]

services-Remembers : Remembers services (λ w. holds w.keys) (λ w. w.log)
services-Remembers = record {
  mark_sets = λ k w h. rw (eq_refl k) refl;
  mark_sees = λ k w marked h. cc (marked, h);
  mark_sends = λ k w. refl;
  unmark_clears = λ k w h. holds-without k w.keys;
  unmark_sends = λ k w. refl;
  publish_keeps = λ cmd w k. refl;
}

abbrev session : Session World
session = record { store = record { keys = []; log = [] }; settled = [] }

abbrev release : DeliveryMessage
release = record {
  event = new_release;
  email = "a@b";
  repo = "owner/name";
  release = "v1";
  payload = [];
}

made : to_command Reference.reference (Reference.plain release_detected "a@b") ≡ ok release
unfolding to_command command_for release_command decode_release_detected
made = refl

to_command-from_proto_example : from_proto (to_proto release) ≡ release
to_command-from_proto_example =
    to_command-from_proto Reference.reference (Reference.plain release_detected "a@b") release made

abbrev created : SubscriptionCreated
created = record { email = "a@b"; token = "t1" }

enveloped_created :
    new_subscription_created Reference.reference (record { uuid = "1"; now = 0 }) created
    ≡ ok (Reference.plain subscription_created "t1")
unfolding new_subscription_created new_envelope
enveloped_created = refl

acked : SettledBy session (process services Reference.reference "ra@b" session) ack
unfolding process send_command publish_fresh published settle to_command command_for release_command
    decode_release_detected
acked = refl

process_redelivered_once_example :
    (process services Reference.reference "ra@b"
      (process services Reference.reference "ra@b" session)).store.log
    ≡ (process services Reference.reference "ra@b" session).store.log
process_redelivered_once_example =
    process_redelivered_once services (λ w. holds w.keys) (λ w. w.log) services-Remembers
      Reference.reference "ra@b" session acked

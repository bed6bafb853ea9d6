-- ===== src/Grpc.antt =====
-- internal/transport/grpc/mailer: the gRPC transport between the notifier and the mailer. The
-- generated messages of proto/mailer/v1 are data here, after mailer.proto.
use software_engineering_sch.Prelude.{
  ℕ, zero, suc, ◌+◌, ◌-◌, ◌*◌, ◌/◌, ◌%◌, ◌^◌, ◌≤◌, ◌<◌, String, ◌≡◌, refl, sym, ap, ◌∙◌, subst, ◌≢◌,
  ◌↔◌, ◌⊎◌, inl, inr, Bool, true, false, ◌&&◌, ◌||◌, not, Option, none, some, List, [], ◌∷◌, ◌++◌,
  map, arith, str_eq, str_append, eq_iff, eq_refl, ltb, leb, ◌==◌, if◌then◌else◌, Bool-cases,
  Option-cases, length, take, filter, find?, any, map_where, All, All-append, All-map_where,
  All-imp, length-append, Error, record_not_found, already_settled, unknown_email_type, other,
  message, quoted, Result, ok, err, Result-cases, ltb→lt, lt→ltb, leb→le, ==_iff, ==_refl,
}
use software_engineering_sch.Command.{
  EmailType, new_release, repo_moved, email_verification, unrecognised, Any, text, non_text,
  DeliveryMessage,
}
use software_engineering_sch.Mailer.{Outcome, delivered, failed, poison, delivery_outcome}
pub mod Delivery
mod Tests

-- EmailType; a code that the peer does not know is kept as a number.
pub data EmailCode : Type 0 where
  unspecified_type new_release_type repo_moved_type email_verification_type : EmailCode
  other_type : ℕ → EmailCode

-- DeliveryOutcome
pub data OutcomeCode : Type 0 where
  unspecified_outcome delivered_code failed_code poison_code : OutcomeCode
  other_code : ℕ → OutcomeCode

-- DeliveryCommand
pub record DeliveryCommand : Type 0 where
  pub kind : EmailCode
  pub email : String
  pub repo : String
  pub release : String
  pub payload : List (String × String)

-- A map lookup that misses gives the zero code.
unfoldable pub event_to_proto : EmailType → EmailCode
event_to_proto new_release = new_release_type
event_to_proto repo_moved = repo_moved_type
event_to_proto email_verification = email_verification_type
event_to_proto (unrecognised s) = unspecified_type

-- A miss gives the empty event type.
unfoldable pub proto_to_event : EmailCode → EmailType
proto_to_event new_release_type = new_release
proto_to_event repo_moved_type = repo_moved
proto_to_event email_verification_type = email_verification
proto_to_event _ = unrecognised ""

unfoldable pub outcome_to_proto : Outcome → OutcomeCode
outcome_to_proto delivered = delivered_code
outcome_to_proto failed = failed_code
outcome_to_proto poison = poison_code

-- A miss gives the empty label, which is no outcome.
unfoldable pub proto_to_outcome : OutcomeCode → Option Outcome
proto_to_outcome delivered_code = some delivered
proto_to_outcome failed_code = some failed
proto_to_outcome poison_code = some poison
proto_to_outcome _ = none

-- Only the string values are sent.
abbrev pub string_values : List (String × Any) → List (String × String)
string_values [] = []
string_values ((k, text s) ∷ m) = (k, s) ∷ string_values m
string_values ((k, non_text s) ∷ m) = string_values m

abbrev pub as_values : List (String × String) → List (String × Any)
as_values [] = []
as_values ((k, s) ∷ m) = (k, text s) ∷ as_values m

unfoldable pub to_proto : DeliveryMessage → DeliveryCommand
unfolding event_to_proto
to_proto msg = record {
  kind = event_to_proto msg.event;
  email = msg.email;
  repo = msg.repo;
  release = msg.release;
  payload = string_values msg.payload;
}

unfoldable pub from_proto : DeliveryCommand → DeliveryMessage
unfolding proto_to_event
from_proto cmd = record {
  event = proto_to_event cmd.kind;
  email = cmd.email;
  repo = cmd.repo;
  release = cmd.release;
  payload = as_values cmd.payload;
}

-- What `stream.Recv` returns.
pub data Received : Type 0 where
  command : DeliveryCommand → Received
  eof : Received
  broken : Error → Received

module _ {W : Type 0} (deliver : DeliveryMessage → W → Option Error × W) where
  -- `Server.deliver` and `Server.Send`
  unfoldable pub send : DeliveryCommand → W → OutcomeCode × W
  unfolding outcome_to_proto delivery_outcome from_proto
  send cmd w =
      let (e, w') = deliver (from_proto cmd) w in (outcome_to_proto (delivery_outcome e), w')

  -- `SendStream`, by what the stream receives and by what each `stream.Send` returns: the outcomes
  -- that were sent, the error, the world.
  unfoldable pub send_stream :
      (OutcomeCode → Option Error) → List Received → W → List OutcomeCode × Option Error × W
  unfolding send
  send_stream reply [] w = ([], none, w)
  send_stream reply (eof ∷ rs) w = ([], none, w)
  send_stream reply (broken e ∷ rs) w = ([], some e, w)
  send_stream reply (command cmd ∷ rs) w =
      let (code, w') = send cmd w in
      let (codes, e, w'') = send_stream reply rs w' in
      elim (reply code) [ some x ↦ ([], some x, w') | none ↦ (code ∷ codes, e, w'') ]

-- What the client makes of an answer.
unfoldable pub publish_result : Result OutcomeCode → Option Error
unfolding proto_to_outcome
publish_result (err e) = some e
publish_result (ok code) = elim (proto_to_outcome code) [
  | none ↦ some (other "mailer did not deliver: ")
  | some o ↦ elim o [
    | delivered ↦ none
    | failed ↦ some (other "mailer did not deliver: failed")
    | poison ↦ some (other "mailer did not deliver: poison")
  ]
]

-- `Client.Publish`: the call either reaches the server or fails on the way.
unfoldable pub publish :
    {W : Type 0}
    → (DeliveryCommand → W → Result OutcomeCode × W)
    → DeliveryMessage
    → W
    → Option Error × W
unfolding publish_result to_proto
publish call cmd w = let (r, w') = call (to_proto cmd) w in (publish_result r, w')

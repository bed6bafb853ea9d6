-- ===== src/Notifier.antt =====
-- internal/worker/notifier/notifier.go and broker.go: domain events turned into email commands, once
-- for each event as far as the dedup store remembers. The store and the publisher are parameters.
use software_engineering_sch.Prelude.{
  ℕ, zero, suc, ◌+◌, ◌-◌, ◌*◌, ◌/◌, ◌%◌, ◌^◌, ◌≤◌, ◌<◌, String, ◌≡◌, refl, sym, ap, ◌∙◌, subst, ◌≢◌,
  ◌↔◌, ◌⊎◌, inl, inr, Bool, true, false, ◌&&◌, ◌||◌, not, Option, none, some, List, [], ◌∷◌, ◌++◌,
  map, arith, str_eq, str_append, eq_iff, eq_refl, ltb, leb, ◌==◌, if◌then◌else◌, Bool-cases,
  Option-cases, length, take, filter, find?, any, map_where, All, All-append, All-map_where,
  All-imp, length-append, Error, record_not_found, already_settled, unknown_email_type, other,
  message, quoted, Result, ok, err, Result-cases, ltb→lt, lt→ltb, leb→le, ==_iff, ==_refl,
}
use software_engineering_sch.Events.{
  EventType, Envelope, Json, release_detected, repository_moved, subscription_created,
  verification_delivered, verification_failed, unknown, routing_key, ReleaseDetected,
  RepositoryMoved, SubscriptionCreated, decode_release_detected, decode_repository_moved,
  decode_subscription_created,
}
use software_engineering_sch.Broker.Settler.{
  Settlement, Session, ack, retry, dead_letter, settle, with_store,
}
use software_engineering_sch.Command.{
  DeliveryMessage, new_release, repo_moved, email_verification, text,
}
pub mod Commands
pub mod Dedup
pub mod Fresh
pub mod Publisher
mod Tests

abbrev pub dedup_key_prefix : String
dedup_key_prefix = "processed:"

-- The interfaces `DedupStore` and `CommandPublisher`, over one world.
pub record Services (W : Type 0) : Type 0 where
  pub mark_processed : String → W → Result Bool × W
  pub unmark : String → W → Option Error × W
  pub publish : DeliveryMessage → W → Option Error × W

-- fmt.Errorf("decode %s: %w", …)
abbrev decode_error : EventType → Error → Error
decode_error t (record_not_found s) =
    record_not_found (str_append "decode " (str_append (routing_key t) (str_append ": " s)))
decode_error t (already_settled s) =
    already_settled (str_append "decode " (str_append (routing_key t) (str_append ": " s)))
decode_error t (unknown_email_type s) =
    unknown_email_type (str_append "decode " (str_append (routing_key t) (str_append ": " s)))
decode_error t (other s) =
    other (str_append "decode " (str_append (routing_key t) (str_append ": " s)))

unfoldable pub release_command : Result ReleaseDetected → Result DeliveryMessage
release_command (ok p) = ok (record {
  event = new_release;
  email = p.email;
  repo = p.repo;
  release = p.release_tag;
  payload = [];
})
release_command (err e) = err (decode_error release_detected e)

unfoldable pub moved_command : Result RepositoryMoved → Result DeliveryMessage
moved_command (ok p) =
    ok (record { event = repo_moved; email = p.email; repo = p.repo; release = ""; payload = [] })
moved_command (err e) = err (decode_error repository_moved e)

unfoldable pub verification_command : Result SubscriptionCreated → Result DeliveryMessage
verification_command (ok p) = ok (record {
  event = email_verification;
  email = p.email;
  repo = "";
  release = "";
  payload = ("token", text p.token) ∷ [];
})
verification_command (err e) = err (decode_error subscription_created e)

unfoldable pub unknown_event : EventType → Result DeliveryMessage
unknown_event t = err (other (str_append "unknown event type: " (quoted (routing_key t))))

unfoldable pub command_for : Json → EventType → Envelope → Result DeliveryMessage
unfolding release_command moved_command verification_command unknown_event
command_for json release_detected env = release_command (decode_release_detected json env)
command_for json repository_moved env = moved_command (decode_repository_moved json env)
command_for json subscription_created env =
    verification_command (decode_subscription_created json env)
command_for json t env = unknown_event t

-- An event that it maps always warrants a command, so `send` is true whenever the error is nil.
unfoldable pub to_command : Json → Envelope → Result DeliveryMessage
unfolding command_for
to_command json env = command_for json env.event_type env

module _ {W : Type 0} (sv : Services W) where
  -- After the publish: a failure takes the mark back, and a failure of that is only logged.
  unfoldable pub published : String → Option Error → Session W → Session W
  published key none s = settle ack s
  published key (some e) s =
      settle (retry (str_append "publish command: " (message e)))
        (with_store (sv.unmark key s.store).1 s)

  unfoldable pub publish_fresh : String → DeliveryMessage → Result Bool → Session W → Session W
  unfolding published settle
  publish_fresh key cmd (err e) s = settle (retry (str_append "dedup check: " (message e))) s
  publish_fresh key cmd (ok false) s = settle ack s
  publish_fresh key cmd (ok true) s =
      let (r, w) = sv.publish cmd s.store in published key r (with_store w s)

  unfoldable pub send_command : String → Result DeliveryMessage → Session W → Session W
  unfolding publish_fresh settle
  send_command id (err e) s = settle (dead_letter (message e)) s
  send_command id (ok cmd) s =
      let key = str_append dedup_key_prefix id in
      let (fresh, w) = sv.mark_processed key s.store in publish_fresh key cmd fresh (with_store w s)

  process_on : Json → Result Envelope → Session W → Session W
  unfolding settle
  process_on json (err e) s = settle (dead_letter (str_append "unmarshal envelope: " (message e))) s
  process_on json (ok env) s = send_command env.id (to_command json env) s

  unfoldable pub process : Json → String → Session W → Session W
  unfolding process_on
  process json body s = process_on json (json.envelope.unmarshal body) s

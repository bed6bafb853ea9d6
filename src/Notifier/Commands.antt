-- ===== src/Notifier/Commands.antt =====
-- The commands that internal/worker/notifier/notifier.go makes, as the mailer of
-- internal/worker/mailer and the transport of internal/transport/grpc/mailer take them.
use software_engineering_sch.Prelude.{String, ◌≡◌, refl, some, [], ◌∷◌, Result, ok, err}
use software_engineering_sch.Events.{
  EventType, Envelope, Json, Stamp, release_detected, repository_moved, subscription_created,
  verification_delivered, verification_failed, unknown, ReleaseDetected, RepositoryMoved,
  SubscriptionCreated, decode_subscription_created, new_subscription_created, new_envelope-ok,
}
use software_engineering_sch.Command.{
  new_release, repo_moved, email_verification, text, DeliveryMessage,
}
use software_engineering_sch.Mailer.{build_email, verification_token}
use software_engineering_sch.Grpc.{to_proto, from_proto, event_to_proto, proto_to_event}
use software_engineering_sch.Notifier.{
  to_command, command_for, release_command, moved_command, verification_command, unknown_event,
}

-- The commands that the notifier can make: a known kind, and a payload of text.
data IsMade (cmd : DeliveryMessage) : Type 0 where
  release :
      (email repo tag : String)
      → cmd
        ≡ record { event = new_release; email = email; repo = repo; release = tag; payload = [] }
      → IsMade cmd
  moved :
      (email repo : String)
      → cmd ≡ record { event = repo_moved; email = email; repo = repo; release = ""; payload = [] }
      → IsMade cmd
  verification :
      (email token : String)
      → cmd ≡ record {
        event = email_verification;
        email = email;
        repo = "";
        release = "";
        payload = ("token", text token) ∷ [];
      }
      → IsMade cmd

release_command-IsMade :
    (r : Result ReleaseDetected) {cmd : DeliveryMessage} → release_command r ≡ ok cmd → IsMade cmd
unfolding release_command
release_command-IsMade (ok p) h = release p.email p.repo p.release_tag cc
release_command-IsMade (err e) h = cc

moved_command-IsMade :
    (r : Result RepositoryMoved) {cmd : DeliveryMessage} → moved_command r ≡ ok cmd → IsMade cmd
unfolding moved_command
moved_command-IsMade (ok p) h = moved p.email p.repo cc
moved_command-IsMade (err e) h = cc

verification_command-IsMade :
    (r : Result SubscriptionCreated) {cmd : DeliveryMessage}
    → verification_command r ≡ ok cmd
    → IsMade cmd
unfolding verification_command
verification_command-IsMade (ok p) h = verification p.email p.token cc
verification_command-IsMade (err e) h = cc

command_for-IsMade :
    (json : Json) (t : EventType) (env : Envelope) {cmd : DeliveryMessage}
    → command_for json t env ≡ ok cmd
    → IsMade cmd
unfolding command_for unknown_event
command_for-IsMade json release_detected env h = release_command-IsMade _ h
command_for-IsMade json repository_moved env h = moved_command-IsMade _ h
command_for-IsMade json subscription_created env h = verification_command-IsMade _ h
command_for-IsMade json verification_delivered env h = cc
command_for-IsMade json verification_failed env h = cc
command_for-IsMade json (unknown t) env h = cc

-- The mailer has an email for the command.
abbrev pub IsDeliverable : DeliveryMessage → Type 0
IsDeliverable cmd = (built : String × String) × (build_email cmd ≡ some built)

IsMade-IsDeliverable : (cmd : DeliveryMessage) → IsMade cmd → IsDeliverable cmd
unfolding build_email
IsMade-IsDeliverable cmd (release email repo tag e) = rw e (_, refl)
IsMade-IsDeliverable cmd (moved email repo e) = rw e (_, refl)
IsMade-IsDeliverable cmd (verification email token e) = rw e (_, refl)

-- Every command that the notifier makes of an event is one that the mailer has an email for: the
-- notifier never sends a command that the mailer takes for poison.
pub to_command-IsDeliverable :
    (json : Json) (env : Envelope) (cmd : DeliveryMessage)
    → to_command json env ≡ ok cmd
    → IsDeliverable cmd
unfolding to_command
to_command-IsDeliverable json env cmd h =
    IsMade-IsDeliverable cmd (command_for-IsMade json env.event_type env h)

IsMade-from_proto : (cmd : DeliveryMessage) → IsMade cmd → from_proto (to_proto cmd) ≡ cmd
unfolding from_proto to_proto event_to_proto proto_to_event
IsMade-from_proto cmd (release email repo tag e) = rw e refl
IsMade-from_proto cmd (moved email repo e) = rw e refl
IsMade-from_proto cmd (verification email token e) = rw e refl

-- The gRPC transport loses nothing of a command that the notifier makes.
pub to_command-from_proto :
    (json : Json) (env : Envelope) (cmd : DeliveryMessage)
    → to_command json env ≡ ok cmd
    → from_proto (to_proto cmd) ≡ cmd
unfolding to_command
to_command-from_proto json env cmd h =
    IsMade-from_proto cmd (command_for-IsMade json env.event_type env h)

-- The command that is made of a new subscription's event is the verification email of its address,
-- and the token that the mailer reads of it is the subscription's.
pub to_command-verification_token :
    (json : Json) (at : Stamp) (p : SubscriptionCreated) (env : Envelope)
    → new_subscription_created json at p ≡ ok env
    → (cmd : DeliveryMessage) × (to_command json env ≡ ok cmd)
      × (cmd.event ≡ email_verification)
      × (cmd.email ≡ p.email)
      × (verification_token cmd ≡ p.token)
unfolding to_command command_for new_subscription_created decode_subscription_created
    verification_command verification_token
to_command-verification_token json at p env made =
    let (kind, reads) = new_envelope-ok json.subscriptions at subscription_created p made in
    rw (kind, reads) (_, refl, refl, refl, refl)

-- ===== src/Programs/Tests.antt =====
-- The services on a broker that confirms everything and an SMTP server that is down.
use software_engineering_sch.Prelude.{
  String, ◌≡◌, refl, Bool, true, false, Option, none, some, List, [], ◌∷◌, ◌++◌, Error, other, ok,
  str_eq, eq_iff, arith, ◌&&◌, ℕ,
}
use software_engineering_sch.Events.{
  subscription_created, verification_failed, Codec, SubscriptionCreated, new_subscription_created,
  new_envelope, new_verification_failed,
}
use software_engineering_sch.Events.Reference
use software_engineering_sch.Db.{Contents, awaiting_delivery, pending}
use software_engineering_sch.Db.Reference.{reference}
use software_engineering_sch.Broker.Settler.{Session, Settlement, ack}
use software_engineering_sch.Broker.Schedule.{reliable}
use software_engineering_sch.Broker.Publisher
use software_engineering_sch.Command.{
  DeliveryMessage, Any, text, non_text, EmailType, email_verification, new_release, repo_moved,
  unrecognised,
}
use software_engineering_sch.Mailer
use software_engineering_sch.Notifier
use software_engineering_sch.Mailer.Reports.{Terminal}
use software_engineering_sch.Broker.Topology.{commands_endpoint, onboarding_saga_endpoint}
use software_engineering_sch.Saga.Store.{gorm_store}
use software_engineering_sch.Saga.Contract.{IsSagaStore, gorm_store-IsSagaStore}
use software_engineering_sch.Saga.Settlement.{ProcessedBy, SettledBy}
use software_engineering_sch.Saga.Orchestrator
use software_engineering_sch.Programs.{
  Amqp, DedupStore, mailer_service, notifier_services, command_publisher,
}
use software_engineering_sch.Programs.Handovers.{
  verification_of, mailed, result_event, is_delivered,
}
use software_engineering_sch.Grpc
use software_engineering_sch.Grpc.Delivery.{reaching}
use software_engineering_sch.Programs.Direct.{Directly, direct_settles}
use software_engineering_sch.Programs.Onboarding.{HandsOn, onboarding_settles}

abbrev Wire : Type 0
Wire = List Publisher.Sent

abbrev amqp : Amqp Wire
amqp = record {
  answers = λ w. reliable;
  put = λ xs w. w ++ xs;
  log = λ w. w;
  log_put = λ xs w. refl;
}

abbrev first_seen : DedupStore Wire
first_seen = record { mark_processed = λ k w. (ok true, w); unmark = λ k w. (none, w) }

abbrev subscription : SubscriptionCreated
subscription = record { email = "a@b"; token = "t1" }

abbrev smtp_down : String → String → String → Wire → Option Error × Wire
smtp_down email subject body w = (some (other "down"), w)

abbrev patient : ℕ → Wire → Option Error × Wire
patient b w = (none, w)

abbrev is_token : List (String × Any) → Bool
is_token [] = false
is_token ((k, text t) ∷ []) = str_eq k "token"
is_token ((k, text t) ∷ (x ∷ xs)) = false
is_token ((k, non_text t) ∷ xs) = false

abbrev token_in : List (String × Any) → String
token_in [] = ""
token_in ((k, text t) ∷ xs) = t
token_in ((k, non_text t) ∷ xs) = t

token_law :
    (xs : List (String × Any)) → is_token xs ≡ true → ("token", text (token_in xs)) ∷ [] ≡ xs
token_law [] h = cc
token_law ((k, text t) ∷ []) h = ground (arith, eq_iff k "token")
token_law ((k, text t) ∷ (x ∷ xs)) h = cc
token_law ((k, non_text t) ∷ xs) h = cc

event_law : (t : EmailType) → Mailer.is_verification t ≡ true → email_verification ≡ t
event_law email_verification h = refl
event_law new_release h = cc
event_law repo_moved h = cc
event_law (unrecognised s) h = cc

abbrev is_plain : DeliveryMessage → Bool
is_plain msg =
    Mailer.is_verification msg.event
    && is_token msg.payload
    && str_eq msg.email "a@b"
    && str_eq msg.repo ""
    && str_eq msg.release ""

verification_law :
    (msg : DeliveryMessage)
    → is_plain msg ≡ true
    → ok (verification_of (record { email = "a@b"; token = token_in msg.payload })) ≡ ok msg
verification_law msg h =
    let event : email_verification ≡ msg.event = event_law msg.event (ground arith) in
    let payload : ("token", text (token_in msg.payload)) ∷ [] ≡ msg.payload =
      token_law msg.payload (ground arith) in
    let email : "a@b" ≡ msg.email = ground (arith, eq_iff msg.email "a@b") in
    let repo : "" ≡ msg.repo = ground (arith, eq_iff msg.repo "") in
    let release : "" ≡ msg.release = ground (arith, eq_iff msg.release "") in
    cc (event, payload, email, repo, release)

-- A codec that writes only verifications for one address, as their token.
abbrev commands : Codec DeliveryMessage
commands =
    Reference.codec is_plain (λ msg. token_in msg.payload)
      (λ s. ok (verification_of (record { email = "a@b"; token = s }))) verification_law

abbrev mailer : Mailer.Mailer Wire
mailer =
    mailer_service amqp Reference.reference (λ w. record { uuid = "1"; now = 0 }) smtp_down patient

abbrev services : Notifier.Services Wire
services = notifier_services (command_publisher amqp commands) first_seen

-- After five attempts the mailer gives up.
mail_fails : (mailed mailer subscription []).result ≡ some (other "down")
unfolding mailer_service Mailer.send_with_retry Mailer.attempt
mail_fails = refl

abbrev service_session : Session Wire
service_session = record { store = []; settled = [] }

created :
    new_subscription_created Reference.reference (record { uuid = "1"; now = 0 }) subscription
    ≡ ok (Reference.plain subscription_created "t1")
unfolding new_subscription_created new_envelope
created = refl

written : commands.marshal (verification_of subscription) ≡ ok "t1"
written = refl

failure :
    result_event Reference.reference
      (record { uuid = "1"; now = 0 })
      "t1"
      (mailed mailer subscription []).result
    ≡ ok (Reference.plain verification_failed "t1")
unfolding new_verification_failed new_envelope
failure = rw mail_fails refl

abbrev onboarding : Contents
onboarding = record {
  repositories = [];
  subscriptions =
      record {
        id = 1;
        deleted = false;
        email = "a@b";
        repository_id = 7;
        status = pending;
        confirm_token = "t1";
        api_token = "";
      }
      ∷ [];
  sagas =
      record {
        id = 1;
        deleted = false;
        created_at = 5;
        confirm_token = "t1";
        state = awaiting_delivery;
      }
      ∷ [];
  outbox = [];
}

abbrev saga_session : Session Contents
saga_session = record { store = onboarding; settled = [] }

law : IsSagaStore 100 (gorm_store reference 100) reference.contents
law = gorm_store-IsSagaStore reference 100

onboarding_settles_example :
    SettledBy service_session
      (Notifier.process services Reference.reference "st1" service_session)
      ack
    × HandsOn commands_endpoint "t1" []
        (Notifier.process services Reference.reference "st1" service_session).store
    × ((x : Settlement) × SettledBy service_session
          (Mailer.process mailer commands "t1" service_session)
          x
        × Terminal (mailed mailer subscription []).result x)
    × HandsOn onboarding_saga_endpoint "ft1"
        (mailed mailer subscription []).world
        (Mailer.process mailer commands "t1" service_session).store
    × ProcessedBy law
        (some (record {
          delivered = is_delivered (mailed mailer subscription []).result;
          token = "t1";
        }))
        saga_session
        (Orchestrator.process (gorm_store reference 100) Reference.reference "ft1" saga_session)
onboarding_settles_example =
    onboarding_settles amqp Reference.reference (λ w. record { uuid = "1"; now = 0 }) smtp_down
      patient commands first_seen (record { uuid = "1"; now = 0 }) subscription
      (Reference.plain subscription_created "t1") (Reference.plain verification_failed "t1") "st1"
      "t1" "ft1" service_session service_session law saga_session created refl refl refl written
      refl failure refl

-- The notifier calls this mailer over gRPC: the failure is reported, and the event comes back.
direct_settles_example :
    ((x : Settlement) × SettledBy service_session
        (Notifier.process
          (notifier_services (Grpc.publish (reaching (Mailer.deliver mailer))) first_seen)
          Reference.reference
          "st1"
          service_session)
        x
      × Directly
          (first_seen.unmark "processed:1")
          ((mailed mailer subscription []).world
            ++ (record {
              exchange = "github_scanner.events";
              routing_key = "verification.failed";
              body = "ft1";
              landed = true;
            }
                ∷ []))
          (Notifier.process
            (notifier_services (Grpc.publish (reaching (Mailer.deliver mailer))) first_seen)
            Reference.reference
            "st1"
            service_session).store
          (mailed mailer subscription []).result
          x)
    × HandsOn onboarding_saga_endpoint "ft1"
        (mailed mailer subscription []).world
        (Notifier.process
          (notifier_services (Grpc.publish (reaching (Mailer.deliver mailer))) first_seen)
          Reference.reference
          "st1"
          service_session).store
    × ProcessedBy law
        (some (record {
          delivered = is_delivered (mailed mailer subscription []).result;
          token = "t1";
        }))
        saga_session
        (Orchestrator.process (gorm_store reference 100) Reference.reference "ft1" saga_session)
unfolding mailer_service Mailer.send_with_retry Mailer.attempt
direct_settles_example =
    direct_settles amqp Reference.reference (λ w. record { uuid = "1"; now = 0 }) smtp_down patient
      first_seen (record { uuid = "1"; now = 0 }) subscription
      (Reference.plain subscription_created "t1") (Reference.plain verification_failed "t1") "st1"
      "ft1" service_session law saga_session (λ k w. refl) created refl refl refl failure refl

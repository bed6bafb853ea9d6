-- ===== src/Programs/Direct.antt =====
-- The notifier that calls the mailer over gRPC, as `newCommandPublisher` of cmd/notifier/main.go can set
-- it up, and the outcome that the mailer reports beside its answer.
use software_engineering_sch.Prelude.{
  String, ◌≡◌, refl, sym, ap, ◌∙◌, subst, Bool, true, Option, none, some, [], ◌∷◌, str_append,
  Error, Result, ok, ℕ,
}
use software_engineering_sch.Events.{
  Envelope, Json, Stamp, SubscriptionCreated, new_subscription_created, subscription_created,
  new_envelope-ok, decode_subscription_created,
}
use software_engineering_sch.Broker.Settler.{Session, Settlement, ack, retry, settle}
use software_engineering_sch.Broker.Schedule.{reliable}
use software_engineering_sch.Broker.Topology.{onboarding_saga_endpoint, events_exchange}
use software_engineering_sch.Command.{DeliveryMessage}
use software_engineering_sch.Grpc
use software_engineering_sch.Grpc.Delivery.{reaching}
use software_engineering_sch.Notifier
use software_engineering_sch.Notifier.Fresh.{process-published}
use software_engineering_sch.Mailer
use software_engineering_sch.Db.{Contents}
use software_engineering_sch.Saga.Store.{Store}
use software_engineering_sch.Saga.Contract.{IsSagaStore}
use software_engineering_sch.Saga.Orchestrator
use software_engineering_sch.Saga.Settlement.{SettledBy, ProcessedBy, process-Processed}
use software_engineering_sch.Programs.{Amqp, DedupStore, notifier_services, mailer_service}
use software_engineering_sch.Programs.Handovers.{
  verification_of, confirmed_at, result_event, result_key, is_delivered, mailed, report-sent,
  result_event-report,
}
use software_engineering_sch.Programs.Onboarding.{HandsOn, result_key-bound}

-- What the client makes of the mailer's outcome.
abbrev answered : Option Error → Option Error
answered o = Grpc.publish_result (ok (Grpc.outcome_to_proto (Mailer.delivery_outcome o)))

-- How the notifier settles an event whose command was delivered at once, by the outcome, and in what
-- world: it calls for the mark of an event that it retries to be taken back.
pub data Directly {W : Type 0} (unmark : W → Option Error × W) (w w' : W)
    : Option Error → Settlement → Type 0 where
  done : w' ≡ w → Directly unmark w w' none ack
  again : {e : Error} (m : String) → w' ≡ (unmark w).1 → Directly unmark w w' (some e) (retry m)

module _ {W : Type 0} (amqp : Amqp W) (json : Json) (stamp : W → Stamp)
    (send_email : String → String → String → W → Option Error × W)
    (wait : ℕ → W → Option Error × W) where
  abbrev mlr : Mailer.Mailer W
  mlr = mailer_service amqp json stamp send_email wait

  -- The publisher of a client whose calls reach the mailer.
  abbrev client : DeliveryMessage → W → Option Error × W
  client = Grpc.publish (reaching (Mailer.deliver mlr))

  client-mailed :
      (p : SubscriptionCreated) (w : W)
      → ((client (verification_of p) w).1
          ≡ Mailer.report mlr (verification_of p) (mailed mlr p w).result (mailed mlr p w).world)
        × ((client (verification_of p) w).0 ≡ answered (mailed mlr p w).result)
  unfolding Grpc.publish Grpc.send Grpc.from_proto Grpc.to_proto Grpc.event_to_proto
      Grpc.proto_to_event Mailer.deliver Mailer.deliver_built Mailer.build_email
  client-mailed p w = (refl, refl)

published-Directly :
    {W : Type 0} (sv : Notifier.Services W) (key : String) (o : Option Error) (s : Session W)
    → (x : Settlement) × SettledBy s (Notifier.published sv key (answered o) s) x
      × Directly (sv.unmark key) s.store (Notifier.published sv key (answered o) s).store o x
unfolding Notifier.published settle Grpc.publish_result Grpc.outcome_to_proto Grpc.proto_to_outcome
    Mailer.delivery_outcome
published-Directly sv key none s = (ack, refl, done refl)
published-Directly sv key (some (Error.record_not_found t)) s = (retry _, refl, again _ refl)
published-Directly sv key (some (Error.already_settled t)) s = (retry _, refl, again _ refl)
published-Directly sv key (some (Error.unknown_email_type t)) s = (retry _, refl, again _ refl)
published-Directly sv key (some (Error.other t)) s = (retry _, refl, again _ refl)

published-log :
    {W A : Type 0} (sv : Notifier.Services W) (log : W → A) (key : String) (r : Option Error)
    (s : Session W)
    → ((k : String) (w : W) → log (sv.unmark k w).1 ≡ log w)
    → log (Notifier.published sv key r s).store ≡ log s.store
unfolding Notifier.published settle
published-log sv log key none s keeps = refl
published-log sv log key (some e) s keeps = keeps key s.store

module _ {W : Type 0} (amqp : Amqp W) (json : Json) (stamp : W → Stamp)
    (send_email : String → String → String → W → Option Error × W) (wait : ℕ → W → Option Error × W)
    (dedup : DedupStore W) where
  abbrev service : Mailer.Mailer W
  service = mlr amqp json stamp send_email wait

  abbrev services : Notifier.Services W
  services = notifier_services (client amqp json stamp send_email wait) dedup

  abbrev marked : Envelope → Session W → Result Bool × W
  marked event s = dedup.mark_processed (str_append "processed:" event.id) s.store

  -- What the notifier leaves once the mailer has reported the outcome.
  direct-process :
      (at : Stamp) (p : SubscriptionCreated) (event result : Envelope) (body result_body : String)
      (n : Session W)
      → new_subscription_created json at p ≡ ok event
      → json.envelope.marshal event ≡ ok body
      → (marked event n).0 ≡ ok true
      → amqp.answers (mailed service p (marked event n).1).world ≡ reliable
      → result_event json
          (stamp (mailed service p (marked event n).1).world)
          p.token
          (mailed service p (marked event n).1).result
        ≡ ok result
      → json.envelope.marshal result ≡ ok result_body
      → Notifier.process services json body n
        ≡ Notifier.published services
            (str_append "processed:" event.id)
            (answered (mailed service p (marked event n).1).result)
            (record n {
              store =
                  amqp.put
                    (confirmed_at events_exchange
                        (result_key (mailed service p (marked event n).1).result)
                        result_body
                      ∷ [])
                    (mailed service p (marked event n).1).world;
            })
  unfolding Notifier.to_command Notifier.command_for new_subscription_created
      decode_subscription_created Notifier.verification_command notifier_services
  direct-process at p event result body result_body n made wrote fresh answers result_made
        result_wrote =
      let (kind, reads) = new_envelope-ok json.subscriptions at subscription_created p made in
      let maps : Notifier.to_command json event ≡ ok (verification_of p) = rw (kind, reads) refl in
      let (world, answer) = client-mailed amqp json stamp send_email wait p (marked event n).1 in
      let called = client amqp json stamp send_email wait (verification_of p) (marked event n).1 in
      let outcome = (mailed service p (marked event n).1).result in
      let key = str_append "processed:" event.id in
      process-published services json body event (verification_of p) n
        (json.envelope.round_trip event body wrote) maps fresh
      ∙ ap (λ r. Notifier.published services key r (record n { store = called.1 })) answer
      ∙ ap (λ w. Notifier.published services key (answered outcome) (record n { store = w }))
          (world
            ∙ report-sent amqp json stamp send_email wait p outcome result result_body _ answers
                result_made result_wrote)

  -- A notifier that calls the mailer over gRPC and sees the event of a new subscription for the first
  -- time: the mailer hands on one result of the mail, to the queue of the orchestrator, which
  -- processes it as the one of the subscription's token, delivered exactly if the mail was sent,
  -- whatever its store answers; and the notifier acks the event if the mail was sent, and if not calls
  -- for the event's mark to be taken back, whether or not that works, and asks for a retry. So a mail
  -- that failed is reported to the saga as failed while its event is handed back to be retried. It is
  -- required that the call reaches the mailer and its answer comes back, that the broker confirms, and
  -- that the messages can be marshalled.
  pub direct_settles {ℓ} :
      (at : Stamp) (p : SubscriptionCreated) (event result : Envelope) (body result_body : String)
      (n : Session W) {S : Type ℓ} {now : ℕ} {st : Store S} {view : S → Contents}
      (law : IsSagaStore now st view) (s : Session S)
      → ((key : String) (w : W) → amqp.log (dedup.unmark key w).1 ≡ amqp.log w)
      → new_subscription_created json at p ≡ ok event
      → json.envelope.marshal event ≡ ok body
      → (marked event n).0 ≡ ok true
      → amqp.answers (mailed service p (marked event n).1).world ≡ reliable
      → result_event json
          (stamp (mailed service p (marked event n).1).world)
          p.token
          (mailed service p (marked event n).1).result
        ≡ ok result
      → json.envelope.marshal result ≡ ok result_body
      → ((x : Settlement) × SettledBy n (Notifier.process services json body n) x
          × Directly
              (dedup.unmark (str_append "processed:" event.id))
              (amqp.put
                (confirmed_at events_exchange
                    (result_key (mailed service p (marked event n).1).result)
                    result_body
                  ∷ [])
                (mailed service p (marked event n).1).world)
              (Notifier.process services json body n).store
              (mailed service p (marked event n).1).result
              x)
        × HandsOn onboarding_saga_endpoint result_body
            (amqp.log (mailed service p (marked event n).1).world)
            (amqp.log (Notifier.process services json body n).store)
        × ProcessedBy law
            (some (record {
              delivered = is_delivered (mailed service p (marked event n).1).result;
              token = p.token;
            }))
            s
            (Orchestrator.process st json result_body s)
  unfolding notifier_services
  direct_settles at p event result body result_body n {st = st} law saga_s keeps made wrote fresh
        answers result_made result_wrote =
      let outcome = (mailed service p (marked event n).1).result in
      let key = str_append "processed:" event.id in
      let s : Session W = record n {
        store =
            amqp.put (confirmed_at events_exchange (result_key outcome) result_body ∷ [])
              (mailed service p (marked event n).1).world;
      } in
      let left =
        direct-process at p event result body result_body n made wrote fresh answers result_made
          result_wrote in
      let (x, once, how) = published-Directly services key outcome s in
      (
        (
          x,
          ap (λ n'. n'.settled) left ∙ once,
          subst (λ w. Directly (dedup.unmark key) s.store w outcome x)
              (sym (ap (λ n'. n'.store) left)) how,
        ),
        record {
          sent = confirmed_at events_exchange (result_key outcome) result_body;
          adds =
              ap (λ n'. amqp.log n'.store) left
              ∙ published-log services amqp.log key (answered outcome) s keeps
              ∙ amqp.log_put _ _;
          carries = refl;
          is_confirmed = refl;
          to_exchange = refl;
          is_bound = result_key-bound outcome;
        },
        subst (λ r. ProcessedBy law r saga_s (Orchestrator.process st json result_body saga_s))
            (result_event-report json _ p.token result_body outcome result result_made result_wrote)
            (process-Processed law json result_body saga_s),
      )

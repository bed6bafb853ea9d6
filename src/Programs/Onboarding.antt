-- ===== src/Programs/Onboarding.antt =====
-- The way of a new subscription through the services: the notifier, the mailer and the orchestrator
-- one after the other, over the messages that they leave on the broker.
use software_engineering_sch.Prelude.{
  String, ◌≡◌, refl, ap, ◌∙◌, subst, true, Option, none, some, List, [], ◌∷◌, ◌++◌, str_append,
  Error, ok, ℕ, Mem,
}
use software_engineering_sch.Events.{
  Envelope, Json, Codec, Stamp, SubscriptionCreated, new_subscription_created,
}
use software_engineering_sch.Db.{Contents}
use software_engineering_sch.Broker.Settler.{Session, Settlement, ack}
use software_engineering_sch.Broker.Schedule.{reliable}
use software_engineering_sch.Broker.Publisher
use software_engineering_sch.Broker.Topology.{
  Endpoint, commands_endpoint, onboarding_saga_endpoint, commands_exchange, events_exchange,
  key_email_send,
}
use software_engineering_sch.Command.{DeliveryMessage}
use software_engineering_sch.Notifier
use software_engineering_sch.Mailer
use software_engineering_sch.Mailer.{second}
use software_engineering_sch.Mailer.Reports.{Terminal, settlement_of-Terminal}
use software_engineering_sch.Saga.Store.{Store}
use software_engineering_sch.Saga.Contract.{IsSagaStore}
use software_engineering_sch.Saga.Orchestrator
use software_engineering_sch.Saga.Settlement.{SettledBy, ProcessedBy, process-Processed}
use software_engineering_sch.Programs.{
  Amqp, DedupStore, notifier_services, command_publisher, mailer_results, mailer_service,
}
use software_engineering_sch.Programs.Handovers.{
  verification_of, confirmed_at, result_event, result_key, is_delivered, mailed,
  result_event-report, notifier-process, mailer-process,
}

-- One more message that the broker has confirmed, and binds to the main queue of the endpoint.
pub record HandsOn (endpoint : Endpoint) (body : String) (before after : List Publisher.Sent)
    : Type 0 where
  pub sent : Publisher.Sent
  pub adds : after ≡ before ++ (sent ∷ [])
  pub carries : sent.body ≡ body
  pub is_confirmed : sent.landed ≡ true
  pub to_exchange : sent.exchange ≡ endpoint.exchange
  pub is_bound : Mem sent.routing_key endpoint.routing_keys

pub result_key-bound : (o : Option Error) → Mem (result_key o) onboarding_saga_endpoint.routing_keys
result_key-bound none = Mem.first
result_key-bound (some e) = Mem.later Mem.first

module _ {W : Type 0} (amqp : Amqp W) (json : Json) (stamp : W → Stamp)
    (send_email : String → String → String → W → Option Error × W)
    (wait : ℕ → W → Option Error × W) where
  abbrev mlr : Mailer.Mailer W
  mlr = mailer_service amqp json stamp send_email wait

  -- A new subscription goes through the services in turn, each on its own state. The notifier, whose
  -- dedup store marks the event as new, acks it and hands on one command, to the queue of the mailer.
  -- The mailer tries to mail the token, settles the command once and without a retry, and hands on
  -- one result, to the queue of the orchestrator. The orchestrator processes that result as the one of
  -- the subscription's token, delivered exactly if the mail was sent, whatever its store answers. It
  -- is required that the broker confirms both messages and that the three can be marshalled; how the
  -- mail ends is open.
  pub onboarding_settles {ℓ} :
      (commands : Codec DeliveryMessage) (dedup : DedupStore W) (at : Stamp)
      (p : SubscriptionCreated) (event result : Envelope) (body cmd_body result_body : String)
      (n m : Session W) {S : Type ℓ} {now : ℕ} {st : Store S} {view : S → Contents}
      (law : IsSagaStore now st view) (s : Session S)
      → new_subscription_created json at p ≡ ok event
      → json.envelope.marshal event ≡ ok body
      → (dedup.mark_processed (str_append "processed:" event.id) n.store).0 ≡ ok true
      → amqp.answers (dedup.mark_processed (str_append "processed:" event.id) n.store).1 ≡ reliable
      → commands.marshal (verification_of p) ≡ ok cmd_body
      → amqp.answers (mailed mlr p m.store).world ≡ reliable
      → result_event json (stamp (mailed mlr p m.store).world) p.token (mailed mlr p m.store).result
        ≡ ok result
      → json.envelope.marshal result ≡ ok result_body
      → SettledBy n
          (Notifier.process (notifier_services (command_publisher amqp commands) dedup) json body n)
          ack
        × HandsOn commands_endpoint cmd_body
            (amqp.log (dedup.mark_processed (str_append "processed:" event.id) n.store).1)
            (amqp.log
              (Notifier.process
                (notifier_services (command_publisher amqp commands) dedup)
                json
                body
                n).store)
        × ((x : Settlement) × SettledBy m (Mailer.process mlr commands cmd_body m) x
            × Terminal (mailed mlr p m.store).result x)
        × HandsOn onboarding_saga_endpoint result_body
            (amqp.log (mailed mlr p m.store).world)
            (amqp.log (Mailer.process mlr commands cmd_body m).store)
        × ProcessedBy law
            (some
              (record { delivered = is_delivered (mailed mlr p m.store).result; token = p.token }))
            s
            (Orchestrator.process st json result_body s)
  unfolding mailer_service
  onboarding_settles commands dedup at p event result body cmd_body result_body n m {st = st} law s
        made wrote fresh n_answers cmd_wrote m_answers result_made result_wrote =
      let notified =
        notifier-process amqp json commands dedup at p event body cmd_body n made wrote fresh
          n_answers cmd_wrote in
      let outcome = (mailed mlr p m.store).result in
      let mailed_on =
        mailer-process amqp json stamp send_email wait commands p result cmd_body result_body m
          cmd_wrote m_answers result_made result_wrote in
      (
        ap (λ x. x.settled) notified,
        record {
          sent = confirmed_at commands_exchange key_email_send cmd_body;
          adds = ap (λ x. amqp.log x.store) notified ∙ amqp.log_put _ _;
          carries = refl;
          is_confirmed = refl;
          to_exchange = refl;
          is_bound = Mem.first;
        },
        (
          Mailer.settlement_of mlr (verification_of p) outcome,
          ap (λ x. x.settled) mailed_on,
          settlement_of-Terminal mlr (mailer_results amqp json stamp) (verification_of p) outcome
              refl refl,
        ),
        record {
          sent = confirmed_at events_exchange (result_key outcome) result_body;
          adds = ap (λ x. amqp.log x.store) mailed_on ∙ amqp.log_put _ _;
          carries = refl;
          is_confirmed = refl;
          to_exchange = refl;
          is_bound = result_key-bound outcome;
        },
        subst (λ r. ProcessedBy law r s (Orchestrator.process st json result_body s))
            (result_event-report json _ p.token result_body outcome result result_made result_wrote)
            (process-Processed law json result_body s),
      )

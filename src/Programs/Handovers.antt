-- ===== src/Programs/Handovers.antt =====
-- What the notifier and the mailer, as cmd/notifier/main.go and cmd/mailer/main.go put them together,
-- hand on over a broker that confirms.
use software_engineering_sch.Prelude.{
  String, ◌≡◌, refl, ap, ◌∙◌, Bool, true, false, Option, none, some, [], ◌∷◌, ◌++◌, str_append,
  Error, Result, ok, message, ℕ, suc,
}
use software_engineering_sch.Events.{
  Envelope, Json, Codec, Stamp, SubscriptionCreated, new_subscription_created,
  new_verification_delivered, new_verification_failed, subscription_created, new_envelope-ok,
  decode_subscription_created,
}
use software_engineering_sch.Broker.Settler.{Session, ack}
use software_engineering_sch.Broker.Schedule.{reliable}
use software_engineering_sch.Broker.Publisher
use software_engineering_sch.Broker.Topology.{commands_exchange, events_exchange, key_email_send}
use software_engineering_sch.Command.{DeliveryMessage, email_verification, text}
use software_engineering_sch.Notifier
use software_engineering_sch.Notifier.Fresh.{process_fresh}
use software_engineering_sch.Mailer
use software_engineering_sch.Mailer.{second}
use software_engineering_sch.Mailer.Reports.{process-deliver}
use software_engineering_sch.Mailer.Results.{
  publish_event, new_result_publisher, new_verification_delivered-report,
  new_verification_failed-report,
}
use software_engineering_sch.Saga.Report.{report}
use software_engineering_sch.Programs.{
  Amqp, DedupStore, publish_via, notifier_services, command_publisher, mailer_results,
  mailer_service,
}

-- The command that asks for the verification email of a new subscription.
abbrev pub verification_of : SubscriptionCreated → DeliveryMessage
verification_of p = record {
  event = email_verification;
  email = p.email;
  repo = "";
  release = "";
  payload = ("token", text p.token) ∷ [];
}

-- A message that the broker has confirmed.
abbrev pub confirmed_at : String → String → String → Publisher.Sent
confirmed_at exchange key body = record {
  exchange = exchange;
  routing_key = key;
  body = body;
  landed = true;
}

-- The result event of a delivery, by the error that it ended with.
abbrev pub result_event : Json → Stamp → String → Option Error → Result Envelope
result_event json at token none = new_verification_delivered json at (record { token = token })
result_event json at token (some e) =
    new_verification_failed json at (record { token = token; reason = message e })

abbrev pub result_key : Option Error → String
result_key none = "verification.delivered"
result_key (some e) = "verification.failed"

abbrev pub is_delivered : Option Error → Bool
is_delivered none = true
is_delivered (some e) = false

-- The verification email, with its retries.
abbrev pub mailed : {W : Type 0} → Mailer.Mailer W → SubscriptionCreated → W → Mailer.Tried W
mailed m p w =
    Mailer.send_with_retry m p.email "Verify your email"
      (str_append "Your verification token is " p.token) w

pub result_event-report :
    (json : Json) (at : Stamp) (token body : String) (o : Option Error) (env : Envelope)
    → result_event json at token o ≡ ok env
    → json.envelope.marshal env ≡ ok body
    → report json body ≡ some (record { delivered = is_delivered o; token = token })
result_event-report json at token body none env made wrote =
    new_verification_delivered-report json at token body env made wrote
result_event-report json at token body (some e) env made wrote =
    new_verification_failed-report json at token (message e) body env made wrote

-- A loop of attempts ends with the first one if that succeeds.
attempt_first :
    {W : Type 0} (wait : ℕ → W → Option Error × W) (act : W → Option Error × W) (left backoff : ℕ)
    (w : W) {done : W}
    → act w ≡ (none, done)
    → (Mailer.attempt wait act (suc left) backoff w).world ≡ done
unfolding Mailer.attempt
attempt_first wait act left backoff w sent =
    rw (Mailer.attempt, ap (λ x. x.0) sent) (ap (λ x. x.1) sent)

module _ {W : Type 0} (amqp : Amqp W) where
  publish_via_confirmed :
      (exchange key message : String) (body : Result String) (w : W)
      → amqp.answers w ≡ reliable
      → body ≡ ok message
      → publish_via amqp exchange key body w
        ≡ (none, amqp.put (confirmed_at exchange key message ∷ []) w)
  unfolding publish_via Publisher.publish Publisher.publish_on Publisher.publish_open
      Publisher.wait_error
  publish_via_confirmed exchange key message body w answers wrote = rw (answers, wrote) refl

  pub notifier-process :
      (json : Json) (commands : Codec DeliveryMessage) (dedup : DedupStore W) (at : Stamp)
      (p : SubscriptionCreated) (env : Envelope) (body cmd_body : String) (s : Session W)
      → new_subscription_created json at p ≡ ok env
      → json.envelope.marshal env ≡ ok body
      → (dedup.mark_processed (str_append "processed:" env.id) s.store).0 ≡ ok true
      → amqp.answers (dedup.mark_processed (str_append "processed:" env.id) s.store).1 ≡ reliable
      → commands.marshal (verification_of p) ≡ ok cmd_body
      → Notifier.process (notifier_services (command_publisher amqp commands) dedup) json body s
        ≡ record {
          store =
              amqp.put
                (confirmed_at commands_exchange key_email_send cmd_body ∷ [])
                (dedup.mark_processed (str_append "processed:" env.id) s.store).1;
          settled = s.settled ++ (ack ∷ []);
        }
  unfolding notifier_services command_publisher Notifier.to_command Notifier.command_for
      new_subscription_created decode_subscription_created Notifier.verification_command
  notifier-process json commands dedup at p env body cmd_body s made wrote fresh answers cmd_wrote =
      let (kind, reads) = new_envelope-ok json.subscriptions at subscription_created p made in
      let maps : Notifier.to_command json env ≡ ok (verification_of p) = rw (kind, reads) refl in
      let sends =
        publish_via_confirmed commands_exchange key_email_send cmd_body
          (commands.marshal (verification_of p)) _ answers cmd_wrote in
      process_fresh (notifier_services (command_publisher amqp commands) dedup) json body env
        (verification_of p) s (json.envelope.round_trip env body wrote) maps fresh
        (ap (λ x. x.0) sends)
      ∙ ap (λ x. record { store = x.1; settled = s.settled ++ (ack ∷ []) }) sends

  module _ (json : Json) (stamp : W → Stamp)
      (send_email : String → String → String → W → Option Error × W)
      (wait : ℕ → W → Option Error × W) where
    abbrev pub service : Mailer.Mailer W
    service = mailer_service amqp json stamp send_email wait

    -- The call of the publisher of results that reports the outcome.
    abbrev reported : String → Option Error → W → Option Error × W
    reported token none w = (mailer_results amqp json stamp).verification_delivered token w
    reported token (some e) w =
        (mailer_results amqp json stamp).verification_failed token (message e) w

    reported_confirmed :
        (token : String) (o : Option Error) (env : Envelope) (body : String) (w : W)
        → amqp.answers w ≡ reliable
        → result_event json (stamp w) token o ≡ ok env
        → json.envelope.marshal env ≡ ok body
        → reported token o w
          ≡ (none, amqp.put (confirmed_at events_exchange (result_key o) body ∷ []) w)
    unfolding mailer_results new_result_publisher publish_event
    reported_confirmed token none env body w answers made wrote =
        rw (publish_event, made)
          (publish_via_confirmed events_exchange "verification.delivered" body
            (json.envelope.marshal env) w answers wrote)
    reported_confirmed token (some e) env body w answers made wrote =
        rw (publish_event, made)
          (publish_via_confirmed events_exchange "verification.failed" body
            (json.envelope.marshal env) w answers wrote)

    -- The report of the outcome is one message of the broker.
    pub report-sent :
        (p : SubscriptionCreated) (o : Option Error) (env : Envelope) (body : String) (w : W)
        → amqp.answers w ≡ reliable
        → result_event json (stamp w) p.token o ≡ ok env
        → json.envelope.marshal env ≡ ok body
        → Mailer.report service (verification_of p) o w
          ≡ amqp.put (confirmed_at events_exchange (result_key o) body ∷ []) w
    unfolding Mailer.report Mailer.report_delivered Mailer.report_failed Mailer.report_with_retry
        mailer_service Mailer.verification_token
    report-sent p none env body w answers made wrote =
        attempt_first wait (reported p.token none) 2 second w
          (reported_confirmed p.token none env body w answers made wrote)
    report-sent p (some e) env body w answers made wrote =
        attempt_first wait (reported p.token (some e)) 2 second w
          (reported_confirmed p.token (some e) env body w answers made wrote)

    -- The mailer reports the outcome of the email, whatever it is.
    pub mailer-process :
        (commands : Codec DeliveryMessage) (p : SubscriptionCreated) (env : Envelope)
        (cmd_body body : String) (s : Session W)
        → commands.marshal (verification_of p) ≡ ok cmd_body
        → amqp.answers (mailed service p s.store).world ≡ reliable
        → result_event json
            (stamp (mailed service p s.store).world)
            p.token
            (mailed service p s.store).result
          ≡ ok env
        → json.envelope.marshal env ≡ ok body
        → Mailer.process service commands cmd_body s ≡ record {
          store =
              amqp.put
                (confirmed_at events_exchange (result_key (mailed service p s.store).result) body
                  ∷ [])
                (mailed service p s.store).world;
          settled =
              s.settled
              ++ (Mailer.settlement_of service (verification_of p) (mailed service p s.store).result
                  ∷ []);
        }
    unfolding Mailer.deliver Mailer.deliver_built Mailer.build_email
    mailer-process commands p env cmd_body body s cmd_wrote answers made wrote =
        process-deliver service commands cmd_body s (verification_of p)
          (commands.round_trip (verification_of p) cmd_body cmd_wrote)
        ∙ ap
            (λ w. record {
              store = w;
              settled =
                  s.settled
                  ++ (Mailer.settlement_of service (verification_of p)
                        (mailed service p s.store).result
                      ∷ []);
            })
            (report-sent p (mailed service p s.store).result env body
              (mailed service p s.store).world answers made wrote)

-- ===== src/Mailer/Results.antt =====
-- internal/worker/mailer/broker.go: the results of the mailer as events of the onboarding saga. The
-- broker, and the uuid and the time of an event, are parameters.
use software_engineering_sch.Prelude.{
  String, ◌≡◌, true, false, Option, some, Error, Result, ok, err,
}
use software_engineering_sch.Events.{
  Envelope, Json, Stamp, verification_delivered, verification_failed, new_envelope-ok,
  new_verification_delivered, new_verification_failed, decode_verification_delivered,
  decode_verification_failed,
}
use software_engineering_sch.Broker.Topology.{events_exchange}
use software_engineering_sch.Saga.Report.{report, report-delivered, report-failed}
use software_engineering_sch.Mailer.{ResultPublisher}

module _ {W : Type 0} (json : Json) (stamp : W → Stamp)
    (broker : String → String → Envelope → W → Option Error × W) where
  unfoldable pub publish_event : String → Result Envelope → W → Option Error × W
  publish_event key (err e) w = (some e, w)
  publish_event key (ok env) w = broker events_exchange key env w

  -- `NewResultPublisher` with its two methods.
  unfoldable pub new_result_publisher : ResultPublisher W
  new_result_publisher = record {
    verification_delivered = λ token w.
        publish_event "verification.delivered"
          (new_verification_delivered json (stamp w) (record { token = token })) w;
    verification_failed = λ token reason w.
        publish_event "verification.failed"
          (new_verification_failed json (stamp w) (record { token = token; reason = reason })) w;
  }

-- The event that the mailer publishes for a token reaches the orchestrator as the report of a
-- delivery for that token.
pub new_verification_delivered-report :
    (json : Json) (at : Stamp) (token body : String) (env : Envelope)
    → new_verification_delivered json at (record { token = token }) ≡ ok env
    → json.envelope.marshal env ≡ ok body
    → report json body ≡ some (record { delivered = true; token = token })
unfolding new_verification_delivered
new_verification_delivered-report json at token body env made wrote =
    let (kind, reads) =
      new_envelope-ok json.deliveries at verification_delivered (record { token = token }) made in
    report-delivered json body {p = record { token = token }}
      (json.envelope.round_trip env body wrote) kind (unfold decode_verification_delivered in reads)

-- The event that the mailer publishes for a failure reaches the orchestrator as the report of a
-- failure for that token, whatever the reason.
pub new_verification_failed-report :
    (json : Json) (at : Stamp) (token reason body : String) (env : Envelope)
    → new_verification_failed json at (record { token = token; reason = reason }) ≡ ok env
    → json.envelope.marshal env ≡ ok body
    → report json body ≡ some (record { delivered = false; token = token })
unfolding new_verification_failed
new_verification_failed-report json at token reason body env made wrote =
    let (kind, reads) =
      new_envelope-ok json.failures at verification_failed
        (record { token = token; reason = reason }) made in
    report-failed json body {p = record { token = token; reason = reason }}
      (json.envelope.round_trip env body wrote) kind (unfold decode_verification_failed in reads)

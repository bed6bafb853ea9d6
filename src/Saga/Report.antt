-- ===== src/Saga/Report.antt =====
-- The results that internal/worker/orchestrator/orchestrator.go reads of a message.
use software_engineering_sch.Prelude.{
  String, ◌≡◌, refl, Bool, true, false, Option, none, some, Result, ok, err,
}
use software_engineering_sch.Events.{
  EventType, Envelope, Json, verification_delivered, verification_failed, VerificationDelivered,
  VerificationFailed, decode_verification_delivered, decode_verification_failed,
}

-- The result that a message reports: the token, and whether the email was delivered.
pub record Report : Type 0 where
  pub delivered : Bool
  pub token : String

unfoldable pub report_delivered : Result VerificationDelivered → Option Report
report_delivered (ok p) = some (record { delivered = true; token = p.token })
report_delivered (err e) = none

unfoldable pub report_failed : Result VerificationFailed → Option Report
report_failed (ok p) = some (record { delivered = false; token = p.token })
report_failed (err e) = none

unfoldable pub report_in : Json → EventType → Envelope → Option Report
report_in json verification_delivered env =
    report_delivered (decode_verification_delivered json env)
report_in json verification_failed env = report_failed (decode_verification_failed json env)
report_in json t env = none

unfoldable pub report_of : Json → Result Envelope → Option Report
report_of json (err e) = none
report_of json (ok env) = report_in json env.event_type env

-- `none` is a message that is no result event.
unfoldable pub report : Json → String → Option Report
unfolding report_of report_in report_delivered report_failed
report json body = report_of json (json.envelope.unmarshal body)

pub report-delivered :
    (json : Json) (body : String) {env : Envelope} {p : VerificationDelivered}
    → json.envelope.unmarshal body ≡ ok env
    → env.event_type ≡ verification_delivered
    → decode_verification_delivered json env ≡ ok p
    → report json body ≡ some (record { delivered = true; token = p.token })
unfolding report report_of report_in report_delivered decode_verification_delivered
report-delivered json body reads kind decodes = rw (reads, kind, decodes) refl

pub report-failed :
    (json : Json) (body : String) {env : Envelope} {p : VerificationFailed}
    → json.envelope.unmarshal body ≡ ok env
    → env.event_type ≡ verification_failed
    → decode_verification_failed json env ≡ ok p
    → report json body ≡ some (record { delivered = false; token = p.token })
unfolding report report_of report_in report_failed decode_verification_failed
report-failed json body reads kind decodes = rw (reads, kind, decodes) refl

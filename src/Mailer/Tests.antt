-- ===== src/Mailer/Tests.antt =====
-- The mailer with an SMTP server that answers once and a broker that takes every report.
use software_engineering_sch.Prelude.{
  ℕ, String, refl, true, false, Option, none, some, List, [], ◌∷◌, ◌++◌, arith, Error, other, ok,
  err,
}
use software_engineering_sch.Events.{Codec, Stamp}
use software_engineering_sch.Broker.Settler.{Session}
use software_engineering_sch.Command.{email_verification, new_release, text, DeliveryMessage}
use software_engineering_sch.Saga.Report.{Report}
use software_engineering_sch.Mailer.{ResultPublisher, Mailer, new, send_with_retry, process}
use software_engineering_sch.Mailer.Attempts.{Attempted, send_with_retry-Attempted}
use software_engineering_sch.Mailer.Copies.{Observes, landed}
use software_engineering_sch.Mailer.Reports.{Reported, verification_mail, process-Reported}

-- What the mailer works on: the reports at the broker.
abbrev smtp_down : String → String → String → List Report → Option Error × List Report
smtp_down email subject body w = (some (other "connection refused"), w)

abbrev taking : ResultPublisher (List Report)
taking = record {
  verification_delivered =
      λ token w. (none, w ++ (record { delivered = true; token = token } ∷ []));
  verification_failed =
      λ token reason w. (none, w ++ (record { delivered = false; token = token } ∷ []));
}

abbrev patient : ℕ → List Report → Option Error × List Report
patient b w = (none, w)

abbrev mailer : Mailer (List Report)
mailer = new smtp_down (some taking) patient

taking-Observes : Observes mailer taking (λ w. w)
taking-Observes = record {
  send_keeps = λ email subject body w. refl;
  wait_keeps = λ b w. refl;
  delivered_adds = λ token w. landed refl;
  failed_adds = λ token reason w. landed refl;
}

abbrev verify : DeliveryMessage
verify = record {
  event = email_verification;
  email = "a@b";
  repo = "";
  release = "";
  payload = ("token", text "t1") ∷ [];
}

abbrev release : DeliveryMessage
release = record { event = new_release; email = "a@b"; repo = "o/n"; release = "v1"; payload = [] }

-- A codec that writes only the one command.
abbrev commands : Codec DeliveryMessage
commands = record {
  marshal = λ msg. err (other "unsupported value");
  unmarshal = λ s. ok verify;
  round_trip = λ msg s h. cc;
}

abbrev session : Session (List Report)
session = record { store = []; settled = [] }

send_with_retry-Attempted_example :
    Attempted patient 5 (send_with_retry mailer "a@b" "subject" "text" [])
send_with_retry-Attempted_example =
    send_with_retry-Attempted mailer "a@b" "subject" "text" [] (omega arith)

process-Reported_example :
    Reported
      (λ w. w)
      verify
      (verification_mail mailer verify [])
      session
      (process mailer commands "{}" session)
process-Reported_example =
    process-Reported mailer taking (λ w. w) taking-Observes commands "{}" session verify refl refl
      refl

abbrev at : Stamp
at = record { uuid = "1"; now = 0 }

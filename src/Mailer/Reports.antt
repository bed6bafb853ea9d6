-- ===== src/Mailer/Reports.antt =====
-- The verification outcomes that internal/worker/mailer/mailer.go reports to the onboarding saga,
-- reportDelivered and reportFailed, and how process settles the command.
use software_engineering_sch.Prelude.{
  String, ◌≡◌, refl, ap, subst, ◌∙◌, true, false, Option, none, some, List, [], ◌∷◌, ◌++◌, Error,
  unknown_email_type, ok, message, str_append,
}
use software_engineering_sch.Broker.Settler.{Settlement, Session, ack, dead_letter, settle}
use software_engineering_sch.Command.{
  EmailType, email_verification, new_release, repo_moved, unrecognised, DeliveryMessage, lookup,
  text, non_text,
}
use software_engineering_sch.Events.{Codec}
use software_engineering_sch.Saga.Report.{Report}
use software_engineering_sch.Saga.Settlement.{SettledBy}
use software_engineering_sch.Mailer.{
  ResultPublisher, Mailer, Tried, send_with_retry, report_with_retry, report_delivered,
  report_failed, report, build_email, deliver_built, deliver, verification_token, is_verification,
  has_results, settlement_of, process, process_on,
}
use software_engineering_sch.Mailer.Attempts.{attempt-keeps}
use software_engineering_sch.Mailer.Copies.{Observes, Added, attempt-Added}

-- The report that the outcome of a command calls for.
abbrev pub verdict : DeliveryMessage → Option Error → Report
verdict msg none = record { delivered = true; token = verification_token msg }
verdict msg (some e) = record { delivered = false; token = verification_token msg }

module _ {W : Type 0} (m : Mailer W) (p : ResultPublisher W) (reports : W → List Report)
    (law : Observes m p reports) where
  report-Added :
      (msg : DeliveryMessage) (o : Option Error) (w : W)
      → m.results ≡ some p
      → is_verification msg.event ≡ true
      → Added 3 (verdict msg o) (reports w) (reports (report m msg o w))
  unfolding report report_delivered report_failed report_with_retry
  report-Added msg none w has verifies =
      rw (report, verifies, has)
        (attempt-Added m.wait (p.verification_delivered (verification_token msg)) reports
          (verdict msg none) (law.delivered_adds (verification_token msg)) law.wait_keeps 3
          m.base_backoff w)
  report-Added msg (some e) w has verifies =
      rw (report, verifies, has)
        (attempt-Added m.wait (p.verification_failed (verification_token msg) (message e)) reports
          (verdict msg (some e)) (law.failed_adds (verification_token msg) (message e))
          law.wait_keeps 3 m.base_backoff w)

  report_silent :
      (msg : DeliveryMessage) (o : Option Error) (w : W)
      → is_verification msg.event ≡ false
      → report m msg o w ≡ w
  unfolding report
  report_silent msg o w other_kind = rw (report, other_kind) refl

  send_with_retry-keeps :
      (email subject body : String) (w : W)
      → reports (send_with_retry m email subject body w).world ≡ reports w
  unfolding send_with_retry
  send_with_retry-keeps email subject body w =
      attempt-keeps m.wait (m.send_email email subject body) reports
        (law.send_keeps email subject body) law.wait_keeps m.max_retries m.base_backoff w

  deliver_built-Added :
      (msg : DeliveryMessage) (built : String × String) (w : W)
      → m.results ≡ some p
      → is_verification msg.event ≡ true
      → Added 3
          (verdict msg (deliver_built m msg (some built) w).0)
          (reports w)
          (reports (deliver_built m msg (some built) w).1)
  unfolding deliver_built
  deliver_built-Added msg (subject, body) w has verifies =
      let sent = send_with_retry m msg.email subject body w in
      subst
        (λ xs. Added 3 (verdict msg sent.result) xs (reports (report m msg sent.result sent.world)))
        (send_with_retry-keeps msg.email subject body w)
        (report-Added msg sent.result sent.world has verifies)

is_verification-event : (t : EmailType) → is_verification t ≡ true → t ≡ email_verification
is_verification-event email_verification h = refl
is_verification-event new_release h = cc
is_verification-event repo_moved h = cc
is_verification-event (unrecognised s) h = cc

verification-build_email :
    (msg : DeliveryMessage)
    → is_verification msg.event ≡ true
    → (built : String × String) × (build_email msg ≡ some built)
unfolding build_email
verification-build_email msg verifies =
    rw (build_email, is_verification-event msg.event verifies) (_, refl)

-- How a verification command ends when outcomes are reported: the handler settles it once, never
-- by a retry, and by a dead letter only if no email type was known.
pub data Terminal : Option Error → Settlement → Type 0 where
  acked : {o : Option Error} → Terminal o ack
  poison : (s : String) → Terminal (some (unknown_email_type s)) (dead_letter s)

-- `sent` is what the loop of sends has left: the command is settled by its result, and so are the
-- reports.
pub record Reported {W : Type 0} (seen : W → List Report) (msg : DeliveryMessage) (sent : Tried W)
    (before after : Session W) : Type 0 where
  pub settlement : Settlement
  pub once : SettledBy before after settlement
  pub terminal : Terminal sent.result settlement
  pub reports : Added 3 (verdict msg sent.result) (seen before.store) (seen after.store)

-- The sends of the verification email of a command, from the world in which it arrives.
abbrev pub verification_mail : {W : Type 0} → Mailer W → DeliveryMessage → W → Tried W
verification_mail m msg w =
    send_with_retry m msg.email "Verify your email"
      (str_append "Your verification token is " (elim (lookup "token" msg.payload) [
        | none ↦ "<nil>"
        | some v ↦ elim v [ text s ↦ s | non_text s ↦ s ]
      ]))
      w

-- What `deliver` returns is the result of these sends.
deliver-mail :
    {W : Type 0} (m : Mailer W) (msg : DeliveryMessage) (w : W)
    → is_verification msg.event ≡ true
    → (deliver m msg w).0 ≡ (verification_mail m msg w).result
unfolding deliver deliver_built build_email
deliver-mail m msg w verifies = rw (deliver, is_verification-event msg.event verifies) refl

pub settlement_of-Terminal :
    {W : Type 0} (m : Mailer W) (p : ResultPublisher W) (msg : DeliveryMessage) (o : Option Error)
    → m.results ≡ some p
    → is_verification msg.event ≡ true
    → Terminal o (settlement_of m msg o)
unfolding settlement_of has_results
settlement_of-Terminal m p msg none has verifies = acked
settlement_of-Terminal m p msg (some (unknown_email_type s)) has verifies = poison s
settlement_of-Terminal m p msg (some (Error.record_not_found s)) has verifies =
    rw (verifies, has) acked
settlement_of-Terminal m p msg (some (Error.already_settled s)) has verifies =
    rw (verifies, has) acked
settlement_of-Terminal m p msg (some (Error.other s)) has verifies = rw (verifies, has) acked

module _ {W : Type 0} (m : Mailer W) (p : ResultPublisher W) (reports : W → List Report)
    (law : Observes m p reports) where
  deliver-Added :
      (msg : DeliveryMessage) (w : W)
      → m.results ≡ some p
      → is_verification msg.event ≡ true
      → Added 3 (verdict msg (deliver m msg w).0) (reports w) (reports (deliver m msg w).1)
  unfolding deliver
  deliver-Added msg w has verifies =
      let (built, knows) = verification-build_email msg verifies in
      rw knows (deliver_built-Added m p reports law msg built w has verifies)

  -- Where there is a publisher of results, which alone adds to the reports at the broker, a
  -- verification command that arrives is settled once and never retried, and the reports that reach
  -- the broker are at most three copies of one report: its token is the command's, and it says
  -- delivered exactly if the sends of the verification email to the command's address ended without
  -- an error.
  pub process-Reported :
      (commands : Codec DeliveryMessage) (body : String) (s : Session W) (msg : DeliveryMessage)
      → m.results ≡ some p
      → commands.unmarshal body ≡ ok msg
      → is_verification msg.event ≡ true
      → Reported reports msg (verification_mail m msg s.store) s (process m commands body s)
  unfolding process process_on settle
  process-Reported commands body s msg has reads verifies = rw reads (record {
    settlement = settlement_of m msg (deliver m msg s.store).0;
    once = refl;
    terminal =
        subst (λ o. Terminal o (settlement_of m msg (deliver m msg s.store).0))
          (deliver-mail m msg s.store verifies)
          (settlement_of-Terminal m p msg (deliver m msg s.store).0 has verifies);
    reports =
        subst (λ o. Added 3 (verdict msg o) (reports s.store) (reports (deliver m msg s.store).1))
          (deliver-mail m msg s.store verifies) (deliver-Added msg s.store has verifies);
  })

  deliver_built_silent :
      (msg : DeliveryMessage) (built : Option (String × String)) (w : W)
      → is_verification msg.event ≡ false
      → reports (deliver_built m msg built w).1 ≡ reports w
  unfolding deliver_built
  deliver_built_silent msg none w other_kind = refl
  deliver_built_silent msg (some (subject, body)) w other_kind =
      ap reports (report_silent m p reports law msg _ _ other_kind)
      ∙ send_with_retry-keeps m p reports law msg.email subject body w

  -- No other command is reported to the saga, whatever becomes of it.
  pub deliver_silent :
      (msg : DeliveryMessage) (w : W)
      → is_verification msg.event ≡ false
      → reports (deliver m msg w).1 ≡ reports w
  unfolding deliver
  deliver_silent msg w other_kind = deliver_built_silent msg (build_email msg) w other_kind

-- A command that is read is delivered, and settled by the outcome.
pub process-deliver :
    {W : Type 0} (m : Mailer W) (commands : Codec DeliveryMessage) (body : String) (s : Session W)
    (msg : DeliveryMessage)
    → commands.unmarshal body ≡ ok msg
    → process m commands body s ≡ record {
      store = (deliver m msg s.store).1;
      settled = s.settled ++ (settlement_of m msg (deliver m msg s.store).0 ∷ []);
    }
unfolding process process_on settle
process-deliver m commands body s msg reads = rw reads refl

-- ===== src/Mailer.antt =====
-- internal/worker/mailer/mailer.go: delivery commands turned into emails. The SMTP client, the
-- publisher of results, the timers and the cancellation are parameters over a world of any kind.
use software_engineering_sch.Prelude.{
  ℕ, zero, suc, ◌+◌, ◌-◌, ◌*◌, ◌/◌, ◌%◌, ◌^◌, ◌≤◌, ◌<◌, String, ◌≡◌, refl, sym, ap, ◌∙◌, subst, ◌≢◌,
  ◌↔◌, ◌⊎◌, inl, inr, Bool, true, false, ◌&&◌, ◌||◌, not, Option, none, some, List, [], ◌∷◌, ◌++◌,
  map, arith, str_eq, str_append, eq_iff, eq_refl, ltb, leb, ◌==◌, if◌then◌else◌, Bool-cases,
  Option-cases, length, take, filter, find?, any, map_where, All, All-append, All-map_where,
  All-imp, length-append, Error, record_not_found, already_settled, unknown_email_type, other,
  message, quoted, Result, ok, err, Result-cases, ltb→lt, lt→ltb, leb→le, ==_iff, ==_refl,
}
use software_engineering_sch.Events.{Codec}
use software_engineering_sch.Broker.Settler.{
  Settlement, Session, ack, retry, dead_letter, settle, with_store,
}
use software_engineering_sch.Command.{
  EmailType, new_release, repo_moved, email_verification, unrecognised, type_text, Any, text,
  non_text, DeliveryMessage, lookup,
}
pub mod Attempts
pub mod Copies
pub mod Reports
pub mod Results
mod Tests

abbrev pub max_smtp_retries : ℕ
max_smtp_retries = 5

abbrev pub max_result_report_retries : ℕ
max_result_report_retries = 3

-- time.Second
abbrev pub second : ℕ
second = 1000000000

pub data Outcome : Type 0 where
  delivered failed poison : Outcome

unfoldable pub delivery_outcome : Option Error → Outcome
delivery_outcome none = delivered
delivery_outcome (some (unknown_email_type s)) = poison
delivery_outcome (some e) = failed

-- The subject and the body; `none` for a type that is not known.
unfoldable pub build_email : DeliveryMessage → Option (String × String)
build_email msg = elim msg.event [
  | new_release ↦ some (
    str_append "New release for " (str_append msg.repo (str_append ": " msg.release)),
    str_append "A new release "
        (str_append msg.release (str_append " is available for " (str_append msg.repo "."))),
  )
  | repo_moved ↦ some (
    str_append "Repository moved: " msg.repo,
    str_append "The repository " (str_append msg.repo " has been moved or renamed."),
  )
  | email_verification ↦ some (
    "Verify your email",
    str_append "Your verification token is " (elim (lookup "token" msg.payload) [
      | none ↦ "<nil>"
      | some v ↦ elim v [ text s ↦ s | non_text s ↦ s ]
    ]),
  )
  | unrecognised s ↦ none
]

-- A value that is no string gives the empty token.
unfoldable pub verification_token : DeliveryMessage → String
verification_token msg = elim (lookup "token" msg.payload) [
  | none ↦ ""
  | some v ↦ elim v [ text s ↦ s | non_text s ↦ "" ]
]

abbrev pub is_verification : EmailType → Bool
is_verification email_verification = true
is_verification _ = false

abbrev unknown_type_error : DeliveryMessage → Error
unknown_type_error msg =
    unknown_email_type (str_append "unknown email type: " (quoted (type_text msg.event)))

-- The two methods of `ResultPublisher`.
pub record ResultPublisher (W : Type 0) : Type 0 where
  pub verification_delivered : String → W → Option Error × W
  pub verification_failed : String → String → W → Option Error × W

-- What the mailer calls: the sender, the publisher of results if there is one, and the wait for a
-- timer, which ends with the context's error if that comes first.
pub record Mailer (W : Type 0) : Type 0 where
  pub send_email : String → String → String → W → Option Error × W
  pub results : Option (ResultPublisher W)
  pub max_retries : ℕ
  pub base_backoff : ℕ
  pub wait : ℕ → W → Option Error × W

-- `New`
abbrev pub new :
    {W : Type 0}
    → (String → String → String → W → Option Error × W)
    → Option (ResultPublisher W)
    → (ℕ → W → Option Error × W)
    → Mailer W
new sender results wait = record {
  send_email = sender;
  results = results;
  max_retries = max_smtp_retries;
  base_backoff = second;
  wait = wait;
}

-- What a loop of attempts leaves: its result, what each call of the action returned, the world.
pub record Tried (W : Type 0) : Type 0 where
  pub result : Option Error
  pub calls : List (Option Error)
  pub world : W

module _ {W : Type 0} (wait : ℕ → W → Option Error × W) (act : W → Option Error × W) where
  -- The loop of `sendWithRetry` and of `reportWithRetry`, by the attempts that are left. There is a
  -- wait after each failure but the last, and the backoff doubles.
  unfoldable pub attempt : ℕ → ℕ → W → Tried W
  attempt zero backoff w = record { result = none; calls = []; world = w }
  attempt (suc left) backoff w =
      let (r, w') = act w in
      let (c, w'') = wait backoff w' in
      let rest = attempt left (backoff * 2) w'' in
      elim r [
        | none ↦ record { result = none; calls = none ∷ []; world = w' }
        | some e ↦
            if left == 0
            then record { result = some e; calls = some e ∷ []; world = w' }
            else (elim c [
              | some x ↦ record { result = some x; calls = some e ∷ []; world = w'' }
              | none ↦ record rest { calls = some e ∷ rest.calls }
            ])
      ]

module _ {W : Type 0} (m : Mailer W) where
  unfoldable pub send_with_retry : String → String → String → W → Tried W
  send_with_retry email subject body w =
      attempt m.wait (m.send_email email subject body) m.max_retries m.base_backoff w

  unfoldable pub report_with_retry : (W → Option Error × W) → W → Tried W
  report_with_retry fn w = attempt m.wait fn max_result_report_retries m.base_backoff w

  -- An outcome that cannot be published is only logged.
  unfoldable pub report_delivered : ResultPublisher W → DeliveryMessage → W → W
  unfolding report_with_retry
  report_delivered p msg w =
      (report_with_retry (p.verification_delivered (verification_token msg)) w).world

  unfoldable pub report_failed : ResultPublisher W → DeliveryMessage → Error → W → W
  unfolding report_with_retry
  report_failed p msg cause w =
      (report_with_retry (p.verification_failed (verification_token msg) (message cause)) w).world

  -- The report of the outcome, if the command is a verification and there is a publisher.
  unfoldable pub report : DeliveryMessage → Option Error → W → W
  unfolding report_delivered report_failed
  report msg r w = elim (is_verification msg.event) [
    | false ↦ w
    | true ↦ elim m.results [
      | none ↦ w
      | some p ↦ elim r [ none ↦ report_delivered p msg w | some e ↦ report_failed p msg e w ]
    ]
  ]

  unfoldable pub deliver_built : DeliveryMessage → Option (String × String) → W → Option Error × W
  unfolding report
  deliver_built msg none w = (some (unknown_type_error msg), w)
  deliver_built msg (some (subject, body)) w =
      let sent = send_with_retry msg.email subject body w in
      (sent.result, report msg sent.result sent.world)

  unfoldable pub deliver : DeliveryMessage → W → Option Error × W
  unfolding deliver_built
  deliver msg w = deliver_built msg (build_email msg) w

  unfoldable pub has_results : Bool
  has_results = elim m.results [ none ↦ false | some p ↦ true ]

  -- The last `switch` of `process`.
  unfoldable pub settlement_of : DeliveryMessage → Option Error → Settlement
  unfolding has_results
  settlement_of msg none = ack
  settlement_of msg (some (unknown_email_type s)) = dead_letter s
  settlement_of msg (some e) =
      if is_verification msg.event && has_results
      then ack
      else retry (str_append "smtp send failed: " (message e))

  process_on : Result DeliveryMessage → Session W → Session W
  unfolding settle
  process_on (err e) s = settle (dead_letter (str_append "unmarshal command: " (message e))) s
  process_on (ok msg) s =
      let (r, w) = deliver msg s.store in settle (settlement_of msg r) (with_store w s)

  unfoldable pub process : Codec DeliveryMessage → String → Session W → Session W
  unfolding process_on
  process commands body s = process_on (commands.unmarshal body) s

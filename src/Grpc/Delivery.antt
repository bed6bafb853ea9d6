-- ===== src/Grpc/Delivery.antt =====
-- The client and the server of internal/transport/grpc/mailer joined by calls that may fail.
use software_engineering_sch.Prelude.{
  ◌≡◌, refl, ap, inl, inr, Option, none, some, Error, record_not_found, already_settled,
  unknown_email_type, other, Result, ok, err, Result-cases,
}
use software_engineering_sch.Command.{DeliveryMessage}
use software_engineering_sch.Mailer.{delivery_outcome}
use software_engineering_sch.Grpc.{
  DeliveryCommand, OutcomeCode, from_proto, to_proto, outcome_to_proto, proto_to_outcome, send,
  publish, publish_result,
}

-- A call that reaches the server and whose answer comes back.
abbrev pub reaching :
    {W : Type 0}
    → (DeliveryMessage → W → Option Error × W)
    → DeliveryCommand
    → W
    → Result OutcomeCode × W
reaching deliver cmd w = let (code, w') = send deliver cmd w in (ok code, w')

-- What is relied on of a call: an answer that comes back is the one that the server gave, and the
-- world is as the server left it. A call that fails may have reached the server or not.
pub record Carries {W : Type 0} (deliver : DeliveryMessage → W → Option Error × W)
    (call : DeliveryCommand → W → Result OutcomeCode × W) : Type 0 where
  pub answered :
      (cmd : DeliveryCommand) (w : W) {code : OutcomeCode}
      → (call cmd w).0 ≡ ok code
      → (code ≡ (send deliver cmd w).0) × ((call cmd w).1 ≡ (send deliver cmd w).1)

-- How a publish may end, with the error and the world that it leaves.
pub data Published {W : Type 0} (deliver : DeliveryMessage → W → Option Error × W)
    (call : DeliveryCommand → W → Result OutcomeCode × W) (cmd : DeliveryMessage) (w : W)
    (o : Option Error) (w' : W) : Type 0 where
  delivered : o ≡ none → deliver cmd w ≡ (none, w') → Published deliver call cmd w o w'
  refused :
      (e cause : Error)
      → o ≡ some e
      → deliver cmd w ≡ (some cause, w')
      → Published deliver call cmd w o w'
  unanswered :
      (e : Error)
      → o ≡ some e
      → call (to_proto cmd) w ≡ (err e, w')
      → Published deliver call cmd w o w'

-- The commands that the transport keeps as they are.
abbrev pub IsKept : DeliveryMessage → Type 0
IsKept cmd = from_proto (to_proto cmd) ≡ cmd

module _ {W : Type 0} (deliver : DeliveryMessage → W → Option Error × W)
    (call : DeliveryCommand → W → Result OutcomeCode × W) (cmd : DeliveryMessage) (w : W) where
  answer-Published :
      (r : Option Error) (w' : W)
      → deliver cmd w ≡ (r, w')
      → Published deliver call cmd w
          (publish_result (ok (outcome_to_proto (delivery_outcome r))))
          w'
  unfolding publish_result outcome_to_proto proto_to_outcome delivery_outcome
  answer-Published none w' h = delivered refl h
  answer-Published (some (record_not_found s)) w' h = refused _ _ refl h
  answer-Published (some (already_settled s)) w' h = refused _ _ refl h
  answer-Published (some (unknown_email_type s)) w' h = refused _ _ refl h
  answer-Published (some (other s)) w' h = refused _ _ refl h

  -- Over gRPC a publish of a command that the transport keeps returns nil only if the mailer on the
  -- other side delivered this command, and an error if the delivery returned one, in a world that is
  -- as the delivery left it; or the call itself failed, and its error is returned: whether the mailer
  -- has then delivered is open.
  pub publish-Published :
      Carries deliver call
      → IsKept cmd
      → Published deliver call cmd w (publish call cmd w).0 (publish call cmd w).1
  unfolding publish send publish_result
  publish-Published law kept = elim (Result-cases (call (to_proto cmd) w).0) [
    | inr (e, bad) ↦
        rw (publish, bad) (unanswered e refl (ap (λ r. (r, (call (to_proto cmd) w).1)) bad))
    | inl (code, came) ↦
        let (same, left) = law.answered (to_proto cmd) w came in
        rw (publish, came, same, left, kept)
          (answer-Published (deliver cmd w).0 (deliver cmd w).1 refl)
  ]

-- A call that reaches the server and whose answer comes back is carried.
pub reaching-Carries :
    {W : Type 0} (deliver : DeliveryMessage → W → Option Error × W)
    → Carries deliver (reaching deliver)
reaching-Carries deliver = record { answered = λ cmd w h. (cc, refl) }

-- ===== src/Broker/Publisher.antt =====
-- internal/infra/rabbitmq/publisher.go: a message published with a publisher confirm. What the broker
-- answers is a parameter, and the message comes as the result of its json.Marshal.
use software_engineering_sch.Prelude.{
  String, ◌≡◌, refl, Bool, true, false, Option, none, some, List, [], ◌∷◌, str_append, Error, other,
  message, Result, ok, err,
}
use software_engineering_sch.Broker.Consumer.{
  Answers, Wait, confirmed, nacked, closed, timeout, cancelled,
}

-- A persistent message of type application/json on its way, and whether its confirm arrived.
pub record Sent : Type 0 where
  pub exchange : String
  pub routing_key : String
  pub body : String
  pub landed : Bool

abbrev wrapped : String → Error → Option Error
wrapped text e = some (other (str_append "rabbitmq publish: " (str_append text (message e))))

-- The error of the final `select`.
unfoldable pub wait_error : String → Wait → Option Error
wait_error key confirmed = none
wait_error key nacked =
    some (other (str_append "rabbitmq publish: nack received for routing key " key))
wait_error key closed = some (other "rabbitmq publish: confirms channel closed")
wait_error key timeout =
    some (other (str_append "rabbitmq publish: confirm timeout for routing key " key))
wait_error key (cancelled e) = some e

abbrev has_confirm : Wait → Bool
has_confirm confirmed = true
has_confirm _ = false

module _ (exchange key : String) where
  unfoldable pub publish_open :
      Option Error → Result String → Option Error → Wait → List Sent × Option Error
  unfolding wait_error
  publish_open (some e) body sent w = ([], wrapped "enable confirms: " e)
  publish_open none (err e) sent w = ([], wrapped "marshal: " e)
  publish_open none (ok body) (some e) w = ([], wrapped "" e)
  publish_open none (ok body) none w = (
    record { exchange = exchange; routing_key = key; body = body; landed = has_confirm w } ∷ [],
    wait_error key w,
  )

  unfoldable pub publish_on : Option Error → Answers → Result String → List Sent × Option Error
  unfolding publish_open
  publish_on (some e) a body = ([], wrapped "open channel: " e)
  publish_on none a body = publish_open a.confirm_mode body a.publish a.wait

  -- `Publisher.Publish`
  unfoldable pub publish : Answers → Result String → List Sent × Option Error
  unfolding publish_on
  publish a body = publish_on a.open_channel a body

  -- What was sent, by the error that is returned.
  pub data Publishes (body : Result String) : List Sent × Option Error → Type 0 where
    arrived :
        (text : String)
        → body ≡ ok text
        → Publishes body (
          record { exchange = exchange; routing_key = key; body = text; landed = true } ∷ [],
          none,
        )
    nothing_sent : (e : Error) → Publishes body ([], some e)
    unconfirmed :
        (text : String) (e : Error)
        → body ≡ ok text
        → Publishes body (
          record { exchange = exchange; routing_key = key; body = text; landed = false } ∷ [],
          some e,
        )

  publish_open-Publishes :
      (mode : Option Error) (body : Result String) (sent : Option Error) (w : Wait)
      → Publishes body (publish_open mode body sent w)
  unfolding publish_open wait_error
  publish_open-Publishes (some e) body sent w = nothing_sent _
  publish_open-Publishes none (err e) sent w = nothing_sent _
  publish_open-Publishes none (ok body) (some e) w = nothing_sent _
  publish_open-Publishes none (ok body) none confirmed = arrived body refl
  publish_open-Publishes none (ok body) none nacked = unconfirmed body _ refl
  publish_open-Publishes none (ok body) none closed = unconfirmed body _ refl
  publish_open-Publishes none (ok body) none timeout = unconfirmed body _ refl
  publish_open-Publishes none (ok body) none (cancelled e) = unconfirmed body e refl

  publish_on-Publishes :
      (o : Option Error) (a : Answers) (body : Result String) → Publishes body (publish_on o a body)
  unfolding publish_on
  publish_on-Publishes (some e) a body = nothing_sent _
  publish_on-Publishes none a body = publish_open-Publishes a.confirm_mode body a.publish a.wait

  -- A publish returns nil only after the broker has confirmed the message, sent once to the exchange
  -- and the key; with an error nothing was sent, or the one message was not confirmed.
  pub publish-Publishes : (a : Answers) (body : Result String) → Publishes body (publish a body)
  unfolding publish
  publish-Publishes a body = publish_on-Publishes a.open_channel a body

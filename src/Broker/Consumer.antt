-- ===== src/Broker/Consumer.antt =====
-- internal/infra/rabbitmq/consumer.go: how a delivery is settled. What the broker answers in one
-- settlement is a parameter; what the consumer did with the delivery is a list of effects.
use software_engineering_sch.Prelude.{
  String, ◌≡◌, refl, inl, inr, Bool, true, false, Option, none, some, List, [], ◌∷◌, ◌++◌, str_eq,
  str_append, if◌then◌else◌, Bool-cases, Error, other, message,
}
use software_engineering_sch.Prelude.Int.{ℤ, pos, suc64, pred64, exceeds}
use software_engineering_sch.Broker.Settler.{Settlement, ack, retry, dead_letter}
use software_engineering_sch.Broker.Retry.{RetryPolicy, retry_queue_name}
use software_engineering_sch.Broker.Topology.{QueueSet, header_attempts, header_dlq_reason}

-- A value of an amqp.Table.
pub data Header : Type 0 where
  int32 int64 : ℤ → Header
  text : String → Header

pub record Delivery : Type 0 where
  pub body : String
  pub content_type : String
  pub correlation_id : String
  pub headers : Option (List (String × Header))

pub record Publishing : Type 0 where
  pub body : String
  pub content_type : String
  pub correlation_id : String
  pub headers : List (String × Header)

pub record Consumer : Type 0 where
  pub queues : QueueSet
  pub policy : RetryPolicy

-- What the wait for a publisher confirm ends with.
pub data Wait : Type 0 where
  confirmed nacked closed timeout : Wait
  cancelled : Error → Wait

-- What the broker and the connection answer during one settlement.
pub record Answers : Type 0 where
  pub open_channel : Option Error
  pub confirm_mode : Option Error
  pub publish : Option Error
  pub wait : Wait

-- What is done with the delivery. A publishing is `landed` if its confirm arrived.
pub data Effect : Type 0 where
  published : String → Publishing → Bool → Effect
  acked nack_requeued : Effect

abbrev pub lookup : String → List (String × Header) → Option Header
lookup k [] = none
lookup k ((j, v) ∷ m) = if str_eq j k then some v else lookup k m

-- headers[k] = v
abbrev pub insert : String → Header → List (String × Header) → List (String × Header)
insert k v [] = (k, v) ∷ []
insert k v ((j, w) ∷ m) = if str_eq j k then (k, v) ∷ m else (j, w) ∷ insert k v m

-- `maps.Copy(headers, d.Headers)` into an empty table; copying a nil map copies nothing.
abbrev pub copied : Option (List (String × Header)) → List (String × Header)
copied none = []
copied (some m) = m

abbrev counted : Option Header → ℤ
counted (some (int32 v)) = v
counted (some (int64 v)) = v
counted _ = pos 0

unfoldable pub attempts : Delivery → ℤ
attempts d = elim d.headers [ none ↦ pos 0 | some m ↦ counted (lookup header_attempts m) ]

-- The answers to Confirm, to PublishWithContext and to the wait: nothing is sent if the channel
-- refuses confirms, and what is sent may land or not.
publish_with : Option Error → Option Error → Wait → String → Publishing → List Effect × Option Error
publish_with (some e) sent w q p = ([], some (other (str_append "enable confirms: " (message e))))
publish_with none (some e) w q p = ([], some (other (str_append "publish: " (message e))))
publish_with none none confirmed q p = (published q p true ∷ [], none)
publish_with none none nacked q p =
    (published q p false ∷ [], some (other (str_append "nack received for queue " q)))
publish_with none none closed q p =
    (published q p false ∷ [], some (other "confirms channel closed"))
publish_with none none timeout q p =
    (published q p false ∷ [], some (other (str_append "confirm timeout for queue " q)))
publish_with none none (cancelled e) q p = (published q p false ∷ [], some e)

unfoldable pub publish_confirmed : Answers → String → Publishing → List Effect × Option Error
unfolding publish_with
publish_confirmed a q p = publish_with a.confirm_mode a.publish a.wait q p

-- The end that `Retry` and `DeadLetter` share: ack after a confirmed copy, nack with requeue else.
unfoldable pub moved : List Effect × Option Error → List Effect
moved (es, none) = es ++ (acked ∷ [])
moved (es, some e) = es ++ (nack_requeued ∷ [])

republish_with : Option Error → List Effect × Option Error → List Effect
unfolding moved
republish_with (some e) r = nack_requeued ∷ []
republish_with none r = moved r

unfoldable pub republish : Answers → String → Publishing → List Effect
unfolding publish_confirmed republish_with
republish a q p = republish_with a.open_channel (publish_confirmed a q p)

unfoldable pub dead_lettered : Delivery → String → Publishing
dead_lettered d reason = record {
  body = d.body;
  content_type = d.content_type;
  correlation_id = "";
  headers = insert header_dlq_reason (text reason) (copied d.headers);
}

unfoldable pub retried : Delivery → ℤ → Publishing
retried d att = record {
  body = d.body;
  content_type = d.content_type;
  correlation_id = d.correlation_id;
  headers = insert header_attempts (int64 att) (copied d.headers);
}

module _ (c : Consumer) (a : Answers) where
  -- `Consumer.DeadLetter`
  unfoldable pub send_to_dlq : Delivery → String → List Effect
  unfolding republish dead_lettered
  send_to_dlq d reason = republish a c.queues.dlq (dead_lettered d reason)

  -- `Consumer.Retry`
  unfoldable pub send_to_retry : Delivery → String → List Effect
  unfolding send_to_dlq attempts retried
  send_to_retry d reason =
      let att = suc64 (attempts d) in
      if exceeds att c.policy.tiers
      then send_to_dlq d (str_append "max retry attempts exceeded: " reason)
      else republish a (retry_queue_name c.queues.retry (pred64 att)) (retried d att)

  -- `settler`: what a settlement of the handler does with its delivery.
  unfoldable pub settle_delivery : Settlement → Delivery → List Effect
  unfolding send_to_retry
  settle_delivery ack d = acked ∷ []
  settle_delivery (retry reason) d = send_to_retry d reason
  settle_delivery (dead_letter reason) d = send_to_dlq d reason

-- A copy of the message was confirmed on `q` before the delivery was acked, or the delivery was
-- handed back, with at most a copy that was not confirmed. No other end is possible.
pub data Ends (d : Delivery) (q : String) (p : Publishing) : List Effect → Type 0 where
  moved_on : p.body ≡ d.body → Ends d q p (published q p true ∷ acked ∷ [])
  handed_back : Ends d q p (nack_requeued ∷ [])
  unconfirmed : Ends d q p (published q p false ∷ nack_requeued ∷ [])

publish_with-Ends :
    (d : Delivery) (mode pub_error : Option Error) (w : Wait) (q : String) (p : Publishing)
    → p.body ≡ d.body
    → Ends d q p (moved (publish_with mode pub_error w q p))
unfolding publish_with moved
publish_with-Ends d (some e) x w q p same = handed_back
publish_with-Ends d none (some e) w q p same = handed_back
publish_with-Ends d none none confirmed q p same = moved_on same
publish_with-Ends d none none nacked q p same = unconfirmed
publish_with-Ends d none none closed q p same = unconfirmed
publish_with-Ends d none none timeout q p same = unconfirmed
publish_with-Ends d none none (cancelled e) q p same = unconfirmed

republish_with-Ends :
    (d : Delivery) (a : Answers) (o : Option Error) (q : String) (p : Publishing)
    → p.body ≡ d.body
    → Ends d q p (republish_with o (publish_confirmed a q p))
unfolding republish_with publish_confirmed
republish_with-Ends d a (some e) q p same = handed_back
republish_with-Ends d a none q p same = publish_with-Ends d a.confirm_mode a.publish a.wait q p same

republish-Ends :
    (d : Delivery) (a : Answers) (q : String) (p : Publishing)
    → p.body ≡ d.body
    → Ends d q p (republish a q p)
unfolding republish
republish-Ends d a q p same = republish_with-Ends d a a.open_channel q p same

-- The queue that a settlement moves the delivery to, and the message that it puts there.
abbrev pub retry_copy : Consumer → Delivery → String → String × Publishing
retry_copy c d reason =
    let att = suc64 (attempts d) in
    if exceeds att c.policy.tiers
    then (c.queues.dlq, dead_lettered d (str_append "max retry attempts exceeded: " reason))
    else (retry_queue_name c.queues.retry (pred64 att), retried d att)

-- At-least-once: whatever the broker answers, `Retry` acks the delivery only after a confirmed copy
-- with the same body, on the tier queue or the DLQ, and otherwise hands it back.
pub send_to_retry-Ends :
    (c : Consumer) (a : Answers) (d : Delivery) (reason : String)
    → Ends d (retry_copy c d reason).0 (retry_copy c d reason).1 (send_to_retry c a d reason)
unfolding send_to_retry
send_to_retry-Ends c a d reason = elim (Bool-cases (exceeds (suc64 (attempts d)) c.policy.tiers)) [
  | inl over ↦ rw over (republish-Ends d a c.queues.dlq _ (unfold dead_lettered in refl))
  | inr room ↦ rw room (republish-Ends d a _ _ (unfold retried in refl))
]

pub send_to_dlq-Ends :
    (c : Consumer) (a : Answers) (d : Delivery) (reason : String)
    → Ends d c.queues.dlq (dead_lettered d reason) (send_to_dlq c a d reason)
unfolding send_to_dlq
send_to_dlq-Ends c a d reason =
    republish-Ends d a c.queues.dlq (dead_lettered d reason) (unfold dead_lettered in refl)

-- The queue and the message of a settlement that moves the delivery.
abbrev pub destination : Consumer → Delivery → Settlement → String × Publishing
destination c d ack =
    ("", record { body = d.body; content_type = d.content_type; correlation_id = ""; headers = [] })
destination c d (retry reason) = retry_copy c d reason
destination c d (dead_letter reason) = (c.queues.dlq, dead_lettered d reason)

-- How a settlement may end: an ack of the handler acks and does nothing else.
abbrev pub EndsWell : Consumer → Delivery → Settlement → List Effect → Type 0
EndsWell c d ack es = es ≡ acked ∷ []
EndsWell c d x es = Ends d (destination c d x).0 (destination c d x).1 es

-- Whatever the handler asks for and whatever the broker answers, the delivery is acked by the
-- handler's own ack or after a confirmed copy, and is handed back otherwise.
pub settle_delivery-EndsWell :
    (c : Consumer) (a : Answers) (x : Settlement) (d : Delivery)
    → EndsWell c d x (settle_delivery c a x d)
unfolding settle_delivery
settle_delivery-EndsWell c a ack d = refl
settle_delivery-EndsWell c a (retry reason) d = send_to_retry-Ends c a d reason
settle_delivery-EndsWell c a (dead_letter reason) d = send_to_dlq-Ends c a d reason

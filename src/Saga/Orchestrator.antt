-- ===== src/Saga/Orchestrator.antt =====
-- internal/worker/orchestrator/orchestrator.go: the settlement of a saga by a result event.
use software_engineering_sch.Prelude.{
  String, Bool, true, false, Option, none, some, str_append, Error, record_not_found,
  already_settled, message, quoted, Result, ok, err,
}
use software_engineering_sch.Events.{
  EventType, Envelope, Json, VerificationDelivered, VerificationFailed, verification_delivered,
  verification_failed, routing_key, decode_verification_delivered, decode_verification_failed,
}
use software_engineering_sch.Db.{SagaState, awaiting_delivery}
use software_engineering_sch.Broker.Settler.{Session, ack, retry, dead_letter, settle, with_store}
use software_engineering_sch.Saga.Store.{Store}

module _ {ℓ} {S : Type ℓ} (st : Store S) where
  unfoldable pub claim_on : Result SagaState → Session S → Bool × Session S
  claim_on (err (record_not_found _)) s = (false, settle ack s)
  claim_on (err e) s = (false, settle (retry (str_append "saga lookup: " (message e))) s)
  claim_on (ok awaiting_delivery) s = (true, s)
  claim_on (ok _) s = (false, settle ack s)

  unfoldable pub claim : String → Session S → Bool × Session S
  unfolding claim_on settle
  claim token s = let (r, store') = st.saga_state token s.store in claim_on r (with_store store' s)

  unfoldable pub settle_on : String → Option Error → Session S → Session S
  settle_on prefix none s = settle ack s
  settle_on prefix (some (already_settled _)) s = settle ack s
  settle_on prefix (some e) s = settle (retry (str_append prefix (message e))) s

  unfoldable pub write_claimed : (S → Option Error × S) → String → Bool × Session S → Session S
  write_claimed write prefix (false, s) = s
  write_claimed write prefix (true, s) =
      let (e, store') = write s.store in settle_on prefix e (with_store store' s)

  -- `settle` of the source: the write of a claimed saga, then the delivery's settlement.
  unfoldable pub settle_saga : String → (S → Option Error × S) → String → Session S → Session S
  unfolding claim settle_on write_claimed
  settle_saga token write prefix s = write_claimed write prefix (claim token s)

  unfoldable pub complete : String → Session S → Session S
  unfolding settle_saga
  complete token s = settle_saga token (st.mark_completed token) "mark completed: " s

  unfoldable pub compensate_saga : String → Session S → Session S
  unfolding settle_saga
  compensate_saga token s = settle_saga token (st.compensate token) "compensate: " s

  unfoldable pub delivered_with : Result VerificationDelivered → Session S → Session S
  delivered_with (ok p) s = complete p.token s
  delivered_with (err e) s =
      settle (dead_letter (str_append "decode verification.delivered: " (message e))) s

  unfoldable pub failed_with : Result VerificationFailed → Session S → Session S
  failed_with (ok p) s = compensate_saga p.token s
  failed_with (err e) s =
      settle (dead_letter (str_append "decode verification.failed: " (message e))) s

  unfoldable pub unexpected : EventType → Session S → Session S
  unexpected t s =
      settle (dead_letter (str_append "unexpected event type: " (quoted (routing_key t)))) s

  unfoldable pub dispatch : Json → EventType → Envelope → Session S → Session S
  dispatch json verification_delivered env s =
      delivered_with (decode_verification_delivered json env) s
  dispatch json verification_failed env s = failed_with (decode_verification_failed json env) s
  dispatch json t env s = unexpected t s

  unfoldable pub process_on : Json → Result Envelope → Session S → Session S
  process_on json (err e) s = settle (dead_letter (str_append "unmarshal envelope: " (message e))) s
  process_on json (ok env) s = dispatch json env.event_type env s

  unfoldable pub process : Json → String → Session S → Session S
  unfolding process_on dispatch unexpected failed_with delivered_with settle
  process json body s = process_on json (json.envelope.unmarshal body) s

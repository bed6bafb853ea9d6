-- ===== src/Saga/Settlement.antt =====
-- How the orchestrator settles a delivery: the specification of every branch, and what follows for
-- redelivered results.
use software_engineering_sch.Prelude.{
  ℕ, String, ◌≡◌, refl, ap, subst, true, false, Option, none, some, [], ◌∷◌, ◌++◌, arith,
  str_append, if◌then◌else◌, Error, record_not_found, already_settled, unknown_email_type, other,
  is_not_found, Result, ok, err,
}
use software_engineering_sch.Events.{
  EventType, Envelope, Json, release_detected, repository_moved, subscription_created,
  verification_delivered, verification_failed, unknown, VerificationDelivered, VerificationFailed,
}
use software_engineering_sch.Db.{
  Contents, OnboardingSaga, SagaState, awaiting_delivery, completed, compensated, is_awaiting,
}
use software_engineering_sch.Broker.Settler.{
  Settlement, Session, ack, retry, dead_letter, settle, with_store,
}
use software_engineering_sch.Saga.Store.{Store}
use software_engineering_sch.Saga.Effects.{with_completed, with_compensated}
use software_engineering_sch.Saga.Spec.{saga_of}
use software_engineering_sch.Saga.Contract.{
  IsClosed, Outcome, written, lost_race, failed, Lookup, found, missing, unreadable, IsSagaStore,
}
use software_engineering_sch.Saga.Orchestrator.{
  claim, claim_on, settle_on, write_claimed, settle_saga, complete, compensate_saga, process,
  process_on, dispatch, delivered_with, failed_with, unexpected,
}
use software_engineering_sch.Saga.Report.{
  Report, report_delivered, report_failed, report_in, report_of, report,
}

-- The saga of the token awaits its result.
pub record Awaits (token : String) (c : Contents) : Type 0 where
  pub saga : OnboardingSaga
  pub is_saga : saga_of token c ≡ some saga
  pub awaits : is_awaiting saga.state ≡ true

-- What the settlement of a claimed saga means: the tables are written only for a saga
-- that awaits its result; an ack is given only when no result is
-- awaited for the token any more, and a retry only when nothing was written.
pub data Settles (token : String) (before after done : Contents) : Settlement → Type 0 where
  wrote :
      Awaits token before
      → after ≡ done
      → IsClosed token after
      → Settles token before after done ack
  skipped : after ≡ before → IsClosed token before → Settles token before after done ack
  postponed : (m : String) → after ≡ before → Settles token before after done (retry m)

abbrev pub target : Report → Contents → Contents
target r c = if r.delivered then with_completed r.token c else with_compensated r.token c

-- What one call of `process` does.
abbrev pub Processed : Option Report → Contents → Contents → Settlement → Type 0
Processed none before after x = (after ≡ before) × ((m : String) × (x ≡ dead_letter m))
Processed (some r) before after x = Settles r.token before after (target r before) x

-- One settlement was added.
abbrev pub SettledBy {ℓ} : {S : Type ℓ} → Session S → Session S → Settlement → Type 0
SettledBy s s' x = s'.settled ≡ s.settled ++ (x ∷ [])

module _ {ℓ} {S : Type ℓ} {now : ℕ} {st : Store S} {view : S → Contents}
    (law : IsSagaStore now st view) where
  abbrev SettlementOf : String → Session S → Session S → Contents → Type 0
  SettlementOf token s s' done =
      (x : Settlement) × SettledBy s s' x × Settles token (view s.store) (view s'.store) done x

  settle_on-Settles :
      (prefix token : String) (s s1 : Session S) (after : S) (done : Contents) (e : Option Error)
      → s1.settled ≡ s.settled
      → Awaits token (view s.store)
      → Outcome token (view s.store) (view after) done e
      → SettlementOf token s (settle_on st prefix e (with_store after s1)) done
  unfolding settle_on settle
  settle_on-Settles prefix token s s1 after done e same awaits (written a closed) =
      (ack, ap (λ l. l ++ (ack ∷ [])) same, wrote awaits a closed)
  settle_on-Settles prefix token s s1 after done e same awaits (lost_race a closed) =
      (ack, ap (λ l. l ++ (ack ∷ [])) same, skipped a closed)
  settle_on-Settles prefix token s s1 after done (some (record_not_found t)) same awaits
        (failed a foreign) =
      let x = retry (str_append prefix t) in
      (x, ap (λ l. l ++ (x ∷ [])) same, postponed (str_append prefix t) a)
  settle_on-Settles prefix token s s1 after done (some (other t)) same awaits (failed a foreign) =
      let x = retry (str_append prefix t) in
      (x, ap (λ l. l ++ (x ∷ [])) same, postponed (str_append prefix t) a)
  settle_on-Settles prefix token s s1 after done (some _) same awaits
        (failed {e = already_settled _} a foreign) =
      elim foreign [ ]
  settle_on-Settles prefix token s s1 after done (some _) same awaits
        (failed {e = unknown_email_type _} a foreign) =
      elim foreign [ ]

  module _ (token prefix : String) (write : S → Option Error × S) (s s1 : Session S)
      (done : Contents) (same : s1.settled ≡ s.settled) (kept : view s1.store ≡ view s.store)
      (outcome : Outcome token
        (view s.store)
        (view (write s1.store).1)
        done
        (write s1.store).0) where
    abbrev Claimed : Result SagaState → Type 0
    Claimed r = SettlementOf token s (write_claimed st write prefix (claim_on st r s1)) done

    claimed_closed :
        (x : Settlement)
        → Settles token (view s.store) (view s1.store) done x
        → SettlementOf token s (settle x s1) done
    unfolding settle
    claimed_closed x settles = (x, ap (λ l. l ++ (x ∷ [])) same, settles)

    IsClosed-unless_awaiting :
        (row : OnboardingSaga)
        → saga_of token (view s.store) ≡ some row
        → is_awaiting row.state ≡ false
        → IsClosed token (view s.store)
    IsClosed-unless_awaiting row at ends t h = ground (arith)

    Claimed-found :
        (row : OnboardingSaga) (state : SagaState)
        → saga_of token (view s.store) ≡ some row
        → row.state ≡ state
        → Claimed (ok state)
    unfolding claim_on write_claimed
    Claimed-found row awaiting_delivery at is_state =
        settle_on-Settles prefix token s s1 (write s1.store).1 done (write s1.store).0 same
          (record { saga = row; is_saga = at; awaits = rw is_state }) outcome
    Claimed-found row completed at is_state =
        claimed_closed ack (skipped kept (IsClosed-unless_awaiting row at (rw is_state)))
    Claimed-found row compensated at is_state =
        claimed_closed ack (skipped kept (IsClosed-unless_awaiting row at (rw is_state)))

    Claimed-unreadable : (e : Error) → is_not_found e ≡ false → Claimed (err e)
    unfolding claim_on write_claimed
    Claimed-unreadable (record_not_found t) h = cc
    Claimed-unreadable (already_settled t) h = claimed_closed (retry _) (postponed _ kept)
    Claimed-unreadable (unknown_email_type t) h = claimed_closed (retry _) (postponed _ kept)
    Claimed-unreadable (other t) h = claimed_closed (retry _) (postponed _ kept)

    Claimed-claim : (r : Result SagaState) → Lookup token (view s.store) r → Claimed r
    unfolding claim_on write_claimed
    Claimed-claim r (found row at) = Claimed-found row row.state at refl
    Claimed-claim r (missing t at) = claimed_closed ack (skipped kept (λ x h. cc))
    Claimed-claim r (unreadable e h) = Claimed-unreadable e h

  complete-Settles :
      (token : String) (s : Session S)
      → SettlementOf token s (complete st token s) (with_completed token (view s.store))
  unfolding complete settle_saga claim
  complete-Settles token s =
      let after = (st.saga_state token s.store).1 in
      Claimed-claim token "mark completed: " (st.mark_completed token) s (with_store after s)
        (with_completed token (view s.store)) refl (law.lookup_keeps token s.store)
        (subst
          (λ c.
            Outcome token c (view (st.mark_completed token after).1) (with_completed token c)
              (st.mark_completed token after).0)
          (law.lookup_keeps token s.store) (law.completes token after))
        (st.saga_state token s.store).0 (law.lookup token s.store)

  compensate_saga-Settles :
      (token : String) (s : Session S)
      → SettlementOf token s (compensate_saga st token s) (with_compensated token (view s.store))
  unfolding compensate_saga settle_saga claim
  compensate_saga-Settles token s =
      let after = (st.saga_state token s.store).1 in
      Claimed-claim token "compensate: " (st.compensate token) s (with_store after s)
        (with_compensated token (view s.store)) refl (law.lookup_keeps token s.store)
        (subst
          (λ c.
            Outcome token c (view (st.compensate token after).1) (with_compensated token c)
              (st.compensate token after).0)
          (law.lookup_keeps token s.store) (law.compensates token after))
        (st.saga_state token s.store).0 (law.lookup token s.store)

  abbrev pub ProcessedBy : Option Report → Session S → Session S → Type 0
  ProcessedBy r s s' =
      (x : Settlement) × SettledBy s s' x × Processed r (view s.store) (view s'.store) x

  delivered_with-Processed :
      (r : Result VerificationDelivered) (s : Session S)
      → ProcessedBy (report_delivered r) s (delivered_with st r s)
  unfolding delivered_with report_delivered settle
  delivered_with-Processed (ok p) s = complete-Settles p.token s
  delivered_with-Processed (err e) s = (dead_letter _, refl, (refl, (_, refl)))

  failed_with-Processed :
      (r : Result VerificationFailed) (s : Session S)
      → ProcessedBy (report_failed r) s (failed_with st r s)
  unfolding failed_with report_failed settle
  failed_with-Processed (ok p) s = compensate_saga-Settles p.token s
  failed_with-Processed (err e) s = (dead_letter _, refl, (refl, (_, refl)))

  unexpected-Processed : (t : EventType) (s : Session S) → ProcessedBy none s (unexpected st t s)
  unfolding unexpected settle
  unexpected-Processed t s = (dead_letter _, refl, (refl, (_, refl)))

  dispatch-Processed :
      (json : Json) (t : EventType) (env : Envelope) (s : Session S)
      → ProcessedBy (report_in json t env) s (dispatch st json t env s)
  unfolding dispatch report_in
  dispatch-Processed json verification_delivered env s = delivered_with-Processed _ s
  dispatch-Processed json verification_failed env s = failed_with-Processed _ s
  dispatch-Processed json release_detected env s = unexpected-Processed release_detected s
  dispatch-Processed json repository_moved env s = unexpected-Processed repository_moved s
  dispatch-Processed json subscription_created env s = unexpected-Processed subscription_created s
  dispatch-Processed json (unknown t) env s = unexpected-Processed (unknown t) s

  process_on-Processed :
      (json : Json) (r : Result Envelope) (s : Session S)
      → ProcessedBy (report_of json r) s (process_on st json r s)
  unfolding process_on report_of settle
  process_on-Processed json (ok env) s = dispatch-Processed json env.event_type env s
  process_on-Processed json (err e) s = (dead_letter _, refl, (refl, (_, refl)))

  -- Whatever the message and whatever fails, a delivery is settled once: a message that is no result
  -- is dead-lettered and changes nothing; a result writes the tables only while its saga awaits one,
  -- is acked only if no live saga awaits the token any more, and is retried only if nothing changed.
  pub process-Processed :
      (json : Json) (body : String) (s : Session S)
      → ProcessedBy (report json body) s (process st json body s)
  unfolding process report
  process-Processed json body s = process_on-Processed json _ s

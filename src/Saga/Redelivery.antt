-- ===== src/Saga/Redelivery.antt =====
-- Redelivered, late and reordered results: what the settlement of a delivery says of the next one.
use software_engineering_sch.Prelude.{
  last_of_append, ℕ, String, ◌≡◌, refl, sym, ◌∙◌, subst, inl, inr, Option, none, some, Bool-cases,
}
use software_engineering_sch.Events.{Json}
use software_engineering_sch.Db.{Contents}
use software_engineering_sch.Broker.Settler.{Settlement, Session, ack}
use software_engineering_sch.Saga.Store.{Store}
use software_engineering_sch.Saga.Spec.{Step, Reach, here, next, completes, compensates}
use software_engineering_sch.Saga.Contract.{IsClosed, IsSagaStore}
use software_engineering_sch.Saga.Orchestrator.{process}
use software_engineering_sch.Saga.Report.{Report, report}
use software_engineering_sch.Saga.Settlement.{
  wrote, skipped, postponed, target, Processed, SettledBy, process-Processed,
}

-- A message that is no result, or the result of a saga that no longer awaits one.
abbrev pub IsSpent : Option Report → Contents → Type 0
IsSpent none c = Unit
IsSpent (some r) c = IsClosed r.token c

Processed-IsSpent :
    (r : Option Report) (before after : Contents) (x : Settlement)
    → x ≡ ack
    → Processed r before after x
    → IsSpent r after
Processed-IsSpent none before after x h p = tt
Processed-IsSpent (some r) before after x h (wrote w e closed) = closed
Processed-IsSpent (some r) before after x h (skipped e closed) =
    subst (IsClosed r.token) (sym e) closed
Processed-IsSpent (some r) before after x h (postponed m e) = cc

IsSpent-unchanged :
    (r : Option Report) (before after : Contents) (x : Settlement)
    → IsSpent r before
    → Processed r before after x
    → after ≡ before
IsSpent-unchanged none before after x closed p = p.0
IsSpent-unchanged (some r) before after x closed (wrote w e now_closed) =
    cc (closed w.saga w.is_saga, w.awaits)
IsSpent-unchanged (some r) before after x closed (skipped e _) = e
IsSpent-unchanged (some r) before after x closed (postponed m e) = e

target-Step : (r : Report) (c : Contents) → Step c (target r c)
target-Step r c = elim (Bool-cases r.delivered) [
  | inl yes_case ↦ rw yes_case (completes r.token refl)
  | inr no_case ↦ rw no_case (compensates r.token refl)
]

Processed-Reach :
    (r : Option Report) (before after : Contents) (x : Settlement)
    → Processed r before after x
    → Reach before after
Processed-Reach none before after x p = subst (Reach before) (sym p.0) here
Processed-Reach (some r) before after x (wrote w e closed) =
    next here (subst (Step before) (sym e) (target-Step r before))
Processed-Reach (some r) before after x (skipped e _) = subst (Reach before) (sym e) here
Processed-Reach (some r) before after x (postponed m e) = subst (Reach before) (sym e) here

module _ {ℓ} {S : Type ℓ} {now : ℕ} {st : Store S} {view : S → Contents}
    (law : IsSagaStore now st view) (json : Json) (body : String) where
  -- Whatever the message and whatever fails, the tables move by steps of the specification.
  pub process-Reach : (s : Session S) → Reach (view s.store) (view (process st json body s).store)
  process-Reach s =
      let (x, settled, done) = process-Processed law json body s in Processed-Reach _ _ _ x done

  -- A result that is acked has settled its saga: no live saga of its token awaits a result.
  pub process-ack :
      (s : Session S)
      → SettledBy s (process st json body s) ack
      → IsSpent (report json body) (view (process st json body s).store)
  process-ack s acked =
      let (x, settled, done) = process-Processed law json body s in
      Processed-IsSpent _ _ _ x (last_of_append s.settled x ack (sym settled ∙ acked)) done

  -- A result for a saga that has been settled changes nothing.
  pub process-spent :
      (s : Session S)
      → IsSpent (report json body) (view s.store)
      → view (process st json body s).store ≡ view s.store
  process-spent s spent =
      let (x, settled, done) = process-Processed law json body s in
      IsSpent-unchanged _ _ _ x spent done

  -- At-least-once delivery is harmless: once a message was acked, its redelivery changes nothing.
  pub process_redelivered :
      (s : Session S)
      → SettledBy s (process st json body s) ack
      → view (process st json body (process st json body s)).store
        ≡ view (process st json body s).store
  process_redelivered s acked = process-spent (process st json body s) (process-ack s acked)

-- ===== src/Saga/Effects.antt =====
-- What each write of the saga store does to the tables, on success and on failure.
use software_engineering_sch.Prelude.{
  ℕ, zero, suc, String, ◌≡◌, refl, sym, ap, ◌∙◌, subst, ◌⊎◌, inl, inr, Bool, not, none, some, List,
  [], ◌∷◌, arith, length, filter, map_where, Error, Result, ok, err,
}
use software_engineering_sch.Db.{SagaState, Contents, completed, compensated}
use software_engineering_sch.Db.Gorm.{
  Gorm, Model, matching, updated, live, sagas, subscriptions, IsForeign,
}
use software_engineering_sch.Outbox.{error_of-none, error_of-some}
use software_engineering_sch.Saga.Store.{
  mark_completed, compensation, compensate, awaiting_for, pending_for, in_state,
  err_already_settled, transition_error, cancel_pending,
}

module _ {R : Type 0} (m : Model R) (p : R → Bool) (f : R → R) where
  -- An update that matches no live row changes nothing.
  pub map_where_none :
      (rs : List R)
      → length (filter p (filter (λ r. not (m.deleted r)) rs)) ≡ 0
      → map_where (matching m p) f rs ≡ rs
  map_where_none [] h = refl
  map_where_none (r ∷ rs) h = ground (arith, map_where_none rs)

-- The tables after the saga of `token` is completed, if it awaits its result.
abbrev pub with_completed : String → Contents → Contents
with_completed token c = updated sagas (awaiting_for token) (in_state completed) c

-- The tables after the saga of `token` is compensated: its pending subscription is deleted too.
abbrev pub with_compensated : String → Contents → Contents
with_compensated token c =
    updated subscriptions (pending_for token) subscriptions.mark_deleted
      (updated sagas (awaiting_for token) (in_state compensated) c)

-- No live saga of the token awaits its result.
abbrev pub NoneAwaits : String → Contents → Type 0
NoneAwaits token c = length (filter (awaiting_for token) (live sagas c)) ≡ 0

-- Why a settling write failed: the other side had settled the saga, or the database failed.
abbrev pub Cause : String → Contents → Error → Type 0
Cause token c e = ((e ≡ err_already_settled) × NoneAwaits token c) ⊎ IsForeign e

transition_none : (r : Result ℕ) → transition_error r ≡ none → (n : ℕ) × (r ≡ ok (suc n))
transition_none (ok zero) h = cc
transition_none (ok (suc n)) h = (n, refl)
transition_none (err e) h = cc

transition_some :
    (r : Result ℕ) {e : Error}
    → transition_error r ≡ some e
    → ((r ≡ ok 0) × (e ≡ err_already_settled)) ⊎ (r ≡ err e)
transition_some (ok zero) h = inl (refl, cc)
transition_some (ok (suc n)) h = cc
transition_some (err x) h = inr (cc)

module _ (g : Gorm) (token : String) (to : SagaState) (db : g.Db) where
  -- The guarded update that both writes begin with.
  abbrev leave_awaiting : Result ℕ × g.Db
  leave_awaiting = g.update sagas (awaiting_for token) (in_state to) db

  leave_awaiting_none : leave_awaiting.0 ≡ ok 0 → g.contents leave_awaiting.1 ≡ g.contents db
  leave_awaiting_none h =
      g.update_rows sagas (awaiting_for token) (in_state to) db h
      ∙ ap (λ rs. record (g.contents db) { sagas = rs })
          (map_where_none sagas (awaiting_for token) (in_state to) (g.contents db).sagas
            (sym (g.update_count sagas (awaiting_for token) (in_state to) db h)))

  leave_awaiting_failed :
      {e : Error}
      → transition_error leave_awaiting.0 ≡ some e
      → (g.contents leave_awaiting.1 ≡ g.contents db) × Cause token (g.contents db) e
  leave_awaiting_failed h = elim (transition_some leave_awaiting.0 h) [
    | inl (zero_rows, same) ↦ (
      leave_awaiting_none zero_rows,
      inl (same, sym (g.update_count sagas (awaiting_for token) (in_state to) db zero_rows)),
    )
    | inr failed ↦
        let (kept, foreign) = g.update_failed sagas (awaiting_for token) (in_state to) db failed in
        (kept, inr foreign)
  ]

module _ (g : Gorm) (token : String) (db : g.Db) where
  pub mark_completed_done :
      (mark_completed g token db).0 ≡ none
      → g.contents (mark_completed g token db).1 ≡ with_completed token (g.contents db)
  unfolding mark_completed
  mark_completed_done h =
      let (n, some_rows) = transition_none _ h in
      g.update_rows sagas (awaiting_for token) (in_state completed) db some_rows

  pub mark_completed_failed :
      {e : Error}
      → (mark_completed g token db).0 ≡ some e
      → (g.contents (mark_completed g token db).1 ≡ g.contents db) × Cause token (g.contents db) e
  unfolding mark_completed
  mark_completed_failed h = leave_awaiting_failed g token completed db h

module _ (g : Gorm) (token : String) where
  cancel_pending_done :
      (r : Result ℕ) (tx : g.Db)
      → (cancel_pending g token r tx).0 ≡ none
      → ((n : ℕ) × (r ≡ ok (suc n)))
        × (g.contents (cancel_pending g token r tx).1
            ≡ updated subscriptions (pending_for token) subscriptions.mark_deleted (g.contents tx))
  unfolding cancel_pending
  cancel_pending_done (err e) tx h = cc
  cancel_pending_done (ok zero) tx h = cc
  cancel_pending_done (ok (suc n)) tx h =
      let (k, deleted) = error_of-none _ h in
      ((n, refl), g.delete_rows subscriptions (pending_for token) tx deleted)

  cancel_pending_failed :
      (r : Result ℕ) (tx : g.Db) {e : Error}
      → (cancel_pending g token r tx).0 ≡ some e
      → (transition_error r ≡ some e) ⊎ IsForeign e
  unfolding cancel_pending
  cancel_pending_failed (err x) tx h = inl h
  cancel_pending_failed (ok zero) tx h = inl h
  cancel_pending_failed (ok (suc n)) tx h =
      inr ((g.delete_failed subscriptions (pending_for token) tx (error_of-some _ h)).1)

module _ (g : Gorm) (token : String) (db : g.Db) where
  -- The body of the transaction, if it is not rolled back.
  compensation_done :
      (compensation g token db).0 ≡ none
      → g.contents (compensation g token db).1 ≡ with_compensated token (g.contents db)
  unfolding compensation
  compensation_done h =
      let ((n, some_rows), cancelled) = cancel_pending_done g token _ _ h in
      cancelled
      ∙ ap (updated subscriptions (pending_for token) subscriptions.mark_deleted)
          (g.update_rows sagas (awaiting_for token) (in_state compensated) db some_rows)

  compensation_failed :
      {e : Error} → (compensation g token db).0 ≡ some e → Cause token (g.contents db) e
  unfolding compensation
  compensation_failed h = elim (cancel_pending_failed g token _ _ h) [
    | inl early ↦ (leave_awaiting_failed g token compensated db early).1
    | inr foreign ↦ inr foreign
  ]

module _ (g : Gorm) (token : String) (db : g.Db) where
  pub compensate_done :
      (compensate g token db).0 ≡ none
      → g.contents (compensate g token db).1 ≡ with_compensated token (g.contents db)
  unfolding compensate
  compensate_done h =
      let (body, committed) = g.transaction_ok (compensation g token) db h in
      committed
      ∙ compensation_done g token (g.begin db) body
      ∙ ap (with_compensated token) (g.begin_keeps db)

  pub compensate_failed :
      {e : Error}
      → (compensate g token db).0 ≡ some e
      → (g.contents (compensate g token db).1 ≡ g.contents db) × Cause token (g.contents db) e
  unfolding compensate
  compensate_failed {e} h =
      let (kept, cause) = g.transaction_failed (compensation g token) db h in (kept, cause_of cause)
    where
      cause_of :
          ((compensation g token (g.begin db)).0 ≡ some e) ⊎ IsForeign e
          → Cause token (g.contents db) e
      cause_of (inl body) =
          subst (λ c. Cause token c e) (g.begin_keeps db)
            (compensation_failed g token (g.begin db) body)
      cause_of (inr foreign) = inr foreign

-- ===== src/Saga/Store.antt =====
-- internal/worker/orchestrator/store.go: the GORM-backed store of the onboarding saga.
use software_engineering_sch.Prelude.{
  ℕ, zero, suc, ◌+◌, String, Bool, ◌&&◌, Option, none, some, List, map, str_eq, ltb, Error,
  already_settled, Result, ok, err,
}
use software_engineering_sch.Db.{
  Subscription, OnboardingSaga, SagaState, completed, compensated, is_pending, is_awaiting,
}
use software_engineering_sch.Db.Gorm.{Gorm, sagas, subscriptions}
use software_engineering_sch.Outbox.{error_of}

-- The `Store` interface: what the orchestrator and the reaper call, over a state of any kind.
pub record Store {ℓ} (S : Type ℓ) : Type ℓ where
  pub saga_state : String → S → Result SagaState × S
  pub mark_completed : String → S → Option Error × S
  pub compensate : String → S → Option Error × S
  pub stale_awaiting_tokens : ℕ → S → Result (List String) × S

abbrev pub err_already_settled : Error
err_already_settled = already_settled "saga already settled"

-- confirm_token = ?
abbrev pub for_token : String → OnboardingSaga → Bool
for_token token s = str_eq s.confirm_token token

-- confirm_token = ? AND state = 'awaiting_delivery'
abbrev pub awaiting_for : String → OnboardingSaga → Bool
awaiting_for token s = str_eq s.confirm_token token && is_awaiting s.state

-- confirm_token = ? AND status = 'pending'
abbrev pub pending_for : String → Subscription → Bool
pending_for token s = str_eq s.confirm_token token && is_pending s.status

abbrev pub in_state : SagaState → OnboardingSaga → OnboardingSaga
in_state st s = record s { state = st }

-- A saga that was created more than `older_than` before `now` and still awaits its result.
abbrev pub stale : ℕ → ℕ → OnboardingSaga → Bool
stale now older_than s = is_awaiting s.state && ltb (s.created_at + older_than) now

abbrev pub state_of : Result OnboardingSaga → Result SagaState
state_of (ok saga) = ok saga.state
state_of (err e) = err e

-- RowsAffected == 0 means that the saga had left `awaiting_delivery`.
abbrev pub transition_error : Result ℕ → Option Error
transition_error (err e) = some e
transition_error (ok zero) = some err_already_settled
transition_error (ok (suc n)) = none

abbrev pub tokens_of : Result (List OnboardingSaga) → Result (List String)
tokens_of (ok rows) = ok (map (λ (s : OnboardingSaga). s.confirm_token) rows)
tokens_of (err e) = err e

module _ (g : Gorm) where
  unfoldable pub saga_state : String → g.Db → Result SagaState × g.Db
  saga_state token db = let (r, db') = g.first sagas (for_token token) db in (state_of r, db')

  unfoldable pub mark_completed : String → g.Db → Option Error × g.Db
  mark_completed token db =
      let (r, db') = g.update sagas (awaiting_for token) (in_state completed) db in
      (transition_error r, db')

  unfoldable pub cancel_pending : String → Result ℕ → g.Db → Option Error × g.Db
  cancel_pending token (err e) tx = (some e, tx)
  cancel_pending token (ok zero) tx = (some err_already_settled, tx)
  cancel_pending token (ok (suc n)) tx =
      let (r, tx') = g.delete subscriptions (pending_for token) tx in (error_of r, tx')

  -- The function that `Compensate` runs in a transaction.
  unfoldable pub compensation : String → g.Db → Option Error × g.Db
  unfolding cancel_pending
  compensation token tx =
      let (r, tx') = g.update sagas (awaiting_for token) (in_state compensated) tx in
      cancel_pending token r tx'

  unfoldable pub compensate : String → g.Db → Option Error × g.Db
  compensate token db = g.transaction (compensation token) db

  unfoldable pub stale_awaiting_tokens : ℕ → ℕ → g.Db → Result (List String) × g.Db
  stale_awaiting_tokens now older_than db =
      let (r, db') = g.find sagas (stale now older_than) db in (tokens_of r, db')

  -- `NewStore`; the clock is read by each query.
  abbrev pub gorm_store : ℕ → Store g.Db
  gorm_store now = record {
    saga_state = saga_state;
    mark_completed = mark_completed;
    compensate = compensate;
    stale_awaiting_tokens = stale_awaiting_tokens now;
  }

-- ===== src/Saga/Consistency.antt =====
-- The invariant of the specification of the onboarding saga: a compensated saga leaves no pending
-- subscription behind.
use software_engineering_sch.Prelude.{
  String, ◌≡◌, refl, sym, subst, Bool, true, false, ◌&&◌, not, List, [], ◌∷◌, ◌++◌, arith, str_eq,
  eq_iff, ◌==◌, if◌then◌else◌, filter, any, map_where, All, All-append, All-map_where, All-imp,
}
use software_engineering_sch.Db.{
  Contents, OnboardingSaga, Subscription, SagaState, unsubscribed, completed, compensated,
  awaiting_delivery, is_pending,
}
use software_engineering_sch.Db.Gorm.{sagas, subscriptions, matching}
use software_engineering_sch.Saga.Store.{awaiting_for, pending_for, in_state}
use software_engineering_sch.Saga.Spec.{
  with_saved, with_created, with_unsubscribed, Step, completes, compensates, settles, restarts,
  starts, unsubscribes, beside, Reach, here, next,
}

abbrev pub is_compensated : SagaState → Bool
is_compensated compensated = true
is_compensated _ = false

-- A live pending subscription whose saga was compensated.
abbrev pub orphan : OnboardingSaga → Subscription → Bool
orphan saga sub =
    not saga.deleted
    && is_compensated saga.state
    && not sub.deleted
    && is_pending sub.status
    && str_eq sub.confirm_token saga.confirm_token

abbrev pub NoOrphan : List Subscription → OnboardingSaga → Type 0
NoOrphan subs saga = All (λ sub. orphan saga sub ≡ false) subs

-- No subscription is left pending by a compensated saga.
abbrev pub IsConsistent : Contents → Type 0
IsConsistent c = All (NoOrphan c.subscriptions) c.sagas

in_state-NoOrphan :
    (subs : List Subscription) (saga : OnboardingSaga) → NoOrphan subs (in_state completed saga)
in_state-NoOrphan [] saga = tt
in_state-NoOrphan (sub ∷ subs) saga = (ground arith, in_state-NoOrphan subs saga)

-- The subscriptions after the pending one of `token` was deleted.
abbrev cancelled : String → List Subscription → List Subscription
cancelled token subs =
    map_where (matching subscriptions (pending_for token)) subscriptions.mark_deleted subs

cancelled-NoOrphan :
    (token : String) (subs : List Subscription) (saga : OnboardingSaga)
    → NoOrphan subs saga
    → NoOrphan (cancelled token subs) saga
cancelled-NoOrphan token subs saga h =
    All-map_where (λ sub. orphan saga sub ≡ false) (matching subscriptions (pending_for token))
      subscriptions.mark_deleted subs (λ sub k m. ground arith) h

compensated_NoOrphan :
    (token : String) (subs : List Subscription) (saga : OnboardingSaga)
    → awaiting_for token saga ≡ true
    → NoOrphan (cancelled token subs) (in_state compensated saga)
compensated_NoOrphan token [] saga h = tt
compensated_NoOrphan token (sub ∷ subs) saga h = (
  ground (
    arith,
    eq_iff sub.confirm_token token,
    eq_iff saga.confirm_token token,
    eq_iff sub.confirm_token saga.confirm_token,
  ),
  compensated_NoOrphan token subs saga h,
)

compensates-NoOrphan :
    (token : String) (subs : List Subscription) (xs : List OnboardingSaga)
    → All (NoOrphan subs) xs
    → All
        (NoOrphan (cancelled token subs))
        (map_where (matching sagas (awaiting_for token)) (in_state compensated) xs)
compensates-NoOrphan token subs [] h = tt
compensates-NoOrphan token subs (x ∷ xs) h =
    (changed (matching sagas (awaiting_for token) x) refl, compensates-NoOrphan token subs xs h.1)
  where
    changed :
        (b : Bool)
        → matching sagas (awaiting_for token) x ≡ b
        → NoOrphan (cancelled token subs) (if b then in_state compensated x else x)
    changed true e = compensated_NoOrphan token subs x (ground arith)
    changed false e = cancelled-NoOrphan token subs x h.0

saved_NoOrphan :
    (sub : Subscription) (subs : List Subscription) (saga : OnboardingSaga)
    → orphan saga sub ≡ false
    → NoOrphan subs saga
    → NoOrphan (map_where (λ x. x.id == sub.id) (λ _. sub) subs) saga
saved_NoOrphan sub subs saga k h =
    All-map_where (λ s. orphan saga s ≡ false) (λ x. x.id == sub.id) (λ _. sub) subs (λ s _ _. k) h

created_NoOrphan :
    (sub : Subscription) (subs : List Subscription) (saga : OnboardingSaga)
    → orphan saga sub ≡ false
    → NoOrphan subs saga
    → NoOrphan (subs ++ (sub ∷ [])) saga
created_NoOrphan sub subs saga k h =
    All-append (λ s. orphan saga s ≡ false) subs (sub ∷ []) h (k, tt)

-- An old saga has another token than the subscription of a saga that starts.
fresh_orphan :
    (saga x : OnboardingSaga) (sub : Subscription)
    → saga.confirm_token ≡ sub.confirm_token
    → (not x.deleted && sagas.clashes saga x) ≡ false
    → orphan x sub ≡ false
fresh_orphan saga x sub t f =
    ground
      (arith, eq_iff saga.confirm_token x.confirm_token, eq_iff sub.confirm_token x.confirm_token)

any-live :
    (saga : OnboardingSaga) (xs : List OnboardingSaga)
    → any (sagas.clashes saga) (filter (λ r. not (sagas.deleted r)) xs) ≡ false
    → All (λ x. (not x.deleted && sagas.clashes saga x) ≡ false) xs
any-live saga [] h = tt
any-live saga (x ∷ xs) h = (ground arith, any-live saga xs (ground arith))

module _ (saga : OnboardingSaga) (sub : Subscription) (after : List Subscription)
    (before : List Subscription)
    (keep : (x : OnboardingSaga)
      → orphan x sub ≡ false
      → NoOrphan before x
      → NoOrphan after x) where
  started_NoOrphan :
      (xs : List OnboardingSaga)
      → saga.confirm_token ≡ sub.confirm_token
      → All (λ x. (not x.deleted && sagas.clashes saga x) ≡ false) xs
      → All (NoOrphan before) xs
      → All (NoOrphan after) xs
  started_NoOrphan [] t f h = tt
  started_NoOrphan (x ∷ xs) t f h =
      (keep x (fresh_orphan saga x sub t f.0) h.0, started_NoOrphan xs t f.1 h.1)

awaiting_NoOrphan :
    (subs : List Subscription) (saga : OnboardingSaga)
    → saga.state ≡ awaiting_delivery
    → NoOrphan subs saga
awaiting_NoOrphan [] saga h = tt
awaiting_NoOrphan (sub ∷ subs) saga h = (ground arith, awaiting_NoOrphan subs saga h)

settled_NoOrphan :
    (sub : Subscription)
    → is_pending sub.status ≡ false
    → (saga : OnboardingSaga) → orphan saga sub ≡ false
settled_NoOrphan sub h saga = ground arith

unsubscribed-NoOrphan :
    (p : Subscription → Bool) (subs : List Subscription) (saga : OnboardingSaga)
    → NoOrphan subs saga
    → NoOrphan
        (map_where (matching subscriptions p) (λ s. record s { status = unsubscribed }) subs)
        saga
unsubscribed-NoOrphan p subs saga h =
    All-map_where (λ sub. orphan saga sub ≡ false) (matching subscriptions p)
      (λ s. record s { status = unsubscribed }) subs (λ sub k m. ground arith) h

pub Step-IsConsistent : {c c' : Contents} → Step c c' → IsConsistent c → IsConsistent c'
Step-IsConsistent {c} (completes token e) h = subst IsConsistent (sym e) (
    All-map_where (NoOrphan c.subscriptions) (matching sagas (awaiting_for token))
      (in_state completed) c.sagas (λ x k m. in_state-NoOrphan c.subscriptions x) h)
Step-IsConsistent {c} (compensates token e) h =
    subst IsConsistent (sym e) (compensates-NoOrphan token c.subscriptions c.sagas h)
Step-IsConsistent {c} (settles sub done e) h = subst IsConsistent (sym e) (
    All-imp (NoOrphan c.subscriptions) (NoOrphan (with_saved sub c).subscriptions) c.sagas
      (λ x k. saved_NoOrphan sub c.subscriptions x (settled_NoOrphan sub done x) k) h)
Step-IsConsistent {c} (restarts sub saga rows s e) h = subst IsConsistent (sym e) (
    All-append (NoOrphan (with_saved sub c).subscriptions) c.sagas (saga ∷ [])
      (started_NoOrphan saga sub (with_saved sub c).subscriptions c.subscriptions
        (λ x. saved_NoOrphan sub c.subscriptions x) c.sagas s.token (any-live saga c.sagas s.fresh)
        h)
      (awaiting_NoOrphan _ saga s.awaits, tt))
Step-IsConsistent {c} (starts sub saga rows s e) h = subst IsConsistent (sym e) (
    All-append (NoOrphan (with_created sub c).subscriptions) c.sagas (saga ∷ [])
      (started_NoOrphan saga sub (with_created sub c).subscriptions c.subscriptions
        (λ x. created_NoOrphan sub c.subscriptions x) c.sagas s.token
        (any-live saga c.sagas s.fresh) h)
      (awaiting_NoOrphan _ saga s.awaits, tt))
Step-IsConsistent {c} (unsubscribes p repos rows e) h = subst IsConsistent (sym e) (
    All-imp (NoOrphan c.subscriptions) (NoOrphan (with_unsubscribed p c).subscriptions) c.sagas
      (λ saga k. unsubscribed-NoOrphan p c.subscriptions saga k) h)
Step-IsConsistent (beside repos rows e) h = subst IsConsistent (sym e) h

-- Consistency is an invariant: no sequence of steps leaves a pending subscription behind a compensated
-- saga.
pub Reach-IsConsistent : {c c' : Contents} → IsConsistent c → Reach c c' → IsConsistent c'
Reach-IsConsistent h here = h
Reach-IsConsistent h (next r s) = Step-IsConsistent s (Reach-IsConsistent h r)

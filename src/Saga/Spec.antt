-- ===== src/Saga/Spec.antt =====
-- The abstract specification of the onboarding saga: the writes that any of the services may make,
-- in any order and by any number of processes, as steps between the tables, and what a saga that has
-- settled keeps.
use software_engineering_sch.Prelude.{
  String, ◌≡◌, Bool, false, not, Option, some, List, [], ◌∷◌, ◌++◌, arith, ◌==◌, filter, find?, any,
  map_where,
}
use software_engineering_sch.Db.{
  Contents, OnboardingSaga, Subscription, SagaState, Row, Repository, unsubscribed, completed,
  compensated, awaiting_delivery, is_pending, is_awaiting,
}
use software_engineering_sch.Db.Gorm.{live, sagas, subscriptions, matching}
use software_engineering_sch.Saga.Store.{awaiting_for, in_state, for_token}
use software_engineering_sch.Saga.Effects.{with_completed, with_compensated}

-- A subscription that was read, changed and saved.
abbrev pub with_saved : Subscription → Contents → Contents
with_saved sub c = record c {
  subscriptions = map_where (λ x. x.id == sub.id) (λ _. sub) c.subscriptions;
}

abbrev pub with_created : Subscription → Contents → Contents
with_created sub c = record c { subscriptions = c.subscriptions ++ (sub ∷ []) }

-- A saga that starts, with its events in the outbox.
abbrev pub with_started : OnboardingSaga → List Row → Contents → Contents
with_started saga rows c = record c { sagas = c.sagas ++ (saga ∷ []); outbox = c.outbox ++ rows }

-- The tables that no saga depends on.
abbrev pub with_tables : List Repository → List Row → Contents → Contents
with_tables repos rows c = record c { repositories = repos; outbox = rows }

abbrev pub with_unsubscribed : (Subscription → Bool) → Contents → Contents
with_unsubscribed p c = record c {
  subscriptions =
      map_where (matching subscriptions p) (λ s. record s { status = unsubscribed })
        c.subscriptions;
}

-- The saga awaits the verification of the subscription, and no live saga has its token.
pub record Starts (saga : OnboardingSaga) (sub : Subscription) (c : Contents) : Type 0 where
  pub token : saga.confirm_token ≡ sub.confirm_token
  pub awaits : saga.state ≡ awaiting_delivery
  pub fresh : any (sagas.clashes saga) (live sagas c) ≡ false

-- One committed write.
pub data Step (c c' : Contents) : Type 0 where
  completes : (token : String) → c' ≡ with_completed token c → Step c c'
  compensates : (token : String) → c' ≡ with_compensated token c → Step c c'
  settles : (sub : Subscription) → is_pending sub.status ≡ false → c' ≡ with_saved sub c → Step c c'
  restarts :
      (sub : Subscription) (saga : OnboardingSaga) (rows : List Row)
      → Starts saga sub c
      → c' ≡ with_started saga rows (with_saved sub c)
      → Step c c'
  starts :
      (sub : Subscription) (saga : OnboardingSaga) (rows : List Row)
      → Starts saga sub c
      → c' ≡ with_started saga rows (with_created sub c)
      → Step c c'
  -- the scanner found that a repository has moved
  unsubscribes :
      (p : Subscription → Bool) (repos : List Repository) (rows : List Row)
      → c' ≡ with_tables repos rows (with_unsubscribed p c)
      → Step c c'
  -- a write of the scanner or of the relay that is beside the subscriptions
  beside : (repos : List Repository) (rows : List Row) → c' ≡ with_tables repos rows c → Step c c'

pub data Reach (c : Contents) : Contents → Type 0 where
  here : Reach c c
  next : {d e : Contents} → Reach c d → Step d e → Reach c e

-- What a saga that has settled keeps.
find?-map_where :
    (token : String) (to : SagaState) (t : String) (xs : List OnboardingSaga) (s : OnboardingSaga)
    → find? (for_token token) (filter (λ r. not r.deleted) xs) ≡ some s
    → is_awaiting s.state ≡ false
    → find?
        (for_token token)
        (filter (λ r. not r.deleted) (map_where (matching sagas (awaiting_for t)) (in_state to) xs))
      ≡ some s
find?-map_where token to t [] s h a = h
find?-map_where token to t (x ∷ xs) s h a = ground (arith, find?-map_where token to t xs s)

find?-append :
    (token : String) (xs : List OnboardingSaga) (y : OnboardingSaga) (s : OnboardingSaga)
    → find? (for_token token) (filter (λ r. not r.deleted) xs) ≡ some s
    → find? (for_token token) (filter (λ r. not r.deleted) (xs ++ (y ∷ []))) ≡ some s
find?-append token [] y s h = cc
find?-append token (x ∷ xs) y s h = ground (arith, find?-append token xs y s)

abbrev pub saga_of : String → Contents → Option OnboardingSaga
saga_of token c = find? (for_token token) (live sagas c)

pub Step-saga_of :
    {c c' : Contents} (token : String) {s : OnboardingSaga}
    → Step c c'
    → saga_of token c ≡ some s
    → is_awaiting s.state ≡ false
    → saga_of token c' ≡ some s
Step-saga_of {c} token (completes t e) h a = rw e (find?-map_where token completed t c.sagas _ h a)
Step-saga_of {c} token (compensates t e) h a =
    rw e (find?-map_where token compensated t c.sagas _ h a)
Step-saga_of {c} token (settles sub done e) h a = rw e h
Step-saga_of {c} token (restarts sub saga rows s e) h a = rw e (find?-append token c.sagas saga _ h)
Step-saga_of {c} token (starts sub saga rows s e) h a = rw e (find?-append token c.sagas saga _ h)
Step-saga_of token (unsubscribes p repos rows e) h a = rw e h
Step-saga_of token (beside repos rows e) h a = rw e h

-- No sequence of steps changes a saga that has been completed or compensated.
pub Reach-saga_of :
    {c c' : Contents} (token : String) {s : OnboardingSaga}
    → saga_of token c ≡ some s
    → is_awaiting s.state ≡ false
    → Reach c c'
    → saga_of token c' ≡ some s
Reach-saga_of token h a here = h
Reach-saga_of token h a (next r s) = Step-saga_of token s (Reach-saga_of token h a r) a

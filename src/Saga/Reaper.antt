-- ===== src/Saga/Reaper.antt =====
-- internal/worker/orchestrator/reaper.go: the sweep that compensates sagas whose result was lost.
use software_engineering_sch.Prelude.{
  ℕ, zero, suc, String, ◌≡◌, refl, sym, ap, ◌∙◌, subst, ◌⊎◌, inl, inr, false, ◌&&◌, not, Option,
  some, List, [], ◌∷◌, map, arith, Bool-cases, filter, find?, map_where, All, Error, Result, ok,
  err,
}
use software_engineering_sch.Db.{Contents, OnboardingSaga, compensated, is_awaiting}
use software_engineering_sch.Db.Gorm.{matching, sagas, IsForeign}
use software_engineering_sch.Saga.Store.{Store, for_token, awaiting_for, in_state}
use software_engineering_sch.Saga.Effects.{with_compensated}
use software_engineering_sch.Saga.Spec.{Step, Reach, here, next, compensates}
use software_engineering_sch.Saga.Contract.{
  IsClosed, IsSagaStore, Outcome, written, lost_race, failed, stale_tokens,
}

-- What the sweep logs of one token.
pub record Swept : Type 0 where
  pub token : String
  pub error : Option Error

module _ {ℓ} {S : Type ℓ} (st : Store S) where
  -- The loop over the tokens: an error is logged, and the sweep goes on.
  unfoldable pub compensate_all : List String → S → List Swept × S
  compensate_all [] s = ([], s)
  compensate_all (token ∷ tokens) s =
      let (e, s') = st.compensate token s in
      let (log, s'') = compensate_all tokens s' in (record { token = token; error = e } ∷ log, s'')

  unfoldable pub sweep_on : Result (List String) → S → List Swept × S
  sweep_on (err e) s = ([], s)
  sweep_on (ok tokens) s = compensate_all tokens s

  unfoldable pub sweep : ℕ → S → List Swept × S
  unfolding sweep_on compensate_all
  sweep stale_after s = let (r, s') = st.stale_awaiting_tokens stale_after s in sweep_on r s'

  -- `Run` sweeps at once and then on each of the ticks that come before the cancellation.
  unfoldable pub run : ℕ → ℕ → S → S
  unfolding sweep
  run stale_after zero s = (sweep stale_after s).1
  run stale_after (suc ticks) s = run stale_after ticks (sweep stale_after s).1

-- Compensating one saga opens no other.
closed_by_other :
    (token t : String) (xs : List OnboardingSaga) (s : OnboardingSaga)
    → ((x : OnboardingSaga)
        → find? (for_token token) (filter (λ r. not r.deleted) xs) ≡ some x
        → is_awaiting x.state ≡ false)
    → find? (for_token token) (
        filter
          (λ r. not r.deleted)
          (map_where (matching sagas (awaiting_for t)) (in_state compensated) xs))
      ≡ some s
    → is_awaiting s.state ≡ false
closed_by_other token t [] s h e = cc
closed_by_other token t (x ∷ xs) s h e = elim (Bool-cases (not x.deleted && for_token token x)) [
  | inl first ↦ ground (arith, h x)
  | inr later ↦ closed_by_other token t xs s (λ y p. h y (ground arith)) (ground arith)
]

IsClosed-compensated :
    (token t : String) (c : Contents) → IsClosed token c → IsClosed token (with_compensated t c)
IsClosed-compensated token t c h s e = closed_by_other token t c.sagas s h e

module _ {ℓ} {S : Type ℓ} {now : ℕ} {st : Store S} {view : S → Contents}
    (law : IsSagaStore now st view) where
  Outcome-Reach :
      (token : String) (before after : Contents) (e : Option Error)
      → Outcome token before after (with_compensated token before) e
      → Reach before after
  Outcome-Reach token before after e (written a _) =
      next here (subst (Step before) (sym a) (compensates token refl))
  Outcome-Reach token before after e (lost_race a _) = subst (Reach before) (sym a) here
  Outcome-Reach token before after e (failed a _) = subst (Reach before) (sym a) here

  Reach-trans : {a b c : Contents} → Reach a b → Reach b c → Reach a c
  Reach-trans r here = r
  Reach-trans r (next q s) = next (Reach-trans r q) s

  compensate_all-Reach :
      (tokens : List String) (s : S) → Reach (view s) (view (compensate_all st tokens s).1)
  unfolding compensate_all
  compensate_all-Reach [] s = here
  compensate_all-Reach (t ∷ ts) s =
      Reach-trans (Outcome-Reach t _ _ _ (law.compensates t s))
        (compensate_all-Reach ts (st.compensate t s).1)

  sweep_on-Reach : (r : Result (List String)) (s : S) → Reach (view s) (view (sweep_on st r s).1)
  unfolding sweep_on
  sweep_on-Reach (ok tokens) s = compensate_all-Reach tokens s
  sweep_on-Reach (err e) s = here

  -- A sweep moves the tables by compensations only, whatever fails.
  pub sweep-Reach : (older_than : ℕ) (s : S) → Reach (view s) (view (sweep st older_than s).1)
  unfolding sweep
  sweep-Reach older_than s =
      subst (λ c. Reach c (view (sweep st older_than s).1)) (law.sweeps_keeps older_than s)
        (sweep_on-Reach (st.stale_awaiting_tokens older_than s).0 _)

  -- The saga of the token is closed, or the database failed and the failure was logged.
  abbrev pub IsHandled : Contents → Swept → Type 0
  IsHandled c log = IsClosed log.token c ⊎ ((e : Error) × (log.error ≡ some e) × IsForeign e)

  Outcome-IsClosed :
      (token t : String) (before after : Contents) (e : Option Error)
      → Outcome t before after (with_compensated t before) e
      → IsClosed token before
      → IsClosed token after
  Outcome-IsClosed token t before after e (written a _) h =
      subst (IsClosed token) (sym a) (IsClosed-compensated token t before h)
  Outcome-IsClosed token t before after e (lost_race a _) h = subst (IsClosed token) (sym a) h
  Outcome-IsClosed token t before after e (failed a _) h = subst (IsClosed token) (sym a) h

  compensate_all-IsClosed :
      (token : String) (tokens : List String) (s : S)
      → IsClosed token (view s)
      → IsClosed token (view (compensate_all st tokens s).1)
  unfolding compensate_all
  compensate_all-IsClosed token [] s h = h
  compensate_all-IsClosed token (t ∷ ts) s h =
      compensate_all-IsClosed token ts (st.compensate t s).1
        (Outcome-IsClosed token t _ _ _ (law.compensates t s) h)

  handled_at_once :
      (t : String) (before after : Contents) (e : Option Error)
      → Outcome t before after (with_compensated t before) e
      → IsClosed t after ⊎ ((x : Error) × (e ≡ some x) × IsForeign x)
  handled_at_once t before after e (written a closed) = inl closed
  handled_at_once t before after e (lost_race a closed) = inl (subst (IsClosed t) (sym a) closed)
  handled_at_once t before after (some x) (failed a foreign) = inr (x, refl, foreign)

  compensate_all-IsHandled :
      (tokens : List String) (s : S)
      → (map (λ (l : Swept). l.token) (compensate_all st tokens s).0 ≡ tokens)
        × All (IsHandled (view (compensate_all st tokens s).1)) (compensate_all st tokens s).0
  unfolding compensate_all
  compensate_all-IsHandled [] s = (refl, tt)
  compensate_all-IsHandled (t ∷ ts) s =
      let (names, rest) = compensate_all-IsHandled ts (st.compensate t s).1 in
      (ap (λ l. t ∷ l) names, (first, rest))
    where
      first :
          IsHandled
            (view (compensate_all st ts (st.compensate t s).1).1)
            (record { token = t; error = (st.compensate t s).0 })
      first = elim (handled_at_once t _ _ _ (law.compensates t s)) [
        | inl closed ↦ inl (compensate_all-IsClosed t ts (st.compensate t s).1 closed)
        | inr failure ↦ inr failure
      ]

  sweep_on-IsHandled :
      (r : Result (List String)) (s : S) {tokens : List String}
      → r ≡ ok tokens
      → (map (λ (l : Swept). l.token) (sweep_on st r s).0 ≡ tokens)
        × All (IsHandled (view (sweep_on st r s).1)) (sweep_on st r s).0
  unfolding sweep_on
  sweep_on-IsHandled (ok ts) s {tokens} h =
      let same : ts ≡ tokens = cc in
      let (names, rest) = compensate_all-IsHandled ts s in (names ∙ same, rest)
  sweep_on-IsHandled (err e) s h = cc

  -- A sweep whose query succeeds goes through every stale saga: afterwards each of them is closed, or
  -- its failure is in the log.
  pub sweep-IsHandled :
      (older_than : ℕ) (s : S) {tokens : List String}
      → (st.stale_awaiting_tokens older_than s).0 ≡ ok tokens
      → (map (λ (l : Swept). l.token) (sweep st older_than s).0
          ≡ stale_tokens now older_than (view s))
        × All (IsHandled (view (sweep st older_than s).1)) (sweep st older_than s).0
  unfolding sweep
  sweep-IsHandled older_than s read =
      let (names, rest) = sweep_on-IsHandled _ _ read in
      (names ∙ law.sweeps older_than s read, rest)

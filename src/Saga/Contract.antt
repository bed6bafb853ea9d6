-- ===== src/Saga/Contract.antt =====
-- What the orchestrator and the reaper may rely on of a saga store, and the proof that the
-- GORM-backed store keeps it.
use software_engineering_sch.Prelude.{
  ℕ, String, ◌≡◌, refl, sym, ap, ◌∙◌, subst, inl, inr, false, not, Option, none, some, List, [],
  ◌∷◌, map, arith, length, filter, find?, map_where, Error, record_not_found, is_not_found, Result,
  ok, err,
}
use software_engineering_sch.Db.{
  Contents, OnboardingSaga, SagaState, is_awaiting, completed, compensated,
}
use software_engineering_sch.Db.Gorm.{Gorm, live, matching, sagas, IsForeign}
use software_engineering_sch.Saga.Store.{
  Store, gorm_store, saga_state, mark_completed, compensate, stale_awaiting_tokens,
  err_already_settled, for_token, awaiting_for, in_state, stale, tokens_of, state_of,
}
use software_engineering_sch.Saga.Effects.{
  with_completed, with_compensated, mark_completed_done, mark_completed_failed, compensate_done,
  compensate_failed, Cause,
}
use software_engineering_sch.Saga.Spec.{saga_of}

-- No result is awaited for the token any more.
abbrev pub IsClosed : String → Contents → Type 0
IsClosed token c = (s : OnboardingSaga) → saga_of token c ≡ some s → is_awaiting s.state ≡ false

-- The outcome of a settling write: it was made in full, or not at all.
pub data Outcome (token : String) (before after done : Contents) : Option Error → Type 0 where
  written : after ≡ done → IsClosed token after → Outcome token before after done none
  lost_race :
      after ≡ before
      → IsClosed token before
      → Outcome token before after done (some err_already_settled)
  failed : {e : Error} → after ≡ before → IsForeign e → Outcome token before after done (some e)

-- What a lookup says of the saga.
pub data Lookup (token : String) (c : Contents) : Result SagaState → Type 0 where
  found : (s : OnboardingSaga) → saga_of token c ≡ some s → Lookup token c (ok s.state)
  missing : (t : String) → saga_of token c ≡ none → Lookup token c (err (record_not_found t))
  unreadable : (e : Error) → is_not_found e ≡ false → Lookup token c (err e)

abbrev pub stale_tokens : ℕ → ℕ → Contents → List String
stale_tokens now older_than c =
    map (λ (s : OnboardingSaga). s.confirm_token) (filter (stale now older_than) (live sagas c))

pub record IsSagaStore {ℓ} {S : Type ℓ} (now : ℕ) (st : Store S) (view : S → Contents)
    : Type ℓ where
  pub lookup : (token : String) (s : S) → Lookup token (view s) (st.saga_state token s).0
  pub lookup_keeps : (token : String) (s : S) → view (st.saga_state token s).1 ≡ view s
  pub completes :
      (token : String) (s : S)
      → Outcome token
          (view s)
          (view (st.mark_completed token s).1)
          (with_completed token (view s))
          (st.mark_completed token s).0
  pub compensates :
      (token : String) (s : S)
      → Outcome token
          (view s)
          (view (st.compensate token s).1)
          (with_compensated token (view s))
          (st.compensate token s).0
  -- The tokens of the stale sagas, all of them and no other.
  pub sweeps :
      (older_than : ℕ) (s : S) {tokens : List String}
      → (st.stale_awaiting_tokens older_than s).0 ≡ ok tokens
      → tokens ≡ stale_tokens now older_than (view s)
  pub sweeps_keeps :
      (older_than : ℕ) (s : S) → view (st.stale_awaiting_tokens older_than s).1 ≡ view s

-- After the guarded update no live saga of the token awaits its result.
closed_by_update :
    (token : String) (to : SagaState) (xs : List OnboardingSaga) (s : OnboardingSaga)
    → is_awaiting to ≡ false
    → find? (for_token token) (
        filter
          (λ r. not r.deleted)
          (map_where (matching sagas (awaiting_for token)) (in_state to) xs))
      ≡ some s
    → is_awaiting s.state ≡ false
closed_by_update token to [] s t h = cc
closed_by_update token to (x ∷ xs) s t h = ground (arith, closed_by_update token to xs s t)

closed_by_count :
    (token : String) (xs : List OnboardingSaga) (s : OnboardingSaga)
    → length (filter (awaiting_for token) (filter (λ r. not r.deleted) xs)) ≡ 0
    → find? (for_token token) (filter (λ r. not r.deleted) xs) ≡ some s
    → is_awaiting s.state ≡ false
closed_by_count token [] s n h = cc
closed_by_count token (x ∷ xs) s n h = ground (arith, closed_by_count token xs s)

Outcome-of_Cause :
    (token : String) (before after done : Contents) (e : Error)
    → after ≡ before
    → Cause token before e
    → Outcome token before after done (some e)
Outcome-of_Cause token before after done e kept (inl (same, none_awaits)) =
    subst (λ x. Outcome token before after done (some x)) (sym same)
      (lost_race kept (λ s. closed_by_count token before.sagas s none_awaits))
Outcome-of_Cause token before after done e kept (inr foreign) = failed kept foreign

outcome :
    (token : String) (before after done : Contents) (r : Option Error)
    → IsClosed token done
    → (r ≡ none → after ≡ done)
    → ((e : Error) → r ≡ some e → (after ≡ before) × Cause token before e)
    → Outcome token before after done r
outcome token before after done none closed yes_case no_case =
    written (yes_case refl) (subst (IsClosed token) (sym (yes_case refl)) closed)
outcome token before after done (some e) closed yes_case no_case =
    let (kept, cause) = no_case e refl in Outcome-of_Cause token before after done e kept cause

module _ (g : Gorm) where
  lookup_of :
      (token : String) (db : g.Db) (r : Result OnboardingSaga)
      → (g.first sagas (for_token token) db).0 ≡ r
      → Lookup token (g.contents db) (state_of r)
  lookup_of token db (ok s) h = found s (g.first_ok sagas (for_token token) db h)
  lookup_of token db (err (record_not_found t)) h =
      missing t (g.first_missing sagas (for_token token) db h)
  lookup_of token db (err e) h = unreadable e refl

  saga_state-Lookup :
      (token : String) (db : g.Db) → Lookup token (g.contents db) (saga_state g token db).0
  unfolding saga_state
  saga_state-Lookup token db = lookup_of token db _ refl

  saga_state_keeps :
      (token : String) (db : g.Db) → g.contents (saga_state g token db).1 ≡ g.contents db
  unfolding saga_state
  saga_state_keeps token db = g.first_keeps sagas (for_token token) db

  mark_completed-Outcome :
      (token : String) (db : g.Db)
      → Outcome token
          (g.contents db)
          (g.contents (mark_completed g token db).1)
          (with_completed token (g.contents db))
          (mark_completed g token db).0
  mark_completed-Outcome token db =
      outcome token _ _ _ _ (λ s. closed_by_update token completed (g.contents db).sagas s refl)
        (mark_completed_done g token db) (λ e h. mark_completed_failed g token db h)

  compensate-Outcome :
      (token : String) (db : g.Db)
      → Outcome token
          (g.contents db)
          (g.contents (compensate g token db).1)
          (with_compensated token (g.contents db))
          (compensate g token db).0
  compensate-Outcome token db =
      outcome token _ _ _ _ (λ s. closed_by_update token compensated (g.contents db).sagas s refl)
        (compensate_done g token db) (λ e h. compensate_failed g token db h)

  stale_awaiting_tokens_keeps :
      (now older_than : ℕ) (db : g.Db)
      → g.contents (stale_awaiting_tokens g now older_than db).1 ≡ g.contents db
  unfolding stale_awaiting_tokens
  stale_awaiting_tokens_keeps now older_than db = g.find_keeps sagas (stale now older_than) db

  tokens_of-ok :
      (r : Result (List OnboardingSaga)) {tokens : List String}
      → tokens_of r ≡ ok tokens
      → (rows : List OnboardingSaga) × (r ≡ ok rows)
        × (tokens ≡ map (λ (s : OnboardingSaga). s.confirm_token) rows)
  tokens_of-ok (ok rows) h = (rows, refl, cc)
  tokens_of-ok (err e) h = cc

  stale_awaiting_tokens_exact :
      (now older_than : ℕ) (db : g.Db) {tokens : List String}
      → (stale_awaiting_tokens g now older_than db).0 ≡ ok tokens
      → tokens ≡ stale_tokens now older_than (g.contents db)
  unfolding stale_awaiting_tokens
  stale_awaiting_tokens_exact now older_than db h =
      let (rows, read, same) = tokens_of-ok _ h in
      same
      ∙ ap (λ xs. map (λ (s : OnboardingSaga). s.confirm_token) xs)
          (g.find_ok sagas (stale now older_than) db read)

  -- The GORM-backed store keeps the contract of the saga store, at every call, failures included.
  pub gorm_store-IsSagaStore : (now : ℕ) → IsSagaStore now (gorm_store g now) g.contents
  gorm_store-IsSagaStore now = record {
    lookup = saga_state-Lookup;
    lookup_keeps = saga_state_keeps;
    completes = mark_completed-Outcome;
    compensates = compensate-Outcome;
    sweeps = λ older_than db h. stale_awaiting_tokens_exact now older_than db h;
    sweeps_keeps = stale_awaiting_tokens_keeps now;
  }

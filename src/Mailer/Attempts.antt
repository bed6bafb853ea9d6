-- ===== src/Mailer/Attempts.antt =====
-- The retry loops of internal/worker/mailer/mailer.go, sendWithRetry and reportWithRetry.
use software_engineering_sch.Prelude.{
  String, ℕ, zero, suc, ◌<◌, ◌*◌, ◌≡◌, refl, sym, ap, ◌∙◌, true, false, Option, none, some, List,
  [], ◌∷◌, ◌++◌, map, arith, ◌==◌, inl, inr, Bool-cases, Option-cases, length, Error,
}
use software_engineering_sch.Mailer.{Mailer, Tried, attempt, send_with_retry}

-- What a loop of at most `n` attempts may leave. All calls but the last one failed.
pub data Attempted {W : Type 0} (wait : ℕ → W → Option Error × W) (n : ℕ) (t : Tried W)
    : Type 0 where
  -- the last call succeeded, and the loop did
  succeeded :
      (es : List Error)
      → length es < n
      → t.calls ≡ map some es ++ (none ∷ [])
      → t.result ≡ none
      → Attempted wait n t
  -- all `n` calls failed, and the loop with the last error
  exhausted :
      (es : List Error) (e : Error)
      → suc (length es) ≡ n
      → t.calls ≡ map some es ++ (some e ∷ [])
      → t.result ≡ some e
      → Attempted wait n t
  -- a wait after a failure that was not the last one ended with the context's error, and the loop
  -- with that error
  interrupted :
      (es : List Error) (x : Error) (backoff : ℕ) (w : W)
      → wait backoff w ≡ (some x, t.world)
      → 0 < length es
      → length es < n
      → t.calls ≡ map some es
      → t.result ≡ some x
      → Attempted wait n t

Attempted-cons :
    {W : Type 0} {wait : ℕ → W → Option Error × W} {n : ℕ} (e : Error) (t : Tried W)
    → Attempted wait n t
    → Attempted wait (suc n) (record t { calls = some e ∷ t.calls })
Attempted-cons e t (succeeded es few calls done) =
    succeeded (e ∷ es) (omega arith) (ap (λ cs. some e ∷ cs) calls) done
Attempted-cons e t (exhausted es x all calls done) =
    exhausted (e ∷ es) x (omega arith) (ap (λ cs. some e ∷ cs) calls) done
Attempted-cons e t (interrupted es x backoff w stopped some_call few calls done) =
    interrupted (e ∷ es) x backoff w stopped (omega arith) (omega arith)
      (ap (λ cs. some e ∷ cs) calls) done

not_zero : (n : ℕ) → (n == 0) ≡ false → 0 < n
not_zero n h = ground arith

is_zero : (n : ℕ) → (n == 0) ≡ true → n ≡ 0
is_zero n h = ground arith

module _ {W : Type 0} (wait : ℕ → W → Option Error × W) (act : W → Option Error × W) where
  attempt-Attempted :
      (n backoff : ℕ) (w : W) → 0 < n → Attempted wait n (attempt wait act n backoff w)
  unfolding attempt
  attempt-Attempted zero backoff w h = absurd (omega arith)
  attempt-Attempted (suc left) backoff w h = elim (Option-cases (act w).0) [
    | inl good ↦ rw (attempt, good) (succeeded [] (omega arith) refl refl)
    | inr (e, bad) ↦ elim (Bool-cases (left == 0)) [
      | inl last ↦
          rw (attempt, bad, last) (exhausted [] e (ap suc (sym (is_zero left last))) refl refl)
      | inr more ↦ elim (Option-cases (wait backoff (act w).1).0) [
        | inr (x, stopped) ↦
            let some_left : 0 < left = not_zero left more in
            rw (attempt, bad, more, stopped)
              (interrupted (e ∷ []) x backoff (act w).1
                (ap (λ r. (r, (wait backoff (act w).1).1)) stopped) (omega arith) (omega arith) refl
                refl)
        | inl waited ↦
            rw (attempt, bad, more, waited)
              (Attempted-cons e _ (
                attempt-Attempted left (backoff * 2) (wait backoff (act w).1).1
                  (not_zero left more)))
      ]
    ]
  ]

  -- What neither the action nor the wait changes.
  pub attempt-keeps {ℓ} :
      {V : Type ℓ} (view : W → V)
      → ((w : W) → view (act w).1 ≡ view w)
      → ((b : ℕ) (w : W) → view (wait b w).1 ≡ view w)
      → (n backoff : ℕ) (w : W) → view (attempt wait act n backoff w).world ≡ view w
  unfolding attempt
  attempt-keeps view act_keeps wait_keeps zero backoff w = refl
  attempt-keeps view act_keeps wait_keeps (suc left) backoff w = elim (Option-cases (act w).0) [
    | inl good ↦ rw (attempt, good) (act_keeps w)
    | inr (e, bad) ↦ elim (Bool-cases (left == 0)) [
      | inl last ↦ rw (attempt, bad, last) (act_keeps w)
      | inr more ↦ elim (Option-cases (wait backoff (act w).1).0) [
        | inr (x, stopped) ↦
            rw (attempt, bad, more, stopped) (wait_keeps backoff (act w).1 ∙ act_keeps w)
        | inl waited ↦
            rw (attempt, bad, more, waited)
              (attempt-keeps view act_keeps wait_keeps left (backoff * 2) (wait backoff (act w).1).1
                ∙ wait_keeps backoff (act w).1
                ∙ act_keeps w)
      ]
    ]
  ]

-- Where `max_retries` is at least one, a send makes at most so many calls, stops at the first that
-- succeeds, and fails only after all of them failed, with the last error, or after a wait that the
-- context ended, with its error.
pub send_with_retry-Attempted :
    {W : Type 0} (m : Mailer W) (email subject body : String) (w : W)
    → 0 < m.max_retries
    → Attempted m.wait m.max_retries (send_with_retry m email subject body w)
unfolding send_with_retry
send_with_retry-Attempted m email subject body w h =
    attempt-Attempted m.wait (m.send_email email subject body) m.max_retries m.base_backoff w h

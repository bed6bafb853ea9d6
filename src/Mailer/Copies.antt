-- ===== src/Mailer/Copies.antt =====
-- The copies of one report that the loops of internal/worker/mailer/mailer.go leave on the broker.
use software_engineering_sch.Prelude.{
  String, ℕ, zero, suc, ◌≤◌, ◌*◌, ◌+◌, ◌≡◌, refl, sym, ap, ◌∙◌, true, false, Option, some, List, [],
  ◌∷◌, ◌++◌, arith, ◌==◌, inl, inr, Bool-cases, Option-cases, Error,
}
use mathlib.Core.List.{append-nil, append_assoc}
use software_engineering_sch.Saga.Report.{Report}
use software_engineering_sch.Mailer.{ResultPublisher, Mailer, attempt}

-- What one publish of a report does to the reports that have reached the broker. Without an error
-- it is there; with one it may be there all the same, when only the confirm was lost.
pub data Adds (r : Report) (xs ys : List Report) : Option Error → Type 0 where
  landed : {o : Option Error} → ys ≡ xs ++ (r ∷ []) → Adds r xs ys o
  lost : (e : Error) → ys ≡ xs → Adds r xs ys (some e)

-- `reports` is what has reached the broker. Only the publisher adds to it.
pub record Observes {W : Type 0} (m : Mailer W) (p : ResultPublisher W) (reports : W → List Report)
    : Type 0 where
  pub send_keeps :
      (email subject body : String) (w : W)
      → reports (m.send_email email subject body w).1 ≡ reports w
  pub wait_keeps : (b : ℕ) (w : W) → reports (m.wait b w).1 ≡ reports w
  pub delivered_adds :
      (token : String) (w : W)
      → Adds
          (record { delivered = true; token = token })
          (reports w)
          (reports (p.verification_delivered token w).1)
          (p.verification_delivered token w).0
  pub failed_adds :
      (token reason : String) (w : W)
      → Adds
          (record { delivered = false; token = token })
          (reports w)
          (reports (p.verification_failed token reason w).1)
          (p.verification_failed token reason w).0

abbrev pub copies {ℓ} : {A : Type ℓ} → ℕ → A → List A
copies zero a = []
copies (suc k) a = a ∷ copies k a

-- At most `n` copies of the report were added.
pub record Added (n : ℕ) (r : Report) (xs ys : List Report) : Type 0 where
  pub count : ℕ
  pub few : count ≤ n
  pub adds : ys ≡ xs ++ copies count r

copies-add {ℓ} : {A : Type ℓ} (j k : ℕ) (a : A) → copies (j + k) a ≡ copies j a ++ copies k a
copies-add zero k a = ap (λ n. copies n a) (omega arith)
copies-add (suc j) k a =
    let step : suc j + k ≡ suc (j + k) = omega arith in
    ap (λ n. copies n a) step ∙ ap (λ l. a ∷ l) (copies-add j k a)

Added-trans :
    {m n : ℕ} {r : Report} {xs ys zs : List Report}
    → Added m r xs ys
    → Added n r ys zs
    → Added (m + n) r xs zs
Added-trans {r = r} {xs = xs} a b = record {
  count = a.count + b.count;
  few = let ha = a.few in let hb = b.few in omega arith;
  adds =
      b.adds
      ∙ ap (λ l. l ++ copies b.count r) a.adds
      ∙ append_assoc xs (copies a.count r) (copies b.count r)
      ∙ ap (λ l. xs ++ l) (sym (copies-add a.count b.count r));
}

Adds-Added :
    {r : Report} {xs ys : List Report} (o : Option Error) → Adds r xs ys o → Added 1 r xs ys
Adds-Added o (landed e) = record { count = 1; few = omega arith; adds = e }
Adds-Added o (lost x e) = record { count = 0; few = omega arith; adds = e ∙ sym (append-nil _) }

Added-none : {n : ℕ} {r : Report} (xs ys : List Report) → ys ≡ xs → Added n r xs ys
Added-none xs ys e = record { count = 0; few = omega arith; adds = e ∙ sym (append-nil xs) }

Added-same :
    {n : ℕ} {r : Report} {xs ys zs : List Report} → zs ≡ ys → Added n r xs ys → Added n r xs zs
Added-same e a = record { count = a.count; few = a.few; adds = e ∙ a.adds }

Added-more :
    {m n : ℕ} {r : Report} {xs ys : List Report} → m ≤ n → Added m r xs ys → Added n r xs ys
Added-more h a = record { count = a.count; few = let few = a.few in omega arith; adds = a.adds }

module _ {W : Type 0} (wait : ℕ → W → Option Error × W) (act : W → Option Error × W)
    (reports : W → List Report) (r : Report)
    (act_adds : (w : W) → Adds r (reports w) (reports (act w).1) (act w).0)
    (wait_keeps : (b : ℕ) (w : W) → reports (wait b w).1 ≡ reports w) where
  -- A loop of at most `n` publishes adds at most `n` copies.
  pub attempt-Added :
      (n backoff : ℕ) (w : W) → Added n r (reports w) (reports (attempt wait act n backoff w).world)
  unfolding attempt
  attempt-Added zero backoff w = Added-none _ _ refl
  attempt-Added (suc left) backoff w =
      let once : Added 1 r (reports w) (reports (act w).1) = Adds-Added (act w).0 (act_adds w) in
      elim (Option-cases (act w).0) [
        | inl good ↦ rw (attempt, good) (Added-more (omega arith) once)
        | inr (e, bad) ↦ elim (Bool-cases (left == 0)) [
          | inl last ↦ rw (attempt, bad, last) (Added-more (omega arith) once)
          | inr more ↦ elim (Option-cases (wait backoff (act w).1).0) [
            | inr (x, stopped) ↦
                rw (attempt, bad, more, stopped)
                  (Added-more (omega arith) (Added-same (wait_keeps backoff (act w).1) once))
            | inl waited ↦
                rw (attempt, bad, more, waited)
                  (Added-more (omega arith) (
                    Added-trans (Added-same (wait_keeps backoff (act w).1) once)
                      (attempt-Added left (backoff * 2) (wait backoff (act w).1).1)))
          ]
        ]
      ]

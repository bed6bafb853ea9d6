-- ===== src/Handlers/Tokens.antt =====
-- The loop of Subscribe in internal/transport/http/handlers/subscription.go that looks for a token
-- that no subscription has.
use software_engineering_sch.Prelude.{
  ℕ, zero, suc, ◌+◌, String, ◌≡◌, refl, sym, ap, ◌∙◌, subst, ◌≢◌, Bool, true, false, Option, none,
  some, List, [], ◌∷◌, str_eq, arith, ltb, length, filter, inl, inr, Result-cases, Error, Result,
  ok, err,
}
use software_engineering_sch.Db.{Contents, Subscription}
use software_engineering_sch.Db.Gorm.{Gorm, live, subscriptions}
use software_engineering_sch.Handlers.Store.{taken_of, is_confirm_token_taken}
use software_engineering_sch.Handlers.Subscribe.{token_round, free_token}

-- The live subscriptions that have the token.
abbrev pub holders : String → Contents → List Subscription
holders token c = filter (λ s. str_eq s.confirm_token token) (live subscriptions c)

none_left : (xs : List Subscription) → ltb 0 (length xs) ≡ false → xs ≡ []
none_left [] h = refl
none_left (x ∷ xs) h = ground arith

module _ (g : Gorm) where
  taken-keeps :
      (token : String) (db : g.Db)
      → g.contents (is_confirm_token_taken g token db).1 ≡ g.contents db
  unfolding is_confirm_token_taken
  taken-keeps token db = g.find_keeps subscriptions (λ s. str_eq s.confirm_token token) db

  taken_ok :
      (token : String) (db : g.Db) {b : Bool}
      → (is_confirm_token_taken g token db).0 ≡ ok b
      → b ≡ ltb 0 (length (holders token (g.contents db)))
  unfolding is_confirm_token_taken
  taken_ok token db {b = b} h =
      let test = λ (s : Subscription). str_eq s.confirm_token token in
      elim (Result-cases (g.find subscriptions test db).0) [
        | inl (rows, read) ↦
            let same : ok b ≡ ok (ltb 0 (length rows)) = sym h ∙ ap (taken_of g) read in
            let found = g.find_ok subscriptions test db read in cc (same, found)
        | inr (e, bad) ↦ let same : ok b ≡ err e = sym h ∙ ap (taken_of g) bad in cc same
      ]

  module _ (tokens : ℕ → Result String) where
    free_token-round :
        (f i : ℕ) (db : g.Db) {t : String}
        → tokens i ≡ ok t
        → free_token g tokens (suc f) i db
          ≡ token_round g t
              (is_confirm_token_taken g t db).0
              (is_confirm_token_taken g t db).1
              (free_token g tokens f (suc i) (is_confirm_token_taken g t db).1)
    unfolding free_token
    free_token-round f i db is = rw (free_token, is) refl

    free_token-error :
        (f i : ℕ) (db : g.Db) {e : Error}
        → tokens i ≡ err e
        → free_token g tokens (suc f) i db ≡ (some (err e), db)
    unfolding free_token
    free_token-error f i db bad = rw (free_token, bad) refl

    -- What a token is that the loop may return.
    abbrev pub IsFree : String → Contents → Type 0
    IsFree token c = ((k : ℕ) × (tokens k ≡ ok token)) × (holders token c ≡ [])

    round-IsFree :
        (i : ℕ) (t token : String) (r : Result Bool) (db : g.Db)
        (again : Option (Result String) × g.Db) (c : Contents)
        → tokens i ≡ ok t
        → (r ≡ ok false → holders t c ≡ [])
        → (again.0 ≡ some (ok token) → IsFree token c)
        → (token_round g t r db again).0 ≡ some (ok token)
        → IsFree token c
    unfolding token_round
    round-IsFree i t token (err e) db again c is free later h = cc
    round-IsFree i t token (ok true) db again c is free later h = later h
    round-IsFree i t token (ok false) db again c is free later h =
        let same : t ≡ token = cc in subst (λ x. IsFree x c) same ((i, is), free refl)

    -- A token that the loop returns is one of those that were generated, and no live subscription
    -- has it.
    pub free_token-IsFree :
        (fuel i : ℕ) (db : g.Db) (token : String)
        → (free_token g tokens fuel i db).0 ≡ some (ok token)
        → IsFree token (g.contents db)
    free_token-IsFree zero i db token h =
        let out_of_fuel : none ≡ some (ok token) = unfold free_token in h in cc out_of_fuel
    free_token-IsFree (suc f) i db token h = elim (Result-cases (tokens i)) [
      | inr (e, bad) ↦
          let same : some (err e) ≡ some (ok token) =
            sym (ap (λ p. p.0) (free_token-error f i db bad)) ∙ h in
          cc same
      | inl (t, is) ↦
          round-IsFree i t token (is_confirm_token_taken g t db).0 (is_confirm_token_taken g t db).1
            (free_token g tokens f (suc i) (is_confirm_token_taken g t db).1) (g.contents db) is
            (λ no_holder. none_left _ (sym (taken_ok t db no_holder)))
            (λ more.
              subst (IsFree token) (taken-keeps t db)
                (free_token-IsFree f (suc i) (is_confirm_token_taken g t db).1 token more))
            (sym (ap (λ p. p.0) (free_token-round f i db is)) ∙ h)
    ]

    round_ends :
        (t : String) (r : Result Bool) (db : g.Db) (again : Option (Result String) × g.Db)
        → (r ≡ ok true → again.0 ≢ none)
        → (token_round g t r db again).0 ≢ none
    unfolding token_round
    round_ends t (err e) db again later h = cc
    round_ends t (ok true) db again later h = later refl h
    round_ends t (ok false) db again later h = cc

    -- The loop ends at the first generated token that no live subscription has, if not before: fuel
    -- for the rounds up to it is enough.
    pub free_token_ends :
        (k i : ℕ) (db : g.Db) (token : String)
        → tokens (i + k) ≡ ok token
        → holders token (g.contents db) ≡ []
        → (free_token g tokens (suc k) i db).0 ≢ none
    free_token_ends zero i db token is free =
        let plus : i + 0 ≡ i = omega arith in
        let now_free : tokens i ≡ ok token = subst (λ n. tokens n ≡ ok token) plus is in
        rw (free_token-round zero i db now_free) (
          round_ends token (is_confirm_token_taken g token db).0
            (is_confirm_token_taken g token db).1 _
            (λ taken.
              let held = taken_ok token db taken in
              let no_holder = ap (λ xs. ltb 0 (length xs)) free in cc (held, no_holder)))
    free_token_ends (suc k) i db token is free = elim (Result-cases (tokens i)) [
      | inr (e, bad) ↦ rw (free_token-error (suc k) i db bad) (λ h. cc h)
      | inl (t, now_t) ↦
          let plus : i + suc k ≡ suc i + k = omega arith in
          let after = (is_confirm_token_taken g t db).1 in
          rw (free_token-round (suc k) i db now_t) (
            round_ends t (is_confirm_token_taken g t db).0 after _ (λ taken.
              free_token_ends k (suc i) after token (subst (λ n. tokens n ≡ ok token) plus is)
                (subst (λ c. holders token c ≡ []) (sym (taken-keeps t db)) free)))
    ]

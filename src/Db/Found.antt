-- ===== src/Db/Found.antt =====
-- A row that a default-scoped query of GORM found stands in its table.
use software_engineering_sch.Prelude.{
  ◌≡◌, refl, ◌⊎◌, inl, inr, Bool, true, false, not, Option, some, List, [], ◌∷◌, arith, ◌==◌,
  if◌then◌else◌, filter, find?, any, ==_refl,
}
use software_engineering_sch.Db.Schema.{Contents}
use software_engineering_sch.Db.Gorm.{Model, live}

module _ {R : Type 0} where
  first_or_later :
      (b : Bool) {x r : R} {rest : Option R}
      → (if b then some x else rest) ≡ some r
      → (x ≡ r) ⊎ (rest ≡ some r)
  first_or_later true h = inl cc
  first_or_later false h = inr h

  module _ (m : Model R) where
    found_any :
        (p : R → Bool) (xs : List R) {r : R}
        → find? p xs ≡ some r
        → any (λ x. m.id x == m.id r) xs ≡ true
    found_any p [] h = cc
    found_any p (x ∷ xs) {r = r} h = elim (first_or_later (p x) h) [
      | inl same ↦ rw (same, ==_refl (m.id r)) refl
      | inr later ↦ let rest = found_any p xs later in ground (arith, rest)
    ]

    any-filter : (p q : R → Bool) (xs : List R) → any q (filter p xs) ≡ true → any q xs ≡ true
    any-filter p q [] h = h
    any-filter p q (x ∷ xs) h = let rest = any-filter p q xs in ground (arith, rest)

    pub find?-any :
        (p : R → Bool) (c : Contents) {r : R}
        → find? p (live m c) ≡ some r
        → any (λ x. m.id x == m.id r) (m.rows c) ≡ true
    find?-any p c h = any-filter (λ r. not (m.deleted r)) _ (m.rows c) (found_any p (live m c) h)

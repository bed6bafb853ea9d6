-- ===== src/Prelude/Lists.antt =====
-- Lists measured by native numbers, rows picked and changed by a Boolean test, and a predicate
-- that holds of every element.
use Prim.Native.Nat.{ℕ, suc, zero, ◌+◌, ◌≤◌}
use mathlib.Core.Path.{◌≡◌, refl}
use mathlib.Core.Bool.{Bool, true, false, ◌||◌}
use mathlib.Core.List.{List, [], ◌∷◌, ◌++◌}
use mathlib.Core.Option.{Option, none, some}
use native.Mathlib.Omega.{arith}
use software_engineering_sch.Prelude.Tests.{if◌then◌else◌}

module _ {ℓ} {A : Type ℓ} where
  abbrev pub length : List A → ℕ
  length [] = 0
  length (x ∷ xs) = suc (length xs)

  abbrev pub take : ℕ → List A → List A
  take zero xs = []
  take (suc n) [] = []
  take (suc n) (x ∷ xs) = x ∷ take n xs

  -- The elements that pass a Boolean test, in order.
  abbrev pub filter : (A → Bool) → List A → List A
  filter p [] = []
  filter p (x ∷ xs) = let rest = filter p xs in if p x then x ∷ rest else rest

  -- The first element that passes.
  abbrev pub find? : (A → Bool) → List A → Option A
  find? p [] = none
  find? p (x ∷ xs) = let rest = find? p xs in if p x then some x else rest

  abbrev pub any : (A → Bool) → List A → Bool
  any p [] = false
  any p (x ∷ xs) = p x || any p xs

  -- Every element that passes is changed, the others are kept.
  abbrev pub map_where : (A → Bool) → (A → A) → List A → List A
  map_where p f [] = []
  map_where p f (x ∷ xs) = (if p x then f x else x) ∷ map_where p f xs

  pub length-append : (xs ys : List A) → length (xs ++ ys) ≡ length xs + length ys
  length-append [] ys = omega arith
  length-append (x ∷ xs) ys = omega (arith, length-append xs ys)

module _ {ℓ κ} {A : Type ℓ} where
  abbrev pub All : (A → Type κ) → List A → Type κ
  All P [] = Unit
  All P (x ∷ xs) = P x × All P xs

  pub All-append : (P : A → Type κ) (xs ys : List A) → All P xs → All P ys → All P (xs ++ ys)
  All-append P [] ys hx hy = hy
  All-append P (x ∷ xs) ys hx hy = (hx.0, All-append P xs ys hx.1 hy)

  pub All-map_where :
      (P : A → Type κ) (p : A → Bool) (f : A → A) (xs : List A)
      → ((x : A) → P x → p x ≡ true → P (f x))
      → All P xs
      → All P (map_where p f xs)
  All-map_where P p f [] keep h = h
  All-map_where P p f (x ∷ xs) keep h =
      (All-if (p x) (keep x h.0) h.0, All-map_where P p f xs keep h.1)
    where
      All-if : (b : Bool) → (b ≡ true → P (f x)) → P x → P (if b then f x else x)
      All-if true yes_case no_case = yes_case refl
      All-if false yes_case no_case = no_case

  pub All-imp : (P Q : A → Type κ) (xs : List A) → ((x : A) → P x → Q x) → All P xs → All Q xs
  All-imp P Q [] imp h = tt
  All-imp P Q (x ∷ xs) imp h = (imp x h.0, All-imp P Q xs imp h.1)

-- Two lists that differ at most in their last elements.
pub last_of_append {ℓ} :
    {A : Type ℓ} (xs : List A) (a b : A) → xs ++ (a ∷ []) ≡ xs ++ (b ∷ []) → a ≡ b
last_of_append [] a b h = cc
last_of_append (x ∷ xs) a b h = last_of_append xs a b (cc)

-- The element stands in the list.
pub data Mem {ℓ} {A : Type ℓ} (x : A) : List A → Type ℓ where
  first : {xs : List A} → Mem x (x ∷ xs)
  later : {y : A} {xs : List A} → Mem x xs → Mem x (y ∷ xs)

-- Every element of the first list stands in the second.
abbrev pub Within {ℓ} : {A : Type ℓ} → List A → List A → Type ℓ
Within xs ys = All (λ x. Mem x ys) xs

pub Within-later {ℓ} : {A : Type ℓ} (y : A) (xs ys : List A) → Within xs ys → Within xs (y ∷ ys)
Within-later y [] ys h = tt
Within-later y (x ∷ xs) ys h = (later h.0, Within-later y xs ys h.1)

pub take-Within {ℓ} : {A : Type ℓ} (n : ℕ) (xs : List A) → Within (take n xs) xs
take-Within zero xs = tt
take-Within (suc n) [] = tt
take-Within (suc n) (x ∷ xs) = (first, Within-later x (take n xs) xs (take-Within n xs))

pub length-take {ℓ} : {A : Type ℓ} (n : ℕ) (xs : List A) → length (take n xs) ≤ n
length-take zero xs = omega arith
length-take (suc n) [] = omega arith
length-take (suc n) (x ∷ xs) = let rest = length-take n xs in omega arith

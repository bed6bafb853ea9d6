-- ===== src/Prelude/Int.antt =====
-- Signed 64-bit integers as integers in range, and the decimal text of a number.
use software_engineering_sch.Prelude.{
  ℕ, zero, suc, ◌^◌, ◌&&◌, true, Option, none, some, leb, ◌+◌, ◌-◌, ◌*◌, ◌/◌, ◌%◌, ◌<◌, String, ◌≡◌,
  sym, ap, ◌∙◌, inl, inr, Bool, false, arith, str_append, ltb, ◌==◌, if◌then◌else◌, Bool-cases,
  ltb→lt,
}
use Prim.Native.Char.{code}
use text.Mathlib.TextLemmas.{cons-append, nil-append}

-- `negsuc n` is -(n + 1).
pub data ℤ : Type 0 where
  pos negsuc : ℕ → ℤ

-- int64 addition of 1, which wraps at the top.
abbrev pub suc64 : ℤ → ℤ
suc64 (pos n) = if n == 9223372036854775807 then negsuc 9223372036854775807 else pos (n + 1)
suc64 (negsuc zero) = pos 0
suc64 (negsuc (suc n)) = negsuc n

-- int64 subtraction of 1, which wraps at the bottom.
abbrev pub pred64 : ℤ → ℤ
pred64 (pos zero) = negsuc 0
pred64 (pos (suc n)) = pos n
pred64 (negsuc n) = if n == 9223372036854775807 then pos 9223372036854775807 else negsuc (n + 1)

-- n < z
abbrev pub exceeds : ℤ → ℕ → Bool
exceeds (pos k) n = ltb n k
exceeds (negsuc k) n = false

abbrev digit : ℕ → String
digit zero = "0"
digit (suc zero) = "1"
digit (suc (suc zero)) = "2"
digit (suc (suc (suc zero))) = "3"
digit (suc (suc (suc (suc zero)))) = "4"
digit (suc (suc (suc (suc (suc zero))))) = "5"
digit (suc (suc (suc (suc (suc (suc zero)))))) = "6"
digit (suc (suc (suc (suc (suc (suc (suc zero))))))) = "7"
digit (suc (suc (suc (suc (suc (suc (suc (suc zero)))))))) = "8"
digit _ = "9"

-- The digits of `n`, if the fuel passes their number.
decimal_fuel : ℕ → ℕ → String
decimal_fuel zero n = ""
decimal_fuel (suc f) n =
    let front = decimal_fuel f (n / 10) in
    if ltb n 10 then digit n else str_append front (digit (n % 10))

-- %d
unfoldable pub decimal : ℕ → String
unfolding decimal_fuel
decimal n = decimal_fuel (suc n) n

unfoldable pub decimal_int : ℤ → String
unfolding decimal
decimal_int (pos n) = decimal n
decimal_int (negsuc n) = str_append "-" (decimal (suc n))

-- The number that a text of digits denotes.
abbrev value : ℕ → String → ℕ
value acc String.[] = acc
value acc (String.◌∷◌ c s) = value (acc * 10 + (code c - 48)) s

value-append : (acc : ℕ) (s t : String) → value acc (str_append s t) ≡ value (value acc s) t
value-append acc String.[] t = rw (nil-append t)
value-append acc (String.◌∷◌ c s) t =
    rw (cons-append c s t) (value-append (acc * 10 + (code c - 48)) s t)

value-digit : (acc n : ℕ) → n < 10 → value acc (digit n) ≡ acc * 10 + n
value-digit acc zero h = omega arith
value-digit acc (suc zero) h = omega arith
value-digit acc (suc (suc zero)) h = omega arith
value-digit acc (suc (suc (suc zero))) h = omega arith
value-digit acc (suc (suc (suc (suc zero)))) h = omega arith
value-digit acc (suc (suc (suc (suc (suc zero))))) h = omega arith
value-digit acc (suc (suc (suc (suc (suc (suc zero)))))) h = omega arith
value-digit acc (suc (suc (suc (suc (suc (suc (suc zero))))))) h = omega arith
value-digit acc (suc (suc (suc (suc (suc (suc (suc (suc zero)))))))) h = omega arith
value-digit acc (suc (suc (suc (suc (suc (suc (suc (suc (suc zero))))))))) h = omega arith
value-digit acc (suc (suc (suc (suc (suc (suc (suc (suc (suc (suc n)))))))))) h =
    absurd (omega arith)

value-decimal_fuel : (f n : ℕ) → n < f → value 0 (decimal_fuel f n) ≡ n
unfolding decimal_fuel
value-decimal_fuel zero n h = absurd (omega arith)
value-decimal_fuel (suc f) n h = elim (Bool-cases (ltb n 10)) [
  | inl short ↦ rw short (value-digit 0 n (ltb→lt n 10 short) ∙ omega arith)
  | inr long ↦ rw long (
      value-append 0 (decimal_fuel f (n / 10)) (digit (n % 10))
      ∙ value-digit (value 0 (decimal_fuel f (n / 10))) (n % 10) (omega arith)
      ∙ rw (value-decimal_fuel f (n / 10) (ground arith)) (omega arith))
]

value-decimal : (n : ℕ) → value 0 (decimal n) ≡ n
unfolding decimal
value-decimal n = value-decimal_fuel (suc n) n (omega arith)

-- The decimal texts of two numbers are equal only if the numbers are.
pub decimal_inj : (m n : ℕ) → decimal m ≡ decimal n → m ≡ n
decimal_inj m n h = sym (value-decimal m) ∙ ap (value 0) h ∙ value-decimal n

abbrev pub add_int : ℤ → ℤ → ℤ
add_int (pos m) (pos n) = pos (m + n)
add_int (pos m) (negsuc n) = if ltb n m then pos (m - suc n) else negsuc (n - m)
add_int (negsuc m) (pos n) = if ltb m n then pos (n - suc m) else negsuc (m - n)
add_int (negsuc m) (negsuc n) = negsuc (suc (m + n))

abbrev pub lt_int : ℤ → ℤ → Bool
lt_int (pos m) (pos n) = ltb m n
lt_int (pos m) (negsuc n) = false
lt_int (negsuc m) (pos n) = true
lt_int (negsuc m) (negsuc n) = ltb n m

abbrev pub eq_int : ℤ → ℤ → Bool
eq_int (pos m) (pos n) = m == n
eq_int (negsuc m) (negsuc n) = m == n
eq_int _ _ = false

-- k * z
abbrev pub scale_int : ℕ → ℤ → ℤ
scale_int k (pos n) = pos (k * n)
scale_int k (negsuc n) = if k == 0 then pos 0 else negsuc (k * suc n - 1)

-- The int64 that has the bit pattern.
abbrev signed64 : ℕ → ℤ
signed64 r = if ltb r (2 ^ 63) then pos r else negsuc (2 ^ 64 - 1 - r)

-- The int64 that an integer wraps to.
abbrev pub wrap64 : ℤ → ℤ
wrap64 (pos n) = signed64 (n % 2 ^ 64)
wrap64 (negsuc n) = signed64 (2 ^ 64 - 1 - n % 2 ^ 64)

abbrev is_digit : ℕ → Bool
is_digit c = leb 48 c && leb c 57

-- The number that a text of one digit or more denotes.
abbrev digits_value : ℕ → String → Option ℕ
digits_value acc String.[] = some acc
digits_value acc (String.◌∷◌ c s) =
    let rest = digits_value (acc * 10 + (code c - 48)) s in if is_digit (code c) then rest else none

abbrev positive : Option ℕ → Option ℤ
positive none = none
positive (some n) = if ltb n (2 ^ 63) then some (pos n) else none

abbrev negative : Option ℕ → Option ℤ
negative none = none
negative (some zero) = some (pos 0)
negative (some (suc n)) = if ltb n (2 ^ 63) then some (negsuc n) else none

abbrev digits : String → Option ℕ
digits String.[] = none
digits (String.◌∷◌ c s) = digits_value 0 (String.◌∷◌ c s)

-- strconv.ParseInt(s, 10, 64); `none` is an error of syntax or of range.
unfoldable pub parse_int64 : String → Option ℤ
parse_int64 String.[] = none
parse_int64 (String.◌∷◌ c s) =
    if code c == b'-'
    then negative (digits s)
    else if code c == b'+'
    then positive (digits s)
    else positive (digits (String.◌∷◌ c s))

-- ===== src/Handlers/Text.antt =====
-- The texts that internal/transport/http/handlers/subscription.go takes apart: strings.TrimSpace,
-- strings.Split at a slash, the bearer token, and tokens in hexadecimal.
use software_engineering_sch.Prelude.{
  ℕ, zero, suc, ◌*◌, ◌/◌, ◌%◌, String, ◌≡◌, refl, Bool, true, false, ◌&&◌, ◌||◌, Option, none, some,
  List, [], ◌∷◌, arith, leb, ◌==◌, if◌then◌else◌, length,
}
use Prim.Native.Char.{Char, code}

-- unicode.IsSpace
abbrev pub is_space : ℕ → Bool
is_space c =
    (leb 9 c && leb c 13)
    || (c == 32)
    || (c == 0x85)
    || (c == 0xa0)
    || (c == 0x1680)
    || (leb 0x2000 c && leb c 0x200a)
    || (c == 0x2028)
    || (c == 0x2029)
    || (c == 0x202f)
    || (c == 0x205f)
    || (c == 0x3000)

unfoldable pub trim_left : String → String
trim_left String.[] = String.[]
trim_left (String.◌∷◌ c s) =
    let rest = trim_left s in if is_space (code c) then rest else String.◌∷◌ c s

abbrev is_empty : String → Bool
is_empty String.[] = true
is_empty (String.◌∷◌ c s) = false

unfoldable pub trim_right : String → String
trim_right String.[] = String.[]
trim_right (String.◌∷◌ c s) =
    let rest = trim_right s in
    if is_empty rest && is_space (code c) then String.[] else String.◌∷◌ c rest

-- strings.TrimSpace
unfoldable pub trim_space : String → String
unfolding trim_left trim_right
trim_space s = trim_right (trim_left s)

-- The part before the first slash, in front of the other parts.
abbrev put_char : Char → List String → List String
put_char c [] = String.◌∷◌ c String.[] ∷ []
put_char c (p ∷ ps) = String.◌∷◌ c p ∷ ps

-- strings.Split(s, "/")
unfoldable pub split_slash : String → List String
split_slash String.[] = "" ∷ []
split_slash (String.◌∷◌ c s) =
    let rest = split_slash s in if code c == b'/' then "" ∷ rest else put_char c rest

-- The owner and the name of `owner/name`: two parts, neither of them empty.
unfoldable pub repo_path : String → Option (String × String)
unfolding split_slash
repo_path s = elim (split_slash s) [
  | [] ↦ none
  | owner ∷ rest ↦ elim rest [
    | [] ↦ none
    | name ∷ more ↦ elim more [
      | [] ↦ if is_empty owner || is_empty name then none else some (owner, name)
      | _ ∷ _ ↦ none
    ]
  ]
]

abbrev pub is_hex : ℕ → Bool
is_hex c = (leb b'0' c && leb c b'9') || (leb b'a' c && leb c b'f') || (leb b'A' c && leb c b'F')

-- hex.DecodeString returns no error: pairs of hexadecimal digits.
unfoldable pub decodes : String → Bool
decodes String.[] = true
decodes (String.◌∷◌ c String.[]) = false
decodes (String.◌∷◌ c (String.◌∷◌ d s)) = is_hex (code c) && is_hex (code d) && decodes s

-- The number of characters; a text that decodes has one byte for each.
abbrev pub size : String → ℕ
size String.[] = 0
size (String.◌∷◌ c s) = suc (size s)

unfoldable pub is_valid_token : String → Bool
unfolding decodes
is_valid_token token = decodes token && (size token == 32)

-- A digit of hex.EncodeToString.
abbrev hex_digit : ℕ → Char
hex_digit zero = "0"
hex_digit (suc zero) = "1"
hex_digit (suc (suc zero)) = "2"
hex_digit (suc (suc (suc zero))) = "3"
hex_digit (suc (suc (suc (suc zero)))) = "4"
hex_digit (suc (suc (suc (suc (suc zero))))) = "5"
hex_digit (suc (suc (suc (suc (suc (suc zero)))))) = "6"
hex_digit (suc (suc (suc (suc (suc (suc (suc zero))))))) = "7"
hex_digit (suc (suc (suc (suc (suc (suc (suc (suc zero)))))))) = "8"
hex_digit (suc (suc (suc (suc (suc (suc (suc (suc (suc zero))))))))) = "9"
hex_digit (suc (suc (suc (suc (suc (suc (suc (suc (suc (suc zero)))))))))) = "a"
hex_digit (suc (suc (suc (suc (suc (suc (suc (suc (suc (suc (suc zero))))))))))) = "b"
hex_digit (suc (suc (suc (suc (suc (suc (suc (suc (suc (suc (suc (suc zero)))))))))))) = "c"
hex_digit (suc (suc (suc (suc (suc (suc (suc (suc (suc (suc (suc (suc (suc zero))))))))))))) = "d"
hex_digit (suc (suc (suc (suc (suc (suc (suc (suc (suc (suc (suc (suc (suc (suc zero)))))))))))))) =
    "e"
hex_digit _ = "f"

-- hex.EncodeToString
unfoldable pub hex_encode : List ℕ → String
hex_encode [] = ""
hex_encode (b ∷ bs) =
    String.◌∷◌ (hex_digit (b / 16)) (String.◌∷◌ (hex_digit (b % 16)) (hex_encode bs))

-- strings.HasPrefix and strings.TrimPrefix with "Bearer ".
unfoldable pub without_prefix : String → String → Option String
without_prefix String.[] s = some s
without_prefix (String.◌∷◌ c p) String.[] = none
without_prefix (String.◌∷◌ c p) (String.◌∷◌ d s) =
    let rest = without_prefix p s in if code c == code d then rest else none

unfoldable pub bearer_token : String → String
unfolding without_prefix
bearer_token auth = elim (without_prefix "Bearer " auth) [ none ↦ "" | some t ↦ t ]

hex_digit-is_hex : (n : ℕ) → is_hex (code (hex_digit n)) ≡ true
hex_digit-is_hex zero = refl
hex_digit-is_hex (suc zero) = refl
hex_digit-is_hex (suc (suc zero)) = refl
hex_digit-is_hex (suc (suc (suc zero))) = refl
hex_digit-is_hex (suc (suc (suc (suc zero)))) = refl
hex_digit-is_hex (suc (suc (suc (suc (suc zero))))) = refl
hex_digit-is_hex (suc (suc (suc (suc (suc (suc zero)))))) = refl
hex_digit-is_hex (suc (suc (suc (suc (suc (suc (suc zero))))))) = refl
hex_digit-is_hex (suc (suc (suc (suc (suc (suc (suc (suc zero)))))))) = refl
hex_digit-is_hex (suc (suc (suc (suc (suc (suc (suc (suc (suc zero))))))))) = refl
hex_digit-is_hex (suc (suc (suc (suc (suc (suc (suc (suc (suc (suc zero)))))))))) = refl
hex_digit-is_hex (suc (suc (suc (suc (suc (suc (suc (suc (suc (suc (suc zero))))))))))) = refl
hex_digit-is_hex (suc (suc (suc (suc (suc (suc (suc (suc (suc (suc (suc (suc zero)))))))))))) = refl
hex_digit-is_hex
      (suc (suc (suc (suc (suc (suc (suc (suc (suc (suc (suc (suc (suc zero))))))))))))) =
    refl
hex_digit-is_hex
      (suc (suc (suc (suc (suc (suc (suc (suc (suc (suc (suc (suc (suc (suc zero)))))))))))))) =
    refl
hex_digit-is_hex
      (suc (suc (suc (suc (suc (suc (suc (suc (suc (suc (suc (suc (suc (suc (suc n))))))))))))))) =
    refl

decodes-hex_encode : (bs : List ℕ) → decodes (hex_encode bs) ≡ true
unfolding decodes hex_encode
decodes-hex_encode [] = refl
decodes-hex_encode (b ∷ bs) =
    rw (hex_digit-is_hex (b / 16), hex_digit-is_hex (b % 16)) (decodes-hex_encode bs)

size-hex_encode : (bs : List ℕ) → size (hex_encode bs) ≡ 2 * length bs
unfolding hex_encode
size-hex_encode [] = refl
size-hex_encode (b ∷ bs) = rw (size-hex_encode bs) (omega arith)

-- A token made of sixteen bytes, whatever they are, is a token that the links accept.
pub is_valid_token-hex_encode :
    (bs : List ℕ) → length bs ≡ 16 → is_valid_token (hex_encode bs) ≡ true
unfolding is_valid_token
is_valid_token-hex_encode bs h = rw (decodes-hex_encode bs, size-hex_encode bs, h) refl

-- ===== src/Config.antt =====
-- internal/utils/env.go: settings read from the environment, which is a parameter, as strconv is for
-- numbers with a point and for truth values. `none` is a process that has exited.
pub mod Load
pub mod Github
mod Tests
use software_engineering_sch.Prelude.{
  ℕ, zero, suc, ◌+◌, ◌-◌, ◌*◌, ◌/◌, ◌%◌, ◌^◌, ◌≤◌, ◌<◌, String, ◌≡◌, refl, sym, ap, ◌∙◌, subst, ◌≢◌,
  ◌↔◌, ◌⊎◌, inl, inr, Bool, true, false, ◌&&◌, ◌||◌, not, Option, none, some, List, [], ◌∷◌, ◌++◌,
  map, arith, str_eq, str_append, eq_iff, eq_refl, ltb, leb, ◌==◌, if◌then◌else◌, Bool-cases,
  Option-cases, length, take, filter, find?, any, map_where, All, All-append, All-map_where,
  All-imp, length-append, Error, record_not_found, already_settled, unknown_email_type, other,
  message, quoted, Result, ok, err, Result-cases, ltb→lt, lt→ltb, leb→le, ==_iff, ==_refl,
}
use software_engineering_sch.Prelude.Int.{ℤ, parse_int64}

-- os.LookupEnv
abbrev pub Env : Type 0
Env = String → Option String

-- ParseFloat and ParseBool of strconv.
pub record Strconv (F : Type 0) : Type 0 where
  pub parse_float : String → Option F
  pub parse_bool : String → Option Bool

unfoldable pub get_env : Env → String → String → String
get_env env key fallback = elim (env key) [ some value ↦ value | none ↦ fallback ]

unfoldable pub must_get_env : Env → String → Option String
must_get_env env key = env key

-- GetEnvAs, at the type that the text is parsed to: a text that does not parse gives the fallback.
unfoldable pub get_env_as : {A : Type 0} → (String → Option A) → Env → String → A → A
get_env_as parse env key fallback = elim (env key) [
  | none ↦ fallback
  | some value ↦ elim (parse value) [ some a ↦ a | none ↦ fallback ]
]

unfoldable pub must_get_env_as : {A : Type 0} → (String → Option A) → Env → String → Option A
must_get_env_as parse env key = elim (env key) [ none ↦ none | some value ↦ parse value ]

abbrev pub get_env_int : Env → String → ℤ → ℤ
get_env_int env key fallback = get_env_as parse_int64 env key fallback

-- The next setting, once a required one has been read.
unfoldable pub after : {A B : Type 0} → Option A → (A → Option B) → Option B
after none next = none
after (some a) next = next a

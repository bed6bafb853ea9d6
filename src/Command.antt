-- ===== src/Command.antt =====
-- internal/infra/mq/email.go: the command that the notifier sends and the mailer consumes.
use software_engineering_sch.Prelude.{
  String, Option, none, some, List, [], ◌∷◌, str_eq, if◌then◌else◌,
}

-- The kinds of email; one that is read from the wire may be any text.
pub data EmailType : Type 0 where
  new_release repo_moved email_verification : EmailType
  unrecognised : String → EmailType

-- The text of an email type.
abbrev pub type_text : EmailType → String
type_text new_release = "new_release"
type_text repo_moved = "repo_moved"
type_text email_verification = "email_verification"
type_text (unrecognised s) = s

-- A value of a payload: a string, or another JSON value with its `%v` text.
pub data Any : Type 0 where
  text : String → Any
  non_text : String → Any

pub record DeliveryMessage : Type 0 where
  pub event : EmailType
  pub email : String
  pub repo : String
  pub release : String
  pub payload : List (String × Any)

abbrev pub lookup : String → List (String × Any) → Option Any
lookup k [] = none
lookup k ((j, v) ∷ m) = if str_eq j k then some v else lookup k m

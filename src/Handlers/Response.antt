-- ===== src/Handlers/Response.antt =====
-- The answers of internal/transport/http/handlers/subscription.go.
use software_engineering_sch.Prelude.{ℕ, String, Bool, Option, none, some, List}

-- SubscriptionItem
pub record Item : Type 0 where
  pub email : String
  pub repo : String
  pub confirmed : Bool
  pub last_seen_tag : String

-- The JSON object with one field, or a list of items.
pub data Body : Type 0 where
  field : String → String → Body
  items : List Item → Body

pub record Response : Type 0 where
  pub status : ℕ
  pub body : Body
  -- the X-Api-Token header
  pub api_token : Option String

abbrev pub failure : ℕ → String → Response
failure status text = record { status = status; body = field "error" text; api_token = none }

abbrev pub success : String → Response
success text = record { status = 200; body = field "message" text; api_token = none }

abbrev pub confirmed_with : String → Response
confirmed_with key = record (success "Subscription confirmed successfully") { api_token = some key }

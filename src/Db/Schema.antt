-- ===== src/Db/Schema.antt =====
-- internal/infra/db/db.go and the row type of internal/infra/outbox/outbox.go: the tables. A time is
-- a number of nanoseconds. `deleted` is `deleted_at IS NOT NULL` of gorm.Model.
use software_engineering_sch.Prelude.{ℕ, String, Bool, true, false, Option, List}

pub record Release : Type 0 where
  pub github_id : ℕ
  pub tag_name : String
  pub etag : String

pub data RepositoryStatus : Type 0 where
  idle processing : RepositoryStatus

pub record Repository : Type 0 where
  pub id : ℕ
  pub deleted : Bool
  pub github_id : ℕ
  pub etag : String
  pub owner : String
  pub name : String
  pub last_release : Release
  pub status : RepositoryStatus
  pub last_scanned_at : Option ℕ

pub data SubscriptionStatus : Type 0 where
  pending active unsubscribed : SubscriptionStatus

pub record Subscription : Type 0 where
  pub id : ℕ
  pub deleted : Bool
  pub email : String
  pub repository_id : ℕ
  pub status : SubscriptionStatus
  pub confirm_token : String
  pub api_token : String

pub data SagaState : Type 0 where
  awaiting_delivery completed compensated : SagaState

pub record OnboardingSaga : Type 0 where
  pub id : ℕ
  pub deleted : Bool
  pub created_at : ℕ
  pub confirm_token : String
  pub state : SagaState

-- A row of `outbox_rows`.
pub record Row : Type 0 where
  pub id : ℕ
  pub deleted : Bool
  pub routing_key : String
  -- of type jsonb: the text as which the database keeps the value
  pub payload : String

-- The rows of each table in the order of their primary keys, soft-deleted ones included.
pub record Contents : Type 0 where
  pub repositories : List Repository
  pub subscriptions : List Subscription
  pub sagas : List OnboardingSaga
  pub outbox : List Row

abbrev pub is_pending : SubscriptionStatus → Bool
is_pending pending = true
is_pending _ = false

abbrev pub is_active : SubscriptionStatus → Bool
is_active active = true
is_active _ = false

abbrev pub is_unsubscribed : SubscriptionStatus → Bool
is_unsubscribed unsubscribed = true
is_unsubscribed _ = false

abbrev pub is_awaiting : SagaState → Bool
is_awaiting awaiting_delivery = true
is_awaiting _ = false

abbrev pub is_idle : RepositoryStatus → Bool
is_idle idle = true
is_idle processing = false

-- ===== src/Store/Tables.antt =====
-- The tables of relay/internal/store as lists of rows, with the columns of the migrations in
-- store.go, boxes.go, billing.go and turns.go. Times are unix milliseconds.
use appunvs.Prelude.{ℕ, String, Option, List}

-- users; the email is its characters
pub record UserRow : Type 0 where
  pub id : String
  pub email : List ℕ
  pub password_hash : String
  pub created_at : ℕ

-- devices
pub record DeviceRow : Type 0 where
  pub id : String
  pub user_id : String
  pub platform : String
  pub created_at : ℕ
  pub last_seen : Option ℕ

-- app_tables
pub record TableRow : Type 0 where
  pub user_id : String
  pub name : String
  pub created_at : ℕ

-- app_columns; `required` is an INTEGER
pub record ColumnRow : Type 0 where
  pub user_id : String
  pub table_name : String
  pub name : String
  pub type : String
  pub required : ℕ
  pub created_at : ℕ

-- api_keys; the name, the prefix and the hash are their characters
pub record ApiKeyRow : Type 0 where
  pub id : String
  pub user_id : String
  pub name : List ℕ
  pub prefix : List ℕ
  pub hash : List ℕ
  pub created_at : ℕ
  pub last_used_at : Option ℕ
  pub revoked_at : Option ℕ

-- plans, and store.Plan
pub record Plan : Type 0 where
  pub id : String
  pub name : String
  pub price_cents_monthly : ℕ
  pub messages_per_day : ℕ
  pub storage_bytes : ℕ
  pub max_devices : ℕ
  pub max_api_keys : ℕ

-- subscriptions; the stripe columns are nullable
pub record SubscriptionRow : Type 0 where
  pub user_id : String
  pub plan_id : String
  pub stripe_customer_id : Option String
  pub stripe_subscription_id : Option String
  pub status : String
  pub current_period_start : ℕ
  pub current_period_end : ℕ
  pub updated_at : ℕ

-- usage_daily
pub record UsageRow : Type 0 where
  pub user_id : String
  pub day : ℕ
  pub messages : ℕ
  pub bytes : ℕ

-- app_boxes; the enums are stored by name
pub record BoxRow : Type 0 where
  pub id : String
  pub namespace : String
  pub provider_device_id : String
  pub title : String
  pub runtime : String
  pub state : String
  pub current_version : String
  pub created_at : ℕ
  pub updated_at : ℕ

-- app_bundles; the log is its bytes
pub record BundleRow : Type 0 where
  pub box_id : String
  pub version : String
  pub uri : String
  pub content_hash : String
  pub size_bytes : ℕ
  pub build_state : String
  pub build_log : List ℕ
  pub built_at : ℕ
  pub expires_at : ℕ

-- ai_turns, and store.Turn
pub record Turn : Type 0 where
  pub id : String
  pub box_id : String
  pub user_text : String
  pub messages : String
  pub model : String
  pub tokens_in : ℕ
  pub tokens_out : ℕ
  pub cost_cents : ℕ
  pub stop_reason : String
  pub created_at : ℕ

pub record Tables : Type 0 where
  pub users : List UserRow
  pub devices : List DeviceRow
  pub app_tables : List TableRow
  pub app_columns : List ColumnRow
  pub api_keys : List ApiKeyRow
  pub plans : List Plan
  pub subscriptions : List SubscriptionRow
  pub usage_daily : List UsageRow
  pub app_boxes : List BoxRow
  pub app_bundles : List BundleRow
  pub ai_turns : List Turn

-- ===== src/Accounts.antt =====
-- The tables of users and API keys: models/user.py and models/api_key.py. The flags of the model that
-- no modelled service reads are left out.
use mnemo_api.Prelude.{◌==◌, count_if, Text, codes, ℕ, Bool, not, Option, List, [], ◌∷◌}

pub data Role : Type 0 where
  user_role admin_role : Role

-- models/user.py; `education_level` is one of the texts of its enumeration.
pub record User : Type 0 where
  pub id : ℕ
  pub display_name : Option Text
  pub normalized_display_name : Option Text
  pub country : Text
  pub locale : Option Text
  pub timezone : Text
  pub education_level : Option Text
  pub preferred_language : Text
  pub daily_goal_cards : ℕ
  pub password_hash : Option Text
  pub role : Role
  pub admin_access_granted : Bool

-- models/api_key.py
pub record ApiKey : Type 0 where
  pub id : ℕ
  pub user_id : ℕ
  pub key_hash : Text
  pub key_prefix : Text
  pub key_hint : Text
  pub key_lookup : Option Text
  pub name : Option Text
  pub is_live : Bool
  pub scopes : Text
  pub is_active : Bool
  pub revoked_at : Option ℕ
  pub created_at : ℕ
  pub last_used_at : Option ℕ

pub record AccountDb : Type 0 where
  pub users : List User
  pub keys : List ApiKey

-- core/constants.py: `PermissionScope`
pub data PermissionScope : Type 0 where
  decks_read decks_write sessions_run progress_read import_write admin : PermissionScope

-- The value of a scope.
unfoldable pub value : PermissionScope → Text
value decks_read = codes "decks:read"
value decks_write = codes "decks:write"
value sessions_run = codes "sessions:run"
value progress_read = codes "progress:read"
value import_write = codes "import:write"
value admin = codes "admin"

abbrev pub default_api_key_scopes : List PermissionScope
default_api_key_scopes = decks_read ∷ decks_write ∷ sessions_run ∷ progress_read ∷ []

abbrev pub admin_api_key_scopes : List PermissionScope
admin_api_key_scopes =
    decks_read ∷ decks_write ∷ sessions_run ∷ progress_read ∷ import_write ∷ admin ∷ []

-- `user_exists` of services/user.py.
abbrev pub user_exists : ℕ → AccountDb → Bool
user_exists user_id db = not (count_if (λ (u : User). u.id == user_id) db.users == 0)

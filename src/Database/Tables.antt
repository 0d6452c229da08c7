-- ===== src/Database/Tables.antt =====
-- internal/db/models.go: one record for each row type, with the columns of its struct. An identifier
-- is a number, 0 standing for `uuid.Nil`; a time is a number of nanoseconds; a nullable column is an
-- Option.
use team_flow.Prelude.{ℕ, String, Bool, Option, List, []}

pub record Organization : Type 0 where
  pub id : ℕ
  pub name : String
  pub slug : String
  pub status : String
  pub created_at : ℕ
  pub updated_at : ℕ

pub record User : Type 0 where
  pub id : ℕ
  pub email : String
  pub password_hash : String
  pub first_name : String
  pub last_name : String
  pub avatar_url : Option String
  pub status : String
  pub email_verified_at : Option ℕ
  pub last_login_at : Option ℕ
  pub created_at : ℕ
  pub updated_at : ℕ

pub record Role : Type 0 where
  pub id : ℕ
  pub organization_id : ℕ
  pub name : String
  pub description : Option String
  pub is_system : Bool
  pub created_at : ℕ
  pub updated_at : ℕ

pub record Permission : Type 0 where
  pub id : ℕ
  pub key : String
  pub description : String
  pub created_at : ℕ

pub record RolePermission : Type 0 where
  pub role_id : ℕ
  pub permission_id : ℕ

pub record Membership : Type 0 where
  pub id : ℕ
  pub organization_id : ℕ
  pub user_id : ℕ
  pub role_id : ℕ
  pub status : String
  pub joined_at : Option ℕ
  pub created_at : ℕ
  pub updated_at : ℕ

pub record RefreshToken : Type 0 where
  pub id : ℕ
  pub user_id : ℕ
  pub family_id : ℕ
  pub token_hash : String
  pub expires_at : ℕ
  pub revoked_at : Option ℕ
  pub replaced_by : Option ℕ
  pub user_agent : Option String
  pub ip_address : Option String
  pub created_at : ℕ

pub record Invitation : Type 0 where
  pub id : ℕ
  pub organization_id : ℕ
  pub email : String
  pub role_id : ℕ
  pub status : String
  pub token_hash : String
  pub invited_by : ℕ
  pub expires_at : ℕ
  pub accepted_at : Option ℕ
  pub accepted_by : Option ℕ
  pub revoked_at : Option ℕ
  pub created_at : ℕ
  pub updated_at : ℕ
  pub notified_at : Option ℕ
  pub delivery_attempts : ℕ

pub record ApiKey : Type 0 where
  pub id : ℕ
  pub organization_id : ℕ
  pub created_by : ℕ
  pub name : String
  pub key_prefix : String
  pub key_last_four : String
  pub key_hash : String
  pub expires_at : ℕ
  pub revoked_at : Option ℕ
  pub last_used_at : Option ℕ
  pub created_at : ℕ
  pub updated_at : ℕ

-- The tables that the modelled statements read or write.
pub record Db : Type 0 where
  pub organizations : List Organization
  pub users : List User
  pub roles : List Role
  pub permissions : List Permission
  pub role_permissions : List RolePermission
  pub memberships : List Membership
  pub refresh_tokens : List RefreshToken
  pub invitations : List Invitation
  pub api_keys : List ApiKey

abbrev pub empty : Db
empty = record {
  organizations = [];
  users = [];
  roles = [];
  permissions = [];
  role_permissions = [];
  memberships = [];
  refresh_tokens = [];
  invitations = [];
  api_keys = [];
}

-- ===== src/Tests/ApiKeys.antt =====
-- The theorems on API keys, at an organization with one key.
use team_flow.Prelude.{◌≡◌, refl, String, true, [], ◌∷◌, none, some}
use team_flow.Database.Tables.{Db, ApiKey, empty}
use team_flow.Exec.{ok}
use team_flow.Exec.Calm.{calm}
use team_flow.ApiKeys.Service.{ApiKeyConfig, Principal, authenticate, revoke_key}
use team_flow.ApiKeys.Credentials.{Passed, authenticate-Passed, revoke_key-ends}

abbrev raw : String
raw = "tfk_0123456789012345678901234567890123456789abc"

abbrev key : ApiKey
key = record {
  id = 40;
  organization_id = 10;
  created_by = 1;
  name = "ci";
  key_prefix = "tfk_01234567";
  key_last_four = "9abc";
  key_hash = "tfk_0123456789012345678901234567890123456789abc";
  expires_at = 500;
  revoked_at = none;
  last_used_at = none;
  created_at = 0;
  updated_at = 0;
}

abbrev rows : Db
rows = record empty {
  users =
      record {
        id = 1;
        email = "ann";
        password_hash = "";
        first_name = "A";
        last_name = "B";
        avatar_url = none;
        status = "active";
        email_verified_at = none;
        last_login_at = none;
        created_at = 0;
        updated_at = 0;
      }
      ∷ [];
  organizations =
      record {
        id = 10;
        name = "Acme";
        slug = "acme";
        status = "active";
        created_at = 0;
        updated_at = 0;
      }
      ∷ [];
  roles =
      record {
        id = 20;
        organization_id = 10;
        name = "Admin";
        description = none;
        is_system = true;
        created_at = 0;
        updated_at = 0;
      }
      ∷ [];
  permissions = record { id = 50; key = "api_keys.manage"; description = ""; created_at = 0 } ∷ [];
  role_permissions = record { role_id = 20; permission_id = 50 } ∷ [];
  memberships =
      record {
        id = 30;
        organization_id = 10;
        user_id = 1;
        role_id = 20;
        status = "active";
        joined_at = some 0;
        created_at = 0;
        updated_at = 0;
      }
      ∷ [];
  api_keys = key ∷ [];
}

abbrev cfg : ApiKeyConfig
cfg = record {
  hash_key = λ raw. raw;
  random_secret = λ n. ok "secret";
  default_ttl = 100;
  max_ttl = 1000;
}

abbrev principal : Principal
principal = record { user_id = 1; method = "api_key"; api_key_id = 40; organization_id = 10 }

authenticate-Passed_example : Passed cfg raw (calm rows 100 60) principal
unfolding authenticate team_flow.Exec.◌>>=◌ team_flow.Exec.or_fail team_flow.Exec.statement
    team_flow.Database.ApiKeys.get_api_key_by_hash team_flow.Prelude.find team_flow.Exec.now
    team_flow.Exec.with_tenant_tx team_flow.Database.Users.get_user_by_id
authenticate-Passed_example = authenticate-Passed cfg raw (calm rows 100 60) principal refl

revoke_key-ends_example :
    ¬ ((authenticate cfg raw (revoke_key 1 10 40 (calm rows 100 60)).1).0 ≡ ok principal)
unfolding team_flow.Prelude.find revoke_key team_flow.Exec.◌>>=◌
    team_flow.Organizations.Tenant.authorize team_flow.Exec.with_tenant_tx team_flow.Exec.statement
    team_flow.Database.Memberships.get_membership
    team_flow.Database.Organizations.get_organization_by_id team_flow.Database.Roles.get_role_by_id
    team_flow.Database.Roles.has_role_permission team_flow.Prelude.any
    team_flow.Database.ApiKeys.get_api_key_by_id team_flow.Exec.now
    team_flow.Database.ApiKeys.revoke_api_key
revoke_key-ends_example =
    revoke_key-ends cfg raw 1 10 40 (calm rows 100 60) (revoke_key 1 10 40 (calm rows 100 60)).1 key
      principal refl refl refl refl refl

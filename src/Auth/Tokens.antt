-- ===== src/Auth/Tokens.antt =====
-- internal/auth/dto.go, jwt.go, and the part of service.go that issues tokens. Random bytes are a
-- function of a number that is drawn once; SHA-256 and the signature are functions that the file's
-- definitions take.
use team_flow.Prelude.{ℕ, ◌+◌, ◌-◌, ◌/◌, String, Option, none, some, str_eq, if◌then◌else◌}
use team_flow.Httpx.Errors.{wrap}
use team_flow.Database.Tables.{User}
use team_flow.Database.RefreshTokens.{create_refresh_token as insert_refresh_token}
use team_flow.Exec.{Action, Result, ◌>>=◌, pure, lift, or_fail, statement, now, new_id}

pub record RegisterInput : Type 0 where
  pub email : String
  pub password : String
  pub first_name : String
  pub last_name : String
  pub organization_name : String

pub record LoginInput : Type 0 where
  pub email : String
  pub password : String

pub record RequestMeta : Type 0 where
  pub user_agent : String
  pub ip_address : String

pub record TokenPair : Type 0 where
  pub access_token : String
  pub refresh_token : String
  pub expires_in : ℕ
  pub expires_at : ℕ

pub record UserDto : Type 0 where
  pub id : ℕ
  pub email : String
  pub first_name : String
  pub last_name : String
  pub avatar_url : Option String
  pub status : String
  pub email_verified_at : Option ℕ
  pub last_login_at : Option ℕ
  pub created_at : ℕ

abbrev pub user_dto : User → UserDto
user_dto u = record {
  id = u.id;
  email = u.email;
  first_name = u.first_name;
  last_name = u.last_name;
  avatar_url = u.avatar_url;
  status = u.status;
  email_verified_at = u.email_verified_at;
  last_login_at = u.last_login_at;
  created_at = u.created_at;
}

pub record AuthResult : Type 0 where
  pub tokens : TokenPair
  pub user : UserDto

-- The claims of an access token: times in whole seconds, as `jwt.NewNumericDate` keeps them.
pub record AccessClaims : Type 0 where
  pub token_type : String
  pub subject : ℕ
  pub id : ℕ
  pub issuer : String
  pub issued_at : ℕ
  pub not_before : ℕ
  pub expires_at : ℕ

abbrev pub seconds : ℕ → ℕ
seconds t = t / 1000000000

pub record IssuedRefresh : Type 0 where
  pub id : ℕ
  pub raw : String

-- What the service is given: the configuration, and the primitives that it calls.
pub record AuthConfig : Type 0 where
  pub hash_token : String → String
  pub random_token : ℕ → Result String
  pub sign : AccessClaims → Result String
  pub issuer : String
  pub access_ttl : ℕ
  pub refresh_ttl : ℕ

abbrev pub non_empty : String → Option String
non_empty s = if str_eq s "" then none else some s

module _ (cfg : AuthConfig) where
  -- `GenerateAccessToken`: the signed token and its expiry.
  unfoldable pub generate_access_token : ℕ → ℕ → Action (String × ℕ)
  generate_access_token user_id token_id = do
    at ← now
    signed ← or_fail wrap (
        lift (
          cfg.sign (record {
            token_type = "access";
            subject = user_id;
            id = token_id;
            issuer = cfg.issuer;
            issued_at = seconds at;
            not_before = seconds at;
            expires_at = seconds (at + cfg.access_ttl);
          })))
    pure (signed, at + cfg.access_ttl)

  -- `generateRefreshToken`
  unfoldable pub generate_refresh_token : Action String
  generate_refresh_token = new_id >>= λ seed. or_fail wrap (lift (cfg.random_token seed))

  -- `createRefreshToken`: only the hash of the token is stored.
  unfoldable pub create_refresh_token : ℕ → ℕ → RequestMeta → Action IssuedRefresh
  unfolding generate_refresh_token
  create_refresh_token user_id family_id meta = do
    raw ← generate_refresh_token
    at ← now
    row ← or_fail wrap (
        statement (
          insert_refresh_token user_id family_id (cfg.hash_token raw) (at + cfg.refresh_ttl)
            (non_empty meta.user_agent) (non_empty meta.ip_address)))
    pure (record { id = row.id; raw = raw })

  -- The access token that follows, and the pair.
  unfoldable pub token_pair : ℕ → String → Action TokenPair
  unfolding generate_access_token
  token_pair user_id raw = new_id >>= λ token_id. do
    access ← generate_access_token user_id token_id
    at ← now
    pure (record {
      access_token = access.0;
      refresh_token = raw;
      expires_in = seconds (access.1 - at);
      expires_at = access.1;
    })

  -- `issueSession`
  unfoldable pub issue_session : ℕ → ℕ → RequestMeta → Action TokenPair
  unfolding create_refresh_token token_pair
  issue_session user_id family_id meta = do
    refresh ← create_refresh_token user_id family_id meta
    token_pair user_id refresh.raw

-- ===== src/ApiKeys/Service.antt =====
-- internal/apikeys: model.go, service.go and the sweep of job.go. The 43 characters of a secret are a
-- function of a number that is drawn once; SHA-256 is a function that the service is given.
use Prim.Native.Char.{Char, code}
use Prim.Native.String.{◌++◌ as append}
use team_flow.Prelude.{
  ℕ, zero, suc, ◌+◌, ◌-◌, ◌*◌, ◌%◌, ◌^◌, String, Bool, true, false, not, ◌&&◌, ◌||◌, Option, none,
  some, [], ◌∷◌, ltb, leb, ◌==◌, str_eq, if◌then◌else◌, trim_space,
}
use team_flow.Httpx.Errors.{Error, api, api_of, wrap, as_pg, is_no_rows, invalid}
use team_flow.Database.Tables.{User, ApiKey}
use team_flow.Database.Users.{get_user_by_id}
use team_flow.Database.Organizations.{list_active_organization_ids}
use team_flow.Database.ApiKeys.{
  create_api_key, get_api_key_by_hash, get_api_key_by_id, revoke_api_key, revoke_api_key_by_id,
  touch_api_key, list_expired_api_keys, is_unrevoked,
}
use team_flow.Exec.{
  Action, Result, ◌>>=◌, ◌>>◌, pure, require, lift, or_fail, for_each, statement, with_tenant_tx,
  now, new_id,
}
use team_flow.Validation.{Validator, valid, check, required, max_len, byte_length, any_char}
use team_flow.Organizations.Tenant.{authorize}
use team_flow.Invitations.Manage.{record_tx}
use team_flow.Invitations.Delivery.{log_error}

pub record ApiKeyConfig : Type 0 where
  pub hash_key : String → String
  pub random_secret : ℕ → Result String
  pub default_ttl : ℕ
  pub max_ttl : ℕ

-- `CreateInput`; a number of days that is negative is `none`.
pub record KeyInput : Type 0 where
  pub name : String
  pub expires_in_days : Option ℕ

pub record ApiKeyDto : Type 0 where
  pub id : ℕ
  pub organization_id : ℕ
  pub created_by : ℕ
  pub name : String
  pub key_prefix : String
  pub key_last_four : String
  pub status : String
  pub expires_at : ℕ
  pub revoked_at : Option ℕ
  pub last_used_at : Option ℕ
  pub created_at : ℕ

pub record CreatedKey : Type 0 where
  pub api_key : ApiKeyDto
  pub key : String

-- `authctx.Principal` of a request with a key.
pub record Principal : Type 0 where
  pub user_id : ℕ
  pub method : String
  pub api_key_id : ℕ
  pub organization_id : ℕ

unfoldable pub first_chars : ℕ → String → String
first_chars n String.[] = ""
first_chars zero (String.◌∷◌ c s) = ""
first_chars (suc n) (String.◌∷◌ c s) = String.◌∷◌ c (first_chars n s)

unfoldable pub drop_chars : ℕ → String → String
drop_chars n String.[] = ""
drop_chars zero (String.◌∷◌ c s) = String.◌∷◌ c s
drop_chars (suc n) (String.◌∷◌ c s) = drop_chars n s

abbrev pub between : ℕ → ℕ → Char → Bool
between low high c = leb low (code c) && leb (code c) high

-- `isBase64URL`
unfoldable pub is_base64_url : String → Bool
unfolding any_char
is_base64_url s = not (
    any_char
      (λ c. not (
        between 65 90 c
        || (between 97 122 c || (between 48 57 c || (code c == 45 || code c == 95)))))
      s)

-- `validKeyFormat`
unfoldable pub valid_key_format : String → Bool
unfolding byte_length first_chars drop_chars is_base64_url
valid_key_format raw =
    byte_length raw == 47 && (str_eq (first_chars 4 raw) "tfk_" && is_base64_url (drop_chars 4 raw))

-- `status`
unfoldable pub key_status : ApiKey → ℕ → String
key_status k at =
    if not (is_unrevoked k) then "revoked" else if ltb k.expires_at at then "expired" else "active"

-- `toDTO`
unfoldable pub key_dto : ApiKey → ℕ → ApiKeyDto
unfolding key_status
key_dto k at = record {
  id = k.id;
  organization_id = k.organization_id;
  created_by = k.created_by;
  name = k.name;
  key_prefix = k.key_prefix;
  key_last_four = k.key_last_four;
  status = key_status k at;
  expires_at = k.expires_at;
  revoked_at = k.revoked_at;
  last_used_at = k.last_used_at;
  created_at = k.created_at;
}

abbrev pub key_not_found : Error → Error
key_not_found e = if is_no_rows e then api_of 404 "API_KEY_NOT_FOUND" e else e

-- `invalidKey`, in a transaction and outside of one.
abbrev pub key_invalid : Error → Error
key_invalid e = if is_no_rows e then api_of 401 "INVALID_API_KEY" e else e

abbrev pub key_unknown : Error → Error
key_unknown e = if is_no_rows e then api_of 401 "INVALID_API_KEY" e else wrap e

-- `mapWriteError`
unfoldable pub map_key_error : Error → Error
unfolding as_pg
map_key_error e = elim (as_pg e) [
  | none ↦ e
  | some (code, constraint) ↦
      if str_eq code "23503" && str_eq constraint "api_keys_creator_organization_fkey"
      then api_of 409 "NOT_A_MEMBER" e
      else e
]

abbrev pub is_set : Option ℕ → Bool
is_set none = false
is_set (some n) = true

-- `validate`
unfoldable pub validate_key : KeyInput → Validator
unfolding required max_len check
validate_key input =
    check (is_set input.expires_in_days) "expires_in_days" "must not be negative"
      (max_len "name" input.name 100 (required "name" input.name []))

-- `time.Duration(days) * 24 * time.Hour` on 64 bits: what the clock shows that much later. A product
-- that wraps to a negative number goes back in time.
abbrev pub days_after : ℕ → ℕ → ℕ
days_after at days =
    let span = (days * 86400000000000) % 2 ^ 64 in
    if ltb span (2 ^ 63) then at + span else at - (2 ^ 64 - span)

abbrev pub is_too_long : ℕ → ℕ → Bool
is_too_long max_ttl days =
    let span = (days * 86400000000000) % 2 ^ 64 in ltb span (2 ^ 63) && ltb max_ttl span

module _ (cfg : ApiKeyConfig) where
  -- The time at which a key ends, for a number of days; 0 is the default.
  abbrev pub expiry : ℕ → ℕ → ℕ
  expiry at days = if days == 0 then at + cfg.default_ttl else days_after at days

  abbrev pub given_days : Option ℕ → ℕ
  given_days none = 0
  given_days (some days) = days

  -- `generateKey`
  unfoldable pub generate_key : Action String
  generate_key = new_id >>= λ seed.
      or_fail wrap (lift (cfg.random_secret seed)) >>= λ secret. pure (append "tfk_" secret)

  -- `raw[len(raw)-lastFourChars:]`
  abbrev pub last_four : String → String
  last_four raw = drop_chars (byte_length raw - 4) raw

  unfoldable pub create_key_tx : ℕ → ℕ → String → String → ℕ → Action ApiKey
  unfolding first_chars drop_chars byte_length record_tx
  create_key_tx user_id org_id name raw expires_at = do
    k ← or_fail map_key_error (
        statement (
          create_api_key org_id user_id (trim_space name) (first_chars 12 raw) (last_four raw)
            (cfg.hash_key raw) expires_at))
    record_tx
    pure k

  -- `Create`
  unfoldable pub create_key : ℕ → ℕ → KeyInput → Action CreatedKey
  unfolding validate_key generate_key create_key_tx key_dto
  create_key user_id org_id input = do
    authorize user_id org_id "api_keys.manage"
    valid (validate_key input)
    let days = given_days input.expires_in_days
    require (not (not (days == 0) && is_too_long cfg.max_ttl days))
        (invalid (("expires_in_days", "must not exceed the maximum") ∷ []))
    raw ← generate_key
    at ← now
    k ←
        or_fail wrap
          (with_tenant_tx org_id (create_key_tx user_id org_id input.name raw (expiry at days)))
    pure (record { api_key = key_dto k at; key = raw })

  -- The transaction of `Authenticate`.
  unfoldable pub key_owner : ApiKey → Action User
  key_owner k = do
    user ← or_fail key_invalid (statement (get_user_by_id k.created_by))
    require (str_eq user.status "active") (api 401 "INVALID_API_KEY")
    pure user

  -- `Authenticate`
  unfoldable pub authenticate : String → Action Principal
  unfolding valid_key_format key_status key_owner log_error
  authenticate raw = do
    require (valid_key_format raw) (api 401 "INVALID_API_KEY")
    k ← or_fail key_unknown (statement (get_api_key_by_hash (cfg.hash_key raw)))
    at ← now
    require (str_eq (key_status k at) "active") (api 401 "INVALID_API_KEY")
    user ← with_tenant_tx k.organization_id (key_owner k)
    log_error (statement (touch_api_key k.id))
    pure (record {
      user_id = user.id;
      method = "api_key";
      api_key_id = k.id;
      organization_id = k.organization_id;
    })

-- The transaction of `Revoke`, and `Revoke`.
unfoldable pub revoke_key_tx : ℕ → ℕ → Action (Unit {0})
unfolding record_tx
revoke_key_tx org_id id = do
  current ← or_fail key_not_found (statement (get_api_key_by_id id org_id))
  require (is_unrevoked current) (api 404 "API_KEY_NOT_FOUND")
  at ← now
  statement (revoke_api_key id org_id at)
  record_tx

unfoldable pub revoke_key : ℕ → ℕ → ℕ → Action (Unit {0})
unfolding revoke_key_tx
revoke_key user_id org_id id = authorize user_id org_id "api_keys.manage" >>= λ _.
    with_tenant_tx org_id (revoke_key_tx org_id id)

-- `revokeExpired`: keys that expired thirty days ago.
unfoldable pub revoke_expired : ℕ → Action (Unit {0})
unfolding for_each
revoke_expired org_id = or_fail wrap (
    with_tenant_tx org_id (
      now >>= λ at. statement (list_expired_api_keys org_id (at - 2592000000000000) 200) >>= λ rows.
      for_each (λ (k : ApiKey). statement (revoke_api_key_by_id k.id org_id)) rows))

-- `ExpireSweepJobHandler`, for a payload that was decoded; 0 stands for every organization.
unfoldable pub expire_sweep : ℕ → Action (Unit {0})
unfolding revoke_expired for_each
expire_sweep only =
    if only == 0
    then (or_fail wrap (statement (list_active_organization_ids 1000)) >>= λ ids.
        for_each revoke_expired ids)
    else revoke_expired only

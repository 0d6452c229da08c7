-- ===== src/Invitations/Model.antt =====
-- internal/invitations/model.go, and the errors of service.go. Random bytes are a function of a number
-- that is drawn once; SHA-256, `strings.ToLower`, bcrypt and the tests of package validation are
-- functions that the service is given.
use Prim.Native.Char.{Char, code}
use Prim.Native.String.{◌++◌ as append}
use team_flow.Prelude.{
  ℕ, String, Bool, not, ◌&&◌, Option, none, some, [], ltb, ◌==◌, str_eq, if◌then◌else◌, trim_space,
  drop_while_end,
}
use team_flow.Httpx.Errors.{Error, api, api_of, wrap, as_pg, is_no_rows}
use team_flow.Database.Tables.{Invitation}
use team_flow.Database.Invitations.{is_pending}
use team_flow.Exec.{Action, Result, ◌>>=◌, lift, or_fail, new_id}
use team_flow.Validation.{Validator, check, required, max_len, email, password}
use team_flow.Auth.Tokens.{UserDto, TokenPair}

-- What the service is given.
pub record InviteConfig : Type 0 where
  pub hash_token : String → String
  pub random_token : ℕ → Result String
  pub hash_password : ℕ → String → Result String
  pub lower : String → String
  pub fold : String → String
  pub parse_address : String → Bool
  pub is_letter : Char → Bool
  pub is_digit : Char → Bool
  pub ttl : ℕ
  pub base_url : String
  pub has_queue : Bool

pub record CreateInput : Type 0 where
  pub email : String
  pub role_id : ℕ

pub record AcceptInput : Type 0 where
  pub token : String
  pub password : String
  pub first_name : String
  pub last_name : String

pub record InvitationDto : Type 0 where
  pub id : ℕ
  pub organization_id : ℕ
  pub email : String
  pub role_id : ℕ
  pub role_name : String
  pub status : String
  pub invited_by : ℕ
  pub expires_at : ℕ
  pub accepted_at : Option ℕ
  pub accepted_by : Option ℕ
  pub revoked_at : Option ℕ
  pub created_at : ℕ
  pub updated_at : ℕ

pub record PreviewDto : Type 0 where
  pub organization_id : ℕ
  pub organization_name : String
  pub email : String
  pub role_name : String
  pub status : String
  pub expires_at : ℕ
  pub account_exists : Bool
  pub accepted_by : Option ℕ

pub record AcceptResult : Type 0 where
  pub invitation_id : ℕ
  pub organization_id : ℕ
  pub organization_name : String
  pub role_name : String
  pub user : UserDto
  pub tokens : TokenPair

-- `effectiveStatus`
unfoldable pub effective_status : Invitation → ℕ → String
effective_status i now = if is_pending i && ltb i.expires_at now then "expired" else i.status

-- `isUsable`
unfoldable pub is_usable : Invitation → ℕ → Bool
is_usable i now = is_pending i && not (ltb i.expires_at now)

-- `toDTO`
unfoldable pub to_dto : Invitation → String → ℕ → InvitationDto
unfolding effective_status
to_dto i role_name now = record {
  id = i.id;
  organization_id = i.organization_id;
  email = i.email;
  role_id = i.role_id;
  role_name = role_name;
  status = effective_status i now;
  invited_by = i.invited_by;
  expires_at = i.expires_at;
  accepted_at = i.accepted_at;
  accepted_by = i.accepted_by;
  revoked_at = i.revoked_at;
  created_at = i.created_at;
  updated_at = i.updated_at;
}

-- `unusable`
unfoldable pub unusable : Invitation → ℕ → Error
unfolding effective_status
unusable i now =
    let status = effective_status i now in
    if str_eq status "accepted"
    then api 409 "INVITATION_ALREADY_ACCEPTED"
    else if str_eq status "revoked"
    then api 410 "INVITATION_REVOKED"
    else if str_eq status "expired"
    then api 410 "INVITATION_EXPIRED"
    else api 404 "INVITATION_NOT_FOUND"

-- A missing row, as `notFound(err)` or `roleNotFound(err)`; any other error as it is.
abbrev pub invitation_missing : Error → Error
invitation_missing e = if is_no_rows e then api_of 404 "INVITATION_NOT_FOUND" e else e

abbrev pub role_missing : Error → Error
role_missing e = if is_no_rows e then api_of 404 "ROLE_NOT_FOUND" e else e

-- The same outside a transaction, where any other error is wrapped.
abbrev pub token_unknown : Error → Error
token_unknown e = if is_no_rows e then api_of 404 "INVITATION_NOT_FOUND" e else wrap e

-- `mapWriteError`
unfoldable pub map_write_error : Error → Error
unfolding as_pg
map_write_error e = elim (as_pg e) [
  | none ↦ e
  | some (code, constraint) ↦
      if not (str_eq code "23505")
      then e
      else if str_eq constraint "idx_invitations_pending_email"
      then api_of 409 "INVITATION_PENDING" e
      else if str_eq constraint "users_email_key"
      then api_of 409 "EMAIL_TAKEN" e
      else e
]

-- `mapMembershipError`
unfoldable pub map_membership_error : Error → Error
unfolding as_pg
map_membership_error e = elim (as_pg e) [
  | none ↦ e
  | some (code, constraint) ↦ if str_eq code "23505" then api_of 409 "ALREADY_A_MEMBER" e else e
]

module _ (cfg : InviteConfig) where
  unfoldable pub normalize_email : String → String
  normalize_email address = cfg.lower (trim_space address)

  -- `generateToken`
  unfoldable pub generate_token : Action String
  generate_token = new_id >>= λ seed. or_fail wrap (lift (cfg.random_token seed))

  -- `acceptURL`
  unfoldable pub accept_url : String → String
  accept_url token =
      append (drop_while_end (λ c. code c == 47) cfg.base_url)
        (append "/invitations/accept?token=" token)

  -- `CreateInput.validate`
  unfoldable pub validate_create : CreateInput → Validator
  unfolding required email check
  validate_create input =
      check (not (input.role_id == 0)) "role_id" "is required"
        (email cfg.parse_address "email" input.email (required "email" input.email []))

  -- `AcceptInput.validateAccount`
  unfoldable pub validate_account : AcceptInput → Validator
  unfolding password required max_len
  validate_account input =
      if str_eq input.password "" && (str_eq input.first_name "" && str_eq input.last_name "")
      then []
      else max_len "last_name" input.last_name 100 (
          required "last_name" input.last_name (
            max_len "first_name" input.first_name 100 (
              required "first_name" input.first_name
                (password cfg.is_letter cfg.is_digit "password" input.password []))))

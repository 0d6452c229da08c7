-- ===== src/Invitations/Manage.antt =====
-- internal/invitations/service.go: Create, Resend, Revoke and Preview.
use team_flow.Prelude.{ℕ, ◌+◌, String, Bool, true, false, not, ◌&&◌, none, str_eq, if◌then◌else◌}
use team_flow.Httpx.Errors.{Error, api, wrap, sentinel, forbidden, is_no_rows}
use team_flow.Database.Tables.{Organization, Role, User, Membership, Invitation}
use team_flow.Database.Roles.{get_role_by_id}
use team_flow.Database.Organizations.{get_organization_by_id}
use team_flow.Database.Users.{get_user_by_email}
use team_flow.Database.Invitations.{
  create_invitation, get_active_membership_by_email, get_invitation_by_id,
  get_invitation_by_token_hash, rotate_invitation_token, revoke_invitation, is_pending,
}
use team_flow.Exec.{
  Action, Result, ok, err, ◌>>=◌, ◌>>◌, pure, fail, require, or_fail, inspect, statement,
  with_tenant_tx, round_trip, now,
}
use team_flow.Validation.{valid}
use team_flow.Organizations.Tenant.{authorize}
use team_flow.Invitations.Model.{
  InviteConfig, CreateInput, InvitationDto, PreviewDto, to_dto, effective_status, generate_token,
  normalize_email, validate_create, map_write_error, invitation_missing, role_missing,
  token_unknown,
}
use team_flow.Invitations.Delivery.{dispatch_email}

-- `audit.RecordTx`: a row of a table of its own, written in the transaction.
unfoldable pub record_tx : Action (Unit {0})
unfolding round_trip
record_tx = or_fail wrap round_trip

-- `orgName`
unfoldable pub org_name : ℕ → Action String
org_name org_id = or_fail wrap (statement (get_organization_by_id org_id)) >>= λ org. pure org.name

-- An invitation with the name of its role.
pub record Named : Type 0 where
  pub invitation : Invitation
  pub role_name : String

module _ (cfg : InviteConfig) where
  abbrev pub invitee : Result Membership → Action (Unit {0})
  invitee (ok m) = fail (api 409 "ALREADY_A_MEMBER")
  invitee (err e) = if is_no_rows e then pure tt else fail e

  -- `checkInvitee`
  unfoldable pub check_invitee : ℕ → String → Action (Unit {0})
  unfolding inspect
  check_invitee org_id address =
      inspect (statement (get_active_membership_by_email cfg.fold org_id address)) invitee

  -- The body of the transaction of `Create`.
  unfoldable pub create_tx : String → ℕ → ℕ → ℕ → String → String → ℕ → Action Named
  unfolding check_invitee org_name record_tx
  create_tx caller_role user_id org_id role_id address token expires_at = do
    check_invitee org_id address
    role ← or_fail role_missing (statement (get_role_by_id role_id org_id))
    require (not (str_eq role.name "Owner" && not (str_eq caller_role "Owner")))
        (sentinel forbidden)
    org_name org_id
    i ← or_fail map_write_error (
        statement (
          create_invitation cfg.fold org_id address role_id (cfg.hash_token token) user_id
            expires_at))
    record_tx
    pure (record { invitation = i; role_name = role.name })

  -- `Create`
  unfoldable pub create : ℕ → ℕ → CreateInput → Action InvitationDto
  unfolding validate_create normalize_email generate_token create_tx dispatch_email to_dto
  create user_id org_id input = do
    tenant ← authorize user_id org_id "members.manage"
    valid (validate_create cfg input)
    token ← generate_token cfg
    at ← now
    r ← or_fail wrap (
        with_tenant_tx org_id (
          create_tx tenant.role_name user_id org_id input.role_id (normalize_email cfg input.email)
            token (at + cfg.ttl)))
    dispatch_email cfg r.invitation token
    pure (to_dto r.invitation r.role_name at)

  abbrev pub not_active : Error → Error
  not_active e = if is_no_rows e then api 409 "INVITATION_NOT_ACTIVE" else e

  unfoldable pub resend_tx : ℕ → ℕ → String → ℕ → Action Named
  unfolding org_name
  resend_tx org_id id token expires_at = do
    current ← or_fail invitation_missing (statement (get_invitation_by_id id org_id))
    require (is_pending current) (api 409 "INVITATION_NOT_ACTIVE")
    role ← or_fail role_missing (statement (get_role_by_id current.role_id org_id))
    org_name org_id
    i ←
        or_fail not_active
          (statement (rotate_invitation_token id org_id (cfg.hash_token token) expires_at))
    pure (record { invitation = i; role_name = role.name })

  -- `Resend`
  unfoldable pub resend : ℕ → ℕ → ℕ → Action InvitationDto
  unfolding generate_token resend_tx dispatch_email to_dto
  resend user_id org_id id = do
    authorize user_id org_id "members.manage"
    token ← generate_token cfg
    at ← now
    r ← or_fail wrap (with_tenant_tx org_id (resend_tx org_id id token (at + cfg.ttl)))
    dispatch_email cfg r.invitation token
    pure (to_dto r.invitation r.role_name at)

  abbrev pub account : Result User → Action Bool
  account (ok u) = pure true
  account (err e) = if is_no_rows e then pure false else fail (wrap e)

  unfoldable pub account_exists : String → Action Bool
  unfolding inspect
  account_exists address = inspect (statement (get_user_by_email cfg.fold address)) account

  -- `lookup`
  unfoldable pub lookup : String → Action (Invitation × Organization × Role)
  lookup token = do
    found ← or_fail token_unknown (statement (get_invitation_by_token_hash (cfg.hash_token token)))
    with_tenant_tx found.organization_id do
      i ←
          or_fail invitation_missing
            (statement (get_invitation_by_id found.id found.organization_id))
      org ← or_fail wrap (statement (get_organization_by_id i.organization_id))
      role ← or_fail role_missing (statement (get_role_by_id i.role_id i.organization_id))
      pure (i, org, role)

  -- `Preview`
  unfoldable pub preview : String → Action PreviewDto
  unfolding lookup effective_status account_exists
  preview token = do
    r ← lookup token
    known ← account_exists r.0.email
    at ← now
    pure (record {
      organization_id = r.1.id;
      organization_name = r.1.name;
      email = r.0.email;
      role_name = r.2.name;
      status = effective_status r.0 at;
      expires_at = r.0.expires_at;
      account_exists = known;
      accepted_by = none;
    })

-- The transaction of `Revoke`, and `Revoke`.
unfoldable pub revoke_tx : ℕ → ℕ → Action (Unit {0})
unfolding record_tx
revoke_tx org_id id = do
  current ← or_fail invitation_missing (statement (get_invitation_by_id id org_id))
  require (is_pending current) (api 404 "INVITATION_NOT_FOUND")
  at ← now
  statement (revoke_invitation id org_id at)
  record_tx

unfoldable pub revoke : ℕ → ℕ → ℕ → Action (Unit {0})
unfolding revoke_tx
revoke user_id org_id id =
    authorize user_id org_id "members.manage" >>= λ _. with_tenant_tx org_id (revoke_tx org_id id)

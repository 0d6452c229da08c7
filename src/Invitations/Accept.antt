-- ===== src/Invitations/Accept.antt =====
-- internal/invitations/service.go: Accept and resolveUser. The audit record that follows the commit is
-- left out: its writes go to a table of its own and their errors are dropped.
use team_flow.Prelude.{ℕ, String, not, some, [], ◌∷◌, ◌==◌, str_eq, if◌then◌else◌, trim_space}
use team_flow.Httpx.Errors.{Error, api, wrap, sentinel, unauthorized, invalid, is_no_rows}
use team_flow.Database.Tables.{Organization, Role, User, Invitation}
use team_flow.Database.Roles.{get_role_by_id}
use team_flow.Database.Organizations.{get_organization_by_id}
use team_flow.Database.Users.{get_user_by_id, get_user_by_email, create_user}
use team_flow.Database.Memberships.{create_membership}
use team_flow.Database.Invitations.{
  get_invitation_by_token_hash, accept_invitation, mark_invitation_expired, is_pending,
}
use team_flow.Exec.{
  Action, Result, ok, err, ◌>>=◌, ◌>>◌, pure, fail, require, lift, or_fail, inspect, statement,
  with_tenant_tx, now, new_id,
}
use team_flow.Validation.{valid}
use team_flow.Auth.Tokens.{AuthConfig, RequestMeta, user_dto}
use team_flow.Auth.Sessions.{start_session}
use team_flow.Invitations.Model.{
  InviteConfig, AcceptInput, AcceptResult, is_usable, unusable, normalize_email, validate_account,
  map_write_error, map_membership_error, invitation_missing, role_missing, token_unknown,
}

-- What the transaction of `Accept` commits: an expiry that was noticed, or a membership.
pub data Acceptance : Type 0 where
  lapsed : Acceptance
  joined : Organization → Role → User → Acceptance

abbrev pub user_unknown : Error → Error
user_unknown e = if is_no_rows e then sentinel unauthorized else e

module _ (cfg : InviteConfig) where
  -- `resolveUser` for a caller who has an account.
  unfoldable pub known_user : Invitation → ℕ → Action User
  unfolding normalize_email
  known_user i user_id = do
    user ← or_fail user_unknown (statement (get_user_by_id user_id))
    require (str_eq user.status "active") (sentinel unauthorized)
    require (str_eq (normalize_email cfg user.email) (normalize_email cfg i.email))
        (api 403 "INVITATION_EMAIL_MISMATCH")
    pure user

  -- `resolveUser` for a caller without an account, after the address was looked up.
  unfoldable pub create_account : Result User → Invitation → AcceptInput → String → Action User
  unfolding normalize_email
  create_account (ok existing) i input hash =
      if str_eq existing.status "active"
      then fail (api 409 "ACCOUNT_EXISTS")
      else fail (sentinel unauthorized)
  create_account (err e) i input hash =
      if is_no_rows e
      then or_fail map_write_error (
          statement (
            create_user cfg.fold (normalize_email cfg i.email) hash (trim_space input.first_name)
              (trim_space input.last_name) "active"))
      else fail e

  unfoldable pub new_user : Invitation → AcceptInput → String → Action User
  unfolding create_account inspect
  new_user i input hash =
      inspect (statement (get_user_by_email cfg.fold i.email)) (λ r. create_account r i input hash)

  -- `resolveUser`
  unfoldable pub resolve_user : Invitation → ℕ → AcceptInput → String → Action User
  unfolding known_user new_user
  resolve_user i user_id input hash =
      if user_id == 0 then new_user i input hash else known_user i user_id

  -- The rest of the transaction, for an invitation that can be used.
  unfoldable pub join : Invitation → ℕ → ℕ → AcceptInput → String → Action Acceptance
  unfolding resolve_user
  join i at user_id input hash = do
    role ← or_fail role_missing (statement (get_role_by_id i.role_id i.organization_id))
    org ← or_fail wrap (statement (get_organization_by_id i.organization_id))
    user ← resolve_user i user_id input hash
    or_fail map_membership_error
        (statement (create_membership i.organization_id user.id i.role_id "active" (some at)))
    or_fail wrap (statement (accept_invitation i.id i.organization_id at user.id))
    pure (joined org role user)

  -- The expiry is committed, and reported after the commit.
  unfoldable pub lapse : Invitation → Action Acceptance
  lapse i =
      or_fail wrap (statement (mark_invitation_expired i.id i.organization_id)) >>= λ _. pure lapsed

  unfoldable pub use_invitation : Invitation → ℕ → ℕ → AcceptInput → String → Action Acceptance
  unfolding join lapse
  use_invitation i at user_id input hash =
      if is_usable i at
      then join i at user_id input hash
      else if is_pending i
      then lapse i
      else fail (unusable i at)

  -- The body of the transaction.
  unfoldable pub accept_tx : String → ℕ → ℕ → AcceptInput → String → Action Acceptance
  unfolding use_invitation
  accept_tx token at user_id input hash = do
    i ← or_fail invitation_missing (statement (get_invitation_by_token_hash (cfg.hash_token token)))
    use_invitation i at user_id input hash

  -- `if userID == uuid.Nil { … }`
  unfoldable pub hash_new_password : ℕ → String → Action String
  hash_new_password user_id password =
      if user_id == 0
      then (do
        require (not (str_eq password ""))
            (invalid (("password", "is required when accepting without an account") ∷ []))
        salt ← new_id
        lift (cfg.hash_password salt password))
      else pure ""

  -- What follows the commit; `found` is the row as it was read before the transaction.
  unfoldable pub accepted :
      AuthConfig → Invitation → ℕ → RequestMeta → Acceptance → Action AcceptResult
  unfolding start_session
  accepted auth found at meta lapsed = fail (unusable found at)
  accepted auth found at meta (joined org role user) = start_session auth user.id meta >>= λ tokens.
      pure (record {
        invitation_id = found.id;
        organization_id = org.id;
        organization_name = org.name;
        role_name = role.name;
        user = user_dto user;
        tokens = tokens;
      })

  -- `Accept`
  unfoldable pub accept : AuthConfig → ℕ → AcceptInput → RequestMeta → Action AcceptResult
  unfolding validate_account hash_new_password accept_tx accepted
  accept auth user_id input meta = do
    let token = trim_space input.token
    require (not (str_eq token "")) (invalid (("token", "is required") ∷ []))
    valid (validate_account cfg input)
    hash ← hash_new_password user_id input.password
    found ← or_fail token_unknown (statement (get_invitation_by_token_hash (cfg.hash_token token)))
    at ← now
    r ← with_tenant_tx found.organization_id (accept_tx token at user_id input hash)
    accepted auth found at meta r

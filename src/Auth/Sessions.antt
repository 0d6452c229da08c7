-- ===== src/Auth/Sessions.antt =====
-- internal/auth/service.go: Login, Refresh, Logout, LogoutAll, CurrentUser, IssueSession. The audit
-- log is left out: its writes go to a table of its own and their errors are dropped.
use team_flow.Prelude.{ℕ, String, Bool, not, some, str_eq, ltb, if◌then◌else◌}
use team_flow.Httpx.Errors.{Error, api_of, wrap, sentinel, unauthorized, not_found, is_no_rows}
use team_flow.Database.Tables.{User, RefreshToken}
use team_flow.Database.Users.{get_user_by_id, get_user_by_email, update_user_last_login}
use team_flow.Database.RefreshTokens.{
  get_refresh_token_by_hash, revoke_refresh_token_family, revoke_all_user_refresh_tokens,
  revoke_refresh_token, is_live,
}
use team_flow.Exec.{
  Action, Result, ok, err, ◌>>=◌, ◌>>◌, pure, fail, require, or_fail, statement, transaction, now,
  new_id,
}
use team_flow.Auth.Tokens.{
  AuthConfig, LoginInput, RequestMeta, TokenPair, AuthResult, UserDto, IssuedRefresh, user_dto,
  create_refresh_token, issue_session, token_pair,
}

abbrev pub invalid_credentials : Error
invalid_credentials = api_of 401 "INVALID_CREDENTIALS" (sentinel unauthorized)

abbrev unknown_email : Error → Error
unknown_email e = if is_no_rows e then invalid_credentials else wrap e

abbrev unknown_token : Error → Error
unknown_token e = if is_no_rows e then sentinel unauthorized else wrap e

abbrev unknown_user : Error → Error
unknown_user e = if is_no_rows e then sentinel not_found else wrap e

-- What the transaction of `Refresh` commits: the revocation of a family whose token was presented
-- again, or a new token for a user.
pub data Rotation : Type 0 where
  reused : Rotation
  rotated : User → IssuedRefresh → Rotation

module _ (cfg : AuthConfig) where
  -- A token that is still live is replaced by a new one of its family.
  unfoldable pub rotate : RefreshToken → RequestMeta → Action Rotation
  unfolding create_refresh_token
  rotate stored meta = do
    at ← now
    require (not (ltb stored.expires_at at)) (sentinel unauthorized)
    user ← or_fail wrap (statement (get_user_by_id stored.user_id))
    require (str_eq user.status "active") (sentinel unauthorized)
    issued ← create_refresh_token cfg user.id stored.family_id meta
    or_fail wrap (statement (revoke_refresh_token stored.id (some issued.id)))
    pure (rotated user issued)

  -- `if stored.RevokedAt != nil { … }`
  unfoldable pub rotate_or_revoke : RefreshToken → RequestMeta → Action Rotation
  unfolding rotate
  rotate_or_revoke stored meta =
      if is_live stored
      then rotate stored meta
      else or_fail wrap (statement (revoke_refresh_token_family stored.family_id)) >>= λ _.
          pure reused

  unfoldable pub refresh_tx : String → RequestMeta → Action Rotation
  unfolding rotate_or_revoke
  refresh_tx raw meta = do
    stored ← or_fail unknown_token (statement (get_refresh_token_by_hash (cfg.hash_token raw)))
    rotate_or_revoke stored meta

  -- What follows the commit.
  unfoldable pub refreshed : Rotation → Action AuthResult
  unfolding token_pair
  refreshed reused = fail (sentinel unauthorized)
  refreshed (rotated user issued) = token_pair cfg user.id issued.raw >>= λ tokens.
      pure (record { tokens = tokens; user = user_dto user })

  -- `Refresh`
  unfoldable pub refresh : String → RequestMeta → Action AuthResult
  unfolding refresh_tx refreshed
  refresh raw meta = transaction (refresh_tx raw meta) >>= refreshed

  -- The rest of `Logout`, where the token is known.
  unfoldable pub end_family : RefreshToken → Action (Unit {0})
  end_family stored = or_fail wrap (statement (revoke_refresh_token_family stored.family_id))

  abbrev pub logged_out : Result RefreshToken → Action (Unit {0})
  logged_out (ok stored) = end_family stored
  logged_out (err e) = if is_no_rows e then pure tt else fail (wrap e)

  -- `Logout`
  unfoldable pub logout : String → Action (Unit {0})
  unfolding end_family
  logout raw w =
      let (r, w') = statement (get_refresh_token_by_hash (cfg.hash_token raw)) w in logged_out r w'

  -- `LogoutAll`
  unfoldable pub logout_all : ℕ → Action (Unit {0})
  logout_all user_id = or_fail wrap (statement (revoke_all_user_refresh_tokens user_id))

  -- `CurrentUser`
  unfoldable pub current_user : ℕ → Action UserDto
  current_user user_id =
      or_fail unknown_user (statement (get_user_by_id user_id)) >>= λ user. pure (user_dto user)

  -- `IssueSession`
  unfoldable pub start_session : ℕ → RequestMeta → Action TokenPair
  unfolding issue_session
  start_session user_id meta = new_id >>= λ family_id. issue_session cfg user_id family_id meta

  module _ (fold : String → String) (verify_password : String → String → Bool) where
    -- `Login`; the comparison that an unknown address is answered after has no result.
    unfoldable pub login : LoginInput → RequestMeta → Action AuthResult
    unfolding start_session
    login input meta = do
      user ← or_fail unknown_email (statement (get_user_by_email fold input.email))
      require (str_eq user.status "active") invalid_credentials
      require (verify_password user.password_hash input.password) invalid_credentials
      or_fail wrap (statement (update_user_last_login user.id))
      tokens ← start_session user.id meta
      pure (record { tokens = tokens; user = user_dto user })

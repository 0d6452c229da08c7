-- ===== src/Auth/Register.antt =====
-- internal/auth/service.go: Register, seedRolePermissions and uniqueSlug. bcrypt, with the salt that
-- is drawn, and the random suffix of a slug are functions that the definitions take.
use Prim.Native.String.{◌++◌ as append}
use team_flow.Prelude.{ℕ, zero, suc, String, true, false, some, List, [], ◌∷◌, if◌then◌else◌}
use team_flow.Httpx.Errors.{Error, api_of, wrap}
use team_flow.Database.Users.{create_user}
use team_flow.Database.Organizations.{organization_slug_exists, create_organization}
use team_flow.Database.Roles.{create_role, get_permission_by_key, add_role_permission}
use team_flow.Database.Memberships.{create_membership}
use team_flow.Database.Tables.{User}
use team_flow.Exec.{
  Action, Result, ◌>>=◌, ◌>>◌, pure, lift, or_fail, for_each, statement, transaction, now, new_id,
}
use team_flow.Permissions.{default_for_role}
use team_flow.Slug.{auth_slugify}
use team_flow.Organizations.Roles.{is_unique_violation}
use team_flow.Organizations.Create.{other_roles}
use team_flow.Auth.Tokens.{AuthConfig, RegisterInput, RequestMeta, AuthResult, user_dto}
use team_flow.Auth.Sessions.{start_session}

-- `seedRolePermissions`
unfoldable pub seed_role_permissions : ℕ → String → Action (Unit {0})
unfolding for_each
seed_role_permissions role_id role_name =
    for_each
      (λ key. statement (get_permission_by_key key) >>= λ permission.
        statement (add_role_permission role_id permission.id))
      (default_for_role role_name)

-- The loop over the other default roles.
unfoldable pub seed_other_roles : ℕ → List (String × String) → Action (Unit {0})
unfolding seed_role_permissions
seed_other_roles org_id [] = pure tt
seed_other_roles org_id ((name, desc) ∷ rest) = do
  role ← or_fail wrap (statement (create_role org_id name (some desc) true))
  or_fail wrap (seed_role_permissions role.id name)
  seed_other_roles org_id rest

abbrev email_error : Error → Error
email_error e = if is_unique_violation e then api_of 409 "EMAIL_TAKEN" e else wrap e

abbrev slug_error : Error → Error
slug_error e = if is_unique_violation e then api_of 409 "SLUG_TAKEN" e else wrap e

module _ (fold lower : String → String) (random_suffix : ℕ → String) where
  -- The loop of `uniqueSlug`, with the rounds left.
  unfoldable pub slug_rounds : ℕ → String → String → Action String
  slug_rounds zero base candidate = pure candidate
  slug_rounds (suc n) base candidate = do
    exists ← or_fail wrap (statement (organization_slug_exists fold candidate))
    elim exists [
      | false ↦ pure candidate
      | true ↦ new_id >>= λ seed. slug_rounds n base (append base (append "-" (random_suffix seed)))
    ]

  unfoldable pub unique_slug : String → Action String
  unfolding slug_rounds
  unique_slug name = slug_rounds 5 (auth_slugify lower name) (auth_slugify lower name)

  unfoldable pub register_tx : RegisterInput → String → String → Action User
  unfolding seed_role_permissions seed_other_roles other_roles is_unique_violation
  register_tx input password_hash slug = do
    user ← or_fail email_error (
        statement
          (create_user fold input.email password_hash input.first_name input.last_name "active"))
    org ←
        or_fail slug_error
          (statement (create_organization fold input.organization_name slug "active"))
    role ←
        or_fail wrap
          (statement (create_role org.id "Owner" (some "Full control over the organization") true))
    or_fail wrap (seed_role_permissions role.id "Owner")
    seed_other_roles org.id other_roles
    at ← now
    or_fail wrap (statement (create_membership org.id user.id role.id "active" (some at)))
    pure user

  module _ (cfg : AuthConfig) (hash_password : ℕ → String → Result String) where
    -- `Register`
    unfoldable pub register : RegisterInput → RequestMeta → Action AuthResult
    unfolding unique_slug register_tx start_session
    register input meta = new_id >>= λ salt. do
      password_hash ← or_fail wrap (lift (hash_password salt input.password))
      slug ← unique_slug input.organization_name
      user ← transaction (register_tx input password_hash slug)
      tokens ← start_session cfg user.id meta
      pure (record { tokens = tokens; user = user_dto user })

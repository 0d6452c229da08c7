-- ===== src/Organizations/Roles.antt =====
-- internal/organizations/service.go: CreateRole, UpdateRole, DeleteRole and setPermissions.
use team_flow.Prelude.{
  ℕ, String, Bool, false, not, Option, none, some, List, str_eq, ltb, if◌then◌else◌,
}
use team_flow.Httpx.Errors.{Error, api, api_of, wrap, sentinel, not_found, is_no_rows, as_pg}
use team_flow.Database.Tables.{Role}
use team_flow.Database.Roles.{
  get_role_by_id, create_role as insert_role, update_role as update_role_row,
  delete_role as delete_role_row, count_memberships_by_role, get_permission_by_key,
  add_role_permission, set_role_permissions,
}
use team_flow.Exec.{
  Action, ◌>>=◌, ◌>>◌, pure, require, or_fail, for_each, statement, with_tenant_tx,
}
use team_flow.Organizations.Tenant.{authorize}

-- The error has SQLSTATE 23505.
unfoldable pub is_unique_violation : Error → Bool
unfolding as_pg
is_unique_violation e = elim (as_pg e) [
  | none ↦ false
  | some (code, constraint) ↦ str_eq code "23505"
]

pub record RoleDto : Type 0 where
  pub id : ℕ
  pub organization_id : ℕ
  pub name : String
  pub description : Option String
  pub is_system : Bool
  pub permissions : List String
  pub created_at : ℕ
  pub updated_at : ℕ

abbrev pub role_dto : Role → List String → RoleDto
role_dto r permissions = record {
  id = r.id;
  organization_id = r.organization_id;
  name = r.name;
  description = r.description;
  is_system = r.is_system;
  permissions = permissions;
  created_at = r.created_at;
  updated_at = r.updated_at;
}

abbrev unknown_permission : Error → Error
unknown_permission e = if is_no_rows e then api 400 "UNKNOWN_PERMISSION" else e

-- One round of the loop of `setPermissions`.
unfoldable pub grant : ℕ → String → Action (Unit {0})
grant role_id key = do
  permission ← or_fail unknown_permission (statement (get_permission_by_key key))
  statement (add_role_permission role_id permission.id)

-- `setPermissions`
unfoldable pub set_permissions : ℕ → List String → Action (Unit {0})
unfolding grant for_each
set_permissions role_id permissions = do
  statement (set_role_permissions role_id)
  for_each (grant role_id) permissions

abbrev role_name_error : Error → Error
role_name_error e = if is_unique_violation e then api_of 409 "ROLE_NAME_TAKEN" e else e

abbrev role_missing : Error → Error
role_missing e = if is_no_rows e then sentinel not_found else e

unfoldable pub create_role_tx : ℕ → String → Option String → List String → Action Role
unfolding set_permissions
create_role_tx org_id name description permissions = do
  role ← or_fail role_name_error (statement (insert_role org_id name description false))
  set_permissions role.id permissions
  pure role

-- `CreateRole`
unfoldable pub create_role : ℕ → ℕ → String → Option String → List String → Action RoleDto
unfolding create_role_tx
create_role user_id org_id name description permissions = do
  authorize user_id org_id "roles.manage" >>= λ t. do
    role ← or_fail wrap (with_tenant_tx org_id (create_role_tx org_id name description permissions))
    pure (role_dto role permissions)

unfoldable pub update_role_tx : ℕ → ℕ → String → Option String → List String → Action Role
unfolding set_permissions
update_role_tx org_id role_id name description permissions = do
  current ← or_fail role_missing (statement (get_role_by_id role_id org_id))
  require (not current.is_system) (api 409 "SYSTEM_ROLE_IMMUTABLE")
  role ← or_fail role_name_error (statement (update_role_row role_id org_id name description))
  set_permissions role.id permissions
  pure role

-- `UpdateRole`
unfoldable pub update_role : ℕ → ℕ → ℕ → String → Option String → List String → Action RoleDto
unfolding update_role_tx
update_role user_id org_id role_id name description permissions =
    authorize user_id org_id "roles.manage" >>= λ t. do
      role ←
          or_fail wrap
            (with_tenant_tx org_id (update_role_tx org_id role_id name description permissions))
      pure (role_dto role permissions)

unfoldable pub delete_role_tx : ℕ → ℕ → Action (Unit {0})
delete_role_tx org_id role_id = do
  role ← or_fail role_missing (statement (get_role_by_id role_id org_id))
  require (not role.is_system) (api 409 "SYSTEM_ROLE_IMMUTABLE")
  count ← statement (count_memberships_by_role role_id org_id)
  require (not (ltb 0 count)) (api 409 "ROLE_IN_USE")
  statement (delete_role_row role_id org_id)

-- `DeleteRole`
unfoldable pub delete_role : ℕ → ℕ → ℕ → Action (Unit {0})
unfolding delete_role_tx
delete_role user_id org_id role_id = authorize user_id org_id "roles.manage" >>= λ t.
    with_tenant_tx org_id (delete_role_tx org_id role_id)

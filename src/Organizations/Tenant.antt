-- ===== src/Organizations/Tenant.antt =====
-- internal/organizations/service.go: ResolveTenant, requirePermission, Authorize, and the operations
-- on the organization itself. Every operation starts with a check in transactions of its own.
use team_flow.Prelude.{ℕ, String, not, str_eq, if◌then◌else◌}
use team_flow.Httpx.Errors.{Error, api, api_of, wrap, sentinel, forbidden, is_no_rows}
use team_flow.Database.Tables.{Organization}
use team_flow.Database.Roles.{get_role_by_id, has_role_permission}
use team_flow.Database.Memberships.{get_membership}
use team_flow.Database.Organizations.{get_organization_by_id, rename_organization}
use team_flow.Exec.{◌>>=◌, ◌>>◌, Action, pure, require, or_fail, statement, with_tenant_tx}

-- internal/authctx/authctx.go: the organization that a request acts in.
pub record Tenant : Type 0 where
  pub organization_id : ℕ
  pub membership_id : ℕ
  pub role_id : ℕ
  pub role_name : String

pub record OrganizationDto : Type 0 where
  pub id : ℕ
  pub name : String
  pub slug : String
  pub status : String
  pub role : String
  pub created_at : ℕ
  pub updated_at : ℕ

abbrev pub organization_dto : Organization → String → OrganizationDto
organization_dto o role = record {
  id = o.id;
  name = o.name;
  slug = o.slug;
  status = o.status;
  role = role;
  created_at = o.created_at;
  updated_at = o.updated_at;
}

-- A missing row is answered as 404, any other error passed on.
abbrev pub org_not_found : Error → Error
org_not_found e = if is_no_rows e then api_of 404 "ORGANIZATION_NOT_FOUND" e else wrap e

unfoldable pub tenant_of : ℕ → ℕ → Action Tenant
tenant_of user_id org_id = do
  row ← or_fail org_not_found (statement (get_membership org_id user_id))
  require (str_eq row.status "active") (api 404 "ORGANIZATION_NOT_FOUND")
  org ← or_fail org_not_found (statement (get_organization_by_id org_id))
  require (not (str_eq org.status "deleted")) (api 404 "ORGANIZATION_NOT_FOUND")
  require (str_eq org.status "active") (api 403 "ORGANIZATION_SUSPENDED")
  role ← or_fail org_not_found (statement (get_role_by_id row.role_id org_id))
  pure (record {
    organization_id = org_id;
    membership_id = row.id;
    role_id = row.role_id;
    role_name = role.name;
  })

-- `ResolveTenant`
unfoldable pub resolve_tenant : ℕ → ℕ → Action Tenant
unfolding tenant_of
resolve_tenant user_id org_id = with_tenant_tx org_id (tenant_of user_id org_id)

unfoldable pub require_permission : ℕ → ℕ → String → Action (Unit {0})
require_permission org_id role_id permission = do
  allowed ←
      or_fail wrap (with_tenant_tx org_id (statement (has_role_permission role_id permission)))
  require allowed (sentinel forbidden)

-- `Authorize`
unfoldable pub authorize : ℕ → ℕ → String → Action Tenant
unfolding resolve_tenant require_permission
authorize user_id org_id permission = do
  tenant ← resolve_tenant user_id org_id
  require_permission org_id tenant.role_id permission
  pure tenant

-- `GetOrganization`
unfoldable pub get_organization : ℕ → ℕ → Action OrganizationDto
unfolding authorize
get_organization user_id org_id = do
  t ← authorize user_id org_id "organizations.read"
  org ← with_tenant_tx org_id (or_fail wrap (statement (get_organization_by_id org_id)))
  pure (organization_dto org t.role_name)

-- `UpdateOrganization`
unfoldable pub update_organization : ℕ → ℕ → String → Action OrganizationDto
unfolding authorize
update_organization user_id org_id name = do
  t ← authorize user_id org_id "organizations.update"
  org ← or_fail org_not_found (with_tenant_tx org_id (statement (rename_organization org_id name)))
  pure (organization_dto org t.role_name)

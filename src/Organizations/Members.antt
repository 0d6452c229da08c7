-- ===== src/Organizations/Members.antt =====
-- internal/organizations/service.go: AssignMemberRole.
use team_flow.Prelude.{ℕ, String, not, ◌&&◌, ◌||◌, Option, str_eq, leb, if◌then◌else◌}
use team_flow.Httpx.Errors.{Error, api, api_of, wrap, sentinel, not_found, forbidden, is_no_rows}
use team_flow.Database.Tables.{Role, User, Membership}
use team_flow.Database.Roles.{get_role_by_id}
use team_flow.Database.Memberships.{
  get_membership_by_id, count_active_owners, update_membership_role,
}
use team_flow.Database.Users.{get_user_by_id}
use team_flow.Exec.{◌>>=◌, ◌>>◌, Action, pure, require, or_fail, statement, with_tenant_tx}
use team_flow.Organizations.Tenant.{authorize}

pub record MemberDto : Type 0 where
  pub membership_id : ℕ
  pub user_id : ℕ
  pub email : String
  pub first_name : String
  pub last_name : String
  pub role : String
  pub status : String
  pub joined_at : Option ℕ

-- `if currentRole.Name == "Owner" && newRole.Name != "Owner" { … }`
unfoldable pub keep_an_owner : ℕ → Role → Role → Action (Unit {0})
keep_an_owner org_id current_role new_role =
    if str_eq current_role.name "Owner" && not (str_eq new_role.name "Owner")
    then (do
      owners ← statement (count_active_owners org_id)
      require (not (leb owners 1)) (api 409 "LAST_OWNER"))
    else pure tt

abbrev member_dto : Membership → User → Role → MemberDto
member_dto m u r = record {
  membership_id = m.id;
  user_id = m.user_id;
  email = u.email;
  first_name = u.first_name;
  last_name = u.last_name;
  role = r.name;
  status = m.status;
  joined_at = m.joined_at;
}

abbrev member_missing : Error → Error
member_missing e = if is_no_rows e then sentinel not_found else e

abbrev new_role_missing : Error → Error
new_role_missing e = if is_no_rows e then api_of 404 "ROLE_NOT_FOUND" e else e

-- The body of the transaction, for a caller whose own role is `caller_role`.
unfoldable pub assign_role_tx : String → ℕ → ℕ → ℕ → Action MemberDto
unfolding keep_an_owner
assign_role_tx caller_role org_id membership_id role_id = do
  current ← or_fail member_missing (statement (get_membership_by_id membership_id org_id))
  current_role ← statement (get_role_by_id current.role_id org_id)
  new_role ← or_fail new_role_missing (statement (get_role_by_id role_id org_id))
  require
      (not (
        (str_eq current_role.name "Owner" || str_eq new_role.name "Owner")
        && not (str_eq caller_role "Owner")))
      (sentinel forbidden)
  keep_an_owner org_id current_role new_role
  updated ← statement (update_membership_role membership_id org_id role_id)
  user ← statement (get_user_by_id updated.user_id)
  pure (member_dto updated user new_role)

-- `AssignMemberRole`
unfoldable pub assign_member_role : ℕ → ℕ → ℕ → ℕ → Action MemberDto
unfolding assign_role_tx
assign_member_role user_id org_id membership_id role_id = do
  t ← authorize user_id org_id "members.manage"
  or_fail wrap (with_tenant_tx org_id (assign_role_tx t.role_name org_id membership_id role_id))

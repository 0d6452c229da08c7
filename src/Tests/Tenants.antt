-- ===== src/Tests/Tenants.antt =====
-- The theorems on organizations, at one that a user has created.

use team_flow.Prelude.{
  any, str_eq, ℕ, suc, ◌≤◌, ◌≡◌, refl, String, true, false, List, [], ◌∷◌, none, some, ◌==◌, find,
  count_where, arith, select, not,
}
use team_flow.Database.Tables.{Db, User, Permission, Organization, Role, Membership, empty}
use team_flow.Permissions.{all_keys}
use team_flow.Exec.{Result, ok, transaction}
use team_flow.Auth.Tokens.{AuthConfig}
use team_flow.Organizations.Hidden.{answer, resolve_tenant-hides}
use team_flow.Organizations.Tenant.{resolve_tenant, Tenant, authorize}
use team_flow.Exec.Calm.{calm}
use team_flow.Organizations.Access.{Access, authorize-Access, authorize_of_Access}
use team_flow.Organizations.Roles.{delete_role, set_permissions}
use team_flow.Organizations.Requests.{Request, creates_organization, assigns_role, serve_all}
use team_flow.Organizations.Members.{MemberDto, assign_member_role}
use team_flow.Organizations.Owners.Strangers.{own_owners, strangers}
use team_flow.Organizations.Owners.Requests.{serve_all-owned}
use team_flow.Organizations.Guards.{
  promotion-by_owner, demotion-by_owner, delete_role-deletes, has_role,
}
use team_flow.Organizations.Grants.{set_permissions-grants}
use team_flow.Database.Roles.{grants, role_key, custom_role_key}

abbrev user : ℕ → String → User
user id email = record {
  id = id;
  email = email;
  password_hash = "";
  first_name = "A";
  last_name = "B";
  avatar_url = none;
  status = "active";
  email_verified_at = none;
  last_login_at = none;
  created_at = 0;
  updated_at = 0;
}

abbrev permissions : ℕ → List String → List Permission
permissions n [] = []
permissions n (k ∷ ks) =
    let rest = permissions (suc n) ks in
    record { id = n; key = k; description = ""; created_at = 0 } ∷ rest

abbrev fresh : Db
fresh = record empty {
  users = user 1 "ann" ∷ user 2 "bob" ∷ [];
  permissions = permissions 100 all_keys;
}

abbrev cfg : AuthConfig
cfg = record {
  hash_token = λ raw. raw;
  random_token = λ n. ok "token";
  sign = λ claims. ok "jwt";
  issuer = "teamflow";
  access_ttl = 900;
  refresh_ttl = 500;
}

abbrev hash : ℕ → String → Result String
hash salt password = ok password

abbrev short : ℕ → String
short n = "abcdefgh"

-- Ann creates an organization, and tries to give up its only Owner role.
abbrev requests : List Request
requests = creates_organization 1 "acme" ∷ assigns_role 1 1001 1128 1100 ∷ []

acme_is_stored :
    count_where
      (λ x. x.id == 1001)
      (serve_all
        (λ s. s)
        (λ s. s)
        short
        short
        cfg
        hash
        requests
        (calm fresh 1000 50)).db.organizations
    ≡ 1
unfolding count_where serve_all team_flow.Organizations.Create.create_organization
    team_flow.Exec.◌>>=◌ team_flow.Exec.or_fail team_flow.Exec.statement
    team_flow.Database.Organizations.organization_slug_exists team_flow.Prelude.any transaction
    team_flow.Database.Organizations.create_organization team_flow.Database.Roles.create_role
    team_flow.Organizations.Roles.set_permissions team_flow.Database.Roles.set_role_permissions
    team_flow.Permissions.default_for_role team_flow.Database.Roles.get_permission_by_key find
    team_flow.Database.Roles.add_role_permission team_flow.Exec.for_each
    team_flow.Database.Memberships.create_membership team_flow.Exec.now team_flow.Exec.new_id
    team_flow.Prelude.select team_flow.Permissions.all_keys team_flow.Permissions.read_only
    team_flow.Organizations.Create.other_roles team_flow.Organizations.Members.assign_member_role
    authorize team_flow.Exec.with_tenant_tx team_flow.Database.Memberships.get_membership
    team_flow.Database.Memberships.get_membership_by_id
    team_flow.Database.Organizations.get_organization_by_id team_flow.Database.Roles.get_role_by_id
    team_flow.Database.Roles.has_role_permission team_flow.Database.Memberships.count_active_owners
acme_is_stored = refl

serve_all-owned_example :
    let d = (serve_all (λ s. s) (λ s. s) short short cfg hash requests (calm fresh 1000 50)).db in
    (1 ≤ own_owners 1001 d) × (strangers d.roles d.memberships ≡ 0)
serve_all-owned_example =
    serve_all-owned (λ s. s) (λ s. s) short short cfg hash requests (calm fresh 1000 50) 1001 refl
      refl refl (omega (arith, acme_is_stored))

-- The state of one small organization.
abbrev org : Organization
org = record {
  id = 10;
  name = "Acme";
  slug = "acme";
  status = "active";
  created_at = 0;
  updated_at = 0;
}

abbrev role : ℕ → String → Role
role id name = record {
  id = id;
  organization_id = 10;
  name = name;
  description = none;
  is_system = true;
  created_at = 0;
  updated_at = 0;
}

abbrev member : ℕ → ℕ → ℕ → Membership
member id user_id role_id = record {
  id = id;
  organization_id = 10;
  user_id = user_id;
  role_id = role_id;
  status = "active";
  joined_at = none;
  created_at = 0;
  updated_at = 0;
}

abbrev acme : Db
acme = record {
  organizations = org ∷ [];
  users = user 1 "ann" ∷ user 2 "bob" ∷ [];
  roles = role 20 "Owner" ∷ role 21 "Member" ∷ [];
  permissions = record { id = 30; key = "members.manage"; description = ""; created_at = 0 } ∷ [];
  role_permissions = record { role_id = 20; permission_id = 30 } ∷ [];
  memberships = member 40 1 20 ∷ member 41 2 21 ∷ [];
  refresh_tokens = [];
  invitations = [];
  api_keys = [];
}

abbrev tenant : Tenant
tenant = record { organization_id = 10; membership_id = 40; role_id = 20; role_name = "Owner" }

passes : (authorize 1 10 "members.manage" (calm acme 100 50)).0 ≡ ok tenant
unfolding authorize team_flow.Exec.◌>>=◌ team_flow.Exec.with_tenant_tx team_flow.Exec.statement
    team_flow.Database.Memberships.get_membership find
    team_flow.Database.Organizations.get_organization_by_id team_flow.Database.Roles.get_role_by_id
    team_flow.Database.Roles.has_role_permission team_flow.Prelude.any
passes = refl

authorize-Access_example :
    Access acme 1 10 "members.manage" tenant
    × ((authorize 1 10 "members.manage" (calm acme 100 50)).1.db ≡ acme)
authorize-Access_example = authorize-Access 1 10 "members.manage" tenant (calm acme 100 50) passes

authorize_of_Access_example : (authorize 1 10 "members.manage" (calm acme 500 60)).0 ≡ ok tenant
authorize_of_Access_example =
    authorize_of_Access 1 10 "members.manage" tenant acme 500 60 authorize-Access_example.0

abbrev promoted : MemberDto
promoted = record {
  membership_id = 41;
  user_id = 2;
  email = "bob";
  first_name = "A";
  last_name = "B";
  role = "Owner";
  status = "active";
  joined_at = none;
}

promotes_as_ann : (assign_member_role 1 10 41 20 (calm acme 100 50)).0 ≡ ok promoted
unfolding assign_member_role team_flow.Exec.◌>>=◌ authorize team_flow.Exec.with_tenant_tx
    team_flow.Exec.statement team_flow.Database.Memberships.get_membership find
    team_flow.Database.Organizations.get_organization_by_id team_flow.Database.Roles.get_role_by_id
    team_flow.Database.Roles.has_role_permission team_flow.Prelude.any
    team_flow.Database.Memberships.get_membership_by_id
    team_flow.Database.Memberships.update_membership_role team_flow.Database.Users.get_user_by_id
promotes_as_ann = refl

promotion-by_owner_example :
    (t : Tenant) × Access acme 1 10 "members.manage" t × (t.role_name ≡ "Owner")
promotion-by_owner_example =
    promotion-by_owner 1 10 41 20 (calm acme 100 50) promoted promotes_as_ann refl

abbrev two_owners : Db
two_owners = record acme { memberships = member 40 1 20 ∷ member 41 2 20 ∷ [] }

abbrev demoted : MemberDto
demoted = record promoted { role = "Member" }

demotes : (assign_member_role 1 10 41 21 (calm two_owners 100 50)).0 ≡ ok demoted
unfolding assign_member_role team_flow.Exec.◌>>=◌ authorize team_flow.Exec.with_tenant_tx
    team_flow.Exec.statement team_flow.Database.Memberships.get_membership find
    team_flow.Database.Organizations.get_organization_by_id team_flow.Database.Roles.get_role_by_id
    team_flow.Database.Roles.has_role_permission team_flow.Prelude.any
    team_flow.Database.Memberships.get_membership_by_id
    team_flow.Database.Memberships.count_active_owners count_where
    team_flow.Database.Memberships.update_membership_role team_flow.Database.Users.get_user_by_id
demotes = refl

demotion-by_owner_example :
    (t : Tenant) × Access two_owners 1 10 "members.manage" t × (t.role_name ≡ "Owner")
unfolding find
demotion-by_owner_example =
    demotion-by_owner 1 10 41 21 (calm two_owners 100 50) demoted (member 41 2 20) (role 20 "Owner")
      demotes refl refl refl

-- An organization with a role of its own.
abbrev with_guest : Db
with_guest = record acme {
  roles =
      role 20 "Owner"
      ∷ record {
        id = 22;
        organization_id = 10;
        name = "Guest";
        description = none;
        is_system = false;
        created_at = 0;
        updated_at = 0;
      }
      ∷ [];
  permissions = record { id = 30; key = "roles.manage"; description = ""; created_at = 0 } ∷ [];
}

deletes : (delete_role 1 10 22 (calm with_guest 100 50)).0 ≡ ok tt
unfolding delete_role team_flow.Exec.◌>>=◌ authorize team_flow.Exec.with_tenant_tx
    team_flow.Exec.statement team_flow.Database.Memberships.get_membership find
    team_flow.Database.Organizations.get_organization_by_id team_flow.Database.Roles.get_role_by_id
    team_flow.Database.Roles.has_role_permission team_flow.Prelude.any
    team_flow.Database.Roles.count_memberships_by_role count_where
    team_flow.Database.Roles.delete_role
deletes = refl

delete_role-deletes_example :
    (r : Role) × (find (role_key 22 10) with_guest.roles ≡ some r)
    × (r.is_system ≡ false)
    × (count_where (has_role 22 10) with_guest.memberships ≡ 0)
    × ((delete_role 1 10 22 (calm with_guest 100 50)).1.db.roles
        ≡ select (λ x. not (custom_role_key 22 10 x)) with_guest.roles)
    × ((delete_role 1 10 22 (calm with_guest 100 50)).1.db.memberships ≡ with_guest.memberships)
delete_role-deletes_example = delete_role-deletes 1 10 22 (calm with_guest 100 50) deletes

abbrev two_keys : Db
two_keys = record acme {
  permissions =
      record { id = 30; key = "members.manage"; description = ""; created_at = 0 }
      ∷ record { id = 31; key = "members.read"; description = ""; created_at = 0 }
      ∷ [];
}

sets : (set_permissions 21 ("members.read" ∷ []) (calm two_keys 100 50)).0 ≡ ok tt
unfolding set_permissions team_flow.Exec.◌>>=◌ team_flow.Exec.statement
    team_flow.Database.Roles.set_role_permissions team_flow.Exec.or_fail
    team_flow.Database.Roles.get_permission_by_key find team_flow.Database.Roles.add_role_permission
    any select
sets = refl

two_keys_once : (k : ℕ) → count_where (λ (p : Permission). p.id == k) two_keys.permissions ≤ 1
unfolding count_where
two_keys_once k = ground arith

set_permissions-grants_example :
    grants 21 "members.read" (set_permissions 21 ("members.read" ∷ []) (calm two_keys 100 50)).1.db
    ≡ any (λ k. str_eq k "members.read") ("members.read" ∷ [])
set_permissions-grants_example =
    set_permissions-grants 21 ("members.read" ∷ []) "members.read" (calm two_keys 100 50)
      two_keys_once sets

resolve_tenant-hides_example :
    answer (resolve_tenant 9 10 (calm acme 100 50)).0 ≡ some (404, "ORGANIZATION_NOT_FOUND")
unfolding any
resolve_tenant-hides_example = resolve_tenant-hides 9 10 acme 100 50 refl

-- ===== src/Database/Roles.antt =====
-- internal/db/roles.sql.go, under the constraints of migrations/000004 and 000011.
use team_flow.Prelude.{
  ℕ, String, Bool, ◌&&◌, not, Option, none, some, [], ◌∷◌, ◌++◌, find, select, any, update_where,
  count_where, ◌==◌, str_eq, if◌then◌else◌,
}
use team_flow.Httpx.Errors.{pg, no_rows}
use team_flow.Database.Tables.{Db, Role, Permission}
use team_flow.Exec.{Query, ok, err}
use team_flow.Database.Rows.{one, is_blank}

-- `WHERE id = $1 AND organization_id = $2`
abbrev pub role_key : ℕ → ℕ → Role → Bool
role_key id org_id r = r.id == id && r.organization_id == org_id

unfoldable pub get_role_by_id : ℕ → ℕ → Query Role
unfolding one
get_role_by_id id org_id next now d = one (find (role_key id org_id) d.roles) d

-- The unique key on (organization_id, name), seen by the row `id`.
abbrev pub role_name_taken : ℕ → ℕ → String → Db → Bool
role_name_taken id org_id name d =
    any (λ r. not (r.id == id) && (r.organization_id == org_id && str_eq r.name name)) d.roles

unfoldable pub create_role : ℕ → String → Option String → Bool → Query Role
unfolding is_blank
create_role org_id name description is_system next now d =
    let r : Role = record {
      id = next;
      organization_id = org_id;
      name = name;
      description = description;
      is_system = is_system;
      created_at = now;
      updated_at = now;
    } in
    if is_blank name
    then err (pg "23514" "roles_name_check")
    else if role_name_taken next org_id name d
    then err (pg "23505" "roles_organization_id_name_key")
    else if any (λ o. o.id == org_id) d.organizations
    then ok (r, record d { roles = d.roles ++ r ∷ [] })
    else err (pg "23503" "roles_organization_id_fkey")

-- `… WHERE id = $1 AND organization_id = $2 AND is_system = false`
abbrev pub custom_role_key : ℕ → ℕ → Role → Bool
custom_role_key id org_id r = role_key id org_id r && not r.is_system

abbrev pub set_role : ℕ → String → Option String → Role → Role
set_role now name description r = record r {
  name = name;
  description = description;
  updated_at = now;
}

unfoldable pub update_role : ℕ → ℕ → String → Option String → Query Role
unfolding is_blank
update_role id org_id name description next now d =
    elim (find (custom_role_key id org_id) d.roles) [
      | none ↦ err no_rows
      | some r ↦
          if is_blank name
          then err (pg "23514" "roles_name_check")
          else if role_name_taken id org_id name d
          then err (pg "23505" "roles_organization_id_name_key")
          else ok (
            set_role now name description r,
            record d {
              roles =
                  update_where (custom_role_key id org_id) (set_role now name description) d.roles;
            },
          )
    ]

-- The foreign key of the memberships refuses; the grants go with the role.
unfoldable pub delete_role : ℕ → ℕ → Query (Unit {0})
delete_role id org_id next now d =
    let gone = any (custom_role_key id org_id) d.roles in
    if gone && any (λ m. m.role_id == id) d.memberships
    then err (pg "23503" "organization_memberships_role_id_fkey")
    else ok (
      tt,
      record d {
        roles = select (λ r. not (custom_role_key id org_id r)) d.roles;
        role_permissions = select (λ p. not (gone && p.role_id == id)) d.role_permissions;
        invitations =
            select (λ i. not (gone && (i.role_id == id && i.organization_id == org_id)))
              d.invitations;
      },
    )

unfoldable pub count_memberships_by_role : ℕ → ℕ → Query ℕ
count_memberships_by_role role_id org_id next now d =
    ok (count_where (λ m. m.role_id == role_id && m.organization_id == org_id) d.memberships, d)

unfoldable pub get_permission_by_key : String → Query Permission
unfolding one
get_permission_by_key key next now d = one (find (λ p. str_eq p.key key) d.permissions) d

-- `INSERT … ON CONFLICT DO NOTHING`
unfoldable pub add_role_permission : ℕ → ℕ → Query (Unit {0})
add_role_permission role_id permission_id next now d =
    if any (λ p. p.role_id == role_id && p.permission_id == permission_id) d.role_permissions
    then ok (tt, d)
    else if any (λ r. r.id == role_id) d.roles && any (λ p. p.id == permission_id) d.permissions
    then ok (
      tt,
      record d {
        role_permissions =
            d.role_permissions
            ++ (record { role_id = role_id; permission_id = permission_id }) ∷ [];
      },
    )
    else err (pg "23503" "role_permissions_fkey")

-- `DELETE FROM role_permissions WHERE role_id = $1`
unfoldable pub set_role_permissions : ℕ → Query (Unit {0})
set_role_permissions role_id next now d = ok (
  tt,
  record d { role_permissions = select (λ p. not (p.role_id == role_id)) d.role_permissions },
)

-- `EXISTS (SELECT 1 FROM role_permissions rp JOIN permissions p ON p.id = rp.permission_id WHERE …)`
unfoldable pub grants : ℕ → String → Db → Bool
grants role_id key d =
    any
      (λ rp.
        rp.role_id == role_id
        && any (λ p. p.id == rp.permission_id && str_eq p.key key) d.permissions)
      d.role_permissions

unfoldable pub has_role_permission : ℕ → String → Query Bool
unfolding grants
has_role_permission role_id key next now d = ok (grants role_id key d, d)

-- ===== src/Database/Memberships.antt =====
-- internal/db/memberships.sql.go and memberships_extra.sql.go, under the constraints of
-- migrations/000005.
use team_flow.Prelude.{
  ℕ, ◌+◌, String, Bool, ◌&&◌, ◌||◌, not, Option, none, some, List, [], ◌∷◌, ◌++◌, find, any,
  update_where, count_where, ◌==◌, str_eq, if◌then◌else◌,
}
use team_flow.Httpx.Errors.{pg, no_rows}
use team_flow.Database.Tables.{Role, Membership}
use team_flow.Exec.{Query, ok, err}
use team_flow.Database.Rows.{one}

unfoldable pub get_membership : ℕ → ℕ → Query Membership
unfolding one
get_membership org_id user_id next now d =
    one (find (λ m. m.organization_id == org_id && m.user_id == user_id) d.memberships) d

-- `WHERE id = $1 AND organization_id = $2`
abbrev pub membership_key : ℕ → ℕ → Membership → Bool
membership_key id org_id m = m.id == id && m.organization_id == org_id

unfoldable pub get_membership_by_id : ℕ → ℕ → Query Membership
unfolding one
get_membership_by_id id org_id next now d = one (find (membership_key id org_id) d.memberships) d

abbrev pub is_owner_role : ℕ → Role → Bool
is_owner_role role_id r = r.id == role_id && str_eq r.name "Owner"

abbrev pub is_active_in : ℕ → Membership → Bool
is_active_in org_id m = m.organization_id == org_id && str_eq m.status "active"

-- The rows of the join of the memberships `ms` with the roles `rs`.
unfoldable pub owners_among : ℕ → List Role → List Membership → ℕ
owners_among org_id rs [] = 0
owners_among org_id rs (m ∷ ms) =
    (if is_active_in org_id m then count_where (is_owner_role m.role_id) rs else 0)
    + owners_among org_id rs ms

unfoldable pub count_active_owners : ℕ → Query ℕ
unfolding owners_among
count_active_owners org_id next now d = ok (owners_among org_id d.roles d.memberships, d)

abbrev pub is_membership_status : String → Bool
is_membership_status s =
    str_eq s "active" || (str_eq s "invited" || (str_eq s "suspended" || str_eq s "removed"))

unfoldable pub create_membership : ℕ → ℕ → ℕ → String → Option ℕ → Query Membership
create_membership org_id user_id role_id status joined_at next now d =
    let m : Membership = record {
      id = next;
      organization_id = org_id;
      user_id = user_id;
      role_id = role_id;
      status = status;
      joined_at = joined_at;
      created_at = now;
      updated_at = now;
    } in
    if not (is_membership_status status)
    then err (pg "23514" "organization_memberships_status_check")
    else if any (λ n. n.organization_id == org_id && n.user_id == user_id) d.memberships
    then err (pg "23505" "organization_memberships_organization_id_user_id_key")
    else if not (any (λ o. o.id == org_id) d.organizations)
    then err (pg "23503" "organization_memberships_organization_id_fkey")
    else if not (any (λ u. u.id == user_id) d.users)
    then err (pg "23503" "organization_memberships_user_id_fkey")
    else if not (any (λ r. r.id == role_id) d.roles)
    then err (pg "23503" "organization_memberships_role_id_fkey")
    else ok (m, record d { memberships = d.memberships ++ m ∷ [] })

-- `WHERE id = $1 AND organization_id = $2 AND status = 'active'`
abbrev pub active_membership_key : ℕ → ℕ → Membership → Bool
active_membership_key id org_id m = m.id == id && is_active_in org_id m

abbrev pub set_member_role : ℕ → ℕ → Membership → Membership
set_member_role now role_id m = record m { role_id = role_id; updated_at = now }

unfoldable pub update_membership_role : ℕ → ℕ → ℕ → Query Membership
update_membership_role id org_id role_id next now d =
    elim (find (active_membership_key id org_id) d.memberships) [
      | none ↦ err no_rows
      | some m ↦
          if any (λ r. r.id == role_id) d.roles
          then ok (
            set_member_role now role_id m,
            record d {
              memberships =
                  update_where (active_membership_key id org_id) (set_member_role now role_id)
                    d.memberships;
            },
          )
          else err (pg "23503" "organization_memberships_role_id_fkey")
    ]

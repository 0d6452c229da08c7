-- ===== src/Organizations/Access.antt =====
-- Who passes Authorize.
use team_flow.Prelude.{
  ℕ, ◌≡◌, refl, ap, ◌∙◌, String, true, some, find, ◌==◌, ◌&&◌, str_eq_iff, arith,
}
use team_flow.Database.Tables.{Db, Membership, Organization, Role}
use team_flow.Database.Roles.{role_key, get_role_by_id, has_role_permission, grants}
use team_flow.Database.Memberships.{get_membership}
use team_flow.Database.Organizations.{get_organization_by_id}
use team_flow.Exec.Rules.{Returns, require-Returns, pure-Returns}
use team_flow.Database.Runs.{
  after, after_read_or_fail, after_require, after_tx, after_tx_or_fail, statement_lem,
}
use team_flow.Exec.Calm.{calm}
use team_flow.Exec.{World, ok, ◌>>=◌, or_fail, statement, with_tenant_tx}
use team_flow.Organizations.Tenant.{Tenant, tenant_of, require_permission, authorize}

-- The caller is an active member of an active organization, in a role that has the permission.
pub record Access (d : Db) (user_id org_id : ℕ) (permission : String) (t : Tenant) : Type 0 where
  pub member : Membership
  pub org : Organization
  pub role : Role
  pub member_found :
      find (λ m. m.organization_id == org_id && m.user_id == user_id) d.memberships ≡ some member
  pub member_active : member.status ≡ "active"
  pub org_found : find (λ o. o.id == org_id) d.organizations ≡ some org
  pub org_active : org.status ≡ "active"
  pub role_found : find (role_key member.role_id org_id) d.roles ≡ some role
  pub granted : grants member.role_id permission d ≡ true
  pub tenant_is : t ≡ record {
    organization_id = org_id;
    membership_id = member.id;
    role_id = member.role_id;
    role_name = role.name;
  }

pub authorize-db :
    (user_id org_id : ℕ) (permission : String) (w : World)
    → (authorize user_id org_id permission w).1.db ≡ w.db
unfolding authorize ◌>>=◌ or_fail statement with_tenant_tx get_membership get_organization_by_id
    get_role_by_id has_role_permission
authorize-db user_id org_id permission w = ground arith

-- The rows that resolve_tenant reads, one after the other.
module _ (user_id org_id : ℕ) (t : Tenant) (w w' : World) where
  tenant_of-Returns :
      Returns (tenant_of user_id org_id) w t w'
      → (m : Membership) × (o : Organization) × (r : Role) × (find
            (λ m. m.organization_id == org_id && m.user_id == user_id)
            w.db.memberships
          ≡ some m)
        × (m.status ≡ "active")
        × (find (λ o. o.id == org_id) w.db.organizations ≡ some o)
        × (o.status ≡ "active")
        × (find (role_key m.role_id org_id) w.db.roles ≡ some r)
        × (t ≡ record {
          organization_id = org_id;
          membership_id = m.id;
          role_id = m.role_id;
          role_name = r.name;
        })
        × (w'.db ≡ w.db)
  unfolding tenant_of get_membership get_organization_by_id get_role_by_id
  tenant_of-Returns h = after_read_or_fail _ _ _ w refl h λ m w₁ d₁ n₁ p₁ k₁.
      after_require _ _ _ w₁ k₁ λ p₂ k₂. after_read_or_fail _ _ _ w₁ d₁ k₂ λ o w₃ d₃ n₃ p₃ k₃.
        after_require _ _ _ w₃ k₃ λ p₄ k₄. after_require _ _ _ w₃ k₄ λ p₅ k₅.
          after_read_or_fail _ _ _ w₃ d₃ k₅ λ r w₆ d₆ n₆ p₆ k₆. (
            m,
            o,
            r,
            p₁,
            (str_eq_iff _ _).0 p₂,
            p₃,
            (str_eq_iff _ _).0 p₅,
            p₆,
            (pure-Returns _ w₆ t w' k₆).0,
            ap (λ (x : World). x.db) (pure-Returns _ w₆ t w' k₆).1 ∙ d₆,
          )

-- A permission check that passes found a grant.
module _ (org_id role_id : ℕ) (permission : String) (w w' : World) (x : Unit {0}) where
  require_permission-Returns :
      Returns (require_permission org_id role_id permission) w x w'
      → (grants role_id permission w.db ≡ true)
  unfolding require_permission has_role_permission
  require_permission-Returns h = after_tx_or_fail _ _ _ _ w refl h λ allowed v u z d n r s k.
      let (e, _c, _n) = statement_lem _ v d r in
      let passed : allowed ≡ true = (require-Returns allowed _ z x w' k).0 in ground arith

authorize-Returns :
    (user_id org_id : ℕ) (permission : String) (t : Tenant) (w w' : World)
    → Returns (authorize user_id org_id permission) w t w'
    → Access w.db user_id org_id permission t
unfolding authorize
authorize-Returns user_id org_id permission t w w' h =
    after_tx _ _ _ w refl h λ t' v u z d n s same k.
      let (m, o, e, pm, pa, po, pc, pr, pt, pd) = tenant_of-Returns user_id org_id t' v u s in
      after (require_permission org_id t'.role_id permission) _ z k λ x z' q k'.
        let g = require_permission-Returns org_id t'.role_id permission z z' x q in
        let (pe, _z) = pure-Returns t' z' t w' k' in
        let back : z.db ≡ w.db = same.same_db ∙ pd ∙ d in
        record {
          member = m;
          org = o;
          role = e;
          member_found = rw (← d) pm;
          member_active = pa;
          org_found = rw (← d) po;
          org_active = pc;
          role_found = rw (← d) pr;
          granted = ground arith;
          tenant_is = pe ∙ pt;
        }

-- Authorize passes only an active member of an active organization, in a role of it that has the
-- permission, and returns that role's identity; it changes no row.
pub authorize-Access :
    (user_id org_id : ℕ) (permission : String) (t : Tenant) (w : World)
    → (authorize user_id org_id permission w).0 ≡ ok t
    → Access w.db user_id org_id permission t
      × ((authorize user_id org_id permission w).1.db ≡ w.db)
authorize-Access user_id org_id permission t w h = (
  authorize-Returns user_id org_id permission t w _
      (ap (λ r. (r, (authorize user_id org_id permission w).1)) h),
  authorize-db user_id org_id permission w,
)

-- While no connection fails, every such member passes.
pub authorize_of_Access :
    (user_id org_id : ℕ) (permission : String) (t : Tenant) (d : Db) (next clock : ℕ)
    → Access d user_id org_id permission t
    → (authorize user_id org_id permission (calm d next clock)).0 ≡ ok t
unfolding authorize ◌>>=◌ or_fail statement with_tenant_tx get_membership get_organization_by_id
    get_role_by_id has_role_permission
authorize_of_Access user_id org_id permission t d next clock a = rw (
  a.member_found, a.member_active, a.org_found, a.org_active, a.role_found, a.granted, a.tenant_is,
)

-- ===== src/Organizations/Guards.antt =====
-- internal/organizations/service.go: what AssignMemberRole and DeleteRole check before they write.
use team_flow.Prelude.{
  ℕ, ◌≡◌, ap, subst, sym, ◌∙◌, String, Bool, true, false, ◌&&◌, not, some, find, select,
  count_where, ◌==◌, str_eq, str_eq_iff, arith, inl, inr,
}
use team_flow.Httpx.Errors.{wrap}
use team_flow.Database.Tables.{Db, Role, Membership}
use team_flow.Database.Roles.{role_key, custom_role_key, get_role_by_id, count_memberships_by_role}
use team_flow.Database.Memberships.{membership_key}
use team_flow.Database.Runs.{after, after_read_or_fail, after_require, after_answer, statement_lem}
use team_flow.Exec.{World, Action, ok, ◌>>=◌, or_fail, with_tenant_tx}
use team_flow.Exec.Rules.{Returns, or_fail-Returns, with_tenant_tx-Returns}
use team_flow.Organizations.Tenant.{Tenant, authorize}
use team_flow.Organizations.Access.{Access, authorize-Access, authorize-db}
use team_flow.Organizations.Members.{MemberDto, assign_role_tx, assign_member_role}
use team_flow.Organizations.Roles.{delete_role, delete_role_tx}
use team_flow.Organizations.Owners.Operations.{delete_role_row-ok}
use team_flow.Organizations.Owners.Assign.{Assigned, assign_role_tx-Assigned}

module _ {A C : Type 0} (user_id org_id : ℕ) (permission : String) where
  -- An operation that authorizes its caller first and succeeds.
  after_authorize :
      (f : Tenant → Action A) (w : World) {a : A} {w' : World}
      → Returns (authorize user_id org_id permission >>= f) w a w'
      → ((t : Tenant) (v : World)
          → Access w.db user_id org_id permission t
          → v.db ≡ w.db
          → Returns (f t) v a w'
          → C)
      → C
  after_authorize f w h k = after (authorize user_id org_id permission) f w h λ t v s r.
      let (access, _d) = authorize-Access user_id org_id permission t w (ap (λ p. p.0) s) in
      k t v access (ap (λ p. p.1.db) (sym s) ∙ authorize-db user_id org_id permission w) r

-- A change of a member's role that succeeds.
assign_member_role-Assigned :
    (user_id org_id id role_id : ℕ) (w : World) (dto : MemberDto)
    → (assign_member_role user_id org_id id role_id w).0 ≡ ok dto
    → (t : Tenant) × (d' : Db) × Access w.db user_id org_id "members.manage" t
      × Assigned t.role_name org_id id role_id w.db d' dto
unfolding assign_member_role
assign_member_role-Assigned user_id org_id id role_id w dto h =
    let w' = (assign_member_role user_id org_id id role_id w).1 in
    after_authorize user_id org_id "members.manage"
      (λ t. or_fail wrap (with_tenant_tx org_id (assign_role_tx t.role_name org_id id role_id))) w
      (ap (λ z. (z, w')) h)
      λ t v access d k.
        let tx = assign_role_tx t.role_name org_id id role_id in
        let (x, u, r, sx, su) =
          with_tenant_tx-Returns org_id tx v dto w'
            (or_fail-Returns wrap (with_tenant_tx org_id tx) v dto w' k) in
        (
          t,
          u.db,
          access,
          assign_role_tx-Assigned t.role_name org_id id role_id w.db x dto u (sx.same_db ∙ d) r,
        )

-- Only a caller whose own role is Owner makes a member an Owner.
pub promotion-by_owner :
    (user_id org_id id role_id : ℕ) (w : World) (dto : MemberDto)
    → (assign_member_role user_id org_id id role_id w).0 ≡ ok dto
    → dto.role ≡ "Owner"
    → (t : Tenant) × Access w.db user_id org_id "members.manage" t × (t.role_name ≡ "Owner")
promotion-by_owner user_id org_id id role_id w dto h owner =
    let (t, d', access, done) = assign_member_role-Assigned user_id org_id id role_id w dto h in
    let named : str_eq done.new.name "Owner" ≡ true =
      (str_eq_iff done.new.name "Owner").1 (sym done.reported ∙ owner) in
    (t, access, (str_eq_iff t.role_name "Owner").0 (done.by_owner (inr named)))

-- Only a caller whose own role is Owner changes the role of a member who is an Owner.
pub demotion-by_owner :
    (user_id org_id id role_id : ℕ) (w : World) (dto : MemberDto) (m : Membership) (r : Role)
    → (assign_member_role user_id org_id id role_id w).0 ≡ ok dto
    → find (membership_key id org_id) w.db.memberships ≡ some m
    → find (role_key m.role_id org_id) w.db.roles ≡ some r
    → r.name ≡ "Owner"
    → (t : Tenant) × Access w.db user_id org_id "members.manage" t × (t.role_name ≡ "Owner")
demotion-by_owner user_id org_id id role_id w dto m r h found is_role owner =
    let (t, d', access, done) = assign_member_role-Assigned user_id org_id id role_id w dto h in
    let same : m ≡ done.current = cc (sym found ∙ done.current_found) in
    let role_found : find (role_key done.current.role_id org_id) w.db.roles ≡ some r =
      subst (λ (z : Membership). find (role_key z.role_id org_id) w.db.roles ≡ some r) same
        is_role in
    let same_role : r ≡ done.old = cc (sym role_found ∙ done.old_found) in
    let named : str_eq done.old.name "Owner" ≡ true =
      (str_eq_iff done.old.name "Owner").1 (ap (λ (z : Role). z.name) (sym same_role) ∙ owner) in
    (t, access, (str_eq_iff t.role_name "Owner").0 (done.by_owner (inl named)))

-- The memberships that a role is given to.
abbrev pub has_role : ℕ → ℕ → Membership → Bool
has_role role_id org_id m = m.role_id == role_id && m.organization_id == org_id

-- A role that is deleted is no system role and no member has it; other roles stay, and the members.
pub delete_role-deletes :
    (user_id org_id role_id : ℕ) (w : World)
    → (delete_role user_id org_id role_id w).0 ≡ ok tt
    → (r : Role) × (find (role_key role_id org_id) w.db.roles ≡ some r)
      × (r.is_system ≡ false)
      × (count_where (has_role role_id org_id) w.db.memberships ≡ 0)
      × ((delete_role user_id org_id role_id w).1.db.roles
          ≡ select (λ x. not (custom_role_key role_id org_id x)) w.db.roles)
      × ((delete_role user_id org_id role_id w).1.db.memberships ≡ w.db.memberships)
unfolding delete_role delete_role_tx get_role_by_id count_memberships_by_role
delete_role-deletes user_id org_id role_id w h =
    let w' = (delete_role user_id org_id role_id w).1 in
    after_authorize user_id org_id "roles.manage"
      (λ t. with_tenant_tx org_id (delete_role_tx org_id role_id)) w (ap (λ z. (z, w')) h)
      λ t v access d k.
        let (x, u, r, sx, su) =
          with_tenant_tx-Returns org_id (delete_role_tx org_id role_id) v tt w' k in
        after_read_or_fail _ _ _ x (sx.same_db ∙ d) r λ role w₁ d₁ n₁ er k₁.
          after_require _ _ _ w₁ k₁ λ custom k₂. after_answer _ _ w₁ d₁ k₂ λ n w₂ d₂ n₂ en k₃.
            after_require _ _ _ w₂ k₃ λ unused k₄.
              let (e, c, m) = statement_lem _ w₂ d₂ k₄ in
              let (roles, members, _orgs) =
                delete_role_row-ok role_id org_id w₂.next_id w₂.clock w.db u.db tt e in
              let after_commit = su.same_db in
              (
                role,
                er,
                ground arith,
                sym en ∙ ground arith,
                ap (λ (z : Db). z.roles) after_commit ∙ roles,
                ap (λ (z : Db). z.memberships) after_commit ∙ members,
              )

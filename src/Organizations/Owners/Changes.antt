-- ===== src/Organizations/Owners/Changes.antt =====
-- internal/organizations/service.go: the changes of roles, members and names keep the invariant.

use team_flow.Prelude.{
  ℕ, suc, ◌≤◌, ◌≡◌, refl, ap, String, ◌&&◌, List, Option, find, count_where, update_where, ◌==◌,
  str_eq, Option-cases, inl, inr, arith, count-update_where, find-count,
}
use team_flow.Httpx.Errors.{Error, wrap}
use team_flow.Database.Tables.{Db, Organization}
use team_flow.Database.Roles.{role_key}
use team_flow.Database.Organizations.{rename_organization}
use team_flow.Database.Runs.{after, statement_lem}
use team_flow.Exec.{World, Action, ok, ◌>>=◌, pure, or_fail, statement, with_tenant_tx}
use team_flow.Exec.Rules.{
  Returns, Reads, map-Atomic, or_fail-Atomic, with_tenant_tx-Atomic, or_fail-Returns, pure-Returns,
}
use team_flow.Exec.Grows.{
  Returns-next, Grows, Grows-statement, Grows-bind, Grows-or_fail, Grows-pure, Grows-with_tenant_tx,
}
use team_flow.Organizations.Tenant.{
  Tenant, organization_dto, authorize, update_organization, org_not_found,
}
use team_flow.Organizations.Roles.{
  create_role, create_role_tx, update_role, update_role_tx, role_dto,
}
use team_flow.Organizations.Members.{MemberDto, assign_member_role, assign_role_tx}
use team_flow.Organizations.Owners.Assign.{assign_role_tx-Assigned, Assigned-keeps_owner}
use team_flow.Organizations.Owners.Invariant.{Inv, Inv-next, Inv-others}
use team_flow.Organizations.Owners.Updates.{Inv-member_updated}
use team_flow.Organizations.Owners.Operations.{create_role_tx-Inv, update_role_tx-Inv}
use team_flow.Organizations.Owners.Create.{settled}
use team_flow.Organizations.Owners.Keeps.{
  Keeps, create_role_tx-Grows, update_role_tx-Grows, assign_role_tx-Grows, after_tx-Inv,
  guarded-Keeps,
}

module _ {A B : Type 0} (user_id org_id : ℕ) (permission : String) (g : Error → Error)
    (m : Tenant → Action A) (dto : Tenant → A → B) where
  -- An operation that authorizes the caller, runs one transaction and answers with a DTO.
  transaction-Keeps :
      ((t : Tenant) → Grows (m t))
      → ((t : Tenant) (v : World) (a : A) (u : World)
          → Inv settled v.next_id v.db
          → 1 ≤ count_where (λ x. x.id == org_id) v.db.organizations
          → Returns (m t) v a u
          → Inv settled u.next_id u.db)
      → Keeps (
          authorize user_id org_id permission >>= λ t.
          or_fail g (with_tenant_tx org_id (m t)) >>= λ a. pure (dto t a))
  transaction-Keeps grows h =
      guarded-Keeps user_id org_id permission
        (λ t. or_fail g (with_tenant_tx org_id (m t)) >>= λ a. pure (dto t a))
        (λ t.
          map-Atomic (or_fail g (with_tenant_tx org_id (m t))) (dto t)
            (or_fail-Atomic g (with_tenant_tx org_id (m t)) (with_tenant_tx-Atomic org_id (m t))))
        (λ t.
          Grows-bind (or_fail g (with_tenant_tx org_id (m t))) (λ a. pure (dto t a))
            (Grows-or_fail g (with_tenant_tx org_id (m t))
              (Grows-with_tenant_tx org_id (m t) (grows t)))
            (λ a. Grows-pure (dto t a)))
        λ t w b w' inv exists r.
          after (or_fail g (with_tenant_tx org_id (m t))) (λ a. pure (dto t a)) w r
            λ a v s k.
              let (e, last) = pure-Returns (dto t a) v b w' k in
              rw last (
                after_tx-Inv org_id (m t) w a v inv
                  (or_fail-Returns g (with_tenant_tx org_id (m t)) w a v s)
                  λ x u d i q. h t x a u i (rw d exists) q)

pub create_role-Keeps :
    (user_id org_id : ℕ) (name : String) (description : Option String) (permissions : List String)
    → Keeps (create_role user_id org_id name description permissions)
unfolding create_role
create_role-Keeps user_id org_id name description permissions =
    transaction-Keeps user_id org_id "roles.manage" wrap
      (λ t. create_role_tx org_id name description permissions)
      (λ t role. role_dto role permissions)
      (λ t. create_role_tx-Grows org_id name description permissions)
      λ t v a u inv exists r.
        create_role_tx-Inv settled org_id v.db v u refl inv refl exists name description permissions
          a r

pub update_role-Keeps :
    (user_id org_id role_id : ℕ) (name : String) (description : Option String)
    (permissions : List String)
    → Keeps (update_role user_id org_id role_id name description permissions)
unfolding update_role
update_role-Keeps user_id org_id role_id name description permissions =
    transaction-Keeps user_id org_id "roles.manage" wrap
      (λ t. update_role_tx org_id role_id name description permissions)
      (λ t role. role_dto role permissions)
      (λ t. update_role_tx-Grows org_id role_id name description permissions)
      λ t v a u inv exists r.
        update_role_tx-Inv settled org_id v.db v u refl inv refl exists role_id name description
          permissions a r

assign_role_tx-Inv :
    (caller : String) (org_id id role_id : ℕ) (v : World) (a : MemberDto) (u : World)
    → Inv settled v.next_id v.db
    → Returns (assign_role_tx caller org_id id role_id) v a u
    → Inv settled u.next_id u.db
assign_role_tx-Inv caller org_id id role_id v a u inv r =
    let done = assign_role_tx-Assigned caller org_id id role_id v.db v a u refl r in
    let more =
      Returns-next (assign_role_tx caller org_id id role_id) v a u
        (assign_role_tx-Grows caller org_id id role_id) r in
    Inv-next settled v.next_id u.db
      (Inv-member_updated settled v.next_id v.db inv id org_id role_id done.at u.db done.written
        (find-count (role_key role_id org_id) v.db.roles done.new done.new_found)
        (Assigned-keeps_owner inv.once done))
      u.next_id more

pub assign_member_role-Keeps :
    (user_id org_id id role_id : ℕ) → Keeps (assign_member_role user_id org_id id role_id)
unfolding assign_member_role
assign_member_role-Keeps user_id org_id id role_id =
    let tx = λ (t : Tenant). assign_role_tx t.role_name org_id id role_id in
    guarded-Keeps user_id org_id "members.manage" (λ t. or_fail wrap (with_tenant_tx org_id (tx t)))
      (λ t.
        or_fail-Atomic wrap (with_tenant_tx org_id (tx t)) (with_tenant_tx-Atomic org_id (tx t)))
      (λ t.
        Grows-or_fail wrap (with_tenant_tx org_id (tx t))
          (Grows-with_tenant_tx org_id (tx t) (assign_role_tx-Grows t.role_name org_id id role_id)))
      λ t w a w' inv exists r.
        after_tx-Inv org_id (tx t) w a w' inv
          (or_fail-Returns wrap (with_tenant_tx org_id (tx t)) w a w' r)
          λ v u d i q. assign_role_tx-Inv t.role_name org_id id role_id v a u i q

rename-Inv :
    (id : ℕ) (name : String) (next now : ℕ) (d d' : Db) (o : Organization)
    → Inv settled next d
    → rename_organization id name next now d ≡ ok (o, d')
    → Inv settled next d'
unfolding rename_organization
rename-Inv id name next now d d' o inv h =
    let hit = λ (x : Organization). x.id == id && str_eq x.status "active" in
    let set = λ (x : Organization). record x { name = name; updated_at = now } in
    let written : d' ≡ record d { organizations = update_where hit set d.organizations } =
      elim (Option-cases (find hit d.organizations)) [
        | inl e ↦ absurd (ground arith)
        | inr (x, e) ↦ ground arith
      ] in
    Inv-others settled next d inv d' (ap (λ z. z.roles) written) (ap (λ z. z.memberships) written)
      λ k. rw written (count-update_where (λ x. x.id == k) hit set d.organizations λ x p. refl)

pub update_organization-Keeps :
    (user_id org_id : ℕ) (name : String) → Keeps (update_organization user_id org_id name)
unfolding update_organization
update_organization-Keeps user_id org_id name =
    transaction-Keeps user_id org_id "organizations.update" org_not_found
      (λ t. statement (rename_organization org_id name)) (λ t org. organization_dto org t.role_name)
      (λ t. Grows-statement (rename_organization org_id name))
      λ t v a u inv exists r.
        let (e, c, n) = statement_lem (rename_organization org_id name) v refl r in
        rw n (
          Inv-next settled v.next_id u.db
            (rename-Inv org_id name v.next_id v.clock v.db u.db a inv e) (suc v.next_id)
            (omega arith))

pub Reads-Keeps : {A : Type 0} (m : Action A) → Reads m → Grows m → Keeps m
Reads-Keeps m reads grows w inv =
    rw (reads w) (Inv-next settled w.next_id w.db inv (m w).1.next_id (grows.at w))

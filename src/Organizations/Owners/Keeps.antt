-- ===== src/Organizations/Owners/Keeps.antt =====
-- internal/organizations/service.go: operations that start with Authorize keep the invariant.

use team_flow.Prelude.{
  ℕ, ◌≤◌, ◌≡◌, refl, sym, ap, ◌∙◌, String, List, Option, count_where, ◌==◌, find-count,
}
use team_flow.Database.Runs.{after}
use team_flow.Exec.{World, Action, ◌>>=◌, with_tenant_tx}
use team_flow.Exec.Rules.{
  Returns, Atomic, bind-Atomic, with_tenant_tx-Atomic, with_tenant_tx-Returns,
}
use team_flow.Exec.Grows.{
  Returns-next, Grows, Grows-bind, Grows-with_tenant_tx, grows_rules, atomic_induction,
}
use team_flow.Organizations.Tenant.{
  Tenant, authorize, resolve_tenant, tenant_of, require_permission,
}
use team_flow.Organizations.Access.{authorize-Access, authorize-db}
use team_flow.Organizations.Roles.{
  create_role_tx, update_role_tx, delete_role, delete_role_tx, grant, set_permissions,
}
use team_flow.Organizations.Members.{assign_role_tx, keep_an_owner}
use team_flow.Organizations.Owners.Invariant.{Inv, Inv-next}
use team_flow.Organizations.Owners.Operations.{delete_role_tx-Inv}
use team_flow.Organizations.Owners.Create.{settled}

-- An action keeps the invariant, whatever its answer.
abbrev pub Keeps : {A : Type 0} → Action A → Type 0
Keeps m = (w : World) → Inv settled w.next_id w.db → Inv settled (m w).1.next_id (m w).1.db

pub keeps_lem :
    {A : Type 0} (m : Action A)
    → Atomic m
    → Grows m
    → ((w : World) (a : A) (w' : World)
        → Inv settled w.next_id w.db
        → Returns m w a w'
        → Inv settled w'.next_id w'.db)
    → Keeps m
keeps_lem m atomic grows h w inv =
    atomic_induction (Inv settled (m w).1.next_id) m w atomic
      (Inv-next settled w.next_id w.db inv _ (grows.at w)) λ a r. h w a (m w).1 inv r

pub authorize-Grows :
    (user_id org_id : ℕ) (permission : String) → Grows (authorize user_id org_id permission)
unfolding authorize resolve_tenant tenant_of require_permission
authorize-Grows user_id org_id permission = search grows_rules depth 12

pub delete_role_tx-Grows : (org_id role_id : ℕ) → Grows (delete_role_tx org_id role_id)
unfolding delete_role_tx
delete_role_tx-Grows org_id role_id = search grows_rules depth 12

pub create_role_tx-Grows :
    (org_id : ℕ) (name : String) (description : Option String) (permissions : List String)
    → Grows (create_role_tx org_id name description permissions)
unfolding create_role_tx set_permissions grant
create_role_tx-Grows org_id name description permissions = search grows_rules depth 12

pub update_role_tx-Grows :
    (org_id role_id : ℕ) (name : String) (description : Option String) (permissions : List String)
    → Grows (update_role_tx org_id role_id name description permissions)
unfolding update_role_tx set_permissions grant
update_role_tx-Grows org_id role_id name description permissions = search grows_rules depth 14

pub assign_role_tx-Grows :
    (caller : String) (org_id id role_id : ℕ) → Grows (assign_role_tx caller org_id id role_id)
unfolding assign_role_tx keep_an_owner
assign_role_tx-Grows caller org_id id role_id = search grows_rules depth 14

-- What the body of a transaction keeps is kept by the transaction.
pub after_tx-Inv :
    {A : Type 0} (org_id : ℕ) (m : Action A) (w : World) (a : A) (w' : World)
    → Inv settled w.next_id w.db
    → Returns (with_tenant_tx org_id m) w a w'
    → ((v u : World)
        → v.db ≡ w.db
        → Inv settled v.next_id v.db
        → Returns m v a u
        → Inv settled u.next_id u.db)
    → Inv settled w'.next_id w'.db
after_tx-Inv org_id m w a w' inv r h =
    let (v, u, k, sv, su) = with_tenant_tx-Returns org_id m w a w' r in
    rw (su.same_db, su.same_next_id) (h v u sv.same_db (rw (sv.same_db, sv.same_next_id) inv) k)

module _ {A : Type 0} (user_id org_id : ℕ) (permission : String) (f : Tenant → Action A) where
  -- An operation that starts with Authorize.
  pub guarded-Keeps :
      ((t : Tenant) → Atomic (f t))
      → ((t : Tenant) → Grows (f t))
      → ((t : Tenant) (w : World) (a : A) (w' : World)
          → Inv settled w.next_id w.db
          → 1 ≤ count_where (λ x. x.id == org_id) w.db.organizations
          → Returns (f t) w a w'
          → Inv settled w'.next_id w'.db)
      → Keeps (authorize user_id org_id permission >>= f)
  guarded-Keeps atomic grows h =
      keeps_lem (authorize user_id org_id permission >>= f)
        (bind-Atomic (authorize user_id org_id permission) f
          (authorize-db user_id org_id permission) atomic)
        (Grows-bind (authorize user_id org_id permission) f
          (authorize-Grows user_id org_id permission) grows)
        λ w a w' inv r. after (authorize user_id org_id permission) f w r λ t v s k.
          let passed = ap (λ p. p.0) s in
          let same : v.db ≡ w.db =
            ap (λ p. p.1.db) (sym s) ∙ authorize-db user_id org_id permission w in
          let (access, _same) = authorize-Access user_id org_id permission t w passed in
          let more =
            Returns-next (authorize user_id org_id permission) w t v
              (authorize-Grows user_id org_id permission) s in
          h t v a w' (rw same (Inv-next settled w.next_id w.db inv v.next_id more))
            (rw same
              (find-count (λ x. x.id == org_id) w.db.organizations access.org access.org_found))
            k

pub delete_role-Keeps : (user_id org_id role_id : ℕ) → Keeps (delete_role user_id org_id role_id)
unfolding delete_role
delete_role-Keeps user_id org_id role_id =
    guarded-Keeps user_id org_id "roles.manage"
      (λ t. with_tenant_tx org_id (delete_role_tx org_id role_id))
      (λ t. with_tenant_tx-Atomic org_id (delete_role_tx org_id role_id))
      (λ t.
        Grows-with_tenant_tx org_id (delete_role_tx org_id role_id)
          (delete_role_tx-Grows org_id role_id))
      λ t w a w' inv exists r.
        after_tx-Inv org_id (delete_role_tx org_id role_id) w a w' inv r
          λ v u s k. delete_role_tx-Inv settled org_id v.db v u refl k refl (rw s exists) role_id a

-- ===== src/Organizations/Owners/Found.antt =====
-- internal/organizations/service.go: GetOrganization and CreateOrganization keep the invariant.
use Prim.Native.String.{◌++◌ as append}
use team_flow.Permissions.{default_for_role}
use team_flow.Slug.{org_slugify}
use team_flow.Prelude.{
  ℕ, zero, suc, ◌≡◌, refl, sym, ap, ◌∙◌, String, Bool, true, false, List, [], ◌∷◌, str_eq, arith,
  if◌then◌else◌,
}
use team_flow.Httpx.Errors.{wrap}
use team_flow.Database.Organizations.{get_organization_by_id, organization_slug_exists}
use team_flow.Database.Runs.{after}
use team_flow.Exec.{Action, new_id, ◌>>=◌, pure, or_fail, statement, transaction, with_tenant_tx}
use team_flow.Exec.Rules.{Reads, bind-Atomic, bind-Reads, transaction-Atomic, transaction-Returns}
use team_flow.Exec.Grows.{
  Returns-next, Grows, Grows-new_id, Grows-statement, Grows-transaction, Grows-bind, Grows-or_fail,
  Grows-pure, grows_rules,
}
use team_flow.Organizations.Tenant.{organization_dto, authorize, get_organization}
use team_flow.Organizations.Access.{authorize-db}
use team_flow.Organizations.Roles.{set_permissions}
use team_flow.Organizations.Create.{
  create_organization, create_organization_tx, unique_slug, slug_rounds, seed_roles, default_roles,
}
use team_flow.Organizations.Owners.Invariant.{Inv, Inv-next}
use team_flow.Organizations.Owners.Operations.{set_permissions-Grows}
use team_flow.Organizations.Owners.Create.{settled, create_organization_tx-Inv}
use team_flow.Organizations.Owners.Keeps.{Keeps, keeps_lem, authorize-Grows}
use team_flow.Organizations.Owners.Changes.{Reads-Keeps}

pub pure-Reads : {A : Type 0} (a : A) → Reads (pure a)
pure-Reads a w = refl

read_organization-Reads :
    (k : ℕ) → Reads (with_tenant_tx k (or_fail wrap (statement (get_organization_by_id k))))
unfolding with_tenant_tx or_fail statement ◌>>=◌ get_organization_by_id
read_organization-Reads k w = ground arith

pub slug_exists-Reads :
    (fold : String → String) (s : String)
    → Reads (or_fail wrap (statement (organization_slug_exists fold s)))
unfolding or_fail statement ◌>>=◌ organization_slug_exists
slug_exists-Reads fold s w = ground arith

pub new_id-Reads : Reads new_id
unfolding new_id
new_id-Reads w = refl

pub get_organization-Keeps : (user_id org_id : ℕ) → Keeps (get_organization user_id org_id)
unfolding get_organization
get_organization-Keeps user_id org_id =
    Reads-Keeps (get_organization user_id org_id)
      (bind-Reads (authorize user_id org_id "organizations.read") _
        (authorize-db user_id org_id "organizations.read")
        λ t.
          bind-Reads
            (with_tenant_tx org_id (or_fail wrap (statement (get_organization_by_id org_id)))) _
            (read_organization-Reads org_id) λ o. pure-Reads (organization_dto o t.role_name))
      (Grows-bind (authorize user_id org_id "organizations.read") _
        (authorize-Grows user_id org_id "organizations.read") λ t. search grows_rules depth 9)

module _ {A : Type 0} where
  pub chosen-Reads :
      (b : Bool) (m n : Action A) → Reads m → Reads n → Reads (elim b [ false ↦ m | true ↦ n ])
  chosen-Reads false m n h k = h
  chosen-Reads true m n h k = k

  pub chosen-Grows :
      (b : Bool) (m n : Action A) → Grows m → Grows n → Grows (elim b [ false ↦ m | true ↦ n ])
  chosen-Grows false m n h k = h
  chosen-Grows true m n h k = k

seed_roles-Grows :
    (org_id : ℕ) (rs : List (String × String)) (owner_id : ℕ)
    → Grows (seed_roles org_id owner_id rs)
unfolding seed_roles
seed_roles-Grows org_id [] owner_id = Grows-pure owner_id
seed_roles-Grows org_id ((name, desc) ∷ rs) owner_id =
    Grows-bind _ _ (search grows_rules depth 5) λ role.
      Grows-bind _ _
        (Grows-or_fail wrap (set_permissions role.id (default_for_role name))
          (set_permissions-Grows role.id (default_for_role name)))
        λ x. seed_roles-Grows org_id rs (if str_eq name "Owner" then role.id else owner_id)

module _ (fold lower : String → String) (short_id : ℕ → String) where
  slug_rounds-Reads :
      (n : ℕ) (base candidate : String) → Reads (slug_rounds fold lower short_id n base candidate)
  unfolding slug_rounds
  slug_rounds-Reads zero base candidate = pure-Reads candidate
  slug_rounds-Reads (suc n) base candidate =
      bind-Reads (or_fail wrap (statement (organization_slug_exists fold candidate))) _
        (slug_exists-Reads fold candidate)
        λ taken.
          chosen-Reads taken (pure candidate)
            (new_id >>= λ id.
              slug_rounds fold lower short_id n base (append base (append "-" (short_id id))))
            (pure-Reads candidate)
            (bind-Reads new_id _ new_id-Reads λ id. slug_rounds-Reads n base _)

  slug_rounds-Grows :
      (n : ℕ) (base candidate : String) → Grows (slug_rounds fold lower short_id n base candidate)
  unfolding slug_rounds
  slug_rounds-Grows zero base candidate = Grows-pure candidate
  slug_rounds-Grows (suc n) base candidate =
      Grows-bind (or_fail wrap (statement (organization_slug_exists fold candidate))) _
        (Grows-or_fail wrap (statement (organization_slug_exists fold candidate))
          (Grows-statement (organization_slug_exists fold candidate)))
        λ taken.
          chosen-Grows taken (pure candidate)
            (new_id >>= λ id.
              slug_rounds fold lower short_id n base (append base (append "-" (short_id id))))
            (Grows-pure candidate)
            (Grows-bind new_id _ Grows-new_id λ id. slug_rounds-Grows n base _)

  create_organization_tx-Grows :
      (user_id : ℕ) (name slug : String)
      → Grows (create_organization_tx fold lower short_id user_id name slug)
  unfolding create_organization_tx
  create_organization_tx-Grows user_id name slug =
      Grows-bind _ _ (search grows_rules depth 5) λ org.
        Grows-bind (seed_roles org.id 0 default_roles) _ (seed_roles-Grows org.id default_roles 0)
          λ owner_id. search grows_rules depth 9

  pub create_organization-Keeps :
      (user_id : ℕ) (name : String) → Keeps (create_organization fold lower short_id user_id name)
  unfolding create_organization unique_slug
  create_organization-Keeps user_id name =
      let tx = λ (slug : String). create_organization_tx fold lower short_id user_id name slug in
      let base = org_slugify lower name in
      keeps_lem (create_organization fold lower short_id user_id name)
        (bind-Atomic (unique_slug fold lower short_id name) (λ slug. transaction (tx slug))
          (slug_rounds-Reads 5 base base) (λ slug. transaction-Atomic (tx slug)))
        (Grows-bind (unique_slug fold lower short_id name) (λ slug. transaction (tx slug))
          (slug_rounds-Grows 5 base base)
          (λ slug. Grows-transaction (tx slug) (create_organization_tx-Grows user_id name slug)))
        λ w a w' inv r.
          after (unique_slug fold lower short_id name) (λ slug. transaction (tx slug)) w r
            λ slug v s k.
              let (x, u, q, sx, su) = transaction-Returns (tx slug) v a w' k in
              let same : v.db ≡ w.db = ap (λ p. p.1.db) (sym s) ∙ slug_rounds-Reads 5 base base w in
              let more =
                Returns-next (unique_slug fold lower short_id name) w slug v
                  (slug_rounds-Grows 5 base base) s in
              let start : Inv settled x.next_id x.db =
                rw (sx.same_db, sx.same_next_id, same)
                  (Inv-next settled w.next_id w.db inv v.next_id more) in
              rw (su.same_db, su.same_next_id)
                (create_organization_tx-Inv fold lower short_id user_id name slug x.db x a u refl
                  start q).0

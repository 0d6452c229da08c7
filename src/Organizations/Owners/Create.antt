-- ===== src/Organizations/Owners/Create.antt =====
-- internal/organizations/service.go: CreateOrganization keeps the invariant, and gives the new
-- organization its Owner.
use team_flow.Prelude.{
  ℕ, suc, ◌≤◌, ◌≡◌, refl, sym, ap, subst, String, Bool, true, false, [], ◌∷◌, ◌++◌, Option, some,
  count_where, ◌==◌, ==_iff, ==_refl, Bool-cases, inl, inr, arith, count_where-append,
  count-le-count,
}
use team_flow.Database.Tables.{Db, Organization, Membership}
use team_flow.Database.Organizations.{create_organization as insert_organization}
use team_flow.Database.Roles.{role_key}
use team_flow.Database.Memberships.{create_membership, is_owner_role, is_active_in, owners_among}
use team_flow.Database.Runs.{after, after_write_or_fail}
use team_flow.Exec.{World, Result, ok, now}
use team_flow.Exec.Rules.{Returns, pure-Returns}
use team_flow.Organizations.Owners.{owners}
use team_flow.Organizations.Owners.Strangers.{is_own_owner, strangers, strangers-append, no_foreign}
use team_flow.Organizations.Owners.Invariant.{role_below, Inv, is_owner_of, owners-append}
use team_flow.Organizations.Create.{seed_roles, default_roles, other_roles, create_organization_tx}
use team_flow.Organizations.Tenant.{OrganizationDto, organization_dto}
use team_flow.Organizations.Owners.Seed.{no_owner, seed_first}

pub insert_organization-ok :
    (fold : String → String) (name slug status : String) (next now : ℕ) (d d' : Db)
    (o : Organization)
    → insert_organization fold name slug status next now d ≡ ok (o, d')
    → (d' ≡ record d { organizations = d.organizations ++ o ∷ [] }) × (o.id ≡ next)
unfolding insert_organization
insert_organization-ok fold name slug status next now d d' o h = ground arith

pub create_membership-ok :
    (org_id user_id role_id : ℕ) (status : String) (joined : Option ℕ) (next now : ℕ) (d d' : Db)
    (m : Membership)
    → create_membership org_id user_id role_id status joined next now d ≡ ok (m, d')
    → (d' ≡ record d { memberships = d.memberships ++ m ∷ [] })
      × (m.id ≡ next)
      × (m.organization_id ≡ org_id)
      × (m.role_id ≡ role_id)
      × (m.status ≡ status)
unfolding create_membership
create_membership-ok org_id user_id role_id status joined next now d d' m h = ground arith

abbrev pub settled : ℕ → Bool
settled o = false

-- An organization row under a new identifier, with roles and members still to come.
pub Inv-opened :
    (next : ℕ) (d : Db) (o : Organization)
    → Inv settled next d
    → o.id ≡ next
    → Inv (λ k. k == o.id) (suc next) (record d { organizations = d.organizations ++ o ∷ [] })
unfolding count_where
Inv-opened next d o inv fresh = record {
  once = record { memberships_once = inv.once.memberships_once; roles_once = inv.once.roles_once };
  memberships_used = λ k p. inv.memberships_used k (omega arith);
  roles_used = λ k p. inv.roles_used k (omega arith);
  no_false_owner = inv.no_false_owner;
  roles_named = λ k p. inv.roles_named k (omega arith);
  at_home = inv.at_home;
  owner_role = λ k p h. inv.owner_role k refl (old k p h);
  owned = λ k p h. inv.owned k refl (old k p h);
}
  where
    old :
        (k : ℕ)
        → (k == o.id) ≡ false
        → 1 ≤ count_where (λ x. x.id == k) (d.organizations ++ o ∷ [])
        → 1 ≤ count_where (λ x. x.id == k) d.organizations
    old k p h = ground (arith, count_where-append (λ x. x.id == k) d.organizations (o ∷ []))

-- The Owner's membership completes the organization.
pub Inv-closed :
    (org_id next : ℕ) (d : Db) (m : Membership)
    → Inv (λ k. k == org_id) next d
    → m.id ≡ next
    → m.organization_id ≡ org_id
    → m.status ≡ "active"
    → 1 ≤ count_where (is_own_owner m.role_id org_id) d.roles
    → 1 ≤ count_where (is_owner_of org_id) d.roles
    → Inv settled (suc next) (record d { memberships = d.memberships ++ m ∷ [] })
      × (1 ≤ owners org_id (record d { memberships = d.memberships ++ m ∷ [] }))
unfolding count_where owners_among strangers
Inv-closed org_id next d m inv fresh in_org active own has = (
  record {
    once = record {
      memberships_once = λ k. ground (
        arith,
        count_where-append (λ x. x.id == k) d.memberships (m ∷ []),
        inv.once.memberships_once k,
        inv.memberships_used next (omega arith),
      );
      roles_once = inv.once.roles_once;
    };
    memberships_used = λ k p. ground (
      arith,
      count_where-append (λ x. x.id == k) d.memberships (m ∷ []),
      inv.memberships_used k (omega arith),
    );
    roles_used = λ k p. inv.roles_used k (omega arith);
    no_false_owner = inv.no_false_owner;
    roles_named = λ k p. ground (
      arith,
      count_where-append (λ x. x.role_id == k) d.memberships (m ∷ []),
      inv.roles_named k (omega arith),
      given k (omega arith),
    );
    at_home = omega (arith, inv.at_home, strangers-append d.roles d.memberships (m ∷ []), home);
    owner_role = λ k p h. elim (Bool-cases (k == org_id)) [
      | inl e ↦
          subst (λ z. 1 ≤ count_where (is_owner_of z) d.roles) (sym ((==_iff k org_id).0 e)) has
      | inr e ↦ inv.owner_role k e h
    ];
    owned = λ k p h. elim (Bool-cases (k == org_id)) [
      | inl e ↦
          subst (λ z. 1 ≤ owners z (record d { memberships = d.memberships ++ m ∷ [] }))
            (sym ((==_iff k org_id).0 e)) mine
      | inr e ↦ omega (arith, inv.owned k e h, owners-append k d.roles d.memberships (m ∷ []))
    ];
  },
  mine,
)
  where
    of_role : 1 ≤ count_where (role_key m.role_id org_id) d.roles
    of_role = omega (
      arith,
      own,
      count-le-count (is_own_owner m.role_id org_id) (role_key m.role_id org_id) d.roles
          λ x q. ground arith,
    )

    named : 1 ≤ count_where (is_owner_role m.role_id) d.roles
    named = omega (
      arith,
      own,
      count-le-count (is_own_owner m.role_id org_id) (is_owner_role m.role_id) d.roles
          λ x q. ground arith,
    )

    given : (k : ℕ) → next ≤ k → (m.role_id == k) ≡ false
    given k p = role_below (λ z. z == org_id) next d inv m.role_id org_id of_role k p

    home : strangers d.roles (m ∷ []) ≡ 0
    home =
        let z = no_foreign m.role_id org_id d.roles (inv.once.roles_once m.role_id) of_role in
        rw in_org (omega (arith, z))

    mine : 1 ≤ owners org_id (record d { memberships = d.memberships ++ m ∷ [] })
    mine =
        let is_active : is_active_in org_id m ≡ true = rw (in_org, active, ==_refl) refl in
        ground (arith, named, owners-append org_id d.roles d.memberships (m ∷ []))

others_plain : no_owner other_roles ≡ true
unfolding other_roles
others_plain = refl

-- CreateOrganization's transaction keeps the invariant and gives the organization an active Owner.
pub create_organization_tx-Inv :
    (fold lower : String → String) (short_id : ℕ → String) (user_id : ℕ) (name slug : String)
    (d : Db) (w : World) (dto : OrganizationDto) (w' : World)
    → w.db ≡ d
    → Inv settled w.next_id d
    → Returns (create_organization_tx fold lower short_id user_id name slug) w dto w'
    → Inv settled w'.next_id w'.db × (1 ≤ owners dto.id w'.db)
unfolding create_organization_tx now default_roles
create_organization_tx-Inv fold lower short_id user_id name slug d w dto w' at inv h =
    after_write_or_fail _ _ _ w at h λ o w₁ e₁ c₁ n₁ k₁.
      let (written₁, fresh₁) =
        insert_organization-ok fold name slug "active" w.next_id w.clock d w₁.db o e₁ in
      let inv₁ = Inv-opened w.next_id d o inv fresh₁ in
      after (seed_roles o.id 0 default_roles) _ w₁ k₁ λ id w₂ s₂ k₂.
        let (seeded, own, has) =
          seed_first (λ k. k == o.id) o.id "Full control over the organization" other_roles w₁.db w₁
            id w₂ others_plain refl (rw (n₁, written₁) inv₁) s₂ in
        after now _ w₂ k₂ λ at₃ w₃ s₃ k₃.
          let same : w₃ ≡ w₂ = ap (λ (p : Result ℕ × World). p.1) (sym s₃) in
          after_write_or_fail _ _ _ w₃ (ap (λ z. z.db) same) k₃ λ m w₄ e₄ c₄ n₄ k₄.
            let (written₄, fresh₄, of_org, of_role, active) =
              create_membership-ok o.id user_id id "active" (some at₃) w₃.next_id w₃.clock w₂.db
                w₄.db m e₄ in
            let (er, ew) = pure-Returns (organization_dto o "Owner") w₄ dto w' k₄ in
            let (kept, mine) =
              Inv-closed o.id w₂.next_id w₂.db m seeded.inv (rw (fresh₄, same) refl) of_org active
                (rw of_role own) has in
            (rw (ew, n₄, same, written₄) kept, rw (er, ew, written₄) mine)

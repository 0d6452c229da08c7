-- ===== src/Organizations/Owners/Seed.antt =====
-- internal/organizations/service.go: what the loop over the default roles adds.
use team_flow.Prelude.{
  ℕ, suc, ◌≤◌, ◌≡◌, refl, ap, ◌∙◌, String, Bool, true, false, ◌&&◌, not, List, [], ◌∷◌, ◌++◌, some,
  count_where, str_eq, arith, if◌then◌else◌, count_where-append,
}
use team_flow.Httpx.Errors.{wrap}
use team_flow.Database.Tables.{Db, Role}
use team_flow.Database.Roles.{create_role as insert_role}
use team_flow.Database.Runs.{after, after_write_or_fail}
use team_flow.Exec.{World, Action, statement, or_fail, ◌>>=◌}
use team_flow.Exec.Rules.{Returns, or_fail-Returns, pure-Returns}
use team_flow.Exec.Grows.{Grows, Returns-next}
use team_flow.Permissions.{default_for_role}
use team_flow.Organizations.Owners.Core.{KeepsCore, Core-Returns, set_permissions-Core}
use team_flow.Organizations.Owners.Operations.{insert_role-ok, set_permissions-Grows}
use team_flow.Organizations.Owners.Strangers.{is_own_owner}
use team_flow.Organizations.Owners.Invariant.{
  Inv, is_owner_of, is_false_owner, Inv-next, Inv-others, Inv-role,
}
use team_flow.Organizations.Roles.{set_permissions}
use team_flow.Organizations.Create.{seed_roles}

-- What seeding some roles does: it adds rows to the roles, and grants.
pub record Seeded (open_org : ℕ → Bool) (d : Db) (w' : World) : Type 0 where
  pub inv : Inv open_org w'.next_id w'.db
  pub more_owners :
      (k o : ℕ)
      → count_where (is_own_owner k o) d.roles ≤ count_where (is_own_owner k o) w'.db.roles
  pub more_of :
      (o : ℕ) → count_where (is_owner_of o) d.roles ≤ count_where (is_owner_of o) w'.db.roles
  pub members : w'.db.memberships ≡ d.memberships
  pub orgs : w'.db.organizations ≡ d.organizations

abbrev pub no_owner : List (String × String) → Bool
no_owner [] = true
no_owner ((name, desc) ∷ rest) = not (str_eq name "Owner") && no_owner rest

module _ (open_org : ℕ → Bool) (org_id : ℕ) where
  -- One round of the loop.
  pub seed_one :
      {A : Type 0} (name desc : String) (m : ℕ → Action (Unit {0}))
      (core_kept : (k : ℕ) → KeepsCore (m k)) (grows : (k : ℕ) → Grows (m k)) (d : Db) (w : World)
      (f : Role → Action A) (a : A) (w' : World)
      → w.db ≡ d
      → Inv open_org w.next_id d
      → Returns
          (or_fail wrap (statement (insert_role org_id name (some desc) true)) >>= λ role.
            or_fail wrap (m role.id) >>= λ _. f role)
          w
          a
          w'
      → (role : Role) × (v : World) × Returns (f role) v a w'
        × (role.organization_id ≡ org_id)
        × (role.name ≡ name)
        × (v.db.roles ≡ d.roles ++ role ∷ [])
        × Seeded open_org d v
  seed_one name desc m core_kept grows d w f a w' at inv h =
      after_write_or_fail _ _ _ w at h λ role w₁ e c n k₁.
        after (or_fail wrap (m role.id)) _ w₁ k₁ λ x v s k₂.
          let (added, fresh, of_org, named, system, free) =
            insert_role-ok org_id name (some desc) true w.next_id w.clock d w₁.db role e in
          let run = or_fail-Returns wrap (m role.id) w₁ x v s in
          let core = Core-Returns (m role.id) w₁ x v (core_kept role.id) run in
          let more = Returns-next (m role.id) w₁ x v (grows role.id) run in
          let plain : is_false_owner role ≡ false = rw system refl in
          let with_role = Inv-role open_org w.next_id d inv role fresh plain in
          let roles : v.db.roles ≡ d.roles ++ role ∷ [] =
            core.same_roles ∙ ap (λ (z : Db). z.roles) added in
          (
            role,
            v,
            k₂,
            of_org,
            named,
            roles,
            record {
              inv =
                  Inv-others open_org v.next_id (record d { roles = d.roles ++ role ∷ [] })
                    (Inv-next open_org (suc w.next_id) (record d { roles = d.roles ++ role ∷ [] })
                      with_role v.next_id (omega arith))
                    v.db roles (core.same_memberships ∙ ap (λ (z : Db). z.memberships) added)
                    (λ o. rw (core.same_organizations, added));
              more_owners = λ k o.
                  rw roles
                    (omega (arith, count_where-append (is_own_owner k o) d.roles (role ∷ [])));
              more_of = λ o.
                  rw roles (omega (arith, count_where-append (is_owner_of o) d.roles (role ∷ [])));
              members = core.same_memberships ∙ ap (λ (z : Db). z.memberships) added;
              orgs = core.same_organizations ∙ ap (λ (z : Db). z.organizations) added;
            },
          )

  pub Seeded-trans :
      (d : Db) (v w' : World) → Seeded open_org d v → Seeded open_org v.db w' → Seeded open_org d w'
  Seeded-trans d v w' s t = record {
    inv = t.inv;
    more_owners = λ k o. omega (arith, s.more_owners k o, t.more_owners k o);
    more_of = λ o. omega (arith, s.more_of o, t.more_of o);
    members = t.members ∙ s.members;
    orgs = t.orgs ∙ s.orgs;
  }

  -- Roles of other names leave the identifier found.
  seed_rest :
      (rest : List (String × String)) (owner_id : ℕ) (d : Db) (w : World) (id : ℕ) (w' : World)
      → no_owner rest ≡ true
      → w.db ≡ d
      → Inv open_org w.next_id d
      → Returns (seed_roles org_id owner_id rest) w id w'
      → (id ≡ owner_id) × Seeded open_org d w'
  unfolding seed_roles
  seed_rest [] owner_id d w id w' plain at inv h =
      let (e, s) = pure-Returns owner_id w id w' h in
      let same : w'.db ≡ d = ap (λ (z : World). z.db) s ∙ at in
      (
        e,
        record {
          inv = rw (same, s) inv;
          more_owners = λ k o. rw same (omega arith);
          more_of = λ o. rw same (omega arith);
          members = ap (λ (z : Db). z.memberships) same;
          orgs = ap (λ (z : Db). z.organizations) same;
        },
      )
  seed_rest ((name, desc) ∷ rest) owner_id d w id w' plain at inv h =
      let (role, v, r, of_org, named, roles, s) =
        seed_one name desc (λ k. set_permissions k (default_for_role name))
          (λ k. set_permissions-Core k (default_for_role name))
          (λ k. set_permissions-Grows k (default_for_role name)) d w _ id w' at inv h in
      let other : str_eq name "Owner" ≡ false = ground arith in
      let (e, t) =
        seed_rest rest (if str_eq name "Owner" then role.id else owner_id) v.db v id w'
          (ground arith) refl s.inv r in
      (e ∙ rw other, Seeded-trans d v w' s t)

  -- An Owner first, then roles of other names: the Owner's identifier is returned.
  pub seed_first :
      (desc : String) (rest : List (String × String)) (d : Db) (w : World) (id : ℕ) (w' : World)
      → no_owner rest ≡ true
      → w.db ≡ d
      → Inv open_org w.next_id d
      → Returns (seed_roles org_id 0 (("Owner", desc) ∷ rest)) w id w'
      → Seeded open_org d w'
        × (1 ≤ count_where (is_own_owner id org_id) w'.db.roles)
        × (1 ≤ count_where (is_owner_of org_id) w'.db.roles)
  unfolding seed_roles count_where
  seed_first desc rest d w id w' plain at inv h =
      let (role, v, r, of_org, named, roles, s) =
        seed_one "Owner" desc (λ k. set_permissions k (default_for_role "Owner"))
          (λ k. set_permissions-Core k (default_for_role "Owner"))
          (λ k. set_permissions-Grows k (default_for_role "Owner")) d w _ id w' at inv h in
      let (e, t) = seed_rest rest role.id v.db v id w' plain refl s.inv r in
      let first = count_where-append (is_own_owner id org_id) d.roles (role ∷ []) in
      let second = count_where-append (is_owner_of org_id) d.roles (role ∷ []) in
      let named_owner : str_eq role.name "Owner" ≡ true = rw named refl in
      (
        Seeded-trans d v w' s t,
        ground (arith, t.more_owners id org_id, roles, first),
        ground (arith, t.more_of org_id, roles, second),
      )

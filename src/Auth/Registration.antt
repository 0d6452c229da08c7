-- ===== src/Auth/Registration.antt =====
-- internal/auth/service.go: Register gives the new organization its Owner.
use team_flow.Prelude.{
  ℕ, suc, ◌≤◌, ◌≡◌, refl, sym, ap, ◌∙◌, String, Bool, true, List, [], ◌∷◌, ◌++◌, some, count_where,
  ◌==◌, str_eq, arith, count_where-append,
}
use team_flow.Database.Tables.{Db, User, Role}
use team_flow.Database.Users.{create_user}
use team_flow.Database.Roles.{get_permission_by_key, add_role_permission}
use team_flow.Database.Runs.{after, after_write_or_fail}
use team_flow.Exec.{World, Result, ok, ◌>>=◌, statement, now}
use team_flow.Exec.Rules.{Returns, pure-Returns}
use team_flow.Exec.Grows.{Grows, grows_rules}
use team_flow.Permissions.{default_for_role}
use team_flow.Organizations.Owners.{owners}
use team_flow.Organizations.Owners.Core.{KeepsCore, for_each-Core}
use team_flow.Organizations.Owners.Strangers.{is_own_owner}
use team_flow.Organizations.Owners.Invariant.{Inv, is_owner_of, Inv-next, Inv-others}
use team_flow.Organizations.Owners.Seed.{Seeded, seed_one, Seeded-trans}
use team_flow.Organizations.Owners.Create.{
  settled, insert_organization-ok, create_membership-ok, Inv-opened, Inv-closed,
}
use team_flow.Organizations.Create.{other_roles}
use team_flow.Auth.Tokens.{RegisterInput}
use team_flow.Auth.Register.{seed_role_permissions, seed_other_roles, register_tx}

key-Core :
    (role_id : ℕ) (key : String)
    → KeepsCore (
        statement (get_permission_by_key key) >>= λ p. statement (add_role_permission role_id p.id))
unfolding KeepsCore statement ◌>>=◌ get_permission_by_key add_role_permission
key-Core role_id key w = record {
  same_roles = ground arith;
  same_memberships = ground arith;
  same_organizations = ground arith;
}

seed_role_permissions-Core :
    (role_id : ℕ) (name : String) → KeepsCore (seed_role_permissions role_id name)
unfolding seed_role_permissions
seed_role_permissions-Core role_id name = for_each-Core _ (default_for_role name) (key-Core role_id)

pub seed_role_permissions-Grows :
    (role_id : ℕ) (name : String) → Grows (seed_role_permissions role_id name)
unfolding seed_role_permissions
seed_role_permissions-Grows role_id name = search grows_rules depth 9

module _ (open_org : ℕ → Bool) (org_id : ℕ) where
  seed_other_roles-Seeded :
      (rest : List (String × String)) (d : Db) (w : World) (x : Unit {0}) (w' : World)
      → w.db ≡ d
      → Inv open_org w.next_id d
      → Returns (seed_other_roles org_id rest) w x w'
      → Seeded open_org d w'
  unfolding seed_other_roles
  seed_other_roles-Seeded [] d w x w' at inv h =
      let s = (pure-Returns tt w x w' h).1 in
      let same : w'.db ≡ d = ap (λ (z : World). z.db) s ∙ at in
      record {
        inv = rw (same, s) inv;
        more_owners = λ k o. rw same (omega arith);
        more_of = λ o. rw same (omega arith);
        members = ap (λ (z : Db). z.memberships) same;
        orgs = ap (λ (z : Db). z.organizations) same;
      }
  seed_other_roles-Seeded ((name, desc) ∷ rest) d w x w' at inv h =
      let (role, v, r, of_org, named, roles, s) =
        seed_one open_org org_id name desc (λ k. seed_role_permissions k name)
          (λ k. seed_role_permissions-Core k name) (λ k. seed_role_permissions-Grows k name) d w _ x
          w' at inv h in
      Seeded-trans open_org org_id d v w' s (seed_other_roles-Seeded rest v.db v x w' refl s.inv r)

-- The Owner role stays while other roles are added.
owner_added :
    (open_org : ℕ → Bool) (org_id : ℕ) (role : Role) (d : Db) (v w' : World)
    → role.organization_id ≡ org_id
    → role.name ≡ "Owner"
    → v.db.roles ≡ d.roles ++ role ∷ []
    → Seeded open_org v.db w'
    → (1 ≤ count_where (is_own_owner role.id org_id) w'.db.roles)
      × (1 ≤ count_where (is_owner_of org_id) w'.db.roles)
unfolding count_where
owner_added open_org org_id role d v w' of_org named roles t =
    let first = count_where-append (is_own_owner role.id org_id) d.roles (role ∷ []) in
    let second = count_where-append (is_owner_of org_id) d.roles (role ∷ []) in
    let named_owner : str_eq role.name "Owner" ≡ true = rw named refl in
    (
      ground (arith, t.more_owners role.id org_id, roles, first),
      ground (arith, t.more_of org_id, roles, second),
    )

insert_user-ok :
    (fold : String → String) (email hash first last status : String) (next now : ℕ) (d d' : Db)
    (u : User)
    → create_user fold email hash first last status next now d ≡ ok (u, d')
    → d' ≡ record d { users = d.users ++ u ∷ [] }
unfolding create_user
insert_user-ok fold email hash first last status next now d d' u h = ground arith

-- Register's transaction keeps the invariant, and leaves an organization with an active Owner.
pub register_tx-Inv :
    (fold lower : String → String) (random_suffix : ℕ → String) (input : RegisterInput)
    (hash slug : String) (d : Db) (w : World) (user : User) (w' : World)
    → w.db ≡ d
    → Inv settled w.next_id d
    → Returns (register_tx fold lower random_suffix input hash slug) w user w'
    → Inv settled w'.next_id w'.db × (org_id : ℕ) × (1 ≤ owners org_id w'.db)
unfolding register_tx now
register_tx-Inv fold lower random_suffix input hash slug d w user w' at inv h =
    after_write_or_fail _ _ _ w at h λ u w₀ e₀ c₀ n₀ k₀.
      let with_user =
        insert_user-ok fold input.email hash input.first_name input.last_name "active" w.next_id
          w.clock d w₀.db u e₀ in
      let inv₀ : Inv settled w₀.next_id w₀.db =
        rw (n₀, with_user)
          (Inv-others settled (suc w.next_id) d
            (Inv-next settled w.next_id d inv (suc w.next_id) (omega arith))
            (record d { users = d.users ++ u ∷ [] }) refl refl (λ k. refl)) in
      after_write_or_fail _ _ _ w₀ refl k₀ λ o w₁ e₁ c₁ n₁ k₁.
        let (written₁, fresh₁) =
          insert_organization-ok fold input.organization_name slug "active" w₀.next_id w₀.clock
            w₀.db w₁.db o e₁ in
        let inv₁ = Inv-opened w₀.next_id w₀.db o inv₀ fresh₁ in
        let open_org = λ (k : ℕ). k == o.id in
        let (role, v, r, of_org, named, roles, s) =
          seed_one open_org o.id "Owner" "Full control over the organization"
            (λ k. seed_role_permissions k "Owner") (λ k. seed_role_permissions-Core k "Owner")
            (λ k. seed_role_permissions-Grows k "Owner") w₁.db w₁ _ user w' refl
            (rw (n₁, written₁) inv₁) k₁ in
        after (seed_other_roles o.id other_roles) _ v r λ x v₂ s₂ k₂.
          let t = seed_other_roles-Seeded open_org o.id other_roles v.db v x v₂ refl s.inv s₂ in
          let (own, has) = owner_added open_org o.id role w₁.db v v₂ of_org named roles t in
          after now _ v₂ k₂ λ at₃ v₃ s₃ k₃.
            let same : v₃ ≡ v₂ = ap (λ (p : Result ℕ × World). p.1) (sym s₃) in
            after_write_or_fail _ _ _ v₃ (ap (λ z. z.db) same) k₃ λ m v₄ e₄ c₄ n₄ k₄.
              let (written₄, fresh₄, in_org, of_role, active) =
                create_membership-ok o.id u.id role.id "active" (some at₃) v₃.next_id v₃.clock v₂.db
                  v₄.db m e₄ in
              let (eu, ew) = pure-Returns u v₄ user w' k₄ in
              let (kept, mine) =
                Inv-closed o.id v₂.next_id v₂.db m t.inv (rw (fresh₄, same) refl) in_org active
                  (rw of_role own) has in
              (rw (ew, n₄, same, written₄) kept, o.id, rw (ew, written₄) mine)

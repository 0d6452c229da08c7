-- ===== src/Organizations/Owners/Requests.antt =====
-- internal/organizations/service.go: every request keeps the invariant, whether it succeeds or fails.

use team_flow.Organizations.Requests.{
  Request, registers, creates_organization, reads_organization, renames_organization, creates_role,
  updates_role, deletes_role, assigns_role, serve, serve_all,
}
use team_flow.Prelude.{ℕ, ◌≤◌, ◌≡◌, refl, String, List, [], ◌∷◌, count_where, ◌==◌, arith}
use team_flow.Database.Tables.{Db}
use team_flow.Exec.{World, Result}
use team_flow.Auth.Tokens.{AuthConfig}
use team_flow.Auth.Registered.{register-Keeps}
use team_flow.Organizations.Owners.Strangers.{own_owners, strangers, owners_are_own}
use team_flow.Organizations.Owners.Invariant.{Inv}
use team_flow.Organizations.Owners.Create.{settled}
use team_flow.Organizations.Owners.Keeps.{delete_role-Keeps}
use team_flow.Organizations.Owners.Changes.{
  create_role-Keeps, update_role-Keeps, assign_member_role-Keeps, update_organization-Keeps,
}
use team_flow.Organizations.Owners.Found.{get_organization-Keeps, create_organization-Keeps}

Inv-empty :
    (next : ℕ) (d : Db)
    → d.organizations ≡ []
    → d.roles ≡ []
    → d.memberships ≡ []
    → Inv settled next d
unfolding count_where strangers
Inv-empty next d no_orgs no_roles no_members = record {
  once = record {
    memberships_once = λ k. rw no_members (omega arith);
    roles_once = λ k. rw no_roles (omega arith);
  };
  memberships_used = λ k p. rw no_members refl;
  roles_used = λ k p. rw no_roles refl;
  no_false_owner = rw no_roles refl;
  roles_named = λ k p. rw no_members refl;
  at_home = rw (no_roles, no_members) refl;
  owner_role = λ o p h. absurd (omega (arith, rw no_orgs at h));
  owned = λ o p h. absurd (omega (arith, rw no_orgs at h));
}

module _ (fold lower : String → String) (short_id random_suffix : ℕ → String) (cfg : AuthConfig)
    (hash_password : ℕ → String → Result String) where
  serve-Keeps :
      (r : Request) (w : World)
      → Inv settled w.next_id w.db
      → Inv settled
          (serve fold lower short_id random_suffix cfg hash_password r w).next_id
          (serve fold lower short_id random_suffix cfg hash_password r w).db
  unfolding serve
  serve-Keeps (registers input meta) =
      register-Keeps fold lower random_suffix cfg hash_password input meta
  serve-Keeps (creates_organization user_id name) =
      create_organization-Keeps fold lower short_id user_id name
  serve-Keeps (reads_organization user_id org_id) = get_organization-Keeps user_id org_id
  serve-Keeps (renames_organization user_id org_id name) =
      update_organization-Keeps user_id org_id name
  serve-Keeps (creates_role user_id org_id name description permissions) =
      create_role-Keeps user_id org_id name description permissions
  serve-Keeps (updates_role user_id org_id role_id name description permissions) =
      update_role-Keeps user_id org_id role_id name description permissions
  serve-Keeps (deletes_role user_id org_id role_id) = delete_role-Keeps user_id org_id role_id
  serve-Keeps (assigns_role user_id org_id membership_id role_id) =
      assign_member_role-Keeps user_id org_id membership_id role_id

  serve_all-Keeps :
      (rs : List Request) (w : World)
      → Inv settled w.next_id w.db
      → Inv settled
          (serve_all fold lower short_id random_suffix cfg hash_password rs w).next_id
          (serve_all fold lower short_id random_suffix cfg hash_password rs w).db
  unfolding serve_all
  serve_all-Keeps [] w inv = inv
  serve_all-Keeps (r ∷ rs) w inv =
      serve_all-Keeps rs (serve fold lower short_id random_suffix cfg hash_password r w)
        (serve-Keeps r w inv)

  -- From a database without organizations, roles and memberships, and whatever requests follow,
  -- registrations included, and whichever round trips fail, every organization that is stored has an
  -- active member whose role is one of this organization with the name Owner, and no membership has a
  -- role of another organization.
  pub serve_all-owned :
      (rs : List Request) (w : World) (org_id : ℕ)
      → w.db.organizations ≡ []
      → w.db.roles ≡ []
      → w.db.memberships ≡ []
      → 1
        ≤ count_where
            (λ x. x.id == org_id)
            (serve_all fold lower short_id random_suffix cfg hash_password rs w).db.organizations
      → let d = (serve_all fold lower short_id random_suffix cfg hash_password rs w).db in
        (1 ≤ own_owners org_id d) × (strangers d.roles d.memberships ≡ 0)
  serve_all-owned rs w org_id no_orgs no_roles no_members stored =
      let d = (serve_all fold lower short_id random_suffix cfg hash_password rs w).db in
      let kept = serve_all-Keeps rs w (Inv-empty w.next_id w.db no_orgs no_roles no_members) in
      (
        owners_are_own org_id d.roles d.memberships kept.at_home (kept.owned org_id refl stored),
        kept.at_home,
      )

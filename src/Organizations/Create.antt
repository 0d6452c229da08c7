-- ===== src/Organizations/Create.antt =====
-- internal/organizations/service.go: CreateOrganization and uniqueSlug. `fold` is the database's
-- lower-casing, `lower` is `strings.ToLower`, and `short_id` the first eight characters of a UUID.
use Prim.Native.String.{◌++◌ as append}
use team_flow.Prelude.{
  ℕ, zero, suc, String, true, false, some, List, [], ◌∷◌, str_eq, if◌then◌else◌,
}
use team_flow.Httpx.Errors.{wrap}
use team_flow.Database.Organizations.{
  organization_slug_exists, create_organization as insert_organization,
}
use team_flow.Database.Roles.{create_role as insert_role}
use team_flow.Database.Memberships.{create_membership}
use team_flow.Exec.{Action, ◌>>=◌, ◌>>◌, pure, or_fail, statement, transaction, now, new_id}
use team_flow.Permissions.{default_for_role}
use team_flow.Slug.{org_slugify}
use team_flow.Organizations.Tenant.{OrganizationDto, organization_dto}
use team_flow.Organizations.Roles.{set_permissions}

-- `defaultRoles`
unfoldable pub other_roles : List (String × String)
other_roles =
    ("Admin", "Manage organization resources and members")
    ∷ ("Manager", "Manage teams, projects and tasks")
    ∷ ("Member", "Work on assigned projects and tasks")
    ∷ ("Viewer", "Read-only access")
    ∷ []

unfoldable pub default_roles : List (String × String)
default_roles = ("Owner", "Full control over the organization") ∷ other_roles

-- The loop over the default roles, which returns `ownerID`.
unfoldable pub seed_roles : ℕ → ℕ → List (String × String) → Action ℕ
seed_roles org_id owner_id [] = pure owner_id
seed_roles org_id owner_id ((name, desc) ∷ rest) = do
  role ← or_fail wrap (statement (insert_role org_id name (some desc) true))
  or_fail wrap (set_permissions role.id (default_for_role name))
  seed_roles org_id (if str_eq name "Owner" then role.id else owner_id) rest

module _ (fold lower : String → String) (short_id : ℕ → String) where
  -- The loop of `uniqueSlug`, with the rounds left.
  unfoldable pub slug_rounds : ℕ → String → String → Action String
  slug_rounds zero base candidate = pure candidate
  slug_rounds (suc n) base candidate = do
    exists ← or_fail wrap (statement (organization_slug_exists fold candidate))
    elim exists [
      | false ↦ pure candidate
      | true ↦ new_id >>= λ id. slug_rounds n base (append base (append "-" (short_id id)))
    ]

  unfoldable pub unique_slug : String → Action String
  unfolding slug_rounds
  unique_slug name = slug_rounds 5 (org_slugify lower name) (org_slugify lower name)

  unfoldable pub create_organization_tx : ℕ → String → String → Action OrganizationDto
  unfolding seed_roles default_roles
  create_organization_tx user_id name slug = do
    org ← or_fail wrap (statement (insert_organization fold name slug "active"))
    owner_id ← seed_roles org.id 0 default_roles
    at ← now
    or_fail wrap (statement (create_membership org.id user_id owner_id "active" (some at)))
    pure (organization_dto org "Owner")

  -- `CreateOrganization`
  unfoldable pub create_organization : ℕ → String → Action OrganizationDto
  unfolding unique_slug create_organization_tx
  create_organization user_id name = do
    slug ← unique_slug name
    transaction (create_organization_tx user_id name slug)

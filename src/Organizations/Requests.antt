-- ===== src/Organizations/Requests.antt =====
-- internal/organizations/routes.go, and registration: the requests that reach the services, with the
-- arguments that a handler has decoded, and a server that answers them one after the other.
use team_flow.Prelude.{ℕ, String, List, [], ◌∷◌, Option}
use team_flow.Exec.{World, Result}
use team_flow.Auth.Tokens.{AuthConfig, RegisterInput, RequestMeta}
use team_flow.Auth.Register.{register}
use team_flow.Organizations.Tenant.{get_organization, update_organization}
use team_flow.Organizations.Roles.{create_role, update_role, delete_role}
use team_flow.Organizations.Members.{assign_member_role}
use team_flow.Organizations.Create.{create_organization}

pub data Request : Type 0 where
  registers : (input : RegisterInput) → (meta : RequestMeta) → Request
  creates_organization : (user_id : ℕ) → (name : String) → Request
  reads_organization : (user_id org_id : ℕ) → Request
  renames_organization : (user_id org_id : ℕ) → (name : String) → Request
  creates_role :
      (user_id org_id : ℕ)
      → (name : String) → (description : Option String) → (permissions : List String) → Request
  updates_role :
      (user_id org_id role_id : ℕ)
      → (name : String) → (description : Option String) → (permissions : List String) → Request
  deletes_role : (user_id org_id role_id : ℕ) → Request
  assigns_role : (user_id org_id membership_id role_id : ℕ) → Request

module _ (fold lower : String → String) (short_id random_suffix : ℕ → String) (cfg : AuthConfig)
    (hash_password : ℕ → String → Result String) where
  -- The world after one request, whatever its answer.
  unfoldable pub serve : Request → World → World
  serve (registers input meta) w =
      (register fold lower random_suffix cfg hash_password input meta w).1
  serve (creates_organization user_id name) w =
      (create_organization fold lower short_id user_id name w).1
  serve (reads_organization user_id org_id) w = (get_organization user_id org_id w).1
  serve (renames_organization user_id org_id name) w = (update_organization user_id org_id name w).1
  serve (creates_role user_id org_id name description permissions) w =
      (create_role user_id org_id name description permissions w).1
  serve (updates_role user_id org_id role_id name description permissions) w =
      (update_role user_id org_id role_id name description permissions w).1
  serve (deletes_role user_id org_id role_id) w = (delete_role user_id org_id role_id w).1
  serve (assigns_role user_id org_id membership_id role_id) w =
      (assign_member_role user_id org_id membership_id role_id w).1

  unfoldable pub serve_all : List Request → World → World
  unfolding serve
  serve_all [] w = w
  serve_all (r ∷ rs) w = serve_all rs (serve r w)

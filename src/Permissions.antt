-- ===== src/Permissions.antt =====
-- internal/permissions/permissions.go
use team_flow.Prelude.{String, List, [], ◌∷◌, ◌++◌, ◌||◌, str_eq, if◌then◌else◌}

unfoldable pub read_only : List String
read_only =
    "organizations.read" ∷ "members.read" ∷ "roles.read" ∷ "teams.read" ∷ "projects.read"
    ∷ "tasks.read" ∷ []

-- `All`
unfoldable pub all_keys : List String
all_keys =
    "organizations.read" ∷ "organizations.update" ∷ "members.read" ∷ "members.manage" ∷ "roles.read"
    ∷ "roles.manage" ∷ "teams.read" ∷ "teams.manage" ∷ "projects.read" ∷ "projects.create"
    ∷ "projects.update" ∷ "projects.delete" ∷ "tasks.read" ∷ "tasks.create" ∷ "tasks.update"
    ∷ "tasks.delete" ∷ "api_keys.manage" ∷ "audit.read" ∷ []

unfoldable pub default_for_role : String → List String
unfolding read_only all_keys
default_for_role role_name =
    if str_eq role_name "Owner" || str_eq role_name "Admin"
    then all_keys
    else if str_eq role_name "Manager"
    then read_only ++ "projects.create" ∷ "projects.update" ∷ "tasks.create" ∷ "tasks.update" ∷ []
    else read_only

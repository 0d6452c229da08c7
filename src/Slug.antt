-- ===== src/Slug.antt =====
-- The two makers of URL slugs: internal/auth/slug.go, by regular expressions, and slugify of
-- internal/organizations/service.go, by one loop. `lower` is `strings.ToLower`.
pub mod Shape
use Prim.Native.Char.{Char, code}
use team_flow.Prelude.{
  String, Bool, true, false, not, ◌&&◌, ◌||◌, leb, ◌==◌, if◌then◌else◌, trim, trim_space,
}

-- `[a-z0-9]`
unfoldable pub is_slug_char : Char → Bool
is_slug_char c = (leb 97 (code c) && leb (code c) 122) || (leb 48 (code c) && leb (code c) 57)

unfoldable pub is_dash : Char → Bool
is_dash c = code c == 45

abbrev pub dashed : String → String
dashed s = String.◌∷◌ "-" s

-- The loop of organizations.slugify: `prev_dash` tells that the output ends in a dash.
unfoldable pub slug_loop : Bool → String → String
slug_loop prev_dash String.[] = ""
slug_loop prev_dash (String.◌∷◌ c s) =
    let kept = String.◌∷◌ c (slug_loop false s) in
    let skipped = slug_loop true s in
    if is_slug_char c then kept else if prev_dash then skipped else dashed skipped

-- `ReplaceAllString` of `[…]+` by a dash: outside a run of characters that `hit` tests, and inside.
unfoldable pub replace_runs : (Char → Bool) → Bool → String → String
replace_runs hit inside String.[] = ""
replace_runs hit inside (String.◌∷◌ c s) =
    let kept = String.◌∷◌ c (replace_runs hit false s) in
    let rest = replace_runs hit true s in
    if hit c then (if inside then rest else dashed rest) else kept

abbrev pub or_org : String → String
or_org String.[] = "org"
or_org (String.◌∷◌ c s) = String.◌∷◌ c s

module _ (lower : String → String) where
  -- internal/organizations/service.go
  unfoldable pub org_slugify : String → String
  unfolding slug_loop is_slug_char is_dash trim
  org_slugify name = or_org (trim is_dash (slug_loop false (lower (trim_space name))))

  -- internal/auth/slug.go
  unfoldable pub auth_slugify : String → String
  unfolding replace_runs is_slug_char is_dash trim
  auth_slugify name = or_org (
      trim is_dash (
        replace_runs is_dash false
          (replace_runs (λ c. not (is_slug_char c)) false (lower (trim_space name)))))

-- ===== src/Tests/Texts.antt =====
-- The theorems on slugs and pages, at concrete texts and numbers.
use team_flow.Prelude.{ℕ, ◌+◌, ◌*◌, ◌^◌, ◌≤◌, ◌<◌, ◌≡◌, refl, true, arith}
use team_flow.Exec.{ok}
use team_flow.Slug.{org_slugify, auth_slugify}
use team_flow.Slug.Shape.{is_slug, org_slugify-is_slug, auth_slugify-eq-org_slugify}
use team_flow.Httpx.Pagination.{pos, PageRequest, limit, offset, parse_page_request, new_pagination}
use team_flow.Httpx.Pages.{parse_page_request-bounds, new_pagination-covers}

org_slugify-is_slug_example : is_slug (org_slugify (λ s. s) " acme & co ") ≡ true
org_slugify-is_slug_example = org_slugify-is_slug (λ s. s) " acme & co "

auth_slugify-eq-org_slugify_example :
    auth_slugify (λ s. s) " acme & co " ≡ org_slugify (λ s. s) " acme & co "
auth_slugify-eq-org_slugify_example = auth_slugify-eq-org_slugify (λ s. s) " acme & co "

abbrev third : PageRequest
third = record { page = 3; page_size = 50 }

reads_third : parse_page_request "3" "50" ≡ ok third
unfolding parse_page_request
reads_third = refl

parse_page_request-bounds_example :
    (1 ≤ 3) × (3 < 2 ^ 31) × (1 ≤ 50) × (50 ≤ 100) × (offset third + limit third < 2 ^ 63)
parse_page_request-bounds_example = parse_page_request-bounds "3" "50" third reads_third

new_pagination-covers_example :
    (k : ℕ) × ((new_pagination third 101).total_pages ≡ pos k)
    × (101 ≤ k * 50)
    × (k * 50 < 101 + 50)
new_pagination-covers_example = new_pagination-covers third 101 (omega arith) (omega arith)

-- ===== src/Database/ApiKeys.antt =====
-- internal/db/apikeys.sql.go, under the constraints of migrations/000016.
use team_flow.Prelude.{
  ℕ, suc, ◌+◌, String, Bool, true, false, ◌&&◌, ◌||◌, not, Option, none, some, List, [], ◌∷◌, ◌++◌,
  find, any, select, update_where, ◌==◌, ltb, str_eq, if◌then◌else◌,
}
use team_flow.Httpx.Errors.{pg}
use team_flow.Database.Tables.{ApiKey}
use team_flow.Exec.{Query, ok, err}
use team_flow.Database.Rows.{one, is_blank, sort_on, first_rows}

-- `length(…)` of a text.
unfoldable pub char_count : String → ℕ
char_count String.[] = 0
char_count (String.◌∷◌ c s) = suc (char_count s)

abbrev pub has_key_hash : String → ApiKey → Bool
has_key_hash hash k = str_eq k.key_hash hash

abbrev pub api_key_key : ℕ → ℕ → ApiKey → Bool
api_key_key id org_id k = k.id == id && k.organization_id == org_id

-- `revoked_at IS NULL`
abbrev pub is_unrevoked : ApiKey → Bool
is_unrevoked k = elim k.revoked_at [ none ↦ true | some at ↦ false ]

unfoldable pub get_api_key_by_hash : String → Query ApiKey
unfolding one
get_api_key_by_hash hash next now d = one (find (has_key_hash hash) d.api_keys) d

-- GetAPIKeyByID, and GetAPIKeyByIDForUpdate, which also locks the row.
unfoldable pub get_api_key_by_id : ℕ → ℕ → Query ApiKey
unfolding one
get_api_key_by_id id org_id next now d = one (find (api_key_key id org_id) d.api_keys) d

unfoldable pub create_api_key : ℕ → ℕ → String → String → String → String → ℕ → Query ApiKey
unfolding is_blank char_count
create_api_key org_id created_by name prefix last_four hash expires_at next now d =
    let k : ApiKey = record {
      id = next;
      organization_id = org_id;
      created_by = created_by;
      name = name;
      key_prefix = prefix;
      key_last_four = last_four;
      key_hash = hash;
      expires_at = expires_at;
      revoked_at = none;
      last_used_at = none;
      created_at = now;
      updated_at = now;
    } in
    if not (ltb now expires_at)
    then err (pg "23514" "api_keys_expiry_after_creation")
    else if not (char_count last_four == 4)
    then err (pg "23514" "api_keys_key_last_four_check")
    else if char_count prefix == 0
    then err (pg "23514" "api_keys_key_prefix_check")
    else if is_blank name || ltb 100 (char_count name)
    then err (pg "23514" "api_keys_name_check")
    else if any (has_key_hash hash) d.api_keys
    then err (pg "23505" "api_keys_hash_unique")
    else if not (any (λ o. o.id == org_id) d.organizations)
    then err (pg "23503" "api_keys_organization_id_fkey")
    else if any (λ m. m.user_id == created_by && m.organization_id == org_id) d.memberships
    then ok (k, record d { api_keys = d.api_keys ++ k ∷ [] })
    else err (pg "23503" "api_keys_creator_organization_fkey")

abbrev pub set_key_revoked : ℕ → ℕ → ApiKey → ApiKey
set_key_revoked at now k = record k { revoked_at = some at; updated_at = now }

-- `RETURNING …`
abbrev pub returning : (ApiKey → ApiKey) → Option ApiKey → Option ApiKey
returning f none = none
returning f (some k) = some (f k)

abbrev pub to_revoke : ℕ → ℕ → ApiKey → Bool
to_revoke id org_id k = api_key_key id org_id k && is_unrevoked k

unfoldable pub revoke_api_key : ℕ → ℕ → ℕ → Query ApiKey
unfolding one
revoke_api_key id org_id at next now d =
    one (returning (set_key_revoked at now) (find (to_revoke id org_id) d.api_keys)) (record d {
      api_keys = update_where (to_revoke id org_id) (set_key_revoked at now) d.api_keys;
    })

unfoldable pub revoke_api_key_by_id : ℕ → ℕ → Query (Unit {0})
revoke_api_key_by_id id org_id next now d = ok (
  tt,
  record d { api_keys = update_where (api_key_key id org_id) (set_key_revoked now now) d.api_keys },
)

-- At most once a minute.
abbrev pub unused_for_a_minute : ℕ → Option ℕ → Bool
unused_for_a_minute now none = true
unused_for_a_minute now (some at) = ltb (at + 60000000000) now

unfoldable pub touch_api_key : ℕ → Query (Unit {0})
touch_api_key id next now d = ok (
  tt,
  record d {
    api_keys =
        update_where (λ k. k.id == id && unused_for_a_minute now k.last_used_at)
          (λ k. record k { last_used_at = some now; updated_at = now }) d.api_keys;
  },
)

unfoldable pub list_expired_api_keys : ℕ → ℕ → ℕ → Query (List ApiKey)
unfolding sort_on first_rows
list_expired_api_keys org_id expired_before row_limit next now d =
    let hit = λ (k : ApiKey).
      k.organization_id == org_id && (is_unrevoked k && ltb k.expires_at expired_before) in
    ok (first_rows row_limit (sort_on (λ k. k.expires_at) (select hit d.api_keys)), d)

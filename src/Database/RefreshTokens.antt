-- ===== src/Database/RefreshTokens.antt =====
-- internal/db/refresh_tokens.sql.go, under the constraints of migrations/000006.
use team_flow.Prelude.{
  ℕ, String, Bool, true, false, ◌&&◌, not, Option, none, some, [], ◌∷◌, ◌++◌, find, select, any,
  update_where, ◌==◌, ltb, str_eq, if◌then◌else◌,
}
use team_flow.Httpx.Errors.{pg}
use team_flow.Database.Tables.{Db, RefreshToken}
use team_flow.Exec.{Query, ok, err}
use team_flow.Database.Rows.{one}

abbrev pub has_hash : String → RefreshToken → Bool
has_hash hash t = str_eq t.token_hash hash

-- `revoked_at IS NULL`
abbrev pub is_live : RefreshToken → Bool
is_live t = elim t.revoked_at [ none ↦ true | some at ↦ false ]

abbrev pub in_family : ℕ → RefreshToken → Bool
in_family family_id t = t.family_id == family_id

-- GetRefreshTokenByHash, and GetRefreshTokenByHashForUpdate, which also locks the row.
unfoldable pub get_refresh_token_by_hash : String → Query RefreshToken
unfolding one
get_refresh_token_by_hash hash next now d = one (find (has_hash hash) d.refresh_tokens) d

unfoldable pub create_refresh_token :
    ℕ → ℕ → String → ℕ → Option String → Option String → Query RefreshToken
create_refresh_token user_id family_id hash expires_at user_agent ip_address next now d =
    let t : RefreshToken = record {
      id = next;
      user_id = user_id;
      family_id = family_id;
      token_hash = hash;
      expires_at = expires_at;
      revoked_at = none;
      replaced_by = none;
      user_agent = user_agent;
      ip_address = ip_address;
      created_at = now;
    } in
    if any (has_hash hash) d.refresh_tokens
    then err (pg "23505" "refresh_tokens_token_hash_key")
    else if any (λ u. u.id == user_id) d.users
    then ok (t, record d { refresh_tokens = d.refresh_tokens ++ t ∷ [] })
    else err (pg "23503" "refresh_tokens_user_id_fkey")

abbrev pub revoke : ℕ → RefreshToken → RefreshToken
revoke now t = record t { revoked_at = some now }

-- `UPDATE refresh_tokens SET revoked_at = now() WHERE … AND revoked_at IS NULL`
abbrev pub revoke_where : (RefreshToken → Bool) → ℕ → Db → Db
revoke_where hit now d = record d {
  refresh_tokens = update_where (λ t. hit t && is_live t) (revoke now) d.refresh_tokens;
}

unfoldable pub revoke_refresh_token_family : ℕ → Query (Unit {0})
revoke_refresh_token_family family_id next now d = ok (tt, revoke_where (in_family family_id) now d)

unfoldable pub revoke_all_user_refresh_tokens : ℕ → Query (Unit {0})
revoke_all_user_refresh_tokens user_id next now d =
    ok (tt, revoke_where (λ t. t.user_id == user_id) now d)

unfoldable pub revoke_refresh_token : ℕ → Option ℕ → Query (Unit {0})
revoke_refresh_token id replaced_by next now d = ok (
  tt,
  record d {
    refresh_tokens =
        update_where (λ t. t.id == id && is_live t)
          (λ t. record t { revoked_at = some now; replaced_by = replaced_by }) d.refresh_tokens;
  },
)

unfoldable pub delete_expired_refresh_tokens : Query (Unit {0})
delete_expired_refresh_tokens next now d =
    ok (tt, record d { refresh_tokens = select (λ t. not (ltb t.expires_at now)) d.refresh_tokens })

-- ===== src/Tests/Sessions.antt =====
-- The theorems on sessions, at a user with one session.
use Prim.Native.String.{◌++◌ as append}
use team_flow.Prelude.{
  ℕ, ◌≤◌, ◌≡◌, refl, ap, find, String, [], ◌∷◌, Option, none, some, ◌==◌, if◌then◌else◌, str_eq,
}
use team_flow.Httpx.Errors.{sentinel, unauthorized}
use team_flow.Database.Tables.{Db, User, RefreshToken, empty}
use team_flow.Database.RefreshTokens.{has_hash, get_refresh_token_by_hash}
use team_flow.Exec.{World, Result, ok, err}
use team_flow.Exec.Calm.{calm}
use team_flow.Auth.Tokens.{AuthConfig, RequestMeta, AuthResult, IssuedRefresh, user_dto}
use team_flow.Auth.Sessions.{refresh, logout, logout_all, login}
use team_flow.Auth.Families.{live_tokens, outside}
use team_flow.Auth.Requests.{logs_in, refreshes, logs_out, serve_sessions}
use team_flow.Auth.Rotation.{Replaced}
use team_flow.Auth.Reuse.{
  refresh-once, refresh-reuse, refresh-reuse_spares, refresh-Replaced, logout-ends, logout_all-ends,
}
use team_flow.Auth.OneLive.{serve_sessions-one_live}

abbrev ann : User
ann = record {
  id = 1;
  email = "ann@example.com";
  password_hash = "secret";
  first_name = "Ann";
  last_name = "Lee";
  avatar_url = none;
  status = "active";
  email_verified_at = none;
  last_login_at = none;
  created_at = 0;
  updated_at = 0;
}

abbrev token : ℕ → String → Option ℕ → RefreshToken
token id hash revoked_at = record {
  id = id;
  user_id = 1;
  family_id = 2;
  token_hash = hash;
  expires_at = 1000;
  revoked_at = revoked_at;
  replaced_by = none;
  user_agent = none;
  ip_address = none;
  created_at = 0;
}

-- A token that was replaced, and its successor.
abbrev one_session : Db
one_session = record empty {
  users = ann ∷ [];
  refresh_tokens = token 3 "h-old" (some 5) ∷ token 4 "h-new" none ∷ [];
}

abbrev cfg : AuthConfig
cfg = record {
  hash_token = λ raw. append "h-" raw;
  random_token = λ n. ok (if n == 13 then "first" else if n == 18 then "second" else "twelve");
  sign = λ claims. ok "jwt";
  issuer = "teamflow";
  access_ttl = 900000000000;
  refresh_ttl = 500;
}

abbrev meta : RequestMeta
meta = record { user_agent = ""; ip_address = "10.0.0.1" }

abbrev start : World
start = calm one_session 10 20

abbrev answer : AuthResult
answer = record {
  tokens = record {
    access_token = "jwt";
    refresh_token = "twelve";
    expires_in = 900;
    expires_at = 900000000020;
  };
  user = record {
    id = 1;
    email = "ann@example.com";
    first_name = "Ann";
    last_name = "Lee";
    avatar_url = none;
    status = "active";
    email_verified_at = none;
    last_login_at = none;
    created_at = 0;
  };
}

accepts : (refresh cfg "new" meta start).0 ≡ ok answer
unfolding refresh team_flow.Exec.◌>>=◌ team_flow.Exec.transaction team_flow.Exec.statement
    get_refresh_token_by_hash team_flow.Prelude.find team_flow.Exec.now
    team_flow.Database.Users.get_user_by_id team_flow.Exec.new_id
    team_flow.Database.RefreshTokens.create_refresh_token team_flow.Prelude.any
    team_flow.Database.RefreshTokens.revoke_refresh_token
accepts = refl

refresh-once_example : ¬ ((refresh cfg "new" meta (refresh cfg "new" meta start).1).0 ≡ ok answer)
refresh-once_example =
    refresh-once cfg "new" meta start answer answer meta (refresh cfg "new" meta start).1 accepts
      refl

refresh-Replaced_example :
    (user : User) × (i : IssuedRefresh) × Replaced cfg "new" user i start
      (refresh cfg "new" meta start).1.db
    × ("twelve" ≡ i.raw)
    × (answer.user ≡ user_dto user)
refresh-Replaced_example =
    refresh-Replaced cfg "new" meta start answer (refresh cfg "new" meta start).1
      (ap (λ (r : Result AuthResult). (r, (refresh cfg "new" meta start).1)) accepts)

old_found :
    find (has_hash (cfg.hash_token "old")) one_session.refresh_tokens
    ≡ some (token 3 "h-old" (some 5))
unfolding find
old_found = refl

abbrev two_sessions : Db
two_sessions = record one_session {
  refresh_tokens =
      token 3 "h-old" (some 5)
      ∷ token 4 "h-new" none
      ∷ (record (token 5 "h-else" none) { family_id = 7 })
      ∷ [];
}

old_found_beside :
    find (has_hash (cfg.hash_token "old")) two_sessions.refresh_tokens
    ≡ some (token 3 "h-old" (some 5))
unfolding find
old_found_beside = refl

new_found :
    find (has_hash (cfg.hash_token "new")) one_session.refresh_tokens ≡ some (token 4 "h-new" none)
unfolding find
new_found = refl

refresh-reuse_example :
    ((refresh cfg "old" meta start).0 ≡ err (sentinel unauthorized))
    × (live_tokens 2 (refresh cfg "old" meta start).1.db ≡ 0)
refresh-reuse_example =
    refresh-reuse cfg "old" meta one_session 10 20 (token 3 "h-old" (some 5)) old_found refl

refresh-reuse_spares_example :
    outside 2 (refresh cfg "old" meta (calm two_sessions 10 20)).1.db ≡ outside 2 two_sessions
refresh-reuse_spares_example =
    refresh-reuse_spares cfg "old" meta two_sessions 10 20 (token 3 "h-old" (some 5))
      old_found_beside refl

logs_out_ok : (logout cfg "old" start).0 ≡ ok tt
unfolding logout team_flow.Exec.statement get_refresh_token_by_hash find team_flow.Exec.or_fail
    team_flow.Database.RefreshTokens.revoke_refresh_token_family
logs_out_ok = refl

logout-ends_example : ¬ ((refresh cfg "new" meta (logout cfg "old" start).1).0 ≡ ok answer)
logout-ends_example =
    logout-ends cfg "new" "old" meta start (logout cfg "old" start).1 (token 3 "h-old" (some 5))
      (token 4 "h-new" none) answer old_found new_found refl logs_out_ok refl

all_out_ok : (logout_all cfg 1 start).0 ≡ ok tt
unfolding logout_all team_flow.Exec.or_fail team_flow.Exec.statement
    team_flow.Database.RefreshTokens.revoke_all_user_refresh_tokens
all_out_ok = refl

logout_all-ends_example : ¬ ((refresh cfg "new" meta (logout_all cfg 1 start).1).0 ≡ ok answer)
logout_all-ends_example =
    logout_all-ends cfg "new" 1 meta start (logout_all cfg 1 start).1 (token 4 "h-new" none) answer
      new_found refl all_out_ok refl

-- Ann logs in and refreshes: one token of her family can be exchanged.
one_is_live :
    live_tokens 12
      (serve_sessions cfg
        (λ s. s)
        str_eq
        (logs_in (record { email = "ann@example.com"; password = "secret" }) meta
          ∷ refreshes "first" meta
          ∷ [])
        (calm (record empty { users = ann ∷ [] }) 10 20)).db
    ≡ 1
unfolding team_flow.Prelude.count_where serve_sessions refresh team_flow.Exec.◌>>=◌
    team_flow.Exec.transaction login team_flow.Exec.statement
    team_flow.Database.Users.get_user_by_email find team_flow.Database.Users.update_user_last_login
    team_flow.Exec.new_id team_flow.Exec.now team_flow.Database.RefreshTokens.create_refresh_token
    team_flow.Prelude.any team_flow.Prelude.update_where get_refresh_token_by_hash
    team_flow.Database.Users.get_user_by_id team_flow.Database.RefreshTokens.revoke_refresh_token
    team_flow.Exec.or_fail
one_is_live = refl

-- She presents the old token again, and logs out.
serve_sessions-one_live_example :
    live_tokens 12
      (serve_sessions cfg
        (λ s. s)
        str_eq
        (logs_in (record { email = "ann@example.com"; password = "secret" }) meta
          ∷ refreshes "first" meta
          ∷ refreshes "first" meta
          ∷ logs_out "second"
          ∷ [])
        (calm (record empty { users = ann ∷ [] }) 10 20)).db
    ≤ 1
serve_sessions-one_live_example =
    serve_sessions-one_live cfg (λ s. s) str_eq
      (logs_in (record { email = "ann@example.com"; password = "secret" }) meta
        ∷ refreshes "first" meta
        ∷ refreshes "first" meta
        ∷ logs_out "second"
        ∷ [])
      (calm (record empty { users = ann ∷ [] }) 10 20) 12 refl

-- ===== src/Auth/OneLive.antt =====
-- internal/auth/service.go: at any time a family has at most one token that can be exchanged.
use team_flow.Prelude.{
  ℕ, suc, ◌≤◌, ◌≡◌, refl, ap, String, Bool, List, [], ◌∷◌, Option, find, count_where, ◌==◌, str_eq,
  arith,
}
use team_flow.Httpx.Errors.{wrap}
use team_flow.Database.Tables.{Db, RefreshToken}
use team_flow.Database.RefreshTokens.{
  has_hash, in_family, revoke_where, get_refresh_token_by_hash, revoke_refresh_token_family,
  revoke_all_user_refresh_tokens,
}
use team_flow.Database.Users.{get_user_by_id, get_user_by_email, update_user_last_login}
use team_flow.Exec.{World, Query, Result, ok, err, statement}
use team_flow.Exec.Keeps.{
  Keeps, Keeps-bind, Keeps-pure, Keeps-require, Keeps-or_fail, Keeps-statement,
}
use team_flow.Auth.Tokens.{AuthConfig, LoginInput, RequestMeta}
use team_flow.Auth.Sessions.{logout, logout_all, login, logged_out, current_user, end_family}
use team_flow.Database.Rows.{one}
use team_flow.Database.Runs.{one-ok}
use team_flow.Auth.Requests.{
  SessionRequest, logs_in, refreshes, logs_out, logs_out_all, asks_user, starts_session,
  serve_session, serve_sessions,
}
use team_flow.Auth.Families.{Families, Families-others, Families-revoke_where, live_tokens}
use team_flow.Auth.Exchange.{mono, refresh-Keeps}
use team_flow.Auth.Issue.{start_session-Keeps}

-- A statement on another table, one that reads a row, one that revokes.
other_table-Keeps :
    {A : Type 0} (q : Query A)
    → ((next now : ℕ) (d d' : Db) (a : A)
        → q next now d ≡ ok (a, d')
        → d'.refresh_tokens ≡ d.refresh_tokens)
    → Keeps Families (statement q)
other_table-Keeps q same = Keeps-statement Families q mono λ next now d d' a inv h.
    mono next (suc next) d' (Families-others next d d' inv (same next now d d' a h)) (omega arith)

read_one-Keeps :
    {A : Type 0} (pick : Db → Option A) → Keeps Families (statement (λ next now d. one (pick d) d))
read_one-Keeps pick =
    other_table-Keeps (λ next now d. one (pick d) d)
      λ next now d d' a h. ap (λ (z : Db). z.refresh_tokens) (one-ok (pick d) d d' a h).1

revoke-Keeps :
    (hit : RefreshToken → Bool)
    → Keeps Families (statement (λ next now d. ok (tt {0}, revoke_where hit now d)))
revoke-Keeps hit =
    Keeps-statement Families (λ next now d. ok (tt {0}, revoke_where hit now d)) mono
      λ next now d d' x inv h.
        let written : d' ≡ revoke_where hit now d = ground arith in
        rw written (mono next (suc next) _ (Families-revoke_where hit now next d inv) (omega arith))

logged_out-Keeps : (cfg : AuthConfig) (r : Result RefreshToken) → Keeps Families (logged_out cfg r)
unfolding end_family revoke_refresh_token_family
logged_out-Keeps cfg (ok stored) =
    Keeps-or_fail Families wrap _ (revoke-Keeps (in_family stored.family_id))
logged_out-Keeps cfg (err e) = record { at = λ w inv. ground arith }

logout-Keeps : (cfg : AuthConfig) (raw : String) → Keeps Families (logout cfg raw)
unfolding logout get_refresh_token_by_hash
logout-Keeps cfg raw = record {
  at = λ w inv.
      (logged_out-Keeps cfg _).at _
        ((read_one-Keeps λ d. find (has_hash (cfg.hash_token raw)) d.refresh_tokens).at w inv);
}

logout_all-Keeps : (cfg : AuthConfig) (user_id : ℕ) → Keeps Families (logout_all cfg user_id)
unfolding logout_all revoke_all_user_refresh_tokens
logout_all-Keeps cfg user_id =
    Keeps-or_fail Families wrap _ (revoke-Keeps λ t. t.user_id == user_id)

current_user-Keeps : (cfg : AuthConfig) (user_id : ℕ) → Keeps Families (current_user cfg user_id)
unfolding current_user get_user_by_id
current_user-Keeps cfg user_id =
    Keeps-bind Families _ _
      (Keeps-or_fail Families _ _ (read_one-Keeps λ d. find (λ u. u.id == user_id) d.users))
      λ user. Keeps-pure Families _

update_user_last_login-Keeps : (id : ℕ) → Keeps Families (statement (update_user_last_login id))
unfolding update_user_last_login
update_user_last_login-Keeps id =
    other_table-Keeps (update_user_last_login id) λ next now d d' x h. ground arith

login-Keeps :
    (cfg : AuthConfig) (fold : String → String) (verify_password : String → String → Bool)
    (input : LoginInput) (meta : RequestMeta)
    → Keeps Families (login cfg fold verify_password input meta)
unfolding login get_user_by_email
login-Keeps cfg fold verify_password input meta =
    Keeps-bind Families _ _
      (Keeps-or_fail Families _ _
        (read_one-Keeps λ d. find (λ u. str_eq (fold u.email) (fold input.email)) d.users))
      λ user. Keeps-bind Families _ _ (Keeps-require Families _ _) λ x.
        Keeps-bind Families _ _ (Keeps-require Families _ _) λ y.
          Keeps-bind Families _ _
            (Keeps-or_fail Families _ _ (update_user_last_login-Keeps user.id))
            λ z.
              Keeps-bind Families _ _ (start_session-Keeps cfg user.id meta)
                λ tokens. Keeps-pure Families _

no_tokens : (next : ℕ) (d : Db) → d.refresh_tokens ≡ [] → Families next d
unfolding count_where
no_tokens next d h = record { once = λ k. rw h (omega arith); unused = λ k p. rw h refl }

module _ (cfg : AuthConfig) (fold : String → String)
    (verify_password : String → String → Bool) where
  serve_session-Keeps :
      (r : SessionRequest) (w : World)
      → Families w.next_id w.db
      → Families
          (serve_session cfg fold verify_password r w).next_id
          (serve_session cfg fold verify_password r w).db
  unfolding serve_session
  serve_session-Keeps (logs_in input meta) = (login-Keeps cfg fold verify_password input meta).at
  serve_session-Keeps (refreshes raw meta) = (refresh-Keeps cfg raw meta).at
  serve_session-Keeps (logs_out raw) = (logout-Keeps cfg raw).at
  serve_session-Keeps (logs_out_all user_id) = (logout_all-Keeps cfg user_id).at
  serve_session-Keeps (asks_user user_id) = (current_user-Keeps cfg user_id).at
  serve_session-Keeps (starts_session user_id meta) = (start_session-Keeps cfg user_id meta).at

  serve_sessions-Keeps :
      (rs : List SessionRequest) (w : World)
      → Families w.next_id w.db
      → Families
          (serve_sessions cfg fold verify_password rs w).next_id
          (serve_sessions cfg fold verify_password rs w).db
  unfolding serve_sessions
  serve_sessions-Keeps [] w inv = inv
  serve_sessions-Keeps (r ∷ rs) w inv = serve_sessions-Keeps rs _ (serve_session-Keeps r w inv)

  -- From rows with no refresh token, and whatever requests on sessions follow and whichever round
  -- trips fail, every family has at most one token that can be exchanged.
  pub serve_sessions-one_live :
      (rs : List SessionRequest) (w : World) (family_id : ℕ)
      → w.db.refresh_tokens ≡ []
      → live_tokens family_id (serve_sessions cfg fold verify_password rs w).db ≤ 1
  serve_sessions-one_live rs w family_id none_yet =
      (serve_sessions-Keeps rs w (no_tokens w.next_id w.db none_yet)).once family_id

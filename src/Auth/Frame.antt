-- ===== src/Auth/Frame.antt =====
-- internal/auth/service.go: IssueSession writes refresh tokens and nothing else.
use team_flow.Prelude.{ℕ, suc, ◌≤◌, String, List, [], ◌∷◌, ◌++◌, Option, arith}
use team_flow.Httpx.Errors.{wrap}
use team_flow.Database.Tables.{Db, RefreshToken}
use team_flow.Database.RefreshTokens.{create_refresh_token as insert_refresh_token}
use team_flow.Exec.{statement, now, new_id}
use team_flow.Exec.Grows.{Grows, grows_rules}
use team_flow.Exec.Keeps.{
  Keeps, Keeps-bind, Keeps-pure, Keeps-or_fail, Keeps-Reads, Keeps-statement, Keeps-now,
  Keeps-new_id,
}
use team_flow.Auth.Tokens.{
  AuthConfig, RequestMeta, create_refresh_token, generate_refresh_token, token_pair, issue_session,
}
use team_flow.Auth.Sessions.{start_session}
use team_flow.Auth.Families.{insert-live}
use team_flow.Auth.Exchange.{token_pair-Reads, token_pair-Grows}
use team_flow.Auth.Issue.{generate-Reads}

generate-Grows : (cfg : AuthConfig) → Grows (generate_refresh_token cfg)
unfolding generate_refresh_token
generate-Grows cfg = search grows_rules depth 5

-- What is kept by any change of the refresh tokens is kept by the start of a session.
module _ (P : ℕ → Db → Type 0) (mono : (n n' : ℕ) (d : Db) → P n d → n ≤ n' → P n' d)
    (others : (n : ℕ) (d : Db) (ts : List RefreshToken)
      → P n d
      → P n (record d { refresh_tokens = ts }))
    (cfg : AuthConfig) where
  insert-Keeps :
      (user_id family_id : ℕ) (hash : String) (expires_at : ℕ) (agent address : Option String)
      → Keeps P (statement (insert_refresh_token user_id family_id hash expires_at agent address))
  insert-Keeps user_id family_id hash expires_at agent address =
      Keeps-statement P (insert_refresh_token user_id family_id hash expires_at agent address) mono
        λ next now d d' t p h.
          let (written, _t) =
            insert-live user_id family_id hash expires_at agent address next now d d' t h in
          rw written (
            others (suc next) d (d.refresh_tokens ++ t ∷ [])
              (mono next (suc next) d p (omega arith)))

  create_refresh_token-Keeps :
      (user_id family_id : ℕ) (meta : RequestMeta)
      → Keeps P (create_refresh_token cfg user_id family_id meta)
  unfolding create_refresh_token
  create_refresh_token-Keeps user_id family_id meta =
      Keeps-bind P (generate_refresh_token cfg) _
        (Keeps-Reads P (generate_refresh_token cfg) mono (generate-Reads cfg) (generate-Grows cfg))
        λ raw. Keeps-bind P now _ (Keeps-now P mono) λ at.
          Keeps-bind P _ _ (Keeps-or_fail P wrap _ (insert-Keeps user_id family_id _ _ _ _))
            λ row. Keeps-pure P _

  pub start_session-Keeps :
      (user_id : ℕ) (meta : RequestMeta) → Keeps P (start_session cfg user_id meta)
  unfolding start_session issue_session
  start_session-Keeps user_id meta = Keeps-bind P new_id _ (Keeps-new_id P mono) λ family_id.
      Keeps-bind P (create_refresh_token cfg user_id family_id meta) _
        (create_refresh_token-Keeps user_id family_id meta)
        λ refresh.
          Keeps-Reads P (token_pair cfg user_id refresh.raw) mono
            (token_pair-Reads cfg user_id refresh.raw) (token_pair-Grows cfg user_id refresh.raw)

pub start_session-Grows :
    (cfg : AuthConfig) (user_id : ℕ) (meta : RequestMeta) → Grows (start_session cfg user_id meta)
start_session-Grows cfg user_id meta = record {
  at = λ w.
      (start_session-Keeps (λ n d. w.next_id ≤ n) (λ n n' d p q. omega arith) (λ n d ts p. p) cfg
          user_id meta).at
        w (omega arith);
}

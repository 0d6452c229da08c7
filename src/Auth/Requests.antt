-- ===== src/Auth/Requests.antt =====
-- internal/auth/handler.go and routes.go: the requests on sessions, with what a handler has decoded,
-- and a server that answers them one after the other.
use team_flow.Prelude.{ℕ, String, Bool, List, [], ◌∷◌}
use team_flow.Exec.{World}
use team_flow.Auth.Tokens.{AuthConfig, LoginInput, RequestMeta}
use team_flow.Auth.Sessions.{login, refresh, logout, logout_all, current_user, start_session}

pub data SessionRequest : Type 0 where
  logs_in : (input : LoginInput) → (meta : RequestMeta) → SessionRequest
  refreshes : (raw : String) → (meta : RequestMeta) → SessionRequest
  logs_out : (raw : String) → SessionRequest
  logs_out_all : (user_id : ℕ) → SessionRequest
  asks_user : (user_id : ℕ) → SessionRequest
  starts_session : (user_id : ℕ) → (meta : RequestMeta) → SessionRequest

module _ (cfg : AuthConfig) (fold : String → String)
    (verify_password : String → String → Bool) where
  -- The world after one request, whatever its answer.
  unfoldable pub serve_session : SessionRequest → World → World
  serve_session (logs_in input meta) w = (login cfg fold verify_password input meta w).1
  serve_session (refreshes raw meta) w = (refresh cfg raw meta w).1
  serve_session (logs_out raw) w = (logout cfg raw w).1
  serve_session (logs_out_all user_id) w = (logout_all cfg user_id w).1
  serve_session (asks_user user_id) w = (current_user cfg user_id w).1
  serve_session (starts_session user_id meta) w = (start_session cfg user_id meta w).1

  unfoldable pub serve_sessions : List SessionRequest → World → World
  unfolding serve_session
  serve_sessions [] w = w
  serve_sessions (r ∷ rs) w = serve_sessions rs (serve_session r w)

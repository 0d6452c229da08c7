-- ===== src/Invitations/Requests.antt =====
-- internal/invitations/routes.go and the job handlers: the requests and jobs that reach the service,
-- with their decoded arguments, and a server that takes them one after the other.
use team_flow.Prelude.{ℕ, String, List, [], ◌∷◌}
use team_flow.Exec.{World, EmailJob}
use team_flow.Auth.Tokens.{AuthConfig, RequestMeta}
use team_flow.Invitations.Model.{InviteConfig, CreateInput, AcceptInput}
use team_flow.Invitations.Manage.{create, resend, revoke, preview}
use team_flow.Invitations.Accept.{accept}
use team_flow.Invitations.Delivery.{email_job, redeliver_job}

pub data InviteRequest : Type 0 where
  invites : (user_id org_id : ℕ) → (input : CreateInput) → InviteRequest
  resends : (user_id org_id id : ℕ) → InviteRequest
  revokes : (user_id org_id id : ℕ) → InviteRequest
  previews : (token : String) → InviteRequest
  accepts : (user_id : ℕ) → (input : AcceptInput) → (meta : RequestMeta) → InviteRequest
  delivers : (job : EmailJob) → InviteRequest
  redelivers : (only : ℕ) → InviteRequest

module _ (cfg : InviteConfig) (auth : AuthConfig) where
  -- The world after one request, whatever its answer.
  unfoldable pub serve_invite : InviteRequest → World → World
  serve_invite (invites user_id org_id input) w = (create cfg user_id org_id input w).1
  serve_invite (resends user_id org_id id) w = (resend cfg user_id org_id id w).1
  serve_invite (revokes user_id org_id id) w = (revoke user_id org_id id w).1
  serve_invite (previews token) w = (preview cfg token w).1
  serve_invite (accepts user_id input meta) w = (accept cfg auth user_id input meta w).1
  serve_invite (delivers job) w = (email_job cfg job w).1
  serve_invite (redelivers only) w = (redeliver_job cfg only w).1

  unfoldable pub serve_invites : List InviteRequest → World → World
  unfolding serve_invite
  serve_invites [] w = w
  serve_invites (r ∷ rs) w = serve_invites rs (serve_invite r w)

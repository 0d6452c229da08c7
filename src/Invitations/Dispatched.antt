-- ===== src/Invitations/Dispatched.antt =====
-- internal/invitations/service.go: what stamping an invitation as notified keeps, its dispatch keeps.
use team_flow.Prelude.{ℕ, ◌≤◌, String}
use team_flow.Httpx.Errors.{driver}
use team_flow.Database.Tables.{Db, Invitation}
use team_flow.Database.Invitations.{mark_invitation_notified}
use team_flow.Exec.{Action, Result, ok, err, statement}
use team_flow.Exec.Grows.{grows_rules}
use team_flow.Exec.Keeps.{
  Keeps, Keeps-bind, Keeps-pure, Keeps-fail, Keeps-if, Keeps-inspect, Keeps-send, Keeps-enqueue,
  Keeps-tenant_tx,
}
use team_flow.Invitations.Model.{InviteConfig}
use team_flow.Invitations.Delivery.{
  log_error, send_invitation_email, mark_notified, deliver_inline, or_inline, enqueue_email,
  dispatch_email,
}

pub log_error-Keeps :
    (P : ℕ → Db → Type 0) {A : Type 0} (m : Action A) → Keeps P m → Keeps P (log_error m)
unfolding log_error
log_error-Keeps P m h = record { at = h.at }

module _ (P : ℕ → Db → Type 0) (later : (n n' : ℕ) (d : Db) → P n d → n ≤ n' → P n' d)
    (stamped : (id org_id : ℕ) → Keeps P (statement (mark_invitation_notified id org_id)))
    (cfg : InviteConfig) where
  pub mark_notified-Keeps : (id org_id : ℕ) → Keeps P (mark_notified cfg id org_id)
  unfolding mark_notified
  mark_notified-Keeps id org_id =
      Keeps-tenant_tx P later org_id _ (search grows_rules depth 5) (stamped id org_id)

  pub send-Keeps : (i : Invitation) (token : String) → Keeps P (send_invitation_email cfg i token)
  unfolding send_invitation_email
  send-Keeps i token = log_error-Keeps P _ (Keeps-send P later _)

  inline-Keeps : (i : Invitation) (token : String) → Keeps P (deliver_inline cfg i token)
  unfolding deliver_inline
  inline-Keeps i token =
      Keeps-bind P (send_invitation_email cfg i token) _ (send-Keeps i token)
        λ x. log_error-Keeps P _ (mark_notified-Keeps i.id i.organization_id)

  pub enqueue-Keeps : (i : Invitation) (token : String) → Keeps P (enqueue_email cfg i token)
  unfolding enqueue_email
  enqueue-Keeps i token =
      Keeps-if P cfg.has_queue _ _ (Keeps-enqueue P later _) (Keeps-fail P driver)

  pub dispatch-Keeps : (i : Invitation) (token : String) → Keeps P (dispatch_email cfg i token)
  unfolding dispatch_email
  dispatch-Keeps i token =
      Keeps-if P cfg.has_queue _ _
        (Keeps-inspect P _ (λ r. or_inline cfg r i token) (enqueue-Keeps i token) answered)
        (inline-Keeps i token)
    where
      answered : (r : Result (Unit {0})) → Keeps P (or_inline cfg r i token)
      answered (ok x) = Keeps-pure P tt
      answered (err e) = inline-Keeps i token

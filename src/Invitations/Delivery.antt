-- ===== src/Invitations/Delivery.antt =====
-- How an invitation's link reaches its address: dispatchEmail, deliverInline and sendInvitationEmail of
-- internal/invitations/service.go, and the job handlers of job.go.
use team_flow.Prelude.{ℕ, ◌-◌, String, ◌||◌, Option, none, some, List, ◌==◌, str_eq, if◌then◌else◌}
use team_flow.Httpx.Errors.{Error, driver, wrap, is_no_rows}
use team_flow.Database.Tables.{Invitation}
use team_flow.Database.Roles.{get_role_by_id}
use team_flow.Database.Organizations.{get_organization_by_id, list_active_organization_ids}
use team_flow.Database.Invitations.{
  get_invitation_by_id, get_invitation_by_id_for_job, mark_invitation_notified,
  rotate_invitation_for_delivery, list_undelivered_invitations, is_pending,
}
use team_flow.Exec.{
  Action, Result, ok, err, ◌>>=◌, ◌>>◌, pure, fail, lift, or_fail, inspect, for_each, statement,
  with_tenant_tx, now, EmailJob, send, enqueue,
}
use team_flow.Invitations.Model.{InviteConfig, generate_token, accept_url}

-- `if err := …; err != nil { log }`
unfoldable pub log_error : {A : Type 0} → Action A → Action (Unit {0})
log_error m w = (ok tt, (m w).1)

-- What `jobs.Permanent` marks is kept beside the error: a handler's answer.
pub data Outcome : Type 0 where
  done : Outcome
  retry : Error → Outcome
  permanent : Outcome

module _ (cfg : InviteConfig) where
  -- `sendInvitationEmail`: a failure is logged.
  unfoldable pub send_invitation_email : Invitation → String → Action (Unit {0})
  unfolding log_error accept_url send
  send_invitation_email i token = log_error (
      send (record {
        to = i.email;
        link = accept_url cfg token;
        invitation_id = i.id;
        organization_id = i.organization_id;
        expires_at = i.expires_at;
      }))

  unfoldable pub mark_notified : ℕ → ℕ → Action (Unit {0})
  mark_notified id org_id = with_tenant_tx org_id (statement (mark_invitation_notified id org_id))

  -- `deliverInline`
  unfoldable pub deliver_inline : Invitation → String → Action (Unit {0})
  unfolding send_invitation_email mark_notified log_error
  deliver_inline i token =
      send_invitation_email i token >>= λ _. log_error (mark_notified i.id i.organization_id)

  -- `enqueueEmail`: without a queue an error that has no code.
  unfoldable pub enqueue_email : Invitation → String → Action (Unit {0})
  unfolding enqueue
  enqueue_email i token =
      if cfg.has_queue
      then enqueue (record { invitation_id = i.id; token = token })
      else fail driver

  abbrev pub or_inline : Result (Unit {0}) → Invitation → String → Action (Unit {0})
  or_inline (ok x) i token = pure tt
  or_inline (err e) i token = deliver_inline i token

  -- `dispatchEmail`
  unfoldable pub dispatch_email : Invitation → String → Action (Unit {0})
  unfolding deliver_inline enqueue_email inspect
  dispatch_email i token =
      if cfg.has_queue
      then inspect (enqueue_email i token) (λ r. or_inline r i token)
      else deliver_inline i token

  -- `deliveryTarget`
  unfoldable pub delivery_target : ℕ → Action Invitation
  delivery_target id = do
    row ← statement (get_invitation_by_id_for_job id)
    with_tenant_tx row.organization_id do
      i ← statement (get_invitation_by_id id row.organization_id)
      or_fail wrap (statement (get_organization_by_id i.organization_id))
      statement (get_role_by_id i.role_id i.organization_id)
      pure i

  -- The rest of the handler, where the invitation is known or not.
  abbrev pub deliver : Result Invitation → EmailJob → Action Outcome
  deliver (err e) job = if is_no_rows e then pure done else pure (retry e)
  deliver (ok i) job =
      if is_pending i
      then (do
        send_invitation_email i job.token
        log_error (mark_notified job.invitation_id i.organization_id)
        pure done)
      else pure done

  -- `EmailJobHandler`, for a payload that was decoded.
  unfoldable pub email_job : EmailJob → Action Outcome
  unfolding delivery_target send_invitation_email mark_notified log_error inspect
  email_job job =
      if job.invitation_id == 0 || str_eq job.token ""
      then pure permanent
      else inspect (delivery_target job.invitation_id) (λ r. deliver r job)

  -- `undeliveredInvitations`: no attempt yet, and older than two minutes.
  unfoldable pub undelivered_invitations : ℕ → Action (List Invitation)
  undelivered_invitations org_id = or_fail wrap (
      with_tenant_tx org_id
        (now >>= λ at. statement (list_undelivered_invitations 0 (at - 120000000000) org_id 100)))

  abbrev pub rotation : Result Invitation → Result (Option Invitation)
  rotation (ok i) = ok (some i)
  rotation (err e) = if is_no_rows e then ok none else err e

  -- A row that is no longer undelivered is left alone.
  unfoldable pub rotate_for_delivery : ℕ → ℕ → String → Action (Option Invitation)
  unfolding inspect
  rotate_for_delivery id org_id token = with_tenant_tx org_id (
      inspect (statement (rotate_invitation_for_delivery id org_id (cfg.hash_token token)))
        (λ r. lift (rotation r)))

  abbrev pub enqueue_rotated : Option Invitation → String → Action (Unit {0})
  enqueue_rotated none token = pure tt
  enqueue_rotated (some i) token = enqueue_email i token

  -- One round of the inner loop of `RedeliverJobHandler`.
  unfoldable pub redeliver : ℕ → Invitation → Action (Unit {0})
  unfolding generate_token rotate_for_delivery enqueue_email
  redeliver org_id row = do
    token ← generate_token cfg
    rotated ← rotate_for_delivery row.id org_id token
    enqueue_rotated rotated token

  unfoldable pub redeliver_organization : ℕ → Action (Unit {0})
  unfolding undelivered_invitations redeliver for_each
  redeliver_organization org_id =
      undelivered_invitations org_id >>= λ rows. for_each (redeliver org_id) rows

  -- `RedeliverJobHandler`, for a payload that was decoded; 0 stands for every organization.
  unfoldable pub redeliver_job : ℕ → Action (Unit {0})
  unfolding redeliver_organization for_each
  redeliver_job only =
      if only == 0
      then (or_fail wrap (statement (list_active_organization_ids 1000)) >>= λ ids.
          for_each redeliver_organization ids)
      else redeliver_organization only

-- ===== src/Invitations/Mailed.antt =====
-- internal/invitations/job.go: what EmailJobHandler does while no round trip fails.
use team_flow.Prelude.{
  Bool-cases, inl, inr, arith, ==_refl, find-holds, ℕ, suc, ◌≡◌, refl, Bool, true, false, ◌||◌,
  some, List, [], ◌∷◌, find, update_where, ◌==◌, str_eq,
}
use team_flow.Database.Tables.{Db, Invitation, Organization, Role}
use team_flow.Database.Rows.{one}
use team_flow.Database.Roles.{role_key, get_role_by_id}
use team_flow.Database.Organizations.{get_organization_by_id}
use team_flow.Database.Invitations.{
  get_invitation_by_id, get_invitation_by_id_for_job, invitation_key, is_pending,
  mark_invitation_notified,
}
use team_flow.Exec.{
  EmailJob, ok, ◌>>=◌, or_fail, inspect, statement, transaction, rollback_on_error, with_tenant_tx,
  round_trip, run, send,
}
use team_flow.Exec.Calm.{calm}
use team_flow.Invitations.Model.{InviteConfig}
use team_flow.Invitations.Sent.{message}
use team_flow.Invitations.Delivery.{
  done, delivery_target, email_job, log_error, send_invitation_email, mark_notified,
}

-- The first row that passes a test is the first that passes a narrower one, if it does.
narrower :
    {A : Type 0} (p q : A → Bool) (xs : List A) (a : A)
    → find p xs ≡ some a
    → q a ≡ true
    → ((x : A) → q x ≡ true → p x ≡ true)
    → find q xs ≡ some a
unfolding find
narrower p q [] a h k n = ground arith
narrower p q (x ∷ xs) a h k n = elim (Bool-cases (p x)) [
  | inl e ↦ (let same : x ≡ a = ground arith in rw same (rw k refl))
  | inr e ↦ elim (Bool-cases (q x)) [
    | inl f ↦ absurd (ground (arith, n x f))
    | inr f ↦ rw f (narrower p q xs a (ground arith) k n)
  ]
]

module _ (cfg : InviteConfig) (job : EmailJob) (d : Db) (next clock : ℕ) (i : Invitation)
    (org : Organization) (role : Role) where
  target :
      find (λ x. x.id == job.invitation_id) d.invitations ≡ some i
      → find (invitation_key job.invitation_id i.organization_id) d.invitations ≡ some i
      → find (λ o. o.id == i.organization_id) d.organizations ≡ some org
      → find (role_key i.role_id i.organization_id) d.roles ≡ some role
      → delivery_target cfg job.invitation_id (calm d next clock)
        ≡ (ok i, calm d (suc (suc (suc (suc next)))) clock)
  unfolding delivery_target get_invitation_by_id_for_job get_invitation_by_id get_organization_by_id
      get_role_by_id with_tenant_tx transaction rollback_on_error statement round_trip run or_fail
      ◌>>=◌ one
  target a b c e = rw (a, b, c, e) refl

  -- While no round trip fails, the email job with a token, for a pending invitation that is the row with
  -- the identifier of the job, and whose organization and role are stored, sends one message, to the
  -- address of the invitation with a link for the token, and marks the invitation as notified.
  pub email_job-delivers :
      ((job.invitation_id == 0 || str_eq job.token "") ≡ false)
      → find (λ x. x.id == job.invitation_id) d.invitations ≡ some i
      → find (λ o. o.id == i.organization_id) d.organizations ≡ some org
      → find (role_key i.role_id i.organization_id) d.roles ≡ some role
      → is_pending i ≡ true
      → let w = calm d next clock in
        ((email_job cfg job w).0 ≡ ok done)
        × ((email_job cfg job w).1.sent ≡ message cfg i job.token ∷ [])
        × ((email_job cfg job w).1.db ≡ record d {
          invitations =
              update_where
                (invitation_key job.invitation_id i.organization_id)
                (λ x. record x { notified_at = some clock; updated_at = clock })
                d.invitations;
        })
  unfolding email_job inspect log_error send_invitation_email mark_notified mark_invitation_notified
      with_tenant_tx transaction rollback_on_error statement round_trip run or_fail ◌>>=◌ send
  email_job-delivers asked a c e pending =
      let hit = find-holds (λ x. x.id == job.invitation_id) d.invitations i a in
      let b =
        narrower (λ x. x.id == job.invitation_id)
          (invitation_key job.invitation_id i.organization_id) d.invitations i a
          (rw (hit, ==_refl i.organization_id) refl) (λ x h. ground arith) in
      rw (asked, target a b c e, pending) (refl, refl, refl)

-- ===== src/Invitations/Sent.antt =====
-- internal/invitations/job.go: what EmailJobHandler sends.
use team_flow.Prelude.{
  ℕ, ◌≡◌, refl, sym, ap, subst, ◌∙◌, String, true, ◌||◌, ◌⊎◌, inl, inr, some, ◌∷◌, find, ◌==◌,
  ==_iff, str_eq, Bool-cases, arith, find-holds,
}
use team_flow.Httpx.Errors.{Error, is_no_rows}
use team_flow.Database.Tables.{Db, Invitation}
use team_flow.Database.Roles.{get_role_by_id}
use team_flow.Database.Organizations.{get_organization_by_id}
use team_flow.Database.Invitations.{
  get_invitation_by_id, get_invitation_by_id_for_job, invitation_key, is_pending,
}
use team_flow.Database.Runs.{after_read, after_read_or_fail}
use team_flow.Exec.{
  World, Action, Result, ok, err, continue, ◌>>=◌, pure, or_fail, inspect, statement, settle,
  restore, next_fault, rollback_on_error, transaction, with_tenant_tx, round_trip, run, send, Query,
  Message, EmailJob,
}
use team_flow.Exec.Rules.{Returns, pure-Returns, with_tenant_tx-Returns}
use team_flow.Invitations.Model.{InviteConfig, accept_url}
use team_flow.Invitations.Delivery.{
  Outcome, done, log_error, send_invitation_email, mark_notified, delivery_target, deliver,
  email_job,
}

-- An action that hands nothing to the mail transport.
record Quiet {A : Type 0} (m : Action A) : Type 0 where
  at : (w : World) → (m w).1.sent ≡ w.sent

module _ {A : Type 0} where
  settle-sent : (r : Result (A × Db)) (w : World) → (settle r w).1.sent ≡ w.sent
  settle-sent (ok (a, d)) w = refl
  settle-sent (err e) w = refl

  restore-sent : (d : Db) (x : Result A × World) → (restore d x).1.sent ≡ x.1.sent
  restore-sent d (ok a, w) = refl
  restore-sent d (err e, w) = refl

  Quiet-run : (q : Query A) → Quiet (run q)
  unfolding run
  Quiet-run q = record { at = λ w. settle-sent (q w.next_id w.clock w.db) _ }

  Quiet-or_fail : (f : Error → Error) (m : Action A) → Quiet m → Quiet (or_fail f m)
  unfolding or_fail
  Quiet-or_fail f m h = record { at = h.at }

  Quiet-pure : (a : A) → Quiet (pure a)
  Quiet-pure a = record { at = λ w. refl }

  Quiet-rollback : (m : Action A) → Quiet m → Quiet (rollback_on_error m)
  unfolding rollback_on_error
  Quiet-rollback m h = record { at = λ w. restore-sent w.db (m w) ∙ h.at w }

Quiet-round_trip : Quiet round_trip
unfolding round_trip
Quiet-round_trip = record { at = λ w. refl }

module _ {A B : Type 0} where
  continue-sent :
      (r : Result A) (f : A → Action B) (w : World)
      → ((a : A) → Quiet (f a))
      → (continue r f w).1.sent ≡ w.sent
  continue-sent (ok a) f w h = (h a).at w
  continue-sent (err e) f w h = refl

  Quiet-bind :
      (m : Action A) (f : A → Action B) → Quiet m → ((a : A) → Quiet (f a)) → Quiet (m >>= f)
  unfolding ◌>>=◌
  Quiet-bind m f h k = record { at = λ w. continue-sent (m w).0 f (m w).1 k ∙ h.at w }

module _ {A : Type 0} where
  Quiet-statement : (q : Query A) → Quiet (statement q)
  unfolding statement
  Quiet-statement q = Quiet-bind round_trip (λ _. run q) Quiet-round_trip (λ _. Quiet-run q)

  Quiet-tenant_tx : (org_id : ℕ) (m : Action A) → Quiet m → Quiet (with_tenant_tx org_id m)
  unfolding with_tenant_tx transaction
  Quiet-tenant_tx org_id m h =
      let trip = Quiet-or_fail _ round_trip Quiet-round_trip in
      Quiet-rollback _ (
        Quiet-bind _ _ trip λ _.
          Quiet-bind _ _ (Quiet-bind _ _ trip λ _. h) λ a. Quiet-bind _ _ trip λ _. Quiet-pure a)

module _ (cfg : InviteConfig) where
  target-Quiet : (id : ℕ) → Quiet (delivery_target cfg id)
  unfolding delivery_target
  target-Quiet id = Quiet-bind _ _ (Quiet-statement _) λ row.
      Quiet-tenant_tx row.organization_id _ (
        Quiet-bind _ _ (Quiet-statement _) λ i.
          Quiet-bind _ _ (Quiet-or_fail _ _ (Quiet-statement _))
            λ org. Quiet-bind _ _ (Quiet-statement _) λ role. Quiet-pure i)

  notified-Quiet : (id org_id : ℕ) → Quiet (log_error (mark_notified cfg id org_id))
  unfolding log_error mark_notified
  notified-Quiet id org_id = record { at = (Quiet-tenant_tx org_id _ (Quiet-statement _)).at }

  -- The row that a delivery is for.
  target-found :
      (id : ℕ) (w : World) (i : Invitation) (v : World)
      → Returns (delivery_target cfg id) w i v
      → find (invitation_key id i.organization_id) w.db.invitations ≡ some i
  unfolding delivery_target get_invitation_by_id get_invitation_by_id_for_job get_organization_by_id
      get_role_by_id
  target-found id w i v h = after_read _ _ w refl h λ row w₁ d₁ n₁ p₁ k₁.
      let (x, u, r, sx, su) = with_tenant_tx-Returns row.organization_id _ w₁ i v k₁ in
      after_read _ _ x (sx.same_db ∙ d₁) r λ j w₂ d₂ n₂ p₂ k₂.
        after_read_or_fail _ _ _ w₂ d₂ k₂ λ org w₃ d₃ n₃ p₃ k₃.
          after_read _ _ w₃ d₃ k₃ λ role w₄ d₄ n₄ p₄ k₄.
            let same = (pure-Returns j w₄ i u k₄).0 in
            let hit = find-holds (invitation_key id row.organization_id) w.db.invitations j p₂ in
            let of_org : j.organization_id ≡ row.organization_id =
              (==_iff j.organization_id row.organization_id).0 (ground arith) in
            rw same
              (subst (λ o. find (invitation_key id o) w.db.invitations ≡ some j) (sym of_org) p₂)

  abbrev pub message : Invitation → String → Message
  message i token = record {
    to = i.email;
    link = accept_url cfg token;
    invitation_id = i.id;
    organization_id = i.organization_id;
    expires_at = i.expires_at;
  }

  -- The message of a pending invitation of that identifier, with a link for that token.
  pub record Invites (job : EmailJob) (d : Db) (m : Message) : Type 0 where
    pub invitation : Invitation
    pub found :
        find (invitation_key job.invitation_id invitation.organization_id) d.invitations
        ≡ some invitation
    pub pending : is_pending invitation ≡ true
    pub to_address : m.to ≡ invitation.email
    pub by_link : m.link ≡ accept_url cfg job.token

  -- Nothing is sent, or one message.
  abbrev pub AtMostOne : EmailJob → World → World → Type 0
  AtMostOne job w v =
      (v.sent ≡ w.sent) ⊎ ((m : Message) × Invites job w.db m × (v.sent ≡ m ∷ w.sent))

  send-sent :
      (i : Invitation) (token : String) (v : World)
      → ((send_invitation_email cfg i token v).1.sent ≡ v.sent)
        ⊎ ((send_invitation_email cfg i token v).1.sent ≡ message i token ∷ v.sent)
  unfolding send_invitation_email log_error send round_trip ◌>>=◌
  send-sent i token v = elim (Bool-cases (next_fault v.faults)) [
    | inl e ↦ inl (rw e refl)
    | inr e ↦ inr (rw e refl)
  ]

  -- The end of the job, after the message was handed over.
  abbrev ended : EmailJob → Invitation → Action Outcome
  ended job i = log_error (mark_notified cfg job.invitation_id i.organization_id) >>= λ _. pure done

  sent_then :
      (i : Invitation) (job : EmailJob) (v : World)
      → ((send_invitation_email cfg i job.token >>= λ _. ended job i) v).1.sent
        ≡ (ended job i (send_invitation_email cfg i job.token v).1).1.sent
  unfolding ◌>>=◌ send_invitation_email log_error
  sent_then i job v = refl

  delivered :
      (job : EmailJob) (w v : World) (r : Result Invitation)
      → v.sent ≡ w.sent
      → ((i : Invitation)
          → r ≡ ok i
          → find (invitation_key job.invitation_id i.organization_id) w.db.invitations ≡ some i)
      → AtMostOne job w (deliver cfg r job v).1
  delivered job w v (err e) same found = elim (Bool-cases (is_no_rows e)) [
    | inl k ↦ inl (rw k same)
    | inr k ↦ inl (rw k same)
  ]
  delivered job w v (ok i) same found = elim (Bool-cases (is_pending i)) [
    | inr k ↦ inl (rw k same)
    | inl k ↦
        let after =
          Quiet-bind (log_error (mark_notified cfg job.invitation_id i.organization_id))
            (λ _. pure done) (notified-Quiet job.invitation_id i.organization_id)
            (λ _. Quiet-pure done) in
        let rest = after.at (send_invitation_email cfg i job.token v).1 in
        elim (send-sent i job.token v) [
          | inl s ↦ inl (rw k (sent_then i job v ∙ rest ∙ s ∙ same))
          | inr s ↦ inr (
            message i job.token,
            record {
              invitation = i;
              found = found i refl;
              pending = k;
              to_address = refl;
              by_link = refl;
            },
            rw k (sent_then i job v ∙ rest ∙ s ∙ ap (λ z. message i job.token ∷ z) same),
          )
        ]
  ]

  -- The email job sends nothing, or one message: to the address of the invitation that it names, which
  -- is stored and pending, with a link for its own token, whichever round trips fail.
  pub email_job-AtMostOne : (job : EmailJob) (w : World) → AtMostOne job w (email_job cfg job w).1
  unfolding email_job inspect
  email_job-AtMostOne job w = elim (Bool-cases (job.invitation_id == 0 || str_eq job.token "")) [
    | inl e ↦ inl (rw e refl)
    | inr e ↦
        let v = (delivery_target cfg job.invitation_id w).1 in
        rw e (
          delivered job w v (delivery_target cfg job.invitation_id w).0
            ((target-Quiet job.invitation_id).at w)
            λ i k. target-found job.invitation_id w i v (ap (λ z. (z, v)) k))
  ]

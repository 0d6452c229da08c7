-- ===== src/Invitations/Served.antt =====
-- internal/invitations: whatever requests and jobs are served, every membership that is added has an
-- accepted invitation of its own, and an address has one invitation pending in an organization.
use team_flow.Prelude.{
  sym, append-nil, ℕ, ◌≤◌, ◌≡◌, refl, String, Option, none, some, List, [], ◌∷◌, ◌==◌, count_where,
  arith, if◌then◌else◌, trim_space, inl, inr,
}
use team_flow.Httpx.Errors.{wrap, is_no_rows}
use team_flow.Database.Tables.{Db, Membership, Invitation, User, RefreshToken}
use team_flow.Database.Roles.{get_role_by_id}
use team_flow.Database.Organizations.{get_organization_by_id, list_active_organization_ids}
use team_flow.Database.Invitations.{
  get_invitation_by_id, get_invitation_by_token_hash, get_invitation_by_id_for_job,
  list_undelivered_invitations, is_pending, is_pending_for,
}
use team_flow.Exec.{
  World, Action, Result, ok, err, fail, lift, or_fail, statement, now, new_id, EmailJob,
}
use team_flow.Exec.Rules.{Returns}
use team_flow.Exec.Grows.{
  Grows, Grows-bind, Grows-inspect, Grows-statement, Grows-if, grows_rules, Returns-next,
}
use team_flow.Exec.Keeps.{
  Keeps, Keeps-bind, Keeps-pure, Keeps-fail, Keeps-lift, Keeps-or_fail, Keeps-require,
  Keeps-inspect, Keeps-if, Keeps-for_each, Keeps-read, Keeps-now, Keeps-new_id, Keeps-tenant_tx,
  Keeps-tenant_tx_by,
}
use team_flow.Auth.Tokens.{AuthConfig, RequestMeta}
use team_flow.Auth.Sessions.{start_session}
use team_flow.Auth.Frame.{start_session-Keeps}
use team_flow.Invitations.Model.{
  InviteConfig, AcceptInput, token_unknown, role_missing, invitation_missing, is_usable, unusable,
}
use team_flow.Invitations.Delivery.{
  done, retry, delivery_target, deliver, email_job, undelivered_invitations, rotation,
  rotate_for_delivery, enqueue_rotated, redeliver, redeliver_organization, redeliver_job,
}
use team_flow.Invitations.Accept.{
  Acceptance, lapsed, joined, known_user, create_account, new_user, resolve_user, join, lapse,
  use_invitation, accept_tx, hash_new_password, accepted, accept,
}
use team_flow.Invitations.Ledger.{Tidy-others, Balanced, Balanced-same}
use team_flow.Invitations.Statements.{redelivery-Keeps}
use team_flow.Invitations.Acceptance.{accept_tx-Committed, Joined-Ledger, Lapsed-Ledger}
use team_flow.Invitations.Dispatched.{log_error-Keeps}
use team_flow.Invitations.Kept.{
  L, later, row-Keeps, valid-Keeps, generate_token-Keeps, mark_notified-Keeps, send-Keeps,
  enqueue-Keeps, create-Keeps, resend-Keeps, revoke-Keeps, preview-Keeps,
}
use team_flow.Invitations.Requests.{
  InviteRequest, invites, resends, revokes, previews, accepts, delivers, redelivers, serve_invite,
  serve_invites,
}

module _ (cfg : InviteConfig) (base : List Membership) where
  abbrev K : {A : Type 0} → Action A → Type 0
  K = Keeps (L cfg base)

  delivery_target-Keeps : (id : ℕ) → K (delivery_target cfg id)
  unfolding delivery_target get_invitation_by_id_for_job get_invitation_by_id get_organization_by_id
      get_role_by_id
  delivery_target-Keeps id = Keeps-bind _ _ _ (row-Keeps cfg base _) λ row.
      Keeps-tenant_tx (L cfg base) (later cfg base) row.organization_id _
        (search grows_rules depth 12)
        (Keeps-bind _ _ _ (row-Keeps cfg base _) λ i.
          Keeps-bind _ _ _ (Keeps-or_fail _ wrap _ (row-Keeps cfg base _))
            λ org. Keeps-bind _ _ _ (row-Keeps cfg base _) λ role. Keeps-pure _ i)

  email_job-Keeps : (job : EmailJob) → K (email_job cfg job)
  unfolding email_job
  email_job-Keeps job = Keeps-if _ _ _ _ (Keeps-pure _ _) (
      Keeps-inspect _ (delivery_target cfg job.invitation_id) (λ r. deliver cfg r job)
        (delivery_target-Keeps job.invitation_id) answered)
    where
      answered : (r : Result Invitation) → K (deliver cfg r job)
      answered (err e) =
          Keeps-if (L cfg base) (is_no_rows e) _ _ (Keeps-pure (L cfg base) done)
            (Keeps-pure (L cfg base) (retry e))
      answered (ok i) =
          Keeps-if (L cfg base) (is_pending i) _ _
            (Keeps-bind (L cfg base) _ _ (send-Keeps cfg base i job.token) λ x.
              Keeps-bind (L cfg base) _ _
                (log_error-Keeps (L cfg base) _
                  (mark_notified-Keeps cfg base job.invitation_id i.organization_id))
                λ y. Keeps-pure (L cfg base) done)
            (Keeps-pure (L cfg base) done)

  undelivered-Keeps : (org_id : ℕ) → K (undelivered_invitations cfg org_id)
  unfolding undelivered_invitations list_undelivered_invitations
  undelivered-Keeps org_id = Keeps-or_fail _ wrap _ (
      Keeps-tenant_tx (L cfg base) (later cfg base) org_id _ (search grows_rules depth 8) (
        Keeps-bind _ now _ (Keeps-now _ (later cfg base))
          λ at. Keeps-read _ (later cfg base) _ λ next now d d' a h. ground arith))

  rotation-Keeps : (r : Result Invitation) → Keeps (L cfg base) (lift (rotation cfg r))
  rotation-Keeps r = Keeps-lift _ (rotation cfg r)

  rotate_for_delivery-Keeps :
      (id org_id : ℕ) (token : String) → K (rotate_for_delivery cfg id org_id token)
  unfolding rotate_for_delivery
  rotate_for_delivery-Keeps id org_id token =
      Keeps-tenant_tx (L cfg base) (later cfg base) org_id _ (search grows_rules depth 8)
        (Keeps-inspect _ _ _ (redelivery-Keeps cfg.fold base id org_id _) rotation-Keeps)

  enqueue_rotated-Keeps : (r : Option Invitation) (token : String) → K (enqueue_rotated cfg r token)
  enqueue_rotated-Keeps none token = Keeps-pure _ tt
  enqueue_rotated-Keeps (some i) token = enqueue-Keeps cfg base i token

  redeliver-Keeps : (org_id : ℕ) (row : Invitation) → K (redeliver cfg org_id row)
  unfolding redeliver
  redeliver-Keeps org_id row = Keeps-bind _ _ _ (generate_token-Keeps cfg base) λ token.
      Keeps-bind _ _ _ (rotate_for_delivery-Keeps row.id org_id token)
        λ r. enqueue_rotated-Keeps r token

  redeliver_organization-Keeps : (org_id : ℕ) → K (redeliver_organization cfg org_id)
  unfolding redeliver_organization
  redeliver_organization-Keeps org_id =
      Keeps-bind _ _ _ (undelivered-Keeps org_id)
        λ rows. Keeps-for_each _ (redeliver cfg org_id) rows (redeliver-Keeps org_id)

  redeliver_job-Keeps : (only : ℕ) → K (redeliver_job cfg only)
  unfolding redeliver_job list_active_organization_ids
  redeliver_job-Keeps only =
      Keeps-if _ (only == 0) _ _
        (Keeps-bind _ _ _
          (Keeps-or_fail _ wrap _
            (Keeps-read _ (later cfg base) _ λ next now d d' a h. ground arith))
          λ ids. Keeps-for_each _ _ ids redeliver_organization-Keeps)
        (redeliver_organization-Keeps only)

  module _ (at user_id : ℕ) (input : AcceptInput) (hash : String) where
    new_user-Grows : (i : Invitation) → Grows (new_user cfg i input hash)
    unfolding new_user create_account
    new_user-Grows i =
        Grows-inspect _ (λ r. create_account cfg r i input hash) (Grows-statement _) answered
      where
        answered : (r : Result User) → Grows (create_account cfg r i input hash)
        answered (ok u) = search grows_rules depth 4
        answered (err e) = search grows_rules depth 6

    resolve_user-Grows : (i : Invitation) → Grows (resolve_user cfg i user_id input hash)
    unfolding resolve_user known_user
    resolve_user-Grows i =
        Grows-if (user_id == 0) (new_user cfg i input hash) (known_user cfg i user_id)
          (new_user-Grows i) (search grows_rules depth 9)

    join-Grows : (i : Invitation) → Grows (join cfg i at user_id input hash)
    unfolding join
    join-Grows i =
        Grows-bind (or_fail role_missing (statement (get_role_by_id i.role_id i.organization_id))) _
          (search grows_rules depth 5)
          λ role.
            Grows-bind (or_fail wrap (statement (get_organization_by_id i.organization_id))) _
              (search grows_rules depth 5)
              λ org.
                Grows-bind (resolve_user cfg i user_id input hash) _ (resolve_user-Grows i)
                  λ user. search grows_rules depth 9

    use_invitation-Grows : (i : Invitation) → Grows (use_invitation cfg i at user_id input hash)
    unfolding use_invitation lapse
    use_invitation-Grows i =
        Grows-if (is_usable i at) (join cfg i at user_id input hash)
          (if is_pending i then lapse cfg i else fail (unusable i at)) (join-Grows i)
          (search grows_rules depth 9)

    accept_tx-Grows : (token : String) → Grows (accept_tx cfg token at user_id input hash)
    unfolding accept_tx
    accept_tx-Grows token =
        Grows-bind
          (or_fail invitation_missing
            (statement (get_invitation_by_token_hash (cfg.hash_token token))))
          (λ i. use_invitation cfg i at user_id input hash) (search grows_rules depth 5)
          use_invitation-Grows

  accept_tx-keeps :
      (token : String) (at user_id : ℕ) (input : AcceptInput) (hash : String) (w : World)
      (r : Acceptance) (v : World)
      → L cfg base w.next_id w.db
      → Returns (accept_tx cfg token at user_id input hash) w r v
      → L cfg base v.next_id v.db
  accept_tx-keeps token at user_id input hash w r v l h =
      let (i, found, committed) = accept_tx-Committed cfg token at user_id input hash w r v h in
      let le =
        Returns-next (accept_tx cfg token at user_id input hash) w r v
          (accept_tx-Grows at user_id input hash token) h in
      elim committed [
        | inl (usable, j) ↦
            Joined-Ledger cfg base i at w.db v.db r w.next_id v.next_id le l user_id
              (cfg.hash_token token) found usable j
        | inr s ↦ Lapsed-Ledger cfg base i at w.db v.db r w.next_id v.next_id le l s
      ]

  hash-Keeps : (user_id : ℕ) (password : String) → K (hash_new_password cfg user_id password)
  unfolding hash_new_password
  hash-Keeps user_id password =
      Keeps-if _ _ _ _
        (Keeps-bind _ _ _ (Keeps-require _ _ _)
          λ x. Keeps-bind _ new_id _ (Keeps-new_id _ (later cfg base)) λ salt. Keeps-lift _ _)
        (Keeps-pure _ _)

  others :
      (n : ℕ) (d : Db) (ts : List RefreshToken)
      → L cfg base n d
      → L cfg base n (record d { refresh_tokens = ts })
  others n d ts l = record {
    tidy = Tidy-others cfg.fold n d (record d { refresh_tokens = ts }) l.tidy refl;
    balance =
        Balanced-same base d (record d { refresh_tokens = ts }) l.balance refl refl λ o u r. refl;
  }

  accept-Keeps :
      (auth : AuthConfig) (user_id : ℕ) (input : AcceptInput) (meta : RequestMeta)
      → K (accept cfg auth user_id input meta)
  unfolding accept get_invitation_by_token_hash
  accept-Keeps auth user_id input meta = Keeps-bind _ _ _ (Keeps-require _ _ _) λ x.
      Keeps-bind _ _ _ (valid-Keeps cfg base _) λ y.
        Keeps-bind _ _ _ (hash-Keeps user_id input.password) λ hash.
          Keeps-bind _ _ _ (Keeps-or_fail _ token_unknown _ (row-Keeps cfg base _)) λ found.
            Keeps-bind _ now _ (Keeps-now _ (later cfg base)) λ at.
              Keeps-bind _ _ _
                (Keeps-tenant_tx_by _ (later cfg base) found.organization_id _
                  (accept_tx-Grows at user_id input hash (trim_space input.token))
                  (accept_tx-keeps (trim_space input.token) at user_id input hash))
                (answered found at)
    where
      answered :
          (found : Invitation) (at : ℕ) (r : Acceptance) → K (accepted cfg auth found at meta r)
      answered found at lapsed = Keeps-fail (L cfg base) (unusable found at)
      answered found at (joined org role user) =
          Keeps-bind (L cfg base) (start_session auth user.id meta) _
            (start_session-Keeps (L cfg base) (later cfg base) (λ n d ts l. others n d ts l) auth
              user.id meta)
            λ tokens. Keeps-pure (L cfg base) _

  -- The ledger is kept by every request and job, whatever its answer.
  serve_invite-Ledger :
      (auth : AuthConfig) (r : InviteRequest) (w : World)
      → L cfg base w.next_id w.db
      → L cfg base (serve_invite cfg auth r w).next_id (serve_invite cfg auth r w).db
  unfolding serve_invite
  serve_invite-Ledger auth (invites user_id org_id input) =
      (create-Keeps cfg base user_id org_id input).at
  serve_invite-Ledger auth (resends user_id org_id id) =
      (resend-Keeps cfg base user_id org_id id).at
  serve_invite-Ledger auth (revokes user_id org_id id) =
      (revoke-Keeps cfg base user_id org_id id).at
  serve_invite-Ledger auth (previews token) = (preview-Keeps cfg base token).at
  serve_invite-Ledger auth (accepts user_id input meta) = (accept-Keeps auth user_id input meta).at
  serve_invite-Ledger auth (delivers job) = (email_job-Keeps job).at
  serve_invite-Ledger auth (redelivers only) = (redeliver_job-Keeps only).at

  serve_invites-keep :
      (auth : AuthConfig) (rs : List InviteRequest) (w : World)
      → L cfg base w.next_id w.db
      → L cfg base (serve_invites cfg auth rs w).next_id (serve_invites cfg auth rs w).db
  unfolding serve_invites
  serve_invites-keep auth [] w l = l
  serve_invites-keep auth (r ∷ rs) w l =
      serve_invites-keep auth rs (serve_invite cfg auth r w) (serve_invite-Ledger auth r w l)

start :
    (cfg : InviteConfig) (w : World) → w.db.invitations ≡ [] → L cfg w.db.memberships w.next_id w.db
unfolding count_where
start cfg w e = record {
  tidy = record {
    once = λ k. rw e (omega arith);
    used = λ k p. rw e refl;
    one_token = λ h. rw e (omega arith);
    one_pending = λ o a. rw e (omega arith);
  };
  balance = record {
    added = [];
    grown = sym (append-nil w.db.memberships);
    as_many = rw e refl;
    matched = λ o u r. rw e refl;
  };
}

-- From a database without invitations, whatever requests and jobs on invitations follow and whichever
-- round trips fail, an address has at most one pending invitation in an organization, and the
-- memberships are those of the start, unchanged, followed by one for each accepted invitation: for
-- every organization, account and role as many active ones as there are invitations to that role of
-- that organization that the account accepted.
pub serve_invites-Ledger :
    (cfg : InviteConfig) (auth : AuthConfig) (rs : List InviteRequest) (w : World)
    → w.db.invitations ≡ []
    → ((o : ℕ) (e : String)
        → count_where (is_pending_for cfg.fold o e) (serve_invites cfg auth rs w).db.invitations
          ≤ 1)
      × Balanced w.db.memberships (serve_invites cfg auth rs w).db
serve_invites-Ledger cfg auth rs w e =
    let kept = serve_invites-keep cfg w.db.memberships auth rs w (start cfg w e) in
    (λ o a. kept.tidy.one_pending o a, kept.balance)

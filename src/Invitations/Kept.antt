-- ===== src/Invitations/Kept.antt =====
-- internal/invitations: every request and every job keeps the ledger of invitations, whatever fails.
use team_flow.Prelude.{
  ℕ, ◌≤◌, ◌≡◌, refl, sym, ap, ◌∙◌, String, true, false, Option, List, [], ◌∷◌, arith, str_eq_iff,
}
use team_flow.Httpx.Errors.{wrap, is_no_rows}
use team_flow.Database.Tables.{Db, Invitation, Membership, User}
use team_flow.Database.Rows.{one}
use team_flow.Database.Runs.{after, after_read_or_fail, after_require, after_write, one-ok}
use team_flow.Database.Roles.{get_role_by_id}
use team_flow.Database.Organizations.{get_organization_by_id}
use team_flow.Database.Users.{get_user_by_email}
use team_flow.Database.Invitations.{
  get_invitation_by_id, get_invitation_by_token_hash, get_active_membership_by_email,
  revoke_invitation, invitation_key, set_revoked,
}
use team_flow.Exec.{World, Result, ok, err, statement, round_trip, now, new_id}
use team_flow.Exec.Rules.{Returns, Same, round_trip-Same, or_fail-Returns}
use team_flow.Exec.Grows.{
  Grows, Grows-bind, Grows-inspect, Grows-statement, Grows-fail, grows_rules,
}
use team_flow.Exec.Keeps.{
  Keeps, Keeps-bind, Keeps-pure, Keeps-fail, Keeps-lift, Keeps-or_fail, Keeps-require,
  Keeps-inspect, Keeps-if, Keeps-read, Keeps-Reads, Keeps-now, Keeps-new_id, Keeps-round_trip,
  Keeps-tenant_tx, Keeps-tenant_tx_by,
}
use team_flow.Validation.{Validator, valid}
use team_flow.Organizations.Tenant.{authorize}
use team_flow.Organizations.Access.{authorize-db}
use team_flow.Organizations.Owners.Keeps.{authorize-Grows}
use team_flow.Invitations.Model.{
  InviteConfig, CreateInput, generate_token, map_write_error, role_missing, invitation_missing,
  token_unknown,
}
use team_flow.Invitations.Delivery.{
  send_invitation_email, mark_notified, enqueue_email, dispatch_email,
}
use team_flow.Invitations.Dispatched
use team_flow.Invitations.Manage.{
  record_tx, org_name, invitee, check_invitee, create_tx, create, not_active, resend_tx, resend,
  revoke_tx, revoke, lookup, account, account_exists, preview,
}
use team_flow.Invitations.Ledger.{Ledger, Ledger-next, update_invitation-Updated}
use team_flow.Invitations.Statements.{Updated-Ledger, rotate-Keeps, creation-Keeps, notified-Keeps}

module _ (cfg : InviteConfig) (base : List Membership) where
  abbrev pub L : ℕ → Db → Type 0
  L = Ledger cfg.fold base

  abbrev pub later : (n n' : ℕ) (d : Db) → L n d → n ≤ n' → L n' d
  later = Ledger-next cfg.fold base

  -- A query for one row.
  pub row-Keeps :
      {A : Type 0} (pick : Db → Option A) → Keeps L (statement (λ next now d. one (pick d) d))
  row-Keeps pick =
      Keeps-read L later (λ next now d. one (pick d) d)
        λ next now d d' a h. (one-ok (pick d) d d' a h).1

  pub authorize-Keeps :
      (user_id org_id : ℕ) (permission : String) → Keeps L (authorize user_id org_id permission)
  authorize-Keeps user_id org_id permission =
      Keeps-Reads L (authorize user_id org_id permission) later
        (authorize-db user_id org_id permission) (authorize-Grows user_id org_id permission)

  pub valid-Keeps : (v : Validator) → Keeps L (valid v)
  valid-Keeps [] = Keeps-pure L tt
  valid-Keeps (e ∷ es) = Keeps-fail L _

  pub record_tx-Keeps : Keeps L record_tx
  unfolding record_tx
  record_tx-Keeps = Keeps-or_fail L wrap round_trip (Keeps-round_trip L later)

  pub org_name-Keeps : (org_id : ℕ) → Keeps L (org_name org_id)
  unfolding org_name get_organization_by_id
  org_name-Keeps org_id =
      Keeps-bind L _ _ (Keeps-or_fail L wrap _ (row-Keeps _)) λ org. Keeps-pure L org.name

  pub generate_token-Keeps : Keeps L (generate_token cfg)
  unfolding generate_token
  generate_token-Keeps =
      Keeps-bind L new_id _ (Keeps-new_id L later)
        λ seed. Keeps-or_fail L wrap _ (Keeps-lift L (cfg.random_token seed))

  pub mark_notified-Keeps : (id org_id : ℕ) → Keeps L (mark_notified cfg id org_id)
  mark_notified-Keeps = Dispatched.mark_notified-Keeps L later (notified-Keeps cfg.fold base) cfg

  pub send-Keeps : (i : Invitation) (token : String) → Keeps L (send_invitation_email cfg i token)
  send-Keeps = Dispatched.send-Keeps L later (notified-Keeps cfg.fold base) cfg

  pub enqueue-Keeps : (i : Invitation) (token : String) → Keeps L (enqueue_email cfg i token)
  enqueue-Keeps = Dispatched.enqueue-Keeps L later (notified-Keeps cfg.fold base) cfg

  dispatch-Keeps : (i : Invitation) (token : String) → Keeps L (dispatch_email cfg i token)
  dispatch-Keeps = Dispatched.dispatch-Keeps L later (notified-Keeps cfg.fold base) cfg

  check_invitee-Keeps : (org_id : ℕ) (address : String) → Keeps L (check_invitee cfg org_id address)
  unfolding check_invitee get_active_membership_by_email
  check_invitee-Keeps org_id address = Keeps-inspect L _ (invitee cfg) (row-Keeps _) answered
    where
      answered : (r : Result Membership) → Keeps L (invitee cfg r)
      answered (ok m) = Keeps-fail L _
      answered (err e) = Keeps-if L (is_no_rows e) _ _ (Keeps-pure L tt) (Keeps-fail L e)

  check_invitee-Grows : (org_id : ℕ) (address : String) → Grows (check_invitee cfg org_id address)
  unfolding check_invitee
  check_invitee-Grows org_id address = Grows-inspect _ (invitee cfg) (Grows-statement _) answered
    where
      answered : (r : Result Membership) → Grows (invitee cfg r)
      answered (ok m) = Grows-fail _
      answered (err e) = search grows_rules depth 3

  create_tx-Grows :
      (caller : String) (user_id org_id role_id : ℕ) (address token : String) (expires_at : ℕ)
      → Grows (create_tx cfg caller user_id org_id role_id address token expires_at)
  unfolding create_tx org_name record_tx
  create_tx-Grows caller user_id org_id role_id address token expires_at =
      Grows-bind (check_invitee cfg org_id address) _ (check_invitee-Grows org_id address)
        λ x. search grows_rules depth 14

  create_tx-Keeps :
      (caller : String) (user_id org_id role_id : ℕ) (address token : String) (expires_at : ℕ)
      → Keeps L (create_tx cfg caller user_id org_id role_id address token expires_at)
  unfolding create_tx get_role_by_id
  create_tx-Keeps caller user_id org_id role_id address token expires_at =
      Keeps-bind L (check_invitee cfg org_id address) _ (check_invitee-Keeps org_id address) λ x.
        Keeps-bind L _ _ (Keeps-or_fail L role_missing _ (row-Keeps _)) λ role.
          Keeps-bind L _ _ (Keeps-require L _ _) λ y.
            Keeps-bind L (org_name org_id) _ (org_name-Keeps org_id) λ name.
              Keeps-bind L _ _
                (Keeps-or_fail L map_write_error _
                  (creation-Keeps cfg.fold base org_id address role_id _ user_id expires_at))
                λ i. Keeps-bind L record_tx _ record_tx-Keeps λ z. Keeps-pure L _

  pub create-Keeps :
      (user_id org_id : ℕ) (input : CreateInput) → Keeps L (create cfg user_id org_id input)
  unfolding create
  create-Keeps user_id org_id input =
      Keeps-bind L (authorize user_id org_id "members.manage") _
        (authorize-Keeps user_id org_id "members.manage")
        λ tenant. Keeps-bind L _ _ (valid-Keeps _) λ x.
          Keeps-bind L (generate_token cfg) _ generate_token-Keeps λ token.
            Keeps-bind L now _ (Keeps-now L later) λ at.
              Keeps-bind L _ _
                (Keeps-or_fail L wrap _ (
                  Keeps-tenant_tx L later org_id _
                    (create_tx-Grows tenant.role_name user_id org_id input.role_id _ token _)
                    (create_tx-Keeps tenant.role_name user_id org_id input.role_id _ token _)))
                λ r.
                  Keeps-bind L (dispatch_email cfg r.invitation token) _
                    (dispatch-Keeps r.invitation token) λ y. Keeps-pure L _

  resend_tx-Keeps :
      (org_id id : ℕ) (token : String) (expires_at : ℕ)
      → Keeps L (resend_tx cfg org_id id token expires_at)
  unfolding resend_tx get_role_by_id get_invitation_by_id
  resend_tx-Keeps org_id id token expires_at =
      Keeps-bind L _ _ (Keeps-or_fail L invitation_missing _ (row-Keeps _)) λ current.
        Keeps-bind L _ _ (Keeps-require L _ _) λ x.
          Keeps-bind L _ _ (Keeps-or_fail L role_missing _ (row-Keeps _)) λ role.
            Keeps-bind L (org_name org_id) _ (org_name-Keeps org_id) λ name.
              Keeps-bind L _ _
                (Keeps-or_fail L (not_active cfg) _
                  (rotate-Keeps cfg.fold base id org_id _ expires_at))
                λ i. Keeps-pure L _

  resend_tx-Grows :
      (org_id id : ℕ) (token : String) (expires_at : ℕ)
      → Grows (resend_tx cfg org_id id token expires_at)
  unfolding resend_tx org_name
  resend_tx-Grows org_id id token expires_at = search grows_rules depth 14

  pub resend-Keeps : (user_id org_id id : ℕ) → Keeps L (resend cfg user_id org_id id)
  unfolding resend
  resend-Keeps user_id org_id id =
      Keeps-bind L (authorize user_id org_id "members.manage") _
        (authorize-Keeps user_id org_id "members.manage")
        λ tenant. Keeps-bind L (generate_token cfg) _ generate_token-Keeps λ token.
          Keeps-bind L now _ (Keeps-now L later) λ at.
            Keeps-bind L _ _
              (Keeps-or_fail L wrap _ (
                Keeps-tenant_tx L later org_id _ (resend_tx-Grows org_id id token _)
                  (resend_tx-Keeps org_id id token _)))
              λ r.
                Keeps-bind L (dispatch_email cfg r.invitation token) _
                  (dispatch-Keeps r.invitation token) λ y. Keeps-pure L _

  now-Returns : (w : World) (t : ℕ) (v : World) → Returns now w t v → v ≡ w
  unfolding now
  now-Returns w t v h = ground arith

  record_tx-Same : (w : World) (a : Unit {0}) (v : World) → Returns record_tx w a v → Same v w
  unfolding record_tx
  record_tx-Same w a v h = round_trip-Same w a v (or_fail-Returns wrap round_trip w a v h)

  -- The row that is revoked was read as pending.
  revoke_tx-keeps :
      (org_id id : ℕ) (w : World) (a : Unit {0}) (v : World)
      → L w.next_id w.db
      → Returns (revoke_tx org_id id) w a v
      → L v.next_id v.db
  unfolding revoke_tx get_invitation_by_id now revoke_invitation
  revoke_tx-keeps org_id id w a v l h = after_read_or_fail _ _ _ w refl h λ i w₁ d₁ n₁ p₁ k₁.
      after_require _ _ _ w₁ k₁ λ pending k₂. after now _ w₁ k₂ λ at w₂ r₂ k₃.
        let still = now-Returns w₁ at w₂ r₂ in
        after_write _ _ w₂ (rw still d₁) k₃ λ r w₃ q₃ c₃ n₃ k₄.
          let same = record_tx-Same w₃ a v k₄ in
          let used = ap (λ (z : World). z.next_id) still in
          let set = set_revoked at in
          rw same.same_db (
            Updated-Ledger cfg.fold base (invitation_key id org_id) set id (λ x e. ground arith)
              (record {
                same_id = λ x. refl;
                same_organization = λ x. refl;
                same_email = λ x. refl;
              })
              w.next_id v.next_id w₂.clock w.db w₃.db r (omega (arith, same))
              (λ row e p. absurd (cc p))
              (λ row e.
                let found : row ≡ i = cc (sym e ∙ p₁) in
                let was : row.status ≡ "pending" = rw found ((str_eq_iff _ _).0 pending) in
                (rw was refl, refl))
              l
              (update_invitation-Updated (invitation_key id org_id) set w₂.next_id w₂.clock w.db
                w₃.db r q₃))

  revoke_tx-Grows : (org_id id : ℕ) → Grows (revoke_tx org_id id)
  unfolding revoke_tx record_tx
  revoke_tx-Grows org_id id = search grows_rules depth 12

  pub revoke-Keeps : (user_id org_id id : ℕ) → Keeps L (revoke user_id org_id id)
  unfolding revoke
  revoke-Keeps user_id org_id id =
      Keeps-bind L (authorize user_id org_id "members.manage") _
        (authorize-Keeps user_id org_id "members.manage")
        λ tenant.
          Keeps-tenant_tx_by L later org_id (revoke_tx org_id id) (revoke_tx-Grows org_id id)
            (revoke_tx-keeps org_id id)

  lookup-Keeps : (token : String) → Keeps L (lookup cfg token)
  unfolding lookup get_invitation_by_token_hash get_invitation_by_id get_organization_by_id
      get_role_by_id
  lookup-Keeps token = Keeps-bind L _ _ (Keeps-or_fail L token_unknown _ (row-Keeps _)) λ found.
      Keeps-tenant_tx L later found.organization_id _ (search grows_rules depth 12) (
        Keeps-bind L _ _ (Keeps-or_fail L invitation_missing _ (row-Keeps _)) λ i.
          Keeps-bind L _ _ (Keeps-or_fail L wrap _ (row-Keeps _)) λ org.
            Keeps-bind L _ _ (Keeps-or_fail L role_missing _ (row-Keeps _)) λ role. Keeps-pure L _)

  account_exists-Keeps : (address : String) → Keeps L (account_exists cfg address)
  unfolding account_exists get_user_by_email
  account_exists-Keeps address = Keeps-inspect L _ (account cfg) (row-Keeps _) answered
    where
      answered : (r : Result User) → Keeps L (account cfg r)
      answered (ok u) = Keeps-pure L true
      answered (err e) = Keeps-if L (is_no_rows e) _ _ (Keeps-pure L false) (Keeps-fail L _)

  pub preview-Keeps : (token : String) → Keeps L (preview cfg token)
  unfolding preview
  preview-Keeps token = Keeps-bind L (lookup cfg token) _ (lookup-Keeps token) λ r.
      Keeps-bind L (account_exists cfg r.0.email) _ (account_exists-Keeps r.0.email)
        λ known. Keeps-bind L now _ (Keeps-now L later) λ at. Keeps-pure L _

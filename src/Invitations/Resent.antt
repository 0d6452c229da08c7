-- ===== src/Invitations/Resent.antt =====
-- internal/invitations/service.go: Resend replaces the token of a pending invitation, and the old link
-- no longer works.
use team_flow.Prelude.{
  ℕ, ◌+◌, ◌≤◌, ◌≡◌, ◌≢◌, refl, sym, ap, subst, ◌∙◌, String, Bool, true, some, find, count_where,
  ◌==◌, str_eq, str_eq_iff, str_eq_refl, inl, inr, arith, bit, Bool-cases, find-holds,
  find-count_where, count-update_one, count-update_where, trim_space,
}
use team_flow.Database.Tables.{Db, Invitation}
use team_flow.Database.Organizations.{get_organization_by_id}
use team_flow.Database.Roles.{get_role_by_id}
use team_flow.Database.Invitations.{
  has_token, pending_key, invitation_key, set_token, get_invitation_by_id, mark_invitation_notified,
  rotate_invitation_token,
}
use team_flow.Database.Runs.{
  after, after_read_or_fail, after_require, after_write_or_fail, after_tx_or_fail,
}
use team_flow.Exec.{World, new_id, Result, ok, err, ◌>>=◌, or_fail, statement, now}
use team_flow.Exec.Rules.{Returns, pure-Returns}
use team_flow.Exec.Keeps.{Keeps, Keeps-statement}
use team_flow.Organizations.Tenant.{authorize}
use team_flow.Organizations.Access.{authorize-db}
use team_flow.Organizations.Owners.Keeps.{authorize-Grows}
use team_flow.Auth.Tokens.{AuthConfig, RequestMeta}
use team_flow.Invitations.Model.{
  InviteConfig, AcceptInput, AcceptResult, InvitationDto, generate_token,
}
use team_flow.Invitations.Delivery.{dispatch_email}
use team_flow.Invitations.Dispatched.{dispatch-Keeps}
use team_flow.Invitations.Manage.{Named, org_name, resend_tx, resend}
use team_flow.Invitations.Accept.{accept}
use team_flow.Invitations.Accepted.{accept-Accepted}
use team_flow.Invitations.Ledger.{Tidy, Updated, update_invitation-Updated, one_hit}

-- The dispatch of a message changes no more than when an invitation was notified and updated.
dispatch-count :
    (cfg : InviteConfig) (i : Invitation) (token : String) (w : World) (q : Invitation → Bool)
    → ((now : ℕ) (x : Invitation) → q (record x { notified_at = some now; updated_at = now }) ≡ q x)
    → count_where q (dispatch_email cfg i token w).1.db.invitations ≡ count_where q w.db.invitations
unfolding mark_invitation_notified
dispatch-count cfg i token w q same =
    (dispatch-Keeps (λ n d. count_where q d.invitations ≡ count_where q w.db.invitations)
        (λ n n' d p le. p) stamped cfg i token).at
      w refl
  where
    stamped :
        (id org_id : ℕ)
        → Keeps
            (λ n d. count_where q d.invitations ≡ count_where q w.db.invitations)
            (statement (mark_invitation_notified id org_id))
    stamped id org_id =
        Keeps-statement _ (mark_invitation_notified id org_id) (λ n n' d p le. p)
          λ next now d d' a p h.
            subst (λ (z : Db). count_where q z.invitations ≡ count_where q w.db.invitations)
              (ap (λ (r : Result (Unit {0} × Db)). elim r [ ok z ↦ z.1 | err e ↦ d ]) h)
              (count-update_where q (invitation_key id org_id)
                  (λ x. record x { notified_at = some now; updated_at = now }) d.invitations
                  (λ x k. same now x)
                ∙ p)

org_name-same :
    (org_id : ℕ) (w : World) (a : String) (v : World)
    → Returns (org_name org_id) w a v
    → v.db ≡ w.db
unfolding org_name get_organization_by_id
org_name-same org_id w a v h =
    after_read_or_fail _ _ _ w refl h
      λ org w₁ d₁ n₁ p₁ k₁. ap (λ (z : World). z.db) (pure-Returns _ w₁ a v k₁).1 ∙ d₁

module _ (cfg : InviteConfig) where
  -- What the transaction has done where it succeeds.
  resend_tx-Updated :
      (org_id id : ℕ) (token : String) (expires_at : ℕ) (w : World) (r : Named) (v : World)
      → Returns (resend_tx cfg org_id id token expires_at) w r v
      → (stamp : ℕ) × Updated
          (pending_key id org_id)
          (set_token (cfg.hash_token token) expires_at)
          stamp
          w.db
          v.db
          r.invitation
  unfolding resend_tx get_invitation_by_id get_role_by_id rotate_invitation_token
  resend_tx-Updated org_id id token expires_at w r v h =
      after_read_or_fail _ _ _ w refl h λ current w₁ d₁ n₁ p₁ k₁. after_require _ _ _ w₁ k₁ λ p₂ k₂.
        after_read_or_fail _ _ _ w₁ d₁ k₂ λ role w₃ d₃ n₃ p₃ k₃.
          after (org_name org_id) _ w₃ k₃ λ name w₄ r₄ k₄.
            after_write_or_fail _ _ _ w₄ (org_name-same org_id w₃ name w₄ r₄ ∙ d₃) k₄
              λ i w₅ q₅ c₅ n₅ k₅.
                let (answer, last) = pure-Returns _ w₅ r v k₅ in
                (
                  w₄.clock,
                  subst
                      (λ (z : Named).
                        Updated (pending_key id org_id)
                          (set_token (cfg.hash_token token) expires_at) w₄.clock w.db v.db
                          z.invitation)
                      (sym answer)
                      (subst
                        (λ (z : World).
                          Updated (pending_key id org_id)
                            (set_token (cfg.hash_token token) expires_at) w₄.clock w.db z.db i)
                        (sym last)
                        (update_invitation-Updated (pending_key id org_id)
                          (set_token (cfg.hash_token token) expires_at) w₄.next_id w₄.clock w.db
                          w₅.db i q₅)),
                )

  generate-same :
      (w : World) (a : String) (v : World) → Returns (generate_token cfg) w a v → v.db ≡ w.db
  unfolding generate_token or_fail ◌>>=◌ new_id
  generate-same w a v h = ground arith

  generate-drawn :
      (w : World) (a : String) (v : World)
      → Returns (generate_token cfg) w a v
      → cfg.random_token w.next_id ≡ ok a
  unfolding generate_token or_fail ◌>>=◌ new_id
  generate-drawn w a v h = ground arith

  now-same : (w : World) (t : ℕ) (v : World) → Returns now w t v → v.db ≡ w.db
  unfolding now
  now-same w t v h = ground arith

  -- The new token is that of the row, and the old one is no row's, if it is another.
  pub record Replaced (org_id id : ℕ) (w : World) (d' : Db) : Type 0 where
    pub invitation : Invitation
    pub token : String
    pub found : find (pending_key id org_id) w.db.invitations ≡ some invitation
    pub works : 1 ≤ count_where (has_token (cfg.hash_token token)) d'.invitations
    pub old_ends :
        cfg.hash_token token ≢ invitation.token_hash
        → count_where (has_token invitation.token_hash) d'.invitations ≡ 0
    pub seed : ℕ
    pub not_used : w.next_id ≤ seed
    pub drawn : cfg.random_token seed ≡ ok token

  replaced :
      (org_id id : ℕ) (token : String) (expires_at : ℕ) (w : World) (stamp : ℕ) (d₁ d' : Db)
      (r : Invitation)
      → Tidy cfg.fold w.next_id w.db
      → Updated
          (pending_key id org_id)
          (set_token (cfg.hash_token token) expires_at)
          stamp
          w.db
          d₁
          r
      → ((q : Invitation → Bool)
          → ((now : ℕ) (x : Invitation)
              → q (record x { notified_at = some now; updated_at = now }) ≡ q x)
          → count_where q d'.invitations ≡ count_where q d₁.invitations)
      → (seed : ℕ) → w.next_id ≤ seed
      → cfg.random_token seed ≡ ok token
      → Replaced org_id id w d'
  replaced org_id id token expires_at w stamp d₁ d' r t u same seed not_used drawn = record {
    invitation = u.row;
    token = token;
    found = u.found;
    works =
        let total = counted (cfg.hash_token token) in
        elim (Bool-cases (str_eq u.row.token_hash (cfg.hash_token token))) [
          | inl e ↦
              let before =
                find-count_where (pending_key id org_id) (has_token (cfg.hash_token token))
                  w.db.invitations u.row u.found e in
              omega (arith, rw (e, str_eq_refl (cfg.hash_token token)) at total, before)
          | inr e ↦ omega (arith, rw (e, str_eq_refl (cfg.hash_token token)) at total)
        ];
    seed = seed;
    not_used = not_used;
    drawn = drawn;
    old_ends = λ other.
        let total = counted u.row.token_hash in
        elim (Bool-cases (str_eq (cfg.hash_token token) u.row.token_hash)) [
          | inl e ↦ absurd (other ((str_eq_iff _ _).0 e))
          | inr e ↦
              omega
                (arith, rw (e, str_eq_refl u.row.token_hash) at total, t.one_token u.row.token_hash)
        ];
  }
    where
      by_id : (x : Invitation) → pending_key id org_id x ≡ true → (x.id == u.row.id) ≡ true
      by_id x h =
          let k = find-holds (pending_key id org_id) w.db.invitations u.row u.found in ground arith

      set : Invitation → Invitation
      set x = record (set_token (cfg.hash_token token) expires_at x) { updated_at = stamp }

      total :
          (q : Invitation → Bool)
          → ((now : ℕ) (x : Invitation)
              → q (record x { notified_at = some now; updated_at = now }) ≡ q x)
          → count_where q d'.invitations + bit (q u.row)
            ≡ count_where q w.db.invitations + bit (q (set u.row))
      total q e =
          ap (λ n. n + bit (q u.row))
            (same q e ∙ ap (λ (z : Db). count_where q z.invitations) u.written)
          ∙ count-update_one q (pending_key id org_id) set w.db.invitations u.row
              (one_hit cfg.fold w.next_id w.db t (pending_key id org_id) set u.row by_id u.found)
              u.found

      counted :
          (hash : String)
          → count_where (has_token hash) d'.invitations + bit (str_eq u.row.token_hash hash)
            ≡ count_where (has_token hash) w.db.invitations
              + bit (str_eq (cfg.hash_token token) hash)
      counted hash = total (has_token hash) (λ now x. refl)

  -- A resend that succeeds replaces the token of a pending invitation: the new one is stored, and the
  -- old one is no longer found, unless they have the same hash.
  pub resend-Replaced :
      (user_id org_id id : ℕ) (w : World) (a : InvitationDto) (w' : World)
      → Tidy cfg.fold w.next_id w.db
      → Returns (resend cfg user_id org_id id) w a w'
      → Replaced org_id id w w'.db
  unfolding resend
  resend-Replaced user_id org_id id w a w' t h =
      after (authorize user_id org_id "members.manage") _ w h λ tenant w₁ r₁ k₁.
        after (generate_token cfg) _ w₁ k₁ λ token w₂ r₂ k₂. after now _ w₂ k₂ λ at w₃ r₃ k₃.
          let d₁ = ap (λ z. z.1.db) (sym r₁) ∙ authorize-db user_id org_id "members.manage" w in
          let d₃ = now-same w₂ at w₃ r₃ ∙ generate-same w₁ token w₂ r₂ ∙ d₁ in
          after_tx_or_fail _ _ _ _ w₃ d₃ k₃ λ r v u x dv nv rv su k₄.
            after (dispatch_email cfg r.invitation token) _ x k₄ λ y w₅ r₅ k₅.
              let (stamp, updated) = resend_tx-Updated org_id id token (at + cfg.ttl) v r u rv in
              let last = (pure-Returns _ w₅ a w' k₅).1 in
              replaced org_id id token (at + cfg.ttl) w stamp x.db w'.db r.invitation t
                (subst
                  (λ (z : Db).
                    Updated (pending_key id org_id)
                      (set_token (cfg.hash_token token) (at + cfg.ttl)) stamp w.db z r.invitation)
                  (sym su.same_db)
                  (subst
                    (λ (z : Db).
                      Updated (pending_key id org_id)
                        (set_token (cfg.hash_token token) (at + cfg.ttl)) stamp z u.db r.invitation)
                    dv updated))
                (λ q e.
                  ap (λ (z : World). count_where q z.db.invitations) (last ∙ ap (λ z. z.1) (sym r₅))
                  ∙ dispatch-count cfg r.invitation token x q e)
                w₁.next_id
                (subst (λ (z : World). w.next_id ≤ z.next_id) (ap (λ z. z.1) r₁)
                  ((authorize-Grows user_id org_id "members.manage").at w))
                (generate-drawn w₁ token w₂ r₂)

  -- After a resend of a pending invitation that succeeds, the old link is refused, whoever uses it and
  -- whichever round trips fail, where identifiers and tokens are unique before, an address has one
  -- pending invitation in an organization, and no token that the random source is yet to give has the
  -- hash of the old one.
  pub resend-ends_old_link :
      (auth : AuthConfig) (user_id org_id id other : ℕ) (input : AcceptInput) (meta : RequestMeta)
      (w v : World) (a : InvitationDto) (b : AcceptResult) (i : Invitation)
      → Tidy cfg.fold w.next_id w.db
      → (resend cfg user_id org_id id w).0 ≡ ok a
      → find (pending_key id org_id) w.db.invitations ≡ some i
      → ((seed : ℕ) (raw : String)
          → w.next_id ≤ seed
          → cfg.random_token seed ≡ ok raw
          → cfg.hash_token raw ≢ i.token_hash)
      → cfg.hash_token (trim_space input.token) ≡ i.token_hash
      → v.db ≡ (resend cfg user_id org_id id w).1.db
      → ¬ ((accept cfg auth other input meta v).0 ≡ ok b)
  resend-ends_old_link auth user_id org_id id other input meta w v a b i t done ei new old at k =
      let w' = (resend cfg user_id org_id id w).1 in
      let v' = (accept cfg auth other input meta v).1 in
      let r =
        resend-Replaced user_id org_id id w a w' t
          (ap (λ (z : Result InvitationDto). (z, w')) done) in
      let s =
        accept-Accepted cfg auth input meta other v b v'
          (ap (λ (z : Result AcceptResult). (z, v')) k) in
      let same : r.invitation ≡ i = cc (sym r.found ∙ ei) in
      let hash = ap (λ (z : Invitation). z.token_hash) same in
      let gone = r.old_ends (λ e. new r.seed r.token r.not_used r.drawn (e ∙ hash)) in
      let found =
        find-count_where (has_token (cfg.hash_token (trim_space input.token)))
          (has_token r.invitation.token_hash) v.db.invitations s.invitation s.found
          ((str_eq_iff _ _).1 (
            (str_eq_iff _ _).0 (
              find-holds (has_token (cfg.hash_token (trim_space input.token))) v.db.invitations
                s.invitation s.found)
            ∙ old
            ∙ sym hash)) in
      absurd (
        omega (
          arith,
          gone,
          subst (λ (z : Db). 1 ≤ count_where (has_token r.invitation.token_hash) z.invitations) at
              found,
        ))

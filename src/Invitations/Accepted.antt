-- ===== src/Invitations/Accepted.antt =====
-- internal/invitations/service.go: what an acceptance that succeeds has read, checked, written and
-- answered; and that a token is accepted once.
use team_flow.Prelude.{
  ℕ, ◌≡◌, refl, sym, ap, subst, ◌∙◌, String, true, false, some, List, [], ◌∷◌, ◌++◌, find,
  update_where, ==_refl, ltb, str_eq_iff, inl, inr, arith, if◌then◌else◌, trim_space,
  find-update_where,
}
use team_flow.Database.Tables.{Db, User, Membership, Invitation, Organization, Role}
use team_flow.Database.Invitations.{
  get_invitation_by_token_hash, has_token, invitation_key, set_accepted,
}
use team_flow.Database.Runs.{after, after_require, after_write_or_fail, after_tx, one-ok}
use team_flow.Exec.{World, Result, ok, ◌>>=◌, now, new_id}
use team_flow.Exec.Rules.{now-Returns, Returns, pure-Returns, fail-Returns}
use team_flow.Validation.{Validator, valid}
use team_flow.Auth.Tokens.{AuthConfig, RequestMeta, user_dto}
use team_flow.Auth.Sessions.{start_session}
use team_flow.Auth.Frame.{start_session-Keeps}
use team_flow.Invitations.Model.{InviteConfig, AcceptInput, AcceptResult, is_usable, unusable}
use team_flow.Invitations.Accept.{Acceptance, joined, hash_new_password, accepted, accept}
use team_flow.Invitations.Joining.{Chosen}
use team_flow.Invitations.Acceptance.{Committed, accept_tx-Committed}

valid-Returns :
    (v : Validator) (w : World) (a : Unit {0}) (u : World) → Returns (valid v) w a u → u ≡ w
valid-Returns [] w a u h = (pure-Returns tt w a u h).1
valid-Returns (e ∷ es) w a u h = absurd (fail-Returns _ w a u h)

module _ (cfg : InviteConfig) where
  hash-Returns :
      (user_id : ℕ) (password : String) (w : World) (a : String) (v : World)
      → Returns (hash_new_password cfg user_id password) w a v
      → (v.db ≡ w.db) × (v.clock ≡ w.clock)
  unfolding hash_new_password ◌>>=◌ new_id
  hash-Returns user_id password w a v h = ground arith

  -- The invitation was pending and in time. One membership was added in its organization and role, for
  -- an account that is active and has its address: the caller's, or a new one. The invitation is
  -- marked with that account and the time.
  pub record Accepted (input : AcceptInput) (user_id : ℕ) (w : World) (a : AcceptResult) (d' : Db)
      : Type 0 where
    pub invitation : Invitation
    pub user : User
    pub users : List User
    pub member : Membership
    pub stamp : ℕ
    pub found :
        find (has_token (cfg.hash_token (trim_space input.token))) w.db.invitations
        ≡ some invitation
    pub was_pending : invitation.status ≡ "pending"
    pub in_time : ltb invitation.expires_at w.clock ≡ false
    pub chosen : Chosen cfg invitation w.db user_id user users
    pub users_after : d'.users ≡ users
    pub memberships_after : d'.memberships ≡ w.db.memberships ++ member ∷ []
    pub in_organization : member.organization_id ≡ invitation.organization_id
    pub of_user : member.user_id ≡ user.id
    pub in_role : member.role_id ≡ invitation.role_id
    pub is_active : member.status ≡ "active"
    pub invitations_after :
        d'.invitations
        ≡ update_where
            (invitation_key invitation.id invitation.organization_id)
            (λ i. record (set_accepted w.clock user.id i) { updated_at = stamp })
            w.db.invitations
    pub answers_invitation : a.invitation_id ≡ invitation.id
    pub answers_user : a.user ≡ user_dto user

  -- A session that is started changes none of these tables.
  session-frame :
      (auth : AuthConfig) (user_id : ℕ) (meta : RequestMeta) (w : World)
      → let d' = (start_session auth user_id meta w).1.db in
        (d'.users ≡ w.db.users)
        × (d'.memberships ≡ w.db.memberships)
        × (d'.invitations ≡ w.db.invitations)
  session-frame auth user_id meta w =
      (start_session-Keeps
          (λ n d.
            (d.users ≡ w.db.users)
            × (d.memberships ≡ w.db.memberships)
            × (d.invitations ≡ w.db.invitations))
          (λ n n' d p le. p) (λ n d ts p. p) auth user_id meta).at
        w (refl, refl, refl)

  module _ (auth : AuthConfig) (input : AcceptInput) (meta : RequestMeta) where
    answered :
        (found : Invitation) (at : ℕ) (org : Organization) (role : Role) (user : User) (v : World)
        (a : AcceptResult) (w' : World)
        → Returns (accepted cfg auth found at meta (joined org role user)) v a w'
        → (w'.db.users ≡ v.db.users)
          × (w'.db.memberships ≡ v.db.memberships)
          × (w'.db.invitations ≡ v.db.invitations)
          × (a.invitation_id ≡ found.id)
          × (a.user ≡ user_dto user)
    unfolding accepted
    answered found at org role user v a w' k =
        after (start_session auth user.id meta) _ v k λ tokens u s t.
          let (us, ms, is) = session-frame auth user.id meta v in
          let (answer, last) = pure-Returns _ u a w' t in
          let same : w' ≡ (start_session auth user.id meta v).1 = last ∙ sym (ap (λ z. z.1) s) in
          (
            rw same us,
            rw same ms,
            rw same is,
            ap (λ (z : AcceptResult). z.invitation_id) answer,
            ap (λ (z : AcceptResult). z.user) answer,
          )

    finish :
        (user_id : ℕ) (w : World) (i : Invitation) (r : Acceptance) (v : World) (a : AcceptResult)
        (w' : World)
        → find (has_token (cfg.hash_token (trim_space input.token))) w.db.invitations ≡ some i
        → Committed cfg i w.clock user_id w.db v.db r
        → Returns (accepted cfg auth i w.clock meta r) v a w'
        → Accepted input user_id w a w'.db
    unfolding is_usable accepted
    finish user_id w i r v a w' found (inr s) k = absurd (
        fail-Returns (unusable i w.clock) v a w'
          (subst (λ z. Returns (accepted cfg auth i w.clock meta z) v a w') s.answer k))
    finish user_id w i r v a w' found (inl (usable, j)) k =
        let (us, ms, is, id, dto) =
          answered i w.clock j.org j.role j.user v a w'
            (subst (λ z. Returns (accepted cfg auth i w.clock meta z) v a w') j.answer k) in
        let written = j.updated.written in
        record {
          invitation = i;
          user = j.user;
          users = j.users;
          member = j.member;
          stamp = j.stamp;
          found = found;
          was_pending = (str_eq_iff _ _).0 (ground arith);
          in_time = ground arith;
          chosen = j.chosen;
          users_after = us ∙ ap (λ (z : Db). z.users) written;
          memberships_after = ms ∙ ap (λ (z : Db). z.memberships) written;
          in_organization = j.in_organization;
          of_user = j.of_user;
          in_role = j.in_role;
          is_active = j.is_active;
          invitations_after = is ∙ ap (λ (z : Db). z.invitations) written;
          answers_invitation = id;
          answers_user = dto;
        }

    -- An acceptance that succeeds was given the token of a pending invitation in time; it added one
    -- membership, in the organization and the role of the invitation, for the caller's own active
    -- account with the address of the invitation or for a new account with that address, marked the
    -- invitation with that account and the time, and answers with both.
    pub accept-Accepted :
        (user_id : ℕ) (w : World) (a : AcceptResult) (w' : World)
        → Returns (accept cfg auth user_id input meta) w a w'
        → Accepted input user_id w a w'.db
    unfolding accept get_invitation_by_token_hash
    accept-Accepted user_id w a w' h = after_require _ _ _ w h λ p₁ k₁.
        after (valid _) _ w k₁ λ x w₂ r₂ k₂.
          after (hash_new_password cfg user_id input.password) _ w₂ k₂ λ hash w₃ r₃ k₃.
            let still = valid-Returns _ w x w₂ r₂ in
            let (same_db, same_clock) = hash-Returns user_id input.password w₂ hash w₃ r₃ in
            let d₃ : w₃.db ≡ w.db = same_db ∙ ap (λ (z : World). z.db) still in
            let c₃ : w₃.clock ≡ w.clock = same_clock ∙ ap (λ (z : World). z.clock) still in
            after_write_or_fail _ _ _ w₃ d₃ k₃ λ i w₄ q₄ c₄ n₄ k₄.
              let (found, d₄) = one-ok _ w.db w₄.db i q₄ in
              after now _ w₄ k₄ λ at w₅ r₅ k₅.
                let (time, on) = now-Returns w₄ at w₅ r₅ in
                after_tx _ _ _ w₅ (ap (λ (z : World). z.db) on ∙ d₄) k₅ λ r v u x₆ dv nv rv su k₆.
                  let t : at ≡ w.clock = time ∙ c₄ ∙ c₃ in
                  let (i', f', done) =
                    subst
                      (λ (z : Db).
                        (i' : Invitation) × (find
                            (has_token (cfg.hash_token (trim_space input.token))) z.invitations
                          ≡ some i')
                        × Committed cfg i' at user_id z u.db r)
                      dv
                      (accept_tx-Committed cfg (trim_space input.token) at user_id input hash v r u
                        rv) in
                  let same : i' ≡ i = cc (sym f' ∙ found) in
                  let here =
                    subst (λ (z : Db). Committed cfg i w.clock user_id w.db z r) (sym su.same_db)
                      (subst (λ z. Committed cfg i z user_id w.db u.db r) t
                        (subst (λ z. Committed cfg z at user_id w.db u.db r) same done)) in
                  finish user_id w i r x₆ a w' found here
                    (subst (λ z. Returns (accepted cfg auth i z meta r) x₆ a w') t k₆)

  -- A token is accepted once: right after an acceptance that succeeds, the same token is refused,
  -- whoever presents it, and whichever round trips fail.
  pub accept-once :
      (auth : AuthConfig) (input again : AcceptInput) (meta meta' : RequestMeta) (user_id other : ℕ)
      (w v : World) (a b : AcceptResult)
      → trim_space again.token ≡ trim_space input.token
      → (accept cfg auth user_id input meta w).0 ≡ ok a
      → v.db ≡ (accept cfg auth user_id input meta w).1.db
      → ¬ ((accept cfg auth other again meta' v).0 ≡ ok b)
  accept-once auth input again meta meta' user_id other w v a b same h at k =
      let w' = (accept cfg auth user_id input meta w).1 in
      let v' = (accept cfg auth other again meta' v).1 in
      let first =
        accept-Accepted auth input meta user_id w a w'
          (ap (λ (r : Result AcceptResult). (r, w')) h) in
      let second =
        accept-Accepted auth again meta' other v b v'
          (ap (λ (r : Result AcceptResult). (r, v')) k) in
      let i = first.invitation in
      let key = invitation_key i.id i.organization_id in
      let hash = cfg.hash_token (trim_space input.token) in
      let mark = λ (x : Invitation). record (set_accepted w.clock first.user.id x) {
        updated_at = first.stamp;
      } in
      let is_hit : key i ≡ true = rw (==_refl i.id, ==_refl i.organization_id) refl in
      let found : find (has_token hash) v.db.invitations ≡ some (mark i) =
        ap (λ (z : Db). find (has_token hash) z.invitations) at
        ∙ ap (find (has_token hash)) first.invitations_after
        ∙ find-update_where (has_token hash) key mark w.db.invitations i (λ x. refl) first.found
        ∙ ap (λ c. some (if c then mark i else i)) is_hit in
      let again_found : find (has_token hash) v.db.invitations ≡ some second.invitation =
        subst (λ z. find (has_token (cfg.hash_token z)) v.db.invitations ≡ some second.invitation)
          same second.found in
      let one : mark i ≡ second.invitation = cc in
      let status : "accepted" ≡ second.invitation.status = ap (λ (z : Invitation). z.status) one in
      cc (status ∙ second.was_pending)

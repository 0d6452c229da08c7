-- ===== src/Invitations/Refused.antt =====
-- internal/invitations/service.go: Accept of an invitation that can no longer be used, while no round
-- trip fails.
use team_flow.Prelude.{
  Bool-cases, inl, inr, if◌then◌else◌, str_eq_iff, arith, none_beside, found_under, ==_refl,
  find-holds, ℕ, suc, ◌≡◌, refl, String, true, false, none, some, [], find, any, update_where, ◌==◌,
  ltb, str_eq, trim_space,
}
use team_flow.Httpx.Errors.{api}
use team_flow.Database.Tables.{Db, Invitation}
use team_flow.Database.Invitations.{
  get_invitation_by_token_hash, has_token, has_token_of, is_pending, pending_key, set_expired,
  update_invitation, violated_check, mark_invitation_expired,
}
use team_flow.Exec.{
  World, Result, ok, err, ◌>>=◌, require, fail, or_fail, statement, with_tenant_tx, round_trip, run,
  now, new_id,
}
use team_flow.Validation.{valid}
use team_flow.Exec.Calm.{calm, bind-to, or_fail-to, statement-calm, calm_commit}
use team_flow.Auth.Tokens.{AuthConfig, RequestMeta}
use team_flow.Invitations.Model.{
  AcceptResult, token_unknown, invitation_missing, InviteConfig, AcceptInput, is_usable, unusable,
  effective_status, validate_account,
}
use team_flow.Invitations.Ledger.{Tidy}
use team_flow.Invitations.Accept.{
  lapsed, lapse, use_invitation, accept_tx, hash_new_password, accepted, accept,
}

-- A caller without an account gave a password, and it could be hashed.
abbrev pub CanHash : InviteConfig → ℕ → AcceptInput → Type 0
CanHash cfg next input =
    (str_eq input.password "" ≡ false)
    × ((hash : String) × (cfg.hash_password next input.password ≡ ok hash))

-- The first identifier that is not used after the password was hashed.
abbrev pub salted : ℕ → ℕ → ℕ
salted user_id next = if user_id == 0 then suc next else next

-- A row that keeps the checks of the table, and was pending, keeps them once it has expired.
expired_row :
    (i : Invitation) (at : ℕ)
    → violated_check i ≡ none
    → is_pending i ≡ true
    → violated_check (record (set_expired i) { updated_at = at }) ≡ none
unfolding violated_check
expired_row i at good pending =
    let p : i.status ≡ "pending" = (str_eq_iff i.status "pending").0 pending in
    let checks = rw p at good in ground arith

module _ (cfg : InviteConfig) (auth : AuthConfig) (user_id : ℕ) (input : AcceptInput)
    (meta : RequestMeta) (d : Db) (next clock : ℕ) (i : Invitation)
    (given : str_eq (trim_space input.token) "" ≡ false) (checked : validate_account cfg input ≡ [])
    (hashes : (user_id == 0) ≡ true → CanHash cfg next input)
    (found : find (has_token (cfg.hash_token (trim_space input.token))) d.invitations
      ≡ some i) where
  abbrev hash : String
  hash = cfg.hash_token (trim_space input.token)

  -- Up to the transaction nothing is written.
  hashed :
      (p : String) × (hash_new_password cfg user_id input.password (calm d next clock)
        ≡ (ok p, calm d (salted user_id next) clock))
  unfolding hash_new_password ◌>>=◌ new_id
  hashed = elim (Bool-cases (user_id == 0)) [
    | inl e ↦ (let (given, (p, h)) = hashes e in (p, rw (e, given, h) refl))
    | inr e ↦ ("", rw e refl)
  ]

  abbrev n : ℕ
  n = salted user_id next

  at : now (calm d (suc n) clock) ≡ (ok clock, calm d (suc n) clock)
  unfolding now
  at = refl

  up_to_transaction :
      {r : Result AcceptResult × World}
      → (with_tenant_tx i.organization_id
              (accept_tx cfg (trim_space input.token) clock user_id input hashed.0)
            >>= accepted cfg auth i clock meta)
          (calm d (suc n) clock)
        ≡ r
      → accept cfg auth user_id input meta (calm d next clock) ≡ r
  unfolding accept get_invitation_by_token_hash
  up_to_transaction h = bind-to (require _ _) _ {a = tt} {v = calm d next clock} (rw given refl) (
      bind-to (valid _) _ {a = tt} {v = calm d next clock} (rw checked refl) (
        bind-to (hash_new_password cfg user_id input.password) _ {a = hashed.0} {v = calm d n clock}
          hashed.1
          (bind-to _ _ {a = i} {v = calm d (suc n) clock}
            (or_fail-to token_unknown _ (statement-calm _ (rw found refl)))
            (bind-to now _ {a = clock} {v = calm d (suc n) clock} at h))))

  late_answer :
      is_pending i ≡ true
      → ltb i.expires_at clock ≡ true
      → use_invitation cfg i clock user_id input hashed.0 ≡ lapse cfg i
  unfolding use_invitation is_usable
  late_answer pending late = rw (pending, late) refl

  marked :
      violated_check (record (set_expired i) { updated_at = clock }) ≡ none
      → any (has_token_of i) d.invitations ≡ false
      → find (pending_key i.id i.organization_id) d.invitations ≡ some i
      → lapse cfg i (calm d (suc (suc n)) clock) ≡ (
        ok lapsed,
        calm
            (record d {
              invitations =
                  update_where
                    (pending_key i.id i.organization_id)
                    (λ x. record (set_expired x) { updated_at = clock })
                    d.invitations;
            })
            (suc (suc (suc n)))
            clock,
      )
  unfolding lapse mark_invitation_expired update_invitation statement round_trip run or_fail ◌>>=◌
      find update_where
  marked good alone key = rw (key, good, alone) refl

  too_late :
      is_pending i ≡ true
      → ltb i.expires_at clock ≡ true
      → accepted cfg auth i clock meta lapsed ≡ fail (api 410 "INVITATION_EXPIRED")
  unfolding accepted unusable effective_status
  too_late pending late = rw (pending, late) refl

  -- While no round trip fails, a pending invitation that is too late is refused as expired, and marked
  -- so, whoever presents its token, which is not blank, with account fields that are valid, and where the
  -- caller has no account with a password that could be hashed, if identifiers and tokens of invitations
  -- are unique and the row keeps the checks of the table.
  pub accept-late :
      Tidy cfg.fold next d
      → violated_check i ≡ none
      → is_pending i ≡ true
      → ltb i.expires_at clock ≡ true
      → accept cfg auth user_id input meta (calm d next clock) ≡ (
        err (api 410 "INVITATION_EXPIRED"),
        calm
            (record d {
              invitations =
                  update_where
                    (pending_key i.id i.organization_id)
                    (λ x. record (set_expired x) { updated_at = clock })
                    d.invitations;
            })
            (suc (suc (suc (salted user_id next))))
            clock,
      )
  unfolding accept_tx get_invitation_by_token_hash
  accept-late t checks pending late =
      let good = expired_row i clock checks pending in
      let alone =
        none_beside (has_token hash) (λ x. x.id == i.id) d.invitations i (t.one_token hash)
          (==_refl i.id) found in
      let key =
        found_under (has_token hash) (pending_key i.id i.organization_id) (λ x. x.id == i.id)
          d.invitations i (t.once i.id) (==_refl i.id) (λ x h. ground arith)
          (rw (==_refl i.id, ==_refl i.organization_id, pending) refl) found in
      let holds =
        (str_eq_iff i.token_hash hash).0 (find-holds (has_token hash) d.invitations i found) in
      let d' = record d {
        invitations =
            update_where (pending_key i.id i.organization_id)
              (λ x. record (set_expired x) { updated_at = clock }) d.invitations;
      } in
      let body = accept_tx cfg (trim_space input.token) clock user_id input hashed.0 in
      up_to_transaction (
        bind-to (with_tenant_tx i.organization_id body) (accepted cfg auth i clock meta)
          {a = lapsed} {v = calm d' (suc (suc (suc n))) clock}
          (calm_commit i.organization_id body {d' = d'} {next' = suc (suc (suc n))} {clock' = clock}
            (bind-to _ _ {a = i} {v = calm d (suc (suc n)) clock}
              (or_fail-to invitation_missing _ (statement-calm _ (rw found refl)))
              (rw (late_answer pending late) (marked good (rw holds alone) key))))
          (rw (too_late pending late) refl))

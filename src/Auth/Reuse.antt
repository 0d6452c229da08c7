-- ===== src/Auth/Reuse.antt =====
-- internal/auth/service.go: Refresh accepts a token once, and a token that is presented again ends
-- its family; what Logout and LogoutAll end is refused.
use team_flow.Prelude.{
  ℕ, ◌≡◌, refl, sym, ap, subst, ◌∙◌, String, Bool, true, false, ◌&&◌, [], ◌∷◌, ◌++◌, some, find,
  ◌==◌, Bool-cases, inl, inr, arith, if◌then◌else◌, ==_refl, ==_iff, find-append, find-update_where,
}
use team_flow.Httpx.Errors.{is_no_rows, sentinel, unauthorized}
use team_flow.Database.Tables.{Db, RefreshToken, User}
use team_flow.Database.RefreshTokens.{
  is_live, has_hash, revoke, revoke_refresh_token_family, revoke_all_user_refresh_tokens, in_family,
  revoke_where, get_refresh_token_by_hash,
}
use team_flow.Exec.{
  World, Result, ok, err, ◌>>=◌, or_fail, statement, transaction, rollback_on_error, round_trip,
  run, now, new_id,
}
use team_flow.Exec.Rules.{Returns, pure-Returns, transaction-Returns}
use team_flow.Database.Runs.{after}
use team_flow.Database.Rows.{one}
use team_flow.Auth.Tokens.{
  AuthConfig, RequestMeta, AuthResult, TokenPair, IssuedRefresh, user_dto, token_pair,
  generate_access_token,
}
use team_flow.Auth.Sessions.{
  Rotation, reused, rotated, refresh_tx, rotate_or_revoke, refreshed, refresh, logout, logout_all,
  end_family,
}
use team_flow.Auth.Families.{live_tokens, family_is_revoked, outside, others_are_kept}
use team_flow.Exec.Calm.{calm}
use team_flow.Auth.Rotation.{supersede, Replaced, Committed, refresh_tx-Committed}

token_pair-Returns :
    (cfg : AuthConfig) (user_id : ℕ) (raw : String) (w : World) (p : TokenPair) (w' : World)
    → Returns (token_pair cfg user_id raw) w p w'
    → (w'.db ≡ w.db) × (p.refresh_token ≡ raw)
unfolding token_pair generate_access_token now new_id or_fail ◌>>=◌
token_pair-Returns cfg user_id raw w p w' h = ground arith

not_reused :
    (cfg : AuthConfig) (w : World) (a : AuthResult) (w' : World)
    → ¬ Returns (refreshed cfg reused) w a w'
unfolding refreshed
not_reused cfg w a w' h = cc (ap (λ (p : Result AuthResult × World). p.0) h)

is_rotated :
    (cfg : AuthConfig) (user : User) (i : IssuedRefresh) (w : World) (a : AuthResult) (w' : World)
    → Returns (refreshed cfg (rotated user i)) w a w'
    → (w'.db ≡ w.db) × (a.tokens.refresh_token ≡ i.raw) × (a.user ≡ user_dto user)
unfolding refreshed
is_rotated cfg user i w a w' h = after (token_pair cfg user.id i.raw) _ w h λ p v s k.
    let (d, e) = token_pair-Returns cfg user.id i.raw w p v s in
    let (ea, ew) = pure-Returns _ v a w' k in
    (
      ap (λ (z : World). z.db) ew ∙ d,
      ap (λ (z : AuthResult). z.tokens.refresh_token) ea ∙ e,
      ap (λ (z : AuthResult). z.user) ea,
    )

module _ (cfg : AuthConfig) (raw : String) (meta : RequestMeta) where
  -- A refresh that succeeds was given a token that is live and not expired, of an active user; it adds
  -- a token of the same family for that user, revokes the old one in its favour, and returns both the
  -- new token's raw value and the user.
  pub refresh-Replaced :
      (w : World) (a : AuthResult) (w' : World)
      → Returns (refresh cfg raw meta) w a w'
      → (user : User) × (i : IssuedRefresh) × Replaced cfg raw user i w w'.db
        × (a.tokens.refresh_token ≡ i.raw)
        × (a.user ≡ user_dto user)
  unfolding refresh
  refresh-Replaced w a w' h =
      after (transaction (refresh_tx cfg raw meta)) (refreshed cfg) w h λ r v s k.
        let (x, u, q, sx, su) = transaction-Returns (refresh_tx cfg raw meta) w r v s in
        let done : Committed cfg raw r w v.db =
          subst (Committed cfg raw r w) (sym su.same_db)
            (refresh_tx-Committed cfg raw meta w x r u sx.same_db sx.same_clock q) in
        finish r v k done
    where
      finish :
          (r : Rotation) (v : World)
          → Returns (refreshed cfg r) v a w'
          → Committed cfg raw r w v.db
          → (user : User) × (i : IssuedRefresh) × Replaced cfg raw user i w w'.db
            × (a.tokens.refresh_token ≡ i.raw)
            × (a.user ≡ user_dto user)
      finish r v k (inl (e, done)) = absurd (not_reused cfg v a w' (rw e at k))
      finish r v k (inr (user, i, e, done)) =
          let (d, t, u) = is_rotated cfg user i v a w' (rw e at k) in
          (user, i, subst (Replaced cfg raw user i w) (sym d) done, t, u)

  -- Where a search finds the token revoked, no refresh succeeds.
  revoked_is_refused :
      (w : World) (t : RefreshToken)
      → find (has_hash (cfg.hash_token raw)) w.db.refresh_tokens ≡ some t
      → is_live t ≡ false
      → (a : AuthResult) → ¬ ((refresh cfg raw meta w).0 ≡ ok a)
  revoked_is_refused w t h dead a r =
      let w' = (refresh cfg raw meta w).1 in
      let (user, i, done, _t, _u) = refresh-Replaced w a w' (ap (λ z. (z, w')) r) in
      let same : t ≡ done.stored = cc (sym h ∙ done.found) in
      cc (dead, ap is_live same, done.was_live)

-- A token that a revocation hits is found revoked.
found_revoked :
    (hash : String) (hit : RefreshToken → Bool) (at : ℕ) (d : Db) (t : RefreshToken)
    → find (has_hash hash) d.refresh_tokens ≡ some t
    → hit t ≡ true
    → (t' : RefreshToken) × (find (has_hash hash) (revoke_where hit at d).refresh_tokens ≡ some t')
      × (is_live t' ≡ false)
found_revoked hash hit at d t h k =
    let found =
      find-update_where (has_hash hash) (λ x. hit x && is_live x) (revoke at) d.refresh_tokens t
        (λ x. refl) h in
    elim (Bool-cases (is_live t)) [
      | inl e ↦ (revoke at t, found ∙ rw (k, e) refl, refl)
      | inr e ↦ (t, found ∙ rw (k, e) refl, e)
    ]

module _ (cfg : AuthConfig) (raw : String) (meta : RequestMeta) where
  -- A refresh token is exchanged at most once: right after a refresh that succeeds, the same token is
  -- refused, whichever round trips fail.
  pub refresh-once :
      (w : World) (a b : AuthResult) (again : RequestMeta) (v : World)
      → (refresh cfg raw meta w).0 ≡ ok a
      → v.db ≡ (refresh cfg raw meta w).1.db
      → ¬ ((refresh cfg raw again v).0 ≡ ok b)
  refresh-once w a b again v h at =
      let w' = (refresh cfg raw meta w).1 in
      let (user, i, done, _t, _u) = refresh-Replaced cfg raw meta w a w' (ap (λ z. (z, w')) h) in
      let hit = λ (t : RefreshToken). t.id == done.stored.id && is_live t in
      let before =
        find-append (has_hash (cfg.hash_token raw)) w.db.refresh_tokens (done.token ∷ [])
          done.stored done.found in
      let after =
        find-update_where (has_hash (cfg.hash_token raw)) hit (supersede i.id w.clock)
          (w.db.refresh_tokens ++ done.token ∷ []) done.stored (λ t. refl) before in
      let is_hit : hit done.stored ≡ true = rw (==_refl, done.was_live) refl in
      let found : find (has_hash (cfg.hash_token raw)) v.db.refresh_tokens
          ≡ some (supersede i.id w.clock done.stored) =
        ap (λ (z : Db). find (has_hash (cfg.hash_token raw)) z.refresh_tokens) (at ∙ done.written)
        ∙ after
        ∙ ap (λ c. some (if c then supersede i.id w.clock done.stored else done.stored)) is_hit in
      revoked_is_refused cfg raw again v (supersede i.id w.clock done.stored) found refl b

  -- While no round trip fails, a revoked token is answered with 401, and its whole family is revoked.
  pub refresh-reuse :
      (d : Db) (next clock : ℕ) (t : RefreshToken)
      → find (has_hash (cfg.hash_token raw)) d.refresh_tokens ≡ some t
      → is_live t ≡ false
      → ((refresh cfg raw meta (calm d next clock)).0 ≡ err (sentinel unauthorized))
        × (live_tokens t.family_id (refresh cfg raw meta (calm d next clock)).1.db ≡ 0)
  unfolding refresh refresh_tx rotate_or_revoke refreshed transaction rollback_on_error statement
      or_fail ◌>>=◌ get_refresh_token_by_hash revoke_refresh_token_family
  refresh-reuse d next clock t h dead =
      (rw (h, dead) refl, rw (h, dead) (family_is_revoked t.family_id clock d))

  -- While no round trip fails, a revoked token that is presented leaves the rows of all tokens of the
  -- other families as they were.
  pub refresh-reuse_spares :
      (d : Db) (next clock : ℕ) (t : RefreshToken)
      → find (has_hash (cfg.hash_token raw)) d.refresh_tokens ≡ some t
      → is_live t ≡ false
      → outside t.family_id (refresh cfg raw meta (calm d next clock)).1.db ≡ outside t.family_id d
  unfolding refresh refresh_tx rotate_or_revoke refreshed transaction rollback_on_error statement
      or_fail ◌>>=◌ get_refresh_token_by_hash revoke_refresh_token_family
  refresh-reuse_spares d next clock t h dead = rw (h, dead) (others_are_kept t.family_id clock d)

module _ (cfg : AuthConfig) where
  -- A logout that succeeds has revoked the family of the token, where the token is known.
  logout-written :
      (raw : String) (w : World) (t : RefreshToken) (w' : World)
      → find (has_hash (cfg.hash_token raw)) w.db.refresh_tokens ≡ some t
      → Returns (logout cfg raw) w tt w'
      → w'.db ≡ revoke_where (in_family t.family_id) w.clock w.db
  unfolding logout end_family statement or_fail ◌>>=◌ get_refresh_token_by_hash
      revoke_refresh_token_family round_trip run is_no_rows one
  logout-written raw w t w' h k = ground arith

module _ (cfg : AuthConfig) (raw : String) where
  logout_all-written :
      (user_id : ℕ) (w w' : World)
      → Returns (logout_all cfg user_id) w tt w'
      → w'.db ≡ revoke_where (λ t. t.user_id == user_id) w.clock w.db
  unfolding logout_all statement or_fail ◌>>=◌ revoke_all_user_refresh_tokens round_trip run
  logout_all-written user_id w w' k = ground arith

  revoked_rows_are_refused :
      (hit : RefreshToken → Bool) (at : ℕ) (w v : World) (meta : RequestMeta) (t : RefreshToken)
      (b : AuthResult)
      → find (has_hash (cfg.hash_token raw)) w.db.refresh_tokens ≡ some t
      → hit t ≡ true
      → v.db ≡ revoke_where hit at w.db
      → ¬ ((refresh cfg raw meta v).0 ≡ ok b)
  revoked_rows_are_refused hit at w v meta t b h k e =
      let (t', found, dead) = found_revoked (cfg.hash_token raw) hit at w.db t h k in
      revoked_is_refused cfg raw meta v t'
        (ap (λ (z : Db). find (has_hash (cfg.hash_token raw)) z.refresh_tokens) e ∙ found) dead b

  -- After a logout that succeeds, every token of the session is refused: those of the family of the
  -- token that was presented, whichever of them is presented next.
  pub logout-ends :
      (out : String) (meta : RequestMeta) (w v : World) (t s : RefreshToken) (b : AuthResult)
      → find (has_hash (cfg.hash_token out)) w.db.refresh_tokens ≡ some t
      → find (has_hash (cfg.hash_token raw)) w.db.refresh_tokens ≡ some s
      → s.family_id ≡ t.family_id
      → (logout cfg out w).0 ≡ ok tt
      → v.db ≡ (logout cfg out w).1.db
      → ¬ ((refresh cfg raw meta v).0 ≡ ok b)
  logout-ends out meta w v t s b ht hs same r e =
      let w' = (logout cfg out w).1 in
      revoked_rows_are_refused (in_family t.family_id) w.clock w v meta s b hs
        ((==_iff s.family_id t.family_id).1 same)
        (e ∙ logout-written cfg out w t w' ht (ap (λ z. (z, w')) r))

  -- After LogoutAll, every token of the user is refused.
  pub logout_all-ends :
      (user_id : ℕ) (meta : RequestMeta) (w v : World) (s : RefreshToken) (b : AuthResult)
      → find (has_hash (cfg.hash_token raw)) w.db.refresh_tokens ≡ some s
      → s.user_id ≡ user_id
      → (logout_all cfg user_id w).0 ≡ ok tt
      → v.db ≡ (logout_all cfg user_id w).1.db
      → ¬ ((refresh cfg raw meta v).0 ≡ ok b)
  logout_all-ends user_id meta w v s b hs same r e =
      let w' = (logout_all cfg user_id w).1 in
      revoked_rows_are_refused (λ t. t.user_id == user_id) w.clock w v meta s b hs
        ((==_iff s.user_id user_id).1 same)
        (e ∙ logout_all-written user_id w w' (ap (λ z. (z, w')) r))

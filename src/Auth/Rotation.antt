-- ===== src/Auth/Rotation.antt =====
-- internal/auth/service.go: what a run of Refresh that succeeds has read and written.
use team_flow.Prelude.{
  ℕ, ◌+◌, ◌≡◌, refl, sym, ap, subst, ◌∙◌, String, true, false, ◌&&◌, [], ◌∷◌, ◌++◌, Option, none,
  some, find, update_where, ◌==◌, ltb, str_eq_iff, Bool-cases, inl, inr, ◌⊎◌, arith,
}
use team_flow.Httpx.Errors.{wrap}
use team_flow.Database.Tables.{Db, RefreshToken, User}
use team_flow.Database.RefreshTokens.{
  is_live, has_hash, get_refresh_token_by_hash, revoke_refresh_token, revoke_where,
  revoke_refresh_token_family, in_family,
}
use team_flow.Database.Users.{get_user_by_id}
use team_flow.Database.Runs.{after, after_require, after_write_or_fail, one-ok}
use team_flow.Exec.{World, Result, ok, pure, now}
use team_flow.Exec.Rules.{Returns, pure-Returns}
use team_flow.Auth.Tokens.{AuthConfig, RequestMeta, IssuedRefresh, create_refresh_token}
use team_flow.Auth.Sessions.{Rotation, reused, rotated, rotate, rotate_or_revoke, refresh_tx}
use team_flow.Auth.Issued.{create_refresh_token-Issued}

-- The revocation of the token `id` in favour of the token `by`.
abbrev pub supersede : ℕ → ℕ → RefreshToken → RefreshToken
supersede by now t = record t { revoked_at = some now; replaced_by = some by }

abbrev pub replaced : ℕ → ℕ → ℕ → Db → Db
replaced id by now d = record d {
  refresh_tokens = update_where (λ t. t.id == id && is_live t) (supersede by now) d.refresh_tokens;
}

-- A refresh that replaces a token.
pub record Replaced (cfg : AuthConfig) (raw : String) (user : User) (i : IssuedRefresh) (w : World)
    (d' : Db) : Type 0 where
  pub stored : RefreshToken
  pub token : RefreshToken
  pub found : find (has_hash (cfg.hash_token raw)) w.db.refresh_tokens ≡ some stored
  pub was_live : is_live stored ≡ true
  pub not_expired : ltb stored.expires_at w.clock ≡ false
  pub user_found : find (λ u. u.id == stored.user_id) w.db.users ≡ some user
  pub user_active : user.status ≡ "active"
  pub of_family : token.family_id ≡ stored.family_id
  pub for_user : token.user_id ≡ user.id
  pub is_id : token.id ≡ i.id
  pub hashed : token.token_hash ≡ cfg.hash_token i.raw
  pub live : token.revoked_at ≡ none
  pub lasts : token.expires_at ≡ w.clock + cfg.refresh_ttl
  pub written :
      d'
      ≡ replaced stored.id i.id w.clock
          (record w.db { refresh_tokens = w.db.refresh_tokens ++ token ∷ [] })

revoke_refresh_token-ok :
    (id : ℕ) (by : Option ℕ) (next now : ℕ) (d d' : Db) (x : Unit {0})
    → revoke_refresh_token id by next now d ≡ ok (x, d')
    → d' ≡ record d {
      refresh_tokens =
          update_where
            (λ t. t.id == id && is_live t)
            (λ t. record t { revoked_at = some now; replaced_by = by })
            d.refresh_tokens;
    }
unfolding revoke_refresh_token
revoke_refresh_token-ok id by next now d d' x h = ground arith

-- What a rotation that succeeds has read and written.
pub rotate-Replaced :
    (cfg : AuthConfig) (raw : String) (stored : RefreshToken) (meta : RequestMeta) (w₀ w : World)
    (r : Rotation) (w' : World)
    → w.db ≡ w₀.db
    → w.clock ≡ w₀.clock
    → find (has_hash (cfg.hash_token raw)) w₀.db.refresh_tokens ≡ some stored
    → is_live stored ≡ true
    → Returns (rotate cfg stored meta) w r w'
    → (user : User) × (i : IssuedRefresh) × (r ≡ rotated user i) × Replaced cfg raw user i w₀ w'.db
unfolding rotate now get_user_by_id
rotate-Replaced cfg raw stored meta w₀ w r w' at clock found live h = after now _ w h λ t v s k.
    let same : v ≡ w = ap (λ (p : Result ℕ × World). p.1) (sym s) in
    let time : w.clock ≡ t = cc (ap (λ (p : Result ℕ × World). p.0) s) in
    after_require _ _ _ v k λ fresh k₁.
      after_write_or_fail _ _ _ v (ap (λ (z : World). z.db) same ∙ at) k₁ λ user v₂ e₂ c₂ n₂ k₂.
        let (eu, d₂) =
          one-ok (find (λ (u : User). u.id == stored.user_id) w₀.db.users) w₀.db v₂.db user e₂ in
        after_require _ _ _ v₂ k₂ λ active k₃.
          after (create_refresh_token cfg user.id stored.family_id meta) _ v₂ k₃ λ i v₃ s₃ k₄.
            let issued = create_refresh_token-Issued cfg user.id stored.family_id meta v₂ i v₃ s₃ in
            after_write_or_fail _ _ _ v₃ refl k₄ λ x v₄ e c n k₅.
              let (er, ew) = pure-Returns (rotated user i) v₄ r w' k₅ in
              let clock₂ : v₂.clock ≡ w₀.clock = c₂ ∙ ap (λ (z : World). z.clock) same ∙ clock in
              let clock₃ : v₃.clock ≡ w₀.clock = issued.same_clock ∙ clock₂ in
              let stored₃ : v₃.db
                  ≡ record w₀.db { refresh_tokens = w₀.db.refresh_tokens ++ issued.token ∷ [] } =
                issued.written
                ∙ ap
                    (λ (z : Db). record z {
                      refresh_tokens = z.refresh_tokens ++ issued.token ∷ [];
                    })
                    d₂ in
              let now₀ : t ≡ w₀.clock = sym time ∙ clock in
              (
                user,
                i,
                er,
                record {
                  stored = stored;
                  token = issued.token;
                  found = found;
                  was_live = live;
                  not_expired = subst (λ z. ltb stored.expires_at z ≡ false) now₀ (ground arith);
                  user_found = eu;
                  user_active = (str_eq_iff user.status "active").0 active;
                  of_family = issued.of_family;
                  for_user = issued.for_user;
                  is_id = issued.is_id;
                  hashed = issued.hashed;
                  live = issued.live;
                  lasts = issued.lasts ∙ ap (λ z. z + cfg.refresh_ttl) clock₂;
                  written =
                      ap (λ (z : World). z.db) ew
                      ∙ revoke_refresh_token-ok stored.id (some i.id) v₃.next_id v₃.clock v₃.db
                          v₄.db x e
                      ∙ ap (λ (z : Db). replaced stored.id i.id v₃.clock z) stored₃
                      ∙ ap
                          (λ z. replaced stored.id i.id z (record w₀.db {
                            refresh_tokens = w₀.db.refresh_tokens ++ issued.token ∷ [];
                          }))
                          clock₃;
                },
              )

-- A token that was revoked before: its family is revoked.
pub record Reused (cfg : AuthConfig) (raw : String) (w : World) (d' : Db) : Type 0 where
  pub stored : RefreshToken
  pub found : find (has_hash (cfg.hash_token raw)) w.db.refresh_tokens ≡ some stored
  pub was_revoked : is_live stored ≡ false
  pub written : d' ≡ revoke_where (in_family stored.family_id) w.clock w.db

abbrev pub Committed : AuthConfig → String → Rotation → World → Db → Type 0
Committed cfg raw r w d' =
    ((r ≡ reused) × Reused cfg raw w d')
    ⊎ ((user : User) × (i : IssuedRefresh) × (r ≡ rotated user i) × Replaced cfg raw user i w d')

revoke_family-ok :
    (family_id next now : ℕ) (d d' : Db) (x : Unit {0})
    → revoke_refresh_token_family family_id next now d ≡ ok (x, d')
    → d' ≡ revoke_where (in_family family_id) now d
unfolding revoke_refresh_token_family
revoke_family-ok family_id next now d d' x h = ground arith

module _ (cfg : AuthConfig) (raw : String) (meta : RequestMeta) (w₀ : World) where
  rotate_or_revoke-Returns :
      (stored : RefreshToken) (v : World) (r : Rotation) (w' : World)
      → v.db ≡ w₀.db
      → v.clock ≡ w₀.clock
      → find (has_hash (cfg.hash_token raw)) w₀.db.refresh_tokens ≡ some stored
      → Returns (rotate_or_revoke cfg stored meta) v r w'
      → Committed cfg raw r w₀ w'.db
  unfolding rotate_or_revoke
  rotate_or_revoke-Returns stored v r w' d c found k = elim (Bool-cases (is_live stored)) [
    | inl live ↦ inr (rotate-Replaced cfg raw stored meta w₀ v r w' d c found live (rw live at k))
    | inr dead ↦
        after_write_or_fail wrap (revoke_refresh_token_family stored.family_id) (λ _. pure reused) v
          d (rw dead at k)
          λ x u e cu nu k'.
            let (er, ew) = pure-Returns reused u r w' k' in
            inl (
              er,
              record {
                stored = stored;
                found = found;
                was_revoked = dead;
                written =
                    ap (λ (z : World). z.db) ew
                    ∙ revoke_family-ok stored.family_id v.next_id v.clock w₀.db u.db x e
                    ∙ ap (λ n. revoke_where (in_family stored.family_id) n w₀.db) c;
              },
            )
  ]

  -- What a transaction of Refresh that commits has read and written.
  pub refresh_tx-Committed :
      (w : World) (r : Rotation) (w' : World)
      → w.db ≡ w₀.db
      → w.clock ≡ w₀.clock
      → Returns (refresh_tx cfg raw meta) w r w'
      → Committed cfg raw r w₀ w'.db
  unfolding refresh_tx get_refresh_token_by_hash
  refresh_tx-Committed w r w' at clock h = after_write_or_fail _ _ _ w at h λ stored v e c n k.
      let (found, d) =
        one-ok (find (has_hash (cfg.hash_token raw)) w₀.db.refresh_tokens) w₀.db v.db stored e in
      rotate_or_revoke-Returns stored v r w' d (c ∙ clock) found k

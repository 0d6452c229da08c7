-- ===== src/Auth/Issued.antt =====
-- internal/auth/service.go: what createRefreshToken stores.
use team_flow.Prelude.{
  ℕ, suc, ◌+◌, ◌≤◌, ◌≡◌, refl, sym, ap, ◌∙◌, String, [], ◌∷◌, ◌++◌, none, arith,
}
use team_flow.Database.Tables.{Db, RefreshToken}
use team_flow.Database.Runs.{after, after_write_or_fail}
use team_flow.Exec.{World, Result, ◌>>=◌, or_fail, now, new_id}
use team_flow.Exec.Rules.{Returns, pure-Returns}
use team_flow.Auth.Tokens.{
  AuthConfig, RequestMeta, IssuedRefresh, create_refresh_token, generate_refresh_token,
}
use team_flow.Auth.Families.{insert-live}

-- A stored token that was issued: live, in the family and for the user named.
pub record Issued (cfg : AuthConfig) (user_id family_id : ℕ) (i : IssuedRefresh) (w w' : World)
    : Type 0 where
  pub token : RefreshToken
  pub written : w'.db ≡ record w.db { refresh_tokens = w.db.refresh_tokens ++ token ∷ [] }
  pub is_id : token.id ≡ i.id
  pub is_fresh : w.next_id ≤ token.id
  pub used : token.id ≤ w'.next_id
  pub for_user : token.user_id ≡ user_id
  pub of_family : token.family_id ≡ family_id
  pub hashed : token.token_hash ≡ cfg.hash_token i.raw
  pub live : token.revoked_at ≡ none
  pub lasts : token.expires_at ≡ w.clock + cfg.refresh_ttl
  pub same_clock : w'.clock ≡ w.clock

generated :
    (cfg : AuthConfig) (w : World) (raw : String) (v : World)
    → Returns (generate_refresh_token cfg) w raw v
    → v ≡ record w { next_id = suc w.next_id }
unfolding generate_refresh_token new_id or_fail ◌>>=◌
generated cfg w raw v h = ap (λ (p : Result String × World). p.1) (sym h)

pub create_refresh_token-Issued :
    (cfg : AuthConfig) (user_id family_id : ℕ) (meta : RequestMeta) (w : World) (i : IssuedRefresh)
    (w' : World)
    → Returns (create_refresh_token cfg user_id family_id meta) w i w'
    → Issued cfg user_id family_id i w w'
unfolding create_refresh_token now
create_refresh_token-Issued cfg user_id family_id meta w i w' h =
    after (generate_refresh_token cfg) _ w h λ raw v s k.
      let drawn = generated cfg w raw v s in
      after now _ v k λ at v₁ s₁ k₁.
        let same : v₁ ≡ v = ap (λ (p : Result ℕ × World). p.1) (sym s₁) in
        after_write_or_fail _ _ _ v₁ refl k₁ λ row v₂ e c n k₂.
          let (written, is_row) = insert-live _ _ _ _ _ _ _ _ _ _ row e in
          let (ei, ew) = pure-Returns _ v₂ i w' k₂ in
          let start = same ∙ drawn in
          let db₁ : v₁.db ≡ w.db = ap (λ (z : World). z.db) start in
          let id₁ : v₁.next_id ≡ suc w.next_id = ap (λ (z : World). z.next_id) start in
          let at₁ : v₁.clock ≡ w.clock = ap (λ (z : World). z.clock) start in
          let time : v.clock ≡ at = cc (ap (λ (p : Result ℕ × World). p.0) s₁) in
          let at₀ : v.clock ≡ w.clock = ap (λ (z : World). z.clock) drawn in
          let row_id : row.id ≡ v₁.next_id = ap (λ (z : RefreshToken). z.id) is_row in
          record {
            token = row;
            written =
                ap (λ (z : World). z.db) ew
                ∙ written
                ∙ ap (λ (z : Db). record z { refresh_tokens = z.refresh_tokens ++ row ∷ [] }) db₁;
            is_id = ap (λ (z : IssuedRefresh). z.id) (sym ei);
            is_fresh = omega (arith, row_id, id₁);
            used = rw ew (omega (arith, row_id, n));
            for_user = ap (λ (z : RefreshToken). z.user_id) is_row;
            of_family = ap (λ (z : RefreshToken). z.family_id) is_row;
            hashed =
                ap (λ (z : RefreshToken). z.token_hash) is_row
                ∙ ap (λ (z : IssuedRefresh). cfg.hash_token z.raw) (sym ei);
            live = ap (λ (z : RefreshToken). z.revoked_at) is_row;
            lasts =
                ap (λ (z : RefreshToken). z.expires_at) is_row
                ∙ ap (λ z. z + cfg.refresh_ttl) (sym time ∙ at₀);
            same_clock = ap (λ (z : World). z.clock) ew ∙ c ∙ at₁;
          }

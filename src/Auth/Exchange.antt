-- ===== src/Auth/Exchange.antt =====
-- internal/auth/service.go: Refresh keeps it so that a family has at most one live token.
use team_flow.Prelude.{
  ℕ, ◌≤◌, ◌≡◌, refl, sym, ap, subst, ◌∙◌, String, true, ◌&&◌, [], ◌∷◌, ◌++◌, ◌==◌, Bool-cases, inl,
  inr, arith, if◌then◌else◌, ==_refl, ==_iff, find-append, find-count_where,
  count-update_where_clears,
}
use team_flow.Database.Tables.{Db, RefreshToken, User}
use team_flow.Database.RefreshTokens.{is_live, has_hash, in_family}
use team_flow.Exec.{World, ◌>>=◌, or_fail, transaction, now, new_id}
use team_flow.Exec.Rules.{Reads}
use team_flow.Exec.Grows.{Grows, Returns-next, grows_rules}
use team_flow.Exec.Keeps.{Keeps, Keeps-bind, Keeps-pure, Keeps-Reads, Keeps-transaction}
use team_flow.Auth.Tokens.{
  AuthConfig, RequestMeta, IssuedRefresh, token_pair, generate_access_token, generate_refresh_token,
  create_refresh_token,
}
use team_flow.Auth.Sessions.{
  Rotation, reused, rotated, rotate, rotate_or_revoke, refresh_tx, refreshed, refresh,
}
use team_flow.Auth.Families.{
  Families, Families-next, Families-revoke_where, live_tokens, live_in, live-append,
}
use team_flow.Auth.Rotation.{supersede, replaced, Replaced, Committed, refresh_tx-Committed}

-- A rotation adds a token to the family and revokes the one that was presented.
Replaced-live :
    {cfg : AuthConfig} {raw : String} {user : User} {i : IssuedRefresh} {w : World} {d' : Db}
    → Replaced cfg raw user i w d'
    → (k : ℕ) → live_tokens k d' ≤ live_tokens k w.db
Replaced-live {cfg} {raw} {i = i} {w = w} {d' = d'} r k =
    let hit = λ (t : RefreshToken). t.id == r.stored.id && is_live t in
    let both = w.db.refresh_tokens ++ r.token ∷ [] in
    let cleared =
      count-update_where_clears (live_in k) hit (supersede i.id w.clock) both λ t h. ground arith in
    let added = live-append k w.db.refresh_tokens r.token r.live in
    let before =
      find-append (has_hash (cfg.hash_token raw)) w.db.refresh_tokens (r.token ∷ []) r.stored
        r.found in
    let count : live_tokens k d'
        ≡ live_tokens k
            (replaced r.stored.id i.id w.clock (record w.db { refresh_tokens = both })) =
      ap (λ z. live_tokens k z) r.written in
    elim (Bool-cases (r.token.family_id == k)) [
      | inl e ↦
          let same : r.stored.family_id ≡ k = sym r.of_family ∙ (==_iff r.token.family_id k).0 e in
          let test : live_in k r.stored && hit r.stored ≡ true =
            rw (same, r.was_live, ==_refl r.stored.id, ==_refl k) refl in
          let hits =
            find-count_where (has_hash (cfg.hash_token raw)) (λ t. live_in k t && hit t) both
              r.stored before test in
          let one : ◌≡◌ {A = ℕ} (if r.token.family_id == k then 1 else 0) 1 = rw e refl in
          omega (arith, cleared, added, one, count, hits)
      | inr e ↦
          let none_added : ◌≡◌ {A = ℕ} (if r.token.family_id == k then 1 else 0) 0 = rw e refl in
          omega (arith, cleared, added, none_added, count)
    ]

pub mono : (n n' : ℕ) (d : Db) → Families n d → n ≤ n' → Families n' d
mono n n' d inv h = Families-next n n' d inv h

refresh_tx-Grows :
    (cfg : AuthConfig) (raw : String) (meta : RequestMeta) → Grows (refresh_tx cfg raw meta)
unfolding refresh_tx rotate_or_revoke rotate create_refresh_token generate_refresh_token
refresh_tx-Grows cfg raw meta = search grows_rules depth 14

pub token_pair-Reads :
    (cfg : AuthConfig) (user_id : ℕ) (raw : String) → Reads (token_pair cfg user_id raw)
unfolding token_pair generate_access_token now new_id or_fail ◌>>=◌
token_pair-Reads cfg user_id raw w = ground arith

pub token_pair-Grows :
    (cfg : AuthConfig) (user_id : ℕ) (raw : String) → Grows (token_pair cfg user_id raw)
unfolding token_pair generate_access_token
token_pair-Grows cfg user_id raw = search grows_rules depth 9

pub token_pair-Keeps :
    (cfg : AuthConfig) (user_id : ℕ) (raw : String) → Keeps Families (token_pair cfg user_id raw)
token_pair-Keeps cfg user_id raw =
    Keeps-Reads Families (token_pair cfg user_id raw) mono (token_pair-Reads cfg user_id raw)
      (token_pair-Grows cfg user_id raw)

refreshed-Keeps : (cfg : AuthConfig) (r : Rotation) → Keeps Families (refreshed cfg r)
unfolding refreshed
refreshed-Keeps cfg reused = record { at = λ w p. p }
refreshed-Keeps cfg (rotated user issued) =
    Keeps-bind Families (token_pair cfg user.id issued.raw) _
      (token_pair-Keeps cfg user.id issued.raw) λ tokens. Keeps-pure Families _

Committed-Families :
    {cfg : AuthConfig} {raw : String} {r : Rotation} {w : World} {d' : Db}
    → Committed cfg raw r w d'
    → Families w.next_id w.db
    → Families w.next_id d'
Committed-Families {w = w} (inl (e, done)) inv =
    subst (Families w.next_id) (sym done.written)
      (Families-revoke_where (in_family done.stored.family_id) w.clock w.next_id w.db inv)
Committed-Families (inr (user, i, e, done)) inv = record {
  once = λ k. omega (arith, Replaced-live done k, inv.once k);
  unused = λ k p. omega (arith, Replaced-live done k, inv.unused k p);
}

pub refresh-Keeps :
    (cfg : AuthConfig) (raw : String) (meta : RequestMeta) → Keeps Families (refresh cfg raw meta)
unfolding refresh
refresh-Keeps cfg raw meta =
    Keeps-bind Families (transaction (refresh_tx cfg raw meta)) (refreshed cfg)
      (Keeps-transaction Families (refresh_tx cfg raw meta) mono (refresh_tx-Grows cfg raw meta)
        λ w r u inv run.
          mono w.next_id u.next_id u.db
            (Committed-Families (refresh_tx-Committed cfg raw meta w w r u refl refl run) inv)
            (Returns-next (refresh_tx cfg raw meta) w r u (refresh_tx-Grows cfg raw meta) run))
      (refreshed-Keeps cfg)

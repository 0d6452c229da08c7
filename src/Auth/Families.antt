-- ===== src/Auth/Families.antt =====
-- The refresh tokens of a family that are still live, under the statements on internal/db's
-- refresh_tokens.
use team_flow.Prelude.{
  ℕ, ◌+◌, ◌≤◌, ◌≡◌, refl, ap, ◌∙◌, String, Bool, true, false, ◌&&◌, List, [], ◌∷◌, ◌++◌, Option,
  none, some, find, count_where, ◌==◌, Bool-cases, inl, inr, arith, if◌then◌else◌,
  count_where-append, count-update_where_clears, count-le-count, find-count_where, ==_refl, select,
  not, select-update_where,
}
use team_flow.Database.Tables.{Db, RefreshToken}
use team_flow.Database.RefreshTokens.{
  is_live, in_family, revoke, revoke_where, create_refresh_token,
}
use team_flow.Exec.{ok}

abbrev pub live_in : ℕ → RefreshToken → Bool
live_in family_id t = in_family family_id t && is_live t

-- How many tokens of a family can still be exchanged.
abbrev pub live_tokens : ℕ → Db → ℕ
live_tokens family_id d = count_where (live_in family_id) d.refresh_tokens

-- `next` is the first identifier not used.
pub record Families (next : ℕ) (d : Db) : Type 0 where
  pub once : (k : ℕ) → live_tokens k d ≤ 1
  pub unused : (k : ℕ) → next ≤ k → live_tokens k d ≡ 0

pub Families-next : (next next' : ℕ) (d : Db) → Families next d → next ≤ next' → Families next' d
Families-next next next' d inv h = record {
  once = inv.once;
  unused = λ k p. inv.unused k (omega arith);
}

pub Families-others :
    (next : ℕ) (d d' : Db)
    → Families next d
    → d'.refresh_tokens ≡ d.refresh_tokens
    → Families next d'
Families-others next d d' inv e = record {
  once = λ k. rw e (inv.once k);
  unused = λ k p. rw e (inv.unused k p);
}

pub insert-live :
    (user_id family_id : ℕ) (hash : String) (expires_at : ℕ) (agent address : Option String)
    (next now : ℕ) (d d' : Db) (t : RefreshToken)
    → create_refresh_token user_id family_id hash expires_at agent address next now d ≡ ok (t, d')
    → (d' ≡ record d { refresh_tokens = d.refresh_tokens ++ t ∷ [] })
      × (t ≡ record {
        id = next;
        user_id = user_id;
        family_id = family_id;
        token_hash = hash;
        expires_at = expires_at;
        revoked_at = none;
        replaced_by = none;
        user_agent = agent;
        ip_address = address;
        created_at = now;
      })
unfolding create_refresh_token
insert-live user_id family_id hash expires_at agent address next now d d' t h = ground arith

-- One more live token, in its own family only.
pub live-append :
    (k : ℕ) (ts : List RefreshToken) (t : RefreshToken)
    → t.revoked_at ≡ none
    → count_where (live_in k) (ts ++ t ∷ [])
      ≡ count_where (live_in k) ts + (if t.family_id == k then 1 else 0)
unfolding count_where
live-append k ts t live =
    let one : count_where (live_in k) (t ∷ []) ≡ (if t.family_id == k then 1 else 0) =
      elim (Bool-cases (t.family_id == k)) [
        | inl e ↦ rw (live, e) refl
        | inr e ↦ rw (live, e) refl
      ] in
    count_where-append (live_in k) ts (t ∷ []) ∙ ap (λ n. count_where (live_in k) ts + n) one

-- What a revocation hits is live no more, and nothing else changes.
pub live-revoke_where :
    (k : ℕ) (hit : RefreshToken → Bool) (now : ℕ) (d : Db)
    → live_tokens k (revoke_where hit now d)
        + count_where (λ t. live_in k t && (hit t && is_live t)) d.refresh_tokens
      ≡ live_tokens k d
live-revoke_where k hit now d =
    count-update_where_clears (live_in k) (λ t. hit t && is_live t) (revoke now) d.refresh_tokens
      λ t h. ground arith

pub Families-revoke_where :
    (hit : RefreshToken → Bool) (now next : ℕ) (d : Db)
    → Families next d
    → Families next (revoke_where hit now d)
Families-revoke_where hit now next d inv = record {
  once = λ k. omega (arith, inv.once k, live-revoke_where k hit now d);
  unused = λ k p. omega (arith, inv.unused k p, live-revoke_where k hit now d);
}

-- Once a family is revoked nothing of it is live.
pub family_is_revoked :
    (family_id now : ℕ) (d : Db)
    → live_tokens family_id (revoke_where (in_family family_id) now d) ≡ 0
family_is_revoked family_id now d =
    let hits =
      count-le-count (live_in family_id)
        (λ t. live_in family_id t && (in_family family_id t && is_live t)) d.refresh_tokens
        λ t h. ground arith in
    omega (arith, hits, live-revoke_where family_id (in_family family_id) now d)

-- The tokens of the other families, revoked ones too.
abbrev pub outside : ℕ → Db → List RefreshToken
outside family_id d = select (λ t. not (in_family family_id t)) d.refresh_tokens

pub others_are_kept :
    (family_id now : ℕ) (d : Db)
    → outside family_id (revoke_where (in_family family_id) now d) ≡ outside family_id d
others_are_kept family_id now d =
    select-update_where (λ t. not (in_family family_id t)) (λ t. in_family family_id t && is_live t)
      (revoke now) d.refresh_tokens λ t h. (ground arith, ground arith)

-- A search for a token that is still live counts it.
pub live-find :
    (p : RefreshToken → Bool) (d : Db) (t : RefreshToken)
    → find p d.refresh_tokens ≡ some t
    → is_live t ≡ true
    → 1 ≤ live_tokens t.family_id d
live-find p d t h live =
    find-count_where p (live_in t.family_id) d.refresh_tokens t h (rw (live, ==_refl) refl)

-- A family that is revoked keeps no token that a search could find live.
pub dead_family :
    (p : RefreshToken → Bool) (d : Db) (t : RefreshToken)
    → find p d.refresh_tokens ≡ some t
    → live_tokens t.family_id d ≡ 0
    → is_live t ≡ false
dead_family p d t h dead = elim (Bool-cases (is_live t)) [
  | inl e ↦ absurd (omega (arith, live-find p d t h e))
  | inr e ↦ e
]

-- ===== src/Auth/Issue.antt =====
-- internal/auth/service.go: a new session starts a family with one live token.
use team_flow.Prelude.{
  ℕ, suc, ◌+◌, ◌≤◌, ◌≡◌, refl, sym, ap, subst, ◌∙◌, ◌==◌, Bool-cases, inl, inr, arith,
  if◌then◌else◌, ==_iff,
}
use team_flow.Httpx.Errors.{wrap}
use team_flow.Database.Tables.{Db}
use team_flow.Exec.{
  World, Query, Result, ok, err, round_trip, run, settle, next_fault, later_faults, ◌>>=◌, or_fail,
  statement, now, new_id,
}
use team_flow.Exec.Rules.{Atomic, Reads, bind-Atomic, map-Atomic, or_fail-Atomic}
use team_flow.Exec.Grows.{Grows, grows_rules, atomic_induction}
use team_flow.Exec.Keeps.{Keeps, bind-at}
use team_flow.Auth.Tokens.{
  AuthConfig, RequestMeta, token_pair, generate_refresh_token, create_refresh_token, issue_session,
}
use team_flow.Auth.Sessions.{start_session}
use team_flow.Auth.Families.{Families, live_tokens, live-append}
use team_flow.Auth.Issued.{create_refresh_token-Issued}
use team_flow.Auth.Exchange.{mono, token_pair-Keeps}

-- A statement that fails changes no row.
statement-Atomic : {A : Type 0} (q : Query A) → Atomic (statement q)
unfolding statement round_trip run ◌>>=◌
statement-Atomic {A} q w e h = elim (Bool-cases (next_fault w.faults)) [
  | inl f ↦ rw f refl
  | inr f ↦ rw f (settled (q w.next_id w.clock w.db) (rw f at h))
]
  where
    settled :
        (r : Result (A × Db))
        → (settle r (record w { faults = later_faults w.faults; next_id = suc w.next_id })).0
          ≡ err e
        → (settle r (record w { faults = later_faults w.faults; next_id = suc w.next_id })).1.db
          ≡ w.db
    settled (ok (a, d)) k = absurd (cc k)
    settled (err x) k = refl

pub generate-Reads : (cfg : AuthConfig) → Reads (generate_refresh_token cfg)
unfolding generate_refresh_token new_id or_fail ◌>>=◌
generate-Reads cfg w = refl

pub now-Reads : Reads now
unfolding now
now-Reads w = refl

create_refresh_token-Atomic :
    (cfg : AuthConfig) (user_id family_id : ℕ) (meta : RequestMeta)
    → Atomic (create_refresh_token cfg user_id family_id meta)
unfolding create_refresh_token
create_refresh_token-Atomic cfg user_id family_id meta =
    bind-Atomic (generate_refresh_token cfg) _ (generate-Reads cfg) λ raw.
      bind-Atomic now _ now-Reads λ at. map-Atomic _ _ (or_fail-Atomic wrap _ (statement-Atomic _))

create_refresh_token-Grows :
    (cfg : AuthConfig) (user_id family_id : ℕ) (meta : RequestMeta)
    → Grows (create_refresh_token cfg user_id family_id meta)
unfolding create_refresh_token generate_refresh_token
create_refresh_token-Grows cfg user_id family_id meta = search grows_rules depth 9

-- A token of a family that has none.
create_refresh_token-Families :
    (cfg : AuthConfig) (user_id family_id : ℕ) (meta : RequestMeta) (w : World)
    → Families w.next_id w.db
    → live_tokens family_id w.db ≡ 0
    → family_id + 1 ≤ w.next_id
    → Families
        (create_refresh_token cfg user_id family_id meta w).1.next_id
        (create_refresh_token cfg user_id family_id meta w).1.db
create_refresh_token-Families cfg user_id family_id meta w inv none_live taken =
    let m = create_refresh_token cfg user_id family_id meta in
    let more = (create_refresh_token-Grows cfg user_id family_id meta).at w in
    atomic_induction (Families (m w).1.next_id) m w
      (create_refresh_token-Atomic cfg user_id family_id meta)
      (mono w.next_id (m w).1.next_id w.db inv more)
      λ i r.
        let issued = create_refresh_token-Issued cfg user_id family_id meta w i (m w).1 r in
        let count = λ (k : ℕ).
          ap (λ (z : Db). live_tokens k z) issued.written
          ∙ live-append k w.db.refresh_tokens issued.token issued.live in
        record {
          once = λ k. elim (Bool-cases (issued.token.family_id == k)) [
            | inl e ↦
                let same : family_id ≡ k =
                  sym issued.of_family ∙ (==_iff issued.token.family_id k).0 e in
                let none_yet : live_tokens k w.db ≡ 0 =
                  subst (λ z. live_tokens z w.db ≡ 0) same none_live in
                let one : ◌≡◌ {A = ℕ} (if issued.token.family_id == k then 1 else 0) 1 =
                  rw e refl in
                omega (arith, count k, none_yet, one)
            | inr e ↦
                let no_more : ◌≡◌ {A = ℕ} (if issued.token.family_id == k then 1 else 0) 0 =
                  rw e refl in
                omega (arith, count k, inv.once k, no_more)
          ];
          unused = λ k p. elim (Bool-cases (issued.token.family_id == k)) [
            | inl e ↦
                let same : family_id ≡ k =
                  sym issued.of_family ∙ (==_iff issued.token.family_id k).0 e in
                absurd (omega (arith, same, taken, more, p))
            | inr e ↦
                let no_more : ◌≡◌ {A = ℕ} (if issued.token.family_id == k then 1 else 0) 0 =
                  rw e refl in
                omega (arith, count k, inv.unused k (omega (arith, p, more)), no_more)
          ];
        }

pub start_session-Keeps :
    (cfg : AuthConfig) (user_id : ℕ) (meta : RequestMeta)
    → Keeps Families (start_session cfg user_id meta)
unfolding start_session issue_session new_id ◌>>=◌
start_session-Keeps cfg user_id meta = record {
  at = λ w inv.
      let w₁ : World = record w { next_id = suc w.next_id } in
      bind-at Families (create_refresh_token cfg user_id w.next_id meta)
        (λ refresh. token_pair cfg user_id refresh.raw) w₁
        (create_refresh_token-Families cfg user_id w.next_id meta w₁
          (mono w.next_id (suc w.next_id) w.db inv (omega arith))
          (inv.unused w.next_id (omega arith)) (omega arith))
        λ refresh. token_pair-Keeps cfg user_id refresh.raw;
}

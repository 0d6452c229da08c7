-- ===== src/ApiKeys/Credentials.antt =====
-- internal/apikeys/service.go: what passes Authenticate, and that a revoked key does not.
use team_flow.Prelude.{
  ℕ, ◌≡◌, refl, sym, ap, subst, ◌∙◌, String, Bool, true, false, not, some, find, update_where, ◌==◌,
  ==_refl, ltb, str_eq, str_eq_iff, inl, inr, Bool-cases, arith, if◌then◌else◌, find-update_where,
}
use team_flow.Database.Tables.{Db, User, ApiKey}
use team_flow.Database.Users.{get_user_by_id}
use team_flow.Database.ApiKeys.{
  get_api_key_by_hash, get_api_key_by_id, has_key_hash, is_unrevoked, to_revoke, revoke_api_key,
  set_key_revoked,
}
use team_flow.Database.Runs.{
  after, after_require, after_write, after_write_or_fail, after_tx, one-ok,
}
use team_flow.Exec.{World, Result, ok, now, or_fail, round_trip}
use team_flow.Exec.Rules.{now-Returns, Returns, pure-Returns, with_tenant_tx-Returns}
use team_flow.Organizations.Access.{authorize-db}
use team_flow.Organizations.Tenant.{authorize, Tenant}
use team_flow.Invitations.Manage.{record_tx}
use team_flow.ApiKeys.Service.{
  ApiKeyConfig, Principal, valid_key_format, key_status, key_owner, authenticate, revoke_key_tx,
  revoke_key,
}

status_of :
    (live late : Bool)
    → str_eq (if not live then "revoked" else if late then "expired" else "active") "active" ≡ true
    → (live ≡ true) × (late ≡ false)
status_of true false h = (refl, refl)
status_of true true h = absurd (cc h)
status_of false late h = absurd (cc h)

-- Only a key that is neither revoked nor expired is active.
active_lem :
    (k : ApiKey) (at : ℕ)
    → str_eq (key_status k at) "active" ≡ true
    → (is_unrevoked k ≡ true) × (ltb k.expires_at at ≡ false)
unfolding key_status
active_lem k at h = status_of (is_unrevoked k) (ltb k.expires_at at) h

module _ (cfg : ApiKeyConfig) where
  -- The key is stored under the hash of what was presented, is neither revoked nor expired, and its
  -- creator is an active user; the principal is that user, with the key's organization.
  pub record Passed (raw : String) (w : World) (p : Principal) : Type 0 where
    pub key : ApiKey
    pub user : User
    pub well_formed : valid_key_format raw ≡ true
    pub found : find (has_key_hash (cfg.hash_key raw)) w.db.api_keys ≡ some key
    pub unrevoked : is_unrevoked key ≡ true
    pub in_time : ltb key.expires_at w.clock ≡ false
    pub creator : find (λ u. u.id == key.created_by) w.db.users ≡ some user
    pub is_active : user.status ≡ "active"
    pub principal_is : p ≡ record {
      user_id = user.id;
      method = "api_key";
      api_key_id = key.id;
      organization_id = key.organization_id;
    }

  owner-Returns :
      (k : ApiKey) (w : World) (u : User) (v : World)
      → Returns (key_owner cfg k) w u v
      → (find (λ u. u.id == k.created_by) w.db.users ≡ some u) × (u.status ≡ "active")
  unfolding key_owner get_user_by_id
  owner-Returns k w u v h = after_write_or_fail _ _ _ w refl h λ a x q c n k₁.
      let (found, same) = one-ok _ w.db x.db a q in
      after_require _ _ _ x k₁ λ good k₂.
        let is = (pure-Returns a x u v k₂).0 in
        subst (λ z. (find (λ u. u.id == k.created_by) w.db.users ≡ some z) × (z.status ≡ "active"))
          (sym is) (found, (str_eq_iff a.status "active").0 good)

  -- A key that passes Authenticate is stored under the hash of what was presented, is neither revoked
  -- nor expired, and its creator is an active user; the principal is that user, with the key's
  -- organization.
  pub authenticate-Passed :
      (raw : String) (w : World) (p : Principal)
      → (authenticate cfg raw w).0 ≡ ok p
      → Passed raw w p
  unfolding authenticate get_api_key_by_hash
  authenticate-Passed raw w p h =
      after_require _ _ _ w (ap (λ (r : Result Principal). (r, (authenticate cfg raw w).1)) h)
        λ formed k₁. after_write_or_fail _ _ _ w refl k₁ λ k w₂ q c n k₂.
          let (found, same) = one-ok _ w.db w₂.db k q in
          after now _ w₂ k₂ λ at w₃ r₃ k₃.
            let (time, on) = now-Returns w₂ at w₃ r₃ in
            after_require _ _ _ w₃ k₃ λ active k₄.
              let (live, soon) = active_lem k at active in
              after_tx _ _ _ w₃ (ap (λ (z : World). z.db) on ∙ same) k₄ λ u v v' x dv nv rv su k₅.
                let (creator, is_active) = owner-Returns k v u v' rv in
                after _ _ x k₅ λ y z r₆ k₆. record {
                  key = k;
                  user = u;
                  well_formed = formed;
                  found = found;
                  unrevoked = live;
                  in_time = subst (λ t. ltb k.expires_at t ≡ false) (time ∙ c) soon;
                  creator =
                      subst (λ (d : Db). find (λ u. u.id == k.created_by) d.users ≡ some u) dv
                        creator;
                  is_active = is_active;
                  principal_is = (pure-Returns _ z p _ k₆).0;
                }

recorded-db : (w : World) (v : World) → Returns record_tx w tt v → v.db ≡ w.db
unfolding record_tx or_fail round_trip
recorded-db w v h = ground arith

-- What the transaction of Revoke has done where it succeeds.
revoke_key_tx-keys :
    (org_id id : ℕ) (w v : World)
    → Returns (revoke_key_tx org_id id) w tt v
    → (at stamp : ℕ) × (v.db.api_keys
        ≡ update_where (to_revoke id org_id) (set_key_revoked at stamp) w.db.api_keys)
unfolding revoke_key_tx get_api_key_by_id revoke_api_key
revoke_key_tx-keys org_id id w v h = after_write_or_fail _ _ _ w refl h λ k w₁ q₁ c₁ n₁ k₁.
    let (_, same) = one-ok _ w.db w₁.db k q₁ in
    after_require _ _ _ w₁ k₁ λ live k₂. after now _ w₁ k₂ λ at w₂ r₂ k₃.
      let (time, on) = now-Returns w₁ at w₂ r₂ in
      after_write _ _ w₂ (ap (λ (z : World). z.db) on ∙ same) k₃ λ u w₃ q₃ c₃ n₃ k₄.
        let (_, done) = one-ok _ _ w₃.db u q₃ in
        (at, w₂.clock, ap (λ (d : Db). d.api_keys) (recorded-db w₃ v k₄ ∙ done))

revoke_key-keys :
    (user_id org_id id : ℕ) (w v : World)
    → Returns (revoke_key user_id org_id id) w tt v
    → (at stamp : ℕ) × (v.db.api_keys
        ≡ update_where (to_revoke id org_id) (set_key_revoked at stamp) w.db.api_keys)
unfolding revoke_key
revoke_key-keys user_id org_id id w v h =
    after (authorize user_id org_id "api_keys.manage") _ w h λ t x r k.
      let (y, u, body, sy, su) = with_tenant_tx-Returns org_id (revoke_key_tx org_id id) x tt v k in
      let (at, stamp, keys) = revoke_key_tx-keys org_id id y u body in
      let same : y.db ≡ w.db =
        sy.same_db
        ∙ ap (λ (z : Result Tenant × World). z.1.db) (sym r)
        ∙ authorize-db user_id org_id "api_keys.manage" w in
      (
        at,
        stamp,
        ap (λ (d : Db). d.api_keys) su.same_db
            ∙ keys
            ∙ ap
                (λ (d : Db).
                  update_where (to_revoke id org_id) (set_key_revoked at stamp) d.api_keys)
                same,
      )

-- A key that a revocation names is revoked afterwards.
revoked_twice :
    (k : ApiKey) (id org_id t stamp : ℕ)
    → k.id ≡ id
    → k.organization_id ≡ org_id
    → ¬ (is_unrevoked (if to_revoke id org_id k then set_key_revoked t stamp k else k) ≡ true)
revoked_twice k id org_id t stamp same_id same_org h =
    let after_hit =
      λ (b : Bool). is_unrevoked (if b then set_key_revoked t stamp k else k) ≡ true in
    elim (Bool-cases (to_revoke id org_id k)) [
      | inl hit ↦ absurd (cc (subst after_hit hit h))
      | inr miss ↦
          (let live : is_unrevoked k ≡ true = subst after_hit miss h in
            let hit : to_revoke id org_id k ≡ true =
              rw (same_id, same_org, ==_refl id, ==_refl org_id, live) refl in
            absurd (cc (sym hit ∙ miss)))
    ]

-- After a key was revoked, it is refused, whichever round trips fail.
pub revoke_key-ends :
    (cfg : ApiKeyConfig) (raw : String) (user_id org_id id : ℕ) (w v : World) (k : ApiKey)
    (p : Principal)
    → find (has_key_hash (cfg.hash_key raw)) w.db.api_keys ≡ some k
    → k.id ≡ id
    → k.organization_id ≡ org_id
    → (revoke_key user_id org_id id w).0 ≡ ok tt
    → v.db ≡ (revoke_key user_id org_id id w).1.db
    → ¬ ((authenticate cfg raw v).0 ≡ ok p)
revoke_key-ends cfg raw user_id org_id id w v k p found same_id same_org done at passed =
    let w' = (revoke_key user_id org_id id w).1 in
    let (t, stamp, keys) =
      revoke_key-keys user_id org_id id w w' (ap (λ (r : Result (Unit {0})). (r, w')) done) in
    let a = authenticate-Passed cfg raw v p passed in
    let hit = to_revoke id org_id in
    let now_found =
      ap (λ (d : Db). find (has_key_hash (cfg.hash_key raw)) d.api_keys) at
      ∙ ap (find (has_key_hash (cfg.hash_key raw))) keys
      ∙ find-update_where (has_key_hash (cfg.hash_key raw)) hit (set_key_revoked t stamp)
          w.db.api_keys k (λ x. refl) found in
    let one : a.key ≡ (if hit k then set_key_revoked t stamp k else k) =
      cc (sym a.found ∙ now_found) in
    revoked_twice k id org_id t stamp same_id same_org (sym (ap is_unrevoked one) ∙ a.unrevoked)

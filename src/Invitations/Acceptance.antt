-- ===== src/Invitations/Acceptance.antt =====
-- internal/invitations/service.go: the transaction of Accept, and what it does to the ledger.
use team_flow.Prelude.{
  ℕ, ◌≤◌, ◌≡◌, refl, sym, ap, subst, ◌∙◌, String, true, false, some, List, bit, count-insert,
  append_assoc, [], ◌∷◌, ◌++◌, find, ◌==◌, str_eq_iff, inl, inr, arith, ◌⊎◌, find-holds, found_same,
  ==_refl, length-insert,
}
use team_flow.Database.Tables.{Db, Membership, Invitation}
use team_flow.Database.Invitations.{
  get_invitation_by_token_hash, has_token, is_pending, pending_key, invitation_key, set_expired,
  set_accepted, mark_invitation_expired,
}
use team_flow.Database.Runs.{after_if, after_read_or_fail, after_write_or_fail}
use team_flow.Exec.{World}
use team_flow.Exec.Rules.{Returns, pure-Returns, fail-Returns}
use team_flow.Invitations.Model.{InviteConfig, AcceptInput, is_usable, unusable}
use team_flow.Invitations.Accept.{Acceptance, lapsed, lapse, use_invitation, accept_tx}
use team_flow.Invitations.Ledger.{
  Tidy-others, Ledger, Updated, update_invitation-Updated, is_accepted, accepted_as, is_member,
}
use team_flow.Invitations.Joining.{Joined, join-Joined}
use team_flow.Invitations.Statements.{Updated-Tidy, Updated-Ledger}

module _ (cfg : InviteConfig) where
  -- An expiry that was noticed: the row is marked.
  pub record Lapsed (i : Invitation) (at : ℕ) (d d' : Db) (r : Acceptance) : Type 0 where
    pub answer : r ≡ lapsed
    pub was_pending : is_pending i ≡ true
    pub too_late : is_usable i at ≡ false
    pub stamp : ℕ
    pub marked : Invitation
    pub updated : Updated (pending_key i.id i.organization_id) set_expired stamp d d' marked

  -- What the transaction commits, for the invitation that it found.
  abbrev pub Committed : Invitation → ℕ → ℕ → Db → Db → Acceptance → Type 0
  Committed i at user_id d d' r =
      (is_usable i at ≡ true) × Joined cfg i at user_id d d' r ⊎ Lapsed i at d d' r

  lapse-Lapsed :
      (i : Invitation) (at : ℕ) (w : World) (r : Acceptance) (v : World)
      → is_pending i ≡ true
      → is_usable i at ≡ false
      → Returns (lapse cfg i) w r v
      → Lapsed i at w.db v.db r
  unfolding lapse mark_invitation_expired
  lapse-Lapsed i at w r v p late h = after_write_or_fail _ _ _ w refl h λ marked w₁ q₁ c₁ n₁ k₁.
      let (e, last) = pure-Returns lapsed w₁ r v k₁ in
      record {
        answer = e;
        was_pending = p;
        too_late = late;
        stamp = w.clock;
        marked = marked;
        updated =
            subst
              (λ (z : World).
                Updated (pending_key i.id i.organization_id) set_expired w.clock w.db z.db marked)
              (sym last)
              (update_invitation-Updated (pending_key i.id i.organization_id) set_expired w.next_id
                w.clock w.db w₁.db marked q₁);
      }

  pub accept_tx-Committed :
      (token : String) (at user_id : ℕ) (input : AcceptInput) (hash : String) (w : World)
      (r : Acceptance) (v : World)
      → Returns (accept_tx cfg token at user_id input hash) w r v
      → (i : Invitation) × (find (has_token (cfg.hash_token token)) w.db.invitations ≡ some i)
        × Committed i at user_id w.db v.db r
  unfolding accept_tx use_invitation get_invitation_by_token_hash
  accept_tx-Committed token at user_id input hash w r v h =
      after_read_or_fail _ _ _ w refl h λ i w₁ d₁ n₁ p₁ k₁.
        after_if (is_usable i at) _ _ k₁
          (λ usable k. (
            i,
            p₁,
            inl (
              usable,
              subst (λ (z : Db). Joined cfg i at user_id z v.db r) d₁
                  (join-Joined cfg i at user_id input hash w₁ r v k),
            ),
          ))
          λ late k₂.
            after_if (is_pending i) _ _ k₂
              (λ pending k. (
                i,
                p₁,
                inr (
                    subst (λ (z : Db). Lapsed i at z v.db r) d₁
                      (lapse-Lapsed i at w₁ r v pending late k)),
              ))
              λ settled k. absurd (fail-Returns (unusable i at) w₁ r v k)

  module _ (base : List Membership) (i : Invitation) (at : ℕ) (d d' : Db) (r : Acceptance)
      (next next' : ℕ) (le : next ≤ next') (l : Ledger cfg.fold base next d) where
    pub Lapsed-Ledger : Lapsed i at d d' r → Ledger cfg.fold base next' d'
    Lapsed-Ledger s =
        Updated-Ledger cfg.fold base (pending_key i.id i.organization_id) set_expired i.id
          (λ x h. ground arith)
          (record { same_id = λ x. refl; same_organization = λ x. refl; same_email = λ x. refl })
          next next' s.stamp d d' s.marked le (λ row e p. absurd (cc p))
          (λ row e.
            let hit = find-holds (pending_key i.id i.organization_id) d.invitations row e in
            let p : row.status ≡ "pending" = (str_eq_iff _ _).0 (ground arith) in (rw p refl, refl))
          l s.updated

    -- One membership is added, and one invitation becomes accepted.
    pub Joined-Ledger :
        (user_id : ℕ) (hash : String)
        → find (has_token hash) d.invitations ≡ some i
        → is_usable i at ≡ true
        → Joined cfg i at user_id d d' r
        → Ledger cfg.fold base next' d'
    unfolding is_usable
    Joined-Ledger user_id hash found usable j =
        let before : Db = record d {
          users = j.users;
          memberships = d.memberships ++ j.member ∷ [];
        } in
        let t = Tidy-others cfg.fold next d before l.tidy refl in
        let key = invitation_key i.id i.organization_id in
        let (row, e, t', total, ms) =
          Updated-Tidy cfg.fold base key (set_accepted at j.user.id) i.id (λ x h. ground arith)
            (record { same_id = λ x. refl; same_organization = λ x. refl; same_email = λ x. refl })
            next next' j.stamp before d' j.marked le (λ row e p. absurd (cc p)) t j.updated in
        let hit = find-holds key d.invitations row e in
        let same : row ≡ i =
          found_same key (has_token hash) (λ x. x.id == i.id) d.invitations row i (l.tidy.once i.id)
            (ground arith) (==_refl i.id) e found in
        let p : i.status ≡ "pending" = (str_eq_iff _ _).0 (ground arith) in
        let was_not : is_accepted row ≡ false = rw (same, p) refl in
        record {
          tidy = t';
          balance = record {
            added = l.balance.added ++ j.member ∷ [];
            grown =
                ms
                ∙ ap (λ z. z ++ j.member ∷ []) l.balance.grown
                ∙ append_assoc base l.balance.added (j.member ∷ []);
            as_many =
                let one_more = total is_accepted in
                omega (
                  arith,
                  rw was_not at one_more,
                  length-insert l.balance.added j.member,
                  l.balance.as_many,
                );
            matched = λ o u k.
                let one_more = total (accepted_as o u k) in
                omega (
                  arith,
                  rw (was_not, same) at one_more,
                  count-insert (is_member o u k) l.balance.added j.member,
                  ap bit (alike o u k),
                  l.balance.matched o u k,
                );
          };
        }
      where
        -- The new membership is what the invitation says, and who accepted it.
        alike :
            (o u k : ℕ) → is_member o u k j.member ≡ accepted_as o u k (set_accepted at j.user.id i)
        alike o u k = rw (j.is_active, j.in_organization, j.of_user, j.in_role) refl

-- ===== src/Invitations/Statements.antt =====
-- The statements of internal/db/invitations.sql.go that write, and the ledger of invitations.
use team_flow.Prelude.{
  ℕ, suc, ◌+◌, ◌≤◌, ◌≡◌, refl, sym, ap, subst, ◌∙◌, String, Bool, true, false, ◌&&◌, some, List, [],
  ◌∷◌, ◌++◌, find, any, count_where, update_where, ◌==◌, ==_iff, str_eq, str_eq_iff, arith, bit,
  count-update_one, count_of_not_any, count-update_where, find-holds, count-insert, insert_once,
}
use team_flow.Database.Tables.{Db, Membership, Invitation}
use team_flow.Database.Invitations.{
  is_pending, is_pending_for, has_token, update_invitation, violated_check, create_invitation,
  mark_invitation_notified, invitation_key, pending_key, rotate_invitation_token,
  rotate_invitation_for_delivery, mark_invitation_expired, is_undelivered, set_redelivery,
  set_token, set_expired,
}
use team_flow.Exec.{statement, ok}
use team_flow.Exec.Keeps.{Keeps, Keeps-statement}
use team_flow.Invitations.Ledger.{
  Tidy, Tidy-next, Ledger, Ledger-next, Updated, update_invitation-Updated, update-Tidy,
  is_accepted, accepted_as, Balanced-same, one_hit,
}

-- What no update changes.
pub record SameIdentity (f : Invitation → Invitation) : Type 0 where
  pub same_id : (i : Invitation) → (f i).id ≡ i.id
  pub same_organization : (i : Invitation) → (f i).organization_id ≡ i.organization_id
  pub same_email : (i : Invitation) → (f i).email ≡ i.email

module _ (fold : String → String) (base : List Membership) (hit : Invitation → Bool)
    (f : Invitation → Invitation) (id : ℕ) (by_id : (x : Invitation) → hit x ≡ true → x.id ≡ id)
    (same : SameIdentity f) where
  hits_row :
      (row : Invitation) (xs : List Invitation)
      → find hit xs ≡ some row
      → (x : Invitation) → hit x ≡ true
      → (x.id == row.id) ≡ true
  hits_row row xs found x h =
      (==_iff x.id row.id).1 (by_id x h ∙ sym (by_id row (find-holds hit xs row found)))

  -- An update that succeeds keeps the table tidy, and changes what is counted of it as it changes
  -- the row that it hits.
  pub Updated-Tidy :
      (next next' now : ℕ) (d d' : Db) (r : Invitation)
      → next ≤ next'
      → ((row : Invitation)
          → find hit d.invitations ≡ some row
          → is_pending (f row) ≡ true
          → is_pending row ≡ true)
      → Tidy fold next d
      → Updated hit f now d d' r
      → (row : Invitation) × (find hit d.invitations ≡ some row)
        × Tidy fold next' d'
        × ((q : Invitation → Bool)
            → count_where q d'.invitations + bit (q row)
              ≡ count_where q d.invitations + bit (q (record (f row) { updated_at = now })))
        × (d'.memberships ≡ d.memberships)
  Updated-Tidy next next' now d d' r le pending t u =
      let set = λ (i : Invitation). record (f i) { updated_at = now } in
      let by = hits_row u.row d.invitations u.found in
      let t' = Tidy-next fold next next' d t le in
      (
        u.row,
        u.found,
        subst (Tidy fold next') (sym u.written) (
            update-Tidy fold next' d t' hit set u.row by u.found (same.same_id u.row)
              (same.same_organization u.row) (same.same_email u.row) (pending u.row u.found)
              u.fresh),
        λ q.
            subst
              (λ (z : Db).
                count_where q z.invitations + bit (q u.row)
                ≡ count_where q d.invitations + bit (q (set u.row)))
              (sym u.written)
              (count-update_one q hit set d.invitations u.row
                (one_hit fold next' d t' hit set u.row by u.found) u.found),
        ap (λ (z : Db). z.memberships) u.written,
      )

  -- The same for the ledger, where the row is not accepted, before and after.
  pub Updated-Ledger :
      (next next' now : ℕ) (d d' : Db) (r : Invitation)
      → next ≤ next'
      → ((row : Invitation)
          → find hit d.invitations ≡ some row
          → is_pending (f row) ≡ true
          → is_pending row ≡ true)
      → ((row : Invitation)
          → find hit d.invitations ≡ some row
          → (is_accepted row ≡ false) × (is_accepted (f row) ≡ false))
      → Ledger fold base next d
      → Updated hit f now d d' r
      → Ledger fold base next' d'
  Updated-Ledger next next' now d d' r le pending accepted l u =
      let (row, found, t, total, ms) = Updated-Tidy next next' now d d' r le pending l.tidy u in
      let (before, after) = accepted row found in
      record {
        tidy = t;
        balance =
            Balanced-same base d d' l.balance ms
              (let n = total is_accepted in omega (arith, rw (before, after) at n))
              λ o u r. let n = total (accepted_as o u r) in omega (arith, rw (before, after) at n);
      }

  -- An update of pending rows.
  pub pending-Keeps :
      ((x : Invitation) → hit x ≡ true → is_pending x ≡ true)
      → ((x : Invitation) → is_pending x ≡ true → is_accepted (f x) ≡ false)
      → Keeps (Ledger fold base) (statement (update_invitation hit f))
  pending-Keeps was ends =
      Keeps-statement (Ledger fold base) (update_invitation hit f) (Ledger-next fold base)
        λ next now d d' r l h.
          Updated-Ledger next (suc next) now d d' r (omega arith)
            (λ row e p. was row (find-holds hit d.invitations row e))
            (λ row e.
              let p = was row (find-holds hit d.invitations row e) in (not_both row p, ends row p))
            l (update_invitation-Updated hit f next now d d' r h)
    where
      not_both : (x : Invitation) → is_pending x ≡ true → is_accepted x ≡ false
      not_both x p = rw ((str_eq_iff x.status "pending").0 p) refl

module _ (fold : String → String) (base : List Membership) where
  pub rotate-Keeps :
      (id org_id : ℕ) (hash : String) (expires_at : ℕ)
      → Keeps (Ledger fold base) (statement (rotate_invitation_token id org_id hash expires_at))
  unfolding rotate_invitation_token
  rotate-Keeps id org_id hash expires_at =
      pending-Keeps fold base (pending_key id org_id) (set_token hash expires_at) id
        (λ x h. ground arith)
        (record { same_id = λ i. refl; same_organization = λ i. refl; same_email = λ i. refl })
        (λ x h. ground arith) (λ x p. rw ((str_eq_iff x.status "pending").0 p) refl)

  pub redelivery-Keeps :
      (id org_id : ℕ) (hash : String)
      → Keeps (Ledger fold base) (statement (rotate_invitation_for_delivery id org_id hash))
  unfolding rotate_invitation_for_delivery
  redelivery-Keeps id org_id hash =
      pending-Keeps fold base (λ i. invitation_key id org_id i && is_undelivered i)
        (set_redelivery hash) id (λ x h. ground arith)
        (record { same_id = λ i. refl; same_organization = λ i. refl; same_email = λ i. refl })
        (λ x h. ground arith) (λ x p. rw ((str_eq_iff x.status "pending").0 p) refl)

  pub expiry-Keeps :
      (id org_id : ℕ) → Keeps (Ledger fold base) (statement (mark_invitation_expired id org_id))
  unfolding mark_invitation_expired
  expiry-Keeps id org_id =
      pending-Keeps fold base (pending_key id org_id) set_expired id (λ x h. ground arith)
        (record { same_id = λ i. refl; same_organization = λ i. refl; same_email = λ i. refl })
        (λ x h. ground arith) (λ x p. refl)

  pub notified-Keeps :
      (id org_id : ℕ) → Keeps (Ledger fold base) (statement (mark_invitation_notified id org_id))
  unfolding mark_invitation_notified
  notified-Keeps id org_id =
      Keeps-statement (Ledger fold base) (mark_invitation_notified id org_id)
        (Ledger-next fold base)
        λ next now d d' r l h.
          subst (Ledger fold base (suc next)) (ground arith)
            (stamped (invitation_key id org_id) now next d l)
    where
      stamped :
          (hit : Invitation → Bool) (now next : ℕ) (d : Db)
          → Ledger fold base next d
          → Ledger fold base (suc next) (record d {
            invitations =
                update_where hit
                  (λ i. record i { notified_at = some now; updated_at = now })
                  d.invitations;
          })
      stamped hit now next d l =
          let stamp = λ (i : Invitation). record i { notified_at = some now; updated_at = now } in
          let kept = λ (q : Invitation → Bool) (e : (i : Invitation) → q (stamp i) ≡ q i).
            count-update_where q hit stamp d.invitations (λ i h. e i) in
          let l' = Ledger-next fold base next (suc next) d l (omega arith) in
          let t = l'.tidy in
          record {
            tidy = record {
              once = λ k. rw (kept (λ x. x.id == k) (λ i. refl)) (t.once k);
              used = λ k p. rw (kept (λ x. x.id == k) (λ i. refl)) (t.used k p);
              one_token = λ h. rw (kept (has_token h) (λ i. refl)) (t.one_token h);
              one_pending =
                  λ o e. rw (kept (is_pending_for fold o e) (λ i. refl)) (t.one_pending o e);
            };
            balance =
                Balanced-same base d _ l'.balance refl (kept is_accepted (λ i. refl))
                  λ o u r. kept (accepted_as o u r) (λ i. refl);
          }

  -- What an insertion that succeeds has done.
  pub create_invitation-ok :
      (org_id : ℕ) (email : String) (role_id : ℕ) (hash : String)
      (invited_by expires_at next now : ℕ) (d d' : Db) (r : Invitation)
      → create_invitation fold org_id email role_id hash invited_by expires_at next now d
        ≡ ok (r, d')
      → (any (has_token hash) d.invitations ≡ false)
        × (any (is_pending_for fold org_id email) d.invitations ≡ false)
        × (d' ≡ record d { invitations = d.invitations ++ r ∷ [] })
        × (r.id ≡ next)
        × (r.organization_id ≡ org_id)
        × (r.email ≡ email)
        × (r.token_hash ≡ hash)
        × (r.status ≡ "pending")
  unfolding create_invitation violated_check
  create_invitation-ok org_id email role_id hash invited_by expires_at next now d d' r h =
      ground arith

  -- An insertion under the two unique indexes.
  inserted-Ledger :
      (next : ℕ) (d : Db) (r : Invitation)
      → Ledger fold base next d
      → any (has_token r.token_hash) d.invitations ≡ false
      → any (is_pending_for fold r.organization_id r.email) d.invitations ≡ false
      → r.id ≡ next
      → r.status ≡ "pending"
      → Ledger fold base (suc next) (record d { invitations = d.invitations ++ r ∷ [] })
  inserted-Ledger next d r l new_token new_pending id status =
      let t = l.tidy in
      record {
        tidy = record {
          once = λ k.
              insert_once (λ x. x.id == k) d.invitations r (t.once k)
                (λ e. t.used k (omega (arith, (==_iff r.id k).0 e)));
          used = λ k p.
              let other : (r.id == k) ≡ false = ground arith in
              count-insert (λ x. x.id == k) d.invitations r
              ∙ rw other (omega (arith, t.used k (omega arith)));
          one_token = λ h. insert_once (has_token h) d.invitations r (t.one_token h) (λ e.
              subst (λ z. count_where (has_token z) d.invitations ≡ 0)
                ((str_eq_iff r.token_hash h).0 e)
                (count_of_not_any (has_token r.token_hash) d.invitations new_token));
          one_pending = λ o e.
              insert_once (is_pending_for fold o e) d.invitations r (t.one_pending o e)
                (λ p. same_key o e (ground arith) (ground arith));
        };
        balance =
            Balanced-same base d (record d { invitations = d.invitations ++ r ∷ [] }) l.balance refl
              (count-insert is_accepted d.invitations r ∙ rw status (omega arith))
              λ o u k. count-insert (accepted_as o u k) d.invitations r ∙ rw status (omega arith);
      }
    where
      same_key :
          (o : ℕ) (e : String)
          → (r.organization_id == o) ≡ true
          → str_eq (fold r.email) (fold e) ≡ true
          → count_where (is_pending_for fold o e) d.invitations ≡ 0
      same_key o e p q =
          subst
            (λ z.
              count_where (λ i. is_pending i && (i.organization_id == o && str_eq (fold i.email) z))
                d.invitations
              ≡ 0)
            ((str_eq_iff (fold r.email) (fold e)).0 q)
            (subst (λ z. count_where (is_pending_for fold z r.email) d.invitations ≡ 0)
              ((==_iff r.organization_id o).0 p)
              (count_of_not_any (is_pending_for fold r.organization_id r.email) d.invitations
                new_pending))

  pub creation-Keeps :
      (org_id : ℕ) (email : String) (role_id : ℕ) (hash : String) (invited_by expires_at : ℕ)
      → Keeps
          (Ledger fold base)
          (statement (create_invitation fold org_id email role_id hash invited_by expires_at))
  creation-Keeps org_id email role_id hash invited_by expires_at =
      Keeps-statement (Ledger fold base)
        (create_invitation fold org_id email role_id hash invited_by expires_at)
        (Ledger-next fold base)
        λ next now d d' r l h.
          let (free, new, written, id, org, address, token, status) =
            create_invitation-ok org_id email role_id hash invited_by expires_at next now d d' r
              h in
          subst (Ledger fold base (suc next)) (sym written) (
            inserted-Ledger next d r l
              (subst (λ z. any (has_token z) d.invitations ≡ false) (sym token) free)
              (subst (λ z. any (is_pending_for fold z r.email) d.invitations ≡ false) (sym org)
                (subst (λ z. any (is_pending_for fold org_id z) d.invitations ≡ false) (sym address)
                  new))
              id status)

-- ===== src/Invitations/Ledger.antt =====
-- What holds of the table of invitations between any two requests, and how the statements of
-- internal/db/invitations.sql.go keep it.
use team_flow.Prelude.{
  ℕ, ◌+◌, ◌≤◌, ◌≡◌, subst, sym, ◌∙◌, List, ◌++◌, Option, none, String, Bool, true, false, ◌&&◌, not,
  some, length, find, any, count_where, update_where, ◌==◌, str_eq, str_eq_iff, Bool-cases,
  Option-cases, inl, inr, arith, bit, count-update_one, count_beside, count-le-count,
}
use team_flow.Database.Tables.{Db, Membership, Invitation}
use team_flow.Database.Invitations.{
  is_pending, is_pending_for, has_token, has_token_of, update_invitation, violated_check,
}
use team_flow.Exec.{ok}

abbrev pub is_accepted : Invitation → Bool
is_accepted i = str_eq i.status "accepted"

abbrev pub accepted_count : Db → ℕ
accepted_count d = count_where is_accepted d.invitations

-- An invitation that the account `u` accepted, to join the organization `o` in the role `r`.
abbrev pub is_by : ℕ → Option ℕ → Bool
is_by u none = false
is_by u (some k) = k == u

abbrev pub accepted_as : ℕ → ℕ → ℕ → Invitation → Bool
accepted_as o u r i =
    is_accepted i && (i.organization_id == o && (is_by u i.accepted_by && i.role_id == r))

-- An active membership of `u` in the organization `o` and the role `r`.
abbrev pub is_member : ℕ → ℕ → ℕ → Membership → Bool
is_member o u r m =
    str_eq m.status "active" && (m.organization_id == o && (m.user_id == u && m.role_id == r))

-- The memberships are those of `start`, and one for each accepted invitation after them: of the account
-- that accepted it, in its organization and its role.
pub record Balanced (start : List Membership) (d : Db) : Type 0 where
  pub added : List Membership
  pub grown : d.memberships ≡ start ++ added
  pub as_many : length added ≡ accepted_count d
  pub matched :
      (o u r : ℕ)
      → count_where (is_member o u r) added ≡ count_where (accepted_as o u r) d.invitations

pub Balanced-same :
    (start : List Membership) (d d' : Db)
    → Balanced start d
    → d'.memberships ≡ d.memberships
    → accepted_count d' ≡ accepted_count d
    → ((o u r : ℕ)
        → count_where (accepted_as o u r) d'.invitations
          ≡ count_where (accepted_as o u r) d.invitations)
    → Balanced start d'
Balanced-same start d d' b same total each = record {
  added = b.added;
  grown = same ∙ b.grown;
  as_many = b.as_many ∙ sym total;
  matched = λ o u r. b.matched o u r ∙ sym (each o u r);
}

-- Identifiers and tokens are unique, and an address has one invitation pending in an organization.
pub record Tidy (fold : String → String) (next : ℕ) (d : Db) : Type 0 where
  pub once : (k : ℕ) → count_where (λ i. i.id == k) d.invitations ≤ 1
  pub used : (k : ℕ) → next ≤ k → count_where (λ i. i.id == k) d.invitations ≡ 0
  pub one_token : (h : String) → count_where (has_token h) d.invitations ≤ 1
  pub one_pending : (o : ℕ) (e : String) → count_where (is_pending_for fold o e) d.invitations ≤ 1

pub record Ledger (fold : String → String) (base : List Membership) (next : ℕ) (d : Db)
    : Type 0 where
  pub tidy : Tidy fold next d
  pub balance : Balanced base d

pub Tidy-next :
    (fold : String → String) (n n' : ℕ) (d : Db) → Tidy fold n d → n ≤ n' → Tidy fold n' d
Tidy-next fold n n' d t h = record {
  once = t.once;
  used = λ k p. t.used k (omega arith);
  one_token = t.one_token;
  one_pending = t.one_pending;
}

pub Ledger-next :
    (fold : String → String) (base : List Membership) (n n' : ℕ) (d : Db)
    → Ledger fold base n d
    → n ≤ n'
    → Ledger fold base n' d
Ledger-next fold base n n' d l h = record {
  tidy = Tidy-next fold n n' d l.tidy h;
  balance = l.balance;
}

-- Other tables are not concerned.
pub Tidy-others :
    (fold : String → String) (n : ℕ) (d d' : Db)
    → Tidy fold n d
    → d'.invitations ≡ d.invitations
    → Tidy fold n d'
Tidy-others fold n d d' t e = record {
  once = λ k. rw e (t.once k);
  used = λ k p. rw e (t.used k p);
  one_token = λ h. rw e (t.one_token h);
  one_pending = λ o x. rw e (t.one_pending o x);
}

-- What an update statement that succeeds has done.
pub record Updated (hit : Invitation → Bool) (f : Invitation → Invitation) (now : ℕ) (d d' : Db)
    (r : Invitation) : Type 0 where
  pub row : Invitation
  pub found : find hit d.invitations ≡ some row
  pub fresh : any (has_token_of (f row)) d.invitations ≡ false
  pub returned : r ≡ record (f row) { updated_at = now }
  pub written : d' ≡ record d {
    invitations = update_where hit (λ i. record (f i) { updated_at = now }) d.invitations;
  }

pub update_invitation-Updated :
    (hit : Invitation → Bool) (f : Invitation → Invitation) (next now : ℕ) (d d' : Db)
    (r : Invitation)
    → update_invitation hit f next now d ≡ ok (r, d')
    → Updated hit f now d d' r
unfolding update_invitation
update_invitation-Updated hit f next now d d' r h = elim (Option-cases (find hit d.invitations)) [
  | inl missing ↦ absurd (ground arith)
  | inr (i, found) ↦ elim (Option-cases (violated_check (record (f i) { updated_at = now }))) [
    | inr (name, bad) ↦ absurd (ground arith)
    | inl good ↦ elim (Bool-cases (any (has_token_of (f i)) d.invitations)) [
      | inl taken ↦ absurd (ground arith)
      | inr free ↦ record {
        row = i;
        found = found;
        fresh = free;
        returned = ground arith;
        written = ground arith;
      }
    ]
  ]
]

module _ (fold : String → String) (next : ℕ) (d : Db) (t : Tidy fold next d)
    (hit : Invitation → Bool) (f : Invitation → Invitation) (row : Invitation)
    (by_id : (x : Invitation) → hit x ≡ true → (x.id == row.id) ≡ true)
    (found : find hit d.invitations ≡ some row) where
  pub one_hit : count_where hit d.invitations ≤ 1
  one_hit =
      omega (arith, count-le-count hit (λ x. x.id == row.id) d.invitations by_id, t.once row.id)

  -- An update of one row keeps the table tidy, where it keeps the row's identity and does not make it
  -- pending again, and its token is no other row's.
  pub update-Tidy :
      (f row).id ≡ row.id
      → (f row).organization_id ≡ row.organization_id
      → (f row).email ≡ row.email
      → (is_pending (f row) ≡ true → is_pending row ≡ true)
      → any (has_token_of (f row)) d.invitations ≡ false
      → Tidy fold next (record d { invitations = update_where hit f d.invitations })
  update-Tidy ei eo ee ep fresh = record {
    once = λ k. let total = counted (λ x. x.id == k) in omega (arith, rw ei at total, t.once k);
    used = λ k p. let total = counted (λ x. x.id == k) in omega (arith, rw ei at total, t.used k p);
    one_token = tokens;
    one_pending = λ o e. pending o e;
  }
    where
      counted :
          (q : Invitation → Bool)
          → count_where q (update_where hit f d.invitations) + bit (q row)
            ≡ count_where q d.invitations + bit (q (f row))
      counted q = count-update_one q hit f d.invitations row one_hit found

      fresh_for :
          (k : ℕ) (h : String)
          → (f row).id ≡ k
          → (f row).token_hash ≡ h
          → any (λ x. not (x.id == k) && has_token h x) d.invitations ≡ false
      fresh_for k h a b =
          subst (λ z. any (λ x. not (x.id == k) && has_token z x) d.invitations ≡ false) b
            (subst
              (λ z.
                any (λ x. not (x.id == z) && has_token (f row).token_hash x) d.invitations ≡ false)
              a fresh)

      tokens : (h : String) → count_where (has_token h) (update_where hit f d.invitations) ≤ 1
      tokens h = elim (Bool-cases (has_token h (f row))) [
        | inr other ↦
            let total = counted (has_token h) in omega (arith, rw other at total, t.one_token h)
        | inl new ↦ elim (Bool-cases (has_token h row)) [
          | inl old ↦
              let total = counted (has_token h) in
              omega (arith, rw (new, old) at total, t.one_token h)
          | inr other ↦
              let none_before =
                count_beside (has_token h) (λ x. x.id == row.id) hit d.invitations row
                  (fresh_for row.id h ei ((str_eq_iff _ h).0 new)) (t.once row.id) by_id found
                  other in
              let total = counted (has_token h) in omega (arith, rw (new, other) at total)
        ]
      ]

      no_more :
          (o : ℕ) (e : String)
          → bit (is_pending_for fold o e (f row)) ≤ bit (is_pending_for fold o e row)
      no_more o e = rw (eo, ee) (ground arith)

      pending :
          (o : ℕ) (e : String)
          → count_where (is_pending_for fold o e) (update_where hit f d.invitations) ≤ 1
      pending o e = omega (arith, counted (is_pending_for fold o e), no_more o e, t.one_pending o e)

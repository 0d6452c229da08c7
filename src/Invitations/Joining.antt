-- ===== src/Invitations/Joining.antt =====
-- internal/invitations/service.go: what the transaction of Accept does where it lets someone join.
use team_flow.Prelude.{
  ℕ, ◌≡◌, refl, sym, subst, String, Bool, true, false, ◌&&◌, some, List, [], ◌∷◌, ◌++◌, find, any,
  ◌==◌, ==_iff, str_eq, str_eq_iff, inl, inr, arith, ◌⊎◌, trim_space,
}
use team_flow.Httpx.Errors.{is_no_rows}
use team_flow.Database.Tables.{Db, User, Role, Organization, Membership, Invitation}
use team_flow.Database.Roles.{role_key, get_role_by_id}
use team_flow.Database.Organizations.{get_organization_by_id}
use team_flow.Database.Users.{get_user_by_id, get_user_by_email, create_user}
use team_flow.Database.Memberships.{create_membership}
use team_flow.Database.Invitations.{
  accept_invitation, if_key_exists, invitation_key, set_accepted, update_invitation,
}
use team_flow.Database.Runs.{
  after, after_if, after_read_or_fail, after_require, after_write_or_fail, after_inspect,
  statement_lem,
}
use team_flow.Exec.{World, Result, ok, err, statement}
use team_flow.Exec.Rules.{Returns, pure-Returns, or_fail-Returns, fail-Returns}
use team_flow.Invitations.Model.{InviteConfig, AcceptInput, normalize_email}
use team_flow.Invitations.Accept.{
  Acceptance, joined, known_user, create_account, new_user, resolve_user, join,
}
use team_flow.Invitations.Ledger.{Updated, update_invitation-Updated}

module _ (cfg : InviteConfig) (i : Invitation) where
  -- The account that joins: the caller's, where it is active and has the address of the invitation, or
  -- a new one with that address.
  pub record Known (d : Db) (user_id : ℕ) (u : User) : Type 0 where
    pub found : find (λ x. x.id == user_id) d.users ≡ some u
    pub active : u.status ≡ "active"
    pub address : normalize_email cfg u.email ≡ normalize_email cfg i.email

  pub record Created (d : Db) (user_id : ℕ) (u : User) : Type 0 where
    pub anonymous : user_id ≡ 0
    pub active : u.status ≡ "active"
    pub address : u.email ≡ normalize_email cfg i.email
    pub unknown : any (λ v. str_eq (cfg.fold v.email) (cfg.fold u.email)) d.users ≡ false

  abbrev pub Chosen : Db → ℕ → User → List User → Type 0
  Chosen d user_id u us =
      Known d user_id u × (us ≡ d.users) ⊎ Created d user_id u × (us ≡ d.users ++ u ∷ [])

  create_user-ok :
      (email hash first last : String) (next now : ℕ) (d d' : Db) (u : User)
      → create_user cfg.fold email hash first last "active" next now d ≡ ok (u, d')
      → (d' ≡ record d { users = d.users ++ u ∷ [] })
        × (u.status ≡ "active")
        × (u.email ≡ email)
        × (any (λ v. str_eq (cfg.fold v.email) (cfg.fold email)) d.users ≡ false)
  unfolding create_user
  create_user-ok email hash first last next now d d' u h = ground arith

  known_user-Known :
      (user_id : ℕ) (w : World) (u : User) (v : World)
      → Returns (known_user cfg i user_id) w u v
      → Known w.db user_id u × (v.db ≡ w.db)
  unfolding known_user get_user_by_id
  known_user-Known user_id w u v h = after_read_or_fail _ _ _ w refl h λ x w₁ d₁ n₁ p₁ k₁.
      after_require _ _ _ w₁ k₁ λ p₂ k₂. after_require _ _ _ w₁ k₂ λ p₃ k₃.
        let (e, last) = pure-Returns x w₁ u v k₃ in
        (
          record {
            found = rw e p₁;
            active = rw e ((str_eq_iff _ _).0 p₂);
            address = rw e ((str_eq_iff _ _).0 p₃);
          },
          rw last d₁,
        )

  new_user-Created :
      (input : AcceptInput) (hash : String) (w : World) (u : User) (v : World)
      → Returns (new_user cfg i input hash) w u v
      → Created w.db 0 u × (v.db ≡ record w.db { users = w.db.users ++ u ∷ [] })
  unfolding new_user create_account
  new_user-Created input hash w u v h =
      after_inspect (get_user_by_email cfg.fold i.email) (λ r. create_account cfg r i input hash) w
        refl h
        (λ x w₁ q c n k.
          after_if (str_eq x.status "active") _ _ k (λ e r. absurd (fail-Returns _ w₁ u v r))
            (λ e r. absurd (fail-Returns _ w₁ u v r)))
        (λ e w₁ same c n k.
          after_if (is_no_rows e) _ _ k (λ missing r. made w₁ same (or_fail-Returns _ _ w₁ u v r))
            (λ other r. absurd (fail-Returns _ w₁ u v r)))
    where
      made :
          (w₁ : World)
          → w₁.db ≡ w.db
          → Returns
              (statement (
                create_user cfg.fold
                  (normalize_email cfg i.email)
                  hash
                  (trim_space input.first_name)
                  (trim_space input.last_name)
                  "active"))
              w₁
              u
              v
          → Created w.db 0 u × (v.db ≡ record w.db { users = w.db.users ++ u ∷ [] })
      made w₁ same r =
          let (q, c, n) =
            statement_lem
              (create_user cfg.fold (normalize_email cfg i.email) hash (trim_space input.first_name)
                (trim_space input.last_name) "active")
              w₁ same r in
          let (written, active, address, unknown) =
            create_user-ok (normalize_email cfg i.email) hash (trim_space input.first_name)
              (trim_space input.last_name) w₁.next_id w₁.clock w.db v.db u q in
          (
            record {
              anonymous = refl;
              active = active;
              address = address;
              unknown =
                  subst (λ z. any (λ v. str_eq (cfg.fold v.email) (cfg.fold z)) w.db.users ≡ false)
                    (sym address) unknown;
            },
            written,
          )

  pub resolve_user-Chosen :
      (user_id : ℕ) (input : AcceptInput) (hash : String) (w : World) (u : User) (v : World)
      → Returns (resolve_user cfg i user_id input hash) w u v
      → (us : List User) × Chosen w.db user_id u us × (v.db ≡ record w.db { users = us })
  unfolding resolve_user
  resolve_user-Chosen user_id input hash w u v h =
      after_if (user_id == 0) _ _ h
        (λ anonymous r.
          let (made, d) = new_user-Created input hash w u v r in
          let same = (==_iff user_id 0).0 anonymous in
          (w.db.users ++ u ∷ [], inr (rw same made, refl), d))
        (λ known r.
          let (found, d) = known_user-Known user_id w u v r in (w.db.users, inl (found, refl), d))

  -- What the rest of the transaction has done where it succeeds: one membership was added, for the
  -- account that was chosen, and the invitation marked.
  pub record Joined (at user_id : ℕ) (d d' : Db) (r : Acceptance) : Type 0 where
    pub org : Organization
    pub role : Role
    pub user : User
    pub users : List User
    pub member : Membership
    pub stamp : ℕ
    pub marked : Invitation
    pub answer : r ≡ joined org role user
    pub org_found : find (λ o. o.id == i.organization_id) d.organizations ≡ some org
    pub role_found : find (role_key i.role_id i.organization_id) d.roles ≡ some role
    pub chosen : Chosen d user_id user users
    pub new_member :
        any (λ m. m.organization_id == i.organization_id && m.user_id == user.id) d.memberships
        ≡ false
    pub in_organization : member.organization_id ≡ i.organization_id
    pub of_user : member.user_id ≡ user.id
    pub in_role : member.role_id ≡ i.role_id
    pub is_active : member.status ≡ "active"
    pub updated :
        Updated
          (invitation_key i.id i.organization_id)
          (set_accepted at user.id)
          stamp
          (record d { users = users; memberships = d.memberships ++ member ∷ [] })
          d'
          marked

  create_membership-ok :
      (org_id user_id role_id at next now : ℕ) (d d' : Db) (m : Membership)
      → create_membership org_id user_id role_id "active" (some at) next now d ≡ ok (m, d')
      → (d' ≡ record d { memberships = d.memberships ++ m ∷ [] })
        × (any (λ n. n.organization_id == org_id && n.user_id == user_id) d.memberships ≡ false)
        × (m.organization_id ≡ org_id)
        × (m.user_id ≡ user_id)
        × (m.role_id ≡ role_id)
        × (m.status ≡ "active")
  unfolding create_membership
  create_membership-ok org_id user_id role_id at next now d d' m h = ground arith

  if_key_exists-ok :
      {A : Type 0} (b : Bool) (name : String) (r : Result A) (a : A)
      → if_key_exists b name r ≡ ok a
      → r ≡ ok a
  if_key_exists-ok true name (ok x) a h = h
  if_key_exists-ok false name (ok x) a h = cc
  if_key_exists-ok b name (err e) a h = cc

  accept_invitation-ok :
      (id org_id at user_id next now : ℕ) (d d' : Db) (r : Invitation)
      → accept_invitation id org_id at user_id next now d ≡ ok (r, d')
      → update_invitation (invitation_key id org_id) (set_accepted at user_id) next now d
        ≡ ok (r, d')
  unfolding accept_invitation
  accept_invitation-ok id org_id at user_id next now d d' r h =
      if_key_exists-ok (any (λ u. u.id == user_id) d.users) "invitations_accepted_by_fkey"
        (update_invitation (invitation_key id org_id) (set_accepted at user_id) next now d) (r, d')
        h

  pub join-Joined :
      (at user_id : ℕ) (input : AcceptInput) (hash : String) (w : World) (r : Acceptance)
      (v : World)
      → Returns (join cfg i at user_id input hash) w r v
      → Joined at user_id w.db v.db r
  unfolding join get_role_by_id get_organization_by_id
  join-Joined at user_id input hash w r v h =
      after_read_or_fail _ _ _ w refl h λ role w₁ d₁ n₁ p₁ k₁.
        after_read_or_fail _ _ _ w₁ d₁ k₁ λ org w₂ d₂ n₂ p₂ k₂.
          after (resolve_user cfg i user_id input hash) _ w₂ k₂ λ user w₃ r₃ k₃.
            let (us, chosen, d₃) =
              subst
                (λ (z : Db).
                  (us : List User) × Chosen z user_id user us × (w₃.db ≡ record z { users = us }))
                d₂ (resolve_user-Chosen user_id input hash w₂ user w₃ r₃) in
            after_write_or_fail _ _ _ w₃ d₃ k₃ λ m w₄ q₄ c₄ n₄ k₄.
              after_write_or_fail _ _ _ w₄ refl k₄ λ marked w₅ q₅ c₅ n₅ k₅.
                let (answer, last) = pure-Returns _ w₅ r v k₅ in
                let (d₄, free, org_is, user_is, role_is, active) =
                  create_membership-ok i.organization_id user.id i.role_id at w₃.next_id w₃.clock
                    (record w.db { users = us }) w₄.db m q₄ in
                let change =
                  update_invitation-Updated (invitation_key i.id i.organization_id)
                    (set_accepted at user.id) w₄.next_id w₄.clock w₄.db w₅.db marked
                    (accept_invitation-ok i.id i.organization_id at user.id w₄.next_id w₄.clock
                      w₄.db w₅.db marked q₅) in
                record {
                  org = org;
                  role = role;
                  user = user;
                  users = us;
                  member = m;
                  stamp = w₄.clock;
                  marked = marked;
                  answer = answer;
                  org_found = p₂;
                  role_found = p₁;
                  chosen = chosen;
                  new_member = free;
                  in_organization = org_is;
                  of_user = user_is;
                  in_role = role_is;
                  is_active = active;
                  updated =
                      subst
                        (λ (z : Db).
                          Updated (invitation_key i.id i.organization_id) (set_accepted at user.id)
                            w₄.clock z v.db marked)
                        d₄
                        (subst
                          (λ (z : World).
                            Updated (invitation_key i.id i.organization_id)
                              (set_accepted at user.id) w₄.clock w₄.db z.db marked)
                          (sym last) change);
                }

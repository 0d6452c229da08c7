-- ===== src/Organizations/Owners/Invariant.antt =====
-- What holds of roles, memberships and organizations between any two requests, and which changes of
-- the tables keep it.
use team_flow.Prelude.{
  ℕ, suc, ◌+◌, ◌≤◌, ◌≡◌, Bool, false, ◌&&◌, not, List, [], ◌∷◌, ◌++◌, select, count_where, ◌==◌,
  str_eq, Bool-cases, inl, inr, arith, count_where-append, count-le-select, count-select-le, subst,
  sym, ◌∙◌, ==_iff, count-le-count,
}
use team_flow.Database.Tables.{Db, Role, Membership}
use team_flow.Database.Roles.{role_key, custom_role_key}
use team_flow.Database.Memberships.{is_owner_role, is_active_in, owners_among}
use team_flow.Organizations.Owners.{UniqueIds, owners}
use team_flow.Organizations.Owners.Strangers.{
  is_foreign, strangers, strangers-new_role, strangers-le_roles,
}

abbrev pub is_owner_of : ℕ → Role → Bool
is_owner_of org_id r = r.organization_id == org_id && str_eq r.name "Owner"

-- A role that its organization may change, with the Owner's name.
abbrev pub is_false_owner : Role → Bool
is_false_owner r = not r.is_system && str_eq r.name "Owner"

-- `next` is the first identifier not used, and `open_org` tests the organizations under construction.
pub record Inv (open_org : ℕ → Bool) (next : ℕ) (d : Db) : Type 0 where
  pub once : UniqueIds d
  pub memberships_used : (k : ℕ) → next ≤ k → count_where (λ m. m.id == k) d.memberships ≡ 0
  pub roles_used : (k : ℕ) → next ≤ k → count_where (λ r. r.id == k) d.roles ≡ 0
  pub no_false_owner : count_where is_false_owner d.roles ≡ 0
  pub roles_named : (k : ℕ) → next ≤ k → count_where (λ m. m.role_id == k) d.memberships ≡ 0
  pub at_home : strangers d.roles d.memberships ≡ 0
  pub owner_role :
      (o : ℕ)
      → open_org o ≡ false
      → 1 ≤ count_where (λ x. x.id == o) d.organizations
      → 1 ≤ count_where (is_owner_of o) d.roles
  pub owned :
      (o : ℕ)
      → open_org o ≡ false
      → 1 ≤ count_where (λ x. x.id == o) d.organizations
      → 1 ≤ owners o d

-- More Owner roles, more Owners.
pub owners-le-roles :
    (o : ℕ) (rs rs' : List Role) (ms : List Membership)
    → ((k : ℕ) → count_where (is_owner_role k) rs ≤ count_where (is_owner_role k) rs')
    → owners_among o rs ms ≤ owners_among o rs' ms
unfolding owners_among
owners-le-roles o rs rs' [] h = omega arith
owners-le-roles o rs rs' (m ∷ ms) h = elim (Bool-cases (is_active_in o m)) [
  | inl e ↦ rw e (omega (arith, h m.role_id, owners-le-roles o rs rs' ms h))
  | inr e ↦ rw e (omega (arith, owners-le-roles o rs rs' ms h))
]

pub owners-append :
    (o : ℕ) (rs : List Role) (ms ns : List Membership)
    → owners_among o rs (ms ++ ns) ≡ owners_among o rs ms + owners_among o rs ns
unfolding owners_among
owners-append o rs [] ns = omega arith
owners-append o rs (m ∷ ms) ns = omega (arith, owners-append o rs ms ns)

module _ (open_org : ℕ → Bool) (next : ℕ) (d : Db) (inv : Inv open_org next d) where
  -- Identifiers may be skipped.
  pub Inv-next : (next' : ℕ) → next ≤ next' → Inv open_org next' d
  Inv-next next' h = record {
    once = inv.once;
    memberships_used = λ k p. inv.memberships_used k (omega arith);
    roles_used = λ k p. inv.roles_used k (omega arith);
    no_false_owner = inv.no_false_owner;
    roles_named = λ k p. inv.roles_named k (omega arith);
    at_home = inv.at_home;
    owner_role = inv.owner_role;
    owned = inv.owned;
  }

  -- A role that is stored has an identifier that was given.
  pub role_below :
      (role_id org_id : ℕ)
      → 1 ≤ count_where (role_key role_id org_id) d.roles
      → (k : ℕ) → next ≤ k
      → (role_id == k) ≡ false
  role_below role_id org_id stored k p = elim (Bool-cases (role_id == k)) [
    | inl e ↦
        let same = (==_iff role_id k).0 e in
        let some_role =
          count-le-count (role_key role_id org_id) (λ r. r.id == role_id) d.roles
            λ x q. ground arith in
        let no_role =
          subst (λ z. count_where (λ r. r.id == z) d.roles ≡ 0) (sym same) (inv.roles_used k p) in
        absurd (omega (arith, some_role, no_role, stored))
    | inr e ↦ e
  ]

  -- Other tables are not concerned.
  pub Inv-others :
      (d' : Db)
      → d'.roles ≡ d.roles
      → d'.memberships ≡ d.memberships
      → ((o : ℕ)
          → count_where (λ x. x.id == o) d'.organizations
            ≡ count_where (λ x. x.id == o) d.organizations)
      → Inv open_org next d'
  Inv-others d' er em eo = record {
    once = record {
      memberships_once = λ k. rw em (inv.once.memberships_once k);
      roles_once = λ k. rw er (inv.once.roles_once k);
    };
    memberships_used = λ k p. rw em (inv.memberships_used k p);
    roles_used = λ k p. rw er (inv.roles_used k p);
    no_false_owner = rw er inv.no_false_owner;
    roles_named = λ k p. rw em (inv.roles_named k p);
    at_home = rw (er, em) inv.at_home;
    owner_role = λ o p h. rw er (inv.owner_role o p (omega (arith, eo o)));
    owned = λ o p h. rw (er, em) (inv.owned o p (omega (arith, eo o)));
  }

  -- A new role under an unused identifier, an Owner only if it is a system role.
  pub Inv-role :
      (r : Role)
      → r.id ≡ next
      → is_false_owner r ≡ false
      → Inv open_org (suc next) (record d { roles = d.roles ++ r ∷ [] })
  unfolding count_where
  Inv-role r fresh plain = record {
    once = record {
      memberships_once = inv.once.memberships_once;
      roles_once = λ k. ground (
        arith,
        count_where-append (λ x. x.id == k) d.roles (r ∷ []),
        inv.once.roles_once k,
        inv.roles_used next (omega arith),
      );
    };
    memberships_used = λ k p. inv.memberships_used k (omega arith);
    roles_used = λ k p. ground (
      arith,
      count_where-append (λ x. x.id == k) d.roles (r ∷ []),
      inv.roles_used k (omega arith),
    );
    no_false_owner =
        ground (arith, count_where-append is_false_owner d.roles (r ∷ []), inv.no_false_owner);
    roles_named = λ k p. inv.roles_named k (omega arith);
    at_home =
        strangers-new_role d.roles r d.memberships (rw fresh (inv.roles_named next (omega arith)))
        ∙ inv.at_home;
    owner_role = λ o p h.
        ground (arith, count_where-append (is_owner_of o) d.roles (r ∷ []), inv.owner_role o p h);
    owned = λ o p h. omega (
      arith,
      inv.owned o p h,
      owners-le-roles o d.roles (d.roles ++ r ∷ []) d.memberships
          λ k. omega (arith, count_where-append (is_owner_role k) d.roles (r ∷ [])),
    );
  }

  -- The deletion of a role that is not a system role.
  pub Inv-role_deleted :
      (id org_id : ℕ) (d' : Db)
      → d'.roles ≡ select (λ r. not (custom_role_key id org_id r)) d.roles
      → d'.memberships ≡ d.memberships
      → d'.organizations ≡ d.organizations
      → Inv open_org next d'
  Inv-role_deleted id org_id d' er em eo =
      let keep = λ (r : Role). not (custom_role_key id org_id r) in
      record {
        once = record {
          memberships_once = λ k. rw em (inv.once.memberships_once k);
          roles_once = λ k.
              rw er (
                omega
                  (arith, inv.once.roles_once k, count-select-le (λ r. r.id == k) keep d.roles));
        };
        memberships_used = λ k p. rw em (inv.memberships_used k p);
        roles_used = λ k p.
            rw er
              (omega (arith, inv.roles_used k p, count-select-le (λ r. r.id == k) keep d.roles));
        no_false_owner =
            rw er (omega (arith, inv.no_false_owner, count-select-le is_false_owner keep d.roles));
        roles_named = λ k p. rw em (inv.roles_named k p);
        at_home =
            rw (er, em)
              (omega (
                arith,
                inv.at_home,
                strangers-le_roles d.roles (select keep d.roles) d.memberships
                    λ k o. count-select-le (is_foreign k o) keep d.roles,
              ));
        owner_role = λ o p h. rw er (
            omega (
              arith,
              inv.owner_role o p (rw eo at h),
              count-le-select (is_owner_of o) keep is_false_owner d.roles inv.no_false_owner
                  (λ x q b. ground arith),
            ));
        owned = λ o p h.
            rw (er, em)
              (omega (
                arith,
                inv.owned o p (rw eo at h),
                owners-le-roles o d.roles (select keep d.roles) d.memberships λ k.
                    count-le-select (is_owner_role k) keep is_false_owner d.roles inv.no_false_owner
                      (λ x q b. ground arith),
              ));
      }

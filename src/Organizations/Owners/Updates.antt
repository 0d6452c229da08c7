-- ===== src/Organizations/Owners/Updates.antt =====
-- internal/db/roles.sql.go and memberships_extra.sql.go: the updates of roles and of members' roles keep
-- the invariant.
use team_flow.Prelude.{
  ℕ, ◌≤◌, ◌≡◌, refl, String, Bool, false, some, find, count_where, update_where, ◌==◌, str_eq,
  str_eq_iff, Bool-cases, inl, inr, Option, arith, count-update_where, count-le-update_where,
  count-update_where_zero, any_beside, subst, ==_iff, true,
}
use team_flow.Database.Tables.{Db, Role, Membership}
use team_flow.Database.Roles.{role_key, custom_role_key, set_role, role_name_taken}
use team_flow.Database.Memberships.{is_owner_role, active_membership_key, set_member_role}
use team_flow.Organizations.Owners.{owners}
use team_flow.Organizations.Owners.Strangers.{
  is_foreign, strangers-le_roles, strangers-update_where, no_foreign,
}
use team_flow.Organizations.Owners.Invariant.{
  Inv, is_owner_of, is_false_owner, owners-le-roles, role_below,
}

module _ (open_org : ℕ → Bool) (next : ℕ) (d : Db) (inv : Inv open_org next d) where
  -- The change of a role that is not a system role, to a name that no other role of it has.
  module _ (id org_id at : ℕ) (name : String) (description : Option String) (r : Role)
      (found : find (custom_role_key id org_id) d.roles ≡ some r)
      (free : role_name_taken id org_id name d ≡ false) (closed : open_org org_id ≡ false)
      (exists : 1 ≤ count_where (λ x. x.id == org_id) d.organizations) where
    hit : Role → Bool
    hit = custom_role_key id org_id

    change : Role → Role
    change = set_role at name description

    not_owner : str_eq name "Owner" ≡ false
    not_owner = elim (Bool-cases (str_eq name "Owner")) [
      | inl e ↦
          let taken =
            any_beside (is_owner_of org_id) (λ x. x.id == id) (custom_role_key id org_id)
              is_false_owner d.roles r (inv.once.roles_once id) inv.no_false_owner
              (λ x k. ground arith) (λ x k b. ground arith) found
              (inv.owner_role org_id closed exists) in
          let as_owner =
            subst (λ n. role_name_taken id org_id n d ≡ false) ((str_eq_iff name "Owner").0 e)
              free in
          absurd (ground arith)
      | inr e ↦ e
    ]

    pub Inv-role_updated :
        (d' : Db)
        → d'.roles ≡ update_where (custom_role_key id org_id) (set_role at name description) d.roles
        → d'.memberships ≡ d.memberships
        → d'.organizations ≡ d.organizations
        → Inv open_org next d'
    Inv-role_updated d' er em eo = record {
      once = record {
        memberships_once = λ k. rw em (inv.once.memberships_once k);
        roles_once = λ k. rw er (omega (arith, inv.once.roles_once k, same_ids k));
      };
      memberships_used = λ k p. rw em (inv.memberships_used k p);
      roles_used = λ k p. rw er (omega (arith, inv.roles_used k p, same_ids k));
      no_false_owner = rw er (
          count-update_where_zero is_false_owner (custom_role_key id org_id)
            (set_role at name description) d.roles inv.no_false_owner
            (λ x q. ground (arith, not_owner)));
      roles_named = λ k p. rw em (inv.roles_named k p);
      at_home =
          rw (er, em)
            (omega (
              arith,
              inv.at_home,
              strangers-le_roles d.roles
                  (update_where (custom_role_key id org_id) (set_role at name description) d.roles)
                  d.memberships
                  λ k o. omega (
                    arith,
                    count-update_where (is_foreign k o) (custom_role_key id org_id)
                        (set_role at name description) d.roles (λ x q. refl),
                  ),
            ));
      owner_role = λ o p h. rw er (
          omega (
            arith,
            inv.owner_role o p (rw eo at h),
            count-le-update_where (is_owner_of o) (custom_role_key id org_id) is_false_owner
                (set_role at name description) d.roles inv.no_false_owner (λ x q b. ground arith),
          ));
      owned = λ o p h.
          rw (er, em)
            (omega (
              arith,
              inv.owned o p (rw eo at h),
              owners-le-roles o d.roles
                  (update_where (custom_role_key id org_id) (set_role at name description) d.roles)
                  d.memberships
                  λ k.
                    count-le-update_where (is_owner_role k) (custom_role_key id org_id)
                      is_false_owner (set_role at name description) d.roles inv.no_false_owner
                      (λ x q b. ground arith),
            ));
    }
      where
        same_ids :
            (k : ℕ)
            → count_where
                (λ r. r.id == k)
                (update_where (custom_role_key id org_id) (set_role at name description) d.roles)
              ≡ count_where (λ r. r.id == k) d.roles
        same_ids k =
            count-update_where (λ r. r.id == k) (custom_role_key id org_id)
              (set_role at name description) d.roles (λ x q. refl)

  -- A change of member roles that leaves each organization an Owner.
  pub Inv-member_updated :
      (id org_id role_id at : ℕ) (d' : Db)
      → d' ≡ record d {
        memberships =
            update_where
              (active_membership_key id org_id)
              (set_member_role at role_id)
              d.memberships;
      }
      → 1 ≤ count_where (role_key role_id org_id) d.roles
      → ((o : ℕ) → 1 ≤ owners o d → 1 ≤ owners o d')
      → Inv open_org next d'
  Inv-member_updated id org_id role_id at d' e own keeps = record {
    once = record {
      memberships_once = λ k. rw e (omega (arith, inv.once.memberships_once k, same_ids k));
      roles_once = λ k. rw e (inv.once.roles_once k);
    };
    memberships_used = λ k p. rw e (omega (arith, inv.memberships_used k p, same_ids k));
    roles_used = λ k p. rw e (inv.roles_used k p);
    no_false_owner = rw e inv.no_false_owner;
    roles_named = λ k p. rw e (
        count-update_where_zero (λ m. m.role_id == k) (active_membership_key id org_id)
          (set_member_role at role_id) d.memberships (inv.roles_named k p)
          (λ x q. role_below open_org next d inv role_id org_id own k p));
    at_home = rw e (
        strangers-update_where d.roles (active_membership_key id org_id)
          (set_member_role at role_id) d.memberships inv.at_home (λ m h. of_home m h));
    owner_role = λ o p h. rw e (inv.owner_role o p (rw e at h));
    owned = λ o p h. keeps o (inv.owned o p (rw e at h));
  }
    where
      of_home :
          (m : Membership)
          → active_membership_key id org_id m ≡ true
          → count_where (is_foreign role_id m.organization_id) d.roles ≡ 0
      of_home m h =
          let here : m.organization_id ≡ org_id =
            (==_iff m.organization_id org_id).0 (ground arith) in
          rw here (no_foreign role_id org_id d.roles (inv.once.roles_once role_id) own)

      same_ids :
          (k : ℕ)
          → count_where
              (λ m. m.id == k)
              (update_where
                (active_membership_key id org_id)
                (set_member_role at role_id)
                d.memberships)
            ≡ count_where (λ m. m.id == k) d.memberships
      same_ids k =
          count-update_where (λ m. m.id == k) (active_membership_key id org_id)
            (set_member_role at role_id) d.memberships (λ x q. refl)

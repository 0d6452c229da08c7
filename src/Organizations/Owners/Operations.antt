-- ===== src/Organizations/Owners/Operations.antt =====
-- internal/organizations/service.go: the bodies of the role transactions keep the invariant.
use team_flow.Prelude.{
  ℕ, ◌≤◌, ◌≡◌, ap, subst, String, Bool, false, not, List, [], ◌∷◌, ◌++◌, Option, some, find, select,
  count_where, update_where, ◌==◌, str_eq, str_eq_iff, Bool-cases, Option-cases, inl, inr, arith,
  any_apart,
}
use team_flow.Database.Tables.{Db, Role}
use team_flow.Database.Roles.{
  custom_role_key, set_role, role_name_taken, get_role_by_id, create_role as insert_role,
  update_role as update_role_row, delete_role as delete_role_row, count_memberships_by_role,
}
use team_flow.Database.Runs.{
  after, after_read_or_fail, after_require, after_write_or_fail, after_answer, statement_lem,
}
use team_flow.Exec.{World, ok, pure, ◌>>=◌}
use team_flow.Exec.Rules.{Returns, pure-Returns}
use team_flow.Exec.Grows.{Grows, Returns-next, grows_rules}
use team_flow.Organizations.Owners.Core.{Core-Returns, set_permissions-Core}
use team_flow.Organizations.Owners.Invariant.{
  Inv, is_owner_of, is_false_owner, Inv-next, Inv-others, Inv-role, Inv-role_deleted,
}
use team_flow.Organizations.Owners.Updates.{Inv-role_updated}
use team_flow.Organizations.Roles.{
  grant, set_permissions, create_role_tx, update_role_tx, delete_role_tx,
}

-- The row that an insertion adds.
pub insert_role-ok :
    (org_id : ℕ) (name : String) (description : Option String) (is_system : Bool) (next now : ℕ)
    (d d' : Db) (r : Role)
    → insert_role org_id name description is_system next now d ≡ ok (r, d')
    → (d' ≡ record d { roles = d.roles ++ r ∷ [] })
      × (r.id ≡ next)
      × (r.organization_id ≡ org_id)
      × (r.name ≡ name)
      × (r.is_system ≡ is_system)
      × (role_name_taken next org_id name d ≡ false)
unfolding insert_role
insert_role-ok org_id name description is_system next now d d' r h = ground arith

update_role_row-ok :
    (id org_id : ℕ) (name : String) (description : Option String) (next now : ℕ) (d d' : Db)
    (r : Role)
    → update_role_row id org_id name description next now d ≡ ok (r, d')
    → (r₀ : Role) × (find (custom_role_key id org_id) d.roles ≡ some r₀)
      × (role_name_taken id org_id name d ≡ false)
      × (d' ≡ record d {
        roles = update_where (custom_role_key id org_id) (set_role now name description) d.roles;
      })
unfolding update_role_row
update_role_row-ok id org_id name description next now d d' r h =
    elim (Option-cases (find (custom_role_key id org_id) d.roles)) [
      | inl e ↦ absurd (ground arith)
      | inr (r₀, e) ↦ (r₀, e, ground arith, ground arith)
    ]

pub delete_role_row-ok :
    (id org_id next now : ℕ) (d d' : Db) (x : Unit {0})
    → delete_role_row id org_id next now d ≡ ok (x, d')
    → (d'.roles ≡ select (λ r. not (custom_role_key id org_id r)) d.roles)
      × (d'.memberships ≡ d.memberships)
      × (d'.organizations ≡ d.organizations)
unfolding delete_role_row
delete_role_row-ok id org_id next now d d' x h = ground arith

pub set_permissions-Grows :
    (role_id : ℕ) (keys : List String) → Grows (set_permissions role_id keys)
unfolding set_permissions grant
set_permissions-Grows role_id keys = search grows_rules depth 9

-- The end that CreateRole and UpdateRole share.
permissions_end :
    (open_org : ℕ → Bool) (role : Role) (keys : List String) (w : World) (r : Role) (w' : World)
    → Returns (set_permissions role.id keys >>= λ _. pure role) w r w'
    → Inv open_org w.next_id w.db
    → Inv open_org w'.next_id w'.db
permissions_end open_org role keys w r w' h inv =
    after (set_permissions role.id keys) _ w h λ x v s k.
      let (er, ew) = pure-Returns role v r w' k in
      let core =
        Core-Returns (set_permissions role.id keys) w x v (set_permissions-Core role.id keys) s in
      let more =
        Returns-next (set_permissions role.id keys) w x v (set_permissions-Grows role.id keys) s in
      rw ew (
        Inv-others open_org v.next_id w.db (Inv-next open_org w.next_id w.db inv v.next_id more)
          v.db core.same_roles core.same_memberships (λ o. rw core.same_organizations))

module _ (open_org : ℕ → Bool) (org_id : ℕ) (d : Db) (w : World) (w' : World) (at : w.db ≡ d)
    (inv : Inv open_org w.next_id d) (closed : open_org org_id ≡ false)
    (exists : 1 ≤ count_where (λ x. x.id == org_id) d.organizations) where
  -- The unique key refuses a second Owner role.
  not_owner :
      (name : String)
      → role_name_taken w.next_id org_id name d ≡ false
      → str_eq name "Owner" ≡ false
  not_owner name free = elim (Bool-cases (str_eq name "Owner")) [
    | inl e ↦
        let taken =
          any_apart (is_owner_of org_id) (λ x. x.id == w.next_id) d.roles
            (inv.roles_used w.next_id (omega arith)) (inv.owner_role org_id closed exists) in
        let as_owner =
          subst (λ n. role_name_taken w.next_id org_id n d ≡ false) ((str_eq_iff name "Owner").0 e)
            free in
        absurd (ground arith)
    | inr e ↦ e
  ]

  pub create_role_tx-Inv :
      (name : String) (description : Option String) (permissions : List String) (r : Role)
      → Returns (create_role_tx org_id name description permissions) w r w'
      → Inv open_org w'.next_id w'.db
  unfolding create_role_tx
  create_role_tx-Inv name description permissions r h =
      after_write_or_fail _ _ _ w at h λ role w₁ e c n k₁.
        let (added, fresh, of_org, named, custom, free) =
          insert_role-ok org_id name description false w.next_id w.clock d w₁.db role e in
        let plain : is_false_owner role ≡ false = rw (custom, named) (not_owner name free) in
        permissions_end open_org role permissions w₁ r w' k₁
          (rw (n, added) (Inv-role open_org w.next_id d inv role fresh plain))

  pub update_role_tx-Inv :
      (role_id : ℕ) (name : String) (description : Option String) (permissions : List String)
      (r : Role)
      → Returns (update_role_tx org_id role_id name description permissions) w r w'
      → Inv open_org w'.next_id w'.db
  unfolding update_role_tx get_role_by_id
  update_role_tx-Inv role_id name description permissions r h =
      after_read_or_fail _ _ _ w at h λ current w₁ d₁ n₁ ec k₁.
        after_require _ _ _ w₁ k₁ λ custom k₂.
          after_write_or_fail _ _ _ w₁ d₁ k₂ λ role w₂ e c m k₃.
            let (r₀, found, free, written) =
              update_role_row-ok role_id org_id name description w₁.next_id w₁.clock d w₂.db role
                e in
            permissions_end open_org role permissions w₂ r w' k₃ (
              Inv-next open_org w₁.next_id w₂.db
                (Inv-role_updated open_org w₁.next_id d
                  (Inv-next open_org w.next_id d inv w₁.next_id n₁) role_id org_id w₁.clock name
                  description r₀ found free closed exists w₂.db (ap (λ (z : Db). z.roles) written)
                  (ap (λ (z : Db). z.memberships) written)
                  (ap (λ (z : Db). z.organizations) written))
                w₂.next_id (omega arith))

  pub delete_role_tx-Inv :
      (role_id : ℕ) (x : Unit {0})
      → Returns (delete_role_tx org_id role_id) w x w'
      → Inv open_org w'.next_id w'.db
  unfolding delete_role_tx get_role_by_id count_memberships_by_role
  delete_role_tx-Inv role_id x h = after_read_or_fail _ _ _ w at h λ role w₁ d₁ n₁ er k₁.
      after_require _ _ _ w₁ k₁ λ custom k₂. after_answer _ _ w₁ d₁ k₂ λ n w₂ d₂ n₂ en k₃.
        after_require _ _ _ w₂ k₃ λ unused k₄.
          let (e, c, m) = statement_lem _ w₂ d₂ k₄ in
          let (er', em, eo) = delete_role_row-ok role_id org_id w₂.next_id w₂.clock d w'.db x e in
          Inv-next open_org w₂.next_id w'.db
            (Inv-role_deleted open_org w₂.next_id d
              (Inv-next open_org w.next_id d inv w₂.next_id (omega arith)) role_id org_id w'.db er'
              em eo)
            w'.next_id (omega arith)

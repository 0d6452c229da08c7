-- ===== src/Organizations/Owners/Assign.antt =====
-- internal/organizations/service.go: AssignMemberRole leaves every organization an active Owner.
use team_flow.Prelude.{
  ℕ, ◌+◌, ◌≤◌, ◌≡◌, refl, sym, ap, subst, ◌∙◌, String, Bool, true, false, ◌&&◌, not, some, find,
  update_where, ◌==◌, ==_iff, str_eq, leb, if◌then◌else◌, Bool-cases, Option-cases, inl, inr, ◌⊎◌,
  ◌||◌, arith, find_unique, find-holds, count-le-count,
}
use team_flow.Database.Tables.{Db, Role, Membership}
use team_flow.Database.Roles.{role_key, get_role_by_id}
use team_flow.Database.Users.{get_user_by_id}
use team_flow.Database.Memberships.{
  membership_key, active_membership_key, set_member_role, get_membership_by_id, count_active_owners,
  update_membership_role,
}
use team_flow.Database.Runs.{
  after, after_read, after_read_or_fail, after_require, after_write, after_answer,
}
use team_flow.Exec.{World, ok, statement, require, pure, ◌>>=◌}
use team_flow.Httpx.Errors.{Error, api}
use team_flow.Exec.Rules.{Returns, require-Returns, pure-Returns}
use team_flow.Organizations.Owners.{UniqueIds, owners, weight, owners-update, owner_of_find}
use team_flow.Organizations.Members.{MemberDto, keep_an_owner, assign_role_tx}

-- The count that the guard asks for.
guard-Returns :
    (b : Bool) (org_id : ℕ) (e : Error) (d : Db) (w : World) (x : Unit {0}) (w' : World)
    → w.db ≡ d
    → Returns
        (if b
          then (statement (count_active_owners org_id) >>= λ n. require (not (leb n 1)) e)
          else pure tt)
        w
        x
        w'
    → (w'.db ≡ d) × (b ≡ true → 2 ≤ owners org_id d)
unfolding count_active_owners
guard-Returns false org_id e d w x w' at h =
    (ap (λ (z : World). z.db) (pure-Returns tt w x w' h).1 ∙ at, λ p. absurd (cc p))
guard-Returns true org_id e d w x w' at h = after_answer _ _ w at h λ n v dv nv en r.
    let (passed, same) = require-Returns _ e v x w' r in
    (ap (λ (z : World). z.db) same ∙ dv, λ _. ground arith)

-- The guard passes only where the change leaves an Owner, or takes none away.
keep_an_owner-Returns :
    (org_id : ℕ) (current new : Role) (d : Db) (w : World) (x : Unit {0}) (w' : World)
    → w.db ≡ d
    → Returns (keep_an_owner org_id current new) w x w'
    → (w'.db ≡ d)
      × (str_eq current.name "Owner" ≡ true → str_eq new.name "Owner" ≡ false → 2 ≤ owners org_id d)
unfolding keep_an_owner
keep_an_owner-Returns org_id current new d w x w' at h =
    let (same, two) = guard-Returns _ org_id (api 409 "LAST_OWNER") d w x w' at h in
    (same, λ p q. two (rw (p, q)))

-- The statement hits the active membership of that identifier, and changes no other table.
update_membership_role-ok :
    (id org_id role_id next now : ℕ) (d d' : Db) (m : Membership)
    → update_membership_role id org_id role_id next now d ≡ ok (m, d')
    → (m₀ : Membership) × (find (active_membership_key id org_id) d.memberships ≡ some m₀)
      × (d' ≡ record d {
        memberships =
            update_where
              (active_membership_key id org_id)
              (set_member_role now role_id)
              d.memberships;
      })
unfolding update_membership_role
update_membership_role-ok id org_id role_id next now d d' m h =
    elim (Option-cases (find (active_membership_key id org_id) d.memberships)) [
      | inl e ↦ absurd (ground arith)
      | inr (m₀, e) ↦ (m₀, e, ground arith)
    ]

module _ (d : Db) (id org_id role_id now : ℕ) (m current : Membership) (old new : Role) where
  abbrev after_update : Db
  after_update = record d {
    memberships =
        update_where (active_membership_key id org_id) (set_member_role now role_id) d.memberships;
  }

  module _ (u : UniqueIds d)
      (em : find (active_membership_key id org_id) d.memberships ≡ some m) where
    moved :
        (o : ℕ)
        → owners o after_update + weight o d.roles m
          ≡ owners o d + weight o d.roles (set_member_role now role_id m)
    moved o =
        let narrow =
          count-le-count (active_membership_key id org_id) (λ x. x.id == id) d.memberships
            λ x p. ground arith in
        owners-update o d.roles (active_membership_key id org_id) (set_member_role now role_id)
          d.memberships m (omega (arith, u.memberships_once id, narrow)) em

    hit : active_membership_key id org_id m ≡ true
    hit = find-holds (active_membership_key id org_id) d.memberships m em

    -- With the guard passed, the organization keeps an Owner.
    update-keeps_owner :
        find (membership_key id org_id) d.memberships ≡ some current
        → find (role_key current.role_id org_id) d.roles ≡ some old
        → find (role_key role_id org_id) d.roles ≡ some new
        → (str_eq old.name "Owner" ≡ true → str_eq new.name "Owner" ≡ false → 2 ≤ owners org_id d)
        → 1 ≤ owners org_id d
        → 1 ≤ owners org_id after_update
    update-keeps_owner ec eo en guard h =
        let narrow =
          count-le-count (membership_key id org_id) (λ x. x.id == id) d.memberships
            λ x p. ground arith in
        let same : m ≡ current =
          find_unique (active_membership_key id org_id) (membership_key id org_id) d.memberships m
            current (λ x p. ground arith) (omega (arith, u.memberships_once id, narrow)) em ec in
        let was =
          owner_of_find current.role_id org_id d.roles old (u.roles_once current.role_id) eo in
        let is = owner_of_find role_id org_id d.roles new (u.roles_once role_id) en in
        elim (Bool-cases (str_eq old.name "Owner")) [
          | inl a ↦ elim (Bool-cases (str_eq new.name "Owner")) [
            | inl b ↦ ground (arith, moved org_id, hit)
            | inr b ↦ ground (arith, moved org_id, hit, guard a b)
          ]
          | inr a ↦ ground (arith, moved org_id, hit)
        ]

    -- Other organizations are not concerned.
    update-other : (o : ℕ) → (org_id == o) ≡ false → owners o after_update ≡ owners o d
    update-other o e = ground (arith, moved o, hit)

-- What a run of the transaction that commits has read, checked and written.
pub record Assigned (caller : String) (org_id id role_id : ℕ) (d d' : Db) (dto : MemberDto)
    : Type 0 where
  pub current : Membership
  pub changed : Membership
  pub old : Role
  pub new : Role
  pub at : ℕ
  pub current_found : find (membership_key id org_id) d.memberships ≡ some current
  pub old_found : find (role_key current.role_id org_id) d.roles ≡ some old
  pub new_found : find (role_key role_id org_id) d.roles ≡ some new
  pub changed_found : find (active_membership_key id org_id) d.memberships ≡ some changed
  pub by_owner :
      (str_eq old.name "Owner" ≡ true) ⊎ (str_eq new.name "Owner" ≡ true)
      → str_eq caller "Owner" ≡ true
  pub guarded :
      str_eq old.name "Owner" ≡ true → str_eq new.name "Owner" ≡ false → 2 ≤ owners org_id d
  pub written : d' ≡ record d {
    memberships =
        update_where (active_membership_key id org_id) (set_member_role at role_id) d.memberships;
  }
  pub reported : dto.role ≡ new.name

pub assign_role_tx-Assigned :
    (caller : String) (org_id id role_id : ℕ) (d : Db) (w : World) (dto : MemberDto) (w' : World)
    → w.db ≡ d
    → Returns (assign_role_tx caller org_id id role_id) w dto w'
    → Assigned caller org_id id role_id d w'.db dto
unfolding assign_role_tx get_membership_by_id get_role_by_id get_user_by_id
assign_role_tx-Assigned caller org_id id role_id d w dto w' at h =
    after_read_or_fail _ _ _ w at h λ current w₁ d₁ n₁ ec k₁.
      after_read _ _ w₁ d₁ k₁ λ old w₂ d₂ n₂ eo k₂.
        after_read_or_fail _ _ _ w₂ d₂ k₂ λ new w₃ d₃ n₃ en k₃.
          after_require _ _ _ w₃ k₃ λ allowed k₄.
            after (keep_an_owner org_id old new) _ w₃ k₄ λ x w₄ g k₅.
              let (d₄, guard) = keep_an_owner-Returns org_id old new d w₃ x w₄ d₃ g in
              after_write _ _ w₄ d₄ k₅ λ m w₅ e c n k₆.
                after_read _ _ w₅ refl k₆ λ user w₆ d₆ n₆ eu k₇.
                  let (same, last) = pure-Returns _ w₆ dto w' k₇ in
                  let (m₀, em, ed) =
                    update_membership_role-ok id org_id role_id w₄.next_id w₄.clock d w₅.db m e in
                  record {
                    current = current;
                    changed = m₀;
                    old = old;
                    new = new;
                    at = w₄.clock;
                    current_found = ec;
                    old_found = eo;
                    new_found = en;
                    changed_found = em;
                    by_owner = allowed_owner _ _ _ allowed;
                    guarded = guard;
                    written = ap (λ (z : World). z.db) last ∙ d₆ ∙ ed;
                    reported = ap (λ (x : MemberDto). x.role) same;
                  }
  where
    allowed_owner :
        (a b c : Bool) → not ((a || b) && not c) ≡ true → (a ≡ true) ⊎ (b ≡ true) → c ≡ true
    allowed_owner a b c h k = ground arith

pub Assigned-keeps_owner :
    {caller : String} {org_id id role_id : ℕ} {d d' : Db} {dto : MemberDto}
    → UniqueIds d
    → Assigned caller org_id id role_id d d' dto
    → (o : ℕ) → 1 ≤ owners o d
    → 1 ≤ owners o d'
Assigned-keeps_owner {org_id = org_id} {id = id} {role_id = role_id} {d = d} u a o h =
    elim (Bool-cases (org_id == o)) [
      | inl e ↦
          subst (λ z. 1 ≤ owners o z) (sym a.written)
            (subst
              (λ z.
                1 ≤ owners z d
                → 1
                  ≤ owners z
                      (after_update d id org_id role_id a.at a.changed a.current a.old a.new))
              ((==_iff org_id o).0 e)
              (update-keeps_owner d id org_id role_id a.at a.changed a.current a.old a.new u
                a.changed_found a.current_found a.old_found a.new_found a.guarded)
              h)
      | inr e ↦
          subst (λ z. 1 ≤ owners o z) (sym a.written)
            (rw
              (update-other d id org_id role_id a.at a.changed a.current a.old a.new u
                a.changed_found o e)
              h)
    ]

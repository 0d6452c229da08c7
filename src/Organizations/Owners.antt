-- ===== src/Organizations/Owners.antt =====
-- The Owners of an organization, counted, under the statements that the operations send.
pub mod Assign
pub mod Strangers
pub mod Invariant
pub mod Updates
pub mod Core
pub mod Operations
pub mod Seed
pub mod Create
pub mod Keeps
pub mod Changes
pub mod Found
pub mod Requests
use team_flow.Prelude.{
  ℕ, ◌+◌, ◌≤◌, ◌≡◌, refl, Bool, List, [], ◌∷◌, some, find, count_where, update_where, ◌==◌, str_eq,
  if◌then◌else◌, Bool-cases, inl, inr, arith, count-le-count, find-count,
}
use team_flow.Database.Tables.{Db, Role, Membership}
use team_flow.Database.Roles.{role_key}
use team_flow.Database.Memberships.{is_owner_role, is_active_in, owners_among}

-- Identifiers name one row each.
pub record UniqueIds (d : Db) : Type 0 where
  pub memberships_once : (k : ℕ) → count_where (λ m. m.id == k) d.memberships ≤ 1
  pub roles_once : (k : ℕ) → count_where (λ r. r.id == k) d.roles ≤ 1

-- The active Owners of an organization.
abbrev pub owners : ℕ → Db → ℕ
owners org_id d = owners_among org_id d.roles d.memberships

-- What one membership adds to the count.
abbrev pub weight : ℕ → List Role → Membership → ℕ
weight org_id rs m = if is_active_in org_id m then count_where (is_owner_role m.role_id) rs else 0

module _ (org_id : ℕ) (rs : List Role) (hit : Membership → Bool) (f : Membership → Membership) where
  pub owners-update_none :
      (ms : List Membership)
      → count_where hit ms ≡ 0
      → owners_among org_id rs (update_where hit f ms) ≡ owners_among org_id rs ms
  unfolding owners_among update_where count_where
  owners-update_none [] h = refl
  owners-update_none (m ∷ ms) h = elim (Bool-cases (hit m)) [
    | inl e ↦ absurd (ground arith)
    | inr e ↦ ground (arith, owners-update_none ms)
  ]

  -- A change of the one row that is hit moves the count by the change of its weight.
  pub owners-update :
      (ms : List Membership) (m : Membership)
      → count_where hit ms ≤ 1
      → find hit ms ≡ some m
      → owners_among org_id rs (update_where hit f ms) + weight org_id rs m
        ≡ owners_among org_id rs ms + weight org_id rs (f m)
  unfolding owners_among update_where count_where find
  owners-update [] m h e = ground arith
  owners-update (x ∷ xs) m h e = elim (Bool-cases (hit x)) [
    | inl t ↦
        let same : x ≡ m = ground arith in
        let rest = owners-update_none xs (ground arith) in rw t (rw (← same) (omega (arith, rest)))
    | inr t ↦
        let rest = owners-update xs m (ground arith) (ground arith) in rw t (omega (arith, rest))
  ]

-- A role that a search finds decides whether its members are Owners.
pub owner_of_find :
    (k org_id : ℕ) (rs : List Role) (r : Role)
    → count_where (λ x. x.id == k) rs ≤ 1
    → find (role_key k org_id) rs ≡ some r
    → count_where (is_owner_role k) rs ≡ (if str_eq r.name "Owner" then 1 else 0)
unfolding count_where find
owner_of_find k org_id [] r u h = ground arith
owner_of_find k org_id (x ∷ xs) r u h = elim (Bool-cases (x.id == k)) [
  | inl e ↦ elim (Bool-cases (x.organization_id == org_id)) [
    | inl o ↦
        let same : x ≡ r = ground arith in
        let rest = count-le-count (is_owner_role k) (λ y. y.id == k) xs (λ y p. ground arith) in
        rw (← same) (ground arith)
    | inr o ↦
        let found = find-count (role_key k org_id) xs r (ground arith) in
        let rest = count-le-count (role_key k org_id) (λ y. y.id == k) xs (λ y p. ground arith) in
        absurd (ground arith)
  ]
  | inr e ↦ let rest = owner_of_find k org_id xs r (ground arith) (ground arith) in ground arith
]

-- ===== src/Organizations/Owners/Strangers.antt =====
-- Members and the organizations of their roles: the schema lets a membership name a role of another
-- organization, and what the operations do about it is counted here.
use team_flow.Prelude.{
  ℕ, ◌+◌, ◌≤◌, ◌≡◌, refl, Bool, true, false, ◌&&◌, not, List, [], ◌∷◌, ◌++◌, any, count_where,
  update_where, ◌==◌, ==_iff, str_eq, Bool-cases, inl, inr, arith, count_where-append,
}
use team_flow.Database.Tables.{Db, Role, Membership}
use team_flow.Database.Roles.{role_key}
use team_flow.Database.Memberships.{is_owner_role, is_active_in, owners_among}

-- The role of that identifier, of another organization.
abbrev pub is_foreign : ℕ → ℕ → Role → Bool
is_foreign k org_id r = r.id == k && not (r.organization_id == org_id)

-- The Owner role of that identifier, of the organization itself.
abbrev pub is_own_owner : ℕ → ℕ → Role → Bool
is_own_owner k org_id r = role_key k org_id r && str_eq r.name "Owner"

-- An active member whose role is the Owner role of the organization itself.
abbrev pub owns : ℕ → List Role → Membership → Bool
owns org_id rs m = is_active_in org_id m && any (is_own_owner m.role_id org_id) rs

abbrev pub own_owners : ℕ → Db → ℕ
own_owners org_id d = count_where (owns org_id d.roles) d.memberships

-- The memberships whose role is another organization's.
unfoldable pub strangers : List Role → List Membership → ℕ
strangers rs [] = 0
strangers rs (m ∷ ms) = count_where (is_foreign m.role_id m.organization_id) rs + strangers rs ms

pub strangers-le_roles :
    (rs rs' : List Role) (ms : List Membership)
    → ((k o : ℕ) → count_where (is_foreign k o) rs' ≤ count_where (is_foreign k o) rs)
    → strangers rs' ms ≤ strangers rs ms
unfolding strangers
strangers-le_roles rs rs' [] h = omega arith
strangers-le_roles rs rs' (m ∷ ms) h =
    omega (arith, h m.role_id m.organization_id, strangers-le_roles rs rs' ms h)

pub strangers-append :
    (rs : List Role) (ms ns : List Membership)
    → strangers rs (ms ++ ns) ≡ strangers rs ms + strangers rs ns
unfolding strangers
strangers-append rs [] ns = omega arith
strangers-append rs (m ∷ ms) ns = omega (arith, strangers-append rs ms ns)

-- A new role that no member has.
pub strangers-new_role :
    (rs : List Role) (r : Role) (ms : List Membership)
    → count_where (λ m. m.role_id == r.id) ms ≡ 0
    → strangers (rs ++ r ∷ []) ms ≡ strangers rs ms
unfolding strangers count_where
strangers-new_role rs r [] h = refl
strangers-new_role rs r (m ∷ ms) h =
    let rest = strangers-new_role rs r ms (ground arith) in
    let other : (m.role_id == r.id) ≡ false = ground arith in
    let foreign : is_foreign m.role_id m.organization_id r ≡ false =
      elim (Bool-cases (r.id == m.role_id)) [
        | inl e ↦ absurd (ground (arith, (==_iff r.id m.role_id).0 e))
        | inr e ↦ rw e refl
      ] in
    ground (
      arith,
      count_where-append (is_foreign m.role_id m.organization_id) rs (r ∷ []),
      rest,
      foreign,
    )

-- Members who get a role that is not another organization's.
pub strangers-update_where :
    (rs : List Role) (hit : Membership → Bool) (f : Membership → Membership) (ms : List Membership)
    → strangers rs ms ≡ 0
    → ((m : Membership)
        → hit m ≡ true
        → count_where (is_foreign (f m).role_id (f m).organization_id) rs ≡ 0)
    → strangers rs (update_where hit f ms) ≡ 0
unfolding strangers update_where
strangers-update_where rs hit f [] z h = refl
strangers-update_where rs hit f (m ∷ ms) z h =
    let rest = strangers-update_where rs hit f ms (omega (arith, z)) h in
    elim (Bool-cases (hit m)) [
      | inl e ↦ rw e (omega (arith, h m e, rest))
      | inr e ↦ rw e (omega (arith, z, rest))
    ]

split_by_home :
    (k o : ℕ) (rs : List Role)
    → count_where (role_key k o) rs + count_where (is_foreign k o) rs
      ≡ count_where (λ r. r.id == k) rs
unfolding count_where
split_by_home k o [] = refl
split_by_home k o (r ∷ rs) = ground (arith, split_by_home k o rs)

-- An identifier that names a role of the organization names none of another.
pub no_foreign :
    (k o : ℕ) (rs : List Role)
    → count_where (λ r. r.id == k) rs ≤ 1
    → 1 ≤ count_where (role_key k o) rs
    → count_where (is_foreign k o) rs ≡ 0
no_foreign k o rs u h = omega (arith, split_by_home k o rs)

own_role :
    (k o : ℕ) (rs : List Role)
    → 1 ≤ count_where (is_owner_role k) rs
    → count_where (is_foreign k o) rs ≡ 0
    → any (is_own_owner k o) rs ≡ true
unfolding count_where any
own_role k o [] h z = absurd (omega (arith, h))
own_role k o (r ∷ rs) h z = elim (Bool-cases (is_own_owner k o r)) [
  | inl e ↦ rw e refl
  | inr e ↦ ground (arith, own_role k o rs)
]

-- Where no member's role is another organization's, a count of Owners counts one of its own.
pub owners_are_own :
    (o : ℕ) (rs : List Role) (ms : List Membership)
    → strangers rs ms ≡ 0
    → 1 ≤ owners_among o rs ms
    → 1 ≤ count_where (owns o rs) ms
unfolding strangers owners_among count_where
owners_are_own o rs [] z h = absurd (omega (arith, h))
owners_are_own o rs (m ∷ ms) z h = elim (Bool-cases (is_active_in o m)) [
  | inr e ↦ omega (arith, owners_are_own o rs ms (omega (arith, z)) (omega (arith, rw e at h)))
  | inl e ↦ elim (Bool-cases (owns o rs m)) [
    | inl k ↦ rw k (omega arith)
    | inr k ↦ ground (arith, own_role m.role_id o rs, owners_are_own o rs ms)
  ]
]

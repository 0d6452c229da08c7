-- ===== src/Organizations/Hidden.antt =====
-- internal/organizations/service.go: ResolveTenant does not tell a stranger whether an organization
-- exists.
use team_flow.Prelude.{
  ℕ, ◌≡◌, refl, String, Bool, true, false, ◌&&◌, Option, none, some, find, any, ◌==◌, str_eq,
  Option-cases, Bool-cases, inl, inr, find-holds, find-count_where, any_of_count,
}
use team_flow.Httpx.Errors.{from_error}
use team_flow.Database.Tables.{Db, Membership}
use team_flow.Database.Memberships.{get_membership}
use team_flow.Exec.{Result, ok, err, ◌>>=◌, or_fail, statement, with_tenant_tx}
use team_flow.Exec.Calm.{calm}
use team_flow.Organizations.Tenant.{resolve_tenant}

abbrev is_member : ℕ → ℕ → Membership → Bool
is_member user_id org_id m = m.organization_id == org_id && m.user_id == user_id

abbrev active_member : ℕ → ℕ → Membership → Bool
active_member user_id org_id m = is_member user_id org_id m && str_eq m.status "active"

-- What `FromError` makes of a result that is an error.
abbrev pub answer : {A : Type 0} → Result A → Option (ℕ × String)
answer (ok a) = none
answer (err e) = some ((from_error e).status, (from_error e).code)

-- While no round trip fails, a caller without an active membership is answered with 404 and
-- ORGANIZATION_NOT_FOUND, whatever organizations there are.
pub resolve_tenant-hides :
    (user_id org_id : ℕ) (d : Db) (next clock : ℕ)
    → any
        (λ m. (m.organization_id == org_id && m.user_id == user_id) && str_eq m.status "active")
        d.memberships
      ≡ false
    → answer (resolve_tenant user_id org_id (calm d next clock)).0
      ≡ some (404, "ORGANIZATION_NOT_FOUND")
unfolding resolve_tenant ◌>>=◌ or_fail statement with_tenant_tx get_membership from_error
    team_flow.Httpx.Errors.is_no_rows
resolve_tenant-hides user_id org_id d next clock h =
    elim (Option-cases (find (is_member user_id org_id) d.memberships)) [
      | inl e ↦ rw e refl
      | inr (m, e) ↦
          let inactive : str_eq m.status "active" ≡ false =
            elim (Bool-cases (str_eq m.status "active")) [
              | inl s ↦
                  let held = find-holds (is_member user_id org_id) d.memberships m e in
                  let hit : active_member user_id org_id m ≡ true = rw (held, s) refl in
                  let one =
                    find-count_where (is_member user_id org_id) (active_member user_id org_id)
                      d.memberships m e hit in
                  absurd (cc (any_of_count (active_member user_id org_id) d.memberships one, h))
              | inr s ↦ s
            ] in
          rw (e, inactive) refl
    ]

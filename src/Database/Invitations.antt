-- ===== src/Database/Invitations.antt =====
-- internal/db/invitations.sql.go, and GetActiveMembershipByEmail, under the constraints of
-- migrations/000015 and 000017. `fold` is the lower-casing by which the server compares CITEXT.
use team_flow.Prelude.{
  ℕ, suc, String, Bool, true, false, ◌&&◌, ◌||◌, not, Option, none, some, List, [], ◌∷◌, ◌++◌, find,
  select, any, update_where, ◌==◌, ltb, str_eq, if◌then◌else◌,
}
use team_flow.Httpx.Errors.{pg, no_rows}
use team_flow.Database.Tables.{User, Membership, Invitation}
use team_flow.Database.Memberships.{is_active_in}
use team_flow.Exec.{Result, Query, ok, err}
use team_flow.Database.Rows.{one, sort_on, first_rows}

-- `WHERE id = $1 AND organization_id = $2`
abbrev pub invitation_key : ℕ → ℕ → Invitation → Bool
invitation_key id org_id i = i.id == id && i.organization_id == org_id

abbrev pub has_token : String → Invitation → Bool
has_token hash i = str_eq i.token_hash hash

abbrev pub is_pending : Invitation → Bool
is_pending i = str_eq i.status "pending"

abbrev pub pending_key : ℕ → ℕ → Invitation → Bool
pending_key id org_id i = invitation_key id org_id i && is_pending i

unfoldable pub get_invitation_by_id : ℕ → ℕ → Query Invitation
unfolding one
get_invitation_by_id id org_id next now d = one (find (invitation_key id org_id) d.invitations) d

-- GetInvitationByTokenHash, and GetInvitationByTokenHashForUpdate, which also locks the row.
unfoldable pub get_invitation_by_token_hash : String → Query Invitation
unfolding one
get_invitation_by_token_hash hash next now d = one (find (has_token hash) d.invitations) d

-- The organization of the invitation.
unfoldable pub get_invitation_by_id_for_job : ℕ → Query Invitation
unfolding one
get_invitation_by_id_for_job id next now d = one (find (λ i. i.id == id) d.invitations) d

abbrev pub is_set : {A : Type 0} → Option A → Bool
is_set none = false
is_set (some a) = true

abbrev pub same : Bool → Bool → Bool
same a b = if a then b else not b

abbrev pub is_invitation_status : String → Bool
is_invitation_status s =
    str_eq s "pending" || (str_eq s "accepted" || (str_eq s "revoked" || str_eq s "expired"))

-- The check constraint that a row violates, in the order of their names.
unfoldable pub violated_check : Invitation → Option String
violated_check i =
    if not (same (str_eq i.status "accepted") (is_set i.accepted_at))
    then some "invitations_accepted_consistency"
    else if not (ltb i.created_at i.expires_at)
    then some "invitations_expiry_after_creation"
    else if not (same (str_eq i.status "revoked") (is_set i.revoked_at))
    then some "invitations_revoked_consistency"
    else if not (is_invitation_status i.status)
    then some "invitations_status_check"
    else none

module _ (fold : String → String) where
  -- `UNIQUE (organization_id, email) WHERE status = 'pending'`
  abbrev pub is_pending_for : ℕ → String → Invitation → Bool
  is_pending_for org_id email i =
      is_pending i && (i.organization_id == org_id && str_eq (fold i.email) (fold email))

  unfoldable pub create_invitation : ℕ → String → ℕ → String → ℕ → ℕ → Query Invitation
  unfolding violated_check
  create_invitation org_id email role_id token_hash invited_by expires_at next now d =
      let i : Invitation = record {
        id = next;
        organization_id = org_id;
        email = email;
        role_id = role_id;
        status = "pending";
        token_hash = token_hash;
        invited_by = invited_by;
        expires_at = expires_at;
        accepted_at = none;
        accepted_by = none;
        revoked_at = none;
        created_at = now;
        updated_at = now;
        notified_at = none;
        delivery_attempts = 0;
      } in
      elim (violated_check i) [
        | some name ↦ err (pg "23514" name)
        | none ↦
            if any (has_token token_hash) d.invitations
            then err (pg "23505" "idx_invitations_token_hash")
            else if any (is_pending_for org_id email) d.invitations
            then err (pg "23505" "idx_invitations_pending_email")
            else if not (any (λ o. o.id == org_id) d.organizations)
            then err (pg "23503" "invitations_organization_id_fkey")
            else if not (any (λ u. u.id == invited_by) d.users)
            then err (pg "23503" "invitations_invited_by_fkey")
            else if not (any (λ r. r.id == role_id && r.organization_id == org_id) d.roles)
            then err (pg "23503" "invitations_role_organization_fkey")
            else ok (i, record d { invitations = d.invitations ++ i ∷ [] })
      ]

  -- Some active membership of a user with the address: the join of the two tables.
  unfoldable pub member_by_email : ℕ → String → List User → List Membership → Option Membership
  member_by_email org_id email us [] = none
  member_by_email org_id email us (m ∷ ms) =
      if is_active_in org_id m
        && any (λ u. u.id == m.user_id && str_eq (fold u.email) (fold email)) us
      then some m
      else member_by_email org_id email us ms

  unfoldable pub get_active_membership_by_email : ℕ → String → Query Membership
  unfolding one member_by_email
  get_active_membership_by_email org_id email next now d =
      one (member_by_email org_id email d.users d.memberships) d

-- Another row than `i` has its token.
abbrev pub has_token_of : Invitation → Invitation → Bool
has_token_of i x = not (x.id == i.id) && has_token i.token_hash x

-- `UPDATE invitations SET … WHERE … RETURNING *`: the first row that is hit, with the checks and the
-- unique index of its new values. No statement sets a status back to pending.
unfoldable pub update_invitation :
    (Invitation → Bool) → (Invitation → Invitation) → Query Invitation
unfolding violated_check
update_invitation hit f next now d =
    let set = λ (i : Invitation). record (f i) { updated_at = now } in
    elim (find hit d.invitations) [
      | none ↦ err no_rows
      | some i ↦ elim (violated_check (set i)) [
        | some name ↦ err (pg "23514" name)
        | none ↦
            if any (has_token_of (f i)) d.invitations
            then err (pg "23505" "idx_invitations_token_hash")
            else ok (set i, record d { invitations = update_where hit set d.invitations })
      ]
    ]

abbrev pub set_accepted : ℕ → ℕ → Invitation → Invitation
set_accepted at user_id i = record i {
  status = "accepted";
  accepted_at = some at;
  accepted_by = some user_id;
}

-- A foreign key is checked at the end of the statement.
abbrev pub if_key_exists : {A : Type 0} → Bool → String → Result A → Result A
if_key_exists present name (err e) = err e
if_key_exists present name (ok a) = if present then ok a else err (pg "23503" name)

unfoldable pub accept_invitation : ℕ → ℕ → ℕ → ℕ → Query Invitation
unfolding update_invitation
accept_invitation id org_id accepted_at accepted_by next now d =
    if_key_exists (any (λ u. u.id == accepted_by) d.users) "invitations_accepted_by_fkey" (
      update_invitation (invitation_key id org_id) (set_accepted accepted_at accepted_by) next now
        d)

abbrev pub set_revoked : ℕ → Invitation → Invitation
set_revoked at i = record i { status = "revoked"; revoked_at = some at }

unfoldable pub revoke_invitation : ℕ → ℕ → ℕ → Query Invitation
unfolding update_invitation
revoke_invitation id org_id revoked_at =
    update_invitation (invitation_key id org_id) (set_revoked revoked_at)

abbrev pub set_expired : Invitation → Invitation
set_expired i = record i { status = "expired" }

unfoldable pub mark_invitation_expired : ℕ → ℕ → Query Invitation
unfolding update_invitation
mark_invitation_expired id org_id = update_invitation (pending_key id org_id) set_expired

abbrev pub set_token : String → ℕ → Invitation → Invitation
set_token hash expires_at i = record i { token_hash = hash; expires_at = expires_at }

unfoldable pub rotate_invitation_token : ℕ → ℕ → String → ℕ → Query Invitation
unfolding update_invitation
rotate_invitation_token id org_id hash expires_at =
    update_invitation (pending_key id org_id) (set_token hash expires_at)

abbrev pub is_undelivered : Invitation → Bool
is_undelivered i = is_pending i && not (is_set i.notified_at)

abbrev pub set_redelivery : String → Invitation → Invitation
set_redelivery hash i = record i { token_hash = hash; delivery_attempts = suc i.delivery_attempts }

unfoldable pub rotate_invitation_for_delivery : ℕ → ℕ → String → Query Invitation
unfolding update_invitation
rotate_invitation_for_delivery id org_id hash =
    update_invitation (λ i. invitation_key id org_id i && is_undelivered i) (set_redelivery hash)

unfoldable pub mark_invitation_notified : ℕ → ℕ → Query (Unit {0})
mark_invitation_notified id org_id next now d = ok (
  tt,
  record d {
    invitations =
        update_where (invitation_key id org_id)
          (λ i. record i { notified_at = some now; updated_at = now }) d.invitations;
  },
)

unfoldable pub list_undelivered_invitations : ℕ → ℕ → ℕ → ℕ → Query (List Invitation)
unfolding sort_on first_rows
list_undelivered_invitations attempts created_before org_id row_limit next now d =
    let hit = λ (i : Invitation).
      is_undelivered i
      && (i.delivery_attempts == attempts
          && (ltb i.created_at created_before && i.organization_id == org_id)) in
    ok (first_rows row_limit (sort_on (λ i. i.created_at) (select hit d.invitations)), d)

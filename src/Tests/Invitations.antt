-- ===== src/Tests/Invitations.antt =====
-- The theorems on invitations, at one that is sent to an address without an account.

use Prim.Native.Char.{code}
use team_flow.Prelude.{
  ltb, ℕ, ◌≤◌, ◌≡◌, refl, ap, arith, str_eq, String, Bool, true, false, ◌≢◌, ◌∙◌, List, [], ◌∷◌,
  none, some, ◌==◌, find, count_where, update_where, if◌then◌else◌,
}
use team_flow.Httpx.Errors.{api}
use team_flow.Database.Tables.{Db, User, Organization, Role, Membership, Invitation, empty}
use team_flow.Database.Invitations.{is_pending_for, set_expired}
use team_flow.Exec.{World, Result, ok, err, EmailJob}
use team_flow.Exec.Calm.{calm}
use team_flow.Auth.Tokens.{AuthConfig, RequestMeta}
use team_flow.Invitations.Model.{InviteConfig, AcceptInput, AcceptResult, InvitationDto}
use team_flow.Invitations.Requests.{InviteRequest, invites, accepts, serve_invites}
use team_flow.Invitations.Manage.{resend}
use team_flow.Invitations.Accept.{accept}
use team_flow.Invitations.Ledger.{Balanced, Tidy}
use team_flow.Invitations.Served.{serve_invites-Ledger}
use team_flow.Invitations.Accepted.{Accepted, accept-Accepted, accept-once}
use team_flow.Invitations.Refused.{accept-late}
use team_flow.Invitations.Delivery.{email_job, done}
use team_flow.Invitations.Sent.{AtMostOne, message, email_job-AtMostOne}
use team_flow.Invitations.Mailed.{email_job-delivers}
use team_flow.Invitations.Resent.{resend-ends_old_link}

abbrev user : ℕ → String → User
user id email = record {
  id = id;
  email = email;
  password_hash = "";
  first_name = "A";
  last_name = "B";
  avatar_url = none;
  status = "active";
  email_verified_at = none;
  last_login_at = none;
  created_at = 0;
  updated_at = 0;
}

abbrev org : Organization
org = record {
  id = 10;
  name = "Acme";
  slug = "acme";
  status = "active";
  created_at = 0;
  updated_at = 0;
}

abbrev role : Role
role = record {
  id = 20;
  organization_id = 10;
  name = "Admin";
  description = none;
  is_system = true;
  created_at = 0;
  updated_at = 0;
}

abbrev ann : Membership
ann = record {
  id = 30;
  organization_id = 10;
  user_id = 1;
  role_id = 20;
  status = "active";
  joined_at = some 0;
  created_at = 0;
  updated_at = 0;
}

-- An invitation that is sent to bob.
abbrev invitation : String → Invitation
invitation status = record {
  id = 40;
  organization_id = 10;
  email = "bob";
  role_id = 20;
  status = status;
  token_hash = "link";
  invited_by = 1;
  expires_at = 500;
  accepted_at = none;
  accepted_by = none;
  revoked_at = none;
  created_at = 0;
  updated_at = 0;
  notified_at = none;
  delivery_attempts = 0;
}

abbrev rows : List Invitation → Db
rows invitations = record empty {
  users = user 1 "ann" ∷ user 2 "bob" ∷ [];
  organizations = org ∷ [];
  roles = role ∷ [];
  permissions = record { id = 50; key = "members.manage"; description = ""; created_at = 0 } ∷ [];
  role_permissions = record { role_id = 20; permission_id = 50 } ∷ [];
  memberships = ann ∷ [];
  invitations = invitations;
}

abbrev cfg : InviteConfig
cfg = record {
  hash_token = λ raw. raw;
  random_token = λ n. ok (if n == 101 then "new" else "token");
  hash_password = λ salt password. ok password;
  lower = λ s. s;
  fold = λ s. s;
  parse_address = λ s. true;
  is_letter = λ c. ltb 57 (code c);
  is_digit = λ c. true;
  ttl = 1000;
  base_url = "https://team/";
  has_queue = true;
}

abbrev auth : AuthConfig
auth = record {
  hash_token = λ raw. raw;
  random_token = λ n. ok "session";
  sign = λ claims. ok "jwt";
  issuer = "teamflow";
  access_ttl = 900000000000;
  refresh_ttl = 500;
}

abbrev meta : RequestMeta
meta = record { user_agent = ""; ip_address = "10.0.0.1" }

abbrev by_link : AcceptInput
by_link = record { token = "link"; password = ""; first_name = ""; last_name = "" }

abbrev pending : World
pending = calm (rows (invitation "pending" ∷ [])) 100 60

-- A request to invite bob once more, and one to invite carol.
abbrev requests : List InviteRequest
requests =
    invites 1 10 (record { email = "bob"; role_id = 20 })
    ∷ accepts 2 (record by_link { token = "new" }) meta
    ∷ []

serve_invites-Ledger_example :
    ((o : ℕ) (e : String)
      → count_where
          (is_pending_for cfg.fold o e)
          (serve_invites cfg auth requests (calm (rows []) 100 60)).db.invitations
        ≤ 1)
    × Balanced (ann ∷ []) (serve_invites cfg auth requests (calm (rows []) 100 60)).db
serve_invites-Ledger_example = serve_invites-Ledger cfg auth requests (calm (rows []) 100 60) refl

abbrev taken : AcceptResult
taken = record {
  invitation_id = 40;
  organization_id = 10;
  organization_name = "Acme";
  role_name = "Admin";
  user = record {
    id = 2;
    email = "bob";
    first_name = "A";
    last_name = "B";
    avatar_url = none;
    status = "active";
    email_verified_at = none;
    last_login_at = none;
    created_at = 0;
  };
  tokens = record {
    access_token = "jwt";
    refresh_token = "session";
    expires_in = 900;
    expires_at = 900000000060;
  };
}

link_is_taken : (accept cfg auth 2 by_link meta pending).0 ≡ ok taken
unfolding accept team_flow.Exec.◌>>=◌ team_flow.Prelude.trim_space team_flow.Exec.or_fail
    team_flow.Exec.statement team_flow.Database.Invitations.get_invitation_by_token_hash find
    team_flow.Exec.now team_flow.Exec.with_tenant_tx team_flow.Invitations.Model.is_usable
    team_flow.Database.Roles.get_role_by_id team_flow.Database.Organizations.get_organization_by_id
    team_flow.Database.Users.get_user_by_id team_flow.Database.Memberships.create_membership
    team_flow.Prelude.any team_flow.Database.Invitations.accept_invitation team_flow.Exec.new_id
    team_flow.Auth.Sessions.start_session team_flow.Auth.Tokens.create_refresh_token
    team_flow.Auth.Tokens.generate_access_token team_flow.Auth.Tokens.generate_refresh_token
    team_flow.Auth.Tokens.issue_session team_flow.Auth.Tokens.token_pair
    team_flow.Database.Invitations.update_invitation team_flow.Database.Invitations.violated_check
    team_flow.Database.RefreshTokens.create_refresh_token team_flow.Database.Rows.is_blank
    team_flow.Database.Rows.one team_flow.Exec.rollback_on_error team_flow.Exec.round_trip
    team_flow.Exec.run team_flow.Exec.transaction team_flow.Invitations.Accept.accept_tx
    team_flow.Invitations.Accept.accepted team_flow.Invitations.Accept.hash_new_password
    team_flow.Invitations.Accept.join team_flow.Invitations.Accept.known_user
    team_flow.Invitations.Accept.resolve_user team_flow.Invitations.Accept.use_invitation
    team_flow.Invitations.Model.normalize_email team_flow.Invitations.Model.validate_account
    update_where team_flow.Prelude.drop_while team_flow.Prelude.drop_while_end
    team_flow.Prelude.is_space team_flow.Prelude.trim
link_is_taken = refl

accept-Accepted_example :
    Accepted cfg by_link 2 pending taken (accept cfg auth 2 by_link meta pending).1.db
accept-Accepted_example =
    accept-Accepted cfg auth by_link meta 2 pending taken (accept cfg auth 2 by_link meta pending).1
      (ap (λ (r : Result AcceptResult). (r, (accept cfg auth 2 by_link meta pending).1))
        link_is_taken)

accept-once_example :
    ¬ ((accept cfg auth 1 by_link meta (accept cfg auth 2 by_link meta pending).1).0 ≡ ok taken)
accept-once_example =
    accept-once cfg auth by_link by_link meta meta 2 1 pending
      (accept cfg auth 2 by_link meta pending).1 taken taken refl link_is_taken refl

one_row : Tidy cfg.fold 100 (rows (invitation "pending" ∷ []))
unfolding count_where
one_row = record {
  once = λ k. ground arith;
  used = λ k p. ground arith;
  one_token = λ h. ground arith;
  one_pending = λ o e. ground arith;
}

-- The link as it is used by someone without an account.
abbrev by_stranger : AcceptInput
by_stranger = record { token = "link"; password = "Passw0rd99"; first_name = "B"; last_name = "C" }

accept-late_example :
    accept cfg auth 0 by_stranger meta (calm (rows (invitation "pending" ∷ [])) 100 900) ≡ (
      err (api 410 "INVITATION_EXPIRED"),
      calm (rows (record (set_expired (invitation "pending")) { updated_at = 900 } ∷ [])) 104 900,
    )
unfolding team_flow.Prelude.trim_space team_flow.Invitations.Model.validate_account find
    team_flow.Database.Invitations.violated_check team_flow.Prelude.any update_where
accept-late_example =
    accept-late cfg auth 0 by_stranger meta (rows (invitation "pending" ∷ [])) 100 900
      (invitation "pending") refl refl (λ e. (refl, ("Passw0rd99", refl))) refl one_row refl refl
      refl

abbrev sent_again : InvitationDto
sent_again = record {
  id = 40;
  organization_id = 10;
  email = "bob";
  role_id = 20;
  role_name = "Admin";
  status = "pending";
  invited_by = 1;
  expires_at = 1060;
  accepted_at = none;
  accepted_by = none;
  revoked_at = none;
  created_at = 0;
  updated_at = 60;
}

-- No token that is drawn is the old one.
drawn_lem : (b : Bool) (raw : String) → (if b then "new" else "token") ≡ raw → raw ≢ "link"
drawn_lem true raw h e = cc (ap (λ (x : String). str_eq x "link") (h ∙ e))
drawn_lem false raw h e = cc (ap (λ (x : String). str_eq x "link") (h ∙ e))

other_tokens :
    (seed : ℕ) (raw : String)
    → 100 ≤ seed
    → cfg.random_token seed ≡ ok raw
    → cfg.hash_token raw ≢ "link"
other_tokens seed raw l h = drawn_lem (seed == 101) raw (cc h)

resend-ends_old_link_example :
    ¬ ((accept cfg auth 2 by_link meta (resend cfg 1 10 40 pending).1).0 ≡ ok taken)
unfolding resend find team_flow.Exec.◌>>=◌ team_flow.Organizations.Tenant.authorize
    team_flow.Exec.with_tenant_tx team_flow.Exec.statement
    team_flow.Database.Memberships.get_membership
    team_flow.Database.Organizations.get_organization_by_id team_flow.Database.Roles.get_role_by_id
    team_flow.Database.Roles.has_role_permission team_flow.Prelude.any team_flow.Exec.new_id
    team_flow.Exec.now team_flow.Database.Invitations.get_invitation_by_id
    team_flow.Database.Invitations.rotate_invitation_token update_where team_flow.Prelude.trim_space
resend-ends_old_link_example =
    resend-ends_old_link cfg auth 1 10 40 2 by_link meta pending (resend cfg 1 10 40 pending).1
      sent_again taken (invitation "pending") one_row refl refl other_tokens refl refl

abbrev email : EmailJob
email = record { invitation_id = 40; token = "link" }

email_job-AtMostOne_example : AtMostOne cfg email pending (email_job cfg email pending).1
email_job-AtMostOne_example = email_job-AtMostOne cfg email pending

email_job-delivers_example :
    ((email_job cfg email pending).0 ≡ ok done)
    × ((email_job cfg email pending).1.sent ≡ message cfg (invitation "pending") "link" ∷ [])
    × ((email_job cfg email pending).1.db
        ≡ rows (record (invitation "pending") { notified_at = some 60; updated_at = 60 } ∷ []))
unfolding find update_where
email_job-delivers_example =
    email_job-delivers cfg email (rows (invitation "pending" ∷ [])) 100 60 (invitation "pending")
      org role refl refl refl refl refl

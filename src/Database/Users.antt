-- ===== src/Database/Users.antt =====
-- internal/db/users.sql.go, under the constraints of migrations/000003. `fold` is the lower-casing by
-- which the server compares values of type CITEXT.
use team_flow.Prelude.{
  ℕ, String, Bool, ◌||◌, not, none, some, [], ◌∷◌, ◌++◌, find, any, update_where, ◌==◌, str_eq,
  if◌then◌else◌,
}
use team_flow.Httpx.Errors.{pg}
use team_flow.Database.Tables.{User}
use team_flow.Exec.{Query, ok, err}
use team_flow.Database.Rows.{one, is_blank}

unfoldable pub get_user_by_id : ℕ → Query User
unfolding one
get_user_by_id id next now d = one (find (λ u. u.id == id) d.users) d

unfoldable pub update_user_last_login : ℕ → Query (Unit {0})
update_user_last_login id next now d = ok (
  tt,
  record d {
    users =
        update_where (λ u. u.id == id)
          (λ u. record u { last_login_at = some now; updated_at = now }) d.users;
  },
)

abbrev is_user_status : String → Bool
is_user_status s =
    str_eq s "active" || (str_eq s "suspended" || (str_eq s "pending" || str_eq s "deleted"))

module _ (fold : String → String) where
  unfoldable pub get_user_by_email : String → Query User
  unfolding one
  get_user_by_email email next now d =
      one (find (λ u. str_eq (fold u.email) (fold email)) d.users) d

  unfoldable pub create_user : String → String → String → String → String → Query User
  unfolding is_blank
  create_user email password_hash first_name last_name status next now d =
      let u : User = record {
        id = next;
        email = email;
        password_hash = password_hash;
        first_name = first_name;
        last_name = last_name;
        avatar_url = none;
        status = status;
        email_verified_at = none;
        last_login_at = none;
        created_at = now;
        updated_at = now;
      } in
      if is_blank first_name
      then err (pg "23514" "users_first_name_check")
      else if is_blank last_name
      then err (pg "23514" "users_last_name_check")
      else if not (is_user_status status)
      then err (pg "23514" "users_status_check")
      else if any (λ v. str_eq (fold v.email) (fold email)) d.users
      then err (pg "23505" "users_email_key")
      else ok (u, record d { users = d.users ++ u ∷ [] })

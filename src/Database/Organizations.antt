-- ===== src/Database/Organizations.antt =====
-- internal/db/organizations.sql.go, under the constraints of migrations/000002. `fold` is the
-- lower-casing by which the server compares values of type CITEXT.
use team_flow.Prelude.{
  ℕ, String, Bool, ◌&&◌, not, [], ◌∷◌, ◌++◌, none, some, find, any, update_where, List, select, map,
  ◌==◌, str_eq, if◌then◌else◌,
}
use team_flow.Httpx.Errors.{pg, no_rows}
use team_flow.Database.Tables.{Db, Organization}
use team_flow.Exec.{Query, ok, err}
use team_flow.Database.Rows.{one, is_blank, sort_on, first_rows}

-- `SELECT … FROM organizations WHERE id = $1`
unfoldable pub get_organization_by_id : ℕ → Query Organization
unfolding one
get_organization_by_id id next now d = one (find (λ o. o.id == id) d.organizations) d

module _ (fold : String → String) where
  unfoldable pub slug_taken : String → Db → Bool
  slug_taken slug d = any (λ o. str_eq (fold o.slug) (fold slug)) d.organizations

  -- `SELECT EXISTS (SELECT 1 FROM organizations WHERE slug = $1)`
  unfoldable pub organization_slug_exists : String → Query Bool
  unfolding slug_taken
  organization_slug_exists slug next now d = ok (slug_taken slug d, d)

  -- `INSERT INTO organizations (name, slug, status) … RETURNING …`
  unfoldable pub create_organization : String → String → String → Query Organization
  unfolding slug_taken is_blank
  create_organization name slug status next now d =
      let o : Organization = record {
        id = next;
        name = name;
        slug = slug;
        status = status;
        created_at = now;
        updated_at = now;
      } in
      if is_blank name
      then err (pg "23514" "organizations_name_check")
      else if not (str_eq status "active")
          && (not (str_eq status "suspended") && not (str_eq status "deleted"))
      then err (pg "23514" "organizations_status_check")
      else if slug_taken slug d
      then err (pg "23505" "organizations_slug_key")
      else ok (o, record d { organizations = d.organizations ++ o ∷ [] })

-- `UPDATE organizations SET name = $2 WHERE id = $1 AND status = 'active' RETURNING …`, the
-- statement that `UpdateOrganization` sends itself.
unfoldable pub rename_organization : ℕ → String → Query Organization
unfolding one is_blank
rename_organization id name next now d =
    let hit = λ (o : Organization). o.id == id && str_eq o.status "active" in
    let set = λ (o : Organization). record o { name = name; updated_at = now } in
    elim (find hit d.organizations) [
      | none ↦ err no_rows
      | some o ↦
          if is_blank name
          then err (pg "23514" "organizations_name_check")
          else ok (set o, record d { organizations = update_where hit set d.organizations })
    ]

unfoldable pub list_active_organization_ids : ℕ → Query (List ℕ)
unfolding sort_on first_rows
list_active_organization_ids row_limit next now d =
    let rows = select (λ (o : Organization). str_eq o.status "active") d.organizations in
    ok (map (λ o. o.id) (first_rows row_limit (sort_on (λ o. o.created_at) rows)), d)

-- ===== src/Organizations/Grants.antt =====
-- internal/organizations/service.go: what setPermissions grants.
use team_flow.Prelude.{
  ℕ, ◌≤◌, ◌≡◌, refl, sym, ap, subst, ◌∙◌, String, Bool, true, false, ◌&&◌, ◌||◌, not, List, [], ◌∷◌,
  ◌++◌, some, find, any, select, count_where, ◌==◌, ==_iff, ==_refl, str_eq, str_eq_iff, Bool-cases,
  inl, inr, arith, if◌then◌else◌, find-count_where, find-holds, any_of_count, count_of_any, ◌+◌,
}
use team_flow.Database.Tables.{Db, Permission, RolePermission}
use team_flow.Database.Roles.{
  grants, get_permission_by_key, add_role_permission, set_role_permissions,
}
use team_flow.Database.Runs.{after, after_read_or_fail, after_write, statement_lem}
use team_flow.Exec.{World, ok, for_each}
use team_flow.Exec.Rules.{Returns, pure-Returns}
use team_flow.Organizations.Roles.{grant, set_permissions}

-- Whether a permission of that identifier has the key.
abbrev names_key : String → List Permission → ℕ → Bool
names_key key ps k = any (λ p. p.id == k && str_eq p.key key) ps

module _ {A : Type 0} where
  any-append : (p : A → Bool) (xs : List A) (a : A) → any p (xs ++ a ∷ []) ≡ (any p xs || p a)
  unfolding any
  any-append p [] a = ground arith
  any-append p (x ∷ xs) a = ground (arith, any-append p xs a)

  any-select_none :
      (p keep : A → Bool) (xs : List A)
      → ((x : A) → keep x ≡ true → p x ≡ false)
      → any p (select keep xs) ≡ false
  unfolding any select
  any-select_none p keep [] h = refl
  any-select_none p keep (x ∷ xs) h = elim (Bool-cases (keep x)) [
    | inl e ↦ ground (arith, h x e, any-select_none p keep xs h)
    | inr e ↦ ground (arith, any-select_none p keep xs h)
  ]

  any-le-any :
      (p q : A → Bool) (xs : List A)
      → ((x : A) → p x ≡ true → q x ≡ true)
      → any p xs ≡ true
      → any q xs ≡ true
  unfolding any
  any-le-any p q [] h k = ground arith
  any-le-any p q (x ∷ xs) h k = elim (Bool-cases (p x)) [
    | inl e ↦ ground (arith, h x e)
    | inr e ↦ ground (arith, any-le-any p q xs h)
  ]

  -- Rows that pass either of two tests that exclude each other.
  count-le-both :
      (q r t : A → Bool) (xs : List A)
      → ((x : A) → q x ≡ true → t x ≡ true)
      → ((x : A) → r x ≡ true → (t x ≡ true) × (q x ≡ false))
      → count_where q xs + count_where r xs ≤ count_where t xs
  unfolding count_where
  count-le-both q r t [] h k = omega arith
  count-le-both q r t (x ∷ xs) h k = elim (Bool-cases (r x)) [
    | inl e ↦ let (a, b) = k x e in ground (arith, count-le-both q r t xs h k)
    | inr e ↦ elim (Bool-cases (q x)) [
      | inl f ↦ ground (arith, h x f, count-le-both q r t xs h k)
      | inr f ↦ ground (arith, count-le-both q r t xs h k)
    ]
  ]

-- A permission that is found has the key that its identifier names.
names_key-found :
    (key : String) (ps : List Permission) (p : Permission) (k : String)
    → count_where (λ x. x.id == p.id) ps ≤ 1
    → find (λ x. str_eq x.key k) ps ≡ some p
    → names_key key ps p.id ≡ str_eq k key
names_key-found key ps p k u h =
    let held : str_eq p.key k ≡ true = find-holds (λ (x : Permission). str_eq x.key k) ps p h in
    let is_k : p.key ≡ k = (str_eq_iff p.key k).0 held in
    let named = λ (x : Permission). x.id == p.id && str_eq x.key key in
    let found_key = λ (x : Permission). x.id == p.id && str_eq x.key k in
    elim (Bool-cases (str_eq k key)) [
      | inl e ↦
          let hit : named p ≡ true = rw (==_refl p.id, is_k, e) refl in
          any_of_count named ps
            (find-count_where (λ (x : Permission). str_eq x.key k) named ps p h hit)
          ∙ sym e
      | inr e ↦
          let hit : found_key p ≡ true = rw (==_refl p.id, held) refl in
          let one = find-count_where (λ (x : Permission). str_eq x.key k) found_key ps p h hit in
          let apart =
            count-le-both named found_key (λ (x : Permission). x.id == p.id) ps
              (λ x q. ground arith) λ x q. (ground arith, not_both x q e) in
          elim (Bool-cases (names_key key ps p.id)) [
            | inl t ↦ absurd (omega (arith, apart, one, u, count_of_any named ps t))
            | inr t ↦ t ∙ sym e
          ]
    ]
  where
    not_both :
        (x : Permission)
        → (x.id == p.id && str_eq x.key k) ≡ true
        → str_eq k key ≡ false
        → (x.id == p.id && str_eq x.key key) ≡ false
    not_both x q e =
        let same : str_eq x.key k ≡ true = ground arith in
        let is : x.key ≡ k = (str_eq_iff x.key k).0 same in
        let no : str_eq x.key key ≡ false = rw is e in ground arith

or_false : (b : Bool) → b ≡ (b || false)
or_false true = refl
or_false false = refl

or_assoc : (a b c : Bool) → ((a || b) || c) ≡ (a || (b || c))
or_assoc true b c = refl
or_assoc false b c = refl

or_if : (a b : Bool) → (a || b) ≡ (if a then true else b)
or_if true b = refl
or_if false b = refl

add_role_permission-grants :
    (role_id id next now : ℕ) (key : String) (d d' : Db) (x : Unit {0})
    → add_role_permission role_id id next now d ≡ ok (x, d')
    → (d'.permissions ≡ d.permissions)
      × (grants role_id key d' ≡ (grants role_id key d || names_key key d.permissions id))
unfolding add_role_permission grants
add_role_permission-grants role_id id next now key d d' x h =
    let test = λ (rp : RolePermission). rp.role_id == role_id && rp.permission_id == id in
    let granted = λ (rp : RolePermission).
      rp.role_id == role_id && names_key key d.permissions rp.permission_id in
    elim (Bool-cases (any test d.role_permissions)) [
      | inl e ↦
          let same : d' ≡ d = ground arith in
          (
            ap (λ (z : Db). z.permissions) same,
            rw same (elim (Bool-cases (names_key key d.permissions id)) [
              | inl n ↦
                  let already : any granted d.role_permissions ≡ true =
                    any-le-any test granted d.role_permissions (λ rp q. is_granted rp q n) e in
                  rw already refl
              | inr n ↦ rw n (or_false (grants role_id key d))
            ]),
          )
      | inr e ↦
          let added : d' ≡ record d {
            role_permissions =
                d.role_permissions ++ record { role_id = role_id; permission_id = id } ∷ [];
          } =
            ground arith in
          (
            ap (λ (z : Db). z.permissions) added,
            rw added (
                any-append granted d.role_permissions
                  (record { role_id = role_id; permission_id = id })
                ∙ ap (λ c. grants role_id key d || (c && names_key key d.permissions id))
                    (==_refl role_id)),
          )
    ]
  where
    is_granted :
        (rp : RolePermission)
        → (rp.role_id == role_id && rp.permission_id == id) ≡ true
        → names_key key d.permissions id ≡ true
        → (rp.role_id == role_id && names_key key d.permissions rp.permission_id) ≡ true
    is_granted rp q n =
        let same : rp.permission_id ≡ id = (==_iff rp.permission_id id).0 (ground arith) in
        let mine : (rp.role_id == role_id) ≡ true = ground arith in rw (mine, same) n

module _ (role_id : ℕ) (key : String) (ps : List Permission)
    (once : (k : ℕ) → count_where (λ (p : Permission). p.id == k) ps ≤ 1) where
  -- One round of the loop.
  grant-grants :
      (k : String) (d : Db) (w : World) (x : Unit {0}) (w' : World)
      → w.db ≡ d
      → d.permissions ≡ ps
      → Returns (grant role_id k) w x w'
      → (w'.db.permissions ≡ ps)
        × (grants role_id key w'.db ≡ (grants role_id key d || str_eq k key))
  unfolding grant get_permission_by_key
  grant-grants k d w x w' at same h = after_read_or_fail _ _ _ w at h λ p v dv nv found r.
      let (e, c, n) = statement_lem _ v dv r in
      let (keeps, adds) =
        add_role_permission-grants role_id p.id v.next_id v.clock key d w'.db x e in
      let named =
        names_key-found key d.permissions p k
          (subst (λ (z : List Permission). count_where (λ (y : Permission). y.id == p.id) z ≤ 1)
            (sym same) (once p.id))
          found in
      (keeps ∙ same, adds ∙ ap (λ b. grants role_id key d || b) named)

  grants_all :
      (keys : List String) (d : Db) (w : World) (x : Unit {0}) (w' : World)
      → w.db ≡ d
      → d.permissions ≡ ps
      → Returns (for_each (grant role_id) keys) w x w'
      → grants role_id key w'.db ≡ (grants role_id key d || any (λ k. str_eq k key) keys)
  unfolding for_each any
  grants_all [] d w x w' at same h =
      ap (λ (z : World). grants role_id key z.db) (pure-Returns tt w x w' h).1
      ∙ ap (λ z. grants role_id key z) at
      ∙ or_false (grants role_id key d)
  grants_all (k ∷ keys) d w x w' at same h =
      after (grant role_id k) (λ _. for_each (grant role_id) keys) w h
        λ y v s r.
          let (kept, first) = grant-grants k d w y v at same s in
          let rest = grants_all keys v.db v x w' refl kept r in
          rest
          ∙ ap (λ b. b || any (λ k. str_eq k key) keys) first
          ∙ or_assoc (grants role_id key d) (str_eq k key) (any (λ k. str_eq k key) keys)
          ∙ ap (λ b. grants role_id key d || b)
              (or_if (str_eq k key) (any (λ k. str_eq k key) keys))

cleared-grants :
    (role_id : ℕ) (key : String) (d d' : Db)
    → d'
      ≡ record d { role_permissions = select (λ p. not (p.role_id == role_id)) d.role_permissions }
    → grants role_id key d' ≡ false
unfolding grants
cleared-grants role_id key d d' e =
    ap (λ (z : Db). grants role_id key z) e
    ∙ any-select_none (λ rp. rp.role_id == role_id && names_key key d.permissions rp.permission_id)
        (λ p. not (p.role_id == role_id)) d.role_permissions λ x h. ground arith

-- Where permissions have identifiers of their own, a role has exactly the permissions that were last
-- set for it.
pub set_permissions-grants :
    (role_id : ℕ) (keys : List String) (key : String) (w : World)
    → ((k : ℕ) → count_where (λ (p : Permission). p.id == k) w.db.permissions ≤ 1)
    → (set_permissions role_id keys w).0 ≡ ok tt
    → grants role_id key (set_permissions role_id keys w).1.db ≡ any (λ k. str_eq k key) keys
unfolding set_permissions set_role_permissions
set_permissions-grants role_id keys key w once h =
    let w' = (set_permissions role_id keys w).1 in
    after_write (set_role_permissions role_id) (λ _. for_each (grant role_id) keys) w refl
      (ap (λ z. (z, w')) h)
      λ x v e c n r.
        let cleared : v.db ≡ record w.db {
          role_permissions = select (λ p. not (p.role_id == role_id)) w.db.role_permissions;
        } =
          ground arith in
        grants_all role_id key w.db.permissions once keys v.db v tt w' refl
          (ap (λ (z : Db). z.permissions) cleared) r
        ∙ ap (λ b. b || any (λ k. str_eq k key) keys) (cleared-grants role_id key w.db v.db cleared)

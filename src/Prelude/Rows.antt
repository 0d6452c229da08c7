-- ===== src/Prelude/Rows.antt =====
-- Laws of the searches, updates and counts over a table.
use Prim.Native.Nat.{◌+◌, ◌≤◌}
use mathlib.Core.Path.{◌≡◌, refl}
use mathlib.Core.Logic.{inl, inr}
use mathlib.Core.Bool.{Bool, true, false, not, ◌&&◌}
use mathlib.Core.Option.{none, some}
use mathlib.Core.List.{List, [], ◌∷◌, ◌++◌}
use native.Mathlib.Omega.{arith}
use team_flow.Prelude.Tests.{if◌then◌else◌, Bool-cases}
use team_flow.Prelude.Lists.{find, select, any, update_where, count_where}

module _ {A : Type 0} where
  pub find-holds : (p : A → Bool) (xs : List A) (a : A) → find p xs ≡ some a → p a ≡ true
  unfolding find
  find-holds p [] a h = ground arith
  find-holds p (x ∷ xs) a h = elim (Bool-cases (p x)) [
    | inl e ↦ ground arith
    | inr e ↦ find-holds p xs a (ground arith)
  ]

  pub find-count : (p : A → Bool) (xs : List A) (a : A) → find p xs ≡ some a → 1 ≤ count_where p xs
  unfolding find count_where
  find-count p [] a h = ground arith
  find-count p (x ∷ xs) a h = elim (Bool-cases (p x)) [
    | inl e ↦ ground arith
    | inr e ↦ ground (arith, find-count p xs a)
  ]

  pub count-le-count :
      (p q : A → Bool) (xs : List A)
      → ((x : A) → p x ≡ true → q x ≡ true)
      → count_where p xs ≤ count_where q xs
  unfolding count_where
  count-le-count p q [] h = omega arith
  count-le-count p q (x ∷ xs) h = elim (Bool-cases (p x)) [
    | inl e ↦ ground (arith, h x e, count-le-count p q xs h)
    | inr e ↦ ground (arith, count-le-count p q xs h)
  ]

  -- Two searches of which one is narrower find the same row, where that row is the only one.
  pub find_unique :
      (p q : A → Bool) (xs : List A) (a b : A)
      → ((x : A) → p x ≡ true → q x ≡ true)
      → count_where q xs ≤ 1
      → find p xs ≡ some a
      → find q xs ≡ some b
      → a ≡ b
  unfolding find count_where
  find_unique p q [] a b h u pa qb = ground arith
  find_unique p q (x ∷ xs) a b h u pa qb = elim (Bool-cases (p x)) [
    | inl e ↦ ground (arith, h x e)
    | inr e ↦ elim (Bool-cases (q x)) [
      | inl f ↦ absurd (ground (arith, find-count p xs a, count-le-count p q xs h))
      | inr f ↦ find_unique p q xs a b h (ground arith) (ground arith) (ground arith)
    ]
  ]

  pub any-find : (p : A → Bool) (xs : List A) (a : A) → find p xs ≡ some a → any p xs ≡ true
  unfolding find any
  any-find p [] a h = ground arith
  any-find p (x ∷ xs) a h = elim (Bool-cases (p x)) [
    | inl e ↦ ground arith
    | inr e ↦ ground (arith, any-find p xs a)
  ]

  pub count_of_any : (p : A → Bool) (xs : List A) → any p xs ≡ true → 1 ≤ count_where p xs
  unfolding any count_where
  count_of_any p [] h = ground arith
  count_of_any p (x ∷ xs) h = ground (arith, count_of_any p xs)

  pub any_of_count : (p : A → Bool) (xs : List A) → 1 ≤ count_where p xs → any p xs ≡ true
  unfolding any count_where
  any_of_count p [] h = absurd (omega arith)
  any_of_count p (x ∷ xs) h = ground (arith, any_of_count p xs)

  pub count_of_find-none : (p : A → Bool) (xs : List A) → find p xs ≡ none → count_where p xs ≡ 0
  unfolding find count_where
  count_of_find-none p [] h = refl
  count_of_find-none p (x ∷ xs) h = ground (arith, count_of_find-none p xs)

  -- An update that keeps what `q` tests keeps the count of `q`.
  pub count-update_where :
      (q hit : A → Bool) (f : A → A) (xs : List A)
      → ((x : A) → hit x ≡ true → q (f x) ≡ q x)
      → count_where q (update_where hit f xs) ≡ count_where q xs
  unfolding update_where count_where
  count-update_where q hit f [] h = refl
  count-update_where q hit f (x ∷ xs) h = elim (Bool-cases (hit x)) [
    | inl e ↦ ground (arith, h x e, count-update_where q hit f xs h)
    | inr e ↦ ground (arith, count-update_where q hit f xs h)
  ]

  -- A deletion keeps the count of what it spares.
  -- An update of rows that are not selected.
  pub select-update_where :
      (keep hit : A → Bool) (f : A → A) (xs : List A)
      → ((x : A) → hit x ≡ true → (keep x ≡ false) × (keep (f x) ≡ false))
      → select keep (update_where hit f xs) ≡ select keep xs
  unfolding select update_where
  select-update_where keep hit f [] h = refl
  select-update_where keep hit f (x ∷ xs) h = elim (Bool-cases (hit x)) [
    | inl e ↦ rw (e, (h x e).0, (h x e).1) (select-update_where keep hit f xs h)
    | inr e ↦ rw (e, select-update_where keep hit f xs h) refl
  ]

  pub count-select :
      (q keep : A → Bool) (xs : List A)
      → ((x : A) → q x ≡ true → keep x ≡ true)
      → count_where q (select keep xs) ≡ count_where q xs
  unfolding select count_where
  count-select q keep [] h = refl
  count-select q keep (x ∷ xs) h = elim (Bool-cases (q x)) [
    | inl e ↦ ground (arith, h x e, count-select q keep xs h)
    | inr e ↦ ground (arith, count-select q keep xs h)
  ]

  pub count-select-le :
      (q keep : A → Bool) (xs : List A) → count_where q (select keep xs) ≤ count_where q xs
  unfolding select count_where
  count-select-le q keep [] = omega arith
  count-select-le q keep (x ∷ xs) = ground (arith, count-select-le q keep xs)

  -- The same where the rows that `bad` tests do not occur.
  pub count-le-update_where :
      (q hit bad : A → Bool) (f : A → A) (xs : List A)
      → count_where bad xs ≡ 0
      → ((x : A) → hit x ≡ true → bad x ≡ false → q x ≡ false)
      → count_where q xs ≤ count_where q (update_where hit f xs)
  unfolding update_where count_where
  count-le-update_where q hit bad f [] z h = omega arith
  count-le-update_where q hit bad f (x ∷ xs) z h = elim (Bool-cases (hit x)) [
    | inl e ↦ ground (arith, h x e, count-le-update_where q hit bad f xs)
    | inr e ↦ ground (arith, count-le-update_where q hit bad f xs)
  ]

  pub count-le-select :
      (q keep bad : A → Bool) (xs : List A)
      → count_where bad xs ≡ 0
      → ((x : A) → q x ≡ true → bad x ≡ false → keep x ≡ true)
      → count_where q xs ≤ count_where q (select keep xs)
  unfolding select count_where
  count-le-select q keep bad [] z h = omega arith
  count-le-select q keep bad (x ∷ xs) z h = elim (Bool-cases (q x)) [
    | inl e ↦ ground (arith, h x e, count-le-select q keep bad xs)
    | inr e ↦ ground (arith, count-le-select q keep bad xs)
  ]

  -- A row that passes `p` and has another identifier than the rows that `i` tests.
  pub any_apart :
      (p i : A → Bool) (xs : List A)
      → count_where i xs ≡ 0
      → 1 ≤ count_where p xs
      → any (λ x. not (i x) && p x) xs ≡ true
  unfolding any count_where
  any_apart p i [] z h = absurd (omega arith)
  any_apart p i (x ∷ xs) z h = ground (arith, any_apart p i xs)

  -- The same where the one row that `i` tests is found, and does not pass `p`.
  pub any_beside :
      (p i key bad : A → Bool) (xs : List A) (r : A)
      → count_where i xs ≤ 1
      → count_where bad xs ≡ 0
      → ((x : A) → key x ≡ true → i x ≡ true)
      → ((x : A) → key x ≡ true → bad x ≡ false → p x ≡ false)
      → find key xs ≡ some r
      → 1 ≤ count_where p xs
      → any (λ x. not (i x) && p x) xs ≡ true
  unfolding any count_where find
  any_beside p i key bad [] r u z ki kp e h = absurd (omega arith)
  any_beside p i key bad (x ∷ xs) r u z ki kp e h = elim (Bool-cases (key x)) [
    | inl k ↦ ground (arith, ki x k, kp x k, any_apart p i xs)
    | inr k ↦ elim (Bool-cases (i x)) [
      | inl j ↦ absurd (ground (arith, find-count key xs r, count-le-count key i xs ki))
      | inr j ↦ ground (arith, any_beside p i key bad xs r)
    ]
  ]

  pub count-update_where_zero :
      (q hit : A → Bool) (f : A → A) (xs : List A)
      → count_where q xs ≡ 0
      → ((x : A) → hit x ≡ true → q (f x) ≡ false)
      → count_where q (update_where hit f xs) ≡ 0
  unfolding update_where count_where
  count-update_where_zero q hit f [] z h = refl
  count-update_where_zero q hit f (x ∷ xs) z h = elim (Bool-cases (hit x)) [
    | inl e ↦ ground (arith, h x e, count-update_where_zero q hit f xs)
    | inr e ↦ ground (arith, count-update_where_zero q hit f xs)
  ]

  -- A row that a search finds is one of the rows.
  pub find-count_where :
      (p q : A → Bool) (xs : List A) (a : A)
      → find p xs ≡ some a
      → q a ≡ true
      → 1 ≤ count_where q xs
  unfolding find count_where
  find-count_where p q [] a h k = ground arith
  find-count_where p q (x ∷ xs) a h k = elim (Bool-cases (p x)) [
    | inl e ↦ ground arith
    | inr e ↦ ground (arith, find-count_where p q xs a)
  ]

  pub find-append :
      (p : A → Bool) (xs ys : List A) (a : A) → find p xs ≡ some a → find p (xs ++ ys) ≡ some a
  unfolding find
  find-append p [] ys a h = ground arith
  find-append p (x ∷ xs) ys a h = elim (Bool-cases (p x)) [
    | inl e ↦ ground arith
    | inr e ↦ ground (arith, find-append p xs ys a)
  ]

  -- A search finds the same row after an update that keeps what is searched for.
  pub find-update_where :
      (p hit : A → Bool) (f : A → A) (xs : List A) (a : A)
      → ((x : A) → p (f x) ≡ p x)
      → find p xs ≡ some a
      → find p (update_where hit f xs) ≡ some (if hit a then f a else a)
  unfolding find update_where
  find-update_where p hit f [] a same h = ground arith
  find-update_where p hit f (x ∷ xs) a same h = elim (Bool-cases (p x)) [
    | inl e ↦ elim (Bool-cases (hit x)) [ inl t ↦ ground (arith, same x) | inr t ↦ ground arith ]
    | inr e ↦ elim (Bool-cases (hit x)) [
      | inl t ↦ ground (arith, same x, find-update_where p hit f xs a same)
      | inr t ↦ ground (arith, find-update_where p hit f xs a same)
    ]
  ]

  -- An update that clears what `q` tests takes the rows that it hits from the count.
  pub count-update_where_clears :
      (q hit : A → Bool) (f : A → A) (xs : List A)
      → ((x : A) → hit x ≡ true → q (f x) ≡ false)
      → count_where q (update_where hit f xs) + count_where (λ x. q x && hit x) xs
        ≡ count_where q xs
  unfolding update_where count_where
  count-update_where_clears q hit f [] h = refl
  count-update_where_clears q hit f (x ∷ xs) h = elim (Bool-cases (hit x)) [
    | inl e ↦ ground (arith, h x e, count-update_where_clears q hit f xs h)
    | inr e ↦ ground (arith, count-update_where_clears q hit f xs h)
  ]

  pub count_none : (q : A → Bool) (xs : List A) → ((x : A) → q x ≡ false) → count_where q xs ≡ 0
  unfolding count_where
  count_none q [] h = refl
  count_none q (x ∷ xs) h = ground (arith, h x, count_none q xs h)

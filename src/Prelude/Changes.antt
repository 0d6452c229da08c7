-- ===== src/Prelude/Changes.antt =====
-- Updates that hit one row, and insertions under a unique key.
use Prim.Native.Nat.{ℕ, ◌+◌, ◌≤◌}
use mathlib.Core.Path.{◌≡◌, refl}
use mathlib.Core.Logic.{inl, inr}
use mathlib.Core.Bool.{Bool, true, false, not, ◌&&◌}
use mathlib.Core.Option.{none, some}
use mathlib.Core.List.{List, [], ◌∷◌, ◌++◌}
use native.Mathlib.Omega.{arith}
use team_flow.Prelude.Tests.{if◌then◌else◌, Bool-cases, Option-cases}
use team_flow.Prelude.Rows.{find-holds, find-count_where, count-le-count}
use team_flow.Prelude.Lists.{length, find, any, update_where, count_where}

abbrev pub bit : Bool → ℕ
bit b = if b then 1 else 0

module _ {A : Type 0} where
  pub count-update_none :
      (q hit : A → Bool) (f : A → A) (xs : List A)
      → count_where hit xs ≡ 0
      → count_where q (update_where hit f xs) ≡ count_where q xs
  unfolding update_where count_where
  count-update_none q hit f [] z = refl
  count-update_none q hit f (x ∷ xs) z = ground (arith, count-update_none q hit f xs)

  -- An update that hits one row takes it from the count and adds its new values.
  pub count-update_one :
      (q hit : A → Bool) (f : A → A) (xs : List A) (a : A)
      → count_where hit xs ≤ 1
      → find hit xs ≡ some a
      → count_where q (update_where hit f xs) + bit (q a) ≡ count_where q xs + bit (q (f a))
  unfolding update_where count_where find
  count-update_one q hit f [] a u h = ground arith
  count-update_one q hit f (x ∷ xs) a u h = elim (Bool-cases (hit x)) [
    | inl e ↦ ground (arith, count-update_none q hit f xs)
    | inr e ↦ ground (arith, count-update_one q hit f xs a)
  ]

  pub count_of_not_any : (p : A → Bool) (xs : List A) → any p xs ≡ false → count_where p xs ≡ 0
  unfolding any count_where
  count_of_not_any p [] h = refl
  count_of_not_any p (x ∷ xs) h = ground (arith, count_of_not_any p xs)

  -- No row but those that `i` tests passes `p`, and of these there is none.
  count_apart :
      (p i : A → Bool) (xs : List A)
      → any (λ x. not (i x) && p x) xs ≡ false
      → count_where i xs ≡ 0
      → count_where p xs ≡ 0
  unfolding any count_where
  count_apart p i [] h z = refl
  count_apart p i (x ∷ xs) h z = ground (arith, count_apart p i xs)

  -- The same where the one row that `i` tests does not pass `p`.
  pub count_beside :
      (p i hit : A → Bool) (xs : List A) (a : A)
      → any (λ x. not (i x) && p x) xs ≡ false
      → count_where i xs ≤ 1
      → ((x : A) → hit x ≡ true → i x ≡ true)
      → find hit xs ≡ some a
      → p a ≡ false
      → count_where p xs ≡ 0
  unfolding any count_where find
  count_beside p i hit [] a h u hi e f = refl
  count_beside p i hit (x ∷ xs) a h u hi e f = elim (Bool-cases (hit x)) [
    | inl t ↦ ground (arith, hi x t, count_apart p i xs)
    | inr t ↦ elim (Bool-cases (i x)) [
      | inl j ↦ absurd (ground (arith, found_counts hit i xs a hi))
      | inr j ↦ ground (arith, count_beside p i hit xs a)
    ]
  ]
    where
      found_counts :
          (hit i : A → Bool) (xs : List A) (a : A)
          → ((x : A) → hit x ≡ true → i x ≡ true)
          → find hit xs ≡ some a
          → 1 ≤ count_where i xs
      found_counts hit i [] a hi e = ground arith
      found_counts hit i (x ∷ xs) a hi e = elim (Bool-cases (hit x)) [
        | inl t ↦ ground (arith, hi x t)
        | inr t ↦ ground (arith, found_counts hit i xs a hi)
      ]

  pub count-insert :
      (q : A → Bool) (xs : List A) (x : A)
      → count_where q (xs ++ x ∷ []) ≡ count_where q xs + bit (q x)
  unfolding count_where
  count-insert q [] x = omega arith
  count-insert q (y ∷ xs) x = omega (arith, count-insert q xs x)

  -- An insertion keeps a key unique, where the key of the new row is not in use.
  pub insert_once :
      (q : A → Bool) (xs : List A) (x : A)
      → count_where q xs ≤ 1
      → (q x ≡ true → count_where q xs ≡ 0)
      → count_where q (xs ++ x ∷ []) ≤ 1
  insert_once q xs x u h = elim (Bool-cases (q x)) [
    | inl e ↦ let total = count-insert q xs x in omega (arith, rw e at total, h e)
    | inr e ↦ let total = count-insert q xs x in omega (arith, rw e at total)
  ]

  -- Two searches that find rows with the same key find the same row, where the key is unique.
  count_of_not_found : (p : A → Bool) (xs : List A) → find p xs ≡ none → count_where p xs ≡ 0
  unfolding find count_where
  count_of_not_found p [] h = refl
  count_of_not_found p (x ∷ xs) h = elim (Bool-cases (p x)) [
    | inl e ↦ ground arith
    | inr e ↦ ground (arith, count_of_not_found p xs)
  ]

  none_of_none :
      (p i : A → Bool) (xs : List A) → count_where p xs ≡ 0 → any (λ x. not (i x) && p x) xs ≡ false
  unfolding count_where any
  none_of_none p i [] h = refl
  none_of_none p i (x ∷ xs) h = elim (Bool-cases (p x)) [
    | inl e ↦ ground arith
    | inr e ↦ ground (arith, none_of_none p i xs)
  ]

  pub found_same :
      (p q i : A → Bool) (xs : List A) (a b : A)
      → count_where i xs ≤ 1
      → i a ≡ true
      → i b ≡ true
      → find p xs ≡ some a
      → find q xs ≡ some b
      → a ≡ b
  unfolding find count_where
  found_same p q i [] a b u ia ib pa qb = ground arith
  found_same p q i (x ∷ xs) a b u ia ib pa qb = elim (Bool-cases (p x)) [
    | inl e ↦ elim (Bool-cases (q x)) [
      | inl f ↦ ground arith
      | inr f ↦ absurd (ground (arith, find-count_where q i xs b))
    ]
    | inr e ↦ elim (Bool-cases (q x)) [
      | inl f ↦ absurd (ground (arith, find-count_where p i xs a))
      | inr f ↦ ground (arith, found_same p q i xs a b)
    ]
  ]

  -- A row that is found under one key is found under another that names it.
  pub found_under :
      (p q i : A → Bool) (xs : List A) (a : A)
      → count_where i xs ≤ 1
      → i a ≡ true
      → ((x : A) → q x ≡ true → i x ≡ true)
      → q a ≡ true
      → find p xs ≡ some a
      → find q xs ≡ some a
  found_under p q i xs a u ia qi qa pa = elim (Option-cases (find q xs)) [
    | inl e ↦ absurd (omega (arith, find-count_where p q xs a pa qa, count_of_not_found q xs e))
    | inr (b, e) ↦ rw (found_same p q i xs a b u ia (qi b (find-holds q xs b e)) pa e) e
  ]

  -- No other row has what one row at most has.
  pub none_beside :
      (p i : A → Bool) (xs : List A) (a : A)
      → count_where p xs ≤ 1
      → i a ≡ true
      → find p xs ≡ some a
      → any (λ x. not (i x) && p x) xs ≡ false
  unfolding find count_where any
  none_beside p i [] a u ia pa = refl
  none_beside p i (x ∷ xs) a u ia pa = elim (Bool-cases (p x)) [
    | inl e ↦ ground (arith, none_of_none p i xs)
    | inr e ↦ ground (arith, none_beside p i xs a)
  ]

  pub length-insert : (xs : List A) (x : A) → length (xs ++ x ∷ []) ≡ length xs + 1
  length-insert [] x = omega arith
  length-insert (y ∷ xs) x = omega (arith, length-insert xs x)

  -- The one row with a key passes what some row with that key passes.
  pub found_passes :
      (p r : A → Bool) (xs : List A) (a : A)
      → count_where p xs ≤ 1
      → 1 ≤ count_where (λ x. p x && r x) xs
      → find p xs ≡ some a
      → r a ≡ true
  unfolding find count_where
  found_passes p r [] a u h e = ground arith
  found_passes p r (x ∷ xs) a u h e = elim (Bool-cases (p x)) [
    | inl k ↦ ground (arith, count-le-count (λ y. p y && r y) p xs (λ y q. ground arith))
    | inr k ↦ ground (arith, found_passes p r xs a)
  ]

-- ===== src/Database/Rows.antt =====
-- What the statements have in common.
use Prim.Native.Char.{code}
use team_flow.Prelude.{
  ℕ, zero, suc, String, Bool, true, ◌&&◌, Option, none, some, List, [], ◌∷◌, ◌==◌, leb,
  if◌then◌else◌,
}
use team_flow.Httpx.Errors.{no_rows}
use team_flow.Database.Tables.{Db}
use team_flow.Exec.{Result, ok, err}

-- `QueryRow(…).Scan(…)`
unfoldable pub one : {A : Type 0} → Option A → Db → Result (A × Db)
one none d = err no_rows
one (some a) d = ok (a, d)

-- The columns' `CHECK (length(btrim(x)) > 0)` fails: only blanks.
unfoldable pub is_blank : String → Bool
is_blank String.[] = true
is_blank (String.◌∷◌ c s) = let rest = is_blank s in code c == 32 && rest

-- `ORDER BY key ASC`, where a row is put behind those with the same key.
unfoldable pub insert_on : {A : Type 0} → (A → ℕ) → A → List A → List A
insert_on key a [] = a ∷ []
insert_on key a (x ∷ xs) =
    let later = insert_on key a xs in if leb (key x) (key a) then x ∷ later else a ∷ x ∷ xs

unfoldable pub sort_on : {A : Type 0} → (A → ℕ) → List A → List A
unfolding insert_on
sort_on key [] = []
sort_on key (x ∷ xs) = insert_on key x (sort_on key xs)

-- `LIMIT n`
unfoldable pub first_rows : {A : Type 0} → ℕ → List A → List A
first_rows n [] = []
first_rows zero (x ∷ xs) = []
first_rows (suc n) (x ∷ xs) = x ∷ first_rows n xs

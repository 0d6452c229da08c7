-- ===== src/Validation.antt =====
-- internal/validation/validation.go. `unicode.IsLetter`, `unicode.IsDigit` and `mail.ParseAddress` are
-- functions that the definitions take.
use Prim.Native.Char.{Char, code}
use team_flow.Prelude.{
  ℕ, ◌+◌, String, Bool, true, false, not, ◌&&◌, List, [], ◌∷◌, ◌++◌, any, ltb, leb, str_eq,
  if◌then◌else◌, trim_space,
}
use team_flow.Httpx.Errors.{invalid}
use team_flow.Exec.{Action, pure, fail}

-- `len(s)`: the bytes of the text in UTF-8.
unfoldable pub byte_length : String → ℕ
byte_length String.[] = 0
byte_length (String.◌∷◌ c s) =
    (if ltb (code c) 128
      then 1
      else if ltb (code c) 2048
      then 2
      else if ltb (code c) 65536
      then 3
      else 4)
    + byte_length s

-- The `Validator`: a message for each field that failed, the first one kept.
abbrev pub Validator : Type 0
Validator = List (String × String)

unfoldable pub check : Bool → String → String → Validator → Validator
check true field msg v = v
check false field msg v =
    if any (λ (e : String × String). str_eq e.0 field) v then v else v ++ (field, msg) ∷ []

unfoldable pub required : String → String → Validator → Validator
unfolding check
required field value = check (not (str_eq (trim_space value) "")) field "is required"

unfoldable pub max_len : String → String → ℕ → Validator → Validator
unfolding check byte_length
max_len field value n = check (leb (byte_length value) n) field "is too long"

unfoldable pub email : (String → Bool) → String → String → Validator → Validator
unfolding check
email parse_address field value = check (parse_address value) field "must be a valid email address"

unfoldable pub any_char : (Char → Bool) → String → Bool
any_char p String.[] = false
any_char p (String.◌∷◌ c s) = let rest = any_char p s in if p c then true else rest

unfoldable pub password : (Char → Bool) → (Char → Bool) → String → String → Validator → Validator
unfolding check byte_length any_char
password is_letter is_digit field value v =
    if ltb 72 (byte_length value)
    then check false field "must be at most 72 bytes" v
    else if ltb (byte_length value) 8
    then check false field "must be at least 8 characters" v
    else check (any_char is_letter value && any_char (λ c. not (is_letter c) && is_digit c) value)
        field "must contain both letters and numbers" v

-- `Err`
abbrev pub valid : Validator → Action (Unit {0})
valid [] = pure tt
valid (e ∷ es) = fail (invalid (e ∷ es))

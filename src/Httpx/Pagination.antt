-- ===== src/Httpx/Pagination.antt =====
-- internal/httpx/pagination.go. `strconv.ParseInt(raw, 10, 32)` is a function of the text, and an
-- int64 keeps its wrap-around.
use Prim.Native.Char.{code}
use team_flow.Prelude.{
  ℕ, suc, ◌+◌, ◌-◌, ◌*◌, ◌/◌, ◌%◌, ◌^◌, String, Bool, true, ◌&&◌, Option, none, some, List, [], ◌∷◌,
  ◌++◌, leb, ltb, ◌==◌, str_eq, if◌then◌else◌,
}
use team_flow.Httpx.Errors.{invalid}
use team_flow.Exec.{Result, ok, err}

pub data ℤ : Type 0 where
  pos : ℕ → ℤ
  negsuc : ℕ → ℤ

-- The number that the low 64 bits of `n` show.
abbrev pub int64 : ℕ → ℤ
int64 n = if ltb (n % 2 ^ 64) (2 ^ 63) then pos (n % 2 ^ 64) else negsuc (2 ^ 64 - suc (n % 2 ^ 64))

-- Division that truncates towards zero, by a positive number.
abbrev pub quot : ℤ → ℕ → ℤ
quot (pos n) d = pos (n / d)
quot (negsuc n) d = if suc n / d == 0 then pos 0 else negsuc (suc n / d - 1)

-- A non-empty run of decimal digits, read after the value `n`.
unfoldable pub digits : ℕ → String → Option ℕ
digits n String.[] = some n
digits n (String.◌∷◌ c s) =
    let rest = digits (n * 10 + (code c - 48)) s in
    if leb 48 (code c) && leb (code c) 57 then rest else none

unfoldable pub parse_digits : String → Option ℕ
unfolding digits
parse_digits String.[] = none
parse_digits (String.◌∷◌ c s) = digits 0 (String.◌∷◌ c s)

abbrev below : ℕ → Option ℕ → Option ℕ
below bound none = none
below bound (some n) = if ltb n bound then some n else none

-- A negative number is read as far as its range: the page numbers refuse it all the same.
abbrev pub negated : Option ℕ → Option ℤ
negated none = none
negated (some n) =
    if n == 0 then some (pos 0) else if leb n (2 ^ 31) then some (negsuc (n - 1)) else none

abbrev pub positive : Option ℕ → Option ℤ
positive none = none
positive (some n) = if ltb n (2 ^ 31) then some (pos n) else none

unfoldable pub parse_int32 : String → Option ℤ
unfolding parse_digits
parse_int32 String.[] = none
parse_int32 (String.◌∷◌ c s) =
    if code c == 43
    then positive (parse_digits s)
    else if code c == 45
    then negated (parse_digits s)
    else positive (parse_digits (String.◌∷◌ c s))

abbrev pub default_page_size : ℕ
default_page_size = 20

abbrev pub max_page_size : ℕ
max_page_size = 100

pub record PageRequest : Type 0 where
  pub page : ℕ
  pub page_size : ℕ

-- `Limit` and `Offset`
abbrev pub limit : PageRequest → ℕ
limit p = p.page_size

abbrev pub offset : PageRequest → ℕ
offset p = (p.page - 1) * p.page_size

-- One parameter: absent, accepted, or refused.
pub data Param : Type 0 where
  absent : Param
  accepted : ℕ → Param
  refused : Param

abbrev pub at_most : Option ℕ → ℕ → Bool
at_most none n = true
at_most (some most) n = leb n most

abbrev pub checked : Option ℕ → Option ℤ → Param
checked most none = refused
checked most (some (negsuc n)) = refused
checked most (some (pos n)) = if leb 1 n && at_most most n then accepted n else refused

unfoldable pub read_param : Option ℕ → String → Param
unfolding parse_int32
read_param most raw = if str_eq raw "" then absent else checked most (parse_int32 raw)

abbrev pub or_default : ℕ → Param → ℕ
or_default n absent = n
or_default n (accepted m) = m
or_default n refused = n

abbrev pub complaint : String → String → Param → List (String × String)
complaint field text refused = (field, text) ∷ []
complaint field text absent = []
complaint field text (accepted n) = []

-- `len(fields) > 0`, then the request.
abbrev pub no_complaints : List (String × String) → PageRequest → Result PageRequest
no_complaints [] p = ok p
no_complaints (f ∷ fs) p = err (invalid (f ∷ fs))

-- `ParsePageRequest`, given the two query parameters.
unfoldable pub parse_page_request : String → String → Result PageRequest
unfolding read_param
parse_page_request page page_size =
    let p = read_param none page in
    let s = read_param (some max_page_size) page_size in
    no_complaints
      (complaint "page" "must be a positive integer" p
        ++ complaint "page_size" "must be between 1 and 100" s)
      (record { page = or_default 1 p; page_size = or_default default_page_size s })

pub record Pagination : Type 0 where
  pub page : ℕ
  pub page_size : ℕ
  pub total : ℕ
  pub total_pages : ℤ

-- `NewPagination`, for a total that is not negative.
unfoldable pub new_pagination : PageRequest → ℕ → Pagination
new_pagination req total = record {
  page = req.page;
  page_size = req.page_size;
  total = total;
  total_pages =
      if ltb 0 req.page_size then quot (int64 (total + req.page_size - 1)) req.page_size else pos 0;
}

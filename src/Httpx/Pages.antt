-- ===== src/Httpx/Pages.antt =====
-- internal/httpx/pagination.go: the bounds of an accepted page request, and the number of pages.
use Prim.Native.Char.{code}
use native.Mathlib.Nat.{div-add-mod, mod-lt, mul-le-mul}
use team_flow.Prelude.{
  ℕ, ◌+◌, ◌-◌, ◌*◌, ◌/◌, ◌%◌, ◌^◌, ◌≤◌, ◌<◌, ◌≡◌, refl, String, true, Option, none, some, ◌++◌, ltb,
  str_eq, arith, Bool-cases, inl, inr, ◌⊎◌, ◌==◌,
}
use team_flow.Exec.{ok}
use team_flow.Httpx.Pagination.{
  ℤ, pos, negsuc, int64, PageRequest, limit, offset, parse_int32, read_param, parse_page_request,
  new_pagination, default_page_size, max_page_size, Param, absent, accepted, refused, parse_digits,
  positive, negated, at_most, checked, or_default, complaint, no_complaints,
}

positive-lt : (o : Option ℕ) (n : ℕ) → positive o ≡ some (pos n) → n < 2 ^ 31
positive-lt none n h = ground arith
positive-lt (some m) n h = ground arith

negated-lt : (o : Option ℕ) (n : ℕ) → negated o ≡ some (pos n) → n < 2 ^ 31
negated-lt none n h = ground arith
negated-lt (some m) n h = ground arith

-- A number that is read is an int32.
parse_int32-lt : (s : String) (n : ℕ) → parse_int32 s ≡ some (pos n) → n < 2 ^ 31
unfolding parse_int32
parse_int32-lt String.[] n h = ground arith
parse_int32-lt (String.◌∷◌ c s) n h = elim (Bool-cases (code c == 43)) [
  | inl plus ↦ positive-lt (parse_digits s) n (rw plus at h)
  | inr other ↦ elim (Bool-cases (code c == 45)) [
    | inl minus ↦ negated-lt (parse_digits s) n (rw (other, minus) at h)
    | inr digit ↦ positive-lt (parse_digits (String.◌∷◌ c s)) n (rw (other, digit) at h)
  ]
]

checked-accepted :
    (most : Option ℕ) (o : Option ℤ) (n : ℕ)
    → checked most o ≡ accepted n
    → (o ≡ some (pos n)) × (1 ≤ n) × (at_most most n ≡ true)
checked-accepted most none n h = ground arith
checked-accepted most (some (negsuc m)) n h = ground arith
checked-accepted most (some (pos m)) n h = ground arith

read_param-bounds :
    (most : Option ℕ) (raw : String) (n : ℕ)
    → read_param most raw ≡ accepted n
    → (1 ≤ n) × (n < 2 ^ 31) × (at_most most n ≡ true)
unfolding read_param
read_param-bounds most raw n h = elim (Bool-cases (str_eq raw "")) [
  | inl e ↦ absurd (ground arith)
  | inr e ↦
      let (read, least, bound) = checked-accepted most (parse_int32 raw) n (rw e at h) in
      (least, parse_int32-lt raw n read, bound)
]

-- What a request takes from its two parameters.
no_complaints-ok :
    (p s : Param) (r : PageRequest)
    → no_complaints
        (complaint "page" "must be a positive integer" p
          ++ complaint "page_size" "must be between 1 and 100" s)
        (record { page = or_default 1 p; page_size = or_default default_page_size s })
      ≡ ok r
    → ((r.page ≡ 1) ⊎ (p ≡ accepted r.page)) × ((r.page_size ≡ 20) ⊎ (s ≡ accepted r.page_size))
no_complaints-ok absent absent r h = (inl (ground arith), inl (ground arith))
no_complaints-ok absent (accepted n) r h = (inl (ground arith), inr (ground arith))
no_complaints-ok (accepted m) absent r h = (inr (ground arith), inl (ground arith))
no_complaints-ok (accepted m) (accepted n) r h = (inr (ground arith), inr (ground arith))
no_complaints-ok refused s r h = absurd (ground arith)
no_complaints-ok absent refused r h = absurd (ground arith)
no_complaints-ok (accepted m) refused r h = absurd (ground arith)

-- A page request that is accepted names a page from 1 on that an int32 holds, of 1 to 100 rows, and
-- the rows that it selects have indices that an int64 holds.
pub parse_page_request-bounds :
    (page page_size : String) (p : PageRequest)
    → parse_page_request page page_size ≡ ok p
    → (1 ≤ p.page)
      × (p.page < 2 ^ 31)
      × (1 ≤ p.page_size)
      × (p.page_size ≤ 100)
      × (offset p + limit p < 2 ^ 63)
unfolding parse_page_request
parse_page_request-bounds page page_size p h =
    let (first, second) =
      no_complaints-ok (read_param none page) (read_param (some max_page_size) page_size) p h in
    let at_page : (1 ≤ p.page) × (p.page < 2 ^ 31) = elim first [
      | inl e ↦ (omega (arith, e), omega (arith, e))
      | inr e ↦ let (l, b, t) = read_param-bounds none page p.page e in (l, b)
    ] in
    let size : (1 ≤ p.page_size) × (p.page_size ≤ 100) = elim second [
      | inl e ↦ (omega (arith, e), omega (arith, e))
      | inr e ↦
          let (l, b, t) = read_param-bounds (some max_page_size) page_size p.page_size e in
          (l, ground arith)
    ] in
    let most : p.page - 1 ≤ 2 ^ 31 = omega (arith, at_page.1) in
    (at_page.0, at_page.1, size.0, size.1, omega (arith, mul-le-mul most size.1, size.1))

int64_small : (n : ℕ) → n < 2 ^ 63 → int64 n ≡ pos n
int64_small n h =
    let same : n % 2 ^ 64 ≡ n = omega arith in
    let small : ltb n (2 ^ 63) ≡ true = ground arith in rw (same, small) refl

-- The pages that are counted cover every row, and the last of them is not empty.
pub new_pagination-covers :
    (req : PageRequest) (total : ℕ)
    → 1 ≤ req.page_size
    → total + req.page_size ≤ 2 ^ 63
    → (k : ℕ) × ((new_pagination req total).total_pages ≡ pos k)
      × (total ≤ k * req.page_size)
      × (k * req.page_size < total + req.page_size)
unfolding new_pagination
new_pagination-covers req total h fits =
    let n = total + req.page_size - 1 in
    let k = n / req.page_size in
    let split = div-add-mod n req.page_size in
    let rest = mod-lt n h in
    let positive_size : ltb 0 req.page_size ≡ true = ground arith in
    (
      k,
      rw (positive_size, int64_small n (omega arith)) refl,
      omega (arith, split, rest),
      omega (arith, split, rest),
    )

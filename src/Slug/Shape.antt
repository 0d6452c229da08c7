-- ===== src/Slug/Shape.antt =====
-- What a slug looks like, and that the two makers agree.
use Prim.Native.Char.{Char}
use mathlib.Core.Path.{ap₂}
use text.Mathlib.TextEquality.{Char-path}
use team_flow.Prelude.{
  sym, ◌≡◌, refl, ap, String, Bool, true, false, not, ◌&&◌, if◌then◌else◌, trim, trim_space,
  drop_while, drop_while_end, keep_unless, Bool-cases, inl, inr, ◌⊎◌, arith,
}
use team_flow.Slug.{
  or_org, is_slug_char, is_dash, slug_loop, replace_runs, org_slugify, auth_slugify,
}

-- Lower-case letters and digits in groups that single dashes join; `prev_dash` holds at the start
-- and after a dash, where another dash or the end would be wrong.
abbrev joined : Bool → String → Bool
joined prev_dash String.[] = not prev_dash
joined prev_dash (String.◌∷◌ c s) =
    let after = joined true s in
    let within = joined false s in
    if is_dash c then not prev_dash && after else is_slug_char c && within

abbrev pub is_slug : String → Bool
is_slug s = joined true s

-- The same but for dashes at the ends.
loose : Bool → String → Bool
loose prev_dash String.[] = true
loose prev_dash (String.◌∷◌ c s) =
    let after = loose true s in
    let within = loose false s in
    if is_dash c then not prev_dash && after else is_slug_char c && within

dash-not_slug_char : (c : Char) → is_slug_char c ≡ true → is_dash c ≡ false
unfolding is_slug_char is_dash
dash-not_slug_char c h = ground arith

loop-loose : (prev_dash : Bool) (s : String) → loose prev_dash (slug_loop prev_dash s) ≡ true
unfolding slug_loop loose is_dash
loop-loose prev_dash String.[] = refl
loop-loose prev_dash (String.◌∷◌ c s) =
    ground (arith, dash-not_slug_char c, loop-loose true s, loop-loose false s)

drop-loose :
    (prev_dash : Bool) (s : String)
    → loose prev_dash s ≡ true
    → loose true (drop_while is_dash s) ≡ true
unfolding loose drop_while
drop-loose prev_dash String.[] h = refl
drop-loose prev_dash (String.◌∷◌ c s) h = ground (arith, drop-loose true s)

not_empty : (c : Char) (s : String) → String.◌∷◌ c s ≡ "" → ⊥
not_empty c s h = cc

keep-joined :
    (prev_dash : Bool) (c : Char) (b : Bool) (t : String)
    → is_dash c ≡ b
    → (if b then not prev_dash else is_slug_char c) ≡ true
    → (t ≡ "") ⊎ (joined b t ≡ true)
    → (keep_unless b c t ≡ "") ⊎ (joined prev_dash (keep_unless b c t) ≡ true)
keep-joined prev_dash c true String.[] e h j = inl refl
keep-joined prev_dash c true (String.◌∷◌ d t) e h (inl j) = absurd (not_empty d t j)
keep-joined prev_dash c true (String.◌∷◌ d t) e h (inr j) = inr (rw (e, h, j))
keep-joined prev_dash c false String.[] e h j = inr (ground arith)
keep-joined prev_dash c false (String.◌∷◌ d t) e h (inl j) = absurd (not_empty d t j)
keep-joined prev_dash c false (String.◌∷◌ d t) e h (inr j) = inr (rw (e, h, j))

end-joined :
    (prev_dash : Bool) (s : String)
    → loose prev_dash s ≡ true
    → (drop_while_end is_dash s ≡ "") ⊎ (joined prev_dash (drop_while_end is_dash s) ≡ true)
unfolding loose drop_while_end
end-joined prev_dash String.[] h = inl refl
end-joined prev_dash (String.◌∷◌ c s) h =
    keep-joined prev_dash c (is_dash c) (drop_while_end is_dash s) refl (ground arith)
      (end-joined (is_dash c) s (ground arith))

or_org-joined : (s : String) → (s ≡ "") ⊎ (joined true s ≡ true) → joined true (or_org s) ≡ true
unfolding is_dash is_slug_char
or_org-joined String.[] h = refl
or_org-joined (String.◌∷◌ c s) (inl e) = absurd (not_empty c s e)
or_org-joined (String.◌∷◌ c s) (inr h) = h

-- Whatever the organization's name, its slug is a non-empty sequence of groups of lower-case letters
-- and digits that single dashes join.
pub org_slugify-is_slug :
    (lower : String → String) (name : String) → is_slug (org_slugify lower name) ≡ true
unfolding org_slugify
org_slugify-is_slug lower name =
    let s = slug_loop false (lower (trim_space name)) in
    or_org-joined (trim is_dash s) (
      end-joined true (drop_while is_dash s)
        (drop-loose false s (loop-loose false (lower (trim_space name)))))

-- The first pass of the regular expressions is the loop.
runs-loop : (b : Bool) (s : String) → replace_runs (λ c. not (is_slug_char c)) b s ≡ slug_loop b s
unfolding replace_runs slug_loop
runs-loop b String.[] = refl
runs-loop b (String.◌∷◌ c s) = ground (arith, runs-loop true s, runs-loop false s)

abbrev dash : Char
dash = "-"

-- The second finds no two dashes in a row.
runs_of_loose : (b : Bool) (s : String) → loose b s ≡ true → replace_runs is_dash b s ≡ s
unfolding replace_runs loose
runs_of_loose b String.[] h = refl
runs_of_loose b (String.◌∷◌ c s) h = elim (Bool-cases (is_dash c)) [
  | inl e ↦
      let same : c ≡ dash = Char-path c dash (unfold is_dash in ground arith) in
      let free : b ≡ false = ground arith in
      rw (e, free) (ap₂ String.◌∷◌ (sym same) (runs_of_loose true s (ground arith)))
  | inr e ↦ rw e (ap (String.◌∷◌ c) (runs_of_loose false s (ground arith)))
]

-- Both packages derive the same slug from a name.
pub auth_slugify-eq-org_slugify :
    (lower : String → String) (name : String) → auth_slugify lower name ≡ org_slugify lower name
unfolding auth_slugify org_slugify
auth_slugify-eq-org_slugify lower name =
    let s = lower (trim_space name) in
    rw (runs-loop false s, runs_of_loose false (slug_loop false s) (loop-loose false s))

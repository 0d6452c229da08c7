-- ===== src/Prelude/Text.antt =====
-- Texts as sequences of characters.
use Prim.Native.Char.{Char, code}
use Prim.Native.String.{String}
use mathlib.Core.Bool.{Bool, true, false, ◌&&◌, ◌||◌}
use team_flow.Prelude.Tests.{leb, ◌==◌, if◌then◌else◌}

-- `unicode.IsSpace`: the code points with the White_Space property.
unfoldable pub is_space : Char → Bool
is_space c =
    let n = code c in
    (leb 9 n && leb n 13)
    || n == 32
    || n == 133
    || n == 160
    || n == 5760
    || (leb 8192 n && leb n 8202)
    || n == 8232
    || n == 8233
    || n == 8239
    || n == 8287
    || n == 12288

unfoldable pub drop_while : (Char → Bool) → String → String
drop_while p String.[] = ""
drop_while p (String.◌∷◌ c s) = let rest = drop_while p s in if p c then rest else String.◌∷◌ c s

-- The character kept unless it passes the test and nothing follows.
abbrev pub keep_unless : Bool → Char → String → String
keep_unless true c String.[] = ""
keep_unless true c (String.◌∷◌ d s) = String.◌∷◌ c (String.◌∷◌ d s)
keep_unless false c s = String.◌∷◌ c s

unfoldable pub drop_while_end : (Char → Bool) → String → String
drop_while_end p String.[] = ""
drop_while_end p (String.◌∷◌ c s) = keep_unless (p c) c (drop_while_end p s)

-- `strings.TrimFunc`, which `strings.TrimSpace` and `strings.Trim` come to.
unfoldable pub trim : (Char → Bool) → String → String
unfolding drop_while drop_while_end
trim p s = drop_while_end p (drop_while p s)

unfoldable pub trim_space : String → String
unfolding trim is_space
trim_space s = trim is_space s

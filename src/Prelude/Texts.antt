-- ===== src/Prelude/Texts.antt =====
-- What the modelled code uses of Go's `strings` and of reading by lines, on `String`, a text of
-- code points.
pub mod Laws
use Prim.Native.Char.{Char, code}
use Prim.Native.String
use Prim.Native.String.{String}
use Prim.Native.Nat.{ℕ, zero, suc}
use mathlib.Core.Path.{◌≡◌}
use mathlib.Core.Bool.{Bool, true, false, ◌&&◌, ◌||◌, not}
use mathlib.Core.List.{List, [], ◌∷◌}
use bzy_personal.Prelude.Tests.{ltb, leb, ◌==◌, if◌then◌else◌}

-- Go's `+` on strings.
infixr 65 ◌<>◌
abbrev pub ◌<>◌ : String → String → String
a <> b = String.◌++◌ a b

-- `strings.HasPrefix(s, p)`, with the prefix first.
unfoldable pub has_prefix : String → String → Bool
has_prefix String.[] s = true
has_prefix (String.◌∷◌ c p) String.[] = false
has_prefix (String.◌∷◌ c p) (String.◌∷◌ d s) = code c == code d && has_prefix p s

-- `s[len(p):]` for a text that begins with `p`, and a prefix of bytes.
unfoldable pub drop_prefix : String → String → String
drop_prefix String.[] s = s
drop_prefix (String.◌∷◌ c p) String.[] = ""
drop_prefix (String.◌∷◌ c p) (String.◌∷◌ d s) = drop_prefix p s

unfoldable pub is_blank : String → Bool
is_blank String.[] = true
is_blank (String.◌∷◌ c s) = false

-- `strings.TrimRight` and `strings.TrimLeft` of the characters of a class.
unfoldable pub trim_right : (ℕ → Bool) → String → String
unfolding is_blank
trim_right p String.[] = ""
trim_right p (String.◌∷◌ c s) =
    let rest = trim_right p s in if is_blank rest && p (code c) then "" else String.◌∷◌ c rest

unfoldable pub trim_left : (ℕ → Bool) → String → String
trim_left p String.[] = ""
trim_left p (String.◌∷◌ c s) =
    let rest = trim_left p s in if p (code c) then rest else String.◌∷◌ c s

-- `unicode.IsSpace`
unfoldable pub is_space : ℕ → Bool
is_space c =
    leb 9 c && leb c 13
    || c == 32
    || c == 0x85
    || c == 0xa0
    || c == 0x1680
    || leb 0x2000 c && leb c 0x200a
    || c == 0x2028
    || c == 0x2029
    || c == 0x202f
    || c == 0x205f
    || c == 0x3000

-- `strings.TrimSpace`
unfoldable pub trim_space : String → String
unfolding trim_left trim_right is_space
trim_space s = trim_right is_space (trim_left is_space s)

-- "\r\n" as a set of characters.
unfoldable pub is_break : ℕ → Bool
is_break c = c == 10 || c == 13

-- A character more in the first piece.
unfoldable pub add_front : Char → List String → List String
add_front c [] = String.◌∷◌ c "" ∷ []
add_front c (s ∷ ss) = String.◌∷◌ c s ∷ ss

-- `strings.Split` at one character: the text before each, and what is left, in order.
unfoldable pub split_at : ℕ → String → List String
unfolding add_front
split_at sep String.[] = "" ∷ []
split_at sep (String.◌∷◌ c s) =
    let rest = split_at sep s in if code c == sep then "" ∷ rest else add_front c rest

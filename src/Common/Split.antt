-- ===== src/Common/Split.antt =====
-- Go's `strings.Split` by a separator of one character, `strings.TrimSpace` and the prefix
-- functions, over the characters of a text.
use Prim.Native.Char.{Char, code}
use Prim.Native.Nat.{ℕ}
use Prim.Native.String.{String, [], ◌∷◌, ◌++◌}
use mathlib.Core.Bool.{Bool, ◌||◌, ◌&&◌}
use mathlib.Core.List.{List}
use mathlib.Core.Option.{Option, none, some, some-injective}
use mathlib.Core.Path.{◌≡◌, sym, ◌∙◌, ap₂}
use native.Mathlib.Omega.{arith}
use text.Mathlib.Text.{◌==◌}
use text.Mathlib.TextEquality.{Char-path}
use text.Mathlib.TextLemmas.{nil-append, cons-append}
use parparchik.Common.Tests.{nat_eq, leb, if◌then◌else◌}

unfoldable pub push_head : Char → List String → List String
push_head c List.[] = List.◌∷◌ (c ∷ []) List.[]
push_head c (List.◌∷◌ part parts) = List.◌∷◌ (c ∷ part) parts

unfoldable pub split : ℕ → String → List String
unfolding push_head
split sep [] = List.◌∷◌ "" List.[]
split sep (c ∷ s) =
    let rest = split sep s in if nat_eq (code c) sep then List.◌∷◌ "" rest else push_head c rest

-- Unicode's White_Space, as `unicode.IsSpace`.
unfoldable pub is_space : Char → Bool
is_space ch =
    let c = code ch in
    (leb 9 c && leb c 13)
    || nat_eq c 32
    || nat_eq c 0x85
    || nat_eq c 0xa0
    || nat_eq c 0x1680
    || (leb 0x2000 c && leb c 0x200a)
    || nat_eq c 0x2028
    || nat_eq c 0x2029
    || nat_eq c 0x202f
    || nat_eq c 0x205f
    || nat_eq c 0x3000

unfoldable pub trim_left : String → String
unfolding is_space
trim_left [] = []
trim_left (c ∷ s) = if is_space c then trim_left s else c ∷ s

unfoldable pub trim_right : String → String
unfolding is_space
trim_right [] = []
trim_right (c ∷ s) = let rest = trim_right s in if is_space c && rest == "" then "" else c ∷ rest

unfoldable pub trim_space : String → String
unfolding trim_left trim_right
trim_space s = trim_right (trim_left s)

-- `strings.CutPrefix s prefix`: the rest behind the prefix, if it is there.
unfoldable pub cut_prefix : String → String → Option String
cut_prefix s [] = some s
cut_prefix [] (d ∷ prefix) = none
cut_prefix (c ∷ s) (d ∷ prefix) = if nat_eq (code c) (code d) then cut_prefix s prefix else none

-- What CutPrefix leaves stands behind the prefix.
pub cut_prefix-some :
    (s prefix rest : String) → cut_prefix s prefix ≡ some rest → s ≡ prefix ++ rest
unfolding cut_prefix
cut_prefix-some s [] rest e = some-injective s rest e ∙ sym (nil-append rest)
cut_prefix-some [] (d ∷ prefix) rest e = absurd (ground arith)
cut_prefix-some (c ∷ s) (d ∷ prefix) rest e =
    let same : code c ≡ code d = ground arith in
    let tail = cut_prefix-some s prefix rest (ground arith) in
    ap₂ (λ x y. x ∷ y) (Char-path c d same) tail ∙ sym (cons-append d prefix rest)

-- ===== src/Http/Validation.antt =====
-- validation.go. A key is its code points; its length in bytes is that of its UTF-8 form.
use Prim.Native.Char.{Char, code}
use Prim.Native.String.{[], ◌∷◌}
use mathlib.Core.List.{List}
use parparchik.Common.{String, ℕ, ◌+◌, Option, none, some, Bool, true, false, ◌==◌, ◌&&◌, ltb, leb}
use parparchik.Common.{if◌then◌else◌}
use parparchik.Common.Split.{split, cut_prefix}

pub data KeyError : Type 0 where
  empty_key key_too_long key_leading_slash key_traversal key_control_char : KeyError

abbrev pub max_key_length : ℕ
max_key_length = 1024

-- The bytes of a code point in UTF-8.
abbrev pub utf8_length : Char → ℕ
utf8_length c =
    if ltb (code c) 0x80
    then 1
    else if ltb (code c) 0x800
    then 2
    else if ltb (code c) 0x10000
    then 3
    else 4

-- `len(key)`
unfoldable pub byte_length : String → ℕ
byte_length [] = 0
byte_length (c ∷ s) = utf8_length c + byte_length s

-- `unicode.IsControl`: the control characters all lie in Latin-1.
abbrev pub is_control : Char → Bool
is_control c = if ltb (code c) 0x20 then true else leb 0x7f (code c) && ltb (code c) 0xa0

unfoldable pub has_prefix : String → String → Bool
has_prefix s prefix = elim (cut_prefix s prefix) [ none ↦ false | some rest ↦ true ]

-- The loop of containsDotDotSegment.
unfoldable pub some_dot_dot : List String → Bool
some_dot_dot List.[] = false
some_dot_dot (List.◌∷◌ segment segments) =
    let rest = some_dot_dot segments in if segment == ".." then true else rest

unfoldable pub contains_dot_dot_segment : String → Bool
unfolding some_dot_dot
contains_dot_dot_segment key = some_dot_dot (split b'/' key)

unfoldable pub contains_control_byte : String → Bool
contains_control_byte [] = false
contains_control_byte (c ∷ s) =
    let rest = contains_control_byte s in if is_control c then true else rest

unfoldable pub validate_key : String → Option KeyError
unfolding byte_length has_prefix contains_dot_dot_segment contains_control_byte
validate_key key =
    if key == ""
    then some empty_key
    else if ltb max_key_length (byte_length key)
    then some key_too_long
    else if has_prefix key "/"
    then some key_leading_slash
    else if contains_dot_dot_segment key
    then some key_traversal
    else if contains_control_byte key
    then some key_control_char
    else none

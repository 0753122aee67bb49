-- ===== src/Http/Keys.antt =====
-- validateKey against a plain description of the keys that it accepts.
use Prim.Native.Char.{code}
use Prim.Native.String.{[], ◌∷◌, ◌++◌}
use mathlib.Core.List.{List}
use text.Mathlib.TextLemmas.{nil-append, cons-append}
use parparchik.Common.{String, ◌<◌, ◌≤◌, none, some, false, ◌==◌, ◌≡◌, ◌≢◌, ◌↔◌, All, refl}
use parparchik.Common.{arith, eq_iff, inl, inr, ap, ◌∙◌, Option-cases}
use parparchik.Common.Split.{split, cut_prefix, cut_prefix-some}
use parparchik.Http.Validation.{
  byte_length, has_prefix, some_dot_dot, contains_dot_dot_segment, contains_control_byte,
  validate_key,
}

-- No character is a control character: below U+0020, or from U+007F to U+009F.
abbrev pub HasNoControls : String → Type 0
HasNoControls [] = Unit
HasNoControls (c ∷ s) =
    (31 < code c) × (code c ≢ 127) × (¬ ((126 < code c) × (code c < 160))) × HasNoControls s

abbrev pub HasNoDotDot : List String → Type 0
HasNoDotDot segments = All (λ s. (s == "..") ≡ false) segments

-- A key that is safe to hand to the storage.
pub record IsSafeKey (key : String) : Type 0 where
  pub nonempty : key ≢ ""
  pub short : byte_length key ≤ 1024
  pub relative : (rest : String) → key ≢ "/" ++ rest
  pub inside : HasNoDotDot (split b'/' key)
  pub printable : HasNoControls key

some_dot_dot_iff : (segments : List String) → (some_dot_dot segments ≡ false) ↔ HasNoDotDot segments
unfolding some_dot_dot
some_dot_dot_iff List.[] = ground arith
some_dot_dot_iff (List.◌∷◌ s segments) = ground (arith, some_dot_dot_iff segments)

contains_control_byte_iff : (s : String) → (contains_control_byte s ≡ false) ↔ HasNoControls s
unfolding contains_control_byte
contains_control_byte_iff [] = ground arith
contains_control_byte_iff (c ∷ s) = ground (arith, contains_control_byte_iff s)

cut_prefix-append : (prefix rest : String) → cut_prefix (prefix ++ rest) prefix ≡ some rest
unfolding cut_prefix
cut_prefix-append [] rest = ap some (nil-append rest)
cut_prefix-append (c ∷ prefix) rest =
    ap (λ s. cut_prefix s (c ∷ prefix)) (cons-append c prefix rest)
    ∙ ground (arith, cut_prefix-append prefix rest)

has_prefix_iff :
    (s prefix : String) → (has_prefix s prefix ≡ false) ↔ ((rest : String) → s ≢ prefix ++ rest)
unfolding has_prefix
has_prefix_iff s prefix = elim (Option-cases (cut_prefix s prefix)) [
  | inl missing ↦
      rw (missing, has_prefix)
        (
          λ _ rest e. absurd (
              ground
                (arith, missing, cut_prefix-append prefix rest, ap (λ t. cut_prefix t prefix) e)),
          λ _. refl,
        )
  | inr (rest, there) ↦
      rw (there, has_prefix)
        (
          λ e. absurd (ground arith),
          λ none_there. absurd (none_there rest (cut_prefix-some s prefix rest there)),
        )
]

-- validateKey accepts exactly the safe keys: not empty, at most 1024 bytes of UTF-8, not beginning
-- with a slash, without a segment "..", and without control characters.
pub validate_key_iff : (key : String) → (validate_key key ≡ none) ↔ IsSafeKey key
unfolding validate_key contains_dot_dot_segment
validate_key_iff key =
    let relative_iff = has_prefix_iff key "/" in
    (
      λ accepted. record {
        nonempty = ground (arith, accepted, eq_iff key "");
        short = ground (arith, accepted);
        relative = relative_iff.0 (ground (arith, accepted));
        inside = (some_dot_dot_iff (split b'/' key)).0 (ground (arith, accepted));
        printable = (contains_control_byte_iff key).0 (ground (arith, accepted));
      },
      λ safe.
          let relative = relative_iff.1 safe.relative in
          let inside = (some_dot_dot_iff (split b'/' key)).1 safe.inside in
          let printable = (contains_control_byte_iff key).1 safe.printable in
          ground (arith, eq_iff key "", safe.nonempty, safe.short, relative, inside, printable),
    )

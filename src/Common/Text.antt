-- ===== src/Common/Text.antt =====
-- Texts: the byte order that `<` on Go strings is (on valid UTF-8 the order of code points), and
-- texts without a given separator.
use Prim.Native.Char.{Char, code}
use Prim.Native.Nat.{ℕ}
use Prim.Native.String.{String, [], ◌∷◌, ◌++◌}
use mathlib.Core.Bool.{Bool, true, false}
use mathlib.Core.Logic.{◌≢◌}
use mathlib.Core.Path.{◌≡◌, refl, sym, ◌∙◌, ap, ap₂}
use native.Mathlib.Omega.{arith}
use text.Mathlib.TextEquality.{Char-path}
use text.Mathlib.TextLemmas.{nil-append, cons-append, head-eq_of_cons-eq, tail-eq_of_cons-eq}
use parparchik.Common.Tests.{ltb, nat_eq, if◌then◌else◌}

unfoldable pub str_ltb : String → String → Bool
str_ltb [] [] = false
str_ltb [] (d ∷ t) = true
str_ltb (c ∷ s) [] = false
str_ltb (c ∷ s) (d ∷ t) = if nat_eq (code c) (code d) then str_ltb s t else ltb (code c) (code d)

pub str_ltb_irrefl : (s : String) → str_ltb s s ≡ false
unfolding str_ltb
str_ltb_irrefl [] = refl
str_ltb_irrefl (c ∷ s) = ground (arith, str_ltb_irrefl s)

pub str_ltb_trans : (s t u : String) → str_ltb s t ≡ true → str_ltb t u ≡ true → str_ltb s u ≡ true
unfolding str_ltb
str_ltb_trans [] [] [] h k = h
str_ltb_trans [] [] (e ∷ u) h k = refl
str_ltb_trans [] (d ∷ t) [] h k = k
str_ltb_trans [] (d ∷ t) (e ∷ u) h k = refl
str_ltb_trans (c ∷ s) [] u h k = ground arith
str_ltb_trans (c ∷ s) (d ∷ t) [] h k = k
str_ltb_trans (c ∷ s) (d ∷ t) (e ∷ u) h k = ground (arith, str_ltb_trans s t u)

pub str_ltb_total : (s t : String) → str_ltb s t ≡ false → str_ltb t s ≡ false → s ≡ t
unfolding str_ltb
str_ltb_total [] [] h k = refl
str_ltb_total [] (d ∷ t) h k = ground arith
str_ltb_total (c ∷ s) [] h k = ground arith
str_ltb_total (c ∷ s) (d ∷ t) h k =
    let same : code c ≡ code d = ground arith in
    ap₂ (λ a b. a ∷ b) (Char-path c d same) (str_ltb_total s t (ground arith) (ground arith))

-- The separator, a code point, does not occur in the text.
abbrev pub HasNo : ℕ → String → Type 0
HasNo sep [] = Unit
HasNo sep (c ∷ s) = (code c ≢ sep) × HasNo sep s

abbrev slash : Char
slash = "/"

slash-append : (k : String) → "/" ++ k ≡ slash ∷ k
slash-append k = cons-append slash [] k ∙ ap (λ s. slash ∷ s) (nil-append k)

cut_at_slash :
    (b b' k k' : String)
    → HasNo b'/' b
    → HasNo b'/' b'
    → b ++ (slash ∷ k) ≡ b' ++ (slash ∷ k')
    → (b ≡ b') × (k ≡ k')
cut_at_slash [] [] k k' h h' e = (refl, tail-eq_of_cons-eq (sym (nil-append _) ∙ e ∙ nil-append _))
cut_at_slash [] (d ∷ b') k k' h h' e =
    absurd (h'.0 (sym (ap code (head-eq_of_cons-eq (sym (nil-append _) ∙ e ∙ cons-append d b' _)))))
cut_at_slash (c ∷ b) [] k k' h h' e =
    absurd (h.0 (ap code (head-eq_of_cons-eq (sym (cons-append c b _) ∙ e ∙ nil-append _))))
cut_at_slash (c ∷ b) (d ∷ b') k k' h h' e =
    let e' = sym (cons-append c b _) ∙ e ∙ cons-append d b' _ in
    let (same, rest) = cut_at_slash b b' k k' h.1 h'.1 (tail-eq_of_cons-eq e') in
    (ap₂ (λ x y. x ∷ y) (head-eq_of_cons-eq e') same, rest)

-- Two texts that begin with a part free of slashes, which a slash follows, have the same part and
-- the same rest.
pub cut_unique :
    (b b' k k' : String)
    → HasNo b'/' b
    → HasNo b'/' b'
    → b ++ ("/" ++ k) ≡ b' ++ ("/" ++ k')
    → (b ≡ b') × (k ≡ k')
cut_unique b b' k k' h h' e =
    cut_at_slash b b' k k' h h'
      (ap (λ s. b ++ s) (sym (slash-append k)) ∙ e ∙ ap (λ s. b' ++ s) (slash-append k'))

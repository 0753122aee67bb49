-- ===== src/Common/Results.antt =====
-- Fallible code: a value or an error.
use mathlib.Core.Path.{◌≡◌, refl, subst}
use mathlib.Core.Logic.{◌⊎◌, inl, inr}
use native.Mathlib.Omega.{arith}

pub data Result {ℓ} (E A : Type ℓ) : Type ℓ where
  ok : A → Result E A
  err : E → Result E A

infixl 5 ◌>>=◌
abbrev pub ◌>>=◌ {ℓ} : {E A B : Type ℓ} → Result E A → (A → Result E B) → Result E B
err e >>= next = err e
ok a >>= next = next a

-- What a successful bind went through: its first part succeeded, and so did the rest.
pub >>=-eq-ok {ℓ} :
    {E A B : Type ℓ} (first : Result E A) (next : A → Result E B) {b : B}
    → (first >>= next) ≡ ok b
    → (a : A) × (first ≡ ok a) × (next a ≡ ok b)
>>=-eq-ok (err e) next both = absurd (ground arith)
>>=-eq-ok (ok a) next both = (a, refl, both)

-- What holds of the value, if there is one.
abbrev pub OnOk {ℓ} : {E A : Type ℓ} → (A → Type 0) → Result E A → Type 0
OnOk P (ok a) = P a
OnOk P (err e) = Unit

pub OnOk-ok {ℓ} :
    {E A : Type ℓ} (P : A → Type 0) (m : Result E A) {a : A} → OnOk P m → m ≡ ok a → P a
OnOk-ok P (ok b) h e = subst P (ground arith) h
OnOk-ok P (err x) h e = absurd (ground arith)

pub Result-cases {ℓ} :
    {E A : Type ℓ} (m : Result E A) → ((a : A) × (m ≡ ok a)) ⊎ ((e : E) × (m ≡ err e))
Result-cases (ok a) = inl (a, refl)
Result-cases (err e) = inr (e, refl)

pub OnOk-any {ℓ} : {E A : Type ℓ} (m : Result E A) → OnOk (λ _. Unit {0}) m
OnOk-any (ok a) = tt
OnOk-any (err e) = tt

pub OnOk-both {ℓ} :
    {E A : Type ℓ} (P Q : A → Type 0) (m : Result E A)
    → OnOk P m
    → OnOk Q m
    → OnOk (λ a. P a × Q a) m
OnOk-both P Q (ok a) p q = (p, q)
OnOk-both P Q (err e) p q = tt

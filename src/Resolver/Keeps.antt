-- ===== src/Resolver/Keeps.antt =====
-- Invariants of the catalog under actions, one rule for each way to build an action.
use parparchik.Common.{
  String, Option, none, some, ◌≡◌, sym, subst, arith, Bool, true, false, if◌then◌else◌,
}
use parparchik.Common.Int.{ℤ}
use parparchik.Common.Results.{Result, ok, err, OnOk, OnOk-any}
use parparchik.Catalog.{Catalog, register, set, remove}
use parparchik.Resolver.Actions.{
  State, ResolverError, Call, Action, pure, ◌>>=◌, update, call, continue, raise, modify,
  with_state,
}

-- `m` keeps `P` of the catalog, whether it returns or fails.
pub record Keeps {World Error A : Type 0} (P : Catalog → Type 0) (m : Action World Error A)
    : Type 0 where
  pub at : (s : State World) → P s.catalog → P (m s).1.catalog

-- `P` survives what the resolver does to a catalog, for bucket names that are `Ok`.
pub record IsClosed (Ok : String → Type 0) (P : Catalog → Type 0) : Type 0 where
  pub on_set :
      (key bucket : String) (size : ℤ) (last_modified : String) (c : Catalog)
      → Ok bucket
      → P c
      → P (set key bucket size last_modified c)
  pub on_register :
      (key bucket : String) (size : ℤ) (last_modified : String) (c : Catalog)
      → Ok bucket
      → P c
      → P (register key bucket size last_modified c)
  pub on_remove : (key : String) (c : Catalog) → P c → P (remove key c)

module _ {World Error A : Type 0} where
  pub catalog-call :
      (wrap : Error → ResolverError Error) (m : Call World Error A) (s : State World)
      → (call wrap m s).1.catalog ≡ s.catalog
  unfolding call
  catalog-call wrap m s = ground arith

module _ {World Error A : Type 0} {P : Catalog → Type 0} where
  pub Keeps-pure : (a : A) → Keeps P (pure {World = World} {Error = Error} a)
  unfolding pure
  Keeps-pure a = record { at = λ s h. h }

  pub Keeps-call :
      (wrap : Error → ResolverError Error) (m : Call World Error A) → Keeps P (call wrap m)
  Keeps-call wrap m = record { at = λ s h. subst P (sym (catalog-call wrap m s)) h }

  pub Keeps-if :
      (b : Bool) (m n : Action World Error A) → Keeps P m → Keeps P n → Keeps P (if b then m else n)
  Keeps-if true m n km kn = km
  Keeps-if false m n km kn = kn

  pub Keeps-with_state :
      (f : State World → Action World Error A)
      → ((s : State World) → Keeps P (f s))
      → Keeps P (with_state f)
  unfolding with_state
  Keeps-with_state f k = record { at = λ s h. (k s).at s h }

  pub Keeps-raise : (e : ResolverError Error) → Keeps P (raise {World = World} {A = A} e)
  unfolding raise
  Keeps-raise e = record { at = λ s h. h }

  pub Keeps-modify :
      (f : State World → A × State World)
      → ((s : State World) → P s.catalog → P (f s).1.catalog)
      → Keeps P (modify {Error = Error} f)
  unfolding modify
  Keeps-modify f k = record { at = k }

module _ {World Error A B : Type 0} {P : Catalog → Type 0} where
  Keeps-continue :
      (p : Result (ResolverError Error) A × State World) (f : A → Action World Error B)
      → P p.1.catalog
      → ((a : A) → Keeps P (f a))
      → P (continue p f).1.catalog
  Keeps-continue (ok a, s) f h k = (k a).at s h
  Keeps-continue (err e, s) f h k = h

  pub Keeps-bind :
      (m : Action World Error A) (f : A → Action World Error B)
      → Keeps P m
      → ((a : A) → Keeps P (f a))
      → Keeps P (m >>= f)
  unfolding ◌>>=◌
  Keeps-bind m f km kf = record { at = λ s h. Keeps-continue (m s) f (km.at s h) kf }

  pub Keeps-option :
      (o : Option A) (m : Action World Error B) (f : A → Action World Error B)
      → Keeps P m
      → ((a : A) → Keeps P (f a))
      → Keeps P (elim o [ none ↦ m | some a ↦ f a ])
  Keeps-option none m f km kf = km
  Keeps-option (some a) m f km kf = kf a

module _ {World Error : Type 0} {P : Catalog → Type 0} where
  pub Keeps-update :
      (f : Catalog → Catalog)
      → ((c : Catalog) → P c → P (f c))
      → Keeps P (update {World = World} {Error = Error} f)
  unfolding update
  Keeps-update f k = record { at = λ s h. k s.catalog h }

-- What holds of the value that an action returns.
pub record Yields {World Error A : Type 0} (Q : A → Type 0) (m : Action World Error A)
    : Type 0 where
  pub at : (s : State World) → OnOk Q (m s).0

module _ {World Error A B : Type 0} {P : Catalog → Type 0} (Q : A → Type 0) where
  pub Keeps-continue_yields :
      (p : Result (ResolverError Error) A × State World) (f : A → Action World Error B)
      → P p.1.catalog
      → OnOk Q p.0
      → ((a : A) → Q a → Keeps P (f a))
      → P (continue p f).1.catalog
  Keeps-continue_yields (ok a, s) f h q k = (k a q).at s h
  Keeps-continue_yields (err e, s) f h q k = h

  pub Keeps-bind-Yields :
      (m : Action World Error A) (f : A → Action World Error B)
      → Keeps P m
      → Yields Q m
      → ((a : A) → Q a → Keeps P (f a))
      → Keeps P (m >>= f)
  unfolding ◌>>=◌
  Keeps-bind-Yields m f km ym kf = record {
    at = λ s h. Keeps-continue_yields (m s) f (km.at s h) (ym.at s) kf;
  }

module _ {World Error A B : Type 0} (Q : A → Type 0) (R : B → Type 0) where
  Yields-continue :
      (p : Result (ResolverError Error) A × State World) (f : A → Action World Error B)
      → OnOk Q p.0
      → ((a : A) → Q a → Yields R (f a))
      → OnOk R (continue p f).0
  Yields-continue (ok a, s) f q k = (k a q).at s
  Yields-continue (err e, s) f q k = tt

  pub Yields-bind :
      (m : Action World Error A) (f : A → Action World Error B)
      → Yields Q m
      → ((a : A) → Q a → Yields R (f a))
      → Yields R (m >>= f)
  unfolding ◌>>=◌
  Yields-bind m f ym kf = record { at = λ s. Yields-continue (m s) f (ym.at s) kf }

module _ {World Error A : Type 0} where
  pub Yields-any : (m : Action World Error A) → Yields (λ _. Unit {0}) m
  Yields-any m = record { at = λ s. OnOk-any (m s).0 }

  pub Yields-pure :
      (Q : A → Type 0) (a : A) → Q a → Yields {World = World} {Error = Error} Q (pure a)
  unfolding pure
  Yields-pure Q a q = record { at = λ s. q }

  pub Yields-if :
      (Q : A → Type 0) (b : Bool) (m n : Action World Error A)
      → Yields Q m
      → Yields Q n
      → Yields Q (if b then m else n)
  Yields-if Q true m n ym yn = ym
  Yields-if Q false m n ym yn = yn

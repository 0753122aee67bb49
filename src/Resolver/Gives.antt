-- ===== src/Resolver/Gives.antt =====
-- What actions return, with the catalog that they leave: one rule for each way to build an action.
use parparchik.Common.{String, Option, none, some, Bool, true, false, ◌≡◌, refl, if◌then◌else◌}
use parparchik.Common.Results.{Result, ok, err, OnOk}
use parparchik.Catalog.{Catalog, Entry}
use parparchik.Resolver.Actions.{State, ResolverError, Action, pure, ◌>>=◌, with_state, continue}
use parparchik.Resolver.Route.{wrap_member, named_member}

-- What holds of a returned value and of the catalog that is left.
pub record Gives {World Error A : Type 0} (Q : A → Catalog → Type 0) (m : Action World Error A)
    : Type 0 where
  pub at : (s : State World) → OnOk (λ a. Q a (m s).1.catalog) (m s).0

module _ {World Error A B : Type 0} (Q : B → Catalog → Type 0) where
  Gives-continue :
      (p : Result (ResolverError Error) A × State World) (f : A → Action World Error B)
      → ((a : A) → Gives Q (f a))
      → OnOk (λ b. Q b (continue p f).1.catalog) (continue p f).0
  Gives-continue (ok a, s) f k = (k a).at s
  Gives-continue (err e, s) f k = tt

  pub Gives-bind :
      (m : Action World Error A) (f : A → Action World Error B)
      → ((a : A) → Gives Q (f a))
      → Gives Q (m >>= f)
  unfolding ◌>>=◌
  Gives-bind m f k = record { at = λ s. Gives-continue (m s) f k }

  pub Gives-option :
      (o : Option A) (m : Action World Error B) (f : A → Action World Error B)
      → Gives Q m
      → ((a : A) → Gives Q (f a))
      → Gives Q (elim o [ none ↦ m | some a ↦ f a ])
  Gives-option none m f km kf = km
  Gives-option (some a) m f km kf = kf a

module _ {World Error A : Type 0} (Q : A → Catalog → Type 0) where
  pub Gives-pure :
      (a : A) → ((c : Catalog) → Q a c) → Gives {World = World} {Error = Error} Q (pure a)
  unfolding pure
  Gives-pure a q = record { at = λ s. q s.catalog }

  pub Gives-if :
      (b : Bool) (m n : Action World Error A)
      → (b ≡ true → Gives Q m)
      → (b ≡ false → Gives Q n)
      → Gives Q (if b then m else n)
  Gives-if true m n km kn = km refl
  Gives-if false m n km kn = kn refl

  pub Gives-with_state :
      (f : State World → Action World Error A)
      → ((s : State World) → Gives Q (f s))
      → Gives Q (with_state f)
  unfolding with_state
  Gives-with_state f k = record { at = λ s. (k s).at s }

module _ {World Error A : Type 0} where
  pub Gives-weaken :
      (Q R : A → Catalog → Type 0) (m : Action World Error A)
      → ((a : A) (c : Catalog) → Q a c → R a c)
      → Gives Q m
      → Gives R m
  Gives-weaken Q R m h k = record { at = λ s. weaken (m s).0 (m s).1.catalog (k.at s) }
    where
      weaken :
          (r : Result (ResolverError Error) A) (c : Catalog)
          → OnOk (λ a. Q a c) r
          → OnOk (λ a. R a c) r
      weaken (ok a) c q = h a c q
      weaken (err e) c q = tt

module _ {World Error A B : Type 0} (Q : A → Catalog → Type 0) (R : B → Catalog → Type 0) where
  mapped :
      (p : Result (ResolverError Error) A × State World) (g : A → B)
      → ((a : A) (c : Catalog) → Q a c → R (g a) c)
      → OnOk (λ a. Q a p.1.catalog) p.0
      → OnOk (λ b. R b (continue p (λ a. pure (g a))).1.catalog) (continue p (λ a. pure (g a))).0
  unfolding pure
  mapped (ok a, s) g h q = h a s.catalog q
  mapped (err e, s) g h q = tt

  pub Gives-map :
      (m : Action World Error A) (g : A → B)
      → ((a : A) (c : Catalog) → Q a c → R (g a) c)
      → Gives Q m
      → Gives R (m >>= λ a. pure (g a))
  unfolding ◌>>=◌
  Gives-map m g h k = record { at = λ s. mapped (m s) g h (k.at s) }

module _ {World Error : Type 0} (R : Option Entry → Catalog → Type 0) where
  first_or :
      (p : Result (ResolverError Error) (Option Entry) × State World)
      (n : Action World Error (Option Entry))
      → OnOk (λ a. R a p.1.catalog) p.0
      → Gives R n
      → OnOk
          (λ b. R b (continue p (λ o. elim o [ some e ↦ pure (some e) | none ↦ n ])).1.catalog)
          (continue p (λ o. elim o [ some e ↦ pure (some e) | none ↦ n ])).0
  unfolding pure
  first_or (ok none, s) n q k = k.at s
  first_or (ok (some e), s) n q k = q
  first_or (err e, s) n q k = tt

  pub Gives-first :
      (m n : Action World Error (Option Entry))
      → Gives R m
      → Gives R n
      → Gives R (m >>= λ o. elim o [ some e ↦ pure (some e) | none ↦ n ])
  unfolding ◌>>=◌
  Gives-first m n km kn = record { at = λ s. first_or (m s) n (km.at s) kn }

  wrapped_gives :
      (virtual member : String) (p : Result (ResolverError Error) (Option Entry) × State World)
      → OnOk (λ a. R a p.1.catalog) p.0
      → OnOk (λ a. R a (wrap_member virtual member p).1.catalog) (wrap_member virtual member p).0
  wrapped_gives virtual member (ok a, s) q = q
  wrapped_gives virtual member (err e, s) q = tt

  pub Gives-named_member :
      (virtual member : String) (m : Action World Error (Option Entry))
      → Gives R m
      → Gives R (named_member virtual member m)
  unfolding named_member
  Gives-named_member virtual member m k = record {
    at = λ s. wrapped_gives virtual member (m s) (k.at s);
  }

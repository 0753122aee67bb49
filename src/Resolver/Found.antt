-- ===== src/Resolver/Found.antt =====
-- What the searches return, and the catalog at their end.
use parparchik.Common.{
  String, Option, none, some, Bool, true, false, List, [], ◌∷◌, ◌≡◌, refl, arith,
}
use parparchik.Common.{◌==◌, eq_iff, eq_refl, Bool-cases, inl, inr, sym}
use parparchik.Common.{ap, ◌∙◌, not, ◌||◌, Member, subst}
use parparchik.Common.Int.{ℤ}
use parparchik.Config.{Bucket, has_storage}
use parparchik.Catalog.{Catalog, Entry, lookup, set, entry_for}
use parparchik.Catalog.Owners.{lookup-set}
use parparchik.Resolver.Actions.{Object, Services, pure, ◌>>=◌, with_state}
use parparchik.Resolver.Persist.{persist_quietly}
use parparchik.Resolver.Missing.{
  settle, search_missing, resolve_missing_file, search_by_type, resolve_missing_file_by_type,
  register_resolved_object, entry_or_zero, owned_by, same_flag,
}
use parparchik.Resolver.Closure.{catalog-persist_quietly}
use parparchik.Resolver.Gives.{Gives, Gives-bind, Gives-option, Gives-pure, Gives-if}

-- The entry that is registered under the key, in a bucket of which `B` holds.
abbrev pub IsFound : String → (String → Type 0) → Option Entry → Catalog → Type 0
IsFound key B none c = Unit
IsFound key B (some e) c = (lookup key c ≡ some e) × B e.bucket

entry_of_some :
    (B : String → Type 0) (o : Option Entry) (e : Entry)
    → o ≡ some e
    → B e.bucket
    → (o ≡ some (entry_or_zero o)) × B (entry_or_zero o).bucket
entry_of_some B none e same good = absurd (ground arith)
entry_of_some B (some f) e same good =
    let here : e ≡ f = ground arith in (refl, subst (λ (x : Entry). B x.bucket) here good)

entry_of_owner :
    (key bucket : String) (B : String → Type 0) (c : Catalog) (o : Option Entry)
    → lookup key c ≡ o
    → B bucket
    → IsFound key B (owned_by bucket o) c
entry_of_owner key bucket B c none at good = tt
entry_of_owner key bucket B c (some e) at good = elim (Bool-cases (e.bucket == bucket)) [
  | inl same ↦ rw same (at, subst B (sym ((eq_iff _ _).0 same)) good)
  | inr other ↦ rw other tt
]

module _ {World Content Error : Type 0} (sv : Services World Content Error)
    (buckets : List Bucket) where
  pub settle-IsFound :
      (key bucket : String) (obj : Object) (B : String → Type 0)
      → B bucket
      → Gives (IsFound key B) (settle sv buckets key bucket obj)
  unfolding settle ◌>>=◌ entry_for
  settle-IsFound key bucket obj B good = record {
    at = λ s.
        let s' = record s { catalog = set key bucket obj.size obj.last_modified s.catalog } in
        entry_of_some B (lookup key (persist_quietly sv buckets s').1.catalog)
          (entry_for s.catalog key bucket obj.size obj.last_modified)
          (ap (lookup key) (catalog-persist_quietly sv buckets s')
            ∙ lookup-set key bucket obj.size obj.last_modified s.catalog key
            ∙ ground (arith, eq_refl key))
          good;
  }

  pub search_missing-IsFound :
      (key : String) (bs : List Bucket) (B : String → Type 0)
      → ((b : Bucket) → Member b bs → has_storage b ≡ true → B b.name)
      → Gives (IsFound key B) (search_missing sv buckets key bs)
  unfolding search_missing
  search_missing-IsFound key [] B good =
      Gives-bind _ _ _ (λ _. Gives-bind _ _ _ (λ _. Gives-pure _ none (λ c. tt)))
  search_missing-IsFound key (b ∷ bs) B good =
      let rest = search_missing-IsFound key bs B (λ c m. good c (inr m)) in
      Gives-if _ (has_storage b) _ _
        (λ stored. Gives-bind _ _ _ λ found.
          Gives-option _ found _ _ rest
            (λ obj. settle-IsFound key b.name obj B (good b (inl refl) stored)))
        (λ _. rest)

  search_by_type-IsFound :
      (key : String) (public : Bool) (bs : List Bucket) (B : String → Type 0)
      → ((b : Bucket)
          → Member b bs
          → (not (has_storage b) || not (same_flag b.public public)) ≡ false
          → B b.name)
      → Gives (IsFound key B) (search_by_type sv buckets key public bs)
  unfolding search_by_type
  search_by_type-IsFound key public [] B good = Gives-pure _ none (λ c. tt)
  search_by_type-IsFound key public (b ∷ bs) B good =
      let rest = search_by_type-IsFound key public bs B (λ c m. good c (inr m)) in
      Gives-if _ (not (has_storage b) || not (same_flag b.public public)) _ _ (λ _. rest)
        (λ fits. Gives-bind _ _ _ λ found.
          Gives-option _ found _ _ rest
            (λ obj. settle-IsFound key b.name obj B (good b (inl refl) fits)))

  pub resolve_missing_file-IsFound :
      (key : String) (B : String → Type 0)
      → ((b : Bucket) → Member b buckets → has_storage b ≡ true → B b.name)
      → Gives (IsFound key B) (resolve_missing_file sv buckets key)
  unfolding resolve_missing_file
  resolve_missing_file-IsFound key B good = search_missing-IsFound key buckets B good

  pub resolve_missing_file_by_type-IsFound :
      (key : String) (public : Bool) (B : String → Type 0)
      → ((b : Bucket) → Member b buckets → has_storage b ≡ true → b.public ≡ public → B b.name)
      → Gives (IsFound key B) (resolve_missing_file_by_type sv buckets key public)
  unfolding resolve_missing_file_by_type
  resolve_missing_file_by_type-IsFound key public B good =
      search_by_type-IsFound key public buckets B
        (λ b m fits. good b m (ground arith) (ground arith))

  look :
      (bucket key : String) (B : String → Type 0)
      → B bucket
      → Gives (IsFound key B) (
          with_state {World = World} {Error = Error}
            (λ s. pure (owned_by bucket (lookup key s.catalog))))
  unfolding with_state pure
  look bucket key B good = record {
    at = λ s. entry_of_owner key bucket B s.catalog (lookup key s.catalog) refl good;
  }

  pub register_resolved_object-IsFound :
      (bucket key : String) (size : ℤ) (last_modified : String) (persist : Bool)
      (B : String → Type 0)
      → B bucket
      → Gives
          (IsFound key B)
          (register_resolved_object sv buckets bucket key size last_modified persist)
  unfolding register_resolved_object
  register_resolved_object-IsFound bucket key size last_modified persist B good =
      Gives-bind _ _ _ λ _. Gives-bind _ _ _ λ _. look bucket key B good

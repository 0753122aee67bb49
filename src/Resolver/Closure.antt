-- ===== src/Resolver/Closure.antt =====
-- The operations of the resolver and the predicates on a catalog that Set, Register and Remove keep.
use parparchik.Common.{String, none, ◌≡◌, refl, sym, subst, Bool, arith}
use parparchik.Common.{List, [], ◌∷◌, All, not, ◌||◌}
use parparchik.Common.Int.{ℤ}
use parparchik.Config.{Bucket, has_storage}
use parparchik.Catalog.{Catalog}
use parparchik.Resolver.Actions.{Object, Services, State, modify}
use parparchik.Resolver.Persist.{persist_manifest, persist_each, persist_quietly}
use parparchik.Resolver.Missing.{
  settle, search_missing, resolve_missing_file, search_by_type, resolve_missing_file_by_type,
  exists, register_resolved_object, same_flag,
}
use parparchik.Resolver.Keeps.{
  Keeps, IsClosed, Keeps-bind, Keeps-update, Keeps-pure, Keeps-call, Keeps-if, Keeps-option,
  Keeps-with_state, Keeps-modify,
}

module _ {World Content Error : Type 0} (sv : Services World Content Error) where
  catalog-persist_manifest :
      (b : Bucket) (s : State World) → (persist_manifest sv b s).1.catalog ≡ s.catalog
  unfolding persist_manifest
  catalog-persist_manifest b s = ground arith

  pub catalog-persist_each :
      (bs : List Bucket) (s : State World) → (persist_each sv bs s).1.catalog ≡ s.catalog
  unfolding persist_each
  catalog-persist_each [] s = refl
  catalog-persist_each (b ∷ bs) s = ground (
    arith,
    catalog-persist_each bs s,
    catalog-persist_each bs (persist_manifest sv b s).1,
    catalog-persist_manifest b s,
  )

module _ {World Content Error : Type 0} (sv : Services World Content Error)
    (buckets : List Bucket) where
  pub catalog-persist_quietly :
      (s : State World) → (persist_quietly sv buckets s).1.catalog ≡ s.catalog
  unfolding persist_quietly modify
  catalog-persist_quietly s = catalog-persist_each sv buckets s

  pub Keeps-persist_quietly : {P : Catalog → Type 0} → Keeps P (persist_quietly sv buckets)
  Keeps-persist_quietly {P} = record { at = λ s h. subst P (sym (catalog-persist_quietly s)) h }

module _ {World Content Error : Type 0} (sv : Services World Content Error) (buckets : List Bucket)
    {Ok : String → Type 0} {P : Catalog → Type 0} (closed : IsClosed Ok P) where
  settle-Keeps :
      (key bucket : String) (obj : Object) → Ok bucket → Keeps P (settle sv buckets key bucket obj)
  unfolding settle
  settle-Keeps key bucket obj named =
      Keeps-bind _ _
        (Keeps-update _ (λ c. closed.on_set key bucket obj.size obj.last_modified c named))
        λ _.
          Keeps-bind _ _ (Keeps-persist_quietly sv buckets)
            (λ _. Keeps-with_state _ (λ s. Keeps-pure _))

  search_missing-Keeps :
      (key : String) (bs : List Bucket)
      → All (λ b. Ok b.name) bs
      → Keeps P (search_missing sv buckets key bs)
  unfolding search_missing
  search_missing-Keeps key [] h =
      Keeps-bind _ _ (Keeps-update _ (closed.on_remove key))
        λ _. Keeps-bind _ _ (Keeps-persist_quietly sv buckets) (λ _. Keeps-pure none)
  search_missing-Keeps key (b ∷ bs) h =
      let rest = search_missing-Keeps key bs h.1 in
      Keeps-if (has_storage b) _ _
        (Keeps-bind _ _ (Keeps-call _ _)
          λ found. Keeps-option found _ _ rest (λ obj. settle-Keeps key b.name obj h.0))
        rest

  pub resolve_missing_file-Keeps :
      (key : String) → All (λ b. Ok b.name) buckets → Keeps P (resolve_missing_file sv buckets key)
  unfolding resolve_missing_file
  resolve_missing_file-Keeps key h = search_missing-Keeps key buckets h

  search_by_type-Keeps :
      (key : String) (public : Bool) (bs : List Bucket)
      → All (λ b. Ok b.name) bs
      → Keeps P (search_by_type sv buckets key public bs)
  unfolding search_by_type
  search_by_type-Keeps key public [] h = Keeps-pure none
  search_by_type-Keeps key public (b ∷ bs) h =
      let rest = search_by_type-Keeps key public bs h.1 in
      Keeps-if (not (has_storage b) || not (same_flag b.public public)) _ _ rest (
        Keeps-bind _ _ (Keeps-call _ _)
          λ found. Keeps-option found _ _ rest (λ obj. settle-Keeps key b.name obj h.0))

  pub resolve_missing_file_by_type-Keeps :
      (key : String) (public : Bool)
      → All (λ b. Ok b.name) buckets
      → Keeps P (resolve_missing_file_by_type sv buckets key public)
  unfolding resolve_missing_file_by_type
  resolve_missing_file_by_type-Keeps key public h = search_by_type-Keeps key public buckets h

  pub exists-Keeps : (bucket key : String) → Keeps P (exists sv buckets bucket key)
  unfolding exists
  exists-Keeps bucket key = Keeps-modify _ (λ s h. h)

  pub register_resolved_object-Keeps :
      (bucket key : String) (size : ℤ) (last_modified : String) (persist : Bool)
      → Ok bucket
      → Keeps P (register_resolved_object sv buckets bucket key size last_modified persist)
  unfolding register_resolved_object
  register_resolved_object-Keeps bucket key size last_modified persist named =
      Keeps-bind _ _
        (Keeps-update _ (λ c. closed.on_register key bucket size last_modified c named))
        λ _.
          Keeps-bind _ _ (Keeps-if persist _ _ (Keeps-persist_quietly sv buckets) (Keeps-pure tt))
            (λ _. Keeps-with_state _ (λ s. Keeps-pure _))

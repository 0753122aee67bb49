-- ===== src/Resolver/Moving.antt =====
-- Relocate and SyncRegistry and the predicates on a catalog that Set, Register and Remove keep.
use parparchik.Common.{String, ℕ, Option, none, some, List, [], ◌∷◌, All, ◌≡◌}
use parparchik.Common.{◌==◌, Bool-cases, inl, inr, arith, subst, sym, Option-cases}
use parparchik.Config.{Bucket, has_storage}
use parparchik.Catalog.{Catalog}
use parparchik.Resolver.Actions.{Object, Services}
use parparchik.Resolver.Persist.{
  Tally, register_object, sync_objects, sync_listing, sync_buckets, sync_registry,
  set_duplicate_count, is_in, persist_manifests,
}
use parparchik.Resolver.Relocation.{
  find_copies, persist_or_fail, not_found, move_to, finish, relocate, Target, note_hit, no_target,
}
use parparchik.Resolver.Keeps.{
  Keeps, IsClosed, Keeps-bind, Keeps-update, Keeps-pure, Keeps-raise, Keeps-call, Keeps-if,
  Keeps-modify, Yields, Yields-bind, Yields-any, Yields-pure, Yields-if, Keeps-bind-Yields,
}
use parparchik.Resolver.Closure.{Keeps-persist_quietly, catalog-persist_each}

module _ {World Content Error : Type 0} (sv : Services World Content Error) (buckets : List Bucket)
    {Ok : String → Type 0} {P : Catalog → Type 0} (closed : IsClosed Ok P) where
  find_copies-Keeps :
      (filename : String) (bs : List Bucket) (t : Target)
      → Keeps P (find_copies sv buckets filename bs t)
  unfolding find_copies
  find_copies-Keeps filename [] t = Keeps-pure t
  find_copies-Keeps filename (b ∷ bs) t =
      Keeps-if (has_storage b) _ _
        (Keeps-bind _ _ (Keeps-call _ _) (λ found. find_copies-Keeps filename bs _))
        (find_copies-Keeps filename bs t)

  persist_or_fail-Keeps : Keeps P (persist_or_fail sv buckets)
  unfolding persist_or_fail persist_manifests
  persist_or_fail-Keeps = record { at = λ s h. subst P (sym (catalog-persist_each sv buckets s)) h }

  move_to-Keeps :
      (filename target : String) (n : ℕ) (obj : Object)
      → Ok target
      → Keeps P (move_to sv buckets filename target n obj)
  unfolding move_to
  move_to-Keeps filename target n obj good = Keeps-bind _ _ (Keeps-modify _ (λ s h. h)) λ previous.
      Keeps-bind _ _
        (Keeps-update _ (λ c. closed.on_set filename target obj.size obj.last_modified c good))
        λ _.
          Keeps-bind _ _ persist_or_fail-Keeps
            λ _. Keeps-bind _ _ (Keeps-modify _ (λ s h. h)) (λ entry. Keeps-pure _)

  not_found-Keeps : (filename : String) → Keeps P (not_found sv buckets filename)
  unfolding not_found
  not_found-Keeps filename =
      Keeps-bind _ _ (Keeps-update _ (closed.on_remove filename))
        λ _. Keeps-bind _ _ (Keeps-persist_quietly sv buckets) (λ _. Keeps-raise _)

  -- The target of a file that was found is a bucket that is fine.
  abbrev IsGood : Target → Type 0
  IsGood t = (obj : Object) → t.obj ≡ some obj → Ok t.bucket

  note_hit-IsGood :
      (b : Bucket) (t : Target) (found : Option Object)
      → Ok b.name
      → IsGood t
      → IsGood (elim found [ none ↦ t | some obj ↦ note_hit b.name obj t ])
  unfolding note_hit
  note_hit-IsGood b t none good g = g
  note_hit-IsGood b t (some obj) good g = elim (Bool-cases (t.bucket == "")) [
    | inl first ↦ rw first (λ o e. good)
    | inr later ↦ rw later (λ o e. g o e)
  ]

  find_copies-IsGood :
      (filename : String) (bs : List Bucket) (t : Target)
      → All (λ b. Ok b.name) bs
      → IsGood t
      → Yields IsGood (find_copies sv buckets filename bs t)
  unfolding find_copies
  find_copies-IsGood filename [] t h g = Yields-pure IsGood t g
  find_copies-IsGood filename (b ∷ bs) t h g =
      Yields-if IsGood (has_storage b) _ _
        (Yields-bind (λ _. Unit {0}) IsGood _ _ (Yields-any _)
          λ found _. find_copies-IsGood filename bs _ h.1 (note_hit-IsGood b t found h.0 g))
        (find_copies-IsGood filename bs t h.1 g)

  finish-Keeps :
      (filename : String) (t : Target) → IsGood t → Keeps P (finish sv buckets filename t)
  unfolding finish
  finish-Keeps filename t g = elim (Option-cases t.obj) [
    | inl missing ↦ rw missing (not_found-Keeps filename)
    | inr (obj, found) ↦ rw found (move_to-Keeps filename t.bucket t.found_count obj (g obj found))
  ]

  pub relocate-Keeps :
      (filename : String) → All (λ b. Ok b.name) buckets → Keeps P (relocate sv buckets filename)
  unfolding relocate
  relocate-Keeps filename named =
      Keeps-bind-Yields IsGood _ _ (find_copies-Keeps filename buckets no_target)
        (find_copies-IsGood filename buckets no_target named (λ obj e. absurd (ground arith)))
        (finish-Keeps filename)

  register_object-keeps :
      (b : Bucket) (obj : Object) (t : Tally) (c : Catalog)
      → Ok b.name
      → P c
      → P (register_object b.name b.manifest_key obj t c)
  unfolding register_object
  register_object-keeps b obj t c good h = elim (Bool-cases (obj.key == b.manifest_key)) [
    | inl manifest ↦ rw manifest h
    | inr file ↦ elim (Bool-cases (is_in obj.key t.seen)) [
      | inl again ↦ rw (file, again) h
      | inr fresh ↦
          rw (file, fresh) (closed.on_register obj.key b.name obj.size obj.last_modified c good h)
    ]
  ]

  sync_objects-keeps :
      (b : Bucket) (objs : List Object) (t : Tally) (c : Catalog)
      → Ok b.name
      → P c
      → P (sync_objects b objs (t, c)).1
  unfolding sync_objects
  sync_objects-keeps b [] t c good h = h
  sync_objects-keeps b (obj ∷ objs) t c good h =
      sync_objects-keeps b objs _ _ good (register_object-keeps b obj t c good h)

  sync_buckets-Keeps :
      (bs : List Bucket) (t : Tally) → All (λ b. Ok b.name) bs → Keeps P (sync_buckets sv bs t)
  unfolding sync_buckets sync_listing
  sync_buckets-Keeps [] t h = Keeps-pure t
  sync_buckets-Keeps (b ∷ bs) t h =
      Keeps-if (has_storage b) _ _
        (Keeps-bind _ _ (Keeps-call _ _) λ objs.
          Keeps-bind _ _ (Keeps-modify _ (λ s k. sync_objects-keeps b objs t s.catalog h.0 k))
            (λ t'. sync_buckets-Keeps bs t' h.1))
        (sync_buckets-Keeps bs t h.1)

  pub sync_registry-Keeps : All (λ b. Ok b.name) buckets → Keeps P (sync_registry sv buckets)
  unfolding sync_registry set_duplicate_count
  sync_registry-Keeps named =
      Keeps-bind _ _ (sync_buckets-Keeps buckets _ named)
        λ tally. Keeps-bind _ _ (Keeps-modify _ (λ s h. h)) (λ _. Keeps-persist_quietly sv buckets)

-- ===== src/Resolver/Persist.antt =====
-- resolver.go: Bootstrap, PersistManifests, SyncRegistry.
use parparchik.Common.{String, ℕ, none, some, List, [], ◌∷◌, Bool, true, false, ◌==◌, ◌++◌}
use parparchik.Common.{if◌then◌else◌, length}
use parparchik.Common.Assoc
use parparchik.Common.Assoc.{Assoc}
use parparchik.Common.Results.{Result, ok, err}
use parparchik.Config.{Bucket, has_storage}
use parparchik.Catalog.{Catalog, BucketManifest, register, manifest_for_bucket, load_manifests}
use parparchik.Resolver.Actions.{
  Object, Services, State, ResolverError, bootstrap_fetch, bootstrap_reconcile, sync_list, Action,
  pure, ◌>>=◌, ◌>>◌, update, call, modify,
}

module _ {World Content Error : Type 0} (sv : Services World Content Error) where
  -- One round of the loop of PersistManifests: what it adds to the errors.
  unfoldable pub persist_manifest : Bucket → State World → List Error × State World
  persist_manifest b s = elim (sv.marshal (manifest_for_bucket b.name s.catalog)) [
    | err e ↦ (e ∷ [], s)
    | ok body ↦
        let (result, w) = sv.put_object b.name b.manifest_key body "application/json" s.world in
        (elim result [ err e ↦ e ∷ [] | ok _ ↦ [] ], record s { world = w })
  ]

  unfoldable pub persist_each : List Bucket → State World → List Error × State World
  unfolding persist_manifest
  persist_each [] s = ([], s)
  persist_each (b ∷ bs) s = elim (has_storage b) [
    | false ↦ persist_each bs s
    | true ↦
        let (errors, s') = persist_manifest b s in
        let (more, s'') = persist_each bs s' in (errors ++ more, s'')
  ]

module _ {World Content Error : Type 0} (sv : Services World Content Error)
    (buckets : List Bucket) where
  unfoldable pub persist_manifests : State World → List Error × State World
  persist_manifests s = persist_each sv buckets s

  -- PersistManifests where its error is only logged.
  unfoldable pub persist_quietly : Action World Error (Unit {0})
  unfolding persist_manifests
  persist_quietly = modify (λ s. (tt, (persist_manifests s).1))

-- The maps `seen` and `dups` of SyncRegistry, as sets.
pub record Tally : Type 0 where
  pub seen : Assoc Bool
  pub dups : Assoc Bool

abbrev pub is_in : String → Assoc Bool → Bool
is_in key m = elim (Assoc.lookup key m) [ none ↦ false | some b ↦ b ]

-- One round of the inner loop of SyncRegistry, on the tally and on the catalog.
unfoldable pub tally_object : String → Object → Tally → Tally
tally_object manifest_key obj t = if obj.key == manifest_key then t else record t {
  seen = Assoc.insert obj.key true t.seen;
  dups = if is_in obj.key t.seen then Assoc.insert obj.key true t.dups else t.dups;
}

unfoldable pub register_object : String → String → Object → Tally → Catalog → Catalog
register_object bucket manifest_key obj t c =
    if obj.key == manifest_key
    then c
    else if is_in obj.key t.seen
    then c
    else register obj.key bucket obj.size obj.last_modified c

unfoldable pub sync_objects : Bucket → List Object → Tally × Catalog → Tally × Catalog
unfolding tally_object register_object
sync_objects b [] p = p
sync_objects b (obj ∷ objs) (t, c) =
    sync_objects b objs
      (tally_object b.manifest_key obj t, register_object b.name b.manifest_key obj t c)

-- The inner loop, on the state.
unfoldable pub sync_listing :
    {World : Type 0} → Bucket → List Object → Tally → State World → Tally × State World
unfolding sync_objects
sync_listing b objects t s =
    let (t', c') = sync_objects b objects (t, s.catalog) in (t', record s { catalog = c' })

module _ {World Content Error : Type 0} (sv : Services World Content Error) where
  unfoldable pub sync_buckets : List Bucket → Tally → Action World Error Tally
  sync_buckets [] t = pure t
  sync_buckets (b ∷ bs) t =
      if has_storage b
      then (do
        objects ← call (sync_list b.name) (sv.list_objects b.name)
        t' ← modify (sync_listing b objects t)
        sync_buckets bs t')
      else sync_buckets bs t

module _ {World Content Error : Type 0} (sv : Services World Content Error)
    (buckets : List Bucket) where
  unfoldable pub set_duplicate_count : ℕ → Action World Error (Unit {0})
  set_duplicate_count n = modify (λ s. (tt, record s { duplicate_count = n }))

  unfoldable pub sync_registry : Action World Error (Unit {0})
  unfolding sync_buckets set_duplicate_count persist_quietly
  sync_registry = do
    tally ← sync_buckets sv buckets (record { seen = []; dups = [] })
    set_duplicate_count (length tally.dups)
    persist_quietly sv buckets

  unfoldable pub fetch_manifests : List Bucket → Action World Error (List (BucketManifest Content))
  fetch_manifests [] = pure []
  fetch_manifests (b ∷ bs) =
      if has_storage b
      then (do
        content ← call (bootstrap_fetch b.name) (sv.get_object b.name b.manifest_key)
        rest ← fetch_manifests bs
        pure (record { bucket = b.name; content = content } ∷ rest))
      else fetch_manifests bs

  -- `fmt.Errorf("resolver: bootstrap: initial reconcile: %w", err)`
  abbrev pub wrap_reconcile :
      Result (ResolverError Error) (Unit {0}) × State World
      → Result (ResolverError Error) (Unit {0}) × State World
  wrap_reconcile (ok u, s) = (ok u, s)
  wrap_reconcile (err e, s) = (err (bootstrap_reconcile e), s)

  unfoldable pub reconcile : Action World Error (Unit {0})
  unfolding sync_registry
  reconcile s = wrap_reconcile (sync_registry s)

  unfoldable pub bootstrap : Action World Error (Unit {0})
  unfolding fetch_manifests reconcile
  bootstrap = do
    manifests ← fetch_manifests buckets
    update (load_manifests sv.decoder manifests)
    reconcile

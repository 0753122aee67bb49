-- ===== src/Resolver/Booted.antt =====
-- Bootstrap: the catalog behind LoadManifests and the first reconcile.
use parparchik.Common.{String, Option, none, some, subst, List, [], ◌∷◌, All, ◌==◌}
use parparchik.Common.{Bool-cases, Option-cases, inl, inr, if◌then◌else◌}
use parparchik.Common.Results.{Result, ok, err, OnOk, OnOk-both}
use parparchik.Config.{Bucket, has_storage}
use parparchik.Catalog.{
  Catalog, Entry, Decoder, BucketManifest, load_item, load_files, load_manifest, load_each,
  load_manifests, decode_manifest_files,
}
use parparchik.Catalog.Routes.{IsBucketName}
use parparchik.Catalog.Invariant.{IsWellFormed}
use parparchik.Catalog.Preservation.{register-IsWellFormed, clear-IsWellFormed}
use parparchik.Resolver.Actions.{Services, State, ResolverError, ◌>>=◌, update}
use parparchik.Resolver.Persist.{
  sync_registry, fetch_manifests, wrap_reconcile, reconcile, bootstrap,
}
use parparchik.Resolver.Keeps.{
  Keeps, Keeps-bind, Keeps-update, Keeps-pure, Keeps-call, Keeps-if, Yields, Yields-bind,
  Yields-any, Yields-pure, Yields-if, Keeps-continue_yields,
}
use parparchik.Resolver.Moving.{sync_registry-Keeps}
use parparchik.Resolver.Sound.{HasBucketNames, IsWellFormed-IsClosed}

abbrev pub listed_files : Option (List Entry) → List Entry
listed_files none = []
listed_files (some files) = files

-- The bucket that an item of the manifest names, if any, is free of slashes.
abbrev pub NamesBuckets : {Content : Type 0} → Decoder Content → BucketManifest Content → Type 0
NamesBuckets d m =
    All (λ item. IsBucketName item.bucket) (listed_files (decode_manifest_files d m.content))

load_item-IsWellFormed :
    (b : String) (item : Entry) (c : Catalog)
    → IsBucketName b
    → IsBucketName item.bucket
    → IsWellFormed c
    → IsWellFormed (load_item b item c)
unfolding load_item
load_item-IsWellFormed b item c named own w = elim (Bool-cases (item.key == "")) [
  | inl no_key ↦ rw (no_key, if◌then◌else◌) w
  | inr keyed ↦ elim (Bool-cases (item.bucket == "")) [
    | inl unnamed ↦
        rw (keyed, unnamed, if◌then◌else◌)
          (register-IsWellFormed item.key b item.size item.last_modified c named w)
    | inr by_item ↦
        rw (keyed, by_item, if◌then◌else◌)
          (register-IsWellFormed item.key item.bucket item.size item.last_modified c own w)
  ]
]

load_files-IsWellFormed :
    (b : String) (files : List Entry) (c : Catalog)
    → IsBucketName b
    → All (λ item. IsBucketName item.bucket) files
    → IsWellFormed c
    → IsWellFormed (load_files b files c)
unfolding load_files
load_files-IsWellFormed b [] c named own w = w
load_files-IsWellFormed b (item ∷ files) c named own w =
    load_files-IsWellFormed b files _ named own.1 (load_item-IsWellFormed b item c named own.0 w)

module _ {Content : Type 0} (d : Decoder Content) where
  load_manifest-IsWellFormed :
      (m : BucketManifest Content) (c : Catalog)
      → IsBucketName m.bucket
      → NamesBuckets d m
      → IsWellFormed c
      → IsWellFormed (load_manifest d m c)
  unfolding load_manifest
  load_manifest-IsWellFormed m c named own w = elim (Bool-cases (d.is_empty m.content)) [
    | inl empty ↦ rw (empty, if◌then◌else◌) w
    | inr full ↦ elim (Option-cases (decode_manifest_files d m.content)) [
      | inl unreadable ↦ rw (full, unreadable, if◌then◌else◌) w
      | inr (files, read) ↦
          let items : All (λ (item : Entry). IsBucketName item.bucket) files =
            subst (λ o. All (λ (item : Entry). IsBucketName item.bucket) (listed_files o)) read
              own in
          rw (full, read, if◌then◌else◌) (load_files-IsWellFormed m.bucket files c named items w)
    ]
  ]

  load_each-IsWellFormed :
      (ms : List (BucketManifest Content)) (c : Catalog)
      → All (λ m. IsBucketName m.bucket) ms
      → All (NamesBuckets d) ms
      → IsWellFormed c
      → IsWellFormed (load_each d ms c)
  unfolding load_each
  load_each-IsWellFormed [] c named own w = w
  load_each-IsWellFormed (m ∷ ms) c named own w =
      load_each-IsWellFormed ms _ named.1 own.1 (load_manifest-IsWellFormed m c named.0 own.0 w)

module _ {World Content Error : Type 0} (sv : Services World Content Error)
    (buckets : List Bucket) where
  fetch_manifests-Keeps : (bs : List Bucket) → Keeps IsWellFormed (fetch_manifests sv buckets bs)
  unfolding fetch_manifests
  fetch_manifests-Keeps [] = Keeps-pure []
  fetch_manifests-Keeps (b ∷ bs) =
      Keeps-if (has_storage b) _ _
        (Keeps-bind _ _ (Keeps-call _ _)
          λ content. Keeps-bind _ _ (fetch_manifests-Keeps bs) (λ rest. Keeps-pure _))
        (fetch_manifests-Keeps bs)

  fetch_manifests-Yields :
      (bs : List Bucket)
      → HasBucketNames bs
      → Yields (λ ms. All (λ m. IsBucketName m.bucket) ms) (fetch_manifests sv buckets bs)
  unfolding fetch_manifests
  fetch_manifests-Yields [] named = Yields-pure _ [] tt
  fetch_manifests-Yields (b ∷ bs) named =
      Yields-if _ (has_storage b) _ _
        (Yields-bind (λ _. Unit {0}) _ _ _ (Yields-any _)
          λ content _.
            Yields-bind (λ ms. All (λ m. IsBucketName m.bucket) ms) _ _ _
              (fetch_manifests-Yields bs named.1) (λ rest h. Yields-pure _ _ (named.0, h)))
        (fetch_manifests-Yields bs named.1)

module _ {World Content Error : Type 0} (sv : Services World Content Error) (buckets : List Bucket)
    (named : HasBucketNames buckets) where
  reconcile-Keeps : Keeps IsWellFormed (reconcile sv buckets)
  unfolding reconcile
  reconcile-Keeps = record {
    at = λ s w.
        kept (sync_registry sv buckets s)
          ((sync_registry-Keeps sv buckets IsWellFormed-IsClosed named).at s w);
  }
    where
      kept :
          (p : Result (ResolverError Error) (Unit {0}) × State World)
          → IsWellFormed p.1.catalog
          → IsWellFormed (wrap_reconcile sv buckets p).1.catalog
      kept (ok u, s) w = w
      kept (err e, s) w = w

  load_and_reconcile-Keeps :
      (ms : List (BucketManifest Content))
      → All (λ m. IsBucketName m.bucket) ms × All (NamesBuckets sv.decoder) ms
      → Keeps IsWellFormed (update (load_manifests sv.decoder ms) >>= λ _. reconcile sv buckets)
  unfolding load_manifests
  load_and_reconcile-Keeps ms (names, own) =
      Keeps-bind _ _
        (Keeps-update _
          (λ c w. load_each-IsWellFormed sv.decoder ms _ names own (clear-IsWellFormed c)))
        (λ _. reconcile-Keeps)

  -- In a state where the manifests that the fetches hand over, if none of them fails, name buckets
  -- free of slashes.
  pub bootstrap-IsWellFormed :
      (s : State World)
      → OnOk (All (NamesBuckets sv.decoder)) (fetch_manifests sv buckets buckets s).0
      → IsWellFormed s.catalog
      → IsWellFormed (bootstrap sv buckets s).1.catalog
  unfolding bootstrap ◌>>=◌
  bootstrap-IsWellFormed s own w =
      Keeps-continue_yields _ (fetch_manifests sv buckets buckets s) _
        ((fetch_manifests-Keeps sv buckets buckets).at s w)
        (OnOk-both _ _ _ ((fetch_manifests-Yields sv buckets buckets named).at s) own)
        load_and_reconcile-Keeps

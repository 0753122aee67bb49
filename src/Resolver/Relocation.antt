-- ===== src/Resolver/Relocation.antt =====
-- resolver.go: Relocate.
use parparchik.Common.{String, ℕ, suc, Option, none, some, List, [], ◌∷◌, Bool, ◌==◌, ltb}
use parparchik.Common.{if◌then◌else◌}
use parparchik.Common.Results.{ok, err}
use parparchik.Config.{Bucket, has_storage}
use parparchik.Catalog.{Entry, set, remove, lookup}
use parparchik.Resolver.Actions.{
  Object, Services, relocate_check, relocate_persist, file_not_found, Action, pure, ◌>>=◌, ◌>>◌,
  update, call, modify, raise,
}
use parparchik.Resolver.Persist.{persist_manifests, persist_quietly}
use parparchik.Resolver.Missing.{entry_or_zero}

pub record RelocateResult : Type 0 where
  pub entry : Entry
  pub relocated_from : String
  pub relocated_to : String
  pub duplicate : Bool

-- The variables of the loop: targetBucket, targetObj and foundCount.
pub record Target : Type 0 where
  pub bucket : String
  pub obj : Option Object
  pub found_count : ℕ

abbrev pub no_target : Target
no_target = record { bucket = ""; obj = none; found_count = 0 }

-- A bucket that has the file: the first one is the target.
unfoldable pub note_hit : String → Object → Target → Target
note_hit bucket obj t =
    if t.bucket == ""
    then record { bucket = bucket; obj = some obj; found_count = suc t.found_count }
    else record t { found_count = suc t.found_count }

-- The moved file's old and new bucket, both "" where it did not move.
unfoldable pub result_of : Option Entry → String → ℕ → Entry → RelocateResult
result_of none target found_count entry = record {
  entry = entry;
  relocated_from = "";
  relocated_to = "";
  duplicate = ltb 1 found_count;
}
result_of (some previous) target found_count entry =
    if previous.bucket == target
    then record {
      entry = entry;
      relocated_from = "";
      relocated_to = "";
      duplicate = ltb 1 found_count;
    }
    else record {
      entry = entry;
      relocated_from = previous.bucket;
      relocated_to = target;
      duplicate = ltb 1 found_count;
    }

module _ {World Content Error : Type 0} (sv : Services World Content Error)
    (buckets : List Bucket) where
  unfoldable pub find_copies : String → List Bucket → Target → Action World Error Target
  unfolding note_hit
  find_copies filename [] t = pure t
  find_copies filename (b ∷ bs) t =
      if has_storage b
      then (do
        found ← call (relocate_check b.name) (sv.head_object b.name filename)
        find_copies filename bs (elim found [ none ↦ t | some obj ↦ note_hit b.name obj t ]))
      else find_copies filename bs t

  unfoldable pub persist_or_fail : Action World Error (Unit {0})
  persist_or_fail s =
      let (errors, s') = persist_manifests sv buckets s in
      (elim errors [ [] ↦ ok tt | e ∷ es ↦ err (relocate_persist (e ∷ es)) ], s')

  unfoldable pub not_found : String → Action World Error RelocateResult
  not_found filename = do update (remove filename); persist_quietly sv buckets; raise file_not_found

  unfoldable pub move_to : String → String → ℕ → Object → Action World Error RelocateResult
  unfolding persist_or_fail result_of
  move_to filename target found_count obj = do
    previous ← modify (λ s. (lookup filename s.catalog, s))
    update (set filename target obj.size obj.last_modified)
    persist_or_fail
    entry ← modify (λ s. (entry_or_zero (lookup filename s.catalog), s))
    pure (result_of previous target found_count entry)

  -- `foundCount == 0` exactly where no object was noted.
  unfoldable pub finish : String → Target → Action World Error RelocateResult
  unfolding not_found move_to
  finish filename t = elim t.obj [
    | none ↦ not_found filename
    | some obj ↦ move_to filename t.bucket t.found_count obj
  ]

  unfoldable pub relocate : String → Action World Error RelocateResult
  unfolding find_copies finish
  relocate filename = do t ← find_copies filename buckets no_target; finish filename t

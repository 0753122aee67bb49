-- ===== src/Resolver/Missing.antt =====
-- resolver.go: ResolveMissingFile, resolveMissingFileByType, Exists and registerResolvedObject.
-- A `*catalog.Entry` is an Option; `entry, _ := Lookup(key)` behind a Set keeps the zero Entry.
use parparchik.Common.{
  String, Option, none, some, List, [], ◌∷◌, Bool, true, false, ◌==◌, not, ◌||◌,
}
use parparchik.Common.{if◌then◌else◌}
use parparchik.Common.Int.{ℤ}
use parparchik.Common.Results.{Result, ok, err}
use parparchik.Config.{Bucket, has_storage}
use parparchik.Catalog.{Entry, zero_entry, register, set, remove, lookup}
use parparchik.Resolver.Actions.{
  Object, Services, missing_head, typed_head, Action, pure, ◌>>=◌, ◌>>◌, update, call, modify,
  with_state,
}
use parparchik.Resolver.Persist.{persist_quietly}

abbrev pub entry_or_zero : Option Entry → Entry
entry_or_zero none = zero_entry
entry_or_zero (some e) = e

abbrev pub same_flag : Bool → Bool → Bool
same_flag true b = b
same_flag false b = not b

-- The entry that is left for `key`, if its bucket is the given one.
abbrev pub owned_by : String → Option Entry → Option Entry
owned_by bucket none = none
owned_by bucket (some e) = if e.bucket == bucket then some e else none

-- A failed check counts as absent, and is only logged.
unfoldable pub is_present : {Error : Type 0} → Result Error (Option Object) → Bool
is_present (ok (some obj)) = true
is_present (ok none) = false
is_present (err e) = false

module _ {World Content Error : Type 0} (sv : Services World Content Error)
    (buckets : List Bucket) where
  -- The branch of a hit, which two searches share: Set, persist, and look the entry up.
  unfoldable pub settle : String → String → Object → Action World Error (Option Entry)
  unfolding persist_quietly
  settle key bucket obj = do
    update (set key bucket obj.size obj.last_modified)
    persist_quietly sv buckets
    with_state (λ s. pure (some (entry_or_zero (lookup key s.catalog))))

  -- The loop of ResolveMissingFile over the buckets that are left, and what follows it.
  unfoldable pub search_missing : String → List Bucket → Action World Error (Option Entry)
  unfolding settle persist_quietly
  search_missing key [] = do update (remove key); persist_quietly sv buckets; pure none
  search_missing key (b ∷ bs) =
      if has_storage b
      then (do
        found ← call (missing_head b.name) (sv.head_object b.name key)
        elim found [ some obj ↦ settle key b.name obj | none ↦ search_missing key bs ])
      else search_missing key bs

  unfoldable pub resolve_missing_file : String → Action World Error (Option Entry)
  unfolding search_missing
  resolve_missing_file key = search_missing key buckets

  -- The loop of resolveMissingFileByType.
  unfoldable pub search_by_type : String → Bool → List Bucket → Action World Error (Option Entry)
  unfolding settle
  search_by_type key public [] = pure none
  search_by_type key public (b ∷ bs) =
      if not (has_storage b) || not (same_flag b.public public)
      then search_by_type key public bs
      else (do
        found ← call (typed_head b.name) (sv.head_object b.name key)
        elim found [ some obj ↦ settle key b.name obj | none ↦ search_by_type key public bs ])

  unfoldable pub resolve_missing_file_by_type : String → Bool → Action World Error (Option Entry)
  unfolding search_by_type
  resolve_missing_file_by_type key public = search_by_type key public buckets

  unfoldable pub exists : String → String → Action World Error Bool
  unfolding is_present
  exists bucket key = modify (λ s.
      let (result, w) = sv.head_object bucket key s.world in
      (is_present result, record s { world = w }))

  unfoldable pub register_resolved_object :
      String → String → ℤ → String → Bool → Action World Error (Option Entry)
  unfolding persist_quietly
  register_resolved_object bucket key size last_modified persist = do
    update (register key bucket size last_modified)
    if persist then persist_quietly sv buckets else pure tt
    with_state (λ s. pure (owned_by bucket (lookup key s.catalog)))

-- ===== src/Resolver/Searches.antt =====
-- ResolveMissingFile against a search over the buckets.
use parparchik.Common.{String, Option, none, some, List, [], ◌∷◌, ◌≡◌, refl, sym, ap, ◌∙◌, subst}
use parparchik.Common.{true, false, arith, eq_refl, if◌then◌else◌}
use parparchik.Common.Results.{Result, ok, err}
use parparchik.Config.{Bucket, has_storage}
use parparchik.Catalog.{Catalog, Entry, entry_for, lookup, set, remove}
use parparchik.Catalog.Owners.{lookup-set}
use parparchik.Resolver.Actions.{Object, Services, State, ResolverError, missing_head, ◌>>=◌}
use parparchik.Resolver.Missing.{settle, search_missing, resolve_missing_file, entry_or_zero}
use parparchik.Resolver.Closure.{catalog-persist_quietly}
use parparchik.Resolver.Hits.{Hit, Outcome, Search, done, skipped, missed, found, failed}

-- What a search that ends so makes of the catalog `c`, and what is returned.
abbrev pub IsSettled :
    {Error : Type 0}
    → String
    → Catalog
    → Outcome Error
    → Result (ResolverError Error) (Option Entry)
    → Catalog
    → Type 0
IsSettled key c (ok none) r c' = (r ≡ ok none) × (c' ≡ remove key c)
IsSettled key c (ok (some h)) r c' =
    (r ≡ ok (some (entry_for c key h.bucket h.obj.size h.obj.last_modified)))
    × (c' ≡ set key h.bucket h.obj.size h.obj.last_modified c)
IsSettled key c (err (bucket, e)) r c' = (r ≡ err (missing_head bucket e)) × (c' ≡ c)

module _ {World Content Error : Type 0} (sv : Services World Content Error)
    (buckets : List Bucket) where
  -- One round of the loop, for each answer.
  search_skip :
      (key : String) (b : Bucket) (bs : List Bucket) (s : State World)
      → has_storage b ≡ false
      → search_missing sv buckets key (b ∷ bs) s ≡ search_missing sv buckets key bs s
  unfolding search_missing
  search_skip key b bs s skip = rw (skip, if◌then◌else◌)

  search_answer :
      (key : String) (b : Bucket) (bs : List Bucket) (s : State World) (o : Option Object)
      (w : World)
      → has_storage b ≡ true
      → sv.head_object b.name key s.world ≡ (ok o, w)
      → search_missing sv buckets key (b ∷ bs) s
        ≡ (elim o
              as (λ x. State World → Result (ResolverError Error) (Option Entry) × State World) [
                | some obj ↦ settle sv buckets key b.name obj
                | none ↦ search_missing sv buckets key bs
              ])
            (record s { world = w })
  unfolding search_missing ◌>>=◌
  search_answer key b bs s o w stored answer = rw (stored, answer, if◌then◌else◌)

  search_error :
      (key : String) (b : Bucket) (bs : List Bucket) (s : State World) (e : Error) (w : World)
      → has_storage b ≡ true
      → sv.head_object b.name key s.world ≡ (err e, w)
      → search_missing sv buckets key (b ∷ bs) s
        ≡ (err (missing_head b.name e), record s { world = w })
  unfolding search_missing ◌>>=◌
  search_error key b bs s e w stored answer = rw (stored, answer, if◌then◌else◌)

  settle_gives :
      (key bucket : String) (obj : Object) (s : State World)
      → (settle sv buckets key bucket obj s).0
        ≡ ok (some (entry_for s.catalog key bucket obj.size obj.last_modified))
  unfolding settle ◌>>=◌
  settle_gives key bucket obj s =
      let s' = record s { catalog = set key bucket obj.size obj.last_modified s.catalog } in
      ap (λ c. ok (some (entry_or_zero (lookup key c)))) (catalog-persist_quietly sv buckets s')
      ∙ ap (λ o. ok (some (entry_or_zero o)))
          (lookup-set key bucket obj.size obj.last_modified s.catalog key)
      ∙ ground (arith, eq_refl key)

  settle_leaves :
      (key bucket : String) (obj : Object) (s : State World)
      → (settle sv buckets key bucket obj s).1.catalog
        ≡ set key bucket obj.size obj.last_modified s.catalog
  unfolding settle ◌>>=◌
  settle_leaves key bucket obj s = catalog-persist_quietly sv buckets _

  abbrev IsSearched :
      String
      → State World
      → Outcome Error
      → Result (ResolverError Error) (Option Entry) × State World
      → Type 0
  IsSearched key s o r = IsSettled key s.catalog o r.0 r.1.catalog

  search_end :
      (key : String) (s : State World)
      → IsSearched key s (ok none) (search_missing sv buckets key [] s)
  unfolding search_missing ◌>>=◌
  search_end key s = (refl, catalog-persist_quietly sv buckets _)

  search_found :
      (key : String) (b : Bucket) (bs : List Bucket) (s : State World) (obj : Object) (w : World)
      → has_storage b ≡ true
      → sv.head_object b.name key s.world ≡ (ok (some obj), w)
      → IsSearched key s
          (ok (some (record { bucket = b.name; obj = obj })))
          (search_missing sv buckets key (b ∷ bs) s)
  search_found key b bs s obj w stored answer =
      let h : Hit = record { bucket = b.name; obj = obj } in
      subst (IsSearched key s (ok (some h)))
        (sym (search_answer key b bs s (some obj) w stored answer))
        (settle_gives _ _ _ _, settle_leaves _ _ _ _)

  search_missing_lem :
      {key : String} {bs : List Bucket} {w w' : World} {o : Outcome Error}
      → Search sv key bs w o w'
      → (s : State World)
      → IsSearched key s o (search_missing sv buckets key bs (record s { world = w }))
  search_missing_lem {key} done s = search_end key (record s { world = _ })
  search_missing_lem {key} (skipped skip rest) s =
      subst (IsSearched key s _) (sym (search_skip _ _ _ _ skip)) (search_missing_lem rest s)
  search_missing_lem {key} (missed stored answer rest) s =
      subst (IsSearched key s _)
        (sym (search_answer _ _ _ (record s { world = _ }) none _ stored answer))
        (search_missing_lem rest s)
  search_missing_lem {key} (found stored answer) s =
      search_found _ _ _ (record s { world = _ }) _ _ stored answer
  search_missing_lem {key} (failed stored answer) s =
      subst (IsSearched key s (err _))
        (sym (search_error _ _ _ (record s { world = _ }) _ _ stored answer)) (refl, refl)

  -- ResolveMissingFile, where the search over the configured buckets ends as `o` says: with the
  -- first bucket with storage that has the key, it returns the entry of that bucket and leaves the
  -- catalog with the key set to it; with none, it returns no entry and removes the key; with the
  -- error of a bucket, it returns that error and leaves the catalog as it was.
  pub resolve_missing_file_first :
      (key : String) (s : State World) (o : Outcome Error) (w : World)
      → Search sv key buckets s.world o w
      → IsSettled key s.catalog o
          (resolve_missing_file sv buckets key s).0
          (resolve_missing_file sv buckets key s).1.catalog
  unfolding resolve_missing_file
  resolve_missing_file_first key s o w ran = search_missing_lem ran s

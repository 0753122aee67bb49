-- ===== src/Resolver/Relocated.antt =====
-- Relocate against a walk over the buckets: the catalog behind it and the report.
use parparchik.Common.{
  String, ℕ, suc, Option, none, some, List, [], ◌∷◌, ◌≡◌, ◌≢◌, refl, sym, ap, ◌∙◌, subst, ◌+◌,
}
use parparchik.Common.{
  Bool-cases, inl, inr, true, false, arith, eq_iff, eq_refl, if◌then◌else◌, ◌==◌, ltb, All, length,
}
use parparchik.Common.Results.{Result, ok, err}
use parparchik.Config.{Bucket, has_storage}
use parparchik.Catalog.{Catalog, Entry, entry_for, lookup, set, remove}
use parparchik.Catalog.Owners.{lookup-set}
use parparchik.Resolver.Actions.{
  Object, Services, State, ResolverError, file_not_found, relocate_persist, ◌>>=◌, pure, continue,
}
use parparchik.Resolver.Persist.{persist_quietly, persist_manifests}
use parparchik.Resolver.Missing.{entry_or_zero}
use parparchik.Resolver.Relocation.{
  RelocateResult, Target, no_target, note_hit, result_of, find_copies, persist_or_fail, not_found,
  move_to, finish, relocate,
}
use parparchik.Resolver.Closure.{catalog-persist_each}
use parparchik.Resolver.Hits.{Hit, Walk, walked, passed, lacking, having}

abbrev note_hits : List Hit → Target → Target
note_hits [] t = t
note_hits (h ∷ hs) t = note_hits hs (note_hit h.bucket h.obj t)

-- A hit after the first one only counts.
note_later :
    (h : Hit) (t : Target)
    → t.bucket ≢ ""
    → note_hit h.bucket h.obj t ≡ record t { found_count = suc t.found_count }
unfolding note_hit
note_later h t named = ground (arith, eq_iff t.bucket "")

later_hits :
    (hs : List Hit) (t : Target)
    → t.bucket ≢ ""
    → note_hits hs t ≡ record t { found_count = t.found_count + length hs }
later_hits [] t named = ground arith
later_hits (h ∷ hs) t named =
    ap (note_hits hs) (note_later h t named)
    ∙ later_hits hs (record t { found_count = suc t.found_count }) named
    ∙ ap (λ n. record t { found_count = n }) (omega arith)

first_hit :
    (h : Hit) (hs : List Hit)
    → h.bucket ≢ ""
    → note_hits (h ∷ hs) no_target
      ≡ record { bucket = h.bucket; obj = some h.obj; found_count = suc (length hs) }
unfolding note_hit
first_hit h hs named =
    later_hits hs (record { bucket = h.bucket; obj = some h.obj; found_count = 1 }) named
    ∙ ap (λ n. record { bucket = h.bucket; obj = some h.obj; found_count = n }) (omega arith)

-- What is reported of a move: from the bucket that had the key in the catalog, if it is another.
abbrev pub IsMove : Option Entry → String → RelocateResult → Type 0
IsMove none target res = (res.relocated_from ≡ "") × (res.relocated_to ≡ "")
IsMove (some e) target res =
    (e.bucket ≡ target → (res.relocated_from ≡ "") × (res.relocated_to ≡ ""))
    × (e.bucket ≢ target → (res.relocated_from ≡ e.bucket) × (res.relocated_to ≡ target))

result_of-IsMove :
    (previous : Option Entry) (target : String) (n : ℕ) (e : Entry)
    → IsMove previous target (result_of previous target n e)
unfolding result_of
result_of-IsMove none target n e = (refl, refl)
result_of-IsMove (some p) target n e = (
  λ same. ground (arith, same, eq_iff p.bucket target),
  λ other. ground (arith, other, eq_iff p.bucket target),
)

result_of-entry :
    (previous : Option Entry) (target : String) (n : ℕ) (e : Entry)
    → ((result_of previous target n e).entry ≡ e)
      × ((result_of previous target n e).duplicate ≡ ltb 1 n)
unfolding result_of
result_of-entry none target n e = (refl, refl)
result_of-entry (some p) target n e = elim (Bool-cases (p.bucket == target)) [
  | inl same ↦ ground (arith, same)
  | inr other ↦ ground (arith, other)
]

module _ {World Content Error : Type 0} (sv : Services World Content Error)
    (buckets : List Bucket) where
  copies_skip :
      (key : String) (b : Bucket) (bs : List Bucket) (t : Target) (s : State World)
      → has_storage b ≡ false
      → find_copies sv buckets key (b ∷ bs) t s ≡ find_copies sv buckets key bs t s
  unfolding find_copies pure
  copies_skip key b bs t s skip = rw (skip, if◌then◌else◌)

  copies_answer :
      (key : String) (b : Bucket) (bs : List Bucket) (t : Target) (s : State World)
      (o : Option Object) (w : World)
      → has_storage b ≡ true
      → sv.head_object b.name key s.world ≡ (ok o, w)
      → find_copies sv buckets key (b ∷ bs) t s
        ≡ find_copies sv buckets key bs
            (elim o [ none ↦ t | some obj ↦ note_hit b.name obj t ])
            (record s { world = w })
  unfolding find_copies ◌>>=◌
  copies_answer key b bs t s o w stored answer = rw (stored, answer, if◌then◌else◌)

  find_copies_lem :
      {key : String} {bs : List Bucket} {w w' : World} {hits : List Hit}
      → Walk sv key bs w hits w'
      → (t : Target) (s : State World)
      → find_copies sv buckets key bs t (record s { world = w })
        ≡ (ok (note_hits hits t), record s { world = w' })
  unfolding find_copies pure
  find_copies_lem walked t s = refl
  find_copies_lem (passed skip walk) t s = copies_skip _ _ _ _ _ skip ∙ find_copies_lem walk t s
  find_copies_lem (lacking stored answer walk) t s =
      copies_answer _ _ _ _ (record s { world = _ }) none _ stored answer ∙ find_copies_lem walk t s
  find_copies_lem (having stored answer walk) t s =
      copies_answer _ _ _ _ (record s { world = _ }) (some _) _ stored answer
      ∙ find_copies_lem walk _ s

  -- What Relocate returns where the manifests then persist without an error, or with some.
  abbrev pub IsReported :
      String
      → Catalog
      → Hit
      → List Hit
      → List Error
      → Result (ResolverError Error) RelocateResult
      → Type 0
  IsReported key c h hs [] r =
      (res : RelocateResult) × (r ≡ ok res)
      × (res.entry ≡ entry_for c key h.bucket h.obj.size h.obj.last_modified)
      × (res.duplicate ≡ ltb 1 (length (h ∷ hs)))
      × IsMove (lookup key c) h.bucket res
  IsReported key c h hs (e ∷ es) r = r ≡ err (relocate_persist (e ∷ es))

  abbrev after_set : String → Hit → State World → State World
  after_set key h s = record s {
    catalog = set key h.bucket h.obj.size h.obj.last_modified s.catalog;
  }

  persist_or_fail_lem :
      (s s' : State World) (errors : List Error)
      → persist_manifests sv buckets s ≡ (errors, s')
      → persist_or_fail sv buckets s
        ≡ (elim errors [ [] ↦ ok tt | e ∷ es ↦ err (relocate_persist (e ∷ es)) ], s')
  unfolding persist_or_fail
  persist_or_fail_lem s s' errors ran = rw (ran)

  entry_after :
      (key : String) (h : Hit) (s s' : State World) (errors : List Error)
      → persist_manifests sv buckets (after_set key h s) ≡ (errors, s')
      → entry_or_zero (lookup key s'.catalog)
        ≡ entry_for s.catalog key h.bucket h.obj.size h.obj.last_modified
  unfolding persist_manifests
  entry_after key h s s' errors ran =
      ap (λ c. entry_or_zero (lookup key c))
        (sym (ap (λ p. p.1.catalog) ran) ∙ catalog-persist_each sv buckets (after_set key h s))
      ∙ ap entry_or_zero (lookup-set key h.bucket h.obj.size h.obj.last_modified s.catalog key)
      ∙ ground (arith, eq_refl key)

  move_to_reports :
      (key : String) (h : Hit) (hs : List Hit) (s s' : State World) (errors : List Error)
      → persist_manifests sv buckets (after_set key h s) ≡ (errors, s')
      → IsReported key s.catalog h hs errors
          (move_to sv buckets key h.bucket (length (h ∷ hs)) h.obj s).0
  unfolding move_to ◌>>=◌
  move_to_reports key h hs s s' [] ran =
      let previous = lookup key s.catalog in
      let entry = entry_or_zero (lookup key s'.catalog) in
      let (same, dup) = result_of-entry previous h.bucket (length (h ∷ hs)) entry in
      (
        result_of previous h.bucket (length (h ∷ hs)) entry,
        rw (persist_or_fail_lem (after_set key h s) s' [] ran),
        same ∙ entry_after key h s s' [] ran,
        dup,
        result_of-IsMove previous h.bucket (length (h ∷ hs)) entry,
      )
  move_to_reports key h hs s s' (e ∷ es) ran =
      rw (persist_or_fail_lem (after_set key h s) s' (e ∷ es) ran)

  move_to_leaves :
      (key : String) (h : Hit) (n : ℕ) (s s' : State World) (errors : List Error)
      → persist_manifests sv buckets (after_set key h s) ≡ (errors, s')
      → (move_to sv buckets key h.bucket n h.obj s).1 ≡ s'
  unfolding move_to ◌>>=◌
  move_to_leaves key h n s s' [] ran = rw (persist_or_fail_lem (after_set key h s) s' [] ran)
  move_to_leaves key h n s s' (e ∷ es) ran =
      rw (persist_or_fail_lem (after_set key h s) s' (e ∷ es) ran)

  -- What Relocate returns and makes of the catalog, for the buckets that have the file.
  abbrev pub IsRelocated :
      String
      → State World
      → List Hit
      → Result (ResolverError Error) RelocateResult
      → Catalog
      → Type 0
  IsRelocated key s [] r c' = (r ≡ err file_not_found) × (c' ≡ remove key s.catalog)
  IsRelocated key s (h ∷ hs) r c' =
      IsReported key s.catalog h hs (persist_manifests sv buckets (after_set key h s)).0 r
      × (c' ≡ set key h.bucket h.obj.size h.obj.last_modified s.catalog)

  hits-named :
      {key : String} {bs : List Bucket} {w w' : World} {hits : List Hit}
      → Walk sv key bs w hits w'
      → All (λ b. b.name ≢ "") bs
      → All (λ h. h.bucket ≢ "") hits
  hits-named walked named = tt
  hits-named (passed skip walk) (n, named) = hits-named walk named
  hits-named (lacking stored answer walk) (n, named) = hits-named walk named
  hits-named (having stored answer walk) (n, named) = (n, hits-named walk named)

  abbrev IsDone :
      String
      → State World
      → List Hit
      → Result (ResolverError Error) RelocateResult × State World
      → Type 0
  IsDone key s hits r = IsRelocated key s hits r.0 r.1.catalog

  finish_lem :
      (key : String) (s : State World) (hits : List Hit)
      → All (λ h. h.bucket ≢ "") hits
      → IsDone key s hits (finish sv buckets key (note_hits hits no_target) s)
  unfolding finish not_found ◌>>=◌ persist_quietly persist_manifests
  finish_lem key s [] named = (refl, catalog-persist_each sv buckets _)
  finish_lem key s (h ∷ hs) (n, named) =
      subst (λ t. IsDone key s (h ∷ hs) (finish sv buckets key t s)) (sym (first_hit h hs n))
        (
          move_to_reports key h hs s _ _ refl,
          ap (λ s'. s'.catalog) (move_to_leaves key h _ s _ _ refl)
              ∙ catalog-persist_each sv buckets (after_set key h s),
        )

  -- Relocate, where every bucket with storage answers whether it has the file and bucket names are
  -- not empty: with no bucket that has it, the answer is "file not found" and the key is removed;
  -- else the catalog has the key set to the first of them and, unless persisting fails, the result
  -- holds that entry, a duplicate mark exactly where a second bucket has the file, and the move from
  -- the bucket that the catalog named before, where that is another. If persisting fails, the error
  -- lists all failures.
  pub relocate_first :
      (key : String) (s : State World) (hits : List Hit) (w : World)
      → Walk sv key buckets s.world hits w
      → All (λ b. b.name ≢ "") buckets
      → IsRelocated key
          (record s { world = w })
          hits
          (relocate sv buckets key s).0
          (relocate sv buckets key s).1.catalog
  unfolding relocate ◌>>=◌
  relocate_first key s hits w walk named =
      subst (IsDone key (record s { world = w }) hits)
        (sym (ap (λ r. continue r (finish sv buckets key)) (find_copies_lem walk no_target s)))
        (finish_lem key (record s { world = w }) hits (hits-named walk named))

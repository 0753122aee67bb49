-- ===== src/Replication/Pulled.antt =====
-- Pull: the account of the entries of the remote manifest, and the catalog behind it.
use parparchik.Common.{String, ℕ, suc, ◌+◌, List, [], ◌∷◌, ◌++◌, ◌≡◌, refl, arith, ap, ap₂, ◌∙◌}
use parparchik.Common.{Bool-cases, inl, inr, length, length-append, map, if◌then◌else◌}
use parparchik.Common.Int.{pos}
use parparchik.Common.Results.{ok, Result-cases}
use parparchik.Catalog.{Entry}
use parparchik.Catalog.Routes.{IsBucketName}
use parparchik.Catalog.Invariant.{IsWellFormed}
use parparchik.Catalog.Preservation.{register-IsWellFormed}
use parparchik.Replication.Puller.{
  Remote, PullError, manifest_error, fetch_error, store_error, PullResult, PullState,
  already_up_to_date, store_entry, pull_entry, pull_each, pull,
}

module _ {Error : Type 0} where
  -- The keys that the result names.
  abbrev pub total : PullResult Error → ℕ
  total r = length r.pulled + length r.skipped + length r.failed

  abbrev pub error_key : PullError Error → String
  error_key (manifest_error e) = ""
  error_key (fetch_error key e) = key
  error_key (store_error key e) = key

  -- One error for each failed key, in the same order.
  abbrev pub IsAligned : PullResult Error → Type 0
  IsAligned r = map error_key r.errors ≡ r.failed

  map-append :
      (xs ys : List (PullError Error))
      → map error_key (xs ++ ys) ≡ map error_key xs ++ map error_key ys
  map-append [] ys = refl
  map-append (x ∷ xs) ys = ap (λ t. error_key x ∷ t) (map-append xs ys)

  -- One entry more is accounted for.
  abbrev pub IsStep : PullResult Error → PullResult Error → Type 0
  IsStep r r' = (total r' ≡ suc (total r)) × (IsAligned r → IsAligned r')

  failed-IsStep :
      (key : String) (e : PullError Error) (r : PullResult Error)
      → error_key e ≡ key
      → IsStep r (record r { failed = r.failed ++ (key ∷ []); errors = r.errors ++ (e ∷ []) })
  failed-IsStep key e r same = (
    omega (arith, length-append r.failed (key ∷ [])),
    λ h. map-append r.errors (e ∷ []) ∙ ap₂ (λ a b. a ++ (b ∷ [])) h same,
  )

module _ {World Content Error : Type 0} (rm : Remote World Content Error) (target : String) where
  store_entry-IsStep :
      (e : Entry) (body : Content) (r : PullResult Error) (s : PullState World)
      → IsStep r (store_entry rm target e body (r, s)).0
  unfolding store_entry
  store_entry-IsStep e body r s =
      elim (Result-cases (rm.put_object target e.key body "" s.world).0) [
        | inl (u, stored) ↦
            rw (stored, store_entry) (omega (arith, length-append r.pulled (e.key ∷ [])), λ h. h)
        | inr (x, bad) ↦ rw (bad, store_entry) (failed-IsStep e.key (store_error e.key x) r refl)
      ]

  pull_entry-IsStep :
      (e : Entry) (r : PullResult Error) (s : PullState World)
      → IsStep r (pull_entry rm target e (r, s)).0
  unfolding pull_entry
  pull_entry-IsStep e r s = elim (Bool-cases (already_up_to_date target s.catalog e)) [
    | inl fresh ↦
        rw (fresh, if◌then◌else◌) (omega (arith, length-append r.skipped (e.key ∷ [])), λ h. h)
    | inr stale ↦ elim (Result-cases (rm.fetch_object e s.world).0) [
      | inl (body, got) ↦ rw (stale, got, if◌then◌else◌) (store_entry-IsStep e body r _)
      | inr (x, bad) ↦
          rw (stale, bad, if◌then◌else◌) (failed-IsStep e.key (fetch_error e.key x) r refl)
    ]
  ]

  pull_each_counts :
      (es : List Entry) (r : PullResult Error) (s : PullState World)
      → (total (pull_each rm target es (r, s)).0 ≡ length es + total r)
        × (IsAligned r → IsAligned (pull_each rm target es (r, s)).0)
  unfolding pull_each
  pull_each_counts [] r s = (omega arith, λ h. h)
  pull_each_counts (e ∷ es) r s =
      let (r', s') = pull_entry rm target e (r, s) in
      let (more, aligned) = pull_entry-IsStep e r s in
      let (rest, kept) = pull_each_counts es r' s' in
      (rest ∙ ap (λ n. length es + n) more ∙ omega arith, λ h. kept (aligned h))

  -- Where the remote answers with its manifest, Pull returns a result that accounts for every entry
  -- of it, whatever fails: pulled, skipped and failed keys are as many as the entries, and there is
  -- one error for each failed key, of that key and in the same order.
  pub pull_counts :
      (s : PullState World) (es : List Entry) (w : World)
      → rm.fetch_manifest s.world ≡ (ok es, w)
      → (r : PullResult Error) × ((pull rm target s).0 ≡ ok r)
        × (length r.pulled + length r.skipped + length r.failed ≡ length es)
        × (map error_key r.errors ≡ r.failed)
  unfolding pull
  pull_counts s es w answer =
      let start : PullResult Error = record {
        pulled = [];
        skipped = [];
        failed = [];
        errors = [];
      } in
      let behind : PullState World = record s { world = (rm.fetch_manifest s.world).1 } in
      let listed : (rm.fetch_manifest s.world).0 ≡ ok es = ap (λ p. p.0) answer in
      let (counts, aligned) = pull_each_counts es start behind in
      (
        (pull_each rm target es (start, behind)).0,
        rw (listed, pull),
        counts ∙ omega arith,
        aligned refl,
      )

-- The catalog after each step of Pull.
module _ {World Content Error : Type 0} (rm : Remote World Content Error) (target : String)
    (named : IsBucketName target) where
  store_entry-IsWellFormed :
      (e : Entry) (body : Content) (r : PullResult Error) (s : PullState World)
      → IsWellFormed s.catalog
      → IsWellFormed (store_entry rm target e body (r, s)).1.catalog
  unfolding store_entry
  store_entry-IsWellFormed e body r s w =
      elim (Result-cases (rm.put_object target e.key body "" s.world).0) [
        | inl (u, stored) ↦
            rw (stored, store_entry)
              (register-IsWellFormed e.key target (pos (rm.content_length body)) e.last_modified
                s.catalog named w)
        | inr (x, bad) ↦ rw (bad, store_entry) w
      ]

  pull_entry-IsWellFormed :
      (e : Entry) (r : PullResult Error) (s : PullState World)
      → IsWellFormed s.catalog
      → IsWellFormed (pull_entry rm target e (r, s)).1.catalog
  unfolding pull_entry
  pull_entry-IsWellFormed e r s w = elim (Bool-cases (already_up_to_date target s.catalog e)) [
    | inl fresh ↦ rw (fresh, if◌then◌else◌) w
    | inr stale ↦ elim (Result-cases (rm.fetch_object e s.world).0) [
      | inl (body, got) ↦ rw (stale, got, if◌then◌else◌) (store_entry-IsWellFormed e body r _ w)
      | inr (x, bad) ↦ rw (stale, bad, if◌then◌else◌) w
    ]
  ]

  pull_each-IsWellFormed :
      (es : List Entry) (r : PullResult Error) (s : PullState World)
      → IsWellFormed s.catalog
      → IsWellFormed (pull_each rm target es (r, s)).1.catalog
  unfolding pull_each
  pull_each-IsWellFormed [] r s w = w
  pull_each-IsWellFormed (e ∷ es) r s w =
      let (r', s') = pull_entry rm target e (r, s) in
      pull_each-IsWellFormed es r' s' (pull_entry-IsWellFormed e r s w)

  -- Pull keeps a well-formed catalog well formed, whatever the remote and the storage answer, where
  -- the name of the target bucket is free of slashes.
  pub pull-IsWellFormed :
      (s : PullState World) → IsWellFormed s.catalog → IsWellFormed (pull rm target s).1.catalog
  unfolding pull
  pull-IsWellFormed s w = elim (Result-cases (rm.fetch_manifest s.world).0) [
    | inl (es, got) ↦ rw (got, pull) (pull_each-IsWellFormed es _ _ w)
    | inr (x, bad) ↦ rw (bad, pull) w
  ]

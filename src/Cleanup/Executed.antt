-- ===== src/Cleanup/Executed.antt =====
-- Execute: its attempts on the victims, and the catalog behind them.
use parparchik.Common.{String, List, [], ◌∷◌, none, ◌≡◌, ◌⊎◌, inl, inr, refl, arith}
use parparchik.Common.{Member, Bool-cases, eq_iff, ◌==◌, ◌∙◌}
use parparchik.Common.Results.{Result, ok, err, Result-cases}
use parparchik.Common.{Bool, true, false, if◌then◌else◌}
use parparchik.Catalog.{Entry, lookup, remove}
use parparchik.Catalog.Owners.{lookup-remove}
use parparchik.Cleanup.Execute.{CleanupState, DeleteError, execute}

-- A victim of this key.
abbrev pub IsVictim : String → List Entry → Type 0
IsVictim key victims = (v : Entry) × Member v victims × (v.key ≡ key)

abbrev pub is_one_of : String → List String → Bool
is_one_of key [] = false
is_one_of key (k ∷ ks) = if k == key then true else is_one_of key ks

-- The error for a victim whose deletion fails so.
abbrev pub refused : {Error : Type 0} → Entry → Error → DeleteError Error
refused v e = record { bucket = v.bucket; key = v.key; cause = e }

module _ {World Error : Type 0}
    (delete_object : String → String → World → Result Error (Unit {0}) × World) where
  -- After Execute a key is looked up as before, or it is the key of a victim and is gone from the
  -- catalog, whatever the storage answers.
  pub executed_keys :
      (victims : List Entry) (s : CleanupState World) (key : String)
      → (lookup key (execute delete_object victims s).1.catalog ≡ lookup key s.catalog)
        ⊎ (IsVictim key victims × (lookup key (execute delete_object victims s).1.catalog ≡ none))
  unfolding execute
  executed_keys [] s key = inl refl
  executed_keys (v ∷ vs) s key = elim (Result-cases (delete_object v.bucket v.key s.world).0) [
    | inr (e, failed) ↦
        rw (failed, execute)
          (elim (executed_keys vs (record s { world = (delete_object v.bucket v.key s.world).1 })
            key) [
              | inl same ↦ inl same
              | inr ((x, m, named), absent) ↦ inr ((x, inr m, named), absent)
            ])
    | inl (u, gone) ↦
        let next : CleanupState World = record {
          catalog = remove v.key s.catalog;
          world = (delete_object v.bucket v.key s.world).1;
        } in
        rw (gone, execute)
          (elim (executed_keys vs next key) [
            | inr ((x, m, named), absent) ↦ inr ((x, inr m, named), absent)
            | inl same ↦ elim (Bool-cases (v.key == key)) [
              | inl mine ↦ inr (
                (v, inl refl, (eq_iff v.key key).0 mine),
                same ∙ lookup-remove v.key s.catalog key ∙ ground (arith, mine),
              )
              | inr other ↦ inl (same ∙ lookup-remove v.key s.catalog key ∙ ground (arith, other))
            ]
          ])
  ]

  -- One call of DeleteObject for each victim, in their order, on the world that the calls before it
  -- left: the victims, that world, the errors of the calls that failed, the keys of the victims whose
  -- call succeeded, and the world that the last call leaves.
  pub data Attempts
      : List Entry → World → List (DeleteError Error) → List String → World → Type 0 where
    finished : {w : World} → Attempts [] w [] [] w
    failed :
        {v : Entry} {vs : List Entry} {w w' : World} {errors : List (DeleteError Error)}
        {deleted : List String} {e : Error}
        → (delete_object v.bucket v.key w).0 ≡ err e
        → Attempts vs (delete_object v.bucket v.key w).1 errors deleted w'
        → Attempts (v ∷ vs) w (refused v e ∷ errors) deleted w'
    succeeded :
        {v : Entry} {vs : List Entry} {w w' : World} {errors : List (DeleteError Error)}
        {deleted : List String}
        → (delete_object v.bucket v.key w).0 ≡ ok tt
        → Attempts vs (delete_object v.bucket v.key w).1 errors deleted w'
        → Attempts (v ∷ vs) w errors (v.key ∷ deleted) w'

  -- Execute attempts every victim, whatever fails: each is handed to DeleteObject once, in order; a
  -- call that fails gives one error, with the bucket and the key of its victim and the cause, in the
  -- order of the victims; and exactly the keys of the victims whose call succeeds are gone from the
  -- catalog, every other key is looked up as before.
  pub executed_victims :
      (victims : List Entry) (s : CleanupState World) (key : String)
      → (deleted : List String) × Attempts victims s.world
          (execute delete_object victims s).0
          deleted
          (execute delete_object victims s).1.world
        × (lookup key (execute delete_object victims s).1.catalog
            ≡ (if is_one_of key deleted then none else lookup key s.catalog))
  unfolding execute
  executed_victims [] s key = ([], finished, refl)
  executed_victims (v ∷ vs) s key = elim (Result-cases (delete_object v.bucket v.key s.world).0) [
    | inr (e, answer) ↦
        let (deleted, attempts, looked) =
          executed_victims vs (record s { world = (delete_object v.bucket v.key s.world).1 }) key in
        rw (answer, execute) (deleted, failed answer attempts, looked)
    | inl (u, answer) ↦
        let next : CleanupState World = record {
          catalog = remove v.key s.catalog;
          world = (delete_object v.bucket v.key s.world).1;
        } in
        let (deleted, attempts, looked) = executed_victims vs next key in
        rw (answer, execute)
          (
            v.key ∷ deleted,
            succeeded answer attempts,
            looked ∙ ground (arith, lookup-remove v.key s.catalog key),
          )
  ]

-- ===== src/Cleanup/Execute.antt =====
-- execute.go. `objectstore.Store.DeleteObject` is a parameter; the text of an error names the bucket
-- and the key.
use parparchik.Common.{String, List, [], ◌∷◌}
use parparchik.Common.Results.{Result, ok, err}
use parparchik.Catalog.{Catalog, Entry, remove}

pub record CleanupState (World : Type 0) : Type 0 where
  pub catalog : Catalog
  pub world : World

pub record DeleteError (Error : Type 0) : Type 0 where
  pub bucket : String
  pub key : String
  pub cause : Error

module _ {World Error : Type 0}
    (delete_object : String → String → World → Result Error (Unit {0}) × World) where
  -- The loop of Execute: the errors, which errors.Join joins, and the state.
  unfoldable pub execute :
      List Entry → CleanupState World → List (DeleteError Error) × CleanupState World
  execute [] s = ([], s)
  execute (victim ∷ victims) s =
      let (result, w) = delete_object victim.bucket victim.key s.world in
      elim result [
        | err e ↦
            let (errors, s') = execute victims (record s { world = w }) in
            (record { bucket = victim.bucket; key = victim.key; cause = e } ∷ errors, s')
        | ok _ ↦ execute victims (record { catalog = remove victim.key s.catalog; world = w })
      ]

-- ===== src/Cleanup/Oldest.antt =====
-- The size rule's order of age, by which oldestFirst sorts and evicts.
use parparchik.Common.{List, [], ◌∷◌, false, ◌≡◌, ◌⊎◌, All, Member}
use parparchik.Common.Assoc
use parparchik.Catalog.{Entry}
use parparchik.Cleanup.Plan.{Ages, older}

module _ (ages : Ages) where
  -- No later entry is older.
  abbrev pub IsByAge : List Entry → Type 0
  IsByAge [] = Unit
  IsByAge (e ∷ es) = All (λ f. older ages f e ≡ false) es × IsByAge es

  -- The entry is older than none of the victims.
  abbrev pub IsOutlived : List Entry → Entry → Type 0
  IsOutlived victims s = All (λ v. older ages s v ≡ false) victims

  abbrev Spares : Entry → List Entry → Type 0
  Spares s victims = Member s victims ⊎ IsOutlived victims s

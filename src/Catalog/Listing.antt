-- ===== src/Catalog/Listing.antt =====
-- catalog.go: ListAll, ListByBucket, ManifestForBucket and Count.
use parparchik.Common.{String, ℕ, List, [], ◌∷◌, str_ltb, if◌then◌else◌, length, ◌==◌}
use parparchik.Common.Assoc
use parparchik.Catalog.Update.{Entry, Catalog}

-- `sort.Slice` by Key: the keys of a catalog differ, so every sort gives this list.
unfoldable pub insert_by_key : Entry → List Entry → List Entry
insert_by_key e [] = e ∷ []
insert_by_key e (f ∷ fs) = if str_ltb e.key f.key then e ∷ f ∷ fs else f ∷ insert_by_key e fs

unfoldable pub sort_by_key : List Entry → List Entry
unfolding insert_by_key
sort_by_key [] = []
sort_by_key (e ∷ es) = insert_by_key e (sort_by_key es)

unfoldable pub list_all : Catalog → List Entry
list_all c = sort_by_key (Assoc.values c.by_key)

unfoldable pub in_bucket : String → List Entry → List Entry
in_bucket bucket [] = []
in_bucket bucket (e ∷ es) =
    let rest = in_bucket bucket es in if e.bucket == bucket then e ∷ rest else rest

unfoldable pub list_by_bucket : String → Catalog → List Entry
list_by_bucket bucket c = in_bucket bucket (list_all c)

pub record Manifest : Type 0 where
  pub version : ℕ
  pub bucket : String
  pub files : List Entry

unfoldable pub manifest_for_bucket : String → Catalog → Manifest
manifest_for_bucket bucket c = record {
  version = 1;
  bucket = bucket;
  files = list_by_bucket bucket c;
}

unfoldable pub count : Catalog → ℕ
count c = length c.by_key

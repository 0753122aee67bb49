-- ===== src/Metrics/Examples.antt =====
-- The gauges for two files.
use parparchik.Common.{
  String, List, [], ◌∷◌, Option, none, some, ◌==◌, ◌≡◌, ◌≤◌, if◌then◌else◌, length,
}
use parparchik.Common.Assoc
use parparchik.Common.Int.{ℤ, pos}
use parparchik.Catalog.{Entry}
use parparchik.Metrics.Updating.{or_zero, update_gauges}
use parparchik.Metrics.Counted.{labelled, update_gauges_lem}

abbrev stamp : String → Option ℤ
stamp s =
    if s == "old" then some (pos 0) else if s == "new" then some (pos 2600000000000000) else none

abbrev upload : String → String → Entry
upload name time = record {
  key = name;
  bucket = "pub";
  bucket_type = "public";
  route = "";
  size = pos 1;
  last_modified = time;
}

abbrev uploads : List Entry
uploads = upload "a" "old" ∷ upload "b" "new" ∷ upload "c" "" ∷ []

update_gauges_lem_example :
    (or_zero
        (Assoc.lookup "pub" (update_gauges stamp (pos 2600000000000001) uploads 1).volume_files)
      ≡ labelled "pub" uploads)
    × ((update_gauges stamp (pos 2600000000000001) uploads 1).uploads_per_week
        ≤ (update_gauges stamp (pos 2600000000000001) uploads 1).uploads_per_month)
    × ((update_gauges stamp (pos 2600000000000001) uploads 1).uploads_per_month ≤ length uploads)
    × ((update_gauges stamp (pos 2600000000000001) uploads 1).duplicate_files ≡ 1)
update_gauges_lem_example = update_gauges_lem stamp (pos 2600000000000001) uploads 1 "pub"

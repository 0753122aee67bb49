-- ===== src/Replication/Examples.antt =====
-- A remote with three files, one of which it cannot deliver, and Pull from it.
use parparchik.Common.{
  String, ℕ, List, [], ◌∷◌, ◌≡◌, refl, arith, ◌+◌, length, map, if◌then◌else◌, ◌==◌,
}
use parparchik.Common.Int.{pos}
use parparchik.Common.Results.{ok, err}
use parparchik.Catalog.{Entry, new}
use parparchik.Catalog.Invariant.{IsWellFormed}
use parparchik.Catalog.Preservation.{new-IsWellFormed}
use parparchik.Replication.Puller.{Remote, PullResult, PullState, pull}
use parparchik.Replication.Pulled.{error_key, pull_counts, pull-IsWellFormed}

abbrev remote_file : String → Entry
remote_file name = record {
  key = name;
  bucket = "far";
  bucket_type = "public";
  route = "";
  size = pos 1;
  last_modified = "2026-01-01T00:00:00Z";
}

abbrev remote_files : List Entry
remote_files = remote_file "a" ∷ remote_file "lost" ∷ remote_file "b" ∷ []

abbrev remote : Remote ℕ ℕ ℕ
remote = record {
  fetch_manifest = λ w. (ok remote_files, w);
  fetch_object = λ e w. (if e.key == "lost" then err 500 else ok 3, w);
  put_object = λ bucket key body content_type w. (ok tt, w + 1);
  content_length = λ c. c;
}

abbrev local : PullState ℕ
local = record { catalog = new (λ b. 0) (λ b. "private"); world = 0 }

pull_counts_example :
    (r : PullResult ℕ) × ((pull remote "near" local).0 ≡ ok r)
    × (length r.pulled + length r.skipped + length r.failed ≡ length remote_files)
    × (map error_key r.errors ≡ r.failed)
pull_counts_example = pull_counts remote "near" local remote_files 0 refl

pull-IsWellFormed_example : IsWellFormed (pull remote "near" local).1.catalog
pull-IsWellFormed_example =
    pull-IsWellFormed remote "near" (omega arith) local (new-IsWellFormed _ _)

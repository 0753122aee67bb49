-- ===== src/Resolver/Examples.antt =====
-- A storage of two buckets in memory, and the theorems about the resolver at concrete inputs.
use parparchik.Common.{
  String, ℕ, Option, none, some, List, [], ◌∷◌, Bool, true, false, refl, arith, eq_iff,
  if◌then◌else◌, ◌==◌,
}
use parparchik.Common.Int.{ℤ}
use parparchik.Common.Results.{ok, err, OnOk}
use parparchik.Config.{Bucket, RepoKind, has_storage}
use parparchik.Catalog.{new}
use parparchik.Catalog.Invariant.{IsWellFormed}
use parparchik.Catalog.Preservation.{new-IsWellFormed}
use parparchik.Resolver.Actions.{Object, Services, State}
use parparchik.Resolver.Missing.{resolve_missing_file}
use parparchik.Resolver.Route.{resolve_route}
use parparchik.Resolver.Relocation.{relocate}
use parparchik.Resolver.Hits.{Search, skipped, missed, found, Walk, walked, passed, lacking, having}
use parparchik.Resolver.Searches.{IsSettled, resolve_missing_file_first}
use parparchik.Resolver.Relocated.{IsRelocated, relocate_first}
use parparchik.Resolver.Sound.{
  get_route, relocate_file, sync, HasBucketNames, IsServed, serve, serve-IsWellFormed,
  resolve_route_sound,
}

-- What is stored: the bucket and the object.
abbrev Stored : Type 0
Stored = List (String × Object)

abbrev stored_in : String → Stored → List Object
stored_in bucket [] = []
stored_in bucket ((b, obj) ∷ rest) =
    if b == bucket then obj ∷ stored_in bucket rest else stored_in bucket rest

abbrev find : String → List Object → Option Object
find key [] = none
find key (obj ∷ objs) = if obj.key == key then some obj else find key objs

abbrev services : Services Stored ℕ ℕ
services = record {
  list_objects = λ bucket w. (ok (stored_in bucket w), w);
  head_object = λ bucket key w. (ok (find key (stored_in bucket w)), w);
  get_object = λ bucket key w. (err 404, w);
  put_object = λ bucket key body content_type w.
      (ok tt, (bucket, record { key = key; size = ℤ.pos body; last_modified = "" }) ∷ w);
  fetch = λ url key w. (ok none, w);
  marshal = λ m. ok 2;
  decoder = record { is_empty = λ c. false; envelope = λ c. none; bare = λ c. none };
  content_length = λ c. c;
  now = λ w. ℤ.pos 0;
  parse_time = λ s. none;
}

abbrev hosted_bucket : String → Bool → Bucket
hosted_bucket name public = record {
  name = name;
  manifest_key = "m.json";
  public = public;
  kind = RepoKind.hosted;
  upstream_url = "";
  cache_ttl = ℤ.pos 0;
  members = [];
}

abbrev all_repo : Bucket
all_repo = record (hosted_bucket "all" false) { kind = RepoKind.virtual; members = "priv" ∷ [] }

abbrev buckets : List Bucket
buckets = hosted_bucket "pub" true ∷ all_repo ∷ hosted_bucket "priv" false ∷ []

abbrev file : Object
file = record { key = "a.txt"; size = ℤ.pos 5; last_modified = "" }

abbrev start : State Stored
start = record {
  catalog =
      new (λ b. if b == "pub" then 0 else 1) (λ b. if b == "pub" then "public" else "private");
  duplicate_count = 0;
  world = ("priv", file) ∷ [];
}

named : HasBucketNames buckets
named = omega arith

serve-IsWellFormed_example :
    IsWellFormed
      (serve services buckets
        (get_route "/priv/a.txt" ∷ sync ∷ relocate_file "a.txt" ∷ [])
        start).catalog
serve-IsWellFormed_example =
    serve-IsWellFormed services buckets named
      (get_route "/priv/a.txt" ∷ sync ∷ relocate_file "a.txt" ∷ []) start (new-IsWellFormed _ _)

resolve_route_sound_example :
    OnOk
      (IsServed buckets "/private/a.txt"
        (resolve_route services buckets "/private/a.txt" start).1.catalog)
      (resolve_route services buckets "/private/a.txt" start).0
resolve_route_sound_example =
    resolve_route_sound services buckets named "/private/a.txt" start (new-IsWellFormed _ _)

searched :
    Search services "a.txt" buckets start.world
      (ok (some (record { bucket = "priv"; obj = file })))
      start.world
unfolding has_storage
searched = missed refl refl (skipped refl (found refl refl))

resolve_missing_file_first_example :
    IsSettled "a.txt" start.catalog
      (ok (some (record { bucket = "priv"; obj = file })))
      (resolve_missing_file services buckets "a.txt" start).0
      (resolve_missing_file services buckets "a.txt" start).1.catalog
resolve_missing_file_first_example =
    resolve_missing_file_first services buckets "a.txt" start
      (ok (some (record { bucket = "priv"; obj = file }))) start.world searched

walk :
    Walk services "a.txt" buckets start.world
      (record { bucket = "priv"; obj = file } ∷ [])
      start.world
unfolding has_storage
walk = lacking refl refl (passed refl (having refl refl walked))

relocate_first_example :
    IsRelocated services buckets "a.txt" start
      (record { bucket = "priv"; obj = file } ∷ [])
      (relocate services buckets "a.txt" start).0
      (relocate services buckets "a.txt" start).1.catalog
relocate_first_example =
    relocate_first services buckets "a.txt" start (record { bucket = "priv"; obj = file } ∷ [])
      start.world walk (ground (arith, eq_iff "pub" "", eq_iff "all" "", eq_iff "priv" ""))

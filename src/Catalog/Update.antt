-- ===== src/Catalog/Update.antt =====
-- catalog.go: Entry, Catalog, and the methods that change it: Register, Set, Remove, Clear; and
-- the two lookups.
use Prim.Native.String.{◌++◌}
use parparchik.Common.{String, ℕ, Option, none, some, ltb, if◌then◌else◌, []}
use parparchik.Common.Int.{ℤ}
use parparchik.Common.Assoc
use parparchik.Common.Assoc.{Assoc}

pub record Entry : Type 0 where
  pub key : String
  pub bucket : String
  pub bucket_type : String
  pub route : String
  pub size : ℤ
  pub last_modified : String

pub record Catalog : Type 0 where
  pub by_key : Assoc Entry
  pub by_route : Assoc String
  pub priority : String → ℕ
  pub bucket_type : String → String

unfoldable pub new : (String → ℕ) → (String → String) → Catalog
new priority bucket_type = record {
  by_key = [];
  by_route = [];
  priority = priority;
  bucket_type = bucket_type;
}

unfoldable pub route_for : String → String → String
route_for bucket key = "/" ++ (bucket ++ ("/" ++ key))

-- The entry that Register and Set build.
unfoldable pub entry_for : Catalog → String → String → ℤ → String → Entry
entry_for c key bucket size last_modified = record {
  key = key;
  bucket = bucket;
  bucket_type = c.bucket_type bucket;
  route = route_for bucket key;
  size = size;
  last_modified = last_modified;
}

-- `delete(c.byRoute, existing.Route)`
unfoldable pub unroute : Entry → Catalog → Catalog
unroute existing c = record c { by_route = Assoc.delete existing.route c.by_route }

-- The last two assignments of Register and Set.
unfoldable pub write : String → Entry → Catalog → Catalog
write key entry c = record c {
  by_key = Assoc.insert key entry c.by_key;
  by_route = Assoc.insert entry.route key c.by_route;
}

unfoldable pub register : String → String → ℤ → String → Catalog → Catalog
unfolding write unroute
register key bucket size last_modified c =
    let entry = entry_for c key bucket size last_modified in
    elim (Assoc.lookup key c.by_key) [
      | none ↦ write key entry c
      | some existing ↦
          if ltb (c.priority existing.bucket) (c.priority bucket)
          then c
          else write key entry (unroute existing c)
    ]

unfoldable pub set : String → String → ℤ → String → Catalog → Catalog
unfolding write unroute
set key bucket size last_modified c =
    let entry = entry_for c key bucket size last_modified in
    elim (Assoc.lookup key c.by_key) [
      | none ↦ write key entry c
      | some existing ↦ write key entry (unroute existing c)
    ]

unfoldable pub remove : String → Catalog → Catalog
unfolding unroute
remove key c =
    let unrouted : Catalog = elim (Assoc.lookup key c.by_key) [
      | none ↦ c
      | some entry ↦ unroute entry c
    ] in
    record unrouted { by_key = Assoc.delete key c.by_key }

unfoldable pub clear : Catalog → Catalog
clear c = record c { by_key = []; by_route = [] }

unfoldable pub lookup : String → Catalog → Option Entry
lookup key c = Assoc.lookup key c.by_key

-- The zero Entry, which `c.byKey[key]` is for a missing key.
abbrev pub zero_entry : Entry
zero_entry = record {
  key = "";
  bucket = "";
  bucket_type = "";
  route = "";
  size = ℤ.pos 0;
  last_modified = "";
}

unfoldable pub lookup_by_route : String → Catalog → Option Entry
lookup_by_route route c = elim (Assoc.lookup route c.by_route) [
  | none ↦ none
  | some key ↦ elim (Assoc.lookup key c.by_key) [ none ↦ some zero_entry | some e ↦ some e ]
]

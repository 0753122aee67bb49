-- ===== src/Cleanup/Plan.antt =====
-- cleanup.go: Rule and Plan. The parser of time stamps and the grouping of entries are parameters.
-- An `int` and an int64 are integers, a sum of sizes wraps. `sort.Slice` is an insertion sort: the
-- entries of a catalog have different keys, so every sort by the order of the source gives the
-- same list. A map's order is that of its association list.
use parparchik.Common.{
  String, ℕ, zero, suc, Option, none, some, List, [], ◌∷◌, ◌++◌, Bool, true, false, ◌==◌, not, ◌&&◌,
  str_ltb, length,
}
use parparchik.Common.{if◌then◌else◌}
use parparchik.Common.Assoc
use parparchik.Common.Assoc.{Assoc}
use parparchik.Common.Int.{ℤ, pos, pos_part, ltb_ℤ, ◌-ℤ◌, ◌+ℤ◌, saturate, wrap}
use parparchik.Catalog.{Entry, sort_by_key}

pub record Rule : Type 0 where
  pub max_age : ℤ
  pub max_total_size : ℤ
  pub max_version_count : ℤ
  pub group_key : Option (Entry → String)

abbrev pub Ages : Type 0
Ages = Assoc ℤ

unfoldable pub parse_ages_into : (String → Option ℤ) → List Entry → Ages → Ages
parse_ages_into parse_time [] ages = ages
parse_ages_into parse_time (e ∷ es) ages = elim (parse_time e.last_modified) [
  | none ↦ parse_ages_into parse_time es ages
  | some t ↦ parse_ages_into parse_time es (Assoc.insert e.key t ages)
]

unfoldable pub parse_ages : (String → Option ℤ) → List Entry → Ages
unfolding parse_ages_into
parse_ages parse_time entries = parse_ages_into parse_time entries []

abbrev pub eq_ℤ : ℤ → ℤ → Bool
eq_ℤ a b = not (ltb_ℤ a b) && not (ltb_ℤ b a)

-- The order of the two calls of sort.Slice, on the ages of two entries.
abbrev pub older_at : Entry → Entry → Option ℤ → Option ℤ → Bool
older_at e f none o = false
older_at e f (some ti) none = true
older_at e f (some ti) (some tj) = if eq_ℤ ti tj then str_ltb e.key f.key else ltb_ℤ ti tj

unfoldable pub older : Ages → Entry → Entry → Bool
older ages e f = older_at e f (Assoc.lookup e.key ages) (Assoc.lookup f.key ages)

unfoldable pub insert_by_age : Ages → Entry → List Entry → List Entry
unfolding older
insert_by_age ages e [] = e ∷ []
insert_by_age ages e (f ∷ fs) =
    let rest = insert_by_age ages e fs in if older ages e f then e ∷ f ∷ fs else f ∷ rest

unfoldable pub sort_by_age : Ages → List Entry → List Entry
unfolding insert_by_age
sort_by_age ages [] = []
sort_by_age ages (e ∷ es) = insert_by_age ages e (sort_by_age ages es)

-- `total += e.Size` for each entry.
unfoldable pub add_sizes : ℤ → List Entry → ℤ
add_sizes total [] = total
add_sizes total (e ∷ es) = add_sizes (wrap (total +ℤ e.size)) es

-- The last loop of oldestFirst.
unfoldable pub evict_oldest : Ages → ℤ → ℤ → List Entry → List Entry
evict_oldest ages limit total [] = []
evict_oldest ages limit total (e ∷ es) = elim (ltb_ℤ limit total) [
  | false ↦ []
  | true ↦ elim (Assoc.lookup e.key ages) [
    | none ↦ evict_oldest ages limit total es
    | some t ↦ e ∷ evict_oldest ages limit (wrap (total -ℤ e.size)) es
  ]
]

unfoldable pub oldest_first : Rule → List Entry → Ages → List Entry
unfolding add_sizes evict_oldest sort_by_age
oldest_first r entries ages =
    let total = add_sizes (pos 0) entries in
    if ltb_ℤ r.max_total_size total
    then evict_oldest ages r.max_total_size total (sort_by_age ages entries)
    else []

abbrev pub or_empty : Option (List Entry) → List Entry
or_empty none = []
or_empty (some es) = es

-- The first loop of versionOverflow.
unfoldable pub group_into : (Entry → String) → List Entry → Assoc (List Entry) → Assoc (List Entry)
group_into group_key [] groups = groups
group_into group_key (e ∷ es) groups =
    let key = group_key e in
    let next =
      if key == ""
      then groups
      else Assoc.insert key (or_empty (Assoc.lookup key groups) ++ (e ∷ [])) groups in
    group_into group_key es next

-- The loop over one group, by the versions that are over the count.
unfoldable pub evict_versions : Ages → ℕ → List Entry → List Entry
evict_versions ages overflow [] = []
evict_versions ages overflow (e ∷ es) = elim (Assoc.lookup e.key ages) [
  | none ↦ evict_versions ages overflow es
  | some t ↦ elim overflow [ zero ↦ [] | suc left ↦ e ∷ evict_versions ages left es ]
]

unfoldable pub overflow_of_groups : Rule → Ages → Assoc (List Entry) → List Entry
unfolding evict_versions sort_by_age
overflow_of_groups r ages [] = []
overflow_of_groups r ages ((k, group) ∷ groups) =
    let rest = overflow_of_groups r ages groups in
    let n = pos (length group) in
    if ltb_ℤ r.max_version_count n
    then evict_versions ages (pos_part (n -ℤ r.max_version_count)) (sort_by_age ages group) ++ rest
    else rest

unfoldable pub version_overflow : Rule → (Entry → String) → List Entry → Ages → List Entry
unfolding group_into overflow_of_groups
version_overflow r group_key entries ages =
    overflow_of_groups r ages (group_into group_key entries [])

-- `victims[e.Key] = e` for each entry.
unfoldable pub mark : List Entry → Assoc Entry → Assoc Entry
mark [] victims = victims
mark (e ∷ es) victims = mark es (Assoc.insert e.key e victims)

-- The loop of the age rule.
unfoldable pub too_old : Rule → Ages → ℤ → List Entry → List Entry
too_old r ages now [] = []
too_old r ages now (e ∷ es) =
    let rest = too_old r ages now es in
    elim (Assoc.lookup e.key ages) [
      | none ↦ rest
      | some t ↦ if ltb_ℤ r.max_age (saturate (now -ℤ t)) then e ∷ rest else rest
    ]

abbrev pub if_positive : ℤ → List Entry → List Entry
if_positive limit es = if ltb_ℤ (pos 0) limit then es else []

abbrev pub versions_of : Rule → List Entry → Ages → Option (Entry → String) → List Entry
versions_of r entries ages none = []
versions_of r entries ages (some group_key) =
    if_positive r.max_version_count (version_overflow r group_key entries ages)

unfoldable pub victims_of : Rule → List Entry → Ages → ℤ → Assoc Entry
unfolding mark too_old oldest_first version_overflow
victims_of r entries ages now = mark (versions_of r entries ages r.group_key) (
    mark (if_positive r.max_total_size (oldest_first r entries ages))
      (mark (if_positive r.max_age (too_old r ages now entries)) []))

unfoldable pub plan : (String → Option ℤ) → Rule → List Entry → ℤ → List Entry
unfolding parse_ages victims_of
plan parse_time r entries now =
    sort_by_key (Assoc.values (victims_of r entries (parse_ages parse_time entries) now))

-- ===== src/Cleanup/Victims.antt =====
-- What each rule of a plan names, and which time stamps parse.
use parparchik.Common.{
  String, ℕ, zero, suc, some, List, [], ◌∷◌, ◌≡◌, ◌==◌, All, All-append, length,
}
use parparchik.Common.{Bool-cases, Option-cases, inl, inr, if◌then◌else◌}
use parparchik.Common.Assoc
use parparchik.Common.Assoc.{
  Assoc, HasDistinctKeys, lookup-insert, insert-HasDistinctKeys, lookup-empty,
}
use parparchik.Common.Int.{ℤ, pos, pos_part, ltb_ℤ, ◌-ℤ◌, wrap, saturate}
use parparchik.Catalog.{Entry}
use parparchik.Cleanup.Plan.{
  Rule, Ages, older, insert_by_age, sort_by_age, evict_oldest, or_empty, group_into, evict_versions,
  overflow_of_groups, too_old,
}

-- The ages map has a time for the entry.
abbrev pub IsDated : Ages → Entry → Type 0
IsDated ages e = (t : ℤ) × (Assoc.lookup e.key ages ≡ some t)

module _ (Q : Entry → Type 0) (ages : Ages) where
  -- An entry that fits, with a time.
  abbrev pub IsVictim : Entry → Type 0
  IsVictim e = Q e × IsDated ages e

  abbrev pub AllGroups : Assoc (List Entry) → Type 0
  AllGroups [] = Unit
  AllGroups ((k, g) ∷ gs) = All Q g × AllGroups gs

  All-insert_by_age :
      (e : Entry) (es : List Entry) → Q e → All Q es → All Q (insert_by_age ages e es)
  unfolding insert_by_age
  All-insert_by_age e [] q h = (q, tt)
  All-insert_by_age e (f ∷ fs) q h = elim (Bool-cases (older ages e f)) [
    | inl before ↦ rw (before, if◌then◌else◌) (q, h)
    | inr behind ↦ rw (behind, if◌then◌else◌) (h.0, All-insert_by_age e fs q h.1)
  ]

  pub All-sort_by_age : (es : List Entry) → All Q es → All Q (sort_by_age ages es)
  unfolding sort_by_age
  All-sort_by_age [] h = tt
  All-sort_by_age (e ∷ es) h =
      All-insert_by_age e (sort_by_age ages es) h.0 (All-sort_by_age es h.1)

  pub All-evict_oldest :
      (limit total : ℤ) (es : List Entry)
      → All Q es
      → All IsVictim (evict_oldest ages limit total es)
  unfolding evict_oldest
  All-evict_oldest limit total [] h = tt
  All-evict_oldest limit total (e ∷ es) h = elim (Bool-cases (ltb_ℤ limit total)) [
    | inr fits ↦ rw (fits, evict_oldest) tt
    | inl over ↦ elim (Option-cases (Assoc.lookup e.key ages)) [
      | inl undated ↦ rw (over, undated, evict_oldest) (All-evict_oldest limit total es h.1)
      | inr (t, dated) ↦
          rw (over, dated, evict_oldest)
            ((h.0, (t, dated)), All-evict_oldest limit (wrap (total -ℤ e.size)) es h.1)
    ]
  ]

  All-evict_versions :
      (overflow : ℕ) (es : List Entry) → All Q es → All IsVictim (evict_versions ages overflow es)
  unfolding evict_versions
  All-evict_versions overflow [] h = tt
  All-evict_versions zero (e ∷ es) h = elim (Option-cases (Assoc.lookup e.key ages)) [
    | inl undated ↦ rw (undated, evict_versions) (All-evict_versions zero es h.1)
    | inr (t, dated) ↦ rw (dated, evict_versions) tt
  ]
  All-evict_versions (suc left) (e ∷ es) h = elim (Option-cases (Assoc.lookup e.key ages)) [
    | inl undated ↦ rw (undated, evict_versions) (All-evict_versions (suc left) es h.1)
    | inr (t, dated) ↦
        rw (dated, evict_versions) ((h.0, (t, dated)), All-evict_versions left es h.1)
  ]

  pub All-too_old :
      (r : Rule) (now : ℤ) (es : List Entry) → All Q es → All IsVictim (too_old r ages now es)
  unfolding too_old
  All-too_old r now [] h = tt
  All-too_old r now (e ∷ es) h = elim (Option-cases (Assoc.lookup e.key ages)) [
    | inl undated ↦ rw (undated, too_old) (All-too_old r now es h.1)
    | inr (t, dated) ↦ elim (Bool-cases (ltb_ℤ r.max_age (saturate (now -ℤ t)))) [
      | inl aged ↦
          rw (dated, aged, too_old, if◌then◌else◌) ((h.0, (t, dated)), All-too_old r now es h.1)
      | inr young ↦ rw (dated, young, too_old, if◌then◌else◌) (All-too_old r now es h.1)
    ]
  ]

  group_of :
      (key : String) (gs : Assoc (List Entry))
      → AllGroups gs
      → All Q (or_empty (Assoc.lookup key gs))
  unfolding Assoc.lookup
  group_of key [] h = tt
  group_of key ((k, g) ∷ gs) h = elim (Bool-cases (k == key)) [
    | inl here ↦ rw (here, if◌then◌else◌) h.0
    | inr other ↦ rw (other, if◌then◌else◌) (group_of key gs h.1)
  ]

  insert-AllGroups :
      (key : String) (g : List Entry) (gs : Assoc (List Entry))
      → All Q g
      → AllGroups gs
      → AllGroups (Assoc.insert key g gs)
  unfolding Assoc.insert
  insert-AllGroups key g [] q h = (q, tt)
  insert-AllGroups key g ((k, f) ∷ gs) q h = elim (Bool-cases (k == key)) [
    | inl here ↦ rw (here, if◌then◌else◌) (q, h.1)
    | inr other ↦ rw (other, if◌then◌else◌) (h.0, insert-AllGroups key g gs q h.1)
  ]

  pub group_into-AllGroups :
      (group_key : Entry → String) (es : List Entry) (gs : Assoc (List Entry))
      → All Q es
      → AllGroups gs
      → AllGroups (group_into group_key es gs)
  unfolding group_into
  group_into-AllGroups group_key [] gs q h = h
  group_into-AllGroups group_key (e ∷ es) gs q h = elim (Bool-cases (group_key e == "")) [
    | inl none_known ↦ rw (none_known, if◌then◌else◌) (group_into-AllGroups group_key es gs q.1 h)
    | inr known ↦
        rw (known, if◌then◌else◌)
          (group_into-AllGroups group_key es _ q.1 (
            insert-AllGroups (group_key e) _ gs
              (All-append Q (or_empty (Assoc.lookup (group_key e) gs)) (e ∷ [])
                (group_of (group_key e) gs h) (q.0, tt))
              h))
  ]

  pub All-overflow_of_groups :
      (r : Rule) (gs : Assoc (List Entry))
      → AllGroups gs
      → All IsVictim (overflow_of_groups r ages gs)
  unfolding overflow_of_groups
  All-overflow_of_groups r [] h = tt
  All-overflow_of_groups r ((k, g) ∷ gs) h =
      elim (Bool-cases (ltb_ℤ r.max_version_count (pos (length g)))) [
        | inl over ↦
            rw (over, if◌then◌else◌)
              (All-append IsVictim
                (evict_versions ages (pos_part (pos (length g) -ℤ r.max_version_count))
                  (sort_by_age ages g))
                _ (All-evict_versions _ (sort_by_age ages g) (All-sort_by_age g h.0))
                (All-overflow_of_groups r gs h.1))
        | inr within ↦ rw (within, if◌then◌else◌) (All-overflow_of_groups r gs h.1)
      ]

-- ===== src/Metrics/Counted.antt =====
-- Update against plain counts of the entries.
use parparchik.Common.{String, ℕ, suc, ◌+◌, ◌≤◌, List, [], ◌∷◌, Option, none, some, true, ◌==◌, ◌≡◌}
use parparchik.Common.{if◌then◌else◌, arith, eq_iff, length, Bool-cases, inl, inr, ap, ◌∙◌, refl}
use parparchik.Common.Assoc
use parparchik.Common.Assoc.{Assoc, lookup-insert, lookup-empty}
use parparchik.Common.Int.{ℤ, ◌-ℤ◌, saturate}
use parparchik.Catalog.{Entry}
use parparchik.Metrics.Updating.{
  Counts, label, or_zero, increment, within, week, month, parse_last_modified, add_age, count_entry,
  count_entries, update_gauges,
}

-- The entries of a bucket, by their label.
abbrev pub labelled : String → List Entry → ℕ
labelled key [] = 0
labelled key (e ∷ es) = (if label e == key then 1 else 0) + labelled key es

count_in : String → Counts → ℕ
count_in key c = or_zero (Assoc.lookup key c.buckets)

lookup-increment :
    (key other : String) (m : Assoc ℕ)
    → or_zero (Assoc.lookup other (increment key m))
      ≡ (if key == other then 1 else 0) + or_zero (Assoc.lookup other m)
unfolding increment
lookup-increment key other m =
    ap or_zero (lookup-insert key other (suc (or_zero (Assoc.lookup key m))) m)
    ∙ elim (Bool-cases (key == other)) [
      | inl same ↦
          ground (arith, same, ap (λ k. or_zero (Assoc.lookup k m)) ((eq_iff key other).0 same))
      | inr apart ↦ ground (arith, apart)
    ]

module _ (parse_time : String → Option ℤ) (now : ℤ) where
  add_age-buckets : (o : Option ℤ) (c : Counts) → (add_age parse_time now o c).buckets ≡ c.buckets
  unfolding add_age
  add_age-buckets none c = refl
  add_age-buckets (some t) c = refl

  count_in-count_entries :
      (key : String) (es : List Entry) (c : Counts)
      → count_in key (count_entries parse_time now es c) ≡ labelled key es + count_in key c
  unfolding count_entries count_entry count_in
  count_in-count_entries key [] c = omega arith
  count_in-count_entries key (e ∷ es) c =
      let c' : Counts = count_entry parse_time now e c in
      count_in-count_entries key es c'
      ∙ ap (λ m. labelled key es + or_zero (Assoc.lookup key m))
          (add_age-buckets (parse_last_modified parse_time e.last_modified) _)
      ∙ omega (arith, lookup-increment (label e) key c.buckets)

  week_in_month : (age : ℤ) → within age week ≡ true → within age month ≡ true
  week_in_month age h = ground (arith, h)

  add_age_bounds :
      (o : Option ℤ) (c : Counts) (n : ℕ)
      → c.week_count ≤ c.month_count
      → c.month_count ≤ n
      → ((add_age parse_time now o c).week_count ≤ (add_age parse_time now o c).month_count)
        × ((add_age parse_time now o c).month_count ≤ suc n)
  unfolding add_age
  add_age_bounds none c n h k = omega arith
  add_age_bounds (some t) c n h k = ground (arith, week_in_month (saturate (now -ℤ t)))

  count_entries_bounds :
      (es : List Entry) (c : Counts) (n : ℕ)
      → c.week_count ≤ c.month_count
      → c.month_count ≤ n
      → ((count_entries parse_time now es c).week_count
          ≤ (count_entries parse_time now es c).month_count)
        × ((count_entries parse_time now es c).month_count ≤ length es + n)
  unfolding count_entries count_entry
  count_entries_bounds [] c n h k = omega arith
  count_entries_bounds (e ∷ es) c n h k =
      let (week_le, month_le) =
        add_age_bounds (parse_last_modified parse_time e.last_modified)
          (record c { buckets = increment (label e) c.buckets }) n h k in
      let (a, b) =
        count_entries_bounds es (count_entry parse_time now e c) (suc n) week_le month_le in
      (a, omega (arith, b))

  -- After Update the gauge of a bucket shows how many of the entries lie in it, an empty bucket name
  -- counted as "unknown"; the uploads of the week are at most those of the month, and these at most
  -- the entries; and the duplicates are those given.
  pub update_gauges_lem :
      (es : List Entry) (duplicates : ℕ) (bucket : String)
      → (or_zero (Assoc.lookup bucket (update_gauges parse_time now es duplicates).volume_files)
          ≡ labelled bucket es)
        × ((update_gauges parse_time now es duplicates).uploads_per_week
            ≤ (update_gauges parse_time now es duplicates).uploads_per_month)
        × ((update_gauges parse_time now es duplicates).uploads_per_month ≤ length es)
        × ((update_gauges parse_time now es duplicates).duplicate_files ≡ duplicates)
  unfolding update_gauges count_in Assoc.lookup
  update_gauges_lem es duplicates bucket =
      let start : Counts = record { buckets = []; week_count = 0; month_count = 0 } in
      let (a, b) = count_entries_bounds es start 0 (omega arith) (omega arith) in
      (count_in-count_entries bucket es start ∙ omega arith, a, omega (arith, b), refl)

-- ===== src/Metrics/Updating.antt =====
-- metrics.go: Update. A gauge holds a float64 in the source; all that it is set to are counts, below
-- 2^53, so it holds a natural number here. The parser of time stamps is a parameter.
use parparchik.Common.{String, ℕ, suc, List, [], ◌∷◌, Option, none, some, Bool, ◌==◌, not, ◌&&◌}
use parparchik.Common.{if◌then◌else◌}
use parparchik.Common.Assoc
use parparchik.Common.Assoc.{Assoc}
use parparchik.Common.Int.{ℤ, pos, ltb_ℤ, ◌-ℤ◌, saturate}
use parparchik.Catalog.{Entry}

pub record Gauges : Type 0 where
  pub volume_files : Assoc ℕ
  pub duplicate_files : ℕ
  pub uploads_per_week : ℕ
  pub uploads_per_month : ℕ

-- 7 and 31 days in nanoseconds.
abbrev pub week : ℤ
week = pos 604800000000000

abbrev pub month : ℤ
month = pos 2678400000000000

-- The variables of the loop: bucketCounts, weekCount and monthCount.
pub record Counts : Type 0 where
  pub buckets : Assoc ℕ
  pub week_count : ℕ
  pub month_count : ℕ

abbrev pub label : Entry → String
label e = if e.bucket == "" then "unknown" else e.bucket

abbrev pub or_zero : Option ℕ → ℕ
or_zero none = 0
or_zero (some n) = n

-- `m[key]++`
unfoldable pub increment : String → Assoc ℕ → Assoc ℕ
increment key m = Assoc.insert key (suc (or_zero (Assoc.lookup key m))) m

-- `age >= 0 && age <= limit`
abbrev pub within : ℤ → ℤ → Bool
within age limit = not (ltb_ℤ age (pos 0)) && not (ltb_ℤ limit age)

abbrev pub add_if : Bool → ℕ → ℕ
add_if b n = if b then suc n else n

module _ (parse_time : String → Option ℤ) where
  unfoldable pub parse_last_modified : String → Option ℤ
  parse_last_modified s = if s == "" then none else parse_time s

  unfoldable pub add_age : ℤ → Option ℤ → Counts → Counts
  add_age now none c = c
  add_age now (some t) c =
      let age = saturate (now -ℤ t) in
      record c {
        week_count = add_if (within age week) c.week_count;
        month_count = add_if (within age month) c.month_count;
      }

  -- One round of the loop.
  unfoldable pub count_entry : ℤ → Entry → Counts → Counts
  unfolding add_age increment
  count_entry now e c =
      add_age now (parse_last_modified e.last_modified)
        (record c { buckets = increment (label e) c.buckets })

  unfoldable pub count_entries : ℤ → List Entry → Counts → Counts
  count_entries now [] c = c
  count_entries now (e ∷ es) c = count_entries now es (count_entry now e c)

  -- Every gauge is set anew, the labels of the buckets included.
  unfoldable pub update_gauges : ℤ → List Entry → ℕ → Gauges
  unfolding count_entries
  update_gauges now entries duplicates =
      let c =
        count_entries now entries (record { buckets = []; week_count = 0; month_count = 0 }) in
      record {
        volume_files = c.buckets;
        duplicate_files = duplicates;
        uploads_per_week = c.week_count;
        uploads_per_month = c.month_count;
      }

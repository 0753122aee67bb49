-- ===== src/Reporting/Reports.antt =====
-- reporting.go: Record; reports.go. A sum of sizes is an int64 and wraps. The order of a sort is total
-- on the keys of a map, so every sort gives the list of this insertion sort.
use parparchik.Common.{
  String, ℕ, suc, Option, none, some, List, [], ◌∷◌, Bool, true, false, str_ltb, ltb, nat_eq,
}
use parparchik.Common.{if◌then◌else◌}
use parparchik.Common.Assoc
use parparchik.Common.Assoc.{Assoc}
use parparchik.Common.Int.{ℤ, pos, ◌+ℤ◌, wrap}
use parparchik.Catalog.{Entry}
use parparchik.Policy.{Decision, Verdict, LicenseResult, ScanResult}

pub record Record : Type 0 where
  pub entry : Entry
  pub name : String
  pub version : String
  pub license : LicenseResult
  pub scan : ScanResult
  pub policy_verdict : Option Verdict

abbrev pub is_allow : Decision → Bool
is_allow Decision.allow = true
is_allow _ = false

-- `r.PolicyVerdict != nil && r.PolicyVerdict.Decision != policy.DecisionAllow`
abbrev pub is_violation : Option Verdict → Bool
is_violation none = false
is_violation (some v) = if is_allow v.decision then false else true

unfoldable pub policy_violations_report : List Record → List Record
policy_violations_report [] = []
policy_violations_report (r ∷ rs) =
    let rest = policy_violations_report rs in
    if is_violation r.policy_verdict then r ∷ rest else rest

pub record LicenseBreakdownEntry : Type 0 where
  pub spdx_id : String
  pub count : ℕ

-- `counts[id]++`, from 0 where there is none.
abbrev pub counted : Option ℕ → ℕ
counted none = 0
counted (some n) = n

unfoldable pub count_licenses : List Record → Assoc ℕ → Assoc ℕ
count_licenses [] counts = counts
count_licenses (r ∷ rs) counts =
    let id = r.license.spdx_id in
    count_licenses rs (Assoc.insert id (suc (counted (Assoc.lookup id counts))) counts)

unfoldable pub breakdown_entries : Assoc ℕ → List LicenseBreakdownEntry
breakdown_entries [] = []
breakdown_entries ((id, n) ∷ counts) = record { spdx_id = id; count = n } ∷ breakdown_entries counts

-- By count descending, then by identifier ascending.
abbrev pub ranks_before : LicenseBreakdownEntry → LicenseBreakdownEntry → Bool
ranks_before a b =
    if nat_eq a.count b.count then str_ltb a.spdx_id b.spdx_id else ltb b.count a.count

unfoldable pub insert_ranked :
    LicenseBreakdownEntry → List LicenseBreakdownEntry → List LicenseBreakdownEntry
insert_ranked e [] = e ∷ []
insert_ranked e (f ∷ fs) =
    let rest = insert_ranked e fs in if ranks_before e f then e ∷ f ∷ fs else f ∷ rest

unfoldable pub sort_ranked : List LicenseBreakdownEntry → List LicenseBreakdownEntry
unfolding insert_ranked
sort_ranked [] = []
sort_ranked (e ∷ es) = insert_ranked e (sort_ranked es)

unfoldable pub license_breakdown : List Record → List LicenseBreakdownEntry
unfolding count_licenses breakdown_entries sort_ranked
license_breakdown records = sort_ranked (breakdown_entries (count_licenses records []))

pub record StorageUsageEntry : Type 0 where
  pub bucket : String
  pub total_bytes : ℤ
  pub object_count : ℕ

abbrev pub usage_or_new : String → Option StorageUsageEntry → StorageUsageEntry
usage_or_new bucket none = record { bucket = bucket; total_bytes = pos 0; object_count = 0 }
usage_or_new bucket (some u) = u

-- The pointer in the map is to an entry that the loop changes in place.
unfoldable pub add_usage : List Record → Assoc StorageUsageEntry → Assoc StorageUsageEntry
add_usage [] by_bucket = by_bucket
add_usage (r ∷ rs) by_bucket =
    let bucket = r.entry.bucket in
    let u = usage_or_new bucket (Assoc.lookup bucket by_bucket) in
    add_usage rs (
      Assoc.insert bucket
        (record u {
          total_bytes = wrap (u.total_bytes +ℤ r.entry.size);
          object_count = suc u.object_count;
        })
        by_bucket)

unfoldable pub insert_usage : StorageUsageEntry → List StorageUsageEntry → List StorageUsageEntry
insert_usage e [] = e ∷ []
insert_usage e (f ∷ fs) =
    let rest = insert_usage e fs in if str_ltb e.bucket f.bucket then e ∷ f ∷ fs else f ∷ rest

unfoldable pub sort_usage : List StorageUsageEntry → List StorageUsageEntry
unfolding insert_usage
sort_usage [] = []
sort_usage (e ∷ es) = insert_usage e (sort_usage es)

unfoldable pub storage_usage_per_repository : List Record → List StorageUsageEntry
unfolding add_usage sort_usage
storage_usage_per_repository records = sort_usage (Assoc.values (add_usage records []))

-- ===== src/Reporting/Examples.antt =====
-- The licences of three records.
use parparchik.Common.{String, ◌≤◌, ◌≡◌, ◌↔◌, none, List, [], ◌∷◌, Member}
use parparchik.Catalog.{zero_entry}
use parparchik.Reporting.Reports.{Record, license_breakdown}
use parparchik.Reporting.Breakdown.{occurrences, license_breakdown_iff}

abbrev licensed : String → Record
licensed id = record {
  entry = zero_entry;
  name = "";
  version = "";
  license = record { raw = id; spdx_id = id };
  scan = record { findings = [] };
  policy_verdict = none;
}

abbrev licensed_records : List Record
licensed_records = licensed "MIT" ∷ licensed "ISC" ∷ licensed "MIT" ∷ []

license_breakdown_iff_example :
    Member (record { spdx_id = "MIT"; count = 2 }) (license_breakdown licensed_records)
    ↔ ((1 ≤ 2) × (2 ≡ occurrences "MIT" licensed_records))
license_breakdown_iff_example = license_breakdown_iff licensed_records "MIT" 2

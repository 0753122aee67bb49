-- ===== src/Policy/Findings.antt =====
-- scan.go, scan/policy.go and the Result of license.go. A reason is the data that its text prints.
use parparchik.Common.{String, ℕ, List, [], ◌∷◌, Bool, true, false, ◌==◌, not, ltb, length}
use parparchik.Common.{if◌then◌else◌}
use parparchik.Common.Int.{ℤ}

pub data Severity : Type 0 where
  severity_unknown severity_low severity_medium severity_high severity_critical : Severity

-- The integer that a Severity is.
abbrev pub severity_rank : Severity → ℕ
severity_rank severity_unknown = 0
severity_rank severity_low = 1
severity_rank severity_medium = 2
severity_rank severity_high = 3
severity_rank severity_critical = 4

-- `a > b`
abbrev pub exceeds : Severity → Severity → Bool
exceeds a b = ltb (severity_rank b) (severity_rank a)

pub record Finding : Type 0 where
  pub id : String
  pub summary : String
  pub severity : Severity

pub record ScanResult : Type 0 where
  pub findings : List Finding

unfoldable pub vulnerable : ScanResult → Bool
vulnerable r = ltb 0 (length r.findings)

-- The loop of MaxSeverity, with the variable `max`.
unfoldable pub worst_from : Severity → List Finding → Severity
worst_from worst [] = worst
worst_from worst (f ∷ fs) = worst_from (if exceeds f.severity worst then f.severity else worst) fs

unfoldable pub max_severity_of : ScanResult → Severity
unfolding worst_from
max_severity_of r = worst_from severity_unknown r.findings

pub data Reason : Type 0 where
  license_denied license_permitted : String → Reason
  no_findings : Reason
  exceeds_max exceeds_quarantine : ℕ → Severity → Severity → Reason
  within_thresholds : ℕ → Severity → Reason
  within_max : ℕ → Severity → Severity → Reason
  too_young old_enough : ℤ → ℤ → Reason
  waived_by : String → String → Reason

pub record ScanPolicy : Type 0 where
  pub max_severity : Severity

pub record ScanDecision : Type 0 where
  pub allowed : Bool
  pub reason : Reason

unfoldable pub evaluate_scan : ScanPolicy → ScanResult → ScanDecision
unfolding vulnerable max_severity_of
evaluate_scan p result =
    let worst = max_severity_of result in
    if not (vulnerable result)
    then record { allowed = true; reason = no_findings }
    else if exceeds worst p.max_severity
    then record {
      allowed = false;
      reason = exceeds_max (length result.findings) worst p.max_severity;
    }
    else record {
      allowed = true;
      reason = within_max (length result.findings) worst p.max_severity;
    }

pub record LicenseResult : Type 0 where
  pub raw : String
  pub spdx_id : String

unfoldable pub normalized : LicenseResult → Bool
normalized r = not (r.spdx_id == "")

-- ===== src/Policy/Examples.antt =====
-- An artifact with a critical finding, and the theorems about policies at concrete inputs.
use parparchik.Common.{some, [], ◌∷◌, Bool, true, ◌≡◌, ◌↔◌}
use parparchik.Common.Int.{pos}
use parparchik.Policy.Findings.{
  severity_high, severity_critical, severity_low, ScanResult, evaluate_scan,
}
use parparchik.Policy.Rules.{Artifact, Ruleset, evaluate}
use parparchik.Policy.Audit.{Engine, engine_evaluate}
use parparchik.Policy.Worst.{HasWorse}
use parparchik.Policy.Evaluated.{IsJudged, evaluate_judges}
use parparchik.Policy.Recorded.{IsOutcome, IsAudited, engine_evaluate_lem}
use parparchik.Policy.Scanned.{evaluate_scan_iff}

abbrev scanned : ScanResult
scanned = record {
  findings = record { id = "GHSA-1"; summary = "leak"; severity = severity_critical } ∷ [];
}

abbrev left_pad : Artifact
left_pad = record {
  ecosystem = "npm";
  name = "left-pad";
  version = "1.3.0";
  published_at = pos 1000;
  scan = scanned;
  license = record { raw = "mit"; spdx_id = "MIT" };
}

abbrev rules : Ruleset
rules = record {
  max_severity = severity_high;
  quarantine_severity = severity_low;
  denied_licenses = "GPL-3.0-only" ∷ [];
  min_package_age = pos 500;
}

abbrev engine : Engine
engine = record {
  rules = rules;
  waivers =
      record {
        ecosystem = "npm";
        name = "left-pad";
        version = "";
        reason = "reviewed";
        approved_by = "ops";
        expires_at = pos 9000;
      }
      ∷ [];
  audit = some (record { entries = [] });
}

evaluate_judges_example :
    IsJudged rules left_pad (pos 1200) (evaluate rules left_pad (pos 1200)).decision
evaluate_judges_example = evaluate_judges rules left_pad (pos 1200)

engine_evaluate_lem_example :
    (waived : Bool) × IsOutcome engine.waivers left_pad
      (pos 1200)
      (evaluate rules left_pad (pos 1200))
      ((engine_evaluate engine left_pad (pos 1200)).0, waived)
    × IsAudited left_pad
        (pos 1200)
        ((engine_evaluate engine left_pad (pos 1200)).0, waived)
        engine.audit
        (engine_evaluate engine left_pad (pos 1200)).1.audit
    × ((engine_evaluate engine left_pad (pos 1200)).1.rules ≡ engine.rules)
    × ((engine_evaluate engine left_pad (pos 1200)).1.waivers ≡ engine.waivers)
engine_evaluate_lem_example = engine_evaluate_lem engine left_pad (pos 1200)

evaluate_scan_iff_example :
    ((evaluate_scan (record { max_severity = severity_high }) scanned).allowed ≡ true)
    ↔ (HasWorse severity_high scanned.findings → ⊥)
evaluate_scan_iff_example = evaluate_scan_iff (record { max_severity = severity_high }) scanned

-- ===== src/Policy/Scanned.antt =====
-- The policy of the scan package alone.
use parparchik.Common.{true, ◌≡◌, ◌↔◌, inl, inr, arith, ltb, length, Bool-cases, if◌then◌else◌}
use parparchik.Policy.Findings.{
  exceeds, ScanResult, ScanPolicy, vulnerable, max_severity_of, evaluate_scan,
}
use parparchik.Policy.Worst.{HasWorse, max_severity_of_iff}
use parparchik.Policy.Votes.{unsurpassed, none_worse}

-- The scan policy allows a result exactly when no finding is worse than its maximum.
pub evaluate_scan_iff :
    (p : ScanPolicy) (r : ScanResult)
    → ((evaluate_scan p r).allowed ≡ true) ↔ (HasWorse p.max_severity r.findings → ⊥)
unfolding evaluate_scan vulnerable
evaluate_scan_iff p r = elim (Bool-cases (ltb 0 (length r.findings))) [
  | inr empty ↦ (λ _. none_worse p.max_severity r.findings empty, λ _. ground (arith, empty))
  | inl some_found ↦ elim (Bool-cases (exceeds (max_severity_of r) p.max_severity)) [
    | inl over ↦
        let worse_one = (max_severity_of_iff p.max_severity r).0 over in
        (λ h. ground (arith, some_found, over, h), λ none_is. absurd (none_is worse_one))
    | inr under ↦
        (λ _. unsurpassed p.max_severity r under, λ _. rw (some_found, under, if◌then◌else◌))
  ]
]

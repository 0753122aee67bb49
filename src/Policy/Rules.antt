-- ===== src/Policy/Rules.antt =====
-- policy.go: the rules and their strictest decision. An instant is its nanoseconds since Go's zero
-- time, so IsZero is to be 0.
use parparchik.Common.{
  String, ℕ, List, [], ◌∷◌, ◌++◌, Option, none, some, Bool, false, ◌==◌, not, ltb,
}
use parparchik.Common.{◌||◌, length, if◌then◌else◌}
use parparchik.Common.Int.{ℤ, pos, negsuc, ltb_ℤ, ◌-ℤ◌, saturate}
use parparchik.Policy.Findings.{
  Severity, exceeds, ScanResult, vulnerable, max_severity_of, LicenseResult, normalized, Reason,
  license_denied, license_permitted, no_findings, exceeds_max, exceeds_quarantine,
  within_thresholds, too_young, old_enough,
}

pub data Decision : Type 0 where
  allow quarantine deny : Decision

abbrev pub decision_rank : Decision → ℕ
decision_rank allow = 0
decision_rank quarantine = 1
decision_rank deny = 2

abbrev pub worse : Decision → Decision → Bool
worse d other = ltb (decision_rank other) (decision_rank d)

pub record Artifact : Type 0 where
  pub ecosystem : String
  pub name : String
  pub version : String
  pub published_at : ℤ
  pub scan : ScanResult
  pub license : LicenseResult

pub record Verdict : Type 0 where
  pub decision : Decision
  pub reasons : List Reason

unfoldable pub merge : Verdict → Decision → Reason → Verdict
merge v d reason = record {
  decision = if worse d v.decision then d else v.decision;
  reasons = v.reasons ++ (reason ∷ []);
}

pub record Ruleset : Type 0 where
  pub max_severity : Severity
  pub quarantine_severity : Severity
  pub denied_licenses : List String
  pub min_package_age : ℤ

-- The loop of evaluateLicense.
unfoldable pub license_vote : String → List String → Decision × Reason
license_vote id [] = (allow, license_permitted id)
license_vote id (denied ∷ more) =
    let rest = license_vote id more in if id == denied then (deny, license_denied id) else rest

unfoldable pub evaluate_license : Ruleset → Artifact → Option (Decision × Reason)
unfolding license_vote
evaluate_license r a =
    if not (normalized a.license)
    then none
    else some (license_vote a.license.spdx_id r.denied_licenses)

unfoldable pub evaluate_vulnerabilities : Ruleset → Artifact → Decision × Reason
evaluate_vulnerabilities r a =
    let worst = max_severity_of a.scan in
    let count = length a.scan.findings in
    if not (vulnerable a.scan)
    then (allow, no_findings)
    else if exceeds worst r.max_severity
    then (deny, exceeds_max count worst r.max_severity)
    else if exceeds worst r.quarantine_severity
    then (quarantine, exceeds_quarantine count worst r.quarantine_severity)
    else (allow, within_thresholds count worst)

abbrev pub is_zero : ℤ → Bool
is_zero (pos n) = ltb n 1
is_zero (negsuc n) = false

unfoldable pub evaluate_age : Ruleset → Artifact → ℤ → Option (Decision × Reason)
evaluate_age r a now =
    let age = saturate (now -ℤ a.published_at) in
    if is_zero a.published_at || not (ltb_ℤ (pos 0) r.min_package_age)
    then none
    else if ltb_ℤ age r.min_package_age
    then some (quarantine, too_young age r.min_package_age)
    else some (allow, old_enough age r.min_package_age)

-- `if d, reason, ok := ...; ok { v = v.merge(d, reason) }`
abbrev pub merge_some : Verdict → Option (Decision × Reason) → Verdict
merge_some v none = v
merge_some v (some (d, reason)) = merge v d reason

unfoldable pub evaluate : Ruleset → Artifact → ℤ → Verdict
unfolding merge
evaluate r a now =
    let v1 = merge_some (record { decision = allow; reasons = [] }) (evaluate_license r a) in
    let (d, reason) = evaluate_vulnerabilities r a in
    merge_some (merge v1 d reason) (evaluate_age r a now)

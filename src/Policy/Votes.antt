-- ===== src/Policy/Votes.antt =====
-- The vote of each rule against what the rule is about.
use parparchik.Common.{
  String, List, [], ◌∷◌, Option, none, some, true, false, ◌≡◌, ◌≢◌, ◌⊎◌, inl, inr, refl, arith,
}
use parparchik.Common.{Member, Bool-cases, if◌then◌else◌, eq_iff, ◌==◌, ltb, length}
use parparchik.Common.Int.{ℤ, pos, ltb_ℤ, ◌-ℤ◌, saturate}
use parparchik.Policy.Findings.{
  Severity, exceeds, Finding, ScanResult, vulnerable, max_severity_of, normalized, Reason,
}
use parparchik.Policy.Rules.{
  Decision, allow, quarantine, deny, Artifact, Ruleset, license_vote, evaluate_license,
  evaluate_vulnerabilities, evaluate_age, is_zero,
}
use parparchik.Policy.Worst.{HasWorse, max_severity_of_iff}

-- What a rule without an opinion comes to.
abbrev pub vote_of : Option (Decision × Reason) → Decision
vote_of none = allow
vote_of (some (d, reason)) = d

abbrev pub HasDeniedLicense : Ruleset → Artifact → Type 0
HasDeniedLicense r a = (a.license.spdx_id ≢ "") × Member a.license.spdx_id r.denied_licenses

-- The artifact has a publish date, the rule is on, and the age is below the minimum.
abbrev pub IsYoung : Ruleset → Artifact → ℤ → Type 0
IsYoung r a now =
    (is_zero a.published_at ≡ false)
    × (ltb_ℤ (pos 0) r.min_package_age ≡ true)
    × (ltb_ℤ (saturate (now -ℤ a.published_at)) r.min_package_age ≡ true)

license_vote-cases :
    (id : String) (denied : List String)
    → (((license_vote id denied).0 ≡ deny) × Member id denied)
      ⊎ (((license_vote id denied).0 ≡ allow) × (Member id denied → ⊥))
unfolding license_vote
license_vote-cases id [] = inr (refl, λ m. m)
license_vote-cases id (d ∷ ds) = elim (Bool-cases (id == d)) [
  | inl same ↦ inl (ground (arith, same), inl ((eq_iff id d).0 same))
  | inr other ↦ elim (license_vote-cases id ds) [
    | inl (vote, m) ↦ inl (ground (arith, other, vote), inr m)
    | inr (vote, absent) ↦ inr (
      ground (arith, other, vote),
      λ m. elim m [ inl same ↦ ground (arith, eq_iff id d, other, same) | inr k ↦ absent k ],
    )
  ]
]

pub license-cases :
    (r : Ruleset) (a : Artifact)
    → ((vote_of (evaluate_license r a) ≡ deny) × HasDeniedLicense r a)
      ⊎ ((vote_of (evaluate_license r a) ≡ allow) × (HasDeniedLicense r a → ⊥))
unfolding evaluate_license normalized
license-cases r a = elim (Bool-cases (a.license.spdx_id == "")) [
  | inl empty ↦
      inr (ground (arith, empty), λ (named, m). named ((eq_iff a.license.spdx_id "").0 empty))
  | inr given ↦ elim (license_vote-cases a.license.spdx_id r.denied_licenses) [
    | inl (vote, m) ↦
        inl (ground (arith, given, vote), (ground (arith, given, eq_iff a.license.spdx_id ""), m))
    | inr (vote, absent) ↦ inr (ground (arith, given, vote), λ (named, m). absent m)
  ]
]

pub unsurpassed :
    (t : Severity) (r : ScanResult)
    → exceeds (max_severity_of r) t ≡ false
    → HasWorse t r.findings
    → ⊥
unsurpassed t r under w = ground (arith, under, (max_severity_of_iff t r).1 w)

pub none_worse : (t : Severity) (fs : List Finding) → ltb 0 (length fs) ≡ false → HasWorse t fs → ⊥
none_worse t [] empty (f, m, more) = m
none_worse t (g ∷ fs) empty w = ground (arith, empty)

pub vulnerabilities-cases :
    (r : Ruleset) (a : Artifact)
    → (((evaluate_vulnerabilities r a).0 ≡ deny) × HasWorse r.max_severity a.scan.findings)
      ⊎ ((((evaluate_vulnerabilities r a).0 ≡ quarantine)
            × (HasWorse r.max_severity a.scan.findings → ⊥)
            × HasWorse r.quarantine_severity a.scan.findings)
          ⊎ (((evaluate_vulnerabilities r a).0 ≡ allow)
              × (HasWorse r.max_severity a.scan.findings → ⊥)
              × (HasWorse r.quarantine_severity a.scan.findings → ⊥)))
unfolding evaluate_vulnerabilities vulnerable
vulnerabilities-cases r a = elim (Bool-cases (ltb 0 (length a.scan.findings))) [
  | inr empty ↦ inr (
      inr (
        ground (arith, empty),
        none_worse r.max_severity a.scan.findings empty,
        none_worse r.quarantine_severity a.scan.findings empty,
      ))
  | inl some_found ↦ elim (Bool-cases (exceeds (max_severity_of a.scan) r.max_severity)) [
    | inl over ↦
        inl
          (rw (some_found, over, if◌then◌else◌), (max_severity_of_iff r.max_severity a.scan).0 over)
    | inr under ↦
        let fine = unsurpassed r.max_severity a.scan under in
        elim (Bool-cases (exceeds (max_severity_of a.scan) r.quarantine_severity)) [
          | inl over ↦ inr (
              inl (
                rw (some_found, under, over, if◌then◌else◌),
                fine,
                (max_severity_of_iff r.quarantine_severity a.scan).0 over,
              ))
          | inr low ↦ inr (
              inr (
                rw (some_found, under, low, if◌then◌else◌),
                fine,
                unsurpassed r.quarantine_severity a.scan low,
              ))
        ]
  ]
]

pub age-cases :
    (r : Ruleset) (a : Artifact) (now : ℤ)
    → ((vote_of (evaluate_age r a now) ≡ quarantine) × IsYoung r a now)
      ⊎ ((vote_of (evaluate_age r a now) ≡ allow) × (IsYoung r a now → ⊥))
unfolding evaluate_age
age-cases r a now = elim (Bool-cases (is_zero a.published_at)) [
  | inl zero ↦ inr (ground (arith, zero), λ (h, _, _). ground (arith, zero, h))
  | inr dated ↦ elim (Bool-cases (ltb_ℤ (pos 0) r.min_package_age)) [
    | inr off ↦ inr (ground (arith, dated, off), λ (_, h, _). ground (arith, off, h))
    | inl on ↦ elim (Bool-cases (ltb_ℤ (saturate (now -ℤ a.published_at)) r.min_package_age)) [
      | inl young ↦ inl (rw (dated, on, young, if◌then◌else◌), (dated, on, young))
      | inr old ↦ inr (rw (dated, on, old, if◌then◌else◌), λ (_, _, h). ground (arith, old, h))
    ]
  ]
]

-- ===== src/Policy/Evaluated.antt =====
-- Evaluate against what each of its rules is about.
use parparchik.Common.{Option, none, some, ◌≡◌, ◌⊎◌, inl, inr, refl, sym}
use parparchik.Common.{if◌then◌else◌, ap, ◌∙◌, subst}
use parparchik.Common.Int.{ℤ}
use parparchik.Policy.Findings.{Reason}
use parparchik.Policy.Rules.{
  Decision, allow, quarantine, deny, worse, Artifact, Ruleset, Verdict, merge, merge_some,
  evaluate_license, evaluate_vulnerabilities, evaluate_age, evaluate,
}
use parparchik.Policy.Worst.{HasWorse}
use parparchik.Policy.Votes.{
  vote_of, HasDeniedLicense, IsYoung, license-cases, vulnerabilities-cases, age-cases,
}

abbrev pub stricter : Decision → Decision → Decision
stricter d e = if worse e d then e else d

stricter-allow : (d : Decision) → d ≡ stricter d allow
stricter-allow allow = refl
stricter-allow quarantine = refl
stricter-allow deny = refl

merge_some-decision :
    (v : Verdict) (o : Option (Decision × Reason))
    → (merge_some v o).decision ≡ stricter v.decision (vote_of o)
unfolding merge
merge_some-decision v none = stricter-allow v.decision
merge_some-decision v (some (d, reason)) = refl

evaluate-decision :
    (r : Ruleset) (a : Artifact) (now : ℤ)
    → (evaluate r a now).decision
      ≡ stricter
          (stricter
            (stricter allow (vote_of (evaluate_license r a)))
            (evaluate_vulnerabilities r a).0)
          (vote_of (evaluate_age r a now))
unfolding evaluate merge
evaluate-decision r a now =
    merge_some-decision _ (evaluate_age r a now)
    ∙ ap
        (λ d.
          stricter (stricter d (evaluate_vulnerabilities r a).0) (vote_of (evaluate_age r a now)))
        (merge_some-decision _ (evaluate_license r a))

-- The artifact has a denied licence, or a finding above the maximum.
abbrev pub IsDenied : Ruleset → Artifact → Type 0
IsDenied r a = HasDeniedLicense r a ⊎ HasWorse r.max_severity a.scan.findings

-- The artifact has a finding above the quarantine threshold, or is too young.
abbrev pub IsSuspect : Ruleset → Artifact → ℤ → Type 0
IsSuspect r a now = HasWorse r.quarantine_severity a.scan.findings ⊎ IsYoung r a now

abbrev pub IsJudged : Ruleset → Artifact → ℤ → Decision → Type 0
IsJudged r a now deny = IsDenied r a
IsJudged r a now quarantine = (IsDenied r a → ⊥) × IsSuspect r a now
IsJudged r a now allow = (IsDenied r a → ⊥) × (IsSuspect r a now → ⊥)

deny_wins : (d : Decision) → stricter deny d ≡ deny
deny_wins allow = refl
deny_wins quarantine = refl
deny_wins deny = refl

IsJudged-subst :
    (r : Ruleset) (a : Artifact) (now : ℤ) (d : Decision)
    → (evaluate r a now).decision ≡ d
    → IsJudged r a now d
    → IsJudged r a now (evaluate r a now).decision
IsJudged-subst r a now d same judged = subst (IsJudged r a now) (sym same) judged

-- The decision of Evaluate is "deny" exactly for an artifact that has a denied licence or a finding
-- above the maximum, "quarantine" exactly for another one that has a finding above the quarantine
-- threshold or is younger than the minimum age, and "allow" exactly for the rest.
pub evaluate_judges :
    (r : Ruleset) (a : Artifact) (now : ℤ) → IsJudged r a now (evaluate r a now).decision
evaluate_judges r a now =
    let same = evaluate-decision r a now in
    let v = (evaluate_vulnerabilities r a).0 in
    let g = vote_of (evaluate_age r a now) in
    elim (license-cases r a) [
      | inl (lic, denied) ↦
          IsJudged-subst r a now deny
            (same ∙ rw (lic) (ap (λ d. stricter d g) (deny_wins v) ∙ deny_wins g)) (inl denied)
      | inr (lic, fine) ↦ elim (vulnerabilities-cases r a) [
        | inl (vuln, over) ↦
            IsJudged-subst r a now deny (same ∙ rw (lic, vuln) (deny_wins g)) (inr over)
        | inr (inl (vuln, under, middling)) ↦ elim (age-cases r a now) [
          | inl (age, young) ↦
              IsJudged-subst r a now quarantine (same ∙ rw (lic, vuln, age))
                (λ d. elim d [ inl x ↦ fine x | inr x ↦ under x ], inl middling)
          | inr (age, old) ↦
              IsJudged-subst r a now quarantine (same ∙ rw (lic, vuln, age))
                (λ d. elim d [ inl x ↦ fine x | inr x ↦ under x ], inl middling)
        ]
        | inr (inr (vuln, under, low)) ↦ elim (age-cases r a now) [
          | inl (age, young) ↦
              IsJudged-subst r a now quarantine (same ∙ rw (lic, vuln, age))
                (λ d. elim d [ inl x ↦ fine x | inr x ↦ under x ], inr young)
          | inr (age, old) ↦ IsJudged-subst r a now allow (same ∙ rw (lic, vuln, age)) (
            λ d. elim d [ inl x ↦ fine x | inr x ↦ under x ],
            λ d. elim d [ inl x ↦ low x | inr x ↦ old x ],
          )
        ]
      ]
    ]

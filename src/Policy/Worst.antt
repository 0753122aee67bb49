-- ===== src/Policy/Worst.antt =====
-- MaxSeverity against the findings.
use parparchik.Common.{
  List, [], ◌∷◌, true, ◌≡◌, ◌<◌, ◌⊎◌, ◌↔◌, inl, inr, refl, arith, Member, subst,
}
use parparchik.Common.{Bool-cases, if◌then◌else◌}
use parparchik.Policy.Findings.{
  Severity, severity_rank, exceeds, Finding, ScanResult, worst_from, max_severity_of,
  severity_unknown,
}

-- Some finding is worse than the threshold.
abbrev pub HasWorse : Severity → List Finding → Type 0
HasWorse threshold fs =
    (f : Finding) × Member f fs × (severity_rank threshold < severity_rank f.severity)

next-exceeds :
    (t worst : Severity) (f : Finding)
    → (severity_rank t < severity_rank (if exceeds f.severity worst then f.severity else worst))
      ↔ ((severity_rank t < severity_rank worst) ⊎ (severity_rank t < severity_rank f.severity))
next-exceeds t worst f = elim (Bool-cases (exceeds f.severity worst)) [
  | inl more ↦ rw (more) (ground (arith, more))
  | inr less ↦ rw (less) (ground (arith, less))
]

worst_from_sound :
    (t worst : Severity) (fs : List Finding)
    → severity_rank t < severity_rank (worst_from worst fs)
    → (severity_rank t < severity_rank worst) ⊎ HasWorse t fs
unfolding worst_from
worst_from_sound t worst [] h = inl h
worst_from_sound t worst (f ∷ fs) h =
    elim (worst_from_sound t (if exceeds f.severity worst then f.severity else worst) fs h) [
      | inl early ↦ elim ((next-exceeds t worst f).0 early) [
        | inl old ↦ inl old
        | inr new ↦ inr (f, inl refl, new)
      ]
      | inr (g, m, more) ↦ inr (g, inr m, more)
    ]

worst_from_complete :
    (t worst : Severity) (fs : List Finding)
    → (severity_rank t < severity_rank worst) ⊎ HasWorse t fs
    → severity_rank t < severity_rank (worst_from worst fs)
unfolding worst_from
worst_from_complete t worst [] (inl h) = h
worst_from_complete t worst [] (inr (f, m, more)) = elim m [ ]
worst_from_complete t worst (f ∷ fs) (inl h) =
    worst_from_complete t (if exceeds f.severity worst then f.severity else worst) fs
      (inl ((next-exceeds t worst f).1 (inl h)))
worst_from_complete t worst (f ∷ fs) (inr (g, inl same, more)) =
    worst_from_complete t (if exceeds f.severity worst then f.severity else worst) fs (
      inl (
        (next-exceeds t worst f).1
          (inr (subst (λ x. severity_rank t < severity_rank x.severity) same more))))
worst_from_complete t worst (f ∷ fs) (inr (g, inr m, more)) =
    worst_from_complete t (if exceeds f.severity worst then f.severity else worst) fs
      (inr (g, m, more))

-- MaxSeverity exceeds a threshold exactly when some finding does.
pub max_severity_of_iff :
    (t : Severity) (r : ScanResult) → (exceeds (max_severity_of r) t ≡ true) ↔ HasWorse t r.findings
unfolding max_severity_of
max_severity_of_iff t r = (
  λ h. elim (worst_from_sound t severity_unknown r.findings (ground (arith, h))) [
    | inl never ↦ absurd (omega (arith, never))
    | inr some_worse ↦ some_worse
  ],
  λ w. ground (arith, worst_from_complete t severity_unknown r.findings (inr w)),
)

-- ===== src/Policy/Recorded.antt =====
-- Engine.Evaluate: waivers on top of the rules, and the audit entry.
use parparchik.Common.{
  List, [], ◌∷◌, ◌++◌, Option, none, some, Bool, true, false, ◌≡◌, ◌≢◌, ◌⊎◌, inl, inr, refl, arith,
}
use parparchik.Common.{Member, Bool-cases, ap}
use parparchik.Common.{eq_iff, ◌↔◌, zero, suc}
use parparchik.Common.Int.{ℤ, pos, negsuc, ltb_ℤ}
use parparchik.Policy.Findings.{waived_by}
use parparchik.Policy.Rules.{
  Decision, allow, quarantine, deny, Artifact, Verdict, evaluate, is_zero,
}
use parparchik.Policy.Waivers.{Waiver, waiver_matches, find_waiver}
use parparchik.Policy.Audit.{
  AuditEntry, AuditLog, record_entry, record_some, Engine, apply_waivers, entry_of, engine_evaluate,
}

-- The waiver is for this package, for all its versions or for this one, and never expires, as with an
-- expiry of 0, or has not expired at this instant.
abbrev pub Covers : Artifact → ℤ → Waiver → Type 0
Covers a now w =
    (w.ecosystem ≡ a.ecosystem)
    × (w.name ≡ a.name)
    × ((w.version ≡ "") ⊎ (w.version ≡ a.version))
    × ((w.expires_at ≡ pos 0) ⊎ (ltb_ℤ w.expires_at now ≡ false))

is_zero_iff : (z : ℤ) → (is_zero z ≡ true) ↔ (z ≡ pos 0)
is_zero_iff (pos zero) = ground arith
is_zero_iff (pos (suc n)) = ground arith
is_zero_iff (negsuc n) = ground arith

waiver_matches_iff :
    (a : Artifact) (now : ℤ) (w : Waiver) → (waiver_matches a now w ≡ true) ↔ Covers a now w
unfolding waiver_matches
waiver_matches_iff a now w = ground (
  arith,
  eq_iff w.ecosystem a.ecosystem,
  eq_iff w.name a.name,
  eq_iff w.version "",
  eq_iff w.version a.version,
  is_zero_iff w.expires_at,
)

-- A waiver is used: the rules did not allow, and this is a matching waiver of the list.
abbrev pub IsWaived : List Waiver → Artifact → ℤ → Verdict → Verdict → Type 0
IsWaived ws a now v v' =
    (v.decision ≢ allow)
    × ((w : Waiver) × Member w ws
        × Covers a now w
        × (v' ≡ record {
          decision = allow;
          reasons = v.reasons ++ (waived_by w.approved_by w.reason ∷ []);
        }))

abbrev pub HasMatch : List Waiver → Artifact → ℤ → Type 0
HasMatch ws a now = (w : Waiver) × Member w ws × Covers a now w

find_waiver-cases :
    (ws : List Waiver) (a : Artifact) (now : ℤ)
    → ((find_waiver ws a now ≡ none) × (HasMatch ws a now → ⊥))
      ⊎ ((w : Waiver) × (find_waiver ws a now ≡ some w) × Member w ws × Covers a now w)
unfolding find_waiver
find_waiver-cases [] a now = inl (refl, λ (w, m, fits). m)
find_waiver-cases (w ∷ ws) a now = elim (Bool-cases (waiver_matches a now w)) [
  | inl fits ↦ inr (w, ground (arith, fits), inl refl, (waiver_matches_iff a now w).0 fits)
  | inr other ↦ elim (find_waiver-cases ws a now) [
    | inl (absent, nowhere) ↦ inl (
      ground (arith, other, absent),
      λ (v, m, fits). elim m [
        | inl same ↦
            ground
              (arith, other, (waiver_matches_iff a now v).1 fits, ap (waiver_matches a now) same)
        | inr k ↦ nowhere (v, k, fits)
      ],
    )
    | inr (v, found, m, fits) ↦ inr (v, ground (arith, other, found), inr m, fits)
  ]
]

-- The rules allow, or no waiver matches: their verdict stands.
abbrev pub IsUpheld : List Waiver → Artifact → ℤ → Verdict → Verdict → Type 0
IsUpheld ws a now v v' = (v' ≡ v) × ((v.decision ≡ allow) ⊎ (HasMatch ws a now → ⊥))

abbrev pub IsOutcome : List Waiver → Artifact → ℤ → Verdict → Verdict × Bool → Type 0
IsOutcome ws a now v (v', true) = IsWaived ws a now v v'
IsOutcome ws a now v (v', false) = IsUpheld ws a now v v'

apply_waivers-rejected :
    (ws : List Waiver) (a : Artifact) (now : ℤ) (v : Verdict)
    → v.decision ≢ allow
    → apply_waivers ws a now v ≡ (elim (find_waiver ws a now) [
      | none ↦ (v, false)
      | some w ↦ (
        record { decision = allow; reasons = v.reasons ++ (waived_by w.approved_by w.reason ∷ []) },
        true,
      )
    ])
unfolding apply_waivers
apply_waivers-rejected ws a now v rejected = ground (arith, rejected)

apply_waivers-allowed :
    (ws : List Waiver) (a : Artifact) (now : ℤ) (v : Verdict)
    → v.decision ≡ allow
    → apply_waivers ws a now v ≡ (v, false)
unfolding apply_waivers
apply_waivers-allowed ws a now v permitted = rw (permitted)

Decision-cases : (d : Decision) → (d ≡ allow) ⊎ (d ≢ allow)
Decision-cases allow = inl refl
Decision-cases quarantine = inr (λ e. ground (arith, e))
Decision-cases deny = inr (λ e. ground (arith, e))

apply_waivers-IsOutcome :
    (ws : List Waiver) (a : Artifact) (now : ℤ) (v : Verdict)
    → IsOutcome ws a now v (apply_waivers ws a now v)
apply_waivers-IsOutcome ws a now v = elim (Decision-cases v.decision) [
  | inl permitted ↦ rw (apply_waivers-allowed ws a now v permitted) (refl, inl permitted)
  | inr rejected ↦ elim (find_waiver-cases ws a now) [
    | inl (absent, nowhere) ↦
        rw (apply_waivers-rejected ws a now v rejected, absent) (refl, inr nowhere)
    | inr (w, found, m, fits) ↦
        rw (apply_waivers-rejected ws a now v rejected, found) (rejected, (w, m, fits, refl))
  ]
]

-- One entry more, with this decision.
abbrev pub IsAudited : Artifact → ℤ → Verdict × Bool → Option AuditLog → Option AuditLog → Type 0
IsAudited a now outcome none log = log ≡ none
IsAudited a now outcome (some l) log =
    (x : AuditEntry) × (log ≡ some (record { entries = l.entries ++ (x ∷ []) }))
    × (x.decision ≡ outcome.0.decision)
    × (x.reasons ≡ outcome.0.reasons)
    × (x.waived ≡ outcome.1)
    × (x.version ≡ a.version)
    × (x.time ≡ now)

record_some-IsAudited :
    (a : Artifact) (now : ℤ) (outcome : Verdict × Bool) (o : Option AuditLog)
    → IsAudited a now outcome o (record_some (entry_of a now outcome) o)
unfolding entry_of record_entry
record_some-IsAudited a now outcome none = refl
record_some-IsAudited a now outcome (some l) =
    (entry_of a now outcome, refl, refl, refl, refl, refl, refl)

-- Engine.Evaluate returns the verdict of the rules, except where they do not allow and a waiver of
-- the list covers the artifact at this instant: then it allows, keeps the reasons and adds who waived. Where there is an audit
-- log it gains one entry, with the decision and the reasons that are returned and whether a waiver
-- was used. Rules and waivers stay.
pub engine_evaluate_lem :
    (e : Engine) (a : Artifact) (now : ℤ)
    → (waived : Bool) × IsOutcome e.waivers a now
        (evaluate e.rules a now)
        ((engine_evaluate e a now).0, waived)
      × IsAudited a now
          ((engine_evaluate e a now).0, waived)
          e.audit
          (engine_evaluate e a now).1.audit
      × ((engine_evaluate e a now).1.rules ≡ e.rules)
      × ((engine_evaluate e a now).1.waivers ≡ e.waivers)
unfolding engine_evaluate
engine_evaluate_lem e a now =
    let outcome = apply_waivers e.waivers a now (evaluate e.rules a now) in
    (
      outcome.1,
      apply_waivers-IsOutcome e.waivers a now (evaluate e.rules a now),
      record_some-IsAudited a now outcome e.audit,
      refl,
      refl,
    )

-- ===== src/Policy/Audit.antt =====
-- audit.go and engine.go: the log of decisions, and Engine.Evaluate at the instant of its clock. A
-- slice of reasons is a value here, as the copies of Record and Entries make it.
use parparchik.Common.{String, List, [], ◌∷◌, ◌++◌, Option, none, some, Bool, true, false}
use parparchik.Common.Int.{ℤ}
use parparchik.Policy.Findings.{Reason, waived_by}
use parparchik.Policy.Rules.{Artifact, Decision, allow, Verdict, Ruleset, evaluate}
use parparchik.Policy.Waivers.{Waiver, find_waiver}

pub record AuditEntry : Type 0 where
  pub time : ℤ
  pub ecosystem : String
  pub name : String
  pub version : String
  pub decision : Decision
  pub reasons : List Reason
  pub waived : Bool

pub record AuditLog : Type 0 where
  pub entries : List AuditEntry

unfoldable pub record_entry : AuditEntry → AuditLog → AuditLog
record_entry entry l = record { entries = l.entries ++ (entry ∷ []) }

-- The log is none where Audit is nil.
pub record Engine : Type 0 where
  pub rules : Ruleset
  pub waivers : List Waiver
  pub audit : Option AuditLog

-- The verdict after the waivers, and whether one applied.
unfoldable pub apply_waivers : List Waiver → Artifact → ℤ → Verdict → Verdict × Bool
apply_waivers waivers a now v = elim v.decision [
  | allow ↦ (v, false)
  | _ ↦ elim (find_waiver waivers a now) [
    | none ↦ (v, false)
    | some w ↦ (
      record { decision = allow; reasons = v.reasons ++ (waived_by w.approved_by w.reason ∷ []) },
      true,
    )
  ]
]

unfoldable pub entry_of : Artifact → ℤ → Verdict × Bool → AuditEntry
entry_of a now (v, waived) = record {
  time = now;
  ecosystem = a.ecosystem;
  name = a.name;
  version = a.version;
  decision = v.decision;
  reasons = v.reasons;
  waived = waived;
}

abbrev pub record_some : AuditEntry → Option AuditLog → Option AuditLog
record_some entry none = none
record_some entry (some l) = some (record_entry entry l)

unfoldable pub engine_evaluate : Engine → Artifact → ℤ → Verdict × Engine
unfolding apply_waivers entry_of record_entry
engine_evaluate e a now =
    let outcome = apply_waivers e.waivers a now (evaluate e.rules a now) in
    (outcome.0, record e { audit = record_some (entry_of a now outcome) e.audit })

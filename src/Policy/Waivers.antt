-- ===== src/Policy/Waivers.antt =====
-- waiver.go: Waiver, matches and findWaiver.
use parparchik.Common.{
  String, List, [], ◌∷◌, Option, none, some, Bool, true, false, ◌==◌, not, ◌||◌, ◌&&◌,
}
use parparchik.Common.{if◌then◌else◌}
use parparchik.Common.Int.{ℤ, ltb_ℤ}
use parparchik.Policy.Rules.{Artifact, is_zero}

pub record Waiver : Type 0 where
  pub ecosystem : String
  pub name : String
  pub version : String
  pub reason : String
  pub approved_by : String
  pub expires_at : ℤ

unfoldable pub waiver_matches : Artifact → ℤ → Waiver → Bool
waiver_matches a now w =
    if not (w.ecosystem == a.ecosystem) || not (w.name == a.name)
    then false
    else if not (w.version == "") && not (w.version == a.version)
    then false
    else if not (is_zero w.expires_at) && ltb_ℤ w.expires_at now
    then false
    else true

unfoldable pub find_waiver : List Waiver → Artifact → ℤ → Option Waiver
find_waiver [] a now = none
find_waiver (w ∷ ws) a now =
    let rest = find_waiver ws a now in if waiver_matches a now w then some w else rest

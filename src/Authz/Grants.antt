-- ===== src/Authz/Grants.antt =====
-- The loops of Grant.matches and Allowed against membership.
use parparchik.Common.{String, List, [], ◌∷◌, true, ◌≡◌, ◌⊎◌, inl, inr, refl, sym}
use parparchik.Common.{ap, ◌∙◌, ◌==◌, arith, eq_iff, Member, Bool-cases}
use parparchik.Authz.Roles.{Grant, wildcard_repo, has_action, grant_matches, some_grant_matches}

-- A grant covers a repository by its name or by the wildcard, and names the action.
abbrev pub Covers : String → String → Grant → Type 0
Covers repo action g = ((g.repo ≡ wildcard_repo) ⊎ (g.repo ≡ repo)) × Member action g.actions

abbrev pub HasCover : String → String → List Grant → Type 0
HasCover repo action gs = (g : Grant) × Member g gs × Covers repo action g

has_action_sound :
    (action : String) (xs : List String) → has_action action xs ≡ true → Member action xs
unfolding has_action
has_action_sound action [] h = absurd (ground arith)
has_action_sound action (a ∷ xs) h = elim (Bool-cases (a == action)) [
  | inl same ↦ inl (sym ((eq_iff a action).0 same))
  | inr other ↦ inr (has_action_sound action xs (ground arith))
]

has_action_complete :
    (action : String) (xs : List String) → Member action xs → has_action action xs ≡ true
unfolding has_action
has_action_complete action [] m = elim m [ ]
has_action_complete action (a ∷ xs) (inl same) = ground (arith, same, eq_iff a action)
has_action_complete action (a ∷ xs) (inr m) = ground (arith, has_action_complete action xs m)

grant_sound :
    (repo action : String) (g : Grant) → grant_matches repo action g ≡ true → Covers repo action g
unfolding grant_matches
grant_sound repo action g h = (
  ground (arith, eq_iff g.repo wildcard_repo, eq_iff g.repo repo),
  has_action_sound action g.actions (ground arith),
)

grant_complete :
    (repo action : String) (g : Grant) → Covers repo action g → grant_matches repo action g ≡ true
unfolding grant_matches
grant_complete repo action g (at, m) = ground (
  arith,
  at,
  has_action_complete action g.actions m,
  eq_iff g.repo wildcard_repo,
  eq_iff g.repo repo,
)

pub grants_sound :
    (repo action : String) (gs : List Grant)
    → some_grant_matches repo action gs ≡ true
    → HasCover repo action gs
unfolding some_grant_matches
grants_sound repo action [] h = absurd (ground arith)
grants_sound repo action (g ∷ gs) h = elim (Bool-cases (grant_matches repo action g)) [
  | inl fits ↦ (g, inl refl, grant_sound repo action g fits)
  | inr other ↦
      let (g', m, covers) = grants_sound repo action gs (ground arith) in (g', inr m, covers)
]

pub grants_complete :
    (repo action : String) (gs : List Grant)
    → HasCover repo action gs
    → some_grant_matches repo action gs ≡ true
unfolding some_grant_matches
grants_complete repo action [] (g, m, covers) = elim m [ ]
grants_complete repo action (g ∷ gs) (c, inl same, covers) =
    let here = grant_complete repo action c covers in
    let there : grant_matches repo action g ≡ true =
      ap (grant_matches repo action) (sym same) ∙ here in
    ground (arith, there)
grants_complete repo action (g ∷ gs) (c, inr m, covers) =
    ground (arith, grants_complete repo action gs (c, m, covers))

-- ===== src/Authz/Allowed.antt =====
-- Allowed against the grants of the roles that are known.
use parparchik.Common.{String, Option, none, some, List, [], ◌∷◌, true, ◌≡◌, inl, inr, refl, sym}
use parparchik.Common.{
  ◌==◌, ap, ◌∙◌, arith, ◌↔◌, Member, Bool-cases, Option-cases, if◌then◌else◌, some,
}
use parparchik.Common.Assoc
use parparchik.Common.Assoc.{Assoc, lookup-insert, lookup-empty}
use parparchik.Authz.Roles.{
  Grant, Role, Principal, clone_grants, clone_role, add_roles, new_authorizer, some_grant_matches,
  some_role_allows, allowed,
}
use parparchik.Authz.Grants.{HasCover, grants_sound, grants_complete}

-- The last role of a name.
abbrev pub last_named : String → List Role → Option Role
last_named name [] = none
last_named name (r ∷ rs) = elim (last_named name rs) [
  | some later ↦ some later
  | none ↦ if r.name == name then some r else none
]

clone_grants_same : (gs : List Grant) → clone_grants gs ≡ gs
unfolding clone_grants
clone_grants_same [] = refl
clone_grants_same (g ∷ gs) = ap (λ t. g ∷ t) (clone_grants_same gs)

clone_role_same : (r : Role) → clone_role r ≡ r
unfolding clone_role
clone_role_same r = ap (λ gs. record r { grants = gs }) (clone_grants_same r.grants)

abbrev or_else : Option Role → Option Role → Option Role
or_else (some r) o = some r
or_else none o = o

or_none : (o : Option Role) → or_else o (Assoc.lookup "" []) ≡ o
unfolding Assoc.lookup
or_none none = refl
or_none (some r) = refl

lookup-add_roles :
    (name : String) (rs : List Role) (m : Assoc Role)
    → Assoc.lookup name (add_roles rs m) ≡ or_else (last_named name rs) (Assoc.lookup name m)
unfolding add_roles
lookup-add_roles name [] m = refl
lookup-add_roles name (r ∷ rs) m =
    lookup-add_roles name rs (Assoc.insert r.name (clone_role r) m)
    ∙ ap (or_else (last_named name rs)) (lookup-insert r.name name (clone_role r) m)
    ∙ ground (arith, clone_role_same r)

-- The role of this name, as defined last, holds a grant that covers the action on the repository.
abbrev pub Grants : List Role → String → String → String → Type 0
Grants roles repo action name =
    (r : Role) × (last_named name roles ≡ some r) × HasCover repo action r.grants

module _ (roles : List Role) (repo action : String) where
  found : (name : String) → Assoc.lookup name (new_authorizer roles).roles ≡ last_named name roles
  unfolding new_authorizer Assoc.lookup
  found name = lookup-add_roles name roles [] ∙ or_none (last_named name roles)

  names_sound :
      (names : List String)
      → some_role_allows (new_authorizer roles) repo action names ≡ true
      → (name : String) × Member name names × Grants roles repo action name
  unfolding some_role_allows
  names_sound [] h = absurd (ground arith)
  names_sound (n ∷ ns) h = elim (Option-cases (last_named n roles)) [
    | inl unknown ↦
        let at : Assoc.lookup n (new_authorizer roles).roles ≡ none = found n ∙ unknown in
        let (name, m, g) = names_sound ns (ground (arith, at)) in (name, inr m, g)
    | inr (r, known) ↦
        let at : Assoc.lookup n (new_authorizer roles).roles ≡ some r = found n ∙ known in
        elim (Bool-cases (some_grant_matches repo action r.grants)) [
          | inl fits ↦ (n, inl refl, (r, known, grants_sound repo action r.grants fits))
          | inr other ↦
              let (name, m, g) = names_sound ns (ground (arith, at, other)) in (name, inr m, g)
        ]
  ]

  names_complete :
      (names : List String) (name : String)
      → Member name names
      → Grants roles repo action name
      → some_role_allows (new_authorizer roles) repo action names ≡ true
  unfolding some_role_allows
  names_complete [] name m g = elim m [ ]
  names_complete (n ∷ ns) name (inl same) (r, last, cover) =
      let at : Assoc.lookup n (new_authorizer roles).roles ≡ some r =
        found n ∙ ap (λ x. last_named x roles) (sym same) ∙ last in
      ground (arith, at, grants_complete repo action r.grants cover)
  names_complete (n ∷ ns) name (inr m) g =
      let rest = names_complete ns name m g in
      elim (Option-cases (Assoc.lookup n (new_authorizer roles).roles)) [
        | inl unknown ↦ ground (arith, unknown, rest)
        | inr (r, known) ↦ ground (arith, known, rest)
      ]

-- An Authorizer allows a principal an action on a repository exactly when one of the principal's
-- roles is known, and the last definition of that role holds a grant that names the action and
-- whose repository is this one or the wildcard; all else is denied.
pub allowed_iff :
    (roles : List Role) (p : Principal) (action repo : String)
    → (allowed (new_authorizer roles) p action repo ≡ true)
      ↔ ((name : String) × Member name p.roles × Grants roles repo action name)
unfolding allowed
allowed_iff roles p action repo = (
  names_sound roles repo action p.roles,
  λ (name, m, g). names_complete roles repo action p.roles name m g,
)

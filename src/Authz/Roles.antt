-- ===== src/Authz/Roles.antt =====
-- authz.go: Grant, Role, Principal, NewAuthorizer and Allowed. An Action is a text, as in the source.
use parparchik.Common.{String, none, some, List, [], ◌∷◌, Bool, true, false, ◌==◌, not, ◌&&◌}
use parparchik.Common.{if◌then◌else◌}
use parparchik.Common.Assoc
use parparchik.Common.Assoc.{Assoc}

abbrev pub action_read : String
action_read = "read"

abbrev pub action_write : String
action_write = "write"

abbrev pub action_relocate : String
action_relocate = "relocate"

abbrev pub action_admin : String
action_admin = "admin"

abbrev pub wildcard_repo : String
wildcard_repo = "*"

pub record Grant : Type 0 where
  pub repo : String
  pub actions : List String

-- The loop of Grant.matches.
unfoldable pub has_action : String → List String → Bool
has_action action [] = false
has_action action (a ∷ more) =
    let rest = has_action action more in if a == action then true else rest

unfoldable pub grant_matches : String → String → Grant → Bool
unfolding has_action
grant_matches repo action g =
    if not (g.repo == wildcard_repo) && not (g.repo == repo)
    then false
    else has_action action g.actions

pub record Role : Type 0 where
  pub name : String
  pub grants : List Grant

pub record Principal : Type 0 where
  pub id : String
  pub roles : List String

pub record Authorizer : Type 0 where
  pub roles : Assoc Role

unfoldable pub clone_grants : List Grant → List Grant
clone_grants [] = []
clone_grants (g ∷ gs) = record { repo = g.repo; actions = g.actions } ∷ clone_grants gs

unfoldable pub clone_role : Role → Role
unfolding clone_grants
clone_role r = record { name = r.name; grants = clone_grants r.grants }

-- The loop of NewAuthorizer.
unfoldable pub add_roles : List Role → Assoc Role → Assoc Role
add_roles [] m = m
add_roles (r ∷ rs) m = add_roles rs (Assoc.insert r.name (clone_role r) m)

unfoldable pub new_authorizer : List Role → Authorizer
unfolding add_roles
new_authorizer roles = record { roles = add_roles roles [] }

-- The inner loop of Allowed.
unfoldable pub some_grant_matches : String → String → List Grant → Bool
some_grant_matches repo action [] = false
some_grant_matches repo action (g ∷ gs) =
    let rest = some_grant_matches repo action gs in
    if grant_matches repo action g then true else rest

-- The outer loop of Allowed.
unfoldable pub some_role_allows : Authorizer → String → String → List String → Bool
unfolding some_grant_matches
some_role_allows a repo action [] = false
some_role_allows a repo action (role_name ∷ names) =
    let rest = some_role_allows a repo action names in
    elim (Assoc.lookup role_name a.roles) [
      | none ↦ rest
      | some role ↦ if some_grant_matches repo action role.grants then true else rest
    ]

unfoldable pub allowed : Authorizer → Principal → String → String → Bool
unfolding some_role_allows
allowed a p action repo = some_role_allows a repo action p.roles

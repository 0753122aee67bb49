-- ===== src/Authz/Superuser.antt =====
-- Service accounts: a key that is mapped to the superuser role, and the actions of that role.
use parparchik.Common.{String, Option, none, some, List, [], ◌∷◌, true, ◌≡◌, inl, inr, refl, sym}
use parparchik.Common.{◌==◌, ap, ◌∙◌, arith, eq_iff, Member, Bool-cases}
use parparchik.Common.Assoc
use parparchik.Common.Assoc.{Assoc, lookup-insert, lookup-empty, HasDistinctKeys}
use parparchik.Authz.Roles.{Role, Principal, new_authorizer, allowed}
use parparchik.Authz.Accounts.{
  add_principals, new_service_accounts, principal_of, superuser_role_name, superuser_role,
}
use parparchik.Authz.Allowed.{last_named, allowed_iff}

abbrev or_old : Option Principal → Option Principal → Option Principal
or_old (some r) o = some r
or_old none o = o

or_old_none : (o : Option Principal) → or_old o (Assoc.lookup "" []) ≡ o
unfolding Assoc.lookup
or_old_none none = refl
or_old_none (some p) = refl

lookup-add_principals :
    (key : String) (ps m : Assoc Principal)
    → HasDistinctKeys ps
    → Assoc.lookup key (add_principals ps m) ≡ or_old (Assoc.lookup key ps) (Assoc.lookup key m)
unfolding add_principals Assoc.lookup
lookup-add_principals key [] m distinct = refl
lookup-add_principals key ((k, p) ∷ ps) m (fresh, distinct) =
    lookup-add_principals key ps (Assoc.insert k p m) distinct
    ∙ ap (or_old (Assoc.lookup key ps)) (lookup-insert k key p m)
    ∙ elim (Bool-cases (k == key)) [
      | inl same ↦
          let absent : Assoc.lookup key ps ≡ none =
            ap (λ x. Assoc.lookup x ps) (sym ((eq_iff k key).0 same)) ∙ fresh in
          ground (arith, absent, same)
      | inr other ↦ ground (arith, other)
    ]

-- The principal of a key is the one that the map gives it.
pub principal_of-new :
    (key : String) (ps : Assoc Principal)
    → HasDistinctKeys ps
    → principal_of key (new_service_accounts ps) ≡ Assoc.lookup key ps
unfolding principal_of new_service_accounts Assoc.lookup
principal_of-new key ps distinct =
    lookup-add_principals key ps [] distinct ∙ or_old_none (Assoc.lookup key ps)

-- A key whose principal holds the superuser role, with that role as SuperuserRole defines it, is
-- looked up to a principal that may read, write, relocate and administer every repository.
pub superuser_allowed :
    (roles : List Role) (ps : Assoc Principal) (key action repo : String) (p : Principal)
    → HasDistinctKeys ps
    → Assoc.lookup key ps ≡ some p
    → Member superuser_role_name p.roles
    → last_named superuser_role_name roles ≡ some superuser_role
    → Member action ("read" ∷ "write" ∷ "relocate" ∷ "admin" ∷ [])
    → (principal_of key (new_service_accounts ps) ≡ some p)
      × (allowed (new_authorizer roles) p action repo ≡ true)
superuser_allowed roles ps key action repo p distinct mapped held defined known = (
  principal_of-new key ps distinct ∙ mapped,
  (allowed_iff roles p action repo).1
      (superuser_role_name, held, (superuser_role, defined, (_, inl refl, (inl refl, known)))),
)

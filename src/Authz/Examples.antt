-- ===== src/Authz/Examples.antt =====
-- Authorization at concrete inputs.
use parparchik.Common.{String, some, List, [], ◌∷◌, true, ◌≡◌, ◌↔◌, inl, inr, refl, Member}
use parparchik.Common.Assoc
use parparchik.Common.Assoc.{Assoc}
use parparchik.Authz.Roles.{Role, Principal, new_authorizer, allowed}
use parparchik.Authz.Accounts.{new_service_accounts, principal_of, superuser_role}
use parparchik.Authz.Allowed.{Grants, allowed_iff}
use parparchik.Authz.Superuser.{superuser_allowed}

abbrev reader : Role
reader = record { name = "reader"; grants = record { repo = "pub"; actions = "read" ∷ [] } ∷ [] }

abbrev roles : List Role
roles = reader ∷ superuser_role ∷ []

abbrev guest : Principal
guest = record { id = "guest"; roles = "reader" ∷ "gone" ∷ [] }

abbrev operator : Principal
operator = record { id = "operator"; roles = "superuser" ∷ [] }

abbrev accounts : Assoc Principal
accounts = ("k1", guest) ∷ ("k2", operator) ∷ []

allowed_iff_example :
    (allowed (new_authorizer roles) guest "read" "pub" ≡ true)
    ↔ ((name : String) × Member name guest.roles × Grants roles "pub" "read" name)
allowed_iff_example = allowed_iff roles guest "read" "pub"

accounts-lookup : Assoc.lookup "k2" accounts ≡ some operator
unfolding Assoc.lookup
accounts-lookup = refl

accounts-HasDistinctKeys : Assoc.HasDistinctKeys accounts
unfolding Assoc.lookup
accounts-HasDistinctKeys = (refl, (refl, tt))

superuser_allowed_example :
    (principal_of "k2" (new_service_accounts accounts) ≡ some operator)
    × (allowed (new_authorizer roles) operator "relocate" "priv" ≡ true)
superuser_allowed_example =
    superuser_allowed roles accounts "k2" "relocate" "priv" operator accounts-HasDistinctKeys
      accounts-lookup (inl refl) refl (inr (inr (inl refl)))

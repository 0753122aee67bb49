-- ===== src/Authz/Accounts.antt =====
-- serviceaccount.go: ServiceAccounts and the superuser role.
use parparchik.Common.{String, Option, [], ◌∷◌}
use parparchik.Common.Assoc
use parparchik.Common.Assoc.{Assoc}
use parparchik.Authz.Roles.{
  Principal, Role, wildcard_repo, action_read, action_write, action_relocate, action_admin,
}

pub record ServiceAccounts : Type 0 where
  pub by_key : Assoc Principal

-- The loop over the map that is given, in the order of its iteration.
unfoldable pub add_principals : Assoc Principal → Assoc Principal → Assoc Principal
add_principals [] m = m
add_principals ((k, p) ∷ ps) m =
    add_principals ps (Assoc.insert k (record { id = p.id; roles = p.roles }) m)

unfoldable pub new_service_accounts : Assoc Principal → ServiceAccounts
unfolding add_principals
new_service_accounts principals = record { by_key = add_principals principals [] }

unfoldable pub principal_of : String → ServiceAccounts → Option Principal
principal_of api_key s = Assoc.lookup api_key s.by_key

abbrev pub superuser_role_name : String
superuser_role_name = "superuser"

abbrev pub superuser_role : Role
superuser_role = record {
  name = superuser_role_name;
  grants =
      record {
        repo = wildcard_repo;
        actions = action_read ∷ action_write ∷ action_relocate ∷ action_admin ∷ [];
      }
      ∷ [];
}

-- ===== src/Catalog/Runs.antt =====
-- Sequences of calls that change a catalog.
use parparchik.Common.{String, ℕ, List, [], ◌∷◌, All}
use parparchik.Common.Int.{ℤ}
use parparchik.Catalog.Update.{Catalog, new, register, set, remove, clear}
use parparchik.Catalog.Routes.{IsBucketName}
use parparchik.Catalog.Invariant.{IsWellFormed}
use parparchik.Catalog.Preservation.{
  register-IsWellFormed, set-IsWellFormed, remove-IsWellFormed, clear-IsWellFormed,
  new-IsWellFormed,
}

-- One call of a method that changes the catalog; LoadManifests is a Clear and a row of Registers.
pub data Operation : Type 0 where
  call_register call_set : String → String → ℤ → String → Operation
  call_remove : String → Operation
  call_clear : Operation

unfoldable pub apply : Operation → Catalog → Catalog
apply (Operation.call_register key bucket size last_modified) c =
    register key bucket size last_modified c
apply (Operation.call_set key bucket size last_modified) c = set key bucket size last_modified c
apply (Operation.call_remove key) c = remove key c
apply Operation.call_clear c = clear c

unfoldable pub run : List Operation → Catalog → Catalog
unfolding apply
run [] c = c
run (o ∷ os) c = run os (apply o c)

abbrev pub NamesBucket : Operation → Type 0
NamesBucket (Operation.call_register key bucket size last_modified) = IsBucketName bucket
NamesBucket (Operation.call_set key bucket size last_modified) = IsBucketName bucket
NamesBucket _ = Unit

apply-IsWellFormed :
    (o : Operation) (c : Catalog) → NamesBucket o → IsWellFormed c → IsWellFormed (apply o c)
unfolding apply
apply-IsWellFormed (Operation.call_register k b s l) c n w = register-IsWellFormed k b s l c n w
apply-IsWellFormed (Operation.call_set k b s l) c n w = set-IsWellFormed k b s l c n w
apply-IsWellFormed (Operation.call_remove k) c n w = remove-IsWellFormed k c w
apply-IsWellFormed Operation.call_clear c n w = clear-IsWellFormed c

run-IsWellFormed_from :
    (os : List Operation) (c : Catalog)
    → All NamesBucket os
    → IsWellFormed c
    → IsWellFormed (run os c)
unfolding run
run-IsWellFormed_from [] c n w = w
run-IsWellFormed_from (o ∷ os) c n w =
    run-IsWellFormed_from os (apply o c) n.1 (apply-IsWellFormed o c n.0 w)

-- After any calls of Register, Set, Remove and Clear on a new catalog, with slash-free bucket
-- names, the two indexes agree: every entry lies under its own key with the route and the type of
-- its bucket, its route leads back to its key, every indexed route belongs to the entry that it
-- leads to, and no key stands twice.
pub run-IsWellFormed :
    (os : List Operation) (priority : String → ℕ) (bucket_type : String → String)
    → All NamesBucket os
    → IsWellFormed (run os (new priority bucket_type))
run-IsWellFormed os priority bucket_type n =
    run-IsWellFormed_from os _ n (new-IsWellFormed priority bucket_type)

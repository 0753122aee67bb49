-- ===== src/Catalog/Owners.antt =====
-- The bucket that owns a key, before and after Register, Set and Remove.
use parparchik.Common.{String, ◌≤◌, Option, none, some, ◌≡◌, ◌⊎◌, arith, eq_iff, eq_refl, ◌==◌}
use parparchik.Common.{if◌then◌else◌, Option-cases, Bool-cases, inl, inr, ltb, ◌≢◌}
use parparchik.Common.Int.{ℤ}
use parparchik.Common.Assoc.{lookup-insert, lookup-delete}
use parparchik.Catalog.Update.{Entry, Catalog, entry_for, register, set, remove, lookup}

module _ (key bucket : String) (size : ℤ) (last_modified : String) (c : Catalog) where
  pub lookup-set :
      (j : String)
      → lookup j (set key bucket size last_modified c)
        ≡ (if key == j then some (entry_for c key bucket size last_modified) else lookup j c)
  unfolding lookup set entry_for
  lookup-set j =
      ground (arith, lookup-insert key j (entry_for c key bucket size last_modified) c.by_key)

  pub priority-set : (set key bucket size last_modified c).priority ≡ c.priority
  unfolding set
  priority-set = ground arith

  pub bucket_type-set : (set key bucket size last_modified c).bucket_type ≡ c.bucket_type
  unfolding set
  bucket_type-set = ground arith

  pub priority-register : (register key bucket size last_modified c).priority ≡ c.priority
  unfolding register
  priority-register = ground arith

  pub bucket_type-register : (register key bucket size last_modified c).bucket_type ≡ c.bucket_type
  unfolding register
  bucket_type-register = ground arith

  -- What `key` is registered as after Register, from what it was before.
  abbrev pub winner : Option Entry → Entry
  winner none = entry_for c key bucket size last_modified
  winner (some e) =
      if ltb (c.priority e.bucket) (c.priority bucket)
      then e
      else entry_for c key bucket size last_modified

  pub lookup-register :
      (j : String)
      → lookup j (register key bucket size last_modified c)
        ≡ (if key == j then some (winner (lookup key c)) else lookup j c)
  unfolding lookup register entry_for
  lookup-register j = ground (
    arith,
    eq_iff key j,
    lookup-insert key j (entry_for c key bucket size last_modified) c.by_key,
  )

module _ (key : String) (c : Catalog) where
  pub lookup-remove :
      (j : String) → lookup j (remove key c) ≡ (if key == j then none else lookup j c)
  unfolding lookup remove
  lookup-remove j = ground (arith, lookup-delete key j c.by_key)

module _ (key bucket : String) (size : ℤ) (last_modified : String) (c : Catalog) where
  abbrev after : Catalog
  after = register key bucket size last_modified c

  -- After Register the key is registered; its entry is the one from before or the one of this
  -- call; its bucket ranks no lower than the bucket of this call and no lower than the bucket that
  -- had the key before; and every other key is as it was.
  pub register_owner :
      (e : Entry) × (lookup key after ≡ some e)
      × ((lookup key c ≡ some e) ⊎ (e ≡ entry_for c key bucket size last_modified))
      × (c.priority e.bucket ≤ c.priority bucket)
      × ((old : Entry) → lookup key c ≡ some old → c.priority e.bucket ≤ c.priority old.bucket)
      × ((j : String) → j ≢ key → lookup j after ≡ lookup j c)
  unfolding entry_for
  register_owner = (
    winner key bucket size last_modified c (lookup key c),
    ground (arith, lookup-register key bucket size last_modified c key, eq_refl key),
    elim (Option-cases (lookup key c)) [
      | inl missing ↦ inr (ground arith)
      | inr (e, found) ↦ elim (Bool-cases (ltb (c.priority e.bucket) (c.priority bucket))) [
        | inl keeps ↦ inl (ground arith)
        | inr takes ↦ inr (ground arith)
      ]
    ],
    ground arith,
    λ old found. ground arith,
    λ j other. ground (arith, lookup-register key bucket size last_modified c j, eq_iff key j),
  )

-- ===== src/Catalog/Preservation.antt =====
-- The operations that change a catalog and its invariant; the two lookups of a well-formed one.
use parparchik.Common.{String, ℕ, none, some, ◌≡◌, ◌≢◌, ◌↔◌, ◌∙◌, sym, arith, eq_iff}
use parparchik.Common.{if◌then◌else◌, Bool-cases, Option-cases, inl, inr, ltb}
use parparchik.Common.Int.{ℤ}
use parparchik.Common.Assoc
use parparchik.Common.Assoc.{lookup-delete, lookup-empty, delete-HasDistinctKeys}
use parparchik.Catalog.Update.{
  Entry, Catalog, new, entry_for, unroute, register, set, remove, clear, lookup, lookup_by_route,
}
use parparchik.Catalog.Routes.{IsBucketName}
use parparchik.Catalog.Invariant.{
  IsWellFormed, IsReady, unroute-IsReady, absent-IsReady, write-IsWellFormed,
}

module _ (key bucket : String) (size : ℤ) (last_modified : String) (c : Catalog) where
  rewrite-IsWellFormed :
      (existing : Entry)
      → IsBucketName bucket
      → IsWellFormed c
      → Assoc.lookup key c.by_key ≡ some existing
      → IsWellFormed (set key bucket size last_modified c)
  unfolding set entry_for
  rewrite-IsWellFormed existing named w found =
      rw (found, set)
        (write-IsWellFormed key bucket size last_modified (unroute existing c) named
          (unroute-IsReady key existing c w found))

  pub set-IsWellFormed :
      IsBucketName bucket → IsWellFormed c → IsWellFormed (set key bucket size last_modified c)
  unfolding set
  set-IsWellFormed named w = elim (Option-cases (Assoc.lookup key c.by_key)) [
    | inl missing ↦
        rw (missing, set)
          (write-IsWellFormed key bucket size last_modified c named
            (absent-IsReady key c w missing))
    | inr (existing, found) ↦ rewrite-IsWellFormed existing named w found
  ]

  -- Register either changes nothing or does what Set does.
  pub register_cases :
      (e : Entry)
      → Assoc.lookup key c.by_key ≡ some e
      → register key bucket size last_modified c ≡ (
          if ltb (c.priority e.bucket) (c.priority bucket)
          then c
          else set key bucket size last_modified c)
  unfolding register set
  register_cases e found = ground arith

  pub register_absent :
      Assoc.lookup key c.by_key ≡ none
      → register key bucket size last_modified c ≡ set key bucket size last_modified c
  unfolding register set
  register_absent missing = ground arith

  pub register-IsWellFormed :
      IsBucketName bucket → IsWellFormed c → IsWellFormed (register key bucket size last_modified c)
  register-IsWellFormed named w = elim (Option-cases (Assoc.lookup key c.by_key)) [
    | inl missing ↦ rw (register_absent missing) (set-IsWellFormed named w)
    | inr (e, found) ↦ elim (Bool-cases (ltb (c.priority e.bucket) (c.priority bucket))) [
      | inl keeps ↦ rw (register_cases e found, keeps) w
      | inr takes ↦ rw (register_cases e found, takes) (set-IsWellFormed named w)
    ]
  ]

module _ (key : String) (c : Catalog) where
  abbrev without : Catalog → Catalog
  without d = record d { by_key = Assoc.delete key d.by_key }

  without-IsWellFormed : IsReady key c → IsWellFormed (without c)
  without-IsWellFormed w = record {
    distinct = delete-HasDistinctKeys key c.by_key w.distinct;
    entries = λ k e at.
        let at' = sym (lookup-delete key k c.by_key) ∙ at in
        let other : k ≢ key = ground (arith, eq_iff key k) in
        let i = w.entries k e other (ground (arith, eq_iff key k)) in
        record {
          key = i.key;
          named = i.named;
          routed = i.routed;
          typed = i.typed;
          indexed = i.indexed;
        };
    routes = λ r k at.
        let (other, i) = w.routes r k at in
        record {
          entry = i.entry;
          found = ground (arith, i.found, lookup-delete key k c.by_key, eq_iff key k);
          same = i.same;
        };
  }

module _ (key : String) (c : Catalog) where
  pub remove-IsWellFormed : IsWellFormed c → IsWellFormed (remove key c)
  unfolding remove
  remove-IsWellFormed w = elim (Option-cases (Assoc.lookup key c.by_key)) [
    | inl missing ↦
        rw (missing, remove) (without-IsWellFormed key c (absent-IsReady key c w missing))
    | inr (e, found) ↦
        rw (found, remove)
          (without-IsWellFormed key (unroute e c) (unroute-IsReady key e c w found))
  ]

empty-IsWellFormed : (c : Catalog) → IsWellFormed (clear c)
unfolding clear
empty-IsWellFormed c = record {
  distinct = tt;
  entries = λ k e at. absurd (ground (arith, at, lookup-empty {V = Entry} k));
  routes = λ r k at. absurd (ground (arith, at, lookup-empty {V = String} r));
}

pub clear-IsWellFormed : (c : Catalog) → IsWellFormed (clear c)
clear-IsWellFormed c = empty-IsWellFormed c

pub new-IsWellFormed :
    (priority : String → ℕ) (bucket_type : String → String)
    → IsWellFormed (new priority bucket_type)
unfolding new clear
new-IsWellFormed priority bucket_type = empty-IsWellFormed (new priority bucket_type)

-- In a well-formed catalog the entry that a route leads to is the one that is registered under its
-- key and has that route; and it leads nowhere if no entry has it.
pub lookup_by_route_iff :
    (c : Catalog) (route : String) (e : Entry)
    → IsWellFormed c
    → (lookup_by_route route c ≡ some e) ↔ ((lookup e.key c ≡ some e) × (e.route ≡ route))
unfolding lookup_by_route lookup
lookup_by_route_iff c route e w = (
  λ h. elim (Option-cases (Assoc.lookup route c.by_route)) [
    | inl missing ↦ absurd (ground arith)
    | inr (k, at) ↦
        let i = w.routes route k at in
        let same : i.entry ≡ e = ground (arith, i.found) in
        let found : Assoc.lookup k c.by_key ≡ some e = ground (arith, i.found) in
        let j = w.entries k e found in (ground (arith, j.key, found), ground (arith, i.same))
  ],
  λ p. ground (arith, p, (w.entries e.key e p.0).indexed),
)

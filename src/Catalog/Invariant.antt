-- ===== src/Catalog/Invariant.antt =====
-- The invariant of a catalog: its two indexes agree.
use parparchik.Common.{String, none, some, ◌≡◌, refl, sym, ◌∙◌, arith, eq_iff, ◌==◌}
use parparchik.Common.{Bool-cases, inl, inr, ◌≢◌}
use parparchik.Common.Int.{ℤ}
use parparchik.Common.Assoc
use parparchik.Common.Assoc.{HasDistinctKeys, lookup-insert, lookup-delete}
use parparchik.Common.Assoc.{insert-HasDistinctKeys, delete-HasDistinctKeys}
use parparchik.Catalog.Update.{Entry, Catalog, route_for, entry_for, unroute, write}
use parparchik.Catalog.Routes.{IsBucketName, route_for_inj}

-- What holds of an entry under its key: its fields agree with the key and the bucket, and its
-- route leads back to the key.
pub record IsEntryOf (c : Catalog) (k : String) (e : Entry) : Type 0 where
  pub key : e.key ≡ k
  pub named : IsBucketName e.bucket
  pub routed : e.route ≡ route_for e.bucket k
  pub typed : e.bucket_type ≡ c.bucket_type e.bucket
  pub indexed : Assoc.lookup e.route c.by_route ≡ some k

-- A route leads to a key whose entry has that route.
pub record IsRouteOf (c : Catalog) (r k : String) : Type 0 where
  pub entry : Entry
  pub found : Assoc.lookup k c.by_key ≡ some entry
  pub same : entry.route ≡ r

pub record IsWellFormed (c : Catalog) : Type 0 where
  pub distinct : HasDistinctKeys c.by_key
  pub entries : (k : String) (e : Entry) → Assoc.lookup k c.by_key ≡ some e → IsEntryOf c k e
  pub routes : (r k : String) → Assoc.lookup r c.by_route ≡ some k → IsRouteOf c r k

-- The state between `unroute` and `write`: `key` may have lost its route.
pub record IsReady (key : String) (c : Catalog) : Type 0 where
  pub distinct : HasDistinctKeys c.by_key
  pub entries :
      (k : String) (e : Entry) → k ≢ key → Assoc.lookup k c.by_key ≡ some e → IsEntryOf c k e
  pub routes : (r k : String) → Assoc.lookup r c.by_route ≡ some k → (k ≢ key) × IsRouteOf c r k

pub unroute-IsReady :
    (key : String) (existing : Entry) (c : Catalog)
    → IsWellFormed c
    → Assoc.lookup key c.by_key ≡ some existing
    → IsReady key (unroute existing c)
unfolding unroute
unroute-IsReady key existing c w found = record {
  distinct = w.distinct;
  entries = λ k e other at.
      let i = w.entries k e at in
      record {
        key = i.key;
        named = i.named;
        routed = i.routed;
        typed = i.typed;
        indexed = ground (
          arith,
          i.indexed,
          (w.entries key existing found).indexed,
          lookup-delete existing.route e.route c.by_route,
          eq_iff existing.route e.route,
        );
      };
  routes = λ r k at.
      let old : Assoc.lookup r c.by_route ≡ some k =
        ground (arith, at, lookup-delete existing.route r c.by_route) in
      let i = w.routes r k old in
      (
        λ same. ground (
          arith,
          at,
          same,
          found,
          i.found,
          i.same,
          lookup-delete existing.route r c.by_route,
          eq_iff existing.route r,
        ),
        record { entry = i.entry; found = i.found; same = i.same },
      );
}

pub absent-IsReady :
    (key : String) (c : Catalog) → IsWellFormed c → Assoc.lookup key c.by_key ≡ none → IsReady key c
absent-IsReady key c w missing = record {
  distinct = w.distinct;
  entries = λ k e other at. w.entries k e at;
  routes = λ r k at. let i = w.routes r k at in (λ same. ground (arith, i.found, same, missing), i);
}

module _ (key bucket : String) (size : ℤ) (last_modified : String) (c : Catalog) where
  write_other :
      (k : String) (e : Entry)
      → IsBucketName bucket
      → k ≢ key
      → IsEntryOf c k e
      → IsEntryOf (write key (entry_for c key bucket size last_modified) c) k e
  unfolding write entry_for
  write_other k e named other i = record {
    key = i.key;
    named = i.named;
    routed = i.routed;
    typed = i.typed;
    indexed = ground (
      arith,
      i.indexed,
      lookup-insert (route_for bucket key) e.route key c.by_route,
      eq_iff (route_for bucket key) e.route,
      λ (q : route_for bucket key ≡ e.route).
          (route_for_inj bucket e.bucket key k named i.named (q ∙ i.routed)).1,
    );
  }

  write_self :
      IsBucketName bucket
      → IsEntryOf
          (write key (entry_for c key bucket size last_modified) c)
          key
          (entry_for c key bucket size last_modified)
  unfolding write entry_for
  write_self named = record {
    key = refl;
    named = named;
    routed = refl;
    typed = refl;
    indexed = ground (
      arith,
      lookup-insert (route_for bucket key) (route_for bucket key) key c.by_route,
      eq_iff (route_for bucket key) (route_for bucket key),
    );
  }

  write_entries :
      (k : String) (e : Entry)
      → IsBucketName bucket
      → IsReady key c
      → Assoc.lookup k (write key (entry_for c key bucket size last_modified) c).by_key ≡ some e
      → IsEntryOf (write key (entry_for c key bucket size last_modified) c) k e
  unfolding write
  write_entries k e named w at =
      let at' =
        sym (lookup-insert key k (entry_for c key bucket size last_modified) c.by_key) ∙ at in
      elim (Bool-cases (key == k)) [
        | inl same ↦
            let new : entry_for c key bucket size last_modified ≡ e = ground arith in
            let here : key ≡ k = (eq_iff key k).0 same in rw (← new, ← here) (write_self named)
        | inr differs ↦
            let other : k ≢ key = ground (arith, eq_iff key k) in
            write_other k e named other (w.entries k e other (ground arith))
      ]

  write_routes :
      (r k : String)
      → IsReady key c
      → Assoc.lookup r (write key (entry_for c key bucket size last_modified) c).by_route ≡ some k
      → IsRouteOf (write key (entry_for c key bucket size last_modified) c) r k
  unfolding write
  write_routes r k w at =
      let new = entry_for c key bucket size last_modified in
      let at' = sym (lookup-insert new.route r key c.by_route) ∙ at in
      elim (Bool-cases (new.route == r)) [
        | inl same ↦
            let here : key ≡ k = ground arith in
            record {
              entry = new;
              found = ground (arith, here, lookup-insert key k new c.by_key, eq_iff key k);
              same = (eq_iff _ _).0 same;
            }
        | inr differs ↦
            let (other, i) = w.routes r k (ground arith) in
            record {
              entry = i.entry;
              found = ground (arith, i.found, lookup-insert key k new c.by_key, eq_iff key k);
              same = i.same;
            }
      ]

  pub write-IsWellFormed :
      IsBucketName bucket
      → IsReady key c
      → IsWellFormed (write key (entry_for c key bucket size last_modified) c)
  unfolding write
  write-IsWellFormed named w = record {
    distinct = insert-HasDistinctKeys key _ c.by_key w.distinct;
    entries = λ k e at. write_entries k e named w at;
    routes = λ r k at. write_routes r k w at;
  }

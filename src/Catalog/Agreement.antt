-- ===== src/Catalog/Agreement.antt =====
-- LoadManifests: the owners of keys, and lists of manifests that offer the same in another order.
use parparchik.Common.{String, ℕ, Option, none, some, ◌≡◌, inl, inr, arith}
use parparchik.Common.{List, Member, ◌↔◌, Option-cases}
use parparchik.Common.Assoc.{lookup-empty}
use parparchik.Catalog.Update.{Entry, Catalog, entry_for, clear, lookup}
use parparchik.Catalog.Manifests.{Decoder, BucketManifest, load_manifests}
use parparchik.Catalog.Loading.{
  Offer, offers, Owned, HasSource, accept_all_bound, accept_all_source, load_each-eq-accept_all,
}

module _ {Content : Type 0} (decoder : Decoder Content) where
  -- Every key that a manifest offers is registered, under a bucket that ranks no lower than the
  -- bucket of that offer.
  pub load_manifests_bound :
      (ms : List (BucketManifest Content)) (c : Catalog) (o : Offer)
      → Member o (offers decoder ms)
      → Owned c (load_manifests decoder ms c) o.key o.bucket
  unfolding load_manifests clear
  load_manifests_bound ms c o m =
      rw (load_each-eq-accept_all decoder ms (clear c))
        (accept_all_bound (offers decoder ms) (clear c) o m)

  -- Every registered entry is one that some manifest offers: what was there before is gone.
  pub load_manifests_source :
      (ms : List (BucketManifest Content)) (c : Catalog) (k : String) (e : Entry)
      → lookup k (load_manifests decoder ms c) ≡ some e
      → HasSource c (offers decoder ms) k e
  unfolding load_manifests clear lookup entry_for
  load_manifests_source ms c k e at =
      elim (accept_all_source (offers decoder ms) (clear c) k e
        (rw (load_each-eq-accept_all decoder ms (clear c)) at at)) [
          | inl old ↦ absurd (ground (arith, old, lookup-empty {V = Entry} k))
          | inr from ↦ from
        ]

-- Different buckets among the offers have different ranks.
abbrev pub HasDistinctRanks : (String → ℕ) → List Offer → Type 0
HasDistinctRanks rank os =
    (o p : Offer) → Member o os → Member p os → rank o.bucket ≡ rank p.bucket → o.bucket ≡ p.bucket

abbrev pub bucket_of : Option Entry → Option String
bucket_of none = none
bucket_of (some e) = some e.bucket

module _ {Content : Type 0} (decoder : Decoder Content) where
  owner_le :
      (ms ns : List (BucketManifest Content)) (c : Catalog) (k : String) (e : Entry)
      → ((o : Offer) → Member o (offers decoder ms) → Member o (offers decoder ns))
      → lookup k (load_manifests decoder ms c) ≡ some e
      → Owned c (load_manifests decoder ns c) k e.bucket
  unfolding entry_for
  owner_le ms ns c k e sub at =
      let (o, m, key_from) = load_manifests_source decoder ms c k e at in
      let (e', at', le) = load_manifests_bound decoder ns c o (sub o m) in
      (e', ground (arith, at', key_from.0), ground (arith, le, key_from.1))

  -- Manifest lists that offer the same files, in whatever order and number, give every key to the
  -- same bucket, where different buckets among the offers have different ranks.
  pub load_manifests_order :
      (ms ns : List (BucketManifest Content)) (c : Catalog) (k : String)
      → ((o : Offer) → Member o (offers decoder ms) ↔ Member o (offers decoder ns))
      → HasDistinctRanks c.priority (offers decoder ms)
      → bucket_of (lookup k (load_manifests decoder ms c))
        ≡ bucket_of (lookup k (load_manifests decoder ns c))
  unfolding entry_for
  load_manifests_order ms ns c k same ranks =
      let there = λ (e : Entry) (at : lookup k (load_manifests decoder ms c) ≡ some e).
        owner_le ms ns c k e (λ o. (same o).0) at in
      let back = λ (e : Entry) (at : lookup k (load_manifests decoder ns c) ≡ some e).
        owner_le ns ms c k e (λ o. (same o).1) at in
      elim (Option-cases (lookup k (load_manifests decoder ms c))) [
        | inl missing ↦ elim (Option-cases (lookup k (load_manifests decoder ns c))) [
          | inl missing' ↦ rw (missing, missing')
          | inr (e, at) ↦ let (e', at', _) = back e at in absurd (ground (arith, at', missing))
        ]
        | inr (e, at) ↦
            let (e', at', le) = there e at in
            let (e'', at'', le') = back e' at' in
            let (o, m, from) = load_manifests_source decoder ms c k e at in
            let (p, n, from') = load_manifests_source decoder ns c k e' at' in
            let level : c.priority o.bucket ≡ c.priority p.bucket =
              ground (arith, from.1, from'.1, le, le', at, at'') in
            let owner = ranks o p m ((same p).1 n) level in
            ground (arith, at, at', from.1, from'.1, owner)
      ]

-- ===== src/Catalog/Examples.antt =====
-- Runs of the catalog, and its theorems at concrete inputs.
use parparchik.Common.{
  String, ℕ, none, some, ◌≡◌, ◌≢◌, ◌≤◌, ◌⊎◌, ◌↔◌, inl, refl, sym, ap, ◌∙◌, eq_iff, arith, ◌==◌,
}
use parparchik.Common.{List, [], ◌∷◌, true, false, if◌then◌else◌, Member, length, inr}
use parparchik.Common.Int.{ℤ}
use parparchik.Common.Assoc
use parparchik.Catalog.Update.{
  Entry, Catalog, new, register, set, remove, lookup, lookup_by_route, entry_for, route_for, clear,
}
use parparchik.Catalog.Listing.{list_all, count}
use parparchik.Catalog.Manifests.{
  Decoder, BucketManifest, load_manifests, load_manifest, load_files, load_item,
  decode_manifest_files,
}
use parparchik.Catalog.Invariant.{IsWellFormed}
use parparchik.Catalog.Preservation.{lookup_by_route_iff}
use parparchik.Catalog.Runs.{Operation, call_register, call_set, call_remove, run, run-IsWellFormed}
use parparchik.Catalog.Owners.{register_owner}
use parparchik.Catalog.Loading.{Offer, offers, offers_of_files, Owned, HasSource}
use parparchik.Catalog.Agreement.{
  load_manifests_bound, load_manifests_source, load_manifests_order, bucket_of, HasDistinctRanks,
}
use parparchik.Catalog.Sorted.{IsAscending}
use parparchik.Catalog.Listed.{list_all_lem, list_all_unique}

abbrev rank : String → ℕ
rank b = if b == "pub" then 0 else if b == "priv" then 1 else 2

abbrev kind : String → String
kind b = if b == "pub" then "public" else "private"

abbrev calls : List Operation
calls =
    call_register "a.txt" "priv" (ℤ.pos 5) ""
    ∷ call_register "a.txt" "pub" (ℤ.pos 7) ""
    ∷ call_register "b.txt" "priv" (ℤ.pos 1) ""
    ∷ call_remove "c.txt"
    ∷ []

abbrev sample : Catalog
sample = run calls (new rank kind)

run-IsWellFormed_example : IsWellFormed (run calls (new rank kind))
run-IsWellFormed_example = run-IsWellFormed calls rank kind (omega arith)

abbrev a_pub : Entry
a_pub = record {
  key = "a.txt";
  bucket = "pub";
  bucket_type = "public";
  route = "/pub/a.txt";
  size = ℤ.pos 7;
  last_modified = "";
}

lookup-sample : lookup "a.txt" sample ≡ some a_pub
unfolding run register entry_for new lookup Assoc.lookup Assoc.insert Assoc.delete remove route_for
lookup-sample = refl

lookup_by_route_iff_example :
    (lookup_by_route "/pub/a.txt" sample ≡ some a_pub)
    ↔ ((lookup a_pub.key sample ≡ some a_pub) × (a_pub.route ≡ "/pub/a.txt"))
lookup_by_route_iff_example = lookup_by_route_iff sample "/pub/a.txt" a_pub run-IsWellFormed_example

register_owner_example :
    (e : Entry) × (lookup "b.txt" (register "b.txt" "pub" (ℤ.pos 2) "" sample) ≡ some e)
    × ((lookup "b.txt" sample ≡ some e) ⊎ (e ≡ entry_for sample "b.txt" "pub" (ℤ.pos 2) ""))
    × (sample.priority e.bucket ≤ sample.priority "pub")
    × ((old : Entry)
        → lookup "b.txt" sample ≡ some old
        → sample.priority e.bucket ≤ sample.priority old.bucket)
    × ((j : String)
        → j ≢ "b.txt"
        → lookup j (register "b.txt" "pub" (ℤ.pos 2) "" sample) ≡ lookup j sample)
register_owner_example = register_owner "b.txt" "pub" (ℤ.pos 2) "" sample

list_all_lem_example :
    IsAscending (list_all sample)
    × ((e : Entry) → Member e (list_all sample) ↔ (lookup e.key sample ≡ some e))
    × (length (list_all sample) ≡ count sample)
list_all_lem_example = list_all_lem sample run-IsWellFormed_example

abbrev other_calls : List Operation
other_calls = call_set "b.txt" "priv" (ℤ.pos 1) "" ∷ call_register "a.txt" "pub" (ℤ.pos 7) "" ∷ []

abbrev other : Catalog
other = run other_calls (new rank kind)

same_lookups : (k : String) → lookup k sample ≡ lookup k other
unfolding run register set entry_for new lookup Assoc.lookup Assoc.insert Assoc.delete remove
same_lookups k = ground (arith, eq_iff "a.txt" k, eq_iff "b.txt" k, eq_iff "a.txt" "b.txt")

list_all_unique_example : list_all sample ≡ list_all other
list_all_unique_example =
    list_all_unique sample other run-IsWellFormed_example
      (run-IsWellFormed other_calls rank kind (omega arith)) same_lookups

-- A decoder of documents that are lists of entries already.
abbrev plain : Decoder (List Entry)
plain = record {
  is_empty = elim [ [] ↦ true | e ∷ es ↦ false ];
  envelope = λ files. some (some files);
  bare = λ files. none;
}

abbrev item : String → Entry
item bucket = record {
  key = "a.txt";
  bucket = "";
  bucket_type = "";
  route = "";
  size = ℤ.pos 3;
  last_modified = bucket;
}

abbrev pub_manifest : BucketManifest (List Entry)
pub_manifest = record { bucket = "pub"; content = item "pub" ∷ [] }

abbrev priv_manifest : BucketManifest (List Entry)
priv_manifest = record { bucket = "priv"; content = item "priv" ∷ [] }

abbrev both : List (BucketManifest (List Entry))
both = priv_manifest ∷ pub_manifest ∷ []

abbrev swapped : List (BucketManifest (List Entry))
swapped = pub_manifest ∷ priv_manifest ∷ []

abbrev priv_offer : Offer
priv_offer = record { key = "a.txt"; bucket = "priv"; size = ℤ.pos 3; last_modified = "priv" }

load_manifests_bound_example : Owned sample (load_manifests plain both sample) "a.txt" "priv"
unfolding offers decode_manifest_files offers_of_files
load_manifests_bound_example = load_manifests_bound plain both sample priv_offer (inl refl)

abbrev a_loaded : Entry
a_loaded = record {
  key = "a.txt";
  bucket = "pub";
  bucket_type = "public";
  route = "/pub/a.txt";
  size = ℤ.pos 3;
  last_modified = "pub";
}

abbrev fresh : Catalog
fresh = new rank kind

lookup_loaded : lookup "a.txt" (load_manifests plain both fresh) ≡ some a_loaded
unfolding load_manifests load_manifest decode_manifest_files load_files load_item register entry_for
    new clear lookup Assoc.lookup Assoc.insert Assoc.delete route_for
lookup_loaded = refl

load_manifests_source_example : HasSource fresh (offers plain both) "a.txt" a_loaded
load_manifests_source_example =
    load_manifests_source plain both fresh "a.txt" a_loaded lookup_loaded

same_offers : (o : Offer) → Member o (offers plain both) ↔ Member o (offers plain swapped)
unfolding offers decode_manifest_files offers_of_files
same_offers o = ground arith

abbrev pub_offer : Offer
pub_offer = record { key = "a.txt"; bucket = "pub"; size = ℤ.pos 3; last_modified = "pub" }

bucket_path : {o p : Offer} → o ≡ p → o.bucket ≡ p.bucket
bucket_path e = ap (λ (x : Offer). x.bucket) e

rank_path : {o p : Offer} → o ≡ p → rank o.bucket ≡ rank p.bucket
rank_path e = ap (λ (x : Offer). rank x.bucket) e

listed_ranks : HasDistinctRanks rank (priv_offer ∷ pub_offer ∷ [])
listed_ranks o p (inl a) (inl b) same = bucket_path a ∙ sym (bucket_path b)
listed_ranks o p (inl a) (inr (inl b)) same =
    let apart : ◌≡◌ {A = ℕ} 1 0 = sym (rank_path a) ∙ same ∙ rank_path b in absurd (omega arith)
listed_ranks o p (inr (inl a)) (inl b) same =
    let apart : ◌≡◌ {A = ℕ} 0 1 = sym (rank_path a) ∙ same ∙ rank_path b in absurd (omega arith)
listed_ranks o p (inr (inl a)) (inr (inl b)) same = bucket_path a ∙ sym (bucket_path b)
listed_ranks o p (inl a) (inr (inr b)) same = elim b [ ]
listed_ranks o p (inr (inl a)) (inr (inr b)) same = elim b [ ]
listed_ranks o p (inr (inr a)) n same = elim a [ ]

distinct_ranks : HasDistinctRanks rank (offers plain both)
unfolding offers decode_manifest_files offers_of_files
distinct_ranks = listed_ranks

load_manifests_order_example :
    bucket_of (lookup "a.txt" (load_manifests plain both fresh))
    ≡ bucket_of (lookup "a.txt" (load_manifests plain swapped fresh))
unfolding new
load_manifests_order_example =
    load_manifests_order plain both swapped fresh "a.txt" same_offers distinct_ranks

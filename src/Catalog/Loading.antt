-- ===== src/Catalog/Loading.antt =====
-- LoadManifests as a sequence of offers, and the owner of an offered key.
use parparchik.Common.{String, none, some, ◌≡◌, ◌≤◌, ◌⊎◌, inl, inr, refl, sym, arith, eq_iff}
use parparchik.Common.{List, [], ◌∷◌, ◌++◌, Member}
use parparchik.Common.{if◌then◌else◌, ◌==◌, Bool-cases, Option-cases, ap, ◌∙◌}
use parparchik.Common.Int.{ℤ}
use parparchik.Catalog.Update.{Entry, Catalog, entry_for, register, lookup}
use parparchik.Catalog.Manifests.{
  Decoder, BucketManifest, load_item, load_files, load_manifest, load_each, decode_manifest_files,
}
use parparchik.Catalog.Owners.{
  register_owner, lookup-register, winner, priority-register, bucket_type-register,
}

-- A file that a manifest offers: its item with the bucket of the manifest where it names none.
pub record Offer : Type 0 where
  pub key : String
  pub bucket : String
  pub size : ℤ
  pub last_modified : String

abbrev pub offer : String → Entry → Offer
offer manifest_bucket item = record {
  key = item.key;
  bucket = if item.bucket == "" then manifest_bucket else item.bucket;
  size = item.size;
  last_modified = item.last_modified;
}

-- Items with an empty key offer nothing.
unfoldable pub offers_of_files : String → List Entry → List Offer
offers_of_files b [] = []
offers_of_files b (item ∷ items) =
    let rest = offers_of_files b items in if item.key == "" then rest else offer b item ∷ rest

module _ {Content : Type 0} (decoder : Decoder Content) where
  -- Empty and undecodable manifests offer nothing.
  unfoldable pub offers_of_manifest : BucketManifest Content → List Offer
  offers_of_manifest m =
      if decoder.is_empty m.content then [] else elim (decode_manifest_files decoder m.content) [
        | none ↦ []
        | some files ↦ offers_of_files m.bucket files
      ]

  unfoldable pub offers : List (BucketManifest Content) → List Offer
  unfolding offers_of_manifest
  offers [] = []
  offers (m ∷ ms) = offers_of_manifest m ++ offers ms

abbrev pub accept : Offer → Catalog → Catalog
accept o c = register o.key o.bucket o.size o.last_modified c

pub accept_all : List Offer → Catalog → Catalog
accept_all [] c = c
accept_all (o ∷ os) c = accept_all os (accept o c)

accept_all-append :
    (xs ys : List Offer) (c : Catalog) → accept_all (xs ++ ys) c ≡ accept_all ys (accept_all xs c)
unfolding accept_all
accept_all-append [] ys c = refl
accept_all-append (x ∷ xs) ys c = accept_all-append xs ys (accept x c)

pub load_files-eq-accept_all :
    (b : String) (items : List Entry) (c : Catalog)
    → load_files b items c ≡ accept_all (offers_of_files b items) c
unfolding load_files load_item accept_all offers_of_files
load_files-eq-accept_all b [] c = refl
load_files-eq-accept_all b (item ∷ items) c = elim (Bool-cases (item.key == "")) [
  | inl empty ↦ rw empty (load_files-eq-accept_all b items c)
  | inr named ↦ rw named (load_files-eq-accept_all b items (accept (offer b item) c))
]

module _ {Content : Type 0} (decoder : Decoder Content) where
  load_manifest-eq-accept_all :
      (m : BucketManifest Content) (c : Catalog)
      → load_manifest decoder m c ≡ accept_all (offers_of_manifest decoder m) c
  unfolding load_manifest accept_all offers_of_manifest
  load_manifest-eq-accept_all m c = elim (Bool-cases (decoder.is_empty m.content)) [
    | inl empty ↦ rw empty
    | inr full ↦ rw full (elim (Option-cases (decode_manifest_files decoder m.content)) [
      | inl bad ↦ rw bad
      | inr (files, good) ↦ rw good (load_files-eq-accept_all m.bucket files c)
    ])
  ]

  pub load_each-eq-accept_all :
      (ms : List (BucketManifest Content)) (c : Catalog)
      → load_each decoder ms c ≡ accept_all (offers decoder ms) c
  unfolding load_each offers accept_all
  load_each-eq-accept_all [] c = refl
  load_each-eq-accept_all (m ∷ ms) c =
      load_each-eq-accept_all ms (load_manifest decoder m c)
      ∙ ap (accept_all (offers decoder ms)) (load_manifest-eq-accept_all m c)
      ∙ sym (accept_all-append (offers_of_manifest decoder m) (offers decoder ms) c)

-- An entry with its rank, and the bound that it keeps.
abbrev pub Owned : Catalog → Catalog → String → String → Type 0
Owned c d key bucket =
    (e : Entry) × (lookup key d ≡ some e) × (c.priority e.bucket ≤ c.priority bucket)

module _ (o : Offer) (c : Catalog) where
  priority-accept : (accept o c).priority ≡ c.priority
  priority-accept = priority-register o.key o.bucket o.size o.last_modified c

  bucket_type-accept : (accept o c).bucket_type ≡ c.bucket_type
  bucket_type-accept = bucket_type-register o.key o.bucket o.size o.last_modified c

  lookup-accept :
      (j : String)
      → lookup j (accept o c) ≡ (
          if o.key == j
          then some (winner o.key o.bucket o.size o.last_modified c (lookup o.key c))
          else lookup j c)
  lookup-accept = lookup-register o.key o.bucket o.size o.last_modified c

  accept_keeps : (k : String) (e : Entry) → lookup k c ≡ some e → Owned c (accept o c) k e.bucket
  accept_keeps k e found = elim (Bool-cases (o.key == k)) [
    | inl same ↦
        let (new, at, _, _, bound, _) = register_owner o.key o.bucket o.size o.last_modified c in
        let here : o.key ≡ k = (eq_iff _ _).0 same in
        (new, ground (arith, at, here), bound e (ground (arith, here, found)))
    | inr other ↦ (e, ground (arith, lookup-accept k), ground arith)
  ]

accept_all_keeps :
    (os : List Offer) (c : Catalog) (k : String) (e : Entry)
    → lookup k c ≡ some e
    → Owned c (accept_all os c) k e.bucket
unfolding accept_all
accept_all_keeps [] c k e found = (e, found, omega arith)
accept_all_keeps (o ∷ os) c k e found =
    let (e', at, le) = accept_keeps o c k e found in
    let (e'', at', le') = accept_all_keeps os (accept o c) k e' at in
    (e'', at', ground (arith, le, le', priority-accept o c))

pub accept_all_bound :
    (os : List Offer) (c : Catalog) (o : Offer)
    → Member o os
    → Owned c (accept_all os c) o.key o.bucket
unfolding accept_all
accept_all_bound [] c o m = elim m [ ]
accept_all_bound (p ∷ os) c o (inl same) =
    let (e, at, _, le, _, _) = register_owner p.key p.bucket p.size p.last_modified c in
    let (e', at', le') = accept_all_keeps os (accept p c) p.key e at in
    rw same (e', at', ground (arith, le, le', priority-accept p c))
accept_all_bound (p ∷ os) c o (inr m) =
    let (e, at, le) = accept_all_bound os (accept p c) o m in
    (e, at, ground (arith, le, priority-accept p c))

-- The entry that an offer becomes.
abbrev pub IsFrom : Catalog → String → Entry → Offer → Type 0
IsFrom c k e o = (o.key ≡ k) × (e ≡ entry_for c k o.bucket o.size o.last_modified)

abbrev pub HasSource : Catalog → List Offer → String → Entry → Type 0
HasSource c os k e = (o : Offer) × Member o os × IsFrom c k e o

accept_source :
    (o : Offer) (c : Catalog) (k : String) (e : Entry)
    → lookup k (accept o c) ≡ some e
    → (lookup k c ≡ some e) ⊎ IsFrom c k e o
accept_source o c k e at = elim (Bool-cases (o.key == k)) [
  | inl same ↦
      let (new, found, from, _, _, _) = register_owner o.key o.bucket o.size o.last_modified c in
      let here : o.key ≡ k = (eq_iff _ _).0 same in
      let new_is : new ≡ e = ground (arith, found, at, here) in
      elim from [
        | inl old ↦ inl (ground (arith, old, here, new_is))
        | inr fresh ↦ inr (here, ground (arith, fresh, here, new_is))
      ]
  | inr other ↦ inl (ground (arith, lookup-accept o c k))
]

pub accept_all_source :
    (os : List Offer) (c : Catalog) (k : String) (e : Entry)
    → lookup k (accept_all os c) ≡ some e
    → (lookup k c ≡ some e) ⊎ HasSource c os k e
unfolding accept_all
accept_all_source [] c k e at = inl at
accept_all_source (o ∷ os) c k e at = elim (accept_all_source os (accept o c) k e at) [
  | inl early ↦ elim (accept_source o c k e early) [
    | inl old ↦ inl old
    | inr from ↦ inr (o, inl refl, from)
  ]
  | inr (p, m, from) ↦
      inr (p, inr m, (from.0, unfold entry_for in ground (arith, from.1, bucket_type-accept o c)))
]

-- ===== src/Snapshot/Restored.antt =====
-- A capture that is written, read back and restored.
use parparchik.Common.{String, none, some, List, [], ◌∷◌, ◌++◌, false, ◌≡◌, ◌≢◌, refl, Member}
use parparchik.Common.{Option-cases, inl, inr, arith, if◌then◌else◌, sym, ◌∙◌, subst, ap, ap₂}
use parparchik.Common.Int.{ℤ}
use parparchik.Common.Results.{ok}
use parparchik.Catalog.{
  Catalog, Entry, Manifest, BucketManifest, Decoder, list_all, lookup, load_manifests,
  decode_manifest_files, entry_for,
}
use parparchik.Catalog.Invariant.{IsWellFormed}
use parparchik.Catalog.Listed.{Member-list_all}
use parparchik.Catalog.Loading.{Offer, offers, offers_of_manifest, offers_of_files}
use parparchik.Catalog.Agreement.{load_manifests_bound, load_manifests_source}
use parparchik.Snapshot.Document.{
  Snapshot, Json, document_version, distinct_buckets, manifests_of, capture, marshal, unmarshal,
  re_encode, restore,
}
use parparchik.Snapshot.Offered.{
  shown, own_offer, own_offer-Member, Member-shown, distinct_buckets-Member,
}

-- What encoding/json does: a value that it has encoded is decoded to itself; the document of a
-- manifest, which is an object with `files`, is not empty.
pub record IsFaithful {Content Error : Type 0} (json : Json Content Error) : Type 0 where
  pub document :
      (d : Snapshot)
      → (content : Content) × (json.marshal_document d ≡ ok content)
        × (json.unmarshal_document content ≡ ok d)
  pub manifest :
      (m : Manifest)
      → (content : Content) × (json.marshal_manifest m ≡ ok content)
        × (json.decoder.is_empty content ≡ false)
        × (json.decoder.envelope content ≡ some (some m.files))

module _ {Content Error : Type 0} (json : Json Content Error) (faithful : IsFaithful json) where
  offers_of_re_encoded :
      (m : Manifest) (content : Content)
      → json.decoder.is_empty content ≡ false
      → json.decoder.envelope content ≡ some (some m.files)
      → offers_of_manifest json.decoder (record { bucket = m.bucket; content = content })
        ≡ offers_of_files m.bucket m.files
  unfolding offers_of_manifest decode_manifest_files
  offers_of_re_encoded m content full read = rw (full, read, if◌then◌else◌) refl

  re_encode-shown :
      (ms : List Manifest)
      → (encoded : List (BucketManifest Content)) × (re_encode json ms ≡ ok encoded)
        × (offers json.decoder encoded ≡ shown ms)
  unfolding re_encode offers shown
  re_encode-shown [] = ([], refl, refl)
  re_encode-shown (m ∷ ms) =
      let (encoded, done, same) = re_encode-shown ms in
      let (content, wrote, full, read) = faithful.manifest m in
      (
        record { bucket = m.bucket; content = content } ∷ encoded,
        rw (wrote, done, re_encode) refl,
        ap₂ ◌++◌ (offers_of_re_encoded m content full read) same,
      )

  unmarshal-marshal :
      (d : Snapshot)
      → d.version ≡ document_version
      → (content : Content) × (marshal json d ≡ ok content) × (unmarshal json content ≡ ok d)
  unfolding marshal unmarshal
  unmarshal-marshal d current =
      let (content, wrote, read) = faithful.document d in
      (content, rw (wrote, marshal) refl, rw (read, unmarshal) (rw (current, if◌then◌else◌) refl))

-- An entry of a well-formed catalog is the one that its own fields give.
entry_for-own :
    (c target : Catalog) (k : String) (e : Entry)
    → IsWellFormed c
    → target.bucket_type ≡ c.bucket_type
    → lookup k c ≡ some e
    → entry_for target k e.bucket e.size e.last_modified ≡ e
unfolding entry_for lookup
entry_for-own c target k e w types at =
    let i = w.entries k e at in
    let typed = ap (λ f. f e.bucket) types ∙ sym i.typed in ground (arith, i.key, typed, i.routed)

module _ {Content : Type 0} (decoder : Decoder Content) (c target : Catalog) (w : IsWellFormed c)
    (types : target.bucket_type ≡ c.bucket_type) (encoded : List (BucketManifest Content))
    (bs : List String) (same : offers decoder encoded ≡ shown (manifests_of bs c)) where
  restored_sound :
      (k : String) (e : Entry)
      → lookup k (load_manifests decoder encoded target) ≡ some e
      → lookup k c ≡ some e
  restored_sound k e at =
      let (o, m, fit) = load_manifests_source decoder encoded target k e at in
      let (d, listed, own) = Member-shown bs c o (subst (λ os. Member o os) same m) in
      let here : lookup k c ≡ some d =
        ap (λ j. lookup j c) (sym fit.0 ∙ ap (λ (x : Offer). x.key) own)
        ∙ (Member-list_all c w d).0 listed in
      here
      ∙ ap some (
          sym (entry_for-own c target k d w types here)
          ∙ ap (λ (x : Offer). entry_for target k x.bucket x.size x.last_modified) (sym own)
          ∙ sym fit.1)

  restored_complete :
      (k : String) (e : Entry)
      → lookup "" c ≡ none
      → ((d : Entry) → Member d (list_all c) → Member d.bucket bs)
      → lookup k c ≡ some e
      → (d : Entry) × (lookup k (load_manifests decoder encoded target) ≡ some d)
  unfolding lookup
  restored_complete k e no_empty all at =
      let keyed : e.key ≡ k = (w.entries k e at).key in
      let listed = (Member-list_all c w e).1 (ap (λ j. lookup j c) keyed ∙ at) in
      let named : e.key ≢ "" =
        λ empty. absurd (ground (arith, no_empty, ap (λ j. lookup j c) (sym keyed ∙ empty), at)) in
      let offered =
        subst (λ os. Member (own_offer e) os) (sym same)
          (own_offer-Member bs c e named (all e listed) listed) in
      let (d, found, _) = load_manifests_bound decoder encoded target (own_offer e) offered in
      (d, ap (λ j. lookup j (load_manifests decoder encoded target)) (sym keyed) ∙ found)

  restored_same :
      lookup "" c ≡ none
      → ((d : Entry) → Member d (list_all c) → Member d.bucket bs)
      → (k : String) → lookup k (load_manifests decoder encoded target) ≡ lookup k c
  restored_same no_empty all k = elim (Option-cases (lookup k c)) [
    | inr (e, at) ↦
        let (d, found) = restored_complete k e no_empty all at in
        found ∙ sym (restored_sound k d found)
    | inl missing ↦ elim (Option-cases (lookup k (load_manifests decoder encoded target))) [
      | inl missing_too ↦ missing_too ∙ sym missing
      | inr (d, found) ↦ absurd (ground (arith, missing, restored_sound k d found))
    ]
  ]

-- What a capture gives back.
pub record IsBackedUp {Content Error : Type 0} (json : Json Content Error) (now : ℤ)
    (c target : Catalog) : Type 0 where
  pub content : Content
  pub written : marshal json (capture now c) ≡ ok content
  pub read : unmarshal json content ≡ ok (capture now c)
  pub restored : Catalog
  pub done : restore json target (capture now c) ≡ ok restored
  pub same : (k : String) → lookup k restored ≡ lookup k c

-- A capture of a well-formed catalog that registers no empty key is written, read back as the same
-- document, and restored without an error; and the restored catalog answers every Lookup as the
-- captured one, whatever it held before and whatever its priorities, where it types buckets alike
-- and encoding/json decodes what it has encoded.
pub restore-capture :
    {Content Error : Type 0} (json : Json Content Error) (now : ℤ) (c target : Catalog)
    → IsFaithful json
    → IsWellFormed c
    → lookup "" c ≡ none
    → target.bucket_type ≡ c.bucket_type
    → IsBackedUp json now c target
unfolding restore capture
restore-capture json now c target faithful w no_empty types =
    let bs = distinct_buckets (list_all c) in
    let (content, wrote, read) = unmarshal-marshal json faithful (capture now c) refl in
    let (encoded, done, offered) = re_encode-shown json faithful (manifests_of bs c) in
    record {
      content = content;
      written = wrote;
      read = read;
      restored = load_manifests json.decoder encoded target;
      done = rw (done, restore) refl;
      same =
          restored_same json.decoder c target w types encoded bs offered no_empty
            (distinct_buckets-Member (list_all c));
    }

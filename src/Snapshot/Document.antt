-- ===== src/Snapshot/Document.antt =====
-- snapshot.go. encoding/json is a parameter, and so is the clock.
use parparchik.Common.{
  String, ℕ, none, some, List, [], ◌∷◌, Bool, true, false, str_ltb, if◌then◌else◌, nat_eq,
}
use parparchik.Common.Assoc
use parparchik.Common.Assoc.{Assoc}
use parparchik.Common.Int.{ℤ}
use parparchik.Common.Results.{Result, ok, err}
use parparchik.Catalog.{
  Catalog, Entry, Manifest, BucketManifest, Decoder, list_all, manifest_for_bucket, load_manifests,
}

abbrev pub document_version : ℕ
document_version = 1

pub record Snapshot : Type 0 where
  pub version : ℕ
  pub captured_at : ℤ
  pub buckets : List Manifest

pub data SnapshotError (Error : Type 0) : Type 0 where
  encode_document decode_document : Error → SnapshotError Error
  unsupported_version : ℕ → SnapshotError Error
  re_encode_manifest : String → Error → SnapshotError Error

-- json.MarshalIndent and json.Unmarshal of a document, json.Marshal of a manifest, and what
-- LoadManifests decodes.
pub record Json (Content Error : Type 0) : Type 0 where
  pub marshal_document : Snapshot → Result Error Content
  pub unmarshal_document : Content → Result Error Snapshot
  pub marshal_manifest : Manifest → Result Error Content
  pub decoder : Decoder Content

abbrev pub is_seen : String → Assoc Bool → Bool
is_seen bucket seen = elim (Assoc.lookup bucket seen) [ none ↦ false | some b ↦ b ]

-- The loop of distinctBuckets.
unfoldable pub collect_buckets : List Entry → Assoc Bool → List String
collect_buckets [] seen = []
collect_buckets (e ∷ es) seen = elim (is_seen e.bucket seen) [
  | true ↦ collect_buckets es seen
  | false ↦ e.bucket ∷ collect_buckets es (Assoc.insert e.bucket true seen)
]

-- `sort.Strings`
unfoldable pub insert_string : String → List String → List String
insert_string s [] = s ∷ []
insert_string s (t ∷ ts) =
    let rest = insert_string s ts in if str_ltb s t then s ∷ t ∷ ts else t ∷ rest

unfoldable pub sort_strings : List String → List String
unfolding insert_string
sort_strings [] = []
sort_strings (s ∷ ss) = insert_string s (sort_strings ss)

unfoldable pub distinct_buckets : List Entry → List String
unfolding collect_buckets sort_strings
distinct_buckets entries = sort_strings (collect_buckets entries [])

unfoldable pub manifests_of : List String → Catalog → List Manifest
manifests_of [] c = []
manifests_of (b ∷ bs) c = manifest_for_bucket b c ∷ manifests_of bs c

unfoldable pub capture : ℤ → Catalog → Snapshot
unfolding distinct_buckets manifests_of
capture now c = record {
  version = document_version;
  captured_at = now;
  buckets = manifests_of (distinct_buckets (list_all c)) c;
}

module _ {Content Error : Type 0} (json : Json Content Error) where
  unfoldable pub marshal : Snapshot → Result (SnapshotError Error) Content
  marshal d = elim (json.marshal_document d) [
    | err e ↦ err (SnapshotError.encode_document e)
    | ok content ↦ ok content
  ]

  unfoldable pub unmarshal : Content → Result (SnapshotError Error) Snapshot
  unmarshal content = elim (json.unmarshal_document content) [
    | err e ↦ err (SnapshotError.decode_document e)
    | ok d ↦
        if nat_eq d.version document_version
        then ok d
        else err (SnapshotError.unsupported_version d.version)
  ]

  unfoldable pub re_encode :
      List Manifest → Result (SnapshotError Error) (List (BucketManifest Content))
  re_encode [] = ok []
  re_encode (m ∷ ms) =
      let rest = re_encode ms in
      elim (json.marshal_manifest m) [
        | err e ↦ err (SnapshotError.re_encode_manifest m.bucket e)
        | ok content ↦ elim rest [
          | err e ↦ err e
          | ok encoded ↦ ok (record { bucket = m.bucket; content = content } ∷ encoded)
        ]
      ]

  unfoldable pub restore : Catalog → Snapshot → Result (SnapshotError Error) Catalog
  unfolding re_encode
  restore c d = elim (re_encode d.buckets) [
    | err e ↦ err e
    | ok manifests ↦ ok (load_manifests json.decoder manifests c)
  ]

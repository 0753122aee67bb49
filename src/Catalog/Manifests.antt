-- ===== src/Catalog/Manifests.antt =====
-- catalog.go: LoadManifests and decodeManifestFiles. `json.Unmarshal` is a parameter: what it
-- makes of a document read as an envelope (the `files` it sets, `none` for nil), and of one read
-- as a bare array; the outer `none` is an error.
use parparchik.Common.{String, Bool, Option, none, some, List, [], ◌∷◌, if◌then◌else◌, ◌==◌}
use parparchik.Catalog.Update.{Entry, Catalog, register, clear}

pub record Decoder (Content : Type 0) : Type 0 where
  pub is_empty : Content → Bool
  pub envelope : Content → Option (Option (List Entry))
  pub bare : Content → Option (List Entry)

pub record BucketManifest (Content : Type 0) : Type 0 where
  pub bucket : String
  pub content : Content

-- The body of the loop over the files of one manifest.
unfoldable pub load_item : String → Entry → Catalog → Catalog
load_item manifest_bucket item c =
    if item.key == ""
    then c
    else let bucket = if item.bucket == "" then manifest_bucket else item.bucket in
      register item.key bucket item.size item.last_modified c

unfoldable pub load_files : String → List Entry → Catalog → Catalog
load_files manifest_bucket [] c = c
load_files manifest_bucket (item ∷ files) c =
    load_files manifest_bucket files (load_item manifest_bucket item c)

module _ {Content : Type 0} (decoder : Decoder Content) where
  unfoldable pub decode_bare : Content → Option (List Entry)
  decode_bare content = decoder.bare content

  unfoldable pub decode_manifest_files : Content → Option (List Entry)
  unfolding decode_bare
  decode_manifest_files content = elim (decoder.envelope content) [
    | none ↦ decode_bare content
    | some none ↦ decode_bare content
    | some (some files) ↦ some files
  ]

  unfoldable pub load_manifest : BucketManifest Content → Catalog → Catalog
  load_manifest m c =
      if decoder.is_empty m.content then c else elim (decode_manifest_files m.content) [
        | none ↦ c
        | some files ↦ load_files m.bucket files c
      ]

  unfoldable pub load_each : List (BucketManifest Content) → Catalog → Catalog
  load_each [] c = c
  load_each (m ∷ ms) c = load_each ms (load_manifest m c)

  unfoldable pub load_manifests : List (BucketManifest Content) → Catalog → Catalog
  unfolding load_each
  load_manifests manifests c = load_each manifests (clear c)

-- ===== src/Config/Types.antt =====
-- config.go: RepoKind, Bucket, Config and the questions about them.
use parparchik.Common.{String, ℕ, suc, Option, none, some, List, [], ◌∷◌, Bool, true, false, ◌==◌}
use parparchik.Common.{if◌then◌else◌}
use parparchik.Common.Int.{ℤ}

pub data RepoKind : Type 0 where
  hosted proxy virtual : RepoKind

pub record Bucket : Type 0 where
  pub name : String
  pub manifest_key : String
  pub public : Bool
  pub kind : RepoKind
  pub upstream_url : String
  pub cache_ttl : ℤ
  pub members : List String

abbrev pub is_virtual : RepoKind → Bool
is_virtual RepoKind.virtual = true
is_virtual _ = false

unfoldable pub has_storage : Bucket → Bool
has_storage b = if is_virtual b.kind then false else true

-- The floats of the rate limit are a type of their own.
pub record Config (Float : Type 0) : Type 0 where
  pub aws_region : String
  pub s3_endpoint : String
  pub s3_external_endpoint : String
  pub aws_access_key_id : String
  pub aws_secret_access_key : String
  pub host : String
  pub port : ℤ
  pub buckets : List Bucket
  pub api_keys : List String
  pub rate_limit_per_second : Float
  pub rate_limit_burst : ℤ
  pub sync_interval : ℤ

-- The methods of Config that follow read its buckets only.
unfoldable pub bucket_by_name : String → List Bucket → Option Bucket
bucket_by_name name [] = none
bucket_by_name name (b ∷ bs) = if b.name == name then some b else bucket_by_name name bs

unfoldable pub is_public : String → List Bucket → Bool
is_public name bs = elim (bucket_by_name name bs) [ none ↦ false | some b ↦ b.public ]

unfoldable pub bucket_type : String → List Bucket → String
bucket_type name bs = if is_public name bs then "public" else "private"

-- The loop of BucketPriority; at the end the index is the number of the buckets.
unfoldable pub bucket_priority : String → List Bucket → ℕ
bucket_priority name [] = 0
bucket_priority name (b ∷ bs) = if b.name == name then 0 else suc (bucket_priority name bs)

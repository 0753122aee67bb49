-- ===== src/Config/Parse.antt =====
-- config.go: parseBucketsList, parseProxyRepos, parseVirtualRepos.
use parparchik.Common.{String, Option, none, some, List, [], ◌∷◌, Bool, false, ◌==◌, ◌||◌}
use parparchik.Common.{if◌then◌else◌}
use parparchik.Common.Int.{ℤ}
use parparchik.Common.Results.{Result, ok, err}
use parparchik.Common.Split.{split, trim_space}
use parparchik.Config.Types.{Bucket, RepoKind}

-- Why Load fails; the wrapped errors of the standard library's parsers are left out.
pub data ConfigError : Type 0 where
  invalid_port no_buckets invalid_rate_limit invalid_burst invalid_sync_interval : ConfigError
  invalid_ttl : String → ConfigError
  unknown_member nested_virtual : String → String → ConfigError

abbrev pub default_manifest_key : String
default_manifest_key = ".parparchik/files.json"

-- `len(parts) > 1 && parts[1] != ""`
unfoldable pub manifest_key_of : List String → String
manifest_key_of (name ∷ key ∷ rest) = if key == "" then default_manifest_key else key
manifest_key_of _ = default_manifest_key

-- `len(parts) > 2 && parts[2] == "public"`
unfoldable pub public_flag : List String → Bool
public_flag (name ∷ second ∷ flag ∷ rest) = flag == "public"
public_flag _ = false

-- One round of the loop of parseBucketsList: the bucket that it appends.
unfoldable pub bucket_of_parts : List String → Option Bucket
unfolding manifest_key_of public_flag
bucket_of_parts [] = none
bucket_of_parts (name ∷ rest) =
    if name == ""
    then none
    else some (record {
      name = name;
      manifest_key = manifest_key_of (name ∷ rest);
      public = public_flag (name ∷ rest);
      kind = RepoKind.hosted;
      upstream_url = "";
      cache_ttl = ℤ.pos 0;
      members = [];
    })

unfoldable pub bucket_of_token : String → Option Bucket
unfolding bucket_of_parts
bucket_of_token token =
    if trim_space token == "" then none else bucket_of_parts (split b':' (trim_space token))

abbrev pub cons_some {ℓ} : {A : Type ℓ} → Option A → List A → List A
cons_some none xs = xs
cons_some (some x) xs = x ∷ xs

unfoldable pub buckets_of_tokens : List String → List Bucket
buckets_of_tokens [] = []
buckets_of_tokens (token ∷ tokens) = cons_some (bucket_of_token token) (buckets_of_tokens tokens)

unfoldable pub parse_buckets_list : String → List Bucket
unfolding buckets_of_tokens
parse_buckets_list raw = buckets_of_tokens (split b',' raw)

module _ (parse_duration : String → Option ℤ) where
  -- `len(parts) > 3 && parts[3] != ""`
  unfoldable pub ttl_of : List String → Result ConfigError ℤ
  ttl_of (name ∷ url ∷ flag ∷ ttl ∷ rest) =
      if ttl == ""
      then ok (ℤ.pos 0)
      else elim (parse_duration ttl) [ none ↦ err (invalid_ttl name) | some d ↦ ok d ]
  ttl_of _ = ok (ℤ.pos 0)

  -- One round of the loop of parseProxyRepos.
  unfoldable pub proxy_of_parts : List String → Result ConfigError (Option Bucket)
  unfolding public_flag ttl_of
  proxy_of_parts (name ∷ url ∷ rest) =
      if name == "" || url == "" then ok none else elim (ttl_of (name ∷ url ∷ rest)) [
        | err e ↦ err e
        | ok ttl ↦ ok (
            some (record {
              name = name;
              manifest_key = default_manifest_key;
              public = public_flag (name ∷ url ∷ rest);
              kind = RepoKind.proxy;
              upstream_url = url;
              cache_ttl = ttl;
              members = [];
            }))
      ]
  proxy_of_parts _ = ok none

  unfoldable pub proxy_of_token : String → Result ConfigError (Option Bucket)
  unfolding proxy_of_parts
  proxy_of_token token =
      if trim_space token == "" then ok none else proxy_of_parts (split b'|' (trim_space token))

  unfoldable pub proxies_of_tokens : List String → Result ConfigError (List Bucket)
  proxies_of_tokens [] = ok []
  proxies_of_tokens (token ∷ tokens) =
      let rest = proxies_of_tokens tokens in
      elim (proxy_of_token token) [
        | err e ↦ err e
        | ok b ↦ elim rest [ err e ↦ err e | ok bs ↦ ok (cons_some b bs) ]
      ]

  unfoldable pub parse_proxy_repos : String → Result ConfigError (List Bucket)
  unfolding proxies_of_tokens
  parse_proxy_repos raw = proxies_of_tokens (split b',' raw)

-- Trimmed, and without the empty ones; also the loop over the API keys.
unfoldable pub non_blank : List String → List String
non_blank [] = []
non_blank (s ∷ ss) =
    let rest = non_blank ss in if trim_space s == "" then rest else trim_space s ∷ rest

-- One round of the loop of parseVirtualRepos.
unfoldable pub virtual_of_members : String → List String → Option Bucket
virtual_of_members name [] = none
virtual_of_members name (member ∷ members) = some (record {
  name = name;
  manifest_key = "";
  public = false;
  kind = RepoKind.virtual;
  upstream_url = "";
  cache_ttl = ℤ.pos 0;
  members = member ∷ members;
})

unfoldable pub virtual_of_parts : List String → Option Bucket
unfolding virtual_of_members non_blank
virtual_of_parts (name ∷ members ∷ rest) =
    if name == "" || members == ""
    then none
    else virtual_of_members name (non_blank (split b'+' members))
virtual_of_parts _ = none

unfoldable pub virtual_of_token : String → Option Bucket
unfolding virtual_of_parts
virtual_of_token token =
    if trim_space token == "" then none else virtual_of_parts (split b'|' (trim_space token))

unfoldable pub virtuals_of_tokens : List String → List Bucket
unfolding virtual_of_token
virtuals_of_tokens [] = []
virtuals_of_tokens (token ∷ tokens) = cons_some (virtual_of_token token) (virtuals_of_tokens tokens)

unfoldable pub parse_virtual_repos : String → List Bucket
unfolding virtuals_of_tokens
parse_virtual_repos raw = virtuals_of_tokens (split b',' raw)

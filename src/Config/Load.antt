-- ===== src/Config/Load.antt =====
-- config.go: loadBuckets, validateVirtualRepoMembers and Load. The environment is a function from
-- names to values, "" where a variable is not set. The number and duration parsers of the standard
-- library are parameters; `none` is an error.
use parparchik.Common.{
  String, Option, none, some, List, [], ◌∷◌, ◌++◌, Bool, true, false, ◌==◌, ◌||◌,
}
use parparchik.Common.{if◌then◌else◌}
use parparchik.Common.Assoc
use parparchik.Common.Assoc.{Assoc}
use parparchik.Common.Int.{ℤ}
use parparchik.Common.Results.{Result, ok, err, ◌>>=◌}
use parparchik.Common.Split.{split}
use parparchik.Config.Types.{Bucket, RepoKind, Config, is_virtual}
use parparchik.Config.Parse.{
  ConfigError, invalid_port, no_buckets, invalid_rate_limit, invalid_burst, invalid_sync_interval,
  unknown_member, nested_virtual, default_manifest_key, parse_buckets_list, parse_proxy_repos,
  parse_virtual_repos, non_blank,
}

abbrev pub Environment : Type 0
Environment = String → String

unfoldable pub env : Environment → String → String → String
env getenv name default = if getenv name == "" then default else getenv name

abbrev pub legacy_bucket : String → String → Bool → Bucket
legacy_bucket name manifest public = record {
  name = name;
  manifest_key = manifest;
  public = public;
  kind = RepoKind.hosted;
  upstream_url = "";
  cache_ttl = ℤ.pos 0;
  members = [];
}

unfoldable pub load_buckets : Environment → Result ConfigError (List Bucket)
unfolding env
load_buckets getenv =
    let raw = env getenv "PARPARCHIK_BUCKETS" "" in
    let pub_name = env getenv "PARPARCHIK_PUBLIC_BUCKET" "" in
    let priv_name = env getenv "PARPARCHIK_PRIVATE_BUCKET" "" in
    let manifest = env getenv "PARPARCHIK_REGISTRY_MANIFEST_KEY" default_manifest_key in
    if raw == ""
    then (if pub_name == "" || priv_name == ""
        then err no_buckets
        else ok
            (legacy_bucket pub_name manifest true ∷ legacy_bucket priv_name manifest false ∷ []))
    else ok (parse_buckets_list raw)

-- The map `byName`: of two buckets with one name the later stays.
unfoldable pub by_name : List Bucket → Assoc Bucket → Assoc Bucket
by_name [] m = m
by_name (b ∷ bs) m = by_name bs (Assoc.insert b.name b m)

unfoldable pub check_members : Assoc Bucket → String → List String → Result ConfigError (Unit {0})
check_members m virtual [] = ok tt
check_members m virtual (member ∷ members) =
    let rest = check_members m virtual members in
    elim (Assoc.lookup member m) [
      | none ↦ err (unknown_member virtual member)
      | some b ↦ if is_virtual b.kind then err (nested_virtual virtual member) else rest
    ]

unfoldable pub check_virtuals : Assoc Bucket → List Bucket → Result ConfigError (Unit {0})
check_virtuals m [] = ok tt
check_virtuals m (virtual ∷ virtuals) =
    let rest = check_virtuals m virtuals in
    elim (check_members m virtual.name virtual.members) [ err e ↦ err e | ok _ ↦ rest ]

unfoldable pub validate_virtual_repo_members :
    List Bucket → List Bucket → Result ConfigError (Unit {0})
unfolding by_name check_members check_virtuals
validate_virtual_repo_members all_buckets virtual_repos =
    check_virtuals (by_name all_buckets []) virtual_repos

abbrev pub or_fail : {A : Type 0} → ConfigError → Option A → Result ConfigError A
or_fail e none = err e
or_fail e (some a) = ok a

pub record Parsers (Float : Type 0) : Type 0 where
  pub atoi : String → Option ℤ
  pub parse_float : String → Option Float
  pub parse_duration : String → Option ℤ

module _ {Float : Type 0} (parsers : Parsers Float) (getenv : Environment) where
  unfoldable pub load_repos : Result ConfigError (List Bucket)
  load_repos = do
    hosted_buckets ← load_buckets getenv
    proxy_repos ← parse_proxy_repos parsers.parse_duration (env getenv "PARPARCHIK_PROXY_REPOS" "")
    let virtual_repos = parse_virtual_repos (env getenv "PARPARCHIK_VIRTUAL_REPOS" "")
    let buckets = (hosted_buckets ++ proxy_repos) ++ virtual_repos
    _ ← validate_virtual_repo_members buckets virtual_repos
    ok buckets

  unfoldable pub api_keys : List String
  api_keys =
      let raw = env getenv "PARPARCHIK_API_KEYS" "" in
      if raw == "" then [] else non_blank (split b',' raw)

  unfoldable pub load : Result ConfigError (Config Float)
  unfolding load_repos api_keys env
  load = do
    port ← or_fail invalid_port (parsers.atoi (env getenv "PARPARCHIK_PORT" "8080"))
    buckets ← load_repos
    rate_limit ←
        or_fail invalid_rate_limit
          (parsers.parse_float (env getenv "PARPARCHIK_RATE_LIMIT_PER_SECOND" "5"))
    burst ← or_fail invalid_burst (parsers.atoi (env getenv "PARPARCHIK_RATE_LIMIT_BURST" "10"))
    sync_interval ←
        or_fail invalid_sync_interval
          (parsers.parse_duration (env getenv "PARPARCHIK_SYNC_INTERVAL" "5m"))
    ok (record {
      aws_region = env getenv "AWS_REGION" "us-east-1";
      s3_endpoint = env getenv "S3_ENDPOINT" "";
      s3_external_endpoint = env getenv "S3_EXTERNAL_ENDPOINT" "";
      aws_access_key_id = env getenv "AWS_ACCESS_KEY_ID" "";
      aws_secret_access_key = env getenv "AWS_SECRET_ACCESS_KEY" "";
      host = env getenv "PARPARCHIK_HOST" "0.0.0.0";
      port = port;
      buckets = buckets;
      api_keys = api_keys;
      rate_limit_per_second = rate_limit;
      rate_limit_burst = burst;
      sync_interval = sync_interval;
    })

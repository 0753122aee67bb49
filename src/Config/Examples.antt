-- ===== src/Config/Examples.antt =====
-- A configuration from the environment, and the theorems about it at concrete inputs.
use parparchik.Common.{
  ℕ, none, some, List, [], ◌∷◌, true, false, ◌≡◌, ◌<◌, ◌⊎◌, inl, inr, refl, if◌then◌else◌, ◌==◌,
  length, All,
}
use parparchik.Common.Int.{ℤ}
use parparchik.Common.Assoc
use parparchik.Common.Results.{ok}
use parparchik.Common.Split.{split, trim_space}
use parparchik.Config.Types.{Bucket, RepoKind, Config, bucket_by_name, bucket_priority}
use parparchik.Config.Parse.{
  parse_buckets_list, bucket_of_token, parse_proxy_repos, proxy_of_token, parse_virtual_repos,
}
use parparchik.Config.Load.{Environment, Parsers, load_buckets, validate_virtual_repo_members, load}
use parparchik.Config.Members.{IsResolvable}
use parparchik.Config.Priority.{get_elem?, bucket_priority_cases}
use parparchik.Config.Accepted.{load-IsResolvable}

abbrev parsers : Parsers ℕ
parsers = record {
  atoi =
      λ s. if s == "8080" then some (ℤ.pos 8080) else if s == "10" then some (ℤ.pos 10) else none;
  parse_float = λ s. if s == "5" then some 5 else none;
  parse_duration =
      λ s. if s == "5m" then some (ℤ.pos 300) else if s == "1h" then some (ℤ.pos 3600) else none;
}

abbrev getenv : Environment
getenv name =
    if name == "PARPARCHIK_BUCKETS"
    then "pub:m.json:public, priv"
    else if name == "PARPARCHIK_PROXY_REPOS"
    then "npm|https://npm.example||1h"
    else if name == "PARPARCHIK_VIRTUAL_REPOS"
    then "all|pub+npm"
    else ""

abbrev pub_bucket : Bucket
pub_bucket = record {
  name = "pub";
  manifest_key = "m.json";
  public = true;
  kind = RepoKind.hosted;
  upstream_url = "";
  cache_ttl = ℤ.pos 0;
  members = [];
}

abbrev priv_bucket : Bucket
priv_bucket = record pub_bucket {
  name = "priv";
  manifest_key = ".parparchik/files.json";
  public = false;
}

abbrev npm_bucket : Bucket
npm_bucket = record priv_bucket {
  name = "npm";
  kind = RepoKind.proxy;
  upstream_url = "https://npm.example";
  cache_ttl = ℤ.pos 3600;
}

abbrev all_bucket : Bucket
all_bucket = record {
  name = "all";
  manifest_key = "";
  public = false;
  kind = RepoKind.virtual;
  upstream_url = "";
  cache_ttl = ℤ.pos 0;
  members = "pub" ∷ "npm" ∷ [];
}

abbrev sample_buckets : List Bucket
sample_buckets = pub_bucket ∷ priv_bucket ∷ npm_bucket ∷ all_bucket ∷ []

abbrev sample_config : Config ℕ
sample_config = record {
  aws_region = "us-east-1";
  s3_endpoint = "";
  s3_external_endpoint = "";
  aws_access_key_id = "";
  aws_secret_access_key = "";
  host = "0.0.0.0";
  port = ℤ.pos 8080;
  buckets = sample_buckets;
  api_keys = [];
  rate_limit_per_second = 5;
  rate_limit_burst = ℤ.pos 10;
  sync_interval = ℤ.pos 300;
}

loads : load parsers getenv ≡ ok sample_config
unfolding load load_buckets parse_proxy_repos split proxy_of_token trim_space
    validate_virtual_repo_members parse_virtual_repos Assoc.lookup parse_buckets_list
    bucket_of_token Assoc.insert
loads = refl

load-IsResolvable_example : All (IsResolvable sample_config.buckets) all_bucket.members
load-IsResolvable_example =
    load-IsResolvable parsers getenv sample_config all_bucket loads (inr (inr (inr (inl refl))))
      refl

bucket_priority_cases_example :
    ((bucket_by_name "npm" sample_buckets ≡ none)
      × (bucket_priority "npm" sample_buckets ≡ length sample_buckets))
    ⊎ ((b : Bucket) × (bucket_by_name "npm" sample_buckets ≡ some b)
        × (b.name ≡ "npm")
        × (bucket_priority "npm" sample_buckets < length sample_buckets)
        × (get_elem? sample_buckets (bucket_priority "npm" sample_buckets) ≡ some b))
bucket_priority_cases_example = bucket_priority_cases "npm" sample_buckets

-- ===== src/Http/Examples.antt =====
-- A server with one public bucket and one key, and the theorems about it at concrete requests.
use parparchik.Common.{
  String, ℕ, none, some, List, [], ◌∷◌, Bool, true, false, ◌≡◌, refl, arith, eq_iff, ◌↔◌, ap,
}
use parparchik.Common.Assoc
use parparchik.Common.Assoc.{HasDistinctKeys}
use parparchik.Common.Int.{pos}
use parparchik.Common.Results.{ok, err}
use parparchik.Config.{Bucket, RepoKind}
use parparchik.Catalog.{Catalog, Entry, new, set, lookup_by_route, entry_for, route_for}
use parparchik.Catalog.Invariant.{IsWellFormed}
use parparchik.Catalog.Preservation.{new-IsWellFormed, set-IsWellFormed}
use parparchik.Resolver.{Object, Services}
use parparchik.Resolver.Sound.{HasBucketNames}
use parparchik.Common.Split.{split, push_head, cut_prefix}
use parparchik.Http.Validation.{validate_key}
use parparchik.Http.Keys.{IsSafeKey, validate_key_iff}
use parparchik.Http.Access.{
  LimiterEntry, RateLimiter, authorized, presented_key, allow, enabled, valid,
}
use parparchik.Http.Answers.{Body, reply, unauthorized}
use parparchik.Http.Handlers.{Api}
use parparchik.Http.Refused.{IsRefused, IsUntouched, IsRejected}
use parparchik.Http.Gate.{routes_unauthorized, routes_not_ready, routes_unsafe_key}
use parparchik.Http.Downloads.{location_of}
use parparchik.Http.Served.{IsDownload, routes_redirect, routes_public_download}
use parparchik.Http.Life.{Boots, ReadsNamed, run_ready_iff, run_events-IsWellFormed}
use parparchik.Http.Idle.{
  LimiterEvent, asks, tick, run_limiter, own_entry, own_limiter, run_limiter_lem,
}
use parparchik.Http.Server.{step, run_bootstrap}
use parparchik.Resolver.{bootstrap, ◌>>=◌, call, pure}
use parparchik.Config.{has_storage}
use parparchik.Common.{zero, suc}
use parparchik.Catalog.{Decoder, decode_manifest_files}
use parparchik.Http.Server.{
  Pattern, TopPattern, Request, Setup, Event, routes, run, boot, request, sync_tick,
}

abbrev file : Object
file = record { key = "a.txt"; size = pos 5; last_modified = "" }

-- The storage has the file in its one bucket, and an empty manifest.
abbrev listed_bucket : ℕ → String
listed_bucket zero = "pub"
listed_bucket (suc n) = "pub/b"

-- A manifest of one file, which names the bucket "pub", or from 1 on one with a slash.
abbrev listing : Decoder ℕ
listing = record {
  is_empty = λ c. false;
  envelope = λ c. none;
  bare = λ c. some (
      record {
        key = "b.txt";
        bucket = listed_bucket c;
        bucket_type = "public";
        route = "";
        size = pos 5;
        last_modified = "";
      }
      ∷ []);
}

abbrev services : Services ℕ ℕ ℕ
services = record {
  list_objects = λ bucket w. (ok (file ∷ []), w);
  head_object = λ bucket key w. (ok (some file), w);
  get_object = λ bucket key w. (ok 0, w);
  put_object = λ bucket key body content_type w. (ok tt, w);
  fetch = λ url key w. (ok none, w);
  marshal = λ m. ok 0;
  decoder = listing;
  content_length = λ c. c;
  now = λ w. pos w;
  parse_time = λ s. none;
}

abbrev pub_bucket : Bucket
pub_bucket = record {
  name = "pub";
  manifest_key = "m.json";
  public = true;
  kind = RepoKind.hosted;
  upstream_url = "";
  cache_ttl = pos 0;
  members = [];
}

-- Each limiter grants every request.
abbrev setup : Setup ℕ ℕ ℕ ℕ
setup = record {
  services = services;
  links = record {
    public_url = λ b k. "http://s3/pub/a.txt";
    presigned_url = λ b k t w. (err 1, w);
  };
  limits = record { new_limiter = 0; allow_at = λ t l. (true, l); split_host = λ a. none };
  auth = record { api_keys = "k1" ∷ [] };
  region = "eu";
  buckets = pub_bucket ∷ [];
}

named : HasBucketNames (setup.buckets)
named = omega arith

abbrev empty_catalog : Catalog
empty_catalog = new (λ b. 0) (λ b. "public")

abbrev stocked : Catalog
stocked = set "a.txt" "pub" (pos 5) "" empty_catalog

stocked-IsWellFormed : IsWellFormed stocked
stocked-IsWellFormed =
    set-IsWellFormed "a.txt" "pub" (pos 5) "" empty_catalog (omega arith) (new-IsWellFormed _ _)

abbrev api : Catalog → Bool → Api ℕ ℕ
api c ready = record {
  resolver = record { catalog = c; duplicate_count = 0; world = 0 };
  rate_limiter = some (record { entries = [] });
  gauges = record {
    volume_files = [];
    duplicate_files = 0;
    uploads_per_week = 0;
    uploads_per_month = 0;
  };
  ready = ready;
}

abbrev asked : String → String → Request
asked with_key object = record {
  top = TopPattern.protected;
  pattern = Pattern.get_download;
  credentials = record { x_api_key = with_key; authorization = ""; remote_addr = "1.2.3.4:5" };
  filename = "";
  path = "/pub/a.txt";
  key = object;
  time = pos 0;
}

validate_key_iff_example : (validate_key "a.txt" ≡ none) ↔ IsSafeKey "a.txt"
validate_key_iff_example = validate_key_iff "a.txt"

routes_unauthorized_example :
    routes setup (asked "guess" "a.txt") (api stocked true) ≡ (unauthorized, api stocked true)
unfolding presented_key
routes_unauthorized_example =
    routes_unauthorized setup (asked "guess" "a.txt") (api stocked true) refl
      (λ e. absurd (ground arith)) (ground (arith, eq_iff "guess" "k1"))

routes_not_ready_example :
    IsRefused (routes setup (asked "k1" "a.txt") (api stocked false)).0
    × IsUntouched (api stocked false) (routes setup (asked "k1" "a.txt") (api stocked false)).1
routes_not_ready_example =
    routes_not_ready setup (asked "k1" "a.txt") (api stocked false) refl refl
      (λ e. absurd (ground arith))

climbing : ¬ IsSafeKey "../a.txt"
unfolding split push_head
climbing safe = absurd (ground (arith, safe.inside))

routes_unsafe_key_example :
    IsRejected (routes setup (asked "k1" "../a.txt") (api stocked true)) (api stocked true)
routes_unsafe_key_example =
    routes_unsafe_key setup (asked "k1" "../a.txt") (api stocked true) "../a.txt" refl refl climbing

safe_key : IsSafeKey "a.txt"
unfolding validate_key cut_prefix split
safe_key = (validate_key_iff "a.txt").0 refl

let_in : authorized setup.auth (asked "k1" "a.txt").credentials ≡ true
unfolding authorized enabled valid
let_in = refl

abbrev stocked_entry : Entry
stocked_entry = entry_for empty_catalog "a.txt" "pub" (pos 5) ""

routed : lookup_by_route "/pub/a.txt" stocked ≡ some stocked_entry
unfolding lookup_by_route set Assoc.lookup new Assoc.insert entry_for route_for
routed = refl

routes_public_download_example :
    (routes setup (asked "k1" "a.txt") (api stocked true)).0
    ≡ reply 302 (Body.location "http://s3/pub/a.txt")
unfolding allow entry_for new
routes_public_download_example =
    routes_public_download setup (asked "k1" "a.txt") (api stocked true) stocked_entry file refl
      refl let_in refl refl safe_key routed refl refl

routes_redirect_example :
    IsDownload setup
      (asked "k1" "a.txt")
      (api stocked true)
      (routes setup (asked "k1" "a.txt") (api stocked true)).1
      "http://s3/pub/a.txt"
routes_redirect_example =
    routes_redirect setup (asked "k1" "a.txt") (api stocked true) "http://s3/pub/a.txt" named
      stocked-IsWellFormed refl refl (ap location_of routes_public_download_example)

run_ready_iff_example :
    ((run setup (sync_tick ∷ boot ∷ []) (api empty_catalog false)).ready ≡ true)
    ↔ Boots setup (sync_tick ∷ boot ∷ []) (api empty_catalog false)
run_ready_iff_example =
    run_ready_iff setup named (sync_tick ∷ boot ∷ []) (api empty_catalog false) refl

abbrev busy : List Event
busy = boot ∷ request (asked "k1" "a.txt") ∷ sync_tick ∷ []

reads_named : ReadsNamed setup busy (api empty_catalog false)
unfolding step run_bootstrap bootstrap decode_manifest_files ◌>>=◌ has_storage call pure
reads_named = (((omega arith, tt), tt), (tt, (tt, tt)))

run_events-IsWellFormed_example :
    IsWellFormed (run setup busy (api empty_catalog false)).resolver.catalog
run_events-IsWellFormed_example =
    run_events-IsWellFormed setup named busy (api empty_catalog false) reads_named
      (new-IsWellFormed _ _)

abbrev seen_at : ℕ → LimiterEntry ℕ
seen_at t = record { limiter = 0; last_seen = pos t }

abbrev clients : RateLimiter ℕ
clients = record { entries = ("1.1.1.1", seen_at 0) ∷ ("2.2.2.2", seen_at 700000000000) ∷ [] }

two_clients : HasDistinctKeys clients.entries
unfolding Assoc.lookup
two_clients = ground (arith, eq_iff "2.2.2.2" "1.1.1.1")

-- The other client asks, the cleanup runs twice, and the client is dropped by the second tick.
abbrev traffic : List LimiterEvent
traffic =
    asks "1.1.1.1" (pos 750000000000) ∷ tick (pos 1200000000000) ∷ tick (pos 1800000000000) ∷ []

run_limiter_lem_example :
    HasDistinctKeys (run_limiter setup.limits traffic clients).entries
    × (Assoc.lookup "2.2.2.2" (run_limiter setup.limits traffic clients).entries
        ≡ own_entry setup.limits "2.2.2.2" traffic (Assoc.lookup "2.2.2.2" clients.entries))
    × ((allow setup.limits "2.2.2.2"
          (pos 1900000000000)
          (run_limiter setup.limits traffic clients)).0
        ≡ (setup.limits.allow_at (pos 1900000000000) (
            own_limiter setup.limits (
              own_entry setup.limits "2.2.2.2" traffic
                (Assoc.lookup "2.2.2.2" clients.entries)))).0)
run_limiter_lem_example =
    run_limiter_lem setup.limits traffic clients "2.2.2.2" (pos 1900000000000) two_clients

-- ===== src/Http/Server.antt =====
-- api.go: Routes; middleware.go: the middlewares; main.go: bootstrap and periodicSync, which act on
-- the same API. A run is a sequence of events, each one step.
use parparchik.Common.{String, Option, none, some, List, [], ◌∷◌, Bool, true}
use parparchik.Common.{if◌then◌else◌}
use parparchik.Common.Int.{ℤ}
use parparchik.Common.Results.{Result, ok, err}
use parparchik.Config.{Bucket}
use parparchik.Resolver.{Services, ResolverError, bootstrap, sync_registry}
use parparchik.Http.Access.{
  AuthConfig, Credentials, Limits, RateLimiter, authorized, allow, client_ip, cleanup_tick,
}
use parparchik.Http.Answers.{unauthorized, rate_limit_exceeded, not_found}
use parparchik.Http.Handlers.{
  Api, Links, Handler, require_ready, handle_status, handle_list, handle_update, handle_relocate,
  handle_metrics, handle_download, handle_readiness, handle_healthcheck,
}

-- The patterns of the two ServeMux. Which pattern a request matches is the choice of net/http.
pub data Pattern : Type 0 where
  get_status get_list get_update post_relocate get_metrics get_download any_path : Pattern

pub data TopPattern : Type 0 where
  protected get_healthcheck get_redines get_readiness : TopPattern

-- A request as net/http hands it over: `filename` is the query parameter, `key` the path value.
pub record Request : Type 0 where
  pub top : TopPattern
  pub pattern : Pattern
  pub credentials : Credentials
  pub filename : String
  pub path : String
  pub key : String
  pub time : ℤ

-- What an API is built from.
pub record Setup (World Content Error Limiter : Type 0) : Type 0 where
  pub services : Services World Content Error
  pub links : Links World Error
  pub limits : Limits Limiter
  pub auth : AuthConfig
  pub region : String
  pub buckets : List Bucket

-- What happens to an API: a request, the bootstrap, a tick of the sync, a tick of the cleanup.
pub data Event : Type 0 where
  request : Request → Event
  boot : Event
  sync_tick : Event
  cleanup_at : ℤ → Event

module _ {World Content Error Limiter : Type 0} (c : Setup World Content Error Limiter) where
  unfoldable pub mux : Request → Handler World Limiter
  unfolding require_ready
  mux r = elim r.pattern [
    | Pattern.get_status ↦ require_ready (handle_status c.region c.buckets)
    | Pattern.get_list ↦ require_ready handle_list
    | Pattern.get_update ↦ require_ready (handle_update c.services c.buckets r.filename)
    | Pattern.post_relocate ↦ require_ready (handle_relocate c.services c.buckets r.filename)
    | Pattern.get_metrics ↦ require_ready (handle_metrics c.services)
    | Pattern.get_download ↦
        require_ready (handle_download c.services c.links c.buckets r.path r.key)
    | Pattern.any_path ↦ λ a. (not_found, a)
  ]

  unfoldable pub rate_limited : Request → Handler World Limiter → Handler World Limiter
  rate_limited r next a = elim a.rate_limiter [
    | none ↦ next a
    | some l ↦
        let (granted, l') = allow c.limits (client_ip c.limits r.credentials) r.time l in
        let a' : Api World Limiter = record a { rate_limiter = some l' } in
        if granted then next a' else (rate_limit_exceeded, a')
  ]

  unfoldable pub authenticated : Request → Handler World Limiter → Handler World Limiter
  authenticated r next a = if authorized c.auth r.credentials then next a else (unauthorized, a)

  unfoldable pub routes : Request → Handler World Limiter
  unfolding mux rate_limited authenticated handle_healthcheck handle_readiness
  routes r = elim r.top [
    | TopPattern.protected ↦ authenticated r (rate_limited r (mux r))
    | TopPattern.get_healthcheck ↦ handle_healthcheck
    | TopPattern.get_redines ↦ handle_readiness
    | TopPattern.get_readiness ↦ handle_readiness
  ]

  -- `api.SetReady(true)`
  unfoldable pub set_ready : Bool → Api World Limiter → Api World Limiter
  set_ready ready a = record a { ready = ready }

  unfoldable pub after_bootstrap :
      Result (ResolverError Error) (Unit {0}) → Api World Limiter → Api World Limiter
  unfolding set_ready
  after_bootstrap (err e) a = a
  after_bootstrap (ok u) a = set_ready true a

  unfoldable pub run_bootstrap : Api World Limiter → Api World Limiter
  unfolding after_bootstrap
  run_bootstrap a =
      let (r, s) = bootstrap c.services c.buckets a.resolver in
      after_bootstrap r (record a { resolver = s })

  -- One tick of periodicSync; an error is only logged.
  unfoldable pub run_sync : Api World Limiter → Api World Limiter
  run_sync a = record a { resolver = (sync_registry c.services c.buckets a.resolver).1 }

  abbrev pub cleaned : ℤ → Option (RateLimiter Limiter) → Option (RateLimiter Limiter)
  cleaned now none = none
  cleaned now (some l) = some (cleanup_tick now l)

  -- One tick of cleanupLoop; without a limiter there is no loop.
  unfoldable pub run_cleanup : ℤ → Api World Limiter → Api World Limiter
  run_cleanup now a = record a { rate_limiter = cleaned now a.rate_limiter }

  unfoldable pub step : Event → Api World Limiter → Api World Limiter
  unfolding routes run_bootstrap run_sync run_cleanup
  step (request r) a = (routes r a).1
  step boot a = run_bootstrap a
  step sync_tick a = run_sync a
  step (cleanup_at now) a = run_cleanup now a

  unfoldable pub run : List Event → Api World Limiter → Api World Limiter
  unfolding step
  run [] a = a
  run (e ∷ es) a = run es (step e a)

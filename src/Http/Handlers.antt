-- ===== src/Http/Handlers.antt =====
-- api.go: the API and its handlers. The URLs of an object are the object store's, a parameter. A
-- handler takes the API to its response and the API behind it.
use parparchik.Common.{
  String, Option, none, some, List, [], ◌∷◌, Bool, true, false, ◌==◌, length, not, ◌&&◌,
}
use parparchik.Common.{if◌then◌else◌}
use parparchik.Common.Int.{ℤ, pos}
use parparchik.Common.Results.{Result, ok, err}
use parparchik.Config.{Bucket, has_storage}
use parparchik.Catalog.{Entry, count, list_all, lookup}
use parparchik.Resolver.{
  Services, State, Call, Action, ResolverError, pure, ◌>>=◌, with_state, exists,
  resolve_missing_file, resolve_route, relocate,
}
use parparchik.Metrics.{Gauges, update_gauges}
use parparchik.Http.Validation.{validate_key}
use parparchik.Http.Access.{RateLimiter}
use parparchik.Http.Answers.{
  BucketReport, Body, Response, reply, not_initialized, missing_filename, key_message, bad_filename,
  update_reply, relocate_reply,
}

-- The API with what its resolver and its metrics keep.
pub record Api (World Limiter : Type 0) : Type 0 where
  pub resolver : State World
  pub rate_limiter : Option (RateLimiter Limiter)
  pub gauges : Gauges
  pub ready : Bool

-- An hour in nanoseconds.
abbrev pub presign_expiry : ℤ
presign_expiry = pos 3600000000000

-- objectstore.Store: PublicURL and PresignedURL.
pub record Links (World Error : Type 0) : Type 0 where
  pub public_url : String → String → String
  pub presigned_url : String → String → ℤ → Call World Error String

abbrev pub report : Bucket → BucketReport
report b = record { name = b.name; manifest_key = b.manifest_key; public = b.public; kind = b.kind }

-- The variables of the loop of handleStatus: buckets, publicBucket and privateBucket.
unfoldable pub report_buckets : List Bucket → String → String → List BucketReport × String × String
report_buckets [] public private = ([], public, private)
report_buckets (b ∷ bs) public private =
    let first_public = if has_storage b && (b.public && public == "") then b.name else public in
    let first_private =
      if has_storage b && (not b.public && private == "") then b.name else private in
    let (later, p, q) = report_buckets bs first_public first_private in (report b ∷ later, p, q)

abbrev pub Handler : Type 0 → Type 0 → Type 0
Handler World Limiter = Api World Limiter → Response × Api World Limiter

module _ {World Limiter : Type 0} where
  unfoldable pub require_ready : Handler World Limiter → Handler World Limiter
  require_ready next a = if a.ready then next a else (not_initialized, a)

  unfoldable pub handle_status : String → List Bucket → Handler World Limiter
  unfolding report_buckets
  handle_status region buckets a =
      let (reports, public, private) = report_buckets buckets "" "" in
      (
        reply 200 (
            Body.status_report (record {
              buckets = reports;
              region = region;
              ready = a.ready;
              file_count = count a.resolver.catalog;
              public_bucket = public;
              private_bucket = private;
            })),
        a,
      )

  unfoldable pub handle_readiness : Handler World Limiter
  handle_readiness a =
      let n = count a.resolver.catalog in
      if a.ready
      then (reply 200 (Body.readiness "ready" true n), a)
      else (reply 503 (Body.readiness "not_ready" false n), a)

  unfoldable pub handle_healthcheck : Handler World Limiter
  handle_healthcheck a = (reply 200 (Body.health a.ready), a)

  unfoldable pub handle_list : Handler World Limiter
  handle_list a =
      let entries = list_all a.resolver.catalog in
      (reply 200 (Body.listing (length entries) entries), a)

  -- The methods of the resolver act on its part of the API.
  unfoldable pub through_resolver :
      {Error A : Type 0}
      → Action World Error A
      → (Result (ResolverError Error) A → Response)
      → Handler World Limiter
  through_resolver m answer a = let (r, s) = m a.resolver in (answer r, record a { resolver = s })

module _ {World Content Error : Type 0} (sv : Services World Content Error)
    (buckets : List Bucket) where
  -- The entry of the file, if the catalog has one and its object exists.
  unfoldable pub lookup_existing : String → Action World Error (Option Entry)
  lookup_existing filename = with_state (λ s. elim (lookup filename s.catalog) [
    | none ↦ pure none
    | some entry ↦ do
      present ← exists sv buckets entry.bucket entry.key
      pure (if present then some entry else none)
  ])

  unfoldable pub locate : String → Action World Error (Option Entry)
  unfolding lookup_existing
  locate filename = do
    known ← lookup_existing filename
    elim known [ some entry ↦ pure (some entry) | none ↦ resolve_missing_file sv buckets filename ]

module _ {World Content Error Limiter : Type 0} (sv : Services World Content Error)
    (buckets : List Bucket) where
  unfoldable pub handle_update : String → Handler World Limiter
  unfolding locate through_resolver
  handle_update filename a =
      if filename == "" then (missing_filename, a) else elim (validate_key filename) [
        | some e ↦ (bad_filename e filename, a)
        | none ↦ through_resolver (locate sv buckets filename) (update_reply filename) a
      ]

  unfoldable pub handle_relocate : String → Handler World Limiter
  unfolding through_resolver
  handle_relocate filename a =
      if filename == "" then (missing_filename, a) else elim (validate_key filename) [
        | some e ↦ (bad_filename e filename, a)
        | none ↦ through_resolver (relocate sv buckets filename) (relocate_reply filename) a
      ]

module _ {World Error : Type 0} (links : Links World Error) where
  unfoldable pub download_url : Entry → Call World Error String
  download_url e w =
      if e.bucket_type == "public"
      then (ok (links.public_url e.bucket e.key), w)
      else links.presigned_url e.bucket e.key presign_expiry w

  abbrev pub url_reply : Result Error String → Response
  url_reply (err e) = reply 500 (Body.error "failed to build download url")
  url_reply (ok url) = reply 302 (Body.location url)

  -- What handleDownload does with the answer of ResolveRoute.
  unfoldable pub redirect :
      String → Result (ResolverError Error) (Option Entry) → State World → Response × State World
  unfolding download_url
  redirect path (err e) s = (reply 500 (Body.error "failed to resolve route"), s)
  redirect path (ok none) s = (reply 404 (Body.error_route "file not found" path), s)
  redirect path (ok (some e)) s =
      let (r, w) = download_url e s.world in (url_reply r, record s { world = w })

module _ {World Content Error Limiter : Type 0} (sv : Services World Content Error)
    (links : Links World Error) (buckets : List Bucket) where
  unfoldable pub handle_download : String → String → Handler World Limiter
  unfolding redirect
  handle_download path key a = elim (validate_key key) [
    | some e ↦ (reply 400 (Body.error (key_message e)), a)
    | none ↦
        let (r, s) = resolve_route sv buckets path a.resolver in
        let (answer, s') = redirect links path r s in (answer, record a { resolver = s' })
  ]

module _ {World Content Error Limiter : Type 0} (sv : Services World Content Error) where
  unfoldable pub handle_metrics : Handler World Limiter
  handle_metrics a =
      let s = a.resolver in
      let g = update_gauges sv.parse_time (sv.now s.world) (list_all s.catalog) s.duplicate_count in
      (reply 200 (Body.gauges_page g), record a { gauges = g })

-- ===== src/Http/Served.antt =====
-- A download through the whole stack: the middlewares, the readiness gate, the handler, the resolver.
use parparchik.Common.{String, Option, none, some, true, ◌≡◌, refl, arith}
use parparchik.Common.{if◌then◌else◌, Bool-cases, inl, inr, ◌∙◌, ap, sym}
use parparchik.Common.Results.{ok}
use parparchik.Catalog.{Entry, lookup_by_route}
use parparchik.Catalog.Invariant.{IsWellFormed}
use parparchik.Resolver.{Object}
use parparchik.Resolver.Sound.{HasBucketNames}
use parparchik.Http.Keys.{IsSafeKey, validate_key_iff}
use parparchik.Http.Access.{RateLimiter, authorized, allow, client_ip}
use parparchik.Http.Answers.{Body, reply}
use parparchik.Http.Handlers.{Api, Handler, require_ready, handle_download}
use parparchik.Http.Downloads.{
  IsServedLink, location_of, handle_download_link, handle_download_public,
}
use parparchik.Http.Refused.{with_limiter, require_ready_up, require_ready_down}
use parparchik.Http.Gate.{rate_limited_cases, routes_let_in, routes_kept_out}
use parparchik.Http.Server.{Pattern, TopPattern, Request, Setup, mux, rate_limited, routes}

module _ {World Content Error Limiter : Type 0} (c : Setup World Content Error Limiter) where
  -- What a redirect from the download route shows.
  pub record IsDownload (r : Request) (a b : Api World Limiter) (url : String) : Type 0 where
    pub let_in : authorized c.auth r.credentials ≡ true
    pub ready : a.ready ≡ true
    pub safe : IsSafeKey r.key
    pub link : IsServedLink c.buckets c.links r.path b.resolver.catalog url

  abbrev handler : Request → Handler World Limiter
  handler r = handle_download c.services c.links c.buckets r.path r.key

  mux_download :
      (r : Request) (a : Api World Limiter)
      → r.pattern ≡ Pattern.get_download
      → mux c r a ≡ require_ready (handler r) a
  unfolding mux
  mux_download r a e = rw (e, mux) refl

  -- From a well-formed catalog, and with bucket names free of slashes, a request for the download
  -- route is redirected only if its key is valid or no key is configured, the API is ready and the
  -- object key is safe; and the URL then leads to an entry that the catalog holds under its key and
  -- that answers the path: it is the entry's public URL, where its bucket is public, and else one
  -- that the storage has signed for the entry's bucket and key.
  pub routes_redirect :
      (r : Request) (a : Api World Limiter) (url : String)
      → HasBucketNames c.buckets
      → IsWellFormed a.resolver.catalog
      → r.top ≡ TopPattern.protected
      → r.pattern ≡ Pattern.get_download
      → location_of (routes c r a).0 ≡ some url
      → IsDownload r a (routes c r a).1 url
  routes_redirect r a url named w top download at =
      elim (Bool-cases (authorized c.auth r.credentials)) [
        | inr out ↦ absurd (ground (arith, routes_kept_out c r a top out, at))
        | inl let_in ↦
            let (o, outcome) = rate_limited_cases c r (mux c r) a in
            elim outcome [
              | inl limited ↦ absurd (ground (arith, routes_let_in c r a top let_in, limited, at))
              | inr through ↦
                  let b : Api World Limiter = with_limiter o a in
                  let there =
                    routes_let_in c r a top let_in ∙ through ∙ mux_download r b download in
                  elim (Bool-cases a.ready) [
                    | inr down ↦
                        absurd (ground (arith, there ∙ require_ready_down (handler r) b down, at))
                    | inl up ↦
                        let e = there ∙ require_ready_up (handler r) b up in
                        let (safe, link) =
                          handle_download_link c.services c.links c.buckets r.path r.key url b named
                            w (ap (λ x. location_of x.0) (sym e) ∙ at) in
                        rw e (record { let_in = let_in; ready = up; safe = safe; link = link })
                  ]
            ]
      ]

  -- The limiter, if there is one, grants the request.
  abbrev pub IsGranted : Request → Option (RateLimiter Limiter) → Type 0
  IsGranted r none = Unit
  IsGranted r (some l) = (allow c.limits (client_ip c.limits r.credentials) r.time l).0 ≡ true

  rate_limited_granted :
      (r : Request) (next : Handler World Limiter) (a : Api World Limiter)
      (o : Option (RateLimiter Limiter))
      → a.rate_limiter ≡ o
      → IsGranted r o
      → (p : Option (RateLimiter Limiter)) × (rate_limited c r next a ≡ next (with_limiter p a))
  unfolding rate_limited
  rate_limited_granted r next a none e granted =
      (none, rw (e, rate_limited) (ap (λ o. next (with_limiter o a)) e))
  rate_limited_granted r next a (some l) e granted = (
    some (allow c.limits (client_ip c.limits r.credentials) r.time l).1,
    rw (e, granted, if◌then◌else◌) refl,
  )

  -- A request for the download route that presents a valid key (or none is configured), that the
  -- limiter grants, and whose object key is safe, is redirected to the public URL of the entry,
  -- once the API is ready, where the route index has the path, the entry is in a public bucket, and
  -- the storage has the object.
  pub routes_public_download :
      (r : Request) (a : Api World Limiter) (e : Entry) (obj : Object)
      → r.top ≡ TopPattern.protected
      → r.pattern ≡ Pattern.get_download
      → authorized c.auth r.credentials ≡ true
      → IsGranted r a.rate_limiter
      → a.ready ≡ true
      → IsSafeKey r.key
      → lookup_by_route r.path a.resolver.catalog ≡ some e
      → (c.services.head_object e.bucket e.key a.resolver.world).0 ≡ ok (some obj)
      → e.bucket_type ≡ "public"
      → (routes c r a).0 ≡ reply 302 (Body.location (c.links.public_url e.bucket e.key))
  routes_public_download r a e obj top download let_in granted up safe known there public =
      let (p, through) = rate_limited_granted r (mux c r) a a.rate_limiter refl granted in
      let b : Api World Limiter = with_limiter p a in
      ap (λ x. x.0)
        (routes_let_in c r a top let_in
          ∙ through
          ∙ mux_download r b download
          ∙ require_ready_up (handler r) b up)
      ∙ handle_download_public c.services c.links c.buckets r.path r.key b e obj
          ((validate_key_iff r.key).1 safe) known there public

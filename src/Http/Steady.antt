-- ===== src/Http/Steady.antt =====
-- The catalog and the readiness, before and after a request.
use parparchik.Common.{String, Option, none, some, List, Bool, ◌≡◌, ◌==◌, refl, subst, sym}
use parparchik.Common.{Bool-cases, inl, inr, if◌then◌else◌}
use parparchik.Common.Results.{Result, ok, err}
use parparchik.Config.{Bucket}
use parparchik.Catalog.{Entry, lookup}
use parparchik.Catalog.Invariant.{IsWellFormed}
use parparchik.Resolver.{Services, State, Action, ResolverError, resolve_route, relocate}
use parparchik.Resolver.Keeps.{Keeps, Keeps-bind, Keeps-option, Keeps-pure, Keeps-with_state}
use parparchik.Resolver.Closure.{exists-Keeps, resolve_missing_file-Keeps}
use parparchik.Resolver.Serving.{resolve_route-Keeps}
use parparchik.Resolver.Moving.{relocate-Keeps}
use parparchik.Resolver.Sound.{HasBucketNames, IsWellFormed-IsClosed}
use parparchik.Http.Validation.{validate_key}
use parparchik.Http.Access.{authorized}
use parparchik.Http.Answers.{Response, bad_filename, update_reply, relocate_reply}
use parparchik.Http.Handlers.{
  Api, Handler, Links, require_ready, handle_status, handle_readiness, handle_healthcheck,
  handle_list, through_resolver, lookup_existing, locate, handle_update, handle_relocate, redirect,
  handle_download, handle_metrics,
}
use parparchik.Http.Refused.{with_limiter}
use parparchik.Http.Gate.{rate_limited_cases}
use parparchik.Http.Server.{
  Pattern, TopPattern, Request, Setup, mux, rate_limited, authenticated, routes,
}

-- A handler keeps a well-formed catalog well formed, and does not touch the readiness.
pub record IsSteady {World Limiter : Type 0} (next : Handler World Limiter) : Type 0 where
  pub catalog :
      (a : Api World Limiter)
      → IsWellFormed a.resolver.catalog
      → IsWellFormed (next a).1.resolver.catalog
  pub ready : (a : Api World Limiter) → (next a).1.ready ≡ a.ready

module _ {World Limiter : Type 0} where
  IsSteady-answer : (f : Api World Limiter → Response) → IsSteady (λ a. (f a, a))
  IsSteady-answer f = record { catalog = λ a w. w; ready = λ a. refl }

  IsSteady-if :
      (b : Api World Limiter → Bool) (x y : Handler World Limiter)
      → IsSteady x
      → IsSteady y
      → IsSteady (λ a. if b a then x a else y a)
  IsSteady-if b x y hx hy = record {
    catalog = λ a w. elim (Bool-cases (b a)) [
      | inl on ↦ rw (on, if◌then◌else◌) (hx.catalog a w)
      | inr off ↦ rw (off, if◌then◌else◌) (hy.catalog a w)
    ];
    ready = λ a. elim (Bool-cases (b a)) [
      | inl on ↦ rw (on, if◌then◌else◌) (hx.ready a)
      | inr off ↦ rw (off, if◌then◌else◌) (hy.ready a)
    ];
  }

  IsSteady-option :
      {A : Type 0} (o : Option A) (x : Handler World Limiter) (y : A → Handler World Limiter)
      → IsSteady x
      → ((v : A) → IsSteady (y v))
      → IsSteady {World = World} {Limiter = Limiter} (λ a. elim o [ none ↦ x a | some v ↦ y v a ])
  IsSteady-option none x y hx hy = record { catalog = hx.catalog; ready = hx.ready }
  IsSteady-option (some v) x y hx hy = record { catalog = (hy v).catalog; ready = (hy v).ready }

  IsSteady-require_ready :
      (next : Handler World Limiter) → IsSteady next → IsSteady (require_ready next)
  unfolding require_ready
  IsSteady-require_ready next h = IsSteady-if (λ a. a.ready) next _ h (IsSteady-answer _)

  IsSteady-through_resolver :
      {Error A : Type 0} (m : Action World Error A) (f : Result (ResolverError Error) A → Response)
      → Keeps IsWellFormed m
      → IsSteady {Limiter = Limiter} (through_resolver m f)
  unfolding through_resolver
  IsSteady-through_resolver m f k = record { catalog = λ a w. k.at a.resolver w; ready = λ a. refl }

module _ {World Content Error : Type 0} (sv : Services World Content Error)
    (links : Links World Error) (buckets : List Bucket) (named : HasBucketNames buckets) where
  locate-Keeps : (filename : String) → Keeps IsWellFormed (locate sv buckets filename)
  unfolding locate lookup_existing
  locate-Keeps filename =
      Keeps-bind _ _
        (Keeps-with_state _ λ s. Keeps-option (lookup filename s.catalog) _ _ (Keeps-pure none) λ e.
          Keeps-bind _ _ (exists-Keeps sv buckets IsWellFormed-IsClosed e.bucket e.key)
            (λ present. Keeps-pure _))
        λ known.
          Keeps-option known _ _
            (resolve_missing_file-Keeps sv buckets IsWellFormed-IsClosed filename named)
            (λ e. Keeps-pure (some e))

  catalog-redirect :
      (path : String) (r : Result (ResolverError Error) (Option Entry)) (s : State World)
      → (redirect links path r s).1.catalog ≡ s.catalog
  unfolding redirect
  catalog-redirect path (err e) s = refl
  catalog-redirect path (ok none) s = refl
  catalog-redirect path (ok (some e)) s = refl

module _ {World Content Error Limiter : Type 0} (c : Setup World Content Error Limiter)
    (named : HasBucketNames c.buckets) where
  handle_update-IsSteady :
      (filename : String)
      → IsSteady {Limiter = Limiter} (handle_update c.services c.buckets filename)
  unfolding handle_update
  handle_update-IsSteady filename =
      IsSteady-if (λ _. filename == "") _ _ (IsSteady-answer _)
        (IsSteady-option (validate_key filename) _ _
          (IsSteady-through_resolver (locate c.services c.buckets filename) (update_reply filename)
            (locate-Keeps c.services c.links c.buckets named filename))
          (λ e. IsSteady-answer (λ _. bad_filename e filename)))

  handle_relocate-IsSteady :
      (filename : String)
      → IsSteady {Limiter = Limiter} (handle_relocate c.services c.buckets filename)
  unfolding handle_relocate
  handle_relocate-IsSteady filename =
      IsSteady-if (λ _. filename == "") _ _ (IsSteady-answer _)
        (IsSteady-option (validate_key filename) _ _
          (IsSteady-through_resolver (relocate c.services c.buckets filename)
            (relocate_reply filename)
            (relocate-Keeps c.services c.buckets IsWellFormed-IsClosed filename named))
          (λ e. IsSteady-answer (λ _. bad_filename e filename)))

  handle_download-IsSteady :
      (path key : String)
      → IsSteady {Limiter = Limiter} (handle_download c.services c.links c.buckets path key)
  unfolding handle_download
  handle_download-IsSteady path key =
      IsSteady-option (validate_key key) _ _
        (record {
          catalog = λ a w.
              subst IsWellFormed
                (sym (
                  catalog-redirect c.services c.links c.buckets named path
                    (resolve_route c.services c.buckets path a.resolver).0
                    (resolve_route c.services c.buckets path a.resolver).1))
                ((resolve_route-Keeps c.services c.buckets IsWellFormed-IsClosed named path).at
                  a.resolver w);
          ready = λ a. refl;
        })
        (λ e. IsSteady-answer _)

  mux_at-IsSteady : (r : Request) (p : Pattern) → IsSteady (mux c (record r { pattern = p }))
  unfolding mux handle_status handle_list handle_metrics
  mux_at-IsSteady r Pattern.get_status = IsSteady-require_ready _ (IsSteady-answer _)
  mux_at-IsSteady r Pattern.get_list = IsSteady-require_ready _ (IsSteady-answer _)
  mux_at-IsSteady r Pattern.get_update =
      IsSteady-require_ready _ (handle_update-IsSteady r.filename)
  mux_at-IsSteady r Pattern.post_relocate =
      IsSteady-require_ready _ (handle_relocate-IsSteady r.filename)
  mux_at-IsSteady r Pattern.get_metrics =
      IsSteady-require_ready _ (record { catalog = λ a w. w; ready = λ a. refl })
  mux_at-IsSteady r Pattern.get_download =
      IsSteady-require_ready _ (handle_download-IsSteady r.path r.key)
  mux_at-IsSteady r Pattern.any_path = IsSteady-answer _

  rate_limited-IsSteady :
      (r : Request) (next : Handler World Limiter)
      → IsSteady next
      → IsSteady (rate_limited c r next)
  rate_limited-IsSteady r next h = record {
    catalog = λ a w.
        let (o, outcome) = rate_limited_cases c r next a in
        elim outcome [
          | inl limited ↦ rw limited w
          | inr through ↦ rw through (h.catalog (with_limiter o a) w)
        ];
    ready = λ a.
        let (o, outcome) = rate_limited_cases c r next a in
        elim outcome [
          | inl limited ↦ rw limited refl
          | inr through ↦ rw through (h.ready (with_limiter o a))
        ];
  }

  protected-IsSteady : (r : Request) → IsSteady (authenticated c r (rate_limited c r (mux c r)))
  unfolding authenticated
  protected-IsSteady r =
      IsSteady-if (λ _. authorized c.auth r.credentials) _ _
        (rate_limited-IsSteady r _ (mux_at-IsSteady r r.pattern)) (IsSteady-answer _)

  routes_at-IsSteady : (r : Request) (t : TopPattern) → IsSteady (routes c (record r { top = t }))
  unfolding routes handle_healthcheck handle_readiness
  routes_at-IsSteady r TopPattern.protected =
      protected-IsSteady (record r { top = TopPattern.protected })
  routes_at-IsSteady r TopPattern.get_healthcheck = IsSteady-answer _
  routes_at-IsSteady r TopPattern.get_redines =
      IsSteady-if (λ a. a.ready) _ _ (IsSteady-answer _) (IsSteady-answer _)
  routes_at-IsSteady r TopPattern.get_readiness =
      IsSteady-if (λ a. a.ready) _ _ (IsSteady-answer _) (IsSteady-answer _)

  pub routes-IsSteady : (r : Request) → IsSteady (routes c r)
  routes-IsSteady r = routes_at-IsSteady r r.top

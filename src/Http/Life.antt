-- ===== src/Http/Life.antt =====
-- The life of an API: requests, the bootstrap, the ticks of the sync and of the limiter's cleanup.
use parparchik.Common.{List, [], ◌∷◌, true, false, ◌≡◌, refl, sym, ◌∙◌, arith, ◌↔◌, ◌⊎◌, subst}
use parparchik.Common.{inl, inr, All}
use parparchik.Common.Results.{Result, ok, err, OnOk}
use parparchik.Catalog.Invariant.{IsWellFormed}
use parparchik.Resolver.{ResolverError, bootstrap, fetch_manifests}
use parparchik.Resolver.Moving.{sync_registry-Keeps}
use parparchik.Resolver.Sound.{HasBucketNames, IsWellFormed-IsClosed}
use parparchik.Resolver.Booted.{NamesBuckets, bootstrap-IsWellFormed}
use parparchik.Http.Handlers.{Api}
use parparchik.Http.Steady.{routes-IsSteady}
use parparchik.Http.Server.{
  Setup, Event, run_bootstrap, after_bootstrap, run_sync, run_cleanup, step, run, boot, request,
  sync_tick, cleanup_at,
}

module _ {World Content Error Limiter : Type 0} (c : Setup World Content Error Limiter) where
  -- Some event of the sequence is a bootstrap that succeeds in the state where it runs.
  pub data Boots : List Event → Api World Limiter → Type 0 where
    boots_now :
        {es : List Event} {a : Api World Limiter}
        → (bootstrap c.services c.buckets a.resolver).0 ≡ ok tt
        → Boots (boot ∷ es) a
    boots_later :
        {e : Event} {es : List Event} {a : Api World Limiter}
        → Boots es (step c e a)
        → Boots (e ∷ es) a

  after_bootstrap-catalog :
      (r : Result (ResolverError Error) (Unit {0})) (a : Api World Limiter)
      → (after_bootstrap c r a).resolver ≡ a.resolver
  unfolding after_bootstrap
  after_bootstrap-catalog (ok u) a = refl
  after_bootstrap-catalog (err e) a = refl

  after_bootstrap-cases :
      (r : Result (ResolverError Error) (Unit {0})) (a : Api World Limiter)
      → a.ready ≡ false
      → (r ≡ ok tt) ⊎ ((after_bootstrap c r a).ready ≡ false)
  unfolding after_bootstrap
  after_bootstrap-cases (ok u) a down = inl refl
  after_bootstrap-cases (err e) a down = inr down

  after_bootstrap-ok :
      (r : Result (ResolverError Error) (Unit {0})) (a : Api World Limiter)
      → r ≡ ok tt
      → (after_bootstrap c r a).ready ≡ true
  unfolding after_bootstrap
  after_bootstrap-ok (ok u) a good = refl
  after_bootstrap-ok (err e) a bad = absurd (ground arith)

  after_bootstrap-stays :
      (r : Result (ResolverError Error) (Unit {0})) (a : Api World Limiter)
      → a.ready ≡ true
      → (after_bootstrap c r a).ready ≡ true
  unfolding after_bootstrap
  after_bootstrap-stays (ok u) a up = refl
  after_bootstrap-stays (err e) a up = up

module _ {World Content Error Limiter : Type 0} (c : Setup World Content Error Limiter)
    (named : HasBucketNames c.buckets) where
  run-stays : (es : List Event) (a : Api World Limiter) → a.ready ≡ true → (run c es a).ready ≡ true
  unfolding run step run_bootstrap run_sync run_cleanup
  run-stays [] a up = up
  run-stays (request r ∷ es) a up = run-stays es _ ((routes-IsSteady c named r).ready a ∙ up)
  run-stays (boot ∷ es) a up = run-stays es _ (after_bootstrap-stays c _ _ up)
  run-stays (sync_tick ∷ es) a up = run-stays es (run_sync c a) up
  run-stays (cleanup_at now ∷ es) a up = run-stays es (run_cleanup c now a) up

  Boots-ready : (es : List Event) (a : Api World Limiter) → Boots c es a → (run c es a).ready ≡ true
  unfolding run step run_bootstrap
  Boots-ready [] a never = elim never [ ]
  Boots-ready (boot ∷ es) a (boots_now good) = run-stays es _ (after_bootstrap-ok c _ _ good)
  Boots-ready (e ∷ es) a (boots_later later) = Boots-ready es (step c e a) later

  ready-Boots :
      (es : List Event) (a : Api World Limiter)
      → a.ready ≡ false
      → (run c es a).ready ≡ true
      → Boots c es a
  unfolding run step run_bootstrap run_sync run_cleanup
  ready-Boots [] a down up = absurd (ground arith)
  ready-Boots (request r ∷ es) a down up =
      boots_later (ready-Boots es _ ((routes-IsSteady c named r).ready a ∙ down) up)
  ready-Boots (boot ∷ es) a down up =
      elim (after_bootstrap-cases c (bootstrap c.services c.buckets a.resolver).0
        (record a { resolver = (bootstrap c.services c.buckets a.resolver).1 }) down) [
          | inl good ↦ boots_now good
          | inr still ↦ boots_later (ready-Boots es _ still up)
        ]
  ready-Boots (sync_tick ∷ es) a down up = boots_later (ready-Boots es (run_sync c a) down up)
  ready-Boots (cleanup_at now ∷ es) a down up =
      boots_later (ready-Boots es (run_cleanup c now a) down up)

  -- The API becomes ready exactly by a bootstrap that succeeds: after any events on an API that is
  -- not ready, it is ready if and only if one of the events is a bootstrap that succeeds on the
  -- state that the events before it leave, with bucket names free of slashes.
  pub run_ready_iff :
      (es : List Event) (a : Api World Limiter)
      → a.ready ≡ false
      → ((run c es a).ready ≡ true) ↔ Boots c es a
  run_ready_iff es a down = (ready-Boots es a down, Boots-ready es a)

module _ {World Content Error Limiter : Type 0} (c : Setup World Content Error Limiter) where
  -- What a bootstrap in this state fetches, if nothing fails, names buckets free of slashes.
  abbrev FetchesNamed : Event → Api World Limiter → Type 0
  FetchesNamed (request r) a = Unit
  FetchesNamed boot a =
      OnOk (All (NamesBuckets c.services.decoder))
        (fetch_manifests c.services c.buckets c.buckets a.resolver).0
  FetchesNamed sync_tick a = Unit
  FetchesNamed (cleanup_at now) a = Unit

  -- So does every bootstrap among the events, in the state that the events before it leave.
  abbrev pub ReadsNamed : List Event → Api World Limiter → Type 0
  ReadsNamed [] a = Unit
  ReadsNamed (e ∷ es) a = FetchesNamed e a × ReadsNamed es (step c e a)

module _ {World Content Error Limiter : Type 0} (c : Setup World Content Error Limiter)
    (named : HasBucketNames c.buckets) where
  -- From a well-formed catalog, the one of New among them, the catalog is well formed after any
  -- events: requests of every kind, let in or not, bootstraps and syncs that succeed or fail, and
  -- whatever the storage answers, where the names of the configured buckets are free of slashes and
  -- so are those of the buckets that the items of the manifests name which a bootstrap of the run
  -- fetches.
  pub run_events-IsWellFormed :
      (es : List Event) (a : Api World Limiter)
      → ReadsNamed c es a
      → IsWellFormed a.resolver.catalog
      → IsWellFormed (run c es a).resolver.catalog
  unfolding run step run_bootstrap run_sync run_cleanup
  run_events-IsWellFormed [] a own w = w
  run_events-IsWellFormed (request r ∷ es) a own w =
      run_events-IsWellFormed es _ own.1 ((routes-IsSteady c named r).catalog a w)
  run_events-IsWellFormed (boot ∷ es) a own w = run_events-IsWellFormed es _ own.1 (
      subst (λ s. IsWellFormed s.catalog) (sym (after_bootstrap-catalog c _ _))
        (bootstrap-IsWellFormed c.services c.buckets named a.resolver own.0 w))
  run_events-IsWellFormed (sync_tick ∷ es) a own w =
      run_events-IsWellFormed es _ own.1
        ((sync_registry-Keeps c.services c.buckets IsWellFormed-IsClosed named).at a.resolver w)
  run_events-IsWellFormed (cleanup_at now ∷ es) a own w =
      run_events-IsWellFormed es (run_cleanup c now a) own.1 w

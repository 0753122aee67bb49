-- ===== src/Http/Refused.antt =====
-- How a request is turned away: by a middleware, by requireReady, or for its key.
use parparchik.Common.{String, Option, some, List, Bool, true, false, ◌==◌, ◌≡◌}
use parparchik.Common.{if◌then◌else◌, Bool-cases, inl, inr, refl, ◌⊎◌, ap}
use parparchik.Config.{Bucket}
use parparchik.Resolver.{Services}
use parparchik.Http.Validation.{KeyError, validate_key}
use parparchik.Http.Access.{RateLimiter}
use parparchik.Http.Answers.{Response, unauthorized, rate_limit_exceeded, not_initialized}
use parparchik.Http.Handlers.{
  Api, Handler, Links, require_ready, handle_update, handle_relocate, handle_download,
}

-- A request was turned away by a middleware or because the API is not ready.
abbrev pub IsRefused : Response → Type 0
IsRefused answer =
    (answer ≡ unauthorized) ⊎ (answer ≡ rate_limit_exceeded) ⊎ (answer ≡ not_initialized)

-- Only the limiter may differ.
pub record IsUntouched {World Limiter : Type 0} (a b : Api World Limiter) : Type 0 where
  pub resolver : b.resolver ≡ a.resolver
  pub gauges : b.gauges ≡ a.gauges
  pub ready : b.ready ≡ a.ready

-- The answer is 400 and the API is the same, or the API is not ready.
abbrev pub IsRejected :
    {World Limiter : Type 0} → Response × Api World Limiter → Api World Limiter → Type 0
IsRejected p a = ((p.0.status ≡ 400) ⊎ IsRefused p.0) × IsUntouched a p.1

chosen : {A : Type 0} (b : Bool) (x y : A) → ((if b then x else y) ≡ x) ⊎ ((if b then x else y) ≡ y)
chosen true x y = inl refl
chosen false x y = inr refl

module _ {World Limiter : Type 0} where
  -- The API with another state of the limiter.
  abbrev pub with_limiter : Option (RateLimiter Limiter) → Api World Limiter → Api World Limiter
  with_limiter o a = record a { rate_limiter = o }

  pub same : (a : Api World Limiter) → IsUntouched a a
  same a = record { resolver = refl; gauges = refl; ready = refl }

  pub require_ready_up :
      (next : Handler World Limiter) (a : Api World Limiter)
      → a.ready ≡ true
      → require_ready next a ≡ next a
  unfolding require_ready
  require_ready_up next a up = ap (λ b. if b then next a else (not_initialized, a)) up

  pub require_ready_down :
      (next : Handler World Limiter) (a : Api World Limiter)
      → a.ready ≡ false
      → require_ready next a ≡ (not_initialized, a)
  unfolding require_ready
  require_ready_down next a down = ap (λ b. if b then next a else (not_initialized, a)) down

  pub gated :
      (next : Handler World Limiter) (a : Api World Limiter)
      → ((answer : Response) × (next a ≡ (answer, a)) × (answer.status ≡ 400))
      → IsRejected (require_ready next a) a
  unfolding require_ready
  gated next a (answer, e, bad) = elim (chosen a.ready (next a) (not_initialized, a)) [
    | inl up ↦ rw (up, e) (inl bad, same a)
    | inr down ↦ rw down (inr (inr (inr refl)), same a)
  ]

module _ {World Content Error Limiter : Type 0} (sv : Services World Content Error)
    (links : Links World Error) (buckets : List Bucket) where
  pub download_bad_key :
      (path key : String) (e : KeyError) (a : Api World Limiter)
      → validate_key key ≡ some e
      → (answer : Response) × (handle_download sv links buckets path key a ≡ (answer, a))
        × (answer.status ≡ 400)
  unfolding handle_download
  download_bad_key path key e a bad = rw (bad, handle_download) (_, refl, refl)

module _ {World Content Error Limiter : Type 0} (sv : Services World Content Error)
    (buckets : List Bucket) where
  pub update_bad_key :
      (filename : String) (e : KeyError) (a : Api World Limiter)
      → validate_key filename ≡ some e
      → (answer : Response) × (handle_update sv buckets filename a ≡ (answer, a))
        × (answer.status ≡ 400)
  unfolding handle_update
  update_bad_key filename e a bad = elim (Bool-cases (filename == "")) [
    | inl nothing ↦ rw (nothing, if◌then◌else◌) (_, refl, refl)
    | inr given ↦ rw (given, bad, if◌then◌else◌) (_, refl, refl)
  ]

  pub relocate_bad_key :
      (filename : String) (e : KeyError) (a : Api World Limiter)
      → validate_key filename ≡ some e
      → (answer : Response) × (handle_relocate sv buckets filename a ≡ (answer, a))
        × (answer.status ≡ 400)
  unfolding handle_relocate
  relocate_bad_key filename e a bad = elim (Bool-cases (filename == "")) [
    | inl nothing ↦ rw (nothing, if◌then◌else◌) (_, refl, refl)
    | inr given ↦ rw (given, bad, if◌then◌else◌) (_, refl, refl)
  ]

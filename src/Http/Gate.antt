-- ===== src/Http/Gate.antt =====
-- Requests without a key, before the bootstrap has succeeded, or with an unsafe key.
use parparchik.Common.{String, Option, none, some, List, [], ◌∷◌, true, false, ◌≡◌, ◌≢◌, Member}
use parparchik.Common.{
  if◌then◌else◌, arith, eq_iff, Bool-cases, Option-cases, inl, inr, refl, ◌⊎◌, ap, ◌∙◌, ◌↔◌,
}
use mathlib.Core.Option.{some-injective}
use parparchik.Http.Keys.{IsSafeKey, validate_key_iff}
use parparchik.Http.Validation.{KeyError, validate_key}
use parparchik.Http.Access.{
  AuthConfig, Credentials, RateLimiter, enabled, some_key_is, valid, presented_key, authorized,
  allow, client_ip,
}
use parparchik.Http.Answers.{unauthorized, rate_limit_exceeded, not_initialized}
use parparchik.Http.Handlers.{
  Api, Handler, require_ready, handle_update, handle_relocate, handle_download,
}
use parparchik.Http.Refused.{
  IsRefused, IsUntouched, IsRejected, with_limiter, same, gated, download_bad_key, update_bad_key,
  relocate_bad_key,
}
use parparchik.Http.Server.{
  Pattern, TopPattern, Request, Setup, mux, rate_limited, authenticated, routes,
}

some_key_is_iff :
    (key : String) (keys : List String) → (some_key_is key keys ≡ true) ↔ Member key keys
unfolding some_key_is
some_key_is_iff key [] = ground arith
some_key_is_iff key (k ∷ keys) = ground (arith, eq_iff k key, some_key_is_iff key keys)

authorized_no :
    (auth : AuthConfig) (r : Credentials)
    → auth.api_keys ≢ []
    → ¬ Member (presented_key r) auth.api_keys
    → authorized auth r ≡ false
unfolding authorized enabled valid
authorized_no auth r some_keys stranger =
    ground (arith, some_key_is_iff (presented_key r) auth.api_keys, stranger, some_keys)

-- The key that a request brings, where its handler takes one.
abbrev pub client_key : Request → Option String
client_key r = elim r.pattern [
  | Pattern.get_update ↦ some r.filename
  | Pattern.post_relocate ↦ some r.filename
  | Pattern.get_download ↦ some r.key
  | _ ↦ none
]

module _ {World Content Error Limiter : Type 0} (c : Setup World Content Error Limiter) where
  pub rate_limited_cases :
      (r : Request) (next : Handler World Limiter) (a : Api World Limiter)
      → (o : Option (RateLimiter Limiter)) × ((rate_limited c r next a
            ≡ (rate_limit_exceeded, with_limiter o a))
          ⊎ (rate_limited c r next a ≡ next (with_limiter o a)))
  unfolding rate_limited
  rate_limited_cases r next a = elim (Option-cases a.rate_limiter) [
    | inl unlimited ↦
        (none, inr (rw (unlimited, rate_limited) (ap (λ o. next (with_limiter o a)) unlimited)))
    | inr (l, limited) ↦
        let l' = (allow c.limits (client_ip c.limits r.credentials) r.time l).1 in
        elim (Bool-cases (allow c.limits (client_ip c.limits r.credentials) r.time l).0) [
          | inl granted ↦ (some l', inr (rw (limited, granted, if◌then◌else◌) refl))
          | inr denied ↦ (some l', inl (rw (limited, denied, if◌then◌else◌) refl))
        ]
  ]

  pub routes_let_in :
      (r : Request) (a : Api World Limiter)
      → r.top ≡ TopPattern.protected
      → authorized c.auth r.credentials ≡ true
      → routes c r a ≡ rate_limited c r (mux c r) a
  unfolding routes authenticated
  routes_let_in r a top let_in = rw (top, let_in, if◌then◌else◌) refl

  pub routes_kept_out :
      (r : Request) (a : Api World Limiter)
      → r.top ≡ TopPattern.protected
      → authorized c.auth r.credentials ≡ false
      → routes c r a ≡ (unauthorized, a)
  unfolding routes authenticated
  routes_kept_out r a top out = rw (top, out, if◌then◌else◌) refl

  -- Where at least one API key is configured, a request on any route but the probes GET
  -- /healthcheck, /readiness and /redines that presents none of the keys is answered 401, and
  -- nothing of the API changes: the limiter is not asked, the storage is not called.
  pub routes_unauthorized :
      (r : Request) (a : Api World Limiter)
      → r.top ≡ TopPattern.protected
      → c.auth.api_keys ≢ []
      → ¬ Member (presented_key r.credentials) c.auth.api_keys
      → routes c r a ≡ (unauthorized, a)
  routes_unauthorized r a top some_keys stranger =
      routes_kept_out r a top (authorized_no c.auth r.credentials some_keys stranger)

  -- What becomes of a request behind the top patterns.
  routes_cases :
      (r : Request) (a : Api World Limiter)
      → r.top ≡ TopPattern.protected
      → (routes c r a ≡ (unauthorized, a))
        ⊎ ((o : Option (RateLimiter Limiter)) × ((routes c r a
                ≡ (rate_limit_exceeded, with_limiter o a))
              ⊎ (routes c r a ≡ mux c r (with_limiter o a))))
  routes_cases r a top = elim (Bool-cases (authorized c.auth r.credentials)) [
    | inl yes_key ↦ inr (rw (routes_let_in r a top yes_key) (rate_limited_cases r (mux c r) a))
    | inr no_key ↦ inl (routes_kept_out r a top no_key)
  ]

  mux_not_ready :
      (r : Request) (a : Api World Limiter) (p : Pattern)
      → r.pattern ≡ p
      → p ≢ Pattern.any_path
      → a.ready ≡ false
      → mux c r a ≡ (not_initialized, a)
  unfolding mux require_ready
  mux_not_ready r a Pattern.get_status e other down = rw (e, down, if◌then◌else◌) refl
  mux_not_ready r a Pattern.get_list e other down = rw (e, down, if◌then◌else◌) refl
  mux_not_ready r a Pattern.get_update e other down = rw (e, down, if◌then◌else◌) refl
  mux_not_ready r a Pattern.post_relocate e other down = rw (e, down, if◌then◌else◌) refl
  mux_not_ready r a Pattern.get_metrics e other down = rw (e, down, if◌then◌else◌) refl
  mux_not_ready r a Pattern.get_download e other down = rw (e, down, if◌then◌else◌) refl
  mux_not_ready r a Pattern.any_path e other down = absurd (other refl)

  -- Until the API is ready, a request that matches a pattern of the service other than the probes
  -- GET /healthcheck, /readiness and /redines is refused with 401, 429 or 503, and leaves the resolver's
  -- state, the gauges and the readiness as they are.
  pub routes_not_ready :
      (r : Request) (a : Api World Limiter)
      → a.ready ≡ false
      → r.top ≡ TopPattern.protected
      → r.pattern ≢ Pattern.any_path
      → IsRefused (routes c r a).0 × IsUntouched a (routes c r a).1
  routes_not_ready r a down top served = elim (routes_cases r a top) [
    | inl no_key ↦ rw no_key (inl refl, record { resolver = refl; gauges = refl; ready = refl })
    | inr (o, inl limited) ↦
        rw limited (inr (inl refl), record { resolver = refl; gauges = refl; ready = refl })
    | inr (o, inr through) ↦
        rw (through ∙ mux_not_ready r (with_limiter o a) r.pattern refl served down)
          (inr (inr refl), record { resolver = refl; gauges = refl; ready = refl })
  ]

  mux_bad_key :
      (r : Request) (a : Api World Limiter) (p : Pattern) (key : String) (e : KeyError)
      → r.pattern ≡ p
      → client_key (record r { pattern = p }) ≡ some key
      → validate_key key ≡ some e
      → IsRejected (mux c r a) a
  unfolding mux
  mux_bad_key r a Pattern.get_update key e at brought bad =
      rw (at, mux)
        (gated (handle_update c.services c.buckets r.filename) a (
          update_bad_key c.services c.buckets r.filename e a (rw (some-injective _ _ brought) bad)))
  mux_bad_key r a Pattern.post_relocate key e at brought bad =
      rw (at, mux)
        (gated (handle_relocate c.services c.buckets r.filename) a (
          relocate_bad_key c.services c.buckets r.filename e a
            (rw (some-injective _ _ brought) bad)))
  mux_bad_key r a Pattern.get_download key e at brought bad =
      rw (at, mux)
        (gated (handle_download c.services c.links c.buckets r.path r.key) a (
          download_bad_key c.services c.links c.buckets r.path r.key e a
            (rw (some-injective _ _ brought) bad)))
  mux_bad_key r a Pattern.get_status key e at brought bad = absurd (ground arith)
  mux_bad_key r a Pattern.get_list key e at brought bad = absurd (ground arith)
  mux_bad_key r a Pattern.get_metrics key e at brought bad = absurd (ground arith)
  mux_bad_key r a Pattern.any_path key e at brought bad = absurd (ground arith)

  -- A request that brings an unsafe key (see IsSafeKey) to the update, relocate or download route is
  -- answered 400, or refused with 401, 429 or 503, and leaves the resolver's state, the gauges and
  -- the readiness as they are.
  pub routes_unsafe_key :
      (r : Request) (a : Api World Limiter) (key : String)
      → r.top ≡ TopPattern.protected
      → client_key r ≡ some key
      → ¬ IsSafeKey key
      → IsRejected (routes c r a) a
  routes_unsafe_key r a key top brought unsafe = elim (Option-cases (validate_key key)) [
    | inl accepted ↦ absurd (unsafe ((validate_key_iff key).0 accepted))
    | inr (e, bad) ↦ elim (routes_cases r a top) [
      | inl no_key ↦ rw no_key (inr (inl refl), same a)
      | inr (o, inl limited) ↦
          rw limited (inr (inr (inl refl)), record { resolver = refl; gauges = refl; ready = refl })
      | inr (o, inr through) ↦
          let (answer, kept) = mux_bad_key r (with_limiter o a) r.pattern key e refl brought bad in
          rw through
            (answer, record { resolver = kept.resolver; gauges = kept.gauges; ready = kept.ready })
    ]
  ]

-- ===== src/Http/Access.antt =====
-- middleware.go: AuthConfig and ipRateLimiter. `rate.Limiter` and `net.SplitHostPort` are
-- parameters; ConstantTimeCompare of two texts of one length tells whether they are equal.
use parparchik.Common.{
  String, Option, none, some, List, [], ◌∷◌, Bool, true, false, ◌==◌, ltb, length,
}
use parparchik.Common.{if◌then◌else◌}
use parparchik.Common.Assoc
use parparchik.Common.Assoc.{Assoc}
use parparchik.Common.Int.{ℤ, pos, ltb_ℤ, ◌-ℤ◌}
use parparchik.Common.Split.{cut_prefix}
use parparchik.Config.{non_blank}

pub record AuthConfig : Type 0 where
  pub api_keys : List String

unfoldable pub new_auth_config : List String → AuthConfig
new_auth_config keys = record { api_keys = non_blank keys }

unfoldable pub enabled : AuthConfig → Bool
enabled a = ltb 0 (length a.api_keys)

-- The loop of valid.
unfoldable pub some_key_is : String → List String → Bool
some_key_is provided [] = false
some_key_is provided (k ∷ ks) =
    let rest = some_key_is provided ks in if k == provided then true else rest

unfoldable pub valid : AuthConfig → String → Bool
unfolding some_key_is
valid a key = some_key_is key a.api_keys

-- What a request brings that the middlewares read; "" where a header is not set.
pub record Credentials : Type 0 where
  pub x_api_key : String
  pub authorization : String
  pub remote_addr : String

-- `strings.TrimPrefix`
abbrev pub trim_prefix : String → String → String
trim_prefix s prefix = elim (cut_prefix s prefix) [ none ↦ s | some rest ↦ rest ]

unfoldable pub presented_key : Credentials → String
presented_key r = if r.x_api_key == "" then trim_prefix r.authorization "Bearer " else r.x_api_key

-- Whether the auth middleware hands the request on.
unfoldable pub authorized : AuthConfig → Credentials → Bool
unfolding presented_key
authorized a r = if enabled a then valid a (presented_key r) else true

pub record LimiterEntry (Limiter : Type 0) : Type 0 where
  pub limiter : Limiter
  pub last_seen : ℤ

pub record RateLimiter (Limiter : Type 0) : Type 0 where
  pub entries : Assoc (LimiterEntry Limiter)

-- golang.org/x/time/rate and net: a new limiter, Allow at an instant, the host of an address.
pub record Limits (Limiter : Type 0) : Type 0 where
  pub new_limiter : Limiter
  pub allow_at : ℤ → Limiter → Bool × Limiter
  pub split_host : String → Option String

-- 10 minutes in nanoseconds.
abbrev pub rate_limiter_idle_timeout : ℤ
rate_limiter_idle_timeout = pos 600000000000

unfoldable pub evict_idle :
    {Limiter : Type 0} → ℤ → Assoc (LimiterEntry Limiter) → Assoc (LimiterEntry Limiter)
evict_idle cutoff [] = []
evict_idle cutoff ((ip, e) ∷ es) =
    let rest = evict_idle cutoff es in if ltb_ℤ e.last_seen cutoff then rest else (ip, e) ∷ rest

-- One tick of cleanupLoop.
unfoldable pub cleanup_tick : {Limiter : Type 0} → ℤ → RateLimiter Limiter → RateLimiter Limiter
unfolding evict_idle
cleanup_tick now l = record { entries = evict_idle (now -ℤ rate_limiter_idle_timeout) l.entries }

module _ {Limiter : Type 0} (lm : Limits Limiter) where
  abbrev pub limiter_of : Option (LimiterEntry Limiter) → Limiter
  limiter_of none = lm.new_limiter
  limiter_of (some e) = e.limiter

  -- The entry of the client, a new one if it has none, is asked and marked as seen.
  unfoldable pub allow : String → ℤ → RateLimiter Limiter → Bool × RateLimiter Limiter
  allow ip now l =
      let (granted, next) = lm.allow_at now (limiter_of (Assoc.lookup ip l.entries)) in
      (
        granted,
        record { entries = Assoc.insert ip (record { limiter = next; last_seen = now }) l.entries },
      )

  unfoldable pub client_ip : Credentials → String
  client_ip r = elim (lm.split_host r.remote_addr) [ none ↦ r.remote_addr | some host ↦ host ]

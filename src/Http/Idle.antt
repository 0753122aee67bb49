-- ===== src/Http/Idle.antt =====
-- ipRateLimiter over a sequence of requests and ticks of its cleanup, as one client meets it.
use parparchik.Common.{
  String, Option, none, some, List, [], ◌∷◌, Bool, ◌==◌, ◌≡◌, refl, arith, eq_iff, if◌then◌else◌,
  sym, ◌∙◌, ap,
}
use parparchik.Common.Assoc
use parparchik.Common.Assoc.{Assoc, HasDistinctKeys, lookup-insert, insert-HasDistinctKeys}
use parparchik.Common.Int.{ℤ, pos, negsuc, ltb_ℤ, ◌-ℤ◌, ◌+ℤ◌}
use parparchik.Http.Access.{
  LimiterEntry, RateLimiter, Limits, rate_limiter_idle_timeout, evict_idle, cleanup_tick, allow,
  limiter_of,
}

-- A request of a client, and a tick of the cleanup, at an instant in nanoseconds.
pub data LimiterEvent : Type 0 where
  asks : String → ℤ → LimiterEvent
  tick : ℤ → LimiterEvent

-- More than ten minutes, in nanoseconds, have passed since the instant of the last request.
abbrev pub is_idle : ℤ → ℤ → Bool
is_idle last_seen now = ltb_ℤ (last_seen +ℤ pos 600_000_000_000) now

is_idle_lem :
    (last_seen now : ℤ) → ltb_ℤ last_seen (now -ℤ rate_limiter_idle_timeout) ≡ is_idle last_seen now
unfolding ◌-ℤ◌ ◌+ℤ◌
is_idle_lem (pos t) (pos n) = ground arith
is_idle_lem (pos t) (negsuc n) = ground arith
is_idle_lem (negsuc t) (pos n) = ground arith
is_idle_lem (negsuc t) (negsuc n) = ground arith

module _ {Limiter : Type 0} (lm : Limits Limiter) where
  abbrev pub run_limiter : List LimiterEvent → RateLimiter Limiter → RateLimiter Limiter
  run_limiter [] l = l
  run_limiter (asks ip now ∷ es) l = run_limiter es (allow lm ip now l).1
  run_limiter (tick now ∷ es) l = run_limiter es (cleanup_tick now l)

  -- The limiter that a request of the client meets: its own, or a new one.
  abbrev pub own_limiter : Option (LimiterEntry Limiter) → Limiter
  own_limiter none = lm.new_limiter
  own_limiter (some e) = e.limiter

  -- What one client has, where no other is served.
  abbrev pub own_entry :
      String → List LimiterEvent → Option (LimiterEntry Limiter) → Option (LimiterEntry Limiter)
  own_entry ip [] o = o
  own_entry ip (asks other now ∷ es) o = own_entry ip es (
      if other == ip
      then some (record { limiter = (lm.allow_at now (own_limiter o)).1; last_seen = now })
      else o)
  own_entry ip (tick now ∷ es) none = own_entry ip es none
  own_entry ip (tick now ∷ es) (some e) =
      own_entry ip es (if is_idle e.last_seen now then none else some e)

module _ {Limiter : Type 0} where
  abbrev kept_of : ℤ → Option (LimiterEntry Limiter) → Option (LimiterEntry Limiter)
  kept_of cutoff none = none
  kept_of cutoff (some e) = if ltb_ℤ e.last_seen cutoff then none else some e

  evict_idle_lem :
      (cutoff : ℤ) (es : Assoc (LimiterEntry Limiter))
      → HasDistinctKeys es
      → HasDistinctKeys (evict_idle cutoff es)
        × ((ip : String)
            → Assoc.lookup ip (evict_idle cutoff es) ≡ kept_of cutoff (Assoc.lookup ip es))
  unfolding evict_idle Assoc.lookup
  evict_idle_lem cutoff [] h = (tt, λ ip. refl)
  evict_idle_lem cutoff ((j, e) ∷ es) h =
      let (distinct, looked) = evict_idle_lem cutoff es h.1 in
      (ground (arith, looked j, h), λ ip. ground (arith, looked ip, looked j, h, eq_iff j ip))

module _ {Limiter : Type 0} (lm : Limits Limiter) where
  own_limiter-limiter_of : (o : Option (LimiterEntry Limiter)) → own_limiter lm o ≡ limiter_of lm o
  own_limiter-limiter_of none = refl
  own_limiter-limiter_of (some e) = refl

  own_entry-tick :
      (ip : String) (now : ℤ) (es : List LimiterEvent) (o : Option (LimiterEntry Limiter))
      → own_entry lm ip es (kept_of (now -ℤ rate_limiter_idle_timeout) o)
        ≡ own_entry lm ip (tick now ∷ es) o
  own_entry-tick ip now es none = refl
  own_entry-tick ip now es (some e) = rw (is_idle_lem e.last_seen now) refl

  own_entry-asks :
      (ip other : String) (now : ℤ) (es : List LimiterEvent) (l : RateLimiter Limiter)
      → own_entry lm ip es (Assoc.lookup ip (allow lm other now l).1.entries)
        ≡ own_entry lm ip (asks other now ∷ es) (Assoc.lookup ip l.entries)
  unfolding allow
  own_entry-asks ip other now es l = ap (own_entry lm ip es) (
      ground (
        arith,
        eq_iff other ip,
        own_limiter-limiter_of (Assoc.lookup ip l.entries),
        lookup-insert other ip
            (record {
              limiter = (lm.allow_at now (limiter_of lm (Assoc.lookup other l.entries))).1;
              last_seen = now;
            })
            l.entries,
      ))

  run_limiter-own :
      (es : List LimiterEvent) (l : RateLimiter Limiter) (ip : String)
      → HasDistinctKeys l.entries
      → (Assoc.lookup ip (run_limiter lm es l).entries
          ≡ own_entry lm ip es (Assoc.lookup ip l.entries))
        × HasDistinctKeys (run_limiter lm es l).entries
  unfolding allow cleanup_tick
  run_limiter-own [] l ip h = (refl, h)
  run_limiter-own (asks other now ∷ es) l ip h =
      let (looked, distinct) =
        run_limiter-own es (allow lm other now l).1 ip
          (insert-HasDistinctKeys other _ l.entries h) in
      (looked ∙ own_entry-asks ip other now es l, distinct)
  run_limiter-own (tick now ∷ es) l ip h =
      let (distinct, looked) = evict_idle_lem (now -ℤ rate_limiter_idle_timeout) l.entries h in
      let (looked', distinct') = run_limiter-own es (cleanup_tick now l) ip distinct in
      (
        looked'
            ∙ ap (own_entry lm ip es) (looked ip)
            ∙ own_entry-tick ip now es (Assoc.lookup ip l.entries),
        distinct',
      )

  -- Each client has a limiter of its own, which it keeps while it is not idle: after any requests and
  -- ticks of the cleanup, on a limiter where each client stands once, each stands once, the entry of
  -- a client is the one that its own requests and the ticks alone would leave it, where a request
  -- asks the client's limiter, or a new one if it has none, and a tick drops an entry exactly when
  -- more than ten minutes have passed since the client's last request; and the next request of the
  -- client is granted exactly if that limiter grants it.
  pub run_limiter_lem :
      (es : List LimiterEvent) (l : RateLimiter Limiter) (ip : String) (now : ℤ)
      → HasDistinctKeys l.entries
      → HasDistinctKeys (run_limiter lm es l).entries
        × (Assoc.lookup ip (run_limiter lm es l).entries
            ≡ own_entry lm ip es (Assoc.lookup ip l.entries))
        × ((allow lm ip now (run_limiter lm es l)).0
            ≡ (lm.allow_at now (own_limiter lm (own_entry lm ip es (Assoc.lookup ip l.entries)))).0)
  unfolding allow
  run_limiter_lem es l ip now h =
      let (looked, distinct) = run_limiter-own es l ip h in
      (
        distinct,
        looked,
        ap (λ o. (lm.allow_at now o).0)
            (ap (limiter_of lm) looked
              ∙ sym (own_limiter-limiter_of (own_entry lm ip es (Assoc.lookup ip l.entries)))),
      )

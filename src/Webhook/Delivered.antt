-- ===== src/Webhook/Delivered.antt =====
-- The history of a delivery.
use parparchik.Common.{
  ℕ, zero, suc, ◌-◌, ◌≤◌, List, [], ◌∷◌, Bool, true, false, ◌≡◌, ◌⊎◌, refl, length,
}
use parparchik.Common.{Bool-cases, Option-cases, inl, inr, arith, subst}
use parparchik.Common.Int.{ℤ, pos_part, ◌+ℤ◌, wrap}
use parparchik.Common.Results.{Result, ok, err}
use parparchik.Webhook.Subscribers.{Subscriber}
use parparchik.Webhook.Dispatch.{
  DeliveryStatus, Dispatcher, Transport, max_attempts_of, backoff_base_of, status_of, signature,
  attempt_once, deliver_from, deliver,
}

pub max_attempts_of_positive : (d : Dispatcher) → 1 ≤ pos_part (max_attempts_of d)
unfolding max_attempts_of
max_attempts_of_positive d = ground arith

module _ {Error : Type 0} where
  -- The statuses are those of the subscriber, numbered from `n`.
  abbrev pub IsNumbered : Subscriber → ℕ → List (DeliveryStatus Error) → Type 0
  IsNumbered sub n [] = Unit
  IsNumbered sub n (s ∷ ss) =
      (s.subscriber_url ≡ sub.url) × (s.attempt ≡ n) × IsNumbered sub (suc n) ss

  -- Only the last status may be a delivery.
  abbrev pub IsUndeliveredBefore : List (DeliveryStatus Error) → Type 0
  IsUndeliveredBefore [] = Unit
  IsUndeliveredBefore (s ∷ ss) = ((ss ≡ []) ⊎ (s.delivered ≡ false)) × IsUndeliveredBefore ss

  abbrev pub last_delivered : List (DeliveryStatus Error) → Bool
  last_delivered [] = false
  last_delivered (s ∷ []) = s.delivered
  last_delivered (s ∷ r ∷ ss) = last_delivered (r ∷ ss)

module _ {World Content Payload Error : Type 0} (t : Transport World Content Payload Error) where
  -- What a delivery leaves that may try `limit` times.
  pub record IsHistory (sub : Subscriber) (n limit : ℕ) (ss : List (DeliveryStatus Error))
      : Type 0 where
    pub numbered : IsNumbered sub n ss
    pub some_try : 1 ≤ length ss
    pub bounded : length ss ≤ limit
    pub stops : IsUndeliveredBefore ss
    pub ends :
        (last_delivered ss ≡ true) ⊎ (length ss ≡ limit) ⊎ ((w : World) × (t.cancelled w ≡ true))

  status_of-numbered :
      (sub : Subscriber) (n : ℕ) (now : ℤ) (r : Result Error ℤ)
      → ((status_of t sub n now r).subscriber_url ≡ sub.url)
        × ((status_of t sub n now r).attempt ≡ n)
  unfolding status_of
  status_of-numbered sub n now (err e) = (refl, refl)
  status_of-numbered sub n now (ok code) = (refl, refl)

  attempt_once-numbered :
      (sub : Subscriber) (body : Content) (n : ℕ) (w : World)
      → ((attempt_once t sub body n w).0.subscriber_url ≡ sub.url)
        × ((attempt_once t sub body n w).0.attempt ≡ n)
  unfolding attempt_once status_of
  attempt_once-numbered sub body n w = elim (Option-cases (t.new_request sub.url)) [
    | inr (e, refused) ↦ rw (refused, attempt_once) (refl, refl)
    | inl built ↦
        rw (built, attempt_once)
          (status_of-numbered sub n (t.now w) (t.send sub.url (signature t sub body) body w).0)
  ]

  -- A history of one attempt.
  IsHistory-one :
      (sub : Subscriber) (n limit : ℕ) (s : DeliveryStatus Error)
      → s.subscriber_url ≡ sub.url
      → s.attempt ≡ n
      → (s.delivered ≡ true) ⊎ (1 ≡ limit) ⊎ ((w : World) × (t.cancelled w ≡ true))
      → 1 ≤ limit
      → IsHistory sub n limit (s ∷ [])
  IsHistory-one sub n limit s u a e l = record {
    numbered = (u, a, tt);
    some_try = omega arith;
    bounded = l;
    stops = (inl refl, tt);
    ends = e;
  }

  IsHistory-more :
      (sub : Subscriber) (n limit : ℕ) (s : DeliveryStatus Error) (ss : List (DeliveryStatus Error))
      → s.subscriber_url ≡ sub.url
      → s.attempt ≡ n
      → s.delivered ≡ false
      → IsHistory sub (suc n) limit ss
      → IsHistory sub n (suc limit) (s ∷ ss)
  IsHistory-more sub n limit s [] u a d h = absurd (omega (arith, h.some_try))
  IsHistory-more sub n limit s (r ∷ ss) u a d h = record {
    numbered = (u, a, h.numbered);
    some_try = omega arith;
    bounded = omega (arith, h.bounded);
    stops = (inr d, h.stops);
    ends = elim h.ends [
      | inl good ↦ inl good
      | inr (inl all) ↦ inr (inl (omega (arith, all)))
      | inr (inr stop) ↦ inr (inr stop)
    ];
  }

  deliver_from-IsHistory :
      (sub : Subscriber) (body : Content) (left n : ℕ) (backoff : ℤ) (w : World)
      → IsHistory sub n (suc left) (deliver_from t sub body left n backoff w).0
  unfolding deliver_from
  deliver_from-IsHistory sub body zero n backoff w =
      let (u, a) = attempt_once-numbered sub body n w in
      IsHistory-one sub n 1 _ u a (inr (inl refl)) (omega arith)
  deliver_from-IsHistory sub body (suc left) n backoff w =
      let status : DeliveryStatus Error = (attempt_once t sub body n w).0 in
      let w' = (attempt_once t sub body n w).1 in
      let (u, a) = attempt_once-numbered sub body n w in
      elim (Bool-cases status.delivered) [
        | inl good ↦
            rw (good, deliver_from) (IsHistory-one sub n _ status u a (inl good) (omega arith))
        | inr bad ↦ elim (Bool-cases (t.cancelled w')) [
          | inl stop ↦
              rw (bad, stop, deliver_from)
                (IsHistory-one sub n _ status u a (inr (inr (w', stop))) (omega arith))
          | inr on ↦
              rw (bad, on, deliver_from)
                (IsHistory-more sub n _ status _ u a bad (
                  deliver_from-IsHistory sub body left (suc n) (wrap (backoff +ℤ backoff))
                    (t.sleep backoff w')))
        ]
      ]

  -- Every delivery ends: it leaves at least one status and at most as many as the dispatcher's
  -- maximum of attempts (3 where none is set), numbered from 1 and with the subscriber's URL; none
  -- but the last is a delivery; and it stops short of the maximum only behind a delivery or because
  -- the context is cancelled.
  pub deliver-IsHistory :
      (d : Dispatcher) (sub : Subscriber) (body : Content) (w : World)
      → IsHistory sub 1 (pos_part (max_attempts_of d)) (deliver t d sub body w).0
  unfolding deliver
  deliver-IsHistory d sub body w =
      let some_left : suc (pos_part (max_attempts_of d) - 1) ≡ pos_part (max_attempts_of d) =
        omega (arith, max_attempts_of_positive d) in
      subst (λ limit. IsHistory sub 1 limit (deliver t d sub body w).0) some_left
        (deliver_from-IsHistory sub body (pos_part (max_attempts_of d) - 1) 1 (backoff_base_of d) w)

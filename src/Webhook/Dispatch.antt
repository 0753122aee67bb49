-- ===== src/Webhook/Dispatch.antt =====
-- dispatcher.go. HTTP, HMAC, encoding/json, the clock, the context and Sleep are parameters; an
-- attempt and the wait behind it change the outside world. The response body, which is read and
-- dropped, is left out.
use parparchik.Common.{
  String, ℕ, zero, suc, ◌-◌, Option, none, some, List, [], ◌∷◌, ◌++◌, Bool, true, false, ◌==◌, not,
  ◌&&◌,
}
use parparchik.Common.{if◌then◌else◌, map}
use parparchik.Common.Int.{ℤ, pos, pos_part, ltb_ℤ, ◌+ℤ◌, wrap}
use parparchik.Common.Results.{Result, ok, err}
use parparchik.Webhook.Subscribers.{Event, Subscriber, Registry, subscribers_of}

pub data DeliveryError (Error : Type 0) : Type 0 where
  encode_event build_request deliver_failed : Error → DeliveryError Error
  unexpected_status : ℤ → DeliveryError Error

pub record DeliveryStatus (Error : Type 0) : Type 0 where
  pub subscriber_url : String
  pub attempt : ℕ
  pub status_code : ℤ
  pub error : Option (DeliveryError Error)
  pub delivered : Bool
  pub timestamp : ℤ

-- The bounds that the caller sets.
pub record Dispatcher : Type 0 where
  pub max_attempts : ℤ
  pub backoff_base : ℤ

abbrev pub default_max_attempts : ℤ
default_max_attempts = pos 3

-- A second in nanoseconds.
abbrev pub default_backoff_base : ℤ
default_backoff_base = pos 1000000000

unfoldable pub max_attempts_of : Dispatcher → ℤ
max_attempts_of d = if ltb_ℤ (pos 0) d.max_attempts then d.max_attempts else default_max_attempts

unfoldable pub backoff_base_of : Dispatcher → ℤ
backoff_base_of d = if ltb_ℤ (pos 0) d.backoff_base then d.backoff_base else default_backoff_base

-- What the dispatcher calls: `send` is the POST of the body to the URL with the signature header, if
-- any, and answers with the status code of the response.
pub record Transport (World Content Payload Error : Type 0) : Type 0 where
  pub marshal : Event Payload → Result Error Content
  pub now : World → ℤ
  pub new_request : String → Option Error
  pub sign : String → Content → String
  pub send : String → Option String → Content → World → Result Error ℤ × World
  pub cancelled : World → Bool
  pub sleep : ℤ → World → World

-- The loop that appends what the channel hands over.
unfoldable pub join_all :
    {Error : Type 0} → List (List (DeliveryStatus Error)) → List (DeliveryStatus Error)
join_all [] = []
join_all (results ∷ rest) = results ++ join_all rest

module _ {World Content Payload Error : Type 0} (t : Transport World Content Payload Error) where
  abbrev pub signature : Subscriber → Content → Option String
  signature sub body = if sub.secret == "" then none else some (t.sign sub.secret body)

  abbrev pub failed : Subscriber → ℕ → ℤ → DeliveryError Error → DeliveryStatus Error
  failed sub n now e = record {
    subscriber_url = sub.url;
    attempt = n;
    status_code = pos 0;
    error = some e;
    delivered = false;
    timestamp = now;
  }

  -- `resp.StatusCode >= 200 && resp.StatusCode < 300`
  abbrev pub is_success : ℤ → Bool
  is_success code = not (ltb_ℤ code (pos 200)) && ltb_ℤ code (pos 300)

  unfoldable pub status_of : Subscriber → ℕ → ℤ → Result Error ℤ → DeliveryStatus Error
  status_of sub n now (err e) = failed sub n now (DeliveryError.deliver_failed e)
  status_of sub n now (ok code) = record {
    subscriber_url = sub.url;
    attempt = n;
    status_code = code;
    error = if is_success code then none else some (DeliveryError.unexpected_status code);
    delivered = is_success code;
    timestamp = now;
  }

  unfoldable pub attempt_once : Subscriber → Content → ℕ → World → DeliveryStatus Error × World
  unfolding status_of
  attempt_once sub body n w = elim (t.new_request sub.url) [
    | some e ↦ (failed sub n (t.now w) (DeliveryError.build_request e), w)
    | none ↦
        let (r, w') = t.send sub.url (signature sub body) body w in
        (status_of sub n (t.now w) r, w')
  ]

  -- The loop of deliver, by the attempts that are left behind this one.
  unfoldable pub deliver_from :
      Subscriber → Content → ℕ → ℕ → ℤ → World → List (DeliveryStatus Error) × World
  unfolding attempt_once
  deliver_from sub body zero n backoff w =
      let (status, w') = attempt_once sub body n w in (status ∷ [], w')
  deliver_from sub body (suc left) n backoff w =
      let (status, w') = attempt_once sub body n w in
      elim status.delivered [
        | true ↦ (status ∷ [], w')
        | false ↦ elim (t.cancelled w') [
          | true ↦ (status ∷ [], w')
          | false ↦
              let (later, w'') =
                deliver_from sub body left (suc n) (wrap (backoff +ℤ backoff))
                  (t.sleep backoff w') in
              (status ∷ later, w'')
        ]
      ]

  unfoldable pub deliver :
      Dispatcher → Subscriber → Content → World → List (DeliveryStatus Error) × World
  unfolding deliver_from max_attempts_of backoff_base_of
  deliver d sub body w =
      deliver_from sub body (pos_part (max_attempts_of d) - 1) 1 (backoff_base_of d) w

  -- What the goroutines return, each on the world that it sees.
  unfoldable pub deliver_each :
      Dispatcher → List Subscriber → Content → (ℕ → World) → ℕ → List (List (DeliveryStatus Error))
  unfolding deliver
  deliver_each d [] body seen i = []
  deliver_each d (sub ∷ subs) body seen i =
      (deliver d sub body (seen i)).0 ∷ deliver_each d subs body seen (suc i)

  -- What Fire does for the subscribers; `received` is the order in which the channel hands the results
  -- over.
  unfoldable pub fire_at :
      Dispatcher
      → List Subscriber
      → Event Payload
      → World
      → (ℕ → World)
      → (List (List (DeliveryStatus Error)) → List (List (DeliveryStatus Error)))
      → List (DeliveryStatus Error)
  unfolding deliver_each join_all
  fire_at d [] event w seen received = []
  fire_at d (s ∷ ss) event w seen received = elim (t.marshal event) [
    | err e ↦ map (λ sub. failed sub 1 (t.now w) (DeliveryError.encode_event e)) (s ∷ ss)
    | ok body ↦ join_all (received (deliver_each d (s ∷ ss) body seen 0))
  ]

  unfoldable pub fire :
      Dispatcher
      → Registry
      → Event Payload
      → World
      → (ℕ → World)
      → (List (List (DeliveryStatus Error)) → List (List (DeliveryStatus Error)))
      → List (DeliveryStatus Error)
  unfolding fire_at
  fire d registry event w seen received =
      fire_at d (subscribers_of event.type registry) event w seen received

-- ===== src/Webhook/Told.antt =====
-- Fire: who is told of an event, and how often.
use mathlib.Core.List.{Permᴰ}
use parparchik.Common.{
  String, ℕ, suc, ◌+◌, ◌≤◌, List, [], ◌∷◌, ◌++◌, ◌==◌, ◌&&◌, ◌≡◌, refl, length, map,
}
use parparchik.Common.{inl, inr, arith, if◌then◌else◌, ◌∙◌, sym, ap}
use parparchik.Common.Int.{pos_part}
use parparchik.Common.Results.{Result-cases}
use parparchik.Webhook.Subscribers.{
  EventType, Event, Subscriber, Registry, wants, wanting, subscribers_of,
}
use parparchik.Webhook.Dispatch.{
  DeliveryStatus, DeliveryError, Dispatcher, Transport, max_attempts_of, failed, deliver,
  deliver_each, join_all, fire_at, fire,
}
use parparchik.Webhook.Delivered.{IsNumbered, max_attempts_of_positive, deliver-IsHistory}

-- The statuses for a URL.
abbrev pub told : {Error : Type 0} → String → List (DeliveryStatus Error) → ℕ
told url [] = 0
told url (s ∷ ss) = (if s.subscriber_url == url then 1 else 0) + told url ss

-- So many statuses for each subscriber with the URL.
abbrev share : String → ℕ → List Subscriber → ℕ
share url n [] = 0
share url n (s ∷ ss) = (if s.url == url then n else 0) + share url n ss

-- So many for each subscriber with the URL that wants the event.
abbrev pub wanted : String → EventType → ℕ → List Subscriber → ℕ
wanted url e n [] = 0
wanted url e n (s ∷ ss) = (if wants s e && s.url == url then n else 0) + wanted url e n ss

share-wanting :
    (url : String) (e : EventType) (n : ℕ) (ss : List Subscriber)
    → share url n (wanting e ss) ≡ wanted url e n ss
unfolding wanting
share-wanting url e n [] = refl
share-wanting url e n (s ∷ ss) = ground (arith, share-wanting url e n ss)

share_mono : (url : String) (n : ℕ) (ss : List Subscriber) → 1 ≤ n → share url 1 ss ≤ share url n ss
share_mono url n [] h = omega arith
share_mono url n (s ∷ ss) h = ground (arith, share_mono url n ss h)

module _ {Error : Type 0} where
  told-append :
      (url : String) (xs ys : List (DeliveryStatus Error))
      → told url (xs ++ ys) ≡ told url xs + told url ys
  told-append url [] ys = omega arith
  told-append url (x ∷ xs) ys = omega (arith, told-append url xs ys)

  told-join_all :
      (url : String) {xss yss : List (List (DeliveryStatus Error))}
      → Permᴰ xss yss
      → told url (join_all xss) ≡ told url (join_all yss)
  unfolding join_all
  told-join_all url Permᴰ.nil = refl
  told-join_all url (Permᴰ.cons {a = x} {b = y} {l₁ = xss} {l₂ = yss} e d) =
      told-append url x (join_all xss)
      ∙ omega (arith, ap (told url) e, told-join_all url d)
      ∙ sym (told-append url y (join_all yss))
  told-join_all url (Permᴰ.swap {a = a} {b = b} {a' = c} {b' = d} {l = l} e f) =
      told-append url a (b ++ join_all l)
      ∙ omega (
        arith,
        told-append url b (join_all l),
        told-append url d (join_all l),
        ap (told url) e,
        ap (told url) f,
      )
      ∙ sym (told-append url c (d ++ join_all l))
  told-join_all url (Permᴰ.trans d f) = told-join_all url d ∙ told-join_all url f

  told-IsNumbered :
      (url : String) (sub : Subscriber) (n : ℕ) (ss : List (DeliveryStatus Error))
      → IsNumbered sub n ss
      → told url ss ≡ (if sub.url == url then length ss else 0)
  told-IsNumbered url sub n [] h = ground arith
  told-IsNumbered url sub n (s ∷ ss) h = ground (arith, told-IsNumbered url sub (suc n) ss h.2, h.0)

module _ {World Content Payload Error : Type 0} (t : Transport World Content Payload Error)
    (d : Dispatcher) where
  told-deliver :
      (url : String) (sub : Subscriber) (body : Content) (w : World)
      → (share url 1 (sub ∷ []) ≤ told url (deliver t d sub body w).0)
        × (told url (deliver t d sub body w).0
            ≤ share url (pos_part (max_attempts_of d)) (sub ∷ []))
  told-deliver url sub body w =
      let h = deliver-IsHistory t d sub body w in
      let e = told-IsNumbered url sub 1 (deliver t d sub body w).0 h.numbered in
      ground (arith, e, h.some_try, h.bounded)

  told-deliver_each :
      (url : String) (subs : List Subscriber) (body : Content) (seen : ℕ → World) (i : ℕ)
      → (share url 1 subs ≤ told url (join_all (deliver_each t d subs body seen i)))
        × (told url (join_all (deliver_each t d subs body seen i))
            ≤ share url (pos_part (max_attempts_of d)) subs)
  unfolding deliver_each join_all
  told-deliver_each url [] body seen i = (omega arith, omega arith)
  told-deliver_each url (sub ∷ subs) body seen i =
      let (low, high) = told-deliver url sub body (seen i) in
      let (lows, highs) = told-deliver_each url subs body seen (suc i) in
      let e =
        told-append url (deliver t d sub body (seen i)).0
          (join_all (deliver_each t d subs body seen (suc i))) in
      (omega (arith, low, lows, e), omega (arith, high, highs, e))

  told-failed :
      (url : String) (f : Subscriber → DeliveryStatus Error) (subs : List Subscriber)
      → ((sub : Subscriber) → (f sub).subscriber_url ≡ sub.url)
      → told url (map f subs) ≡ share url 1 subs
  told-failed url f [] h = refl
  told-failed url f (sub ∷ subs) h = ground (arith, h sub, told-failed url f subs h)

  told-fire_at :
      (url : String) (subs : List Subscriber) (event : Event Payload) (w : World) (seen : ℕ → World)
      (received : List (List (DeliveryStatus Error)) → List (List (DeliveryStatus Error)))
      → ((results : List (List (DeliveryStatus Error))) → Permᴰ (received results) results)
      → (share url 1 subs ≤ told url (fire_at t d subs event w seen received))
        × (told url (fire_at t d subs event w seen received)
            ≤ share url (pos_part (max_attempts_of d)) subs)
  unfolding fire_at
  told-fire_at url [] event w seen received order = (omega arith, omega arith)
  told-fire_at url (s ∷ ss) event w seen received order = elim (Result-cases (t.marshal event)) [
    | inr (e, bad) ↦
        let refused =
          told-failed url (λ sub. failed t sub 1 (t.now w) (DeliveryError.encode_event e)) (s ∷ ss)
            (λ sub. refl) in
        rw (bad, fire_at)
          (
            omega (arith, refused),
            omega (arith, refused, share_mono url _ (s ∷ ss) (max_attempts_of_positive d)),
          )
    | inl (body, encoded) ↦
        let shuffled = told-join_all url (order (deliver_each t d (s ∷ ss) body seen 0)) in
        let (low, high) = told-deliver_each url (s ∷ ss) body seen 0 in
        rw (encoded, fire_at) (omega (arith, shuffled, low), omega (arith, shuffled, high))
  ]

  -- In whatever order the channel hands the results over, Fire reports at least one status for each
  -- registered subscriber that wants the event, and at most as many as the dispatcher's maximum of
  -- attempts for each, URL by URL; so none for a URL that no such subscriber has.
  pub fire_lem :
      (registry : Registry) (event : Event Payload) (w : World) (seen : ℕ → World)
      (received : List (List (DeliveryStatus Error)) → List (List (DeliveryStatus Error)))
      (url : String)
      → ((results : List (List (DeliveryStatus Error))) → Permᴰ (received results) results)
      → (wanted url event.type 1 registry.subscribers
          ≤ told url (fire t d registry event w seen received))
        × (told url (fire t d registry event w seen received)
            ≤ wanted url event.type (pos_part (max_attempts_of d)) registry.subscribers)
  unfolding fire subscribers_of
  fire_lem registry event w seen received url order =
      let (low, high) =
        told-fire_at url (wanting event.type registry.subscribers) event w seen received order in
      (
        omega (arith, low, share-wanting url event.type 1 registry.subscribers),
        omega (
          arith,
          high,
          share-wanting url event.type (pos_part (max_attempts_of d)) registry.subscribers,
        ),
      )

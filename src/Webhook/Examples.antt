-- ===== src/Webhook/Examples.antt =====
-- Two subscribers behind a receiver that fails twice, and the theorems about the deliveries.
use mathlib.Core.List.{Permᴰ}
use mathlib.Core.List.Permᴰ
use parparchik.Common.{String, ℕ, suc, ◌≤◌, none, List, [], ◌∷◌, false, refl, ltb, if◌then◌else◌}
use parparchik.Common.Int.{pos, pos_part}
use parparchik.Common.Results.{ok}
use parparchik.Webhook.Subscribers.{Event, Subscriber, Registry, event_upload, event_relocate}
use parparchik.Webhook.Dispatch.{
  DeliveryStatus, Dispatcher, Transport, max_attempts_of, deliver, fire,
}
use parparchik.Webhook.Delivered.{IsHistory, deliver-IsHistory}
use parparchik.Webhook.Told.{told, wanted, fire_lem}

-- The world counts the requests; the third one is accepted.
abbrev transport : Transport ℕ ℕ ℕ ℕ
transport = record {
  marshal = λ e. ok e.payload;
  now = λ w. pos w;
  new_request = λ url. none;
  sign = λ secret body. secret;
  send = λ url signature body w. (ok (if ltb w 2 then pos 500 else pos 204), suc w);
  cancelled = λ w. false;
  sleep = λ d w. w;
}

abbrev dispatcher : Dispatcher
dispatcher = record { max_attempts = pos 0; backoff_base = pos 0 }

abbrev subscriber : String → List String → Subscriber
subscriber url events = record { url = url; events = events; secret = "s" }

abbrev registry : Registry
registry = record {
  subscribers =
      subscriber "http://a" []
      ∷ subscriber "http://b" (event_upload ∷ [])
      ∷ subscriber "http://c" (event_relocate ∷ [])
      ∷ [];
}

abbrev uploaded : Event ℕ
uploaded = record {
  type = event_upload;
  timestamp = pos 0;
  bucket = "pub";
  key = "a.txt";
  payload = 7;
}

deliver-IsHistory_example :
    IsHistory transport
      (subscriber "http://a" [])
      1
      (pos_part (max_attempts_of dispatcher))
      (deliver transport dispatcher (subscriber "http://a" []) 7 0).0
deliver-IsHistory_example = deliver-IsHistory transport dispatcher (subscriber "http://a" []) 7 0

-- The channel hands the second result over first.
abbrev second_first : List (List (DeliveryStatus ℕ)) → List (List (DeliveryStatus ℕ))
second_first [] = []
second_first (a ∷ []) = a ∷ []
second_first (a ∷ b ∷ rest) = b ∷ a ∷ rest

same_results : (results : List (List (DeliveryStatus ℕ))) → Permᴰ (second_first results) results
same_results [] = Permᴰ.nil
same_results (a ∷ []) = Permᴰ.refl (a ∷ [])
same_results (a ∷ b ∷ rest) = Permᴰ.swap refl refl

fire_lem_example :
    (wanted "http://b" event_upload 1 registry.subscribers
      ≤ told "http://b" (fire transport dispatcher registry uploaded 0 (λ i. i) second_first))
    × (told "http://b" (fire transport dispatcher registry uploaded 0 (λ i. i) second_first)
        ≤ wanted "http://b" event_upload
            (pos_part (max_attempts_of dispatcher))
            registry.subscribers)
fire_lem_example =
    fire_lem transport dispatcher registry uploaded 0 (λ i. i) second_first "http://b" same_results

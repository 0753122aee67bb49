-- ===== src/Webhook/Subscribers.antt =====
-- webhook.go: events, subscribers and the registry. A list is a value, which is what the copies of
-- Register and Subscribers are for; the payload of an event is a parameter.
use parparchik.Common.{String, List, [], ◌∷◌, ◌++◌, Bool, true, false, ◌==◌, if◌then◌else◌}
use parparchik.Common.Int.{ℤ}

abbrev pub EventType : Type 0
EventType = String

abbrev pub event_upload : EventType
event_upload = "upload"

abbrev pub event_relocate : EventType
event_relocate = "relocate"

abbrev pub event_policy_decision : EventType
event_policy_decision = "policy_decision"

abbrev pub event_scan_complete : EventType
event_scan_complete = "scan_complete"

pub record Event (Payload : Type 0) : Type 0 where
  pub type : EventType
  pub timestamp : ℤ
  pub bucket : String
  pub key : String
  pub payload : Payload

pub record Subscriber : Type 0 where
  pub url : String
  pub events : List EventType
  pub secret : String

-- The loop of wants.
unfoldable pub some_event_is : EventType → List EventType → Bool
some_event_is t [] = false
some_event_is t (e ∷ es) = let rest = some_event_is t es in if e == t then true else rest

unfoldable pub wants : Subscriber → EventType → Bool
unfolding some_event_is
wants s t = elim s.events [ [] ↦ true | e ∷ es ↦ some_event_is t (e ∷ es) ]

pub record Registry : Type 0 where
  pub subscribers : List Subscriber

unfoldable pub new_registry : Registry
new_registry = record { subscribers = [] }

unfoldable pub register_subscriber : Subscriber → Registry → Registry
register_subscriber s r = record { subscribers = r.subscribers ++ (s ∷ []) }

-- The loop of Subscribers.
unfoldable pub wanting : EventType → List Subscriber → List Subscriber
unfolding wants
wanting t [] = []
wanting t (s ∷ ss) = let rest = wanting t ss in if wants s t then s ∷ rest else rest

unfoldable pub subscribers_of : EventType → Registry → List Subscriber
unfolding wanting
subscribers_of t r = wanting t r.subscribers

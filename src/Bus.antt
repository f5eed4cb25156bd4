-- ===== src/Bus.antt =====
-- `EventBus` of src/turbohaul/manager.py: the events that subscribers of the state stream see.
pub mod Redaction
pub mod Delivery
mod Examples
use southpaw_turbohaul.Base.{
  ℕ, String, Bool, ◌&&◌, not, List, [], ◌∷◌, ◌++◌, leb, ltb, length, any, keep, map, nat_eq,
  if◌then◌else◌, ◌==◌,
}

-- A dict with text keys. A value is an opaque JSON text.
abbrev pub Event : Type 0
Event = List (String × String)

-- An asyncio.Queue, an object with an identity. A `maxsize` of 0 is no bound.
pub record Subscriber : Type 0 where
  pub queue_id : ℕ
  pub maxsize : ℕ
  pub items : List Event

-- `_subscribers`, a set of queues: its order is of no consequence.
abbrev pub EventBus : Type 0
EventBus = List Subscriber

abbrev pub redacted_keys : List String
redacted_keys = "prompt" ∷ "response" ∷ "context" ∷ "stderr" ∷ "stdout" ∷ "messages" ∷ []

abbrev pub is_redacted : String → Bool
is_redacted k = any (λ r. r == k) redacted_keys

abbrev pub has_queue : ℕ → Subscriber → Bool
has_queue i s = nat_eq s.queue_id i

-- `set.add`: a queue that is in the set stays as it is.
unfoldable pub subscribe : Subscriber → EventBus → EventBus
subscribe s bus = if any (has_queue s.queue_id) bus then bus else bus ++ s ∷ []

-- `set.discard`
unfoldable pub unsubscribe : ℕ → EventBus → EventBus
unsubscribe i bus = keep (λ s. not (has_queue i s)) bus

unfoldable pub subscriber_count : EventBus → ℕ
subscriber_count bus = length bus

-- `{k: v for k, v in event.items() if k not in self.REDACTED_KEYS}`
unfoldable pub redact : Event → Event
redact e = keep (λ kv. not (is_redacted kv.0)) e

-- `Queue.full()`
abbrev pub is_full : Subscriber → Bool
is_full s = ltb 0 s.maxsize && leb s.maxsize (length s.items)

-- `put_nowait`, where QueueFull is logged and the event dropped.
unfoldable pub put_nowait : Event → Subscriber → Subscriber
put_nowait e s = if is_full s then s else record s { items = s.items ++ e ∷ [] }

unfoldable pub publish_nowait : Event → EventBus → EventBus
unfolding redact put_nowait
publish_nowait e bus = map (put_nowait (redact e)) bus

-- What happens to a bus, in order. A subscriber takes the oldest item out of its queue.
pub data Happening : Type 0 where
  subscribes : Subscriber → Happening
  unsubscribes reads : ℕ → Happening
  publishes : Event → Happening

abbrev pub without_first : List Event → List Event
without_first [] = []
without_first (e ∷ es) = es

abbrev pub read : ℕ → Subscriber → Subscriber
read i s = if has_queue i s then record s { items = without_first s.items } else s

abbrev pub happen : Happening → EventBus → EventBus
happen (subscribes s) bus = subscribe s bus
happen (unsubscribes i) bus = unsubscribe i bus
happen (reads i) bus = map (read i) bus
happen (publishes e) bus = publish_nowait e bus

unfoldable pub happen_all : List Happening → EventBus → EventBus
happen_all [] bus = bus
happen_all (h ∷ hs) bus = happen_all hs (happen h bus)

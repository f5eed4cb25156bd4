-- ===== src/Slot.antt =====
-- src/turbohaul/slot.py: the slot record, its states, and the future and events that hang on it.
pub mod ThreadId
pub mod Samples
use southpaw_turbohaul.Base.{ℕ, String, Bool, false, Option, none, some}
use southpaw_turbohaul.Base.Int.{ℤ}

pub data SlotState : Type 0 where
  received accept_buffer staged loading loading_fail active grace grace_busy : SlotState
  active_match popped idle_hot cold : SlotState

pub SlotState-discrete : Discrete SlotState
SlotState-discrete = hlevel

-- The exception classes that end a slot's future. The message of a RuntimeError is kept.
pub data Failure : Type 0 where
  slot_evicted cancelled invalid_transition : Failure
  runtime_error : String → Failure

-- What a done future holds: a completion's reply (an opaque JSON text), the `_streamed` marker, or
-- an exception.
pub data Outcome : Type 0 where
  completed : String → Outcome
  streamed : Outcome
  failed : Failure → Outcome

pub data Future : Type 0 where
  pending : Future
  done : Outcome → Future

-- An asyncio.Event is an identity; whether it is set is the state of the event loop.
abbrev pub Events : Type 0
Events = ℕ → Bool

-- The keys of `client_meta` that the manager reads.
pub record ClientMeta : Type 0 where
  pub keep_alive_s : Option ℤ
  pub stream : Bool

-- Times are readings of the monotonic clock, in ticks.
pub record Slot : Type 0 where
  pub slot_id : String
  pub model_tag : String
  pub state : SlotState
  pub prompt : String
  pub thread_id : String
  pub port : Option ℕ
  pub pid : Option ℕ
  pub extension_count : ℕ
  pub client_meta : ClientMeta
  pub created_at : ℕ
  pub started_active_at : ℕ
  pub grace_started_at : ℕ
  pub completion_future : Option Future
  pub stream_ready_event : Option ℕ
  pub stream_done_event : Option ℕ
  pub stream_handle : Option ℕ
  pub disconnect_event : Option ℕ
  pub is_evicted : Bool

-- `Slot.new`; the id and the clock reading come from the caller.
unfoldable pub new : String → String → String → String → ClientMeta → ℕ → Slot
new slot_id model_tag prompt thread_id client_meta now = record {
  slot_id = slot_id;
  model_tag = model_tag;
  state = received;
  prompt = prompt;
  thread_id = thread_id;
  port = none;
  pid = none;
  extension_count = 0;
  client_meta = client_meta;
  created_at = now;
  started_active_at = 0;
  grace_started_at = 0;
  completion_future = none;
  stream_ready_event = none;
  stream_done_event = none;
  stream_handle = none;
  disconnect_event = none;
  is_evicted = false;
}

-- `slot.disconnect_event is not None and slot.disconnect_event.is_set()`
abbrev pub is_disconnected : Events → Slot → Bool
is_disconnected events s = elim s.disconnect_event [ none ↦ false | some e ↦ events e ]

-- ===== src/Slot/Samples.antt =====
-- Sample slots for the examples of the library: requests for a model in a thread.
use southpaw_turbohaul.Base.{String, false, none, some}
use southpaw_turbohaul.Slot.{Slot, ClientMeta, new, pending}

abbrev pub plain_meta : ClientMeta
plain_meta = record { keep_alive_s = none; stream = false }

-- A request whose caller waits.
unfoldable pub request : String → String → Slot
unfolding new
request slot_id thread_id = record (new slot_id "qwen" "hello" thread_id plain_meta 5) {
  completion_future = some pending;
}

abbrev pub first_slot : Slot
first_slot = request "s1" "t1"

abbrev pub second_slot : Slot
second_slot = request "s2" "t2"

-- The client of this one hangs on the event 7.
abbrev pub watched_slot : Slot
watched_slot = record (request "s3" "t1") { disconnect_event = some 7 }

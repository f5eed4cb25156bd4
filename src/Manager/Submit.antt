-- ===== src/Manager/Submit.antt =====
-- `submit` of src/turbohaul/manager.py, and what submit_and_wait and submit_for_streaming add.
pub mod Followup
use southpaw_turbohaul.Base.{ℕ, String, none, some, List, [], ◌∷◌, ◌==◌, if◌then◌else◌}
use southpaw_turbohaul.Slot.{Slot, new, pending}
use southpaw_turbohaul.Slot.ThreadId.{derive_thread_id}
use southpaw_turbohaul.Queue.{Result, ok, err, queue_closed, enqueue, enqueue_head}
use southpaw_turbohaul.Queue
use southpaw_turbohaul.Timers.{matches, restart_for_followup}
use southpaw_turbohaul.Db.{SlotValues, upsert_slot}
use southpaw_turbohaul.Manager.Records.{Manager, Submission}
use southpaw_turbohaul.Manager.Effects.{audit_event_only}

-- The row that `submit` writes has neither port nor pid.
abbrev submit_values : Slot → SlotValues
submit_values s = record {
  slot_id = s.slot_id;
  model_tag = s.model_tag;
  thread_id = some s.thread_id;
  state = s.state;
  port = none;
  pid = none;
  created_at = none;
  ended_at = none;
  end_reason = none;
  extension_count = 0;
  client_meta = s.client_meta;
}

record_submit : Slot → Manager → Manager
record_submit s m =
    audit_event_only (some s.slot_id) "submit" (record m {
      db = record m.db { slots = upsert_slot (submit_values s) m.wall_now m.db.slots };
    })

abbrev admitted :
    (Manager → Manager) → Manager → Result (Slot × Queue.Queue) → Result Slot × Manager
admitted then_ m (err e) = (err e, m)
admitted then_ m (ok (s, q)) = (ok s, record_submit s (then_ (record m { queue = q })))

-- The grace timer after a head insert: what `restart_for_followup` returns is not looked at.
abbrev restart_grace : ℕ → Manager → Manager
restart_grace now m = record m { grace = (restart_for_followup m.grace now).1 }

module _ (hexdigest : String → String) where
  abbrev pub thread_of : Submission → String
  thread_of c =
      if c.thread_id == "" then derive_thread_id hexdigest c.prompt c.model_tag else c.thread_id

  -- The slot as it stands before it is queued. A streaming submission arms its two events; the
  -- model arms them with the slot, before the worker can see it.
  unfoldable pub fresh_slot : Submission → Slot
  unfolding new
  fresh_slot c = record (new c.slot_id c.model_tag c.prompt (thread_of c) c.client_meta c.now) {
    disconnect_event = c.disconnect_event;
    completion_future = if c.wait_for_completion then some pending else none;
    stream_ready_event = if c.client_meta.stream then some 0 else none;
    stream_done_event = if c.client_meta.stream then some 1 else none;
  }

  unfoldable pub submit : Submission → Manager → Result Slot × Manager
  unfolding fresh_slot record_submit
  submit c m =
      if m.stop_event
      then (err queue_closed, m)
      else if matches m.grace (thread_of c) c.model_tag c.now
      then admitted (restart_grace c.now) m (enqueue_head m.queue (fresh_slot c))
      else admitted (λ m. m) m (enqueue m.queue (fresh_slot c))

  -- The submissions of other tasks, in the order in which they are made.
  abbrev pub submit_all : List Submission → Manager → Manager
  submit_all [] m = m
  submit_all (c ∷ cs) m = submit_all cs (submit c m).1

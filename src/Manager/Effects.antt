-- ===== src/Manager/Effects.antt =====
-- The small steps that the methods of src/turbohaul/manager.py are made of: audit writes, the
-- slot's future, and the transition of the slot at work.
use southpaw_turbohaul.Base.{ℕ, String, Option, none, some, List, [], ◌∷◌, ◌++◌, nat_eq, not, keep}
use southpaw_turbohaul.Slot.{
  Slot, SlotState, Failure, Outcome, failed, pending, done, invalid_transition,
}
use southpaw_turbohaul.Fsm.{Transition, moved, transition}
use southpaw_turbohaul.Fsm
use southpaw_turbohaul.Db.{SlotValues, upsert_slot, record_audit_event, mark_slot_ended}
use southpaw_turbohaul.Exec.{Exec, raise, modify}
use southpaw_turbohaul.Manager.Records.{Manager, Work}

-- `if fut is not None and not fut.done()`: the slot with its future resolved, and the log of it.
unfoldable pub resolve : Slot → Outcome → Manager → Slot × Manager
resolve s o m = elim s.completion_future [
  | none ↦ (s, m)
  | some f ↦ elim f [
    | pending ↦ (
      record s { completion_future = some (done o) },
      record m { resolved = m.resolved ++ (s.slot_id, o) ∷ [] },
    )
    | done _ ↦ (s, m)
  ]
]

-- `_fail_completion_future`
abbrev pub fail_completion_future : Slot → Failure → Manager → Slot × Manager
fail_completion_future s f m = resolve s (failed f) m

-- The dict that `_audit` hands to `upsert_slot`.
abbrev pub row_values : Slot → SlotValues
row_values s = record {
  slot_id = s.slot_id;
  model_tag = s.model_tag;
  thread_id = some s.thread_id;
  state = s.state;
  port = s.port;
  pid = s.pid;
  created_at = none;
  ended_at = none;
  end_reason = none;
  extension_count = s.extension_count;
  client_meta = s.client_meta;
}

-- `_audit_event_only`
abbrev pub audit_event_only : Option String → String → Manager → Manager
audit_event_only slot_id event_type m = record m {
  db = record_audit_event m.db event_type slot_id m.wall_now;
}

-- `_audit`: the slot's row, and the event. The event bus only shows it to subscribers.
abbrev pub audit : Slot → String → Manager → Manager
audit s event_type m =
    audit_event_only (some s.slot_id) event_type
      (record m { db = record m.db { slots = upsert_slot (row_values s) m.wall_now m.db.slots } })

-- `mark_slot_ended` on a connection of its own.
abbrev pub end_row : String → String → Manager → Manager
end_row slot_id reason m = record m {
  db = record m.db { slots = mark_slot_ended reason m.wall_now slot_id m.db.slots };
}

-- The process of a handle is gone from the host.
abbrev pub without_pid : ℕ → List ℕ → List ℕ
without_pid p = keep (λ q. not (nat_eq p q))

-- The same steps on the slot at work.
abbrev pub on_mgr : (Manager → Manager) → Exec Work (Unit {0})
on_mgr f = modify (λ w. record w { mgr = f w.mgr })

abbrev pub moves : Transition → Exec Work (Unit {0})
moves (moved s) w = modify (λ w. record w { slot = s }) w
moves Fsm.Transition.invalid_transition w = raise invalid_transition w

unfoldable pub move : SlotState → Exec Work (Unit {0})
unfolding transition
move to w = moves (transition w.slot to) w

unfoldable pub audit_slot : String → Exec Work (Unit {0})
audit_slot event_type = modify (λ w. record w { mgr = audit w.slot event_type w.mgr })

unfoldable pub audit_only : String → Exec Work (Unit {0})
audit_only event_type =
    modify (λ w. record w { mgr = audit_event_only (some w.slot.slot_id) event_type w.mgr })

unfoldable pub end_slot : String → Exec Work (Unit {0})
end_slot reason = modify (λ w. record w { mgr = end_row w.slot.slot_id reason w.mgr })

unfoldable pub settle_future : Outcome → Exec Work (Unit {0})
unfolding resolve
settle_future o w =
    let (s, m) = resolve w.slot o w.mgr in modify (λ w. record { mgr = m; slot = s }) w

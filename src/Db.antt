-- ===== src/Db.antt =====
-- src/turbohaul/state.py: the `slots` and `audit_events` tables of state.sqlite, and the sweep over
-- them in src/turbohaul/manager.py. A table is the list of its rows in the order of insertion;
-- each statement commits by itself. The clock reading `now` counts seconds, as `utcnow_iso` does:
-- its texts, of one length and in one zone, are ordered as the numbers are.
pub mod Rows
pub mod Reconcile
pub mod Boot
pub mod Sweep
mod Examples
use southpaw_turbohaul.Base.{
  ℕ, zero, suc, ◌+◌, ◌-◌, String, Bool, true, false, ◌&&◌, ◌||◌, not, Option, none, some, List, [],
  ◌∷◌, ◌++◌, map, length, any, keep, ltb, nat_eq, ◌==◌, is_some, if◌then◌else◌,
}
use southpaw_turbohaul.Slot.{SlotState, ClientMeta, staged, popped, cold, idle_hot}
use southpaw_turbohaul.Fsm.{same_state}

pub record Row : Type 0 where
  pub slot_id : String
  pub model_tag : String
  pub thread_id : Option String
  pub state : SlotState
  pub port : Option ℕ
  pub pid : Option ℕ
  pub created_at : ℕ
  pub updated_at : ℕ
  pub ended_at : Option ℕ
  pub end_reason : Option String
  pub extension_count : ℕ
  pub client_meta : ClientMeta

-- The dict that `upsert_slot` takes; a key that is absent reads as None.
pub record SlotValues : Type 0 where
  pub slot_id : String
  pub model_tag : String
  pub thread_id : Option String
  pub state : SlotState
  pub port : Option ℕ
  pub pid : Option ℕ
  pub created_at : Option ℕ
  pub ended_at : Option ℕ
  pub end_reason : Option String
  pub extension_count : ℕ
  pub client_meta : ClientMeta

-- The payload of an audit event is left out: nothing in the program reads it back.
pub record AuditEvent : Type 0 where
  pub slot_id : Option String
  pub event_type : String
  pub occurred_at : ℕ

pub record Db : Type 0 where
  pub slots : List Row
  pub audit_events : List AuditEvent

unfoldable pub record_audit_event : Db → String → Option String → ℕ → Db
record_audit_event d event_type slot_id now = record d {
  audit_events =
      d.audit_events
      ++ record { slot_id = slot_id; event_type = event_type; occurred_at = now } ∷ [];
}

abbrev pub has_id : String → Row → Bool
has_id i r = r.slot_id == i

-- `slot.get("created_at") or now`
abbrev or_now : Option ℕ → ℕ → ℕ
or_now none now = now
or_now (some t) now = if nat_eq t 0 then now else t

unfoldable pub insert_row : SlotValues → ℕ → Row
insert_row v now = record {
  slot_id = v.slot_id;
  model_tag = v.model_tag;
  thread_id = v.thread_id;
  state = v.state;
  port = v.port;
  pid = v.pid;
  created_at = or_now v.created_at now;
  updated_at = now;
  ended_at = v.ended_at;
  end_reason = v.end_reason;
  extension_count = v.extension_count;
  client_meta = v.client_meta;
}

-- ON CONFLICT(slot_id) DO UPDATE: the model tag and the time of creation stay.
unfoldable pub update_row : SlotValues → ℕ → Row → Row
update_row v now r = record r {
  state = v.state;
  thread_id = v.thread_id;
  port = v.port;
  pid = v.pid;
  updated_at = now;
  ended_at = v.ended_at;
  end_reason = v.end_reason;
  extension_count = v.extension_count;
  client_meta = v.client_meta;
}

unfoldable pub upsert_slot : SlotValues → ℕ → List Row → List Row
unfolding insert_row update_row
upsert_slot v now [] = insert_row v now ∷ []
upsert_slot v now (r ∷ rows) =
    if has_id v.slot_id r then update_row v now r ∷ rows else r ∷ upsert_slot v now rows

-- What `mark_slot_ended` writes into a row.
abbrev pub ended : String → ℕ → Row → Row
ended reason now r = record r {
  state = cold;
  ended_at = some now;
  end_reason = some reason;
  updated_at = now;
}

unfoldable pub mark_slot_ended : String → ℕ → String → List Row → List Row
mark_slot_ended reason now slot_id [] = []
mark_slot_ended reason now slot_id (r ∷ rows) =
    (if has_id slot_id r then ended reason now r else r) ∷ mark_slot_ended reason now slot_id rows

-- `for slot_id in ids: mark_slot_ended(conn, slot_id, reason)`
unfoldable pub mark_all : String → ℕ → List String → List Row → List Row
unfolding mark_slot_ended
mark_all reason now [] rows = rows
mark_all reason now (i ∷ is) rows = mark_all reason now is (mark_slot_ended reason now i rows)

-- `state NOT IN ('POPPED', 'COLD') AND ended_at IS NULL`
abbrev pub is_open : Row → Bool
is_open r = not (same_state r.state popped || same_state r.state cold) && not (is_some r.ended_at)

abbrev pub in_pids : List ℕ → ℕ → Bool
in_pids pids p = any (nat_eq p) pids

-- The pids of open rows that have one; a pid 0 is falsy and left out.
abbrev open_pid : Row → List ℕ
open_pid r = elim r.pid [
  | none ↦ []
  | some p ↦ if is_open r && not (nat_eq p 0) then p ∷ [] else []
]

unfoldable pub known_active_pids : List Row → List ℕ
known_active_pids [] = []
known_active_pids (r ∷ rows) = open_pid r ++ known_active_pids rows

-- An open row whose process is gone.
abbrev pub is_orphan : List ℕ → Row → Bool
is_orphan live_pids r = elim r.pid [
  | none ↦ false
  | some p ↦ is_open r && not (in_pids live_pids p)
]

-- An open row that never had a process; IDLE_HOT is excepted.
abbrev pub is_pre_active : Row → Bool
is_pre_active r = not (is_some r.pid) && (is_open r && not (same_state r.state idle_hot))

abbrev pub row_ids : List Row → List String
row_ids = map (λ r. r.slot_id)

unfoldable pub reconcile_orphaned_slots : List ℕ → ℕ → List Row → ℕ × List Row
unfolding mark_all
reconcile_orphaned_slots live_pids now rows =
    let orphans = row_ids (keep (is_orphan live_pids) rows) in
    let rows' = mark_all "boot-reconcile-orphaned-pid" now orphans rows in
    let idle = row_ids (keep is_pre_active rows') in
    (length orphans + length idle, mark_all "boot-reconcile-pre-active-orphan" now idle rows')

-- The database part of `boot_reconcile`: which of the recorded processes live is asked of the host.
unfoldable pub boot_reconcile : (ℕ → Bool) → ℕ → List Row → ℕ × List Row
unfolding known_active_pids reconcile_orphaned_slots
boot_reconcile is_alive now rows =
    reconcile_orphaned_slots (keep is_alive (known_active_pids rows)) now rows

-- The rows that `_run_one_sweep` selects: STAGED, created before the cutoff, no process, not ended.
abbrev pub is_stale : ℕ → Row → Bool
is_stale cutoff r =
    same_state r.state staged
    && (ltb r.created_at cutoff && (not (is_some r.pid) && not (is_some r.ended_at)))

abbrev pub take {ℓ} : {A : Type ℓ} → ℕ → List A → List A
take zero l = []
take (suc n) [] = []
take (suc n) (x ∷ l) = x ∷ take n l

-- `LIMIT 100`
abbrev pub sweep_limit : ℕ
sweep_limit = 100

unfoldable pub run_one_sweep : ℕ → ℕ → List Row → ℕ × List Row
unfolding mark_all
run_one_sweep min_age_s now rows =
    let ids = row_ids (take sweep_limit (keep (is_stale (now - min_age_s)) rows)) in
    (length ids, mark_all "background_sweeper_evicted" now ids rows)

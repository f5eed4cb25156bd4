-- ===== src/Manager/Teardown.antt =====
-- `_teardown`, `_teardown_idle_holder` and `_force_cold` of src/turbohaul/manager.py. The checks
-- of the VRAM and the orphan scans that follow a SIGTERM only log, and are left out.
use southpaw_turbohaul.Base.{
  String, Bool, true, false, ◌&&◌, not, Option, none, some, if◌then◌else◌, nat_eq, ◌==◌,
}
use southpaw_turbohaul.Slot.{Slot, Failure, runtime_error}
use southpaw_turbohaul.Fsm.Cold.{force_cold_walk, end_of}
use southpaw_turbohaul.Exec.{Exec, ok, raised, modify, ◌>>◌}
use southpaw_turbohaul.Manager.Records.{Handle, Manager, Sigterm, ended, survived, broke}
use southpaw_turbohaul.Manager.Effects.{audit_event_only, end_row, without_pid}

-- The effect of `_sigterm` on the host.
abbrev pub kill : Sigterm → Handle → Manager → Manager
kill ended h m = record m { alive = without_pid h.pid m.alive }
kill survived h m = m
kill broke h m = m

abbrev pub sigterm_failure : Failure
sigterm_failure = runtime_error "sigterm helper failed"

-- `await self._sigterm(handle, …)`: the Boolean that it returns, or its exception.
unfoldable pub sigterm : Sigterm → Handle → Exec Manager Bool
sigterm ended h m = (ok true, kill ended h m)
sigterm survived h m = (ok false, m)
sigterm broke h m = (raised sigterm_failure, m)

-- `_teardown`: the returned Boolean is only written to the audit, and the handle is dropped
-- whenever the helper does not raise.
unfoldable pub teardown : Sigterm → String → String → Exec Manager (Unit {0})
unfolding sigterm
teardown answer slot_id reason m = elim m.active_handle [
  | none ↦ (ok tt, m)
  | some h ↦
      (do
        sigterm answer h
        modify (end_row slot_id reason)
        modify (audit_event_only (some slot_id) "teardown")
        modify (λ m. record m { active_handle = none }))
        m
]

-- `_teardown_idle_holder`: the holder is cleared before the SIGTERM, so its fields are gone also
-- when the helper raises.
unfoldable pub teardown_idle_holder : Sigterm → String → Exec Manager (Unit {0})
unfolding sigterm
teardown_idle_holder answer reason m = elim m.idle_handle [
  | none ↦ (ok tt, m)
  | some h ↦
      (do
        modify (λ m. record m { idle_handle = none; idle_model_tag = none; idle_expires_at = none })
        sigterm answer h
        modify (audit_event_only none "teardown_idle_holder"))
        m
]

-- `slot.pid and slot.pid == handle.pid`: a pid 0 is falsy.
abbrev pub owns : Slot → Option Handle → Bool
owns s none = false
owns s (some h) = elim s.pid [ none ↦ false | some p ↦ not (nat_eq p 0) && nat_eq p h.pid ]

abbrev pub is_other_slot : Option String → Slot → Bool
is_other_slot none s = false
is_other_slot (some active) s = not (s.slot_id == active)

-- The defensive SIGTERM of `_force_cold`: an exception of the helper is logged and dropped.
abbrev pub defend : Sigterm → Option Handle → Manager → Manager
defend answer none m = m
defend ended (some h) m = record (kill ended h m) { active_handle = none }
defend survived (some h) m = record m { active_handle = none }
defend broke (some h) m = m

-- A slot that shares the anchor's process leaves it to the anchor.
unfoldable pub force_cold : Sigterm → String → Slot → Manager → Slot × Manager
unfolding force_cold_walk
force_cold answer reason s m =
    let shared = is_other_slot m.active_slot s && owns s m.active_handle in
    let m' =
      if shared then m else if owns s m.active_handle then defend answer m.active_handle m else m in
    (
      record s { state = end_of s.state (force_cold_walk s.state) },
      audit_event_only (some s.slot_id) "force_cold" (end_row s.slot_id reason m'),
    )

-- ===== src/Manager/Process.antt =====
-- `_process_slot` of src/turbohaul/manager.py: one slot from STAGED to POPPED, and the `finally`
-- that reaps a handle which was not handed on.
mod Starting
mod Sidecar
pub mod Reached
pub mod Single
pub mod Over
pub mod Started
mod Leaving
pub mod Served
use southpaw_turbohaul.Base.{
  ℕ, ◌+◌, String, Bool, false, ◌&&◌, not, Option, none, some, ◌∷◌, ltb, nat_eq, is_some, any,
  if◌then◌else◌, ◌==◌,
}
use southpaw_turbohaul.Slot.{
  Slot, Outcome, failed, cancelled, runtime_error, loading, loading_fail, active, grace, popped,
}
use southpaw_turbohaul.Timers.{start, idle_start}
use southpaw_turbohaul.Exec.{Exec, ok, pure, raise, modify, ◌>>=◌, ◌>>◌}
use southpaw_turbohaul.Manager.Records.{
  Handle, Manager, Work, Sigterm, ended, survived, broke, ManifestRead, found, missing, broken,
  Health, healthy, timed_out, schema_mismatch, Completion, returned, crashed, interrupted, Inputs,
}
use southpaw_turbohaul.Manager.Effects.{
  on_mgr, move, audit_slot, audit_only, end_slot, settle_future,
}
use southpaw_turbohaul.Manager.Teardown.{kill, teardown, teardown_idle_holder}
use southpaw_turbohaul.Manager.Grace.{grace_loop, crash, anchor_end, handed, anchor_result}
use southpaw_turbohaul.Manager.KeepAlive.{idle_seconds}
pub use southpaw_turbohaul.Manager.Process.Starting.{
  calls, fails, holds_model, is_warm, Start, ready, unhealthy, refused,
}
unfoldable pub use southpaw_turbohaul.Manager.Process.Starting.{
  adopt, inherit_from, refuse_gates, await_health, spawned_as, spawn, swap_out, cold_start,
  start_process,
}

-- The warm holder is of another model, and the slot has no manifest.
abbrev pub holder_at_risk : ManifestRead → Work → Bool
holder_at_risk missing w = is_some w.mgr.idle_handle && not (holds_model w.mgr w.slot.model_tag)
holder_at_risk found w = false
holder_at_risk broken w = false

unfoldable pub refuse_manifest : Exec Work (Unit {0})
unfolding move audit_slot end_slot settle_future
refuse_manifest = do
  move loading
  audit_slot "stage_to_loading"
  move loading_fail
  audit_slot "manifest_not_found"
  move popped
  end_slot "manifest_not_found"
  settle_future (fails "no manifest, idle holder preserved")

pub fail_health : Sigterm → Exec Work (Unit {0})
unfolding move audit_slot settle_future teardown
fail_health answer = do
  move loading_fail
  audit_slot "loading_fail_health_timeout"
  move popped
  (λ w. calls (teardown answer w.slot.slot_id "loading-fail-health-timeout") w)
  settle_future (fails "loading-fail-health-timeout")

-- The end of the anchor's own request.
pub complete : Slot → Completion → Exec Work (Unit {0})
unfolding settle_future
complete s (returned r) = settle_future (anchor_result s r)
complete s crashed = raise crash
complete s interrupted = raise cancelled

-- A slot that streams is handed its process.
pub hand_over : Exec Work (Unit {0})
hand_over = modify (λ w. record w { slot = handed w.slot })

-- The anchor's own request.
pub answer_anchor : Inputs → Exec Work (Unit {0})
unfolding hand_over complete
answer_anchor i = do hand_over; (λ w. complete w.slot (anchor_end w.slot i.completion) w)

pub enter_active : ℕ → Exec Work (Unit {0})
unfolding move audit_slot
enter_active now = do
  move active
  modify (λ w. record w { slot = record w.slot { started_active_at = now } })
  audit_slot "active"
  (λ w. on_mgr (λ m. record m { latest_keep_alive_s = w.slot.client_meta.keep_alive_s }) w)

pub enter_grace : ℕ → Exec Work (Unit {0})
unfolding move audit_slot start
enter_grace now = do
  move grace
  modify (λ w. record w { slot = record w.slot { grace_started_at = now } })
  (λ w. on_mgr (λ m. record m { grace = start m.grace w.slot.thread_id w.slot.model_tag now }) w)
  audit_slot "grace_enter"

-- The hand-over of the process to the idle holder, or its end.
hold_idle : ℕ → ℕ → Exec Work (Unit {0})
unfolding audit_only end_slot
hold_idle seconds now = do
  modify λ w. record w {
    mgr = record w.mgr {
      idle_handle = w.mgr.active_handle;
      idle_model_tag = some w.slot.model_tag;
      idle_expires_at = some (now + seconds);
    };
  }
  audit_only "idle_hot_enter"
  end_slot "grace-expired-held-idle"

let_go : Sigterm → ℕ → Exec Work (Unit {0})
unfolding audit_only teardown idle_start
let_go answer now = do
  (λ w. calls (teardown answer w.slot.slot_id "grace-expired") w)
  (λ w. on_mgr (λ m. record m { idle = idle_start m.idle w.slot.model_tag now }) w)
  audit_only "idle_hot_enter"

pub leave_grace : Sigterm → ℕ → Exec Work (Unit {0})
unfolding move hold_idle let_go idle_seconds
leave_grace answer now = do
  move popped
  w ← (λ w. (ok w, w))
  let seconds = idle_seconds w.mgr.latest_keep_alive_s w.mgr.config.idle_hot_load_seconds
  on_mgr (λ m. record m { latest_keep_alive_s = none })
  if ltb 0 seconds && is_some w.mgr.active_handle then hold_idle seconds now else let_go answer now

-- `handle_to_reap is not self._idle_handle and handle_to_reap.is_alive()`: handles are told apart
-- by their pid.
is_held : Manager → Handle → Bool
is_held m h = elim m.idle_handle [ none ↦ false | some held ↦ nat_eq held.pid h.pid ]

-- The `finally`: a live handle that is not the holder's gets a SIGTERM; only an exception of the
-- helper keeps it.
reap : Sigterm → Option Handle → Manager → Manager
unfolding is_held
reap answer none m = m
reap answer (some h) m =
    if not (is_held m h) && any (nat_eq h.pid) m.alive
    then elim answer [
      | ended ↦ record (kill ended h m) { active_handle = none }
      | survived ↦ record m { active_handle = none }
      | broke ↦ m
    ]
    else record m { active_handle = none }

module _ (hexdigest : String → String) where
  serve_request : Inputs → Handle → Exec Work (Unit {0})
  unfolding enter_active answer_anchor enter_grace grace_loop leave_grace
  serve_request i h = do
    enter_active i.active_now
    answer_anchor i
    enter_grace i.grace_now
    (λ w.
        grace_loop hexdigest i.teardown_sigterm h i.polls (i.grace_now + w.mgr.config.grace_seconds)
          w)
    leave_grace i.teardown_sigterm i.idle_now

  pub with_process : Inputs → Start → Exec Work (Unit {0})
  unfolding serve_request fail_health
  with_process i (ready h) = serve_request i h
  with_process i (unhealthy h) = fail_health i.teardown_sigterm
  with_process i refused = pure tt

  -- The body of the `try`.
  process_body : Inputs → Exec Work (Unit {0})
  unfolding refuse_manifest move audit_slot start_process with_process
  process_body i w =
      if holder_at_risk i.manifest w
      then refuse_manifest w
      else (do
        move loading
        audit_slot "stage_to_loading"
        started ← start_process i
        with_process i started)
          w

  -- A manifest that cannot be read for another reason raises before anything is done.
  guarded_body : Inputs → ManifestRead → Exec Work (Unit {0})
  unfolding process_body
  guarded_body i broken = raise (runtime_error "manifest not readable")
  guarded_body i found = process_body i
  guarded_body i missing = process_body i

  unfoldable pub process_slot : Inputs → Exec Work (Unit {0})
  unfolding guarded_body reap
  process_slot i w =
      let w0 = record w {
        mgr = record w.mgr { active_slot = some w.slot.slot_id; latest_keep_alive_s = none };
      } in
      let (r, w') = guarded_body i i.manifest w0 in
      (
        r,
        record w' {
          mgr = record (reap i.final_sigterm w'.mgr.active_handle w'.mgr) { active_slot = none };
        },
      )

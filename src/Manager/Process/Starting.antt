-- ===== src/Manager/Process/Starting.antt =====
-- How `_process_slot` of src/turbohaul/manager.py gets a process: the idle holder's, or a new one.
use southpaw_turbohaul.Base.{
  ℕ, String, Bool, false, ◌&&◌, not, Option, none, some, ◌∷◌, ltb, is_some, any, if◌then◌else◌,
  ◌==◌,
}
use southpaw_turbohaul.Slot.{Outcome, failed, runtime_error, loading_fail, popped}
use southpaw_turbohaul.Exec.{Exec, ok, pure, raise, modify, ◌>>=◌, ◌>>◌}
use southpaw_turbohaul.Manager.Records.{
  Handle, Manager, Work, Sigterm, Health, healthy, timed_out, schema_mismatch, Inputs,
}
use southpaw_turbohaul.Manager.Effects.{
  on_mgr, move, audit_slot, audit_only, end_slot, settle_future,
}
use southpaw_turbohaul.Manager.Teardown.{teardown_idle_holder}

-- A method of the manager, called on behalf of the slot at work.
abbrev pub calls : {A : Type 0} → Exec Manager A → Exec Work A
calls f w = let (r, m) = f w.mgr in (r, record w { mgr = m })

abbrev pub fails : String → Outcome
fails message = failed (runtime_error message)

-- `self._idle_model_tag == slot.model_tag`, where the field may be None.
abbrev pub holds_model : Manager → String → Bool
holds_model m tag = elim m.idle_model_tag [ none ↦ false | some t ↦ t == tag ]

-- The idle window is open for the slot's model.
abbrev pub is_warm : ℕ → Work → Bool
is_warm now w =
    is_some w.mgr.idle_handle
    && (holds_model w.mgr w.slot.model_tag
        && elim w.mgr.idle_expires_at [ none ↦ false | some t ↦ ltb now t ])

-- What the attempt to get a process comes to: a healthy one, one that did not get healthy, or a
-- refusal that has ended the slot.
pub data Start : Type 0 where
  ready : Handle → Start
  unhealthy : Handle → Start
  refused : Start

unfoldable pub adopt : Handle → Exec Work (Unit {0})
adopt h = modify λ w. record {
  mgr = record w.mgr { active_handle = some h };
  slot = record w.slot { port = some h.port; pid = some h.pid };
}

unfoldable pub inherit_from : Option Handle → Exec Work Start
unfolding adopt audit_slot
inherit_from none = pure refused
inherit_from (some h) = do
  on_mgr (λ m. record m { idle_handle = none; idle_model_tag = none; idle_expires_at = none })
  adopt h
  audit_slot "idle_hot_inherit"
  pure (ready h)

unfoldable pub refuse_gates : Exec Work Start
unfolding move audit_slot audit_only end_slot settle_future
refuse_gates = do
  move loading_fail
  audit_slot "safety_gate_refused"
  audit_only "safety_gate_detail"
  move popped
  end_slot "safety_gate_refused"
  settle_future (fails "safety gates refused spawn")
  pure refused

unfoldable pub await_health : Health → Handle → Exec Work Start
await_health healthy h = pure (ready h)
await_health timed_out h = pure (unhealthy h)
await_health schema_mismatch h = raise (runtime_error "health schema mismatch")

-- The new process runs from here on.
unfoldable pub spawned_as : ℕ → Exec Work Handle
spawned_as pid w =
    let h : Handle = record {
      pid = pid;
      port = w.mgr.config.default_port_base;
      model_tag = w.slot.model_tag;
    } in
    (ok h, record w { mgr = record w.mgr { alive = pid ∷ w.mgr.alive } })

unfoldable pub spawn : Option ℕ → Health → Exec Work Start
unfolding spawned_as adopt await_health
spawn none outcome = raise (runtime_error "spawn failed")
spawn (some pid) outcome = do h ← spawned_as pid; adopt h; await_health outcome h

-- A holder of another model, or one whose window has closed, makes way.
unfoldable pub swap_out : Sigterm → Exec Work (Unit {0})
unfolding teardown_idle_holder
swap_out answer w = calls (teardown_idle_holder answer "model_swap") w

unfoldable pub cold_start : Inputs → Exec Work Start
unfolding swap_out refuse_gates spawn
cold_start i = do
  swap_out i.swap_sigterm
  w ← (λ w. (ok w, w))
  if w.mgr.config.safety_enabled && any not i.gates then refuse_gates else spawn i.spawned i.health

unfoldable pub start_process : Inputs → Exec Work Start
unfolding inherit_from cold_start
start_process i w =
    if is_warm i.inherit_now w then inherit_from w.mgr.idle_handle w else cold_start i w

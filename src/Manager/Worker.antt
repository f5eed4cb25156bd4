-- ===== src/Manager/Worker.antt =====
-- `worker_loop` and `shutdown` of src/turbohaul/manager.py.
pub mod Single
pub mod Settled
use southpaw_turbohaul.Base.{
  ℕ, suc, String, Bool, true, false, ◌&&◌, Option, none, some, List, [], ◌∷◌, leb, is_some,
  if◌then◌else◌,
}
use southpaw_turbohaul.Slot.{
  Slot, Events, Failure, slot_evicted, cancelled, runtime_error, invalid_transition,
}
use southpaw_turbohaul.Queue.{pop_next, close}
use southpaw_turbohaul.Exec.{Result, ok, raised, modify, ◌>>◌}
use southpaw_turbohaul.Manager.Records.{Handle, Manager, Work, Sigterm, Inputs}
use southpaw_turbohaul.Manager.Effects.{fail_completion_future, resolve, audit_event_only}
use southpaw_turbohaul.Manager.Teardown.{teardown, teardown_idle_holder, force_cold, sigterm}
use southpaw_turbohaul.Manager.Process.{process_slot}

-- How far the task of an idle teardown gets in the round that starts it: it is only created; or it
-- has dropped the holder and sent the SIGTERM, and the process still lives; or it has ended.
pub data IdleTask : Type 0 where
  created waits : IdleTask
  finished : Sigterm → IdleTask

-- What the host answers in one round of the loop.
pub record RoundInputs : Type 0 where
  pub events : Events
  pub now : ℕ
  pub idle_task : IdleTask
  pub process : Inputs
  pub rescue_sigterm : Sigterm
  pub cold_sigterm : Sigterm

-- How a round ends: the slot that it took, in its last state, and the exception that leaves the
-- loop, if one does.
pub record Round : Type 0 where
  pub mgr : Manager
  pub slot : Option Slot
  pub exit : Result (Unit {0})

is_idle_over : ℕ → Manager → Bool
is_idle_over now m =
    is_some m.idle_handle && elim m.idle_expires_at [ none ↦ false | some t ↦ leb t now ]

-- The first steps of `_teardown_idle_holder`, up to the wait for the process.
abbrev pub drop_holder : Manager → Manager
drop_holder m = record m { idle_handle = none; idle_model_tag = none; idle_expires_at = none }

-- The part of the task that runs in the round.
abbrev pub idle_task : IdleTask → Manager → Manager
idle_task created m = m
idle_task waits m = drop_holder m
idle_task (finished answer) m = (teardown_idle_holder answer "idle_expired" m).1

-- What is left of a task that waits for the process `h`: an exception of the helper leaves before the
-- audit.
unfoldable pub idle_task_ends : Sigterm → Handle → Manager → Manager
unfolding sigterm
idle_task_ends answer h m =
    ((do sigterm answer h; modify (audit_event_only none "teardown_idle_holder")) m).1

-- The idle window is over. The teardown runs as a task of its own, whose exception nobody awaits.
unfoldable pub idle_tick : IdleTask → ℕ → Manager → Manager
unfolding is_idle_over teardown_idle_holder
idle_tick task now m =
    if is_idle_over now m then idle_task task (record m { idle_expires_at = none }) else m

evict : RoundInputs → Slot → Manager → Round
unfolding resolve idle_tick
evict i s m =
    let (s', m1) = fail_completion_future s slot_evicted m in
    let m2 = audit_event_only (some s.slot_id) "slot_evicted" m1 in
    let m3 = record m2 {
      eviction_count = suc m2.eviction_count;
      last_evicted_at = some m2.wall_now;
    } in
    record { mgr = idle_tick i.idle_task i.now m3; slot = some s'; exit = ok tt }

-- `except Exception`: the future fails, a handle that is left is torn down, whatever comes of it,
-- and the slot is forced to COLD.
rescue : RoundInputs → Failure → Slot → Manager → Round
unfolding resolve teardown force_cold
rescue i e s m =
    let (s1, m1) = fail_completion_future s e m in
    let m2 = (teardown i.rescue_sigterm s.slot_id "worker-uncaught-exception" m1).1 in
    let (s3, m3) = force_cold i.cold_sigterm "worker-uncaught-exception" s1 m2 in
    record { mgr = m3; slot = some s3; exit = ok tt }

-- A cancellation is no Exception: it leaves the loop.
after_process : RoundInputs → Result (Unit {0}) × Work → Round
unfolding rescue
after_process i (ok _, w) = record { mgr = w.mgr; slot = some w.slot; exit = ok tt }
after_process i (raised cancelled, w) = record {
  mgr = w.mgr;
  slot = some w.slot;
  exit = raised cancelled;
}
after_process i (raised slot_evicted, w) = rescue i slot_evicted w.slot w.mgr
after_process i (raised invalid_transition, w) = rescue i invalid_transition w.slot w.mgr
after_process i (raised (runtime_error t), w) = rescue i (runtime_error t) w.slot w.mgr

module _ (hexdigest : String → String) where
  take_slot : RoundInputs → Option Slot → Manager → Round
  unfolding idle_tick evict after_process process_slot
  take_slot i none m = record { mgr = idle_tick i.idle_task i.now m; slot = none; exit = ok tt }
  take_slot i (some s) m =
      let busy =
        after_process i (process_slot hexdigest i.process (record { mgr = m; slot = s })) in
      if s.is_evicted then evict i s m else busy

  -- One round of `while not self._stop_event.is_set()`.
  unfoldable pub worker_round : RoundInputs → Manager → Round
  unfolding pop_next take_slot
  worker_round i m =
      let (next, q) = pop_next m.queue i.events in take_slot i next (record m { queue = q })

-- The futures of the slots that the queue gave back.
abbrev pub fail_all : List Slot → Manager → Manager
fail_all [] m = m
fail_all (s ∷ ss) m = fail_all ss (fail_completion_future s cancelled m).1

-- `shutdown`, after the worker and the sweeper have ended; an exception of the idle teardown is
-- logged and dropped.
unfoldable pub shutdown : Sigterm → Manager → Manager
unfolding close teardown_idle_holder
shutdown answer m =
    let (cleared, q) = close m.queue in
    let m' = fail_all cleared (record m { stop_event = true; queue = q }) in
    (teardown_idle_holder answer "shutdown" m').1

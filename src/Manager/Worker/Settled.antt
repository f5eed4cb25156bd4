-- ===== src/Manager/Worker/Settled.antt =====
-- What becomes of the slots that `worker_loop` of src/turbohaul/manager.py takes.
use southpaw_turbohaul.Base.{
  ◌≡◌, ◌⊎◌, inl, inr, refl, ◌∙◌, Bool, true, false, Option, none, some, String, arith,
  if◌then◌else◌,
}
use southpaw_turbohaul.Slot.{
  Slot, Failure, failed, cancelled, slot_evicted, invalid_transition, runtime_error, popped, cold,
}
use southpaw_turbohaul.Fsm.Cold.{force_cold_walk-cold}
use southpaw_turbohaul.Queue.{pop_next}
use southpaw_turbohaul.Exec.{Result, ok, raised}
use southpaw_turbohaul.Manager.Records.{Manager, Work, Sigterm}
use southpaw_turbohaul.Manager.Effects.{resolve}
use southpaw_turbohaul.Manager.Teardown.{teardown, force_cold}
use southpaw_turbohaul.Manager.Settled.{IsSettled, OnReturn}
use southpaw_turbohaul.Manager.Process.{process_slot}
use southpaw_turbohaul.Manager.Process.Reached.{IsOver}
use southpaw_turbohaul.Manager.Process.Over.{process_slot-IsOver}
use southpaw_turbohaul.Manager.Worker.{
  RoundInputs, Round, evict, rescue, after_process, take_slot, worker_round,
}

-- The slot that a round took: its caller does not wait any more, and it was evicted, or it came
-- to one of the two ends.
abbrev pub IsAnswered : Option Slot → Type 0
IsAnswered none = Unit {0}
IsAnswered (some s) =
    IsSettled s × ((s.is_evicted ≡ true) ⊎ ((s.state ≡ popped) ⊎ (s.state ≡ cold)))

abbrev pub EndsWell : Round → Type 0
EndsWell r = ((r.exit ≡ ok tt) × IsAnswered r.slot) ⊎ (r.exit ≡ raised cancelled)

resolve-IsSettled :
    (s : Slot) (f : Failure) (m : Manager)
    → IsSettled (resolve s (failed f) m).0 × ((resolve s (failed f) m).0.is_evicted ≡ s.is_evicted)
unfolding resolve
resolve-IsSettled s f m = ground arith

force_cold-slot :
    (answer : Sigterm) (reason : String) (s : Slot) (m : Manager)
    → (IsSettled s → IsSettled (force_cold answer reason s m).0)
      × ((force_cold answer reason s m).0.state ≡ cold)
unfolding force_cold
force_cold-slot answer reason s m = (λ h. h, (force_cold_walk-cold s.state).0)

evict-EndsWell :
    (i : RoundInputs) (s : Slot) (m : Manager) → s.is_evicted ≡ true → EndsWell (evict i s m)
unfolding evict
evict-EndsWell i s m e =
    let told = resolve-IsSettled s slot_evicted m in inl (refl, (told.0, inl (told.1 ∙ e)))

rescue-EndsWell :
    (i : RoundInputs) (e : Failure) (s : Slot) (m : Manager) → EndsWell (rescue i e s m)
unfolding rescue
rescue-EndsWell i e s m =
    let (s1, m1) = resolve s (failed e) m in
    let m2 = (teardown i.rescue_sigterm s.slot_id "worker-uncaught-exception" m1).1 in
    let parked = force_cold-slot i.cold_sigterm "worker-uncaught-exception" s1 m2 in
    inl (refl, (parked.0 (resolve-IsSettled s e m).0, inr (inr parked.1)))

after_process-EndsWell :
    (i : RoundInputs) (out : Result (Unit {0}) × Work)
    → OnReturn IsOver out
    → EndsWell (after_process i out)
unfolding after_process
after_process-EndsWell i (ok _, w) (is_popped, told) = inl (refl, (told, inr (inl is_popped)))
after_process-EndsWell i (raised cancelled, w) k = inr refl
after_process-EndsWell i (raised slot_evicted, w) k = rescue-EndsWell i slot_evicted w.slot w.mgr
after_process-EndsWell i (raised invalid_transition, w) k =
    rescue-EndsWell i invalid_transition w.slot w.mgr
after_process-EndsWell i (raised (runtime_error t), w) k =
    rescue-EndsWell i (runtime_error t) w.slot w.mgr

module _ (hexdigest : String → String) where
  take_slot-EndsWell :
      (i : RoundInputs) (next : Option Slot) (m : Manager) → EndsWell (take_slot hexdigest i next m)
  unfolding take_slot
  take_slot-EndsWell i none m = inl (refl, tt)
  take_slot-EndsWell i (some s) m = taken s.is_evicted refl
    where
      taken :
          (b : Bool)
          → s.is_evicted ≡ b
          → EndsWell (
              if b
              then evict i s m
              else after_process i
                  (process_slot hexdigest i.process (record { mgr = m; slot = s })))
      taken true e = evict-EndsWell i s m e
      taken false e =
          after_process-EndsWell i (process_slot hexdigest i.process (record { mgr = m; slot = s }))
            ((process_slot-IsOver hexdigest i.process).reached (record { mgr = m; slot = s }))

  -- A round of the worker loop, whatever the queue holds and the host answers, ends in one of two
  -- ways. It goes on to the next round, and the slot that it took, if it took one, has no caller
  -- that still waits, and was evicted or is POPPED or COLD. Or the worker was cancelled: no other
  -- exception leaves the loop.
  pub worker_round-EndsWell :
      (i : RoundInputs) (m : Manager) → EndsWell (worker_round hexdigest i m)
  unfolding worker_round
  worker_round-EndsWell i m =
      let (next, q) = pop_next m.queue i.events in
      take_slot-EndsWell i next (record m { queue = q })

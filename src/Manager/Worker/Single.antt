-- ===== src/Manager/Worker/Single.antt =====
-- Which llama-server process the rounds of `worker_loop` and `shutdown` of
-- src/turbohaul/manager.py leave.
use southpaw_turbohaul.Base.{
  ◌≡◌, refl, sym, ap, subst, true, Option, none, some, List, [], ◌∷◌, ◌++◌, String, arith, ◌∙◌,
  append_assoc, append-nil,
}
use southpaw_turbohaul.Slot.{Slot, Outcome, failed, cancelled, pending, done}
use southpaw_turbohaul.Queue.{close}
use southpaw_turbohaul.Manager.Records.{Handle, Manager, ended}
use southpaw_turbohaul.Manager.Effects.{resolve}
use southpaw_turbohaul.Manager.Teardown.{teardown_idle_holder, sigterm}
use southpaw_turbohaul.Manager.Sidecar.{Sides, sides, pids, IsParked, resolve_still}
use southpaw_turbohaul.Manager.Worker.{
  RoundInputs, IdleTask, created, waits, finished, idle_task_ends, fail_all, shutdown,
}

-- The teardown of the holder `i` is under way: it is no holder any more, nothing is active, and its
-- process is the one that may live.
abbrev pub IsClosing : Option Handle → Sides → Type 0
IsClosing held (a, (i, alive)) = (a ≡ none) × (i ≡ none) × (alive ≡ pids held)

-- The task of an idle teardown ends with the process ended, or has not ended in the round.
abbrev pub EndsIdle : IdleTask → Type 0
EndsIdle created = Unit
EndsIdle waits = Unit
EndsIdle (finished answer) = answer ≡ ended

-- Every SIGTERM that the round waits for ends its process.
abbrev pub EachEnds : RoundInputs → Type 0
EachEnds i =
    EndsIdle i.idle_task
    × ((i.process.swap_sigterm ≡ ended)
        × ((i.process.teardown_sigterm ≡ ended) × (i.process.final_sigterm ≡ ended)))

-- When the task of such a teardown ends, before anything else is started, no llama-server is left.
idle_task_ends-IsParked :
    (h : Handle) (m : Manager)
    → IsClosing (some h) (sides m)
    → IsParked (sides (idle_task_ends ended h m))
unfolding idle_task_ends sigterm
idle_task_ends-IsParked h m k = ground arith

-- What the callers of waiting slots are told.
abbrev pub cancellation : Slot → List (String × Outcome)
cancellation s = elim s.completion_future [
  | none ↦ []
  | some f ↦ elim f [ pending ↦ (s.slot_id, failed cancelled) ∷ [] | done _ ↦ [] ]
]

abbrev pub cancellations : List Slot → List (String × Outcome)
cancellations [] = []
cancellations (s ∷ ss) = cancellation s ++ cancellations ss

resolve-cancelled :
    (s : Slot) (m : Manager)
    → (resolve s (failed cancelled) m).1.resolved ≡ m.resolved ++ cancellation s
unfolding resolve
resolve-cancelled s m = ground (arith, append-nil m.resolved)

fail_all-resolved :
    (ss : List Slot) (m : Manager)
    → ((fail_all ss m).resolved ≡ m.resolved ++ cancellations ss)
      × (sides (fail_all ss m) ≡ sides m)
fail_all-resolved [] m = (sym (append-nil m.resolved), refl)
fail_all-resolved (s ∷ ss) m =
    let m' : Manager = (resolve s (failed cancelled) m).1 in
    (
      (fail_all-resolved ss m').0
          ∙ (ap (λ l. l ++ cancellations ss) (resolve-cancelled s m)
              ∙ append_assoc m.resolved (cancellation s) (cancellations ss)),
      (fail_all-resolved ss m').1 ∙ resolve_still s (failed cancelled) m,
    )

fail_all-queue :
    (ss : List Slot) (m : Manager)
    → ((fail_all ss m).queue ≡ m.queue) × ((fail_all ss m).stop_event ≡ m.stop_event)
unfolding resolve
fail_all-queue [] m = (refl, refl)
fail_all-queue (s ∷ ss) m = ground (arith, fail_all-queue ss (resolve s (failed cancelled) m).1)

teardown_idle-leaves :
    (m : Manager)
    → IsParked (sides m)
    → ((teardown_idle_holder ended "shutdown" m).1.alive ≡ [])
      × (((teardown_idle_holder ended "shutdown" m).1.resolved ≡ m.resolved)
          × (((teardown_idle_holder ended "shutdown" m).1.queue ≡ m.queue)
              × ((teardown_idle_holder ended "shutdown" m).1.stop_event ≡ m.stop_event)))
unfolding teardown_idle_holder sigterm
teardown_idle-leaves m k = ground arith

-- A shutdown, with at most the idle holder's llama-server alive and a SIGTERM that ends it, leaves
-- no llama-server and an empty closed queue, has set the stop event, and has told every queued slot
-- whose future was pending, and no other, that it is cancelled: staging first, then the buffer.
pub shutdown-leaves_nothing :
    (m : Manager)
    → IsParked (sides m)
    → ((shutdown ended m).alive ≡ [])
      × (((shutdown ended m).queue
            ≡ record m.queue { staging = []; accept_buf = []; closed = true })
          × (((shutdown ended m).stop_event ≡ true)
              × ((shutdown ended m).resolved
                  ≡ m.resolved ++ cancellations (m.queue.staging ++ m.queue.accept_buf))))
unfolding shutdown close
shutdown-leaves_nothing m k =
    let waiting : List Slot = m.queue.staging ++ m.queue.accept_buf in
    let m0 : Manager = record m { stop_event = true; queue = (close m.queue).1 } in
    let left =
      teardown_idle-leaves (fail_all waiting m0)
        (subst IsParked (sym (fail_all-resolved waiting m0).1) k) in
    (
      left.0,
      (
        left.1.1.0 ∙ (fail_all-queue waiting m0).0,
        (left.1.1.1 ∙ (fail_all-queue waiting m0).1, left.1.0 ∙ (fail_all-resolved waiting m0).0),
      ),
    )

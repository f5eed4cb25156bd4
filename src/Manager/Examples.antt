-- ===== src/Manager/Examples.antt =====
-- Runs of the manager: a warm holder, a queued slot, and a host that answers well.
use southpaw_turbohaul.Base.{◌≡◌, refl, String, true, false, none, some, [], ◌∷◌, ◌++◌}
use southpaw_turbohaul.Slot.{Events}
use southpaw_turbohaul.Slot.Samples.{request, plain_meta, first_slot}
use southpaw_turbohaul.Queue.{to_staged, flag_evicted, pop_matched_thread}
use southpaw_turbohaul.Timers
use southpaw_turbohaul.Exec.{ok}
use southpaw_turbohaul.Manager.{
  Handle, Manager, Work, Submission, ended, found, missing, healthy, returned, Inputs,
}
use southpaw_turbohaul.Manager.Sidecar.{sides, IsParked}
use southpaw_turbohaul.Manager.Settled.{Reaches}
use southpaw_turbohaul.Manager.Submit.{submit, fresh_slot}
use southpaw_turbohaul.Manager.Submit.Followup.{IsRecorded, submit-served_next, submit-IsRecorded}
use southpaw_turbohaul.Manager.Process.{process_slot}
use southpaw_turbohaul.Manager.Process.Single.{process_slot-IsParked}
use southpaw_turbohaul.Manager.Process.Reached.{IsOver}
use southpaw_turbohaul.Manager.Process.Over.{process_slot-IsOver}
use southpaw_turbohaul.Manager.Process.Started.{ServesWell, streams}
use southpaw_turbohaul.Manager.Process.Served.{IsServed, process_slot-serves}
use southpaw_turbohaul.Manager.Worker.{RoundInputs, waits, idle_tick, worker_round, shutdown}
use southpaw_turbohaul.Manager.Worker.Single.{cancellations, shutdown-leaves_nothing}
use southpaw_turbohaul.Manager.Worker.Settled.{EndsWell, worker_round-EndsWell}

-- A digest for the examples.
abbrev digest : String → String
digest s = s

abbrev quiet_events : Events
quiet_events e = false

abbrev holder : Handle
holder = record { pid = 42; port = 11500; model_tag = "qwen" }

-- The holder of a model is warm until 100; a window for the thread t1 is open since 5.
abbrev warm_manager : Manager
warm_manager = record {
  config = record {
    grace_seconds = 10;
    idle_hot_load_seconds = 60;
    safety_enabled = true;
    default_port_base = 11500;
  };
  queue = record {
    staging_max = 4;
    acceptance_max = 8;
    accept_buf = [];
    staging = to_staged first_slot ∷ [];
    closed = false;
  };
  grace = record {
    grace_seconds = 10;
    max_extensions = 2;
    started_at = some 5;
    thread_id = some "t1";
    model_tag = some "qwen";
    extension_count = 0;
  };
  idle = record { idle_seconds = 60; started_at = none; model_tag = none };
  active_handle = none;
  active_slot = none;
  idle_handle = some holder;
  idle_model_tag = some "qwen";
  idle_expires_at = some 100;
  latest_keep_alive_s = none;
  eviction_count = 0;
  last_evicted_at = none;
  stop_event = false;
  db = record { slots = []; audit_events = [] };
  alive = 42 ∷ [];
  resolved = [];
  wall_now = 1000;
}

abbrev good_host : Inputs
good_host = record {
  manifest = found;
  inherit_now = 20;
  gates = true ∷ true ∷ [];
  spawned = some 43;
  health = healthy;
  active_now = 21;
  completion = returned "hi";
  grace_now = 30;
  polls =
      record {
        submits = [];
        now = 31;
        events = quiet_events;
        completion = returned "again";
        restart_now = 32;
        cancelled = false;
      }
      ∷ [];
  idle_now = 40;
  swap_sigterm = ended;
  teardown_sigterm = ended;
  final_sigterm = ended;
}

abbrev good_round : RoundInputs
good_round = record {
  events = quiet_events;
  now = 20;
  idle_task = waits;
  process = good_host;
  rescue_sigterm = ended;
  cold_sigterm = ended;
}

-- Nothing waits, and the holder's window is over.
abbrev quiet_manager : Manager
quiet_manager = record warm_manager {
  queue = record warm_manager.queue { staging = [] };
  idle_expires_at = some 15;
}

worker_round-EndsWell_example : EndsWell (worker_round digest good_round warm_manager)
worker_round-EndsWell_example = worker_round-EndsWell digest good_round warm_manager

abbrev first_work : Work
first_work = record { mgr = warm_manager; slot = to_staged first_slot }

process_slot-IsParked_example : IsParked (sides (process_slot digest good_host first_work).1.mgr)
process_slot-IsParked_example =
    process_slot-IsParked digest good_host first_work refl refl refl (refl, refl)

process_slot-IsOver_example : Reaches (process_slot digest good_host) IsOver
process_slot-IsOver_example = process_slot-IsOver digest good_host

good_host-ServesWell : ServesWell good_host
good_host-ServesWell = record {
  has_manifest = refl;
  lets_pass = refl;
  swaps = λ e. cc;
  spawns = refl;
  gets_healthy = refl;
  stays_calm = ((refl, λ e. cc), tt);
  stops = λ e. cc;
}

process_slot-serves_example :
    ((process_slot digest good_host first_work).0 ≡ ok tt)
    × IsServed "hi" (streams first_work.slot) (process_slot digest good_host first_work).1.slot
unfolding request
process_slot-serves_example =
    process_slot-serves digest good_host first_work "hi" good_host-ServesWell refl refl refl

shutdown-leaves_nothing_example :
    ((shutdown ended warm_manager).alive ≡ [])
    × (((shutdown ended warm_manager).queue
          ≡ record warm_manager.queue { staging = []; accept_buf = []; closed = true })
        × (((shutdown ended warm_manager).stop_event ≡ true)
            × ((shutdown ended warm_manager).resolved
                ≡ warm_manager.resolved
                  ++ cancellations (warm_manager.queue.staging ++ warm_manager.queue.accept_buf))))
shutdown-leaves_nothing_example = shutdown-leaves_nothing warm_manager (refl, refl)

-- A follow-up of the thread t1, within its window.
abbrev followup : Submission
followup = record {
  slot_id = "s9";
  model_tag = "qwen";
  prompt = "more";
  thread_id = "t1";
  client_meta = plain_meta;
  wait_for_completion = true;
  disconnect_event = none;
  now = 12;
}

submit-served_next_example :
    pop_matched_thread (submit digest followup warm_manager).1.queue quiet_events "t1" "qwen" ≡ (
      some (flag_evicted quiet_events (to_staged (fresh_slot digest followup))),
      warm_manager.queue,
    )
unfolding Timers.matches
submit-served_next_example =
    submit-served_next digest followup warm_manager quiet_events refl refl refl

submit-IsRecorded_example : IsRecorded warm_manager (submit digest followup warm_manager)
submit-IsRecorded_example = submit-IsRecorded digest followup warm_manager

-- A slot of a model without a manifest, while the holder is of another.
abbrev stray_work : Work
stray_work = record first_work { slot = record (to_staged first_slot) { model_tag = "nobody" } }

abbrev bare_host : Inputs
bare_host = record good_host { manifest = missing }

-- The teardown of the old holder still waits when the round ends, and the next round spawns another
-- llama-server beside the old one.
busy_again : Manager
unfolding worker_round
busy_again = record (worker_round digest good_round quiet_manager).mgr {
  queue = warm_manager.queue;
}

two_servers : (worker_round digest good_round busy_again).mgr.alive ≡ 43 ∷ 42 ∷ []
unfolding busy_again worker_round idle_tick process_slot request
two_servers = refl

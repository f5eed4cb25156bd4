-- ===== src/Manager/Records.antt =====
-- The records of the manager, the host's answers, and the state that a slot is processed in.
use southpaw_turbohaul.Base.{ℕ, String, Bool, Option, List}
use southpaw_turbohaul.Base.Int.{ℤ}
use southpaw_turbohaul.Slot.{Slot, Events, Outcome, ClientMeta}
use southpaw_turbohaul.Queue.{Queue}
use southpaw_turbohaul.Timers.{GraceTimer, IdleHotTimer}
use southpaw_turbohaul.Db.{Db}

-- `SidecarHandle`: the process is known by its pid.
pub record Handle : Type 0 where
  pub pid : ℕ
  pub port : ℕ
  pub model_tag : String

-- The fields of RuntimeConfig.queue and of BootConfig that the worker reads.
pub record Config : Type 0 where
  pub grace_seconds : ℕ
  pub idle_hot_load_seconds : ℕ
  pub safety_enabled : Bool
  pub default_port_base : ℕ

-- `alive` lists the llama-server processes that this manager spawned and that still run, and
-- `resolved` the futures that were given a result or an exception, the oldest first: what the host
-- and the callers see of the manager's work. `wall_now` is the reading of the wall clock.
pub record Manager : Type 0 where
  pub config : Config
  pub queue : Queue
  pub grace : GraceTimer
  pub idle : IdleHotTimer
  pub active_handle : Option Handle
  pub active_slot : Option String
  pub idle_handle : Option Handle
  pub idle_model_tag : Option String
  pub idle_expires_at : Option ℕ
  pub latest_keep_alive_s : Option ℤ
  pub eviction_count : ℕ
  pub last_evicted_at : Option ℕ
  pub stop_event : Bool
  pub db : Db
  pub alive : List ℕ
  pub resolved : List (String × Outcome)
  pub wall_now : ℕ

-- The manager, and the slot that `_process_slot` was called with.
pub record Work : Type 0 where
  pub mgr : Manager
  pub slot : Slot

-- A call of submit, submit_and_wait or submit_for_streaming. `slot_id` is the uuid that `Slot.new`
-- draws and `now` its reading of the clock.
pub record Submission : Type 0 where
  pub slot_id : String
  pub model_tag : String
  pub prompt : String
  pub thread_id : String
  pub client_meta : ClientMeta
  pub wait_for_completion : Bool
  pub disconnect_event : Option ℕ
  pub now : ℕ

-- What `_sigterm` comes back with: the process is gone; it is still there and False is returned;
-- the helper raised.
pub data Sigterm : Type 0 where
  ended survived broke : Sigterm

-- What `read_manifest` and `flags_to_argv` come to: a manifest, FileNotFoundError, or another
-- exception.
pub data ManifestRead : Type 0 where
  found missing broken : ManifestRead

-- What `_wait_healthy` comes to: True, False, or SchemaMismatch.
pub data Health : Type 0 where
  healthy timed_out schema_mismatch : Health

-- How the request itself ends: `_complete_fn` returns a reply, or the stream is drained (or an hour
-- has passed); an exception is raised; or the worker task is cancelled.
pub data Completion : Type 0 where
  returned : String → Completion
  crashed interrupted : Completion

-- One round of the grace loop: the submissions that other tasks made since the last round, the
-- clock and the disconnect events at this one, how the request of a matched slot ends, the clock
-- at the restart that follows, and whether the sleep is cancelled.
pub record Poll : Type 0 where
  pub submits : List Submission
  pub now : ℕ
  pub events : Events
  pub completion : Completion
  pub restart_now : ℕ
  pub cancelled : Bool

-- What the host answers while one slot is processed. The gates are named by whether they passed;
-- the spawn is the pid, or an exception. The clock is read at the warm-inherit test, at the entry
-- to ACTIVE, to GRACE and to IDLE_HOT.
pub record Inputs : Type 0 where
  pub manifest : ManifestRead
  pub inherit_now : ℕ
  pub gates : List Bool
  pub spawned : Option ℕ
  pub health : Health
  pub active_now : ℕ
  pub completion : Completion
  pub grace_now : ℕ
  pub polls : List Poll
  pub idle_now : ℕ
  pub swap_sigterm : Sigterm
  pub teardown_sigterm : Sigterm
  pub final_sigterm : Sigterm

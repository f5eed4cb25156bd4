-- ===== src/Subprocess/Sigterm.antt =====
-- `drained_sigterm` of src/turbohaul/subprocess_mgr.py: SIGTERM to the process group, a window in
-- which the process may end, then SIGKILL.
pub mod Outcome
pub mod Ends
use southpaw_turbohaul.Base.{
  ℕ, ◌+◌, Bool, true, false, not, List, [], ◌∷◌, Option, none, some, if◌then◌else◌,
}
use southpaw_turbohaul.Subprocess.Polling.{poll}

-- What `killpg` does: the signal is sent, or it raises ProcessLookupError or PermissionError.
pub data Killpg : Type 0 where
  sent gone denied : Killpg

pub data Signal : Type 0 where
  sigterm sigkill : Signal

pub data Status : Type 0 where
  already_gone already_gone_during_sigterm sigterm_failed_permission_denied : Status
  sigterm_clean sigkill_already_gone sigkill_permission_denied : Status
  sigkill_failed_still_alive wait_timeout_after_sigkill sigkill_clean : Status

-- What the host answers. `getpgid` is none where it raises ProcessLookupError; `started` is the
-- reading of the clock that the deadline is counted from; in round i the clock reads `clock i`, and
-- `exited i` says whether `poll()` finds the process ended. The last two are `poll()` after the
-- SIGKILL, and whether `wait` returns in time then.
pub record Host : Type 0 where
  pub getpgid : Option ℕ
  pub on_sigterm : Killpg
  pub started : ℕ
  pub clock : ℕ → ℕ
  pub exited : ℕ → Bool
  pub on_sigkill : Killpg
  pub exited_after : Bool
  pub reaped : Bool

-- The pair that is returned, and the signals that went out, with their process group.
pub record Ended : Type 0 where
  pub success : Bool
  pub status : Status
  pub signals : List (ℕ × Signal)

abbrev pub look_exited : Host → ℕ → Option Bool
look_exited h i = if h.exited i then some true else none

abbrev pub wait_window : ℕ → ℕ → Bool → ℕ
wait_window drained_window cold_window is_active = if is_active then drained_window else cold_window

-- After the SIGKILL was sent.
abbrev pub settle : ℕ → Host → Ended
settle pgid h =
    let signals = (pgid, sigterm) ∷ (pgid, sigkill) ∷ [] in
    if not h.exited_after
    then record { success = false; status = sigkill_failed_still_alive; signals = signals }
    else if h.reaped
    then record { success = true; status = sigkill_clean; signals = signals }
    else record { success = false; status = wait_timeout_after_sigkill; signals = signals }

unfoldable pub escalate : ℕ → Host → Killpg → Ended
escalate pgid h sent = settle pgid h
escalate pgid h gone = record {
  success = true;
  status = sigkill_already_gone;
  signals = (pgid, sigterm) ∷ [];
}
escalate pgid h denied = record {
  success = false;
  status = sigkill_permission_denied;
  signals = (pgid, sigterm) ∷ [];
}

-- After the loop, if that ended: it saw the process ended, or its deadline has passed.
unfoldable pub after_window : ℕ → Host → Option (Option Bool) → Option Ended
unfolding escalate
after_window pgid h none = none
after_window pgid h (some (some seen)) =
    some (record { success = true; status = sigterm_clean; signals = (pgid, sigterm) ∷ [] })
after_window pgid h (some none) = some (escalate pgid h h.on_sigkill)

unfoldable pub wait_window_of : ℕ → ℕ → ℕ → Host → Killpg → Option Ended
unfolding after_window poll
wait_window_of fuel window pgid h sent =
    after_window pgid h (poll h.clock (h.started + window) (look_exited h) fuel 0)
wait_window_of fuel window pgid h gone =
    some (record { success = true; status = already_gone_during_sigterm; signals = [] })
wait_window_of fuel window pgid h denied =
    some (record { success = false; status = sigterm_failed_permission_denied; signals = [] })

-- `none` if the fuel is out.
unfoldable pub drained_sigterm : ℕ → ℕ → ℕ → Bool → Host → Option Ended
unfolding wait_window_of
drained_sigterm fuel drained_window cold_window is_active h = elim h.getpgid [
  | none ↦ some (record { success = true; status = already_gone; signals = [] })
  | some pgid ↦
      wait_window_of fuel (wait_window drained_window cold_window is_active) pgid h h.on_sigterm
]

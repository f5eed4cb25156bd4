-- ===== src/Timers/Examples.antt =====
-- Runs of the two timers.
use southpaw_turbohaul.Base.{◌≡◌, refl, true, none, some, List, [], ◌∷◌, arith}
use southpaw_turbohaul.Timers.{
  GraceTimer, IdleHotTimer, start, on_submit, restart_for_followup, expired,
}
use southpaw_turbohaul.Timers.Window.{Event, submitted, served, events, events_expire}

abbrev fresh_timer : GraceTimer
fresh_timer = record {
  grace_seconds = 10;
  max_extensions = 2;
  started_at = none;
  thread_id = none;
  model_tag = none;
  extension_count = 0;
}

-- A follow-up is submitted within the window, the grace loop takes it and serves it until 40, and a
-- second one until 80.
abbrev two_followups : List Event
two_followups = submitted "t1" "qwen" 12 ∷ served 40 ∷ served 80 ∷ []

events_expire_example : expired (events (start fresh_timer "t1" "qwen" 5) two_followups) 115 ≡ true
unfolding start on_submit restart_for_followup
events_expire_example =
    events_expire 40 fresh_timer "t1" "qwen" 5 115 two_followups
      (tt, ((12, refl, omega arith), ((40, refl, omega arith), tt))) (omega arith)

abbrev idle_timer : IdleHotTimer
idle_timer = record { idle_seconds = 60; started_at = some 5; model_tag = some "qwen" }

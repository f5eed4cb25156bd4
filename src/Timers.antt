-- ===== src/Timers.antt =====
-- src/turbohaul/queue.py, classes GraceTimer and IdleHotTimer. Clock readings and durations are
-- counted in ticks of one length; each method that reads the clock takes the reading `now`.
pub mod Window
mod Examples
use southpaw_turbohaul.Base.{
  ℕ, suc, ◌+◌, ◌-◌, String, Bool, true, false, ◌&&◌, ◌||◌, not, Option, none, some, leb, ◌==◌,
  is_some, if◌then◌else◌, nat_eq,
}

-- `self.thread_id == thread_id`, where the field may be None.
abbrev pub holds_text : Option String → String → Bool
holds_text none t = false
holds_text (some s) t = s == t

-- `max(0.0, seconds - (now - started_at))`: the subtraction stops at 0.
abbrev pub left_of : ℕ → ℕ → ℕ → ℕ
left_of seconds started_at now = (seconds + started_at) - now

pub record GraceTimer : Type 0 where
  pub grace_seconds : ℕ
  pub max_extensions : ℕ
  pub started_at : Option ℕ
  pub thread_id : Option String
  pub model_tag : Option String
  pub extension_count : ℕ

unfoldable pub start : GraceTimer → String → String → ℕ → GraceTimer
start g thread_id model_tag now = record g {
  started_at = some now;
  thread_id = some thread_id;
  model_tag = some model_tag;
  extension_count = 0;
}

unfoldable pub restart_for_followup : GraceTimer → ℕ → Bool × GraceTimer
restart_for_followup g now =
    if leb g.max_extensions g.extension_count
    then (false, g)
    else (true, record g { extension_count = suc g.extension_count; started_at = some now })

unfoldable pub remaining_s : GraceTimer → ℕ → ℕ
remaining_s g now = elim g.started_at [ none ↦ 0 | some t ↦ left_of g.grace_seconds t now ]

unfoldable pub expired : GraceTimer → ℕ → Bool
unfolding remaining_s
expired g now = not (is_some g.started_at) || leb (remaining_s g now) 0

unfoldable pub matches : GraceTimer → String → String → ℕ → Bool
unfolding expired
matches g thread_id model_tag now =
    is_some g.started_at
    && (holds_text g.thread_id thread_id
        && (holds_text g.model_tag model_tag && not (expired g now)))

-- The timer's part of `submit` in src/turbohaul/manager.py: a request that matches the window
-- restarts it, and what `restart_for_followup` returns is not looked at.
unfoldable pub on_submit : GraceTimer → String → String → ℕ → GraceTimer
unfolding matches restart_for_followup
on_submit g thread_id model_tag now =
    if matches g thread_id model_tag now then (restart_for_followup g now).1 else g

unfoldable pub reset : GraceTimer → GraceTimer
reset g = record g { started_at = none; thread_id = none; model_tag = none; extension_count = 0 }

pub record IdleHotTimer : Type 0 where
  pub idle_seconds : ℕ
  pub started_at : Option ℕ
  pub model_tag : Option String

unfoldable pub idle_start : IdleHotTimer → String → ℕ → IdleHotTimer
idle_start t model_tag now = record t { started_at = some now; model_tag = some model_tag }

unfoldable pub idle_remaining_s : IdleHotTimer → ℕ → ℕ
idle_remaining_s t now = elim t.started_at [ none ↦ 0 | some s ↦ left_of t.idle_seconds s now ]

unfoldable pub idle_expired : IdleHotTimer → ℕ → Bool
unfolding idle_remaining_s
idle_expired t now = not (is_some t.started_at) || leb (idle_remaining_s t now) 0

unfoldable pub matches_same_model : IdleHotTimer → String → ℕ → Bool
unfolding idle_expired
matches_same_model t model_tag now =
    is_some t.started_at && (holds_text t.model_tag model_tag && not (idle_expired t now))

unfoldable pub idle_reset : IdleHotTimer → IdleHotTimer
idle_reset t = record t { started_at = none; model_tag = none }

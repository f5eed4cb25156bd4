-- ===== src/Timers/Window.antt =====
-- When a warm window is open, and how long follow-ups can keep it open.
use southpaw_turbohaul.Base.{
  ℕ, ◌+◌, ◌*◌, ◌≤◌, ◌<◌, String, ◌≡◌, refl, ◌↔◌, true, Option, none, some, List, [], ◌∷◌, arith,
  eq_iff, leb, Bool-cases, inl, inr, Option-cases, ◌∙◌,
}
use southpaw_turbohaul.Timers.{
  GraceTimer, start, expired, restart_for_followup, matches, on_submit, IdleHotTimer,
  matches_same_model, holds_text,
}

-- The window of a grace timer that runs since `t`, for a thread and a model.
pub record Open (g : GraceTimer) (thread_id model_tag : String) (now : ℕ) (t : ℕ) : Type 0 where
  pub since : g.started_at ≡ some t
  pub same_thread : g.thread_id ≡ some thread_id
  pub same_model : g.model_tag ≡ some model_tag
  pub in_time : now < t + g.grace_seconds

holds_text_iff : (o : Option String) (s : String) → (holds_text o s ≡ true) ↔ (o ≡ some s)
holds_text_iff none s = (λ h. cc, λ h. cc)
holds_text_iff (some t) s = (λ h. ground (arith, eq_iff t s), λ h. ground (arith, eq_iff t s))

-- A request matches the grace window exactly if the timer was started for its thread and its
-- model, and less than the grace period has passed since the last start or restart.
matches_iff :
    (g : GraceTimer) (thread_id model_tag : String) (now : ℕ)
    → (matches g thread_id model_tag now ≡ true) ↔ ((t : ℕ) × Open g thread_id model_tag now t)
unfolding matches
matches_iff g thread_id model_tag now = elim (Option-cases g.started_at) [
  | inl e ↦ (λ h. absurd (ground arith), λ w. absurd (ground (arith, w.1.since)))
  | inr (t, e) ↦ (
    λ h. (
      t,
      record {
        since = e;
        same_thread = (holds_text_iff g.thread_id thread_id).0 (ground arith);
        same_model = (holds_text_iff g.model_tag model_tag).0 (ground arith);
        in_time = ground arith;
      },
    ),
    λ w. ground (
      arith,
      w.1.since,
      w.1.in_time,
      (holds_text_iff g.thread_id thread_id).1 w.1.same_thread,
      (holds_text_iff g.model_tag model_tag).1 w.1.same_model,
    ),
  )
]

-- What happens to the timer after its start: a request is submitted, with its thread, its model and
-- the clock reading; or the grace loop has served a follow-up and restarts the window.
pub data Event : Type 0 where
  submitted : String → String → ℕ → Event
  served : ℕ → Event

abbrev pub happen : GraceTimer → Event → GraceTimer
happen g (submitted thread_id model_tag now) = on_submit g thread_id model_tag now
happen g (served now) = (restart_for_followup g now).1

unfoldable pub events : GraceTimer → List Event → GraceTimer
events g [] = g
events g (e ∷ es) = events (happen g e) es

-- A follow-up is taken within the window, and served at most `longest` after the window's end; a
-- submission may come at any time.
abbrev pub IsTimely : ℕ → GraceTimer → Event → Type 0
IsTimely longest g (submitted thread_id model_tag now) = Unit
IsTimely longest g (served now) =
    (t : ℕ) × (g.started_at ≡ some t) × (now ≤ t + g.grace_seconds + longest)

abbrev pub AreTimely : ℕ → GraceTimer → List Event → Type 0
AreTimely longest g [] = Unit
AreTimely longest g (e ∷ es) = IsTimely longest g e × AreTimely longest (happen g e) es

-- The window that began at `began`: its last restart is at most one grace period and one service per
-- extension away.
record IsWithin (longest began : ℕ) (g : GraceTimer) : Type 0 where
  restarted : ℕ
  since : g.started_at ≡ some restarted
  near : restarted ≤ began + g.extension_count * (g.grace_seconds + longest)
  capped : g.extension_count ≤ g.max_extensions

restart-IsWithin :
    (longest began now t : ℕ) (g : GraceTimer)
    → g.started_at ≡ some t
    → now ≤ t + g.grace_seconds + longest
    → IsWithin longest began g
    → IsWithin longest began (restart_for_followup g now).1
unfolding restart_for_followup
restart-IsWithin longest began now t g since soon w =
    elim (Bool-cases (leb g.max_extensions g.extension_count)) [
      | inl cap ↦ rw cap w
      | inr more ↦ rw more (record {
        restarted = now;
        since = refl;
        near = ground (arith, since, soon, w.since, w.near);
        capped = ground arith;
      })
    ]

happen-IsWithin :
    (longest began : ℕ) (g : GraceTimer) (e : Event)
    → IsTimely longest g e
    → IsWithin longest began g
    → IsWithin longest began (happen g e)
happen-IsWithin longest began g (served now) (t, since, soon) w =
    restart-IsWithin longest began now t g since soon w
happen-IsWithin longest began g (submitted thread_id model_tag now) timely w =
    unfold on_submit in
    elim (Bool-cases (matches g thread_id model_tag now)) [
      | inr miss ↦ rw miss w
      | inl hit ↦
          let (t, o) = (matches_iff g thread_id model_tag now).0 hit in
          rw hit (restart-IsWithin longest began now t g o.since (ground (arith, o.in_time)) w)
    ]

happen-fixed :
    (g : GraceTimer) (e : Event)
    → ((happen g e).grace_seconds ≡ g.grace_seconds)
      × ((happen g e).max_extensions ≡ g.max_extensions)
unfolding on_submit restart_for_followup
happen-fixed g (submitted thread_id model_tag now) = ground arith
happen-fixed g (served now) = ground arith

events-IsWithin :
    (es : List Event) (longest began : ℕ) (g : GraceTimer)
    → AreTimely longest g es
    → IsWithin longest began g
    → IsWithin longest began (events g es)
      × ((events g es).grace_seconds ≡ g.grace_seconds)
      × ((events g es).max_extensions ≡ g.max_extensions)
unfolding events
events-IsWithin [] longest began g timely w = (w, refl, refl)
events-IsWithin (e ∷ es) longest began g (now_timely, timely) w =
    let (w', s, m) =
      events-IsWithin es longest began _ timely (happen-IsWithin longest began g e now_timely w) in
    let (s', m') = happen-fixed g e in (w', s ∙ s', m ∙ m')

start-IsWithin :
    (longest : ℕ) (g : GraceTimer) (thread_id model_tag : String) (began : ℕ)
    → IsWithin longest began (start g thread_id model_tag began)
unfolding start
start-IsWithin longest g thread_id model_tag began = record {
  restarted = began;
  since = refl;
  near = omega arith;
  capped = omega arith;
}

mul-mono_left : (a b c : ℕ) → a ≤ b → a * c ≤ b * c
mul-mono_left a b c h = grind arith

-- A timer within its window has expired once the last possible restart is a grace period old.
IsWithin-expired :
    (longest began now : ℕ) (g : GraceTimer)
    → IsWithin longest began g
    → began + g.max_extensions * (g.grace_seconds + longest) + g.grace_seconds ≤ now
    → expired g now ≡ true
unfolding expired
IsWithin-expired longest began now g w late = ground (
  arith,
  w.since,
  w.near,
  mul-mono_left g.extension_count g.max_extensions (g.grace_seconds + longest) w.capped,
)

-- Follow-ups cannot keep a thread's window open for ever: however many requests are submitted and
-- however many follow-ups the grace loop serves after a start, if each is taken within the window
-- and served at most `longest` after its end, the timer is expired once `max_extensions` grace
-- periods and services, and one more grace period, have passed since that start.
pub events_expire :
    (longest : ℕ) (g : GraceTimer) (thread_id model_tag : String) (began now : ℕ) (es : List Event)
    → AreTimely longest (start g thread_id model_tag began) es
    → began + g.max_extensions * (g.grace_seconds + longest) + g.grace_seconds ≤ now
    → expired (events (start g thread_id model_tag began) es) now ≡ true
events_expire longest g thread_id model_tag began now es timely late =
    let (w, seconds, cap) =
      events-IsWithin es longest began _ timely
        (start-IsWithin longest g thread_id model_tag began) in
    IsWithin-expired longest began now _ w (unfold start in rw (seconds, cap) late)

-- The idle timer matches the model that it was started for, while less than the idle period has
-- passed since the start, and nothing else.
matches_same_model_iff :
    (t : IdleHotTimer) (model_tag : String) (now : ℕ)
    → (matches_same_model t model_tag now ≡ true) ↔ (
        (s : ℕ) × (t.started_at ≡ some s)
        × (t.model_tag ≡ some model_tag)
        × (now < s + t.idle_seconds))
unfolding matches_same_model
matches_same_model_iff t model_tag now = elim (Option-cases t.started_at) [
  | inl e ↦ (λ h. absurd (ground arith), λ w. absurd (ground (arith, w.1)))
  | inr (s, e) ↦ (
    λ h. (s, e, (holds_text_iff t.model_tag model_tag).0 (ground arith), ground arith),
    λ w. ground (arith, w.1, w.3, (holds_text_iff t.model_tag model_tag).1 w.2),
  )
]

-- ===== src/Subprocess/Sigterm/Outcome.antt =====
-- What `drained_sigterm` of src/turbohaul/subprocess_mgr.py promises.
use southpaw_turbohaul.Base.{
  ℕ, ◌+◌, ◌≤◌, ◌<◌, ◌≡◌, refl, Bool, true, false, [], ◌∷◌, Option, none, some, inl, inr, arith,
  AnyOf, subst,
}
use southpaw_turbohaul.Subprocess.Polling.{poll, Passed, poll-EndsAt}
use southpaw_turbohaul.Subprocess.Sigterm.{
  Killpg, sent, gone, denied, Signal, sigterm, sigkill, Host, Ended, look_exited, wait_window,
  settle, escalate, after_window, wait_window_of, drained_sigterm, sigterm_clean, already_gone,
  already_gone_during_sigterm, sigterm_failed_permission_denied,
}

-- The ways of a call with this deadline: the group is not there, is gone before the SIGTERM or may
-- not be signalled; a round before the deadline finds the process ended; or every round up to one
-- past the deadline finds it alive, and SIGKILL is tried.
pub data Course (deadline : ℕ) (h : Host) : Ended → Type 0 where
  no_group :
      h.getpgid ≡ none
      → Course deadline h (record { success = true; status = already_gone; signals = [] })
  lost :
      h.on_sigterm ≡ gone
      → Course deadline h
          (record { success = true; status = already_gone_during_sigterm; signals = [] })
  refused :
      h.on_sigterm ≡ denied
      → Course deadline h
          (record { success = false; status = sigterm_failed_permission_denied; signals = [] })
  clean :
      (g n : ℕ)
      → h.getpgid ≡ some g
      → h.on_sigterm ≡ sent
      → h.clock n < deadline
      → h.exited n ≡ true
      → Course deadline h
          (record { success = true; status = sigterm_clean; signals = (g, sigterm) ∷ [] })
  escalated :
      (g n : ℕ)
      → h.getpgid ≡ some g
      → h.on_sigterm ≡ sent
      → deadline ≤ h.clock n
      → Passed h.clock deadline (look_exited h) 0 n
      → Course deadline h (escalate g h h.on_sigkill)

pub exited-false : (h : Host) (i : ℕ) → look_exited h i ≡ none → h.exited i ≡ false
exited-false h i e = ground arith

exited-true : (h : Host) (i : ℕ) (b : Bool) → look_exited h i ≡ some b → h.exited i ≡ true
exited-true h i b e = ground arith

some_of : {A : Type 0} (a b : A) → some a ≡ some b → a ≡ b
some_of a b h = cc

module _ (fuel window : ℕ) (h : Host) where
  waited-Course :
      (g : ℕ) (p : Option (Option Bool)) (e : Ended)
      → h.getpgid ≡ some g
      → h.on_sigterm ≡ sent
      → poll h.clock (h.started + window) (look_exited h) fuel 0 ≡ p
      → after_window g h p ≡ some e
      → Course (h.started + window) h e
  unfolding after_window
  waited-Course g none e at up polled same = absurd (cc)
  waited-Course g (some (some b)) e at up polled same =
      let (n, (p, early, seen)) =
        poll-EndsAt h.clock (h.started + window) (look_exited h) fuel 0 (some b) polled in
      subst (Course (h.started + window) h) (some_of _ e same)
        (clean g n at up early (exited-true h n b seen))
  waited-Course g (some none) e at up polled same =
      let (n, (p, late)) =
        poll-EndsAt h.clock (h.started + window) (look_exited h) fuel 0 none polled in
      subst (Course (h.started + window) h) (some_of _ e same) (escalated g n at up late p)

  signalled-Course :
      (g : ℕ) (k : Killpg) (e : Ended)
      → h.getpgid ≡ some g
      → h.on_sigterm ≡ k
      → wait_window_of fuel window g h k ≡ some e
      → Course (h.started + window) h e
  unfolding wait_window_of
  signalled-Course g sent e at up same = waited-Course g _ e at up refl same
  signalled-Course g gone e at up same =
      subst (Course (h.started + window) h) (some_of _ e same) (lost up)
  signalled-Course g denied e at up same =
      subst (Course (h.started + window) h) (some_of _ e same) (refused up)

abbrev IsKill : ℕ × Signal → Type 0
IsKill s = s.1 ≡ sigkill

term_only : (g : ℕ) → AnyOf IsKill ((g, sigterm) ∷ []) → ⊥
term_only g (inl h) = cc
term_only g (inr h) = h

settle-signals :
    (g : ℕ) (h : Host) (a b : Bool)
    → h.exited_after ≡ a
    → h.reaped ≡ b
    → (settle g h).signals ≡ (g, sigterm) ∷ (g, sigkill) ∷ []
settle-signals g h false b ea eb = rw ea refl
settle-signals g h true true ea eb = rw (ea, eb) refl
settle-signals g h true false ea eb = rw (ea, eb) refl

escalate-signals :
    (g : ℕ) (h : Host) (k : Killpg)
    → AnyOf IsKill (escalate g h k).signals
    → (escalate g h k).signals ≡ (g, sigterm) ∷ (g, sigkill) ∷ []
unfolding escalate
escalate-signals g h sent kill = settle-signals g h h.exited_after h.reaped refl refl
escalate-signals g h gone kill = absurd (term_only g kill)
escalate-signals g h denied kill = absurd (term_only g kill)

module _ (fuel drained_window cold_window : ℕ) (is_active : Bool) (h : Host) where
  abbrev deadline : ℕ
  deadline = h.started + wait_window drained_window cold_window is_active

  drained_sigterm-Course :
      (e : Ended)
      → drained_sigterm fuel drained_window cold_window is_active h ≡ some e
      → Course deadline h e
  drained_sigterm-Course e same = go h.getpgid refl (unfold drained_sigterm in same)
    where
      go :
          (p : Option ℕ)
          → h.getpgid ≡ p
          → elim p [
            | none ↦ some (record { success = true; status = already_gone; signals = [] })
            | some g ↦
                wait_window_of fuel
                  (wait_window drained_window cold_window is_active)
                  g
                  h
                  h.on_sigterm
          ]
            ≡ some e
          → Course deadline h e
      go none at same = subst (Course deadline h) (some_of _ e same) (no_group at)
      go (some g) at same =
          signalled-Course fuel (wait_window drained_window cold_window is_active) h g h.on_sigterm
            e at refl same

  -- If drained_sigterm sent a SIGKILL, it went to the process group after a SIGTERM, the deadline
  -- had passed, and every look at the process before had found it alive.
  pub drained_sigterm-kills_late :
      (e : Ended)
      → drained_sigterm fuel drained_window cold_window is_active h ≡ some e
      → AnyOf IsKill e.signals
      → (g : ℕ) × (n : ℕ) × (h.getpgid ≡ some g)
        × (e.signals ≡ (g, sigterm) ∷ (g, sigkill) ∷ [])
        × (deadline ≤ h.clock n)
        × Passed h.clock deadline (look_exited h) 0 n
  drained_sigterm-kills_late e same kill = of e (drained_sigterm-Course e same) kill
    where
      of :
          (e : Ended)
          → Course deadline h e
          → AnyOf IsKill e.signals
          → (g : ℕ) × (n : ℕ) × (h.getpgid ≡ some g)
            × (e.signals ≡ (g, sigterm) ∷ (g, sigkill) ∷ [])
            × (deadline ≤ h.clock n)
            × Passed h.clock deadline (look_exited h) 0 n
      of e (no_group at) kill = absurd kill
      of e (lost up) kill = absurd kill
      of e (refused up) kill = absurd kill
      of e (clean g n at up early seen) kill = absurd (term_only g kill)
      of e (escalated g n at up late alive) kill =
          (g, n, at, escalate-signals g h h.on_sigkill kill, late, alive)

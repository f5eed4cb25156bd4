-- ===== src/Subprocess/Sigterm/Ends.antt =====
-- That `drained_sigterm` of src/turbohaul/subprocess_mgr.py returns, and spares a process that ends
-- in time.
use southpaw_turbohaul.Base.{
  ℕ, suc, ◌+◌, ◌≤◌, ◌<◌, ◌≡◌, refl, Bool, true, false, [], ◌∷◌, Option, none, some, ◌⊎◌, inl, inr,
  arith, subst, sym,
}
use southpaw_turbohaul.Subprocess.Polling.{poll, Passed, poll-EndsAt, poll_ends, Passed-none, grows}
use southpaw_turbohaul.Subprocess.Sigterm.{
  Killpg, sent, gone, denied, sigterm, Host, Ended, look_exited, wait_window, after_window,
  wait_window_of, drained_sigterm, sigterm_clean, already_gone,
}
use southpaw_turbohaul.Subprocess.Sigterm.Outcome.{exited-false}

module _ (drained_window cold_window : ℕ) (is_active : Bool) (h : Host) where
  after_some : (g : ℕ) (o : Option Bool) → (e : Ended) × (after_window g h (some o) ≡ some e)
  unfolding after_window
  after_some g (some b) = (_, refl)
  after_some g none = (_, refl)

  waited_ends :
      (fuel window g : ℕ) (o : Option Bool) (k : Killpg)
      → poll h.clock (h.started + window) (look_exited h) fuel 0 ≡ some o
      → (e : Ended) × (wait_window_of fuel window g h k ≡ some e)
  unfolding wait_window_of after_window
  waited_ends fuel window g o sent polled =
      subst (λ p. (e : Ended) × (after_window g h p ≡ some e)) (sym polled) (after_some g o)
  waited_ends fuel window g o gone polled = (_, refl)
  waited_ends fuel window g o denied polled = (_, refl)

  -- drained_sigterm returns, if the clock moves on from round to round: there are no more rounds
  -- than the window has ticks, and one.
  pub drained_sigterm_ends :
      h.started ≤ h.clock 0
      → ((i : ℕ) → h.clock i < h.clock (suc i))
      → let window = wait_window drained_window cold_window is_active in
        (e : Ended) × (drained_sigterm (suc window) drained_window cold_window is_active h ≡ some e)
  drained_sigterm_ends begun up =
      let window = wait_window drained_window cold_window is_active in
      let (o, polled) =
        poll_ends h.clock (h.started + window) (look_exited h) up window 0 (omega (arith, begun)) in
      unfold drained_sigterm in go (suc window) window o polled h.getpgid
    where
      go :
          (fuel window : ℕ) (o : Option Bool)
          → poll h.clock (h.started + window) (look_exited h) fuel 0 ≡ some o
          → (p : Option ℕ)
          → (e : Ended) × (elim p [
            | none ↦ some (record { success = true; status = already_gone; signals = [] })
            | some g ↦ wait_window_of fuel window g h h.on_sigterm
          ]
              ≡ some e)
      go fuel window o polled none = (_, refl)
      go fuel window o polled (some g) = waited_ends fuel window g o h.on_sigterm polled

  -- A round that finds the process ended, before the deadline, is not behind the loop's last round.
  not_missed :
      (deadline n m : ℕ)
      → ((i : ℕ) → h.clock i < h.clock (suc i))
      → h.clock n < deadline
      → h.exited n ≡ true
      → Passed h.clock deadline (look_exited h) 0 m
      → deadline ≤ h.clock m
      → ⊥
  not_missed deadline n m grow early seen p late = elim (before n m) [
    | inl less ↦
        true_false (h.exited n) seen (
          exited-false h n
            (Passed-none h.clock deadline (look_exited h) 0 m n p (omega arith) less))
    | inr more ↦ omega (arith, early, late, grows h.clock grow m n more)
  ]
    where
      true_false : (b : Bool) → b ≡ true → b ≡ false → ⊥
      true_false b h k = cc

      before : (n m : ℕ) → (n < m) ⊎ (m ≤ n)
      before n m = ground arith

  caught :
      (fuel window g n : ℕ) (o : Option Bool)
      → poll h.clock (h.started + window) (look_exited h) fuel 0 ≡ some o
      → ((i : ℕ) → h.clock i < h.clock (suc i))
      → h.clock n < h.started + window
      → h.exited n ≡ true
      → wait_window_of fuel window g h sent
        ≡ some (record { success = true; status = sigterm_clean; signals = (g, sigterm) ∷ [] })
  unfolding wait_window_of after_window
  caught fuel window g n (some b) polled grow early seen = rw polled refl
  caught fuel window g n none polled grow early seen =
      let (m, (p, late)) =
        poll-EndsAt h.clock (h.started + window) (look_exited h) fuel 0 none polled in
      absurd (not_missed (h.started + window) n m grow early seen p late)

  -- If the group is found and takes the SIGTERM, and the clock moves on from round to round, a
  -- process that is seen to have ended before the deadline, in whatever round, is never killed: its
  -- group had the SIGTERM alone, and the call returns success.
  pub drained_sigterm-clean :
      (g n : ℕ)
      → h.getpgid ≡ some g
      → h.on_sigterm ≡ sent
      → h.started ≤ h.clock 0
      → ((i : ℕ) → h.clock i < h.clock (suc i))
      → let window = wait_window drained_window cold_window is_active in
        h.clock n < h.started + window
        → h.exited n ≡ true
        → drained_sigterm (suc window) drained_window cold_window is_active h
          ≡ some (record { success = true; status = sigterm_clean; signals = (g, sigterm) ∷ [] })
  drained_sigterm-clean g n at up begun grow early seen =
      let window = wait_window drained_window cold_window is_active in
      let (o, polled) =
        poll_ends h.clock (h.started + window) (look_exited h) grow window 0
          (omega (arith, begun)) in
      unfold drained_sigterm in
      rw (at, up) (caught (suc window) window g n o polled grow early seen)

-- ===== src/Subprocess/Vram.antt =====
-- `verify_vram_cleared` of src/turbohaul/subprocess_mgr.py, over the readings of nvidia-smi in MiB,
-- where `none` stands for a reading that failed.
use southpaw_turbohaul.Base.{
  ℕ, suc, ◌+◌, ◌-◌, ◌*◌, ◌/◌, ◌≤◌, ◌<◌, ◌≡◌, refl, ◌∙◌, Bool, true, false, Option, none, some, leb,
  arith, if◌then◌else◌,
}
use southpaw_turbohaul.Subprocess.Polling.{poll, EndsAt, poll-EndsAt, poll_ends}

-- What a round returns of its reading, if it does.
abbrev pub judge_used : ℕ → Option ℕ → Option (Option ℕ)
judge_used target none = some none
judge_used target (some used) = if leb used target then some (some used) else none

-- `max(0, initial - int(expected_drop_mib * 0.9))`
abbrev pub vram_target : ℕ → ℕ → ℕ
vram_target initial expected_drop = initial - expected_drop * 9 / 10

-- The pair that is returned. At the deadline it holds one more reading.
abbrev pub vram_result : Option ℕ → Option (Option ℕ) → Bool × Option ℕ
vram_result last (some found) = (true, found)
vram_result last none = (false, last)

abbrev pub when_ended : Option ℕ → Option (Option (Option ℕ)) → Option (Bool × Option ℕ)
when_ended last none = none
when_ended last (some o) = some (vram_result last o)

-- `initial` is the reading at the start, `used i` that of round i, and `last` the one after the
-- deadline. `none` if the fuel is out.
unfoldable pub verify_vram_cleared :
    ℕ → ℕ → ℕ → ℕ → (ℕ → ℕ) → Option ℕ → (ℕ → Option ℕ) → Option ℕ → Option (Bool × Option ℕ)
verify_vram_cleared fuel expected_drop timeout started clock none used last = some (true, none)
verify_vram_cleared fuel expected_drop timeout started clock (some initial) used last =
    when_ended last (
      poll clock (started + timeout) (λ i. judge_used (vram_target initial expected_drop) (used i))
        fuel 0)

abbrev look_used : ℕ → ℕ → (ℕ → Option ℕ) → ℕ → Option (Option ℕ)
look_used initial expected_drop used i = judge_used (vram_target initial expected_drop) (used i)

never_cleared :
    (initial expected_drop : ℕ) (used : ℕ → ℕ)
    → 0 < initial
    → 2 ≤ expected_drop
    → ((i : ℕ) → initial ≤ used i)
    → (n : ℕ) → look_used initial expected_drop (λ i. some (used i)) n ≡ none
never_cleared initial expected_drop used pos two above n = rw (high) refl
  where
    high : leb (used n) (initial - expected_drop * 9 / 10) ≡ false
    high = let a = above n in ground arith

-- The check compares with the use at its own start. After the process has ended, where the manager
-- calls it, the memory is free already: if no reading is below the first one, and the expected drop
-- is 2 MiB or more, it waits until its time-out and reports that the memory is not cleared.
pub verify_vram_cleared-late :
    (expected_drop timeout started initial : ℕ) (clock : ℕ → ℕ) (used : ℕ → ℕ) (last : Option ℕ)
    → started ≤ clock 0
    → ((i : ℕ) → clock i < clock (suc i))
    → 0 < initial
    → 2 ≤ expected_drop
    → ((i : ℕ) → initial ≤ used i)
    → verify_vram_cleared
        (suc timeout)
        expected_drop
        timeout
        started
        clock
        (some initial)
        (λ i. some (used i))
        last
      ≡ some (false, last)
unfolding verify_vram_cleared
verify_vram_cleared-late expected_drop timeout started initial clock used last begun up pos two
      above =
    let look : ℕ → Option (Option ℕ) = look_used initial expected_drop (λ i. some (used i)) in
    let (o, polled) =
      poll_ends clock (started + timeout) look up timeout 0 (omega (arith, begun)) in
    go o polled (poll-EndsAt clock (started + timeout) look (suc timeout) 0 o polled)
  where
    go :
        (o : Option (Option ℕ))
        → poll clock
            (started + timeout)
            (look_used initial expected_drop (λ i. some (used i)))
            (suc timeout)
            0
          ≡ some o
        → (n : ℕ) × EndsAt clock
            (started + timeout)
            (look_used initial expected_drop (λ i. some (used i)))
            0
            o
            n
        → when_ended last (
            poll clock
              (started + timeout)
              (look_used initial expected_drop (λ i. some (used i)))
              (suc timeout)
              0)
          ≡ some (false, last)
    go none polled end = rw polled refl
    go (some a) polled (n, (p, early, answer)) =
        let never = never_cleared initial expected_drop used pos two above n in absurd (cc)

-- A reading that the check takes for cleared is at least 90 percent of the expected drop below the
-- first one, rounded down, or 0.
verify_vram_cleared-dropped :
    (fuel expected_drop timeout started initial u : ℕ) (clock : ℕ → ℕ) (used : ℕ → Option ℕ)
    (last : Option ℕ)
    → verify_vram_cleared fuel expected_drop timeout started clock (some initial) used last
      ≡ some (true, some u)
    → u ≤ initial - expected_drop * 9 / 10
unfolding verify_vram_cleared
verify_vram_cleared-dropped fuel expected_drop timeout started initial u clock used last h =
    go (poll clock (started + timeout) (look_used initial expected_drop used) fuel 0) refl h
  where
    small_if :
        (target u v : ℕ) (b : Bool)
        → leb v target ≡ b
        → (if b then some (some v) else none) ≡ some (some u)
        → u ≤ target
    small_if target u v true e h = let same : v ≡ u = cc in ground arith
    small_if target u v false e h = absurd (cc)

    lifted :
        (a : Option ℕ)
        → when_ended last (some (some a)) ≡ some (true, some u)
        → some a ≡ some (some u)
    lifted a h = cc

    small : (target u : ℕ) (r : Option ℕ) → judge_used target r ≡ some (some u) → u ≤ target
    small target u none h = absurd (cc)
    small target u (some v) h = small_if target u v (leb v target) refl h

    go :
        (p : Option (Option (Option ℕ)))
        → poll clock (started + timeout) (look_used initial expected_drop used) fuel 0 ≡ p
        → when_ended last p ≡ some (true, some u)
        → u ≤ initial - expected_drop * 9 / 10
    go none polled h = absurd (cc)
    go (some none) polled h = absurd (cc)
    go (some (some a)) polled h =
        let (n, (p, early, answer)) =
          poll-EndsAt clock (started + timeout) (look_used initial expected_drop used) fuel 0
            (some a) polled in
        small (initial - expected_drop * 9 / 10) u (used n) (answer ∙ lifted a h)

-- ===== src/Manager/KeepAlive.antt =====
-- The idle time that `_process_slot` grants at the end of the grace window, after the latest
-- request's `keep_alive` (src/turbohaul/manager.py, KEEP_ALIVE_MAX_S of src/turbohaul/config.py).
use southpaw_turbohaul.Base.{ℕ, ◌≤◌, ◌≡◌, ◌↔◌, Option, none, some, min, arith}
use southpaw_turbohaul.Base.Int.{ℤ, pos, negsuc}

abbrev pub keep_alive_max_s : ℕ
keep_alive_max_s = 1800

unfoldable pub idle_seconds : Option ℤ → ℕ → ℕ
idle_seconds none default_idle = default_idle
idle_seconds (some (negsuc n)) default_idle = keep_alive_max_s
idle_seconds (some (pos n)) default_idle = min n keep_alive_max_s

-- A client that names a time never pins the model for longer than half an hour; it can let the
-- process go at once, and does so exactly by naming 0.
idle_seconds-capped :
    (keep_alive : ℤ) (default_idle : ℕ)
    → (idle_seconds (some keep_alive) default_idle ≤ 1800)
      × ((idle_seconds (some keep_alive) default_idle ≡ 0) ↔ (keep_alive ≡ pos 0))
unfolding idle_seconds
idle_seconds-capped (pos n) default_idle = (omega arith, (λ h. ground arith, λ h. ground arith))
idle_seconds-capped (negsuc n) default_idle = (omega arith, (λ h. ground arith, λ h. ground arith))

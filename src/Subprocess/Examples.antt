-- ===== src/Subprocess/Examples.antt =====
-- Tests on src/turbohaul/subprocess_mgr.py, and concrete cases of what is promised of it.
use southpaw_turbohaul.Base.{
  ℕ, zero, suc, ◌+◌, ◌<◌, ◌≤◌, ◌≡◌, refl, inl, inr, String, true, false, List, [], ◌∷◌, Option,
  none, some, leb, arith,
}
use southpaw_turbohaul.Base.Int.{pos}
use southpaw_turbohaul.Base.Decimal.{decimal}
use southpaw_turbohaul.Manifest.Value.{Value, int, bool}
use southpaw_turbohaul.Manifest.Validate.{flags_allowlist}
use southpaw_turbohaul.Manifest.Argv.{flags_to_argv}
use southpaw_turbohaul.Subprocess.Polling.{Passed, poll}
use southpaw_turbohaul.Subprocess.Sigterm.{
  sent, sigterm, sigkill, sigterm_clean, sigkill_clean, Host, Ended, look_exited, drained_sigterm,
}
use southpaw_turbohaul.Subprocess.Sigterm.Outcome.{drained_sigterm-kills_late}
use southpaw_turbohaul.Subprocess.Sigterm.Ends.{drained_sigterm_ends, drained_sigterm-clean}
use southpaw_turbohaul.Subprocess.Health.{
  Response, unreachable, answered, with_status, no_status, text, falsy, other, Found, healthy,
  schema_mismatch, attribute_error, answer_of, HealthEnd, wait_until_healthy,
  wait_until_healthy-first,
}
use southpaw_turbohaul.Subprocess.Vram.{verify_vram_cleared}
use southpaw_turbohaul.Subprocess.Spawn.{exec_path, spawn_sidecar, spawn_sidecar-keeps_layers}

-- A clock that reads 10, 11, 12 and so on.
abbrev ticks : ℕ → ℕ
ticks i = 10 + i

ticks_up : (i : ℕ) → ticks i < ticks (suc i)
ticks_up i = omega arith

-- A process in group 77 that ends in the given round.
abbrev ends_in : ℕ → Host
ends_in n = record {
  getpgid = some 77;
  on_sigterm = sent;
  started = 10;
  clock = ticks;
  exited = leb n;
  on_sigkill = sent;
  exited_after = true;
  reaped = true;
}

abbrev killed : Ended
killed = record {
  success = true;
  status = sigkill_clean;
  signals = (77, sigterm) ∷ (77, sigkill) ∷ [];
}

kill_run : drained_sigterm 6 15 5 false (ends_in 9) ≡ some killed
unfolding drained_sigterm
kill_run = refl

clean_run :
    drained_sigterm 16 15 5 true (ends_in 9)
    ≡ some (record { success = true; status = sigterm_clean; signals = (77, sigterm) ∷ [] })
unfolding drained_sigterm
clean_run = refl

drained_sigterm-kills_late_example :
    (g : ℕ) × (n : ℕ) × (some 77 ≡ some g)
    × (killed.signals ≡ (g, sigterm) ∷ (g, sigkill) ∷ [])
    × (15 ≤ ticks n)
    × Passed ticks 15 (look_exited (ends_in 9)) 0 n
drained_sigterm-kills_late_example =
    drained_sigterm-kills_late 6 15 5 false (ends_in 9) killed kill_run (inr (inl refl))

drained_sigterm_ends_example : (e : Ended) × (drained_sigterm 16 15 5 true (ends_in 20) ≡ some e)
drained_sigterm_ends_example = drained_sigterm_ends 15 5 true (ends_in 20) (omega arith) ticks_up

drained_sigterm-clean_example :
    drained_sigterm 16 15 5 true (ends_in 9)
    ≡ some (record { success = true; status = sigterm_clean; signals = (77, sigterm) ∷ [] })
drained_sigterm-clean_example =
    drained_sigterm-clean 15 5 true (ends_in 9) 77 12 refl refl (omega arith) ticks_up (omega arith)
      refl

-- A server that cannot be reached in two rounds, loads, and then is ready.
abbrev boots : ℕ → Response
boots zero = unreachable
boots (suc zero) = answered 503 no_status
boots (suc (suc zero)) = answered 200 (with_status falsy)
boots _ = answered 200 (with_status (text "OK"))

health_runs :
    (wait_until_healthy 31 30 10 ticks boots ≡ some (some healthy))
    × (wait_until_healthy 31 2 10 ticks boots ≡ some none)
    × (wait_until_healthy 31 30 10 ticks (λ i. answered 200 no_status)
        ≡ some (some schema_mismatch))
    × (wait_until_healthy 31 30 10 ticks (λ i. answered 200 (with_status other))
        ≡ some (some attribute_error))
unfolding wait_until_healthy
health_runs = (refl, refl, refl, refl)

wait_until_healthy-first_example :
    (o : Option Found) × (n : ℕ) × (wait_until_healthy 31 30 10 ticks boots ≡ some o)
    × Passed ticks 40 (answer_of boots) 0 n
    × HealthEnd 40 ticks boots n o
wait_until_healthy-first_example = wait_until_healthy-first 30 10 ticks boots (omega arith) ticks_up

abbrev freed : ℕ → Option ℕ
freed zero = some 18000
freed _ = some 900

vram_run :
    verify_vram_cleared 31 17408 30 10 ticks (some 18000) freed (some 900) ≡ some (true, some 900)
unfolding verify_vram_cleared poll
vram_run = refl

abbrev flags : List (String × Value)
flags = ("mlock", bool true) ∷ ("n_gpu_layers", int (pos 40)) ∷ []

flags_accepted : flags_allowlist flags ≡ none
unfolding flags_allowlist
flags_accepted = refl

spawn_sidecar-keeps_layers_example :
    (argv : List String) × (flags_to_argv (λ v. "") flags ≡ some argv)
    × ((spawn_sidecar none
          (some ("-ngl" ∷ "99" ∷ []))
          "/usr/bin/llama-server"
          (some 7)
          "/m.gguf"
          8081
          argv).cmd
        ≡ (exec_path "/usr/bin/llama-server" (some 7)
            ∷ "--port"
            ∷ decimal 8081
            ∷ "--host"
            ∷ "127.0.0.1"
            ∷ "-m"
            ∷ "/m.gguf"
            ∷ argv))
spawn_sidecar-keeps_layers_example =
    spawn_sidecar-keeps_layers (λ v. "") flags none (some ("-ngl" ∷ "99" ∷ []))
      "/usr/bin/llama-server" (some 7) "/m.gguf" 8081 flags_accepted (inr (inl refl))

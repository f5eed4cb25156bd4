-- ===== src/Manager/Process/Leaving.antt =====
-- How `_process_slot` of src/turbohaul/manager.py leaves a slot whose grace window has closed.
use southpaw_turbohaul.Base.{
  ℕ, ◌≡◌, ◌≢◌, refl, sym, subst, Bool, true, false, ◌&&◌, none, arith, if◌then◌else◌, ltb, is_some,
}
use southpaw_turbohaul.Slot.{Slot, grace, popped}
use southpaw_turbohaul.Exec.{Result, ok, raised}
use southpaw_turbohaul.Manager.Records.{Work, Sigterm, ended, survived, broke}
use southpaw_turbohaul.Manager.Effects.{move, audit_only, end_slot}
use southpaw_turbohaul.Manager.Teardown.{teardown, sigterm}
use southpaw_turbohaul.Manager.KeepAlive.{idle_seconds}
use southpaw_turbohaul.Manager.Grace.Returns.{is_ok}
use southpaw_turbohaul.Manager.Process.{hold_idle, let_go, leave_grace}
use southpaw_turbohaul.Manager.Process.Started.{Returned, Runs, bind_runs, Told, At, to_popped}

let_go-returns :
    (answer : Sigterm) (now : ℕ) (w : Work) → answer ≢ broke → is_ok (let_go answer now w) ≡ true
unfolding let_go teardown sigterm audit_only
let_go-returns ended now w e = ground arith
let_go-returns survived now w e = ground arith
let_go-returns broke now w e = absurd (e refl)

let_go-slot : (answer : Sigterm) (now : ℕ) (w : Work) → (let_go answer now w).1.slot ≡ w.slot
unfolding let_go teardown sigterm audit_only
let_go-slot ended now w = ground arith
let_go-slot survived now w = ground arith
let_go-slot broke now w = ground arith

-- An action that returns and leaves the slot alone.
pub keeps_at :
    {A : Type 0} (P : Slot → Type 0) (r : Result A × Work) (s : Slot)
    → is_ok r ≡ true
    → r.1.slot ≡ s
    → P s
    → Returned P r
keeps_at P (ok a, w) s e same h = subst P (sym same) h
keeps_at P (raised f, w) s e same h = cc

module _ (told : Told) where
  part_runs :
      (answer : Sigterm) (now seconds : ℕ) (b : Bool) (w : Work)
      → answer ≢ broke
      → At popped told w.slot
      → Returned (At popped told) ((if b then hold_idle seconds now else let_go answer now) w)
  unfolding hold_idle audit_only end_slot
  part_runs answer now seconds true w e k = k
  part_runs answer now seconds false w e k =
      keeps_at (At popped told) (let_go answer now w) w.slot (let_go-returns answer now w e)
        (let_go-slot answer now w) k

  pub leave_runs :
      (answer : Sigterm) (now : ℕ)
      → answer ≢ broke
      → Runs (At grace told) (leave_grace answer now) (At popped told)
  unfolding leave_grace
  leave_runs answer now e = bind_runs (move popped) _ (to_popped told) (λ _. record {
    runs = λ w k.
        let seconds = idle_seconds w.mgr.latest_keep_alive_s w.mgr.config.idle_hot_load_seconds in
        part_runs answer now seconds (ltb 0 seconds && is_some w.mgr.active_handle)
          (record w { mgr = record w.mgr { latest_keep_alive_s = none } }) e k;
  })

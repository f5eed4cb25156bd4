-- ===== src/Manager/Process/Started.antt =====
-- How `_process_slot` of src/turbohaul/manager.py gets a process, if the host answers well.
use southpaw_turbohaul.Base.{
  ℕ, ◌≡◌, ◌≢◌, refl, Bool, true, false, ◌&&◌, not, Option, none, some, String, arith, if◌then◌else◌,
  any, is_some, All,
}
use southpaw_turbohaul.Slot.{Slot, SlotState, Future, staged, loading, active, grace, popped}
use southpaw_turbohaul.Fsm.{transition}
use southpaw_turbohaul.Exec.{Exec, Result, ok, raised, continue, ◌>>=◌}
use southpaw_turbohaul.Manager.Records.{
  Handle, Work, Inputs, Sigterm, ended, survived, broke, found, Health, healthy,
}
use southpaw_turbohaul.Manager.Effects.{move, audit_slot}
use southpaw_turbohaul.Manager.Teardown.{teardown_idle_holder, sigterm}
use southpaw_turbohaul.Manager.Grace.Returns.{IsCalm}
use southpaw_turbohaul.Manager.Process.{
  is_warm, Start, ready, unhealthy, refused, adopt, inherit_from, await_health, spawned_as, spawn,
  swap_out, cold_start, start_process, refuse_gates, enter_active, enter_grace,
}

-- The action returns, and `Q` holds of its slot.
abbrev pub Returned : {A : Type 0} → (Slot → Type 0) → Result A × Work → Type 0
Returned Q (ok a, w) = Q w.slot
Returned Q (raised e, w) = true ≡ false

pub record Runs {A : Type 0} (P : Slot → Type 0) (f : Exec Work A) (Q : Slot → Type 0)
    : Type 0 where
  pub runs : (w : Work) → P w.slot → Returned Q (f w)

module _ {A B : Type 0} where
  pub bind_runs :
      {P Q R : Slot → Type 0} (f : Exec Work A) (g : A → Exec Work B)
      → Runs P f Q
      → ((a : A) → Runs Q (g a) R)
      → Runs P (f >>= g) R
  bind_runs {Q = Q} {R = R} f g rf rg = record { runs = λ w h. continued (f w) (rf.runs w h) }
    where
      continued : (r : Result A × Work) → Returned Q r → Returned R (continue g r)
      continued (ok a, w) h = (rg a).runs w h
      continued (raised e, w) h = cc

-- Whether the slot's reply is streamed by its route: it asks for it, and has both events.
abbrev pub streams : Slot → Bool
streams s = s.client_meta.stream && (is_some s.stream_ready_event && is_some s.stream_done_event)

-- What the caller was told, and whether its reply is streamed.
abbrev pub Told : Type 0
Told = Option Future × Bool

-- Where a slot stands, and what its caller was told.
abbrev pub At : SlotState → Told → Slot → Type 0
At st told s = (s.state ≡ st) × (s.completion_future ≡ told.0) × (streams s ≡ told.1)

module _ (told : Told) where
  pub to_loading : Runs (At staged told) (move loading) (At loading told)
  unfolding move transition
  to_loading = record { runs = λ w h. ground arith }

  pub to_popped : Runs (At grace told) (move popped) (At popped told)
  unfolding move transition
  to_popped = record { runs = λ w h. ground arith }

  pub to_active : (now : ℕ) → Runs (At loading told) (enter_active now) (At active told)
  unfolding enter_active move transition audit_slot
  to_active now = record { runs = λ w h. ground arith }

  pub to_grace : (now : ℕ) → Runs (At active told) (enter_grace now) (At grace told)
  unfolding enter_grace move transition audit_slot
  to_grace now = record { runs = λ w h. ground arith }

  pub audit_runs : (st : SlotState) (e : String) → Runs (At st told) (audit_slot e) (At st told)
  unfolding audit_slot
  audit_runs st e = record { runs = λ w h. h }

  -- The attempt comes back with a healthy process, and the slot is still LOADING.
  abbrev pub Starts : Result Start × Work → Type 0
  Starts (ok (ready h), w) = At loading told w.slot
  Starts (ok (unhealthy h), w) = true ≡ false
  Starts (ok refused, w) = true ≡ false
  Starts (raised e, w) = true ≡ false

  spawn-Starts :
      (spawned : Option ℕ) (outcome : Health) (w : Work)
      → is_some spawned ≡ true
      → outcome ≡ healthy
      → At loading told w.slot
      → Starts (spawn spawned outcome w)
  unfolding spawn spawned_as adopt await_health
  spawn-Starts none outcome w s h k = ground arith
  spawn-Starts (some pid) outcome w s h k = rw h k

  inherit-Starts :
      (i : Option Handle) (w : Work)
      → is_some i ≡ true
      → At loading told w.slot
      → Starts (inherit_from i w)
  unfolding inherit_from adopt audit_slot
  inherit-Starts none w s k = ground arith
  inherit-Starts (some h) w s k = k

  swap_out_runs :
      (answer : Sigterm)
      → answer ≢ broke
      → Runs (At loading told) (swap_out answer) (At loading told)
  unfolding swap_out teardown_idle_holder sigterm
  swap_out_runs ended e = record { runs = λ w k. ground arith }
  swap_out_runs survived e = record { runs = λ w k. ground arith }
  swap_out_runs broke e = absurd (e refl)

  gated-Starts :
      (i : Inputs) (w : Work) (b : Bool)
      → b ≡ false
      → is_some i.spawned ≡ true
      → i.health ≡ healthy
      → At loading told w.slot
      → Starts ((if b then refuse_gates else spawn i.spawned i.health) w)
  gated-Starts i w true e s h k = cc
  gated-Starts i w false e s h k = spawn-Starts i.spawned i.health w s h k

-- A host that answers well: a manifest, open gates, SIGTERMs that do not raise, a process that gets
-- healthy, a reply, and nobody who cancels the worker.
pub record ServesWell (i : Inputs) : Type 0 where
  pub has_manifest : i.manifest ≡ found
  pub lets_pass : any not i.gates ≡ false
  pub swaps : i.swap_sigterm ≢ broke
  pub spawns : is_some i.spawned ≡ true
  pub gets_healthy : i.health ≡ healthy
  pub stays_calm : All IsCalm i.polls
  pub stops : i.teardown_sigterm ≢ broke

cold_start-Starts :
    (told : Told) (i : Inputs) (w : Work)
    → ServesWell i
    → At loading told w.slot
    → Starts told (cold_start i w)
unfolding cold_start
cold_start-Starts told i w s k =
    swapped (swap_out i.swap_sigterm w) ((swap_out_runs told i.swap_sigterm s.swaps).runs w k)
  where
    swapped :
        (r : Result (Unit {0}) × Work)
        → Returned (At loading told) r
        → Starts told (
            continue
              (λ _. (λ w. (ok w, w)) >>= (λ w.
                (if w.mgr.config.safety_enabled && any not i.gates
                  then refuse_gates
                  else spawn i.spawned i.health)))
              r)
    swapped (ok _, w) h =
        gated-Starts told i w (w.mgr.config.safety_enabled && any not i.gates)
          (ground (arith, s.lets_pass)) s.spawns s.gets_healthy h
    swapped (raised e, w) h = cc

pub start_process-Starts :
    (told : Told) (i : Inputs) (w : Work)
    → ServesWell i
    → At loading told w.slot
    → Starts told (start_process i w)
unfolding start_process
start_process-Starts told i w s k = started (is_warm i.inherit_now w) refl
  where
    started :
        (b : Bool)
        → is_warm i.inherit_now w ≡ b
        → Starts told (if b then inherit_from w.mgr.idle_handle w else cold_start i w)
    started true warm = inherit-Starts told w.mgr.idle_handle w (ground arith) k
    started false warm = cold_start-Starts told i w s k

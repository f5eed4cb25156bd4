-- ===== src/Manager/Process/Reached.antt =====
-- Where `_process_slot` of src/turbohaul/manager.py leaves its slot when it returns.
use southpaw_turbohaul.Base.{
  ℕ, ◌≡◌, refl, Bool, true, false, ◌&&◌, not, Option, none, some, String, arith, if◌then◌else◌, ltb,
  any, is_some,
}
use southpaw_turbohaul.Slot.{Slot, Outcome, loading, loading_fail, grace, popped}
use southpaw_turbohaul.Exec.{Exec, Result, ok, raised, pure, continue, ◌>>=◌, ◌>>◌}
use southpaw_turbohaul.Manager.Records.{
  Handle, Work, Inputs, Sigterm, Completion, returned, crashed, interrupted, Health, healthy,
  timed_out, schema_mismatch,
}
use southpaw_turbohaul.Manager.Effects.{move, audit_slot, audit_only, end_slot, settle_future}
use southpaw_turbohaul.Manager.Teardown.{teardown}
use southpaw_turbohaul.Manager.Grace.{anchor_result}
use southpaw_turbohaul.Manager.KeepAlive.{idle_seconds}
use southpaw_turbohaul.Manager.Settled.{
  IsSettled, IsPopped, OnReturn, Reaches, Keeps, Keeps-bind, Reaches-first, Reaches-rest,
  move-Keeps, settle-Reaches, settle-Keeps, move-Reaches, Reaches-both, IsAside, aside-Keeps,
  bind-IsAside,
}
use southpaw_turbohaul.Manager.Grace.{anchor_end}
use southpaw_turbohaul.Manager.Process.{
  answer_anchor, hand_over, calls, fails, refuse_manifest, is_warm, Start, ready, unhealthy,
  refused, adopt, inherit_from, refuse_gates, await_health, spawned_as, spawn, swap_out, cold_start,
  start_process, fail_health, complete, enter_grace, hold_idle, let_go, leave_grace,
}

-- The slot is over: popped, and its caller told.
abbrev pub IsOver : Slot → Type 0
IsOver s = IsPopped s × IsSettled s

teardown-IsAside :
    (answer : Sigterm) (reason : String)
    → IsAside (λ w. calls (teardown answer w.slot.slot_id reason) w)
teardown-IsAside answer reason = record { aside = λ w. refl }

-- The last steps of a refusal: the slot is popped, and then its caller told.
pops_settled :
    (mid : Exec Work (Unit {0})) (o : Outcome)
    → IsAside mid
    → Reaches (move popped >> (mid >> settle_future o)) IsOver
pops_settled mid o e =
    Reaches-both (move popped >> (mid >> settle_future o))
      (Reaches-first (move popped) (λ _. mid >> settle_future o) move-Reaches
        (λ _. Keeps-bind mid (λ _. settle_future o) (aside-Keeps mid e) (λ _. settle-Keeps o)))
      (Reaches-rest (move popped) (λ _. mid >> settle_future o)
        (λ _. Reaches-rest mid (λ _. settle_future o) (λ _. settle-Reaches o)))

end-IsAside : (reason : String) → IsAside (end_slot reason)
unfolding end_slot
end-IsAside reason = record { aside = λ w. refl }

pub refuse_manifest-IsOver : Reaches refuse_manifest IsOver
unfolding refuse_manifest
refuse_manifest-IsOver = Reaches-rest (move loading) _ (λ _.
    Reaches-rest (audit_slot "stage_to_loading") _ (λ _. Reaches-rest (move loading_fail) _ (λ _.
      Reaches-rest (audit_slot "manifest_not_found") _ (λ _.
        pops_settled (end_slot "manifest_not_found") (fails "no manifest, idle holder preserved")
          (end-IsAside "manifest_not_found")))))

pub fail_health-IsOver : (answer : Sigterm) → Reaches (fail_health answer) IsOver
unfolding fail_health
fail_health-IsOver answer = Reaches-rest (move loading_fail) _ (λ _.
    Reaches-rest (audit_slot "loading_fail_health_timeout") _ (λ _.
      pops_settled (λ w. calls (teardown answer w.slot.slot_id "loading-fail-health-timeout") w)
        (fails "loading-fail-health-timeout")
        (teardown-IsAside answer "loading-fail-health-timeout")))

-- The caller is told, and a value returned.
pops_settled_returns :
    {A : Type 0} (mid : Exec Work (Unit {0})) (o : Outcome) (a : A)
    → IsAside mid
    → Reaches (move popped >> (mid >> (settle_future o >> pure a))) IsOver
pops_settled_returns {A = A} mid o a e =
    let told : Exec Work A = settle_future o >> pure a in
    Reaches-both (move popped >> (mid >> told))
      (Reaches-first (move popped) (λ _. mid >> told) move-Reaches
        (λ _.
          Keeps-bind mid (λ _. told) (aside-Keeps mid e)
            (λ _.
              Keeps-bind (settle_future o) (λ _. pure a) (settle-Keeps o)
                (λ _. record { kept = λ w h. h }))))
      (Reaches-rest (move popped) (λ _. mid >> told)
        (λ _.
          Reaches-rest mid (λ _. told)
            (λ _.
              Reaches-first (settle_future o) (λ _. pure a) (settle-Reaches o)
                (λ _. record { kept = λ w h. h }))))

refuse_gates-IsOver : Reaches refuse_gates IsOver
unfolding refuse_gates
refuse_gates-IsOver = Reaches-rest (move loading_fail) _ (λ _.
    Reaches-rest (audit_slot "safety_gate_refused") _ (λ _.
      Reaches-rest (audit_only "safety_gate_detail") _ (λ _.
        pops_settled_returns (end_slot "safety_gate_refused") (fails "safety gates refused spawn")
          refused (end-IsAside "safety_gate_refused"))))

-- An attempt that comes back refused has ended the slot.
abbrev pub OnStart : Result Start × Work → Type 0
OnStart (ok (ready h), w) = Unit {0}
OnStart (ok (unhealthy h), w) = Unit {0}
OnStart (ok refused, w) = IsOver w.slot
OnStart (raised e, w) = Unit {0}

spawn-OnStart : (pid : Option ℕ) (outcome : Health) (w : Work) → OnStart (spawn pid outcome w)
unfolding spawn spawned_as adopt await_health
spawn-OnStart none outcome w = tt
spawn-OnStart (some pid) healthy w = tt
spawn-OnStart (some pid) timed_out w = tt
spawn-OnStart (some pid) schema_mismatch w = tt

inherit-OnStart : (i : Option Handle) (w : Work) → is_some i ≡ true → OnStart (inherit_from i w)
unfolding inherit_from adopt audit_slot
inherit-OnStart none w held = ground arith
inherit-OnStart (some h) w held = tt

refused-OnStart : (r : Result Start × Work) → OnReturn IsOver r → OnStart r
refused-OnStart (ok (ready h), w) over = tt
refused-OnStart (ok (unhealthy h), w) over = tt
refused-OnStart (ok refused, w) over = over
refused-OnStart (raised e, w) over = tt

gated-OnStart :
    (i : Inputs) (w : Work) (b : Bool)
    → OnStart ((if b then refuse_gates else spawn i.spawned i.health) w)
gated-OnStart i w true = refused-OnStart (refuse_gates w) (refuse_gates-IsOver.reached w)
gated-OnStart i w false = spawn-OnStart i.spawned i.health w

cold_start-OnStart : (i : Inputs) (w : Work) → OnStart (cold_start i w)
unfolding cold_start
cold_start-OnStart i w = after_swap (swap_out i.swap_sigterm w)
  where
    after_swap :
        (r : Result (Unit {0}) × Work)
        → OnStart (
            continue
              (λ _. (λ w. (ok w, w)) >>= (λ w.
                (if w.mgr.config.safety_enabled && any not i.gates
                  then refuse_gates
                  else spawn i.spawned i.health)))
              r)
    after_swap (ok _, w) = gated-OnStart i w (w.mgr.config.safety_enabled && any not i.gates)
    after_swap (raised e, w) = tt

pub start_process-OnStart : (i : Inputs) (w : Work) → OnStart (start_process i w)
unfolding start_process
start_process-OnStart i w = started (is_warm i.inherit_now w) refl
  where
    started :
        (b : Bool)
        → is_warm i.inherit_now w ≡ b
        → OnStart (if b then inherit_from w.mgr.idle_handle w else cold_start i w)
    started true warm = inherit-OnStart w.mgr.idle_handle w (ground arith)
    started false warm = cold_start-OnStart i w

pub complete-Reaches : (s : Slot) (c : Completion) → Reaches (complete s c) IsSettled
unfolding complete
complete-Reaches s (returned r) = settle-Reaches (anchor_result s r)
complete-Reaches s crashed = record { reached = λ w. tt }
complete-Reaches s interrupted = record { reached = λ w. tt }

pub answer_anchor-Reaches : (i : Inputs) → Reaches (answer_anchor i) IsSettled
unfolding answer_anchor hand_over
answer_anchor-Reaches i =
    Reaches-rest hand_over (λ _. λ w. complete w.slot (anchor_end w.slot i.completion) w)
      (λ _. record {
        reached = λ w. (complete-Reaches w.slot (anchor_end w.slot i.completion)).reached w;
      })

pub enter_grace-Keeps : (now : ℕ) → Keeps IsSettled (enter_grace now)
unfolding enter_grace audit_slot
enter_grace-Keeps now =
    Keeps-bind (move grace) _ (move-Keeps grace) (λ _. record { kept = λ w h. h })

hold_idle-IsAside : (seconds now : ℕ) → IsAside (hold_idle seconds now)
unfolding hold_idle audit_only end_slot
hold_idle-IsAside seconds now = record { aside = λ w. refl }

let_go-IsAside : (answer : Sigterm) (now : ℕ) → IsAside (let_go answer now)
unfolding let_go audit_only
let_go-IsAside answer now =
    bind-IsAside (λ w. calls (teardown answer w.slot.slot_id "grace-expired") w) _
      (teardown-IsAside answer "grace-expired") (λ _. record { aside = λ w. refl })

-- The end of the grace window, after the slot is popped.
part-IsAside :
    (answer : Sigterm) (now seconds : ℕ) (b : Bool)
    → IsAside (if b then hold_idle seconds now else let_go answer now)
part-IsAside answer now seconds true = hold_idle-IsAside seconds now
part-IsAside answer now seconds false = let_go-IsAside answer now

pub leave_grace-Keeps : (answer : Sigterm) (now : ℕ) → Keeps IsSettled (leave_grace answer now)
unfolding leave_grace
leave_grace-Keeps answer now = Keeps-bind (move popped) _ (move-Keeps popped) (λ _.
    aside-Keeps _ (record {
      aside = λ w.
          let seconds = idle_seconds w.mgr.latest_keep_alive_s w.mgr.config.idle_hot_load_seconds in
          (part-IsAside answer now seconds (ltb 0 seconds && is_some w.mgr.active_handle)).aside
            (record w { mgr = record w.mgr { latest_keep_alive_s = none } });
    }))

pub leave_grace-Reaches : (answer : Sigterm) (now : ℕ) → Reaches (leave_grace answer now) IsPopped
unfolding leave_grace
leave_grace-Reaches answer now = Reaches-first (move popped) _ move-Reaches (λ _.
    aside-Keeps _ (record {
      aside = λ w.
          let seconds = idle_seconds w.mgr.latest_keep_alive_s w.mgr.config.idle_hot_load_seconds in
          (part-IsAside answer now seconds (ltb 0 seconds && is_some w.mgr.active_handle)).aside
            (record w { mgr = record w.mgr { latest_keep_alive_s = none } });
    }))

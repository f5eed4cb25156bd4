-- ===== src/Manager/Process/Sidecar.antt =====
-- Which llama-server processes the steps of `_process_slot` in src/turbohaul/manager.py leave.
use southpaw_turbohaul.Base.{
  ℕ, ◌+◌, ◌≡◌, refl, inl, inr, Bool, true, false, Option, none, some, if◌then◌else◌, String, arith,
  ltb, ◌&&◌, not, any, is_some,
}
use southpaw_turbohaul.Slot.{Slot, loading, loading_fail, active, popped, grace}
use southpaw_turbohaul.Exec.{pure}
use southpaw_turbohaul.Manager.Records.{
  Handle, Work, Inputs, ended, Health, healthy, timed_out, schema_mismatch, Completion, returned,
  crashed, interrupted,
}
use southpaw_turbohaul.Manager.Effects.{move, audit_slot, audit_only, end_slot, settle_future}
use southpaw_turbohaul.Manager.Teardown.{teardown, teardown_idle_holder, sigterm}
use southpaw_turbohaul.Manager.Grace.{anchor_end, anchor_result, grace_loop}
use southpaw_turbohaul.Manager.Grace.Sidecar.{grace_loop_moves}
use southpaw_turbohaul.Manager.KeepAlive.{idle_seconds}
use southpaw_turbohaul.Manager.Sidecar.{
  Sides, sides, IsEmpty, IsRunning, IsParked, IsSingle, Moves, IsQuiet, quiet_moves, bind_moves,
  then_moves, bind-IsQuiet, move-IsQuiet, audit_slot-IsQuiet, audit_only-IsQuiet, end_slot-IsQuiet,
  settle_future-IsQuiet,
}
use southpaw_turbohaul.Manager.Process.{
  calls, fails, refuse_manifest, Start, ready, unhealthy, refused, adopt, inherit_from,
  refuse_gates, await_health, spawned_as, spawn, swap_out, cold_start, fail_health, complete,
  enter_active, hand_over, answer_anchor, enter_grace, hold_idle, let_go, leave_grace,
  serve_request, with_process,
}

pub refuse_manifest-IsQuiet : IsQuiet refuse_manifest
unfolding refuse_manifest
refuse_manifest-IsQuiet = bind-IsQuiet (move loading) _ (move-IsQuiet loading) (λ _.
    bind-IsQuiet (audit_slot "stage_to_loading") _ (audit_slot-IsQuiet "stage_to_loading") (λ _.
      bind-IsQuiet (move loading_fail) _ (move-IsQuiet loading_fail) (λ _.
        bind-IsQuiet (audit_slot "manifest_not_found") _ (audit_slot-IsQuiet "manifest_not_found")
          (λ _. bind-IsQuiet (move popped) _ (move-IsQuiet popped) (λ _.
            bind-IsQuiet (end_slot "manifest_not_found") _ (end_slot-IsQuiet "manifest_not_found")
              (λ _. settle_future-IsQuiet (fails "no manifest, idle holder preserved")))))))

refuse_gates-IsQuiet : IsQuiet refuse_gates
unfolding refuse_gates
refuse_gates-IsQuiet = bind-IsQuiet (move loading_fail) _ (move-IsQuiet loading_fail) (λ _.
    bind-IsQuiet (audit_slot "safety_gate_refused") _ (audit_slot-IsQuiet "safety_gate_refused")
      (λ _.
        bind-IsQuiet (audit_only "safety_gate_detail") _ (audit_only-IsQuiet "safety_gate_detail")
          (λ _. bind-IsQuiet (move popped) _ (move-IsQuiet popped) (λ _.
            bind-IsQuiet (end_slot "safety_gate_refused") _ (end_slot-IsQuiet "safety_gate_refused")
              (λ _.
                bind-IsQuiet (settle_future (fails "safety gates refused spawn"))
                  (λ _. pure refused) (settle_future-IsQuiet (fails "safety gates refused spawn"))
                  (λ _. record { still = λ w. refl }))))))

-- The spawned process, or the holder's, becomes the active handle's.
spawn_moves : (pid : Option ℕ) (outcome : Health) → Moves IsEmpty (spawn pid outcome) IsRunning
unfolding spawn spawned_as adopt await_health
spawn_moves none outcome = record { at = λ w k. ground arith }
spawn_moves (some pid) healthy = record { at = λ w k. ground arith }
spawn_moves (some pid) timed_out = record { at = λ w k. ground arith }
spawn_moves (some pid) schema_mismatch = record { at = λ w k. ground arith }

pub inherit_moves :
    (i : Option Handle) (w : Work)
    → i ≡ w.mgr.idle_handle
    → is_some i ≡ true
    → IsParked (sides w.mgr)
    → IsRunning (sides (inherit_from i w).1.mgr)
unfolding inherit_from adopt audit_slot
inherit_moves none w e held k = ground arith
inherit_moves (some h) w e held k = ground arith

swap_out_moves : Moves IsParked (swap_out ended) IsEmpty
unfolding swap_out teardown_idle_holder sigterm
swap_out_moves = record { at = λ w k. ground arith }

teardown_moves : (id reason : String) → Moves IsRunning (calls (teardown ended id reason)) IsEmpty
unfolding teardown sigterm
teardown_moves id reason = record { at = λ w k. ground arith }

pub cold_start_moves :
    (i : Inputs) → i.swap_sigterm ≡ ended → Moves IsParked (cold_start i) IsRunning
unfolding cold_start
cold_start_moves i e =
    bind_moves {Q = IsEmpty} (swap_out i.swap_sigterm) _ (rw e swap_out_moves)
      (λ _. record { at = λ w k. guarded w (w.mgr.config.safety_enabled && any not i.gates) k })
      (λ s k. ground arith)
  where
    guarded :
        (w : Work) (b : Bool)
        → IsEmpty (sides w.mgr)
        → IsRunning (sides ((if b then refuse_gates else spawn i.spawned i.health) w).1.mgr)
    guarded w true k = (quiet_moves {P = IsRunning} refuse_gates-IsQuiet).at w (ground arith)
    guarded w false k = (spawn_moves i.spawned i.health).at w k

IsEmpty-IsRunning : (s : Sides) → IsEmpty s → IsRunning s
IsEmpty-IsRunning s k = ground arith

fail_health_moves : Moves IsRunning (fail_health ended) IsRunning
unfolding fail_health
fail_health_moves =
    then_moves (move loading_fail) _ (move-IsQuiet loading_fail)
      (λ _.
        then_moves (audit_slot "loading_fail_health_timeout") _
          (audit_slot-IsQuiet "loading_fail_health_timeout")
          (λ _.
            then_moves (move popped) _ (move-IsQuiet popped)
              (λ _.
                bind_moves {Q = IsEmpty}
                  (λ w. calls (teardown ended w.slot.slot_id "loading-fail-health-timeout") w)
                  (λ _. settle_future (fails "loading-fail-health-timeout"))
                  (record {
                    at = λ w. (teardown_moves w.slot.slot_id "loading-fail-health-timeout").at w;
                  })
                  (λ _. record {
                    at = λ w k. IsEmpty-IsRunning _ (
                        (quiet_moves {P = IsEmpty}
                            (settle_future-IsQuiet (fails "loading-fail-health-timeout"))).at
                          w k);
                  })
                  IsEmpty-IsRunning)
              (λ s k. k))
          (λ s k. k))
      (λ s k. k)

complete-IsQuiet : (s : Slot) (c : Completion) → IsQuiet (complete s c)
unfolding complete
complete-IsQuiet s (returned r) = settle_future-IsQuiet (anchor_result s r)
complete-IsQuiet s crashed = record { still = λ w. refl }
complete-IsQuiet s interrupted = record { still = λ w. refl }

enter_active-IsQuiet : (now : ℕ) → IsQuiet (enter_active now)
unfolding enter_active audit_slot
enter_active-IsQuiet now =
    bind-IsQuiet (move active) _ (move-IsQuiet active) (λ _. record { still = λ w. refl })

answer_anchor-IsQuiet : (i : Inputs) → IsQuiet (answer_anchor i)
unfolding answer_anchor hand_over
answer_anchor-IsQuiet i =
    bind-IsQuiet hand_over (λ _. λ w. complete w.slot (anchor_end w.slot i.completion) w)
      (record { still = λ w. refl })
      (λ _. record {
        still = λ w. (complete-IsQuiet w.slot (anchor_end w.slot i.completion)).still w;
      })

enter_grace-IsQuiet : (now : ℕ) → IsQuiet (enter_grace now)
unfolding enter_grace audit_slot
enter_grace-IsQuiet now =
    bind-IsQuiet (move grace) _ (move-IsQuiet grace) (λ _. record { still = λ w. refl })

let_go_moves : (now : ℕ) → Moves IsRunning (let_go ended now) IsSingle
unfolding let_go audit_only
let_go_moves now =
    bind_moves {Q = IsEmpty} (λ w. calls (teardown ended w.slot.slot_id "grace-expired") w) _
      (record { at = λ w. (teardown_moves w.slot.slot_id "grace-expired").at w })
      (λ _. record { at = λ w k. inl (IsEmpty-IsRunning _ k) }) (λ s k. inl (IsEmpty-IsRunning s k))

hold_idle_moves : (seconds now : ℕ) → Moves IsRunning (hold_idle seconds now) IsSingle
unfolding hold_idle audit_only end_slot
hold_idle_moves seconds now = record { at = λ w k. inr (inr (refl, k.1)) }

leave_grace_moves : (now : ℕ) → Moves IsRunning (leave_grace ended now) IsSingle
unfolding leave_grace
leave_grace_moves now =
    then_moves (move popped) _ (move-IsQuiet popped)
      (λ _. record {
        at = λ w k.
            let seconds =
              idle_seconds w.mgr.latest_keep_alive_s w.mgr.config.idle_hot_load_seconds in
            parted seconds (record w { mgr = record w.mgr { latest_keep_alive_s = none } })
              (ltb 0 seconds && is_some w.mgr.active_handle) k;
      })
      (λ s k. inl k)
  where
    parted :
        (seconds : ℕ) (w : Work) (b : Bool)
        → IsRunning (sides w.mgr)
        → IsSingle (sides ((if b then hold_idle seconds now else let_go ended now) w).1.mgr)
    parted seconds w true k = (hold_idle_moves seconds now).at w k
    parted seconds w false k = (let_go_moves now).at w k

module _ (hexdigest : String → String) where
  serve_request_moves :
      (i : Inputs) (h : Handle)
      → i.teardown_sigterm ≡ ended
      → Moves IsRunning (serve_request hexdigest i h) IsSingle
  unfolding serve_request
  serve_request_moves i h e =
      then_moves (enter_active i.active_now) _ (enter_active-IsQuiet i.active_now)
        (λ _.
          then_moves (answer_anchor i) _ (answer_anchor-IsQuiet i)
            (λ _.
              then_moves (enter_grace i.grace_now) _ (enter_grace-IsQuiet i.grace_now)
                (λ _.
                  bind_moves {Q = IsRunning}
                    (λ w.
                      grace_loop hexdigest i.teardown_sigterm h i.polls
                        (i.grace_now + w.mgr.config.grace_seconds) w)
                    _
                    (record {
                      at = λ w. rw e (
                          (grace_loop_moves hexdigest h i.polls
                              (i.grace_now + w.mgr.config.grace_seconds)).at
                            w);
                    })
                    (λ _. rw e (leave_grace_moves i.idle_now)) (λ s k. inl k))
                (λ s k. inl k))
            (λ s k. inl k))
        (λ s k. inl k)

  pub with_process_moves :
      (i : Inputs) (out : Start)
      → i.teardown_sigterm ≡ ended
      → Moves IsRunning (with_process hexdigest i out) IsSingle
  unfolding with_process
  with_process_moves i (ready h) e = serve_request_moves i h e
  with_process_moves i (unhealthy h) e = record {
    at = λ w k. inl (rw e (fail_health_moves.at w k));
  }
  with_process_moves i refused e = record { at = λ w k. inl k }

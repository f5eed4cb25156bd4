-- ===== src/Manager/Process/Single.antt =====
-- `_process_slot` of src/turbohaul/manager.py as a whole: which process it leaves.
use southpaw_turbohaul.Base.{
  ◌≡◌, refl, inl, inr, Bool, true, false, none, some, if◌then◌else◌, String, arith,
}
use southpaw_turbohaul.Slot.{loading}
use southpaw_turbohaul.Exec.{ok, ◌>>=◌, ◌>>◌}
use southpaw_turbohaul.Manager.Records.{
  Handle, Manager, Work, Inputs, Sigterm, ended, survived, broke, ManifestRead, found, missing,
  broken,
}
use southpaw_turbohaul.Manager.Effects.{move, audit_slot}
use southpaw_turbohaul.Manager.Sidecar.{
  sides, IsRunning, IsParked, IsSingle, Moves, quiet_moves, bind_moves, then_moves, move-IsQuiet,
  audit_slot-IsQuiet,
}
use southpaw_turbohaul.Manager.Process.{
  holder_at_risk, refuse_manifest, is_warm, ready, adopt, inherit_from, cold_start, start_process,
  with_process, process_body, guarded_body, is_held, reap, process_slot,
}
use southpaw_turbohaul.Manager.Process.Sidecar.{
  refuse_manifest-IsQuiet, inherit_moves, cold_start_moves, with_process_moves,
}

start_process_moves :
    (i : Inputs) → i.swap_sigterm ≡ ended → Moves IsParked (start_process i) IsRunning
unfolding start_process
start_process_moves i e = record { at = λ w k. started w (is_warm i.inherit_now w) refl k }
  where
    started :
        (w : Work) (b : Bool)
        → is_warm i.inherit_now w ≡ b
        → IsParked (sides w.mgr)
        → IsRunning (sides ((if b then inherit_from w.mgr.idle_handle w else cold_start i w)).1.mgr)
    started w true warm k = inherit_moves w.mgr.idle_handle w refl (ground arith) k
    started w false warm k = (cold_start_moves i e).at w k

-- After a single process, the handle is reaped or handed on.
reap-IsParked :
    (answer : Sigterm) (m : Manager)
    → answer ≡ ended
    → IsSingle (sides m)
    → IsParked (sides (reap answer m.active_handle m))
unfolding reap is_held
reap-IsParked ended m e k = ground arith
reap-IsParked survived m e k = ground arith
reap-IsParked broke m e k = ground arith

module _ (hexdigest : String → String) where
  body_moves :
      (i : Inputs)
      → i.swap_sigterm ≡ ended
      → i.teardown_sigterm ≡ ended
      → Moves IsParked (process_body hexdigest i) IsSingle
  unfolding process_body
  body_moves i es et = record { at = λ w k. guarded w (holder_at_risk i.manifest w) k }
    where
      attempt :
          Moves IsParked
            (do
              move loading
              audit_slot "stage_to_loading"
              started ← start_process i
              with_process hexdigest i started)
            IsSingle
      attempt =
          then_moves (move loading) _ (move-IsQuiet loading)
            (λ _.
              then_moves (audit_slot "stage_to_loading") _ (audit_slot-IsQuiet "stage_to_loading")
                (λ _.
                  bind_moves {Q = IsRunning} (start_process i) _ (start_process_moves i es)
                    (λ out. with_process_moves hexdigest i out et) (λ s k. inl k))
                (λ s k. inr (inl k)))
            (λ s k. inr (inl k))

      guarded :
          (w : Work) (b : Bool)
          → IsParked (sides w.mgr)
          → IsSingle (
              sides
                (if b
                  then refuse_manifest w
                  else (do
                    move loading
                    audit_slot "stage_to_loading"
                    started ← start_process i
                    with_process hexdigest i started)
                      w).1.mgr)
      guarded w true k = inr (inl ((quiet_moves {P = IsParked} refuse_manifest-IsQuiet).at w k))
      guarded w false k = attempt.at w k

  guarded_moves :
      (i : Inputs) (read : ManifestRead)
      → i.swap_sigterm ≡ ended
      → i.teardown_sigterm ≡ ended
      → Moves IsParked (guarded_body hexdigest i read) IsSingle
  unfolding guarded_body
  guarded_moves i broken es et = record { at = λ w k. inr (inl k) }
  guarded_moves i found es et = body_moves i es et
  guarded_moves i missing es et = body_moves i es et

  -- `_process_slot` starts with at most one llama-server alive, the idle holder's. If each SIGTERM
  -- that it sends ends its process, it leaves the manager so again, whatever else the host answers
  -- and however the method ends: one process at most, and it is the idle holder's.
  pub process_slot-IsParked :
      (i : Inputs) (w : Work)
      → i.swap_sigterm ≡ ended
      → i.teardown_sigterm ≡ ended
      → i.final_sigterm ≡ ended
      → IsParked (sides w.mgr)
      → IsParked (sides (process_slot hexdigest i w).1.mgr)
  unfolding process_slot
  process_slot-IsParked i w es et ef k =
      let w0 : Work = record w {
        mgr = record w.mgr { active_slot = some w.slot.slot_id; latest_keep_alive_s = none };
      } in
      reap-IsParked i.final_sigterm (guarded_body hexdigest i i.manifest w0).1.mgr ef
        ((guarded_moves i i.manifest es et).at w0 k)

-- An open idle window of the slot's model gives the slot the holder's process: nothing is
-- spawned or stopped, the handle moves from the holder to the active one, and the slot has its pid.
start_process-warm :
    (i : Inputs) (w : Work) (h : Handle)
    → is_warm i.inherit_now w ≡ true
    → w.mgr.idle_handle ≡ some h
    → ((start_process i w).0 ≡ ok (ready h))
      × ((sides (start_process i w).1.mgr ≡ (some h, (none, w.mgr.alive)))
          × ((start_process i w).1.slot.pid ≡ some h.pid))
unfolding start_process inherit_from adopt audit_slot
start_process-warm i w h warm held = rw (warm, held) (refl, (refl, refl))

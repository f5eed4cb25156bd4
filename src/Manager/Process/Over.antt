-- ===== src/Manager/Process/Over.antt =====
-- `_process_slot` of src/turbohaul/manager.py as a whole: where it leaves its slot.
use southpaw_turbohaul.Base.{◌+◌, Bool, true, false, none, some, String, if◌then◌else◌}
use southpaw_turbohaul.Slot.{loading}
use southpaw_turbohaul.Exec.{Exec, Result, ok, raised, ◌>>=◌, ◌>>◌, continue}
use southpaw_turbohaul.Manager.Records.{
  Handle, Manager, Work, Inputs, ManifestRead, found, missing, broken,
}
use southpaw_turbohaul.Manager.Effects.{move, audit_slot}
use southpaw_turbohaul.Manager.Grace.{grace_loop}
use southpaw_turbohaul.Manager.Grace.Aside.{grace_loop-IsAside}
use southpaw_turbohaul.Manager.Settled.{
  OnReturn, Reaches, Keeps-bind, Reaches-first, Reaches-rest, Reaches-both, IsAside, aside-Keeps,
}
use southpaw_turbohaul.Manager.Process.{
  holder_at_risk, refuse_manifest, Start, ready, unhealthy, refused, start_process, enter_active,
  answer_anchor, enter_grace, serve_request, with_process, process_body, guarded_body, process_slot,
}
use southpaw_turbohaul.Manager.Process.Reached.{
  IsOver, OnStart, refuse_manifest-IsOver, fail_health-IsOver, start_process-OnStart,
  answer_anchor-Reaches, enter_grace-Keeps, leave_grace-Keeps, leave_grace-Reaches,
}

module _ (hexdigest : String → String) where
  -- The grace loop with the deadline that the configuration gives.
  abbrev window : Inputs → Handle → Exec Work (Unit {0})
  window i h w =
      grace_loop hexdigest i.teardown_sigterm h i.polls (i.grace_now + w.mgr.config.grace_seconds) w

  window-IsAside : (i : Inputs) (h : Handle) → IsAside (window i h)
  window-IsAside i h = record {
    aside = λ w.
        (grace_loop-IsAside hexdigest i.teardown_sigterm h i.polls
            (i.grace_now + w.mgr.config.grace_seconds)).aside
          w;
  }

  serve_request-IsOver : (i : Inputs) (h : Handle) → Reaches (serve_request hexdigest i h) IsOver
  unfolding serve_request
  serve_request-IsOver i h =
      Reaches-both _
        (Reaches-rest (enter_active i.active_now) _ (λ _. Reaches-rest (answer_anchor i) _ (λ _.
          Reaches-rest (enter_grace i.grace_now) _ (λ _.
            Reaches-rest (window i h) _ (λ _. leave_grace-Reaches i.teardown_sigterm i.idle_now)))))
        (Reaches-rest (enter_active i.active_now) _ (λ _.
          Reaches-first (answer_anchor i) _ (answer_anchor-Reaches i) (λ _.
            Keeps-bind (enter_grace i.grace_now) _ (enter_grace-Keeps i.grace_now) (λ _.
              Keeps-bind (window i h) _ (aside-Keeps (window i h) (window-IsAside i h))
                (λ _. leave_grace-Keeps i.teardown_sigterm i.idle_now)))))

  attempted :
      (i : Inputs) (r : Result Start × Work)
      → OnStart r
      → OnReturn IsOver (continue (with_process hexdigest i) r)
  unfolding with_process
  attempted i (ok (ready h), w) k = (serve_request-IsOver i h).reached w
  attempted i (ok (unhealthy h), w) k = (fail_health-IsOver i.teardown_sigterm).reached w
  attempted i (ok refused, w) k = k
  attempted i (raised e, w) k = tt

  body-IsOver : (i : Inputs) → Reaches (process_body hexdigest i) IsOver
  unfolding process_body
  body-IsOver i = record { reached = λ w. guarded w (holder_at_risk i.manifest w) }
    where
      begun : Reaches (start_process i >>= with_process hexdigest i) IsOver
      begun = record { reached = λ w. attempted i (start_process i w) (start_process-OnStart i w) }

      attempt :
          Reaches
            (do
              move loading
              audit_slot "stage_to_loading"
              started ← start_process i
              with_process hexdigest i started)
            IsOver
      attempt =
          Reaches-rest (move loading) _
            (λ _. Reaches-rest (audit_slot "stage_to_loading") _ (λ _. begun))

      guarded :
          (w : Work) (b : Bool)
          → OnReturn IsOver (
              if b
              then refuse_manifest w
              else (do
                move loading
                audit_slot "stage_to_loading"
                started ← start_process i
                with_process hexdigest i started)
                  w)
      guarded w true = refuse_manifest-IsOver.reached w
      guarded w false = attempt.reached w

  guarded-IsOver :
      (i : Inputs) (read : ManifestRead) → Reaches (guarded_body hexdigest i read) IsOver
  unfolding guarded_body
  guarded-IsOver i broken = record { reached = λ w. tt }
  guarded-IsOver i found = body-IsOver i
  guarded-IsOver i missing = body-IsOver i

  reaped :
      (r : Result (Unit {0})) (w : Work) (m : Manager)
      → OnReturn IsOver (r, w)
      → OnReturn IsOver (r, record w { mgr = m })
  reaped (ok _) w m k = k
  reaped (raised e) w m k = k

  -- Whenever `_process_slot` returns, served or refused, its slot is POPPED and the caller that
  -- waits for it has been told.
  pub process_slot-IsOver : (i : Inputs) → Reaches (process_slot hexdigest i) IsOver
  unfolding process_slot
  process_slot-IsOver i = record {
    reached = λ w.
        let w0 : Work = record w {
          mgr = record w.mgr { active_slot = some w.slot.slot_id; latest_keep_alive_s = none };
        } in
        let out = guarded_body hexdigest i i.manifest w0 in
        reaped out.0 out.1 _ ((guarded-IsOver i i.manifest).reached w0);
  }

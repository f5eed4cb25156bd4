-- ===== src/Manager/Process/Served.antt =====
-- When `_process_slot` of src/turbohaul/manager.py serves its slot to the end.
use southpaw_turbohaul.Base.{
  ◌+◌, ◌≡◌, refl, sym, subst, Bool, true, false, Option, none, some, String, arith, All,
}
use southpaw_turbohaul.Slot.{
  Slot, Future, pending, done, completed, streamed, staged, loading, active, grace, popped,
}
use southpaw_turbohaul.Exec.{Exec, Result, ok, raised, continue, ◌>>=◌, ◌>>◌}
use southpaw_turbohaul.Manager.Records.{
  Handle, Work, Inputs, found, missing, broken, ManifestRead, returned,
}
use southpaw_turbohaul.Manager.Effects.{move, audit_slot, settle_future, resolve}
use southpaw_turbohaul.Manager.Grace.{handed, anchor_end, anchor_result, grace_loop}
use southpaw_turbohaul.Manager.Grace.Aside.{grace_loop-IsAside}
use southpaw_turbohaul.Manager.Grace.Returns.{IsCalm, grace_loop-returns}
use southpaw_turbohaul.Manager.Process.{
  Start, ready, unhealthy, refused, start_process, complete, enter_active, hand_over, answer_anchor,
  enter_grace, leave_grace, serve_request, with_process, process_body, guarded_body, process_slot,
}
use southpaw_turbohaul.Manager.Process.Started.{
  Returned, Runs, bind_runs, streams, Told, At, to_loading, to_active, to_grace, audit_runs, Starts,
  ServesWell, start_process-Starts,
}
use southpaw_turbohaul.Manager.Process.Leaving.{keeps_at, leave_runs}

-- The caller of a streaming slot knows that it was streamed; any other has the reply itself.
abbrev pub IsReply : String → Bool → Option Future → Type 0
IsReply r true told = told ≡ some (done streamed)
IsReply r false told = told ≡ some (done (completed r))

-- The slot is over, and its caller has a reply.
abbrev pub IsServed : String → Bool → Slot → Type 0
IsServed r streaming s = (s.state ≡ popped) × IsReply r streaming s.completion_future

anchor_end-returned : (s : Slot) (r : String) → anchor_end s (returned r) ≡ returned r
anchor_end-returned s r = ground arith

settle-IsReply :
    (r : String) (w : Work) (b : Bool)
    → At active (some pending, b) w.slot
    → Returned
        (λ s. (told : Option Future) × IsReply r b told × At active (told, b) s)
        (settle_future (anchor_result w.slot r) w)
unfolding settle_future resolve
settle-IsReply r w b (st, wait, mode) =
    rw wait (some (done (anchor_result w.slot r)), told_by b mode, (st, refl, mode))
  where
    told_by : (b : Bool) → streams w.slot ≡ b → IsReply r b (some (done (anchor_result w.slot r)))
    told_by true mode = rw mode refl
    told_by false mode = rw mode refl

answer-IsReply :
    (r : String) (i : Inputs) (w : Work) (b : Bool)
    → i.completion ≡ returned r
    → At active (some pending, b) w.slot
    → Returned
        (λ s. (told : Option Future) × IsReply r b told × At active (told, b) s)
        (answer_anchor i w)
unfolding answer_anchor hand_over complete
answer-IsReply r i w b e k =
    rw (e, anchor_end-returned (handed w.slot) r)
      (settle-IsReply r (record w { slot = handed w.slot }) b k)

module _ (hexdigest : String → String) where
  window_runs :
      (told : Told) (i : Inputs) (h : Handle)
      → All IsCalm i.polls
      → Runs
          (At grace told)
          (λ w.
            grace_loop hexdigest i.teardown_sigterm h i.polls
              (i.grace_now + w.mgr.config.grace_seconds)
              w)
          (At grace told)
  window_runs told i h calm = record {
    runs = λ w k.
        let deadline = i.grace_now + w.mgr.config.grace_seconds in
        keeps_at (At grace told) (grace_loop hexdigest i.teardown_sigterm h i.polls deadline w)
          w.slot (grace_loop-returns hexdigest i.teardown_sigterm h i.polls deadline w calm)
          ((grace_loop-IsAside hexdigest i.teardown_sigterm h i.polls deadline).aside w) k;
  }

  -- What follows the anchor's own request.
  abbrev aftermath : Inputs → Handle → Exec Work (Unit {0})
  aftermath i h = do
    enter_grace i.grace_now
    (λ w.
        grace_loop hexdigest i.teardown_sigterm h i.polls (i.grace_now + w.mgr.config.grace_seconds)
          w)
    leave_grace i.teardown_sigterm i.idle_now

  aftermath_runs :
      (told : Told) (i : Inputs) (h : Handle)
      → ServesWell i
      → Runs (At active told) (aftermath i h) (At popped told)
  aftermath_runs told i h s =
      bind_runs (enter_grace i.grace_now) _ (to_grace told i.grace_now) (λ _.
        bind_runs _ _ (window_runs told i h s.stays_calm)
          (λ _. leave_runs told i.teardown_sigterm i.idle_now s.stops))

  replied :
      (r : String) (b : Bool) (i : Inputs) (h : Handle) (out : Result (Unit {0}) × Work)
      → ServesWell i
      → Returned (λ s. (told : Option Future) × IsReply r b told × At active (told, b) s) out
      → Returned (IsServed r b) (continue (λ _. aftermath i h) out)
  replied r b i h (ok _, w) s (told, reply, k) =
      popped_served (aftermath i h w) ((aftermath_runs (told, b) i h s).runs w k)
    where
      popped_served :
          (o : Result (Unit {0}) × Work)
          → Returned (At popped (told, b)) o
          → Returned (IsServed r b) o
      popped_served (ok _, w) (st, e, _) = (st, subst (IsReply r b) (sym e) reply)
      popped_served (raised e, w) k = k
  replied r b i h (raised e, w) s k = k

  serve_runs :
      (r : String) (b : Bool) (i : Inputs) (h : Handle)
      → ServesWell i
      → i.completion ≡ returned r
      → Runs (At loading (some pending, b)) (serve_request hexdigest i h) (IsServed r b)
  unfolding serve_request
  serve_runs r b i h s e =
      bind_runs (enter_active i.active_now) _ (to_active (some pending, b) i.active_now) (λ _.
        record { runs = λ w k. replied r b i h (answer_anchor i w) s (answer-IsReply r i w b e k) })

  started-IsServed :
      (r : String) (b : Bool) (i : Inputs) (out : Result Start × Work)
      → ServesWell i
      → i.completion ≡ returned r
      → Starts (some pending, b) out
      → Returned (IsServed r b) (continue (with_process hexdigest i) out)
  unfolding with_process
  started-IsServed r b i (ok (ready h), w) s e k = (serve_runs r b i h s e).runs w k
  started-IsServed r b i (ok (unhealthy h), w) s e k = cc
  started-IsServed r b i (ok refused, w) s e k = cc
  started-IsServed r b i (raised f, w) s e k = k

  body_runs :
      (r : String) (b : Bool) (i : Inputs)
      → ServesWell i
      → i.completion ≡ returned r
      → Runs (At staged (some pending, b)) (process_body hexdigest i) (IsServed r b)
  unfolding process_body
  body_runs r b i s e = record { runs = λ w k. rw (s.has_manifest) (attempt.runs w k) }
    where
      begun :
          Runs
            (At loading (some pending, b))
            (start_process i >>= with_process hexdigest i)
            (IsServed r b)
      begun = record {
        runs = λ w k.
            started-IsServed r b i (start_process i w) s e
              (start_process-Starts (some pending, b) i w s k);
      }

      attempt :
          Runs
            (At staged (some pending, b))
            (do
              move loading
              audit_slot "stage_to_loading"
              started ← start_process i
              with_process hexdigest i started)
            (IsServed r b)
      attempt = bind_runs (move loading) _ (to_loading (some pending, b)) (λ _.
          bind_runs (audit_slot "stage_to_loading") _
            (audit_runs (some pending, b) loading "stage_to_loading") (λ _. begun))

  guarded_runs :
      (r : String) (b : Bool) (i : Inputs) (read : ManifestRead)
      → read ≡ found
      → ServesWell i
      → i.completion ≡ returned r
      → Runs (At staged (some pending, b)) (guarded_body hexdigest i read) (IsServed r b)
  unfolding guarded_body
  guarded_runs r b i found known s e = body_runs r b i s e
  guarded_runs r b i missing known s e = absurd (ground arith)
  guarded_runs r b i broken known s e = absurd (ground arith)

  ok-IsServed :
      (r : String) (b : Bool) (out : Result (Unit {0})) (w : Work)
      → Returned (IsServed r b) (out, w)
      → (out ≡ ok tt) × IsServed r b w.slot
  ok-IsServed r b (ok _) w k = (refl, k)
  ok-IsServed r b (raised f) w k = cc

  -- If the host answers well and the request ends with the reply `r`, `_process_slot` returns for a
  -- STAGED slot whose caller waits, warm or cold start, whatever follow-ups its grace window serves:
  -- the slot is POPPED; its caller has `r` if the slot does not stream, and otherwise knows that its
  -- stream is drained. A slot streams if it asks for it and has both of its events.
  pub process_slot-serves :
      (i : Inputs) (w : Work) (r : String)
      → ServesWell i
      → i.completion ≡ returned r
      → w.slot.state ≡ staged
      → w.slot.completion_future ≡ some pending
      → ((process_slot hexdigest i w).0 ≡ ok tt)
        × IsServed r (streams w.slot) (process_slot hexdigest i w).1.slot
  unfolding process_slot
  process_slot-serves i w r s e st wait =
      let w0 : Work = record w {
        mgr = record w.mgr { active_slot = some w.slot.slot_id; latest_keep_alive_s = none };
      } in
      let out = guarded_body hexdigest i i.manifest w0 in
      ok-IsServed r (streams w.slot) out.0 out.1
        ((guarded_runs r (streams w.slot) i i.manifest s.has_manifest s e).runs w0 (st, wait, refl))

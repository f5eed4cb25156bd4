-- ===== src/Manager/Grace/Sidecar.antt =====
-- What the grace loop of src/turbohaul/manager.py does to processes and handles.
use southpaw_turbohaul.Base.{
  ℕ, ◌≡◌, ◌∙◌, refl, sym, subst, Bool, true, false, Option, none, some, List, [], ◌∷◌,
  if◌then◌else◌, String, arith, ltb, ◌&&◌, not,
}
use southpaw_turbohaul.Slot.{
  Slot, active, active_match, grace, popped, invalid_transition, failed, cancelled,
}
use southpaw_turbohaul.Fsm.{Transition, moved, transition}
use southpaw_turbohaul.Fsm
use southpaw_turbohaul.Queue.{Result, ok, err, enqueue, enqueue_head, pop_matched_thread}
use southpaw_turbohaul.Queue
use southpaw_turbohaul.Exec.{pure, ◌>>=◌}
use southpaw_turbohaul.Manager.Records.{
  Handle, Manager, Work, Poll, ended, Submission, returned, crashed, interrupted, Completion,
}
use southpaw_turbohaul.Manager.Effects.{resolve, audit, on_mgr}
use southpaw_turbohaul.Manager.Submit.{submit, submit_all}
use southpaw_turbohaul.Manager.Teardown.{force_cold}
use southpaw_turbohaul.Manager.Sidecar.{
  sides, IsRunning, Moves, IsQuiet, bind_moves, bind-IsQuiet, resolve_still,
}
use southpaw_turbohaul.Manager.Grace.{
  Promotion, promoted, parked, park, promote_active, promote_match, promote, extend, lands,
  close_matched, cancel_matched, settle_matched, complete_matched, serve_promotion, serve_matched,
  handed, round, round_with, grace_loop, goes, crash, matched_end, warmed, matched_result,
}

goes-IsQuiet : (t : Transition) → IsQuiet (goes t)
goes-IsQuiet (moved s) = record { still = λ w. refl }
goes-IsQuiet Fsm.Transition.invalid_transition = record { still = λ w. refl }

extend-IsQuiet : (s : Slot) (p : Poll) (deadline : ℕ) → IsQuiet (extend s p deadline)
unfolding extend
extend-IsQuiet s p deadline = record { still = λ w. ground arith }

lands-IsQuiet : (b : Bool) (s : Slot) (p : Poll) (deadline : ℕ) → IsQuiet (lands b s p deadline)
lands-IsQuiet true s p deadline =
    bind-IsQuiet (on_mgr (audit s "active_match_to_grace")) (λ _. extend s p deadline)
      (record { still = λ w. refl }) (λ _. extend-IsQuiet s p deadline)
lands-IsQuiet false s p deadline = record { still = λ w. refl }

close-IsQuiet :
    (b : Bool) (s : Slot) (p : Poll) (deadline : ℕ) → IsQuiet (close_matched b s p deadline)
unfolding close_matched
close-IsQuiet b s p deadline =
    bind-IsQuiet (goes (transition s grace)) _ (goes-IsQuiet _) (λ in_grace.
      bind-IsQuiet (lands b in_grace p deadline) _ (lands-IsQuiet b in_grace p deadline) (λ landed.
        bind-IsQuiet (goes (transition landed.0 popped)) _ (goes-IsQuiet _)
          (λ out. record { still = λ w. refl })))

complete-IsQuiet :
    (s : Slot) (p : Poll) (deadline : ℕ) (c : Completion)
    → IsQuiet (complete_matched s p deadline c)
unfolding complete_matched settle_matched cancel_matched
complete-IsQuiet s p deadline (returned r) = record {
  still = λ w.
      (close-IsQuiet true (resolve s (matched_result s r) w.mgr).0 p deadline).still
        (record w { mgr = (resolve s (matched_result s r) w.mgr).1 })
      ∙ resolve_still s (matched_result s r) w.mgr;
}
complete-IsQuiet s p deadline crashed = record {
  still = λ w.
      (close-IsQuiet false (resolve s (failed crash) w.mgr).0 p deadline).still
        (record w { mgr = (resolve s (failed crash) w.mgr).1 })
      ∙ resolve_still s (failed crash) w.mgr;
}
complete-IsQuiet s p deadline interrupted = record {
  still = λ w. resolve_still s (failed cancelled) w.mgr;
}

-- Where a promotion leaves the manager.
abbrev after : Promotion → Manager
after (promoted s m) = m
after (parked m) = m

force_cold-IsRunning :
    (reason : String) (s : Slot) (m : Manager)
    → IsRunning (sides m)
    → IsRunning (sides (force_cold ended reason s m).1)
unfolding force_cold
force_cold-IsRunning reason s m h = ground arith

park-IsRunning :
    (s : Slot) (m : Manager) → IsRunning (sides m) → IsRunning (sides (after (park ended s m)))
unfolding park
park-IsRunning s m h =
    force_cold-IsRunning _ (resolve s (failed invalid_transition) m).0 _
      (subst IsRunning (sym (resolve_still s (failed invalid_transition) m)) h)

promote_active-IsRunning :
    (s : Slot) (m : Manager) (t : Transition)
    → IsRunning (sides m)
    → IsRunning (sides (after (promote_active ended s m t)))
unfolding promote_active
promote_active-IsRunning s m (moved s') h = h
promote_active-IsRunning s m Fsm.Transition.invalid_transition h = park-IsRunning s m h

promote_match-IsRunning :
    (s : Slot) (m : Manager) (t : Transition)
    → IsRunning (sides m)
    → IsRunning (sides (after (promote_match ended s m t)))
unfolding promote_match
promote_match-IsRunning s m (moved s') h = promote_active-IsRunning s' _ (transition s' active) h
promote_match-IsRunning s m Fsm.Transition.invalid_transition h = park-IsRunning s m h

serve_promotion-IsRunning :
    (p : Poll) (deadline : ℕ) (out : Promotion) (w : Work)
    → IsRunning (sides (after out))
    → IsRunning (sides (serve_promotion p deadline out w).1.mgr)
unfolding serve_promotion
serve_promotion-IsRunning p deadline (promoted s m) w h =
    let s' : Slot = handed (record s { started_active_at = p.now }) in
    subst IsRunning
      (sym (
        (complete-IsQuiet s' p deadline (matched_end s' p.completion)).still
          (record w { mgr = m })))
      h
serve_promotion-IsRunning p deadline (parked m) w h = h

serve_matched_moves :
    (h : Handle) (p : Poll) (deadline : ℕ) (s : Slot)
    → Moves IsRunning (serve_matched ended h p deadline s) IsRunning
unfolding serve_matched promote
serve_matched_moves h p deadline s = record {
  at = λ w k. serve_promotion-IsRunning p deadline (promote ended h s w.mgr) w (
      promote_match-IsRunning (warmed h s) (record w.mgr { active_slot = some s.slot_id })
        (transition (warmed h s) active_match) k);
}

round_moves :
    (h : Handle) (p : Poll) (deadline : ℕ) → Moves IsRunning (round ended h p deadline) IsRunning
unfolding round
round_moves h p deadline = record {
  at = λ w k.
      let (match, q) = pop_matched_thread w.mgr.queue p.events w.slot.thread_id w.slot.model_tag in
      served w match q k;
}
  where
    served :
        (w : Work) (match : Option Slot) (q : Queue.Queue)
        → IsRunning (sides w.mgr)
        → IsRunning (
            sides
              (round_with ended h p deadline match
                (record w { mgr = record w.mgr { queue = q } })).1.mgr)
    served w (some s) q k =
        (serve_matched_moves h p deadline s).at (record w { mgr = record w.mgr { queue = q } }) k
    served w none q k = ground arith

module _ (hexdigest : String → String) where
  submit_still : (c : Submission) (m : Manager) → sides (submit hexdigest c m).1 ≡ sides m
  unfolding submit
  submit_still c m = ground arith

  submit_all_still :
      (cs : List Submission) (m : Manager) → sides (submit_all hexdigest cs m) ≡ sides m
  submit_all_still [] m = refl
  submit_all_still (c ∷ cs) m = submit_all_still cs (submit hexdigest c m).1 ∙ submit_still c m

  round_or_end :
      (h : Handle) (p : Poll) (ps : List Poll) (deadline : ℕ) (w : Work) (b : Bool)
      → ((deadline' : ℕ) → Moves IsRunning (grace_loop hexdigest ended h ps deadline') IsRunning)
      → IsRunning (sides w.mgr)
      → IsRunning (
          sides
            ((if b
                then (round ended h p deadline >>= (grace_loop hexdigest ended h ps))
                else pure tt)
              w).1.mgr)
  round_or_end h p ps deadline w true later k =
      (bind_moves (round ended h p deadline) (grace_loop hexdigest ended h ps)
          (round_moves h p deadline) later (λ _ k. k)).at
        w k
  round_or_end h p ps deadline w false later k = k

  pub grace_loop_moves :
      (h : Handle) (ps : List Poll) (deadline : ℕ)
      → Moves IsRunning (grace_loop hexdigest ended h ps deadline) IsRunning
  unfolding grace_loop
  grace_loop_moves h [] deadline = record { at = λ w k. k }
  grace_loop_moves h (p ∷ ps) deadline = record {
    at = λ w k.
        let m : Manager = submit_all hexdigest p.submits w.mgr in
        round_or_end h p ps deadline (record w { mgr = m }) (ltb p.now deadline && not m.stop_event)
          (grace_loop_moves h ps) (subst IsRunning (sym (submit_all_still p.submits w.mgr)) k);
  }

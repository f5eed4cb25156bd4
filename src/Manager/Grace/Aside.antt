-- ===== src/Manager/Grace/Aside.antt =====
-- What the grace loop of src/turbohaul/manager.py does to the slot of the anchor.
use southpaw_turbohaul.Base.{
  ℕ, ◌≡◌, refl, Bool, true, false, ◌&&◌, not, Option, none, some, List, [], ◌∷◌, String, arith,
  if◌then◌else◌, ltb,
}
use southpaw_turbohaul.Slot.{Slot, failed, grace, popped}
use southpaw_turbohaul.Fsm.{Transition, moved, transition}
use southpaw_turbohaul.Fsm
use southpaw_turbohaul.Queue.{pop_matched_thread}
use southpaw_turbohaul.Exec.{pure, ◌>>=◌}
use southpaw_turbohaul.Manager.Records.{
  Handle, Manager, Work, Poll, Sigterm, Completion, returned, crashed, interrupted,
}
use southpaw_turbohaul.Manager.Effects.{audit, on_mgr, resolve}
use southpaw_turbohaul.Manager.Submit.{submit_all}
use southpaw_turbohaul.Manager.Settled.{IsAside, bind-IsAside}
use southpaw_turbohaul.Manager.Grace.{
  Promotion, promoted, parked, promote, extend, lands, close_matched, cancel_matched,
  settle_matched, complete_matched, serve_promotion, serve_matched, handed, round, round_with,
  grace_loop, goes, matched_end, matched_result, crash,
}

goes-IsAside : (t : Transition) → IsAside (goes t)
goes-IsAside (moved s) = record { aside = λ w. refl }
goes-IsAside Fsm.Transition.invalid_transition = record { aside = λ w. refl }

extend-IsAside : (s : Slot) (p : Poll) (deadline : ℕ) → IsAside (extend s p deadline)
unfolding extend
extend-IsAside s p deadline = record { aside = λ w. ground arith }

lands-IsAside : (b : Bool) (s : Slot) (p : Poll) (deadline : ℕ) → IsAside (lands b s p deadline)
lands-IsAside true s p deadline =
    bind-IsAside (on_mgr (audit s "active_match_to_grace")) (λ _. extend s p deadline)
      (record { aside = λ w. refl }) (λ _. extend-IsAside s p deadline)
lands-IsAside false s p deadline = record { aside = λ w. refl }

close-IsAside :
    (b : Bool) (s : Slot) (p : Poll) (deadline : ℕ) → IsAside (close_matched b s p deadline)
unfolding close_matched
close-IsAside b s p deadline =
    bind-IsAside (goes (transition s grace)) _ (goes-IsAside (transition s grace)) (λ in_grace.
      bind-IsAside (lands b in_grace p deadline) _ (lands-IsAside b in_grace p deadline) (λ landed.
        bind-IsAside (goes (transition landed.0 popped)) _
          (goes-IsAside (transition landed.0 popped)) (λ out. record { aside = λ w. refl })))

complete-IsAside :
    (s : Slot) (p : Poll) (deadline : ℕ) (c : Completion)
    → IsAside (complete_matched s p deadline c)
unfolding complete_matched settle_matched cancel_matched
complete-IsAside s p deadline (returned r) = record {
  aside = λ w.
      let out = resolve s (matched_result s r) w.mgr in
      (close-IsAside true out.0 p deadline).aside (record w { mgr = out.1 });
}
complete-IsAside s p deadline crashed = record {
  aside = λ w.
      let out = resolve s (failed crash) w.mgr in
      (close-IsAside false out.0 p deadline).aside (record w { mgr = out.1 });
}
complete-IsAside s p deadline interrupted = record { aside = λ w. refl }

serve_promotion-IsAside :
    (p : Poll) (deadline : ℕ) (out : Promotion) → IsAside (serve_promotion p deadline out)
unfolding serve_promotion
serve_promotion-IsAside p deadline (promoted s m) =
    let s' : Slot = handed (record s { started_active_at = p.now }) in
    record {
      aside = λ w.
          (complete-IsAside s' p deadline (matched_end s' p.completion)).aside
            (record w { mgr = m });
    }
serve_promotion-IsAside p deadline (parked m) = record { aside = λ w. refl }

round_with-IsAside :
    (answer : Sigterm) (h : Handle) (p : Poll) (deadline : ℕ) (match : Option Slot)
    → IsAside (round_with answer h p deadline match)
unfolding round_with serve_matched
round_with-IsAside answer h p deadline (some s) = record {
  aside = λ w. (serve_promotion-IsAside p deadline (promote answer h s w.mgr)).aside w;
}
round_with-IsAside answer h p deadline none = record { aside = λ w. ground arith }

round-IsAside :
    (answer : Sigterm) (h : Handle) (p : Poll) (deadline : ℕ) → IsAside (round answer h p deadline)
unfolding round
round-IsAside answer h p deadline = record {
  aside = λ w.
      let (match, q) = pop_matched_thread w.mgr.queue p.events w.slot.thread_id w.slot.model_tag in
      (round_with-IsAside answer h p deadline match).aside
        (record w { mgr = record w.mgr { queue = q } });
}

module _ (hexdigest : String → String) where
  round_or_end-IsAside :
      (answer : Sigterm) (h : Handle) (p : Poll) (ps : List Poll) (deadline : ℕ) (w : Work)
      (b : Bool)
      → ((deadline' : ℕ) → IsAside (grace_loop hexdigest answer h ps deadline'))
      → ((if b then (round answer h p deadline >>= (grace_loop hexdigest answer h ps)) else pure tt)
          w).1.slot
        ≡ w.slot
  round_or_end-IsAside answer h p ps deadline w true later =
      (bind-IsAside (round answer h p deadline) (grace_loop hexdigest answer h ps)
          (round-IsAside answer h p deadline) later).aside
        w
  round_or_end-IsAside answer h p ps deadline w false later = refl

  pub grace_loop-IsAside :
      (answer : Sigterm) (h : Handle) (ps : List Poll) (deadline : ℕ)
      → IsAside (grace_loop hexdigest answer h ps deadline)
  unfolding grace_loop
  grace_loop-IsAside answer h [] deadline = record { aside = λ w. refl }
  grace_loop-IsAside answer h (p ∷ ps) deadline = record {
    aside = λ w.
        let m : Manager = submit_all hexdigest p.submits w.mgr in
        round_or_end-IsAside answer h p ps deadline (record w { mgr = m })
          (ltb p.now deadline && not m.stop_event) (grace_loop-IsAside answer h ps);
  }

-- ===== src/Manager/Grace/Returns.antt =====
-- When the grace loop of src/turbohaul/manager.py returns.
use southpaw_turbohaul.Base.{
  ℕ, ◌≡◌, ◌≢◌, ◌∙◌, refl, Bool, true, false, ◌&&◌, not, Option, none, some, List, [], ◌∷◌, String,
  arith, if◌then◌else◌, ltb, All,
}
use southpaw_turbohaul.Slot.{Slot, Outcome, failed, active, active_match}
use southpaw_turbohaul.Fsm.{Transition, moved, transition}
use southpaw_turbohaul.Fsm
use southpaw_turbohaul.Queue.{pop_matched_thread}
use southpaw_turbohaul.Exec.{Exec, Result, ok, raised, pure, continue, ◌>>=◌}
use southpaw_turbohaul.Manager.Records.{
  Handle, Manager, Work, Poll, Sigterm, Completion, returned, crashed, interrupted,
}
use southpaw_turbohaul.Manager.Effects.{audit, resolve}
use southpaw_turbohaul.Manager.Submit.{submit_all}
use southpaw_turbohaul.Manager.Grace.{
  Promotion, promoted, parked, promote, promote_match, promote_active, extend, close_matched,
  settle_matched, complete_matched, serve_promotion, serve_matched, handed, round, round_with,
  grace_loop, matched_end, matched_result, crash, warmed, park,
}

abbrev pub is_ok : {A : Type 0} → Result A × Work → Bool
is_ok (ok a, w) = true
is_ok (raised e, w) = false

-- Nobody cancels the worker in this round.
abbrev pub IsCalm : Poll → Type 0
IsCalm p = (p.cancelled ≡ false) × (p.completion ≢ interrupted)

close_matched-returns :
    (b : Bool) (s : Slot) (p : Poll) (deadline : ℕ) (w : Work)
    → s.state ≡ active
    → is_ok (close_matched b s p deadline w) ≡ true
unfolding close_matched extend transition
close_matched-returns true s p deadline w e = ground arith
close_matched-returns false s p deadline w e = ground arith

resolve-state : (s : Slot) (o : Outcome) (m : Manager) → (resolve s o m).0.state ≡ s.state
unfolding resolve
resolve-state s o m = ground arith

complete_matched-returns :
    (s : Slot) (p : Poll) (deadline : ℕ) (c : Completion) (w : Work)
    → s.state ≡ active
    → c ≢ interrupted
    → is_ok (complete_matched s p deadline c w) ≡ true
unfolding complete_matched settle_matched
complete_matched-returns s p deadline (returned r) w e calm =
    close_matched-returns true (resolve s (matched_result s r) w.mgr).0 p deadline
      (record w { mgr = (resolve s (matched_result s r) w.mgr).1 })
      (resolve-state s (matched_result s r) w.mgr ∙ e)
complete_matched-returns s p deadline crashed w e calm =
    close_matched-returns false (resolve s (failed crash) w.mgr).0 p deadline
      (record w { mgr = (resolve s (failed crash) w.mgr).1 })
      (resolve-state s (failed crash) w.mgr ∙ e)
complete_matched-returns s p deadline interrupted w e calm = absurd (calm refl)

matched_end-calm : (s : Slot) (c : Completion) → c ≢ interrupted → matched_end s c ≢ interrupted
matched_end-calm s (returned r) calm = ground arith
matched_end-calm s crashed calm = ground arith
matched_end-calm s interrupted calm = absurd (calm refl)

-- A promoted slot is ACTIVE.
abbrev IsActive : Promotion → Type 0
IsActive (promoted s m) = s.state ≡ active
IsActive (parked m) = Unit {0}

to_active : (s s' : Slot) → transition s active ≡ moved s' → s'.state ≡ active
unfolding transition
to_active s s' e = ground arith

promote_active-IsActive :
    (answer : Sigterm) (s : Slot) (m : Manager) (t : Transition)
    → ((s' : Slot) → t ≡ moved s' → s'.state ≡ active)
    → IsActive (promote_active answer s m t)
unfolding promote_active park
promote_active-IsActive answer s m (moved s') e = e s' refl
promote_active-IsActive answer s m Fsm.Transition.invalid_transition e = tt

promote_match-IsActive :
    (answer : Sigterm) (s : Slot) (m : Manager) (t : Transition)
    → IsActive (promote_match answer s m t)
unfolding promote_match park
promote_match-IsActive answer s m (moved s') =
    promote_active-IsActive answer s' (audit s' "active_match_promoted" m) (transition s' active)
      (to_active s')
promote_match-IsActive answer s m Fsm.Transition.invalid_transition = tt

serve_promotion-returns :
    (p : Poll) (deadline : ℕ) (out : Promotion) (w : Work)
    → IsActive out
    → p.completion ≢ interrupted
    → is_ok (serve_promotion p deadline out w) ≡ true
unfolding serve_promotion
serve_promotion-returns p deadline (promoted s m) w e calm =
    let s' : Slot = handed (record s { started_active_at = p.now }) in
    complete_matched-returns s' p deadline (matched_end s' p.completion) (record w { mgr = m }) e
      (matched_end-calm s' p.completion calm)
serve_promotion-returns p deadline (parked m) w e calm = refl

round_with-returns :
    (answer : Sigterm) (h : Handle) (p : Poll) (deadline : ℕ) (match : Option Slot) (w : Work)
    → IsCalm p
    → is_ok (round_with answer h p deadline match w) ≡ true
unfolding round_with serve_matched promote
round_with-returns answer h p deadline (some s) w calm =
    serve_promotion-returns p deadline (promote answer h s w.mgr) w
      (promote_match-IsActive answer (warmed h s) (record w.mgr { active_slot = some s.slot_id })
        (transition (warmed h s) active_match))
      calm.1
round_with-returns answer h p deadline none w calm = rw (calm.0) refl

round-returns :
    (answer : Sigterm) (h : Handle) (p : Poll) (deadline : ℕ) (w : Work)
    → IsCalm p
    → is_ok (round answer h p deadline w) ≡ true
unfolding round
round-returns answer h p deadline w calm =
    let (match, q) = pop_matched_thread w.mgr.queue p.events w.slot.thread_id w.slot.model_tag in
    round_with-returns answer h p deadline match (record w { mgr = record w.mgr { queue = q } })
      calm

module _ {A B : Type 0} where
  -- An action that returns, followed by one that returns wherever it starts.
  pub continue-returns :
      (g : A → Exec Work B) (r : Result A × Work)
      → is_ok r ≡ true
      → ((a : A) (w : Work) → is_ok (g a w) ≡ true)
      → is_ok (continue g r) ≡ true
  continue-returns g (ok a, w) e later = later a w
  continue-returns g (raised f, w) e later = cc

module _ (hexdigest : String → String) where
  round_or_end-returns :
      (answer : Sigterm) (h : Handle) (p : Poll) (ps : List Poll) (deadline : ℕ) (w : Work)
      (b : Bool)
      → IsCalm p
      → ((deadline' : ℕ) (w : Work) → is_ok (grace_loop hexdigest answer h ps deadline' w) ≡ true)
      → is_ok (
          (if b
              then (round answer h p deadline >>= (grace_loop hexdigest answer h ps))
              else pure tt)
            w)
        ≡ true
  round_or_end-returns answer h p ps deadline w true calm later =
      continue-returns (grace_loop hexdigest answer h ps) (round answer h p deadline w)
        (round-returns answer h p deadline w calm) later
  round_or_end-returns answer h p ps deadline w false calm later = refl

  -- The grace loop returns, whatever it serves, if the worker is cancelled in none of its rounds.
  pub grace_loop-returns :
      (answer : Sigterm) (h : Handle) (ps : List Poll) (deadline : ℕ) (w : Work)
      → All IsCalm ps
      → is_ok (grace_loop hexdigest answer h ps deadline w) ≡ true
  unfolding grace_loop
  grace_loop-returns answer h [] deadline w calm = refl
  grace_loop-returns answer h (p ∷ ps) deadline w calm =
      let m : Manager = submit_all hexdigest p.submits w.mgr in
      round_or_end-returns answer h p ps deadline (record w { mgr = m })
        (ltb p.now deadline && not m.stop_event) calm.0
        (λ d w. grace_loop-returns answer h ps d w calm.1)

-- ===== src/Manager/Grace.antt =====
-- The grace loop of `_process_slot` in src/turbohaul/manager.py: follow-ups of the same thread are
-- taken over by the warm process (ACTIVE_MATCH). The slot at work is the anchor.
pub mod Sidecar
pub mod Aside
pub mod Returns
use southpaw_turbohaul.Base.{
  ℕ, ◌+◌, String, Bool, true, false, ◌&&◌, not, Option, none, some, List, [], ◌∷◌, ltb, is_some,
  if◌then◌else◌,
}
use southpaw_turbohaul.Slot.{
  Slot, Failure, Outcome, completed, streamed, failed, cancelled, runtime_error, active,
  active_match, grace, popped, invalid_transition,
}
use southpaw_turbohaul.Fsm.{Transition, moved, transition}
use southpaw_turbohaul.Fsm
use southpaw_turbohaul.Queue.{pop_matched_thread}
use southpaw_turbohaul.Timers.{restart_for_followup}
use southpaw_turbohaul.Exec.{Exec, ok, raised, pure, raise, modify, ◌>>=◌, ◌>>◌}
use southpaw_turbohaul.Manager.Records.{
  Handle, Manager, Work, Sigterm, Completion, returned, crashed, interrupted, Poll,
}
use southpaw_turbohaul.Manager.Effects.{
  resolve, fail_completion_future, audit, audit_event_only, end_row, on_mgr,
}
use southpaw_turbohaul.Manager.Teardown.{force_cold}
use southpaw_turbohaul.Manager.Submit.{submit_all}

abbrev pub crash : Failure
crash = runtime_error "completion failed"

-- The matched slot at the anchor's port and process.
abbrev warmed : Handle → Slot → Slot
warmed h s = record s { port = some h.port; pid = some h.pid }

-- The assertion on the events of a streaming slot.
abbrev pub can_stream : Slot → Bool
can_stream s = is_some s.stream_ready_event && is_some s.stream_done_event

-- A streaming slot is handed the process: by now its own pid is the handle's.
abbrev pub handed : Slot → Slot
handed s = record s {
  stream_handle = if s.client_meta.stream && can_stream s then s.pid else s.stream_handle;
}

-- A stream ends drained, at the latest after an hour, unless the worker is cancelled.
abbrev stream_end : Completion → Completion
stream_end interrupted = interrupted
stream_end (returned r) = returned r
stream_end crashed = returned ""

-- How the request of a matched slot ends: a streaming slot without its events fails its assertion.
abbrev pub matched_end : Slot → Completion → Completion
matched_end s c =
    if s.client_meta.stream then (if can_stream s then stream_end c else crashed) else c

-- How the request of the anchor ends: without its events a streaming slot goes to `_complete_fn`.
abbrev pub anchor_end : Slot → Completion → Completion
anchor_end s c = if s.client_meta.stream && can_stream s then stream_end c else c

abbrev pub matched_result : Slot → String → Outcome
matched_result s r = if s.client_meta.stream then streamed else completed r

abbrev pub anchor_result : Slot → String → Outcome
anchor_result s r = if s.client_meta.stream && can_stream s then streamed else completed r

-- A transition of a slot that is not the slot at work.
abbrev pub goes : Transition → Exec Work Slot
goes (moved s) = pure s
goes Fsm.Transition.invalid_transition = raise invalid_transition

-- The same under `except InvalidTransition: pass`.
abbrev at_state : Transition → Slot → Slot
at_state (moved s') s = s'
at_state Fsm.Transition.invalid_transition s = s

-- What the promotion comes to: the slot is ACTIVE, or it drifted and was parked.
pub data Promotion : Type 0 where
  promoted : Slot → Manager → Promotion
  parked : Manager → Promotion

-- `active_match` state drift: fail the future, and force the slot to COLD.
park : Sigterm → Slot → Manager → Promotion
park answer s m =
    let (s', m') = fail_completion_future s invalid_transition m in
    parked (force_cold answer "active_match_state_drift" s' m').1

promote_active : Sigterm → Slot → Manager → Transition → Promotion
unfolding park
promote_active answer s m (moved s') =
    promoted s' (record m { latest_keep_alive_s = s'.client_meta.keep_alive_s })
promote_active answer s m Fsm.Transition.invalid_transition = park answer s m

promote_match : Sigterm → Slot → Manager → Transition → Promotion
unfolding park promote_active transition
promote_match answer s m (moved s') =
    promote_active answer s' (audit s' "active_match_promoted" m) (transition s' active)
promote_match answer s m Fsm.Transition.invalid_transition = park answer s m

unfoldable pub promote : Sigterm → Handle → Slot → Manager → Promotion
unfolding promote_match
promote answer h s m =
    promote_match answer (warmed h s) (record m { active_slot = some s.slot_id })
      (transition (warmed h s) active_match)

-- The end of a matched slot: ACTIVE, GRACE, POPPED. It returns the deadline of the loop.
extend : Slot → Poll → ℕ → Exec Work (Slot × ℕ)
unfolding restart_for_followup
extend s p deadline w =
    let (granted, g) = restart_for_followup w.mgr.grace p.restart_now in
    let w' = record w { mgr = record w.mgr { grace = g } } in
    if granted
    then (
      ok (
        record s { extension_count = g.extension_count },
        p.restart_now + w.mgr.config.grace_seconds,
      ),
      record w' {
        mgr = audit_event_only (some s.slot_id) "grace_extended_via_active_match" w'.mgr;
      },
    )
    else (ok (s, deadline), w')

abbrev lands : Bool → Slot → Poll → ℕ → Exec Work (Slot × ℕ)
lands true s p deadline = do on_mgr (audit s "active_match_to_grace"); extend s p deadline
lands false s p deadline = do on_mgr (audit s "active_match_failed"); pure (s, deadline)

abbrev end_event : Bool → String
end_event true = "active_match_completed"
end_event false = "active_match_failed_terminal"

abbrev end_cause : Bool → String
end_cause true = "active_match_completed"
end_cause false = "active_match_failed"

-- The anchor's id is read from the slot at work.
abbrev back_to_anchor : Exec Work (Unit {0})
back_to_anchor = modify (λ w. record w { mgr = record w.mgr { active_slot = some w.slot.slot_id } })

close_matched : Bool → Slot → Poll → ℕ → Exec Work ℕ
unfolding transition extend
close_matched completed_ok s p deadline = do
  in_grace ← goes (transition s grace)
  (landed, deadline') ← lands completed_ok in_grace p deadline
  out ← goes (transition landed popped)
  on_mgr (audit out (end_event completed_ok))
  on_mgr (end_row out.slot_id (end_cause completed_ok))
  back_to_anchor
  pure deadline'

-- The cancellation of a matched request: the slot is parked, and the exception goes on.
cancel_matched : Slot → Exec Work ℕ
unfolding transition
cancel_matched s w =
    let (s', m) = fail_completion_future s cancelled w.mgr in
    let out = at_state (transition s' popped) s' in
    let m' = end_row out.slot_id "active_match_cancelled" (audit out "active_match_cancelled" m) in
    (raised cancelled, record w { mgr = m' })

settle_matched : Slot → Outcome → (Slot → Exec Work ℕ) → Exec Work ℕ
unfolding resolve
settle_matched s o then_ w = let (s', m) = resolve s o w.mgr in then_ s' (record w { mgr = m })

complete_matched : Slot → Poll → ℕ → Completion → Exec Work ℕ
unfolding close_matched cancel_matched settle_matched
complete_matched s p deadline (returned r) =
    settle_matched s (matched_result s r) (λ s. close_matched true s p deadline)
complete_matched s p deadline crashed =
    settle_matched s (failed crash) (λ s. close_matched false s p deadline)
complete_matched s p deadline interrupted = cancel_matched s

serve_promotion : Poll → ℕ → Promotion → Exec Work ℕ
unfolding complete_matched
serve_promotion p deadline (promoted s m) w =
    let s' = handed (record s { started_active_at = p.now }) in
    complete_matched s' p deadline (matched_end s' p.completion) (record w { mgr = m })
serve_promotion p deadline (parked m) w = (do back_to_anchor; pure deadline) (record w { mgr = m })

-- A popped match, flagged as evicted or not, is served.
unfoldable pub serve_matched : Sigterm → Handle → Poll → ℕ → Slot → Exec Work ℕ
unfolding promote serve_promotion
serve_matched answer h p deadline s w = serve_promotion p deadline (promote answer h s w.mgr) w

-- The end of a round without a match: the sleep.
abbrev rest_a_while : Poll → Exec Work (Unit {0})
rest_a_while p = if p.cancelled then raise cancelled else pure tt

-- What follows the scan of a round.
round_with : Sigterm → Handle → Poll → ℕ → Option Slot → Exec Work ℕ
unfolding serve_matched
round_with answer h p deadline (some s) = serve_matched answer h p deadline s
round_with answer h p deadline none = do rest_a_while p; pure deadline

-- One round: the scan of staging, and what follows.
unfoldable pub round : Sigterm → Handle → Poll → ℕ → Exec Work ℕ
unfolding pop_matched_thread round_with
round answer h p deadline w =
    let (match, q) = pop_matched_thread w.mgr.queue p.events w.slot.thread_id w.slot.model_tag in
    round_with answer h p deadline match (record w { mgr = record w.mgr { queue = q } })

module _ (hexdigest : String → String) where
  -- `while time.monotonic() < deadline and not self._stop_event.is_set()`. The list of rounds
  -- stands for the clock: where it ends, the deadline has passed.
  unfoldable pub grace_loop : Sigterm → Handle → List Poll → ℕ → Exec Work (Unit {0})
  unfolding round
  grace_loop answer h [] deadline = pure tt
  grace_loop answer h (p ∷ ps) deadline = do
    on_mgr (submit_all hexdigest p.submits)
    w ← (λ w. (ok w, w))
    let more = (do deadline' ← round answer h p deadline; grace_loop answer h ps deadline')
    if ltb p.now deadline && not w.mgr.stop_event then more else pure tt

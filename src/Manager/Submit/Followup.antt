-- ===== src/Manager/Submit/Followup.antt =====
-- What `submit` of src/turbohaul/manager.py promises its callers.
use southpaw_turbohaul.Base.{
  ◌≡◌, refl, subst, sym, inl, inr, Bool, true, false, Bool-cases, some, String, ◌==◌, if◌then◌else◌,
  eq_refl, ◌∷◌,
}
use southpaw_turbohaul.Slot.{Slot, Events, new}
use southpaw_turbohaul.Slot.ThreadId.Prefix.{derive_thread_id-named}
use southpaw_turbohaul.Queue.{
  Result, ok, err, queue_closed, Queue, enqueue, enqueue_head, flag_evicted, to_staged,
  pop_matched_thread, delete_first,
}
use southpaw_turbohaul.Timers
use southpaw_turbohaul.Db.{record_audit_event}
use southpaw_turbohaul.Db.Rows.{lookup, lookup-upsert, upserted}
use southpaw_turbohaul.Manager.Records.{Manager, Submission}
use southpaw_turbohaul.Manager.Submit.{
  thread_of, fresh_slot, submit, submit_values, record_submit, admitted, restart_grace,
}

-- A refusal leaves the manager alone; an acceptance leaves the slot's row.
abbrev pub IsRecorded : Manager → Result Slot × Manager → Type 0
IsRecorded m (err e, m') = m' ≡ m
IsRecorded m (ok s, m') =
    lookup s.slot_id m'.db.slots
    ≡ some (upserted (submit_values s) m.wall_now (lookup s.slot_id m.db.slots))

admitted-IsRecorded :
    (then_ : Manager → Manager) (m : Manager) (r : Result (Slot × Queue))
    → ((m : Manager) → (then_ m).db ≡ m.db)
    → ((m : Manager) → (then_ m).wall_now ≡ m.wall_now)
    → IsRecorded m (admitted then_ m r)
unfolding record_submit lookup record_audit_event
admitted-IsRecorded then_ m (err e) same now = refl
admitted-IsRecorded then_ m (ok (s, q)) same now = simp (same, now, lookup-upsert, eq_refl)

module _ (hexdigest : String → String) where
  thread_of-named : (c : Submission) → (thread_of hexdigest c == "") ≡ false
  thread_of-named c = elim (Bool-cases (c.thread_id == "")) [
    | inl empty ↦ rw empty (derive_thread_id-named hexdigest c.prompt c.model_tag)
    | inr named ↦ rw (named, named) refl
  ]

  followup_at_head :
      (c : Submission) (m : Manager)
      → m.stop_event ≡ false
      → m.queue.closed ≡ false
      → Timers.matches m.grace (thread_of hexdigest c) c.model_tag c.now ≡ true
      → (submit hexdigest c m).1.queue
        ≡ record m.queue { staging = to_staged (fresh_slot hexdigest c) ∷ m.queue.staging }
  unfolding submit enqueue_head record_submit
  followup_at_head c m runs open_ follows = rw (runs, open_, follows) refl

  -- A submission that finds the manager running, the queue open and its thread's grace window open
  -- is what the next scan for that thread and model takes, ahead of everything that was staged, and
  -- the scan leaves the queue as it was before the submission.
  pub submit-served_next :
      (c : Submission) (m : Manager) (events : Events)
      → m.stop_event ≡ false
      → m.queue.closed ≡ false
      → Timers.matches m.grace (thread_of hexdigest c) c.model_tag c.now ≡ true
      → pop_matched_thread (submit hexdigest c m).1.queue events (thread_of hexdigest c) c.model_tag
        ≡ (some (flag_evicted events (to_staged (fresh_slot hexdigest c))), m.queue)
  unfolding pop_matched_thread delete_first fresh_slot new
  submit-served_next c m events runs open_ follows =
      subst
        (λ q.
          pop_matched_thread q events (thread_of hexdigest c) c.model_tag
          ≡ (some (flag_evicted events (to_staged (fresh_slot hexdigest c))), m.queue))
        (sym (followup_at_head c m runs open_ follows))
        (rw (thread_of-named c, eq_refl (thread_of hexdigest c), eq_refl c.model_tag) refl)

  -- A submission is refused, and then nothing of the manager has changed; or it is accepted, and
  -- then the slot that the caller gets stands in the database with its fields, without a process.
  pub submit-IsRecorded : (c : Submission) (m : Manager) → IsRecorded m (submit hexdigest c m)
  unfolding submit
  submit-IsRecorded c m =
      asked m.stop_event (Timers.matches m.grace (thread_of hexdigest c) c.model_tag c.now)
    where
      asked :
          (stops follows : Bool)
          → IsRecorded m (
              if stops
              then (err queue_closed, m)
              else if follows
              then admitted (restart_grace c.now) m (enqueue_head m.queue (fresh_slot hexdigest c))
              else admitted (λ m. m) m (enqueue m.queue (fresh_slot hexdigest c)))
      asked true follows = refl
      asked false true =
          admitted-IsRecorded (restart_grace c.now) m
            (enqueue_head m.queue (fresh_slot hexdigest c)) (λ m. refl) (λ m. refl)
      asked false false =
          admitted-IsRecorded (λ m. m) m (enqueue m.queue (fresh_slot hexdigest c)) (λ m. refl)
            (λ m. refl)

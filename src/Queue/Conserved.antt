-- ===== src/Queue/Conserved.antt =====
-- What becomes of each slot id that src/turbohaul/queue.py takes in, over a history of calls.
use southpaw_turbohaul.Base.{
  ℕ, ◌+◌, String, ◌≡◌, refl, ap, inl, inr, Bool, true, false, List, [], ◌∷◌, ◌++◌, arith, ◌==◌,
}
use southpaw_turbohaul.Slot.{Slot, Events}
use southpaw_turbohaul.Queue.{
  Queue, enqueue, enqueue_head, pop_next, pop_matched_thread, remove, close, to_staged, to_buffered,
  init, Call, enqueues, enqueues_head, pops, pops_matched, removes, closes, step, run,
}
use southpaw_turbohaul.Queue.Pop.{pop_matched-cases, remove-cases}
use southpaw_turbohaul.Queue.View.{
  ids, ids-append, view, served_by, accepted_by, view-pop_next, id-flag_evicted,
}

-- How often an id stands in a list.
abbrev pub bit : Bool → ℕ
bit true = 1
bit false = 0

abbrev pub times : String → List String → ℕ
times a [] = 0
times a (x ∷ xs) = bit (x == a) + times a xs

times-append : (a : String) (xs ys : List String) → times a (xs ++ ys) ≡ times a xs + times a ys
times-append a [] ys = omega arith
times-append a (x ∷ xs) ys = omega (arith, times-append a xs ys)

-- The ids that a call takes into the queue, and those that it hands to the caller.
abbrev pub entered : Queue → Call → List String
entered q (enqueues s) = accepted_by (enqueue q s)
entered q (enqueues_head s) = accepted_by (enqueue_head q s)
entered q _ = []

abbrev pub handed : Queue → Call → List String
handed q (pops events) = served_by (pop_next q events).0
handed q (pops_matched events thread_id model_tag) =
    served_by (pop_matched_thread q events thread_id model_tag).0
handed q (removes slot_id) = served_by (remove q slot_id).0
handed q closes = ids (close q).0
handed q _ = []

times-view :
    (a : String) (q : Queue)
    → times a (view q) ≡ times a (ids q.staging) + times a (ids q.accept_buf)
times-view a q = times-append a (ids q.staging) (ids q.accept_buf)

-- A list with an entry taken out.
times_split :
    (a : String) (front back l : List Slot) (s : Slot)
    → l ≡ front ++ s ∷ back
    → times a (ids l) ≡ bit (s.slot_id == a) + times a (ids (front ++ back))
times_split a front back l s e =
    rw (e, ids-append front (s ∷ back), ids-append front back)
      (omega (
        arith,
        times-append a (ids front) (s.slot_id ∷ ids back),
        times-append a (ids front) (ids back),
      ))

module _ (a : String) (q : Queue) where
  abbrev Conserved : Call → Type 0
  Conserved c =
      times a (entered q c) + times a (view q) ≡ times a (handed q c) + times a (view (step q c))

  enqueue-Conserved : (s : Slot) → Conserved (enqueues s)
  unfolding enqueue
  enqueue-Conserved s = ground (
    arith,
    ids-append q.staging (to_staged s ∷ []),
    ids-append q.accept_buf (to_buffered s ∷ []),
    times-append a (ids q.staging) (s.slot_id ∷ []),
    times-append a (ids q.accept_buf) (s.slot_id ∷ []),
    times-append a (ids q.staging) (ids q.accept_buf),
    times-append a (ids q.staging ++ s.slot_id ∷ []) (ids q.accept_buf),
    times-append a (ids q.staging) (ids q.accept_buf ++ s.slot_id ∷ []),
  )

  pop_next-Conserved : (events : Events) → Conserved (pops events)
  pop_next-Conserved events = omega (
    arith,
    ap (times a) (view-pop_next q events),
    times-append a (served_by (pop_next q events).0) (view (pop_next q events).1),
  )

  pop_matched-Conserved :
      (events : Events) (thread_id model_tag : String)
      → Conserved (pops_matched events thread_id model_tag)
  pop_matched-Conserved events thread_id model_tag =
      elim (pop_matched-cases q events thread_id model_tag) [
        | inl (s, front, back, e, _, _, _, popped) ↦
            rw (popped, step, id-flag_evicted events s)
              (omega (
                arith,
                times_split a front back q.staging s e,
                times-view a q,
                times-append a (ids (front ++ back)) (ids q.accept_buf),
              ))
        | inr (_, missed) ↦ rw (missed, step) refl
      ]

  remove-Conserved : (slot_id : String) → Conserved (removes slot_id)
  remove-Conserved slot_id = elim (remove-cases q slot_id) [
    | inl (s, front, back, e, _, removed) ↦
        rw (removed, step)
          (omega (
            arith,
            times_split a front back q.staging s e,
            times-view a q,
            times-append a (ids (front ++ back)) (ids q.accept_buf),
          ))
    | inr (inl (s, front, back, e, _, removed)) ↦
        rw (removed, step)
          (omega (
            arith,
            times_split a front back q.accept_buf s e,
            times-view a q,
            times-append a (ids q.staging) (ids (front ++ back)),
          ))
    | inr (inr (_, _, missed)) ↦ rw (missed, step) refl
  ]

  step-Conserved : (c : Call) → Conserved c
  unfolding enqueue_head close
  step-Conserved (enqueues s) = enqueue-Conserved s
  step-Conserved (enqueues_head s) = ground arith
  step-Conserved (pops events) = pop_next-Conserved events
  step-Conserved (pops_matched events thread_id model_tag) =
      pop_matched-Conserved events thread_id model_tag
  step-Conserved (removes slot_id) = remove-Conserved slot_id
  step-Conserved closes = rw (ids-append q.staging q.accept_buf) (omega arith)

abbrev pub all_entered : Queue → List Call → List String
all_entered q [] = []
all_entered q (c ∷ cs) = entered q c ++ all_entered (step q c) cs

abbrev pub all_handed : Queue → List Call → List String
all_handed q [] = []
all_handed q (c ∷ cs) = handed q c ++ all_handed (step q c) cs

run-Conserved :
    (a : String) (cs : List Call) (q : Queue)
    → times a (all_entered q cs) + times a (view q)
      ≡ times a (all_handed q cs) + times a (view (run q cs))
unfolding run
run-Conserved a [] q = refl
run-Conserved a (c ∷ cs) q = omega (
  arith,
  step-Conserved a q c,
  run-Conserved a cs (step q c),
  times-append a (entered q c) (all_entered (step q c) cs),
  times-append a (handed q c) (all_handed (step q c) cs),
)

-- After any calls on a new queue, each slot id that was accepted was handed to a caller (by a pop,
-- by `remove` or by `close`) or still waits, exactly as often as it was accepted.
pub run-init_conserved :
    (cs : List Call) (staging_max acceptance_max : ℕ) (a : String)
    → times a (all_entered (init staging_max acceptance_max) cs)
      ≡ times a (all_handed (init staging_max acceptance_max) cs)
        + times a (view (run (init staging_max acceptance_max) cs))
unfolding init
run-init_conserved cs m n a = omega (arith, run-Conserved a cs (init m n))

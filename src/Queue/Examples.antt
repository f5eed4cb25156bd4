-- ===== src/Queue/Examples.antt =====
-- Runs of the queue.
use southpaw_turbohaul.Base.{
  ◌≡◌, ◌≤◌, ◌+◌, ◌⊎◌, refl, true, false, none, some, All, List, [], ◌∷◌, ◌++◌, arith, nat_eq,
}
use southpaw_turbohaul.Slot.{Slot, Events}
use southpaw_turbohaul.Slot.Samples.{request, first_slot, second_slot, watched_slot}
use southpaw_turbohaul.Queue.{
  Queue, init, enqueue, pop_next, find_matched_thread, pop_matched_thread, matches, flag_evicted,
  to_staged, to_buffered, kept, run, depth, Call, enqueues, enqueues_head, pops, closes,
}
use southpaw_turbohaul.Queue.Matching.{pop_matched-find}
use southpaw_turbohaul.Queue.View.{view, ids}
use southpaw_turbohaul.Queue.Fifo
use southpaw_turbohaul.Queue.Fifo.{
  Traffic, arrives, play, accepted, served, played_in_order, init-IsPacked, pop_next-front,
  pop_matched-enqueue_overtakes,
}
use southpaw_turbohaul.Queue.Conserved.{times, all_entered, all_handed, run-init_conserved}
use southpaw_turbohaul.Queue.Capacity.{heads, run-init-depth}
use southpaw_turbohaul.Queue.Labels.{CanStart, popped-CanStart}

-- The event 7 is set.
abbrev hung_up : Events
hung_up e = nat_eq e 7

abbrev small_queue : Queue
small_queue = init 1 2

abbrev some_traffic : List Traffic
some_traffic =
    arrives first_slot ∷ arrives second_slot ∷ Fifo.pops hung_up ∷ arrives watched_slot ∷ []

played_in_order_example :
    served small_queue some_traffic ++ view (play small_queue some_traffic)
    ≡ view small_queue ++ accepted small_queue some_traffic
unfolding init
played_in_order_example = played_in_order some_traffic small_queue (omega arith) (init-IsPacked 1 2)

abbrev some_calls : List Call
some_calls =
    enqueues first_slot
    ∷ enqueues second_slot
    ∷ enqueues_head watched_slot
    ∷ pops hung_up
    ∷ closes
    ∷ []

run-init_conserved_example :
    times "s1" (all_entered (init 1 2) some_calls)
    ≡ times "s1" (all_handed (init 1 2) some_calls) + times "s1" (view (run (init 1 2) some_calls))
run-init_conserved_example = run-init_conserved some_calls 1 2 "s1"

run-init-depth_example :
    ((depth (run (init 1 2) some_calls)).acceptance_buffer_depth ≤ 2)
    × ((depth (run (init 1 2) some_calls)).staging_queue_depth ≤ 1 + heads some_calls)
run-init-depth_example = run-init-depth some_calls 1 2

popped-CanStart_example :
    CanStart (pop_next (run (init 1 2) (enqueues first_slot ∷ [])) hung_up).0
    × CanStart
        (pop_matched_thread (run (init 1 2) (enqueues first_slot ∷ [])) hung_up "t1" "qwen").0
popped-CanStart_example = popped-CanStart (enqueues first_slot ∷ []) 1 2 hung_up "t1" "qwen"

-- Staging is full, and a slot waits in the buffer.
abbrev full_queue : Queue
full_queue = record {
  staging_max = 1;
  acceptance_max = 2;
  accept_buf = to_buffered second_slot ∷ [];
  staging = to_staged first_slot ∷ [];
  closed = false;
}

pop_matched-enqueue_overtakes_example :
    view (
      kept
        (pop_matched_thread full_queue hung_up "t1" "qwen").1
        (enqueue (pop_matched_thread full_queue hung_up "t1" "qwen").1 watched_slot))
    ≡ ids (pop_matched_thread full_queue hung_up "t1" "qwen").1.staging
      ++ "s3" ∷ ids full_queue.accept_buf
unfolding pop_matched_thread request
pop_matched-enqueue_overtakes_example =
    pop_matched-enqueue_overtakes full_queue hung_up "t1" "qwen" (to_staged first_slot) watched_slot
      refl (omega arith) refl

-- A slot of the thread waits behind another.
abbrev mixed_queue : Queue
mixed_queue = record full_queue { staging = to_staged second_slot ∷ to_staged watched_slot ∷ [] }

-- Two slots of one thread wait behind one of another.
abbrev rematch_queue : Queue
rematch_queue = record small_queue {
  staging = to_staged second_slot ∷ to_staged first_slot ∷ to_staged watched_slot ∷ [];
}

pop_matched-find_example :
    ((find_matched_thread rematch_queue "t1" "qwen" ≡ none)
      × (pop_matched_thread rematch_queue hung_up "t1" "qwen" ≡ (none, rematch_queue)))
    ⊎ ((s : Slot) × (front : List Slot) × (back : List Slot) × (find_matched_thread rematch_queue
            "t1" "qwen"
          ≡ some s)
        × (rematch_queue.staging ≡ front ++ s ∷ back)
        × All (λ x. matches "t1" "qwen" x ≡ false) front
        × (matches "t1" "qwen" s ≡ true)
        × (pop_matched_thread rematch_queue hung_up "t1" "qwen"
            ≡ (some (flag_evicted hung_up s), record rematch_queue { staging = front ++ back })))
pop_matched-find_example = pop_matched-find rematch_queue "t1" "qwen" hung_up

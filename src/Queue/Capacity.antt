-- ===== src/Queue/Capacity.antt =====
-- How long the two tiers of the queue get.
use southpaw_turbohaul.Base.{
  ℕ, suc, ◌+◌, ◌≤◌, ◌<◌, String, ◌≡◌, refl, false, List, [], ◌∷◌, ◌++◌, arith, length,
  length-append, ap, inl, inr,
}
use southpaw_turbohaul.Slot.{Slot, Events}
use southpaw_turbohaul.Queue.{
  Queue, init, enqueue, enqueue_head, pop_first, drain_buffer, replenish, pop_next,
  pop_matched_thread, remove, close, Call, enqueues, enqueues_head, pops, pops_matched, removes,
  closes, step, run, to_staged, depth, to_buffered, kept, with_lists, max_drain,
}
use southpaw_turbohaul.Queue.Pop.{pop_first-cases, pop_next-cases, pop_matched-cases, remove-cases}

-- Staging holds at most `extra` slots more than its cap, and the buffer keeps to its cap.
pub record IsBounded (extra : ℕ) (q : Queue) : Type 0 where
  pub staging_bound : length q.staging ≤ q.staging_max + extra
  pub buffer_bound : length q.accept_buf ≤ q.acceptance_max

length_without :
    (front back l : List Slot) (s : Slot)
    → l ≡ front ++ s ∷ back
    → length (front ++ back) ≤ length l
length_without front back l s e =
    omega (arith, ap length e, length-append front (s ∷ back), length-append front back)

length-drain_buffer :
    (limit : ℕ) (staging buf : List Slot) (extra : ℕ)
    → length staging ≤ limit + extra
    → (length (drain_buffer limit staging buf).0 ≤ limit + extra)
      × (length (drain_buffer limit staging buf).1 ≤ length buf)
unfolding drain_buffer
length-drain_buffer limit staging [] extra h = (h, omega arith)
length-drain_buffer limit staging (s ∷ buf) extra h = ground (
  arith,
  length-drain_buffer limit (staging ++ to_staged s ∷ []) buf extra,
  length-append staging (to_staged s ∷ []),
)

length-replenish :
    (limit : ℕ) (staging buf : List Slot) (extra : ℕ)
    → length staging ≤ limit + extra
    → (length (replenish limit staging buf).0 ≤ limit + extra)
      × (length (replenish limit staging buf).1 ≤ length buf)
unfolding replenish
length-replenish limit staging [] extra h = (h, omega arith)
length-replenish limit staging (s ∷ buf) extra h =
    ground (arith, length-append staging (to_staged s ∷ []))

length-pop_first :
    (events : Events) (buf : List Slot) → length (pop_first events buf max_drain).1 ≤ length buf
length-pop_first events buf = elim (pop_first-cases events buf) [
  | inl (s, rest, e, popped) ↦ rw (popped, e) (omega arith)
  | inr (e, empty) ↦ rw (empty, e) (omega arith)
]

module _ (extra : ℕ) (q : Queue) (b : IsBounded extra q) where
  enqueue-IsBounded : (s : Slot) → IsBounded extra (kept q (enqueue q s))
  unfolding enqueue
  enqueue-IsBounded s = ground (
    arith,
    length-append q.staging (to_staged s ∷ []),
    length-append q.accept_buf (to_buffered s ∷ []),
  )

  enqueue_head-IsBounded : (s : Slot) → IsBounded (suc extra) (kept q (enqueue_head q s))
  unfolding enqueue_head
  enqueue_head-IsBounded s = ground arith

  with_lists-IsBounded :
      (st buf : List Slot)
      → length st ≤ q.staging_max + extra
      → length buf ≤ length q.accept_buf
      → IsBounded extra (with_lists q (st, buf))
  with_lists-IsBounded st buf h k = ground arith

  pop_next-IsBounded : (events : Events) → IsBounded extra (pop_next q events).1
  pop_next-IsBounded events = elim (pop_next-cases q events) [
    | inl (s, rest, e, popped) ↦
        let kept_room =
          length-replenish q.staging_max rest q.accept_buf extra
            (omega (arith, ap length e, b.staging_bound)) in
        rw popped (with_lists-IsBounded _ _ kept_room.0 kept_room.1)
    | inr (e, popped) ↦
        let drained = length-drain_buffer q.staging_max [] q.accept_buf extra (omega arith) in
        rw popped (
          with_lists-IsBounded _ _
            (omega (
              arith,
              length-pop_first events (drain_buffer q.staging_max [] q.accept_buf).0,
              drained,
            ))
            drained.1)
  ]

  pop_matched-IsBounded :
      (events : Events) (thread_id model_tag : String)
      → IsBounded extra (pop_matched_thread q events thread_id model_tag).1
  pop_matched-IsBounded events thread_id model_tag =
      elim (pop_matched-cases q events thread_id model_tag) [
        | inl (s, front, back, e, _, _, _, popped) ↦
            rw popped (ground (arith, length_without front back q.staging s e))
        | inr (_, missed) ↦ rw missed b
      ]

  remove-IsBounded : (slot_id : String) → IsBounded extra (remove q slot_id).1
  remove-IsBounded slot_id = elim (remove-cases q slot_id) [
    | inl (s, front, back, e, _, removed) ↦
        rw removed (ground (arith, length_without front back q.staging s e))
    | inr (inl (s, front, back, e, _, removed)) ↦
        rw removed (ground (arith, length_without front back q.accept_buf s e))
    | inr (inr (_, _, missed)) ↦ rw missed b
  ]

  close-IsBounded : IsBounded extra (close q).1
  unfolding close
  close-IsBounded = ground arith

-- The head inserts among the calls.
abbrev pub heads : List Call → ℕ
heads [] = 0
heads (enqueues_head s ∷ cs) = suc (heads cs)
heads (_ ∷ cs) = heads cs

IsBounded-mono : {m n : ℕ} (q : Queue) → m ≤ n → IsBounded m q → IsBounded n q
IsBounded-mono q h b = ground arith

run-IsBounded :
    (cs : List Call) (extra : ℕ) (q : Queue)
    → IsBounded extra q
    → IsBounded (extra + heads cs) (run q cs)
unfolding run
run-IsBounded [] extra q b = IsBounded-mono q (omega arith) b
run-IsBounded (enqueues s ∷ cs) extra q b = run-IsBounded cs extra _ (enqueue-IsBounded extra q b s)
run-IsBounded (enqueues_head s ∷ cs) extra q b =
    IsBounded-mono _ (omega arith)
      (run-IsBounded cs (suc extra) _ (enqueue_head-IsBounded extra q b s))
run-IsBounded (pops events ∷ cs) extra q b =
    run-IsBounded cs extra _ (pop_next-IsBounded extra q b events)
run-IsBounded (pops_matched events thread_id model_tag ∷ cs) extra q b =
    run-IsBounded cs extra _ (pop_matched-IsBounded extra q b events thread_id model_tag)
run-IsBounded (removes slot_id ∷ cs) extra q b =
    run-IsBounded cs extra _ (remove-IsBounded extra q b slot_id)
run-IsBounded (closes ∷ cs) extra q b = run-IsBounded cs extra _ (close-IsBounded extra q b)

step-limits :
    (q : Queue) (c : Call)
    → ((step q c).staging_max ≡ q.staging_max) × ((step q c).acceptance_max ≡ q.acceptance_max)
unfolding enqueue enqueue_head close
step-limits q (enqueues s) = ground arith
step-limits q (enqueues_head s) = ground arith
step-limits q (pops events) = elim (pop_next-cases q events) [
  | inl (s, rest, e, popped) ↦ rw (popped, step) (refl, refl)
  | inr (e, popped) ↦ rw (popped, step) (refl, refl)
]
step-limits q (pops_matched events thread_id model_tag) =
    elim (pop_matched-cases q events thread_id model_tag) [
      | inl (s, front, back, e, _, _, _, popped) ↦ rw (popped, step) (refl, refl)
      | inr (_, missed) ↦ rw (missed, step) (refl, refl)
    ]
step-limits q (removes slot_id) = elim (remove-cases q slot_id) [
  | inl (s, front, back, e, _, removed) ↦ rw (removed, step) (refl, refl)
  | inr (inl (s, front, back, e, _, removed)) ↦ rw (removed, step) (refl, refl)
  | inr (inr (_, _, missed)) ↦ rw (missed, step) (refl, refl)
]
step-limits q closes = (refl, refl)

run-limits :
    (cs : List Call) (q : Queue)
    → ((run q cs).staging_max ≡ q.staging_max) × ((run q cs).acceptance_max ≡ q.acceptance_max)
unfolding run
run-limits [] q = (refl, refl)
run-limits (c ∷ cs) q = ground (arith, step-limits q c, run-limits cs (step q c))

-- After any calls on a new queue, in any order, the acceptance buffer is within its cap, and
-- staging exceeds its own by at most the number of `enqueue_head` calls made.
pub run-init-depth :
    (cs : List Call) (staging_max acceptance_max : ℕ)
    → ((depth (run (init staging_max acceptance_max) cs)).acceptance_buffer_depth ≤ acceptance_max)
      × ((depth (run (init staging_max acceptance_max) cs)).staging_queue_depth
          ≤ staging_max + heads cs)
unfolding depth init
run-init-depth cs m a =
    ground (arith, run-IsBounded cs 0 (init m a) (ground arith), run-limits cs (init m a))

-- The cap of staging is no bound once a head insert is made: on an open queue whose staging is
-- full, `enqueue_head` leaves staging above its cap, and `enqueue` does not.
enqueue_head-over_cap :
    (q : Queue) (s : Slot)
    → q.closed ≡ false
    → length q.staging ≡ q.staging_max
    → ((kept q (enqueue_head q s)).staging_max < length (kept q (enqueue_head q s)).staging)
      × (length (kept q (enqueue q s)).staging ≤ (kept q (enqueue q s)).staging_max)
unfolding enqueue_head enqueue
enqueue_head-over_cap q s open_ full = ground arith

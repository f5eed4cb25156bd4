-- ===== src/Queue/Labels.antt =====
-- The state that a queued slot carries says in which tier it is.
use southpaw_turbohaul.Base.{
  ℕ, String, ◌≡◌, refl, inl, inr, true, Option, none, some, List, [], ◌∷◌, ◌++◌, arith, All,
  All-append, All-split, Bool-cases, ltb, length,
}
use southpaw_turbohaul.Slot.{Slot, Events, staged, accept_buffer, loading, active_match}
use southpaw_turbohaul.Fsm.{can_transition}
use southpaw_turbohaul.Queue.{
  Queue, init, enqueue, enqueue_head, pop_first, drain_buffer, replenish, pop_next,
  pop_matched_thread, remove, close, Call, enqueues, enqueues_head, pops, pops_matched, removes,
  closes, step, run, to_staged, to_buffered, kept, max_drain, flag_evicted,
}
use southpaw_turbohaul.Queue.Pop.{pop_first-cases, pop_next-cases, pop_matched-cases, remove-cases}

abbrev pub Staged : Slot → Type 0
Staged s = s.state ≡ staged

abbrev pub Buffered : Slot → Type 0
Buffered s = s.state ≡ accept_buffer

pub record IsLabelled (q : Queue) : Type 0 where
  pub in_staging : All Staged q.staging
  pub in_buffer : All Buffered q.accept_buf

Staged-flag_evicted : (events : Events) (s : Slot) → Staged s → Staged (flag_evicted events s)
Staged-flag_evicted events s h = ground arith

drain_buffer-labels :
    (limit : ℕ) (st buf : List Slot)
    → All Staged st
    → All Buffered buf
    → All Staged (drain_buffer limit st buf).0 × All Buffered (drain_buffer limit st buf).1
unfolding drain_buffer
drain_buffer-labels limit st [] h k = (h, tt)
drain_buffer-labels limit st (s ∷ buf) h k =
    let rest =
      drain_buffer-labels limit (st ++ to_staged s ∷ []) buf
        (All-append Staged st (to_staged s ∷ []) h (refl, tt)) k.1 in
    elim (Bool-cases (ltb (length st) limit)) [
      | inl room ↦ rw room rest
      | inr full ↦ rw full (h, k)
    ]

replenish-labels :
    (limit : ℕ) (st buf : List Slot)
    → All Staged st
    → All Buffered buf
    → All Staged (replenish limit st buf).0 × All Buffered (replenish limit st buf).1
unfolding replenish
replenish-labels limit st [] h k = (h, tt)
replenish-labels limit st (s ∷ buf) h k = elim (Bool-cases (ltb (length st) limit)) [
  | inl room ↦ rw room (All-append Staged st (to_staged s ∷ []) h (refl, tt), k.1)
  | inr full ↦ rw full (h, k)
]

-- A slot that a pop returns, if any, is labelled STAGED.
abbrev pub IsStaged? : Option Slot → Type 0
IsStaged? none = Unit {0}
IsStaged? (some s) = Staged s

pop_first-labels :
    (events : Events) (l : List Slot)
    → All Staged l
    → IsStaged? (pop_first events l max_drain).0 × All Staged (pop_first events l max_drain).1
pop_first-labels events l h = elim (pop_first-cases events l) [
  | inl (s, rest, e, popped) ↦
      let (hs, hr) = All-split Staged [] rest l s e h in
      rw popped (Staged-flag_evicted events s hs, hr)
  | inr (e, empty) ↦ rw empty (tt, tt)
]

module _ (q : Queue) (v : IsLabelled q) where
  enqueue-IsLabelled : (s : Slot) → IsLabelled (kept q (enqueue q s))
  unfolding enqueue
  enqueue-IsLabelled s =
      let st = All-append Staged q.staging (to_staged s ∷ []) v.in_staging (refl, tt) in
      let bf = All-append Buffered q.accept_buf (to_buffered s ∷ []) v.in_buffer (refl, tt) in
      ground (arith, st, bf)

  pop_next-labels :
      (events : Events) → IsStaged? (pop_next q events).0 × IsLabelled (pop_next q events).1
  pop_next-labels events = elim (pop_next-cases q events) [
    | inl (s, rest, e, popped) ↦
        let (hs, hr) = All-split Staged [] rest q.staging s e v.in_staging in
        let (st, bf) = replenish-labels q.staging_max rest q.accept_buf hr v.in_buffer in
        rw popped (Staged-flag_evicted events s hs, record { in_staging = st; in_buffer = bf })
    | inr (e, popped) ↦
        let (st, bf) = drain_buffer-labels q.staging_max [] q.accept_buf tt v.in_buffer in
        let (hs, hr) = pop_first-labels events (drain_buffer q.staging_max [] q.accept_buf).0 st in
        rw popped (hs, record { in_staging = hr; in_buffer = bf })
  ]

  pop_matched-labels :
      (events : Events) (thread_id model_tag : String)
      → IsStaged? (pop_matched_thread q events thread_id model_tag).0
        × IsLabelled (pop_matched_thread q events thread_id model_tag).1
  pop_matched-labels events thread_id model_tag =
      elim (pop_matched-cases q events thread_id model_tag) [
        | inl (s, front, back, e, _, _, _, popped) ↦
            let (hs, hr) = All-split Staged front back q.staging s e v.in_staging in
            rw popped
              (Staged-flag_evicted events s hs, record { in_staging = hr; in_buffer = v.in_buffer })
        | inr (_, missed) ↦ rw missed (tt, v)
      ]

  remove-IsLabelled : (slot_id : String) → IsLabelled (remove q slot_id).1
  remove-IsLabelled slot_id = elim (remove-cases q slot_id) [
    | inl (s, front, back, e, _, removed) ↦
        let (_, hr) = All-split Staged front back q.staging s e v.in_staging in
        rw removed (record { in_staging = hr; in_buffer = v.in_buffer })
    | inr (inl (s, front, back, e, _, removed)) ↦
        let (_, hr) = All-split Buffered front back q.accept_buf s e v.in_buffer in
        rw removed (record { in_staging = v.in_staging; in_buffer = hr })
    | inr (inr (_, _, missed)) ↦ rw missed v
  ]

step-IsLabelled : (q : Queue) (c : Call) → IsLabelled q → IsLabelled (step q c)
unfolding enqueue_head close
step-IsLabelled q (enqueues s) v = enqueue-IsLabelled q v s
step-IsLabelled q (enqueues_head s) v = ground arith
step-IsLabelled q (pops events) v = (pop_next-labels q v events).1
step-IsLabelled q (pops_matched events thread_id model_tag) v =
    (pop_matched-labels q v events thread_id model_tag).1
step-IsLabelled q (removes slot_id) v = remove-IsLabelled q v slot_id
step-IsLabelled q closes v = record { in_staging = tt; in_buffer = tt }

-- The calls of a queue keep its labels: every slot in staging is in state STAGED and every slot in
-- the acceptance buffer in state ACCEPT_BUFFER.
pub run-IsLabelled : (cs : List Call) (q : Queue) → IsLabelled q → IsLabelled (run q cs)
unfolding run
run-IsLabelled [] q v = v
run-IsLabelled (c ∷ cs) q v = run-IsLabelled cs (step q c) (step-IsLabelled q c v)

pub init-IsLabelled :
    (staging_max acceptance_max : ℕ) → IsLabelled (init staging_max acceptance_max)
unfolding init
init-IsLabelled m a = record { in_staging = tt; in_buffer = tt }

-- Both transitions that the manager makes on a popped slot.
abbrev pub CanStart : Option Slot → Type 0
CanStart none = Unit {0}
CanStart (some s) = (can_transition s loading ≡ true) × (can_transition s active_match ≡ true)

CanStart-IsStaged? : (o : Option Slot) → IsStaged? o → CanStart o
unfolding can_transition
CanStart-IsStaged? none h = tt
CanStart-IsStaged? (some s) h = ground arith

-- Whatever calls were made on a new queue, a slot that `pop_next` or `pop_matched_thread` then
-- returns can be moved to LOADING and to ACTIVE_MATCH: the worker's first transition is legal.
pub popped-CanStart :
    (cs : List Call) (staging_max acceptance_max : ℕ) (events : Events)
    (thread_id model_tag : String)
    → CanStart (pop_next (run (init staging_max acceptance_max) cs) events).0
      × CanStart
          (pop_matched_thread
            (run (init staging_max acceptance_max) cs)
            events
            thread_id
            model_tag).0
popped-CanStart cs m a events thread_id model_tag =
    let v = run-IsLabelled cs (init m a) (init-IsLabelled m a) in
    (
      CanStart-IsStaged? _ (pop_next-labels _ v events).0,
      CanStart-IsStaged? _ (pop_matched-labels _ v events thread_id model_tag).0,
    )

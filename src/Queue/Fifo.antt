-- ===== src/Queue/Fifo.antt =====
-- First in, first out: when the two tiers behave as one line.
use southpaw_turbohaul.Base.{
  ℕ, suc, ◌≤◌, ◌<◌, String, ◌≡◌, refl, sym, ap, ◌∙◌, ◌⊎◌, inl, inr, true, false, none, some, List,
  [], ◌∷◌, ◌++◌, append_assoc, append-nil, arith, ltb, leb, length, length-append, Bool-cases,
  Option-cases, lt→ltb,
}
use southpaw_turbohaul.Slot.{Slot, Events}
use southpaw_turbohaul.Queue.{
  Queue, enqueue, pop_first, drain_buffer, replenish, pop_next, pop_matched_thread, to_staged, kept,
  max_drain, init,
}
use southpaw_turbohaul.Queue.Pop.{pop_first-cases, pop_next-cases, pop_matched-cases}
use southpaw_turbohaul.Queue.View.{ids, line_laws, view, served_by, accepted_by, view-pop_next}

-- A slot waits in the buffer only while staging is full.
abbrev pub IsPacked : Queue → Type 0
IsPacked q = (q.accept_buf ≡ []) ⊎ (q.staging_max ≤ length q.staging)

not_room :
    (q : Queue) → IsPacked q → ltb (length q.staging) q.staging_max ≡ true → q.accept_buf ≡ []
not_room q (inl e) room = e
not_room q (inr full) room = absurd (ground arith)

-- An accepted slot goes to the end of the line.
view-enqueue :
    (q : Queue) (s : Slot)
    → IsPacked q
    → view (kept q (enqueue q s)) ≡ view q ++ accepted_by (enqueue q s)
unfolding enqueue
view-enqueue q s p = elim (Bool-cases q.closed) [
  | inl closed ↦ rw (closed, append-nil (view q)) refl
  | inr open_ ↦ elim (Bool-cases (ltb (length q.staging) q.staging_max)) [
    | inl room ↦ rw (open_, room, not_room q p room) (simp line_laws)
    | inr full ↦ elim (Bool-cases (leb q.acceptance_max (length q.accept_buf))) [
      | inl refused ↦ rw (open_, full, refused) (simp line_laws)
      | inr room ↦ rw (open_, full, room) (simp line_laws)
    ]
  ]
]

enqueue-IsPacked : (q : Queue) (s : Slot) → IsPacked q → IsPacked (kept q (enqueue q s))
unfolding enqueue
enqueue-IsPacked q s p = ground (arith, length-append q.staging (to_staged s ∷ []), not_room q p)

replenish-IsPacked :
    (limit : ℕ) (st buf : List Slot)
    → (buf ≡ []) ⊎ (limit ≤ suc (length st))
    → ((replenish limit st buf).1 ≡ []) ⊎ (limit ≤ length (replenish limit st buf).0)
unfolding replenish
replenish-IsPacked limit st [] h = inl refl
replenish-IsPacked limit st (s ∷ buf) h = ground (arith, length-append st (to_staged s ∷ []))

pop_next-IsPacked :
    (q : Queue) (events : Events) → 0 < q.staging_max → IsPacked q → IsPacked (pop_next q events).1
unfolding drain_buffer
pop_next-IsPacked q events h p = elim (pop_next-cases q events) [
  | inl (s, rest, e, popped) ↦
      rw popped (replenish-IsPacked q.staging_max rest q.accept_buf (ground (arith, ap length e)))
  | inr (e, popped) ↦
      let empty = not_room q p (ground (arith, ap length e)) in rw popped (inl (rw empty refl))
]

limit-enqueue : (q : Queue) (s : Slot) → 0 < q.staging_max → 0 < (kept q (enqueue q s)).staging_max
unfolding enqueue
limit-enqueue q s h = ground arith

limit-pop_next :
    (q : Queue) (events : Events) → 0 < q.staging_max → 0 < (pop_next q events).1.staging_max
limit-pop_next q events h = elim (pop_next-cases q events) [
  | inl (s, rest, e, popped) ↦ rw popped h
  | inr (e, popped) ↦ rw popped h
]

-- Requests that arrive (`enqueue`) and the worker's pops (`pop_next`), in the order they take the
-- lock.
pub data Traffic : Type 0 where
  arrives : Slot → Traffic
  pops : Events → Traffic

unfoldable pub play : Queue → List Traffic → Queue
play q [] = q
play q (arrives s ∷ ts) = play (kept q (enqueue q s)) ts
play q (pops events ∷ ts) = play (pop_next q events).1 ts

-- The ids taken in, in order of arrival, and the ids handed out, in order of service.
unfoldable pub accepted : Queue → List Traffic → List String
accepted q [] = []
accepted q (arrives s ∷ ts) = accepted_by (enqueue q s) ++ accepted (kept q (enqueue q s)) ts
accepted q (pops events ∷ ts) = accepted (pop_next q events).1 ts

unfoldable pub served : Queue → List Traffic → List String
served q [] = []
served q (arrives s ∷ ts) = served (kept q (enqueue q s)) ts
served q (pops events ∷ ts) = served_by (pop_next q events).0 ++ served (pop_next q events).1 ts

-- Under arrivals and pops alone, from a queue whose staging has room for at least one slot and whose
-- buffer holds slots only while staging is full, the queue is first in, first out: the slots handed
-- out, followed by those still waiting, are those that waited at the start, followed by those
-- accepted, in order.
pub played_in_order :
    (ts : List Traffic) (q : Queue)
    → 0 < q.staging_max
    → IsPacked q
    → served q ts ++ view (play q ts) ≡ view q ++ accepted q ts
unfolding play accepted served
played_in_order [] q h p = sym (append-nil (view q))
played_in_order (arrives s ∷ ts) q h p =
    played_in_order ts (kept q (enqueue q s)) (limit-enqueue q s h) (enqueue-IsPacked q s p)
    ∙ ap (λ l. l ++ accepted (kept q (enqueue q s)) ts) (view-enqueue q s p)
    ∙ append_assoc (view q) (accepted_by (enqueue q s)) (accepted (kept q (enqueue q s)) ts)
played_in_order (pops events ∷ ts) q h p =
    let q' = (pop_next q events).1 in
    append_assoc (served_by (pop_next q events).0) (served q' ts) (view (play q' ts))
    ∙ ap (◌++◌ (served_by (pop_next q events).0))
        (played_in_order ts q' (limit-pop_next q events h) (pop_next-IsPacked q events h p))
    ∙ sym (append_assoc (served_by (pop_next q events).0) (view q') (accepted q' ts))
    ∙ ap (λ l. l ++ accepted q' ts) (view-pop_next q events)

pub init-IsPacked : (staging_max acceptance_max : ℕ) → IsPacked (init staging_max acceptance_max)
unfolding init
init-IsPacked m a = inl refl

length-drain_buffer-ge :
    (limit : ℕ) (st buf : List Slot) → length st ≤ length (drain_buffer limit st buf).0
unfolding drain_buffer
length-drain_buffer-ge limit st [] = omega arith
length-drain_buffer-ge limit st (s ∷ buf) = ground (
  arith,
  length-drain_buffer-ge limit (st ++ to_staged s ∷ []) buf,
  length-append st (to_staged s ∷ []),
)

-- A drain into empty staging moves the front of the buffer, if there is one.
drained-nil :
    (limit : ℕ) (buf : List Slot) → 0 < limit → (drain_buffer limit [] buf).0 ≡ [] → buf ≡ []
unfolding drain_buffer
drained-nil limit [] h e = refl
drained-nil limit (s ∷ buf) h e = absurd (
    ground
      (arith, length-drain_buffer-ge limit (to_staged s ∷ []) buf, ap length e, lt→ltb 0 limit h))

pop_first-none :
    (events : Events) (l : List Slot) → (pop_first events l max_drain).0 ≡ none → l ≡ []
pop_first-none events l h = elim (pop_first-cases events l) [
  | inl (s, rest, e, popped) ↦ cc (ap (λ r. r.0) popped)
  | inr (e, empty) ↦ e
]

pop_next-none :
    (q : Queue) (events : Events) → 0 < q.staging_max → (pop_next q events).0 ≡ none → view q ≡ []
pop_next-none q events h e = elim (pop_next-cases q events) [
  | inl (s, rest, _, popped) ↦ cc (ap (λ r. r.0) popped)
  | inr (empty, popped) ↦
      let no_drained = pop_first-none events _ (sym (ap (λ r. r.0) popped) ∙ e) in
      rw (empty, drained-nil q.staging_max q.accept_buf h no_drained) refl
]

-- A pop from a queue with room in staging for at least one slot comes back empty-handed only when
-- nobody waits in either tier; otherwise it serves the front of the line, whatever events are set.
pub pop_next-front :
    (q : Queue) (events : Events)
    → 0 < q.staging_max
    → ((pop_next q events).0 ≡ none) × (view q ≡ []) × (view (pop_next q events).1 ≡ [])
      ⊎ ((s : Slot) × ((pop_next q events).0 ≡ some s)
          × (view q ≡ s.slot_id ∷ view (pop_next q events).1))
pop_next-front q events h = elim (Option-cases (pop_next q events).0) [
  | inl e ↦
      let waits = pop_next-none q events h e in
      inl (e, waits, rw e at (view-pop_next q events) ∙ waits)
  | inr (s, e) ↦ inr (s, e, sym (rw e at (view-pop_next q events)))
]

-- An enqueue into a queue whose staging has room while slots wait in the buffer puts the new slot
-- ahead of all of them.
enqueue-overtakes :
    (q : Queue) (s : Slot)
    → q.closed ≡ false
    → length q.staging < q.staging_max
    → view (kept q (enqueue q s)) ≡ ids q.staging ++ s.slot_id ∷ ids q.accept_buf
unfolding enqueue
enqueue-overtakes q s open_ room = rw (open_, lt→ltb _ _ room) (simp line_laws)

-- What a match leaves behind, while slots wait in the buffer, is room in staging that nothing
-- fills: the next enqueue goes ahead of the whole buffer, so the line is no longer first in, first
-- out. This holds on every open queue within its cap from which `pop_matched_thread` took a slot.
pub pop_matched-enqueue_overtakes :
    (q : Queue) (events : Events) (thread_id model_tag : String) (m s : Slot)
    → q.closed ≡ false
    → length q.staging ≤ q.staging_max
    → (pop_matched_thread q events thread_id model_tag).0 ≡ some m
    → view (
        kept
          (pop_matched_thread q events thread_id model_tag).1
          (enqueue (pop_matched_thread q events thread_id model_tag).1 s))
      ≡ ids (pop_matched_thread q events thread_id model_tag).1.staging
        ++ s.slot_id ∷ ids q.accept_buf
pop_matched-enqueue_overtakes q events thread_id model_tag m s open_ bounded found =
    elim (pop_matched-cases q events thread_id model_tag) [
      | inl (t, front, back, e, _, _, _, popped) ↦ rw popped (
          enqueue-overtakes (record q { staging = front ++ back }) s open_
            (omega (
              arith,
              ap length e,
              length-append front (t ∷ back),
              length-append front back,
              bounded,
            )))
      | inr (_, missed) ↦ cc (ap (λ r. r.0) missed)
    ]

-- ===== src/Queue.antt =====
-- src/turbohaul/queue.py, class TurbohaulQueue. A method returns the new queue beside its result;
-- the asyncio lock makes each method one step. Both deques are lists, the left end first.
pub mod Pop
pub mod View
pub mod Matching
pub mod Capacity
pub mod Labels
pub mod Fifo
pub mod Conserved
mod Examples
use southpaw_turbohaul.Base.{
  ℕ, zero, suc, String, Bool, true, false, ◌&&◌, Option, none, some, List, [], ◌∷◌, ◌++◌, ltb, leb,
  if◌then◌else◌, length, ◌==◌,
}
use southpaw_turbohaul.Slot.{Slot, Events, is_disconnected, accept_buffer, staged}

pub record Queue : Type 0 where
  pub staging_max : ℕ
  pub acceptance_max : ℕ
  pub accept_buf : List Slot
  pub staging : List Slot
  pub closed : Bool

pub data QueueError : Type 0 where
  queue_closed queue_full : QueueError

-- A call that raises leaves the queue and the slot as they were.
pub data Result {ℓ} (A : Type ℓ) : Type ℓ where
  ok : A → Result A
  err : QueueError → Result A

unfoldable pub init : ℕ → ℕ → Queue
init staging_max acceptance_max = record {
  staging_max = staging_max;
  acceptance_max = acceptance_max;
  accept_buf = [];
  staging = [];
  closed = false;
}

abbrev pub to_staged : Slot → Slot
to_staged s = record s { state = staged }

abbrev pub to_buffered : Slot → Slot
to_buffered s = record s { state = accept_buffer }

-- The caller's slot is mutated too, so the call returns it.
unfoldable pub enqueue : Queue → Slot → Result (Slot × Queue)
enqueue q s =
    if q.closed
    then err queue_closed
    else if ltb (length q.staging) q.staging_max
    then ok (to_staged s, record q { staging = q.staging ++ to_staged s ∷ [] })
    else if leb q.acceptance_max (length q.accept_buf)
    then err queue_full
    else ok (to_buffered s, record q { accept_buf = q.accept_buf ++ to_buffered s ∷ [] })

unfoldable pub enqueue_head : Queue → Slot → Result (Slot × Queue)
enqueue_head q s =
    if q.closed
    then err queue_closed
    else ok (to_staged s, record q { staging = to_staged s ∷ q.staging })

-- `if slot.disconnect_event is not None and slot.disconnect_event.is_set(): slot.is_evicted = True`
abbrev pub flag_evicted : Events → Slot → Slot
flag_evicted events s = if is_disconnected events s then record s { is_evicted = true } else s

-- `_pop_first_non_evicted_from`. Either branch of the loop's body returns, so no second round of
-- the loop is ever made.
unfoldable pub pop_first : Events → List Slot → ℕ → Option Slot × List Slot
pop_first events [] max_drain = (none, [])
pop_first events (s ∷ buf) max_drain =
    if ltb 0 max_drain then (some (flag_evicted events s), buf) else (none, s ∷ buf)

abbrev pub max_drain : ℕ
max_drain = 10

-- `while self._accept_buf and len(self._staging) < self.staging_max`: the staging list and what is
-- left of the buffer.
unfoldable pub drain_buffer : ℕ → List Slot → List Slot → List Slot × List Slot
drain_buffer limit staging [] = (staging, [])
drain_buffer limit staging (s ∷ buf) =
    let rest = drain_buffer limit (staging ++ to_staged s ∷ []) buf in
    if ltb (length staging) limit then rest else (staging, s ∷ buf)

-- `if self._accept_buf and len(self._staging) < self.staging_max`: one round of the same.
unfoldable pub replenish : ℕ → List Slot → List Slot → List Slot × List Slot
replenish limit staging [] = (staging, [])
replenish limit staging (s ∷ buf) =
    if ltb (length staging) limit then (staging ++ to_staged s ∷ [], buf) else (staging, s ∷ buf)

abbrev with_lists : Queue → List Slot × List Slot → Queue
with_lists q (staging, buf) = record q { staging = staging; accept_buf = buf }

-- The first pop found a slot: replenish, and return it.
pop_found : Queue → List Slot → Slot → Option Slot × Queue
unfolding replenish
pop_found q rest s = (some s, with_lists q (replenish q.staging_max rest q.accept_buf))

-- It found none: drain the buffer into staging, and try once more.
pop_again : Queue → Events → List Slot → Option Slot × Queue
unfolding drain_buffer pop_first
pop_again q events staging =
    let (staging', buf) = drain_buffer q.staging_max staging q.accept_buf in
    let (found, rest) = pop_first events staging' max_drain in (found, with_lists q (rest, buf))

pop_with : Queue → Events → Option Slot × List Slot → Option Slot × Queue
unfolding pop_found pop_again
pop_with q events (some s, rest) = pop_found q rest s
pop_with q events (none, rest) = pop_again q events rest

unfoldable pub pop_next : Queue → Events → Option Slot × Queue
unfolding pop_first pop_with
pop_next q events = pop_with q events (pop_first events q.staging max_drain)

abbrev pub matches : String → String → Slot → Bool
matches thread_id model_tag s = s.thread_id == thread_id && s.model_tag == model_tag

find_first : (Slot → Bool) → List Slot → Option Slot
find_first p [] = none
find_first p (s ∷ l) = if p s then some s else find_first p l

-- The entry that the scan passed stays in front of what is left.
abbrev pub pass : Slot → Option (Slot × List Slot) → Option (Slot × List Slot)
pass s none = none
pass s (some (t, r)) = some (t, s ∷ r)

-- `for i, s in enumerate(buf): if p(s): del buf[i]; return s`
unfoldable pub delete_first : (Slot → Bool) → List Slot → Option (Slot × List Slot)
delete_first p [] = none
delete_first p (s ∷ l) = if p s then some (s, l) else pass s (delete_first p l)

unfoldable pub find_matched_thread : Queue → String → String → Option Slot
unfolding find_first
find_matched_thread q thread_id model_tag =
    if thread_id == "" then none else find_first (matches thread_id model_tag) q.staging

unfoldable pub pop_matched_thread : Queue → Events → String → String → Option Slot × Queue
unfolding delete_first
pop_matched_thread q events thread_id model_tag =
    if thread_id == ""
    then (none, q)
    else elim (delete_first (matches thread_id model_tag) q.staging) [
      | none ↦ (none, q)
      | some (s, rest) ↦ (some (flag_evicted events s), record q { staging = rest })
    ]

abbrev pub has_id : String → Slot → Bool
has_id slot_id s = s.slot_id == slot_id

unfoldable pub remove : Queue → String → Option Slot × Queue
unfolding delete_first
remove q slot_id = elim (delete_first (has_id slot_id) q.staging) [
  | some (s, rest) ↦ (some s, record q { staging = rest })
  | none ↦ elim (delete_first (has_id slot_id) q.accept_buf) [
    | some (s, rest) ↦ (some s, record q { accept_buf = rest })
    | none ↦ (none, q)
  ]
]

unfoldable pub peek_staging : Queue → List Slot
peek_staging q = q.staging

pub record Depth : Type 0 where
  pub acceptance_buffer_depth : ℕ
  pub staging_queue_depth : ℕ
  pub staging_queue_max : ℕ
  pub acceptance_buffer_max : ℕ

unfoldable pub depth : Queue → Depth
depth q = record {
  acceptance_buffer_depth = length q.accept_buf;
  staging_queue_depth = length q.staging;
  staging_queue_max = q.staging_max;
  acceptance_buffer_max = q.acceptance_max;
}

unfoldable pub close : Queue → List Slot × Queue
close q = (q.staging ++ q.accept_buf, record q { closed = true; accept_buf = []; staging = [] })

-- One call of a method, for histories; a call that raises leaves the queue as it was.
pub data Call : Type 0 where
  enqueues enqueues_head : Slot → Call
  pops : Events → Call
  pops_matched : Events → String → String → Call
  removes : String → Call
  closes : Call

abbrev pub kept : Queue → Result (Slot × Queue) → Queue
kept q (ok (s, q')) = q'
kept q (err e) = q

abbrev pub step : Queue → Call → Queue
step q (enqueues s) = kept q (enqueue q s)
step q (enqueues_head s) = kept q (enqueue_head q s)
step q (pops events) = (pop_next q events).1
step q (pops_matched events thread_id model_tag) =
    (pop_matched_thread q events thread_id model_tag).1
step q (removes slot_id) = (remove q slot_id).1
step q closes = (close q).1

unfoldable pub run : Queue → List Call → Queue
run q [] = q
run q (c ∷ cs) = run (step q c) cs

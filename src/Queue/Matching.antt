-- ===== src/Queue/Matching.antt =====
-- The grace-window rematch: which slot `pop_matched_thread` takes, and how an eviction shows.
use southpaw_turbohaul.Base.{
  ℕ, String, ◌≡◌, refl, ◌⊎◌, inl, inr, Bool, true, false, Option, none, some, List, [], ◌∷◌, ◌++◌,
  arith, All, All-append, All-split, Bool-cases, ltb, length, ◌==◌,
}
use southpaw_turbohaul.Slot.{Slot, Events, is_disconnected}
use southpaw_turbohaul.Queue.{
  Queue, pop_first, drain_buffer, pop_next, find_first, find_matched_thread, pop_matched_thread,
  to_staged, max_drain, flag_evicted, matches,
}
use southpaw_turbohaul.Queue.Pop.{pop_first-cases, pop_next-cases, pop_matched-cases}

find_first-hit :
    (p : Slot → Bool) (front back : List Slot) (s : Slot)
    → All (λ x. p x ≡ false) front
    → p s ≡ true
    → find_first p (front ++ s ∷ back) ≡ some s
unfolding find_first
find_first-hit p [] back s before hit = rw hit refl
find_first-hit p (x ∷ front) back s before hit =
    rw before.0 (find_first-hit p front back s before.1 hit)

find_first-miss :
    (p : Slot → Bool) (l : List Slot) → All (λ x. p x ≡ false) l → find_first p l ≡ none
unfolding find_first
find_first-miss p [] all = refl
find_first-miss p (x ∷ l) all = rw all.0 (find_first-miss p l all.1)

module _ (q : Queue) (thread_id model_tag : String) where
  find-hit :
      (front back : List Slot) (s : Slot)
      → q.staging ≡ front ++ s ∷ back
      → All (λ x. matches thread_id model_tag x ≡ false) front
      → matches thread_id model_tag s ≡ true
      → (thread_id == "") ≡ false
      → find_matched_thread q thread_id model_tag ≡ some s
  unfolding find_matched_thread
  find-hit front back s e before hit named =
      rw (named, e) (find_first-hit (matches thread_id model_tag) front back s before hit)

  find-miss :
      ((thread_id == "") ≡ true) ⊎ All (λ x. matches thread_id model_tag x ≡ false) q.staging
      → find_matched_thread q thread_id model_tag ≡ none
  unfolding find_matched_thread
  find-miss (inl empty) = rw empty refl
  find-miss (inr all) = elim (Bool-cases (thread_id == "")) [
    | inl empty ↦ rw empty refl
    | inr named ↦ rw (named, find_first-miss (matches thread_id model_tag) q.staging all) refl
  ]

  -- `pop_matched_thread` agrees with the read-only `find_matched_thread`. Where that finds nothing
  -- the queue is unchanged. Where it finds a slot, this is the oldest match in staging; the pop
  -- returns it, with the eviction flag set if its client is gone, and takes it alone out of
  -- staging, whose order it keeps. The acceptance buffer is left as it is.
  pub pop_matched-find :
      (events : Events)
      → ((find_matched_thread q thread_id model_tag ≡ none)
          × (pop_matched_thread q events thread_id model_tag ≡ (none, q)))
        ⊎ ((s : Slot) × (front : List Slot) × (back : List Slot) × (find_matched_thread q thread_id
                model_tag
              ≡ some s)
            × (q.staging ≡ front ++ s ∷ back)
            × All (λ x. matches thread_id model_tag x ≡ false) front
            × (matches thread_id model_tag s ≡ true)
            × (pop_matched_thread q events thread_id model_tag
                ≡ (some (flag_evicted events s), record q { staging = front ++ back })))
  pop_matched-find events = elim (pop_matched-cases q events thread_id model_tag) [
    | inl (s, front, back, e, before, hit, named, popped) ↦
        inr (s, front, back, find-hit front back s e before hit named, e, before, hit, popped)
    | inr (why, missed) ↦ inl (find-miss why, missed)
  ]

-- No queued slot carries the eviction flag: `Slot.new` clears it and only the pops set it.
abbrev pub Unflagged : Slot → Type 0
Unflagged s = s.is_evicted ≡ false

-- A slot that comes out is flagged exactly if its disconnect event is set.
abbrev pub IsFlagExact : Events → Option Slot → Type 0
IsFlagExact events none = Unit {0}
IsFlagExact events (some s) = s.is_evicted ≡ is_disconnected events s

flag_evicted-exact :
    (events : Events) (s : Slot) → Unflagged s → IsFlagExact events (some (flag_evicted events s))
flag_evicted-exact events s h = ground arith

pop_first-exact :
    (events : Events) (l : List Slot)
    → All Unflagged l
    → IsFlagExact events (pop_first events l max_drain).0
pop_first-exact events l h = elim (pop_first-cases events l) [
  | inl (s, rest, e, popped) ↦
      rw popped (flag_evicted-exact events s (All-split Unflagged [] rest l s e h).0)
  | inr (e, empty) ↦ rw empty tt
]

drain_buffer-Unflagged :
    (limit : ℕ) (st buf : List Slot)
    → All Unflagged st
    → All Unflagged buf
    → All Unflagged (drain_buffer limit st buf).0
unfolding drain_buffer
drain_buffer-Unflagged limit st [] h k = h
drain_buffer-Unflagged limit st (s ∷ buf) h k =
    let more =
      drain_buffer-Unflagged limit (st ++ to_staged s ∷ []) buf
        (All-append Unflagged st (to_staged s ∷ []) h (k.0, tt)) k.1 in
    elim (Bool-cases (ltb (length st) limit)) [ inl room ↦ rw room more | inr full ↦ rw full h ]

-- From a queue that holds no flagged slot, the slot that `pop_next` or `pop_matched_thread`
-- returns is flagged as evicted exactly if its client's disconnect event is set at that moment.
popped-IsFlagExact :
    (q : Queue) (events : Events) (thread_id model_tag : String)
    → All Unflagged q.staging
    → All Unflagged q.accept_buf
    → IsFlagExact events (pop_next q events).0
      × IsFlagExact events (pop_matched_thread q events thread_id model_tag).0
popped-IsFlagExact q events thread_id model_tag st bf = (from_next, from_matched)
  where
    from_next : IsFlagExact events (pop_next q events).0
    from_next = elim (pop_next-cases q events) [
      | inl (s, rest, e, popped) ↦
          rw popped (flag_evicted-exact events s (All-split Unflagged [] rest q.staging s e st).0)
      | inr (e, popped) ↦
          rw popped
            (pop_first-exact events _ (drain_buffer-Unflagged q.staging_max [] q.accept_buf tt bf))
    ]

    from_matched : IsFlagExact events (pop_matched_thread q events thread_id model_tag).0
    from_matched = elim (pop_matched-cases q events thread_id model_tag) [
      | inl (s, front, back, e, _, _, _, popped) ↦
          rw popped
            (flag_evicted-exact events s (All-split Unflagged front back q.staging s e st).0)
      | inr (_, missed) ↦ rw missed tt
    ]

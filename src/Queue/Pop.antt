-- ===== src/Queue/Pop.antt =====
-- The branches of `pop_next`, and of the scans that the other removals share.
use southpaw_turbohaul.Base.{
  String, ◌==◌, ◌≡◌, refl, ap, ◌⊎◌, inl, inr, Bool, true, false, none, some, List, [], ◌∷◌, ◌++◌,
  Bool-cases, All,
}
use southpaw_turbohaul.Slot.{Slot, Events}
use southpaw_turbohaul.Queue.{
  Queue, pop_first, drain_buffer, replenish, pop_next, with_lists, flag_evicted, delete_first,
  pop_matched_thread, remove, matches, has_id, max_drain,
}

-- The first pop sees the left end of the list, whatever events are set.
pub pop_first-cases :
    (events : Events) (l : List Slot)
    → ((s : Slot) × (rest : List Slot) × (l ≡ s ∷ rest)
        × (pop_first events l max_drain ≡ (some (flag_evicted events s), rest)))
      ⊎ ((l ≡ []) × (pop_first events l max_drain ≡ (none, [])))
unfolding pop_first
pop_first-cases events [] = inr (refl, refl)
pop_first-cases events (s ∷ rest) = inl (s, rest, refl, refl)

module _ (q : Queue) (events : Events) where
  pub pop_next-cases :
      ((s : Slot) × (rest : List Slot) × (q.staging ≡ s ∷ rest)
        × (pop_next q events ≡ (
          some (flag_evicted events s),
          with_lists q (replenish q.staging_max rest q.accept_buf),
        )))
      ⊎ ((q.staging ≡ [])
          × (pop_next q events ≡ (
            (pop_first events (drain_buffer q.staging_max [] q.accept_buf).0 max_drain).0,
            with_lists q (
              (pop_first events (drain_buffer q.staging_max [] q.accept_buf).0 max_drain).1,
              (drain_buffer q.staging_max [] q.accept_buf).1,
            ),
          )))
  unfolding pop_next
  pop_next-cases = elim (pop_first-cases events q.staging) [
    | inl (s, rest, e, popped) ↦ inl (s, rest, e, rw popped refl)
    | inr (e, empty) ↦ inr (e, rw empty refl)
  ]

-- A scan deletes the first match and keeps what stands before and after it.
pub delete_first-cases :
    (p : Slot → Bool) (l : List Slot)
    → ((s : Slot) × (front : List Slot) × (back : List Slot) × (l ≡ front ++ s ∷ back)
        × All (λ x. p x ≡ false) front
        × (p s ≡ true)
        × (delete_first p l ≡ some (s, front ++ back)))
      ⊎ (All (λ x. p x ≡ false) l × (delete_first p l ≡ none))
unfolding delete_first
delete_first-cases p [] = inr (tt, refl)
delete_first-cases p (x ∷ l) = elim (Bool-cases (p x)) [
  | inl hit ↦ inl (x, [], l, refl, tt, hit, rw hit refl)
  | inr miss ↦ elim (delete_first-cases p l) [
    | inl (s, front, back, e, before, hit, deleted) ↦
        inl (s, x ∷ front, back, ap (◌∷◌ x) e, (miss, before), hit, rw (miss, deleted) refl)
    | inr (all, missed) ↦ inr ((miss, all), rw (miss, missed) refl)
  ]
]

module _ (q : Queue) where
  pub pop_matched-cases :
      (events : Events) (thread_id model_tag : String)
      → ((s : Slot) × (front : List Slot) × (back : List Slot) × (q.staging ≡ front ++ s ∷ back)
          × All (λ x. matches thread_id model_tag x ≡ false) front
          × (matches thread_id model_tag s ≡ true)
          × ((thread_id == "") ≡ false)
          × (pop_matched_thread q events thread_id model_tag
              ≡ (some (flag_evicted events s), record q { staging = front ++ back })))
        ⊎ (((thread_id == "") ≡ true) ⊎ All (λ x. matches thread_id model_tag x ≡ false) q.staging)
          × (pop_matched_thread q events thread_id model_tag ≡ (none, q))
  unfolding pop_matched_thread
  pop_matched-cases events thread_id model_tag = elim (Bool-cases (thread_id == "")) [
    | inl empty ↦ inr (inl empty, rw empty refl)
    | inr named ↦ elim (delete_first-cases (matches thread_id model_tag) q.staging) [
      | inl (s, front, back, e, before, hit, deleted) ↦
          inl (s, front, back, e, before, hit, named, rw (named, deleted) refl)
      | inr (all, missed) ↦ inr (inr all, rw (named, missed) refl)
    ]
  ]

  pub remove-cases :
      (slot_id : String)
      → ((s : Slot) × (front : List Slot) × (back : List Slot) × (q.staging ≡ front ++ s ∷ back)
          × (has_id slot_id s ≡ true)
          × (remove q slot_id ≡ (some s, record q { staging = front ++ back })))
        ⊎ ((s : Slot) × (front : List Slot) × (back : List Slot) × (q.accept_buf
              ≡ front ++ s ∷ back)
            × (has_id slot_id s ≡ true)
            × (remove q slot_id ≡ (some s, record q { accept_buf = front ++ back })))
        ⊎ (All (λ x. has_id slot_id x ≡ false) q.staging
            × All (λ x. has_id slot_id x ≡ false) q.accept_buf
            × (remove q slot_id ≡ (none, q)))
  unfolding remove
  remove-cases slot_id = elim (delete_first-cases (has_id slot_id) q.staging) [
    | inl (s, front, back, e, _, hit, deleted) ↦
        inl (s, front, back, e, hit, rw (deleted, remove) refl)
    | inr (all, missed) ↦ elim (delete_first-cases (has_id slot_id) q.accept_buf) [
      | inl (s, front, back, e, _, hit, deleted) ↦
          inr (inl (s, front, back, e, hit, rw (missed, deleted, remove) refl))
      | inr (all', missed') ↦ inr (inr (all, all', rw (missed, missed', remove) refl))
    ]
  ]

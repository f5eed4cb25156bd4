-- ===== src/Queue/View.antt =====
-- The two tiers as one line of slot ids, the next to be served first.
use mathlib.Core.List.{map-append}
use southpaw_turbohaul.Base.{
  ℕ, String, ◌≡◌, refl, sym, ap, ◌∙◌, inl, inr, Option, none, some, List, [], ◌∷◌, ◌++◌, map,
  append_assoc, append-nil, arith, ltb, length, Bool-cases,
}
use southpaw_turbohaul.Slot.{Slot, Events}
use southpaw_turbohaul.Queue.{
  Queue, pop_first, drain_buffer, replenish, pop_next, Result, ok, err, to_staged, max_drain,
  flag_evicted,
}
use southpaw_turbohaul.Queue.Pop.{pop_first-cases, pop_next-cases}

abbrev pub ids : List Slot → List String
ids = map (λ s. s.slot_id)

pub ids-append : (xs ys : List Slot) → ids (xs ++ ys) ≡ ids xs ++ ids ys
ids-append xs ys = map-append (λ s. s.slot_id) xs ys

-- How the line is taken apart.
pub ruleset line_laws = (ids-append, append_assoc, append-nil)

abbrev pub view : Queue → List String
view q = ids q.staging ++ ids q.accept_buf

-- The ids that a pop hands out, and that an insert takes in.
abbrev pub served_by : Option Slot → List String
served_by none = []
served_by (some s) = s.slot_id ∷ []

abbrev pub accepted_by : Result (Slot × Queue) → List String
accepted_by (ok (s, q)) = s.slot_id ∷ []
accepted_by (err e) = []

pub ids-drain_buffer :
    (limit : ℕ) (st buf : List Slot)
    → ids (drain_buffer limit st buf).0 ++ ids (drain_buffer limit st buf).1 ≡ ids st ++ ids buf
unfolding drain_buffer
ids-drain_buffer limit st [] = refl
ids-drain_buffer limit st (s ∷ buf) = elim (Bool-cases (ltb (length st) limit)) [
  | inl room ↦ rw (room, ids-drain_buffer limit (st ++ to_staged s ∷ []) buf) (simp line_laws)
  | inr full ↦ rw full refl
]

pub ids-replenish :
    (limit : ℕ) (st buf : List Slot)
    → ids (replenish limit st buf).0 ++ ids (replenish limit st buf).1 ≡ ids st ++ ids buf
unfolding replenish
ids-replenish limit st [] = refl
ids-replenish limit st (s ∷ buf) = elim (Bool-cases (ltb (length st) limit)) [
  | inl room ↦ rw room (simp line_laws)
  | inr full ↦ rw full refl
]

pub id-flag_evicted : (events : Events) (s : Slot) → (flag_evicted events s).slot_id ≡ s.slot_id
id-flag_evicted events s = ground arith

ids-pop_first :
    (events : Events) (l : List Slot)
    → served_by (pop_first events l max_drain).0 ++ ids (pop_first events l max_drain).1 ≡ ids l
ids-pop_first events l = elim (pop_first-cases events l) [
  | inl (s, rest, e, popped) ↦ rw (popped, e, id-flag_evicted events s) refl
  | inr (e, empty) ↦ rw (empty, e) refl
]

-- The pop that follows a drain, as `pop_next` makes it when staging is empty.
ids-pop_drained :
    (events : Events) (st buf all : List Slot)
    → ids st ++ ids buf ≡ ids all
    → served_by (pop_first events st max_drain).0
        ++ (ids (pop_first events st max_drain).1 ++ ids buf)
      ≡ ids all
ids-pop_drained events st buf all e =
    sym (append_assoc (served_by (pop_first events st max_drain).0) _ (ids buf))
    ∙ ap (λ l. l ++ ids buf) (ids-pop_first events st)
    ∙ e

-- A pop takes the front of the line, and keeps the rest in order.
pub view-pop_next :
    (q : Queue) (events : Events)
    → served_by (pop_next q events).0 ++ view (pop_next q events).1 ≡ view q
view-pop_next q events = elim (pop_next-cases q events) [
  | inl (s, rest, e, popped) ↦
      rw (popped, e, id-flag_evicted events s, ids-replenish q.staging_max rest q.accept_buf) refl
  | inr (e, popped) ↦
      rw (popped, e)
        (ids-pop_drained events _ _ q.accept_buf (ids-drain_buffer q.staging_max [] q.accept_buf))
]

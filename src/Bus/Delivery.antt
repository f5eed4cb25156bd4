-- ===== src/Bus/Delivery.antt =====
-- What of a burst of events `EventBus` of src/turbohaul/manager.py delivers.
use southpaw_turbohaul.Base.{
  ℕ, zero, suc, ◌-◌, ◌≡◌, refl, sym, ap, ◌∙◌, true, false, List, [], ◌∷◌, ◌++◌, map, length,
  length-append, append-nil, append_assoc, arith, nat_eq, if◌then◌else◌, Bool-cases, inl, inr, leb,
}
use southpaw_turbohaul.Bus.{
  Event, Subscriber, EventBus, redact, is_full, put_nowait, publish_nowait, publishes, happen_all,
}

abbrev pub take : ℕ → List Event → List Event
take zero es = []
take (suc n) [] = []
take (suc n) (e ∷ es) = e ∷ take n es

-- How many of the events find room in the queue.
abbrev pub room_for : Subscriber → List Event → ℕ
room_for s es = if nat_eq s.maxsize 0 then length es else s.maxsize - length s.items

-- The queue with the events that find room, each redacted, behind what it held.
abbrev pub delivered : List Event → Subscriber → Subscriber
delivered es s = record s { items = s.items ++ map redact (take (room_for s es) es) }

put-delivered :
    (e : Event) (es : List Event) (s : Subscriber)
    → delivered es (put_nowait (redact e) s) ≡ delivered (e ∷ es) s
unfolding put_nowait
put-delivered e es s = elim (Bool-cases (nat_eq s.maxsize 0)) [
  | inl unbounded ↦
      let fits : is_full s ≡ false = ground arith in rw (fits, unbounded) (behind (length es))
  | inr bounded ↦ elim (Bool-cases (leb s.maxsize (length s.items))) [
    | inl filled ↦
        let full : is_full s ≡ true = ground arith in
        let no_room : s.maxsize - length s.items ≡ 0 = ground arith in
        rw (full, bounded, no_room) refl
    | inr free ↦
        let fits : is_full s ≡ false = ground arith in
        let room : s.maxsize - length s.items ≡ suc (s.maxsize - suc (length s.items)) =
          ground arith in
        let less : s.maxsize - length (s.items ++ redact e ∷ [])
            ≡ s.maxsize - suc (length s.items) =
          omega (arith, length-append s.items (redact e ∷ [])) in
        rw (fits, bounded, room, less) (behind (s.maxsize - suc (length s.items)))
  ]
]
  where
    behind :
        (n : ℕ)
        → ◌≡◌ {A = Subscriber}
            (record s { items = (s.items ++ redact e ∷ []) ++ map redact (take n es) })
            (record s { items = s.items ++ redact e ∷ map redact (take n es) })
    behind n =
        ap (λ (l : List Event). record s { items = l })
          (append_assoc s.items (redact e ∷ []) (map redact (take n es)))

deliver_map :
    (e : Event) (es : List Event) (bus : EventBus)
    → map (delivered es) (publish_nowait e bus) ≡ map (delivered (e ∷ es)) bus
unfolding publish_nowait
deliver_map e es [] = refl
deliver_map e es (s ∷ bus) = cc (put-delivered e es s, deliver_map e es bus)

take_nil : (n : ℕ) → take n [] ≡ []
take_nil zero = refl
take_nil (suc n) = refl

delivered_none : (s : Subscriber) → delivered [] s ≡ s
delivered_none s = rw (take_nil (room_for s []), append-nil s.items) refl

delivered_nil : (bus : EventBus) → map (delivered []) bus ≡ bus
delivered_nil [] = refl
delivered_nil (s ∷ bus) = cc (delivered_none s, delivered_nil bus)

-- Events that are published in a row reach every subscriber in order, redacted, up to the free room
-- of its queue; those that find no room are dropped, and no subscriber misses one for another's sake.
pub publish_all-delivered :
    (es : List Event) (bus : EventBus) → happen_all (map publishes es) bus ≡ map (delivered es) bus
unfolding happen_all
publish_all-delivered [] bus = sym (delivered_nil bus)
publish_all-delivered (e ∷ es) bus =
    publish_all-delivered es (publish_nowait e bus) ∙ deliver_map e es bus

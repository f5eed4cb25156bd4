-- ===== src/Bus/Redaction.antt =====
-- Which keys of an event `EventBus` of src/turbohaul/manager.py lets through.
use southpaw_turbohaul.Base.{
  ℕ, ◌≡◌, Bool, false, not, List, [], ◌∷◌, any, keep, map, All, All-append, Bool-cases, inl, inr,
}
use southpaw_turbohaul.Bus.{
  Event, Subscriber, EventBus, is_redacted, has_queue, subscribe, unsubscribe, redact, is_full,
  put_nowait, publish_nowait, Happening, subscribes, unsubscribes, reads, publishes, without_first,
  read, happen, happen_all,
}

-- No key of the event is on the denylist.
abbrev pub IsSafe : Event → Type 0
IsSafe = All (λ kv. is_redacted kv.0 ≡ false)

abbrev pub HoldsSafe : Subscriber → Type 0
HoldsSafe s = All IsSafe s.items

redact-IsSafe : (e : Event) → IsSafe (redact e)
unfolding redact
redact-IsSafe [] = tt
redact-IsSafe (kv ∷ e) = elim (Bool-cases (is_redacted kv.0)) [
  | inl listed ↦ rw listed (redact-IsSafe e)
  | inr free ↦ rw free (free, redact-IsSafe e)
]

put_nowait-HoldsSafe :
    (e : Event) (s : Subscriber) → IsSafe e → HoldsSafe s → HoldsSafe (put_nowait e s)
unfolding put_nowait
put_nowait-HoldsSafe e s safe h = elim (Bool-cases (is_full s)) [
  | inl full ↦ rw full h
  | inr room ↦ rw room (All-append IsSafe s.items (e ∷ []) h (safe, tt))
]

publish-AllSafe :
    (e : Event) (bus : EventBus) → All HoldsSafe bus → All HoldsSafe (publish_nowait e bus)
unfolding publish_nowait
publish-AllSafe e [] h = tt
publish-AllSafe e (s ∷ bus) h =
    (put_nowait-HoldsSafe (redact e) s (redact-IsSafe e) h.0, publish-AllSafe e bus h.1)

read-HoldsSafe : (i : ℕ) (s : Subscriber) → HoldsSafe s → HoldsSafe (read i s)
read-HoldsSafe i s h = elim (Bool-cases (has_queue i s)) [
  | inl mine ↦ rw mine (rest s.items h)
  | inr other ↦ rw other h
]
  where
    rest : (es : List Event) → All IsSafe es → All IsSafe (without_first es)
    rest [] h = tt
    rest (e ∷ es) h = h.1

map-read : (i : ℕ) (bus : EventBus) → All HoldsSafe bus → All HoldsSafe (map (read i) bus)
map-read i [] h = tt
map-read i (s ∷ bus) h = (read-HoldsSafe i s h.0, map-read i bus h.1)

All-keep : (p : Subscriber → Bool) (bus : EventBus) → All HoldsSafe bus → All HoldsSafe (keep p bus)
All-keep p [] h = tt
All-keep p (s ∷ bus) h = elim (Bool-cases (p s)) [
  | inl stays ↦ rw stays (h.0, All-keep p bus h.1)
  | inr goes ↦ rw goes (All-keep p bus h.1)
]

-- A queue that joins holds no redacted key.
abbrev pub JoinsSafe : Happening → Type 0
JoinsSafe (subscribes s) = HoldsSafe s
JoinsSafe (unsubscribes i) = Unit {0}
JoinsSafe (reads i) = Unit {0}
JoinsSafe (publishes e) = Unit {0}

happen-AllSafe :
    (h : Happening) (bus : EventBus)
    → JoinsSafe h
    → All HoldsSafe bus
    → All HoldsSafe (happen h bus)
unfolding subscribe unsubscribe
happen-AllSafe (subscribes s) bus joins safe = elim (Bool-cases (any (has_queue s.queue_id) bus)) [
  | inl there ↦ rw there safe
  | inr new_ ↦ rw new_ (All-append HoldsSafe bus (s ∷ []) safe (joins, tt))
]
happen-AllSafe (unsubscribes i) bus joins safe = All-keep (λ s. not (has_queue i s)) bus safe
happen-AllSafe (reads i) bus joins safe = map-read i bus safe
happen-AllSafe (publishes e) bus joins safe = publish-AllSafe e bus safe

-- Whatever is published, and whoever joins, leaves or reads in between, no queue of a subscriber
-- ever holds an event with a key on the denylist, if the queues held none when they joined.
pub happen_all-AllSafe :
    (hs : List Happening) (bus : EventBus)
    → All JoinsSafe hs
    → All HoldsSafe bus
    → All HoldsSafe (happen_all hs bus)
unfolding happen_all
happen_all-AllSafe [] bus joins safe = safe
happen_all-AllSafe (h ∷ hs) bus joins safe =
    happen_all-AllSafe hs (happen h bus) joins.1 (happen-AllSafe h bus joins.0 safe)

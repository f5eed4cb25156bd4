-- ===== src/Fsm/Graph.antt =====
-- Runs of the state machine: what `transition` admits along a sequence of calls.
use southpaw_turbohaul.Base.{
  ◌≡◌, refl, ◌≢◌, ◌↔◌, ◌⊎◌, inl, Bool, true, false, ◌||◌, any, List, [], ◌∷◌, arith,
}
use southpaw_turbohaul.Slot.{
  Slot, SlotState, SlotState-discrete, received, accept_buffer, staged, loading, loading_fail,
  active, grace, grace_busy, active_match, popped, idle_hot, cold,
}
use southpaw_turbohaul.Fsm.{
  Transition, moved, invalid_transition, transition, is_legal, is_terminal, same_state,
  is_warm_state, is_request_in_flight,
}

-- A sequence of calls of `transition` on one slot; the first refusal ends it.
abbrev pub after : Transition → (Slot → Transition) → Transition
after (moved s) k = k s
after invalid_transition k = invalid_transition

unfoldable pub transitions : Slot → List SlotState → Transition
transitions s [] = moved s
transitions s (t ∷ ts) = after (transition s t) (λ s'. transitions s' ts)

not_terminal : (s : SlotState) → s ≢ cold → (t : SlotState) × (is_legal s t ≡ true)
unfolding is_legal
not_terminal received n = (staged, refl)
not_terminal accept_buffer n = (staged, refl)
not_terminal staged n = (loading, refl)
not_terminal loading n = (active, refl)
not_terminal loading_fail n = (popped, refl)
not_terminal active n = (grace, refl)
not_terminal grace n = (popped, refl)
not_terminal grace_busy n = (grace, refl)
not_terminal active_match n = (active, refl)
not_terminal popped n = (cold, refl)
not_terminal idle_hot n = (cold, refl)
not_terminal cold n = absurd (n refl)

abbrev pub loads : SlotState → Bool
loads t = same_state t loading || same_state t active_match

is_terminal_iff : (s : SlotState) → (is_terminal s ≡ true) ↔ (s ≡ cold)
unfolding is_terminal
is_terminal_iff received = (λ h. cc, λ h. cc)
is_terminal_iff _ = (λ h. ground arith, λ h. ground arith)

-- The refusals of `transition`, read from the table.
refuses_iff :
    (s : Slot) (to : SlotState)
    → (transition s to ≡ invalid_transition) ↔ (is_legal s.state to ≡ false)
unfolding transition
refuses_iff s to = (λ h. ground arith, λ h. ground arith)

refuses_all : (s : Slot) → s.state ≡ cold → (to : SlotState) → transition s to ≡ invalid_transition
unfolding transition
refuses_all s h to = ground arith

cold_of_refusals :
    (s : Slot) → ((to : SlotState) → transition s to ≡ invalid_transition) → s.state ≡ cold
cold_of_refusals s h = elim (SlotState-discrete s.state cold) [
  | yes e ↦ e
  | no n ↦
      let (t, legal) = not_terminal s.state n in let refused = (refuses_iff s t).0 (h t) in cc legal
]

-- COLD is the one terminal state: `is_terminal` answers yes there alone, and `transition` refuses
-- every target exactly at a slot whose state is terminal.
is_terminal-cold :
    (s : Slot)
    → ((is_terminal s.state ≡ true) ↔ (s.state ≡ cold))
      × ((is_terminal s.state ≡ true) ↔ ((to : SlotState) → transition s to ≡ invalid_transition))
unfolding transition is_terminal
is_terminal-cold s =
    let cold_iff = is_terminal_iff s.state in
    (cold_iff, (λ h. refuses_all s (cold_iff.0 h), λ h. cold_iff.1 (cold_of_refusals s h)))

-- A slot enters a state in which its request is processed only from a state where the server is
-- in VRAM, or from STAGED by the ACTIVE_MATCH shortcut; and every such state is a warm one.
in_flight-warm :
    (s s' : Slot) (to : SlotState)
    → transition s to ≡ moved s'
    → is_request_in_flight to ≡ true
    → (is_warm_state s'.state ≡ true)
      × ((is_warm_state s.state ≡ true) ⊎ ((s.state ≡ staged) × (to ≡ active_match)))
unfolding transition is_request_in_flight is_warm_state
in_flight-warm s s' to h f = ground arith

abbrev IsFresh : SlotState → Type 0
IsFresh s = (s ≡ received) ⊎ (s ≡ accept_buffer) ⊎ (s ≡ staged) ⊎ (s ≡ cold)

step-IsFresh :
    (s s' : Slot) (to : SlotState)
    → transition s to ≡ moved s'
    → IsFresh s.state
    → IsFresh s'.state ⊎ (loads to ≡ true)
unfolding transition
step-IsFresh s s' to h f = ground arith

after-moved :
    (t : Transition) (k : Slot → Transition) {s' : Slot}
    → after t k ≡ moved s'
    → (s : Slot) × (t ≡ moved s) × (k s ≡ moved s')
after-moved (moved s) k h = (s, refl, h)
after-moved invalid_transition k h = cc

loads_on_the_way :
    (ts : List SlotState) (s s' : Slot)
    → transitions s ts ≡ moved s'
    → IsFresh s.state
    → IsFresh s'.state ⊎ (any loads ts ≡ true)
unfolding transitions
loads_on_the_way [] s s' h f = inl (ground arith)
loads_on_the_way (t ∷ ts) s s' h f =
    let (m, first, rest) = after-moved (transition s t) (λ x. transitions x ts) h in
    ground (arith, step-IsFresh s m t first f, loads_on_the_way ts m s' rest)

-- However `transition` is called on a slot that was received, buffered or staged, the slot gets to
-- a state with the server in VRAM only if the calls went through LOADING or through ACTIVE_MATCH.
warm-loads :
    (ts : List SlotState) (s s' : Slot)
    → (s.state ≡ received) ⊎ (s.state ≡ accept_buffer) ⊎ (s.state ≡ staged)
    → transitions s ts ≡ moved s'
    → is_warm_state s'.state ≡ true
    → any loads ts ≡ true
unfolding is_warm_state
warm-loads ts s s' fresh h w = ground (arith, loads_on_the_way ts s s' h)

-- The calls of `transition` that take a slot on to COLD, by the table alone.
abbrev to_cold : SlotState → List SlotState
to_cold received = staged ∷ cold ∷ []
to_cold accept_buffer = cold ∷ []
to_cold staged = cold ∷ []
to_cold loading = cold ∷ []
to_cold loading_fail = popped ∷ cold ∷ []
to_cold active = grace ∷ popped ∷ cold ∷ []
to_cold grace = popped ∷ cold ∷ []
to_cold grace_busy = popped ∷ cold ∷ []
to_cold active_match = active ∷ grace ∷ popped ∷ cold ∷ []
to_cold popped = cold ∷ []
to_cold idle_hot = cold ∷ []
to_cold cold = []

-- No state is a dead end: from each there is a sequence of calls of `transition` that ends in
-- COLD, and it changes nothing of the slot but the state.
transitions-cold :
    (s : Slot) → (ts : List SlotState) × (transitions s ts ≡ moved (record s { state = cold }))
unfolding transitions transition
transitions-cold s = (to_cold s.state, ground arith)

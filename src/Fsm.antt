-- ===== src/Fsm.antt =====
-- src/turbohaul/fsm.py: the transition table and the functions over it.
pub mod Cold
pub mod Graph
mod Examples
use southpaw_turbohaul.Base.{
  ℕ, ◌≡◌, Bool, true, false, not, List, [], ◌∷◌, if◌then◌else◌, length, nat_eq, any,
}
use southpaw_turbohaul.Slot.{
  Slot, SlotState, received, accept_buffer, staged, loading, loading_fail, active, grace,
  grace_busy, active_match, popped, idle_hot, cold,
}

-- A set of states is a list; Python's sets are only asked for membership and size.
unfoldable pub legal_transitions : SlotState → List SlotState
legal_transitions received = accept_buffer ∷ staged ∷ []
legal_transitions accept_buffer = staged ∷ cold ∷ []
legal_transitions staged = loading ∷ cold ∷ active_match ∷ []
legal_transitions loading = active ∷ loading_fail ∷ cold ∷ []
legal_transitions loading_fail = staged ∷ popped ∷ []
legal_transitions active = grace ∷ active_match ∷ []
legal_transitions grace = grace_busy ∷ popped ∷ active ∷ []
legal_transitions grace_busy = grace ∷ popped ∷ []
legal_transitions active_match = active ∷ []
legal_transitions popped = idle_hot ∷ staged ∷ cold ∷ []
legal_transitions idle_hot = active ∷ popped ∷ cold ∷ []
legal_transitions cold = []

-- Equality of the enum's members, by their position.
abbrev pub index : SlotState → ℕ
index received = 0
index accept_buffer = 1
index staged = 2
index loading = 3
index loading_fail = 4
index active = 5
index grace = 6
index grace_busy = 7
index active_match = 8
index popped = 9
index idle_hot = 10
index cold = 11

abbrev pub same_state : SlotState → SlotState → Bool
same_state a b = nat_eq (index a) (index b)

-- `to_state in LEGAL_TRANSITIONS.get(from_state, set())`
unfoldable pub is_legal : SlotState → SlotState → Bool
unfolding legal_transitions
is_legal from to = any (same_state to) (legal_transitions from)

-- The exception of `transition` is its own constructor: nothing else can be raised there.
pub data Transition : Type 0 where
  moved : Slot → Transition
  invalid_transition : Transition

unfoldable pub transition : Slot → SlotState → Transition
unfolding is_legal
transition s to =
    if is_legal s.state to then moved (record s { state = to }) else invalid_transition

unfoldable pub can_transition : Slot → SlotState → Bool
unfolding is_legal
can_transition s to = is_legal s.state to

unfoldable pub legal_targets : SlotState → List SlotState
unfolding legal_transitions
legal_targets = legal_transitions

unfoldable pub is_terminal : SlotState → Bool
unfolding legal_transitions
is_terminal s = nat_eq (length (legal_transitions s)) 0

-- The states where llama-server is loaded in VRAM.
unfoldable pub is_warm_state : SlotState → Bool
is_warm_state s =
    any (same_state s) (loading ∷ active ∷ grace ∷ grace_busy ∷ active_match ∷ idle_hot ∷ [])

unfoldable pub is_request_in_flight : SlotState → Bool
is_request_in_flight s = any (same_state s) (active ∷ grace_busy ∷ active_match ∷ [])

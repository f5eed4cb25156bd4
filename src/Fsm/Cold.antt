-- ===== src/Fsm/Cold.antt =====
-- The walk to COLD of `_force_cold` in src/turbohaul/manager.py.
use southpaw_turbohaul.Base.{
  ℕ, zero, suc, ◌≤◌, ◌≡◌, refl, ◌⊎◌, inl, inr, Bool, true, false, List, [], ◌∷◌, arith,
  if◌then◌else◌, length,
}
use southpaw_turbohaul.Slot.{SlotState, received, loading_fail, grace, active_match, popped, cold}
use southpaw_turbohaul.Fsm.{is_legal, is_terminal, same_state}

-- The hop that a round of the loop takes, and whether the loop then breaks. The last branch sets
-- COLD without a look at the table.
unfoldable pub cold_hop : SlotState → SlotState × Bool
unfolding is_legal
cold_hop s =
    if is_legal s cold
    then (cold, true)
    else if is_legal s popped
    then (popped, false)
    else if is_legal s grace
    then (grace, false)
    else if is_legal s loading_fail
    then (loading_fail, false)
    else (cold, true)

-- `for _ in range(n)`: the states that the loop goes through, the last one last.
unfoldable pub cold_rounds : ℕ → SlotState → List SlotState
unfolding cold_hop
cold_rounds zero s = []
cold_rounds (suc n) s =
    let (next, breaks) = cold_hop s in
    let rest = cold_rounds n next in
    if same_state s cold then [] else if breaks then next ∷ [] else next ∷ rest

unfoldable pub force_cold_walk : SlotState → List SlotState
unfolding is_terminal cold_rounds
force_cold_walk s = if is_terminal s then [] else cold_rounds 4 s

-- The state after a walk from `s`.
abbrev pub end_of : SlotState → List SlotState → SlotState
end_of s [] = s
end_of s (t ∷ ts) = end_of t ts

-- Every hop of a walk is in the transition table.
abbrev pub IsLegalWalk : SlotState → List SlotState → Type 0
IsLegalWalk s [] = Unit {0}
IsLegalWalk s (t ∷ ts) = (is_legal s t ≡ true) × IsLegalWalk t ts

-- From every state the walk of `_force_cold` ends in COLD, after at most three hops.
pub force_cold_walk-cold :
    (s : SlotState) → (end_of s (force_cold_walk s) ≡ cold) × (length (force_cold_walk s) ≤ 3)
unfolding force_cold_walk
force_cold_walk-cold received = (refl, omega arith)
force_cold_walk-cold _ = (refl, omega arith)

-- The states from which the walk falls through to the direct assignment of COLD.
abbrev pub IsParked : SlotState → Type 0
IsParked s = (s ≡ received) ⊎ (s ≡ active_match)

-- The walk of `_force_cold` keeps to the transition table, except from RECEIVED and from ACTIVE_MATCH, where its
-- one hop is outside the table.
force_cold_walk-IsLegalWalk :
    (s : SlotState)
    → IsLegalWalk s (force_cold_walk s)
      ⊎ (IsParked s × (force_cold_walk s ≡ cold ∷ []) × (is_legal s cold ≡ false))
unfolding force_cold_walk
force_cold_walk-IsLegalWalk received = inr (inl refl, refl, refl)
force_cold_walk-IsLegalWalk active_match = inr (inr refl, refl, refl)
force_cold_walk-IsLegalWalk _ = inl (ground arith)

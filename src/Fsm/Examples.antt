-- ===== src/Fsm/Examples.antt =====
-- Runs of the state machine.
use southpaw_turbohaul.Base.{◌≡◌, ◌≤◌, length}
use southpaw_turbohaul.Slot.{Slot, staged, active, cold}
use southpaw_turbohaul.Slot.Samples.{first_slot}
use southpaw_turbohaul.Fsm.Cold.{end_of, force_cold_walk, force_cold_walk-cold}

force_cold_walk-cold_example :
    (end_of active (force_cold_walk active) ≡ cold) × (length (force_cold_walk active) ≤ 3)
force_cold_walk-cold_example = force_cold_walk-cold active

abbrev staged_slot : Slot
staged_slot = record first_slot { state = staged }

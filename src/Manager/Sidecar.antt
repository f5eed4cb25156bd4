-- ===== src/Manager/Sidecar.antt =====
-- Which llama-server processes live while `_process_slot` of src/turbohaul/manager.py runs: the
-- phases of the two handles and of the host, and how actions move between them.
use southpaw_turbohaul.Base.{
  ℕ, ◌≡◌, ◌∙◌, refl, sym, subst, ◌⊎◌, Option, none, some, List, [], ◌∷◌, arith, String,
}
use southpaw_turbohaul.Slot.{Slot, Outcome, SlotState}
use southpaw_turbohaul.Fsm.{Transition, moved, transition}
use southpaw_turbohaul.Fsm
use southpaw_turbohaul.Exec
use southpaw_turbohaul.Exec.{Exec, ok, raised, continue, modify, ◌>>=◌}
use southpaw_turbohaul.Manager.Records.{Handle, Manager, Work}
use southpaw_turbohaul.Manager.Effects.{
  resolve, moves, move, audit_slot, audit_only, end_slot, settle_future,
}

-- The active handle, the idle holder's, and the processes that live.
abbrev pub Sides : Type 0
Sides = Option Handle × (Option Handle × List ℕ)

abbrev pub sides : Manager → Sides
sides m = (m.active_handle, (m.idle_handle, m.alive))

abbrev pub pids : Option Handle → List ℕ
pids none = []
pids (some h) = h.pid ∷ []

-- No process lives.
abbrev pub IsEmpty : Sides → Type 0
IsEmpty s = s ≡ (none, (none, []))

-- The one process that lives, if one does, is the active handle's.
abbrev pub IsRunning : Sides → Type 0
IsRunning (a, (i, alive)) = (i ≡ none) × (alive ≡ pids a)

-- The one process that lives, if one does, is the idle holder's, and no handle is active.
abbrev pub IsParked : Sides → Type 0
IsParked (a, (i, alive)) = (a ≡ none) × (alive ≡ pids i)

-- The idle holder was made from the active handle, which still stands.
abbrev pub IsHandedOn : Sides → Type 0
IsHandedOn (a, (i, alive)) = (a ≡ i) × (alive ≡ pids i)

abbrev pub IsSingle : Sides → Type 0
IsSingle s = IsRunning s ⊎ (IsParked s ⊎ IsHandedOn s)

-- From `P`, the action comes to `Q`, whether it returns or raises.
pub record Moves {A : Type 0} (P : Sides → Type 0) (f : Exec Work A) (Q : Sides → Type 0)
    : Type 0 where
  pub at : (w : Work) → P (sides w.mgr) → Q (sides (f w).1.mgr)

-- The action leaves processes and handles alone.
pub record IsQuiet {A : Type 0} (f : Exec Work A) : Type 0 where
  pub still : (w : Work) → sides (f w).1.mgr ≡ sides w.mgr

module _ {A : Type 0} {f : Exec Work A} {P : Sides → Type 0} where
  pub quiet_moves : IsQuiet f → Moves P f P
  quiet_moves q = record { at = λ w h. subst P (sym (q.still w)) h }

module _ {A B : Type 0} where
  pub bind_moves :
      {P Q R : Sides → Type 0} (f : Exec Work A) (g : A → Exec Work B)
      → Moves P f Q
      → ((a : A) → Moves Q (g a) R)
      → ((s : Sides) → Q s → R s)
      → Moves P (f >>= g) R
  bind_moves {P = P} {Q = Q} {R = R} f g mf mg drop = record {
    at = λ w h. continued (f w) (mf.at w h);
  }
    where
      continued : (r : Exec.Result A × Work) → Q (sides r.1.mgr) → R (sides (continue g r).1.mgr)
      continued (ok a, w) h = (mg a).at w h
      continued (raised e, w) h = drop _ h

  -- A quiet step first.
  pub then_moves :
      {P Q : Sides → Type 0} (f : Exec Work A) (g : A → Exec Work B)
      → IsQuiet f
      → ((a : A) → Moves P (g a) Q)
      → ((s : Sides) → P s → Q s)
      → Moves P (f >>= g) Q
  then_moves f g q mg drop = bind_moves f g (quiet_moves q) mg drop

  pub bind-IsQuiet :
      (f : Exec Work A) (g : A → Exec Work B)
      → IsQuiet f
      → ((a : A) → IsQuiet (g a))
      → IsQuiet (f >>= g)
  bind-IsQuiet f g qf qg = record { still = λ w. continued w (f w) (qf.still w) }
    where
      continued :
          (w : Work) (r : Exec.Result A × Work)
          → sides r.1.mgr ≡ sides w.mgr
          → sides (continue g r).1.mgr ≡ sides w.mgr
      continued w (ok a, w') h = (qg a).still w' ∙ h
      continued w (raised e, w') h = h

pub resolve_still : (s : Slot) (o : Outcome) (m : Manager) → sides (resolve s o m).1 ≡ sides m
unfolding resolve
resolve_still s o m = ground arith

pub move-IsQuiet : (to : SlotState) → IsQuiet (move to)
unfolding move
move-IsQuiet to = record { still = λ w. moved_still w (transition w.slot to) }
  where
    moved_still : (w : Work) (t : Transition) → sides (moves t w).1.mgr ≡ sides w.mgr
    moved_still w (moved s) = refl
    moved_still w Fsm.Transition.invalid_transition = refl

pub audit_slot-IsQuiet : (e : String) → IsQuiet (audit_slot e)
unfolding audit_slot
audit_slot-IsQuiet e = record { still = λ w. refl }

pub audit_only-IsQuiet : (e : String) → IsQuiet (audit_only e)
unfolding audit_only
audit_only-IsQuiet e = record { still = λ w. refl }

pub end_slot-IsQuiet : (e : String) → IsQuiet (end_slot e)
unfolding end_slot
end_slot-IsQuiet e = record { still = λ w. refl }

pub settle_future-IsQuiet : (o : Outcome) → IsQuiet (settle_future o)
unfolding settle_future
settle_future-IsQuiet o = record { still = λ w. resolve_still w.slot o w.mgr }

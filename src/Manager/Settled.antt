-- ===== src/Manager/Settled.antt =====
-- What an action does to the slot at work, when it returns and in every case.
use southpaw_turbohaul.Base.{◌≡◌, ◌∙◌, Bool, true, false, none, some, subst, sym, arith}
use southpaw_turbohaul.Slot.{Slot, SlotState, Outcome, pending, done, popped}
use southpaw_turbohaul.Fsm.{transition}
use southpaw_turbohaul.Exec.{Exec, Result, ok, raised, continue, ◌>>=◌}
use southpaw_turbohaul.Manager.Records.{Work}
use southpaw_turbohaul.Manager.Effects.{move, settle_future, resolve}

-- The caller still waits for the slot.
abbrev pub is_pending : Slot → Bool
is_pending s = elim s.completion_future [
  | none ↦ false
  | some f ↦ elim f [ pending ↦ true | done _ ↦ false ]
]

abbrev pub IsSettled : Slot → Type 0
IsSettled s = is_pending s ≡ false

abbrev pub IsPopped : Slot → Type 0
IsPopped s = s.state ≡ popped

-- If the action returns, `P` holds of its slot.
abbrev pub OnReturn : {A : Type 0} → (Slot → Type 0) → Result A × Work → Type 0
OnReturn P (ok a, w) = P w.slot
OnReturn P (raised e, w) = Unit {0}

pub record Reaches {A : Type 0} (f : Exec Work A) (P : Slot → Type 0) : Type 0 where
  pub reached : (w : Work) → OnReturn P (f w)

-- What holds of the slot still holds, if the action returns.
pub record Keeps {A : Type 0} (P : Slot → Type 0) (f : Exec Work A) : Type 0 where
  pub kept : (w : Work) → P w.slot → OnReturn P (f w)

module _ {A B : Type 0} {P : Slot → Type 0} where
  pub Keeps-bind :
      (f : Exec Work A) (g : A → Exec Work B)
      → Keeps P f
      → ((a : A) → Keeps P (g a))
      → Keeps P (f >>= g)
  Keeps-bind f g kf kg = record { kept = λ w h. later (f w) (kf.kept w h) }
    where
      later : (r : Result A × Work) → OnReturn P r → OnReturn P (continue g r)
      later (ok a, w) h = (kg a).kept w h
      later (raised e, w) h = tt

  -- The first action reaches it, and the rest keeps it.
  pub Reaches-first :
      (f : Exec Work A) (g : A → Exec Work B)
      → Reaches f P
      → ((a : A) → Keeps P (g a))
      → Reaches (f >>= g) P
  Reaches-first f g rf kg = record { reached = λ w. later (f w) (rf.reached w) }
    where
      later : (r : Result A × Work) → OnReturn P r → OnReturn P (continue g r)
      later (ok a, w) h = (kg a).kept w h
      later (raised e, w) h = tt

  -- The rest reaches it, whatever the first action does.
  pub Reaches-rest :
      (f : Exec Work A) (g : A → Exec Work B) → ((a : A) → Reaches (g a) P) → Reaches (f >>= g) P
  Reaches-rest f g rg = record { reached = λ w. later (f w) }
    where
      later : (r : Result A × Work) → OnReturn P (continue g r)
      later (ok a, w) = (rg a).reached w
      later (raised e, w) = tt

pub move-Keeps : (to : SlotState) → Keeps IsSettled (move to)
unfolding move transition
move-Keeps to = record { kept = λ w h. ground arith }

pub settle-Reaches : (o : Outcome) → Reaches (settle_future o) IsSettled
unfolding settle_future resolve
settle-Reaches o = record { reached = λ w. ground arith }

pub settle-Keeps : (o : Outcome) → Keeps IsPopped (settle_future o)
unfolding settle_future resolve
settle-Keeps o = record { kept = λ w h. ground arith }

pub move-Reaches : Reaches (move popped) IsPopped
unfolding move transition
move-Reaches = record { reached = λ w. ground arith }

pub Reaches-both :
    {A : Type 0} {P Q : Slot → Type 0} (f : Exec Work A)
    → Reaches f P
    → Reaches f Q
    → Reaches f (λ s. P s × Q s)
Reaches-both {A = A} {P = P} {Q = Q} f p q = record {
  reached = λ w. both (f w) (p.reached w) (q.reached w);
}
  where
    both : (r : Result A × Work) → OnReturn P r → OnReturn Q r → OnReturn (λ s. P s × Q s) r
    both (ok a, w) h k = (h, k)
    both (raised e, w) h k = tt

-- A step that leaves the slot as it is, whether it returns or raises.
pub record IsAside {A : Type 0} (f : Exec Work A) : Type 0 where
  pub aside : (w : Work) → (f w).1.slot ≡ w.slot

pub aside-Keeps : {A : Type 0} {P : Slot → Type 0} (f : Exec Work A) → IsAside f → Keeps P f
aside-Keeps {A = A} {P = P} f q = record { kept = λ w h. held (f w) (subst P (sym (q.aside w)) h) }
  where
    held : (r : Result A × Work) → P r.1.slot → OnReturn P r
    held (ok a, w) h = h
    held (raised e, w) h = tt

module _ {A B : Type 0} where
  pub bind-IsAside :
      (f : Exec Work A) (g : A → Exec Work B)
      → IsAside f
      → ((a : A) → IsAside (g a))
      → IsAside (f >>= g)
  bind-IsAside f g qf qg = record { aside = λ w. continued w (f w) (qf.aside w) }
    where
      continued :
          (w : Work) (r : Result A × Work) → r.1.slot ≡ w.slot → (continue g r).1.slot ≡ w.slot
      continued w (ok a, w') h = (qg a).aside w' ∙ h
      continued w (raised e, w') h = h

-- ===== src/Db/Boot.antt =====
-- What the slot table says of processes after a boot.
use mathlib.Core.Path.{ap₂}
use southpaw_turbohaul.Slot.{SlotState, idle_hot}
use southpaw_turbohaul.Fsm.{same_state}
use southpaw_turbohaul.Base.{
  ℕ, ◌≡◌, refl, ◌⊎◌, inl, inr, Bool, true, false, ◌&&◌, not, none, some, List, [], ◌∷◌, map, arith,
  keep, length, Bool-cases, Option-cases, All, All-append, nat_eq,
}
use southpaw_turbohaul.Db.{
  Row, mark_all, row_ids, is_open, is_orphan, is_pre_active, in_pids, open_pid, known_active_pids,
  reconcile_orphaned_slots, boot_reconcile,
}
use southpaw_turbohaul.Db.Rows.{IsKeyed, mark_all-IsKeyed}
use southpaw_turbohaul.Db.Reconcile.{is_lost, settle, reconcile-settle}

-- An open row is accounted for: its process is among the live ones, or it is IDLE_HOT and has
-- none. Any other row has ended or is POPPED or COLD.
abbrev pub IsAccounted : List ℕ → Row → Type 0
IsAccounted live_pids r =
    (is_open r ≡ false)
    ⊎ ((p : ℕ) × (r.pid ≡ some p) × (in_pids live_pids p ≡ true))
    ⊎ ((r.pid ≡ none) × (r.state ≡ idle_hot))

same_state→eq : (s t : SlotState) → same_state s t ≡ true → s ≡ t
same_state→eq s t h = ground arith

settle-IsAccounted :
    (live_pids : List ℕ) (now : ℕ) (r : Row) → IsAccounted live_pids (settle live_pids now r)
settle-IsAccounted live_pids now r = elim (Option-cases r.pid) [
  | inl e ↦ elim (Bool-cases (is_pre_active r)) [
    | inl lost ↦ inl (ground arith)
    | inr kept ↦ elim (Bool-cases (is_open r)) [
      | inl open_ ↦ inr (inr (ground arith, same_state→eq _ idle_hot (ground arith)))
      | inr shut ↦ inl (ground arith)
    ]
  ]
  | inr (p, e) ↦ elim (Bool-cases (is_orphan live_pids r)) [
    | inl lost ↦ inl (ground arith)
    | inr kept ↦ elim (Bool-cases (is_open r)) [
      | inl open_ ↦ inr (inl (p, ground arith, ground arith))
      | inr shut ↦ inl (ground arith)
    ]
  ]
]

All-map {ℓ} :
    (P : Row → Type ℓ) (f : Row → Row) (rows : List Row)
    → ((r : Row) → P (f r))
    → All P (map f rows)
All-map P f [] h = tt
All-map P f (r ∷ rows) h = (h r, All-map P f rows h)

-- After a reconciliation of a keyed table, every row that is still open either has its process
-- among the live ones, or is IDLE_HOT and never had one.
reconcile-IsAccounted :
    (live_pids : List ℕ) (now : ℕ) (rows : List Row)
    → IsKeyed rows
    → All (IsAccounted live_pids) (reconcile_orphaned_slots live_pids now rows).1
reconcile-IsAccounted live_pids now rows k =
    rw (reconcile-settle live_pids now rows k) (
      All-map (IsAccounted live_pids) (settle live_pids now) rows
        (settle-IsAccounted live_pids now))

settled-not_lost :
    (live_pids : List ℕ) (now : ℕ) (r : Row) → is_lost live_pids (settle live_pids now r) ≡ false
settled-not_lost live_pids now r = elim (Option-cases r.pid) [
  | inl e ↦ ground arith
  | inr (p, e) ↦ ground arith
]

not_lost-settle :
    (live_pids : List ℕ) (now : ℕ) (r : Row)
    → is_lost live_pids r ≡ false
    → settle live_pids now r ≡ r
not_lost-settle live_pids now r h = ground arith

settle_again :
    (live_pids : List ℕ) (now later : ℕ) (rows : List Row)
    → (map (settle live_pids later) (map (settle live_pids now) rows)
        ≡ map (settle live_pids now) rows)
      × (length (keep (is_lost live_pids) (map (settle live_pids now) rows)) ≡ 0)
settle_again live_pids now later [] = (refl, refl)
settle_again live_pids now later (r ∷ rows) =
    let quiet = settled-not_lost live_pids now r in
    let (same, none_) = settle_again live_pids now later rows in
    (ap₂ ◌∷◌ (not_lost-settle live_pids later _ quiet) same, rw quiet none_)

reconcile-IsKeyed :
    (live_pids : List ℕ) (now : ℕ) (rows : List Row)
    → IsKeyed rows
    → IsKeyed (reconcile_orphaned_slots live_pids now rows).1
unfolding reconcile_orphaned_slots
reconcile-IsKeyed live_pids now rows k =
    let orphans = row_ids (keep (is_orphan live_pids) rows) in
    let rows' = mark_all "boot-reconcile-orphaned-pid" now orphans rows in
    mark_all-IsKeyed "boot-reconcile-pre-active-orphan" now (row_ids (keep is_pre_active rows'))
      rows' (mark_all-IsKeyed "boot-reconcile-orphaned-pid" now orphans rows k)

-- A reconciliation is settled at once: a second one, at any later time, against the same live
-- processes, ends no row, returns 0 and leaves a keyed table as it is.
reconcile_twice :
    (live_pids : List ℕ) (now later : ℕ) (rows : List Row)
    → IsKeyed rows
    → reconcile_orphaned_slots live_pids later (reconcile_orphaned_slots live_pids now rows).1
      ≡ (0, (reconcile_orphaned_slots live_pids now rows).1)
reconcile_twice live_pids now later rows k =
    let keyed = reconcile-IsKeyed live_pids now rows k in
    let once = reconcile-settle live_pids now rows k in
    let again = reconcile-settle live_pids later _ (rw once at keyed) in
    let (same, none_) = settle_again live_pids now later rows in
    rw (once, again) (ap₂ (λ (n : ℕ) (l : List Row). (n, l)) none_ same)

in_pids-keep :
    (is_alive : ℕ → Bool) (pids : List ℕ) (p : ℕ)
    → in_pids (keep is_alive pids) p ≡ true
    → is_alive p ≡ true
in_pids-keep is_alive [] p h = cc
in_pids-keep is_alive (x ∷ pids) p h = ground (arith, in_pids-keep is_alive pids p)

open_pid-alive :
    (is_alive : ℕ → Bool) (pids : List ℕ) (r : Row)
    → IsAccounted (keep is_alive pids) r
    → All (λ p. is_alive p ≡ true) (open_pid r)
open_pid-alive is_alive pids r (inl shut) = elim (Option-cases r.pid) [
  | inl e ↦ rw e tt
  | inr (p, e) ↦ rw (e, shut) tt
]
open_pid-alive is_alive pids r (inr (inl (p, e, live))) =
    elim (Bool-cases (is_open r && not (nat_eq p 0))) [
      | inl listed ↦ rw (e, listed) (in_pids-keep is_alive pids p live, tt)
      | inr left_out ↦ rw (e, left_out) tt
    ]
open_pid-alive is_alive pids r (inr (inr (e, _))) = rw e tt

known_active_pids-alive :
    (is_alive : ℕ → Bool) (pids : List ℕ) (rows : List Row)
    → All (IsAccounted (keep is_alive pids)) rows
    → All (λ p. is_alive p ≡ true) (known_active_pids rows)
unfolding known_active_pids
known_active_pids-alive is_alive pids [] h = tt
known_active_pids-alive is_alive pids (r ∷ rows) h =
    All-append (λ p. is_alive p ≡ true) (open_pid r) (known_active_pids rows)
      (open_pid-alive is_alive pids r h.0) (known_active_pids-alive is_alive pids rows h.1)

-- After a boot on a keyed table, every process that the table still records as active is alive on
-- the host.
pub boot_reconcile-alive :
    (is_alive : ℕ → Bool) (now : ℕ) (rows : List Row)
    → IsKeyed rows
    → All (λ p. is_alive p ≡ true) (known_active_pids (boot_reconcile is_alive now rows).1)
unfolding boot_reconcile
boot_reconcile-alive is_alive now rows k =
    known_active_pids-alive is_alive (known_active_pids rows) _
      (reconcile-IsAccounted (keep is_alive (known_active_pids rows)) now rows k)

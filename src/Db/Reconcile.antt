-- ===== src/Db/Reconcile.antt =====
-- What the boot reconciliation of the slot table achieves.
use mathlib.Core.Path.{ap₂}
use southpaw_turbohaul.Base.{
  ℕ, zero, suc, ◌+◌, String, ◌≡◌, refl, sym, ap, ◌∙◌, inl, inr, Bool, false, ◌||◌, List, [], ◌∷◌,
  map, arith, keep, length, if◌then◌else◌, Bool-cases, Option-cases,
}
use southpaw_turbohaul.Db.{
  Row, ended, mark_all, row_ids, take, is_orphan, is_pre_active, reconcile_orphaned_slots,
}
use southpaw_turbohaul.Db.Rows.{IsKeyed, end_first, mark_all-end_first, mark_all-IsKeyed}

take-length {ℓ} : {A : Type ℓ} (l : List A) → take (length l) l ≡ l
take-length [] = refl
take-length (x ∷ l) = ap (◌∷◌ x) (take-length l)

module _ (reason : String) (now : ℕ) (p : Row → Bool) where
  abbrev end_if : Row → Row
  end_if r = if p r then ended reason now r else r

  end_first-skip :
      (n : ℕ) (r : Row) (rows : List Row)
      → p r ≡ false
      → end_first reason now p n (r ∷ rows) ≡ r ∷ end_first reason now p n rows
  end_first-skip zero r rows miss = refl
  end_first-skip (suc n) r rows miss = rw miss refl

  end_first-map :
      (rows : List Row) → end_first reason now p (length (keep p rows)) rows ≡ map end_if rows
  end_first-map [] = refl
  end_first-map (r ∷ rows) = elim (Bool-cases (p r)) [
    | inl hit ↦ ground (arith, end_first-map rows)
    | inr miss ↦
        rw miss
          (end_first-skip (length (keep p rows)) r rows miss ∙ ap (◌∷◌ r) (end_first-map rows))
  ]

  -- A batch over all rows that a test selects ends exactly those.
  mark_all-map :
      (rows : List Row)
      → IsKeyed rows
      → mark_all reason now (row_ids (keep p rows)) rows ≡ map end_if rows
  mark_all-map rows k =
      ap (λ l. mark_all reason now (row_ids l) rows) (sym (take-length (keep p rows)))
      ∙ mark_all-end_first reason now p (length (keep p rows)) rows k
      ∙ end_first-map rows

-- The specification, row by row: what one boot does to a row, and which rows it counts.
abbrev pub is_lost : List ℕ → Row → Bool
is_lost live_pids r = is_orphan live_pids r || is_pre_active r

abbrev pub settle : List ℕ → ℕ → Row → Row
settle live_pids now r =
    if is_orphan live_pids r
    then ended "boot-reconcile-orphaned-pid" now r
    else if is_pre_active r
    then ended "boot-reconcile-pre-active-orphan" now r
    else r

-- The first pass does not change which rows the second one selects.
pre_active-end_if :
    (reason : String) (now : ℕ) (live_pids : List ℕ) (r : Row)
    → is_pre_active (end_if reason now (is_orphan live_pids) r) ≡ is_pre_active r
pre_active-end_if reason now live_pids r = elim (Option-cases r.pid) [
  | inl e ↦ ground arith
  | inr (p, e) ↦ ground arith
]

length-keep-map :
    (p : Row → Bool) (f : Row → Row) (rows : List Row)
    → ((r : Row) → p (f r) ≡ p r)
    → length (keep p (map f rows)) ≡ length (keep p rows)
length-keep-map p f [] h = refl
length-keep-map p f (r ∷ rows) h = ground (arith, h r, length-keep-map p f rows h)

count_lost :
    (live_pids : List ℕ) (rows : List Row)
    → length (keep (is_orphan live_pids) rows) + length (keep is_pre_active rows)
      ≡ length (keep (is_lost live_pids) rows)
count_lost live_pids [] = refl
count_lost live_pids (r ∷ rows) = elim (Option-cases r.pid) [
  | inl e ↦ ground (arith, count_lost live_pids rows)
  | inr (p, e) ↦ ground (arith, count_lost live_pids rows)
]

length-row_ids : (rows : List Row) → length (row_ids rows) ≡ length rows
length-row_ids [] = refl
length-row_ids (r ∷ rows) = omega (arith, length-row_ids rows)

settle-passes :
    (live_pids : List ℕ) (now : ℕ) (rows : List Row)
    → map
        (end_if "boot-reconcile-pre-active-orphan" now is_pre_active)
        (map (end_if "boot-reconcile-orphaned-pid" now (is_orphan live_pids)) rows)
      ≡ map (settle live_pids now) rows
settle-passes live_pids now [] = refl
settle-passes live_pids now (r ∷ rows) = elim (Option-cases r.pid) [
  | inl e ↦ ground (arith, settle-passes live_pids now rows)
  | inr (p, e) ↦ ground (arith, settle-passes live_pids now rows)
]

-- On a table whose ids are a key, the two passes of `reconcile_orphaned_slots` are one: they end
-- each open row whose process is not among the live ones, and each open row without a process
-- that is not IDLE_HOT, with the reason of its kind; no other row changes, and the number returned
-- is the number of rows ended.
pub reconcile-settle :
    (live_pids : List ℕ) (now : ℕ) (rows : List Row)
    → IsKeyed rows
    → reconcile_orphaned_slots live_pids now rows
      ≡ (length (keep (is_lost live_pids) rows), map (settle live_pids now) rows)
unfolding reconcile_orphaned_slots
reconcile-settle live_pids now rows k =
    let pass_1 = mark_all-map "boot-reconcile-orphaned-pid" now (is_orphan live_pids) rows k in
    let keyed =
      mark_all-IsKeyed "boot-reconcile-orphaned-pid" now (row_ids (keep (is_orphan live_pids) rows))
        rows k in
    let ended_1 = map (end_if "boot-reconcile-orphaned-pid" now (is_orphan live_pids)) rows in
    let pass_2 =
      mark_all-map "boot-reconcile-pre-active-orphan" now is_pre_active ended_1
        (rw pass_1 at keyed) in
    rw pass_1 (
      ap₂ (λ (n : ℕ) (l : List Row). (n, l))
        (omega (
          arith,
          length-row_ids (keep (is_orphan live_pids) rows),
          length-row_ids (keep is_pre_active ended_1),
          length-keep-map is_pre_active
              (end_if "boot-reconcile-orphaned-pid" now (is_orphan live_pids)) rows
              (pre_active-end_if "boot-reconcile-orphaned-pid" now live_pids),
          count_lost live_pids rows,
        ))
        (pass_2 ∙ settle-passes live_pids now rows))

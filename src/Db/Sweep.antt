-- ===== src/Db/Sweep.antt =====
-- The background sweep: which rows it ends, and how many sweeps it takes.
use mathlib.Core.Path.{ap₂}
use southpaw_turbohaul.Base.{
  ℕ, zero, suc, ◌-◌, ◌*◌, min, String, ◌≡◌, ap, List, [], ◌∷◌, arith, keep, length,
}
use southpaw_turbohaul.Db.{Row, row_ids, take, is_stale, run_one_sweep}
use southpaw_turbohaul.Db.Rows.{IsKeyed, end_first, mark_all-end_first, mark_all-IsKeyed}

abbrev pub sweep_reason : String
sweep_reason = "background_sweeper_evicted"

length-take_ids : (n : ℕ) (rows : List Row) → length (row_ids (take n rows)) ≡ min n (length rows)
length-take_ids zero rows = omega arith
length-take_ids (suc n) [] = omega arith
length-take_ids (suc n) (r ∷ rows) = omega (arith, length-take_ids n rows)

-- A sweep of a keyed table ends the first hundred stale rows, or all if they are fewer, returns
-- their number, and changes no other row.
sweep-end_first :
    (min_age_s now : ℕ) (rows : List Row)
    → IsKeyed rows
    → run_one_sweep min_age_s now rows ≡ (
      min 100 (length (keep (is_stale (now - min_age_s)) rows)),
      end_first sweep_reason now (is_stale (now - min_age_s)) 100 rows,
    )
unfolding run_one_sweep
sweep-end_first min_age_s now rows k =
    ap₂ (λ (n : ℕ) (l : List Row). (n, l))
      (length-take_ids 100 (keep (is_stale (now - min_age_s)) rows))
      (mark_all-end_first sweep_reason now (is_stale (now - min_age_s)) 100 rows k)

stale_left :
    (now cutoff n : ℕ) (rows : List Row)
    → length (keep (is_stale cutoff) (end_first sweep_reason now (is_stale cutoff) n rows))
      ≡ length (keep (is_stale cutoff) rows) - n
stale_left now cutoff zero rows = omega arith
stale_left now cutoff (suc n) [] = omega arith
stale_left now cutoff (suc n) (r ∷ rows) =
    ground (arith, stale_left now cutoff n rows, stale_left now cutoff (suc n) rows)

sweep-IsKeyed :
    (min_age_s now : ℕ) (rows : List Row)
    → IsKeyed rows
    → IsKeyed (run_one_sweep min_age_s now rows).1
unfolding run_one_sweep
sweep-IsKeyed min_age_s now rows k =
    mark_all-IsKeyed sweep_reason now (row_ids (take 100 (keep (is_stale (now - min_age_s)) rows)))
      rows k

-- Sweeps in a row, with the clock at one reading.
abbrev pub sweeps : ℕ → ℕ → ℕ → List Row → List Row
sweeps zero min_age_s now rows = rows
sweeps (suc n) min_age_s now rows = sweeps n min_age_s now (run_one_sweep min_age_s now rows).1

-- Every sweep ends a hundred stale rows of a keyed table until none is left: after `n` sweeps at
-- one clock reading, as many stale rows are left as were more than `100 * n` at the start.
sweeps_stale :
    (n min_age_s now : ℕ) (rows : List Row)
    → IsKeyed rows
    → length (keep (is_stale (now - min_age_s)) (sweeps n min_age_s now rows))
      ≡ length (keep (is_stale (now - min_age_s)) rows) - 100 * n
sweeps_stale zero min_age_s now rows k = omega arith
sweeps_stale (suc n) min_age_s now rows k = omega (
  arith,
  sweeps_stale n min_age_s now _ (sweep-IsKeyed min_age_s now rows k),
  ap (λ (r : ℕ × List Row). length (keep (is_stale (now - min_age_s)) r.1))
      (sweep-end_first min_age_s now rows k),
  stale_left now (now - min_age_s) 100 rows,
)

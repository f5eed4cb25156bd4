-- ===== src/Db/Rows.antt =====
-- The table as a map from slot ids, and what a batch of `mark_slot_ended` does to its rows.
use mathlib.Core.Path.{ap₂}
use southpaw_turbohaul.Base.{
  ℕ, zero, suc, String, ◌≡◌, refl, ap, ◌∙◌, inl, inr, Bool, false, ◌||◌, Option, none, some, List,
  [], ◌∷◌, arith, any, keep, ◌==◌, eq_iff, eq_refl, if◌then◌else◌, Bool-cases,
}
use southpaw_turbohaul.Db.{
  Row, SlotValues, has_id, insert_row, update_row, upsert_slot, ended, mark_slot_ended, mark_all,
  row_ids, take,
}

-- `slot_id TEXT PRIMARY KEY`
abbrev pub IsKeyed : List Row → Type 0
IsKeyed [] = Unit {0}
IsKeyed (r ∷ rows) = (any (has_id r.slot_id) rows ≡ false) × IsKeyed rows

unfoldable pub lookup : String → List Row → Option Row
lookup i [] = none
lookup i (r ∷ rows) = if has_id i r then some r else lookup i rows

-- The row that `upsert_slot` leaves under the id of its values.
abbrev pub upserted : SlotValues → ℕ → Option Row → Row
upserted v now none = insert_row v now
upserted v now (some r) = update_row v now r

-- An upsert writes one row: an existing row keeps its model tag and its time of creation, a
-- missing one is inserted, and every other id reads as before.
pub lookup-upsert :
    (v : SlotValues) (now : ℕ) (j : String) (rows : List Row)
    → lookup j (upsert_slot v now rows)
      ≡ (if v.slot_id == j then some (upserted v now (lookup j rows)) else lookup j rows)
unfolding lookup upsert_slot insert_row update_row
lookup-upsert v now j [] = ground arith
lookup-upsert v now j (r ∷ rows) = ground (
  arith,
  eq_iff r.slot_id j,
  eq_iff r.slot_id v.slot_id,
  eq_iff v.slot_id j,
  lookup-upsert v now j rows,
)

any-upsert :
    (v : SlotValues) (now : ℕ) (i : String) (rows : List Row)
    → any (has_id i) (upsert_slot v now rows) ≡ (v.slot_id == i) || any (has_id i) rows
unfolding upsert_slot insert_row update_row
any-upsert v now i [] = ground arith
any-upsert v now i (r ∷ rows) = ground (
  arith,
  eq_iff r.slot_id i,
  eq_iff r.slot_id v.slot_id,
  eq_iff v.slot_id i,
  any-upsert v now i rows,
)

-- Where the ids of a table are a key, an upsert leaves them one.
upsert-IsKeyed :
    (v : SlotValues) (now : ℕ) (rows : List Row) → IsKeyed rows → IsKeyed (upsert_slot v now rows)
unfolding upsert_slot insert_row update_row
upsert-IsKeyed v now [] k = (refl, tt)
upsert-IsKeyed v now (r ∷ rows) k = ground (
  arith,
  eq_iff r.slot_id v.slot_id,
  eq_iff v.slot_id r.slot_id,
  any-upsert v now r.slot_id rows,
  upsert-IsKeyed v now rows k.1,
)

-- A batch of marks, row by row.
module _ (reason : String) (now : ℕ) where
  abbrev pub mark_row : List String → Row → Row
  mark_row ids r = if any (λ i. r.slot_id == i) ids then ended reason now r else r

  mark_row-cons :
      (i : String) (ids : List String) (r : Row)
      → mark_row ids (if has_id i r then ended reason now r else r) ≡ mark_row (i ∷ ids) r
  mark_row-cons i ids r = ground arith

  mark_row_self : (r : Row) (ids : List String) → mark_row (r.slot_id ∷ ids) r ≡ ended reason now r
  mark_row_self r ids = rw (eq_refl r.slot_id) refl

  mark_row-other :
      (r : Row) (ids : List String) → any (λ i. r.slot_id == i) ids ≡ false → mark_row ids r ≡ r
  mark_row-other r ids h = rw h refl

  mark_all-nil : (ids : List String) → mark_all reason now ids [] ≡ []
  unfolding mark_all
  mark_all-nil [] = refl
  mark_all-nil (i ∷ ids) = mark_all-nil ids

  pub mark_all-cons :
      (ids : List String) (r : Row) (rows : List Row)
      → mark_all reason now ids (r ∷ rows) ≡ mark_row ids r ∷ mark_all reason now ids rows
  unfolding mark_all
  mark_all-cons [] r rows = refl
  mark_all-cons (i ∷ ids) r rows =
      mark_all-cons ids (if has_id i r then ended reason now r else r)
        (mark_slot_ended reason now i rows)
      ∙ ap (λ x. x ∷ mark_all reason now ids (mark_slot_ended reason now i rows))
          (mark_row-cons i ids r)

  -- Marking an id that no row has changes nothing.
  mark-absent :
      (i : String) (rows : List Row)
      → any (has_id i) rows ≡ false
      → mark_slot_ended reason now i rows ≡ rows
  unfolding mark_slot_ended
  mark-absent i [] h = refl
  mark-absent i (r ∷ rows) h = ground (arith, mark-absent i rows)

  mark_all-absent :
      (i : String) (ids : List String) (rows : List Row)
      → any (has_id i) rows ≡ false
      → mark_all reason now (i ∷ ids) rows ≡ mark_all reason now ids rows
  unfolding mark_all
  mark_all-absent i ids rows h = ap (mark_all reason now ids) (mark-absent i rows h)

  -- Marks keep the ids, so the key stays one.
  any-mark :
      (i j : String) (rows : List Row)
      → any (has_id j) (mark_slot_ended reason now i rows) ≡ any (has_id j) rows
  unfolding mark_slot_ended
  any-mark i j [] = refl
  any-mark i j (r ∷ rows) = ground (arith, any-mark i j rows)

  pub mark-IsKeyed :
      (i : String) (rows : List Row) → IsKeyed rows → IsKeyed (mark_slot_ended reason now i rows)
  unfolding mark_slot_ended
  mark-IsKeyed i [] k = tt
  mark-IsKeyed i (r ∷ rows) k = ground (arith, any-mark i r.slot_id rows, mark-IsKeyed i rows k.1)

  pub mark_all-IsKeyed :
      (ids : List String) (rows : List Row) → IsKeyed rows → IsKeyed (mark_all reason now ids rows)
  unfolding mark_all
  mark_all-IsKeyed [] rows k = k
  mark_all-IsKeyed (i ∷ ids) rows k =
      mark_all-IsKeyed ids (mark_slot_ended reason now i rows) (mark-IsKeyed i rows k)

  module _ (p : Row → Bool) where
    any_chosen :
        (i : String) (n : ℕ) (rows : List Row)
        → any (has_id i) rows ≡ false
        → any (λ j. i == j) (row_ids (take n (keep p rows))) ≡ false
    any_chosen i zero rows h = refl
    any_chosen i (suc n) [] h = refl
    any_chosen i (suc n) (r ∷ rows) h = ground (
      arith,
      any_chosen i n rows,
      any_chosen i (suc n) rows,
      eq_iff i r.slot_id,
      eq_iff r.slot_id i,
    )

    -- The first `n` rows that `p` holds of are ended, and the other rows are as they were.
    abbrev pub end_first : ℕ → List Row → List Row
    end_first zero rows = rows
    end_first (suc n) [] = []
    end_first (suc n) (r ∷ rows) =
        let skipped = end_first (suc n) rows in
        if p r then ended reason now r ∷ end_first n rows else r ∷ skipped

    -- Selecting rows, at most `n` of them, and then marking each by its id, ends those rows.
    pub mark_all-end_first :
        (n : ℕ) (rows : List Row)
        → IsKeyed rows
        → mark_all reason now (row_ids (take n (keep p rows))) rows ≡ end_first n rows
    unfolding mark_all
    mark_all-end_first zero rows k = refl
    mark_all-end_first (suc n) [] k = refl
    mark_all-end_first (suc n) (r ∷ rows) k = elim (Bool-cases (p r)) [
      | inl hit ↦ rw hit (
          mark_all-cons (r.slot_id ∷ row_ids (take n (keep p rows))) r rows
          ∙ ap₂ ◌∷◌ (mark_row_self r (row_ids (take n (keep p rows)))) (
              mark_all-absent r.slot_id (row_ids (take n (keep p rows))) rows k.0
              ∙ mark_all-end_first n rows k.1))
      | inr miss ↦ rw miss (
          mark_all-cons (row_ids (take (suc n) (keep p rows))) r rows
          ∙ ap₂ ◌∷◌ (mark_row-other r _ (any_chosen r.slot_id (suc n) rows k.0))
              (mark_all-end_first (suc n) rows k.1))
    ]

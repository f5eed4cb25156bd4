-- ===== src/Recovery/Scan.antt =====
-- `_balanced_object_at` of src/turbohaul/api/tool_call_recovery.py: the end of the object that
-- begins at a brace.
pub mod Pieces
mod Reads
mod Inverse
pub mod Exact
use southpaw_turbohaul.Base.{
  ℕ, zero, suc, ◌+◌, ◌-◌, Bool, true, false, not, ◌&&◌, List, [], ◌∷◌, Option, none, some, nat_eq,
  if◌then◌else◌,
}

abbrev pub open_brace : ℕ
open_brace = b'{'

abbrev pub close_brace : ℕ
close_brace = b'}'

abbrev pub quote : ℕ
quote = b'"'

abbrev pub backslash : ℕ
backslash = b'\\'

-- The loop's variables but the index: how many braces are open, and where in a string it stands. The
-- source's `depth` is positive wherever it is lowered.
pub data Place : Type 0 where
  outside in_string after_backslash : Place

abbrev pub step_depth : Place → ℕ → ℕ → ℕ
step_depth outside depth c =
    if nat_eq c open_brace then depth + 1 else if nat_eq c close_brace then depth - 1 else depth
step_depth in_string depth c = depth
step_depth after_backslash depth c = depth

abbrev pub step_place : Place → ℕ → Place
step_place outside c = if nat_eq c quote then in_string else outside
step_place in_string c =
    if nat_eq c backslash then after_backslash else if nat_eq c quote then outside else in_string
step_place after_backslash c = in_string

-- The brace that brings the depth to 0.
abbrev pub closes : Place → ℕ → ℕ → Bool
closes outside depth c = nat_eq c close_brace && nat_eq depth 1
closes in_string depth c = false
closes after_backslash depth c = false

unfoldable pub scan : Place → ℕ → ℕ → List ℕ → Option ℕ
scan p depth i [] = none
scan p depth i (c ∷ cs) =
    let rest = scan (step_place p c) (step_depth p depth c) (i + 1) cs in
    if closes p depth c then some (i + 1) else rest

-- `text[start:]`
unfoldable pub drop : ℕ → List ℕ → List ℕ
drop zero l = l
drop (suc n) [] = []
drop (suc n) (x ∷ l) = drop n l

unfoldable pub object_at : ℕ → List ℕ → Option ℕ
unfolding scan
object_at start [] = none
object_at start (c ∷ cs) = if nat_eq c open_brace then scan outside 0 start (c ∷ cs) else none

unfoldable pub balanced_object_at : List ℕ → ℕ → Option ℕ
unfolding object_at drop
balanced_object_at text start = object_at start (drop start text)

-- ===== src/Recovery/Regex.antt =====
-- The two regular expressions of src/turbohaul/api/tool_call_recovery.py and their `finditer`.
use southpaw_turbohaul.Base.{
  ℕ, zero, suc, ◌+◌, ◌-◌, List, [], ◌∷◌, Option, none, some, nat_eq, if◌then◌else◌,
}
use southpaw_turbohaul.Base.Text.{codes, begins_with}
use southpaw_turbohaul.Slot.ThreadId.{is_space}
use southpaw_turbohaul.Recovery.Json.{Text}
use southpaw_turbohaul.Recovery.Scan.{drop}

abbrev pub open_tag : Text
open_tag = codes "<tool_call>"

abbrev pub close_tag : Text
close_tag = codes "</tool_call>"

-- How far `\s*` goes.
unfoldable pub count_spaces : Text → ℕ
unfolding is_space
count_spaces [] = 0
count_spaces (c ∷ cs) = if is_space c then suc (count_spaces cs) else 0

-- A place in a text: how much of it is behind, and what lies ahead.
abbrev pub Cursor : Type 0
Cursor = ℕ × Text

abbrev advance : ℕ → Cursor → Cursor
advance n (i, cs) = (i + n, drop n cs)

spaces : Cursor → Cursor
unfolding count_spaces drop
spaces (i, cs) = advance (count_spaces cs) (i, cs)

abbrev text_length : Text → ℕ
text_length [] = 0
text_length (c ∷ cs) = suc (text_length cs)

literal : Text → Cursor → Option Cursor
unfolding begins_with drop
literal p (i, cs) = if begins_with p cs then some (advance (text_length p) (i, cs)) else none

infixl 10 ◌>>=◌
abbrev ◌>>=◌ : {A B : Type 0} → Option A → (A → Option B) → Option B
none >>= f = none
some a >>= f = f a

-- `.*?\}` and then what `follows` matches: the first brace that it follows, and how far both go.
up_to_brace : (Text → Option ℕ) → ℕ → Text → Option ℕ
up_to_brace follows i [] = none
up_to_brace follows i (c ∷ cs) =
    let rest = up_to_brace follows (i + 1) cs in
    if nat_eq c b'}' then elim (follows cs) [ some n ↦ some (i + 1 + n) | none ↦ rest ] else rest

-- `\s*` and a literal: how far they go.
spaces_then : Text → Text → Option ℕ
unfolding spaces literal
spaces_then p cs = do c ← literal p (spaces (0, cs)); some c.0

-- `_XML_RE` at the start of a text: where its body begins, and where it ends.
unfoldable pub xml_match : Text → Option (ℕ × ℕ)
unfolding literal spaces up_to_brace spaces_then
xml_match text = do
  tag ← literal open_tag (0, text)
  let body = spaces tag
  inside ← literal (codes "{") body
  ends ← up_to_brace (spaces_then close_tag) inside.0 inside.1
  some (body.0, ends)

-- `[^"]+"`: the name, and the place behind the quote.
name_then_quote : Cursor → Option (Text × Cursor)
name_then_quote (i, []) = none
name_then_quote (i, c ∷ cs) =
    let rest = name_then_quote (i + 1, cs) in
    if nat_eq c b'"'
    then some ([], (i + 1, cs))
    else elim rest [ none ↦ none | some (name, at) ↦ some (c ∷ name, at) ]

abbrev non_empty : Text × Cursor → Option (Text × Cursor)
non_empty ([], at) = none
non_empty (c ∷ cs, at) = some (c ∷ cs, at)

-- `_CANONICAL_RE` at the start of a text: the name, where the arguments begin, and where it ends.
unfoldable pub canonical_match : Text → Option (Text × ℕ × ℕ)
unfolding literal spaces up_to_brace spaces_then name_then_quote
canonical_match text = do
  a ← literal (codes "{") (0, text)
  b ← literal (codes "\"name\"") (spaces a)
  c ← literal (codes ":") (spaces b)
  d ← literal (codes "\"") (spaces c)
  named ← name_then_quote d
  (name, e) ← non_empty named
  f ← literal (codes ",") (spaces e)
  g ← literal (codes "\"arguments\"") (spaces f)
  h ← literal (codes ":") (spaces g)
  let args = spaces h
  inside ← literal (codes "{") args
  ends ← up_to_brace (spaces_then (codes "}")) inside.0 inside.1
  some (name, args.0, ends)

-- `finditer`: the matches from left to right, each with its start; the next search begins where a
-- match ends. `skip` characters belong to the last match.
unfoldable pub find_all : {A : Type 0} → (Text → Option A) → (A → ℕ) → ℕ → ℕ → Text → List (ℕ × A)
find_all match_at size skip i [] = []
find_all match_at size (suc skip) i (c ∷ cs) = find_all match_at size skip (i + 1) cs
find_all match_at size zero i (c ∷ cs) = elim (match_at (c ∷ cs)) [
  | none ↦ find_all match_at size zero (i + 1) cs
  | some m ↦ (i, m) ∷ find_all match_at size (size m - 1) (i + 1) cs
]

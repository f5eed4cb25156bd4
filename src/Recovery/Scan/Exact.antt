-- ===== src/Recovery/Scan/Exact.antt =====
-- The scan of src/turbohaul/api/tool_call_recovery.py finds the end of an object, and nothing else.
use southpaw_turbohaul.Base.{
  ℕ, zero, suc, ◌+◌, ◌≡◌, ◌↔◌, refl, sym, ap, ◌∙◌, subst, List, [], ◌∷◌, ◌++◌, some, arith, nat_eq,
  length, Bool-cases, inl, inr,
}
use southpaw_turbohaul.Recovery.Scan.{
  open_brace, close_brace, outside, scan, drop, object_at, balanced_object_at,
}
use southpaw_turbohaul.Recovery.Scan.Pieces.{IsPieces}
use southpaw_turbohaul.Recovery.Scan.Reads.{scan-pieces, scan_end}
use southpaw_turbohaul.Recovery.Scan.Inverse.{read_pieces}

-- An object of pieces at `start`, and its end.
abbrev pub IsObjectAt : List ℕ → ℕ → ℕ → Type 0
IsObjectAt text start e =
    (o : List ℕ) × (rest : List ℕ) × IsPieces o
    × (drop start text ≡ open_brace ∷ o ++ close_brace ∷ rest)
    × (e ≡ start + length o + 2)

first_open :
    (start : ℕ) (cs : List ℕ) → object_at start (open_brace ∷ cs) ≡ scan outside 1 (start + 1) cs
unfolding object_at scan
first_open start cs = refl

at_sound :
    (start e : ℕ) (l : List ℕ)
    → object_at start l ≡ some e
    → (o : List ℕ) × (rest : List ℕ) × IsPieces o
      × (l ≡ open_brace ∷ o ++ close_brace ∷ rest)
      × (e ≡ start + length o + 2)
at_sound start e [] h = absurd (unfold object_at in cc)
at_sound start e (c ∷ cs) h = elim (Bool-cases (nat_eq c open_brace)) [
  | inl opens ↦
      let is : c ≡ open_brace = ground arith in
      let inner = subst (λ x. object_at start (x ∷ cs) ≡ some e) is h in
      let (o, rest, ho, split, after) =
        read_pieces (suc (length cs)) zero (start + 1) e cs (omega arith)
          (sym (first_open start cs) ∙ inner) in
      (o, rest, ho, cc, omega (arith, after))
  | inr other ↦ absurd (unfold object_at in ground arith)
]

-- `_balanced_object_at` returns an index exactly if at `start` stands an object, with its strings
-- closed and its braces in pairs outside them, and the index is the one past its closing brace.
pub balanced_object_at_iff :
    (text : List ℕ) (start e : ℕ)
    → (balanced_object_at text start ≡ some e) ↔ IsObjectAt text start e
unfolding balanced_object_at
balanced_object_at_iff text start e = (
  at_sound start e (drop start text),
  λ (o, rest, ho, at, is).
      ap (object_at start) at
      ∙ first_open start (o ++ close_brace ∷ rest)
      ∙ scan-pieces zero (start + 1) (close_brace ∷ rest) ho
      ∙ scan_end (start + 1 + length o) rest
      ∙ ap some (omega (arith, is)),
)

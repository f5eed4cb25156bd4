-- ===== src/Recovery/Scan/Inverse.antt =====
-- What the scan of src/turbohaul/api/tool_call_recovery.py has read when it ends.
use southpaw_turbohaul.Base.{
  ℕ, zero, suc, ◌+◌, ◌<◌, ◌≡◌, ◌≢◌, refl, sym, ap, ◌∙◌, subst, List, [], ◌∷◌, ◌++◌, append_assoc,
  Option, some, arith, nat_eq, length, length-append, Bool-cases, inl, inr,
}
use southpaw_turbohaul.Recovery.Scan.{
  open_brace, close_brace, quote, backslash, outside, in_string, scan,
}
use southpaw_turbohaul.Recovery.Scan.Pieces.{
  IsBody, letter, escaped, IsPieces, plain, string, object,
}
use southpaw_turbohaul.Recovery.Scan.Reads.{scan_plain, scan-quote, scan_open, scan_close, scan_end}

-- The end of a string: what it holds, and the scan that goes on behind it.
abbrev StringRead : ℕ → ℕ → ℕ → List ℕ → Type 0
StringRead d i e text =
    (b : List ℕ) × (rest : List ℕ) × IsBody b
    × (text ≡ b ++ quote ∷ rest)
    × (scan outside d (i + length b + 1) rest ≡ some e)

moved :
    (d e : ℕ) (rest : List ℕ) {i j : ℕ}
    → i ≡ j
    → scan outside d i rest ≡ some e
    → scan outside d j rest ≡ some e
moved d e rest same h = subst (λ k. scan outside d k rest ≡ some e) same h

read_string : (text : List ℕ) (d i e : ℕ) → scan in_string d i text ≡ some e → StringRead d i e text
unfolding scan
read_string [] d i e h = cc
read_string (c ∷ []) d i e h = absurd (ground arith)
read_string (c ∷ c' ∷ cs) d i e h = elim (Bool-cases (nat_eq c backslash)) [
  | inl back ↦
      let (b, rest, body, split, more) = read_string cs d (i + 1 + 1) e (ground arith) in
      let is : c ≡ backslash = ground arith in
      (backslash ∷ c' ∷ b, rest, escaped body, cc, moved d e rest (omega arith) more)
  | inr unescaped ↦ elim (Bool-cases (nat_eq c quote)) [
    | inl ends ↦
        let is : c ≡ quote = ground arith in
        (
          [],
          c' ∷ cs,
          IsBody.done,
          cc,
          moved d e (c' ∷ cs) {i = i + 1} (omega arith) (unfold scan in ground arith),
        )
    | inr letters ↦
        let (b, rest, body, split, more) = read_string (c' ∷ cs) d (i + 1) e (ground arith) in
        (
          c ∷ b,
          rest,
          letter (λ x. ground arith) (λ x. ground arith) body,
          ap (◌∷◌ c) split,
          moved d e rest (omega arith) more,
        )
  ]
]

abbrev pub After : ℕ → ℕ → ℕ → List ℕ → Type 0
After zero i e rest = e ≡ i
After (suc d) i e rest = scan outside (suc d) i rest ≡ some e

-- Up to the brace that closes the innermost object: what stands before it, and either the end, or
-- the scan that goes on in the object around it.
abbrev pub PiecesRead : ℕ → ℕ → ℕ → List ℕ → Type 0
PiecesRead d i e text =
    (l : List ℕ) × (rest : List ℕ) × IsPieces l
    × (text ≡ l ++ close_brace ∷ rest)
    × After d (i + length l + 1) e rest

After-moved : (d e : ℕ) (rest : List ℕ) (i j : ℕ) → i ≡ j → After d i e rest → After d j e rest
After-moved d e rest i j same h = subst (λ k. After d k e rest) same h

some-injective : {a b : ℕ} → ◌≡◌ {A = Option ℕ} (some a) (some b) → a ≡ b
some-injective h = cc

read_close :
    (d i e : ℕ) (cs : List ℕ)
    → scan outside (suc d) i (close_brace ∷ cs) ≡ some e
    → PiecesRead d i e (close_brace ∷ cs)
read_close zero i e cs h =
    let same = some-injective (sym (scan_end i cs) ∙ h) in
    ([], cs, IsPieces.done, refl, omega (arith, same))
read_close (suc d) i e cs h =
    ([], cs, IsPieces.done, refl, moved (suc d) e cs (omega arith) (sym (scan_close d i cs) ∙ h))

-- What comes before the pieces.
prepend_plain :
    (d i e c : ℕ) (cs : List ℕ)
    → c ≢ quote
    → c ≢ open_brace
    → c ≢ close_brace
    → PiecesRead d (i + 1) e cs
    → PiecesRead d i e (c ∷ cs)
prepend_plain d i e c cs nq ob nc (l, rest, h, split, after) =
    (c ∷ l, rest, plain nq ob nc h, ap (◌∷◌ c) split, After-moved d e rest _ _ (omega arith) after)

prepend_string :
    (d i e : ℕ) (b cs rest : List ℕ)
    → IsBody b
    → cs ≡ b ++ quote ∷ rest
    → PiecesRead d (i + 1 + length b + 1) e rest
    → PiecesRead d i e (quote ∷ cs)
prepend_string d i e b cs rest body split (l, more, h, split', after) = (
  quote ∷ b ++ quote ∷ l,
  more,
  string body h refl,
  ap (◌∷◌ quote) (
      split
      ∙ ap (λ x. b ++ quote ∷ x) split'
      ∙ sym (append_assoc b (quote ∷ l) (close_brace ∷ more))),
  After-moved d e more _ _ (omega (arith, length-append b (quote ∷ l))) after,
)

prepend_object :
    (d i e : ℕ) (o cs rest : List ℕ)
    → IsPieces o
    → cs ≡ o ++ close_brace ∷ rest
    → PiecesRead d (i + 1 + length o + 1) e rest
    → PiecesRead d i e (open_brace ∷ cs)
prepend_object d i e o cs rest ho split (l, more, h, split', after) = (
  open_brace ∷ o ++ close_brace ∷ l,
  more,
  object ho h refl,
  ap (◌∷◌ open_brace) (
      split
      ∙ ap (λ x. o ++ close_brace ∷ x) split'
      ∙ sym (append_assoc o (close_brace ∷ l) (close_brace ∷ more))),
  After-moved d e more _ _ (omega (arith, length-append o (close_brace ∷ l))) after,
)

shorter : (cs b rest : List ℕ) (c n : ℕ) → cs ≡ b ++ c ∷ rest → length cs < suc n → length rest < n
shorter cs b rest c n split h = omega (arith, h, ap length split, length-append b (c ∷ rest))

pub read_pieces :
    (n d i e : ℕ) (text : List ℕ)
    → length text < n
    → scan outside (suc d) i text ≡ some e
    → PiecesRead d i e text
read_pieces zero d i e text lt h = absurd (omega (arith, lt))
read_pieces (suc n) d i e [] lt h = absurd (unfold scan in cc)
read_pieces (suc n) d i e (c ∷ cs) lt h = elim (Bool-cases (nat_eq c close_brace)) [
  | inl shut ↦
      let is : close_brace ≡ c = ground arith in
      subst (λ x. PiecesRead d i e (x ∷ cs)) is
        (read_close d i e cs (subst (λ x. scan outside (suc d) i (x ∷ cs) ≡ some e) (sym is) h))
  | inr unshut ↦ elim (Bool-cases (nat_eq c open_brace)) [
    | inl opens ↦
        let is : open_brace ≡ c = ground arith in
        let inner = subst (λ x. scan outside (suc d) i (x ∷ cs) ≡ some e) (sym is) h in
        let (o, rest, ho, split, after) =
          read_pieces n (suc d) (i + 1) e cs (omega (arith, lt)) (sym (scan_open d i cs) ∙ inner) in
        subst (λ x. PiecesRead d i e (x ∷ cs)) is
          (prepend_object d i e o cs rest ho split (
            read_pieces n d (i + 1 + length o + 1) e rest
              (shorter cs o rest close_brace n split (omega (arith, lt))) after))
    | inr unopened ↦ elim (Bool-cases (nat_eq c quote)) [
      | inl quoted ↦
          let is : quote ≡ c = ground arith in
          let inside = subst (λ x. scan outside (suc d) i (x ∷ cs) ≡ some e) (sym is) h in
          let (b, rest, body, split, more) =
            read_string cs (suc d) (i + 1) e (sym (scan-quote d i cs) ∙ inside) in
          subst (λ x. PiecesRead d i e (x ∷ cs)) is
            (prepend_string d i e b cs rest body split (
              read_pieces n d (i + 1 + length b + 1) e rest
                (shorter cs b rest quote n split (omega (arith, lt))) more))
      | inr ordinary ↦
          let nq : c ≢ quote = λ x. ground arith in
          let ob : c ≢ open_brace = λ x. ground arith in
          let nc : c ≢ close_brace = λ x. ground arith in
          prepend_plain d i e c cs nq ob nc (
            read_pieces n d (i + 1) e cs (omega (arith, lt))
              (sym (scan_plain d i c cs nq ob nc) ∙ h))
    ]
  ]
]

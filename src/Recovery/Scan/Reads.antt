-- ===== src/Recovery/Scan/Reads.antt =====
-- The scan of src/turbohaul/api/tool_call_recovery.py reads whole strings and objects.
use southpaw_turbohaul.Base.{
  ℕ, suc, ◌+◌, ◌≡◌, ◌≢◌, refl, sym, ap, ◌∙◌, subst, List, ◌∷◌, ◌++◌, append_assoc, some, arith,
  length, length-append,
}
use southpaw_turbohaul.Recovery.Scan.{open_brace, close_brace, quote, outside, in_string, scan}
use southpaw_turbohaul.Recovery.Scan.Pieces.{
  IsBody, letter, escaped, IsPieces, plain, string, object,
}

scan-body :
    {b : List ℕ} (d i : ℕ) (rest : List ℕ)
    → IsBody b
    → scan in_string d i (b ++ quote ∷ rest) ≡ scan outside d (i + length b + 1) rest
unfolding scan
scan-body d i rest IsBody.done = ap (λ k. scan outside d k rest) (omega arith)
scan-body d i rest (letter {c} {l} nq nb h) =
    ground (arith, scan-body d (i + 1) rest h, ap (λ k. scan outside d k rest) (shift i (length l)))
  where
    shift : (i n : ℕ) → i + 1 + n + 1 ≡ i + suc n + 1
    shift i n = omega arith
scan-body d i rest (escaped {c} {l} h) =
    scan-body d (i + 1 + 1) rest h ∙ ap (λ k. scan outside d k rest) (omega arith)

pub scan_plain :
    (d i c : ℕ) (text : List ℕ)
    → c ≢ quote
    → c ≢ open_brace
    → c ≢ close_brace
    → scan outside (suc d) i (c ∷ text) ≡ scan outside (suc d) (i + 1) text
unfolding scan
scan_plain d i c text nq ob nc = ground arith

pub scan-quote :
    (d i : ℕ) (text : List ℕ)
    → scan outside (suc d) i (quote ∷ text) ≡ scan in_string (suc d) (i + 1) text
unfolding scan
scan-quote d i text = refl

pub scan_open :
    (d i : ℕ) (text : List ℕ)
    → scan outside (suc d) i (open_brace ∷ text) ≡ scan outside (suc (suc d)) (i + 1) text
unfolding scan
scan_open d i text = ap (λ k. scan outside k (i + 1) text) (omega arith)

pub scan_close :
    (d i : ℕ) (text : List ℕ)
    → scan outside (suc (suc d)) i (close_brace ∷ text) ≡ scan outside (suc d) (i + 1) text
unfolding scan
scan_close d i text = ground arith

pub scan_end : (i : ℕ) (text : List ℕ) → scan outside 1 i (close_brace ∷ text) ≡ some (i + 1)
unfolding scan
scan_end i text = refl

pub scan-pieces :
    {l : List ℕ} (d i : ℕ) (rest : List ℕ)
    → IsPieces l
    → scan outside (suc d) i (l ++ rest) ≡ scan outside (suc d) (i + length l) rest
scan-pieces d i rest IsPieces.done = ap (λ k. scan outside (suc d) k rest) (omega arith)
scan-pieces d i rest (plain {c} {l} nq ob nc h) =
    scan_plain d i c (l ++ rest) nq ob nc
    ∙ scan-pieces d (i + 1) rest h
    ∙ ap (λ k. scan outside (suc d) k rest) (omega arith)
scan-pieces d i rest (string {b} {l} {t} hb h e) =
    subst (λ t. scan outside (suc d) i (t ++ rest) ≡ scan outside (suc d) (i + length t) rest)
      (sym e)
      (ap (λ x. scan outside (suc d) i (quote ∷ x)) (append_assoc b (quote ∷ l) rest)
        ∙ scan-quote d i (b ++ quote ∷ (l ++ rest))
        ∙ scan-body (suc d) (i + 1) (l ++ rest) hb
        ∙ scan-pieces d (i + 1 + length b + 1) rest h
        ∙ ap (λ k. scan outside (suc d) k rest) (omega (arith, length-append b (quote ∷ l))))
scan-pieces d i rest (object {o} {l} {t} ho h e) =
    subst (λ t. scan outside (suc d) i (t ++ rest) ≡ scan outside (suc d) (i + length t) rest)
      (sym e)
      (ap (λ x. scan outside (suc d) i (open_brace ∷ x)) (append_assoc o (close_brace ∷ l) rest)
        ∙ scan_open d i (o ++ close_brace ∷ (l ++ rest))
        ∙ scan-pieces (suc d) (i + 1) (close_brace ∷ (l ++ rest)) ho
        ∙ scan_close d (i + 1 + length o) (l ++ rest)
        ∙ scan-pieces d (i + 1 + length o + 1) rest h
        ∙ ap (λ k. scan outside (suc d) k rest) (omega (arith, length-append o (close_brace ∷ l))))

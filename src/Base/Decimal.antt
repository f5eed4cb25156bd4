-- ===== src/Base/Decimal.antt =====
-- `str(n)` of a natural number, and its reading.
use Prim.Native.Char.{Char, code}
use Prim.Native.String.{String, ◌∷◌, []}
use Prim.Native.Nat.{ℕ, zero, suc, ◌+◌, ◌-◌, ◌*◌, ◌/◌, ◌%◌, ◌<◌}
use mathlib.Core.Path.{◌≡◌, refl, sym, ap, ◌∙◌}
use native.Mathlib.Omega.{arith}
use southpaw_turbohaul.Base.Tests.{ltb, if◌then◌else◌, Bool-cases}
use mathlib.Core.Logic.{inl, inr}
use southpaw_turbohaul.Base.Text.{nth_char, append_text}
use southpaw_turbohaul.Base.Int.{ℤ, pos, negsuc}

digit : ℕ → Char
unfolding nth_char
digit d = nth_char d "0123456789"

-- One round for each digit, from the last one on.
emit : ℕ → ℕ → String → String
unfolding digit
emit zero n out = out
emit (suc f) n out =
    let more = emit f (n / 10) (digit (n % 10) ∷ out) in
    if ltb n 10 then digit (n % 10) ∷ out else more

unfoldable pub decimal : ℕ → String
unfolding emit
decimal n = emit (suc n) n []

scan : String → ℕ → ℕ
scan [] n = n
scan (c ∷ s) n = scan s (10 * n + (code c - 48))

code-digit : (d : ℕ) → d < 10 → code (digit d) - 48 ≡ d
unfolding digit nth_char
code-digit zero h = refl
code-digit (suc zero) h = refl
code-digit (suc (suc zero)) h = refl
code-digit (suc (suc (suc zero))) h = refl
code-digit (suc (suc (suc (suc zero)))) h = refl
code-digit (suc (suc (suc (suc (suc zero))))) h = refl
code-digit (suc (suc (suc (suc (suc (suc zero)))))) h = refl
code-digit (suc (suc (suc (suc (suc (suc (suc zero))))))) h = refl
code-digit (suc (suc (suc (suc (suc (suc (suc (suc zero)))))))) h = refl
code-digit (suc (suc (suc (suc (suc (suc (suc (suc (suc zero))))))))) h = refl
code-digit (suc (suc (suc (suc (suc (suc (suc (suc (suc (suc n)))))))))) h = absurd (omega arith)

scan-emit : (f n : ℕ) (out : String) → n < f → scan (emit f n out) 0 ≡ scan out n
unfolding emit scan
scan-emit zero n out h = elim h [ ]
scan-emit (suc f) n out h = elim (Bool-cases (ltb n 10)) [
  | inl last ↦ rw last (ap (scan out) (ground (arith, code-digit (n % 10) (omega arith))))
  | inr more ↦ rw more (
      scan-emit f (n / 10) (digit (n % 10) ∷ out) (ground arith)
      ∙ ap (scan out) (omega (arith, code-digit (n % 10) (omega arith))))
]

-- `str(n)` of an int.
unfoldable pub str_int : ℤ → String
unfolding decimal
str_int (pos n) = decimal n
str_int (negsuc n) = append_text "-" (decimal (suc n))

-- Two numbers with the same decimal text are the same.
pub decimal-injective : (m n : ℕ) → decimal m ≡ decimal n → m ≡ n
unfolding decimal scan
decimal-injective m n e =
    sym (scan-emit (suc m) m [] (omega arith))
    ∙ ap (λ t. scan t 0) e
    ∙ scan-emit (suc n) n [] (omega arith)

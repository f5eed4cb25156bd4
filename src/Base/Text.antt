-- ===== src/Base/Text.antt =====
-- Python's operations on texts that the code uses: tests on characters, prefixes and infixes,
-- lower-casing and replacement. Texts are walked by their code points.
use Prim.Native.Char.{Char, code, nul}
use Prim.Native.String.{String, ◌++◌}
use Prim.Native.Nat.{ℕ, zero, suc, ◌-◌}
use mathlib.Core.Bool.{Bool, true, false, ◌&&◌, ◌||◌}
use mathlib.Core.List.{List, [], ◌∷◌}
use mathlib.Core.Path.{◌≡◌, refl}
use mathlib.Core.Logic.{◌↔◌}
use native.Mathlib.Omega.{arith}
use text.Mathlib.Text.{◌==◌}
use southpaw_turbohaul.Base.Tests.{leb, nat_eq, if◌then◌else◌}
use southpaw_turbohaul.Base.Lists.{any}

-- The code points of a text.
abbrev pub codes : String → List ℕ
codes String.[] = []
codes (String.◌∷◌ c s) = code c ∷ codes s

-- The texts one after the other.
abbrev pub append_text : String → String → String
append_text s t = s ++ t

-- `key in collection`
abbrev pub member : String → List String → Bool
member k l = any (λ t. t == k) l

abbrev pub between : ℕ → ℕ → ℕ → Bool
between lo hi n = leb lo n && leb n hi

unfoldable pub same_codes : List ℕ → List ℕ → Bool
same_codes [] [] = true
same_codes (c ∷ cs) (d ∷ ds) = nat_eq c d && same_codes cs ds
same_codes [] (d ∷ ds) = false
same_codes (c ∷ cs) [] = false

pub same_codes_iff : (a b : List ℕ) → (same_codes a b ≡ true) ↔ (a ≡ b)
unfolding same_codes
same_codes_iff [] [] = (λ h. refl, λ h. refl)
same_codes_iff [] (d ∷ ds) = (λ h. cc, λ h. cc)
same_codes_iff (c ∷ cs) [] = (λ h. cc, λ h. cc)
same_codes_iff (c ∷ cs) (d ∷ ds) =
    (λ h. ground (arith, (same_codes_iff cs ds).0), λ h. ground (arith, (same_codes_iff cs ds).1))

-- `text.startswith(p)`
unfoldable pub begins_with : List ℕ → List ℕ → Bool
begins_with [] cs = true
begins_with (p ∷ ps) [] = false
begins_with (p ∷ ps) (c ∷ cs) = nat_eq p c && begins_with ps cs

-- `p in text`
unfoldable pub occurs_in : List ℕ → List ℕ → Bool
unfolding begins_with
occurs_in p [] = begins_with p []
occurs_in p (c ∷ cs) = begins_with p (c ∷ cs) || occurs_in p cs

-- `text.endswith(p)`
unfoldable pub finishes_with : List ℕ → List ℕ → Bool
unfolding same_codes
finishes_with p [] = same_codes p []
finishes_with p (c ∷ cs) = same_codes p (c ∷ cs) || finishes_with p cs

unfoldable pub nth_char : ℕ → String → Char
nth_char n String.[] = nul
nth_char zero (String.◌∷◌ c s) = c
nth_char (suc n) (String.◌∷◌ c s) = nth_char n s

unfoldable pub map_chars : (Char → Char) → String → String
map_chars f String.[] = ""
map_chars f (String.◌∷◌ c s) = String.◌∷◌ (f c) (map_chars f s)

unfoldable pub lower_char : Char → Char
unfolding nth_char
lower_char c =
    if between b'A' b'Z' (code c) then nth_char (code c - b'A') "abcdefghijklmnopqrstuvwxyz" else c

-- `text.lower()`, of the ASCII letters.
unfoldable pub lower : String → String
unfolding map_chars lower_char
lower s = map_chars lower_char s

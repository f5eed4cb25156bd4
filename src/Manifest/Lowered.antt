-- ===== src/Manifest/Lowered.antt =====
-- Lower-casing leaves a name a name, for the texts that src/turbohaul/manifest.py lower-cases.
use Prim.Native.Char.{Char, code}
use southpaw_turbohaul.Base.{
  ℕ, zero, suc, ◌-◌, ◌<◌, String, ◌≡◌, refl, Bool, true, ◌&&◌, arith, nat_eq, Bool-cases, inl, inr,
  length,
}
use southpaw_turbohaul.Base.Text.{codes, between, nth_char, map_chars, lower_char, lower}
use southpaw_turbohaul.Manifest.Validate.{is_name_char, name_ends, is_name}

all_chars : (ℕ → Bool) → String → Bool
all_chars p String.[] = true
all_chars p (String.◌∷◌ c s) = p (code c) && all_chars p s

nth_char-all_chars :
    (p : ℕ → Bool) (n : ℕ) (s : String)
    → all_chars p s ≡ true
    → n < length (codes s)
    → p (code (nth_char n s)) ≡ true
unfolding all_chars nth_char
nth_char-all_chars p n String.[] h lt = elim lt [ ]
nth_char-all_chars p zero (String.◌∷◌ c s) h lt = ground arith
nth_char-all_chars p (suc n) (String.◌∷◌ c s) h lt =
    nth_char-all_chars p n s (ground arith) (omega (arith, lt))

abbrev is_letter : ℕ → Bool
is_letter c = between b'a' b'z' c

small : String
small = "abcdefghijklmnopqrstuvwxyz"

small_letter : (n : ℕ) → n < 26 → is_letter (code (nth_char n small)) ≡ true
unfolding small
small_letter n lt = nth_char-all_chars is_letter n small checked lt
  where
    checked : all_chars is_letter small ≡ true
    checked = unfold all_chars in refl

lower_char-lem :
    (c : Char)
    → (is_name_char (code (lower_char c)) ≡ is_name_char (code c))
      × (nat_eq (code (lower_char c)) b'\n' ≡ nat_eq (code c) b'\n')
unfolding lower_char small
lower_char-lem c = elim (Bool-cases (between b'A' b'Z' (code c))) [
  | inl upper ↦ let l = small_letter (code c - b'A') (ground arith) in (ground arith, ground arith)
  | inr other ↦ (ground arith, ground arith)
]

name_ends-lower : (s : String) → name_ends (codes (map_chars lower_char s)) ≡ name_ends (codes s)
unfolding map_chars name_ends
name_ends-lower String.[] = refl
name_ends-lower (String.◌∷◌ c String.[]) = let l = lower_char-lem c in rw (l.0, l.1) refl
name_ends-lower (String.◌∷◌ c (String.◌∷◌ d s)) =
    rw ((lower_char-lem c).0, name_ends-lower (String.◌∷◌ d s)) refl

pub is_name-lower : (s : String) → is_name (codes (lower s)) ≡ is_name (codes s)
unfolding is_name lower map_chars
is_name-lower String.[] = refl
is_name-lower (String.◌∷◌ c s) = rw ((lower_char-lem c).0, name_ends-lower s) refl

-- ===== src/Manifest/Tag.antt =====
-- `validate_tag` of src/turbohaul/manifest.py.
use southpaw_turbohaul.Base.{
  ℕ, zero, suc, ◌≤◌, String, ◌≡◌, ◌⊎◌, inl, inr, Bool, true, false, ◌&&◌, ◌||◌, List, [], ◌∷◌, ◌++◌,
  arith, nat_eq, length, All, refl, Bool-cases,
}
use southpaw_turbohaul.Base.Text.{codes, between}

abbrev pub is_tag_start : ℕ → Bool
is_tag_start c = between b'a' b'z' c || between b'0' b'9' c

abbrev pub is_tag_char : ℕ → Bool
is_tag_char c = is_tag_start c || (nat_eq c b'.' || (nat_eq c b'_' || nat_eq c b'-'))

-- `[a-z0-9._-]{0,n}$`, where `$` allows a final line break.
unfoldable pub tag_ends : ℕ → List ℕ → Bool
tag_ends n [] = true
tag_ends zero (c ∷ []) = nat_eq c b'\n'
tag_ends zero (c ∷ d ∷ cs) = false
tag_ends (suc n) (c ∷ []) = is_tag_char c || nat_eq c b'\n'
tag_ends (suc n) (c ∷ d ∷ cs) = is_tag_char c && tag_ends n (d ∷ cs)

-- `TAG_RE.match(tag)`
unfoldable pub matches_tag : List ℕ → Bool
unfolding tag_ends
matches_tag [] = false
matches_tag (c ∷ cs) = is_tag_start c && tag_ends 63 cs

-- Whether `validate_tag` returns, for a string.
unfoldable pub validate_tag : String → Bool
unfolding matches_tag
validate_tag tag = matches_tag (codes tag)

abbrev pub IsTagChar : ℕ → Type 0
IsTagChar c = is_tag_char c ≡ true

-- A text without its final line break, if it has one.
abbrev pub IsWithout : List ℕ → List ℕ → Type 0
IsWithout cs name = (cs ≡ name) ⊎ (cs ≡ name ++ b'\n' ∷ [])

tag_ends-name :
    (n : ℕ) (cs : List ℕ)
    → tag_ends n cs ≡ true
    → (name : List ℕ) × IsWithout cs name × All IsTagChar name × (length name ≤ n)
unfolding tag_ends
tag_ends-name n [] h = ([], inl refl, tt, omega arith)
tag_ends-name zero (c ∷ []) h = ([], inr (ground arith), tt, omega arith)
tag_ends-name zero (c ∷ d ∷ cs) h = cc
tag_ends-name (suc n) (c ∷ []) h = elim (Bool-cases (is_tag_char c)) [
  | inl e ↦ (c ∷ [], inl refl, (e, tt), omega arith)
  | inr e ↦ ([], inr (ground arith), tt, omega arith)
]
tag_ends-name (suc n) (c ∷ d ∷ cs) h =
    let (name, is, chars, short) = tag_ends-name n (d ∷ cs) (ground arith) in
    (c ∷ name, ground arith, (ground arith, chars), omega (arith, short))

-- A tag that `validate_tag` accepts begins with a small letter or a digit and is made of at most 64
-- small letters, digits, `.`, `_` and `-`: no separator of paths, no name that begins with a dot. A
-- single line break may follow.
pub validate_tag-name :
    (tag : String)
    → validate_tag tag ≡ true
    → (c : ℕ) × (rest : List ℕ) × IsWithout (codes tag) (c ∷ rest)
      × (is_tag_start c ≡ true)
      × All IsTagChar (c ∷ rest)
      × (length (c ∷ rest) ≤ 64)
unfolding validate_tag
validate_tag-name tag h = go (codes tag) h
  where
    go :
        (cs : List ℕ)
        → matches_tag cs ≡ true
        → (c : ℕ) × (rest : List ℕ) × IsWithout cs (c ∷ rest)
          × (is_tag_start c ≡ true)
          × All IsTagChar (c ∷ rest)
          × (length (c ∷ rest) ≤ 64)
    go [] h = cc
    go (c ∷ cs) h =
        let (name, is, chars, short) = tag_ends-name 63 cs (ground arith) in
        (c, name, ground arith, ground arith, (ground arith, chars), omega (arith, short))

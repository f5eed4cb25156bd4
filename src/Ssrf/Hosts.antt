-- ===== src/Ssrf/Hosts.antt =====
-- Which hosts `is_hf_host` of src/turbohaul/ssrf_guard.py accepts.
use Prim.Native.String.append
use southpaw_turbohaul.Base.{
  AnyOf, ℕ, String, ◌≡◌, ◌⊎◌, ◌↔◌, inl, inr, refl, sym, ap, ◌∙◌, Bool, true, false, ◌||◌, List, [],
  ◌∷◌, ◌++◌, arith, ◌==◌, eq_iff, Bool-cases,
}
use southpaw_turbohaul.Base.Text.{
  codes, append_text, lower, same_codes, same_codes_iff, finishes_with,
}
use southpaw_turbohaul.Ssrf.{is_host_of, is_hf_host}

-- A text that ends with another.
finishes_with-split : (p cs : List ℕ) → finishes_with p cs ≡ true → (q : List ℕ) × (cs ≡ q ++ p)
unfolding finishes_with
finishes_with-split p [] h = ([], sym ((same_codes_iff p []).0 h))
finishes_with-split p (c ∷ cs) h = elim (Bool-cases (same_codes p (c ∷ cs))) [
  | inl whole ↦ ([], sym ((same_codes_iff p (c ∷ cs)).0 whole))
  | inr part ↦ let (q, e) = finishes_with-split p cs (ground arith) in (c ∷ q, ap (◌∷◌ c) e)
]

finishes_with-append : (q p : List ℕ) → finishes_with p (q ++ p) ≡ true
unfolding finishes_with
finishes_with-append [] [] = (same_codes_iff [] []).1 refl
finishes_with-append [] (c ∷ cs) = ground (arith, (same_codes_iff (c ∷ cs) (c ∷ cs)).1 refl)
finishes_with-append (c ∷ q) p = ground (arith, finishes_with-append q p)

-- The host, in any case of its letters, is the allowed one or a subdomain of it.
abbrev pub IsHostOf : String → String → Type 0
IsHostOf host allowed =
    (lower host ≡ lower allowed)
    ⊎ ((sub : List ℕ) × (codes (lower host) ≡ sub ++ b'.' ∷ codes (lower allowed)))

dotted : (s : String) → codes (append_text "." s) ≡ b'.' ∷ codes s
dotted s = ap codes (append.cons "." "" s ∙ ap (String.◌∷◌ ".") (append.nil s))

is_host_of_iff : (host a : String) → (is_host_of host a ≡ true) ↔ IsHostOf host a
is_host_of_iff host a = (
  λ h. elim (Bool-cases (lower host == lower a)) [
    | inl same ↦ inl ((eq_iff (lower host) (lower a)).0 same)
    | inr differ ↦
        let (q, e) =
          finishes_with-split (codes (append_text "." (lower a))) (codes (lower host))
            (ground arith) in
        inr (q, e ∙ ap (λ x. q ++ x) (dotted (lower a)))
  ],
  λ h. elim h [
    | inl same ↦ ground (arith, (eq_iff (lower host) (lower a)).1 same)
    | inr (q, e) ↦ ground (arith, part q e)
  ],
)
  where
    part :
        (q : List ℕ)
        → codes (lower host) ≡ q ++ b'.' ∷ codes (lower a)
        → finishes_with (codes (append_text "." (lower a))) (codes (lower host)) ≡ true
    part q e = rw (e, dotted (lower a)) (finishes_with-append q (b'.' ∷ codes (lower a)))

rest : (a b : Bool) → a ≡ false → (a || b) ≡ true → b ≡ true
rest true b e h = cc
rest false b e h = h

first : (a b : Bool) → a ≡ true → (a || b) ≡ true
first true b e = refl
first false b e = cc

second : (a b : Bool) → b ≡ true → (a || b) ≡ true
second true b e = refl
second false b e = e

-- A host is accepted exactly if it is a host of the allowlist or a subdomain of one, in any case: a
-- label that only ends like an allowed host does not pass.
is_hf_host_iff :
    (host : String) (allowlist : List String)
    → (is_hf_host host allowlist ≡ true) ↔ AnyOf (IsHostOf host) allowlist
unfolding is_hf_host
is_hf_host_iff host [] = (λ h. cc, λ h. elim h [ ])
is_hf_host_iff host (a ∷ l) = (
  λ h. elim (Bool-cases (is_host_of host a)) [
    | inl own ↦ inl ((is_host_of_iff host a).0 own)
    | inr other ↦ inr ((is_hf_host_iff host l).0 (rest (is_host_of host a) _ other h))
  ],
  λ h. elim h [
    | inl own ↦ first (is_host_of host a) _ ((is_host_of_iff host a).1 own)
    | inr other ↦ second (is_host_of host a) _ ((is_hf_host_iff host l).1 other)
  ],
)

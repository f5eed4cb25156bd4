-- ===== src/Slot/ThreadId/Prefix.antt =====
-- Which prompts share a thread id.
use Prim.Native.Char.{code, Char}
use Prim.Native.String.append
use southpaw_turbohaul.Base.{
  ℕ, zero, suc, String, ◌≤◌, ◌≡◌, refl, ap, true, false, List, [], ◌∷◌, ◌++◌, length, arith, ◌==◌,
  Bool-cases, eq_iff, inl, inr,
}
use southpaw_turbohaul.Base.Text.{append_text}
use southpaw_turbohaul.Slot.ThreadId.{
  is_space, close_word, split_from, split, take, derive_thread_id,
}

close_word-append : (w : String) (l m : List String) → close_word w (l ++ m) ≡ close_word w l ++ m
close_word-append w l m = ground arith

-- A space ends the words of a text.
split_from-append :
    (p : String) (w : String) (c : Char) (x : String)
    → is_space (code c) ≡ true
    → split_from w (append_text p (String.◌∷◌ c x)) ≡ split_from w p ++ split_from "" x
unfolding split_from
split_from-append String.[] w c x e = rw (append.nil, e) (close_word-append w [] (split_from "" x))
split_from-append (String.◌∷◌ d p) w c x e = elim (Bool-cases (is_space (code d))) [
  | inl space ↦
      rw (append.cons, space, split_from-append p "" c x e)
        (close_word-append w (split_from "" p) (split_from "" x))
  | inr letter ↦
      rw (append.cons, letter) (split_from-append p (append_text w (String.◌∷◌ d String.[])) c x e)
]

take-append : (n : ℕ) (l m : List String) → n ≤ length l → take n (l ++ m) ≡ take n l
take-append zero l m h = refl
take-append (suc n) [] m h = absurd (ground arith)
take-append (suc n) (w ∷ l) m h = ap (◌∷◌ w) (take-append n l m (omega (arith, h)))

auto_named : (t : String) → (append_text "auto-" t == "") ≡ false
auto_named t = elim (Bool-cases (append_text "auto-" t == "")) [
  | inl empty ↦
      let nothing : append_text "auto-" t ≡ "" = (eq_iff (append_text "auto-" t) "").0 empty in
      absurd (cc (nothing, append.cons "a" "uto-" t))
  | inr named ↦ named
]

module _ (hexdigest : String → String) where
  -- A prompt of at least 64 words keeps its thread id when a space and any further text are appended.
  pub derive_thread_id-append :
      (prompt model_tag : String) (c : Char) (more : String)
      → is_space (code c) ≡ true
      → 64 ≤ length (split prompt)
      → derive_thread_id hexdigest (append_text prompt (String.◌∷◌ c more)) model_tag
        ≡ derive_thread_id hexdigest prompt model_tag
  unfolding derive_thread_id split
  derive_thread_id-append prompt model_tag c more e long =
      rw
        (
          split_from-append prompt "" c more e,
          take-append 64 (split_from "" prompt) (split_from "" more) long,
        )
        refl

  -- A derived thread id is not empty.
  pub derive_thread_id-named :
      (prompt model_tag : String) → (derive_thread_id hexdigest prompt model_tag == "") ≡ false
  unfolding derive_thread_id
  derive_thread_id-named prompt model_tag = auto_named _

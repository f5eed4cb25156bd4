-- ===== src/Slot/ThreadId.antt =====
-- `derive_thread_id_prefix_hash` of src/turbohaul/slot.py. The hash is a parameter: the hex digest
-- of SHA-256 over the UTF-8 text.
pub mod Prefix
mod Examples
use Prim.Native.Char.{code, nul}
use Prim.Native.String.{◌++◌}
use southpaw_turbohaul.Base.{
  ℕ, zero, suc, String, Bool, ◌||◌, List, [], ◌∷◌, nat_eq, if◌then◌else◌, ◌==◌, any,
}
use southpaw_turbohaul.Base.Text.{between}

-- The characters that Python's `str.split()` splits at.
unfoldable pub is_space : ℕ → Bool
is_space c =
    between 9 13 c
    || (between 28 32 c
        || (between 0x2000 0x200a c
            || any (nat_eq c)
                (0x85 ∷ 0xa0 ∷ 0x1680 ∷ 0x2028 ∷ 0x2029 ∷ 0x202f ∷ 0x205f ∷ 0x3000 ∷ [])))

-- A word that is under way and not empty ends.
abbrev close_word : String → List String → List String
close_word word words = if word == "" then words else word ∷ words

split_from : String → String → List String
split_from word String.[] = close_word word []
split_from word (String.◌∷◌ c s) =
    let next = close_word word (split_from "" s) in
    let longer = split_from (word ++ String.◌∷◌ c String.[]) s in
    if is_space (code c) then next else longer

unfoldable pub split : String → List String
unfolding split_from is_space
split s = split_from "" s

-- `" ".join(words)`
unfoldable pub join : List String → String
join [] = ""
join (w ∷ []) = w
join (w ∷ v ∷ ws) = w ++ (" " ++ join (v ∷ ws))

-- `tokens[:n]`
abbrev pub take {ℓ} : {A : Type ℓ} → ℕ → List A → List A
take zero l = []
take (suc n) [] = []
take (suc n) (x ∷ l) = x ∷ take n l

-- `text[:n]`
unfoldable pub take_chars : ℕ → String → String
take_chars zero s = ""
take_chars (suc n) String.[] = ""
take_chars (suc n) (String.◌∷◌ c s) = String.◌∷◌ c (take_chars n s)

abbrev pub prefix_tokens : ℕ
prefix_tokens = 64

module _ (hexdigest : String → String) where
  unfoldable pub derive_thread_id : String → String → String
  unfolding split join take_chars
  derive_thread_id prompt model_tag =
      "auto-"
      ++ take_chars 24
          (hexdigest (model_tag ++ (String.◌∷◌ nul (join (take prefix_tokens (split prompt))))))

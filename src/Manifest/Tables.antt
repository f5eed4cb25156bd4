-- ===== src/Manifest/Tables.antt =====
-- Facts on the tables of src/turbohaul/manifest.py, each checked entry by entry, and how a fact on
-- every entry of a table serves for a key that is found in it.
use southpaw_turbohaul.Base.{
  String, ◌≡◌, refl, subst, Bool, true, false, not, ◌&&◌, ◌||◌, List, [], ◌∷◌, some, arith, ◌==◌,
  eq_iff, is_some, Bool-cases, inl, inr,
}
use southpaw_turbohaul.Base.Text.{codes, member}
use southpaw_turbohaul.Manifest.Allowlist.{
  FlagType, int_type, float_type, text_type, int_or_text, bool_or_text, safe_llama_flags,
  safe_llama_flag_bounds, safe_llama_flag_string_enums, flash_attn_str_values,
  n_gpu_layers_str_values, safe_chat_template_names, denied_flags,
}
use southpaw_turbohaul.Manifest.Guard.{suffix_guard_check}
use southpaw_turbohaul.Manifest.Validate.{find_key, is_name}

unfoldable pub all_of {ℓ} : {A : Type ℓ} → (A → Bool) → List A → Bool
all_of p [] = true
all_of p (x ∷ l) = p x && all_of p l

pub member-all_of :
    (p : String → Bool) (s : String) (l : List String)
    → all_of p l ≡ true
    → member s l ≡ true
    → p s ≡ true
unfolding all_of
member-all_of p s [] h m = cc
member-all_of p s (t ∷ l) h m = elim (Bool-cases (t == s)) [
  | inl same ↦ subst (λ x. p x ≡ true) ((eq_iff t s).0 same) (ground arith)
  | inr other ↦ member-all_of p s l (ground arith) (ground arith)
]

pub find_key-all_of :
    {A : Type 0} (p : String × A → Bool) (k : String) (t : List (String × A)) {a : A}
    → all_of p t ≡ true
    → find_key k t ≡ some a
    → p (k, a) ≡ true
unfolding all_of find_key
find_key-all_of p k [] h f = cc
find_key-all_of p k ((j, b) ∷ t) {a} h f = elim (Bool-cases (j == k)) [
  | inl same ↦
      let e : b ≡ a = ground arith in
      subst (λ x. p (x, a) ≡ true) ((eq_iff j k).0 same)
        (subst (λ x. p (j, x) ≡ true) e (ground arith))
  | inr other ↦ find_key-all_of p k t (ground arith) (ground arith)
]

abbrev pub is_numeric : FlagType → Bool
is_numeric int_type = true
is_numeric float_type = true
is_numeric int_or_text = true
is_numeric _ = false

abbrev pub takes_text : FlagType → Bool
takes_text text_type = true
takes_text int_or_text = true
takes_text bool_or_text = true
takes_text _ = false

-- No allowlisted flag is on the denylist or caught by the guard.
abbrev pub is_unguarded : String × FlagType → Bool
is_unguarded (k, t) = not (member k denied_flags) && not (suffix_guard_check k)

-- A numeric flag has bounds.
abbrev pub is_bounded : String × FlagType → Bool
is_bounded (k, t) = not (is_numeric t) || is_some (find_key k safe_llama_flag_bounds)

-- A flag that takes any text has a check of its own, or is `mtp_head`.
abbrev pub is_checked_text : String × FlagType → Bool
is_checked_text (k, t) =
    not (takes_text t)
    || (k == "flash_attn"
        || (k == "n_gpu_layers"
            || (k == "chat_template"
                || (is_some (find_key k safe_llama_flag_string_enums) || k == "mtp_head"))))

abbrev pub is_text_name : String → Bool
is_text_name s = is_name (codes s)

abbrev pub has_names : String × List String → Bool
has_names (k, l) = all_of is_text_name l

pub allowlist-unguarded : all_of is_unguarded safe_llama_flags ≡ true
unfolding all_of suffix_guard_check
allowlist-unguarded = refl

pub allowlist-bounded : all_of is_bounded safe_llama_flags ≡ true
unfolding all_of find_key
allowlist-bounded = refl

pub allowlist-checked_text : all_of is_checked_text safe_llama_flags ≡ true
unfolding all_of find_key
allowlist-checked_text = refl

pub enums-names : all_of has_names safe_llama_flag_string_enums ≡ true
unfolding all_of is_name
enums-names = refl

pub flash_attn-names : all_of is_text_name flash_attn_str_values ≡ true
unfolding all_of is_name
flash_attn-names = refl

pub n_gpu_layers-names : all_of is_text_name n_gpu_layers_str_values ≡ true
unfolding all_of is_name
n_gpu_layers-names = refl

pub templates-names : all_of is_text_name safe_chat_template_names ≡ true
unfolding all_of is_name
templates-names = refl

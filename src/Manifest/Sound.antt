-- ===== src/Manifest/Sound.antt =====
-- What the flags of a manifest are after the checks of src/turbohaul/manifest.py.
use southpaw_turbohaul.Base.{
  suc, ◌+◌, ◌*◌, ◌≤◌, String, ◌≡◌, ◌⊎◌, inl, inr, refl, ap, sym, ◌∙◌, ◌≢◌, Bool, true, false, not,
  List, none, some, arith, ◌==◌, eq_iff, Bool-cases, Option-cases,
}
use southpaw_turbohaul.Base.Int.{ℤ, pos, negsuc, pos_part, neg_part, ◌≤ℤ◌}
use southpaw_turbohaul.Base.Text.{codes, member, lower}
use southpaw_turbohaul.Manifest.Allowlist.{
  FlagType, int_type, float_type, bool_type, text_type, int_or_text, bool_or_text, safe_llama_flags,
  safe_llama_flag_bounds, safe_llama_flag_string_enums, flash_attn_str_values,
  n_gpu_layers_str_values, safe_chat_template_names,
}
use southpaw_turbohaul.Manifest.Value.{
  Float, nan, infinity, minus_infinity, fraction, Value, null, compound, bool, int, float, text,
}
use southpaw_turbohaul.Manifest.Validate.{
  find_key, check_bounds, check_flash_attn, check_n_gpu_layers, is_name, check_chat_template,
  check_enum, check_type, refuse_if, then_check, Refusal, Verdict,
}
use southpaw_turbohaul.Manifest.Tables.{
  member-all_of, find_key-all_of, is_numeric, takes_text, is_bounded, is_checked_text, is_text_name,
  has_names, allowlist-bounded, allowlist-checked_text, enums-names, flash_attn-names,
  n_gpu_layers-names, templates-names,
}
use southpaw_turbohaul.Manifest.Lowered.{is_name-lower}

-- A float between two whole numbers; NaN passes.
abbrev pub IsWithin : ℤ → ℤ → Float → Type 0
IsWithin lo hi nan = Unit
IsWithin lo hi infinity = ⊥
IsWithin lo hi minus_infinity = ⊥
IsWithin lo hi (fraction m d) =
    (pos_part lo * suc d + neg_part m ≤ pos_part m + neg_part lo * suc d)
    × (pos_part m + neg_part hi * suc d ≤ pos_part hi * suc d + neg_part m)

-- A number lies within the bounds of its flag, which are there; a text is a name, of letters,
-- digits, `_`, `.` and `-`, or the value of `mtp_head`; nothing is a list, a mapping or null.
abbrev pub IsSafeValue : String → Value → Type 0
IsSafeValue k null = ⊥
IsSafeValue k compound = ⊥
IsSafeValue k (bool b) = Unit
IsSafeValue k (int n) =
    (lo : ℤ) × (hi : ℤ) × (find_key k safe_llama_flag_bounds ≡ some (lo, hi))
    × (lo ≤ℤ n)
    × (n ≤ℤ hi)
IsSafeValue k (float x) =
    (lo : ℤ) × (hi : ℤ) × (find_key k safe_llama_flag_bounds ≡ some (lo, hi)) × IsWithin lo hi x
IsSafeValue k (text s) = (k ≡ "mtp_head") ⊎ (is_name (codes s) ≡ true)

pub refuse_if-none : (b : Bool) (r : Refusal) → refuse_if (not b) r ≡ none → b ≡ true
refuse_if-none true r h = refl
refuse_if-none false r h = cc

lowered-name :
    (s : String) (l : List String)
    → member (lower s) l ≡ true
    → ((t : String) → member t l ≡ true → is_text_name t ≡ true)
    → is_name (codes s) ≡ true
lowered-name s l m names = sym (is_name-lower s) ∙ names (lower s) m

pub flash_attn-safe : (k : String) (v : Value) → check_flash_attn v ≡ none → IsSafeValue k v
unfolding check_flash_attn
flash_attn-safe k null h = cc
flash_attn-safe k compound h = cc
flash_attn-safe k (bool b) h = tt
flash_attn-safe k (int n) h = cc
flash_attn-safe k (float x) h = cc
flash_attn-safe k (text s) h = inr (
    lowered-name s flash_attn_str_values (refuse_if-none _ _ h)
      (λ t. member-all_of is_text_name t flash_attn_str_values flash_attn-names))

pub bounded-safe :
    (lo hi n : ℤ) → check_bounds (some (lo, hi)) (int n) ≡ none → (lo ≤ℤ n) × (n ≤ℤ hi)
unfolding check_bounds
bounded-safe lo hi n h = ground arith

pub IsWithin-safe :
    (lo hi : ℤ) (x : Float) → check_bounds (some (lo, hi)) (float x) ≡ none → IsWithin lo hi x
unfolding check_bounds
IsWithin-safe lo hi nan h = tt
IsWithin-safe lo hi infinity h = cc
IsWithin-safe lo hi minus_infinity h = cc
IsWithin-safe lo hi (fraction m d) h = ground arith

pub n_gpu_layers-safe : (v : Value) → check_n_gpu_layers v ≡ none → IsSafeValue "n_gpu_layers" v
unfolding check_n_gpu_layers
n_gpu_layers-safe null h = cc
n_gpu_layers-safe compound h = cc
n_gpu_layers-safe (bool b) h = cc
n_gpu_layers-safe (int n) h =
    let (least, most) = bounded-safe (negsuc 0) (pos 999) n h in
    (negsuc 0, pos 999, unfold find_key in refl, least, most)
n_gpu_layers-safe (float x) h = cc
n_gpu_layers-safe (text s) h = inr (
    lowered-name s n_gpu_layers_str_values (refuse_if-none _ _ h)
      (λ t. member-all_of is_text_name t n_gpu_layers_str_values n_gpu_layers-names))

template-name : (s : String) → check_chat_template (text s) ≡ none → is_name (codes s) ≡ true
unfolding check_chat_template
template-name s h = elim (Bool-cases (member s safe_chat_template_names)) [
  | inl known ↦ member-all_of is_text_name s safe_chat_template_names templates-names known
  | inr other ↦ ground arith
]

pub chat_template-safe : (k : String) (v : Value) → check_chat_template v ≡ none → IsSafeValue k v
chat_template-safe k null h = unfold check_chat_template in cc
chat_template-safe k compound h = unfold check_chat_template in cc
chat_template-safe k (bool b) h = tt
chat_template-safe k (int n) h = unfold check_chat_template in cc
chat_template-safe k (float x) h = unfold check_chat_template in cc
chat_template-safe k (text s) h = inr (template-name s h)

pub enum-safe :
    (k : String) (l : List String) (v : Value)
    → find_key k safe_llama_flag_string_enums ≡ some l
    → check_enum l v ≡ none
    → IsSafeValue k v
unfolding check_enum
enum-safe k l null f h = cc
enum-safe k l compound f h = cc
enum-safe k l (bool b) f h = tt
enum-safe k l (int n) f h = cc
enum-safe k l (float x) f h = cc
enum-safe k l (text s) f h = inr (
    member-all_of is_text_name s l
      (find_key-all_of has_names k safe_llama_flag_string_enums enums-names f)
      (refuse_if-none _ _ h))

numeric-bounds :
    (k : String) (t : FlagType)
    → find_key k safe_llama_flags ≡ some t
    → is_numeric t ≡ true
    → (b : ℤ × ℤ) × (find_key k safe_llama_flag_bounds ≡ some b)
numeric-bounds k t f num =
    let h = find_key-all_of is_bounded k safe_llama_flags allowlist-bounded f in
    elim (Option-cases (find_key k safe_llama_flag_bounds)) [ inl missing ↦ cc | inr found ↦ found ]

-- The checks that a flag without a check of its own meets.
abbrev general_check : FlagType → String → Value → Verdict
general_check t k v =
    then_check (check_type t v) (check_bounds (find_key k safe_llama_flag_bounds) v)

numeric_of_int :
    (t : FlagType) (n : ℤ) (w : Verdict)
    → then_check (check_type t (int n)) w ≡ none
    → is_numeric t ≡ true
unfolding check_type
numeric_of_int int_type n w h = refl
numeric_of_int float_type n w h = refl
numeric_of_int bool_type n w h = cc
numeric_of_int text_type n w h = cc
numeric_of_int int_or_text n w h = refl
numeric_of_int bool_or_text n w h = cc

numeric_of_float :
    (t : FlagType) (x : Float) (w : Verdict)
    → then_check (check_type t (float x)) w ≡ none
    → is_numeric t ≡ true
unfolding check_type
numeric_of_float int_type x w h = cc
numeric_of_float float_type x w h = refl
numeric_of_float bool_type x w h = cc
numeric_of_float text_type x w h = cc
numeric_of_float int_or_text x w h = cc
numeric_of_float bool_or_text x w h = cc

takes_text_of :
    (t : FlagType) (s : String) (w : Verdict)
    → then_check (check_type t (text s)) w ≡ none
    → takes_text t ≡ true
unfolding check_type
takes_text_of int_type s w h = cc
takes_text_of float_type s w h = cc
takes_text_of bool_type s w h = cc
takes_text_of text_type s w h = refl
takes_text_of int_or_text s w h = refl
takes_text_of bool_or_text s w h = refl

no_container :
    (t : FlagType) (v : Value) (w : Verdict)
    → (v ≡ null) ⊎ (v ≡ compound)
    → then_check (check_type t v) w ≢ none
unfolding check_type
no_container t null w e h = ground arith
no_container t compound w e h = ground arith
no_container t (bool b) w e h = ground arith
no_container t (int n) w e h = ground arith
no_container t (float x) w e h = ground arith
no_container t (text s) w e h = ground arith

pub then_check-left : (u w : Verdict) → then_check u w ≡ none → u ≡ none
then_check-left none w h = refl
then_check-left (some r) w h = cc

pub then_check-right : (u w : Verdict) → then_check u w ≡ none → w ≡ none
then_check-right none w h = h
then_check-right (some r) w h = cc

pub general-safe :
    (t : FlagType) (k : String) (v : Value)
    → find_key k safe_llama_flags ≡ some t
    → (k == "flash_attn") ≡ false
    → (k == "n_gpu_layers") ≡ false
    → (k == "chat_template") ≡ false
    → find_key k safe_llama_flag_string_enums ≡ none
    → general_check t k v ≡ none
    → IsSafeValue k v
general-safe t k null f e1 e2 e3 e4 h = no_container t null _ (inl refl) h
general-safe t k compound f e1 e2 e3 e4 h = no_container t compound _ (inr refl) h
general-safe t k (bool b) f e1 e2 e3 e4 h = tt
general-safe t k (int n) f e1 e2 e3 e4 h =
    let ((lo, hi), e) = numeric-bounds k t f (numeric_of_int t n _ h) in
    let (least, most) =
      bounded-safe lo hi n (ap (λ b. check_bounds b (int n)) (sym e) ∙ then_check-right _ _ h) in
    (lo, hi, e, least, most)
general-safe t k (float x) f e1 e2 e3 e4 h =
    let ((lo, hi), e) = numeric-bounds k t f (numeric_of_float t x _ h) in
    (
      lo,
      hi,
      e,
      IsWithin-safe lo hi x (ap (λ b. check_bounds b (float x)) (sym e) ∙ then_check-right _ _ h),
    )
general-safe t k (text s) f e1 e2 e3 e4 h =
    let texts = takes_text_of t s _ h in
    let c = find_key-all_of is_checked_text k safe_llama_flags allowlist-checked_text f in
    inl ((eq_iff k "mtp_head").0 (ground arith))

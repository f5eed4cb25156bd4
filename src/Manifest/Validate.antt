-- ===== src/Manifest/Validate.antt =====
-- `_validate_flag_value` and `Manifest._flags_allowlist` of src/turbohaul/manifest.py.
use southpaw_turbohaul.Base.{
  ℕ, String, Bool, true, false, not, ◌&&◌, ◌||◌, List, [], ◌∷◌, Option, none, some, ltb, nat_eq,
  if◌then◌else◌, ◌==◌, length,
}
use southpaw_turbohaul.Base.Text.{codes, between, member, lower, occurs_in}
use southpaw_turbohaul.Base.Int.{ℤ}
use southpaw_turbohaul.Manifest.Allowlist.{
  FlagType, int_type, float_type, safe_llama_flags, safe_llama_flag_bounds,
  safe_llama_flag_string_enums, flash_attn_str_values, n_gpu_layers_str_values,
  safe_chat_template_names, denied_flags,
}
use southpaw_turbohaul.Manifest.Value.{Value, bool, int, text, is_instance, is_below, is_above}
use southpaw_turbohaul.Manifest.Guard.{suffix_guard_check}

-- The reasons of a `ManifestValidationError` on a flag.
pub data Refusal : Type 0 where
  denied guarded not_allowed wrong_type not_in_enum below_min above_max : Refusal
  jinja too_long bad_chars : Refusal

-- `none` where the source returns, the reason where it raises.
abbrev pub Verdict : Type 0
Verdict = Option Refusal

-- `table[key]`, where `none` stands for a missing key.
unfoldable pub find_key {ℓ} : {A : Type ℓ} → String → List (String × A) → Option A
find_key k [] = none
find_key k ((j, a) ∷ t) = if j == k then some a else find_key k t

-- The first of two checks that refuses.
abbrev pub then_check : Verdict → Verdict → Verdict
then_check none v = v
then_check (some r) v = some r

abbrev pub refuse_if : Bool → Refusal → Verdict
refuse_if true r = some r
refuse_if false r = none

-- The comparison with the bounds of the key, if it has bounds.
unfoldable pub check_bounds : Option (ℤ × ℤ) → Value → Verdict
check_bounds none v = none
check_bounds (some (lo, hi)) v =
    then_check (refuse_if (is_below lo v) below_min) (refuse_if (is_above hi v) above_max)

unfoldable pub check_flash_attn : Value → Verdict
unfolding lower
check_flash_attn (bool b) = none
check_flash_attn (text s) = refuse_if (not (member (lower s) flash_attn_str_values)) wrong_type
check_flash_attn _ = some wrong_type

unfoldable pub check_n_gpu_layers : Value → Verdict
unfolding find_key check_bounds lower
check_n_gpu_layers (int n) = check_bounds (find_key "n_gpu_layers" safe_llama_flag_bounds) (int n)
check_n_gpu_layers (text s) = refuse_if (not (member (lower s) n_gpu_layers_str_values)) wrong_type
check_n_gpu_layers _ = some wrong_type

-- `_check_jinja_injection`
unfoldable pub check_jinja_injection : String → Verdict
unfolding occurs_in
check_jinja_injection s =
    refuse_if (occurs_in (codes "{%") (codes s) || occurs_in (codes "{{") (codes s)) jinja

-- A character of `[A-Za-z0-9_.\-]`.
abbrev pub is_name_char : ℕ → Bool
is_name_char c =
    between b'A' b'Z' c
    || (between b'a' b'z' c
        || (between b'0' b'9' c || (nat_eq c b'_' || (nat_eq c b'.' || nat_eq c b'-'))))

-- The rest of `^[A-Za-z0-9_.\-]+$`, where `$` allows a final line break.
unfoldable pub name_ends : List ℕ → Bool
name_ends [] = true
name_ends (c ∷ []) = is_name_char c || nat_eq c b'\n'
name_ends (c ∷ d ∷ cs) = is_name_char c && name_ends (d ∷ cs)

unfoldable pub is_name : List ℕ → Bool
unfolding name_ends
is_name [] = false
is_name (c ∷ cs) = is_name_char c && name_ends cs

unfoldable pub check_chat_template : Value → Verdict
unfolding check_jinja_injection is_name
check_chat_template (text s) = then_check (check_jinja_injection s) (
    if member s safe_chat_template_names
    then none
    else then_check (refuse_if (ltb 256 (length (codes s))) too_long)
        (refuse_if (not (is_name (codes s))) bad_chars))
check_chat_template _ = some wrong_type

unfoldable pub check_enum : List String → Value → Verdict
check_enum allowed (text s) = refuse_if (not (member s allowed)) not_in_enum
check_enum allowed _ = some wrong_type

-- The type that the table names; a bool is no int here, and an int may stand for a float.
unfoldable pub check_type : FlagType → Value → Verdict
check_type int_type (bool b) = some wrong_type
check_type float_type (int n) = none
check_type t v = refuse_if (not (is_instance t v)) wrong_type

-- `_validate_flag_value`, for a key whose entry in the allowlist is given.
unfoldable pub validate_flag_value : FlagType → String → Value → Verdict
unfolding check_flash_attn check_n_gpu_layers check_chat_template check_enum check_type check_bounds
    find_key
validate_flag_value expected key v =
    if key == "flash_attn"
    then check_flash_attn v
    else if key == "n_gpu_layers"
    then check_n_gpu_layers v
    else if key == "chat_template"
    then check_chat_template v
    else elim (find_key key safe_llama_flag_string_enums) [
      | some allowed ↦ check_enum allowed v
      | none ↦
          then_check (check_type expected v) (check_bounds (find_key key safe_llama_flag_bounds) v)
    ]

unfoldable pub check_allowed : String → Value → Verdict
unfolding validate_flag_value find_key
check_allowed key v = elim (find_key key safe_llama_flags) [
  | none ↦ some not_allowed
  | some expected ↦ validate_flag_value expected key v
]

-- The body of the loop in `_flags_allowlist`.
unfoldable pub check_flag : String → Value → Verdict
unfolding suffix_guard_check check_allowed
check_flag key v =
    then_check (refuse_if (member key denied_flags) denied)
      (then_check (refuse_if (suffix_guard_check key) guarded) (check_allowed key v))

-- `_flags_allowlist`: the first refusal, in the order of the mapping.
unfoldable pub flags_allowlist : List (String × Value) → Verdict
unfolding check_flag
flags_allowlist [] = none
flags_allowlist ((k, v) ∷ rest) = then_check (check_flag k v) (flags_allowlist rest)

-- ===== src/Manifest/Kinds.antt =====
-- The types and the listed texts of the values that `_validate_flag_value` of
-- src/turbohaul/manifest.py accepts.
use southpaw_turbohaul.Base.{
  String, ◌≡◌, ◌≢◌, ◌⊎◌, inl, inr, refl, sym, ◌∙◌, Bool, true, false, ◌||◌, List, Option, none,
  some, arith, ◌==◌, eq_iff, is_some, if◌then◌else◌, Bool-cases, Option-cases,
}
use southpaw_turbohaul.Base.Text.{member, lower}
use southpaw_turbohaul.Manifest.Allowlist.{
  FlagType, int_type, float_type, bool_type, text_type, int_or_text, bool_or_text, safe_llama_flags,
  safe_llama_flag_string_enums, flash_attn_str_values, n_gpu_layers_str_values,
}
use southpaw_turbohaul.Manifest.Value.{Value, null, compound, bool, int, float, text}
use southpaw_turbohaul.Manifest.Validate.{
  find_key, validate_flag_value, check_flash_attn, check_n_gpu_layers, check_chat_template,
  check_enum, check_type,
}
use southpaw_turbohaul.Manifest.Tables.{all_of, find_key-all_of}
use southpaw_turbohaul.Manifest.Sound.{refuse_if-none, then_check-left}

-- The value has the type that the table names: a bool is no integer, and an integer may stand for a
-- float.
abbrev pub HasType : FlagType → Value → Type 0
HasType int_type (int n) = Unit
HasType float_type (int n) = Unit
HasType float_type (float x) = Unit
HasType bool_type (bool b) = Unit
HasType text_type (text s) = Unit
HasType int_or_text (int n) = Unit
HasType int_or_text (text s) = Unit
HasType bool_or_text (bool b) = Unit
HasType bool_or_text (text s) = Unit
HasType _ _ = ⊥

-- The value is one of the texts that the table of enumerations has for its flag, if it has any.
abbrev pub IsListed : Option (List String) → Value → Type 0
IsListed none v = Unit
IsListed (some l) (text s) = member s l ≡ true
IsListed (some l) _ = ⊥

-- A text, in lower case, is one of these.
abbrev pub IsOneOf : List String → Value → Type 0
IsOneOf l (text s) = member (lower s) l ≡ true
IsOneOf l _ = Unit

-- The entry has the type that the check of its flag lets through.
abbrev has_kind : String × FlagType → Bool
has_kind (k, t) =
    if k == "flash_attn"
    then elim t [ bool_or_text ↦ true | _ ↦ false ]
    else if k == "n_gpu_layers"
    then elim t [ int_or_text ↦ true | _ ↦ false ]
    else if k == "chat_template" || is_some (find_key k safe_llama_flag_string_enums)
    then elim t [ text_type ↦ true | _ ↦ false ]
    else elim t [ int_or_text ↦ false | _ ↦ true ]

allowlist-kinds : all_of has_kind safe_llama_flags ≡ true
unfolding all_of find_key
allowlist-kinds = refl

check_type-HasType :
    (t : FlagType) (v : Value)
    → elim t [ int_or_text ↦ false | _ ↦ true ] ≡ true
    → check_type t v ≡ none
    → HasType t v
unfolding check_type
check_type-HasType t v e h = ground arith

flash_attn-HasType :
    (t : FlagType) (v : Value)
    → elim t [ bool_or_text ↦ true | _ ↦ false ] ≡ true
    → check_flash_attn v ≡ none
    → HasType t v × IsOneOf flash_attn_str_values v
unfolding check_flash_attn
flash_attn-HasType bool_or_text null e h = cc
flash_attn-HasType bool_or_text compound e h = cc
flash_attn-HasType bool_or_text (int n) e h = cc
flash_attn-HasType bool_or_text (float x) e h = cc
flash_attn-HasType bool_or_text (bool b) e h = (tt, tt)
flash_attn-HasType bool_or_text (text s) e h = (tt, refuse_if-none _ _ h)
flash_attn-HasType t v e h = cc

n_gpu_layers-HasType :
    (t : FlagType) (v : Value)
    → elim t [ int_or_text ↦ true | _ ↦ false ] ≡ true
    → check_n_gpu_layers v ≡ none
    → HasType t v × IsOneOf n_gpu_layers_str_values v
unfolding check_n_gpu_layers
n_gpu_layers-HasType int_or_text null e h = cc
n_gpu_layers-HasType int_or_text compound e h = cc
n_gpu_layers-HasType int_or_text (int n) e h = (tt, tt)
n_gpu_layers-HasType int_or_text (float x) e h = cc
n_gpu_layers-HasType int_or_text (bool b) e h = cc
n_gpu_layers-HasType int_or_text (text s) e h = (tt, refuse_if-none _ _ h)
n_gpu_layers-HasType t v e h = cc

chat_template-HasType :
    (t : FlagType) (v : Value)
    → elim t [ text_type ↦ true | _ ↦ false ] ≡ true
    → check_chat_template v ≡ none
    → HasType t v
chat_template-HasType text_type null e h = unfold check_chat_template in cc
chat_template-HasType text_type compound e h = unfold check_chat_template in cc
chat_template-HasType text_type (int n) e h = unfold check_chat_template in cc
chat_template-HasType text_type (float x) e h = unfold check_chat_template in cc
chat_template-HasType text_type (bool b) e h = unfold check_chat_template in cc
chat_template-HasType text_type (text s) e h = tt
chat_template-HasType t v e h = cc

enum-HasType :
    (t : FlagType) (l : List String) (v : Value)
    → elim t [ text_type ↦ true | _ ↦ false ] ≡ true
    → check_enum l v ≡ none
    → HasType t v × IsListed (some l) v
unfolding check_enum
enum-HasType text_type l null e h = cc
enum-HasType text_type l compound e h = cc
enum-HasType text_type l (int n) e h = cc
enum-HasType text_type l (float x) e h = cc
enum-HasType text_type l (bool b) e h = cc
enum-HasType text_type l (text s) e h = (tt, refuse_if-none _ _ h)
enum-HasType t l v e h = cc

-- What the type, the enumerations and the two flags with texts of their own ask of a value.
abbrev pub IsKind : FlagType → String → Value → Type 0
IsKind t k v =
    HasType t v
    × IsListed (find_key k safe_llama_flag_string_enums) v
    × ((k ≢ "flash_attn") ⊎ IsOneOf flash_attn_str_values v)
    × ((k ≢ "n_gpu_layers") ⊎ IsOneOf n_gpu_layers_str_values v)

differs : (k name : String) → (k == name) ≡ false → k ≢ name
differs k name e same = cc (e, (eq_iff k name).1 same)

unlisted :
    (k name : String) (v : Value)
    → find_key name safe_llama_flag_string_enums ≡ none
    → (k == name) ≡ true
    → IsListed (find_key k safe_llama_flag_string_enums) v
unlisted k name v free same = rw ((eq_iff k name).0 same, free) tt

names_differ : (k a b : String) → (k == a) ≡ true → (a == b) ≡ false → k ≢ b
names_differ k a b same e x = differs a b e (sym ((eq_iff k a).0 same) ∙ x)

plain-IsKind :
    (t : FlagType) (k : String) (v : Value)
    → has_kind (k, t) ≡ true
    → (k == "flash_attn") ≡ false
    → (k == "n_gpu_layers") ≡ false
    → (k == "chat_template") ≡ false
    → validate_flag_value t k v ≡ none
    → HasType t v × IsListed (find_key k safe_llama_flag_string_enums) v
unfolding validate_flag_value
plain-IsKind t k v c e1 e2 e3 h = elim (Option-cases (find_key k safe_llama_flag_string_enums)) [
  | inl free ↦ rw free (
    check_type-HasType t v (rw (e1, e2, e3, free) at c)
        (then_check-left _ _ (rw (e1, e2, e3, free, validate_flag_value) at h)),
    tt,
  )
  | inr (l, listed) ↦ rw listed (
      enum-HasType t l v (rw (e1, e2, e3, listed) at c)
        (rw (e1, e2, e3, listed, validate_flag_value) at h))
]

-- An accepted value is of its flag's kind.
pub value-IsKind :
    (t : FlagType) (k : String) (v : Value)
    → find_key k safe_llama_flags ≡ some t
    → validate_flag_value t k v ≡ none
    → IsKind t k v
unfolding validate_flag_value
value-IsKind t k v f h =
    let c = find_key-all_of has_kind k safe_llama_flags allowlist-kinds f in
    elim (Bool-cases (k == "flash_attn")) [
      | inl e1 ↦
          let (typed, one) =
            flash_attn-HasType t v (rw e1 at c) (rw (e1, validate_flag_value) at h) in
          (
            typed,
            unlisted k "flash_attn" v (unfold find_key in refl) e1,
            inr one,
            inl (names_differ k "flash_attn" "n_gpu_layers" e1 refl),
          )
      | inr e1 ↦ elim (Bool-cases (k == "n_gpu_layers")) [
        | inl e2 ↦
            let (typed, one) =
              n_gpu_layers-HasType t v (rw (e1, e2) at c) (rw (e1, e2, validate_flag_value) at h) in
            (
              typed,
              unlisted k "n_gpu_layers" v (unfold find_key in refl) e2,
              inl (differs k "flash_attn" e1),
              inr one,
            )
        | inr e2 ↦
            let other : ((k ≢ "flash_attn") ⊎ IsOneOf flash_attn_str_values v)
                × ((k ≢ "n_gpu_layers") ⊎ IsOneOf n_gpu_layers_str_values v) =
              (inl (differs k "flash_attn" e1), inl (differs k "n_gpu_layers" e2)) in
            elim (Bool-cases (k == "chat_template")) [
              | inl e3 ↦ (
                chat_template-HasType t v (rw (e1, e2, e3) at c)
                    (rw (e1, e2, e3, validate_flag_value) at h),
                unlisted k "chat_template" v (unfold find_key in refl) e3,
                other.0,
                other.1,
              )
              | inr e3 ↦
                  let (typed, listed) = plain-IsKind t k v c e1 e2 e3 h in
                  (typed, listed, other.0, other.1)
            ]
      ]
    ]

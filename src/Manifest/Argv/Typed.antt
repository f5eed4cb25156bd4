-- ===== src/Manifest/Argv/Typed.antt =====
-- Which flags of src/turbohaul/manifest.py are switches, and how one flag is read.
use southpaw_turbohaul.Base.{
  String, ◌≡◌, ◌≢◌, refl, ap, sym, ◌∙◌, subst, true, false, List, [], ◌∷◌, ◌++◌, Option, none, some,
  arith, if◌then◌else◌, ◌==◌, eq_iff, Bool-cases, Option-cases, inl, inr, append_assoc,
}
use southpaw_turbohaul.Manifest.Allowlist.{
  FlagType, int_or_text, bool_or_text, safe_llama_flags, safe_llama_flag_string_enums,
}
use southpaw_turbohaul.Manifest.Value.{Value, null, compound, bool, int, float, text}
use southpaw_turbohaul.Manifest.Validate.{
  find_key, validate_flag_value, then_check, check_n_gpu_layers, check_chat_template, check_enum,
  check_type, Verdict,
}
use southpaw_turbohaul.Manifest.Tables.{find_key-all_of}
use southpaw_turbohaul.Manifest.Argv.{cli_key}
use southpaw_turbohaul.Manifest.Argv.Reading.{
  Setting, is_switch, find_option, ahead, read_argv, finds_itself, is_typed, allowlist-finds_itself,
  allowlist-typed, is_bool,
}

found_itself :
    (k : String) (t : FlagType)
    → finds_itself (k, t) ≡ true
    → (u : FlagType) × (find_option (cli_key k) safe_llama_flags ≡ some (k, u))
      × (is_switch u ≡ is_switch t)
unfolding finds_itself
found_itself k t h = elim (Option-cases (find_option (cli_key k) safe_llama_flags)) [
  | inl missing ↦ absurd (cc)
  | inr ((j, u), found) ↦
      let same : j ≡ k = (eq_iff j k).0 (ground arith) in
      (
        u,
        subst (λ x. find_option (cli_key k) safe_llama_flags ≡ some (x, u)) same found,
        ground arith,
      )
]

read-option :
    (k : String) (t : FlagType) (rest : List String)
    → find_key k safe_llama_flags ≡ some t
    → read_argv none (cli_key k ∷ rest) ≡ (
        if is_switch t
        then ahead ((k, none) ∷ []) (read_argv none rest)
        else read_argv (some k) rest)
unfolding read_argv
read-option k t rest f =
    let (u, found, same) =
      found_itself k t (find_key-all_of finds_itself k safe_llama_flags allowlist-finds_itself f) in
    rw (found, same, read_argv) refl

general-typed :
    (t : FlagType) (v : Value) (w : Verdict)
    → then_check (check_type t v) w ≡ none
    → t ≢ int_or_text
    → t ≢ bool_or_text
    → is_bool v ≡ is_switch t
unfolding check_type
general-typed t v w h a b = ground arith

has_no_bool : (l : List String) (v : Value) → check_enum l v ≡ none → is_bool v ≡ false
unfolding check_enum
has_no_bool l v h = ground arith

plain-typed :
    (t : FlagType) (k : String) (v : Value)
    → is_typed (k, t) ≡ true
    → (k == "flash_attn") ≡ false
    → (k == "n_gpu_layers") ≡ false
    → (k == "chat_template") ≡ false
    → validate_flag_value t k v ≡ none
    → is_bool v ≡ is_switch t
unfolding is_typed validate_flag_value
plain-typed t k v c e1 e2 e3 h = elim (Option-cases (find_key k safe_llama_flag_string_enums)) [
  | inl free ↦
      general-typed t v _ (rw (e1, e2, e3, free, validate_flag_value) at h) (λ e. ground arith)
        (λ e. ground arith)
  | inr (l, listed) ↦
      has_no_bool l v (rw (e1, e2, e3, listed, validate_flag_value) at h) ∙ ground arith
]

n_gpu_layers-no_bool : (v : Value) → check_n_gpu_layers v ≡ none → is_bool v ≡ false
unfolding check_n_gpu_layers
n_gpu_layers-no_bool v h = ground arith

chat_template-no_bool : (v : Value) → check_chat_template v ≡ none → is_bool v ≡ false
chat_template-no_bool (bool b) h = unfold check_chat_template in cc
chat_template-no_bool (text s) h = refl
chat_template-no_bool (int n) h = refl
chat_template-no_bool (float x) h = refl
chat_template-no_bool null h = refl
chat_template-no_bool compound h = refl

-- An accepted value is a bool exactly if its flag is a switch.
pub value-typed :
    (t : FlagType) (k : String) (v : Value)
    → find_key k safe_llama_flags ≡ some t
    → (k == "flash_attn") ≡ false
    → validate_flag_value t k v ≡ none
    → is_bool v ≡ is_switch t
unfolding is_typed validate_flag_value
value-typed t k v f e1 h =
    let c = find_key-all_of is_typed k safe_llama_flags allowlist-typed f in
    elim (Bool-cases (k == "n_gpu_layers")) [
      | inl e2 ↦ n_gpu_layers-no_bool v (rw (e1, e2, validate_flag_value) at h) ∙ ground arith
      | inr e2 ↦ elim (Bool-cases (k == "chat_template")) [
        | inl e3 ↦
            chat_template-no_bool v (rw (e1, e2, e3, validate_flag_value) at h) ∙ ground arith
        | inr e3 ↦ plain-typed t k v c e1 e2 e3 h
      ]
    ]

pub flash_attn-typed :
    (t : FlagType) (k : String)
    → find_key k safe_llama_flags ≡ some t
    → (k == "flash_attn") ≡ true
    → is_switch t ≡ false
unfolding is_typed
flash_attn-typed t k f e =
    let c = find_key-all_of is_typed k safe_llama_flags allowlist-typed f in ground arith

pub ahead-nil : (o : Option (List Setting)) → ahead [] o ≡ o
ahead-nil none = refl
ahead-nil (some m) = refl

pub ahead-append :
    (a b : List Setting) (o : Option (List Setting)) → ahead a (ahead b o) ≡ ahead (a ++ b) o
ahead-append a b none = refl
ahead-append a b (some m) = ap some (sym (append_assoc a b m))

-- Words that are read as the given settings, whatever follows them.
abbrev pub Reads : List String → List Setting → Type 0
Reads argv l = (rest : List String) → read_argv none (argv ++ rest) ≡ ahead l (read_argv none rest)

pub option-Reads :
    (k x : String) (t : FlagType)
    → find_key k safe_llama_flags ≡ some t
    → is_switch t ≡ false
    → Reads (cli_key k ∷ x ∷ []) ((k, some x) ∷ [])
option-Reads k x t f e rest = read-option k t (x ∷ rest) f ∙ rw e (unfold read_argv in refl)

pub switch-Reads :
    (k : String) (t : FlagType)
    → find_key k safe_llama_flags ≡ some t
    → is_switch t ≡ true
    → Reads (cli_key k ∷ []) ((k, none) ∷ [])
switch-Reads k t f e rest = read-option k t rest f ∙ rw e refl

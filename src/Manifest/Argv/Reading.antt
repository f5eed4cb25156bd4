-- ===== src/Manifest/Argv/Reading.antt =====
-- A reader of the command line that src/turbohaul/manifest.py builds, which does not use the
-- builder: an option is two dashes and the words of a flag's name with dashes between them; one
-- that switches takes no argument, any other takes the next word, whatever it looks like.
use southpaw_turbohaul.Base.{
  ℕ, nat_eq, String, ◌≡◌, refl, Bool, true, false, not, ◌&&◌, ◌||◌, List, [], ◌∷◌, ◌++◌, Option,
  none, some, if◌then◌else◌, ◌==◌, is_some,
}
use southpaw_turbohaul.Base.Text.{codes, same_codes, lower}
use southpaw_turbohaul.Manifest.Allowlist.{
  FlagType, bool_type, int_or_text, bool_or_text, safe_llama_flags, safe_llama_flag_string_enums,
}
use southpaw_turbohaul.Manifest.Value.{Value, bool}
use southpaw_turbohaul.Manifest.Validate.{find_key}
use southpaw_turbohaul.Manifest.Tables.{all_of}
use southpaw_turbohaul.Manifest.Argv.{cli_key, str_value}

abbrev pub Setting : Type 0
Setting = String × Option String

abbrev pub is_switch : FlagType → Bool
is_switch bool_type = true
is_switch _ = false

-- The name that an option spells: what stands behind two dashes, where a dash joins two words of
-- the name. A name with `_` in it is no option.
unfoldable pub joined_by_underscore : List ℕ → Option (List ℕ)
joined_by_underscore [] = some []
joined_by_underscore (c ∷ cs) = elim (joined_by_underscore cs) [
  | none ↦ none
  | some ds ↦ if nat_eq c b'_' then none else some ((if nat_eq c b'-' then b'_' else c) ∷ ds)
]

unfoldable pub option_name : List ℕ → Option (List ℕ)
unfolding joined_by_underscore
option_name (c ∷ d ∷ cs) = if nat_eq c b'-' && nat_eq d b'-' then joined_by_underscore cs else none
option_name _ = none

unfoldable pub find_name : List ℕ → List (String × FlagType) → Option (String × FlagType)
unfolding same_codes
find_name name [] = none
find_name name ((k, t) ∷ table) =
    if same_codes (codes k) name then some (k, t) else find_name name table

-- The flag that an option spells.
unfoldable pub find_option : String → List (String × FlagType) → Option (String × FlagType)
unfolding option_name find_name
find_option a table = elim (option_name (codes a)) [
  | none ↦ none
  | some name ↦ find_name name table
]

abbrev pub ahead : List Setting → Option (List Setting) → Option (List Setting)
ahead l none = none
ahead l (some m) = some (l ++ m)

-- The first argument is the flag that waits for its argument.
unfoldable pub read_argv : Option String → List String → Option (List Setting)
unfolding find_option
read_argv none [] = some []
read_argv (some k) [] = none
read_argv (some k) (v ∷ rest) = ahead ((k, some v) ∷ []) (read_argv none rest)
read_argv none (a ∷ rest) = elim (find_option a safe_llama_flags) [
  | none ↦ none
  | some (k, t) ↦
      if is_switch t then ahead ((k, none) ∷ []) (read_argv none rest) else read_argv (some k) rest
]

-- The entry is found by its option.
unfoldable pub finds_itself : String × FlagType → Bool
finds_itself (k, t) = elim (find_option (cli_key k) safe_llama_flags) [
  | none ↦ false
  | some (j, u) ↦ j == k && (if is_switch t then is_switch u else not (is_switch u))
]

-- A flag with a check of its own is no switch, and a flag that takes a bool or a text is
-- `flash_attn`.
unfoldable pub is_typed : String × FlagType → Bool
is_typed (k, t) =
    (not (is_switch t)
      || not (
          k == "flash_attn"
          || (k == "n_gpu_layers"
              || (k == "chat_template" || is_some (find_key k safe_llama_flag_string_enums)))))
    && elim t [ int_or_text ↦ k == "n_gpu_layers" | bool_or_text ↦ k == "flash_attn" | _ ↦ true ]

pub allowlist-finds_itself : all_of finds_itself safe_llama_flags ≡ true
unfolding all_of finds_itself find_option cli_key
allowlist-finds_itself = refl

pub allowlist-typed : all_of is_typed safe_llama_flags ≡ true
unfolding all_of is_typed find_key
allowlist-typed = refl

abbrev pub is_bool : Value → Bool
is_bool (bool b) = true
is_bool _ = false

-- What a flag sets.
module _ (str_other : Value → String) where
  abbrev pub setting : String → Value → List Setting
  setting k v =
      if k == "flash_attn"
      then (
        k,
        some (elim v [
          | bool b ↦ if b then "on" else "off"
          | other ↦ lower (str_value str_other other)
        ]),
      )
        ∷ []
      else elim v [
        | bool b ↦ if b then (k, none) ∷ [] else []
        | other ↦ (k, some (str_value str_other other)) ∷ []
      ]

  abbrev pub settings : List (String × Value) → List Setting
  settings [] = []
  settings ((k, v) ∷ rest) = setting k v ++ settings rest

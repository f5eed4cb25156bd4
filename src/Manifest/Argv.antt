-- ===== src/Manifest/Argv.antt =====
-- `flags_to_argv` of src/turbohaul/manifest.py: the command line of llama-server. What `str` makes
-- of a float, of None and of a container is the parameter `str_other`.
pub mod Reading
mod Typed
pub mod RoundTrip
use Prim.Native.Char.{Char, code}
use southpaw_turbohaul.Base.{
  ℕ, suc, String, Bool, true, false, not, ◌||◌, List, [], ◌∷◌, ◌++◌, Option, none, some, nat_eq,
  if◌then◌else◌, ◌==◌, is_some,
}
use southpaw_turbohaul.Base.Text.{append_text, map_chars, member, lower}
use southpaw_turbohaul.Base.Decimal.{str_int}
use southpaw_turbohaul.Manifest.Allowlist.{safe_llama_flags, denied_flags}
use southpaw_turbohaul.Manifest.Value.{Value, null, compound, bool, int, float, text}
use southpaw_turbohaul.Manifest.Validate.{find_key}

-- `c.replace("_", "-")` of one character
dashed : Char → Char
dashed c = if nat_eq (code c) b'_' then "-" else c

unfoldable pub cli_key : String → String
unfolding map_chars dashed
cli_key key = append_text "--" (map_chars dashed key)

module _ (str_other : Value → String) where
  -- `str(value)`, of a value that is not a bool.
  unfoldable pub str_value : Value → String
  unfolding str_int
  str_value (text s) = s
  str_value (int n) = str_int n
  str_value v = str_other v

  -- What the loop appends for one flag, and whether it raises.
  unfoldable pub flag_argv : String → Value → Option (List String)
  unfolding cli_key str_value lower find_key
  flag_argv key v =
      if not (is_some (find_key key safe_llama_flags)) || member key denied_flags
      then none
      else if key == "flash_attn"
      then elim v [
        | bool b ↦ some (cli_key key ∷ (if b then "on" else "off") ∷ [])
        | other ↦ some (cli_key key ∷ lower (str_value other) ∷ [])
      ]
      else elim v [
        | bool b ↦ some (if b then cli_key key ∷ [] else [])
        | other ↦ some (cli_key key ∷ str_value other ∷ [])
      ]

  unfoldable pub flags_to_argv : List (String × Value) → Option (List String)
  unfolding flag_argv
  flags_to_argv [] = some []
  flags_to_argv ((k, v) ∷ rest) = elim (flag_argv k v) [
    | none ↦ none
    | some argv ↦ elim (flags_to_argv rest) [ none ↦ none | some more ↦ some (argv ++ more) ]
  ]

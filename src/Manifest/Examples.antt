-- ===== src/Manifest/Examples.antt =====
-- Tests of the model of src/turbohaul/manifest.py, and its theorems at concrete manifests.
use southpaw_turbohaul.Base.{
  ℕ, ◌≤◌, length, String, ◌≡◌, ◌↔◌, refl, true, false, List, [], ◌∷◌, none, some, All,
}
use southpaw_turbohaul.Base.Int.{pos, negsuc}
use southpaw_turbohaul.Base.Text.{codes}
use southpaw_turbohaul.Manifest.Value.{nan, infinity, fraction, Value, null, bool, int, float, text}
use southpaw_turbohaul.Manifest.Validate.{
  find_key, check_flag, flags_allowlist, denied, guarded, not_allowed, wrong_type, above_max,
  not_in_enum, jinja, bad_chars,
}
use southpaw_turbohaul.Manifest.Accepted.{
  IsSafe, IsAllowed, flags_allowlist-IsSafe, flags_allowlist_iff, flags_allowlist-gaps,
}
use southpaw_turbohaul.Manifest.Argv.{flags_to_argv}
use southpaw_turbohaul.Manifest.Argv.Reading.{read_argv, settings}
use southpaw_turbohaul.Manifest.Argv.RoundTrip.{flags_to_argv-reads}
use southpaw_turbohaul.Manifest.Tag.{
  IsWithout, is_tag_start, IsTagChar, validate_tag, validate_tag-name,
}

abbrev flags : List (String × Value)
flags =
    ("ctx_size", int (pos 8192))
    ∷ ("mlock", bool true)
    ∷ ("no_perf", bool false)
    ∷ ("flash_attn", text "AUTO")
    ∷ ("temp", float (fraction (pos 7) 9))
    ∷ ("n_predict", int (negsuc 0))
    ∷ ("cache_type_k", text "q8_0")
    ∷ []

abbrev str_other : Value → String
str_other v = "0.7"

flags_accepted : flags_allowlist flags ≡ none
unfolding flags_allowlist
flags_accepted = refl

flags_argv :
    flags_to_argv str_other flags
    ≡ some (
        "--ctx-size" ∷ "8192" ∷ "--mlock" ∷ "--flash-attn" ∷ "auto" ∷ "--temp" ∷ "0.7"
        ∷ "--n-predict" ∷ "-1" ∷ "--cache-type-k" ∷ "q8_0" ∷ [])
unfolding flags_to_argv
flags_argv = refl

refusals :
    (check_flag "model_url" (text "http://x") ≡ some denied)
    × (check_flag "new_cert_file" (text "x") ≡ some guarded)
    × (check_flag "no_such" (bool true) ≡ some not_allowed)
    × (check_flag "threads" (bool true) ≡ some wrong_type)
    × (check_flag "threads" (int (pos 257)) ≡ some above_max)
    × (check_flag "temp" (float infinity) ≡ some above_max)
    × (check_flag "numa" (text "all") ≡ some not_in_enum)
    × (check_flag "chat_template" (text "a{{b") ≡ some jinja)
    × (check_flag "chat_template" (text "a/b") ≡ some bad_chars)
    × (check_flag "mlock" null ≡ some wrong_type)
unfolding check_flag
refusals = (refl, refl, refl, refl, refl, refl, refl, refl, refl, refl)

tags :
    (validate_tag "qwen3.6-27b" ≡ true)
    × (validate_tag "../etc" ≡ false)
    × (validate_tag ".hidden" ≡ false)
    × (validate_tag "qwen\n" ≡ true)
unfolding validate_tag
tags = (refl, refl, refl, refl)

flags_allowlist-IsSafe_example : All IsSafe flags
flags_allowlist-IsSafe_example = flags_allowlist-IsSafe flags flags_accepted

flags_allowlist_iff_example : (flags_allowlist flags ≡ none) ↔ All IsAllowed flags
flags_allowlist_iff_example = flags_allowlist_iff flags

flags_allowlist-gaps_example :
    flags_allowlist (("mtp_head", text "/etc/passwd") ∷ ("temp", float nan) ∷ []) ≡ none
flags_allowlist-gaps_example = flags_allowlist-gaps "/etc/passwd" "temp" (unfold find_key in refl)

flags_to_argv-reads_example :
    (argv : List String) × (flags_to_argv str_other flags ≡ some argv)
    × (read_argv none argv ≡ some (settings str_other flags))
flags_to_argv-reads_example = flags_to_argv-reads str_other flags flags_accepted

validate_tag-name_example :
    (c : ℕ) × (rest : List ℕ) × IsWithout (codes "qwen3.6") (c ∷ rest)
    × (is_tag_start c ≡ true)
    × All IsTagChar (c ∷ rest)
    × (length (c ∷ rest) ≤ 64)
validate_tag-name_example = validate_tag-name "qwen3.6" (unfold validate_tag in refl)

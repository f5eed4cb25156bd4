-- ===== src/Manifest/Guard.antt =====
-- `_suffix_guard_check` of src/turbohaul/manifest.py: the patterns on the names of flags.
use southpaw_turbohaul.Base.{ℕ, String, Bool, not, ◌&&◌, ◌||◌, List, [], ◌∷◌, nat_eq, any}
use southpaw_turbohaul.Base.Text.{codes, same_codes, begins_with, member}

-- `.*_file$` and the like, or `^hf_` and the like.
pub data Pattern : Type 0 where
  suffix prefix : String → Pattern

-- `_SUFFIX_GUARD_PATTERNS`
abbrev pub suffix_guard_patterns : List Pattern
suffix_guard_patterns =
    suffix "_file"
    ∷ suffix "_path"
    ∷ suffix "_dir"
    ∷ suffix "_url"
    ∷ suffix "_repo"
    ∷ suffix "_key"
    ∷ prefix "hf_"
    ∷ prefix "lora"
    ∷ prefix "control_vector"
    ∷ prefix "lookup_cache_"
    ∷ prefix "ssl_"
    ∷ prefix "api_key"
    ∷ prefix "slot_save_"
    ∷ prefix "webui_"
    ∷ prefix "docker_"
    ∷ []

-- `_SUFFIX_GUARD_EXCEPTIONS`
abbrev pub suffix_guard_exceptions : List String
suffix_guard_exceptions = []

-- `p$`: the text ends here, or before a final line break.
at_end : List ℕ → List ℕ → Bool
unfolding same_codes
at_end p [] = same_codes p []
at_end [] (c ∷ cs) = nat_eq c b'\n' && same_codes cs []
at_end (p ∷ ps) (c ∷ cs) = nat_eq p c && at_end ps cs

-- `.*p$`: the dot is any character but a line break.
any_then_end : List ℕ → List ℕ → Bool
unfolding at_end
any_then_end p [] = at_end p []
any_then_end p (c ∷ cs) = at_end p (c ∷ cs) || not (nat_eq c b'\n') && any_then_end p cs

-- `p.match(key)`
unfoldable pub matches_pattern : String → Pattern → Bool
unfolding any_then_end begins_with
matches_pattern key (suffix s) = any_then_end (codes s) (codes key)
matches_pattern key (prefix s) = begins_with (codes s) (codes key)

-- Whether `_suffix_guard_check` raises.
unfoldable pub suffix_guard_check : String → Bool
unfolding matches_pattern
suffix_guard_check key =
    not (member key suffix_guard_exceptions) && any (matches_pattern key) suffix_guard_patterns

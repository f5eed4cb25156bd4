-- ===== src/Manifest/Accepted.antt =====
-- The mappings of flags that `_flags_allowlist` of src/turbohaul/manifest.py accepts.
use southpaw_turbohaul.Base.{
  String, ◌≡◌, ◌↔◌, inl, inr, refl, sym, ◌∙◌, Bool, true, false, not, ◌&&◌, List, [], ◌∷◌, none,
  some, ◌==◌, eq_iff, Bool-cases, Option-cases, All, subst, is_some,
}
use southpaw_turbohaul.Base.Text.{member}
use southpaw_turbohaul.Manifest.Allowlist.{
  FlagType, int_type, float_type, bool_type, text_type, int_or_text, bool_or_text, safe_llama_flags,
  safe_llama_flag_string_enums, denied_flags,
}
use southpaw_turbohaul.Manifest.Value.{nan, Value, float, text}
use southpaw_turbohaul.Manifest.Guard.{suffix_guard_check}
use southpaw_turbohaul.Manifest.Validate.{
  find_key, validate_flag_value, check_allowed, check_flag, flags_allowlist, then_check, refuse_if,
  denied, guarded, not_allowed, Verdict,
}
use southpaw_turbohaul.Manifest.Tables.{find_key-all_of, is_unguarded, allowlist-unguarded, all_of}
use southpaw_turbohaul.Manifest.Kinds.{IsKind, value-IsKind}
use southpaw_turbohaul.Manifest.Sound.{
  IsSafeValue, then_check-left, flash_attn-safe, n_gpu_layers-safe, chat_template-safe, enum-safe,
  general-safe, then_check-right,
}

plain-safe :
    (t : FlagType) (k : String) (v : Value)
    → find_key k safe_llama_flags ≡ some t
    → (k == "flash_attn") ≡ false
    → (k == "n_gpu_layers") ≡ false
    → (k == "chat_template") ≡ false
    → validate_flag_value t k v ≡ none
    → IsSafeValue k v
unfolding validate_flag_value
plain-safe t k v f e1 e2 e3 h = elim (Option-cases (find_key k safe_llama_flag_string_enums)) [
  | inl free ↦ general-safe t k v f e1 e2 e3 free (rw (e1, e2, e3, free) at h)
  | inr (l, listed) ↦ enum-safe k l v listed (rw (e1, e2, e3, listed) at h)
]

value-safe :
    (t : FlagType) (k : String) (v : Value)
    → find_key k safe_llama_flags ≡ some t
    → validate_flag_value t k v ≡ none
    → IsSafeValue k v
value-safe t k v f h = elim (Bool-cases (k == "flash_attn")) [
  | inl e1 ↦ flash_attn-safe k v (unfold validate_flag_value in rw e1 at h)
  | inr e1 ↦ elim (Bool-cases (k == "n_gpu_layers")) [
    | inl e2 ↦
        subst (λ k. IsSafeValue k v) (sym ((eq_iff k "n_gpu_layers").0 e2))
          (n_gpu_layers-safe v (unfold validate_flag_value in rw (e1, e2) at h))
    | inr e2 ↦ elim (Bool-cases (k == "chat_template")) [
      | inl e3 ↦ chat_template-safe k v (unfold validate_flag_value in rw (e1, e2, e3) at h)
      | inr e3 ↦ plain-safe t k v f e1 e2 e3 h
    ]
  ]
]

-- A flag of the allowlist, which the denylist and the guard let pass, with a value of its kind that
-- is safe for it.
abbrev pub IsSafe : String × Value → Type 0
IsSafe (k, v) =
    (t : FlagType) × (find_key k safe_llama_flags ≡ some t)
    × (member k denied_flags ≡ false)
    × (suffix_guard_check k ≡ false)
    × IsKind t k v
    × IsSafeValue k v

pub unallowed :
    (k : String) (v : Value)
    → find_key k safe_llama_flags ≡ none
    → check_allowed k v ≡ some not_allowed
unfolding check_allowed
unallowed k v missing = rw (missing, check_allowed) refl

pub unguarded :
    (k : String) (t : FlagType)
    → is_unguarded (k, t) ≡ true
    → (member k denied_flags ≡ false) × (suffix_guard_check k ≡ false)
unguarded k t h = go (member k denied_flags) (suffix_guard_check k) h
  where
    go : (a b : Bool) → (not a && not b) ≡ true → (a ≡ false) × (b ≡ false)
    go true b h = cc
    go false true h = cc
    go false false h = (refl, refl)

allowed-IsSafe : (k : String) (v : Value) → check_allowed k v ≡ none → IsSafe (k, v)
unfolding check_allowed
allowed-IsSafe k v h = elim (Option-cases (find_key k safe_llama_flags)) [
  | inl missing ↦ absurd (cc (unallowed k v missing))
  | inr (t, f) ↦
      let accepted : validate_flag_value t k v ≡ none = rw (f, check_allowed) at h in
      let (free, passes) =
        unguarded k t (find_key-all_of is_unguarded k safe_llama_flags allowlist-unguarded f) in
      (t, f, free, passes, value-IsKind t k v f accepted, value-safe t k v f accepted)
]

check_flag-allowed : (k : String) (v : Value) → check_flag k v ≡ none → check_allowed k v ≡ none
unfolding check_flag
check_flag-allowed k v h = then_check-right _ _ (then_check-right _ _ h)

past_guards :
    (a b : Bool) (c : Verdict)
    → (not a && not b) ≡ true
    → then_check (refuse_if a denied) (then_check (refuse_if b guarded) c) ≡ c
past_guards true b c h = cc
past_guards false true c h = cc
past_guards false false c h = refl

both : (u w : Verdict) → u ≡ none → w ≡ none → then_check u w ≡ none
both none w e h = h
both (some r) w e h = cc

check_flag_of_allowed : (k : String) (v : Value) → check_allowed k v ≡ none → check_flag k v ≡ none
unfolding check_flag check_allowed
check_flag_of_allowed k v h = elim (Option-cases (find_key k safe_llama_flags)) [
  | inl missing ↦ absurd (cc (unallowed k v missing))
  | inr (t, f) ↦
      past_guards (member k denied_flags) (suffix_guard_check k) (check_allowed k v)
        (find_key-all_of is_unguarded k safe_llama_flags allowlist-unguarded f)
      ∙ h
]

-- What `_flags_allowlist` accepts: every flag is on the allowlist, is not on the denylist, and is
-- passed by the guard on names. Its value has the type that the allowlist names for it, where a bool
-- is no integer and an integer may stand for a float; it is in the flag's enumeration, if there is
-- one; a text for `flash_attn` or `n_gpu_layers` is, in lower case, one of those that are listed for
-- it. An integer lies within bounds that the table has for its flag, and so does a float, unless it
-- is NaN; a text is made of letters, digits, `_`, `.` and `-` with at most a line break behind them,
-- unless the flag is `mtp_head`; and no value is null, a list or a mapping.
pub flags_allowlist-IsSafe :
    (flags : List (String × Value)) → flags_allowlist flags ≡ none → All IsSafe flags
unfolding flags_allowlist
flags_allowlist-IsSafe [] h = tt
flags_allowlist-IsSafe ((k, v) ∷ rest) h = (
  allowed-IsSafe k v (check_flag-allowed k v (then_check-left _ _ h)),
  flags_allowlist-IsSafe rest (then_check-right _ _ h),
)

abbrev pub IsAllowed : String × Value → Type 0
IsAllowed (k, v) = check_allowed k v ≡ none

-- The denylist and the guard on names are a second line of defence: `_flags_allowlist` accepts
-- exactly the mappings whose flags all pass the allowlist and the check of their values.
pub flags_allowlist_iff :
    (flags : List (String × Value)) → (flags_allowlist flags ≡ none) ↔ All IsAllowed flags
unfolding flags_allowlist
flags_allowlist_iff [] = (λ h. tt, λ h. refl)
flags_allowlist_iff ((k, v) ∷ rest) = (
  λ h. (
    check_flag-allowed k v (then_check-left _ _ h),
    (flags_allowlist_iff rest).0 (then_check-right _ _ h),
  ),
  λ (h : IsAllowed (k, v) × All IsAllowed rest).
      both _ _ (check_flag_of_allowed k v h.0) ((flags_allowlist_iff rest).1 h.1),
)

no_refusal : (v : Verdict) → not (is_some v) ≡ true → v ≡ none
no_refusal none h = refl
no_refusal (some r) h = cc

takes_nan : String × FlagType → Bool
takes_nan (k, float_type) = not (is_some (check_allowed k (float nan)))
takes_nan (k, int_type) = true
takes_nan (k, bool_type) = true
takes_nan (k, text_type) = true
takes_nan (k, int_or_text) = true
takes_nan (k, bool_or_text) = true

allowlist-takes_nan : all_of takes_nan safe_llama_flags ≡ true
unfolding all_of takes_nan check_allowed
allowlist-takes_nan = refl

-- The gaps of the checks: `mtp_head` takes any text, a path too, and every flag of type float takes
-- NaN, which is below no bound and above none.
pub flags_allowlist-gaps :
    (path key : String)
    → find_key key safe_llama_flags ≡ some float_type
    → flags_allowlist (("mtp_head", text path) ∷ (key, float nan) ∷ []) ≡ none
unfolding flags_allowlist takes_nan
flags_allowlist-gaps path key f =
    let e : check_allowed "mtp_head" (text path) ≡ none = unfold check_allowed in refl in
    let n = find_key-all_of takes_nan key safe_llama_flags allowlist-takes_nan f in
    both _ _ (check_flag_of_allowed "mtp_head" (text path) e)
      (both _ _ (check_flag_of_allowed key (float nan) (no_refusal _ n)) refl)

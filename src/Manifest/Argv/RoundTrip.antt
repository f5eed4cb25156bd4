-- ===== src/Manifest/Argv/RoundTrip.antt =====
-- The flags that src/turbohaul/manifest.py accepts stand in its command line as they are.
use southpaw_turbohaul.Base.{
  String, ◌≡◌, refl, ap, sym, ◌∙◌, true, false, not, ◌||◌, List, [], ◌∷◌, ◌++◌, none, some,
  if◌then◌else◌, ◌==◌, is_some, Bool-cases, Option-cases, inl, inr, All, append_assoc, append-nil,
}
use southpaw_turbohaul.Base.Text.{member, lower}
use southpaw_turbohaul.Manifest.Allowlist.{FlagType, safe_llama_flags, denied_flags}
use southpaw_turbohaul.Manifest.Value.{Value, bool}
use southpaw_turbohaul.Manifest.Validate.{find_key, check_allowed, flags_allowlist}
use southpaw_turbohaul.Manifest.Tables.{find_key-all_of, is_unguarded, allowlist-unguarded}
use southpaw_turbohaul.Manifest.Accepted.{IsAllowed, flags_allowlist_iff, unallowed, unguarded}
use southpaw_turbohaul.Manifest.Argv.{cli_key, str_value, flag_argv, flags_to_argv}
use southpaw_turbohaul.Manifest.Argv.Reading.{
  is_switch, ahead, read_argv, is_bool, setting, settings,
}
use southpaw_turbohaul.Manifest.Argv.Typed.{
  value-typed, flash_attn-typed, ahead-nil, ahead-append, Reads, option-Reads, switch-Reads,
}

module _ (str_other : Value → String) where
  -- The words of one flag are built, and read as what the flag sets.
  abbrev Arrives : String → Value → Type 0
  Arrives k v =
      (argv : List String) × (flag_argv str_other k v ≡ some argv)
      × Reads argv (setting str_other k v)

  admitted :
      (k : String) (t : FlagType)
      → find_key k safe_llama_flags ≡ some t
      → (not (is_some (find_key k safe_llama_flags)) || member k denied_flags) ≡ false
  admitted k t f =
      rw
        (
          f,
          (unguarded k t (find_key-all_of is_unguarded k safe_llama_flags allowlist-unguarded f)).0,
        )
        refl

  flash_attn-Arrives :
      (k : String) (t : FlagType) (v : Value)
      → find_key k safe_llama_flags ≡ some t
      → (k == "flash_attn") ≡ true
      → Arrives k v
  unfolding flag_argv
  flash_attn-Arrives k t (bool b) f e =
      let x = if b then "on" else "off" in
      (
        cli_key k ∷ x ∷ [],
        rw (admitted k t f, e) refl,
        λ rest. rw e (option-Reads k x t f (flash_attn-typed t k f e) rest),
      )
  flash_attn-Arrives k t v f e =
      let x = lower (str_value str_other v) in
      (
        cli_key k ∷ x ∷ [],
        rw (admitted k t f, e) refl,
        λ rest. rw e (option-Reads k x t f (flash_attn-typed t k f e) rest),
      )

  other-Arrives :
      (k : String) (t : FlagType) (v : Value)
      → find_key k safe_llama_flags ≡ some t
      → (k == "flash_attn") ≡ false
      → is_bool v ≡ is_switch t
      → Arrives k v
  unfolding flag_argv
  other-Arrives k t (bool true) f e s =
      (cli_key k ∷ [], rw (admitted k t f, e) refl, λ rest. rw e (switch-Reads k t f (sym s) rest))
  other-Arrives k t (bool false) f e s =
      ([], rw (admitted k t f, e) refl, λ rest. rw e (sym (ahead-nil _)))
  other-Arrives k t v f e s = (
    cli_key k ∷ str_value str_other v ∷ [],
    rw (admitted k t f, e) refl,
    λ rest. rw e (option-Reads k (str_value str_other v) t f (sym s) rest),
  )

  flag-Arrives : (k : String) (v : Value) → check_allowed k v ≡ none → Arrives k v
  flag-Arrives k v h = elim (Option-cases (find_key k safe_llama_flags)) [
    | inl missing ↦ absurd (cc (unallowed k v missing))
    | inr (t, f) ↦ elim (Bool-cases (k == "flash_attn")) [
      | inl e ↦ flash_attn-Arrives k t v f e
      | inr e ↦
          other-Arrives k t v f e
            (value-typed t k v f e (unfold check_allowed in rw (f, check_allowed) at h))
    ]
  ]

  allowed-arrive :
      (flags : List (String × Value))
      → All IsAllowed flags
      → (argv : List String) × (flags_to_argv str_other flags ≡ some argv)
        × Reads argv (settings str_other flags)
  unfolding flags_to_argv
  allowed-arrive [] h = ([], refl, λ rest. sym (ahead-nil _))
  allowed-arrive ((k, v) ∷ flags) h =
      let (argv, built, reads) = flag-Arrives k v h.0 in
      let (more, built', reads') = allowed-arrive flags h.1 in
      (
        argv ++ more,
        rw (built, built', flags_to_argv) refl,
        λ rest.
            ap (read_argv none) (append_assoc argv more rest)
            ∙ reads (more ++ rest)
            ∙ ap (ahead (setting str_other k v)) (reads' rest)
            ∙ ahead-append (setting str_other k v) (settings str_other flags) (read_argv none rest),
      )

  -- The flags that `_flags_allowlist` accepts become a command line, and a reader that knows the
  -- flags' names and which of them switch, but not the builder, reads it as exactly these flags:
  -- every option is two dashes and the flag's name with a dash for each `_`, a switch that is on is
  -- given, one that is off is left out, and every other flag has its value, whatever the value
  -- looks like. No value is read as an option.
  pub flags_to_argv-reads :
      (flags : List (String × Value))
      → flags_allowlist flags ≡ none
      → (argv : List String) × (flags_to_argv str_other flags ≡ some argv)
        × (read_argv none argv ≡ some (settings str_other flags))
  flags_to_argv-reads flags h =
      let (argv, built, reads) = allowed-arrive flags ((flags_allowlist_iff flags).0 h) in
      (
        argv,
        built,
        ap (read_argv none) (sym (append-nil argv))
            ∙ reads []
            ∙ unfold read_argv in ap some (append-nil (settings str_other flags)),
      )

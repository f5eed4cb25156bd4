-- ===== src/Subprocess/Spawn.antt =====
-- `spawn_sidecar` of src/turbohaul/subprocess_mgr.py: the command that llama-server is started with.
-- The module polite_vram, which is not part of the program, is a parameter: the options it adds, or
-- none where it raises.
use southpaw_turbohaul.Base.{
  ℕ, String, ◌≡◌, refl, sym, ap, ◌∙◌, inl, inr, Bool, true, false, not, ◌&&◌, ◌||◌, List, [], ◌∷◌,
  ◌++◌, Option, none, some, if◌then◌else◌, any, All, AnyOf, subst,
}
use southpaw_turbohaul.Base.Text.{codes, append_text, lower, member, begins_with}
use southpaw_turbohaul.Base.Decimal.{decimal}
use southpaw_turbohaul.Manifest.Value.{Value, int, text, bool, null, compound, float}
use southpaw_turbohaul.Manifest.Validate.{flags_allowlist, check_allowed}
use southpaw_turbohaul.Manifest.Accepted.{flags_allowlist_iff, IsAllowed}
use southpaw_turbohaul.Manifest.Argv.{flag_argv, flags_to_argv, str_value}
use southpaw_turbohaul.Manifest.Argv.RoundTrip.{flags_to_argv-reads}

-- `TURBOHAUL_POLITE_VRAM`, "on" where it is not set.
unfoldable pub polite_off : Option String → Bool
unfolding lower
polite_off none = false
polite_off (some v) = member (lower v) ("off" ∷ "0" ∷ "false" ∷ "no" ∷ "n" ∷ [])

unfoldable pub is_ngl : String → Bool
unfolding begins_with
is_ngl a =
    member a ("-ngl" ∷ "--n-gpu-layers" ∷ "--gpu-layers" ∷ "--ngl" ∷ [])
    || (begins_with (codes "-ngl=") (codes a) || begins_with (codes "--n-gpu-layers=") (codes a))

abbrev pub has_explicit_ngl : List String → Bool
has_explicit_ngl argv_flags = any is_ngl argv_flags

-- The options as they go into the command.
unfoldable pub polite_flags : Option String → Option (List String) → List String → List String
polite_flags env polite argv_flags =
    if not (polite_off env) && not (has_explicit_ngl argv_flags)
    then elim polite [ some more ↦ argv_flags ++ more | none ↦ argv_flags ]
    else argv_flags

-- The pinned file, or the path.
unfoldable pub exec_path : String → Option ℕ → String
exec_path binary none = binary
exec_path binary (some fd) = append_text "/proc/self/fd/" (decimal fd)

abbrev pub inherited : Option ℕ → List ℕ
inherited none = []
inherited (some fd) = fd ∷ []

-- What the factory of processes is called with.
pub record Command : Type 0 where
  pub cmd : List String
  pub pass_fds : List ℕ

unfoldable pub spawn_sidecar :
    Option String → Option (List String) → String → Option ℕ → String → ℕ → List String → Command
spawn_sidecar env polite binary binary_fd gguf_path port argv_flags = record {
  cmd =
      exec_path binary binary_fd
      ∷ "--port"
      ∷ decimal port
      ∷ "--host"
      ∷ "127.0.0.1"
      ∷ "-m"
      ∷ gguf_path
      ∷ polite_flags env polite argv_flags;
  pass_fds = inherited binary_fd;
}

or_true : (a : Bool) → (a || true) ≡ true
or_true true = refl
or_true false = refl

any-right : (p : String → Bool) (xs ys : List String) → any p ys ≡ true → any p (xs ++ ys) ≡ true
any-right p [] ys h = h
any-right p (x ∷ xs) ys h = rw (any-right p xs ys h) (or_true (p x))

starts_explicit :
    (a b : List String) (x : String)
    → some a ≡ some ("--n-gpu-layers" ∷ x ∷ [])
    → has_explicit_ngl (a ++ b) ≡ true
unfolding is_ngl
starts_explicit a b x h = go a (cc)
  where
    go : (a : List String) → "--n-gpu-layers" ∷ x ∷ [] ≡ a → has_explicit_ngl (a ++ b) ≡ true
    go a e = subst (λ l. has_explicit_ngl (l ++ b) ≡ true) e refl

polite_flags-explicit :
    (env : Option String) (polite : Option (List String)) (argv : List String)
    → has_explicit_ngl argv ≡ true
    → polite_flags env polite argv ≡ argv
unfolding polite_flags
polite_flags-explicit env polite argv e = rw (e, never (polite_off env)) refl
  where
    never : (b : Bool) → (not b && false) ≡ false
    never true = refl
    never false = refl

module _ (str_other : Value → String) where
  -- The option of the number of layers, of an allowed value.
  layers_argv :
      (v : Value)
      → check_allowed "n_gpu_layers" v ≡ none
      → (x : String) × (flag_argv str_other "n_gpu_layers" v ≡ some ("--n-gpu-layers" ∷ x ∷ []))
  unfolding check_allowed flag_argv
  layers_argv (int n) h = (str_value str_other (int n), refl)
  layers_argv (text s) h = (s, refl)
  layers_argv (bool b) h = absurd (cc)
  layers_argv null h = absurd (cc)
  layers_argv compound h = absurd (cc)
  layers_argv (float x) h = absurd (cc)

  -- The words of a mapping that is built are those of its first flag and those of the rest.
  first_and_rest :
      (k : String) (v : Value) (rest : List (String × Value)) (argv : List String)
      → flags_to_argv str_other ((k, v) ∷ rest) ≡ some argv
      → (a : List String) × (b : List String) × (flag_argv str_other k v ≡ some a)
        × (flags_to_argv str_other rest ≡ some b)
        × (a ++ b ≡ argv)
  first_and_rest k v rest argv h =
      go (flag_argv str_other k v) (flags_to_argv str_other rest) refl refl
        (unfold flags_to_argv in h)
    where
      go :
          (p q : Option (List String))
          → flag_argv str_other k v ≡ p
          → flags_to_argv str_other rest ≡ q
          → elim p [ none ↦ none | some a ↦ elim q [ none ↦ none | some b ↦ some (a ++ b) ] ]
            ≡ some argv
          → (a : List String) × (b : List String) × (flag_argv str_other k v ≡ some a)
            × (flags_to_argv str_other rest ≡ some b)
            × (a ++ b ≡ argv)
      go none q e f h = absurd (cc)
      go (some a) none e f h = absurd (cc)
      go (some a) (some b) e f h = (a, b, e, f, cc)

  abbrev IsLayers : String × Value → Type 0
  IsLayers (k, v) = k ≡ "n_gpu_layers"

  layers_explicit :
      (flags : List (String × Value)) (argv : List String)
      → All IsAllowed flags
      → AnyOf IsLayers flags
      → flags_to_argv str_other flags ≡ some argv
      → has_explicit_ngl argv ≡ true
  layers_explicit [] argv ok layers h = absurd layers
  layers_explicit ((k, v) ∷ rest) argv ok (inl is) h =
      let (a, b, first, more, whole) = first_and_rest k v rest argv h in
      let (x, words) = layers_argv v (subst (λ j. check_allowed j v ≡ none) is ok.0) in
      subst (λ l. has_explicit_ngl l ≡ true) whole
        (starts_explicit a b x (sym first ∙ ap (λ j. flag_argv str_other j v) is ∙ words))
  layers_explicit ((k, v) ∷ rest) argv ok (inr later) h =
      let (a, b, first, more, whole) = first_and_rest k v rest argv h in
      subst (λ l. has_explicit_ngl l ≡ true) whole
        (any-right is_ngl a b (layers_explicit rest b ok.1 later more))

  -- A manifest that sets n_gpu_layers has the last word: its flags, once accepted, are built, and
  -- go into the command behind the program, the port, the host and the model, with nothing added,
  -- whatever polite_vram proposes and the environment says.
  pub spawn_sidecar-keeps_layers :
      (flags : List (String × Value)) (env : Option String) (polite : Option (List String))
      (binary : String) (fd : Option ℕ) (gguf : String) (port : ℕ)
      → flags_allowlist flags ≡ none
      → AnyOf IsLayers flags
      → (argv : List String) × (flags_to_argv str_other flags ≡ some argv)
        × ((spawn_sidecar env polite binary fd gguf port argv).cmd ≡ (
            exec_path binary fd
            ∷ "--port"
            ∷ decimal port
            ∷ "--host"
            ∷ "127.0.0.1"
            ∷ "-m"
            ∷ gguf
            ∷ argv))
  spawn_sidecar-keeps_layers flags env polite binary fd gguf port ok layers =
      let (argv, built, reads) = flags_to_argv-reads str_other flags ok in
      let e = layers_explicit flags argv ((flags_allowlist_iff flags).0 ok) layers built in
      (argv, built, unfold spawn_sidecar in rw (polite_flags-explicit env polite argv e) refl)

-- ===== src/Manifest/Store.antt =====
-- The manifest files of src/turbohaul/manifest.py: reading, the atomic write with its If-Match
-- check, deletion, and the routes of src/turbohaul/api/manifests.py. The directory is a list of
-- entries by tag; a symbolic link among them is refused wherever it leads.
pub mod Laws
pub mod Written
mod Etag
pub mod Lost
pub mod Routes
pub mod Answers
pub mod Listing
mod Examples
use southpaw_turbohaul.Base.{
  ℕ, zero, suc, String, Bool, true, false, not, ◌&&◌, ◌||◌, List, [], ◌∷◌, Option, none, some,
  nat_eq, if◌then◌else◌, ◌==◌, length, is_some,
}
use southpaw_turbohaul.Base.Int.{ℤ, pos, negsuc, int_lt}
use southpaw_turbohaul.Base.Text.{append_text, codes, between}
use southpaw_turbohaul.Base.Decimal.{str_int}
use southpaw_turbohaul.Manifest.Value.{Value}
use southpaw_turbohaul.Manifest.Validate.{flags_allowlist}
use southpaw_turbohaul.Manifest.Tag.{validate_tag}

pub record PromptTemplate : Type 0 where
  pub system_default : String
  pub stop_tokens : List String

pub record Manifest : Type 0 where
  pub model_tag : String
  pub display_name : String
  pub description : String
  pub gguf_blob_sha256 : String
  pub gguf_size_bytes : ℤ
  pub context_size : ℤ
  pub expected_vram_bytes : ℤ
  pub mmproj_blob_sha256 : String
  pub revision : ℤ
  pub llama_server_flags : List (String × Value)
  pub prompt_template : PromptTemplate

abbrev is_hex : ℕ → Bool
is_hex c = between b'0' b'9' c || between b'a' b'f' c

all_hex : List ℕ → Bool
all_hex [] = true
all_hex (c ∷ cs) = is_hex c && all_hex cs

-- `re.fullmatch(r"[0-9a-f]{64}", v)`
unfoldable pub is_sha256 : String → Bool
unfolding all_hex
is_sha256 s = nat_eq (length (codes s)) 64 && all_hex (codes s)

abbrev pub at_least : ℤ → ℤ → Bool
at_least lo n = not (int_lt n lo)

unfoldable pub has_valid_fields : Manifest → Bool
unfolding is_sha256
has_valid_fields m =
    validate_tag m.model_tag
    && (is_sha256 m.gguf_blob_sha256
        && (at_least (pos 0) m.gguf_size_bytes
            && (at_least (pos 1) m.context_size
                && (at_least (pos 0) m.expected_vram_bytes
                    && not (is_some (flags_allowlist m.llama_server_flags))))))

-- Whether `Manifest(**data)` accepts the fields.
unfoldable pub is_valid : Manifest → Bool
unfolding has_valid_fields
is_valid m = has_valid_fields m && at_least (pos 1) m.revision

-- What `yaml.safe_load` makes of a file: a mapping with the fields of a manifest, which need not be
-- valid, or something else.
pub data Document : Type 0 where
  mapping : Manifest → Document
  other : Document

pub data Entry : Type 0 where
  file : Document → Entry
  link : Entry

abbrev pub Root : Type 0
Root = List (String × Entry)

unfoldable pub entry_at : String → Root → Option Entry
entry_at k [] = none
entry_at k ((j, e) ∷ r) = if j == k then some e else entry_at k r

unfoldable pub put_entry : String → Entry → Root → Root
put_entry k e [] = (k, e) ∷ []
put_entry k e ((j, f) ∷ r) = if j == k then (k, e) ∷ r else (j, f) ∷ put_entry k e r

unfoldable pub remove_entry : String → Root → Root
remove_entry k [] = []
remove_entry k ((j, f) ∷ r) = let rest = remove_entry k r in if j == k then rest else (j, f) ∷ rest

-- The exceptions: ManifestValidationError, pydantic's ValidationError, FileNotFoundError,
-- ConcurrencyError, and an error of the file system.
pub data Error : Type 0 where
  invalid schema not_found conflict disk : Error

pub data Result (A : Type 0) : Type 0 where
  ok : A → Result A
  err : Error → Result A

abbrev is_link : Option Entry → Bool
is_link (some link) = true
is_link (some (file d)) = false
is_link none = false

-- Whether `_safe_manifest_path` returns.
unfoldable pub safe_manifest_path : String → Root → Bool
unfolding entry_at
safe_manifest_path tag root = validate_tag tag && not (is_link (entry_at tag root))

unfoldable pub load_entry : Option Entry → Result Manifest
unfolding is_valid
load_entry none = err not_found
load_entry (some link) = err invalid
load_entry (some (file other)) = err invalid
load_entry (some (file (mapping m))) = if is_valid m then ok m else err schema

unfoldable pub read_manifest : Root → String → Result Manifest
unfolding safe_manifest_path load_entry
read_manifest root tag =
    if safe_manifest_path tag root then load_entry (entry_at tag root) else err invalid

-- `f'"{revision}"'`
unfoldable pub etag : ℤ → String
unfolding str_int
etag revision = append_text "\"" (append_text (str_int revision) "\"")

unfoldable pub manifest_etag : Root → String → Result String
unfolding read_manifest etag
manifest_etag root tag = elim (read_manifest root tag) [
  | ok m ↦ ok (etag m.revision)
  | err e ↦ err e
]

-- `n + 1`
abbrev pub next_int : ℤ → ℤ
next_int (pos n) = pos (suc n)
next_int (negsuc zero) = pos 0
next_int (negsuc (suc n)) = negsuc n

-- How the file system takes a write: it is done, it fails before the rename (the temporary file is
-- removed), or the directory cannot be synced after it.
pub data Disk : Type 0 where
  works fails_before fails_after : Disk

-- The If-Match check against an existing manifest.
unfoldable pub check_match : Option String → Manifest → Bool
unfolding etag
check_match none existing = false
check_match (some e) existing = e == etag existing.revision

-- `dump` is what `yaml.safe_load` makes of a file that holds `yaml.safe_dump` of
-- `model_dump(mode="json")` of a manifest.
module _ (dump : Manifest → Document) where
  unfoldable pub replace : Disk → Manifest → Root → Result Manifest × Root
  unfolding put_entry
  replace works m root = (ok m, put_entry m.model_tag (file (dump m)) root)
  replace fails_before m root = (err disk, root)
  replace fails_after m root = (err disk, put_entry m.model_tag (file (dump m)) root)

  unfoldable pub update :
      Disk → Option String → Manifest → Root → Result Manifest → Result Manifest × Root
  unfolding replace check_match
  update d if_match m root (err e) = (err e, root)
  update d if_match m root (ok existing) =
      if check_match if_match existing
      then replace d (record m { revision = next_int existing.revision }) root
      else (err conflict, root)

  unfoldable pub write_manifest_atomic :
      Disk → Option String → Manifest → Root → Result Manifest × Root
  unfolding update
  write_manifest_atomic d if_match m root =
      if safe_manifest_path m.model_tag root
      then (if is_some (entry_at m.model_tag root)
          then update d if_match m root (read_manifest root m.model_tag)
          else replace d m root)
      else (err invalid, root)

unfoldable pub delete_manifest : String → Root → Result Bool × Root
unfolding remove_entry
delete_manifest tag root =
    if safe_manifest_path tag root
    then (if is_some (entry_at tag root)
        then (ok true, remove_entry tag root)
        else (ok false, root))
    else (err invalid, root)

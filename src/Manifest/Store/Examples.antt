-- ===== src/Manifest/Store/Examples.antt =====
-- Tests of the manifest files of src/turbohaul/manifest.py, and the theorems at concrete ones.
use southpaw_turbohaul.Base.{String, ◌≡◌, refl, sym, subst, true, [], ◌∷◌, none, some}
use southpaw_turbohaul.Base.Int.{pos}
use southpaw_turbohaul.Manifest.Value.{int}
use southpaw_turbohaul.Manifest.Tag.{validate_tag}
use southpaw_turbohaul.Manifest.Validate.{flags_allowlist}
use southpaw_turbohaul.Manifest.Store.Listing.{list_manifests}
use southpaw_turbohaul.Manifest.Store.{
  Manifest, is_valid, mapping, other, file, link, Root, entry_at, invalid, not_found,
  safe_manifest_path, conflict, disk, ok, err, read_manifest, manifest_etag, etag, works,
  fails_after, write_manifest_atomic, delete_manifest,
}
use southpaw_turbohaul.Manifest.Store.Laws.{bumped-is_valid}
use southpaw_turbohaul.Manifest.Store.Lost.{Keeps, now, wrote, write_manifest_atomic-stale}
use southpaw_turbohaul.Manifest.Store.Routes.{
  answered, written, removed, failed, get_manifest, put_manifest, delete_manifest_route,
}

abbrev hash : String
hash = "0123456789abcdef0123456789abcdef0123456789abcdef0123456789abcdef"

abbrev qwen : Manifest
qwen = record {
  model_tag = "qwen";
  display_name = "Qwen";
  description = "";
  gguf_blob_sha256 = hash;
  gguf_size_bytes = pos 0;
  context_size = pos 4096;
  expected_vram_bytes = pos 0;
  mmproj_blob_sha256 = "";
  revision = pos 1;
  llama_server_flags = ("ctx_size", int (pos 8192)) ∷ [];
  prompt_template = record { system_default = ""; stop_tokens = [] };
}

abbrev renamed : Manifest
renamed = record qwen { display_name = "Renamed" }

abbrev one : Root
one = ("qwen", file (mapping qwen)) ∷ []

abbrev two : Root
two = ("qwen", file (mapping (record renamed { revision = pos 2 }))) ∷ []

qwen-is_valid : is_valid qwen ≡ true
unfolding is_valid validate_tag flags_allowlist read_manifest safe_manifest_path
    write_manifest_atomic
qwen-is_valid = refl

renamed-is_valid : is_valid renamed ≡ true
unfolding is_valid validate_tag flags_allowlist read_manifest safe_manifest_path
    write_manifest_atomic
renamed-is_valid = refl

refusals :
    (read_manifest one "llama" ≡ err not_found)
    × (read_manifest one "../qwen" ≡ err invalid)
    × (read_manifest (("qwen", link) ∷ []) "qwen" ≡ err invalid)
    × (write_manifest_atomic mapping works none renamed one ≡ (err conflict, one))
    × (write_manifest_atomic mapping works (some "\"2\"") renamed one ≡ (err conflict, one))
    × (write_manifest_atomic mapping fails_after (some "\"1\"") renamed one ≡ (err disk, two))
    × (manifest_etag two "qwen" ≡ ok "\"2\"")
    × (delete_manifest_route "qwen" one ≡ (removed, []))
    × (delete_manifest_route "llama" one ≡ (failed 404, one))
unfolding read_manifest write_manifest_atomic manifest_etag delete_manifest_route delete_manifest
    is_valid validate_tag flags_allowlist safe_manifest_path
refusals = (refl, refl, refl, refl, refl, refl, refl, refl, refl)

updated_once :
    write_manifest_atomic mapping works (some "\"1\"") renamed one
    ≡ (ok (record renamed { revision = pos 2 }), two)
unfolding write_manifest_atomic validate_tag flags_allowlist read_manifest safe_manifest_path
    is_valid
updated_once = refl

-- A file that is read back as it was written keeps every valid manifest.
as_written : (m : Manifest) → is_valid m ≡ true → Keeps mapping m
as_written m v z r e = (
  record m { revision = z },
  refl,
  subst (λ x. is_valid (record m { revision = x }) ≡ true) (sym e) (bumped-is_valid m r v),
  refl,
)

write_manifest_atomic-stale_example :
    write_manifest_atomic mapping works
      (some "\"1\"")
      qwen
      (write_manifest_atomic mapping works (some "\"2\"") qwen two).1
    ≡ (err conflict, (write_manifest_atomic mapping works (some "\"2\"") qwen two).1)
write_manifest_atomic-stale_example =
    write_manifest_atomic-stale mapping works "\"1\"" renamed qwen
      (record renamed { revision = pos 2 }) one two
      (write_manifest_atomic mapping works (some "\"2\"") qwen two).1
      (as_written renamed renamed-is_valid) (unfold entry_at in refl) updated_once
      (wrote works (some "\"2\"") qwen now qwen-is_valid (as_written qwen qwen-is_valid)) refl

-- A file that holds no mapping is not loaded.
unreadable :
    read_manifest (write_manifest_atomic (λ m. other) works none qwen []).1 "qwen" ≡ err invalid
unfolding read_manifest write_manifest_atomic validate_tag safe_manifest_path
unreadable = refl

created_answer :
    (put_manifest mapping works "qwen" qwen none [] ≡ (written "\"1\"" "qwen" (pos 1), one))
    × (get_manifest one "qwen" ≡ answered "\"1\"" qwen)
unfolding put_manifest get_manifest write_manifest_atomic is_valid etag validate_tag flags_allowlist
    read_manifest safe_manifest_path
created_answer = (refl, refl)

abbrev names : Root
names = ("qwen3", link) ∷ ("Bad", link) ∷ (".tmp_x", link) ∷ ("gemma-4", link) ∷ ("qwen", link) ∷ []

listed : list_manifests names ≡ "gemma-4" ∷ "qwen" ∷ "qwen3" ∷ []
unfolding list_manifests validate_tag
listed = refl

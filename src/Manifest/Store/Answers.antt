-- ===== src/Manifest/Store/Answers.antt =====
-- What a PUT of src/turbohaul/api/manifests.py answers, and what it leaves in the directory.
use southpaw_turbohaul.Base.{ℕ, String, ◌≡◌, ◌⊎◌, true, Option, none, some}
use southpaw_turbohaul.Base.Int.{ℤ}
use southpaw_turbohaul.Manifest.Store.{
  Manifest, Document, is_valid, mapping, file, Root, entry_at, put_entry, etag, next_int,
}
use southpaw_turbohaul.Manifest.Store.Routes.{Response, written, failed}

-- The revision that a PUT may write: the payload's own, if there is no entry of the tag; the next
-- after that of the valid manifest which is there, if If-Match names its ETag.
abbrev pub IsNext : Option String → Manifest → Root → ℤ → Type 0
IsNext if_match m root z =
    ((entry_at m.model_tag root ≡ none) × (z ≡ m.revision))
    ⊎ ((old : Manifest) × (entry_at m.model_tag root ≡ some (file (mapping old)))
        × (is_valid old ≡ true)
        × (if_match ≡ some (etag old.revision))
        × (z ≡ next_int old.revision))

module _ (dump : Manifest → Document) (if_match : Option String) (m : Manifest) (root : Root) where
  -- The directory with the manifest at a revision.
  abbrev pub stored : ℤ → Root
  stored z = put_entry m.model_tag (file (dump (record m { revision = z }))) root

  -- The PUT is refused and changes nothing; or it answers with the ETag, the tag and the revision of
  -- what it wrote; or the disk failed, which is a 500, before or after the file was replaced.
  pub data Answer : Response × Root → Type 0 where
    turned_down :
        (status : ℕ)
        → (status ≡ 400) ⊎ (status ≡ 412) ⊎ (status ≡ 500)
        → Answer (failed status, root)
    accepted :
        (z : ℤ) → IsNext if_match m root z → Answer (written (etag z) m.model_tag z, stored z)
    broken_off : (z : ℤ) → IsNext if_match m root z → Answer (failed 500, stored z)

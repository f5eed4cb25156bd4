-- ===== src/Manifest/Store/Routes.antt =====
-- The routes of src/turbohaul/api/manifests.py.
use southpaw_turbohaul.Base.Int.{ℤ}
use southpaw_turbohaul.Base.{ℕ, String, Bool, true, false, not, Option, if◌then◌else◌}
use southpaw_turbohaul.Manifest.Tag.{validate_tag}
use southpaw_turbohaul.Manifest.Store.{
  Manifest, Document, is_valid, Root, Error, invalid, schema, not_found, conflict, disk, Result, ok,
  err, read_manifest, etag, Disk, write_manifest_atomic, delete_manifest,
}

-- An answer: a manifest with its ETag; the ETag, tag and revision of what was written; a bare
-- success; or a status of failure.
pub data Response : Type 0 where
  answered : String → Manifest → Response
  written : String → String → ℤ → Response
  removed : Response
  failed : ℕ → Response

-- The status that a route gives for an exception; what it does not catch is a 500.
abbrev pub get_status : Error → ℕ
get_status not_found = 404
get_status invalid = 400
get_status schema = 500
get_status conflict = 500
get_status disk = 500

abbrev pub put_status : Error → ℕ
put_status conflict = 412
put_status invalid = 400
put_status schema = 500
put_status not_found = 500
put_status disk = 500

unfoldable pub get_manifest : Root → String → Response
get_manifest root tag =
    if validate_tag tag
    then elim (read_manifest root tag) [
      | ok m ↦ answered (etag m.revision) m
      | err e ↦ failed (get_status e)
    ]
    else failed 400

abbrev pub put_answer : Result Manifest × Root → Response × Root
put_answer (ok m, root) = (written (etag m.revision) m.model_tag m.revision, root)
put_answer (err e, root) = (failed (put_status e), root)

-- The tag of the payload is that of the URL. An error of the disk is not caught.
unfoldable pub put_manifest :
    (Manifest → Document) → Disk → String → Manifest → Option String → Root → Response × Root
put_manifest dump d tag payload if_match root =
    let m = record payload { model_tag = tag } in
    if not (validate_tag tag)
    then (failed 400, root)
    else if is_valid m
    then put_answer (write_manifest_atomic dump d if_match m root)
    else (failed 400, root)

abbrev delete_answer : Result Bool × Root → Response × Root
delete_answer (ok true, root) = (removed, root)
delete_answer (ok false, root) = (failed 404, root)
delete_answer (err e, root) = (failed 500, root)

unfoldable pub delete_manifest_route : String → Root → Response × Root
delete_manifest_route tag root =
    if validate_tag tag then delete_answer (delete_manifest tag root) else (failed 400, root)

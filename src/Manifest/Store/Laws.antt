-- ===== src/Manifest/Store/Laws.antt =====
-- What a write to the manifests of src/turbohaul/manifest.py leaves behind.
use southpaw_turbohaul.Base.{
  ℕ, zero, suc, String, ◌≡◌, refl, ap, subst, Bool, true, false, ◌&&◌, [], ◌∷◌, Option, none, some,
  if◌then◌else◌, ◌==◌, eq_iff, arith, Bool-cases, inl, inr,
}
use southpaw_turbohaul.Base.Int.{ℤ, pos, negsuc}
use southpaw_turbohaul.Manifest.Tag.{validate_tag}
use southpaw_turbohaul.Manifest.Store.{
  Manifest, has_valid_fields, at_least, is_valid, mapping, other, Entry, file, link, Root, entry_at,
  put_entry, remove_entry, invalid, schema, ok, err, safe_manifest_path, load_entry, read_manifest,
}

pub entry_at-put_entry :
    (j k : String) (e : Entry) (r : Root)
    → entry_at j (put_entry k e r) ≡ (if k == j then some e else entry_at j r)
unfolding entry_at put_entry
entry_at-put_entry j k e [] = refl
entry_at-put_entry j k e ((i, f) ∷ r) =
    ground (arith, eq_iff k j, eq_iff i k, eq_iff i j, entry_at-put_entry j k e r)

pub entry_at-remove_entry :
    (j k : String) (r : Root) → (k == j) ≡ false → entry_at j (remove_entry k r) ≡ entry_at j r
unfolding entry_at remove_entry
entry_at-remove_entry j k [] h = refl
entry_at-remove_entry j k ((i, f) ∷ r) h =
    ground (arith, eq_iff k j, eq_iff i k, eq_iff i j, entry_at-remove_entry j k r)

at_least-one : (z : ℤ) → at_least (pos 1) z ≡ true → (n : ℕ) × (z ≡ pos (suc n))
at_least-one (pos zero) h = cc
at_least-one (pos (suc n)) h = (n, refl)
at_least-one (negsuc n) h = absurd (ground arith)

and_parts : (a b : Bool) → (a && b) ≡ true → (a ≡ true) × (b ≡ true)
and_parts true b h = (refl, h)
and_parts false b h = cc

valid_parts :
    (m : Manifest)
    → is_valid m ≡ true
    → (has_valid_fields m ≡ true) × (at_least (pos 1) m.revision ≡ true)
unfolding is_valid
valid_parts m h = and_parts (has_valid_fields m) (at_least (pos 1) m.revision) h

-- The revision of a valid manifest is positive.
pub valid-revision : (m : Manifest) → is_valid m ≡ true → (n : ℕ) × (m.revision ≡ pos (suc n))
valid-revision m h = at_least-one m.revision (valid_parts m h).1

pub bumped-is_valid :
    (m : Manifest) (n : ℕ)
    → is_valid m ≡ true
    → is_valid (record m { revision = pos (suc n) }) ≡ true
bumped-is_valid m n h =
    let e : has_valid_fields (record m { revision = pos (suc n) }) ≡ true =
      unfold has_valid_fields in (valid_parts m h).0 in
    unfold is_valid in ground (arith, e)

if_ok : (b : Bool) (n m : Manifest) → (if b then ok n else err schema) ≡ ok m → (n ≡ m) × (b ≡ true)
if_ok true n m h = (cc, refl)
if_ok false n m h = cc

-- A manifest that is read is a valid one, and is what the file holds.
pub load_entry-valid :
    (e : Option Entry) (m : Manifest)
    → load_entry e ≡ ok m
    → (e ≡ some (file (mapping m))) × (is_valid m ≡ true)
load_entry-valid none m h = unfold load_entry in cc
load_entry-valid (some link) m h = unfold load_entry in cc
load_entry-valid (some (file other)) m h = unfold load_entry in cc
load_entry-valid (some (file (mapping n))) m h =
    let (same, valid) = if_ok (is_valid n) n m (unfold load_entry in h) in
    (ap (λ x. some (file (mapping x))) same, subst (λ x. is_valid x ≡ true) same valid)

pub entry-read :
    (root : Root) (tag : String) (m : Manifest)
    → validate_tag tag ≡ true
    → entry_at tag root ≡ some (file (mapping m))
    → is_valid m ≡ true
    → read_manifest root tag ≡ ok m
unfolding read_manifest load_entry safe_manifest_path
entry-read root tag m t e v = ground (arith, v)

-- What `read_manifest` returns is valid, and stands in the directory under the tag.
pub read_manifest-entry :
    (root : Root) (tag : String) (m : Manifest)
    → read_manifest root tag ≡ ok m
    → (entry_at tag root ≡ some (file (mapping m))) × (is_valid m ≡ true)
unfolding read_manifest
read_manifest-entry root tag m h = elim (Bool-cases (safe_manifest_path tag root)) [
  | inl safe ↦ load_entry-valid (entry_at tag root) m (rw (safe, read_manifest) at h)
  | inr unsafe ↦ absurd (cc (unsafe_read root tag unsafe))
]
  where
    unsafe_read :
        (root : Root) (tag : String)
        → safe_manifest_path tag root ≡ false
        → read_manifest root tag ≡ err invalid
    unsafe_read root tag e = rw (e, read_manifest) refl

-- ===== src/Manifest/Store/Written.antt =====
-- The writes of src/turbohaul/manifest.py, branch by branch.
use southpaw_turbohaul.Base.{
  String, ◌≡◌, ◌≢◌, ◌⊎◌, refl, sym, subst, Bool, true, false, Option, none, some, if◌then◌else◌,
  is_some, arith, Bool-cases, Option-cases, inl, inr,
}
use southpaw_turbohaul.Manifest.Tag.{validate_tag}
use southpaw_turbohaul.Manifest.Store.{
  Manifest, Document, is_valid, mapping, Entry, file, Root, entry_at, Error, invalid, schema,
  conflict, disk, Result, ok, err, safe_manifest_path, load_entry, link, other, read_manifest,
  next_int, Disk, replace, check_match, update, write_manifest_atomic,
}
use southpaw_turbohaul.Manifest.Store.Laws.{read_manifest-entry}

Result-cases : (r : Result Manifest) → ((m : Manifest) × (r ≡ ok m)) ⊎ ((e : Error) × (r ≡ err e))
Result-cases (ok m) = inl (m, refl)
Result-cases (err e) = inr (e, refl)

load_entry-error : (o : Option Entry) (e : Error) → load_entry o ≡ err e → e ≢ disk
load_entry-error none e h x = unfold load_entry in cc
load_entry-error (some link) e h x = unfold load_entry in cc
load_entry-error (some (file other)) e h x = unfold load_entry in cc
load_entry-error (some (file (mapping m))) e h x = go (is_valid m) (unfold load_entry in h)
  where
    go : (b : Bool) → (if b then ok m else err schema) ≡ err e → ⊥
    go true h = cc
    go false h = cc

read-error : (root : Root) (tag : String) (e : Error) → read_manifest root tag ≡ err e → e ≢ disk
unfolding read_manifest
read-error root tag e h x = go (safe_manifest_path tag root) h
  where
    go : (b : Bool) → (if b then load_entry (entry_at tag root) else err invalid) ≡ err e → ⊥
    go true h = load_entry-error (entry_at tag root) e h x
    go false h = cc

safe-tag :
    (tag : String) (root : Root) → safe_manifest_path tag root ≡ true → validate_tag tag ≡ true
unfolding safe_manifest_path
safe-tag tag root h = ground arith

module _ (dump : Manifest → Document) where
  -- A write is refused; or it creates the file; or it updates a manifest whose ETag the caller named.
  pub data Write (d : Disk) (if_match : Option String) (m : Manifest) (root : Root)
      : Result Manifest × Root → Type 0 where
    refused : (e : Error) → e ≢ disk → Write d if_match m root (err e, root)
    created :
        entry_at m.model_tag root ≡ none
        → validate_tag m.model_tag ≡ true
        → Write d if_match m root (replace dump d m root)
    updated :
        (existing : Manifest)
        → entry_at m.model_tag root ≡ some (file (mapping existing))
        → validate_tag m.model_tag ≡ true
        → is_valid existing ≡ true
        → check_match if_match existing ≡ true
        → Write d if_match m root
            (replace dump d (record m { revision = next_int existing.revision }) root)

module _ (dump : Manifest → Document) (d : Disk) (im : Option String) (m : Manifest)
    (root : Root) where
  abbrev Wrote : Result Manifest × Root → Type 0
  Wrote = Write dump d im m root

  matched_update :
      (existing : Manifest)
      → validate_tag m.model_tag ≡ true
      → read_manifest root m.model_tag ≡ ok existing
      → Wrote (update dump d im m root (ok existing))
  unfolding update
  matched_update existing t r = elim (Bool-cases (check_match im existing)) [
    | inl same ↦
        let (e, v) = read_manifest-entry root m.model_tag existing r in
        subst Wrote (sym (rw same refl)) (updated existing e t v same)
    | inr stale ↦ subst Wrote (sym (rw stale refl)) (refused conflict (λ e. cc))
  ]

  read_update :
      (r : Result Manifest)
      → validate_tag m.model_tag ≡ true
      → read_manifest root m.model_tag ≡ r
      → Wrote (update dump d im m root r)
  read_update (ok existing) t e = matched_update existing t e
  read_update (err x) t e = unfold update in refused x (read-error root m.model_tag x e)

  entry_write :
      safe_manifest_path m.model_tag root ≡ true
      → Wrote (
          if is_some (entry_at m.model_tag root)
          then update dump d im m root (read_manifest root m.model_tag)
          else replace dump d m root)
  entry_write safe = elim (Option-cases (entry_at m.model_tag root)) [
    | inl absent ↦ rw absent (created absent (safe-tag m.model_tag root safe))
    | inr (e, there) ↦
        rw there
          (read_update (read_manifest root m.model_tag) (safe-tag m.model_tag root safe) refl)
  ]

  -- Every call is one of the three.
  pub write-Write : Wrote (write_manifest_atomic dump d im m root)
  unfolding write_manifest_atomic
  write-Write = elim (Bool-cases (safe_manifest_path m.model_tag root)) [
    | inr unsafe ↦ subst Wrote (sym (rw unsafe refl)) (refused invalid (λ e. cc))
    | inl safe ↦ subst Wrote (sym (rw safe refl)) (entry_write safe)
  ]

-- ===== src/Manifest/Store/Lost.antt =====
-- What an old ETag is worth: src/turbohaul/manifest.py, `write_manifest_atomic`.
use southpaw_turbohaul.Base.{
  ℕ, String, suc, ◌<◌, ◌≡◌, ◌⊎◌, refl, sym, ap, ◌∙◌, subst, true, false, Option, none, some, ◌==◌,
  eq_refl, eq_iff, is_some, arith, Bool-cases, inl, inr,
}
use southpaw_turbohaul.Base.Int.{ℤ, pos}
use southpaw_turbohaul.Manifest.Tag.{validate_tag}
use southpaw_turbohaul.Manifest.Store.{
  Manifest, Document, is_valid, mapping, file, Root, entry_at, put_entry, conflict, Result, ok, err,
  safe_manifest_path, etag, next_int, Disk, works, fails_before, fails_after, replace, check_match,
  update, write_manifest_atomic, delete_manifest,
}
use southpaw_turbohaul.Manifest.Store.Laws.{
  entry_at-put_entry, entry_at-remove_entry, valid-revision, entry-read,
}
use southpaw_turbohaul.Manifest.Store.Etag.{etag-injective}
use southpaw_turbohaul.Manifest.Store.Written.{Write, refused, created, updated, write-Write}

-- The manifest under `tag` is valid and its revision is greater than `n`.
abbrev IsBeyond : String → ℕ → Root → Type 0
IsBeyond tag n root =
    (m : Manifest) × (r : ℕ) × (entry_at tag root ≡ some (file (mapping m)))
    × (is_valid m ≡ true)
    × (m.revision ≡ pos r)
    × (n < r)

-- What the file of `m` holds, whatever its revision, is a valid manifest of the same revision.
abbrev pub Keeps : (Manifest → Document) → Manifest → Type 0
Keeps dump m =
    (z : ℤ) (r : ℕ)
    → z ≡ pos (suc r)
    → (n : Manifest) × (dump (record m { revision = z }) ≡ mapping n)
      × (is_valid n ≡ true)
      × (n.revision ≡ z)

module _ (dump : Manifest → Document) where
  -- What clients do to the directory, short of deleting `tag`: writes of valid manifests that the
  -- files keep, whatever their If-Match and whether the disk works, and deletions.
  pub data Later (tag : String) (root : Root) : Root → Type 0 where
    now : Later tag root root
    wrote :
        {r : Root} (d : Disk) (im : Option String) (m : Manifest)
        → Later tag root r
        → is_valid m ≡ true
        → Keeps dump m
        → Later tag root (write_manifest_atomic dump d im m r).1
    deleted :
        {r : Root} (other_tag : String)
        → Later tag root r
        → (other_tag == tag) ≡ false
        → Later tag root (delete_manifest other_tag r).1

  replace-entry :
      (d : Disk) (m : Manifest) (root : Root)
      → ((replace dump d m root).1 ≡ root)
        ⊎ ((replace dump d m root).1 ≡ put_entry m.model_tag (file (dump m)) root)
  unfolding replace
  replace-entry works m root = inr refl
  replace-entry fails_before m root = inl refl
  replace-entry fails_after m root = inr refl

module _ (dump : Manifest → Document) (tag : String) (n : ℕ) where
  put-IsBeyond :
      (k : String) (m : Manifest) (r : ℕ) (root : Root)
      → is_valid m ≡ true
      → m.revision ≡ pos r
      → ((k == tag) ≡ true → n < r)
      → IsBeyond tag n root
      → IsBeyond tag n (put_entry k (file (mapping m)) root)
  put-IsBeyond k m r root v e lt (old, r0, at, v0, e0, lt0) = elim (Bool-cases (k == tag)) [
    | inl here ↦ (m, r, entry_at-put_entry tag k _ root ∙ rw here refl, v, e, lt here)
    | inr away ↦ (old, r0, entry_at-put_entry tag k _ root ∙ rw away at, v0, e0, lt0)
  ]

  replace-IsBeyond :
      (d : Disk) (m : Manifest) (z : ℤ) (r : ℕ) (root : Root)
      → Keeps dump m
      → z ≡ pos (suc r)
      → ((m.model_tag == tag) ≡ true → n < suc r)
      → IsBeyond tag n root
      → IsBeyond tag n (replace dump d (record m { revision = z }) root).1
  replace-IsBeyond d m z r root keeps e lt b =
      let (kept, same, v, revised) = keeps z r e in
      elim (replace-entry dump d (record m { revision = z }) root) [
        | inl left ↦ subst (IsBeyond tag n) (sym left) b
        | inr done ↦ subst (IsBeyond tag n) (sym done) (
            subst (λ x. IsBeyond tag n (put_entry m.model_tag (file x) root)) (sym same)
              (put-IsBeyond m.model_tag kept (suc r) root v (revised ∙ e) lt b))
      ]

  -- An entry is one entry.
  same_entry :
      (k : String) (root : Root) (a b : Manifest)
      → (k == tag) ≡ true
      → entry_at k root ≡ some (file (mapping a))
      → entry_at tag root ≡ some (file (mapping b))
      → a ≡ b
  same_entry k root a b e at at' =
      let same : k ≡ tag = (eq_iff k tag).0 e in
      let here : entry_at tag root ≡ some (file (mapping a)) =
        subst (λ x. entry_at x root ≡ some (file (mapping a))) same at in
      cc

  Write-IsBeyond :
      {d : Disk} {im : Option String} {m : Manifest} {root : Root} {out : Result Manifest × Root}
      → Write dump d im m root out
      → is_valid m ≡ true
      → Keeps dump m
      → IsBeyond tag n root
      → IsBeyond tag n out.1
  Write-IsBeyond (refused e ne) v keeps b = b
  Write-IsBeyond {d} {im} {m} {root} (created absent t) v keeps b =
      let (k, e) = valid-revision m v in
      let (old, r0, at, v0, e0, lt0) = b in
      replace-IsBeyond d m m.revision k root keeps e
        (λ here.
          let there : entry_at tag root ≡ none =
            subst (λ x. entry_at x root ≡ none) ((eq_iff m.model_tag tag).0 here) absent in
          absurd (cc))
        b
  Write-IsBeyond {d} {im} {m} {root} (updated existing there t v' c) v keeps b =
      let (k, e) = valid-revision existing v' in
      let (old, r0, at, v0, e0, lt0) = b in
      replace-IsBeyond d m (next_int existing.revision) (suc k) root keeps (ap next_int e)
        (λ here.
          let same = same_entry m.model_tag root existing old here there at in
          let revisions : pos (suc k) ≡ pos r0 =
            sym e ∙ ap (λ (x : Manifest). x.revision) same ∙ e0 in
          ground (arith, lt0))
        b

  entry_at-delete :
      (k : String) (root : Root)
      → (k == tag) ≡ false
      → entry_at tag (delete_manifest k root).1 ≡ entry_at tag root
  unfolding delete_manifest
  entry_at-delete k root ne = ground (arith, entry_at-remove_entry tag k root ne)

  delete-IsBeyond :
      (k : String) (root : Root)
      → (k == tag) ≡ false
      → IsBeyond tag n root
      → IsBeyond tag n (delete_manifest k root).1
  delete-IsBeyond k root ne (old, r0, at, v, e, lt) =
      (old, r0, entry_at-delete k root ne ∙ at, v, e, lt)

  Later-IsBeyond :
      {root later : Root} → Later dump tag root later → IsBeyond tag n root → IsBeyond tag n later
  Later-IsBeyond now b = b
  Later-IsBeyond (wrote {r} d im m l v keeps) b =
      Write-IsBeyond (write-Write dump d im m r) v keeps (Later-IsBeyond l b)
  Later-IsBeyond (deleted {r} k l ne) b = delete-IsBeyond k r ne (Later-IsBeyond l b)

-- What a successful update names, and leaves.
update_done :
    (dump : Manifest → Document) {root root' : Root} {e : String} {m m' : Manifest}
    {out : Result Manifest × Root}
    → Write dump works (some e) m root out
    → out ≡ (ok m', root')
    → is_some (entry_at m.model_tag root) ≡ true
    → Keeps dump m
    → (n : ℕ) × (e ≡ etag (pos n))
      × (validate_tag m.model_tag ≡ true)
      × IsBeyond m.model_tag n root'
update_done dump (refused x ne) done there keeps = absurd (cc)
update_done dump (created absent t) done there keeps = absurd (ground arith)
update_done dump {root} {root'} {e} {m} (updated existing at t v' c) done there keeps =
    let (k, pos_k) = valid-revision existing v' in
    let next : next_int existing.revision ≡ pos (suc (suc k)) = ap next_int pos_k in
    let (kept, same, v, revised) = keeps (next_int existing.revision) (suc k) next in
    let left : put_entry m.model_tag (file (mapping kept)) root ≡ root' =
      ap (λ x. put_entry m.model_tag (file x) root) (sym same)
      ∙ unfold replace in ap (λ o. o.1) done in
    let named : e ≡ etag existing.revision =
      (eq_iff e (etag existing.revision)).0 (unfold check_match in c) in
    (
      suc k,
      named ∙ ap etag pos_k,
      t,
      (
        kept,
        suc (suc k),
        subst (λ r. entry_at m.model_tag r ≡ some (file (mapping kept))) left
            (entry_at-put_entry m.model_tag m.model_tag _ root ∙ rw (eq_refl m.model_tag) refl),
        v,
        revised ∙ next,
        omega arith,
      ),
    )

stale : (n r : ℕ) → n < r → (etag (pos n) == etag (pos r)) ≡ false
stale n r lt = elim (Bool-cases (etag (pos n) == etag (pos r))) [
  | inl same ↦
      let e = etag-injective n r ((eq_iff (etag (pos n)) (etag (pos r))).0 same) in
      absurd (omega (arith, e))
  | inr other ↦ other
]

conflicting :
    (dump : Manifest → Document) (d : Disk) (n : ℕ) (m : Manifest) (root : Root)
    → validate_tag m.model_tag ≡ true
    → IsBeyond m.model_tag n root
    → write_manifest_atomic dump d (some (etag (pos n))) m root ≡ (err conflict, root)
unfolding write_manifest_atomic safe_manifest_path update check_match
conflicting dump d n m root t (old, r, at, v, rev, lt) =
    rw (t, at, entry-read root m.model_tag old t at v, rev, stale n r lt) refl

-- An ETag serves for one update. Once an update with an If-Match has succeeded, every later update
-- of that manifest with the same If-Match is refused with a conflict and changes nothing, whatever
-- was written in between and whether or not the disk failed in it, if the manifest was not deleted,
-- and if each manifest that was written is loaded from its file as a valid one of the same revision.
pub write_manifest_atomic-stale :
    (dump : Manifest → Document) (d : Disk) (e : String) (first later m' : Manifest)
    (root root' now' : Root)
    → Keeps dump first
    → is_some (entry_at first.model_tag root) ≡ true
    → write_manifest_atomic dump works (some e) first root ≡ (ok m', root')
    → Later dump first.model_tag root' now'
    → later.model_tag ≡ first.model_tag
    → write_manifest_atomic dump d (some e) later now' ≡ (err conflict, now')
write_manifest_atomic-stale dump d e first later m' root root' now' keeps there done l same =
    let (n, named, t, b) =
      update_done dump (write-Write dump works (some e) first root) done there keeps in
    rw named (
      conflicting dump d n later now' (subst (λ x. validate_tag x ≡ true) (sym same) t)
        (subst (λ x. IsBeyond x n now') (sym same) (Later-IsBeyond dump first.model_tag n l b)))

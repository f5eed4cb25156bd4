-- ===== src/Manifest/Store/Listing.antt =====
-- `list_manifests` of src/turbohaul/manifest.py.
use Prim.Native.Nat.{Ordering}
use Prim.Native.String.{compare}
use southpaw_turbohaul.Base.{
  String, Bool, true, false, not, ◌&&◌, List, [], ◌∷◌, if◌then◌else◌, keep, map,
}
use southpaw_turbohaul.Base.Text.{codes, begins_with}
use southpaw_turbohaul.Manifest.Tag.{validate_tag}
use southpaw_turbohaul.Manifest.Store.{Entry, Root}

abbrev pub text_leb : String → String → Bool
text_leb a b = elim (compare a b) [ Ordering.gt ↦ false | _ ↦ true ]

-- `sorted(tags)`
unfoldable pub insert_text : String → List String → List String
insert_text t [] = t ∷ []
insert_text t (u ∷ l) = if text_leb t u then t ∷ u ∷ l else u ∷ insert_text t l

unfoldable pub sort_texts : List String → List String
unfolding insert_text
sort_texts [] = []
sort_texts (t ∷ l) = insert_text t (sort_texts l)

-- The entries are named by their tags, so each has the suffix `.yaml`.
unfoldable pub is_listed : String × Entry → Bool
unfolding begins_with
is_listed (tag, e) = not (begins_with (codes ".") (codes tag)) && validate_tag tag

unfoldable pub list_manifests : Root → List String
unfolding is_listed sort_texts
list_manifests root = sort_texts (map (λ e. e.0) (keep is_listed root))

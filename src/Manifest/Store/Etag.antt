-- ===== src/Manifest/Store/Etag.antt =====
-- ETags of src/turbohaul/manifest.py tell revisions apart.
use Prim.Native.Char.{Char}
use Prim.Native.String.{String, ◌∷◌, []}
use Prim.Native.String.append
use southpaw_turbohaul.Base.{ℕ, ◌≡◌, ◌≢◌, refl, sym, ap, ◌∙◌}
use southpaw_turbohaul.Base.Int.{pos}
use southpaw_turbohaul.Base.Text.{append_text}
use southpaw_turbohaul.Base.Decimal.{decimal, decimal-injective}
use southpaw_turbohaul.Manifest.Store.{etag}

quoted-ne-nil : (s : String) → append_text s "\"" ≢ ""
quoted-ne-nil [] e = cc (append.nil "\"")
quoted-ne-nil (c ∷ s) e = cc (append.cons c s "\"")

tail : String → String
tail [] = ""
tail (c ∷ s) = s

longer-ne-quote : (c : Char) (s : String) → append_text (c ∷ s) "\"" ≢ "\""
unfolding tail
longer-ne-quote c s e = quoted-ne-nil s (ap tail (sym (append.cons c s "\"") ∙ e))

quoted-injective : (s t : String) → append_text s "\"" ≡ append_text t "\"" → s ≡ t
quoted-injective [] [] e = refl
quoted-injective [] (c ∷ t) e = absurd (longer-ne-quote c t (sym e ∙ append.nil "\""))
quoted-injective (c ∷ s) [] e = absurd (longer-ne-quote c s (e ∙ append.nil "\""))
quoted-injective (c ∷ s) (d ∷ t) e =
    let same : append_text s "\"" ≡ append_text t "\"" =
      cc (append.cons c s "\"", append.cons d t "\"") in
    let first : c ≡ d = cc (append.cons c s "\"", append.cons d t "\"") in
    cc (quoted-injective s t same)

open_quote : (s : String) → tail (append_text "\"" s) ≡ s
unfolding tail
open_quote s = ap tail (append.cons "\"" "" s) ∙ append.nil s

-- Two revisions with one ETag are the same.
pub etag-injective : (m n : ℕ) → etag (pos m) ≡ etag (pos n) → m ≡ n
unfolding etag
etag-injective m n e = decimal-injective m n (
    quoted-injective (decimal m) (decimal n) (
      sym (open_quote (append_text (decimal m) "\""))
      ∙ ap tail e
      ∙ open_quote (append_text (decimal n) "\"")))

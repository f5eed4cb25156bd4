-- ===== src/Recovery/Scan/Pieces.antt =====
-- The texts that stand between two braces, for src/turbohaul/api/tool_call_recovery.py: characters,
-- strings with escapes, and objects in turn. Every JSON object is a text of this kind between braces.
use southpaw_turbohaul.Base.{ℕ, ◌≡◌, ◌≢◌, List, [], ◌∷◌, ◌++◌}
use southpaw_turbohaul.Recovery.Scan.{open_brace, close_brace, quote, backslash}

-- The inside of a string: characters and escaped characters.
pub data IsBody : List ℕ → Type 0 where
  done : IsBody []
  letter : {c : ℕ} {l : List ℕ} → c ≢ quote → c ≢ backslash → IsBody l → IsBody (c ∷ l)
  escaped : {c : ℕ} {l : List ℕ} → IsBody l → IsBody (backslash ∷ c ∷ l)

pub data IsPieces : List ℕ → Type 0 where
  done : IsPieces []
  plain :
      {c : ℕ} {l : List ℕ}
      → c ≢ quote
      → c ≢ open_brace
      → c ≢ close_brace
      → IsPieces l
      → IsPieces (c ∷ l)
  string : {b l t : List ℕ} → IsBody b → IsPieces l → t ≡ quote ∷ b ++ quote ∷ l → IsPieces t
  object :
      {o l t : List ℕ}
      → IsPieces o
      → IsPieces l
      → t ≡ open_brace ∷ o ++ close_brace ∷ l
      → IsPieces t

-- ===== src/Recovery/Candidates.antt =====
-- `_iter_candidates` of src/turbohaul/api/tool_call_recovery.py. `json.loads` and `json.dumps` are
-- parameters.
use southpaw_turbohaul.Base.{
  ℕ, zero, suc, ◌+◌, ◌&&◌, List, [], ◌∷◌, ◌++◌, Option, none, some, nat_eq, leb, ltb, any,
  if◌then◌else◌,
}
use southpaw_turbohaul.Base.Text.{begins_with}
use southpaw_turbohaul.Recovery.Json.{
  Text, Json, null, number, bool, str, arr, obj, get_field, as_text, is_dict,
}
use southpaw_turbohaul.Recovery.Scan.{drop, balanced_object_at}
use southpaw_turbohaul.Recovery.Regex.{close_tag, xml_match, canonical_match, find_all}

pub record Candidate : Type 0 where
  pub start : ℕ
  pub stop : ℕ
  pub name : Text
  pub args_json : Text

-- `text[:n]`
unfoldable pub take : ℕ → Text → Text
take zero l = []
take (suc n) [] = []
take (suc n) (x ∷ l) = x ∷ take n l

abbrev pub slice : ℕ → ℕ → Text → Text
slice i j text = drop i (take j text)

-- `text.find(p)`, counted from `i`, of a text that is not empty.
unfoldable pub find_from : Text → ℕ → Text → Option ℕ
unfolding begins_with
find_from p i [] = none
find_from p i (c ∷ cs) =
    let rest = find_from p (i + 1) cs in if begins_with p (c ∷ cs) then some i else rest

-- `while segment[outer_end] in " \t\r\n"`, and then `}`: the place behind it.
unfoldable pub wrapping_end : ℕ → Text → Option ℕ
wrapping_end i [] = none
wrapping_end i (c ∷ cs) =
    let rest = wrapping_end (i + 1) cs in
    if any (nat_eq c) (b' ' ∷ b'\t' ∷ b'\r' ∷ b'\n' ∷ [])
    then rest
    else if nat_eq c b'}'
    then some (i + 1)
    else none

infixl 10 ◌>>=◌
abbrev pub ◌>>=◌ : {A B : Type 0} → Option A → (A → Option B) → Option B
none >>= f = none
some a >>= f = f a

abbrev pub keep_some : {A B : Type 0} → (A → Option B) → List A → List B
keep_some f [] = []
keep_some f (x ∷ l) = let rest = keep_some f l in elim (f x) [ none ↦ rest | some y ↦ y ∷ rest ]

abbrev pub insert_by_start : Candidate → List Candidate → List Candidate
insert_by_start c [] = c ∷ []
insert_by_start c (d ∷ l) = if leb c.start d.start then c ∷ d ∷ l else d ∷ insert_by_start c l

-- `found.sort(key=lambda t: t[0])`
unfoldable pub sort_by_start : List Candidate → List Candidate
sort_by_start [] = []
sort_by_start (c ∷ l) = insert_by_start c (sort_by_start l)

module _ (loads : Text → Option Json) (dumps : Json → Text) where
  -- The arguments of a parsed call: an object, written again, or a text that is JSON.
  unfoldable pub args_of : Option Json → Option Text
  args_of (some (obj fs)) = some (dumps (obj fs))
  args_of (some (str s)) = loads s >>= λ j. some s
  args_of (some null) = none
  args_of (some number) = none
  args_of (some (bool b)) = none
  args_of (some (arr xs)) = none
  args_of none = none

  unfoldable pub call_of : Json → Option (Text × Text)
  unfolding args_of get_field
  call_of (obj fs) = do
    name ← as_text (get_field "name" fs)
    args ← args_of (get_field "arguments" fs)
    some (name, args)
  call_of j = none

  -- The body of the loop over `_XML_RE`.
  unfoldable pub xml_candidate : Text → ℕ × (ℕ × ℕ) → Option Candidate
  unfolding call_of
  xml_candidate segment (at, (body, size)) = do
    end ← balanced_object_at segment (at + body)
    parsed ← loads (slice (at + body) end segment)
    (name, args) ← call_of parsed
    tag ← find_from close_tag end (drop end segment)
    some (record { start = at; stop = tag + 12; name = name; args_json = args })

  -- The body of the loop over `_CANONICAL_RE`.
  unfoldable pub canonical_candidate : List Candidate → Text → ℕ × (Text × ℕ × ℕ) → Option Candidate
  canonical_candidate xml segment (at, (name, args, size)) =
      if any (λ (c : Candidate). leb c.start at && ltb at c.stop) xml then none else (do
        args_end ← balanced_object_at segment (at + args)
        parsed ← loads (slice (at + args) args_end segment)
        if is_dict parsed
            then (do
              stop ← wrapping_end args_end (drop args_end segment)
              some (record { start = at; stop = stop; name = name; args_json = dumps parsed }))
            else none)

  abbrev pub xml_found : Text → List Candidate
  xml_found segment = keep_some (xml_candidate segment) (find_all xml_match (λ m. m.1) 0 0 segment)

  abbrev pub canonical_found : Text → List Candidate
  canonical_found segment =
      keep_some (canonical_candidate (xml_found segment) segment)
        (find_all canonical_match (λ m. m.2) 0 0 segment)

  unfoldable pub iter_candidates : Text → List Candidate
  unfolding xml_candidate canonical_candidate
  iter_candidates segment = sort_by_start (xml_found segment ++ canonical_found segment)

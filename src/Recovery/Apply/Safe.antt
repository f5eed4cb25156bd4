-- ===== src/Recovery/Apply/Safe.antt =====
-- Which calls src/turbohaul/api/tool_call_recovery.py recovers.
use southpaw_turbohaul.Base.{
  ℕ, ◌≡◌, ◌⊎◌, inl, inr, refl, subst, Bool, true, false, List, [], ◌∷◌, ◌++◌, Option, none, some,
  arith, if◌then◌else◌, keep, is_some, leb, All, All-append, AnyOf, Bool-cases, Option-cases, ◌||◌,
}
use southpaw_turbohaul.Base.Text.{same_codes, same_codes_iff}
use southpaw_turbohaul.Recovery.Json.{
  Text, Json, null, number, bool, str, arr, obj, get_field, as_text,
}
use southpaw_turbohaul.Recovery.Scan.{drop}
use southpaw_turbohaul.Recovery.Regex.{find_all, xml_match, canonical_match}
use southpaw_turbohaul.Recovery.Candidates.{
  Candidate, ◌>>=◌, keep_some, insert_by_start, sort_by_start, args_of, call_of, xml_candidate,
  canonical_candidate, xml_found, canonical_found, iter_candidates,
}
use southpaw_turbohaul.Recovery.Apply.{
  Opened, is_known, is_empty, has_calls, strip, segment_start, extract_known_names, accepted_calls,
  maybe_recover_tool_calls,
}
use southpaw_turbohaul.Recovery.Apply.Outcome.{Applied, outcome}

bind-eq-some :
    {A B : Type 0} (m : Option A) (f : A → Option B) {b : B}
    → (m >>= f) ≡ some b
    → (a : A) × (m ≡ some a) × (f a ≡ some b)
bind-eq-some none f h = cc
bind-eq-some (some a) f h = (a, refl, h)

keep_some-All :
    {A : Type 0} (P : Candidate → Type 0) (f : A → Option Candidate) (l : List A)
    → ((x : A) (c : Candidate) → f x ≡ some c → P c)
    → All P (keep_some f l)
keep_some-All P f [] h = tt
keep_some-All P f (x ∷ l) h = elim (Option-cases (f x)) [
  | inl dropped ↦ rw (keep_some, dropped) (keep_some-All P f l h)
  | inr (c, kept) ↦ rw (keep_some, kept) (h x c kept, keep_some-All P f l h)
]

insert-All :
    (P : Candidate → Type 0) (c : Candidate) (l : List Candidate)
    → P c
    → All P l
    → All P (insert_by_start c l)
insert-All P c [] h k = (h, tt)
insert-All P c (d ∷ l) h k = elim (Bool-cases (leb c.start d.start)) [
  | inl before ↦ rw before (h, k)
  | inr after ↦ rw after (k.0, insert-All P c l h k.1)
]

sort-All : (P : Candidate → Type 0) (l : List Candidate) → All P l → All P (sort_by_start l)
unfolding sort_by_start
sort-All P [] h = tt
sort-All P (c ∷ l) h = insert-All P c (sort_by_start l) h.0 (sort-All P l h.1)

keep-All :
    (P : Candidate → Type 0) (test : Candidate → Bool) (l : List Candidate)
    → All P l
    → All (λ c. P c × (test c ≡ true)) (keep test l)
keep-All P test [] h = tt
keep-All P test (c ∷ l) h = elim (Bool-cases (test c)) [
  | inl yes_ ↦ rw yes_ ((h.0, yes_), keep-All P test l h.1)
  | inr no_ ↦ rw no_ (keep-All P test l h.1)
]

known-AnyOf :
    (name : Text) (known : List Text) → is_known known name ≡ true → AnyOf (λ n. name ≡ n) known
known-AnyOf name [] h = cc
known-AnyOf name (n ∷ l) h = elim (Bool-cases (same_codes name n)) [
  | inl same ↦ inl ((same_codes_iff name n).0 same)
  | inr differ ↦ inr (known-AnyOf name l (rw differ at h))
]

module _ (loads : Text → Option Json) (dumps : Json → Text)
    (loads-dumps : (j : Json) → is_some (loads (dumps j)) ≡ true) (call_id : ℕ → Text)
    (tools_list : Json) where
  -- The arguments of the call are JSON.
  abbrev Parses : Text → Type 0
  Parses t = is_some (loads t) ≡ true

  args_of-Parses : (o : Option Json) (t : Text) → args_of loads dumps o ≡ some t → Parses t
  unfolding args_of
  args_of-Parses (some (obj fs)) t h = ground (arith, loads-dumps (obj fs))
  args_of-Parses (some (str s)) t h = ground arith
  args_of-Parses (some null) t h = absurd (cc)
  args_of-Parses (some number) t h = absurd (cc)
  args_of-Parses (some (bool b)) t h = absurd (cc)
  args_of-Parses (some (arr xs)) t h = absurd (cc)
  args_of-Parses none t h = absurd (cc)

  call_of-Parses :
      (j : Json) (name args : Text) → call_of loads dumps j ≡ some (name, args) → Parses args
  unfolding call_of
  call_of-Parses (obj fs) name args h =
      let p = args_of-Parses (get_field "arguments" fs) in ground (arith, p args)
  call_of-Parses null name args h = absurd (cc)
  call_of-Parses number name args h = absurd (cc)
  call_of-Parses (bool b) name args h = absurd (cc)
  call_of-Parses (str s) name args h = absurd (cc)
  call_of-Parses (arr xs) name args h = absurd (cc)

  xml-Parses :
      (segment : Text) (m : ℕ × (ℕ × ℕ)) (c : Candidate)
      → xml_candidate loads dumps segment m ≡ some c
      → Parses c.args_json
  unfolding xml_candidate
  xml-Parses segment (at, (body, size)) c h = grind (arith, call_of-Parses)

  canonical-Parses :
      (xml : List Candidate) (segment : Text) (m : ℕ × (Text × ℕ × ℕ)) (c : Candidate)
      → canonical_candidate loads dumps xml segment m ≡ some c
      → Parses c.args_json
  unfolding canonical_candidate
  canonical-Parses xml segment (at, (name, args, size)) c h = grind (arith, loads-dumps)

  candidates-Parse :
      (segment : Text)
      → All (λ (c : Candidate). Parses c.args_json) (iter_candidates loads dumps segment)
  unfolding iter_candidates
  candidates-Parse segment =
      let xml = xml_found loads dumps segment in
      let canonical = canonical_found loads dumps segment in
      sort-All (λ (c : Candidate). Parses c.args_json) (xml ++ canonical)
        (All-append (λ (c : Candidate). Parses c.args_json) xml canonical
          (keep_some-All (λ (c : Candidate). Parses c.args_json) (xml_candidate loads dumps segment)
            (find_all xml_match (λ m. m.1) 0 0 segment) (xml-Parses segment))
          (keep_some-All (λ (c : Candidate). Parses c.args_json)
            (canonical_candidate loads dumps xml segment)
            (find_all canonical_match (λ m. m.2) 0 0 segment) (canonical-Parses xml segment)))

  -- A call of a function that the request advertises, with arguments that are JSON.
  abbrev pub IsAdvertised : Candidate → Type 0
  IsAdvertised c =
      AnyOf (λ n. c.name ≡ n) (extract_known_names tools_list)
      × (is_some (loads c.args_json) ≡ true)

  kept-IsAdvertised :
      (l : List Candidate)
      → All
          (λ (c : Candidate).
            Parses c.args_json × (is_known (extract_known_names tools_list) c.name ≡ true))
          l
      → All IsAdvertised l
  kept-IsAdvertised [] h = tt
  kept-IsAdvertised (c ∷ l) h =
      ((known-AnyOf c.name (extract_known_names tools_list) h.0.1, h.0.0), kept-IsAdvertised l h.1)

  accepted-IsAdvertised :
      (o : Opened) → All IsAdvertised (accepted_calls loads dumps call_id tools_list o)
  unfolding accepted_calls
  accepted-IsAdvertised o =
      go (has_calls (get_field "tool_calls" o.message) || is_empty (extract_known_names tools_list))
        (as_text (get_field "content" o.message))
    where
      inner :
          (content : Text) (b : Bool)
          → All IsAdvertised (
              if b
              then []
              else keep
                  (λ (c : Candidate). is_known (extract_known_names tools_list) c.name)
                  (iter_candidates loads dumps (drop (segment_start content) content)))
      inner content true = tt
      inner content false = kept-IsAdvertised _ (
          keep-All (λ (c : Candidate). Parses c.args_json)
            (λ c. is_known (extract_known_names tools_list) c.name) _
            (candidates-Parse (drop (segment_start content) content)))

      go :
          (b : Bool) (o : Option Text)
          → All IsAdvertised (
              if b then [] else elim o [
                | none ↦ []
                | some content ↦
                    if is_empty (strip content)
                    then []
                    else keep
                        (λ (c : Candidate). is_known (extract_known_names tools_list) c.name)
                        (iter_candidates loads dumps (drop (segment_start content) content))
              ])
      go true o = tt
      go false none = tt
      go false (some content) = inner content (is_empty (strip content))

  -- The result is left as it is; or calls are written into it, at least one, and each of them calls
  -- a function that the request advertised, with arguments that are JSON.
  pub maybe_recover-safe :
      (r : Json)
      → (maybe_recover_tool_calls loads dumps call_id r tools_list ≡ r)
        ⊎ ((a : Applied loads dumps call_id tools_list r) × All IsAdvertised (a.first ∷ a.more))
  maybe_recover-safe r = elim (outcome loads dumps call_id tools_list r) [
    | inl same ↦ inl same
    | inr a ↦ inr (a, subst (All IsAdvertised) a.accepted (accepted-IsAdvertised a.opened))
  ]

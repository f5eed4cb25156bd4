-- ===== src/Recovery/Apply/Outcome.antt =====
-- What `maybe_recover_tool_calls` of src/turbohaul/api/tool_call_recovery.py returns: its argument,
-- or the argument with the accepted calls written into it.
use southpaw_turbohaul.Base.{
  ℕ, String, ◌≡◌, ◌⊎◌, inl, inr, refl, List, [], ◌∷◌, Option, some, arith, if◌then◌else◌, ◌==◌,
  eq_iff, Option-cases,
}
use southpaw_turbohaul.Recovery.Json.{Text, Json, get_field, set_field, as_text, Fields, end, field}
use southpaw_turbohaul.Recovery.Candidates.{Candidate}
use southpaw_turbohaul.Recovery.Apply.{
  Opened, open_result, accepted_calls, write_back, recovered, maybe_recover_tool_calls,
}

pub get_field-set_field :
    (j k : String) (v : Json) (fs : Fields)
    → get_field j (set_field k v fs) ≡ (if k == j then some v else get_field j fs)
unfolding get_field set_field
get_field-set_field j k v end = refl
get_field-set_field j k v (field i w fs) =
    ground (arith, eq_iff k j, eq_iff i k, eq_iff i j, get_field-set_field j k v fs)

module _ (loads : Text → Option Json) (dumps : Json → Text) (call_id : ℕ → Text)
    (tools_list : Json) where
  abbrev recover : Json → Json
  recover r = maybe_recover_tool_calls loads dumps call_id r tools_list

  -- The calls `c ∷ l` were accepted and written.
  pub record Applied (r : Json) : Type 0 where
    pub opened : Opened
    pub first : Candidate
    pub more : List Candidate
    pub content : Text
    pub opens : open_result r ≡ some opened
    pub accepted : accepted_calls loads dumps call_id tools_list opened ≡ first ∷ more
    pub written :
        maybe_recover_tool_calls loads dumps call_id r tools_list
        ≡ write_back loads dumps call_id (first ∷ more) content opened

  outcome_of :
      (r : Json) (o : Opened) (calls : List Candidate)
      → open_result r ≡ some o
      → accepted_calls loads dumps call_id tools_list o ≡ calls
      → (recover r ≡ r) ⊎ Applied r
  unfolding maybe_recover_tool_calls recovered
  outcome_of r o [] opens e = inl (rw (maybe_recover_tool_calls, opens, e) refl)
  outcome_of r o (c ∷ l) opens e = elim (Option-cases (as_text (get_field "content" o.message))) [
    | inl missing ↦ inl (rw (maybe_recover_tool_calls, opens, e, recovered, missing) refl)
    | inr (content, there) ↦ inr (record {
      opened = o;
      first = c;
      more = l;
      content = content;
      opens = opens;
      accepted = e;
      written = rw (maybe_recover_tool_calls, opens, e, recovered, there) refl;
    })
  ]

  pub outcome :
      (r : Json) → (maybe_recover_tool_calls loads dumps call_id r tools_list ≡ r) ⊎ Applied r
  outcome r = elim (Option-cases (open_result r)) [
    | inl shut ↦ inl (unfold maybe_recover_tool_calls in rw (shut, maybe_recover_tool_calls) refl)
    | inr (o, opens) ↦ outcome_of r o (accepted_calls loads dumps call_id tools_list o) opens refl
  ]

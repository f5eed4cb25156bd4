-- ===== src/Recovery/Apply/Twice.antt =====
-- A second recovery changes nothing: src/turbohaul/api/tool_call_recovery.py.
use southpaw_turbohaul.Base.{
  ℕ, [], ◌≡◌, inl, inr, refl, sym, ap, ◌∙◌, true, List, ◌∷◌, Option, some,
}
use southpaw_turbohaul.Base.Text.{codes}
use southpaw_turbohaul.Recovery.Json.{Text, Json, Fields, arr, str, obj, cons, get_field, set_field}
use southpaw_turbohaul.Recovery.Candidates.{Candidate}
use southpaw_turbohaul.Recovery.Apply.{
  Opened, open_result, first_choice, has_calls, calls_from, new_content, recovered, accepted_calls,
  write_back, maybe_recover_tool_calls,
}
use southpaw_turbohaul.Recovery.Apply.Outcome.{get_field-set_field, outcome}

module _ (loads : Text → Option Json) (dumps : Json → Text) (call_id : ℕ → Text)
    (tools_list : Json) where
  -- The message, the choice and the result that were written.
  abbrev message_of : Candidate → List Candidate → Text → Opened → Fields
  message_of c l content o =
      set_field "tool_calls" (arr (calls_from loads dumps call_id 0 (c ∷ l)))
        (set_field "content" (str (new_content (c ∷ l) content)) o.message)

  abbrev choice_of : Fields → Opened → Fields
  choice_of m o =
      set_field "finish_reason" (str (codes "tool_calls")) (set_field "message" (obj m) o.choice)

  abbrev result_of : Fields → Opened → Fields
  result_of m o = set_field "choices" (arr (cons (obj (choice_of m o)) o.others)) o.result

  message_there : (m : Fields) (o : Opened) → get_field "message" (choice_of m o) ≡ some (obj m)
  message_there m o =
      get_field-set_field "message" "finish_reason" (str (codes "tool_calls"))
        (set_field "message" (obj m) o.choice)
      ∙ get_field-set_field "message" "message" (obj m) o.choice

  choices_there :
      (m : Fields) (o : Opened)
      → get_field "choices" (result_of m o) ≡ some (arr (cons (obj (choice_of m o)) o.others))
  choices_there m o =
      get_field-set_field "choices" "choices" (arr (cons (obj (choice_of m o)) o.others)) o.result

  calls_there :
      (c : Candidate) (l : List Candidate) (content : Text) (o : Opened)
      → has_calls (get_field "tool_calls" (message_of c l content o)) ≡ true
  calls_there c l content o =
      ap has_calls (
        get_field-set_field "tool_calls" "tool_calls"
          (arr (calls_from loads dumps call_id 0 (c ∷ l)))
          (set_field "content" (str (new_content (c ∷ l) content)) o.message))
      ∙ unfold calls_from in refl

  reopened :
      (m : Fields) (o : Opened)
      → open_result (obj (result_of m o))
        ≡ some (record {
          result = result_of m o;
          choice = choice_of m o;
          others = o.others;
          message = m;
        })
  unfolding open_result first_choice
  reopened m o = rw (open_result, choices_there m o, first_choice, message_there m o) refl

  full_message :
      (o : Opened)
      → has_calls (get_field "tool_calls" o.message) ≡ true
      → accepted_calls loads dumps call_id tools_list o ≡ []
  unfolding accepted_calls
  full_message o h = rw (accepted_calls, h) refl

  written_stays :
      (c : Candidate) (l : List Candidate) (content : Text) (o : Opened)
      → maybe_recover_tool_calls loads dumps call_id
          (write_back loads dumps call_id (c ∷ l) content o)
          tools_list
        ≡ write_back loads dumps call_id (c ∷ l) content o
  unfolding write_back maybe_recover_tool_calls recovered
  written_stays c l content o =
      let m = message_of c l content o in
      let again : Opened = record {
        result = result_of m o;
        choice = choice_of m o;
        others = o.others;
        message = m;
      } in
      rw
        (
          maybe_recover_tool_calls,
          write_back,
          reopened m o,
          full_message again (calls_there c l content o),
          recovered,
        )
        refl

  -- A second pass over a result, with the same tools, leaves it as the first one left it: calls are
  -- recovered once, and no text is stripped twice.
  pub maybe_recover-twice :
      (r : Json)
      → maybe_recover_tool_calls loads dumps call_id
          (maybe_recover_tool_calls loads dumps call_id r tools_list)
          tools_list
        ≡ maybe_recover_tool_calls loads dumps call_id r tools_list
  maybe_recover-twice r = elim (outcome loads dumps call_id tools_list r) [
    | inl same ↦ ap (λ x. maybe_recover_tool_calls loads dumps call_id x tools_list) same
    | inr a ↦
        ap (λ x. maybe_recover_tool_calls loads dumps call_id x tools_list) a.written
        ∙ written_stays a.first a.more a.content a.opened
        ∙ sym a.written
  ]

-- ===== src/Recovery/Examples.antt =====
-- Tests of the model of src/turbohaul/api/tool_call_recovery.py, and its theorems at a small result.
use southpaw_turbohaul.Base.{
  ℕ, ◌≡◌, ◌⊎◌, ◌↔◌, refl, true, [], ◌∷◌, Option, none, some, if◌then◌else◌, All, is_some,
}
use southpaw_turbohaul.Base.Text.{codes, same_codes}
use southpaw_turbohaul.Recovery.Json.{
  Text, Json, str, arr, obj, nil, cons, end, field, get_field, set_field,
}
use southpaw_turbohaul.Recovery.Scan.{balanced_object_at, drop}
use southpaw_turbohaul.Recovery.Scan.Exact.{IsObjectAt, balanced_object_at_iff}
use southpaw_turbohaul.Recovery.Regex.{xml_match, canonical_match, find_all}
use southpaw_turbohaul.Recovery.Candidates.{
  iter_candidates, find_from, wrapping_end, sort_by_start, take,
}
use southpaw_turbohaul.Recovery.Apply.{
  extract_known_names, strip, strip_spans, new_content, squash, segment_start, open_result,
  first_choice, accepted_calls, calls_from, write_back, recovered, maybe_recover_tool_calls,
}
use southpaw_turbohaul.Recovery.Apply.Outcome.{Applied}
use southpaw_turbohaul.Recovery.Apply.Safe.{IsAdvertised, maybe_recover-safe}
use southpaw_turbohaul.Recovery.Apply.Twice.{maybe_recover-twice}

-- A reader that knows a few texts.
loads : Text → Option Json
unfolding same_codes
loads t =
    if same_codes t (codes "{}")
    then some (obj end)
    else if same_codes t (codes "{\"x\": {}}")
    then some (obj (field "x" (obj end) end))
    else if same_codes t (codes "{\"name\": \"f\", \"arguments\": {}}")
    then some (obj (field "name" (str (codes "f")) (field "arguments" (obj end) end)))
    else none

dumps : Json → Text
dumps j = codes "{}"

loads-dumps : (j : Json) → is_some (loads (dumps j)) ≡ true
unfolding loads dumps
loads-dumps j = refl

call_id : ℕ → Text
call_id n = codes "call_0"

scans :
    (balanced_object_at (codes "a{\"}\\\"\": {}} b") 1 ≡ some 12)
    × (balanced_object_at (codes "{\"a\": {}") 0 ≡ none)
    × (balanced_object_at (codes "a{}") 0 ≡ none)
unfolding balanced_object_at
scans = (refl, refl, refl)

finds :
    (iter_candidates loads dumps (codes "Hi {\"name\": \"f\", \"arguments\": {\"x\": {}}} bye")
      ≡ record { start = 3; stop = 40; name = codes "f"; args_json = codes "{}" } ∷ [])
    × (iter_candidates loads dumps
          (codes "<tool_call> {\"name\": \"f\", \"arguments\": {}}\n</tool_call>.")
        ≡ record { start = 0; stop = 55; name = codes "f"; args_json = codes "{}" } ∷ [])
unfolding iter_candidates find_all canonical_match xml_match balanced_object_at loads dumps drop
    take find_from wrapping_end sort_by_start
finds = (refl, refl)

balanced_object_at_iff_example :
    (balanced_object_at (codes "a{}") 1 ≡ some 3) ↔ IsObjectAt (codes "a{}") 1 3
balanced_object_at_iff_example = balanced_object_at_iff (codes "a{}") 1 3

abbrev tools : Json
tools = arr (cons (obj (field "function" (obj (field "name" (str (codes "f")) end)) end)) nil)

abbrev answer : Text → Json
answer content = obj (
    field "choices"
      (arr (
        cons
          (obj (
            field "message" (obj (field "content" (str content) end))
              (field "finish_reason" (str (codes "stop")) end)))
          nil))
      end)

abbrev text_call : Text
text_call = codes "Sure.\n\n{\"name\": \"f\", \"arguments\": {}}\n"

recovers :
    maybe_recover_tool_calls loads dumps call_id (answer text_call) tools
    ≡ obj (
        field "choices"
          (arr (
            cons
              (obj (
                field "message"
                  (obj (
                    field "content" (str (codes "Sure.")) (
                      field "tool_calls"
                        (arr (
                          cons
                            (obj (
                              field "id" (str (codes "call_0")) (
                                field "type" (str (codes "function")) (
                                  field "function"
                                    (obj (
                                      field "name"
                                        (str (codes "f"))
                                        (field "arguments" (str (codes "{}")) end)))
                                    end))))
                            nil))
                        end)))
                  (field "finish_reason" (str (codes "tool_calls")) end)))
              nil))
          end)
unfolding maybe_recover_tool_calls open_result first_choice recovered accepted_calls write_back
    calls_from set_field get_field iter_candidates find_all canonical_match xml_match
    balanced_object_at loads dumps drop take find_from wrapping_end sort_by_start
    extract_known_names strip segment_start new_content call_id
recovers = refl

maybe_recover-twice_example :
    maybe_recover_tool_calls loads dumps call_id
      (maybe_recover_tool_calls loads dumps call_id (answer text_call) tools)
      tools
    ≡ maybe_recover_tool_calls loads dumps call_id (answer text_call) tools
maybe_recover-twice_example = maybe_recover-twice loads dumps call_id tools (answer text_call)

maybe_recover-safe_example :
    (maybe_recover_tool_calls loads dumps call_id (answer text_call) tools ≡ answer text_call)
    ⊎ ((a : Applied loads dumps call_id tools (answer text_call)) × All
          (IsAdvertised loads dumps loads-dumps call_id tools)
          (a.first ∷ a.more))
maybe_recover-safe_example =
    maybe_recover-safe loads dumps loads-dumps call_id tools (answer text_call)

-- A call among the arguments of another one is found a second time, behind two closing braces.
abbrev nested : Text
nested =
    codes
      "{\"name\":\"f\",\"arguments\":{\"x\":{\"z\":{}}, \"y\":{\"name\":\"g\",\"arguments\":{}}}} Then the text goes on, and on."

reads_all : Text → Option Json
reads_all t = some (obj end)

-- Its span is stripped twice: text behind the calls is lost.
nested_loses_text : new_content (iter_candidates reads_all dumps nested) nested ≡ codes "on."
unfolding new_content iter_candidates find_all canonical_match xml_match balanced_object_at dumps
    drop take find_from wrapping_end sort_by_start reads_all strip_spans strip segment_start squash
nested_loses_text = refl

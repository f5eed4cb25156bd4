-- ===== src/Recovery/Apply.antt =====
-- `maybe_recover_tool_calls` of src/turbohaul/api/tool_call_recovery.py. The ids of the calls come
-- from `uuid4`, the parameter `call_id`, by the call's place in the list.
pub mod Outcome
pub mod Safe
pub mod Twice
use southpaw_turbohaul.Base.{
  ℕ, zero, suc, ◌+◌, ◌-◌, String, Bool, true, false, not, ◌&&◌, ◌||◌, List, [], ◌∷◌, ◌++◌, Option,
  none, some, nat_eq, ltb, any, keep, if◌then◌else◌, length,
}
use southpaw_turbohaul.Base.Text.{codes, begins_with, same_codes}
use southpaw_turbohaul.Slot.ThreadId.{is_space}
use southpaw_turbohaul.Recovery.Json.{
  Text, Json, null, number, bool, str, arr, obj, Items, nil, cons, Fields, end, field, get_field,
  set_field, get_in, as_text,
}
use southpaw_turbohaul.Recovery.Scan.{drop}
use southpaw_turbohaul.Recovery.Candidates.{Candidate, take, iter_candidates}

-- The name that one entry of the tools advertises; an empty one counts as none.
abbrev pub tool_name : Json → List Text
tool_name entry = elim (get_in "function" entry) [
  | none ↦ []
  | some f ↦ elim (as_text (get_in "name" f)) [
    | none ↦ []
    | some [] ↦ []
    | some (c ∷ cs) ↦ (c ∷ cs) ∷ []
  ]
]

item_names : Items → List Text
unfolding get_in
item_names nil = []
item_names (cons x xs) = tool_name x ++ item_names xs

unfoldable pub extract_known_names : Json → List Text
unfolding item_names
extract_known_names (arr xs) = item_names xs
extract_known_names j = []

abbrev pub is_known : List Text → Text → Bool
is_known known name = any (same_codes name) known

-- `text.strip()`
strip_left : Text → Text
unfolding is_space
strip_left [] = []
strip_left (c ∷ cs) = if is_space c then strip_left cs else c ∷ cs

reverse_onto : Text → Text → Text
reverse_onto out [] = out
reverse_onto out (c ∷ cs) = reverse_onto (c ∷ out) cs

unfoldable pub strip : Text → Text
unfolding strip_left reverse_onto
strip s = reverse_onto [] (strip_left (reverse_onto [] (strip_left s)))

-- `re.sub(r"\n{3,}", "\n\n", text)`: the counter is how many line breaks stand before.
squash_after : ℕ → Text → Text
squash_after n [] = []
squash_after n (c ∷ cs) =
    let rest = squash_after (if nat_eq c b'\n' then n + 1 else 0) cs in
    if nat_eq c b'\n' && ltb 1 n then rest else c ∷ rest

unfoldable pub squash : Text → Text
unfolding squash_after
squash s = squash_after 0 s

abbrev pub think_close : Text
think_close = codes "</think>"

-- `content.rfind(p)`
unfoldable pub rfind : Text → Text → Option ℕ
unfolding begins_with
rfind p [] = none
rfind p (c ∷ cs) = elim (rfind p cs) [
  | some k ↦ some (k + 1)
  | none ↦ if begins_with p (c ∷ cs) then some 0 else none
]

unfoldable pub segment_start : Text → ℕ
unfolding rfind
segment_start content = elim (rfind think_close content) [ none ↦ 0 | some k ↦ k + 8 ]

-- The accepted spans are taken out from the last one to the first.
unfoldable pub strip_spans : List Candidate → Text → Text
unfolding take drop
strip_spans [] segment = segment
strip_spans (c ∷ l) segment =
    let rest = strip_spans l segment in take c.start rest ++ drop c.stop rest

unfoldable pub new_content : List Candidate → Text → Text
unfolding squash strip strip_spans segment_start
new_content accepted content = strip (
    squash (
      take (segment_start content) content
      ++ strip_spans accepted (drop (segment_start content) content)))

-- The first choice, if the result has one, its message, and what is around them.
pub record Opened : Type 0 where
  pub result : Fields
  pub choice : Fields
  pub others : Items
  pub message : Fields

unfoldable pub first_choice : Fields → Option Json → Option Opened
first_choice r (some (arr (cons (obj choice) others))) = elim (get_field "message" choice) [
  | some (obj m) ↦ some (record { result = r; choice = choice; others = others; message = m })
  | _ ↦ none
]
first_choice r other = none

unfoldable pub open_result : Json → Option Opened
open_result (obj r) = first_choice r (get_field "choices" r)
open_result other = none

-- `isinstance(existing, list) and len(existing) > 0`
abbrev pub has_calls : Option Json → Bool
has_calls (some (arr (cons x xs))) = true
has_calls _ = false

abbrev is_empty {ℓ} : {A : Type ℓ} → List A → Bool
is_empty [] = true
is_empty (x ∷ l) = false

module _ (loads : Text → Option Json) (dumps : Json → Text) (call_id : ℕ → Text) where
  unfoldable pub calls_from : ℕ → List Candidate → Items
  calls_from n [] = nil
  calls_from n (c ∷ l) =
      cons
        (obj (
          field "id" (str (call_id n)) (
            field "type" (str (codes "function")) (
              field "function"
                (obj (field "name" (str c.name) (field "arguments" (str c.args_json) end))) end))))
        (calls_from (n + 1) l)

  -- The candidates that are accepted, or none where the function returns early.
  unfoldable pub accepted_calls : Json → Opened → List Candidate
  unfolding extract_known_names get_field strip segment_start iter_candidates
  accepted_calls tools_list o =
      let known = extract_known_names tools_list in
      if has_calls (get_field "tool_calls" o.message) || is_empty known
      then []
      else elim (as_text (get_field "content" o.message)) [
        | none ↦ []
        | some content ↦
            if is_empty (strip content)
            then []
            else keep (λ (c : Candidate). is_known known c.name)
                (iter_candidates loads dumps (drop (segment_start content) content))
      ]

  -- The three assignments, in place.
  unfoldable pub write_back : List Candidate → Text → Opened → Json
  write_back accepted content o =
      let message =
        set_field "tool_calls" (arr (calls_from 0 accepted))
          (set_field "content" (str (new_content accepted content)) o.message) in
      let choice =
        set_field "finish_reason" (str (codes "tool_calls"))
          (set_field "message" (obj message) o.choice) in
      obj (set_field "choices" (arr (cons (obj choice) o.others)) o.result)

  unfoldable pub recovered : Json → List Candidate → Opened → Json
  recovered result [] o = result
  recovered result (c ∷ l) o = elim (as_text (get_field "content" o.message)) [
    | none ↦ result
    | some content ↦ write_back (c ∷ l) content o
  ]

  unfoldable pub maybe_recover_tool_calls : Json → Json → Json
  maybe_recover_tool_calls result tools_list = elim (open_result result) [
    | none ↦ result
    | some o ↦ recovered result (accepted_calls tools_list o) o
  ]

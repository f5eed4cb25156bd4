-- ===== src/Recovery/Json.antt =====
-- JSON values, and the fields that src/turbohaul/api/tool_call_recovery.py reads and writes. A text
-- is the list of its code points.
use southpaw_turbohaul.Base.{
  ℕ, String, Bool, true, false, List, Option, none, some, if◌then◌else◌, ◌==◌,
}

abbrev pub Text : Type 0
Text = List ℕ

mutual
  pub data Json : Type 0 where
    null number : Json
    bool : Bool → Json
    str : Text → Json
    arr : Items → Json
    obj : Fields → Json

  pub data Items : Type 0 where
    nil : Items
    cons : Json → Items → Items

  pub data Fields : Type 0 where
    end : Fields
    field : String → Json → Fields → Fields

-- `d.get(key)` of a dict.
unfoldable pub get_field : String → Fields → Option Json
get_field k end = none
get_field k (field j v fs) = if j == k then some v else get_field k fs

-- `d[key] = v`
unfoldable pub set_field : String → Json → Fields → Fields
set_field k v end = field k v end
set_field k v (field j w fs) = if j == k then field j v fs else field j w (set_field k v fs)

-- The field of a value, if that is a dict.
unfoldable pub get_in : String → Json → Option Json
unfolding get_field
get_in k (obj fs) = get_field k fs
get_in k v = none

-- `isinstance(v, str)`, `dict` and so on, with what they hold.
abbrev pub as_text : Option Json → Option Text
as_text (some (str s)) = some s
as_text (some null) = none
as_text (some number) = none
as_text (some (bool b)) = none
as_text (some (arr xs)) = none
as_text (some (obj fs)) = none
as_text none = none

abbrev pub is_dict : Json → Bool
is_dict (obj fs) = true
is_dict null = false
is_dict number = false
is_dict (bool b) = false
is_dict (str s) = false
is_dict (arr xs) = false

-- ===== src/Manifest/Value.antt =====
-- What yaml reads as the value of a flag, and the questions that src/turbohaul/manifest.py asks of it.
use southpaw_turbohaul.Base.{ℕ, String, Bool, true, false, suc}
use southpaw_turbohaul.Base.Int.{ℤ, int_lt, ratio_lt, lt_ratio}
use southpaw_turbohaul.Manifest.Allowlist.{
  FlagType, int_type, float_type, bool_type, text_type, int_or_text, bool_or_text,
}

-- A Python float: a finite one is a fraction `numerator / (denominator_less_one + 1)`.
pub data Float : Type 0 where
  nan infinity minus_infinity : Float
  fraction : ℤ → ℕ → Float

-- `x < b` and `b < x`; both are false of NaN.
abbrev pub float_lt : Float → ℤ → Bool
float_lt nan b = false
float_lt infinity b = false
float_lt minus_infinity b = true
float_lt (fraction m d) b = ratio_lt m (suc d) b

abbrev pub lt_float : ℤ → Float → Bool
lt_float b nan = false
lt_float b infinity = true
lt_float b minus_infinity = false
lt_float b (fraction m d) = lt_ratio b m (suc d)

-- `compound` is a list, a mapping or a date.
pub data Value : Type 0 where
  null compound : Value
  bool : Bool → Value
  int : ℤ → Value
  float : Float → Value
  text : String → Value

-- `isinstance(value, type)`, where a bool is an int too.
abbrev pub is_instance : FlagType → Value → Bool
is_instance int_type (bool b) = true
is_instance int_type (int n) = true
is_instance float_type (float x) = true
is_instance bool_type (bool b) = true
is_instance text_type (text s) = true
is_instance int_or_text (bool b) = true
is_instance int_or_text (int n) = true
is_instance int_or_text (text s) = true
is_instance bool_or_text (bool b) = true
is_instance bool_or_text (text s) = true
is_instance _ _ = false

-- The comparisons of the bounds: they are made for numbers, and not for bools.
abbrev pub is_below : ℤ → Value → Bool
is_below lo (int n) = int_lt n lo
is_below lo (float x) = float_lt x lo
is_below lo _ = false

abbrev pub is_above : ℤ → Value → Bool
is_above hi (int n) = int_lt hi n
is_above hi (float x) = lt_float hi x
is_above hi _ = false

-- ===== src/Json/Types.antt =====
-- The enumerations of json/Parser.h.
use mathlib.Core.Bool.{Bool, true, false}

-- `ValueSubType`.
pub data SubType : Type 0 where
  illegal double int uint string bool : SubType

-- `JSONType`.
pub data Kind : Type 0 where
  invalid object list value : Kind

abbrev pub is_double : SubType → Bool
is_double double = true
is_double _ = false

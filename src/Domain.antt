-- ===== src/Domain.antt =====
-- backend/domain_types.py: the literal types and JSON objects, and the values of Python that the
-- program tests: `isinstance`, truth values, blank text.
use Prim.Native.Char.{code}
use python_fastapi_poc.Prelude.{
  ℕ, ℤ, pos, String, Bool, true, false, Option, none, some, List, [], ◌∷◌, str_eq, leb, ◌&&◌, ◌||◌,
  ◌==◌, if◌then◌else◌,
}

pub data ScheduleType : Type 0 where
  cron interval manual : ScheduleType

pub data ActionType : Type 0 where
  sleep echo : ActionType

pub data ExecutionStatus : Type 0 where
  queued running completed failed : ExecutionStatus

pub data ExecutionTrigger : Type 0 where
  cron interval manual : ExecutionTrigger

pub data ActionExecutionStatus : Type 0 where
  pending running completed failed : ActionExecutionStatus

-- A float is kept as its bits.
pub data JsonPrimitive : Type 0 where
  str : String → JsonPrimitive
  int : ℤ → JsonPrimitive
  float : ℕ → JsonPrimitive
  bool : Bool → JsonPrimitive
  null : JsonPrimitive

abbrev pub JsonObject : Type 0
JsonObject = List (String × JsonPrimitive)

-- `config.get(key)`; a missing key is `none`, and a key that holds None is `some null`.
unfoldable pub get : JsonObject → String → Option JsonPrimitive
get [] k = none
get ((j, v) ∷ o) k = if str_eq j k then some v else get o k

-- The value of `isinstance(x, int)`: a bool is an int, True is 1 and False is 0.
unfoldable pub int_value : JsonPrimitive → Option ℤ
int_value (int n) = some n
int_value (bool true) = some (pos 1)
int_value (bool false) = some (pos 0)
int_value _ = none

-- `str.isspace` of one code point, the characters that `strip` removes.
unfoldable pub is_space : ℕ → Bool
is_space c =
    (leb 9 c && leb c 13)
    || (leb 28 c && leb c 32)
    || (c == 0x85)
    || (c == 0xa0)
    || (c == 0x1680)
    || (leb 0x2000 c && leb c 0x200a)
    || (leb 0x2028 c && leb c 0x2029)
    || (c == 0x202f)
    || (c == 0x205f)
    || (c == 0x3000)

lstrip : String → String
lstrip String.[] = String.[]
lstrip (String.◌∷◌ c s) = let rest = lstrip s in if is_space (code c) then rest else String.◌∷◌ c s

rstrip : String → String
rstrip String.[] = String.[]
rstrip (String.◌∷◌ c s) =
    let rest = rstrip s in if str_eq rest "" && is_space (code c) then "" else String.◌∷◌ c rest

-- `text.strip()`
unfoldable pub strip : String → String
unfolding lstrip rstrip is_space
strip s = rstrip (lstrip s)

-- `==` of two schedule types, and of two schedule configurations.
abbrev pub eq_schedule_type : ScheduleType → ScheduleType → Bool
eq_schedule_type cron cron = true
eq_schedule_type interval interval = true
eq_schedule_type manual manual = true
eq_schedule_type _ _ = false

-- ===== src/Schemas.antt =====
-- backend/schemas.py: the payloads and their validators.
use python_fastapi_poc.Prelude.{
  List, ℕ, zero, suc, ◌+◌, ◌-◌, ◌/◌, ◌%◌, ℤ, pos, negsuc, leb_ℤ, String, Bool, true, false, Option,
  none, some, str_eq, ltb, ◌&&◌, ◌||◌, not, if◌then◌else◌,
}
use Prim.Native.String.{◌++◌ as str_append}
use python_fastapi_poc.Domain.{
  ScheduleType, ActionType, JsonPrimitive, JsonObject, get, int_value, strip, eq_schedule_type,
}
use python_fastapi_poc.Env.{Env}
use python_fastapi_poc.Session.{
  Reason, Result, ok, raise, value_error, overflow_error, config_not_null, cron_missing,
  invalid_crontab, interval_missing, not_positive, echo_message, sleep_seconds, unsupported_key,
}

unfoldable pub digit : ℕ → String
digit zero = "0"
digit (suc zero) = "1"
digit (suc (suc zero)) = "2"
digit (suc (suc (suc zero))) = "3"
digit (suc (suc (suc (suc zero)))) = "4"
digit (suc (suc (suc (suc (suc zero))))) = "5"
digit (suc (suc (suc (suc (suc (suc zero)))))) = "6"
digit (suc (suc (suc (suc (suc (suc (suc zero))))))) = "7"
digit (suc (suc (suc (suc (suc (suc (suc (suc zero)))))))) = "8"
digit _ = "9"

-- `str(n)`: a number has at most as many digits as its value plus one.
unfoldable pub decimal : (fuel : ℕ) → ℕ → String
decimal zero n = ""
decimal (suc fuel) n =
    let front = decimal fuel (n / 10) in
    if ltb n 10 then digit n else str_append front (digit (n % 10))

-- `str(value)`
unfoldable pub to_str : Env → JsonPrimitive → String
unfolding decimal digit
to_str env (JsonPrimitive.str s) = s
to_str env (JsonPrimitive.int (pos n)) = decimal (suc n) n
to_str env (JsonPrimitive.int (negsuc n)) = str_append "-" (decimal (suc (suc n)) (suc n))
to_str env (JsonPrimitive.float f) = env.float_str f
to_str env (JsonPrimitive.bool true) = "True"
to_str env (JsonPrimitive.bool false) = "False"
to_str env JsonPrimitive.null = "None"

unfoldable pub check : Bool → Reason → Result (Unit {0})
check true e = ok tt
check false e = raise (value_error e)

check_crontab : Env → Option JsonPrimitive → Result (Unit {0})
check_crontab env none = raise (value_error cron_missing)
check_crontab env (some v) = check (env.is_crontab (to_str env v)) invalid_crontab

-- `isinstance(seconds, int) and low <= seconds`
unfoldable pub is_int_from : ℤ → JsonPrimitive → Bool
is_int_from low v = elim (int_value v) [ none ↦ false | some n ↦ leb_ℤ low n ]

check_interval : Option JsonPrimitive → Result (Unit {0})
check_interval none = raise (value_error interval_missing)
check_interval (some v) = check (is_int_from (pos 1) v) not_positive

unfoldable pub validate_routine_schedule :
    Env → ScheduleType → Option JsonObject → Result (Unit {0})
unfolding check check_crontab is_int_from check_interval
validate_routine_schedule env ScheduleType.manual none = ok tt
validate_routine_schedule env ScheduleType.manual (some cfg) = raise (value_error config_not_null)
validate_routine_schedule env ScheduleType.cron none = raise (value_error cron_missing)
validate_routine_schedule env ScheduleType.cron (some cfg) = check_crontab env (get cfg "cron")
validate_routine_schedule env ScheduleType.interval none = raise (value_error interval_missing)
validate_routine_schedule env ScheduleType.interval (some cfg) = check_interval (get cfg "seconds")

-- `isinstance(message, str) and message.strip()`
unfoldable pub is_text : Option JsonPrimitive → Bool
is_text (some (JsonPrimitive.str s)) = not (str_eq (strip s) "")
is_text _ = false

-- `config.get("seconds")` is None for a missing key, and None is no int.
unfoldable pub is_duration : Option JsonPrimitive → Bool
is_duration none = false
is_duration (some v) = is_int_from (pos 0) v

unfoldable pub validate_action_config : ActionType → JsonObject → Result (Unit {0})
unfolding check is_int_from is_text is_duration
validate_action_config ActionType.echo config = check (is_text (get config "message")) echo_message
validate_action_config ActionType.sleep config =
    check (is_duration (get config "seconds")) sleep_seconds

pub record ActionCreate : Type 0 where
  pub action_type : ActionType
  pub config : JsonObject
  pub position : Option ℤ

pub record ActionUpdate : Type 0 where
  pub action_type : Option ActionType
  pub config : Option JsonObject
  pub position : Option ℤ

pub record RoutineCreate : Type 0 where
  pub name : String
  pub description : Option String
  pub schedule_type : ScheduleType
  pub schedule_config : Option JsonObject
  pub is_active : Bool

-- Whether a field is in `model_fields_set`, with its value.
pub data Field (A : Type 0) : Type 0 where
  unset : Field A
  provided : Option A → Field A

abbrev pub value : {A : Type 0} → Field A → Option A
value unset = none
value (provided v) = v

abbrev pub is_provided : {A : Type 0} → Field A → Bool
is_provided unset = false
is_provided (provided v) = true

pub record RoutineUpdate : Type 0 where
  pub name : Option String
  pub description : Option String
  pub schedule_type : Field ScheduleType
  pub schedule_config : Field JsonObject
  pub is_active : Option Bool

-- `ActionCreate.validate_config`
unfoldable pub validate_action_create : ActionCreate → Result (Unit {0})
unfolding validate_action_config
validate_action_create payload = validate_action_config payload.action_type payload.config

validate_known : Option ActionType → Option JsonObject → Result (Unit {0})
validate_known (some t) (some config) = validate_action_config t config
validate_known _ _ = ok tt

-- `ActionUpdate.validate_config`
unfoldable pub validate_action_update : ActionUpdate → Result (Unit {0})
unfolding validate_known validate_action_config
validate_action_update payload = validate_known payload.action_type payload.config

-- `RoutineCreate.validate_schedule_config`
unfoldable pub validate_routine_create : Env → RoutineCreate → Result (Unit {0})
unfolding validate_routine_schedule
validate_routine_create env payload =
    validate_routine_schedule env payload.schedule_type payload.schedule_config

has_key : JsonObject → String → Bool
has_key config key = elim (get config key) [ none ↦ false | some _ ↦ true ]

validate_config_alone : Option JsonObject → Result (Unit {0})
validate_config_alone none = ok tt
validate_config_alone (some config) =
    check (has_key config "cron" || has_key config "seconds") unsupported_key

-- `RoutineUpdate.validate_schedule_config`
unfoldable pub validate_routine_update : Env → RoutineUpdate → Result (Unit {0})
unfolding validate_routine_schedule validate_config_alone has_key
validate_routine_update env payload = elim (value payload.schedule_type) [
  | some t ↦
      if eq_schedule_type t ScheduleType.manual && not (is_provided payload.schedule_config)
      then ok tt
      else validate_routine_schedule env t (value payload.schedule_config)
  | none ↦ validate_config_alone (value payload.schedule_config)
]

-- A datetime of a request: a reading of the wall clock in microseconds since year 1, and its
-- offset from UTC. `none` is a naive datetime.
pub data Offset : Type 0 where
  east west : ℕ → Offset

pub record Datetime : Type 0 where
  pub wall : ℕ
  pub tzinfo : Option Offset

-- `datetime.max`
abbrev pub max_wall : ℕ
max_wall = 315537897599999999

-- A UTC time before year 1 or after year 9999 is an OverflowError.
astimezone_utc : ℕ → Offset → Result ℕ
astimezone_utc wall (east o) = if ltb wall o then raise overflow_error else ok (wall - o)
astimezone_utc wall (west o) =
    if ltb max_wall (wall + o) then raise overflow_error else ok (wall + o)

normalise : Datetime → Result (Option ℕ)
normalise d = elim d.tzinfo [
  | none ↦ ok (some d.wall)
  | some o ↦ elim (astimezone_utc d.wall o) [ ok t ↦ ok (some t) | raise e ↦ raise e ]
]

-- `RunRequest.utc_scheduled_for`
unfoldable pub utc_scheduled_for : Option Datetime → Result (Option ℕ)
unfolding normalise astimezone_utc
utc_scheduled_for none = ok none
utc_scheduled_for (some d) = normalise d

pub record PageResponse (A : Type 0) : Type 0 where
  pub items : List A
  pub total : ℕ
  pub limit : ℤ
  pub offset : ℤ

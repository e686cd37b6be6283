-- ===== src/Scheduler.antt =====
-- backend/scheduler.py: the APScheduler wrapper. The jobs are kept in the `World`; APScheduler
-- itself is seen through `add_job` with `replace_existing`, `get_job` and `remove_job`.
pub mod Jobs
use python_fastapi_poc.Prelude.{
  ℕ, ℤ, pos, String, Bool, true, false, Option, none, some, List, [], ◌∷◌, ◌==◌, not, rows_where,
  first_where, if◌then◌else◌, or_else,
}
use python_fastapi_poc.Domain.{ScheduleType, JsonPrimitive, JsonObject, get, int_value}
use python_fastapi_poc.Models.{Routine}
use python_fastapi_poc.Env.{Env}
use python_fastapi_poc.Schemas.{to_str}
use python_fastapi_poc.Session.{
  Result, ok, raise, Exec, pure, lift, ◌>>=◌, World, Job, Trigger, cron_trigger, interval_trigger,
  value_error, overflow_error, invalid_cron_expression, integer_seconds,
}

pub record RoutineSchedulerSnapshot : Type 0 where
  pub id : ℕ
  pub is_active : Bool
  pub schedule_type : ScheduleType
  pub schedule_config : Option JsonObject

abbrev pub snapshot_of : Routine → RoutineSchedulerSnapshot
snapshot_of r = record {
  id = r.id;
  is_active = r.is_active;
  schedule_type = r.schedule_type;
  schedule_config = r.schedule_config;
}

cron_of : Env → ℕ → String → Result (Option Trigger)
cron_of env id expr =
    if env.is_crontab expr
    then ok (some (cron_trigger expr))
    else raise (value_error (invalid_cron_expression id expr))

interval_of : Env → Option ℤ → Result (Option Trigger)
interval_of env none = raise (value_error integer_seconds)
interval_of env (some n) =
    if env.timedelta_overflows n then raise overflow_error else ok (some (interval_trigger n))

-- The trigger that a schedule asks for; a manual routine has none.
unfoldable pub trigger_of : Env → ℕ → ScheduleType → Option JsonObject → Result (Option Trigger)
unfolding cron_of interval_of
trigger_of env id ScheduleType.cron config =
    cron_of env id (to_str env (or_else (get (or_else config []) "cron") (JsonPrimitive.str "")))
trigger_of env id ScheduleType.interval config =
    interval_of env
      (int_value (or_else (get (or_else config []) "seconds") (JsonPrimitive.int (pos 60))))
trigger_of env id ScheduleType.manual config = ok none

abbrev pub is_job : ℕ → Job → Bool
is_job id j = j.routine_id == id

-- `scheduler.get_job`
unfoldable pub get_job : ℕ → List Job → Option Job
get_job id jobs = first_where (is_job id) jobs

-- `scheduler.remove_job`
unfoldable pub remove_job : ℕ → List Job → List Job
remove_job id jobs = rows_where (λ j. not (is_job id j)) jobs

-- `scheduler.add_job(..., replace_existing=True)`
unfoldable pub add_job : Job → List Job → List Job
unfolding remove_job
add_job j jobs = j ∷ remove_job j.routine_id jobs

register_trigger : ℕ → ScheduleType → Option Trigger → Exec (Unit {0})
register_trigger id t none w = (ok tt, w)
register_trigger id t (some trigger) w = (
  ok tt,
  record w {
    jobs = add_job record { routine_id = id; trigger = trigger; schedule_type = t } w.jobs;
  },
)

unfoldable pub register_routine : Env → RoutineSchedulerSnapshot → Exec (Unit {0})
unfolding register_trigger
register_routine env r = do
  trigger ← lift (trigger_of env r.id r.schedule_type r.schedule_config)
  register_trigger r.id r.schedule_type trigger

-- `if scheduler.get_job(jid) is not None: scheduler.remove_job(jid)`
unfoldable pub unregister_routine : ℕ → Exec (Unit {0})
unregister_routine id w = elim (get_job id w.jobs) [
  | none ↦ (ok tt, w)
  | some j ↦ (ok tt, record w { jobs = remove_job id w.jobs })
]

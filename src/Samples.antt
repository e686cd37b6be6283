-- ===== src/Samples.antt =====
-- Small tables to run the model on.
mod Server
mod Identities
mod Logins
mod Starts
mod Credentials
mod Sequences
mod Accounts
mod Requests
mod Schedules
mod Runs
use python_fastapi_poc.Prelude.{ℕ, pos, true, none, some, List, [], ◌∷◌}
use python_fastapi_poc.Domain.{
  ScheduleType, ActionType, ExecutionStatus, ExecutionTrigger, ActionExecutionStatus, JsonPrimitive,
  JsonObject,
}
use python_fastapi_poc.Models.{Routine, Action, RoutineExecution, ActionExecution, Db}
use python_fastapi_poc.Session.{World, Job, interval_trigger}

abbrev pub greeting : JsonObject
greeting = ("message", JsonPrimitive.str "hello") ∷ []

abbrev pub pause : JsonObject
pause = ("seconds", JsonPrimitive.int (pos 3)) ∷ []

abbrev pub greet : Action
greet = record {
  id = 5;
  routine_id = 1;
  position = 1;
  action_type = ActionType.echo;
  config = greeting;
}

abbrev pub wait : Action
wait = record {
  id = 7;
  routine_id = 1;
  position = 2;
  action_type = ActionType.sleep;
  config = pause;
}

-- A routine that runs every ten seconds, and one that is run by hand.
abbrev pub timed : Routine
timed = record {
  id = 1;
  name = "timed";
  description = none;
  schedule_type = ScheduleType.interval;
  schedule_config = some (("seconds", JsonPrimitive.int (pos 10)) ∷ []);
  is_active = true;
  created_at = 1;
}

abbrev pub by_hand : Routine
by_hand = record {
  id = 2;
  name = "by hand";
  description = none;
  schedule_type = ScheduleType.manual;
  schedule_config = none;
  is_active = true;
  created_at = 2;
}

abbrev pub timed_job : Job
timed_job = record {
  routine_id = 1;
  trigger = interval_trigger (pos 10);
  schedule_type = ScheduleType.interval;
}

abbrev pub tables : Db
tables = record {
  routines = timed ∷ by_hand ∷ [];
  actions = wait ∷ greet ∷ [];
  executions = [];
  action_executions = [];
  users = [];
}

abbrev pub start : World
start = record {
  committed = tables;
  working = tables;
  jobs = timed_job ∷ [];
  effects = [];
  statements = 0;
  readings = 0;
  redis = [];
  commands = 0;
  draws = 0;
}

-- The first action has been run once.
abbrev pub past_run : RoutineExecution
past_run = record {
  id = 3;
  routine_id = 1;
  status = ExecutionStatus.completed;
  triggered_by = ExecutionTrigger.interval;
  queued_at = 10;
  scheduled_for = 10;
  started_at = some 11;
  completed_at = some 12;
}

abbrev pub past_step : ActionExecution
past_step = record {
  id = 4;
  execution_id = 3;
  action_id = 5;
  position = 1;
  action_type = ActionType.echo;
  config = greeting;
  status = ActionExecutionStatus.completed;
  started_at = some 11;
  completed_at = some 12;
}

abbrev pub after_run : World
after_run =
    let db : Db = record tables {
      executions = past_run ∷ [];
      action_executions = past_step ∷ [];
    } in
    record start { committed = db; working = db }

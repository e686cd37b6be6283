-- ===== src/Queries.antt =====
-- backend/routine_services.py, the queries of the executions that the pages show. A joined load is
-- one statement with its rows' routines and action executions.
pub mod Active
use python_fastapi_poc.Schemas.{max_wall}
use python_fastapi_poc.Prelude.{
  negsuc, ◌||◌, suc, ◌+◌, ℕ, zero, suc, ◌+◌, ◌-◌, ◌*◌, ℤ, pos, String, Bool, true, false, Option,
  none, some, List, [], ◌∷◌, map, str_eq, ltb, leb, ◌==◌, ◌&&◌, if◌then◌else◌, rows_where, length,
}
use python_fastapi_poc.Domain.{
  ActionType, ExecutionStatus, ExecutionTrigger, ActionExecutionStatus, JsonObject,
}
use python_fastapi_poc.Models.{Routine, RoutineExecution, ActionExecution, Db}
use python_fastapi_poc.Env.{Env}
use python_fastapi_poc.Session.{
  Result, ok, raise, Exec, pure, lift, select, read_clock, one_or_none, overflow_error,
  attribute_error, ◌>>=◌, ◌>>◌,
}
use python_fastapi_poc.Routines.{get_row, matches, page}

pub record ActionExecutionRow : Type 0 where
  pub id : ℕ
  pub action_id : ℕ
  pub position : ℕ
  pub action_type : ActionType
  pub config : JsonObject
  pub status : ActionExecutionStatus
  pub started_at : Option ℕ
  pub completed_at : Option ℕ

pub record ExecutionRow : Type 0 where
  pub id : ℕ
  pub routine_id : ℕ
  pub routine_name : String
  pub status : ExecutionStatus
  pub triggered_by : ExecutionTrigger
  pub queued_at : ℕ
  pub scheduled_for : ℕ
  pub started_at : Option ℕ
  pub completed_at : Option ℕ

-- A row with its action executions.
pub record ActiveExecutionRow : Type 0 where
  pub execution : ExecutionRow
  pub action_executions : List ActionExecutionRow

abbrev pub step_row : ActionExecution → ActionExecutionRow
step_row x = record {
  id = x.id;
  action_id = x.action_id;
  position = x.position;
  action_type = x.action_type;
  config = x.config;
  status = x.status;
  started_at = x.started_at;
  completed_at = x.completed_at;
}

abbrev pub execution_row : RoutineExecution → Routine → ExecutionRow
execution_row e r = record {
  id = e.id;
  routine_id = e.routine_id;
  routine_name = r.name;
  status = e.status;
  triggered_by = e.triggered_by;
  queued_at = e.queued_at;
  scheduled_for = e.scheduled_for;
  started_at = e.started_at;
  completed_at = e.completed_at;
}

-- `r.routine.name` of an execution whose routine is not there.
with_routine : RoutineExecution → Option Routine → Result ExecutionRow
with_routine e none = raise attribute_error
with_routine e (some r) = ok (execution_row e r)

-- `sorted(r.action_executions, key=lambda x: x.position)`, which is stable.
insert_step : ActionExecution → List ActionExecution → List ActionExecution
insert_step x [] = x ∷ []
insert_step x (y ∷ ys) =
    let rest = insert_step x ys in if leb x.position y.position then x ∷ y ∷ ys else y ∷ rest

unfoldable pub sort_steps : List ActionExecution → List ActionExecution
unfolding insert_step
sort_steps [] = []
sort_steps (x ∷ xs) = insert_step x (sort_steps xs)

with_steps : List ActionExecution → Result ExecutionRow → Result ActiveExecutionRow
with_steps steps (raise e) = raise e
with_steps steps (ok row) =
    ok record { execution = row; action_executions = map step_row (sort_steps steps) }

and_row : {A : Type 0} → Result A → Result (List A) → Result (List A)
and_row (raise e) rest = raise e
and_row (ok a) (raise e) = raise e
and_row (ok a) (ok rest) = ok (a ∷ rest)

-- A row for each, or the first exception.
unfoldable pub rows_of : {A B : Type 0} → (A → Result B) → List A → Result (List B)
unfolding and_row
rows_of f [] = ok []
rows_of f (x ∷ xs) = let rest = rows_of f xs in and_row (f x) rest

unfoldable pub joined : Db → RoutineExecution → Result ExecutionRow
unfolding with_routine
joined db e = with_routine e (get_row e.routine_id db.routines)

unfoldable pub loaded : Db → RoutineExecution → Result ActiveExecutionRow
unfolding with_steps joined sort_steps
loaded db e =
    with_steps (rows_where (λ x. x.execution_id == e.id) db.action_executions) (joined db e)

abbrev pub is_active_status : ExecutionStatus → Bool
is_active_status ExecutionStatus.queued = true
is_active_status ExecutionStatus.running = true
is_active_status _ = false

abbrev pub is_ended_status : ExecutionStatus → Bool
is_ended_status ExecutionStatus.completed = true
is_ended_status ExecutionStatus.failed = true
is_ended_status _ = false

-- The optional conditions of the history.
abbrev pub of_given_routine : Option ℕ → RoutineExecution → Bool
of_given_routine none e = true
of_given_routine (some id) e = e.routine_id == id

abbrev pub is_blank : Option String → Bool
is_blank none = true
is_blank (some s) = str_eq s ""

unfoldable pub matches_routine : Env → Option String → Option Routine → Bool
matches_routine env search none = is_blank search
matches_routine env search (some r) = matches env search r.name

abbrev pub is_since : Option ℕ → RoutineExecution → Bool
is_since none e = true
is_since (some cutoff) e = leb cutoff e.queued_at

unfoldable pub in_history : Env → Option ℕ → Option String → Option ℕ → Db → RoutineExecution → Bool
unfolding matches_routine
in_history env routine_id search cutoff db e =
    is_ended_status e.status
    && of_given_routine routine_id e
    && matches_routine env search (get_row e.routine_id db.routines)
    && is_since cutoff e

-- `datetime.now(UTC) - timedelta(minutes=...)`, in microseconds.
minutes_before : Env → ℕ → ℤ → Result ℕ
minutes_before env now (pos m) =
    if env.timedelta_overflows (pos (m * 60)) || ltb now (m * 60000000)
    then raise overflow_error
    else ok (now - m * 60000000)
minutes_before env now (negsuc m) =
    if env.timedelta_overflows (negsuc (m * 60 + 59)) || ltb max_wall (now + suc m * 60000000)
    then raise overflow_error
    else ok (now + suc m * 60000000)

module _ (env : Env) where
  unfoldable pub get_active_executions : Exec (List ActiveExecutionRow)
  unfolding loaded
  get_active_executions = do
    rows ← select env λ db. rows_of (loaded db) (
        env.asc RoutineExecution (λ e. e.scheduled_for)
          (rows_where (λ e. is_active_status e.status) db.executions))
    lift rows

  detail : Db → Option RoutineExecution → Exec (Option ActiveExecutionRow)
  detail db none = pure none
  detail db (some e) = do row ← lift (loaded db e); pure (some row)

  unfoldable pub get_execution_detail : ℕ → Exec (Option ActiveExecutionRow)
  unfolding detail
  get_execution_detail id = do
    (rows, db) ← select env λ db. (rows_where (λ e. e.id == id) db.executions, db)
    found ← one_or_none rows
    detail db found

  cutoff_of : Option ℤ → Exec (Option ℕ)
  unfolding minutes_before
  cutoff_of none = pure none
  cutoff_of (some minutes) = do
    now ← read_clock env
    cutoff ← lift (minutes_before env now minutes)
    pure (some cutoff)

  unfoldable pub get_execution_history :
      ℤ → ℤ → Option ℕ → Option String → Option ℤ → Exec (List ExecutionRow × ℕ)
  unfolding cutoff_of
  get_execution_history limit offset routine_id search since_minutes = do
    cutoff ← cutoff_of since_minutes
    total ←
        select env
          λ db. length (rows_where (in_history env routine_id search cutoff db) db.executions)
    (rows, db) ← select env λ db. (
      env.desc RoutineExecution (λ e. e.queued_at)
          (rows_where (in_history env routine_id search cutoff db) db.executions),
      db,
    )
    results ← lift (page limit offset rows)
    items ← lift (rows_of (joined db) results)
    pure (items, total)

-- ===== src/Executor.antt =====
-- backend/execution_engine.py, `RoutineExecutor`: each step opens its own session, and a step that
-- only records progress swallows its exceptions.
pub mod Totals
pub mod Effects
pub mod Configs
use python_fastapi_poc.Prelude.{
  ℕ, ℤ, pos, negsuc, leb_ℤ, String, Bool, true, false, Option, none, some, List, [], ◌∷◌, ◌++◌, map,
  str_eq, ◌==◌, if◌then◌else◌, rows_where, first_where,
}
use python_fastapi_poc.Domain.{
  ActionType, ExecutionStatus, ExecutionTrigger, ActionExecutionStatus, JsonPrimitive, JsonObject,
  get, strip,
}
use python_fastapi_poc.Models.{Action, RoutineExecution, ActionExecution, Db}
use python_fastapi_poc.Env.{Env}
use python_fastapi_poc.Schemas.{to_str}
use python_fastapi_poc.Session.{
  Result, ok, raise, Exec, World, Effect, slept, echoed, pure, catch, lift, modify, with_session,
  select, commit, refresh, read_clock, ◌>>=◌, ◌>>◌, value_error, key_error, overflow_error,
  seconds_missing, seconds_type, not_an_integer, negative_sleep,
}

abbrev pub get_execution : ℕ → List RoutineExecution → Option RoutineExecution
get_execution id executions = first_where (λ e. e.id == id) executions

abbrev pub on_executions : (List RoutineExecution → List RoutineExecution) → Db → Db
on_executions change db = record db { executions = change db.executions }

-- The row with a key, changed.
unfoldable pub change_execution :
    ℕ → (RoutineExecution → RoutineExecution) → List RoutineExecution → List RoutineExecution
change_execution id change = map (λ e. if e.id == id then change e else e)

abbrev pub on_steps : (List ActionExecution → List ActionExecution) → Db → Db
on_steps change db = record db { action_executions = change db.action_executions }

unfoldable pub change_step :
    ℕ → (ActionExecution → ActionExecution) → List ActionExecution → List ActionExecution
change_step id change = map (λ x. if x.id == id then change x else x)

-- `int(raw)` of the config's "seconds", after its checks.
unfoldable pub seconds_of : Env → Option JsonPrimitive → Result ℤ
seconds_of env none = raise (value_error seconds_missing)
seconds_of env (some JsonPrimitive.null) = raise (value_error seconds_missing)
seconds_of env (some (JsonPrimitive.str s)) =
    if str_eq (strip s) ""
    then raise (value_error seconds_missing)
    else elim (env.int_of_str s) [ none ↦ raise (value_error not_an_integer) | some n ↦ ok n ]
seconds_of env (some (JsonPrimitive.int n)) = ok n
seconds_of env (some (JsonPrimitive.bool true)) = ok (pos 1)
seconds_of env (some (JsonPrimitive.bool false)) = ok (pos 0)
seconds_of env (some (JsonPrimitive.float f)) = raise (value_error seconds_type)

-- `str(action.config["message"])`
unfoldable pub message_of : Env → Option JsonPrimitive → Result String
message_of env none = raise (key_error "message")
message_of env (some v) = ok (to_str env v)

-- `time.sleep` takes no negative number and none that is too large.
slept_for : Env → ℤ → Result Effect
slept_for env n =
    if leb_ℤ (pos 0) n
    then if env.sleep_overflows n then raise overflow_error else ok (slept n)
    else raise (value_error negative_sleep)

and_slept : Env → Result ℤ → Result Effect
and_slept env (ok n) = slept_for env n
and_slept env (raise e) = raise e

as_echo : Result String → Result Effect
as_echo (ok s) = ok (echoed s)
as_echo (raise e) = raise e

-- What an action does, or how it fails.
unfoldable pub effect_of : Env → ActionType → JsonObject → Result Effect
unfolding seconds_of message_of slept_for and_slept as_echo
effect_of env ActionType.sleep config = and_slept env (seconds_of env (get config "seconds"))
effect_of env ActionType.echo config = as_echo (message_of env (get config "message"))

abbrev pub record_effect : Effect → Exec (Unit {0})
record_effect x w = (ok tt, record w { effects = w.effects ++ x ∷ [] })

-- `{row.action_id: row.id for row in rows}`, and its `get`: a later entry replaces an earlier one.
unfoldable pub entry : List (ℕ × ℕ) → ℕ → Option ℕ
entry [] key = none
entry ((k, v) ∷ entries) key = elim (entry entries key) [
  | some u ↦ some u
  | none ↦ if k == key then some v else none
]

-- How the `try` block ends: with the action execution that was current if it raised.
pub data Outcome : Type 0 where
  finished : Outcome
  stopped : (current : Option ℕ) → Outcome

abbrev pub started : ℕ → ActionExecution → ActionExecution
started now x = record x { status = ActionExecutionStatus.running; started_at = some now }

abbrev pub ended : ActionExecutionStatus → ℕ → ActionExecution → ActionExecution
ended status now x = record x { status = status; completed_at = some now }

abbrev pub mark : ActionExecutionStatus → ℕ → ActionExecution → ActionExecution
mark ActionExecutionStatus.pending now x = record x { status = ActionExecutionStatus.pending }
mark ActionExecutionStatus.running now x = started now x
mark ActionExecutionStatus.completed now x = ended ActionExecutionStatus.completed now x
mark ActionExecutionStatus.failed now x = ended ActionExecutionStatus.failed now x

module _ (env : Env) where
  unfoldable pub load_actions : ℕ → Exec (List Action)
  load_actions routine_id = with_session (
      select env λ db.
        env.asc Action (λ a. a.position) (rows_where (λ a. a.routine_id == routine_id) db.actions))

  add_step : ℕ → Action → Exec ℕ
  add_step execution_id a w =
      let id = env.new_id w.statements (map (λ x. x.id) w.working.action_executions) in
      let row : ActionExecution = record {
        id = id;
        execution_id = execution_id;
        action_id = a.id;
        position = a.position;
        action_type = a.action_type;
        config = a.config;
        status = ActionExecutionStatus.pending;
        started_at = none;
        completed_at = none;
      } in
      (ok id, record w { working = on_steps (λ l. l ++ row ∷ []) w.working })

  add_steps : ℕ → List Action → Exec (List ℕ)
  unfolding add_step
  add_steps execution_id [] = pure []
  add_steps execution_id (a ∷ actions) = do
    id ← add_step execution_id a
    ids ← add_steps execution_id actions
    pure (id ∷ ids)

  refresh_steps : List ℕ → Exec (List (ℕ × ℕ))
  refresh_steps [] = pure []
  refresh_steps (id ∷ ids) = do
    row ← refresh env (λ db. first_where (λ x. x.id == id) db.action_executions)
    rest ← refresh_steps ids
    pure ((row.action_id, row.id) ∷ rest)

  store_steps : ℕ → List Action → Exec (List (ℕ × ℕ))
  unfolding add_steps refresh_steps
  store_steps execution_id actions = do
    ids ← add_steps execution_id actions
    commit env
    refresh_steps ids

  unfoldable pub create_pending_action_executions : ℕ → List Action → Exec (List (ℕ × ℕ))
  unfolding store_steps
  create_pending_action_executions execution_id actions =
      catch (with_session (store_steps execution_id actions)) (λ e. pure [])

  store_mark : ℕ → ActionExecutionStatus → Option ActionExecution → Exec (Unit {0})
  store_mark id status none = pure tt
  store_mark id status (some x) = do
    now ← read_clock env
    modify (on_steps (change_step id (mark status now)))
    commit env

  mark_step : ℕ → ActionExecutionStatus → Exec (Unit {0})
  unfolding store_mark
  mark_step id status = do
    row ← select env (λ db. first_where (λ x. x.id == id) db.action_executions)
    store_mark id status row

  unfoldable pub update_action_execution_status : Option ℕ → ActionExecutionStatus → Exec (Unit {0})
  unfolding mark_step
  update_action_execution_status none status = pure tt
  update_action_execution_status (some id) status =
      catch (with_session (mark_step id status)) (λ e. pure tt)

  store_status : ℕ → ExecutionStatus → Option RoutineExecution → Exec (Unit {0})
  store_status id status none = pure tt
  store_status id status (some e) = do
    now ← read_clock env
    modify (
        on_executions
          (change_execution id λ x. record x { status = status; completed_at = some now }))
    commit env

  set_status : ℕ → ExecutionStatus → Exec (Unit {0})
  unfolding store_status
  set_status id status = do
    row ← select env (λ db. get_execution id db.executions)
    store_status id status row

  unfoldable pub update_execution_status : ℕ → ExecutionStatus → Exec (Unit {0})
  unfolding set_status
  update_execution_status id status = catch (with_session (set_status id status)) (λ e. pure tt)

  perform : Action → Exec (Unit {0})
  perform a = do x ← lift (effect_of env a.action_type a.config); record_effect x

  -- One turn of the `for` loop.
  run_action : Option ℕ → Action → Exec (Unit {0})
  unfolding perform
  run_action current a = do
    update_action_execution_status current ActionExecutionStatus.running
    perform a
    update_action_execution_status current ActionExecutionStatus.completed

  -- The rest of the loop, unless a turn has raised.
  continue : Exec Outcome → Outcome → Exec Outcome
  continue rest finished = rest
  continue rest (stopped current) = pure (stopped current)

  turn : Option ℕ → Action → Exec Outcome
  unfolding run_action
  turn current a = catch (run_action current a >> pure finished) (λ e. pure (stopped current))

  run_actions : List (ℕ × ℕ) → List Action → Exec Outcome
  unfolding turn continue
  run_actions ids [] = pure finished
  run_actions ids (a ∷ actions) =
      let rest = run_actions ids actions in turn (entry ids a.id) a >>= continue rest

  attempt : ℕ → ℕ → Exec Outcome
  unfolding run_actions
  attempt routine_id execution_id = do
    actions ← load_actions routine_id
    ids ← create_pending_action_executions execution_id actions
    run_actions ids actions

  conclude : ℕ → Outcome → Exec (Unit {0})
  conclude execution_id finished = update_execution_status execution_id ExecutionStatus.completed
  conclude execution_id (stopped current) = do
    update_action_execution_status current ActionExecutionStatus.failed
    update_execution_status execution_id ExecutionStatus.failed

  -- `run`: what raises outside of the loop has no current action execution.
  unfoldable pub run : ℕ → ExecutionTrigger → ℕ → Exec (Unit {0})
  unfolding attempt conclude
  run routine_id triggered_by execution_id =
      catch (attempt routine_id execution_id) (λ e. pure (stopped none)) >>= conclude execution_id

-- ===== src/Routes.antt =====
-- backend/routine_routes.py: the requests on routines and actions. A dependency loads the row before
-- the body is validated; a handler runs in the same session.
pub mod Ordered
pub mod Conflicts
pub mod Guarded
use python_fastapi_poc.Prelude.{
  ℕ, ℤ, String, Bool, Option, none, some, List, [], ◌∷◌, rows_where, first_where, ◌==◌,
}
use python_fastapi_poc.Domain.{ExecutionTrigger, strip}
use python_fastapi_poc.Models.{Routine, Action}
use python_fastapi_poc.Env.{Env}
use python_fastapi_poc.Schemas.{
  ActionCreate, ActionUpdate, RoutineCreate, RoutineUpdate, PageResponse, validate_routine_create,
  Datetime, validate_action_create, validate_action_update, validate_routine_update,
  utc_scheduled_for,
}
use python_fastapi_poc.Session.{
  Result, ok, raise, Exception, Exec, pure, throw, catch, lift, select, with_session, value_error,
  http_exception, ◌>>=◌, ◌>>◌,
}
use python_fastapi_poc.Identity.{Identity}
use python_fastapi_poc.Security.{require_authenticated_user}
use python_fastapi_poc.Routines.{
  get_routine, update_routine, delete_routine, create_routine, list_routines, get_routine_by_name,
}
use python_fastapi_poc.Actions.{
  list_actions, create_action, update_action, reorder_actions, delete_action,
}
use python_fastapi_poc.Queue.{enqueue_routine_run}
use python_fastapi_poc.Queries.{
  ActiveExecutionRow, ExecutionRow, get_execution_detail, get_active_executions,
  get_execution_history,
}

-- `except ValueError as err: raise HTTPException(422)`
unprocessable : {A : Type 0} → Exception → Exec A
unprocessable (value_error reason) = throw (http_exception 422)
unprocessable e = throw e

abbrev as_422 : {A : Type 0} → Exec A → Exec A
as_422 body = catch body unprocessable

or_404 : {A : Type 0} → Option A → Exec A
or_404 none = throw (http_exception 404)
or_404 (some a) = pure a

-- What the framework makes of a handler's outcome: the status of the response.
unfoldable pub status_of : {A : Type 0} → ℕ → Result A → ℕ
status_of success (ok a) = success
status_of success (raise (http_exception status)) = status
status_of success (raise e) = 500

module _ (env : Env) where
  pub get_routine_or_404 : ℕ → Exec Routine
  unfolding or_404
  get_routine_or_404 id = get_routine env id >>= or_404

  pub get_action_or_404 : ℕ → Exec Action
  unfolding or_404
  get_action_or_404 id = do
    row ← select env (λ db. first_where (λ a. a.id == id) db.actions)
    or_404 row

  -- `RoutineResponse.model_validate` reads the routine's actions.
  routine_response : Routine → Exec (Routine × List Action)
  routine_response routine = do actions ← list_actions env routine.id; pure (routine, actions)

  routine_responses : List Routine → Exec (List (Routine × List Action))
  unfolding routine_response
  routine_responses [] = pure []
  routine_responses (r ∷ routines) = do
    response ← routine_response r
    responses ← routine_responses routines
    pure (response ∷ responses)

  unfoldable pub list_routines_handler :
      (search : Option String) (limit offset : ℤ) → Exec (PageResponse (Routine × List Action))
  unfolding routine_responses
  list_routines_handler search limit offset = with_session (do
    (routines, total) ← list_routines env search limit offset
    items ← routine_responses routines
    pure record { items = items; total = total; limit = limit; offset = offset })

  -- A routine is always true.
  create_unless : RoutineCreate → Option Routine → Exec (Routine × List Action)
  unfolding routine_response
  create_unless payload (some existing) = throw (http_exception 409)
  create_unless payload none = create_routine env payload >>= routine_response

  unfoldable pub get_routine_handler : ℕ → Exec (Routine × List Action)
  unfolding routine_response
  get_routine_handler id = with_session (get_routine_or_404 id >>= routine_response)

  unfoldable pub list_actions_handler : ℕ → Exec (List Action)
  list_actions_handler id =
      with_session (get_routine_or_404 id >>= λ routine. list_actions env routine.id)

  update_loaded : ActionUpdate → Action → Exec Action
  unfolding unprocessable
  update_loaded payload action =
      as_422 (lift (validate_action_update payload) >> update_action env action payload)

  unfoldable pub get_execution_handler : ℕ → Exec ActiveExecutionRow
  unfolding or_404
  get_execution_handler id = with_session (get_execution_detail env id >>= or_404)

  unfoldable pub active_executions_handler : Exec (List ActiveExecutionRow)
  active_executions_handler = with_session (get_active_executions env)

  unfoldable pub history_handler :
      (limit offset : ℤ) (routine_id : Option ℕ) (search : Option String) (since_minutes : Option ℤ)
      → Exec (PageResponse ExecutionRow)
  history_handler limit offset routine_id search since_minutes = with_session (do
    (rows, total) ← get_execution_history env limit offset routine_id search since_minutes
    pure record { items = rows; total = total; limit = limit; offset = offset })

  -- The requests that write depend on the user, whose credentials are a cookie and a header.
  module _ (identity : Identity) (access_token authorization : Option String) where
    -- `WriteDep`
    abbrev user : Exec String
    user = require_authenticated_user env identity access_token authorization

    unfoldable pub create_routine_handler : RoutineCreate → Exec (Routine × List Action)
    unfolding create_unless unprocessable
    create_routine_handler payload = with_session (do
      user
      as_422 (lift (validate_routine_create env payload))
      existing ← get_routine_by_name env (strip payload.name)
      create_unless payload existing)

    unfoldable pub update_routine_handler : ℕ → RoutineUpdate → Exec (Routine × List Action)
    unfolding routine_response unprocessable
    update_routine_handler id payload = with_session (
        get_routine_or_404 id >>= λ routine.
        user
        >> as_422 (
            lift (validate_routine_update env payload)
            >> (update_routine env routine payload >>= routine_response)))

    unfoldable pub delete_routine_handler : ℕ → Exec (Unit {0})
    delete_routine_handler id =
        with_session (get_routine_or_404 id >>= λ routine. user >> delete_routine env routine)

    unfoldable pub create_action_handler : ℕ → ActionCreate → Exec Action
    unfolding unprocessable
    create_action_handler id payload = with_session (
        get_routine_or_404 id >>= λ routine.
        user
        >> as_422 (lift (validate_action_create payload) >> create_action env routine.id payload))

    unfoldable pub reorder_actions_handler : ℕ → List ℕ → Exec (List Action)
    unfolding unprocessable
    reorder_actions_handler id action_ids = with_session (
        get_routine_or_404 id >>= λ routine.
        user >> as_422 (reorder_actions env routine action_ids))

    unfoldable pub run_now_handler : ℕ → Option Datetime → Exec ℕ
    run_now_handler id body = with_session (
        get_routine_or_404 id >>= λ routine.
        user
        >> (lift (utc_scheduled_for body)
            >>= enqueue_routine_run env routine.id ExecutionTrigger.manual))

    unfoldable pub update_action_handler : ℕ → ActionUpdate → Exec Action
    unfolding update_loaded
    update_action_handler id payload =
        with_session (get_action_or_404 id >>= λ action. user >> update_loaded payload action)

    unfoldable pub delete_action_handler : ℕ → Exec (Unit {0})
    delete_action_handler id =
        with_session (get_action_or_404 id >>= λ action. user >> delete_action env action)

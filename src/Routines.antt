-- ===== src/Routines.antt =====
-- backend/routine_services.py, the routine operations.

pub mod Synced
pub mod Create
pub mod Delete
pub mod Schedule
pub mod Update
use python_fastapi_poc.Prelude.{
  ℕ, suc, ℤ, pos, negsuc, String, Bool, true, false, Option, none, some, List, [], ◌∷◌, ◌++◌, map,
  str_eq, eq_ℤ, ◌==◌, ◌&&◌, ◌||◌, not, any, all, rows_where, first_where, length, take, drop,
  if◌then◌else◌, or_else,
}
use python_fastapi_poc.Domain.{
  ScheduleType, JsonPrimitive, JsonObject, get, int_value, eq_schedule_type,
}
use python_fastapi_poc.Models.{Routine, Action, RoutineExecution, ActionExecution, Db}
use python_fastapi_poc.Env.{Env}
use python_fastapi_poc.Schemas.{
  RoutineCreate, RoutineUpdate, Field, unset, provided, value, is_provided,
  validate_routine_schedule,
}
use python_fastapi_poc.Session.{
  Result, ok, raise, Exception, Exec, World, pure, throw, catch, lift, ◌>>=◌, ◌>>◌, modify,
  statement, select, execute, flush, commit, rollback, refresh, one_or_none, value_error,
  database_error, schedule_type_null,
}
use python_fastapi_poc.Scheduler.{
  RoutineSchedulerSnapshot, snapshot_of, register_routine, unregister_routine,
}

abbrev pub get_row : ℕ → List Routine → Option Routine
get_row id routines = first_where (λ r. r.id == id) routines

abbrev pub on_routines : (List Routine → List Routine) → Db → Db
on_routines change db = record db { routines = change db.routines }

-- LIMIT and OFFSET: the server refuses negative ones.
unfoldable pub page : {A : Type 0} → ℤ → ℤ → List A → Result (List A)
page (pos limit) (pos offset) rows = ok (take limit (drop offset rows))
page _ _ rows = raise database_error

-- `if search: stmt.where(name.ilike(...))`: the empty text does not filter.
unfoldable pub matches : Env → Option String → String → Bool
matches env none name = true
matches env (some search) name = str_eq search "" || env.ilike search name

-- `==` of two JSON values: numbers and truth values compare as numbers.
eq_numbers : Env → Option ℤ → JsonPrimitive → Option ℤ → JsonPrimitive → Bool
eq_numbers env (some a) _ (some b) _ = eq_ℤ a b
eq_numbers env (some a) _ none (JsonPrimitive.float f) = env.float_eq_int f a
eq_numbers env none (JsonPrimitive.float f) (some b) _ = env.float_eq_int f b
eq_numbers env none (JsonPrimitive.float f) none (JsonPrimitive.float g) = env.float_eq f g
eq_numbers env none (JsonPrimitive.str s) none (JsonPrimitive.str t) = str_eq s t
eq_numbers env none JsonPrimitive.null none JsonPrimitive.null = true
eq_numbers env _ _ _ _ = false

unfoldable pub eq_primitive : Env → JsonPrimitive → JsonPrimitive → Bool
unfolding eq_numbers
eq_primitive env a b = eq_numbers env (int_value a) a (int_value b) b

eq_values : Env → Option JsonPrimitive → Option JsonPrimitive → Bool
eq_values env none none = true
eq_values env (some a) (some b) = eq_primitive env a b
eq_values env _ _ = false

-- `==` of two dicts: the same keys, with equal values.
unfoldable pub eq_object : Env → JsonObject → JsonObject → Bool
unfolding eq_values eq_primitive
eq_object env a b = all (λ k. eq_values env (get a k) (get b k)) (map (λ e. e.0) (a ++ b))

unfoldable pub eq_config : Env → Option JsonObject → Option JsonObject → Bool
unfolding eq_object
eq_config env none none = true
eq_config env (some a) (some b) = eq_object env a b
eq_config env _ _ = false

-- What the scheduler was told: the local `scheduler_action`.
pub data SchedulerAction : Type 0 where
  unregister register replace : SchedulerAction

abbrev pub is_manual : ScheduleType → Bool
is_manual t = eq_schedule_type t ScheduleType.manual

-- `next_schedule_type`, none if it is null.
unfoldable pub next_schedule_type : Routine → RoutineUpdate → Option ScheduleType
next_schedule_type r payload =
    if is_provided payload.schedule_type then value payload.schedule_type else some r.schedule_type

given_manual : Field ScheduleType → Bool
given_manual unset = false
given_manual (provided none) = false
given_manual (provided (some t)) = is_manual t

unfoldable pub next_schedule_config : Routine → RoutineUpdate → Option JsonObject
unfolding given_manual
next_schedule_config r payload =
    if given_manual payload.schedule_type
    then none
    else if is_provided payload.schedule_config
    then value payload.schedule_config
    else r.schedule_config

-- The assignments to the routine's columns.
unfoldable pub assign_fields : Routine → RoutineUpdate → ScheduleType → Routine
assign_fields r payload next_type = record r {
  name = or_else payload.name r.name;
  description = elim payload.description [ none ↦ r.description | some d ↦ some d ];
  schedule_type = if is_provided payload.schedule_type then next_type else r.schedule_type;
  schedule_config =
      if is_provided payload.schedule_type && is_manual next_type
      then none
      else if is_provided payload.schedule_config
      then value payload.schedule_config
      else r.schedule_config;
  is_active = or_else payload.is_active r.is_active;
}

-- The row with the routine's key.
unfoldable pub set_row : Routine → List Routine → List Routine
set_row r = map (λ s. if s.id == r.id then r else s)

-- cascade="all, delete-orphan": the routine's actions.
unfoldable pub delete_actions : ℕ → Db → Db
delete_actions id db = record db { actions = rows_where (λ a. not (a.routine_id == id)) db.actions }

-- cascade="all, delete-orphan" of an execution: the action executions of the routine's executions.
unfoldable pub delete_action_executions : ℕ → Db → Db
delete_action_executions id db = record db {
  action_executions =
      rows_where
        (λ x. not (any (λ e. (e.id == x.execution_id) && (e.routine_id == id)) db.executions))
        db.action_executions;
}

-- cascade="all, delete-orphan": the routine's executions with the rows of theirs, and the routine.
unfoldable pub delete_executions : ℕ → Db → Db
unfolding delete_action_executions
delete_executions id db = record (delete_action_executions id db) {
  routines = rows_where (λ r. not (r.id == id)) db.routines;
  executions = rows_where (λ e. not (e.routine_id == id)) db.executions;
}

module _ (env : Env) where
  unfoldable pub list_routines : Option String → ℤ → ℤ → Exec (List Routine × ℕ)
  list_routines search limit offset = do
    total ← select env λ db. length (rows_where (λ r. matches env search r.name) db.routines)
    rows ← select env λ db.
        env.desc Routine (λ r. r.created_at)
          (rows_where (λ r. matches env search r.name) db.routines)
    items ← lift (page limit offset rows)
    pure (items, total)

  -- `session.add` and what the commit's flush draws: the key and the time of creation.
  pub add_routine : RoutineCreate → Exec ℕ
  add_routine payload w =
      let id = env.new_id w.statements (map (λ r. r.id) w.working.routines) in
      let row : Routine = record {
        id = id;
        name = payload.name;
        description = payload.description;
        schedule_type = payload.schedule_type;
        schedule_config = payload.schedule_config;
        is_active = payload.is_active;
        created_at = env.now w.readings;
      } in
      (
        ok id,
        record w {
          working = on_routines (λ l. l ++ row ∷ []) w.working;
          readings = suc w.readings;
        },
      )

  pub refresh_routine : ℕ → Exec Routine
  refresh_routine id = refresh env (λ db. get_row id db.routines)

  -- `if routine.is_active and routine.schedule_type != "manual"`
  pub register_if_active : Routine → Exec (Unit {0})
  register_if_active routine =
      if routine.is_active && not (is_manual routine.schedule_type)
      then register_routine env (snapshot_of routine)
      else pure tt

  unfoldable pub create_routine : RoutineCreate → Exec Routine
  unfolding add_routine refresh_routine register_if_active
  create_routine payload = do
    id ← add_routine payload
    commit env
    routine ← refresh_routine id
    register_if_active routine
    pure routine

  unfoldable pub get_routine : ℕ → Exec (Option Routine)
  get_routine id = select env (λ db. get_row id db.routines)

  unfoldable pub get_routine_by_name : String → Exec (Option Routine)
  get_routine_by_name name = do
    rows ← select env λ db. rows_where (λ r. str_eq (env.lower r.name) (env.lower name)) db.routines
    one_or_none rows

  -- The job for the new state, and what was done for it.
  pub sync_scheduler : RoutineSchedulerSnapshot → Routine → Exec (Option SchedulerAction)
  sync_scheduler snapshot r =
      if snapshot.is_active && not r.is_active
      then unregister_routine r.id >> pure (some unregister)
      else if not snapshot.is_active && r.is_active
      then (if not (is_manual r.schedule_type)
          then register_routine env (snapshot_of r) >> pure (some register)
          else pure none)
      else if r.is_active
          && not (
              eq_schedule_type r.schedule_type snapshot.schedule_type
              && eq_config env r.schedule_config snapshot.schedule_config)
          && not (is_manual r.schedule_type)
      then register_routine env (snapshot_of r) >> pure (some replace)
      else pure none

  -- After the rollback the routine is expired: `routine.id` is loaded again.
  pub restore_previous_scheduler_state : RoutineSchedulerSnapshot → Exec (Unit {0})
  restore_previous_scheduler_state snapshot =
      if snapshot.is_active && not (is_manual snapshot.schedule_type)
      then register_routine env snapshot
      else if not snapshot.is_active
      then statement env >> unregister_routine snapshot.id
      else pure tt

  -- `except Exception`: roll back, restore the scheduler if it was told anything, and raise again.
  -- The log of a failed restore names `routine.id` too.
  pub undo_update : RoutineSchedulerSnapshot → Option SchedulerAction → Exception → Exec (Unit {0})
  unfolding restore_previous_scheduler_state
  undo_update snapshot none e = do rollback; throw e
  undo_update snapshot (some act) e = do
    rollback
    catch (restore_previous_scheduler_state snapshot) (λ _. statement env)
    throw e

  -- The `try` block up to the commit: the assignments, the flush, the scheduler.
  pub stage_update : RoutineSchedulerSnapshot → Routine → Exec (Option SchedulerAction)
  unfolding sync_scheduler
  stage_update snapshot updated = do
    modify (on_routines (set_row updated))
    flush env
    sync_scheduler snapshot updated

  -- An exception before `scheduler_action` is assigned finds it None.
  pub abandon : RoutineSchedulerSnapshot → Exception → Exec (Option SchedulerAction)
  unfolding undo_update
  abandon snapshot e = do undo_update snapshot none e; pure none

  pub apply_update : RoutineSchedulerSnapshot → Routine → Exec (Unit {0})
  unfolding stage_update abandon
  apply_update snapshot updated = do
    act ← catch (stage_update snapshot updated) (abandon snapshot)
    catch (commit env) (undo_update snapshot act)

  -- The rest of the update, once `next_schedule_type` is known: a null one is a ValueError.
  pub update_checked : Routine → RoutineUpdate → Option ScheduleType → Exec Routine
  unfolding apply_update refresh_routine
  update_checked routine payload none = throw (value_error schedule_type_null)
  update_checked routine payload (some next_type) = do
    lift (validate_routine_schedule env next_type (next_schedule_config routine payload))
    apply_update (snapshot_of routine) (assign_fields routine payload next_type)
    refresh_routine routine.id

  unfoldable pub update_routine : Routine → RoutineUpdate → Exec Routine
  unfolding update_checked
  update_routine routine payload =
      update_checked routine payload (next_schedule_type routine payload)

  -- `session.delete` loads the children, and the commit's flush deletes them by the cascades of the
  -- relationships. No relationship joins an action and its action executions, and the actions are
  -- deleted first: the server checks the keys after that.
  unfoldable pub delete_routine : Routine → Exec (Unit {0})
  unfolding delete_actions delete_executions
  delete_routine routine = do
    unregister_routine routine.id
    statement env
    modify (delete_actions routine.id)
    flush env
    modify (delete_executions routine.id)
    commit env

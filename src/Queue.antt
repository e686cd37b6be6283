-- ===== src/Queue.antt =====
-- backend/execution_engine.py, `ExecutionQueue` and the operations that fill the queue. There is
-- one worker, so no row is locked by another.
pub mod Claims
use python_fastapi_poc.Prelude.{
  ℕ, zero, suc, pos, Bool, true, false, Option, none, some, List, [], ◌∷◌, ◌++◌, map, leb, ◌==◌,
  ◌&&◌, if◌then◌else◌, rows_where, take,
}
use python_fastapi_poc.Domain.{ExecutionStatus, ExecutionTrigger}
use python_fastapi_poc.Models.{RoutineExecution, Db}
use python_fastapi_poc.Env.{Env}
use python_fastapi_poc.Session.{
  Result, ok, raise, Exec, World, slept, pure, catch, modify, with_session, select, commit, refresh,
  read_clock, one_or_none, ◌>>=◌, ◌>>◌,
}
use python_fastapi_poc.Executor.{get_execution, on_executions, change_execution, record_effect, run}

abbrev pub is_queued : ExecutionStatus → Bool
is_queued ExecutionStatus.queued = true
is_queued _ = false

-- `status == 'queued' AND scheduled_for <= now`
abbrev pub is_ready : ℕ → RoutineExecution → Bool
is_ready now e = is_queued e.status && leb e.scheduled_for now

abbrev pub claim_change : ℕ → RoutineExecution → RoutineExecution
claim_change now e = record e { status = ExecutionStatus.running; started_at = some now }

module _ (env : Env) where
  -- ORDER BY scheduled_for LIMIT 1
  abbrev pub next_ready : ℕ → Db → List RoutineExecution
  next_ready now db =
      take 1
        (env.asc RoutineExecution (λ e. e.scheduled_for) (rows_where (is_ready now) db.executions))

  -- The commit expires the row: its columns are loaded again.
  reload_claimed : ℕ → Exec (Option (ℕ × ExecutionTrigger × ℕ))
  reload_claimed id = do
    row ← refresh env (λ db. get_execution id db.executions)
    pure (some (row.routine_id, row.triggered_by, row.id))

  claim_row : Option RoutineExecution → Exec (Option (ℕ × ExecutionTrigger × ℕ))
  unfolding reload_claimed
  claim_row none = pure none
  claim_row (some e) = do
    started ← read_clock env
    modify (on_executions (change_execution e.id (claim_change started)))
    commit env
    reload_claimed e.id

  claim : ℕ → Exec (Option (ℕ × ExecutionTrigger × ℕ))
  unfolding claim_row
  claim now = do
    rows ← select env (next_ready now)
    execution ← one_or_none rows
    claim_row execution

  -- `_claim_next`
  unfoldable pub claim_next : Exec (Option (ℕ × ExecutionTrigger × ℕ))
  unfolding claim
  claim_next = do now ← read_clock env; catch (with_session (claim now)) (λ e. pure none)

  idle : Exec (Unit {0})
  idle = record_effect (slept (pos 1))

  work : Option (ℕ × ExecutionTrigger × ℕ) → Exec (Unit {0})
  work none = idle
  work (some (routine_id, triggered_by, execution_id)) =
      run env routine_id triggered_by execution_id

  -- One turn of `_poll_loop`, and the first turns of it.
  unfoldable pub poll : Exec (Unit {0})
  unfolding work idle
  poll = catch (claim_next >>= work) (λ e. idle)

  unfoldable pub poll_loop : (turns : ℕ) → Exec (Unit {0})
  poll_loop zero = pure tt
  poll_loop (suc turns) = poll >> poll_loop turns

  -- `session.add` of a queued row, and what the commit's flush draws: the key and `now()`.
  add_execution : ℕ → ExecutionTrigger → Option ℕ → Exec ℕ
  add_execution routine_id triggered_by scheduled_for w =
      let id = env.new_id w.statements (map (λ e. e.id) w.working.executions) in
      let now = env.now w.readings in
      let row : RoutineExecution = record {
        id = id;
        routine_id = routine_id;
        status = ExecutionStatus.queued;
        triggered_by = triggered_by;
        queued_at = now;
        scheduled_for = elim scheduled_for [ none ↦ now | some t ↦ t ];
        started_at = none;
        completed_at = none;
      } in
      (
        ok id,
        record w {
          working = on_executions (λ l. l ++ row ∷ []) w.working;
          readings = suc w.readings;
        },
      )

  store_execution : ℕ → ExecutionTrigger → Option ℕ → Exec RoutineExecution
  unfolding add_execution
  store_execution routine_id triggered_by scheduled_for = do
    id ← add_execution routine_id triggered_by scheduled_for
    commit env
    refresh env (λ db. get_execution id db.executions)

  -- `scheduled_for or datetime.now(UTC)`
  scheduled_or_now : Option ℕ → Exec ℕ
  scheduled_or_now none = read_clock env
  scheduled_or_now (some t) = pure t

  -- `enqueue_routine_run` on a session that is open.
  unfoldable pub enqueue_routine_run : ℕ → ExecutionTrigger → Option ℕ → Exec ℕ
  unfolding store_execution scheduled_or_now
  enqueue_routine_run routine_id triggered_by scheduled_for = do
    time ← scheduled_or_now scheduled_for
    execution ← store_execution routine_id triggered_by (some time)
    pure execution.id

  -- The callback of the scheduler's jobs, which opens a session of its own.
  unfoldable pub run_routine : ℕ → ExecutionTrigger → Exec ℕ
  run_routine routine_id triggered_by =
      with_session (enqueue_routine_run routine_id triggered_by none)

  -- The row's `scheduled_for` is the server's default.
  unfoldable pub insert_execution_row : ℕ → ExecutionTrigger → Exec RoutineExecution
  unfolding store_execution
  insert_execution_row routine_id triggered_by = store_execution routine_id triggered_by none

-- ===== src/Samples/Runs.antt =====
-- Runs of the small routine: a claim, the actions, and the configurations that they read.
use python_fastapi_poc.Prelude.{
  List, all, any, true, rows_where, ◌≡◌, refl, ◌++◌, pos, none, [], ◌∷◌,
}
use python_fastapi_poc.Domain.{ActionType, ExecutionStatus, ExecutionTrigger, get, int_value}
use python_fastapi_poc.Models.{RoutineExecution, Db}
use python_fastapi_poc.Schemas.{to_str, validate_action_config, check, is_duration, is_int_from}
use python_fastapi_poc.Session.{foreign_keys_hold, ok, World, slept, echoed}
use python_fastapi_poc.Executor.{run, effect_of, seconds_of, message_of}
use python_fastapi_poc.Executor.Effects.{run-effects, run_effects, performed}
use python_fastapi_poc.Executor.Configs.{TakesPlace, validated-TakesPlace}
use python_fastapi_poc.Queries.{ActiveExecutionRow, get_active_executions}
use python_fastapi_poc.Queries.Active.{AllShown, IsActiveList, get_active_executions-ok}
use python_fastapi_poc.Samples.{tables, start, pause}
use python_fastapi_poc.Samples.Server.{server}

abbrev waiting : RoutineExecution
waiting = record {
  id = 9;
  routine_id = 1;
  status = ExecutionStatus.queued;
  triggered_by = ExecutionTrigger.manual;
  queued_at = 20;
  scheduled_for = 30;
  started_at = none;
  completed_at = none;
}

abbrev queued : World
queued =
    let db : Db = record tables { executions = waiting ∷ [] } in
    record start { committed = db; working = db }

-- The greeting comes before the pause.
program : Unit {0}
unfolding performed effect_of seconds_of message_of rows_where get to_str
program = tt

performed-both : run_effects server 1 queued ≡ echoed "hello" ∷ slept (pos 3) ∷ []
unfolding program
performed-both = refl

run-effects_example :
    ((run server 1 ExecutionTrigger.manual 9 queued).0 ≡ ok tt)
    × ((run server 1 ExecutionTrigger.manual 9 queued).1.effects
        ≡ queued.effects ++ run_effects server 1 queued)
run-effects_example = run-effects server 1 ExecutionTrigger.manual 9 queued

pause_valid : validate_action_config ActionType.sleep pause ≡ ok tt
unfolding validate_action_config check is_duration is_int_from get int_value
pause_valid = refl

validated-TakesPlace_example : TakesPlace (effect_of server ActionType.sleep pause)
validated-TakesPlace_example = validated-TakesPlace server ActionType.sleep pause pause_valid

queued_sound : foreign_keys_hold queued.working ≡ true
unfolding foreign_keys_hold all any
queued_sound = refl

get_active_executions-ok_example :
    (out : List ActiveExecutionRow) × (listed : List RoutineExecution) × ((get_active_executions
        server queued).0
      ≡ ok out)
    × AllShown queued.working listed out
    × IsActiveList queued.working listed
get_active_executions-ok_example = get_active_executions-ok server queued queued_sound refl

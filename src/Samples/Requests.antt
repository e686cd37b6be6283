-- ===== src/Samples/Requests.antt =====
-- The requests on actions, on the small tables.
use python_fastapi_poc.Prelude.{
  ◌≢◌, ◌≡◌, refl, pos, true, none, some, [], ◌∷◌, arith, rows_where, count, any, first_where, ◌⊎◌,
  ◌==◌,
}
use python_fastapi_poc.Domain.{ActionType}
use python_fastapi_poc.Schemas.{ActionCreate, ActionUpdate}
use python_fastapi_poc.Session.{
  position_out_of_range, raise, with_session, integrity_error, database_error, value_error,
  action_ids_mismatch,
}
use python_fastapi_poc.Actions.{
  create_action, update_action, delete_action, reorder_actions, routine_actions,
}
use python_fastapi_poc.Actions.Positions.{positions, ids, get_action, IsKeyed}
use python_fastapi_poc.Actions.Ordered.{IsOrdered, create_action-IsOrdered}
use python_fastapi_poc.Actions.Delete.{delete_action-IsOrdered, delete_action_of_executed}
use python_fastapi_poc.Actions.Reorder.Request.{reorder_actions-IsOrdered, reorder_actions_refuses}
use python_fastapi_poc.Actions.Update.InPlace.{update_action_in_place}
use python_fastapi_poc.Actions.Update.Ordered.{update_action-IsOrdered}
use python_fastapi_poc.Samples.{greet, timed, tables, start, after_run, pause}
use python_fastapi_poc.Samples.Server.{server}

pub tables-IsOrdered : IsOrdered tables.actions
unfolding positions rows_where count
tables-IsOrdered = record { keyed = λ k. ground arith; contiguous = λ r k. ground arith }

pub greet-stored : get_action 5 tables.actions ≡ some greet
unfolding first_where
greet-stored = refl

greet-recorded : any (λ x. x.action_id == 5) after_run.working.action_executions ≡ true
unfolding any
greet-recorded = refl

keys-IsKeyed : IsKeyed (ids (routine_actions 1 tables.actions))
unfolding routine_actions rows_where count
keys-IsKeyed k = ground arith

one_twice : count 7 (7 ∷ 7 ∷ 5 ∷ []) ≢ count 7 (ids (routine_actions 1 tables.actions))
unfolding routine_actions rows_where count
one_twice h = omega (arith, h)

-- A pause in the first place.
abbrev pub created : ActionCreate
created = record { action_type = ActionType.sleep; config = pause; position = some (pos 1) }

-- The greeting moves to the second place.
abbrev pub moved : ActionUpdate
moved = record { action_type = none; config = none; position = some (pos 2) }

create_action-IsOrdered_example :
    IsOrdered (with_session (create_action server 1 created) start).1.committed.actions
create_action-IsOrdered_example = create_action-IsOrdered server 1 created start tables-IsOrdered

delete_action-IsOrdered_example :
    IsOrdered (with_session (delete_action server greet) start).1.committed.actions
delete_action-IsOrdered_example =
    delete_action-IsOrdered server greet start greet-stored tables-IsOrdered

delete_action_of_executed_example :
    (((delete_action server greet after_run).0 ≡ raise integrity_error)
      ⊎ ((delete_action server greet after_run).0 ≡ raise database_error))
    × ((delete_action server greet after_run).1.committed ≡ after_run.committed)
delete_action_of_executed_example = delete_action_of_executed server greet after_run greet-recorded

reorder_actions-IsOrdered_example :
    IsOrdered (with_session (reorder_actions server timed (7 ∷ 5 ∷ [])) start).1.committed.actions
reorder_actions-IsOrdered_example =
    reorder_actions-IsOrdered server timed (7 ∷ 5 ∷ []) start tables-IsOrdered

reorder_actions_refuses_example :
    (((reorder_actions server timed (7 ∷ 7 ∷ 5 ∷ []) start).0
        ≡ raise (value_error action_ids_mismatch))
      ⊎ ((reorder_actions server timed (7 ∷ 7 ∷ 5 ∷ []) start).0 ≡ raise database_error))
    × ((reorder_actions server timed (7 ∷ 7 ∷ 5 ∷ []) start).1.committed ≡ tables)
reorder_actions_refuses_example =
    reorder_actions_refuses server timed (7 ∷ 7 ∷ 5 ∷ []) 7 start keys-IsKeyed one_twice

update_action-IsOrdered_example :
    IsOrdered (with_session (update_action server greet moved) start).1.committed.actions
update_action-IsOrdered_example =
    update_action-IsOrdered server greet moved start greet-stored tables-IsOrdered

-- The greeting stays in the first place, and is to be a pause.
abbrev edited : ActionUpdate
edited = record {
  action_type = some ActionType.sleep;
  config = some pause;
  position = some (pos 1);
}

update_action_in_place_example :
    (((update_action server greet edited start).0 ≡ raise (value_error position_out_of_range))
      ⊎ ((update_action server greet edited start).0 ≡ raise database_error))
    × ((update_action server greet edited start).1.committed ≡ tables)
update_action_in_place_example =
    update_action_in_place server greet edited start greet-stored tables-IsOrdered refl

-- ===== src/Samples/Sequences.antt =====
-- The routine's sequence under the requests on actions.
use mathlib.Core.List.{Mem}
use python_fastapi_poc.Actions.Positions.{ids}
use python_fastapi_poc.Prelude.{
  ℕ, ◌≡◌, refl, some, [], ◌∷◌, rows_where, any, all, ◌==◌, if◌then◌else◌,
}
use python_fastapi_poc.Session.{ok, foreign_keys_hold, users_are_unique}
use python_fastapi_poc.Session.Commits.{Commits}
use python_fastapi_poc.Actions.{
  create_action, delete_action, reorder_actions, routine_actions, max_position,
}
use python_fastapi_poc.Actions.Create.{slot, next_position, new_row}
use python_fastapi_poc.Actions.Create.Progress.{create_action_returns}
use python_fastapi_poc.Actions.Sequence.{id_at, inserted, deleted, item_from}
use python_fastapi_poc.Actions.Refined.{Changed, create_action-inserted, delete_action-deleted}
use python_fastapi_poc.Actions.Reorder.Refined.{reorder_actions-items}
use python_fastapi_poc.Samples.{timed, greet, tables, start}
use python_fastapi_poc.Samples.Requests.{created, tables-IsOrdered, greet-stored}
use python_fastapi_poc.Samples.Server.{server}

create_action-inserted_example :
    Commits tables
      (λ after.
        (id : ℕ) × (p : ℕ) × (¬ Mem id (ids tables.actions))
        × (slot (next_position 1 tables.actions) created.position ≡ some p)
        × Changed 1 (inserted p id) tables.actions after.actions)
      (create_action server 1 created start)
create_action-inserted_example = create_action-inserted server 1 created start

delete_action-deleted_example :
    Commits tables
      (λ after. Changed 1 (deleted 1) tables.actions after.actions)
      (delete_action server greet start)
delete_action-deleted_example =
    delete_action-deleted server greet start tables-IsOrdered greet-stored

create_action_returns_example :
    (id : ℕ) × ((create_action server 1 created start).0 ≡ ok (new_row id 1 1 created))
unfolding foreign_keys_hold users_are_unique any all routine_actions rows_where max_position
create_action_returns_example =
    create_action_returns server (λ n. refl) 1 1 created start refl refl tables-IsOrdered refl refl

-- The pause first.
reorder_actions-items_example :
    Commits tables
      (λ after.
        (s k : ℕ)
        → id_at s k after.actions
          ≡ (if s == 1 then item_from 1 (7 ∷ 5 ∷ []) k else id_at s k tables.actions))
      (reorder_actions server timed (7 ∷ 5 ∷ []) start)
reorder_actions-items_example =
    reorder_actions-items server timed (7 ∷ 5 ∷ []) start tables-IsOrdered

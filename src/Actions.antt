-- ===== src/Actions.antt =====
-- backend/routine_services.py, the action operations. Each runs in the request's session, on the
-- row that the route's dependency loaded.
pub mod Positions
pub mod Create
pub mod Sequence
pub mod Refined
pub mod Ordered
pub mod Delete
pub mod Reorder
pub mod Update
use python_fastapi_poc.Prelude.{
  ℕ, zero, suc, ◌+◌, ◌-◌, ℤ, pos, negsuc, eq_ℤ, pos_part, Bool, true, false, Option, none, some,
  List, [], ◌∷◌, ◌++◌, map, ltb, leb, ◌==◌, ◌&&◌, ◌||◌, not, if◌then◌else◌, rows_where, first_where,
  any, all, length, or_else,
}
use python_fastapi_poc.Domain.{ActionType, JsonObject}
use python_fastapi_poc.Models.{Routine, Action, Db}
use python_fastapi_poc.Env.{Env}
use python_fastapi_poc.Schemas.{ActionCreate, ActionUpdate, validate_action_config}
use python_fastapi_poc.Session.{
  Result, ok, raise, Exec, World, pure, throw, ◌>>=◌, ◌>>◌, modify, guard, lift, select, execute,
  flush, commit, refresh, one_or_none, value_error, position_out_of_range, action_ids_mismatch,
}

-- `Action.routine_id == routine_id`
abbrev pub of_routine : ℕ → Action → Bool
of_routine routine_id a = a.routine_id == routine_id

unfoldable pub routine_actions : ℕ → List Action → List Action
routine_actions routine_id actions = rows_where (of_routine routine_id) actions

-- `func.max(Action.position)`, and `or 0`: a routine without actions has no maximum.
unfoldable pub max_position : List Action → ℕ
max_position [] = 0
max_position (a ∷ actions) =
    let rest = max_position actions in if ltb rest a.position then a.position else rest

abbrev shift_row : (Action → Bool) → (ℕ → ℕ) → Action → Action
shift_row test change a = if test a then record a { position = change a.position } else a

-- `position = position + 1` where the position is at least the given one.
unfoldable pub shift_up : ℕ → ℕ → List Action → List Action
shift_up routine_id position =
    map (shift_row (λ a. of_routine routine_id a && leb position a.position) (λ p. p + 1))

-- `position = position - 1` where the position is above the deleted one.
unfoldable pub shift_down : ℕ → ℕ → List Action → List Action
shift_down routine_id position =
    map (shift_row (λ a. of_routine routine_id a && ltb position a.position) (λ p. p - 1))

-- `action.position = position`, on the row with the action's key.
unfoldable pub set_position : ℕ → ℕ → List Action → List Action
set_position id position = map (shift_row (λ a. a.id == id) (λ _. position))

-- The other rows of the routine at a position.
unfoldable pub occupants : Action → ℤ → List Action → List Action
occupants action new_pos actions =
    rows_where
      (λ a.
        (a.routine_id == action.routine_id)
        && eq_ℤ (pos a.position) new_pos
        && not (a.id == action.id))
      actions

-- `action.action_type = ...` and `action.config = ...`
abbrev content_row : ℕ → ActionType → JsonObject → Action → Action
content_row id t c a = if a.id == id then record a { action_type = t; config = c } else a

unfoldable pub set_content : ℕ → ActionType → JsonObject → List Action → List Action
set_content id t c = map (content_row id t c)

abbrev on_actions : (List Action → List Action) → Db → Db
on_actions change db = record db { actions = change db.actions }

-- The position to insert at, if 1 <= position <= next.
abbrev in_range : ℕ → ℤ → Option ℕ
in_range next (negsuc _) = none
in_range next (pos p) = if ltb p 1 || ltb next p then none else some p

refresh_action : Env → ℕ → Exec Action
refresh_action env id = refresh env (λ db. first_where (λ a. a.id == id) db.actions)

-- The ids of a set: without repetitions.
unfoldable pub distinct : List ℕ → List ℕ
distinct [] = []
distinct (x ∷ xs) = let rest = distinct xs in if any (λ y. x == y) rest then rest else x ∷ rest

unfoldable pub subset : List ℕ → List ℕ → Bool
subset xs ys = all (λ x. any (λ y. x == y) ys) xs

-- `set(action_ids) != existing_ids or len(action_ids) != len(existing_ids)`, negated.
unfoldable pub ids_match : List ℕ → List ℕ → Bool
unfolding distinct subset
ids_match action_ids ids =
    subset action_ids ids && subset ids action_ids && (length action_ids == length (distinct ids))

-- `for position, action_id in enumerate(action_ids, start=1)`
unfoldable pub assign_positions : ℕ → List ℕ → List Action → List Action
assign_positions position [] actions = actions
assign_positions position (id ∷ ids) actions =
    assign_positions (suc position) ids (set_position id position actions)

-- `sorted(actions, key=lambda a: a.position)`, which is stable.
insert_by_position : Action → List Action → List Action
insert_by_position a [] = a ∷ []
insert_by_position a (b ∷ bs) =
    let rest = insert_by_position a bs in if leb a.position b.position then a ∷ b ∷ bs else b ∷ rest

unfoldable pub sort_by_position : List Action → List Action
unfolding insert_by_position
sort_by_position [] = []
sort_by_position (a ∷ actions) = insert_by_position a (sort_by_position actions)

-- `session.delete(action)`
unfoldable pub without : ℕ → List Action → List Action
without id actions = rows_where (λ a. not (a.id == id)) actions

module _ (env : Env) where
  unfoldable pub list_actions : ℕ → Exec (List Action)
  list_actions routine_id =
      select env
        (λ db. env.asc Action (λ a. a.position) (rows_where (of_routine routine_id) db.actions))

  -- The slot for the new action: at the end, or where the later actions make room.
  make_room : ℕ → ℕ → Option ℤ → Exec ℕ
  make_room routine_id next none = pure next
  make_room routine_id next (some p) = elim (in_range next p) [
    | none ↦ throw (value_error position_out_of_range)
    | some position ↦ execute env (on_actions (shift_up routine_id position)) >> pure position
  ]

  -- `session.add`: the row is written by the commit's flush, which draws its key.
  add_action : Action → Exec ℕ
  add_action a w =
      let id = env.new_id w.statements (map (λ b. b.id) w.working.actions) in
      (ok id, record w { working = on_actions (λ l. l ++ record a { id = id } ∷ []) w.working })

  -- `session.add`, `session.commit`, `session.refresh`.
  insert_action : Action → Exec Action
  unfolding add_action refresh_action
  insert_action a = do id ← add_action a; commit env; refresh_action env id

  unfoldable pub create_action : ℕ → ActionCreate → Exec Action
  unfolding make_room insert_action
  create_action routine_id payload = do
    max_pos ← select env (λ db. max_position (rows_where (of_routine routine_id) db.actions))
    position ← make_room routine_id (max_pos + 1) payload.position
    insert_action record {
      id = 0;
      routine_id = routine_id;
      position = position;
      action_type = payload.action_type;
      config = payload.config;
    }

  swap_with : Action → ℤ → Option Action → Exec (Unit {0})
  swap_with action new_pos none = throw (value_error position_out_of_range)
  swap_with action new_pos (some other) = do
    modify (on_actions (set_position action.id (pos_part new_pos)))
    modify (on_actions (set_position other.id action.position))
    flush env

  -- The branch `payload.position is not None`.
  move_action : Action → Option ℤ → Exec (Unit {0})
  unfolding swap_with
  move_action action none = pure tt
  move_action action (some new_pos) = do
    others ← select env (λ db. occupants action new_pos db.actions)
    other ← one_or_none others
    swap_with action new_pos other

  unfoldable pub update_action : Action → ActionUpdate → Exec Action
  unfolding move_action refresh_action
  update_action action payload = do
    move_action action payload.position
    let next_type = or_else payload.action_type action.action_type
    let next_config = or_else payload.config action.config
    lift (validate_action_config next_type next_config)
    modify (on_actions (set_content action.id next_type next_config))
    commit env
    refresh_action env action.id

  -- After the commit each object is expired, and is loaded again when it is read.
  reload_actions : List Action → Exec (List Action)
  unfolding refresh_action
  reload_actions [] = pure []
  reload_actions (a ∷ rest) = do
    b ← refresh_action env a.id
    bs ← reload_actions rest
    pure (b ∷ bs)

  unfoldable pub reorder_actions : Routine → List ℕ → Exec (List Action)
  unfolding reload_actions
  reorder_actions routine action_ids = do
    existing ← select env (λ db. rows_where (of_routine routine.id) db.actions)
    guard (ids_match action_ids (map (λ a. a.id) existing)) (value_error action_ids_mismatch)
    modify (on_actions (assign_positions 1 action_ids))
    commit env
    rows ← reload_actions existing
    pure (sort_by_position rows)

  unfoldable pub delete_action : Action → Exec (Unit {0})
  delete_action action = do
    modify (on_actions (without action.id))
    flush env
    execute env (on_actions (shift_down action.routine_id action.position))
    commit env

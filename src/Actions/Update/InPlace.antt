-- ===== src/Actions/Update/InPlace.antt =====
-- An update that asks for the position that the action has.
use python_fastapi_poc.Prelude.{
  ℕ, ◌≤◌, ◌≡◌, refl, ◌⊎◌, pos, some, List, [], ◌∷◌, count, rows_where, first_where, ◌==◌, arith,
  Bool-cases, inl, inr,
}
use python_fastapi_poc.Models.{Action}
use python_fastapi_poc.Env.{Env}
use python_fastapi_poc.Schemas.{ActionUpdate}
use python_fastapi_poc.Session.{
  raise, World, value_error, database_error, position_out_of_range, select, statement, one_or_none,
}
use python_fastapi_poc.Actions.{occupants, routine_actions, update_action, move_action, swap_with}
use python_fastapi_poc.Actions.Positions.{positions, get_action}
use python_fastapi_poc.Actions.Ordered.{IsOrdered}

occupants-none :
    (a : Action) (actions : List Action)
    → count a.position (positions a.routine_id actions) ≡ 0
    → occupants a (pos a.position) actions ≡ []
unfolding occupants positions routine_actions rows_where count
occupants-none a [] h = refl
occupants-none a (b ∷ actions) h = ground (arith, occupants-none a actions)

count-stored :
    (id : ℕ) (a : Action) (actions : List Action)
    → get_action id actions ≡ some a
    → 1 ≤ count a.position (positions a.routine_id actions)
unfolding positions routine_actions rows_where count first_where
count-stored id a [] h = absurd (ground arith)
count-stored id a (b ∷ actions) h = elim (Bool-cases (b.id == id)) [
  | inl e ↦ ground arith
  | inr e ↦ ground (arith, count-stored id a actions)
]

-- No other row holds the position of a row, if no position is held twice.
occupants-own :
    (a : Action) (actions : List Action)
    → get_action a.id actions ≡ some a
    → count a.position (positions a.routine_id actions) ≤ 1
    → occupants a (pos a.position) actions ≡ []
unfolding occupants positions routine_actions rows_where count first_where
occupants-own a [] found h = refl
occupants-own a (b ∷ actions) found h = elim (Bool-cases (b.id == a.id)) [
  | inl e ↦ ground (arith, occupants-none a actions)
  | inr e ↦ ground (arith, occupants-own a actions, count-stored a.id a actions)
]

module _ (env : Env) where
  -- On an ordered table, an update that asks for the position that a stored action already has is
  -- refused as out of range, unless the server fails first, and commits nothing.
  pub update_action_in_place :
      (a : Action) (payload : ActionUpdate) (w : World)
      → get_action a.id w.working.actions ≡ some a
      → IsOrdered w.working.actions
      → payload.position ≡ some (pos a.position)
      → (((update_action env a payload w).0 ≡ raise (value_error position_out_of_range))
          ⊎ ((update_action env a payload w).0 ≡ raise database_error))
        × ((update_action env a payload w).1.committed ≡ w.committed)
  unfolding update_action move_action swap_with select statement one_or_none
  update_action_in_place a payload w found h asked =
      let alone =
        occupants-own a w.working.actions found
          (ground (arith, h.contiguous a.routine_id a.position)) in
      ground (arith, alone)

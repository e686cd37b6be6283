-- ===== src/Actions/Reorder/Request.antt =====
-- `reorder_actions` as a request: what it commits on every outcome, and when it refuses.
use python_fastapi_poc.Prelude.{
  ◌≡◌, ◌≢◌, count, sym, refl, ap, ◌⊎◌, inl, inr, true, false, List, [], ◌∷◌, ℕ, Bool-cases,
  rows_where, arith,
}
use python_fastapi_poc.Models.{Routine, Action, Db}
use python_fastapi_poc.Env.{Env}
use python_fastapi_poc.Session.{
  World, Exec, raise, modify, select, commit, guard, value_error, database_error,
  action_ids_mismatch, pure, ◌>>=◌, ◌>>◌, with_session,
}
use python_fastapi_poc.Session.Commits.{
  Commits, Reads, bind-Commits, finish-Commits, Reads-bind, Reads-select, Reads-refresh, select-ok,
}
use python_fastapi_poc.Actions.{
  on_actions, of_routine, routine_actions, assign_positions, ids_match, reload_actions,
  refresh_action, sort_by_position, reorder_actions,
}
use python_fastapi_poc.Actions.Positions.{ids, IsKeyed}
use python_fastapi_poc.Actions.Reorder.{ids_match-count}
use python_fastapi_poc.Actions.Ordered.{IsOrdered}
use python_fastapi_poc.Actions.Reorder.Ordered.{reordered-IsOrdered}

-- The ids were accepted, and the loop's positions are committed.
pub record Reordered (r : ℕ) (order : List ℕ) (before after : Db) : Type 0 where
  pub accepted : ids_match order (ids (routine_actions r before.actions)) ≡ true
  pub rows : after ≡ on_actions (assign_positions 1 order) before

module _ (env : Env) where
  Reads-refresh_action : (id : ℕ) → Reads (refresh_action env id)
  unfolding refresh_action
  Reads-refresh_action id w = Reads-refresh env _ w

  Reads-reload :
      (rows : List Action) (w : World) → (reload_actions env rows w).1.committed ≡ w.committed
  unfolding reload_actions
  Reads-reload [] w = refl
  Reads-reload (a ∷ rows) w =
      Reads-bind (refresh_action env a.id) (λ b. reload_actions env rows >>= λ bs. pure (b ∷ bs))
        (Reads-refresh_action a.id)
        (λ b.
          Reads-bind (reload_actions env rows) (λ bs. pure (b ∷ bs)) (λ w'. Reads-reload rows w')
            (λ bs w'. refl))
        w

  -- What follows the query for the routine's actions.
  store_order : List ℕ → List Action → Exec (List Action)
  store_order order existing = do
    guard (ids_match order (ids existing)) (value_error action_ids_mismatch)
    modify (on_actions (assign_positions 1 order))
    commit env
    rows ← reload_actions env existing
    pure (sort_by_position rows)

  store_order-Commits :
      {before start : Db} (r : ℕ) (order : List ℕ) (existing : List Action) (w : World)
      → w.committed ≡ before
      → w.working ≡ start
      → existing ≡ routine_actions r start.actions
      → Commits before (Reordered r order start) (store_order order existing w)
  unfolding store_order
  store_order-Commits {start = start} r order existing w unchanged opened e =
      elim (Bool-cases (ids_match order (ids existing))) [
        | inr refused ↦ inl (
          value_error action_ids_mismatch,
          rw (refused, guard) refl,
          rw (refused, guard) unchanged,
        )
        | inl match ↦
            rw (match, guard)
              (finish-Commits env (Reordered r order start)
                (reload_actions env existing >>= λ rows. pure (sort_by_position rows))
                (record w { working = on_actions (assign_positions 1 order) w.working }) unchanged
                (Reads-bind (reload_actions env existing) (λ rows. pure (sort_by_position rows))
                  (Reads-reload existing) (λ rows w'. refl))
                record {
                  accepted = rw (← e) match;
                  rows = ap (on_actions (assign_positions 1 order)) opened;
                })
      ]

  -- `reorder_actions` commits the table with the positions of the order, having accepted the ids,
  -- or it raises and commits nothing.
  pub reorder_actions-Commits :
      (routine : Routine) (order : List ℕ) (w : World)
      → Commits w.committed
          (Reordered routine.id order w.working)
          (reorder_actions env routine order w)
  unfolding reorder_actions store_order routine_actions
  reorder_actions-Commits routine order w =
      bind-Commits (Reordered routine.id order w.working)
        (select env (λ db. rows_where (of_routine routine.id) db.actions)) (store_order order) w
        (Reads-select env _ w)
        λ existing selected.
          let (here, same) = select-ok env _ w selected in
          store_order-Commits routine.id order existing _ (Reads-select env _ w) same here

  -- A request that reorders a routine's actions leaves an ordered table ordered, on every outcome.
  pub reorder_actions-IsOrdered :
      (routine : Routine) (order : List ℕ) (w : World)
      → IsOrdered w.committed.actions
      → IsOrdered (with_session (reorder_actions env routine order) w).1.committed.actions
  unfolding with_session
  reorder_actions-IsOrdered routine order w h =
      elim (reorder_actions-Commits routine order (record w { working = w.committed })) [
        | inl (e, raised, same) ↦ rw same h
        | inr done ↦
            rw done.rows (reordered-IsOrdered routine.id order w.committed.actions h done.accepted)
      ]

  -- Ids that do not match the routine's are refused.
  mismatch_refused :
      (routine : Routine) (order : List ℕ) (w : World)
      → ids_match order (ids (routine_actions routine.id w.working.actions)) ≡ false
      → (((reorder_actions env routine order w).0 ≡ raise (value_error action_ids_mismatch))
          ⊎ ((reorder_actions env routine order w).0 ≡ raise database_error))
        × ((reorder_actions env routine order w).1.committed ≡ w.committed)
  unfolding reorder_actions select routine_actions
  mismatch_refused routine order w h = ground arith

  -- An order that is no permutation of the ids of the routine's actions, since some number does not
  -- stand in both as often, is refused, if keys are unique, and nothing is committed.
  pub reorder_actions_refuses :
      (routine : Routine) (order : List ℕ) (k : ℕ) (w : World)
      → IsKeyed (ids (routine_actions routine.id w.working.actions))
      → count k order ≢ count k (ids (routine_actions routine.id w.working.actions))
      → (((reorder_actions env routine order w).0 ≡ raise (value_error action_ids_mismatch))
          ⊎ ((reorder_actions env routine order w).0 ≡ raise database_error))
        × ((reorder_actions env routine order w).1.committed ≡ w.committed)
  reorder_actions_refuses routine order k w keyed differs =
      let keys = ids (routine_actions routine.id w.working.actions) in
      elim (Bool-cases (ids_match order keys)) [
        | inl match ↦ absurd (differs (sym (ids_match-count order keys keyed match k)))
        | inr refused ↦ mismatch_refused routine order w refused
      ]

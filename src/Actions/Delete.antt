-- ===== src/Actions/Delete.antt =====
-- What `delete_action` commits.
use native.Mathlib.Decide.{ℕ_discrete}
use python_fastapi_poc.Prelude.{
  ℕ, ◌≡◌, refl, ap, ◌∙◌, sym, subst, ◌⊎◌, inl, inr, true, false, List, [], ◌∷◌, ◌==◌, any, all,
  all-refuted, ==_iff, rows_where, arith, some,
}
use python_fastapi_poc.Models.{Action, ActionExecution, Db}
use python_fastapi_poc.Env.{Env}
use python_fastapi_poc.Session.{
  World, raise, integrity_error, database_error, flush, execute, with_session, foreign_keys_hold,
}
use python_fastapi_poc.Session.Commits.{
  Commits, bind-Commits, commit-Commits, Reads-flush, Reads-execute, flush-ok, execute-ok,
}
use python_fastapi_poc.Actions.{on_actions, without, shift_down, delete_action}
use python_fastapi_poc.Actions.Positions.{
  positions, get_action, IsContiguous, IsContiguous-remove, count-without, length-positions-without,
  positions-without_other, positions-shift_down, positions-shift_down_other, ids-shift_down,
  count-ids-without,
}
use python_fastapi_poc.Actions.Ordered.{IsOrdered}

abbrev pub removed : Action → List Action → List Action
removed a actions = shift_down a.routine_id a.position (without a.id actions)

module _ (env : Env) where
  -- `delete_action` commits the table without the row and with the gap closed, or it raises and
  -- commits nothing.
  pub delete_action-Commits :
      (a : Action) (w : World)
      → Commits w.committed (λ db. db ≡ on_actions (removed a) w.working) (delete_action env a w)
  unfolding delete_action
  delete_action-Commits a w =
      let gone : World = record w { working = on_actions (without a.id) w.working } in
      let Q = λ (db : Db). db ≡ on_actions (removed a) w.working in
      bind-Commits Q (flush env) _ gone (Reads-flush env gone) λ _ flushed.
        bind-Commits Q (execute env (on_actions (shift_down a.routine_id a.position))) _ _
          (Reads-execute env _ _ ∙ Reads-flush env gone)
          λ _ shifted. commit-Commits env Q _ (Reads-execute env _ _ ∙ Reads-flush env gone) (
            execute-ok env _ _ shifted
            ∙ ap (on_actions (shift_down a.routine_id a.position)) (flush-ok env gone flushed))

removed-IsContiguous :
    (a : Action) (s : ℕ) (actions : List Action)
    → get_action a.id actions ≡ some a
    → IsOrdered actions
    → IsContiguous (positions s (removed a actions))
removed-IsContiguous a s actions found h = elim (ℕ_discrete a.routine_id s) [
  | yes own ↦
      subst (λ (r : ℕ). IsContiguous (positions r (removed a actions))) own
        (rw (positions-shift_down a.routine_id a.position (without a.id actions)) (
          IsContiguous-remove a.position (positions a.routine_id actions) _
            (h.contiguous a.routine_id)
            (λ k. ground (arith, count-without a.routine_id a.id k a actions (h.keyed a.id) found))
            (ground
              (arith, length-positions-without a.routine_id a.id a actions (h.keyed a.id) found))))
  | no other ↦
      rw (positions-shift_down_other a.routine_id s a.position (without a.id actions) other)
        (rw (positions-without_other s a.id a actions (h.keyed a.id) found other) (h.contiguous s))
]

removed-IsOrdered :
    (a : Action) (actions : List Action)
    → get_action a.id actions ≡ some a
    → IsOrdered actions
    → IsOrdered (removed a actions)
removed-IsOrdered a actions found h = record {
  keyed = λ k.
      rw (ids-shift_down a.routine_id a.position (without a.id actions))
        (omega (arith, count-ids-without k a.id actions, h.keyed k));
  contiguous = λ s. removed-IsContiguous a s actions found h;
}

any-without : (id : ℕ) (actions : List Action) → any (λ a. a.id == id) (without id actions) ≡ false
unfolding any without rows_where
any-without id [] = refl
any-without id (a ∷ actions) = ground (arith, any-without id actions)

-- Without its action, an action execution breaks its foreign key.
no_action_left :
    (id : ℕ) (actions : List Action) (rows : List ActionExecution)
    → any (λ x. x.action_id == id) rows ≡ true
    → all (λ x. any (λ a. a.id == x.action_id) (without id actions)) rows ≡ false
no_action_left id actions rows h =
    all-refuted (λ x. x.action_id == id) (λ x. any (λ a. a.id == x.action_id) (without id actions))
      rows h
      λ x same.
        subst (λ (k : ℕ). any (λ a. a.id == k) (without id actions) ≡ false)
          (sym ((==_iff x.action_id id).0 same)) (any-without id actions)

module _ (env : Env) where
  -- A request that deletes a stored action leaves an ordered table ordered, on every outcome.
  pub delete_action-IsOrdered :
      (a : Action) (w : World)
      → get_action a.id w.committed.actions ≡ some a
      → IsOrdered w.committed.actions
      → IsOrdered (with_session (delete_action env a) w).1.committed.actions
  unfolding with_session
  delete_action-IsOrdered a w found h =
      elim (delete_action-Commits env a (record w { working = w.committed })) [
        | inl (e, raised, same) ↦ rw same h
        | inr done ↦ rw done (removed-IsOrdered a w.committed.actions found h)
      ]

  -- An action that some execution has recorded cannot be deleted: the operation raises, and nothing
  -- is committed.
  pub delete_action_of_executed :
      (a : Action) (w : World)
      → any (λ x. x.action_id == a.id) w.working.action_executions ≡ true
      → (((delete_action env a w).0 ≡ raise integrity_error)
          ⊎ ((delete_action env a w).0 ≡ raise database_error))
        × ((delete_action env a w).1.committed ≡ w.committed)
  unfolding delete_action flush foreign_keys_hold
  delete_action_of_executed a w h =
      ground (arith, no_action_left a.id w.working.actions w.working.action_executions h)

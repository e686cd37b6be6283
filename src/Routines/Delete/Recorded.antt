-- ===== src/Routines/Delete/Recorded.antt =====
-- The deletion of a routine that has been run.
use python_fastapi_poc.Prelude.{
  ℕ, Bool-cases, ◌≡◌, ◌⊎◌, refl, ap, ◌∙◌, sym, subst, inl, inr, true, false, none, some, List, [],
  ◌∷◌, ◌==◌, ◌≤◌, ==_iff, count, any, all, all-refuted, not, rows_where, first_where, arith,
}
use python_fastapi_poc.Models.{Routine, Action, ActionExecution}
use python_fastapi_poc.Env.{Env}
use python_fastapi_poc.Session.{
  raise, World, statement, flush, database_error, integrity_error, foreign_keys_hold,
}
use python_fastapi_poc.Scheduler.{get_job, unregister_routine}
use python_fastapi_poc.Scheduler.Jobs.{
  get-unregister_routine, Reads-unregister_routine, working-unregister_routine,
}
use python_fastapi_poc.Actions.Positions.{ids, IsKeyed, get_action}
use python_fastapi_poc.Routines.{delete_routine, delete_actions}
use python_fastapi_poc.Routines.Delete.{store_deletion, jobs-store_deletion, unregister_routine-ok}

count-absent :
    (id : ℕ) (actions : List Action) (r : ℕ)
    → count id (ids actions) ≡ 0
    → any (λ a. a.id == id) (rows_where (λ a. not (a.routine_id == r)) actions) ≡ false
unfolding count any rows_where
count-absent id [] r h = refl
count-absent id (a ∷ actions) r h = ground (arith, count-absent id actions r)

-- With the routine's actions, none of their keys is left.
no_key_left :
    (id : ℕ) (a : Action) (actions : List Action)
    → count id (ids actions) ≤ 1
    → get_action id actions ≡ some a
    → any (λ b. b.id == id) (rows_where (λ b. not (b.routine_id == a.routine_id)) actions) ≡ false
unfolding count any rows_where first_where
no_key_left id a [] h found = refl
no_key_left id a (b ∷ actions) h found = elim (Bool-cases (b.id == id)) [
  | inl same ↦ ground (arith, count-absent id actions a.routine_id)
  | inr other ↦ ground (arith, no_key_left id a actions)
]

no_action_left :
    (id : ℕ) (actions : List Action) (rows : List ActionExecution)
    → any (λ a. a.id == id) actions ≡ false
    → any (λ x. x.action_id == id) rows ≡ true
    → all (λ x. any (λ a. a.id == x.action_id) actions) rows ≡ false
no_action_left id actions rows gone h =
    all-refuted (λ x. x.action_id == id) (λ x. any (λ a. a.id == x.action_id) actions) rows h
      λ x same.
        subst (λ (k : ℕ). any (λ a. a.id == k) actions ≡ false)
          (sym ((==_iff x.action_id id).0 same)) gone

module _ (env : Env) where
  -- Without the routine's actions, a recorded one breaks its foreign key.
  store_deletion_refused :
      (id : ℕ) (a : Action) (w : World)
      → a.routine_id ≡ id
      → IsKeyed (ids w.working.actions)
      → get_action a.id w.working.actions ≡ some a
      → any (λ x. x.action_id == a.id) w.working.action_executions ≡ true
      → (((store_deletion env id w).0 ≡ raise integrity_error)
          ⊎ ((store_deletion env id w).0 ≡ raise database_error))
        × ((store_deletion env id w).1.committed ≡ w.committed)
  unfolding statement flush foreign_keys_hold delete_actions
  store_deletion_refused id a w own keyed found recorded =
      let actions = rows_where (λ b. not (b.routine_id == id)) w.working.actions in
      let gone : any (λ b. b.id == a.id) actions ≡ false =
        subst
          (λ r.
            any (λ b. b.id == a.id) (rows_where (λ b. not (b.routine_id == r)) w.working.actions)
            ≡ false)
          own (no_key_left a.id a w.working.actions (keyed a.id) found) in
      ground (arith, no_action_left a.id actions w.working.action_executions gone recorded)

  -- A routine one of whose actions some execution has recorded cannot be deleted, where the keys of
  -- actions are unique: the operation raises and commits nothing, but the routine's job is gone.
  pub delete_routine_of_executed :
      (r : Routine) (a : Action) (w : World)
      → a.routine_id ≡ r.id
      → IsKeyed (ids w.working.actions)
      → get_action a.id w.working.actions ≡ some a
      → any (λ x. x.action_id == a.id) w.working.action_executions ≡ true
      → (((delete_routine env r w).0 ≡ raise integrity_error)
          ⊎ ((delete_routine env r w).0 ≡ raise database_error))
        × ((delete_routine env r w).1.committed ≡ w.committed)
        × (get_job r.id (delete_routine env r w).1.jobs ≡ none)
  unfolding delete_routine
  delete_routine_of_executed r a w own keyed found recorded =
      let out = (unregister_routine r.id w).1 in
      let same : out.working ≡ w.working = working-unregister_routine r.id w in
      let (raised, kept) =
        store_deletion_refused r.id a out own (rw same keyed) (rw same found) (rw same recorded) in
      let gone =
        ap (get_job r.id) (jobs-store_deletion env r.id out) ∙ get-unregister_routine r.id r.id w in
      rw (unregister_routine-ok r.id w)
        (raised, kept ∙ Reads-unregister_routine r.id w, gone ∙ ground arith)

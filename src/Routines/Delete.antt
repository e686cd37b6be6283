-- ===== src/Routines/Delete.antt =====
-- What `delete_routine` commits, and what it does to the scheduler's jobs.
pub mod Progress
pub mod Recorded
use mathlib.Core.Bool.{false≢true}
use mathlib.Core.List.{Mem}
use python_fastapi_poc.Prelude.{
  ℕ, suc, Bool, Bool-cases, ◌≡◌, ◌≢◌, ◌⊎◌, ◌↔◌, refl, ap, ◌∙◌, sym, subst, subst₂, inl, inr, true,
  false, none, some, List, [], ◌∷◌, ◌==◌, ◌&&◌, ◌≤◌, ==_iff, count, any, all, all-refuted, not,
  rows_where, first_where, arith, if◌then◌else◌,
}
use python_fastapi_poc.Prelude.Members.{Mem-rows_where, rows_where-Mem, any-Mem, Mem-any}
use python_fastapi_poc.Models.{Routine, Action, RoutineExecution, ActionExecution, Db}
use python_fastapi_poc.Env.{Env}
use python_fastapi_poc.Session.{
  ok, raise, Exec, World, statement, flush, commit, modify, database_error, integrity_error,
  foreign_keys_hold, ◌>>◌,
}
use python_fastapi_poc.Session.Commits.{
  Commits, bind-Commits, commit-Commits, Reads-flush, flush-ok, jobs-flush, jobs-commit,
}
use python_fastapi_poc.Scheduler.{get_job, unregister_routine}
use python_fastapi_poc.Scheduler.Jobs.{
  get-unregister_routine, Reads-unregister_routine, working-unregister_routine,
}
use python_fastapi_poc.Actions.Positions.{ids, IsKeyed, get_action}
use python_fastapi_poc.Routines.{
  delete_routine, delete_actions, delete_action_executions, delete_executions,
}

-- An action execution of one of the routine's executions.
abbrev pub IsStep : ℕ → Db → ActionExecution → Type 0
IsStep id db x =
    (e : RoutineExecution) × Mem e db.executions × (e.id ≡ x.execution_id) × (e.routine_id ≡ id)

-- The tables without a routine and the rows that hang on it: all other rows are there, and no more.
pub record IsDeleted (id : ℕ) (before after : Db) : Type 0 where
  pub routines : (r : Routine) → Mem r after.routines ↔ (Mem r before.routines × (r.id ≢ id))
  pub actions : (a : Action) → Mem a after.actions ↔ (Mem a before.actions × (a.routine_id ≢ id))
  pub executions :
      (e : RoutineExecution)
      → Mem e after.executions ↔ (Mem e before.executions × (e.routine_id ≢ id))
  pub steps :
      (x : ActionExecution)
      → Mem x after.action_executions ↔ (Mem x before.action_executions × (¬ IsStep id before x))
  pub users : after.users ≡ before.users

not-true : (b : Bool) → not b ≡ true → b ≢ true
not-true true h = λ e. false≢true h
not-true false h = false≢true

true-not : (b : Bool) → b ≢ true → not b ≡ true
true-not true h = absurd (h refl)
true-not false h = refl

module _ {A : Type 0} (key : A → ℕ) (id : ℕ) (xs : List A) (x : A) where
  Mem-kept_rows : Mem x (rows_where (λ y. not (key y == id)) xs) ↔ (Mem x xs × (key x ≢ id))
  Mem-kept_rows = (
    λ m.
        let (there, kept) = Mem-rows_where (λ y. not (key y == id)) x xs m in
        (there, λ e. not-true (key x == id) kept ((==_iff (key x) id).1 e)),
    λ (there, other). rows_where-Mem (λ y. not (key y == id)) x xs (ground (arith, other)) there,
  )

module _ (id : ℕ) (db : Db) (x : ActionExecution) where
  abbrev is_step : Bool
  is_step = any (λ e. (e.id == x.execution_id) && (e.routine_id == id)) db.executions

  is_step-IsStep : (is_step ≡ true) ↔ IsStep id db x
  is_step-IsStep = (
    λ h.
        let (e, there, own) =
          any-Mem (λ e. (e.id == x.execution_id) && (e.routine_id == id)) db.executions h in
        (e, there, ground (arith, own), ground (arith, own)),
    λ (e, there, same, own).
        Mem-any (λ e. (e.id == x.execution_id) && (e.routine_id == id)) e db.executions there
          (ground (arith, same, own)),
  )

  Mem-kept_steps :
      Mem x (
        rows_where
          (λ y. not (any (λ e. (e.id == y.execution_id) && (e.routine_id == id)) db.executions))
          db.action_executions)
      ↔ (Mem x db.action_executions × (¬ IsStep id db x))
  Mem-kept_steps = (
    λ m.
        let (there, kept) =
          Mem-rows_where
            (λ y. not (any (λ e. (e.id == y.execution_id) && (e.routine_id == id)) db.executions)) x
            db.action_executions m in
        (there, λ step. not-true is_step kept (is_step-IsStep.1 step)),
    λ (there, other).
        rows_where-Mem
          (λ y. not (any (λ e. (e.id == y.execution_id) && (e.routine_id == id)) db.executions)) x
          db.action_executions (true-not is_step (λ h. other (is_step-IsStep.0 h))) there,
  )

deleted : (id : ℕ) (db : Db) → IsDeleted id db (delete_executions id (delete_actions id db))
unfolding delete_executions delete_action_executions delete_actions
deleted id db = record {
  routines = Mem-kept_rows (λ r. r.id) id db.routines;
  actions = Mem-kept_rows (λ a. a.routine_id) id db.actions;
  executions = Mem-kept_rows (λ e. e.routine_id) id db.executions;
  steps = Mem-kept_steps id db;
  users = refl;
}

unregister_routine-ok : (id : ℕ) (w : World) → (unregister_routine id w).0 ≡ ok tt
unfolding unregister_routine
unregister_routine-ok id w = ground arith

module _ (env : Env) where
  abbrev store_deletion : ℕ → Exec (Unit {0})
  store_deletion id =
      statement env
      >> (modify (delete_actions id)
          >> (flush env >> (modify (delete_executions id) >> commit env)))

  store_deletion-Commits :
      (id : ℕ) (w : World) → Commits w.committed (IsDeleted id w.working) (store_deletion id w)
  unfolding statement
  store_deletion-Commits id w =
      let counted : World = record w {
        statements = suc w.statements;
        working = delete_actions id w.working;
      } in
      let Q = IsDeleted id w.working in
      elim (Bool-cases (env.fails w.statements)) [
        | inl e ↦ rw e (inl (database_error, refl, refl))
        | inr e ↦ rw e (
            bind-Commits Q (flush env) _ counted (Reads-flush env counted) λ _ flushed.
              commit-Commits env Q _ (Reads-flush env counted) (
                subst (λ db. IsDeleted id w.working (delete_executions id db))
                  (sym (flush-ok env counted flushed)) (deleted id w.working)))
      ]

  jobs-store_deletion : (id : ℕ) (w : World) → (store_deletion id w).1.jobs ≡ w.jobs
  unfolding statement
  jobs-store_deletion id w =
      let counted : World = record w {
        statements = suc w.statements;
        working = delete_actions id w.working;
      } in
      let flushed = (flush env counted).1 in
      ground (
        arith,
        jobs-flush env counted,
        jobs-commit env (record flushed { working = delete_executions id flushed.working }),
      )

  -- Deleting a routine commits the tables without it, its actions, its executions and their action
  -- executions, and with all other rows, or it raises and commits nothing. In both cases the routine
  -- has no job afterwards, and the other jobs are as they were.
  pub delete_routine-Deleted :
      (r : Routine) (w : World)
      → Commits w.committed (IsDeleted r.id w.working) (delete_routine env r w)
        × ((key : ℕ)
            → get_job key (delete_routine env r w).1.jobs
              ≡ (if r.id == key then none else get_job key w.jobs))
  unfolding delete_routine
  delete_routine-Deleted r w =
      let out = (unregister_routine r.id w).1 in
      let stored =
        subst₂ (λ before working. Commits before (IsDeleted r.id working) (store_deletion r.id out))
          (Reads-unregister_routine r.id w) (working-unregister_routine r.id w)
          (store_deletion-Commits r.id out) in
      rw (unregister_routine-ok r.id w) (
        stored,
        λ key. ap (get_job key) (jobs-store_deletion r.id out) ∙ get-unregister_routine r.id key w,
      )

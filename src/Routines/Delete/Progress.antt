-- ===== src/Routines/Delete/Progress.antt =====
-- When `delete_routine` returns.
use python_fastapi_poc.Prelude.{
  ℕ, suc, Bool, ◌≡◌, refl, sym, ap, ◌∙◌, subst, true, false, List, [], ◌∷◌, ◌==◌, ◌&&◌, any, all,
  not, rows_where, arith,
}
use python_fastapi_poc.Models.{Routine, Action, Db}
use python_fastapi_poc.Env.{Env}
use python_fastapi_poc.Session.{
  ok, World, statement, flush, commit, foreign_keys_hold, actions_have_routines,
  executions_have_routines, action_executions_have_executions, action_executions_have_actions,
  users_are_unique, positions_are_unique,
}
use python_fastapi_poc.Session.Commits.{commit-fine}
use python_fastapi_poc.Scheduler.{unregister_routine}
use python_fastapi_poc.Scheduler.Jobs.{working-unregister_routine}
use python_fastapi_poc.Routines.{
  delete_routine, delete_actions, delete_action_executions, delete_executions,
}
use python_fastapi_poc.Routines.Delete.{IsDeleted, deleted, store_deletion, unregister_routine-ok}

-- No action execution names an action of the routine.
abbrev pub is_unrecorded : ℕ → Db → Bool
is_unrecorded id db =
    all (λ x. not (any (λ a. (a.id == x.action_id) && (a.routine_id == id)) db.actions))
      db.action_executions

module _ {A : Type 0} (key owner : A → ℕ) (id k : ℕ) where
  -- A row with a key is left if none of the rows with the key is the routine's.
  any-other :
      (xs : List A)
      → any (λ y. key y == k) xs ≡ true
      → any (λ y. (key y == k) && (owner y == id)) xs ≡ false
      → any (λ y. key y == k) (rows_where (λ y. not (owner y == id)) xs) ≡ true
  unfolding any rows_where
  any-other [] h other = h
  any-other (y ∷ xs) h other = ground (arith, any-other xs)

module _ {A : Type 0} where
  any-kept :
      (key : A → ℕ) (id k : ℕ) (xs : List A)
      → (k == id) ≡ false
      → any (λ y. key y == k) xs ≡ true
      → any (λ y. key y == k) (rows_where (λ y. not (key y == id)) xs) ≡ true
  unfolding any rows_where
  any-kept key id k [] other h = h
  any-kept key id k (y ∷ xs) other h = ground (arith, any-kept key id k xs)

  -- A test of the rows that are left follows from two tests of all rows.
  all-kept :
      (p q r kept : A → Bool) (xs : List A)
      → all p xs ≡ true
      → all q xs ≡ true
      → ((x : A) → kept x ≡ true → p x ≡ true → q x ≡ true → r x ≡ true)
      → all r (rows_where kept xs) ≡ true
  unfolding all rows_where
  all-kept p q r kept [] hp hq h = refl
  all-kept p q r kept (x ∷ xs) hp hq h = ground (arith, h x, all-kept p q r kept xs)

  all-both :
      (p q r : A → Bool) (xs : List A)
      → all p xs ≡ true
      → all q xs ≡ true
      → ((x : A) → p x ≡ true → q x ≡ true → r x ≡ true)
      → all r xs ≡ true
  unfolding all
  all-both p q r [] hp hq h = refl
  all-both p q r (x ∷ xs) hp hq h = ground (arith, h x, all-both p q r xs)

module _ (owner : Action → ℕ) (id : ℕ) where
  all-positions_apart :
      (a : Action) (actions : List Action)
      → all (λ b. not ((b.routine_id == a.routine_id) && (b.position == a.position))) actions ≡ true
      → all
          (λ b. not ((b.routine_id == a.routine_id) && (b.position == a.position)))
          (rows_where (λ b. not (owner b == id)) actions)
        ≡ true
  unfolding all rows_where
  all-positions_apart a [] h = refl
  all-positions_apart a (b ∷ actions) h = ground (arith, all-positions_apart a actions)

  positions_are_unique-rows_where :
      (actions : List Action)
      → positions_are_unique actions ≡ true
      → positions_are_unique (rows_where (λ b. not (owner b == id)) actions) ≡ true
  unfolding positions_are_unique rows_where
  positions_are_unique-rows_where [] h = refl
  positions_are_unique-rows_where (a ∷ actions) h =
      ground (arith, all-positions_apart a actions, positions_are_unique-rows_where actions)

module _ (id : ℕ) (db : Db) where
  abbrev without_actions : Db
  without_actions = delete_actions id db

  abbrev without_all : Db
  without_all = delete_executions id without_actions

  -- The keys hold when the actions are gone, since no action execution names one of them.
  delete_actions_sound :
      foreign_keys_hold db ≡ true
      → is_unrecorded id db ≡ true
      → foreign_keys_hold without_actions ≡ true
  unfolding foreign_keys_hold delete_actions
  delete_actions_sound sound unrecorded =
      let owned : actions_have_routines without_actions ≡ true =
        all-kept (λ a. any (λ r. r.id == a.routine_id) db.routines)
          (λ a. any (λ r. r.id == a.routine_id) db.routines)
          (λ a. any (λ r. r.id == a.routine_id) db.routines) (λ a. not (a.routine_id == id))
          db.actions (ground arith) (ground arith) (λ a kept h h'. h) in
      let named : action_executions_have_actions without_actions ≡ true =
        all-both (λ x. any (λ a. a.id == x.action_id) db.actions)
          (λ x. not (any (λ a. (a.id == x.action_id) && (a.routine_id == id)) db.actions))
          (λ x. any (λ a. a.id == x.action_id) without_actions.actions) db.action_executions
          (ground arith) unrecorded
          (λ x h other.
            any-other (λ a. a.id) (λ a. a.routine_id) id x.action_id db.actions h (ground arith)) in
      ground arith

  -- They hold when the executions and the routine are gone, too.
  delete_executions_sound :
      foreign_keys_hold db ≡ true
      → foreign_keys_hold without_actions ≡ true
      → foreign_keys_hold without_all ≡ true
  unfolding foreign_keys_hold delete_executions delete_action_executions delete_actions
  delete_executions_sound before sound =
      let owned : actions_have_routines without_all ≡ true =
        all-kept (λ a. any (λ r. r.id == a.routine_id) db.routines)
          (λ a. any (λ r. r.id == a.routine_id) db.routines)
          (λ a. any (λ r. r.id == a.routine_id) without_all.routines)
          (λ a. not (a.routine_id == id)) db.actions (ground arith) (ground arith)
          (λ a kept h h'. any-kept (λ r. r.id) id a.routine_id db.routines (ground arith) h) in
      let ran : executions_have_routines without_all ≡ true =
        all-kept (λ e. any (λ r. r.id == e.routine_id) db.routines)
          (λ e. any (λ r. r.id == e.routine_id) db.routines)
          (λ e. any (λ r. r.id == e.routine_id) without_all.routines)
          (λ e. not (e.routine_id == id)) db.executions (ground arith) (ground arith)
          (λ e kept h h'. any-kept (λ r. r.id) id e.routine_id db.routines (ground arith) h) in
      let belong : action_executions_have_executions without_all ≡ true =
        all-kept (λ x. any (λ e. e.id == x.execution_id) db.executions)
          (λ x. any (λ e. e.id == x.execution_id) db.executions)
          (λ x. any (λ e. e.id == x.execution_id) without_all.executions)
          (λ x. not (any (λ e. (e.id == x.execution_id) && (e.routine_id == id)) db.executions))
          db.action_executions (ground arith) (ground arith)
          (λ x kept h h'.
            any-other (λ e. e.id) (λ e. e.routine_id) id x.execution_id db.executions h
              (ground arith)) in
      let named : action_executions_have_actions without_all ≡ true =
        all-kept (λ x. any (λ a. a.id == x.action_id) without_actions.actions)
          (λ x. any (λ a. a.id == x.action_id) without_actions.actions)
          (λ x. any (λ a. a.id == x.action_id) without_actions.actions)
          (λ x. not (any (λ e. (e.id == x.execution_id) && (e.routine_id == id)) db.executions))
          db.action_executions (ground arith) (ground arith) (λ x kept h h'. h) in
      ground arith

module _ (env : Env) (works : (n : ℕ) → env.fails n ≡ false) where
  store_deletion_returns :
      (id : ℕ) (w : World)
      → foreign_keys_hold w.working ≡ true
      → users_are_unique w.working.users ≡ true
      → positions_are_unique w.working.actions ≡ true
      → is_unrecorded id w.working ≡ true
      → ((store_deletion env id w).0 ≡ ok tt)
        × IsDeleted id w.working (store_deletion env id w).1.committed
  unfolding statement flush delete_actions delete_executions delete_action_executions
  store_deletion_returns id w sound users positions unrecorded =
      let first = delete_actions_sound id w.working sound unrecorded in
      let last = delete_executions_sound id w.working sound first in
      let ready : World = record w {
        statements = suc (suc w.statements);
        working = without_all id w.working;
      } in
      let whole : store_deletion env id w ≡ commit env ready =
        rw (works w.statements, works (suc w.statements), first, users) refl in
      let (returned, done) =
        commit-fine env ready works last users
          (positions_are_unique-rows_where (λ a. a.routine_id) id w.working.actions positions) in
      (
        ap (λ out. out.0) whole ∙ returned,
        subst (IsDeleted id w.working) (sym (ap (λ out. out.1.committed) whole ∙ done))
            (deleted id w.working),
      )

  -- On a server that does not fail, and sound tables in which no action of the routine has been
  -- recorded by an execution, deleting the routine returns, and what is committed are the tables
  -- without it and the rows that hang on it.
  pub delete_routine_returns :
      (r : Routine) (w : World)
      → foreign_keys_hold w.working ≡ true
      → users_are_unique w.working.users ≡ true
      → positions_are_unique w.working.actions ≡ true
      → is_unrecorded r.id w.working ≡ true
      → ((delete_routine env r w).0 ≡ ok tt)
        × IsDeleted r.id w.working (delete_routine env r w).1.committed
  unfolding delete_routine
  delete_routine_returns r w sound users positions unrecorded =
      let out = (unregister_routine r.id w).1 in
      let same : out.working ≡ w.working = working-unregister_routine r.id w in
      let (returned, gone) =
        store_deletion_returns r.id out (rw same sound) (rw same users) (rw same positions)
          (rw same unrecorded) in
      rw (unregister_routine-ok r.id w) (
        returned,
        subst (λ db. IsDeleted r.id db (store_deletion env r.id out).1.committed) same gone,
      )

-- ===== src/Queue/Claims.antt =====
-- What the worker claims: the first of the executions that are ready.
use mathlib.Core.List.Perm
use mathlib.Core.List.{Perm, Mem}
use mathlib.Core.Logic.Or
use python_fastapi_poc.Prelude.{ℕ, ◌≡◌, ◌⊎◌, true, List, [], ◌∷◌, leb}
use python_fastapi_poc.Models.{RoutineExecution, Db}
use python_fastapi_poc.Env.{Env}
use python_fastapi_poc.Session.Commits.{Commits}
use python_fastapi_poc.Executor.{on_executions, change_execution}
use python_fastapi_poc.Queue.{is_ready, claim_change}

-- The first of the sorted rows is a row, and no row has a smaller key.
record IsFirst {A : Type 0} (key : A → ℕ) (rows : List A) (x : A) : Type 0 where
  listed : Mem x rows
  least : (y : A) → Mem y rows → leb (key x) (key y) ≡ true

abbrev head_or : {A : Type 0} → A → List A → A
head_or x [] = x
head_or x (y ∷ ys) = y

-- One of the executions that were ready, none of which was due earlier, is running.
pub record Claimed (now started : ℕ) (before after : Db) : Type 0 where
  pub row : RoutineExecution
  pub listed : Mem row before.executions
  pub ready : is_ready now row ≡ true
  pub least :
      (x : RoutineExecution)
      → Mem x before.executions
      → is_ready now x ≡ true
      → leb row.scheduled_for x.scheduled_for ≡ true
  pub rows : after ≡ on_executions (change_execution row.id (claim_change started)) before

module _ (env : Env) where
  -- Nothing is committed, or a claim is.
  Claim : ℕ → ℕ → Db → Db → Type 0
  Claim now started before after = (after ≡ before) ⊎ Claimed now started before after

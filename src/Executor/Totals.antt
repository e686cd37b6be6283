-- ===== src/Executor/Totals.antt =====
-- The steps that record progress return, whatever the server does, and act on nothing but the tables.
use python_fastapi_poc.Prelude.{ℕ, ◌≡◌, refl, ◌∙◌, Option, none, some, arith}
use python_fastapi_poc.Domain.{ExecutionStatus, ActionExecutionStatus}
use python_fastapi_poc.Models.{RoutineExecution, ActionExecution, Db}
use python_fastapi_poc.Env.{Env}
use python_fastapi_poc.Session.{
  Result, ok, raise, Exec, World, pure, and_then, handled, catch, ◌>>=◌, with_session, statement,
  select, flush, commit, refresh, read_clock, modify, found,
}
use python_fastapi_poc.Executor.{
  update_action_execution_status, update_execution_status, mark_step, store_mark, set_status,
  store_status,
}

-- An operation that does nothing but to the tables.
abbrev pub IsSilent : {A : Type 0} → Exec A → Type 0
IsSilent m = (w : World) → (m w).1.effects ≡ w.effects

module _ {A B : Type 0} where
  and_then-IsSilent :
      (r : Result A) (f : A → Exec B) → ((a : A) → IsSilent (f a)) → IsSilent (and_then r f)
  and_then-IsSilent (ok a) f hf w = hf a w
  and_then-IsSilent (raise e) f hf w = refl

  pub bind-IsSilent :
      (m : Exec A) (f : A → Exec B) → IsSilent m → ((a : A) → IsSilent (f a)) → IsSilent (m >>= f)
  bind-IsSilent m f hm hf w = and_then-IsSilent (m w).0 f hf (m w).1 ∙ hm w

module _ {A : Type 0} where
  handled-pure :
      (r : Result A) (a : A) (w : World) → (handled r (λ e. pure a) w).1.effects ≡ w.effects
  handled-pure (ok b) a w = refl
  handled-pure (raise e) a w = refl

  pub catch-IsSilent : (m : Exec A) (a : A) → IsSilent m → IsSilent (catch m (λ e. pure a))
  catch-IsSilent m a hm w = handled-pure (m w).0 a (m w).1 ∙ hm w

  pub with_session-IsSilent : (m : Exec A) → IsSilent m → IsSilent (with_session m)
  unfolding with_session
  with_session-IsSilent m hm w = hm (record w { working = w.committed })

  found-IsSilent : (row : Option A) → IsSilent (found row)
  found-IsSilent none w = refl
  found-IsSilent (some a) w = refl

handled_unit : (r : Result (Unit {0})) (w : World) → (handled r (λ e. pure tt) w).0 ≡ ok tt
handled_unit (ok tt) w = refl
handled_unit (raise e) w = refl

module _ (env : Env) where
  pub select-IsSilent : {A : Type 0} (query : Db → A) → IsSilent (select env query)
  unfolding select statement
  select-IsSilent query w = ground arith

  pub commit-IsSilent : IsSilent (commit env)
  unfolding commit flush statement
  commit-IsSilent w = ground arith

  pub refresh-IsSilent : {A : Type 0} (query : Db → Option A) → IsSilent (refresh env query)
  unfolding refresh
  refresh-IsSilent query =
      bind-IsSilent (select env query) found (select-IsSilent query) found-IsSilent

  pub read_clock-IsSilent : IsSilent (read_clock env)
  unfolding read_clock
  read_clock-IsSilent w = refl

  pub modify-IsSilent : (change : Db → Db) → IsSilent (modify change)
  modify-IsSilent change w = refl

  store_mark-IsSilent :
      (id : ℕ) (status : ActionExecutionStatus) (row : Option ActionExecution)
      → IsSilent (store_mark env id status row)
  unfolding store_mark read_clock
  store_mark-IsSilent id status none w = refl
  store_mark-IsSilent id status (some x) w = commit-IsSilent _

  pub update_action_execution_status-IsSilent :
      (current : Option ℕ) (status : ActionExecutionStatus)
      → IsSilent (update_action_execution_status env current status)
  unfolding update_action_execution_status mark_step
  update_action_execution_status-IsSilent none status w = refl
  update_action_execution_status-IsSilent (some id) status w =
      catch-IsSilent (with_session (mark_step env id status)) tt
        (with_session-IsSilent (mark_step env id status) (
          bind-IsSilent (select env _) (store_mark env id status) (select-IsSilent _)
            (store_mark-IsSilent id status)))
        w

  pub update_action_execution_status-ok :
      (current : Option ℕ) (status : ActionExecutionStatus) (w : World)
      → (update_action_execution_status env current status w).0 ≡ ok tt
  unfolding update_action_execution_status
  update_action_execution_status-ok none status w = refl
  update_action_execution_status-ok (some id) status w =
      handled_unit (with_session (mark_step env id status) w).0
        (with_session (mark_step env id status) w).1

  store_status-IsSilent :
      (id : ℕ) (status : ExecutionStatus) (row : Option RoutineExecution)
      → IsSilent (store_status env id status row)
  unfolding store_status read_clock
  store_status-IsSilent id status none w = refl
  store_status-IsSilent id status (some x) w = commit-IsSilent _

  pub update_execution_status-IsSilent :
      (id : ℕ) (status : ExecutionStatus) → IsSilent (update_execution_status env id status)
  unfolding update_execution_status set_status
  update_execution_status-IsSilent id status =
      catch-IsSilent (with_session (set_status env id status)) tt (
        with_session-IsSilent (set_status env id status) (
          bind-IsSilent (select env _) (store_status env id status) (select-IsSilent _)
            (store_status-IsSilent id status)))

  pub update_execution_status-ok :
      (id : ℕ) (status : ExecutionStatus) (w : World)
      → (update_execution_status env id status w).0 ≡ ok tt
  unfolding update_execution_status
  update_execution_status-ok id status w =
      handled_unit (with_session (set_status env id status) w).0
        (with_session (set_status env id status) w).1

-- ===== src/Executor/Effects.antt =====
-- What a run does to the world outside of the tables, and that it always returns.
use python_fastapi_poc.Prelude.{
  ℕ, ◌≡◌, refl, sym, ap, ◌∙◌, Option, none, List, [], ◌∷◌, ◌++◌, arith, if◌then◌else◌, rows_where,
  inl, inr, Bool-cases, ◌==◌,
}
use mathlib.Core.List.{append_assoc, append-nil}
use python_fastapi_poc.Domain.{ExecutionStatus, ExecutionTrigger, ActionExecutionStatus}
use python_fastapi_poc.Models.{Action, Db}
use python_fastapi_poc.Env.{Env}
use python_fastapi_poc.Session.{
  Result, ok, raise, Effect, Exec, World, pure, and_then, handled, catch, with_session, statement,
  select, commit, refresh, database_error,
}
use python_fastapi_poc.Executor.{
  Outcome, finished, stopped, effect_of, entry, load_actions, create_pending_action_executions,
  add_steps, refresh_steps, store_steps, update_action_execution_status, update_execution_status,
  perform, run_action, turn, continue, run_actions, attempt, conclude, run,
}
use python_fastapi_poc.Executor.Totals.{
  IsSilent, bind-IsSilent, catch-IsSilent, with_session-IsSilent, commit-IsSilent, refresh-IsSilent,
  update_action_execution_status-IsSilent, update_action_execution_status-ok,
  update_execution_status-IsSilent, update_execution_status-ok, select-IsSilent,
}

and_performed : Result Effect → List Effect → List Effect
and_performed (ok x) rest = x ∷ rest
and_performed (raise e) rest = []

-- What a list of actions does: the effects up to the first action that fails.
unfoldable pub performed : Env → List Action → List Effect
unfolding and_performed
performed env [] = []
performed env (a ∷ actions) =
    let rest = performed env actions in and_performed (effect_of env a.action_type a.config) rest

-- The actions of a routine by position.
abbrev pub ordered_actions : Env → ℕ → Db → List Action
ordered_actions env routine_id db =
    env.asc Action (λ a. a.position) (rows_where (λ a. a.routine_id == routine_id) db.actions)

module _ (env : Env) where
  Turn : Option ℕ → Result Effect → World → Result Outcome × World → Type 0
  Turn current (ok x) w out = (out.0 ≡ ok finished) × (out.1.effects ≡ w.effects ++ x ∷ [])
  Turn current (raise e) w out = (out.0 ≡ ok (stopped current)) × (out.1.effects ≡ w.effects)

  performed-Turn :
      (current : Option ℕ) (a : Action) (w : World) (r : Result Effect)
      → effect_of env a.action_type a.config ≡ r
      → Turn current r w (turn env current a w)
  unfolding turn run_action perform Turn
  performed-Turn current a w (ok x) same =
      let begun = (update_action_execution_status env current ActionExecutionStatus.running w).1 in
      let acted : World = record begun { effects = begun.effects ++ x ∷ [] } in
      ground (
        arith,
        update_action_execution_status-ok env current ActionExecutionStatus.running w,
        update_action_execution_status-IsSilent env current ActionExecutionStatus.running w,
        update_action_execution_status-ok env current ActionExecutionStatus.completed acted,
        update_action_execution_status-IsSilent env current ActionExecutionStatus.completed acted,
      )
  performed-Turn current a w (raise e) same = ground (
    arith,
    update_action_execution_status-ok env current ActionExecutionStatus.running w,
    update_action_execution_status-IsSilent env current ActionExecutionStatus.running w,
  )

  Looped : List Action → World → Result Outcome × World → Type 0
  Looped actions w out =
      ((o : Outcome) × (out.0 ≡ ok o)) × (out.1.effects ≡ w.effects ++ performed env actions)

  -- A turn and the rest of the loop.
  continued :
      (current : Option ℕ) (rest : Exec Outcome) (a : Action) (actions : List Action) (w : World)
      (r : Result Effect) (out : Result Outcome × World)
      → effect_of env a.action_type a.config ≡ r
      → Turn current r w out
      → ((v : World) → Looped actions v (rest v))
      → Looped (a ∷ actions) w (and_then out.0 (continue env rest) out.1)
  unfolding continue performed Turn Looped
  continued current rest a actions w (ok x) out same done loops =
      let (returned, effects) = loops out.1 in
      rw (done.0, same)
        (
          returned,
          effects
              ∙ ap (λ l. l ++ performed env actions) done.1
              ∙ append_assoc w.effects (x ∷ []) (performed env actions),
        )
  continued current rest a actions w (raise e) out same done loops =
      rw (done.0, same) ((stopped current, refl), done.1 ∙ sym (append-nil w.effects))

  run_actions-Looped :
      (ids : List (ℕ × ℕ)) (actions : List Action) (w : World)
      → Looped actions w (run_actions env ids actions w)
  unfolding run_actions Looped performed
  run_actions-Looped ids [] w = ((finished, refl), sym (append-nil w.effects))
  run_actions-Looped ids (a ∷ actions) w =
      continued (entry ids a.id) (run_actions env ids actions) a actions w
        (effect_of env a.action_type a.config) (turn env (entry ids a.id) a w) refl
        (performed-Turn (entry ids a.id) a w (effect_of env a.action_type a.config) refl)
        (run_actions-Looped ids actions)

  add_steps-IsSilent : (id : ℕ) (actions : List Action) → IsSilent (add_steps env id actions)
  unfolding add_steps
  add_steps-IsSilent id [] w = refl
  add_steps-IsSilent id (a ∷ actions) w =
      bind-IsSilent (add_steps env id actions) _ (add_steps-IsSilent id actions) (λ ids v. refl) _

  refresh_steps-IsSilent : (ids : List ℕ) → IsSilent (refresh_steps env ids)
  unfolding refresh_steps
  refresh_steps-IsSilent [] w = refl
  refresh_steps-IsSilent (id ∷ ids) w =
      bind-IsSilent (refresh env _) _ (refresh-IsSilent env _)
        (λ row. bind-IsSilent (refresh_steps env ids) _ (refresh_steps-IsSilent ids) λ rest v. refl)
        w

  store_steps-IsSilent : (id : ℕ) (actions : List Action) → IsSilent (store_steps env id actions)
  unfolding store_steps
  store_steps-IsSilent id actions =
      bind-IsSilent (add_steps env id actions) _ (add_steps-IsSilent id actions) λ ids.
        bind-IsSilent (commit env) (λ u. refresh_steps env ids) (commit-IsSilent env)
          λ u. refresh_steps-IsSilent ids

  handled-entries :
      (r : Result (List (ℕ × ℕ))) (w : World)
      → (ids : List (ℕ × ℕ)) × (handled r (λ e. pure []) w ≡ (ok ids, w))
  handled-entries (ok ids) w = (ids, refl)
  handled-entries (raise e) w = ([], refl)

  create_pending_action_executions-ok :
      (id : ℕ) (actions : List Action) (w : World)
      → (ids : List (ℕ × ℕ)) × ((create_pending_action_executions env id actions w).0 ≡ ok ids)
  unfolding create_pending_action_executions
  create_pending_action_executions-ok id actions w =
      let stored = with_session (store_steps env id actions) w in
      let (ids, same) = handled-entries stored.0 stored.1 in (ids, ap (λ p. p.0) same)

  create_pending_action_executions-IsSilent :
      (id : ℕ) (actions : List Action) → IsSilent (create_pending_action_executions env id actions)
  unfolding create_pending_action_executions
  create_pending_action_executions-IsSilent id actions =
      catch-IsSilent (with_session (store_steps env id actions)) []
        (with_session-IsSilent (store_steps env id actions) (store_steps-IsSilent id actions))

  conclude-IsSilent : (id : ℕ) (o : Outcome) → IsSilent (conclude env id o)
  unfolding conclude
  conclude-IsSilent id finished = update_execution_status-IsSilent env id ExecutionStatus.completed
  conclude-IsSilent id (stopped current) =
      bind-IsSilent (update_action_execution_status env current ActionExecutionStatus.failed)
        (λ u. update_execution_status env id ExecutionStatus.failed)
        (update_action_execution_status-IsSilent env current ActionExecutionStatus.failed)
        λ u. update_execution_status-IsSilent env id ExecutionStatus.failed

  conclude-ok : (id : ℕ) (o : Outcome) (w : World) → (conclude env id o w).0 ≡ ok tt
  unfolding conclude
  conclude-ok id finished w = update_execution_status-ok env id ExecutionStatus.completed w
  conclude-ok id (stopped current) w =
      let marked = update_action_execution_status env current ActionExecutionStatus.failed w in
      rw (update_action_execution_status-ok env current ActionExecutionStatus.failed w)
        (update_execution_status-ok env id ExecutionStatus.failed marked.1)

  load_actions_lem :
      (routine_id : ℕ) (w : World)
      → (load_actions env routine_id w).0 ≡ (
          if env.fails w.statements
          then raise database_error
          else ok (ordered_actions env routine_id w.committed))
  unfolding load_actions with_session select statement
  load_actions_lem routine_id w = ground arith

  load_actions-IsSilent : (routine_id : ℕ) → IsSilent (load_actions env routine_id)
  unfolding load_actions
  load_actions-IsSilent routine_id =
      with_session-IsSilent (select env (ordered_actions env routine_id))
        (select-IsSilent env (ordered_actions env routine_id))

  -- What a run does, given whether its actions can be loaded.
  abbrev pub run_effects : ℕ → World → List Effect
  run_effects routine_id w =
      if env.fails w.statements
      then []
      else performed env (ordered_actions env routine_id w.committed)

  Attempted : ℕ → World → Result Outcome × World → Type 0
  Attempted routine_id w out =
      ((o : Outcome) × (out.0 ≡ ok o)) × (out.1.effects ≡ w.effects ++ run_effects routine_id w)

  attempted :
      (routine_id id : ℕ) (w : World)
      → Attempted routine_id w (catch (attempt env routine_id id) (λ e. pure (stopped none)) w)
  unfolding attempt Attempted Looped
  attempted routine_id id w =
      let loaded = load_actions env routine_id w in
      let actions = ordered_actions env routine_id w.committed in
      let pending = create_pending_action_executions env id actions loaded.1 in
      let (ids, created) = create_pending_action_executions-ok id actions loaded.1 in
      let silent =
        create_pending_action_executions-IsSilent id actions loaded.1
        ∙ load_actions-IsSilent routine_id w in
      let ((o, returned), effects) = run_actions-Looped ids actions pending.1 in
      elim (Bool-cases (env.fails w.statements)) [
        | inl fails ↦
            rw (load_actions_lem routine_id w, fails)
              (
                (stopped none, refl),
                load_actions-IsSilent routine_id w ∙ sym (append-nil w.effects),
              )
        | inr works ↦
            rw (load_actions_lem routine_id w, works, created, returned)
              ((o, refl), effects ∙ ap (λ l. l ++ performed env actions) silent)
      ]

  -- A run returns, whatever the server does, and its effects are those of the routine's actions by
  -- position, up to the first that fails; none if the actions cannot be loaded.
  pub run-effects :
      (routine_id : ℕ) (triggered_by : ExecutionTrigger) (id : ℕ) (w : World)
      → ((run env routine_id triggered_by id w).0 ≡ ok tt)
        × ((run env routine_id triggered_by id w).1.effects ≡ w.effects ++ run_effects routine_id w)
  unfolding run Attempted
  run-effects routine_id triggered_by id w =
      let tried = catch (attempt env routine_id id) (λ e. pure (stopped none)) w in
      let ((o, returned), effects) = attempted routine_id id w in
      rw returned (conclude-ok id o tried.1, conclude-IsSilent id o tried.1 ∙ effects)

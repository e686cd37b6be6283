-- ===== src/Startup/Registered/Stopped.antt =====
-- backend/main.py: a start that fails.
use python_fastapi_poc.Prelude.{
  suc, ◌≡◌, refl, ap, ◌∙◌, true, false, List, [], ◌∷◌, ◌++◌, rows_where, first_where, arith, All,
}
use python_fastapi_poc.Models.{Routine}
use python_fastapi_poc.Env.{Env}
use python_fastapi_poc.Identity.{Identity, answered}
use python_fastapi_poc.Session.{
  Result, ok, raise, and_then, Exception, World, select, statement, with_session,
}
use python_fastapi_poc.Redis.{command}
use python_fastapi_poc.Scheduler.{snapshot_of, get_job, register_routine, trigger_of}
use python_fastapi_poc.Routines.{get_row}
use python_fastapi_poc.Routines.Synced.{IsSynced}
use python_fastapi_poc.Startup.{
  is_scheduled, register_all, register_active, settings_are_safe, ping, lifespan,
}
use python_fastapi_poc.Startup.Registered.{
  AreKeys, Builds, left, left-none, registered, Reads-register_all,
}

module _ (env : Env) where
  -- Once the first registration has returned, the others follow.
  after_first :
      (before after : List Routine) (out : Result (Unit {0}) × World)
      → ((v : World)
          → (register_all env before v).0 ≡ ok tt
          → register_all env (before ++ after) v
            ≡ register_all env after (register_all env before v).1)
      → (and_then out.0 (λ _. register_all env before) out.1).0 ≡ ok tt
      → and_then out.0 (λ _. register_all env (before ++ after)) out.1
        ≡ register_all env after (and_then out.0 (λ _. register_all env before) out.1).1
  after_first before after (raise e, v) rest done = cc
  after_first before after (ok u, v) rest done = rest v done

  register_all-append :
      (before after : List Routine) (w : World)
      → (register_all env before w).0 ≡ ok tt
      → register_all env (before ++ after) w ≡ register_all env after (register_all env before w).1
  unfolding register_all
  register_all-append [] after w done = refl
  register_all-append (r ∷ before) after w done =
      after_first before after (register_routine env (snapshot_of r) w)
        (register_all-append before after) done

  -- The loop ends at the row, and the rows before it are registered.
  register_all_stops :
      (before after : List Routine) (r : Routine) (e : Exception) (w : World)
      → (register_all env before w).0 ≡ ok tt
      → trigger_of env r.id r.schedule_type r.schedule_config ≡ raise e
      → register_all env (before ++ r ∷ after) w ≡ (raise e, (register_all env before w).1)
  unfolding register_all register_routine
  register_all_stops before after r e w done bad =
      register_all-append before (r ∷ after) w done ∙ rw bad refl

  scheduled-append :
      (before after : List Routine) (r : Routine)
      → is_scheduled r ≡ true
      → rows_where is_scheduled (before ++ r ∷ after)
        ≡ rows_where is_scheduled before ++ r ∷ rows_where is_scheduled after
  unfolding rows_where
  scheduled-append [] after r on = rw on refl
  scheduled-append (s ∷ before) after r on = ground (arith, scheduled-append before after r on)

  -- A start with Redis and the database there, with safe settings, the scheduler enabled and no jobs
  -- yet fails with the exception of an active row whose trigger cannot be built, if the rows before
  -- it have different keys and triggers that can be built. The table is as it was, and the scheduler
  -- has the jobs of the rows before that one, and no other jobs.
  pub lifespan_stops :
      (identity : Identity) (before after : List Routine) (r : Routine) (e : Exception) (w : World)
      → identity.answer w.commands ≡ answered
      → settings_are_safe identity.settings ≡ true
      → identity.settings.scheduler_enabled ≡ true
      → env.fails w.statements ≡ false
      → w.jobs ≡ []
      → w.committed.routines ≡ before ++ r ∷ after
      → AreKeys before
      → All (Builds env) before
      → is_scheduled r ≡ true
      → trigger_of env r.id r.schedule_type r.schedule_config ≡ raise e
      → ((lifespan env identity w).0 ≡ raise e)
        × ((lifespan env identity w).1.committed ≡ w.committed)
        × IsSynced env before (lifespan env identity w).1.jobs
  unfolding lifespan ping command register_active select statement with_session get_job first_where
  lifespan_stops identity before after r e w there safe enabled works empty rows keys builds on
        bad =
      let w₁ : World = record w {
        readings = suc w.readings;
        commands = suc w.commands;
        statements = suc w.statements;
        working = w.committed;
      } in
      let first = rows_where is_scheduled before in
      let all_rows : rows_where is_scheduled w.committed.routines
          ≡ first ++ r ∷ rows_where is_scheduled after =
        ap (rows_where is_scheduled) rows ∙ scheduled-append before after r on in
      let whole : lifespan env identity w ≡ (raise e, (register_all env first w₁).1) =
        rw (there, safe, enabled, works, all_rows)
          (register_all_stops first (rows_where is_scheduled after) r e w₁
            (registered env before 0 w₁ keys builds).0 bad) in
      (
        ap (λ out. out.0) whole,
        ap (λ out. out.1.committed) whole ∙ Reads-register_all env first w₁,
        record {
          at_key = λ key.
              ap (λ out. get_job key out.1.jobs) whole
              ∙ (registered env before key w₁ keys builds).1
              ∙ ap (λ jobs. left env (get_row key before) (get_job key jobs)) empty
              ∙ left-none env (get_row key before);
        },
      )

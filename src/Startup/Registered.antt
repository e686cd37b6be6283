-- ===== src/Startup/Registered.antt =====
-- What a start leaves in the scheduler.
pub mod Stopped
use python_fastapi_poc.Prelude.{
  ℕ, suc, ◌≡◌, refl, sym, ap, ◌∙◌, inl, inr, true, false, Option, none, some, List, [], ◌∷◌, ◌++◌,
  ◌==◌, ◌&&◌, rows_where, first_where, if◌then◌else◌, arith, Bool-cases, All, ==_iff, subst,
}
use python_fastapi_poc.Models.{Routine}
use python_fastapi_poc.Env.{Env}
use python_fastapi_poc.Identity.{Identity, answered}
use python_fastapi_poc.Session.{
  Result, ok, raise, and_then, Exception, World, Job, Trigger, select, statement, with_session,
}
use python_fastapi_poc.Redis.{command}
use python_fastapi_poc.Scheduler.{snapshot_of, get_job, register_routine, trigger_of}
use python_fastapi_poc.Scheduler.Jobs.{
  job_for, replaced, get-register_routine, Reads-register_routine, register_routine-ok,
}
use python_fastapi_poc.Routines.{get_row}
use python_fastapi_poc.Routines.Synced.{IsSynced, wanted, job_for-manual}
use python_fastapi_poc.Startup.{
  is_scheduled, register_all, register_active, settings_are_safe, ping, lifespan,
}

-- PRIMARY KEY: no id is used twice.
abbrev pub AreKeys : List Routine → Type 0
AreKeys [] = Unit
AreKeys (r ∷ routines) = (get_row r.id routines ≡ none) × AreKeys routines

-- The trigger of a row that is to be registered can be built.
abbrev pub Builds : Env → Routine → Type 0
Builds env r =
    is_scheduled r ≡ true
    → (t : Option Trigger) × (trigger_of env r.id r.schedule_type r.schedule_config ≡ ok t)

module _ (env : Env) where
  -- What the registration of a table leaves under a key.
  abbrev left : Option Routine → Option Job → Option Job
  left none old = old
  left (some r) old = if is_scheduled r then replaced (job_for env (snapshot_of r)) old else old

  register_all-step :
      (r : Routine) (routines : List Routine) (t : Option Trigger) (w : World)
      → trigger_of env r.id r.schedule_type r.schedule_config ≡ ok t
      → register_all env (r ∷ routines) w
        ≡ register_all env routines (register_routine env (snapshot_of r) w).1
  unfolding register_all
  register_all-step r routines t w h = rw (register_routine-ok env (snapshot_of r) t w h) refl

  left-cons :
      (r : Routine) (routines : List Routine) (key : ℕ) (old : Option Job)
      → get_row r.id routines ≡ none
      → left (get_row key (r ∷ routines)) old
        ≡ left (get_row key routines) (
            if is_scheduled r && (r.id == key)
            then replaced (job_for env (snapshot_of r)) old
            else old)
  unfolding first_where
  left-cons r routines key old fresh = elim (Bool-cases (r.id == key)) [
    | inr other ↦ rw other (ground arith)
    | inl same ↦
        let here : get_row key routines ≡ none =
          subst (λ k. get_row k routines ≡ none) ((==_iff r.id key).0 same) fresh in
        rw (same, here) (ground arith)
  ]

  -- Rows with keys are registered all, and each key has what its row asks for.
  registered :
      (routines : List Routine) (key : ℕ) (w : World)
      → AreKeys routines
      → All (Builds env) routines
      → ((register_all env (rows_where is_scheduled routines) w).0 ≡ ok tt)
        × (get_job key (register_all env (rows_where is_scheduled routines) w).1.jobs
            ≡ left (get_row key routines) (get_job key w.jobs))
  unfolding register_all first_where rows_where
  registered [] key w keys builds = (refl, refl)
  registered (r ∷ routines) key w (fresh, keys) (build, builds) =
      elim (Bool-cases (is_scheduled r)) [
        | inr off ↦
            let (done, jobs) = registered routines key w keys builds in
            rw off
              (done, jobs ∙ sym (left-cons r routines key (get_job key w.jobs) fresh ∙ rw off refl))
        | inl on ↦
            let (t, h) = build on in
            let w₁ = (register_routine env (snapshot_of r) w).1 in
            let (done, jobs) = registered routines key w₁ keys builds in
            let step = register_all-step r (rows_where is_scheduled routines) t w h in
            rw on (
              ap (λ out. out.0) step ∙ done,
              ap (λ out. get_job key out.1.jobs) step
                  ∙ jobs
                  ∙ ap (left (get_row key routines))
                      (get-register_routine env (snapshot_of r) key w)
                  ∙ sym (left-cons r routines key (get_job key w.jobs) fresh ∙ rw on refl),
            )
      ]

  Reads-register_all :
      (routines : List Routine) (w : World)
      → (register_all env routines w).1.committed ≡ w.committed
  unfolding register_all
  Reads-register_all [] w = refl
  Reads-register_all (r ∷ routines) w =
      let first = Reads-register_routine env (snapshot_of r) w in
      let rest = Reads-register_all routines (register_routine env (snapshot_of r) w).1 in
      ground (arith, rest)

  -- The job that a row asks for is what registration leaves where there was none.
  left-none : (row : Option Routine) → left row none ≡ wanted env row
  unfolding is_scheduled
  left-none none = refl
  left-none (some r) = ground (arith, job_for-manual env r)

  -- After a select on a server that answers.
  register_active-IsSynced :
      (w : World)
      → env.fails w.statements ≡ false
      → w.jobs ≡ []
      → AreKeys w.committed.routines
      → All (Builds env) w.committed.routines
      → ((register_active env w).0 ≡ ok tt)
        × ((register_active env w).1.committed ≡ w.committed)
        × IsSynced env w.committed.routines (register_active env w).1.jobs
  unfolding register_active select statement with_session get_job first_where
  register_active-IsSynced w works empty keys builds =
      let routines = w.committed.routines in
      let w₁ : World = record w { working = w.committed; statements = suc w.statements } in
      let whole : register_active env w ≡ register_all env (rows_where is_scheduled routines) w₁ =
        rw works refl in
      (
        ap (λ out. out.0) whole ∙ (registered routines 0 w₁ keys builds).0,
        ap (λ out. out.1.committed) whole
            ∙ Reads-register_all (rows_where is_scheduled routines) w₁,
        record {
          at_key = λ key.
              ap (λ out. get_job key out.1.jobs) whole
              ∙ (registered routines key w₁ keys builds).1
              ∙ ap (λ jobs. left (get_row key routines) (get_job key jobs)) empty
              ∙ left-none (get_row key routines);
        },
      )

  -- A start with Redis and the database there, with safe settings, of a program without jobs whose
  -- active routines have schedules that can be registered, succeeds; the scheduler is then in step
  -- with the table, and the table is as it was.
  pub lifespan-IsSynced :
      (identity : Identity) (w : World)
      → identity.answer w.commands ≡ answered
      → settings_are_safe identity.settings ≡ true
      → identity.settings.scheduler_enabled ≡ true
      → env.fails w.statements ≡ false
      → w.jobs ≡ []
      → AreKeys w.committed.routines
      → All (Builds env) w.committed.routines
      → ((lifespan env identity w).0 ≡ ok tt)
        × ((lifespan env identity w).1.committed ≡ w.committed)
        × IsSynced env w.committed.routines (lifespan env identity w).1.jobs
  unfolding lifespan ping command
  lifespan-IsSynced identity w there safe enabled works empty keys builds =
      rw (there, safe, enabled)
        (register_active-IsSynced
          (record w { readings = suc w.readings; commands = suc w.commands }) works empty keys
          builds)

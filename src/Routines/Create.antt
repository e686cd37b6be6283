-- ===== src/Routines/Create.antt =====
-- What `create_routine` commits, and the job that it registers.
use python_fastapi_poc.Prelude.{
  ℕ, ◌≡◌, ap, subst, sym, ◌∙◌, Option, none, some, List, [], ◌∷◌, ◌++◌, map, ◌==◌, ◌&&◌, not,
  if◌then◌else◌, arith, Bool-cases, ==_iff, inl, inr,
}
use python_fastapi_poc.Models.{Routine, Db}
use python_fastapi_poc.Env.{Env}
use python_fastapi_poc.Schemas.{RoutineCreate}
use python_fastapi_poc.Session.{World, Job, ok, pure, ◌>>=◌, ◌>>◌, commit, refresh}
use python_fastapi_poc.Session.Commits.{
  Ensures, bind-Ensures, commit-ok, refresh-ok, jobs-commit, jobs-refresh, Reads-refresh,
}
use python_fastapi_poc.Scheduler.{snapshot_of, get_job}
use python_fastapi_poc.Scheduler.Jobs.{
  job_for, replaced, get-register_routine, Reads-register_routine,
}
use python_fastapi_poc.Routines.{
  get_row, on_routines, is_manual, add_routine, register_if_active, refresh_routine, create_routine,
}
use python_fastapi_poc.Routines.Synced.{
  IsSynced, wanted, get_row-snoc, get_row-snoc_other, get_row-fresh, job_for-manual,
}

-- The new row, with what the server draws for it.
abbrev pub created : Env → RoutineCreate → World → Routine
created env payload w = record {
  id = env.new_id w.statements (map (λ r. r.id) w.working.routines);
  name = payload.name;
  description = payload.description;
  schedule_type = payload.schedule_type;
  schedule_config = payload.schedule_config;
  is_active = payload.is_active;
  created_at = env.now w.readings;
}

created-fresh :
    (env : Env) (payload : RoutineCreate) (w : World)
    → get_row (created env payload w).id w.working.routines ≡ none
created-fresh env payload w =
    get_row-fresh _ w.working.routines
      (env.new_id-fresh w.statements (map (λ r. r.id) w.working.routines))

created-found :
    (env : Env) (payload : RoutineCreate) (w : World)
    → get_row (created env payload w).id (w.working.routines ++ created env payload w ∷ [])
      ≡ some (created env payload w)
created-found env payload w =
    let row = created env payload w in
    ground (arith, get_row-snoc row.id w.working.routines row (created-fresh env payload w))

-- What the last steps do to the committed tables and the jobs, once they return r.
record IsRegistered (env : Env) (committed : Db) (jobs : List Job) (r : Routine) (after : World)
    : Type 0 where
  stored : after.committed ≡ committed
  job_at :
      (key : ℕ)
      → get_job key after.jobs ≡ (
          if (r.is_active && not (is_manual r.schedule_type)) && (r.id == key)
          then replaced (job_for env (snapshot_of r)) (get_job key jobs)
          else get_job key jobs)

module _ (env : Env) where
  module _ (committed : Db) (jobs : List Job) where
    register_if_active-IsRegistered :
        (r : Routine) (v : World)
        → v.committed ≡ committed
        → v.jobs ≡ jobs
        → IsRegistered env committed jobs r (register_if_active env r v).1
    unfolding register_if_active
    register_if_active-IsRegistered r v c j = record {
      stored = ground (arith, Reads-register_routine env (snapshot_of r) v);
      job_at = λ key. rw (← j) (ground (arith, get-register_routine env (snapshot_of r) key v));
    }

    after_register :
        (s : Routine) (v : World)
        → v.committed ≡ committed
        → v.jobs ≡ jobs
        → Ensures
            (λ r after. (r ≡ s) × IsRegistered env committed jobs r after)
            ((register_if_active env s >> pure s) v)
    after_register s v c j =
        bind-Ensures (λ r after. (r ≡ s) × IsRegistered env committed jobs r after)
          (register_if_active env s) (λ _. pure s) v
          λ u returned r h.
            let same : s ≡ r = ground arith in
            (
              sym same,
              subst (λ x. IsRegistered env committed jobs x (register_if_active env s v).1) same
                  (register_if_active-IsRegistered s v c j),
            )

    after_refresh :
        (id : ℕ) (v : World)
        → v.committed ≡ committed
        → v.jobs ≡ jobs
        → Ensures
            (λ r after.
              (get_row id v.working.routines ≡ some r) × IsRegistered env committed jobs r after)
            ((refresh_routine env id >>= λ s. register_if_active env s >> pure s) v)
    unfolding refresh_routine
    after_refresh id v c j =
        let query = λ (db : Db). get_row id db.routines in
        bind-Ensures
          (λ r after.
            (get_row id v.working.routines ≡ some r) × IsRegistered env committed jobs r after)
          (refresh env query) (λ s. register_if_active env s >> pure s) v
          λ s loaded r h.
            let (same, done) =
              after_register s (refresh env query v).1 (Reads-refresh env query v ∙ c)
                (jobs-refresh env query v ∙ j) r h in
            ((refresh-ok env query v loaded).0 ∙ ap some (sym same), done)

  -- A creation that returns has committed the row, and registered its job if it asks for one.
  create_routine-Ensures :
      (payload : RoutineCreate) (w : World)
      → Ensures
          (λ r after.
            (r ≡ created env payload w)
            × IsRegistered env
                (on_routines (λ l. l ++ created env payload w ∷ []) w.working)
                w.jobs
                r
                after)
          (create_routine env payload w)
  unfolding create_routine add_routine
  create_routine-Ensures payload w =
      let w' = (add_routine env payload w).1 in
      let id = (created env payload w).id in
      bind-Ensures
        (λ r after. (r ≡ created env payload w) × IsRegistered env w'.working w.jobs r after)
        (commit env) (λ _. refresh_routine env id >>= λ s. register_if_active env s >> pure s) w'
        λ u committed r h.
          let (done, kept) = commit-ok env w' committed in
          let (found, registered) =
            after_refresh w'.working w.jobs id (commit env w').1 done (jobs-commit env w') r h in
          (
            cc (found, ap (λ (db : Db). get_row id db.routines) kept, created-found env payload w),
            registered,
          )

created-IsSynced :
    (env : Env) (row : Routine) (routines : List Routine) (jobs : List Job) (key : ℕ)
    (after : Option Job)
    → get_job key jobs ≡ wanted env (get_row key routines)
    → get_row row.id routines ≡ none
    → after ≡ (
        if (row.is_active && not (is_manual row.schedule_type)) && (row.id == key)
        then replaced (job_for env (snapshot_of row)) (get_job key jobs)
        else get_job key jobs)
    → after ≡ wanted env (get_row key (routines ++ row ∷ []))
created-IsSynced env row routines jobs key after h fresh e = elim (Bool-cases (row.id == key)) [
  | inr other ↦ e ∙ rw (get_row-snoc_other key routines row other) (ground (arith, h))
  | inl same ↦
      let here : get_row key routines ≡ none =
        subst (λ k. get_row k routines ≡ none) ((==_iff row.id key).0 same) fresh in
      e
      ∙ rw (get_row-snoc key routines row here)
          (ground (arith, h ∙ ap (wanted env) here, job_for-manual env row))
]

module _ (env : Env) where
  -- Creating a routine keeps the scheduler in step with the table, if it returns.
  pub create_routine-IsSynced :
      (payload : RoutineCreate) (w : World) (r : Routine)
      → IsSynced env w.working.routines w.jobs
      → (create_routine env payload w).0 ≡ ok r
      → IsSynced env
          (create_routine env payload w).1.committed.routines
          (create_routine env payload w).1.jobs
  create_routine-IsSynced payload w r h returned =
      let (same, done) = create_routine-Ensures env payload w r returned in
      record {
        at_key = λ key. rw done.stored (
            created-IsSynced env (created env payload w) w.working.routines w.jobs key _
              (h.at_key key) (created-fresh env payload w)
              (subst
                (λ x. get_job key (create_routine env payload w).1.jobs ≡ (
                  if (x.is_active && not (is_manual x.schedule_type)) && (x.id == key)
                  then replaced (job_for env (snapshot_of x)) (get_job key w.jobs)
                  else get_job key w.jobs))
                same (done.job_at key)));
      }

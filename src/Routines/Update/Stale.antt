-- ===== src/Routines/Update/Stale.antt =====
-- The switch of an active routine to a manual schedule, which the scheduler is not told of.
use python_fastapi_poc.Prelude.{ℕ, ◌≡◌, refl, ap, ◌∙◌, true, some, List, arith, ==-refl}
use python_fastapi_poc.Domain.{ScheduleType}
use python_fastapi_poc.Models.{Routine, Db}
use python_fastapi_poc.Env.{Env}
use python_fastapi_poc.Schemas.{RoutineUpdate, validate_routine_schedule}
use python_fastapi_poc.Session.{ok, World, Job, catch, lift, flush, commit, ◌>>◌}
use python_fastapi_poc.Session.Commits.{
  Ensures, bind-Ensures, catch-Ensures, Reads-refresh, flush-ok, commit-ok, jobs-flush, jobs-commit,
  jobs-refresh,
}
use python_fastapi_poc.Scheduler.{snapshot_of, get_job}
use python_fastapi_poc.Routines.{
  get_row, on_routines, is_manual, set_row, next_schedule_type, next_schedule_config, assign_fields,
  sync_scheduler, undo_update, stage_update, abandon, apply_update, refresh_routine, update_checked,
  update_routine,
}
use python_fastapi_poc.Routines.Synced.{IsSynced, wanted, get-set_row, job_for-manual}
use python_fastapi_poc.Routines.Update.{
  Reads-sync_scheduler, undo_update-raises, abandon-raises, assign_fields-schedule,
}
use python_fastapi_poc.Routines.Update.Request.{assign_fields-id}

-- The row is written, and the jobs are as they were.
record IsStale (before : World) (new : Routine) (after : World) : Type 0 where
  rows : after.committed ≡ on_routines (set_row new) before.working
  jobs : after.jobs ≡ before.jobs

module _ (env : Env) (old new : Routine) (was : old.is_active ≡ true) (stays : new.is_active ≡ true)
    (switched : is_manual new.schedule_type ≡ true) where
  sync_scheduler-stale : (v : World) → (sync_scheduler env (snapshot_of old) new v).1.jobs ≡ v.jobs
  unfolding sync_scheduler
  sync_scheduler-stale v = ground arith

  stage_update-stale :
      (w : World)
      → Ensures
          (λ act after.
            (after.working ≡ on_routines (set_row new) w.working) × (after.jobs ≡ w.jobs))
          (stage_update env (snapshot_of old) new w)
  unfolding stage_update
  stage_update-stale w =
      let w' : World = record w { working = on_routines (set_row new) w.working } in
      bind-Ensures
        (λ act after. (after.working ≡ on_routines (set_row new) w.working) × (after.jobs ≡ w.jobs))
        (flush env) (λ _. sync_scheduler env (snapshot_of old) new) w'
        λ u flushed act synced. (
          (Reads-sync_scheduler env (snapshot_of old) new (flush env w').1).1
              ∙ flush-ok env w' flushed,
          sync_scheduler-stale (flush env w').1 ∙ jobs-flush env w',
        )

  apply_update-IsStale :
      (w : World)
      → Ensures (λ u after. IsStale w new after) (apply_update env (snapshot_of old) new w)
  unfolding apply_update
  apply_update-IsStale w =
      let staged = catch (stage_update env (snapshot_of old) new) (abandon env (snapshot_of old)) in
      bind-Ensures (λ u after. IsStale w new after) staged
        (λ act. catch (commit env) (undo_update env (snapshot_of old) act)) w
        λ act returned.
          let (rows, jobs) =
            catch-Ensures
              (λ a after.
                (after.working ≡ on_routines (set_row new) w.working) × (after.jobs ≡ w.jobs))
              (abandon env (snapshot_of old)) (abandon-raises env (snapshot_of old))
              (stage_update env (snapshot_of old) new) w (stage_update-stale w) act returned in
          catch-Ensures (λ u after. IsStale w new after) (undo_update env (snapshot_of old) act)
            (undo_update-raises env (snapshot_of old) act) (commit env) (staged w).1
            λ u committed. record {
              rows = (commit-ok env (staged w).1 committed).0 ∙ rows;
              jobs = jobs-commit env (staged w).1 ∙ jobs;
            }

-- A row that is written is found under its key.
get-set_row_same :
    (key : ℕ) (old new : Routine) (routines : List Routine)
    → new.id ≡ key
    → get_row key routines ≡ some old
    → get_row key (set_row new routines) ≡ some new
get-set_row_same key old new routines same found =
    get-set_row key new routines ∙ ground (arith, ==-refl key, found, same)

module _ (env : Env) where
  -- A manual routine with a job is a scheduler out of step.
  manual_job-refuted :
      (key : ℕ) (new : Routine) (routines : List Routine) (jobs : List Job) (j : Job)
      → new.schedule_type ≡ ScheduleType.manual
      → get_row key routines ≡ some new
      → get_job key jobs ≡ some j
      → ¬ IsSynced env routines jobs
  manual_job-refuted key new routines jobs j manual row job synced =
      let none_wanted = job_for-manual env new (rw manual refl) in
      ground (arith, synced.at_key key, none_wanted, row, job, ap (wanted env) row)

  update_checked-IsStale :
      (old : Routine) (payload : RoutineUpdate) (w : World)
      → old.is_active ≡ true
      → (assign_fields old payload ScheduleType.manual).is_active ≡ true
      → is_manual (assign_fields old payload ScheduleType.manual).schedule_type ≡ true
      → Ensures
          (λ r after. IsStale w (assign_fields old payload ScheduleType.manual) after)
          (update_checked env old payload (some ScheduleType.manual) w)
  unfolding update_checked refresh_routine
  update_checked-IsStale old payload w was stays switched =
      let new = assign_fields old payload ScheduleType.manual in
      let check =
        lift
          (validate_routine_schedule env ScheduleType.manual (next_schedule_config old payload)) in
      bind-Ensures (λ r after. IsStale w new after) check
        (λ _. apply_update env (snapshot_of old) new >> refresh_routine env old.id) w
        λ u valid.
          bind-Ensures (λ r after. IsStale w new after) (apply_update env (snapshot_of old) new)
            (λ _. refresh_routine env old.id) w
            λ u' applied r loaded.
              let s = apply_update-IsStale env old new was stays switched w u' applied in
              let v = (apply_update env (snapshot_of old) new w).1 in
              let query = λ (db : Db). get_row old.id db.routines in
              record {
                rows = Reads-refresh env query v ∙ s.rows;
                jobs = jobs-refresh env query v ∙ s.jobs;
              }

  -- An active routine that has a job, and that an update makes manual while it stays active, keeps
  -- its job: when the update returns, the job is still registered, and the scheduler is no longer
  -- in step with the table.
  pub update_routine_to_manual :
      (old : Routine) (payload : RoutineUpdate) (w : World) (r : Routine) (j : Job)
      → get_row old.id w.working.routines ≡ some old
      → get_job old.id w.jobs ≡ some j
      → old.is_active ≡ true
      → (assign_fields old payload ScheduleType.manual).is_active ≡ true
      → next_schedule_type old payload ≡ some ScheduleType.manual
      → (update_routine env old payload w).0 ≡ ok r
      → (get_job old.id (update_routine env old payload w).1.jobs ≡ some j)
        × (¬ IsSynced env
            (update_routine env old payload w).1.committed.routines
            (update_routine env old payload w).1.jobs)
  unfolding update_routine
  update_routine_to_manual old payload w r j found job was stays chosen returned =
      let new = assign_fields old payload ScheduleType.manual in
      let manual = (assign_fields-schedule old payload ScheduleType.manual chosen).0 in
      let main : Ensures (λ x after. IsStale w new after) (update_routine env old payload w) =
        rw chosen (update_checked-IsStale old payload w was stays (rw manual refl)) in
      let s = main r returned in
      let here : get_job old.id (update_routine env old payload w).1.jobs ≡ some j =
        ap (get_job old.id) s.jobs ∙ job in
      let row : get_row old.id (update_routine env old payload w).1.committed.routines ≡ some new =
        ap (λ (db : Db). get_row old.id db.routines) s.rows
        ∙ get-set_row_same old.id old new w.working.routines
            (assign_fields-id old payload ScheduleType.manual) found in
      (
        here,
        manual_job-refuted old.id new (update_routine env old payload w).1.committed.routines
            (update_routine env old payload w).1.jobs j manual row here,
      )

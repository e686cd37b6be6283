-- ===== src/Routines/Update/Request.antt =====
-- `update_routine` that returns: the row that is committed, and the jobs.
use python_fastapi_poc.Prelude.{
  ℕ, ◌≡◌, refl, ap, subst, ◌∙◌, inl, inr, false, some, List, ◌==◌, ◌&&◌, not, Bool-cases, ==_iff,
}
use python_fastapi_poc.Domain.{ScheduleType}
use python_fastapi_poc.Models.{Routine, Db}
use python_fastapi_poc.Env.{Env}
use python_fastapi_poc.Schemas.{RoutineUpdate, validate_routine_schedule}
use python_fastapi_poc.Session.{ok, World, Job, catch, lift, flush, commit, ◌>>◌}
use python_fastapi_poc.Session.Commits.{
  Ensures, bind-Ensures, catch-Ensures, Reads-refresh, flush-ok, commit-ok, jobs-flush, jobs-commit,
  jobs-refresh,
}
use python_fastapi_poc.Scheduler.{snapshot_of, get_job}
use python_fastapi_poc.Routines.{
  get_row, on_routines, is_manual, set_row, next_schedule_type, next_schedule_config, assign_fields,
  sync_scheduler, undo_update, stage_update, abandon, apply_update, refresh_routine, update_routine,
}
use python_fastapi_poc.Routines.Synced.{IsSynced, row_job, wanted, get-set_row}
use python_fastapi_poc.Routines.Schedule.{TextCrontabs, IsValidSchedule}
use python_fastapi_poc.Routines.Update.{
  sync_scheduler-job, sync_scheduler-other, Reads-sync_scheduler, undo_update-raises,
  abandon-raises, assign_fields-schedule,
}

-- After the update: the jobs of the routine and of the others, and what is committed.
record IsUpdated (env : Env) (before : World) (new : Routine) (after : World) : Type 0 where
  stored : after.committed ≡ on_routines (set_row new) before.working
  own_job : get_job new.id after.jobs ≡ row_job env new
  other_jobs :
      (key : ℕ) → (new.id == key) ≡ false → get_job key after.jobs ≡ get_job key before.jobs

-- What is known of the open transaction and the jobs after the scheduler's step.
record IsStaged (env : Env) (before : World) (new : Routine) (after : World) : Type 0 where
  rows : after.working ≡ on_routines (set_row new) before.working
  own : get_job new.id after.jobs ≡ row_job env new
  others : (key : ℕ) → (new.id == key) ≡ false → get_job key after.jobs ≡ get_job key before.jobs

module _ (env : Env) (old new : Routine) (same : new.id ≡ old.id) (law : TextCrontabs env)
    (old_valid : IsValidSchedule env old.schedule_type old.schedule_config)
    (new_valid : IsValidSchedule env new.schedule_type new.schedule_config)
    (keeps : (old.is_active
        && not (is_manual old.schedule_type)
        && new.is_active
        && is_manual new.schedule_type)
      ≡ false) where
  stage_update-IsStaged :
      (w : World)
      → get_job old.id w.jobs ≡ row_job env old
      → Ensures (λ act after. IsStaged env w new after) (stage_update env (snapshot_of old) new w)
  unfolding stage_update
  stage_update-IsStaged w h =
      let w' : World = record w { working = on_routines (set_row new) w.working } in
      bind-Ensures (λ act after. IsStaged env w new after) (flush env)
        (λ _. sync_scheduler env (snapshot_of old) new) w'
        λ u flushed act synced.
          let v = (flush env w').1 in
          let jobs : v.jobs ≡ w.jobs = jobs-flush env w' in
          let (same_committed, same_working) = Reads-sync_scheduler env (snapshot_of old) new v in
          record {
            rows = same_working ∙ flush-ok env w' flushed;
            own =
                sync_scheduler-job env old new v same law old_valid new_valid keeps
                  (ap (get_job new.id) jobs ∙ ap (λ k. get_job k w.jobs) same ∙ h) act synced;
            others = λ key other.
                sync_scheduler-other env (snapshot_of old) new key v other ∙ ap (get_job key) jobs;
          }

  apply_update-IsUpdated :
      (w : World)
      → get_job old.id w.jobs ≡ row_job env old
      → Ensures (λ u after. IsUpdated env w new after) (apply_update env (snapshot_of old) new w)
  unfolding apply_update abandon
  apply_update-IsUpdated w h =
      let staged = catch (stage_update env (snapshot_of old) new) (abandon env (snapshot_of old)) in
      bind-Ensures (λ u after. IsUpdated env w new after) staged
        (λ act. catch (commit env) (undo_update env (snapshot_of old) act)) w
        λ act returned.
          let s =
            catch-Ensures (λ a after. IsStaged env w new after) (abandon env (snapshot_of old))
              (abandon-raises env (snapshot_of old)) (stage_update env (snapshot_of old) new) w
              (stage_update-IsStaged w h) act returned in
          let v = (staged w).1 in
          catch-Ensures (λ u after. IsUpdated env w new after)
            (undo_update env (snapshot_of old) act) (undo_update-raises env (snapshot_of old) act)
            (commit env) v
            λ u committed.
              let (done, kept) = commit-ok env v committed in
              record {
                stored = done ∙ s.rows;
                own_job = ap (get_job new.id) (jobs-commit env v) ∙ s.own;
                other_jobs = λ key other. ap (get_job key) (jobs-commit env v) ∙ s.others key other;
              }

pub assign_fields-id :
    (r : Routine) (payload : RoutineUpdate) (t : ScheduleType)
    → (assign_fields r payload t).id ≡ r.id
unfolding assign_fields
assign_fields-id r payload t = refl

-- Every key of the updated table, from the routine's own and the others.
updated-at_key :
    (env : Env) (new : Routine) (routines : List Routine) (jobs jobs' : List Job) (key : ℕ)
    (old : Routine)
    → get_row new.id routines ≡ some old
    → get_job key jobs ≡ wanted env (get_row key routines)
    → get_job new.id jobs' ≡ row_job env new
    → ((new.id == key) ≡ false → get_job key jobs' ≡ get_job key jobs)
    → get_job key jobs' ≡ wanted env (get_row key (set_row new routines))
updated-at_key env new routines jobs jobs' key old found h own others =
    rw (get-set_row key new routines) (elim (Bool-cases (new.id == key)) [
      | inl here ↦
          let k = (==_iff new.id key).0 here in
          let found' : get_row key routines ≡ some old =
            subst (λ i. get_row i routines ≡ some old) k found in
          rw (here, found') (subst (λ i. get_job i jobs' ≡ row_job env new) k own)
      | inr other ↦ rw other (others other ∙ h)
    ])

-- Where the scheduler and the table stand after an operation.
abbrev InStep : Env → Routine → World → Type 0
InStep env r after = IsSynced env after.committed.routines after.jobs

module _ (env : Env) (law : TextCrontabs env) (old : Routine) (payload : RoutineUpdate)
    (next : ScheduleType) (old_valid : IsValidSchedule env old.schedule_type old.schedule_config)
    (chosen : next_schedule_type old payload ≡ some next)
    (keeps : (old.is_active
        && not (is_manual old.schedule_type)
        && (assign_fields old payload next).is_active
        && is_manual next)
      ≡ false) where
  abbrev new : Routine
  new = assign_fields old payload next

  applied-IsUpdated :
      (w : World)
      → IsValidSchedule env next (next_schedule_config old payload)
      → get_job old.id w.jobs ≡ row_job env old
      → Ensures (λ u after. IsUpdated env w new after) (apply_update env (snapshot_of old) new w)
  applied-IsUpdated w valid h =
      let (types, configs) = assign_fields-schedule old payload next chosen in
      apply_update-IsUpdated env old new (assign_fields-id old payload next) law old_valid
        (rw (types, configs) valid) (rw types keeps) w h

  validated-InStep :
      (w : World)
      → get_row old.id w.working.routines ≡ some old
      → IsSynced env w.working.routines w.jobs
      → Ensures (InStep env) (
          (lift (validate_routine_schedule env next (next_schedule_config old payload))
              >> (apply_update env (snapshot_of old) new >> refresh_routine env old.id))
            w)
  unfolding refresh_routine
  validated-InStep w found h =
      bind-Ensures (InStep env)
        (lift (validate_routine_schedule env next (next_schedule_config old payload)))
        (λ _. apply_update env (snapshot_of old) new >> refresh_routine env old.id) w
        λ u valid.
          bind-Ensures (InStep env) (apply_update env (snapshot_of old) new)
            (λ _. refresh_routine env old.id) w
            λ u' applied r loaded.
              let done =
                applied-IsUpdated w valid (h.at_key old.id ∙ ap (wanted env) found) u' applied in
              let v = (apply_update env (snapshot_of old) new w).1 in
              record {
                at_key = λ key.
                    rw
                      (
                        Reads-refresh env (λ (db : Db). get_row old.id db.routines) v,
                        jobs-refresh env (λ (db : Db). get_row old.id db.routines) v,
                        done.stored,
                      )
                      (updated-at_key env new w.working.routines w.jobs v.jobs key old
                        (rw (assign_fields-id old payload next) found) (h.at_key key) done.own_job
                        (done.other_jobs key));
              }

module _ (env : Env) where
  -- Updating a routine keeps the scheduler in step with the table, if it returns, the stored
  -- schedule was valid, a valid crontab is a text, and the update does not make an active routine
  -- with a schedule manual.
  pub update_routine-IsSynced :
      (old : Routine) (payload : RoutineUpdate) (next : ScheduleType) (w : World) (r : Routine)
      → TextCrontabs env
      → IsValidSchedule env old.schedule_type old.schedule_config
      → get_row old.id w.working.routines ≡ some old
      → IsSynced env w.working.routines w.jobs
      → next_schedule_type old payload ≡ some next
      → (old.is_active
          && not (is_manual old.schedule_type)
          && (assign_fields old payload next).is_active
          && is_manual next)
        ≡ false
      → (update_routine env old payload w).0 ≡ ok r
      → IsSynced env
          (update_routine env old payload w).1.committed.routines
          (update_routine env old payload w).1.jobs
  unfolding update_routine
  update_routine-IsSynced old payload next w r law old_valid found h chosen keeps returned =
      main r returned
    where
      main : Ensures (InStep env) (update_routine env old payload w)
      main = rw chosen (validated-InStep env law old payload next old_valid chosen keeps w found h)

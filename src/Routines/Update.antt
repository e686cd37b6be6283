-- ===== src/Routines/Update.antt =====
-- What `update_routine` commits, and what it does to the scheduler's jobs when it returns.
pub mod Request
pub mod Stale
use python_fastapi_poc.Prelude.{
  ℕ, ◌≡◌, ◌≢◌, refl, ap, subst, sym, ◌∙◌, inl, inr, Bool, true, false, Option, none, some,
  Option-cases, List, [], ◌∷◌, ◌++◌, map, ◌==◌, ◌&&◌, ◌||◌, not, if◌then◌else◌, arith, or_else,
  Bool-cases, ==_iff, ==-refl, first_where,
}
use python_fastapi_poc.Domain.{ScheduleType, JsonObject, eq_schedule_type}
use python_fastapi_poc.Models.{Routine, Db}
use python_fastapi_poc.Env.{Env}
use python_fastapi_poc.Schemas.{RoutineUpdate, value, is_provided, validate_routine_schedule}
use python_fastapi_poc.Session.{
  Result, ok, raise, Exception, Exec, World, Job, Trigger, pure, catch, throw, lift, modify,
  statement, rollback, flush, commit, refresh, ◌>>=◌, ◌>>◌,
}
use python_fastapi_poc.Session.Commits.{
  Ensures, bind-Ensures, Reads-flush, Reads-refresh, flush-ok, commit-ok, refresh-ok, jobs-flush,
  jobs-commit, jobs-refresh,
}
use python_fastapi_poc.Scheduler.{
  RoutineSchedulerSnapshot, snapshot_of, get_job, trigger_of, register_routine, unregister_routine,
}
use python_fastapi_poc.Scheduler.Jobs.{
  job_for, replaced, get-register_routine, get-unregister_routine, Reads-register_routine,
  Reads-unregister_routine, working-register_routine, working-unregister_routine,
}
use python_fastapi_poc.Routines.{
  get_row, on_routines, is_manual, set_row, eq_config, next_schedule_type, next_schedule_config,
  assign_fields, sync_scheduler, SchedulerAction, undo_update, abandon,
  restore_previous_scheduler_state, apply_update, refresh_routine, update_routine,
}
use python_fastapi_poc.Routines.Synced.{IsSynced, row_job, wanted, get-set_row, job_for-manual}
use python_fastapi_poc.Routines.Schedule.{TextCrontabs, IsValidSchedule, trigger_of-eq_config}

module _ (env : Env) where
  -- A registration that returns has a trigger, unless the schedule is manual.
  register_routine-job_for :
      (s : RoutineSchedulerSnapshot) (old : Option Job) (v : World) {u : Unit {0}}
      → is_manual s.schedule_type ≡ false
      → (register_routine env s v).0 ≡ ok u
      → replaced (job_for env s) old ≡ job_for env s
  unfolding register_routine trigger_of
  register_routine-job_for s old v h e = ground arith

  same_type : (a b : ScheduleType) → eq_schedule_type a b ≡ true → a ≡ b
  same_type a b h = ground arith

  -- An unchanged schedule asks for the same job.
  unchanged_job :
      (old new : Routine)
      → new.id ≡ old.id
      → TextCrontabs env
      → IsValidSchedule env old.schedule_type old.schedule_config
      → IsValidSchedule env new.schedule_type new.schedule_config
      → eq_schedule_type new.schedule_type old.schedule_type ≡ true
      → eq_config env new.schedule_config old.schedule_config ≡ true
      → job_for env (snapshot_of new) ≡ job_for env (snapshot_of old)
  unchanged_job old new same law ho hn t c =
      let types = same_type new.schedule_type old.schedule_type t in
      let hn' : IsValidSchedule env old.schedule_type new.schedule_config = rw types at hn in
      let triggers =
        trigger_of-eq_config env old.id old.schedule_type new.schedule_config old.schedule_config
          law hn' ho c in
      rw (types, same, triggers)

  -- The step of the scheduler gives the routine the job of its new row, if the old job was that of
  -- the old row, and the update does not make an active routine with a schedule manual.
  pub sync_scheduler-job :
      (old new : Routine) (v : World)
      → new.id ≡ old.id
      → TextCrontabs env
      → IsValidSchedule env old.schedule_type old.schedule_config
      → IsValidSchedule env new.schedule_type new.schedule_config
      → (old.is_active
          && not (is_manual old.schedule_type)
          && new.is_active
          && is_manual new.schedule_type)
        ≡ false
      → get_job new.id v.jobs ≡ row_job env old
      → Ensures
          (λ act after. get_job new.id after.jobs ≡ row_job env new)
          (sync_scheduler env (snapshot_of old) new v)
  unfolding sync_scheduler
  sync_scheduler-job old new v same law ho hn keeps h act e = ground (
    arith,
    get-register_routine env (snapshot_of new) new.id v,
    get-unregister_routine new.id new.id v,
    register_routine-job_for (snapshot_of new) (get_job new.id v.jobs) v,
    job_for-manual env old,
    job_for-manual env new,
    unchanged_job old new same law ho hn,
  )

  -- It leaves the jobs of the other routines.
  pub sync_scheduler-other :
      (snapshot : RoutineSchedulerSnapshot) (new : Routine) (key : ℕ) (v : World)
      → (new.id == key) ≡ false
      → get_job key (sync_scheduler env snapshot new v).1.jobs ≡ get_job key v.jobs
  unfolding sync_scheduler
  sync_scheduler-other snapshot new key v other =
      ground (
        arith,
        get-register_routine env (snapshot_of new) key v,
        get-unregister_routine new.id key v,
      )

  pub Reads-sync_scheduler :
      (snapshot : RoutineSchedulerSnapshot) (new : Routine) (v : World)
      → ((sync_scheduler env snapshot new v).1.committed ≡ v.committed)
        × ((sync_scheduler env snapshot new v).1.working ≡ v.working)
  unfolding sync_scheduler
  Reads-sync_scheduler snapshot new v = ground (
    arith,
    Reads-register_routine env (snapshot_of new) v,
    Reads-unregister_routine new.id v,
    working-register_routine env (snapshot_of new) v,
    working-unregister_routine new.id v,
  )

  -- The handler always raises again.
  pub undo_update-raises :
      (snapshot : RoutineSchedulerSnapshot) (act : Option SchedulerAction) (e : Exception)
      (v : World)
      → (u : Unit {0}) → (undo_update env snapshot act e v).0 ≢ ok u
  unfolding undo_update statement rollback
  undo_update-raises snapshot none e v u h = ground arith
  undo_update-raises snapshot (some act) e v u h = ground arith

  pub abandon-raises :
      (snapshot : RoutineSchedulerSnapshot) (e : Exception) (v : World) (a : Option SchedulerAction)
      → (abandon env snapshot e v).0 ≢ ok a
  unfolding abandon undo_update rollback
  abandon-raises snapshot e v a h = ground arith

-- The assignments give the row the schedule that was validated.
pub assign_fields-schedule :
    (r : Routine) (payload : RoutineUpdate) (t : ScheduleType)
    → next_schedule_type r payload ≡ some t
    → ((assign_fields r payload t).schedule_type ≡ t)
      × ((assign_fields r payload t).schedule_config ≡ next_schedule_config r payload)
unfolding assign_fields next_schedule_type next_schedule_config
assign_fields-schedule r payload t h = ground arith

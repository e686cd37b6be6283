-- ===== src/Scheduler/Jobs.antt =====
-- The job table under registration: one lookup law for each operation.
use python_fastapi_poc.Prelude.{
  ℕ, ◌≡◌, refl, Option, none, some, List, [], ◌∷◌, ◌==◌, rows_where, first_where, if◌then◌else◌,
  arith, ap,
}
use python_fastapi_poc.Domain.{ScheduleType}
use python_fastapi_poc.Env.{Env}
use python_fastapi_poc.Session.{Result, ok, raise, Job, Trigger, World, lift, ◌>>=◌}
use python_fastapi_poc.Scheduler.{
  RoutineSchedulerSnapshot, get_job, remove_job, add_job, trigger_of, register_routine,
  register_trigger, unregister_routine,
}

pub get-remove_job :
    (id key : ℕ) (jobs : List Job)
    → get_job key (remove_job id jobs) ≡ (if id == key then none else get_job key jobs)
unfolding get_job remove_job first_where rows_where
get-remove_job id key [] = ground arith
get-remove_job id key (j ∷ jobs) = ground (arith, get-remove_job id key jobs)

get_job-cons :
    (j : Job) (key : ℕ) (jobs : List Job)
    → get_job key (j ∷ jobs) ≡ (if j.routine_id == key then some j else get_job key jobs)
unfolding get_job first_where
get_job-cons j key jobs = refl

pub get-add_job :
    (j : Job) (key : ℕ) (jobs : List Job)
    → get_job key (add_job j jobs) ≡ (if j.routine_id == key then some j else get_job key jobs)
unfolding add_job
get-add_job j key jobs =
    ground (
      arith,
      get_job-cons j key (remove_job j.routine_id jobs),
      get-remove_job j.routine_id key jobs,
    )

-- The job for a trigger that was found.
abbrev job_of : ℕ → ScheduleType → Result (Option Trigger) → Option Job
job_of id t (ok (some trigger)) =
    some record { routine_id = id; trigger = trigger; schedule_type = t }
job_of id t _ = none

-- The job that a schedule asks for, if its trigger can be built.
abbrev pub job_for : Env → RoutineSchedulerSnapshot → Option Job
job_for env s = job_of s.id s.schedule_type (trigger_of env s.id s.schedule_type s.schedule_config)

-- A new job, where there is one, takes the place of the old.
abbrev pub replaced : Option Job → Option Job → Option Job
replaced none old = old
replaced (some j) old = some j

get-register_trigger :
    (id key : ℕ) (t : ScheduleType) (r : Result (Option Trigger)) (w : World)
    → get_job key ((lift r >>= register_trigger id t) w).1.jobs
      ≡ (if id == key then replaced (job_of id t r) (get_job key w.jobs) else get_job key w.jobs)
unfolding register_trigger
get-register_trigger id key t (raise e) w = ground arith
get-register_trigger id key t (ok none) w = ground arith
get-register_trigger id key t (ok (some trigger)) w =
    get-add_job record { routine_id = id; trigger = trigger; schedule_type = t } key w.jobs

-- Registering a routine gives it its job, and touches no other routine's.
pub get-register_routine :
    (env : Env) (s : RoutineSchedulerSnapshot) (key : ℕ) (w : World)
    → get_job key (register_routine env s w).1.jobs
      ≡ (if s.id == key then replaced (job_for env s) (get_job key w.jobs) else get_job key w.jobs)
unfolding register_routine
get-register_routine env s key w =
    get-register_trigger s.id key s.schedule_type
      (trigger_of env s.id s.schedule_type s.schedule_config) w

pub get-unregister_routine :
    (id key : ℕ) (w : World)
    → get_job key (unregister_routine id w).1.jobs
      ≡ (if id == key then none else get_job key w.jobs)
unfolding unregister_routine
get-unregister_routine id key w =
    ground (arith, get-remove_job id key w.jobs, ap (λ k. get_job k w.jobs) {x = id} {y = key})

-- Registration touches no table.
Reads-register_trigger :
    (id : ℕ) (t : ScheduleType) (r : Result (Option Trigger)) (w : World)
    → ((lift r >>= register_trigger id t) w).1.committed ≡ w.committed
unfolding register_trigger
Reads-register_trigger id t (raise e) w = refl
Reads-register_trigger id t (ok none) w = refl
Reads-register_trigger id t (ok (some trigger)) w = refl

pub Reads-register_routine :
    (env : Env) (s : RoutineSchedulerSnapshot) (w : World)
    → (register_routine env s w).1.committed ≡ w.committed
unfolding register_routine
Reads-register_routine env s w =
    Reads-register_trigger s.id s.schedule_type
      (trigger_of env s.id s.schedule_type s.schedule_config) w

pub Reads-unregister_routine :
    (id : ℕ) (w : World) → (unregister_routine id w).1.committed ≡ w.committed
unfolding unregister_routine
Reads-unregister_routine id w = ground arith

working-register_trigger :
    (id : ℕ) (t : ScheduleType) (r : Result (Option Trigger)) (w : World)
    → ((lift r >>= register_trigger id t) w).1.working ≡ w.working
unfolding register_trigger
working-register_trigger id t (raise e) w = refl
working-register_trigger id t (ok none) w = refl
working-register_trigger id t (ok (some trigger)) w = refl

pub working-register_routine :
    (env : Env) (s : RoutineSchedulerSnapshot) (w : World)
    → (register_routine env s w).1.working ≡ w.working
unfolding register_routine
working-register_routine env s w =
    working-register_trigger s.id s.schedule_type
      (trigger_of env s.id s.schedule_type s.schedule_config) w

pub working-unregister_routine :
    (id : ℕ) (w : World) → (unregister_routine id w).1.working ≡ w.working
unfolding unregister_routine
working-unregister_routine id w = ground arith

register_trigger-ok :
    (id : ℕ) (type : ScheduleType) (t : Option Trigger) (w : World)
    → (register_trigger id type t w).0 ≡ ok tt
unfolding register_trigger
register_trigger-ok id type none w = refl
register_trigger-ok id type (some trigger) w = refl

-- Registration returns if the trigger can be built.
pub register_routine-ok :
    (env : Env) (s : RoutineSchedulerSnapshot) (t : Option Trigger) (w : World)
    → trigger_of env s.id s.schedule_type s.schedule_config ≡ ok t
    → (register_routine env s w).0 ≡ ok tt
unfolding register_routine
register_routine-ok env s t w h = rw h (register_trigger-ok s.id s.schedule_type t w)

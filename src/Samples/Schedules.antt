-- ===== src/Samples/Schedules.antt =====
-- The requests on routines and their schedules, on the small tables.
use Prim.Native.String.append
use Prim.Native.String.{◌++◌ as str_append}
use python_fastapi_poc.Prelude.{
  if◌then◌else◌, ℕ, zero, suc, ◌/◌, ◌%◌, ltb, Bool-cases, inl, inr, ◌≡◌, refl, ap, ◌∙◌, pos, negsuc,
  String, true, false, none, some, [], ◌∷◌, arith, rows_where, first_where, any, all, ◌==◌, ◌&&◌,
  not, count, ◌⊎◌,
}
use python_fastapi_poc.Domain.{ScheduleType, JsonPrimitive, get, int_value}
use python_fastapi_poc.Models.{Routine}
use python_fastapi_poc.Schemas.{
  RoutineCreate, RoutineUpdate, unset, provided, validate_routine_schedule, to_str, digit, decimal,
}
use python_fastapi_poc.Session.{
  ok, raise, integrity_error, database_error, statement, select, refresh, flush, commit, rollback,
  foreign_keys_hold, positions_are_unique,
}
use python_fastapi_poc.Scheduler.{
  get_job, remove_job, add_job, trigger_of, register_routine, unregister_routine,
}
use python_fastapi_poc.Routines.{
  delete_routine, create_routine, update_routine, next_schedule_type, next_schedule_config,
  assign_fields, set_row, eq_config, eq_object, eq_primitive, is_manual,
}
use python_fastapi_poc.Routines.Synced.{IsSynced}
use python_fastapi_poc.Session.Commits.{Commits}
use python_fastapi_poc.Routines.Delete.{IsDeleted, delete_routine-Deleted}
use python_fastapi_poc.Actions.Positions.{ids, IsKeyed}
use python_fastapi_poc.Routines.Delete.Recorded.{delete_routine_of_executed}
use python_fastapi_poc.Routines.Delete.Progress.{delete_routine_returns}
use python_fastapi_poc.Routines.Create.{create_routine-IsSynced}
use python_fastapi_poc.Routines.Schedule.{TextCrontabs, IsValidSchedule, trigger_of-eq_config}
use python_fastapi_poc.Routines.Update.Request.{update_routine-IsSynced}
use python_fastapi_poc.Routines.Update.Stale.{update_routine_to_manual}
use python_fastapi_poc.Samples.{timed, tables, start, timed_job, after_run, greet}
use python_fastapi_poc.Samples.Server.{server, is_starred}

program : Unit {0}
unfolding create_routine update_routine select refresh flush commit statement rollback
    foreign_keys_hold positions_are_unique trigger_of register_routine unregister_routine add_job
    remove_job get_job rows_where first_where any all get int_value next_schedule_type
    next_schedule_config assign_fields set_row eq_config eq_object eq_primitive
    validate_routine_schedule to_str
program = tt

start-IsSynced : IsSynced server tables.routines start.jobs
unfolding program
start-IsSynced = record { at_key = λ key. ground arith }

is_starred-append :
    (s t : String)
    → is_starred s ≡ false
    → is_starred t ≡ false
    → is_starred (str_append s t) ≡ false
unfolding is_starred
is_starred-append String.[] t hs ht = ap is_starred (append.nil t) ∙ ht
is_starred-append (String.◌∷◌ c s) t hs ht = ap is_starred (append.cons c s t) ∙ hs

is_starred-digit : (n : ℕ) → is_starred (digit n) ≡ false
unfolding digit is_starred
is_starred-digit zero = refl
is_starred-digit (suc zero) = refl
is_starred-digit (suc (suc zero)) = refl
is_starred-digit (suc (suc (suc zero))) = refl
is_starred-digit (suc (suc (suc (suc zero)))) = refl
is_starred-digit (suc (suc (suc (suc (suc zero))))) = refl
is_starred-digit (suc (suc (suc (suc (suc (suc zero)))))) = refl
is_starred-digit (suc (suc (suc (suc (suc (suc (suc zero))))))) = refl
is_starred-digit (suc (suc (suc (suc (suc (suc (suc (suc zero)))))))) = refl
is_starred-digit (suc (suc (suc (suc (suc (suc (suc (suc (suc n))))))))) = refl

is_starred-decimal : (fuel n : ℕ) → is_starred (decimal fuel n) ≡ false
unfolding decimal is_starred
is_starred-decimal zero n = refl
is_starred-decimal (suc fuel) n =
    let front = is_starred-decimal fuel (n / 10) in
    elim (Bool-cases (ltb n 10)) [
      | inl e ↦ rw e (is_starred-digit n)
      | inr e ↦ rw e (
          is_starred-append (decimal fuel (n / 10)) (digit (n % 10)) front
            (is_starred-digit (n % 10)))
    ]

-- No number, truth value or None has a text that begins with a star.
starred-text :
    (v : JsonPrimitive)
    → server.is_crontab (to_str server v) ≡ true
    → (s : String) × (v ≡ JsonPrimitive.str s)
unfolding to_str is_starred
starred-text (JsonPrimitive.str s) h = (s, refl)
starred-text (JsonPrimitive.int (pos n)) h = absurd (ground (arith, is_starred-decimal (suc n) n))
starred-text (JsonPrimitive.int (negsuc n)) h = absurd (
    ground (
      arith,
      is_starred-append "-" (decimal (suc (suc n)) (suc n)) refl
          (is_starred-decimal (suc (suc n)) (suc n)),
    ))
starred-text (JsonPrimitive.float f) h = cc
starred-text (JsonPrimitive.bool true) h = cc
starred-text (JsonPrimitive.bool false) h = cc
starred-text JsonPrimitive.null h = cc

server-TextCrontabs : TextCrontabs server
server-TextCrontabs = record { text = starred-text }

abbrev payload : RoutineCreate
payload = record {
  name = "nightly";
  description = none;
  schedule_type = ScheduleType.cron;
  schedule_config = some (("cron", JsonPrimitive.str "*/5 * * * *") ∷ []);
  is_active = true;
}

abbrev nightly : Routine
nightly = record {
  id = 4;
  name = "nightly";
  description = none;
  schedule_type = ScheduleType.cron;
  schedule_config = some (("cron", JsonPrimitive.str "*/5 * * * *") ∷ []);
  is_active = true;
  created_at = 1000;
}

nightly-created : (create_routine server payload start).0 ≡ ok nightly
unfolding program is_starred
nightly-created = refl

-- The timed routine is made slower.
abbrev slower : RoutineUpdate
slower = record {
  name = none;
  description = none;
  schedule_type = unset;
  schedule_config = provided (some (("seconds", JsonPrimitive.int (pos 60)) ∷ []));
  is_active = none;
}

-- The timed routine is to be run by hand.
abbrev manually : RoutineUpdate
manually = record {
  name = none;
  description = none;
  schedule_type = provided (some ScheduleType.manual);
  schedule_config = unset;
  is_active = none;
}

slowed :
    (update_routine server timed slower start).0
    ≡ ok (assign_fields timed slower ScheduleType.interval)
unfolding program
slowed = refl

switched :
    (update_routine server timed manually start).0
    ≡ ok (assign_fields timed manually ScheduleType.manual)
unfolding program
switched = refl

next_manual : next_schedule_type timed manually ≡ some ScheduleType.manual
unfolding program
next_manual = refl

timed-found : get_job 1 start.jobs ≡ some timed_job
unfolding program
timed-found = refl

timed-stored : first_where (λ r. r.id == 1) tables.routines ≡ some timed
unfolding program
timed-stored = refl

timed-IsValidSchedule : IsValidSchedule server timed.schedule_type timed.schedule_config
unfolding program
timed-IsValidSchedule = refl

next_interval : next_schedule_type timed slower ≡ some ScheduleType.interval
unfolding program
next_interval = refl

stays_active :
    (timed.is_active
      && not (is_manual timed.schedule_type)
      && (assign_fields timed slower ScheduleType.interval).is_active
      && is_manual ScheduleType.interval)
    ≡ false
unfolding program
stays_active = refl

manual_active : (assign_fields timed manually ScheduleType.manual).is_active ≡ true
unfolding program
manual_active = refl

configs_agree :
    eq_config server timed.schedule_config (some (("seconds", JsonPrimitive.int (pos 10)) ∷ []))
    ≡ true
unfolding program
configs_agree = refl

create_routine-IsSynced_example :
    IsSynced server
      (create_routine server payload start).1.committed.routines
      (create_routine server payload start).1.jobs
create_routine-IsSynced_example =
    create_routine-IsSynced server payload start nightly start-IsSynced nightly-created

update_routine-IsSynced_example :
    IsSynced server
      (update_routine server timed slower start).1.committed.routines
      (update_routine server timed slower start).1.jobs
update_routine-IsSynced_example =
    update_routine-IsSynced server timed slower ScheduleType.interval start
      (assign_fields timed slower ScheduleType.interval) server-TextCrontabs timed-IsValidSchedule
      timed-stored start-IsSynced next_interval stays_active slowed

update_routine_to_manual_example :
    (get_job 1 (update_routine server timed manually start).1.jobs ≡ some timed_job)
    × (¬ IsSynced server
        (update_routine server timed manually start).1.committed.routines
        (update_routine server timed manually start).1.jobs)
update_routine_to_manual_example =
    update_routine_to_manual server timed manually start
      (assign_fields timed manually ScheduleType.manual) timed_job timed-stored timed-found refl
      manual_active next_manual switched

trigger_of-eq_config_example :
    trigger_of server 1 ScheduleType.interval timed.schedule_config
    ≡ trigger_of server 1 ScheduleType.interval
        (some (("seconds", JsonPrimitive.int (pos 10)) ∷ []))
trigger_of-eq_config_example =
    trigger_of-eq_config server 1 ScheduleType.interval timed.schedule_config
      (some (("seconds", JsonPrimitive.int (pos 10)) ∷ [])) server-TextCrontabs
      timed-IsValidSchedule timed-IsValidSchedule configs_agree

delete_routine-Deleted_example :
    Commits tables (IsDeleted 1 tables) (delete_routine server timed start)
    × ((key : ℕ)
        → get_job key (delete_routine server timed start).1.jobs
          ≡ (if 1 == key then none else get_job key start.jobs))
delete_routine-Deleted_example = delete_routine-Deleted server timed start

delete_routine_returns_example :
    ((delete_routine server timed start).0 ≡ ok tt)
    × IsDeleted 1 tables (delete_routine server timed start).1.committed
unfolding program
delete_routine_returns_example =
    delete_routine_returns server (λ n. refl) timed start refl refl refl refl

after_run-IsKeyed : IsKeyed (ids after_run.working.actions)
unfolding count
after_run-IsKeyed k = ground arith

delete_routine_of_executed_example :
    (((delete_routine server timed after_run).0 ≡ raise integrity_error)
      ⊎ ((delete_routine server timed after_run).0 ≡ raise database_error))
    × ((delete_routine server timed after_run).1.committed ≡ after_run.committed)
    × (get_job 1 (delete_routine server timed after_run).1.jobs ≡ none)
unfolding any first_where
delete_routine_of_executed_example =
    delete_routine_of_executed server timed greet after_run refl after_run-IsKeyed refl refl

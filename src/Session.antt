-- ===== src/Session.antt =====
-- The SQLAlchemy session as the services use it (backend/database.py: no autocommit, no autoflush),
-- with the constraints of backend/models.py and of the migrations in alembic/versions.
-- A handler's effects act on a `World`: what is committed, what the open transaction sees, the
-- scheduler's jobs, what the executor has done, and the Redis store.
pub mod Commits
use python_fastapi_poc.Prelude.{
  ℕ, suc, ℤ, String, Bool, true, false, Option, none, some, List, [], ◌∷◌, ◌++◌, ◌≡◌, ◌==◌, ◌&&◌,
  str_eq, not, map, any, all, if◌then◌else◌,
}
use python_fastapi_poc.Domain.{ScheduleType}
use python_fastapi_poc.Models.{Action, User, Db}
use python_fastapi_poc.Env.{Env}

-- The texts of the ValueErrors.
pub data Reason : Type 0 where
  position_out_of_range action_ids_mismatch schedule_type_null : Reason
  config_not_null cron_missing invalid_crontab interval_missing not_positive : Reason
  echo_message sleep_seconds unsupported_key : Reason
  invalid_cron_expression : ℕ → String → Reason
  integer_seconds seconds_missing seconds_type not_an_integer negative_sleep : Reason
  invalid_salt malformed_json : Reason

pub data Exception : Type 0 where
  value_error : Reason → Exception
  integrity_error database_error multiple_results invalid_request : Exception
  overflow_error attribute_error redis_error runtime_error : Exception
  key_error : String → Exception
  http_exception : (status : ℕ) → Exception

pub data Result {ℓ} (A : Type ℓ) : Type ℓ where
  ok : A → Result A
  raise : Exception → Result A

pub data Trigger : Type 0 where
  cron_trigger : String → Trigger
  interval_trigger : ℤ → Trigger

-- A job `routine_<id>`, and what it calls `run_routine` with.
pub record Job : Type 0 where
  pub routine_id : ℕ
  pub trigger : Trigger
  pub schedule_type : ScheduleType

pub data Effect : Type 0 where
  slept : ℤ → Effect
  echoed : String → Effect

-- The keys of the Redis store, by their prefixes: `oauth:state:`, `oauth:pkce:`, `oauth:refresh:` and
-- `oauth:revoked:`.
pub data Key : Type 0 where
  state_key pkce_key refresh_key revoked_key : String → Key

-- A value, and the time at which it expires.
pub record Entry : Type 0 where
  pub value : String
  pub expires_at : ℕ

pub record World : Type 0 where
  pub committed : Db
  pub working : Db
  pub jobs : List Job
  pub effects : List Effect
  pub statements : ℕ
  pub readings : ℕ
  pub redis : List (Key × Entry)
  pub commands : ℕ
  pub draws : ℕ

abbrev pub Exec : Type 0 → Type 0
Exec A = World → Result A × World

module _ {A : Type 0} where
  abbrev pub pure : A → Exec A
  pure a w = (ok a, w)

  abbrev pub throw : Exception → Exec A
  throw e w = (raise e, w)

  abbrev pub handled : Result A → (Exception → Exec A) → Exec A
  handled (ok a) handler = pure a
  handled (raise e) handler = handler e

  -- `try: body` / `except Exception as e: handler(e)`
  abbrev pub catch : Exec A → (Exception → Exec A) → Exec A
  catch body handler w = let (r, w') = body w in handled r handler w'

module _ {A B : Type 0} where
  abbrev pub and_then : Result A → (A → Exec B) → Exec B
  and_then (ok a) f = f a
  and_then (raise e) f = throw e

  infixl 5 ◌>>=◌ ◌>>◌
  abbrev pub ◌>>=◌ : Exec A → (A → Exec B) → Exec B
  m >>= f = λ w. let (r, w') = m w in and_then r f w'

  abbrev pub ◌>>◌ : Exec A → Exec B → Exec B
  m >> n = m >>= λ _. n

abbrev pub lift : {A : Type 0} → Result A → Exec A
lift r w = (r, w)

-- `if not test: raise e`
abbrev pub guard : Bool → Exception → Exec (Unit {0})
guard true e = pure tt
guard false e = throw e

-- `scalar_one_or_none`
unfoldable pub one_or_none : {A : Type 0} → List A → Exec (Option A)
one_or_none [] = pure none
one_or_none (x ∷ []) = pure (some x)
one_or_none (x ∷ y ∷ rest) = throw multiple_results

-- `session.refresh` finds the row, or raises.
abbrev pub found : {A : Type 0} → Option A → Exec A
found none = throw invalid_request
found (some a) = pure a

abbrev pub modify : (Db → Db) → Exec (Unit {0})
modify f w = (ok tt, record w { working = f w.working })

-- FOREIGN KEY: what a row names is there.
abbrev pub actions_have_routines : Db → Bool
actions_have_routines db = all (λ a. any (λ r. r.id == a.routine_id) db.routines) db.actions

abbrev pub executions_have_routines : Db → Bool
executions_have_routines db = all (λ e. any (λ r. r.id == e.routine_id) db.routines) db.executions

abbrev pub action_executions_have_executions : Db → Bool
action_executions_have_executions db =
    all (λ x. any (λ e. e.id == x.execution_id) db.executions) db.action_executions

abbrev pub action_executions_have_actions : Db → Bool
action_executions_have_actions db =
    all (λ x. any (λ a. a.id == x.action_id) db.actions) db.action_executions

unfoldable pub foreign_keys_hold : Db → Bool
foreign_keys_hold db =
    actions_have_routines db
    && executions_have_routines db
    && action_executions_have_executions db
    && action_executions_have_actions db

-- UNIQUE (routine_id, position) DEFERRABLE INITIALLY DEFERRED
unfoldable pub positions_are_unique : List Action → Bool
positions_are_unique [] = true
positions_are_unique (a ∷ actions) =
    all (λ b. not ((b.routine_id == a.routine_id) && (b.position == a.position))) actions
    && positions_are_unique actions

-- UNIQUE (google_id) and UNIQUE (email)
unfoldable pub users_are_unique : List User → Bool
users_are_unique [] = true
users_are_unique (u ∷ users) =
    all (λ v. not (str_eq v.google_id u.google_id) && not (str_eq v.email u.email)) users
    && users_are_unique users

unfoldable pub rollback : Exec (Unit {0})
rollback w = (ok tt, record w { working = w.committed })

-- `with SessionLocal() as session: body`, and a request's session: what is not committed is lost.
unfoldable pub with_session : {A : Type 0} → Exec A → Exec A
with_session body w =
    let (r, w') = body (record w { working = w.committed }) in
    (r, record w' { working = w'.committed })

module _ (env : Env) where
  -- One round trip to the server.
  unfoldable pub statement : Exec (Unit {0})
  statement w =
      let w' = record w { statements = suc w.statements } in
      if env.fails w.statements then (raise database_error, w') else (ok tt, w')

  unfoldable pub select : {A : Type 0} → (Db → A) → Exec A
  unfolding statement
  select query = statement >> λ w. (ok (query w.working), w)

  unfoldable pub refresh : {A : Type 0} → (Db → Option A) → Exec A
  unfolding select
  refresh query = do row ← select query; found row

  -- UPDATE, INSERT or DELETE on the open transaction.
  unfoldable pub execute : (Db → Db) → Exec (Unit {0})
  unfolding statement
  execute change = statement >> modify change

  unfoldable pub flush : Exec (Unit {0})
  unfolding statement foreign_keys_hold users_are_unique
  flush = statement >> λ w.
      if foreign_keys_hold w.working && users_are_unique w.working.users
      then (ok tt, w)
      else (raise integrity_error, w)

  -- A commit flushes first; the deferred constraint is checked last.
  unfoldable pub commit : Exec (Unit {0})
  unfolding flush
  commit = flush >> statement >> λ w.
      if positions_are_unique w.working.actions
      then (ok tt, record w { committed = w.working })
      else (raise integrity_error, w)

  -- `datetime.now(UTC)`
  unfoldable pub read_clock : Exec ℕ
  read_clock w = (ok (env.now w.readings), record w { readings = suc w.readings })

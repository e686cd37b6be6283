-- ===== src/Startup.antt =====
-- backend/main.py: `lifespan`, up to the point where the application serves requests. A server that
-- does not start has raised.
pub mod Registered
use python_fastapi_poc.Prelude.{
  ℕ, String, Bool, true, false, Option, none, some, List, [], ◌∷◌, not, ◌&&◌, ◌||◌, rows_where,
  if◌then◌else◌,
}
use python_fastapi_poc.Models.{Routine, Db}
use python_fastapi_poc.Env.{Env}
use python_fastapi_poc.Identity.{Identity, Settings}
use python_fastapi_poc.Session.{
  Exec, pure, throw, guard, select, with_session, runtime_error, ◌>>=◌, ◌>>◌,
}
use python_fastapi_poc.Redis.{command}
use python_fastapi_poc.Scheduler.{snapshot_of, register_routine}
use python_fastapi_poc.Routines.{is_manual}
use python_fastapi_poc.UserRoutes.{starts_with}

-- The checks of the settings.
unfoldable pub settings_are_safe : Settings → Bool
unfolding starts_with
settings_are_safe settings =
    (not settings.enable_password_auth
      || starts_with "$2b$" settings.admin_password_hash
      || starts_with "$2a$" settings.admin_password_hash)
    && (not settings.enforce_https
        || (starts_with "https://" settings.backend_url
            && starts_with "https://" settings.frontend_url))

unfoldable pub is_scheduled : Routine → Bool
is_scheduled r = r.is_active && not (is_manual r.schedule_type)

-- The session ends before the first registration.
unfoldable pub register_all : Env → List Routine → Exec (Unit {0})
register_all env [] = pure tt
register_all env (r ∷ routines) = register_routine env (snapshot_of r) >> register_all env routines

unfoldable pub register_active : Env → Exec (Unit {0})
unfolding is_scheduled register_all
register_active env = do
  routines ← with_session (select env (λ db. rows_where is_scheduled db.routines))
  register_all env routines

module _ (env : Env) (identity : Identity) where
  ping : Exec (Unit {0})
  ping = command env identity (λ now store. tt) (λ now store. store)

  unfoldable pub lifespan : Exec (Unit {0})
  unfolding ping settings_are_safe register_active
  lifespan = do
    ping
    guard (settings_are_safe identity.settings) runtime_error
    if identity.settings.scheduler_enabled then register_active env else pure tt

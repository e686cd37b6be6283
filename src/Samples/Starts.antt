-- ===== src/Samples/Starts.antt =====
-- A start on the small tables.
use python_fastapi_poc.Prelude.{◌≡◌, refl, [], ◌∷◌, first_where}
use python_fastapi_poc.Domain.{ScheduleType, get, int_value}
use python_fastapi_poc.Models.{Routine}
use python_fastapi_poc.Session.{ok, raise, World, value_error, invalid_cron_expression}
use python_fastapi_poc.Schemas.{to_str}
use python_fastapi_poc.Identity.{Identity, answered}
use python_fastapi_poc.Scheduler.{trigger_of}
use python_fastapi_poc.Routines.Synced.{IsSynced}
use python_fastapi_poc.UserRoutes.{starts_with}
use python_fastapi_poc.Startup.{lifespan, is_scheduled, settings_are_safe}
use python_fastapi_poc.Startup.Registered.{lifespan-IsSynced, Builds}
use python_fastapi_poc.Startup.Registered.Stopped.{lifespan_stops}
use python_fastapi_poc.Samples.{start, timed, by_hand, tables}
use python_fastapi_poc.Samples.Server.{server, is_starred}
use python_fastapi_poc.Samples.Identities.{services}

abbrev identity : Identity
identity = services (λ n. answered)

abbrev stopped : World
stopped = record start { jobs = [] }

timed-Builds : Builds server timed
unfolding trigger_of get int_value
timed-Builds h = (_, refl)

by_hand-Builds : Builds server by_hand
unfolding trigger_of
by_hand-Builds h = (_, refl)

lifespan-IsSynced_example :
    ((lifespan server identity stopped).0 ≡ ok tt)
    × ((lifespan server identity stopped).1.committed ≡ tables)
    × IsSynced server tables.routines (lifespan server identity stopped).1.jobs
unfolding settings_are_safe starts_with first_where
lifespan-IsSynced_example =
    lifespan-IsSynced server identity stopped refl refl refl refl refl (refl, (refl, tt))
      (timed-Builds, (by_hand-Builds, tt))

-- A crontab that no longer parses.
abbrev broken : Routine
broken = record timed { id = 4; schedule_type = ScheduleType.cron }

abbrev spoiled : World
spoiled = record stopped { committed = record tables { routines = timed ∷ broken ∷ by_hand ∷ [] } }

lifespan_stops_example :
    ((lifespan server identity spoiled).0 ≡ raise (value_error (invalid_cron_expression 4 "")))
    × ((lifespan server identity spoiled).1.committed ≡ spoiled.committed)
    × IsSynced server (timed ∷ []) (lifespan server identity spoiled).1.jobs
unfolding settings_are_safe starts_with first_where trigger_of get int_value is_starred to_str
    is_scheduled
lifespan_stops_example =
    lifespan_stops server identity (timed ∷ []) (by_hand ∷ []) broken
      (value_error (invalid_cron_expression 4 "")) spoiled refl refl refl refl refl refl (refl, tt)
      (timed-Builds, tt) refl refl

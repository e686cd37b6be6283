-- ===== src/Samples/Credentials.antt =====
-- The requests that write, with credentials and without.
use python_fastapi_poc.Prelude.{◌≡◌, refl, true, none, some, String, [], ◌∷◌, rows_where}
use python_fastapi_poc.Domain.{ScheduleType, get, strip}
use python_fastapi_poc.Identity.{Identity, answered}
use python_fastapi_poc.Redis.{find, exists, command, unavailable}
use python_fastapi_poc.Schemas.{RoutineCreate, validate_routine_create, validate_routine_schedule}
use python_fastapi_poc.Session.{ok, World, http_exception, revoked_key, read_clock}
use python_fastapi_poc.Security.{
  update, safe_claims, require_authenticated_user, get_optional_user, get_token_from_request,
  decode_token_subject, access_claims,
}
use python_fastapi_poc.Actions.Ordered.{IsOrdered}
use python_fastapi_poc.Routes.{update_action_handler, create_routine_handler, status_of}
use python_fastapi_poc.Routes.Ordered.{update_action_handler-IsOrdered}
use python_fastapi_poc.Routes.Conflicts.{create_routine_handler_conflict}
use python_fastapi_poc.Routes.Guarded.{
  IsRefused, Unwritten, written, delete_routine, written-Unwritten,
}
use python_fastapi_poc.Samples.{timed, tables, start}
use python_fastapi_poc.Samples.Requests.{tables-IsOrdered, moved}
use python_fastapi_poc.Samples.Server.{server}
use python_fastapi_poc.Samples.Identities.{services}

abbrev identity : Identity
identity = services (λ n. answered)

abbrev token : String
token = identity.jwt_encode (access_claims server identity "admin" "t" 1000 [])

update_action_handler-IsOrdered_example :
    IsOrdered
      (update_action_handler server identity (some token) none 5 moved start).1.committed.actions
update_action_handler-IsOrdered_example =
    update_action_handler-IsOrdered server identity (some token) none 5 moved start tables-IsOrdered

-- A routine whose name is taken.
abbrev again : RoutineCreate
again = record {
  name = "timed";
  description = none;
  schedule_type = ScheduleType.manual;
  schedule_config = none;
  is_active = true;
}

accepted : (require_authenticated_user server identity (some token) none start).0 ≡ ok "admin"
unfolding require_authenticated_user get_optional_user get_token_from_request decode_token_subject
    access_claims update safe_claims get exists command unavailable read_clock find rows_where
accepted = refl

create_routine_handler_conflict_example :
    (status_of 201 (create_routine_handler server identity (some token) none again start).0 ≡ 409)
    × ((create_routine_handler server identity (some token) none again start).1.committed ≡ tables)
    × ((create_routine_handler server identity (some token) none again start).1.jobs ≡ start.jobs)
unfolding validate_routine_create validate_routine_schedule rows_where strip
create_routine_handler_conflict_example =
    create_routine_handler_conflict server identity (some token) none again timed "admin" start
      accepted refl (λ n. refl) refl

-- The token has been revoked.
abbrev after_logout : World
after_logout = record start {
  redis = (revoked_key "t", record { value = "1"; expires_at = 900000000 }) ∷ [];
}

revoked : IsRefused server identity (some token) none after_logout
unfolding require_authenticated_user get_optional_user get_token_from_request decode_token_subject
    access_claims update safe_claims get exists command unavailable read_clock find rows_where
revoked = (http_exception 401, refl)

written-Unwritten_example :
    Unwritten server identity
      (some token)
      none
      after_logout
      (written server identity (some token) none (delete_routine 1) after_logout)
written-Unwritten_example =
    written-Unwritten server identity (some token) none (delete_routine 1) after_logout revoked

-- ===== src/Routes/Conflicts.antt =====
-- Requests that a stored row stands against.
use python_fastapi_poc.Prelude.{
  ℕ, ◌≡◌, refl, ap, ◌∙◌, false, String, Option, List, [], ◌∷◌, rows_where, str_eq,
}
use python_fastapi_poc.Domain.{strip}
use python_fastapi_poc.Models.{Routine, Db}
use python_fastapi_poc.Env.{Env}
use python_fastapi_poc.Identity.{Identity}
use python_fastapi_poc.Schemas.{RoutineCreate, validate_routine_create}
use python_fastapi_poc.Session.{World, ok, with_session, select, statement, one_or_none}
use python_fastapi_poc.Security.{require_authenticated_user}
use python_fastapi_poc.Security.Apart.{require_authenticated_user-Leaves}
use python_fastapi_poc.Routines.{get_routine_by_name}
use python_fastapi_poc.Routes.{create_routine_handler, create_unless, status_of}

-- The rows with a name, up to surrounding blanks and the server's `lower`.
abbrev pub named : Env → String → List Routine → List Routine
named env name = rows_where (λ q. str_eq (env.lower q.name) (env.lower (strip name)))

module _ (env : Env) (identity : Identity) (access_token authorization : Option String) where
  -- A request to create a routine whose stripped name one stored routine has, up to the server's
  -- `lower`, is answered with 409, and nothing is committed, if the user is accepted, the payload is
  -- valid, and the server does not fail.
  pub create_routine_handler_conflict :
      (payload : RoutineCreate) (r : Routine) (email : String) (w : World)
      → (require_authenticated_user env identity access_token authorization
          (record w { working = w.committed })).0
        ≡ ok email
      → validate_routine_create env payload ≡ ok tt
      → ((n : ℕ) → env.fails n ≡ false)
      → named env payload.name w.committed.routines ≡ r ∷ []
      → (status_of 201 (create_routine_handler env identity access_token authorization payload w).0
          ≡ 409)
        × ((create_routine_handler env identity access_token authorization payload w).1.committed
            ≡ w.committed)
        × ((create_routine_handler env identity access_token authorization payload w).1.jobs
            ≡ w.jobs)
  unfolding create_routine_handler create_unless with_session get_routine_by_name select statement
      one_or_none status_of
  create_routine_handler_conflict payload r email w accepted valid answers taken =
      let opened : World = record w { working = w.committed } in
      let v = (require_authenticated_user env identity access_token authorization opened).1 in
      let (same, working, jobs) =
        require_authenticated_user-Leaves env identity access_token authorization opened in
      let found : named env payload.name v.working.routines ≡ r ∷ [] =
        ap (λ (db : Db). named env payload.name db.routines) working ∙ taken in
      rw (accepted, valid, answers v.statements, found) (refl, same, jobs)

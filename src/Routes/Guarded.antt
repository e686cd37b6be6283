-- ===== src/Routes/Guarded.antt =====
-- The requests that write, and the users that they are refused to.
use python_fastapi_poc.Prelude.{ℕ, suc, ◌≡◌, refl, ◌∙◌, String, Option, List, arith}
use python_fastapi_poc.Env.{Env}
use python_fastapi_poc.Identity.{Identity}
use python_fastapi_poc.Schemas.{RoutineCreate, RoutineUpdate, ActionCreate, ActionUpdate, Datetime}
use python_fastapi_poc.Session.{
  Result, ok, raise, and_then, Exception, Exec, World, ◌>>=◌, ◌>>◌, with_session, select, statement,
}
use python_fastapi_poc.Security.{require_authenticated_user}
use python_fastapi_poc.Security.Apart.{require_authenticated_user-Leaves}
use python_fastapi_poc.Security.Verdicts.{queried, require_authenticated_user-queried}
use python_fastapi_poc.Models.{Db}
use python_fastapi_poc.Routines.{get_routine}
use python_fastapi_poc.Routes.{
  get_routine_or_404, get_action_or_404, or_404, create_routine_handler, update_routine_handler,
  delete_routine_handler, create_action_handler, reorder_actions_handler, run_now_handler,
  update_action_handler, delete_action_handler,
}

pub data Write : Type 0 where
  create_routine : RoutineCreate → Write
  update_routine : ℕ → RoutineUpdate → Write
  delete_routine : ℕ → Write
  create_action : ℕ → ActionCreate → Write
  reorder_actions : ℕ → List ℕ → Write
  run_now : ℕ → Option Datetime → Write
  update_action : ℕ → ActionUpdate → Write
  delete_action : ℕ → Write

module _ (env : Env) (identity : Identity) (access_token authorization : Option String) where
  -- What a request leaves behind.
  unfoldable pub written : Write → World → World
  written (create_routine payload) w =
      (create_routine_handler env identity access_token authorization payload w).1
  written (update_routine id payload) w =
      (update_routine_handler env identity access_token authorization id payload w).1
  written (delete_routine id) w =
      (delete_routine_handler env identity access_token authorization id w).1
  written (create_action id payload) w =
      (create_action_handler env identity access_token authorization id payload w).1
  written (reorder_actions id order) w =
      (reorder_actions_handler env identity access_token authorization id order w).1
  written (run_now id body) w =
      (run_now_handler env identity access_token authorization id body w).1
  written (update_action id payload) w =
      (update_action_handler env identity access_token authorization id payload w).1
  written (delete_action id) w =
      (delete_action_handler env identity access_token authorization id w).1

  get_routine_or_404-queried :
      (id : ℕ) (w : World) → (n : ℕ) × ((get_routine_or_404 env id w).1 ≡ queried w.working n w)
  unfolding get_routine_or_404 or_404 get_routine select statement
  get_routine_or_404-queried id w = (suc w.statements, ground arith)

  get_action_or_404-queried :
      (id : ℕ) (w : World) → (n : ℕ) × ((get_action_or_404 env id w).1 ≡ queried w.working n w)
  unfolding get_action_or_404 or_404 select statement
  get_action_or_404-queried id w = (suc w.statements, ground arith)

  -- In this world the user is refused.
  abbrev pub IsRefused : World → Type 0
  IsRefused w =
      (e : Exception) × ((require_authenticated_user env identity access_token authorization w).0
        ≡ raise e)

  -- What the tables and the scheduler keep.
  abbrev pub Unwritten : World → World → Type 0
  Unwritten w v = (v.committed ≡ w.committed) × (v.jobs ≡ w.jobs)

  blocked-Unwritten :
      {A : Type 0} (body : Exec A) (w : World)
      → IsRefused w
      → Unwritten w
          ((require_authenticated_user env identity access_token authorization >> body) w).1
  blocked-Unwritten body w (e, raised) =
      let (same, _, jobs) =
        require_authenticated_user-Leaves env identity access_token authorization w in
      rw raised (same, jobs)

  -- The statements on the tables do not change the verdict on the user.
  queried-IsRefused : (db : Db) (n : ℕ) (w : World) → IsRefused w → IsRefused (queried db n w)
  queried-IsRefused db n w (e, raised) = (
    e,
    require_authenticated_user-queried env identity db n access_token authorization w ∙ raised,
  )

  after-Unwritten :
      {A B : Type 0} (r : Result A) (body : A → Exec B) (db : Db) (n : ℕ) (w : World)
      → IsRefused w
      → Unwritten w
          (and_then r
            (λ a. require_authenticated_user env identity access_token authorization >> body a)
            (queried db n w)).1
  after-Unwritten (raise e) body db n w refused = (refl, refl)
  after-Unwritten (ok a) body db n w refused =
      blocked-Unwritten (body a) (queried db n w) (queried-IsRefused db n w refused)

  session-Unwritten :
      {A B : Type 0} (m : Exec A) (body : A → Exec B)
      → ((v : World) → (n : ℕ) × ((m v).1 ≡ queried v.working n v))
      → (w : World) → IsRefused w
      → Unwritten w
          (with_session
            (m >>= λ a.
              require_authenticated_user env identity access_token authorization >> body a)
            w).1
  unfolding with_session
  session-Unwritten m body hm w refused =
      let opened = queried w.committed w.statements w in
      let (n, there) = hm opened in
      rw there (after-Unwritten (m opened).0 body w.committed n w refused)

  -- A request that writes commits nothing and leaves the jobs alone, if its credentials are refused
  -- when it comes.
  pub written-Unwritten :
      (request : Write) (w : World) → IsRefused w → Unwritten w (written request w)
  unfolding written create_routine_handler update_routine_handler delete_routine_handler
      create_action_handler reorder_actions_handler run_now_handler update_action_handler
      delete_action_handler with_session
  written-Unwritten (create_routine payload) w refused =
      blocked-Unwritten _ (queried w.committed w.statements w)
        (queried-IsRefused w.committed w.statements w refused)
  written-Unwritten (update_routine id payload) w refused =
      session-Unwritten (get_routine_or_404 env id) _ (get_routine_or_404-queried id) w refused
  written-Unwritten (delete_routine id) w refused =
      session-Unwritten (get_routine_or_404 env id) _ (get_routine_or_404-queried id) w refused
  written-Unwritten (create_action id payload) w refused =
      session-Unwritten (get_routine_or_404 env id) _ (get_routine_or_404-queried id) w refused
  written-Unwritten (reorder_actions id order) w refused =
      session-Unwritten (get_routine_or_404 env id) _ (get_routine_or_404-queried id) w refused
  written-Unwritten (run_now id body) w refused =
      session-Unwritten (get_routine_or_404 env id) _ (get_routine_or_404-queried id) w refused
  written-Unwritten (update_action id payload) w refused =
      session-Unwritten (get_action_or_404 env id) _ (get_action_or_404-queried id) w refused
  written-Unwritten (delete_action id) w refused =
      session-Unwritten (get_action_or_404 env id) _ (get_action_or_404-queried id) w refused

-- ===== src/Authentication.antt =====
-- backend/user_routes.py and backend/auth_routes.py: the requests, one after the other, between which
-- the rest of the program runs.
pub mod Replay
use python_fastapi_poc.Prelude.{ℕ, ◌≡◌, String, Option}
use python_fastapi_poc.Env.{Env}
use python_fastapi_poc.Identity.{Identity}
use python_fastapi_poc.Session.{World}
use python_fastapi_poc.Security.{login_for_access_token}
use python_fastapi_poc.UserRoutes.{google_login, google_callback, refresh_token}
use python_fastapi_poc.Logout.{logout, list_users, get_current_user_profile}

-- A request, with its parameters, and the cookies and the header that its handler reads.
pub data Request : Type 0 where
  password_login : (username password : String) → Request
  login : Request
  callback : (state : String) (code error : Option String) → Request
  refresh : (cookie : Option String) → Request
  sign_out : (access_token authorization cookie : Option String) → Request
  users profile : (access_token authorization : Option String) → Request

module _ (env : Env) (identity : Identity) where
  -- What a request leaves behind.
  unfoldable pub serve : Request → World → World
  serve (password_login username password) w =
      (login_for_access_token env identity username password w).1
  serve login w = (google_login env identity w).1
  serve (callback state code error) w = (google_callback env identity state code error w).1
  serve (refresh cookie) w = (refresh_token env identity cookie w).1
  serve (sign_out access_token authorization cookie) w =
      (logout env identity access_token authorization cookie w).1
  serve (users access_token authorization) w =
      (list_users env identity access_token authorization w).1
  serve (profile access_token authorization) w =
      (get_current_user_profile env identity access_token authorization w).1

  -- The rest of the program has no use for the store, nor for random draws.
  pub data Step (w : World) : World → Type 0 where
    served : (request : Request) → Step w (serve request w)
    elsewhere : {v : World} → v.redis ≡ w.redis → v.draws ≡ w.draws → Step w v

  pub data Reach (w : World) : World → Type 0 where
    here : Reach w w
    next : {u v : World} → Reach w u → Step u v → Reach w v

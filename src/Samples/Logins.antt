-- ===== src/Samples/Logins.antt =====
-- Tokens of the sample services, in use.
use python_fastapi_poc.Prelude.{
  rows_where, ℕ, ◌≡◌, ◌⊎◌, refl, String, true, none, some, [], ◌∷◌, arith,
}
use python_fastapi_poc.Domain.{get}
use python_fastapi_poc.Session.{
  ok, raise, World, refresh_key, state_key, revoked_key, http_exception,
}
use python_fastapi_poc.Identity.{Identity, Answer, answered, refused}
use python_fastapi_poc.Redis.{find, is_some}
use python_fastapi_poc.Security.{decode_token_subject, access_claims}
use python_fastapi_poc.Security.Tokens.{verdict, decode-create_access_token, create_access_token-ok}
use python_fastapi_poc.UserRoutes.{refresh_token, google_callback}
use python_fastapi_poc.Logout.{logout}
use python_fastapi_poc.Logout.Revoked.{IsToken, logout_without_redis, logout-revokes}
use python_fastapi_poc.Authentication.{login, serve, here, next, served}
use python_fastapi_poc.Authentication.Replay.{refresh_once, callback_once}
use python_fastapi_poc.Security.{login_for_access_token, verify_password}
use python_fastapi_poc.Security.Passwords.{login_for_access_token_lem}
use python_fastapi_poc.UserRoutes.{with_email}
use python_fastapi_poc.UserRoutes.Renewal.{renewed, refresh_token_renews}
use python_fastapi_poc.Models.{User, Db}
use python_fastapi_poc.Samples.{start, tables}
use python_fastapi_poc.Samples.Server.{server}
use python_fastapi_poc.Samples.Identities.{services, draws-other}

abbrev up : Identity
up = services (λ n. answered)

abbrev down : Identity
down = services (λ n. refused)

-- The first token of the administrator.
abbrev token : Identity → String
token identity = identity.jwt_encode (access_claims server identity "admin" "t" 1000 [])

decode-create_access_token_example :
    (decode_token_subject server up (token up) start).0
    ≡ verdict answered (is_some (find 1001 (revoked_key "t") [])) "admin"
decode-create_access_token_example =
    decode-create_access_token server up "admin" [] start start (token up)
      (create_access_token-ok server up "admin" [] start) (ground arith)

own :
    (answer : ℕ → Answer)
    → IsToken server (services answer) (token (services answer)) "admin" "t" 900
own answer = record {
  extra = [];
  created = start;
  made = create_access_token-ok server (services answer) "admin" [] start;
  named = refl;
  expires = refl;
}

logout_without_redis_example :
    ((logout server down (some (token down)) none none start).0 ≡ raise (http_exception 503))
    × ((logout server down (some (token down)) none none start).1.redis ≡ [])
logout_without_redis_example =
    logout_without_redis server down (own (λ n. refused)) none none start (ground arith) refl

abbrev signed_out : World
signed_out = record start { redis = (logout server up (some (token up)) none none start).1.redis }

logout-revokes_example :
    ((logout server up (some (token up)) none none start).0 ≡ ok tt)
    × ((decode_token_subject server up (token up) signed_out).0 ≡ verdict answered true "admin")
unfolding find get access_claims rows_where
logout-revokes_example =
    logout-revokes server up (own (λ n. answered)) none none start signed_out refl (ground arith)
      (ground arith) refl refl refl refl refl (ground arith) (ground arith)

-- A refresh token, and a state token, that are stored.
abbrev refreshable : World
refreshable = record start {
  redis =
      (refresh_key "r", record { value = "admin"; expires_at = 1000000000 })
      ∷ (state_key "r", record { value = "1"; expires_at = 1000000000 })
      ∷ [];
}

refresh_once_example :
    (refresh_token server up
      (some "r")
      (serve server up login (refresh_token server up (some "r") refreshable).1)).0
    ≡ raise (http_exception 401)
refresh_once_example =
    refresh_once server up "r" refreshable (λ n later. draws-other n) (λ e. ground arith)
      (next here (served login))

callback_once_example :
    ((google_callback server up "r"
        (some "code")
        none
        (google_callback server up "r" (some "code") none refreshable).1).0
      ≡ raise (http_exception 400))
    ⊎ ((google_callback server up "r"
          (some "code")
          none
          (google_callback server up "r" (some "code") none refreshable).1).0
        ≡ raise (http_exception 503))
callback_once_example =
    callback_once server up "r" refreshable (some "code") none (some "code") none "code" refl refl
      (λ n later. draws-other n) (λ e. ground arith) here

login_for_access_token_lem_example :
    ("admin" ≡ up.settings.admin_username)
    × (up.checkpw "secret" up.settings.admin_password_hash ≡ some true)
    × ((decode_token_subject server up (token up) start).0
        ≡ verdict answered (is_some (find 1001 (revoked_key "t") [])) "admin")
unfolding login_for_access_token verify_password
login_for_access_token_lem_example =
    login_for_access_token_lem server up "admin" "secret" (token up) start start
      (create_access_token-ok server up "admin" [] start) (ground arith)

abbrev admin : User
admin = record {
  id = 1;
  google_id = "g1";
  email = "admin";
  name = "Ann";
  picture = none;
  created_at = 5;
}

-- The second request shows what the first has returned.
abbrev before : World
before =
    let db : Db = record tables { users = admin ∷ [] } in
    record refreshable { committed = db; working = db }

abbrev later : World
later = record before { redis = (refresh_token server up (some "r") before).1.redis }

refresh_token_renews_example :
    ((refresh_token server up (some "r") before).0 ≡ ok (renewed server up "admin" admin before))
    × ((refresh_token server up (some "tt") later).0 ≡ ok (renewed server up "admin" admin later))
unfolding find with_email rows_where
refresh_token_renews_example =
    refresh_token_renews server up "r" "admin" admin before later refl refl refl refl refl refl refl
      (ground arith) refl refl refl refl

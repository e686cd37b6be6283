-- ===== src/Logout/Gone.antt =====
-- The sign-out and the users, and a key that is gone.
use python_fastapi_poc.Prelude.{ℕ, ◌==◌, String, Option, none, some}
use python_fastapi_poc.Domain.{JsonPrimitive, get}
use python_fastapi_poc.Env.{Env}
use python_fastapi_poc.Identity.{Identity, Decoded, claims, expired_signature, invalid_token}
use python_fastapi_poc.Session.{
  Exception, Key, refresh_key, revoked_key, redis_error, ◌>>=◌, read_clock,
}
use python_fastapi_poc.Redis.{delete}
use python_fastapi_poc.Redis.Gone.{
  Keeps, bind-Keeps, catch-Keeps, setex-Keeps, delete-Keeps, select-Keeps, with_session-Keeps,
}
use python_fastapi_poc.Security.{require_authenticated_user}
use python_fastapi_poc.Security.Gone.{
  IsSecret, read_clock-Keeps, choice-Keeps, get_optional_user-Keeps,
  require_authenticated_user-Keeps,
}
use python_fastapi_poc.UserRoutes.Gone.{get_current_user-Keeps}
use python_fastapi_poc.Logout.{
  ignored, remaining, revoke_for, revoke_jti, revoke_decoded, revoke_access, drop_refresh, logout,
  list_users, get_current_user_profile,
}

module _ (key : Key) (first : ℕ) (env : Env) (identity : Identity) where
  ignored-Keeps : (e : Exception) → Keeps key first (ignored e)
  unfolding ignored
  ignored-Keeps redis_error w g = g
  ignored-Keeps _ w g = g

  drop_refresh-Keeps : (token : Option String) → Keeps key first (drop_refresh env identity token)
  unfolding drop_refresh
  drop_refresh-Keeps none w g = g
  drop_refresh-Keeps (some token) w g =
      catch-Keeps key first (delete env identity (refresh_key token)) ignored
        (delete-Keeps key first env identity (refresh_key token)) ignored-Keeps w g

  module _ (secret : IsSecret identity key first) where
    revoke_for-Keeps :
        (jti : String) (seconds : Option ℕ) → Keeps key first (revoke_for env identity jti seconds)
    unfolding revoke_for
    revoke_for-Keeps jti none w g = g
    revoke_for-Keeps jti (some seconds) w g =
        choice-Keeps key first env identity (seconds == 0) _ _ (λ w g. g)
          (setex-Keeps key first env identity (revoked_key jti) seconds "1"
            (secret.is_unrevoked jti))
          w g

    revoke_jti-Keeps :
        (jti exp : Option JsonPrimitive) → Keeps key first (revoke_jti env identity jti exp)
    unfolding revoke_jti
    revoke_jti-Keeps (some (JsonPrimitive.str jti)) exp w g =
        bind-Keeps key first (read_clock env) _ (read_clock-Keeps key first env identity)
          (λ now. revoke_for-Keeps jti (remaining env identity now exp)) w g
    revoke_jti-Keeps none exp w g = g
    revoke_jti-Keeps (some (JsonPrimitive.int n)) exp w g = g
    revoke_jti-Keeps (some (JsonPrimitive.float f)) exp w g = g
    revoke_jti-Keeps (some (JsonPrimitive.bool b)) exp w g = g
    revoke_jti-Keeps (some JsonPrimitive.null) exp w g = g

    revoke_decoded-Keeps :
        (decoded : Decoded) → Keeps key first (revoke_decoded env identity decoded)
    unfolding revoke_decoded
    revoke_decoded-Keeps (claims payload) w g =
        revoke_jti-Keeps (get payload "jti") (get payload "exp") w g
    revoke_decoded-Keeps expired_signature w g = g
    revoke_decoded-Keeps invalid_token w g = g

    revoke_access-Keeps :
        (token : Option String) → Keeps key first (revoke_access env identity token)
    unfolding revoke_access
    revoke_access-Keeps none w g = g
    revoke_access-Keeps (some token) w g =
        let body =
          bind-Keeps key first {B = Unit {0}} (read_clock env)
            (λ now. revoke_decoded env identity (identity.jwt_decode now token))
            (read_clock-Keeps key first env identity)
            (λ now. revoke_decoded-Keeps (identity.jwt_decode now token)) in
        catch-Keeps key first
          (read_clock env >>= λ now. revoke_decoded env identity (identity.jwt_decode now token))
          ignored body ignored-Keeps w g

    pub logout-Keeps :
        (access_token authorization refresh_token : Option String)
        → Keeps key first (logout env identity access_token authorization refresh_token)
    unfolding logout
    logout-Keeps access_token authorization refresh_token = search (
      bind-Keeps key first,
      get_optional_user-Keeps key first env identity,
      revoke_access-Keeps,
      drop_refresh-Keeps,
    )

  pub list_users-Keeps :
      (access_token authorization : Option String)
      → Keeps key first (list_users env identity access_token authorization)
  unfolding list_users
  list_users-Keeps access_token authorization = with_session-Keeps key first _ (
      bind-Keeps key first (require_authenticated_user env identity access_token authorization) _
        (require_authenticated_user-Keeps key first env identity access_token authorization)
        λ email. select-Keeps key first env identity _)

  pub get_current_user_profile-Keeps :
      (access_token authorization : Option String)
      → Keeps key first (get_current_user_profile env identity access_token authorization)
  unfolding get_current_user_profile
  get_current_user_profile-Keeps access_token authorization = with_session-Keeps key first _ (
      bind-Keeps key first (require_authenticated_user env identity access_token authorization) _
        (require_authenticated_user-Keeps key first env identity access_token authorization)
        (get_current_user-Keeps key first env identity))

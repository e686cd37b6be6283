-- ===== src/Logout.antt =====
-- backend/user_routes.py: `logout`, which revokes what it can, and the list of users.
pub mod Gone
pub mod Revoked
use python_fastapi_poc.Prelude.{
  ℕ, ◌-◌, ◌*◌, ◌/◌, ◌==◌, ℤ, pos, negsuc, String, Bool, true, false, Option, none, some, List, [],
  ◌∷◌, str_eq, if◌then◌else◌,
}
use python_fastapi_poc.Domain.{JsonPrimitive, JsonObject, get}
use python_fastapi_poc.Models.{User}
use python_fastapi_poc.Env.{Env}
use python_fastapi_poc.Identity.{Identity, Decoded, claims, expired_signature, invalid_token}
use python_fastapi_poc.Session.{
  Result, ok, raise, Exception, Exec, World, pure, throw, catch, select, with_session, read_clock,
  redis_error, refresh_key, revoked_key, ◌>>=◌, ◌>>◌,
}
use python_fastapi_poc.Redis.{setex, delete}
use python_fastapi_poc.Security.{get_optional_user, require_authenticated_user}
use python_fastapi_poc.UserRoutes.{given, get_current_user}

-- `max(0, int(exp - now))`, for an int; a bool is one.
abbrev pub remaining_int : ℕ → ℤ → ℕ
remaining_int now (pos exp) = (exp * 1000000 - now) / 1000000
remaining_int now (negsuc exp) = 0

-- `except RedisError`: the failure is logged.
ignored : Exception → Exec (Unit {0})
ignored redis_error = pure tt
ignored e = throw e

module _ (env : Env) (identity : Identity) where
  -- none if the claim is no number.
  remaining : ℕ → Option JsonPrimitive → Option ℕ
  remaining now (some (JsonPrimitive.int n)) = some (remaining_int now n)
  remaining now (some (JsonPrimitive.bool true)) = some (remaining_int now (pos 1))
  remaining now (some (JsonPrimitive.bool false)) = some (remaining_int now (pos 0))
  remaining now (some (JsonPrimitive.float f)) = some (identity.float_remaining now f)
  remaining now _ = none

  revoke_for : String → Option ℕ → Exec (Unit {0})
  revoke_for jti none = pure tt
  revoke_for jti (some seconds) =
      if seconds == 0 then pure tt else setex env identity (revoked_key jti) seconds "1"

  revoke_jti : Option JsonPrimitive → Option JsonPrimitive → Exec (Unit {0})
  unfolding remaining revoke_for
  revoke_jti (some (JsonPrimitive.str jti)) exp = do
    now ← read_clock env
    revoke_for jti (remaining now exp)
  revoke_jti _ exp = pure tt

  revoke_decoded : Decoded → Exec (Unit {0})
  unfolding revoke_jti
  revoke_decoded (claims payload) = revoke_jti (get payload "jti") (get payload "exp")
  revoke_decoded expired_signature = pure tt
  revoke_decoded invalid_token = pure tt

  unfoldable pub revoke_access : Option String → Exec (Unit {0})
  unfolding revoke_decoded ignored
  revoke_access none = pure tt
  revoke_access (some token) =
      catch (read_clock env >>= λ now. revoke_decoded (identity.jwt_decode now token)) ignored

  unfoldable pub drop_refresh : Option String → Exec (Unit {0})
  unfolding ignored
  drop_refresh none = pure tt
  drop_refresh (some token) = catch (delete env identity (refresh_key token)) ignored

  -- The dependency first; then both cookies are cleared, whatever Redis answers.
  unfoldable pub logout :
      (access_token authorization refresh_token : Option String) → Exec (Unit {0})
  logout access_token authorization refresh_token = do
    user ← get_optional_user env identity access_token authorization
    revoke_access (given access_token)
    drop_refresh (given refresh_token)

  unfoldable pub list_users : Option String → Option String → Exec (List User)
  list_users access_token authorization = with_session (
      require_authenticated_user env identity access_token authorization >>= λ email.
      select env (λ db. env.desc User (λ u. u.created_at) db.users))

  unfoldable pub get_current_user_profile : Option String → Option String → Exec User
  get_current_user_profile access_token authorization = with_session (
      require_authenticated_user env identity access_token authorization
      >>= get_current_user env identity)

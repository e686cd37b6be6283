-- ===== src/UserRoutes.antt =====
-- backend/user_routes.py: signing in with Google, renewing and ending a session, and the users.
pub mod Unique
pub mod Accounts
pub mod Profiles
pub mod Renewal
pub mod Gone
use python_fastapi_poc.Prelude.{
  ℕ, suc, ◌+◌, ◌-◌, ◌*◌, ◌/◌, ◌==◌, ℤ, pos, negsuc, String, Bool, true, false, Option, none, some,
  List, [], ◌∷◌, ◌++◌, map, str_eq, not, ◌&&◌, ◌||◌, rows_where, if◌then◌else◌,
}
use Prim.Native.Char.{code}
use python_fastapi_poc.Domain.{JsonPrimitive, JsonObject, get, int_value}
use python_fastapi_poc.Models.{User, Db}
use python_fastapi_poc.Env.{Env}
use python_fastapi_poc.Identity.{
  Identity, Settings, Decoded, claims, expired_signature, invalid_token,
}
use python_fastapi_poc.Schemas.{to_str}
use python_fastapi_poc.Session.{
  Result, ok, raise, Exception, Exec, World, pure, throw, catch, lift, modify, select, commit,
  rollback, with_session, read_clock, one_or_none, http_exception, redis_error, integrity_error,
  refresh_key, revoked_key, ◌>>=◌, ◌>>◌,
}
use python_fastapi_poc.Redis.{unavailable, setex, getdel, delete}
use python_fastapi_poc.Security.{
  draw_token, create_access_token, get_optional_user, require_authenticated_user,
}
use python_fastapi_poc.GoogleOauth.{
  GoogleUserInfo, is_truthy, generate_state, validate_and_consume_state, consume_pkce_verifier,
  exchange_code_for_tokens, fetch_google_user_info,
}

-- The cookies of a response that signs in.
pub record Cookies : Type 0 where
  pub access_token : String
  pub refresh_token : String
  pub secure : Bool
  pub max_age : ℕ
  pub refresh_max_age : ℕ

-- `text.startswith(prefix)`
unfoldable pub starts_with : (prefix text : String) → Bool
starts_with String.[] text = true
starts_with (String.◌∷◌ c prefix) String.[] = false
starts_with (String.◌∷◌ c prefix) (String.◌∷◌ d text) =
    (code c == code d) && starts_with prefix text

abbrev pub on_users : (List User → List User) → Db → Db
on_users change db = record db { users = change db.users }

unfoldable pub with_email : String → List User → List User
with_email email = rows_where (λ u. str_eq u.email email)

unfoldable pub with_google_id : String → List User → List User
with_google_id google_id = rows_where (λ u. str_eq u.google_id google_id)

-- The claims of a user's profile.
abbrev pub profile_claims : String → Option String → List (String × String)
profile_claims name none = ("name", name) ∷ []
profile_claims name (some picture) = ("name", name) ∷ ("picture", picture) ∷ []

-- `existing.name = ...` and `existing.picture = ...`
unfoldable pub set_profile : ℕ → GoogleUserInfo → List User → List User
set_profile id info =
    map (λ u. if u.id == id then record u { name = info.name; picture = info.picture } else u)

-- An IntegrityError of the commit is a 409.
conflict : Exception → Exec (Unit {0})
conflict integrity_error = rollback >> throw (http_exception 409)
conflict e = throw e

-- The text of an optional parameter, if it is not empty.
abbrev pub given : Option String → Option String
given none = none
given (some s) = if str_eq s "" then none else some s

module _ (env : Env) (identity : Identity) where
  -- The synthetic user of the local administrator.
  abbrev pub local_admin : String → ℕ → User
  local_admin email now = record {
    id = 0;
    google_id = "local-admin";
    email = email;
    name = "Admin";
    picture = none;
    created_at = now;
  }

  user_or_admin : String → Option User → Exec User
  user_or_admin email (some user) = pure user
  user_or_admin email none =
      if identity.settings.enable_password_auth && str_eq email identity.settings.admin_username
      then (do now ← read_clock env; pure (local_admin email now))
      else throw (http_exception 404)

  find_user : String → Exec (Option User)
  find_user email = do rows ← select env (λ db. with_email email db.users); one_or_none rows

  unfoldable pub get_current_user : String → Exec User
  unfolding user_or_admin find_user
  get_current_user email = do user ← find_user email; user_or_admin email user

  unfoldable pub google_login : Exec (String × String)
  google_login = generate_state env identity

  add_user : GoogleUserInfo → Exec (Unit {0})
  add_user info w =
      let id = env.new_id w.statements (map (λ u. u.id) w.working.users) in
      let row : User = record {
        id = id;
        google_id = info.google_id;
        email = info.email;
        name = info.name;
        picture = info.picture;
        created_at = env.now w.readings;
      } in
      (
        ok tt,
        record w { working = on_users (λ l. l ++ row ∷ []) w.working; readings = suc w.readings },
      )

  upsert : GoogleUserInfo → Option User → Exec (Unit {0})
  unfolding add_user
  upsert info none = add_user info
  upsert info (some existing) = modify (on_users (set_profile existing.id info))

  -- The user's row is written before any cookie is issued.
  unfoldable pub store_user : GoogleUserInfo → Exec (Unit {0})
  unfolding upsert conflict
  store_user info = do
    rows ← select env (λ db. with_google_id info.google_id db.users)
    existing ← one_or_none rows
    upsert info existing
    catch (commit env) conflict

  abbrev pub refresh_ttl : ℕ
  refresh_ttl = identity.settings.refresh_token_expire_days * 86400

  -- A new refresh token for an email, and the cookies.
  unfoldable pub issue_cookies : String → String → Exec Cookies
  unfolding starts_with
  issue_cookies email access_token = do
    refresh_token ← draw_token env identity
    catch (setex env identity (refresh_key refresh_token) refresh_ttl email) unavailable
    pure record {
      access_token = access_token;
      refresh_token = refresh_token;
      secure = starts_with "https://" identity.settings.frontend_url;
      max_age = identity.settings.access_token_expire_minutes * 60;
      refresh_max_age = refresh_ttl;
    }

  sign_in : GoogleUserInfo → Exec Cookies
  sign_in info = do
    store_user info
    access_token ←
        create_access_token env identity info.email (profile_claims info.name info.picture)
    issue_cookies info.email access_token

  exchanged : Option JsonPrimitive → Exec GoogleUserInfo
  exchanged access_token =
      if is_truthy env identity access_token
      then elim access_token [
        | none ↦ throw (http_exception 502)
        | some v ↦ fetch_google_user_info env identity (to_str env v)
      ]
      else throw (http_exception 502)

  verified : String → Option String → Exec GoogleUserInfo
  unfolding exchanged
  verified code none = throw (http_exception 400)
  verified code (some code_verifier) = do
    tokens ← exchange_code_for_tokens env identity code code_verifier
    exchanged (get tokens "access_token")

  authorized : String → String → Exec Cookies
  unfolding verified sign_in
  authorized state code = do
    validate_and_consume_state env identity state
    code_verifier ← consume_pkce_verifier env identity state
    info ← verified code code_verifier
    sign_in info

  -- `if error or not code`
  answered_by_google : String → Option String → Option String → Exec Cookies
  unfolding authorized
  answered_by_google state (some code) none = authorized state code
  answered_by_google state _ _ = throw (http_exception 400)

  unfoldable pub google_callback : String → Option String → Option String → Exec Cookies
  unfolding answered_by_google
  google_callback state code error =
      with_session (answered_by_google state (given code) (given error))

  renewed_claims : Option User → List (String × String)
  renewed_claims none = []
  renewed_claims (some user) = profile_claims user.name user.picture

  renew : Option String → Exec Cookies
  unfolding renewed_claims find_user
  renew none = throw (http_exception 401)
  renew (some email) = do
    user ← find_user email
    access_token ← create_access_token env identity email (renewed_claims user)
    issue_cookies email access_token

  rotate : Option String → Exec Cookies
  unfolding renew
  rotate none = throw (http_exception 401)
  rotate (some token) = do
    email ← catch (getdel env identity (refresh_key token)) unavailable
    renew email

  unfoldable pub refresh_token : Option String → Exec Cookies
  unfolding rotate
  refresh_token cookie = with_session (rotate cookie)

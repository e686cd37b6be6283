-- ===== src/Security.antt =====
-- backend/security.py and backend/auth_routes.py: access tokens. The dependencies of a handler run
-- before it; logging is left out.
pub mod Gone
pub mod Claims
pub mod Tokens
pub mod Passwords
pub mod Apart
pub mod Verdicts
use python_fastapi_poc.Prelude.{
  ℕ, ◌+◌, ◌*◌, ◌/◌, ◌==◌, pos, String, Bool, true, false, Option, none, some, List, [], ◌∷◌, ◌++◌,
  map, str_eq, not, ◌&&◌, ◌||◌, rows_where, if◌then◌else◌,
}
use Prim.Native.Char.{code}
use python_fastapi_poc.Domain.{JsonPrimitive, JsonObject, get}
use python_fastapi_poc.Env.{Env}
use python_fastapi_poc.Identity.{
  Identity, Settings, Decoded, claims, expired_signature, invalid_token,
}
use python_fastapi_poc.Session.{
  Result, ok, raise, Exception, Exec, World, pure, throw, catch, read_clock, http_exception,
  redis_error, value_error, invalid_salt, lift, revoked_key, ◌>>=◌, ◌>>◌,
}
use python_fastapi_poc.Redis.{unavailable, exists}

-- `text.partition(" ")`: the texts before and after the first space.
unfoldable pub partition_space : String → String × String
partition_space String.[] = ("", "")
partition_space (String.◌∷◌ c s) =
    let (before, after) = partition_space s in
    if code c == 32 then ("", s) else (String.◌∷◌ c before, after)

abbrev unauthorized : {A : Type 0} → Exec A
unauthorized = throw (http_exception 401)

-- The allowlisted claims.
unfoldable pub safe_claims : List (String × String) → JsonObject
safe_claims extra =
    map (λ p. (p.0, JsonPrimitive.str p.1))
      (rows_where (λ p. str_eq p.0 "name" || str_eq p.0 "picture") extra)

-- `d[key] = value`
set_key : String → JsonPrimitive → JsonObject → JsonObject
set_key k v [] = (k, v) ∷ []
set_key k v ((j, u) ∷ o) =
    let rest = set_key k v o in if str_eq j k then (j, v) ∷ o else (j, u) ∷ rest

-- `d.update(other)`: the values of `other` take the place of those that are there.
unfoldable pub update : JsonObject → JsonObject → JsonObject
unfolding set_key
update o [] = o
update o ((k, v) ∷ other) = update (set_key k v o) other

module _ (env : Env) (identity : Identity) where
  -- `secrets.token_urlsafe`
  unfoldable pub draw_token : Exec String
  draw_token w = (ok (identity.draw w.draws), record w { draws = w.draws + 1 })

  bearer : String × String → Exec (Option String)
  bearer (scheme, token) =
      if not (str_eq (identity.lower scheme) "bearer") || str_eq token ""
      then unauthorized
      else pure (some token)

  -- `_get_token_from_request`
  unfoldable pub get_token_from_request : Option String → Option String → Exec (Option String)
  unfolding bearer partition_space
  get_token_from_request (some access_token) authorization = pure (some access_token)
  get_token_from_request none none = pure none
  get_token_from_request none (some authorization) = bearer (partition_space authorization)

  -- The expiry is a datetime, which the encoder turns into whole seconds.
  unfoldable pub access_claims : String → String → ℕ → List (String × String) → JsonObject
  unfolding safe_claims update
  access_claims subject jti now extra =
      update
        (("sub", JsonPrimitive.str subject)
          ∷ (
            "exp",
            JsonPrimitive.int
                (pos ((now + identity.settings.access_token_expire_minutes * 60000000) / 1000000)),
          )
          ∷ ("jti", JsonPrimitive.str jti)
          ∷ [])
        (safe_claims extra)

  unfoldable pub create_access_token : String → List (String × String) → Exec String
  unfolding draw_token
  create_access_token subject extra = do
    jti ← draw_token
    now ← read_clock env
    pure (identity.jwt_encode (access_claims subject jti now extra))

  -- A claim `jti` that is no text is not looked up.
  check_revoked : Option JsonPrimitive → Exec (Unit {0})
  unfolding unavailable
  check_revoked (some (JsonPrimitive.str jti)) = do
    revoked ← catch (exists env identity (revoked_key jti)) unavailable
    if revoked then unauthorized else pure tt
  check_revoked _ = pure tt

  check_subject : JsonObject → Option JsonPrimitive → Exec String
  unfolding check_revoked
  check_subject payload (some (JsonPrimitive.str subject)) =
      check_revoked (get payload "jti") >> pure subject
  check_subject payload _ = unauthorized

  check_decoded : Decoded → Exec String
  unfolding check_subject
  check_decoded (claims payload) = check_subject payload (get payload "sub")
  check_decoded expired_signature = unauthorized
  check_decoded invalid_token = unauthorized

  -- `_decode_token_subject`
  unfoldable pub decode_token_subject : String → Exec String
  unfolding check_decoded
  decode_token_subject token = do
    now ← read_clock env
    check_decoded (identity.jwt_decode now token)

  optional_subject : Option String → Exec (Option String)
  optional_subject none = pure none
  optional_subject (some token) = do subject ← decode_token_subject token; pure (some subject)

  -- With its dependency, from the request's cookie and header.
  unfoldable pub get_optional_user : Option String → Option String → Exec (Option String)
  unfolding optional_subject
  get_optional_user access_token authorization = do
    token ← get_token_from_request access_token authorization
    optional_subject token

  required : Option String → Exec String
  required none = unauthorized
  required (some user) = pure user

  unfoldable pub require_authenticated_user : Option String → Option String → Exec String
  unfolding required
  require_authenticated_user access_token authorization = do
    user ← get_optional_user access_token authorization
    required user

  unfoldable pub verify_password : (plain hashed : String) → Result Bool
  verify_password plain hashed = elim (identity.checkpw plain hashed) [
    | none ↦ raise (value_error invalid_salt)
    | some matches ↦ ok matches
  ]

  -- Both tests are made in any case.
  unfoldable pub login_for_access_token : (username password : String) → Exec String
  unfolding verify_password
  login_for_access_token username password = do
    let username_ok = str_eq username identity.settings.admin_username
    password_ok ← lift (verify_password password identity.settings.admin_password_hash)
    if not (username_ok && password_ok) then unauthorized else create_access_token username []

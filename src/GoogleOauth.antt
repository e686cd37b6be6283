-- ===== src/GoogleOauth.antt =====
-- backend/google_oauth.py: the state token and the PKCE verifier, and the calls of Google's
-- endpoints. The URL of the consent screen is text for the browser, and is left out.
pub mod Gone
use python_fastapi_poc.Prelude.{
  ℕ, ◌==◌, pos, negsuc, String, Bool, true, false, Option, none, some, List, [], ◌∷◌, str_eq, not,
  ◌&&◌, if◌then◌else◌,
}
use python_fastapi_poc.Domain.{JsonPrimitive, JsonObject, get}
use python_fastapi_poc.Env.{Env}
use python_fastapi_poc.Schemas.{to_str}
use python_fastapi_poc.Identity.{Identity, HttpAnswer, json, status_error, request_error, malformed}
use python_fastapi_poc.Session.{
  Result, ok, raise, Exception, Exec, World, pure, throw, catch, lift, http_exception, redis_error,
  value_error, malformed_json, state_key, pkce_key, ◌>>=◌, ◌>>◌,
}
use python_fastapi_poc.Redis.{unavailable, setex_both, getdel}
use python_fastapi_poc.Security.{draw_token}

pub record GoogleUserInfo : Type 0 where
  pub google_id : String
  pub email : String
  pub name : String
  pub picture : Option String

abbrev pub state_ttl_seconds : ℕ
state_ttl_seconds = 600

module _ (env : Env) (identity : Identity) where
  -- The truth value of an optional JSON value.
  unfoldable pub is_truthy : Option JsonPrimitive → Bool
  is_truthy none = false
  is_truthy (some (JsonPrimitive.str s)) = not (str_eq s "")
  is_truthy (some (JsonPrimitive.int (pos k))) = not (k == 0)
  is_truthy (some (JsonPrimitive.int (negsuc k))) = true
  is_truthy (some (JsonPrimitive.float f)) = identity.float_truthy f
  is_truthy (some (JsonPrimitive.bool b)) = b
  is_truthy (some JsonPrimitive.null) = false

  -- `generate_state`: the token and the verifier are both stored, or neither is.
  unfoldable pub generate_state : Exec (String × String)
  unfolding unavailable
  generate_state = do
    state ← draw_token env identity
    code_verifier ← draw_token env identity
    catch
        (setex_both env identity (state_key state) "1" (pkce_key state) code_verifier
          state_ttl_seconds)
        unavailable
    pure (state, code_verifier)

  consumed : Option String → Exec (Unit {0})
  consumed none = throw (http_exception 400)
  consumed (some value) = pure tt

  unfoldable pub validate_and_consume_state : String → Exec (Unit {0})
  unfolding consumed unavailable
  validate_and_consume_state state = do
    value ← catch (getdel env identity (state_key state)) unavailable
    consumed value

  unfoldable pub consume_pkce_verifier : String → Exec (Option String)
  unfolding unavailable
  consume_pkce_verifier state = catch (getdel env identity (pkce_key state)) unavailable

  json_of : HttpAnswer → Result JsonObject
  json_of (json object) = ok object
  json_of status_error = raise (http_exception 502)
  json_of request_error = raise (http_exception 502)
  json_of malformed = raise (value_error malformed_json)

  -- The endpoint's answer may differ from call to call.
  unfoldable pub exchange_code_for_tokens : (code code_verifier : String) → Exec JsonObject
  unfolding json_of
  exchange_code_for_tokens code code_verifier w =
      (json_of (identity.token_endpoint w.commands code code_verifier), w)

  profile :
      Option JsonPrimitive
      → Option JsonPrimitive
      → Option JsonPrimitive
      → Option JsonPrimitive
      → Result GoogleUserInfo
  unfolding is_truthy
  profile (some sub) (some email) (some name) picture = ok record {
    google_id = to_str env sub;
    email = to_str env email;
    name = to_str env name;
    picture =
        if is_truthy picture
        then elim picture [ none ↦ none | some p ↦ some (to_str env p) ]
        else none;
  }
  profile _ _ _ picture = raise (http_exception 502)

  -- A response that lacks a required field is a 502.
  user_info_of : JsonObject → Result GoogleUserInfo
  unfolding profile
  user_info_of object =
      profile (get object "sub") (get object "email") (get object "name") (get object "picture")

  unfoldable pub fetch_google_user_info : String → Exec GoogleUserInfo
  unfolding json_of user_info_of
  fetch_google_user_info access_token w =
      (lift (json_of (identity.userinfo_endpoint w.commands access_token)) >>= λ object.
      lift (user_info_of object))
        w

-- ===== src/Identity.antt =====
-- What authentication takes from outside: the settings (backend/config.py), the Redis server, random
-- draws, JSON Web Tokens, bcrypt, and Google's endpoints.
use python_fastapi_poc.Prelude.{ℕ, String, Bool, Option, some, pos, ◌≡◌, ◌<◌, ◌*◌}
use python_fastapi_poc.Domain.{JsonPrimitive, JsonObject, get}

-- The fields of `Settings` that the handlers read.
pub record Settings : Type 0 where
  pub access_token_expire_minutes : ℕ
  pub refresh_token_expire_days : ℕ
  pub admin_username : String
  pub admin_password_hash : String
  pub enable_password_auth : Bool
  pub enforce_https : Bool
  pub scheduler_enabled : Bool
  pub backend_url : String
  pub frontend_url : String

-- A Redis command is executed; it is not, with an error; or it is, and its answer is lost.
pub data Answer : Type 0 where
  answered refused lost : Answer

pub data Decoded : Type 0 where
  claims : JsonObject → Decoded
  expired_signature invalid_token : Decoded

-- The answer to an HTTP request: a JSON object, a status that is an error, no answer, or a body that
-- is no JSON.
pub data HttpAnswer : Type 0 where
  json : JsonObject → HttpAnswer
  status_error request_error malformed : HttpAnswer

pub record Identity : Type 0 where
  pub settings : Settings
  -- The fate of the n-th command.
  pub answer : ℕ → Answer
  -- The n-th draw of `secrets`, as text.
  pub draw : ℕ → String
  pub jwt_encode : JsonObject → String
  -- The claims that a token carries at a time, if it is genuine and has not expired.
  pub jwt_decode : (now : ℕ) → String → Decoded
  -- A token of this program is accepted until its time in seconds, and carries its claims.
  pub jwt_decode-encode :
      (now exp : ℕ) (sub jti : String) (payload : JsonObject)
      → get payload "sub" ≡ some (JsonPrimitive.str sub)
      → get payload "jti" ≡ some (JsonPrimitive.str jti)
      → get payload "exp" ≡ some (JsonPrimitive.int (pos exp))
      → now < exp * 1000000
      → (decoded : JsonObject) × (jwt_decode now (jwt_encode payload) ≡ claims decoded)
        × (get decoded "sub" ≡ some (JsonPrimitive.str sub))
        × (get decoded "jti" ≡ some (JsonPrimitive.str jti))
        × (get decoded "exp" ≡ some (JsonPrimitive.int (pos exp)))
  -- `bcrypt.checkpw`, none if the hash is no bcrypt hash.
  pub checkpw : (plain hashed : String) → Option Bool
  -- `str.lower`, the truth value of a float, and the whole seconds from a time to a float.
  pub lower : String → String
  pub float_truthy : ℕ → Bool
  pub float_remaining : (now exp : ℕ) → ℕ
  -- The n-th answers of the token and userinfo endpoints.
  pub token_endpoint : ℕ → (code code_verifier : String) → HttpAnswer
  pub userinfo_endpoint : ℕ → (access_token : String) → HttpAnswer

-- ===== src/Security/Verdicts.antt =====
-- What the verdict on a request's credentials depends on: not on the database.
use python_fastapi_poc.Prelude.{ℕ, suc, ◌≡◌, refl, String, Option, none, some, arith}
use python_fastapi_poc.Domain.{JsonPrimitive, JsonObject, get}
use python_fastapi_poc.Models.{Db}
use python_fastapi_poc.Env.{Env}
use python_fastapi_poc.Identity.{Identity, Decoded, claims, expired_signature, invalid_token}
use python_fastapi_poc.Session.{World, read_clock}
use python_fastapi_poc.Redis.{exists, command, unavailable}
use python_fastapi_poc.Security.{
  check_revoked, check_subject, check_decoded, decode_token_subject, optional_subject, bearer,
  get_token_from_request, partition_space, get_optional_user, required, require_authenticated_user,
}

-- The world after some statements on the tables.
abbrev pub queried : Db → ℕ → World → World
queried db n w = record w { working = db; statements = n }

module _ (env : Env) (identity : Identity) (db : Db) (n : ℕ) where
  check_subject-queried :
      (payload : JsonObject) (sub : Option JsonPrimitive) (w : World)
      → (check_subject env identity payload sub (queried db n w)).0
        ≡ (check_subject env identity payload sub w).0
  unfolding check_subject check_revoked exists command unavailable
  check_subject-queried payload (some (JsonPrimitive.str s)) w = ground arith
  check_subject-queried payload none w = refl
  check_subject-queried payload (some (JsonPrimitive.int i)) w = refl
  check_subject-queried payload (some (JsonPrimitive.float f)) w = refl
  check_subject-queried payload (some (JsonPrimitive.bool b)) w = refl
  check_subject-queried payload (some JsonPrimitive.null) w = refl

  check_decoded-queried :
      (decoded : Decoded) (w : World)
      → (check_decoded env identity decoded (queried db n w)).0
        ≡ (check_decoded env identity decoded w).0
  unfolding check_decoded
  check_decoded-queried (claims payload) w = check_subject-queried payload (get payload "sub") w
  check_decoded-queried expired_signature w = refl
  check_decoded-queried invalid_token w = refl

  require_token-queried :
      (token : String) (w : World)
      → (require_authenticated_user env identity (some token) none (queried db n w)).0
        ≡ (require_authenticated_user env identity (some token) none w).0
  unfolding require_authenticated_user get_optional_user get_token_from_request optional_subject
      decode_token_subject read_clock required
  require_token-queried token w = ground (
    arith,
    check_decoded-queried (identity.jwt_decode (env.now w.readings) token)
        (record w { readings = suc w.readings }),
  )

  -- The database has no part in it.
  pub require_authenticated_user-queried :
      (access_token authorization : Option String) (w : World)
      → (require_authenticated_user env identity access_token authorization (queried db n w)).0
        ≡ (require_authenticated_user env identity access_token authorization w).0
  unfolding require_authenticated_user get_optional_user get_token_from_request bearer required
  require_authenticated_user-queried (some token) authorization w = require_token-queried token w
  require_authenticated_user-queried none none w = refl
  require_authenticated_user-queried none (some authorization) w =
      ground (arith, require_token-queried (partition_space authorization).1 w)

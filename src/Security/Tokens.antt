-- ===== src/Security/Tokens.antt =====
-- The tokens of the program, as it accepts them.
use python_fastapi_poc.Prelude.{
  ℕ, suc, ◌+◌, ◌*◌, ◌/◌, ◌<◌, ◌≡◌, refl, subst, String, Bool, true, false, Option, none, some, List,
  arith,
}
use python_fastapi_poc.Domain.{JsonPrimitive, JsonObject, get}
use python_fastapi_poc.Env.{Env}
use python_fastapi_poc.Identity.{
  Identity, Answer, answered, refused, lost, Decoded, claims, expired_signature, invalid_token,
}
use python_fastapi_poc.Session.{Result, ok, raise, World, http_exception, revoked_key, read_clock}
use python_fastapi_poc.Redis.{find, is_some, exists, unavailable, command}
use python_fastapi_poc.Security.Claims.{sub-access_claims, jti-access_claims, exp-access_claims}
use python_fastapi_poc.Security.{
  access_claims, create_access_token, decode_token_subject, check_decoded, check_subject,
  check_revoked, draw_token,
}

-- What becomes of a genuine token: accepted, unless it is revoked, or Redis does not say.
abbrev pub verdict : Answer → (revoked : Bool) → String → Result String
verdict answered false subject = ok subject
verdict answered true subject = raise (http_exception 401)
verdict refused revoked subject = raise (http_exception 503)
verdict lost revoked subject = raise (http_exception 503)

-- The second at which a token that is created at a time expires.
abbrev pub expiry : Identity → ℕ → ℕ
expiry identity now = (now + identity.settings.access_token_expire_minutes * 60000000) / 1000000

module _ (env : Env) (identity : Identity) where
  check_subject-redis :
      (payload : JsonObject) (sub : Option JsonPrimitive) (w : World)
      → (check_subject env identity payload sub w).1.redis ≡ w.redis
  unfolding check_subject check_revoked exists command unavailable
  check_subject-redis payload (some (JsonPrimitive.str s)) w = ground arith
  check_subject-redis payload none w = refl
  check_subject-redis payload (some (JsonPrimitive.int n)) w = refl
  check_subject-redis payload (some (JsonPrimitive.float f)) w = refl
  check_subject-redis payload (some (JsonPrimitive.bool b)) w = refl
  check_subject-redis payload (some JsonPrimitive.null) w = refl

  check_decoded-redis :
      (decoded : Decoded) (w : World) → (check_decoded env identity decoded w).1.redis ≡ w.redis
  unfolding check_decoded
  check_decoded-redis (claims payload) w = check_subject-redis payload (get payload "sub") w
  check_decoded-redis expired_signature w = refl
  check_decoded-redis invalid_token w = refl

  -- A look at a token changes nothing in the store.
  pub decode_token_subject-redis :
      (token : String) (w : World) → (decode_token_subject env identity token w).1.redis ≡ w.redis
  unfolding decode_token_subject read_clock
  decode_token_subject-redis token w =
      check_decoded-redis (identity.jwt_decode (env.now w.readings) token)
        (record w { readings = suc w.readings })

  check_subject-verdict :
      (jti subject : String) (payload : JsonObject) (w : World)
      → get payload "jti" ≡ some (JsonPrimitive.str jti)
      → (check_subject env identity payload (some (JsonPrimitive.str subject)) w).0
        ≡ verdict
            (identity.answer w.commands)
            (is_some (find (env.now w.readings) (revoked_key jti) w.redis))
            subject
  unfolding check_subject check_revoked exists command unavailable
  check_subject-verdict jti subject payload w named = rw named (ground arith)

  -- The token that is created for a subject is accepted as the subject's at every time before it
  -- expires, if Redis answers and the token is not revoked; it is refused with 401 if it is revoked,
  -- and with 503 if Redis does not answer.
  pub decode-create_access_token :
      (subject : String) (extra : List (String × String)) (w v : World) (token : String)
      → (create_access_token env identity subject extra w).0 ≡ ok token
      → env.now v.readings < expiry identity (env.now w.readings) * 1000000
      → (decode_token_subject env identity token v).0
        ≡ verdict
            (identity.answer v.commands)
            (is_some
              (find (env.now (suc v.readings)) (revoked_key (identity.draw w.draws)) v.redis))
            subject
  unfolding create_access_token draw_token read_clock decode_token_subject check_decoded
  decode-create_access_token subject extra w v token created early =
      let now = env.now w.readings in
      let jti = identity.draw w.draws in
      let payload = access_claims env identity subject jti now extra in
      let (decoded, accepted, s, j, e) =
        identity.jwt_decode-encode (env.now v.readings) (expiry identity now) subject jti payload
          (sub-access_claims env identity subject jti now extra)
          (jti-access_claims env identity subject jti now extra)
          (exp-access_claims env identity subject jti now extra) early in
      let same : identity.jwt_encode payload ≡ token = ground arith in
      let read : World = record v { readings = suc v.readings } in
      subst
        (λ t.
          (check_decoded env identity (identity.jwt_decode (env.now v.readings) t) read).0
          ≡ verdict (identity.answer v.commands)
              (is_some (find (env.now (suc v.readings)) (revoked_key jti) v.redis)) subject)
        same (rw (accepted, s) (check_subject-verdict jti subject decoded read j))

  -- The token that is created.
  pub create_access_token-ok :
      (subject : String) (extra : List (String × String)) (w : World)
      → (create_access_token env identity subject extra w).0
        ≡ ok (
            identity.jwt_encode (
              access_claims env identity subject
                (identity.draw w.draws)
                (env.now w.readings)
                extra))
  unfolding create_access_token draw_token read_clock
  create_access_token-ok subject extra w = refl

  check_subject-world :
      (jti subject : String) (payload : JsonObject) (w : World)
      → get payload "jti" ≡ some (JsonPrimitive.str jti)
      → (check_subject env identity payload (some (JsonPrimitive.str subject)) w).1
        ≡ record w { readings = suc w.readings; commands = suc w.commands }
  unfolding check_subject check_revoked exists command unavailable
  check_subject-world jti subject payload w named = rw named (ground arith)

  -- A look at claims with a `jti` takes one command and two readings of clocks.
  pub decode_token_subject-world :
      (token jti subject : String) (payload : JsonObject) (w : World)
      → identity.jwt_decode (env.now w.readings) token ≡ claims payload
      → get payload "sub" ≡ some (JsonPrimitive.str subject)
      → get payload "jti" ≡ some (JsonPrimitive.str jti)
      → (decode_token_subject env identity token w).1
        ≡ record w { readings = suc (suc w.readings); commands = suc w.commands }
  unfolding decode_token_subject check_decoded read_clock
  decode_token_subject-world token jti subject payload w decoded sub named =
      rw (decoded, sub)
        (check_subject-world jti subject payload (record w { readings = suc w.readings }) named)

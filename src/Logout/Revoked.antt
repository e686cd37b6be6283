-- ===== src/Logout/Revoked.antt =====
-- What `logout` does to the token that it is sent.
use python_fastapi_poc.Prelude.{
  ℕ, suc, ◌+◌, ◌-◌, ◌*◌, ◌/◌, ◌<◌, ◌≡◌, refl, sym, ap, ◌∙◌, subst, pos, String, true, false, Option,
  none, some, List, str_eq, ◌==◌, arith,
}
use python_fastapi_poc.Domain.{JsonPrimitive, JsonObject, get}
use python_fastapi_poc.Env.{Env}
use python_fastapi_poc.Identity.{Identity, answered, refused, claims}
use python_fastapi_poc.Session.{
  ok, raise, World, http_exception, revoked_key, refresh_key, read_clock,
}
use python_fastapi_poc.Redis.{find, put, is_some, command, setex, delete}
use python_fastapi_poc.Redis.Laws.{find-put, find-remove, eq_key_refl}
use python_fastapi_poc.Security.{
  access_claims, create_access_token, decode_token_subject, get_optional_user,
  get_token_from_request,
}
use python_fastapi_poc.Security.Claims.{sub-access_claims, jti-access_claims, exp-access_claims}
use python_fastapi_poc.Security.Tokens.{
  create_access_token-ok, decode_token_subject-world, decode_token_subject-redis, verdict, expiry,
  decode-create_access_token,
}
use python_fastapi_poc.UserRoutes.{given}
use python_fastapi_poc.Logout.{logout, revoke_access, revoke_decoded, drop_refresh}

-- A token of the program: whose, its `jti`, and the second at which it expires.
pub record IsToken (env : Env) (identity : Identity) (token subject jti : String) (exp : ℕ)
    : Type 0 where
  pub extra : List (String × String)
  pub created : World
  pub made : (create_access_token env identity subject extra created).0 ≡ ok token
  pub named : identity.draw created.draws ≡ jti
  pub expires : expiry identity (env.now created.readings) ≡ exp

module _ (env : Env) (identity : Identity) {token subject jti : String} {exp : ℕ}
    (own : IsToken env identity token subject jti exp) where
  decode-own :
      (v : World)
      → env.now v.readings < exp * 1000000
      → (decode_token_subject env identity token v).0
        ≡ verdict
            (identity.answer v.commands)
            (is_some (find (env.now (suc v.readings)) (revoked_key jti) v.redis))
            subject
  decode-own v early =
      decode-create_access_token env identity subject own.extra own.created v token own.made
        (subst (λ n. env.now v.readings < n * 1000000) (sym own.expires) early)
      ∙ ap
          (λ j.
            verdict (identity.answer v.commands)
              (is_some (find (env.now (suc v.readings)) (revoked_key j) v.redis)) subject)
          own.named

  -- The claims of the token, at a time before it expires.
  payload-own :
      (now : ℕ)
      → now < exp * 1000000
      → (payload : JsonObject) × (identity.jwt_decode now token ≡ claims payload)
        × (get payload "sub" ≡ some (JsonPrimitive.str subject))
        × (get payload "jti" ≡ some (JsonPrimitive.str jti))
        × (get payload "exp" ≡ some (JsonPrimitive.int (pos exp)))
  unfolding create_access_token
  payload-own now early =
      let t = env.now own.created.readings in
      let payload =
        access_claims env identity subject (identity.draw own.created.draws) t own.extra in
      let (decoded, accepted, s, j, e) =
        identity.jwt_decode-encode now (expiry identity t) subject (identity.draw own.created.draws)
          payload
          (sub-access_claims env identity subject (identity.draw own.created.draws) t own.extra)
          (jti-access_claims env identity subject (identity.draw own.created.draws) t own.extra)
          (exp-access_claims env identity subject (identity.draw own.created.draws) t own.extra)
          (subst (λ n. now < n * 1000000) (sym own.expires) early) in
      let same : identity.jwt_encode payload ≡ token =
        ground
          (arith, own.made, create_access_token-ok env identity subject own.extra own.created) in
      (
        decoded,
        subst (λ k. identity.jwt_decode now k ≡ claims decoded) same accepted,
        s,
        j ∙ ap (λ k. some (JsonPrimitive.str k)) own.named,
        e ∙ ap (λ n. some (JsonPrimitive.int (pos n))) own.expires,
      )

  -- With Redis there, and a second or more to go, the token is on the list until its last second.
  revoke_access-own :
      (w : World)
      → env.now w.readings < exp * 1000000
      → identity.answer w.commands ≡ answered
      → ((exp * 1000000 - env.now (suc w.readings)) / 1000000 == 0) ≡ false
      → ((revoke_access env identity (some token) w).0 ≡ ok tt)
        × ((revoke_access env identity (some token) w).1.redis
            ≡ put
                (env.now (suc (suc w.readings)))
                (revoked_key jti)
                ((exp * 1000000 - env.now (suc w.readings)) / 1000000)
                "1"
                w.redis)
  unfolding revoke_access revoke_decoded read_clock setex command
  revoke_access-own w early works left =
      let (payload, decoded, s, j, e) = payload-own (env.now w.readings) early in
      rw (decoded, j, e) (ground arith)

  -- If Redis refuses the dependency's question, `logout` with a token of the program that has not
  -- expired is a 503, and the store is as it was: nothing is revoked.
  pub logout_without_redis :
      (authorization refresh_token : Option String) (w : World)
      → env.now w.readings < exp * 1000000
      → identity.answer w.commands ≡ refused
      → ((logout env identity (some token) authorization refresh_token w).0
          ≡ raise (http_exception 503))
        × ((logout env identity (some token) authorization refresh_token w).1.redis ≡ w.redis)
  unfolding logout get_optional_user get_token_from_request
  logout_without_redis authorization refresh_token w early down =
      rw (decode-own w early, down) (refl, decode_token_subject-redis env identity token w)

  drop_refresh-find :
      (now : ℕ) (refresh_token : Option String) (w : World)
      → ((drop_refresh env identity refresh_token w).0 ≡ ok tt)
        × (find now (revoked_key jti) (drop_refresh env identity refresh_token w).1.redis
            ≡ find now (revoked_key jti) w.redis)
  unfolding drop_refresh delete command
  drop_refresh-find now none w = (refl, refl)
  drop_refresh-find now (some t) w =
      ground (arith, find-remove now (refresh_key t) (revoked_key jti) w.redis)

  decode-own_world :
      (w : World)
      → env.now w.readings < exp * 1000000
      → (decode_token_subject env identity token w).1
        ≡ record w { readings = suc (suc w.readings); commands = suc w.commands }
  decode-own_world w early =
      let (payload, decoded, s, j, e) = payload-own (env.now w.readings) early in
      decode_token_subject-world env identity token jti subject payload w decoded s j

  -- `logout` with a token of the program that is not revoked, at least a second before the token
  -- expires and with Redis there, returns; the token is then refused until the whole seconds that
  -- it had left are over: 401, or 503 if Redis does not answer.
  pub logout-revokes :
      (authorization refresh_token : Option String) (w v : World)
      → str_eq token "" ≡ false
      → env.now w.readings < exp * 1000000
      → env.now (suc (suc w.readings)) < exp * 1000000
      → ((exp * 1000000 - env.now (suc (suc (suc w.readings)))) / 1000000 == 0) ≡ false
      → identity.answer w.commands ≡ answered
      → identity.answer (suc w.commands) ≡ answered
      → find (env.now (suc w.readings)) (revoked_key jti) w.redis ≡ none
      → v.redis ≡ (logout env identity (some token) authorization refresh_token w).1.redis
      → env.now v.readings < exp * 1000000
      → env.now (suc v.readings)
        < env.now (suc (suc (suc (suc w.readings))))
          + (exp * 1000000 - env.now (suc (suc (suc w.readings)))) / 1000000 * 1000000
      → ((logout env identity (some token) authorization refresh_token w).0 ≡ ok tt)
        × ((decode_token_subject env identity token v).0
            ≡ verdict (identity.answer v.commands) true subject)
  unfolding logout get_optional_user get_token_from_request
  logout-revokes authorization refresh_token w v text early early₂ left works works₂ unrevoked after
        early₃ soon =
      let w₁ : World = record w { readings = suc (suc w.readings); commands = suc w.commands } in
      let decoded : (decode_token_subject env identity token w).0 ≡ ok subject =
        decode-own w early ∙ rw (works, unrevoked) refl in
      let (returned, stored) = revoke_access-own w₁ early₂ works₂ left in
      let w₂ = (revoke_access env identity (some token) w₁).1 in
      let now = env.now (suc v.readings) in
      let (dropped, kept) = drop_refresh-find now (given refresh_token) w₂ in
      let whole : logout env identity (some token) authorization refresh_token w
          ≡ drop_refresh env identity (given refresh_token) w₂ =
        rw (decoded, decode-own_world w early, text, returned) refl in
      let found : find now (revoked_key jti) v.redis ≡ some "1" =
        ap (find now (revoked_key jti)) (after ∙ ap (λ out. out.1.redis) whole)
        ∙ kept
        ∙ ap (find now (revoked_key jti)) stored
        ∙ find-put now _ _ (revoked_key jti) (revoked_key jti) "1" w.redis
        ∙ ground (arith, eq_key_refl (revoked_key jti)) in
      (
        ap (λ out. out.0) whole ∙ dropped,
        decode-own v early₃
            ∙ ap (λ o. verdict (identity.answer v.commands) (is_some o) subject) found,
      )

-- ===== src/UserRoutes/Renewal.antt =====
-- A refresh token that is good.
use python_fastapi_poc.Prelude.{
  suc, ◌+◌, ◌*◌, ◌<◌, ◌≡◌, refl, ap, ◌∙◌, String, false, some, [], ◌∷◌, ◌==◌, arith,
}
use python_fastapi_poc.Models.{User}
use python_fastapi_poc.Env.{Env}
use python_fastapi_poc.Identity.{Identity, answered}
use python_fastapi_poc.Session.{
  ok, World, refresh_key, with_session, select, statement, one_or_none, read_clock,
}
use python_fastapi_poc.Redis.{find, put, remove, getdel, setex, command, unavailable}
use python_fastapi_poc.Redis.Laws.{find-put, eq_key_refl}
use python_fastapi_poc.Security.{access_claims, create_access_token, draw_token}
use python_fastapi_poc.UserRoutes.{
  Cookies, refresh_token, rotate, renew, find_user, renewed_claims, profile_claims, issue_cookies,
  starts_with, with_email, refresh_ttl,
}

-- The cookies of a renewal, by the draws and the time of the request.
abbrev pub renewed : Env → Identity → String → User → World → Cookies
renewed env identity email user w = record {
  access_token = identity.jwt_encode (
      access_claims env identity email (identity.draw w.draws) (env.now (suc w.readings))
        (profile_claims user.name user.picture));
  refresh_token = identity.draw (w.draws + 1);
  secure = starts_with "https://" identity.settings.frontend_url;
  max_age = identity.settings.access_token_expire_minutes * 60;
  refresh_max_age = refresh_ttl env identity;
}

module _ (env : Env) (identity : Identity) where
  refreshed :
      (token email : String) (user : User) (w : World)
      → find (env.now w.readings) (refresh_key token) w.redis ≡ some email
      → with_email email w.committed.users ≡ user ∷ []
      → env.fails w.statements ≡ false
      → identity.answer w.commands ≡ answered
      → identity.answer (suc w.commands) ≡ answered
      → (refresh_ttl env identity == 0) ≡ false
      → ((refresh_token env identity (some token) w).0 ≡ ok (renewed env identity email user w))
        × ((refresh_token env identity (some token) w).1.redis
            ≡ put
                (env.now (suc (suc w.readings)))
                (refresh_key (identity.draw (w.draws + 1)))
                (refresh_ttl env identity)
                email
                (remove (refresh_key token) w.redis))
  unfolding refresh_token rotate renew find_user issue_cookies create_access_token draw_token
      read_clock getdel setex command unavailable select statement one_or_none with_session
      renewed_claims
  refreshed token email user w stored known works there there₂ lasting =
      rw (there, stored, works, known, setex, lasting, there₂) (refl, refl)

  -- A refresh token that is stored for the email of one user is exchanged, if Redis and the database
  -- answer, for tokens in the user's name; the new refresh token, for as long as it lives, is
  -- exchanged in its turn.
  pub refresh_token_renews :
      (token email : String) (user : User) (w v : World)
      → find (env.now w.readings) (refresh_key token) w.redis ≡ some email
      → with_email email w.committed.users ≡ user ∷ []
      → env.fails w.statements ≡ false
      → identity.answer w.commands ≡ answered
      → identity.answer (suc w.commands) ≡ answered
      → (refresh_ttl env identity == 0) ≡ false
      → v.redis ≡ (refresh_token env identity (some token) w).1.redis
      → env.now v.readings < env.now (suc (suc w.readings)) + refresh_ttl env identity * 1000000
      → with_email email v.committed.users ≡ user ∷ []
      → env.fails v.statements ≡ false
      → identity.answer v.commands ≡ answered
      → identity.answer (suc v.commands) ≡ answered
      → ((refresh_token env identity (some token) w).0 ≡ ok (renewed env identity email user w))
        × ((refresh_token env identity (some (identity.draw (w.draws + 1))) v).0
            ≡ ok (renewed env identity email user v))
  refresh_token_renews token email user w v stored known works there there₂ lasting after early
        known' works' there' there₂' =
      let key = refresh_key (identity.draw (w.draws + 1)) in
      let now = env.now (suc (suc w.readings)) in
      let (done, left) = refreshed token email user w stored known works there there₂ lasting in
      let found : find (env.now v.readings) key v.redis ≡ some email =
        ap (find (env.now v.readings) key) (after ∙ left)
        ∙ find-put (env.now v.readings) now (refresh_ttl env identity) key key email
            (remove (refresh_key token) w.redis)
        ∙ ground (arith, eq_key_refl key) in
      (
        done,
        (refreshed (identity.draw (w.draws + 1)) email user v found known' works' there' there₂'
            lasting).0,
      )

-- ===== src/Security/Passwords.antt =====
-- The password login of the administrator.
use python_fastapi_poc.Prelude.{
  suc, ◌*◌, ◌<◌, ◌≡◌, refl, ap, ◌∙◌, String, Bool, true, false, Option, none, some, [], arith,
  eq_iff,
}
use python_fastapi_poc.Env.{Env}
use python_fastapi_poc.Identity.{Identity}
use python_fastapi_poc.Session.{ok, World, revoked_key}
use python_fastapi_poc.Redis.{find, is_some}
use python_fastapi_poc.Security.{
  login_for_access_token, create_access_token, verify_password, decode_token_subject,
}
use python_fastapi_poc.Security.Tokens.{verdict, expiry, decode-create_access_token}

module _ (env : Env) (identity : Identity) where
  -- What the two tests let through.
  abbrev Passed : String → Option Bool → World → String → Type 0
  Passed username matches w token =
      (username ≡ identity.settings.admin_username)
      × (matches ≡ some true)
      × ((create_access_token env identity username [] w).0 ≡ ok token)

  login-Passed :
      (username password token : String) (matches : Option Bool) (w : World)
      → identity.checkpw password identity.settings.admin_password_hash ≡ matches
      → (login_for_access_token env identity username password w).0 ≡ ok token
      → Passed username matches w token
  unfolding login_for_access_token verify_password
  login-Passed username password token none w checked returned = absurd (ground arith)
  login-Passed username password token (some false) w checked returned = absurd (ground arith)
  login-Passed username password token (some true) w checked returned =
      (ground (arith, eq_iff username identity.settings.admin_username), refl, ground arith)

  -- A password login that returns a token was made with the administrator's name and a password that
  -- matches the stored hash; until it expires, the token is accepted as the administrator's, unless
  -- it is revoked (401) or Redis does not answer (503).
  pub login_for_access_token_lem :
      (username password token : String) (w v : World)
      → (login_for_access_token env identity username password w).0 ≡ ok token
      → env.now v.readings < expiry identity (env.now w.readings) * 1000000
      → (username ≡ identity.settings.admin_username)
        × (identity.checkpw password identity.settings.admin_password_hash ≡ some true)
        × ((decode_token_subject env identity token v).0
            ≡ verdict
                (identity.answer v.commands)
                (is_some
                  (find (env.now (suc v.readings)) (revoked_key (identity.draw w.draws)) v.redis))
                identity.settings.admin_username)
  login_for_access_token_lem username password token w v returned early =
      let (named, matches, created) = login-Passed username password token _ w refl returned in
      (
        named,
        matches,
        decode-create_access_token env identity username [] w v token created early
            ∙ ap
                (verdict (identity.answer v.commands) (
                  is_some (
                    find (env.now (suc v.readings)) (revoked_key (identity.draw w.draws)) v.redis)))
                named,
      )

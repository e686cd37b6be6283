-- ===== src/UserRoutes/Profiles.antt =====
-- What the profile of the signed-in email shows after a sign-in.
use python_fastapi_poc.Prelude.{
  ◌≡◌, refl, ap, ◌∙◌, String, false, List, [], ◌∷◌, ◌&&◌, rows_where, str_eq, rows_where-append,
  eq_refl,
}
use python_fastapi_poc.Models.{User, Db}
use python_fastapi_poc.Env.{Env}
use python_fastapi_poc.Identity.{Identity}
use python_fastapi_poc.Session.{ok, raise, World, http_exception, select, statement, one_or_none}
use python_fastapi_poc.GoogleOauth.{GoogleUserInfo}
use python_fastapi_poc.UserRoutes.{
  with_email, with_google_id, set_profile, store_user, get_current_user, find_user, user_or_admin,
}
use python_fastapi_poc.UserRoutes.Unique.{with_email-set_profile}
use python_fastapi_poc.UserRoutes.Accounts.{IsSound, new_user, store_user_known, store_user_new}

module _ (env : Env) (identity : Identity) where
  profile_found :
      (email : String) (u : User) (v : World)
      → env.fails v.statements ≡ false
      → with_email email v.working.users ≡ u ∷ []
      → (get_current_user env identity email v).0 ≡ ok u
  unfolding get_current_user find_user user_or_admin select statement one_or_none
  profile_found email u v works found = rw (works, found) refl

  profile_missing :
      (email : String) (v : World)
      → env.fails v.statements ≡ false
      → with_email email v.working.users ≡ []
      → (identity.settings.enable_password_auth && str_eq email identity.settings.admin_username)
        ≡ false
      → (get_current_user env identity email v).0 ≡ raise (http_exception 404)
  unfolding get_current_user find_user user_or_admin select statement one_or_none
  profile_missing email v works missing other = rw (works, missing, other) refl

  -- The first sign-in of an account, with an email that nobody has, succeeds on a sound database;
  -- the profile of the email is then the account's new row.
  pub profile_after_sign_in :
      (info : GoogleUserInfo) (w v : World)
      → IsSound env w
      → with_google_id info.google_id w.working.users ≡ []
      → with_email info.email w.working.users ≡ []
      → v.working ≡ (store_user env identity info w).1.committed
      → ((store_user env identity info w).0 ≡ ok tt)
        × ((get_current_user env identity info.email v).0 ≡ ok (new_user env info w))
  unfolding with_email rows_where
  profile_after_sign_in info w v sound unknown free after =
      let (done, kept) = store_user_new env identity info w sound unknown free in
      let row = new_user env info w in
      let found : with_email info.email v.working.users ≡ row ∷ [] =
        ap (λ (db : Db). with_email info.email db.users) (after ∙ kept)
        ∙ rows_where-append (λ u. str_eq u.email info.email) w.working.users (row ∷ [])
        ∙ rw (free, eq_refl info.email) refl in
      (done, profile_found info.email row v (sound.answers v.statements) found)

  -- A sign-in of a known account that reports an email that no row has, and that is not the local
  -- administrator's name, succeeds on a sound database; the profile of that email, which is the
  -- subject of the token that is issued, is then a 404.
  pub profile_after_new_email :
      (info : GoogleUserInfo) (u : User) (rest : List User) (w v : World)
      → IsSound env w
      → with_google_id info.google_id w.working.users ≡ u ∷ rest
      → with_email info.email w.working.users ≡ []
      → (identity.settings.enable_password_auth
          && str_eq info.email identity.settings.admin_username)
        ≡ false
      → v.working ≡ (store_user env identity info w).1.committed
      → ((store_user env identity info w).0 ≡ ok tt)
        × ((get_current_user env identity info.email v).0 ≡ raise (http_exception 404))
  unfolding set_profile
  profile_after_new_email info u rest w v sound known free other after =
      let (done, kept) = store_user_known env identity info u rest w sound known in
      let missing : with_email info.email v.working.users ≡ [] =
        ap (λ (db : Db). with_email info.email db.users) (after ∙ kept)
        ∙ with_email-set_profile info.email u.id info w.working.users
        ∙ ap (set_profile u.id info) free in
      (done, profile_missing info.email v (sound.answers v.statements) missing other)

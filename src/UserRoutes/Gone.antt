-- ===== src/UserRoutes/Gone.antt =====
-- The sign-in and the refresh, and a key that is gone.
pub mod Uses
use python_fastapi_poc.Prelude.{
  refl, ◌≢◌, ◌⊎◌, inl, inr, ℕ, ◌≡◌, false, String, Option, none, some, sym, subst,
}
use python_fastapi_poc.Domain.{JsonPrimitive, get}
use python_fastapi_poc.Models.{User}
use python_fastapi_poc.Env.{Env}
use python_fastapi_poc.Identity.{Identity, Answer, answered, refused, lost}
use python_fastapi_poc.Session.{
  World, Result, raise, http_exception, and_then, state_key, Exception, Key, refresh_key, catch,
  with_session, integrity_error, rollback,
}
use python_fastapi_poc.Redis.{eq_key, getdel, unavailable}
use python_fastapi_poc.Redis.Gone.{
  Keeps, apart, bind-Keeps, bind-Keeps_of, catch-Keeps, setex-Keeps, getdel-Keeps,
  unavailable-Keeps, select-Keeps, commit-Keeps, one_or_none-Keeps, with_session-Keeps, IsGone,
  bind-IsGone, getdel-IsGone, getdel-absent, refusal, reply,
}
use python_fastapi_poc.Security.{draw_token, create_access_token}
use python_fastapi_poc.Security.Gone.{
  IsSecret, IsDraw, draw_token-Keeps, draw_token-IsDraw, create_access_token-Keeps, choice-Keeps,
  read_clock-Keeps,
}
use python_fastapi_poc.GoogleOauth.{
  GoogleUserInfo, validate_and_consume_state, exchange_code_for_tokens,
}
use python_fastapi_poc.GoogleOauth.Gone.{
  validate_and_consume_state-IsGone, validate_and_consume_state_refuses,
  validate_and_consume_state-Keeps, consume_pkce_verifier-Keeps, exchange_code_for_tokens-Keeps,
  fetch_google_user_info-Keeps,
}
use python_fastapi_poc.UserRoutes.{
  Cookies, find_user, user_or_admin, get_current_user, add_user, upsert, conflict, store_user,
  issue_cookies, sign_in, exchanged, verified, authorized, answered_by_google, google_callback,
  renew, rotate, refresh_token, profile_claims, renewed_claims, given,
}

module _ (key : Key) (first : ℕ) (env : Env) (identity : Identity) where
  find_user-Keeps : (email : String) → Keeps key first (find_user env identity email)
  unfolding find_user
  find_user-Keeps email =
      bind-Keeps key first _ _ (select-Keeps key first env identity _)
        λ rows. one_or_none-Keeps key first rows

  user_or_admin-Keeps :
      (email : String) (user : Option User)
      → Keeps key first (user_or_admin env identity email user)
  unfolding user_or_admin
  user_or_admin-Keeps email (some user) w g = g
  user_or_admin-Keeps email none w g =
      choice-Keeps key first env identity _ _ _
        (bind-Keeps key first _ _ (read_clock-Keeps key first env identity) (λ now w g. g))
        (λ w g. g) w g

  pub get_current_user-Keeps :
      (email : String) → Keeps key first (get_current_user env identity email)
  unfolding get_current_user
  get_current_user-Keeps email =
      bind-Keeps key first (find_user env identity email) _ (find_user-Keeps email)
        (user_or_admin-Keeps email)

  upsert-Keeps :
      (info : GoogleUserInfo) (existing : Option User)
      → Keeps key first (upsert env identity info existing)
  unfolding upsert add_user
  upsert-Keeps info none w g = apart key first refl refl g
  upsert-Keeps info (some existing) w g = apart key first refl refl g

  conflict-Keeps : (e : Exception) → Keeps key first (conflict e)
  unfolding conflict rollback
  conflict-Keeps integrity_error w g = apart key first refl refl g
  conflict-Keeps _ w g = g

  store_user-Keeps : (info : GoogleUserInfo) → Keeps key first (store_user env identity info)
  unfolding store_user
  store_user-Keeps info = search (
    bind-Keeps key first,
    select-Keeps key first env identity,
    one_or_none-Keeps key first,
    upsert-Keeps info,
    catch-Keeps key first,
    commit-Keeps key first env identity,
    conflict-Keeps,
  )

  module _ (secret : IsSecret identity key first) where
    issue_cookies-Keeps :
        (email access_token : String)
        → Keeps key first (issue_cookies env identity email access_token)
    unfolding issue_cookies
    issue_cookies-Keeps email access_token =
        bind-Keeps_of key first (IsDraw identity first) (draw_token env identity) _
          (draw_token-Keeps key first env identity) (draw_token-IsDraw key first env identity)
          λ token h.
            bind-Keeps key first _ _
              (catch-Keeps key first _ unavailable
                (setex-Keeps key first env identity (refresh_key token) _ email (
                  let (n, later, e) = h in
                  subst (λ t. eq_key (refresh_key t) key ≡ false) (sym e)
                    (secret.no_refresh n later)))
                (unavailable-Keeps key first (Unit {0})))
              λ _ w g. g

    sign_in-Keeps : (info : GoogleUserInfo) → Keeps key first (sign_in env identity info)
    unfolding sign_in
    sign_in-Keeps info =
        bind-Keeps key first (store_user env identity info) _ (store_user-Keeps info) λ _.
          bind-Keeps key first
            (create_access_token env identity info.email (profile_claims info.name info.picture)) _
            (create_access_token-Keeps key first env identity info.email
              (profile_claims info.name info.picture))
            (issue_cookies-Keeps info.email)

    exchanged-Keeps :
        (access_token : Option JsonPrimitive)
        → Keeps key first (exchanged env identity access_token)
    unfolding exchanged
    exchanged-Keeps none = choice-Keeps key first env identity _ _ _ (λ w g. g) (λ w g. g)
    exchanged-Keeps (some v) =
        choice-Keeps key first env identity _ _ _
          (fetch_google_user_info-Keeps key first env identity _) (λ w g. g)

    verified-Keeps :
        (code : String) (code_verifier : Option String)
        → Keeps key first (verified env identity code code_verifier)
    unfolding verified
    verified-Keeps code none w g = g
    verified-Keeps code (some code_verifier) w g =
        bind-Keeps key first (exchange_code_for_tokens env identity code code_verifier) _
          (exchange_code_for_tokens-Keeps key first env identity code code_verifier)
          (λ tokens. exchanged-Keeps (get tokens "access_token")) w g

    authorized-Keeps : (state code : String) → Keeps key first (authorized env identity state code)
    unfolding authorized
    authorized-Keeps state code = search (
      bind-Keeps key first,
      validate_and_consume_state-Keeps key first env identity state,
      consume_pkce_verifier-Keeps key first env identity state,
      verified-Keeps code,
      sign_in-Keeps,
    )

    answered-Keeps :
        (state : String) (code error : Option String)
        → Keeps key first (answered_by_google env identity state code error)
    unfolding answered_by_google
    answered-Keeps state (some code) none w g = authorized-Keeps state code w g
    answered-Keeps state (some code) (some error) w g = g
    answered-Keeps state none error w g = g

    pub google_callback-Keeps :
        (state : String) (code error : Option String)
        → Keeps key first (google_callback env identity state code error)
    unfolding google_callback
    google_callback-Keeps state code error =
        with_session-Keeps key first _ (answered-Keeps state (given code) (given error))

    renew-Keeps : (email : Option String) → Keeps key first (renew env identity email)
    unfolding renew
    renew-Keeps none w g = g
    renew-Keeps (some email) w g =
        bind-Keeps key first (find_user env identity email) _ (find_user-Keeps email)
          (λ user.
            bind-Keeps key first
              (create_access_token env identity email (renewed_claims env identity user)) _
              (create_access_token-Keeps key first env identity email
                (renewed_claims env identity user))
              (issue_cookies-Keeps email))
          w g

    rotate-Keeps : (cookie : Option String) → Keeps key first (rotate env identity cookie)
    unfolding rotate
    rotate-Keeps none w g = g
    rotate-Keeps (some token) w g =
        bind-Keeps key first (catch (getdel env identity (refresh_key token)) unavailable) _
          (catch-Keeps key first (getdel env identity (refresh_key token)) unavailable
            (getdel-Keeps key first env identity (refresh_key token))
            (unavailable-Keeps key first (Option String)))
          renew-Keeps w g

    pub refresh_token-Keeps :
        (cookie : Option String) → Keeps key first (refresh_token env identity cookie)
    unfolding refresh_token
    refresh_token-Keeps cookie = with_session-Keeps key first _ (rotate-Keeps cookie)

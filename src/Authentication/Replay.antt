-- ===== src/Authentication/Replay.antt =====
-- A refresh token and a state token are good for one use.
use python_fastapi_poc.Prelude.{
  ℕ, ◌≤◌, ◌≡◌, ◌≢◌, ◌⊎◌, refl, String, false, Option, none, some, str_eq,
}
use python_fastapi_poc.Env.{Env}
use python_fastapi_poc.Identity.{Identity, refused}
use python_fastapi_poc.Session.{raise, World, Key, state_key, refresh_key, http_exception}
use python_fastapi_poc.Redis.Gone.{IsGone, apart, refusal}
use python_fastapi_poc.Security.Gone.{IsSecret, login_for_access_token-Keeps}
use python_fastapi_poc.GoogleOauth.Gone.{generate_state-Keeps}
use python_fastapi_poc.UserRoutes.{google_login, google_callback, refresh_token, given}
use python_fastapi_poc.UserRoutes.Gone.{google_callback-Keeps, refresh_token-Keeps}
use python_fastapi_poc.UserRoutes.Gone.Uses.{
  refresh_token-IsGone, refresh_token_refuses, google_callback-IsGone, google_callback_refuses,
}
use python_fastapi_poc.Logout.Gone.{logout-Keeps, list_users-Keeps, get_current_user_profile-Keeps}
use python_fastapi_poc.Authentication.{
  Request, password_login, login, callback, refresh, sign_out, users, profile, serve, Step, served,
  elsewhere, Reach, here, next,
}

module _ (env : Env) (identity : Identity) (key : Key) (first : ℕ)
    (secret : IsSecret identity key first) where
  -- No request brings a key back.
  serve-IsGone :
      (request : Request) (w : World)
      → IsGone key first w
      → IsGone key first (serve env identity request w)
  unfolding serve google_login
  serve-IsGone (password_login username password) =
      login_for_access_token-Keeps key first env identity username password
  serve-IsGone login = generate_state-Keeps key first env identity secret
  serve-IsGone (callback state code error) =
      google_callback-Keeps key first env identity secret state code error
  serve-IsGone (refresh cookie) = refresh_token-Keeps key first env identity secret cookie
  serve-IsGone (sign_out access_token authorization cookie) =
      logout-Keeps key first env identity secret access_token authorization cookie
  serve-IsGone (users access_token authorization) =
      list_users-Keeps key first env identity access_token authorization
  serve-IsGone (profile access_token authorization) =
      get_current_user_profile-Keeps key first env identity access_token authorization

  Step-IsGone : {w v : World} → Step env identity w v → IsGone key first w → IsGone key first v
  Step-IsGone {w} (served request) g = serve-IsGone request w g
  Step-IsGone (elsewhere store draws) g = apart key first store draws g

  pub Reach-IsGone :
      {w v : World} → Reach env identity w v → IsGone key first w → IsGone key first v
  Reach-IsGone here g = g
  Reach-IsGone (next before step) g = Step-IsGone step (Reach-IsGone before g)

module _ (env : Env) (identity : Identity) (token : String) where
  refresh-IsSecret :
      (first : ℕ)
      → ((n : ℕ) → first ≤ n → str_eq (identity.draw n) token ≡ false)
      → IsSecret identity (refresh_key token) first
  refresh-IsSecret first new = record {
    is_unrevoked = λ jti. refl;
    no_state = λ n later. refl;
    no_pkce = λ n later. refl;
    no_refresh = new;
  }

  -- A refresh token that a request uses, and that no later draw gives again, is refused ever after,
  -- whatever requests are served in between: with 401, or with 503 if Redis does not answer. The
  -- use counts unless Redis did not execute its command, even if the request fails.
  pub refresh_once :
      {v : World} (w : World)
      → ((n : ℕ) → w.draws ≤ n → str_eq (identity.draw n) token ≡ false)
      → identity.answer w.commands ≢ refused
      → Reach env identity (refresh_token env identity (some token) w).1 v
      → (refresh_token env identity (some token) v).0
        ≡ raise (http_exception (refusal (identity.answer v.commands) 401))
  refresh_once {v} w new works reach =
      let secret = refresh-IsSecret w.draws new in
      refresh_token_refuses env identity token w.draws v (
        Reach-IsGone env identity (refresh_key token) w.draws secret reach
          (refresh_token-IsGone env identity token w works secret))

module _ (env : Env) (identity : Identity) (state : String) where
  state-IsSecret :
      (first : ℕ)
      → ((n : ℕ) → first ≤ n → str_eq (identity.draw n) state ≡ false)
      → IsSecret identity (state_key state) first
  state-IsSecret first new = record {
    is_unrevoked = λ jti. refl;
    no_state = new;
    no_pkce = λ n later. refl;
    no_refresh = λ n later. refl;
  }

  -- A state token that a callback with a code uses, and that no later draw gives again, is good for
  -- no other callback, whatever requests are served in between: 400, or 503 if Redis does not
  -- answer.
  pub callback_once :
      {v : World} (w : World) (code error code' error' : Option String) (c : String)
      → given code ≡ some c
      → given error ≡ none
      → ((n : ℕ) → w.draws ≤ n → str_eq (identity.draw n) state ≡ false)
      → identity.answer w.commands ≢ refused
      → Reach env identity (google_callback env identity state code error w).1 v
      → ((google_callback env identity state code' error' v).0 ≡ raise (http_exception 400))
        ⊎ ((google_callback env identity state code' error' v).0 ≡ raise (http_exception 503))
  callback_once {v} w code error code' error' c coded clean new works reach =
      let secret = state-IsSecret w.draws new in
      google_callback_refuses env identity state code' error' w.draws v (
        Reach-IsGone env identity (state_key state) w.draws secret reach
          (google_callback-IsGone env identity state code error c w coded clean works secret))

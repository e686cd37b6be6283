-- ===== src/UserRoutes/Gone/Uses.antt =====
-- A use of a refresh token, and of a state token: it is gone afterwards, and refused when it is gone.
use python_fastapi_poc.Prelude.{refl, ◌≢◌, ◌⊎◌, inl, inr, ℕ, ◌≡◌, String, Option, none, some}
use python_fastapi_poc.Env.{Env}
use python_fastapi_poc.Identity.{Identity, Answer, answered, refused, lost}
use python_fastapi_poc.Session.{
  World, Result, raise, http_exception, and_then, state_key, refresh_key, catch, with_session,
}
use python_fastapi_poc.Redis.{getdel, unavailable}
use python_fastapi_poc.Redis.Gone.{
  apart, bind-Keeps, IsGone, bind-IsGone, getdel-IsGone, getdel-absent, refusal, reply,
}
use python_fastapi_poc.Security.Gone.{IsSecret}
use python_fastapi_poc.GoogleOauth.{validate_and_consume_state}
use python_fastapi_poc.GoogleOauth.Gone.{
  validate_and_consume_state-IsGone, validate_and_consume_state_refuses,
  consume_pkce_verifier-Keeps,
}
use python_fastapi_poc.UserRoutes.{
  Cookies, authorized, answered_by_google, google_callback, renew, rotate, refresh_token, given,
}
use python_fastapi_poc.UserRoutes.Gone.{renew-Keeps, verified-Keeps, sign_in-Keeps}

module _ (env : Env) (identity : Identity) (token : String) where
  -- A use of a refresh token consumes it.
  rotate-IsGone :
      (w : World)
      → identity.answer w.commands ≢ refused
      → IsSecret identity (refresh_key token) w.draws
      → IsGone (refresh_key token) w.draws (rotate env identity (some token) w).1
  unfolding rotate
  rotate-IsGone w works secret =
      bind-IsGone (refresh_key token) w.draws
        (catch (getdel env identity (refresh_key token)) unavailable) _ w
        (getdel-IsGone env identity (refresh_key token) w works)
        (renew-Keeps (refresh_key token) w.draws env identity secret)

  pub refresh_token-IsGone :
      (w : World)
      → identity.answer w.commands ≢ refused
      → IsSecret identity (refresh_key token) w.draws
      → IsGone (refresh_key token) w.draws (refresh_token env identity (some token) w).1
  unfolding refresh_token with_session
  refresh_token-IsGone w works secret =
      apart (refresh_key token) w.draws refl refl
        (rotate-IsGone (record w { working = w.committed }) works secret)

  status :
      (answer : Answer) (w : World)
      → (and_then (reply {A = Option String} answer none) (renew env identity) w).0
        ≡ raise (http_exception (refusal answer 401))
  unfolding renew
  status answered w = refl
  status refused w = refl
  status lost w = refl

  -- A refresh token that is gone is refused.
  pub refresh_token_refuses :
      (first : ℕ) (w : World)
      → IsGone (refresh_key token) first w
      → (refresh_token env identity (some token) w).0
        ≡ raise (http_exception (refusal (identity.answer w.commands) 401))
  unfolding refresh_token with_session rotate
  refresh_token_refuses first w g =
      let opened : World = record w { working = w.committed } in
      rw
        (getdel-absent env identity (refresh_key token) first opened
          (apart (refresh_key token) first refl refl g))
        (status (identity.answer w.commands) _)

module _ (env : Env) (identity : Identity) (state : String) where
  -- A callback that has a code and no error consumes the state token.
  pub google_callback-IsGone :
      (code error : Option String) (c : String) (w : World)
      → given code ≡ some c
      → given error ≡ none
      → identity.answer w.commands ≢ refused
      → IsSecret identity (state_key state) w.draws
      → IsGone (state_key state) w.draws (google_callback env identity state code error w).1
  unfolding google_callback answered_by_google authorized with_session
  google_callback-IsGone code error c w coded clean works secret =
      let opened : World = record w { working = w.committed } in
      let gone = validate_and_consume_state-IsGone env identity state opened works in
      rw (coded, clean)
        (apart (state_key state) w.draws refl refl (
          bind-IsGone (state_key state) w.draws (validate_and_consume_state env identity state) _
            opened gone
            λ _. search (
              bind-Keeps (state_key state) w.draws,
              consume_pkce_verifier-Keeps (state_key state) w.draws env identity state,
              verified-Keeps (state_key state) w.draws env identity secret c,
              sign_in-Keeps (state_key state) w.draws env identity secret,
            )))

  authorized_refuses :
      (c : String) (first : ℕ) (w : World)
      → IsGone (state_key state) first w
      → (authorized env identity state c w).0
        ≡ raise (http_exception (refusal (identity.answer w.commands) 400))
  unfolding authorized
  authorized_refuses c first w g =
      rw (validate_and_consume_state_refuses env identity state first w g) refl

  refusal-cases :
      (r : Result Cookies) (answer : Answer)
      → r ≡ raise (http_exception (refusal answer 400))
      → (r ≡ raise (http_exception 400)) ⊎ (r ≡ raise (http_exception 503))
  refusal-cases r answered h = inl h
  refusal-cases r refused h = inr h
  refusal-cases r lost h = inr h

  answered_refuses :
      (code error : Option String) (first : ℕ) (w : World)
      → IsGone (state_key state) first w
      → ((answered_by_google env identity state code error w).0 ≡ raise (http_exception 400))
        ⊎ ((answered_by_google env identity state code error w).0 ≡ raise (http_exception 503))
  unfolding answered_by_google
  answered_refuses (some c) none first w g =
      refusal-cases _ (identity.answer w.commands) (authorized_refuses c first w g)
  answered_refuses (some c) (some e) first w g = inl refl
  answered_refuses none error first w g = inl refl

  -- A callback with a state token that is gone is refused.
  pub google_callback_refuses :
      (code error : Option String) (first : ℕ) (w : World)
      → IsGone (state_key state) first w
      → ((google_callback env identity state code error w).0 ≡ raise (http_exception 400))
        ⊎ ((google_callback env identity state code error w).0 ≡ raise (http_exception 503))
  unfolding google_callback with_session
  google_callback_refuses code error first w g =
      answered_refuses (given code) (given error) first (record w { working = w.committed })
        (apart (state_key state) first refl refl g)

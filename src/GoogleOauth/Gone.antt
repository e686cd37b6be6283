-- ===== src/GoogleOauth/Gone.antt =====
-- The state token, the PKCE verifier and Google's endpoints, and a key that is gone.
use python_fastapi_poc.Prelude.{ℕ, ◌≡◌, ◌≢◌, refl, false, String, Option, none, some, sym, subst}
use python_fastapi_poc.Env.{Env}
use python_fastapi_poc.Identity.{Identity, Answer, answered, refused, lost}
use python_fastapi_poc.Session.{
  World, raise, http_exception, and_then, Key, state_key, pkce_key, catch, pure, ◌>>◌,
}
use python_fastapi_poc.Redis.{eq_key, setex_both, getdel, unavailable}
use python_fastapi_poc.Redis.Gone.{
  Keeps, bind-Keeps, bind-Keeps_of, catch-Keeps, setex_both-Keeps, getdel-Keeps, unavailable-Keeps,
  IsGone, bind-IsGone, getdel-IsGone, getdel-absent, refusal, reply,
}
use python_fastapi_poc.Security.{draw_token}
use python_fastapi_poc.Security.Gone.{IsSecret, IsDraw, draw_token-Keeps, draw_token-IsDraw}
use python_fastapi_poc.GoogleOauth.{
  generate_state, validate_and_consume_state, consume_pkce_verifier, exchange_code_for_tokens,
  fetch_google_user_info, consumed, state_ttl_seconds,
}

module _ (key : Key) (first : ℕ) (env : Env) (identity : Identity) where
  generate-Keeps :
      (state code_verifier : String)
      → IsSecret identity key first
      → IsDraw identity first state
      → Keeps key first {A = String × String} (
          catch
            (setex_both env identity
              (state_key state)
              "1"
              (pkce_key state)
              code_verifier
              state_ttl_seconds)
            unavailable
          >> pure (state, code_verifier))
  generate-Keeps state code_verifier secret (n, later, e) w g =
      let no_state =
        subst (λ t. eq_key (state_key t) key ≡ false) (sym e) (secret.no_state n later) in
      let no_pkce = subst (λ t. eq_key (pkce_key t) key ≡ false) (sym e) (secret.no_pkce n later) in
      let stores =
        setex_both-Keeps key first env identity (state_key state) (pkce_key state) "1" code_verifier
          state_ttl_seconds no_state no_pkce in
      bind-Keeps key first {A = Unit {0}} {B = String × String}
        (catch
          (setex_both env identity (state_key state) "1" (pkce_key state) code_verifier
            state_ttl_seconds)
          unavailable)
        (λ _. pure (state, code_verifier))
        (catch-Keeps key first _ unavailable stores (unavailable-Keeps key first (Unit {0})))
        (λ _ w g. g) w g

  pub generate_state-Keeps :
      IsSecret identity key first → Keeps key first (generate_state env identity)
  unfolding generate_state
  generate_state-Keeps secret =
      bind-Keeps_of key first (IsDraw identity first) (draw_token env identity) _
        (draw_token-Keeps key first env identity) (draw_token-IsDraw key first env identity)
        λ state h.
          bind-Keeps key first (draw_token env identity) _ (draw_token-Keeps key first env identity)
            λ code_verifier. generate-Keeps state code_verifier secret h

  consumed-Keeps : (value : Option String) → Keeps key first (consumed env identity value)
  unfolding consumed
  consumed-Keeps none w g = g
  consumed-Keeps (some value) w g = g

  pub validate_and_consume_state-Keeps :
      (state : String) → Keeps key first (validate_and_consume_state env identity state)
  unfolding validate_and_consume_state
  validate_and_consume_state-Keeps state =
      bind-Keeps key first (catch (getdel env identity (state_key state)) unavailable) _
        (catch-Keeps key first (getdel env identity (state_key state)) unavailable
          (getdel-Keeps key first env identity (state_key state))
          (unavailable-Keeps key first (Option String)))
        consumed-Keeps

  pub consume_pkce_verifier-Keeps :
      (state : String) → Keeps key first (consume_pkce_verifier env identity state)
  unfolding consume_pkce_verifier
  consume_pkce_verifier-Keeps state =
      catch-Keeps key first (getdel env identity (pkce_key state)) unavailable
        (getdel-Keeps key first env identity (pkce_key state))
        (unavailable-Keeps key first (Option String))

  pub exchange_code_for_tokens-Keeps :
      (code code_verifier : String)
      → Keeps key first (exchange_code_for_tokens env identity code code_verifier)
  unfolding exchange_code_for_tokens
  exchange_code_for_tokens-Keeps code code_verifier w g = g

  pub fetch_google_user_info-Keeps :
      (access_token : String) → Keeps key first (fetch_google_user_info env identity access_token)
  unfolding fetch_google_user_info
  fetch_google_user_info-Keeps access_token = bind-Keeps key first _ _ (λ w g. g) λ object w g. g

module _ (env : Env) (identity : Identity) (state : String) where
  -- A look at a state token consumes it.
  pub validate_and_consume_state-IsGone :
      (w : World)
      → identity.answer w.commands ≢ refused
      → IsGone (state_key state) w.draws (validate_and_consume_state env identity state w).1
  unfolding validate_and_consume_state
  validate_and_consume_state-IsGone w works =
      bind-IsGone (state_key state) w.draws
        (catch (getdel env identity (state_key state)) unavailable) _ w
        (getdel-IsGone env identity (state_key state) w works)
        (consumed-Keeps (state_key state) w.draws env identity)

  status :
      (answer : Answer) (w : World)
      → (and_then (reply {A = Option String} answer none) (consumed env identity) w).0
        ≡ raise (http_exception (refusal answer 400))
  unfolding consumed
  status answered w = refl
  status refused w = refl
  status lost w = refl

  -- A state token that is gone is refused.
  pub validate_and_consume_state_refuses :
      (first : ℕ) (w : World)
      → IsGone (state_key state) first w
      → (validate_and_consume_state env identity state w).0
        ≡ raise (http_exception (refusal (identity.answer w.commands) 400))
  unfolding validate_and_consume_state consumed
  validate_and_consume_state_refuses first w g =
      rw (getdel-absent env identity (state_key state) first w g)
        (status (identity.answer w.commands) _)

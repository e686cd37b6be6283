-- ===== src/Security/Gone.antt =====
-- Access tokens and a key that is gone.
use python_fastapi_poc.Prelude.{
  ℕ, ◌≤◌, ◌≡◌, refl, String, Bool, true, false, Option, none, some, List, [], if◌then◌else◌, arith,
}
use python_fastapi_poc.Domain.{JsonPrimitive, JsonObject, get}
use python_fastapi_poc.Env.{Env}
use python_fastapi_poc.Identity.{Identity, Decoded, claims, expired_signature, invalid_token}
use python_fastapi_poc.Session.{
  ok, Exec, World, Key, state_key, pkce_key, refresh_key, revoked_key, read_clock, catch, lift,
}
use python_fastapi_poc.Redis.{eq_key, exists, unavailable}
use python_fastapi_poc.Redis.Gone.{
  IsGone, Keeps, apart, bind-Keeps, catch-Keeps, exists-Keeps, unavailable-Keeps,
}
use python_fastapi_poc.Security.{
  draw_token, create_access_token, check_revoked, check_subject, check_decoded,
  decode_token_subject, optional_subject, get_token_from_request, get_optional_user,
  require_authenticated_user, bearer, required, verify_password, login_for_access_token,
}

-- A key that is no key of a revoked token, and that no draw from a number on gives.
pub record IsSecret (identity : Identity) (key : Key) (first : ℕ) : Type 0 where
  pub is_unrevoked : (jti : String) → eq_key (revoked_key jti) key ≡ false
  pub no_state : (n : ℕ) → first ≤ n → eq_key (state_key (identity.draw n)) key ≡ false
  pub no_pkce : (n : ℕ) → first ≤ n → eq_key (pkce_key (identity.draw n)) key ≡ false
  pub no_refresh : (n : ℕ) → first ≤ n → eq_key (refresh_key (identity.draw n)) key ≡ false

-- A draw from a number on.
abbrev pub IsDraw : Identity → ℕ → String → Type 0
IsDraw identity first token = (n : ℕ) × (first ≤ n) × (token ≡ identity.draw n)

module _ (key : Key) (first : ℕ) (env : Env) (identity : Identity) where
  pub draw_token-Keeps : Keeps key first (draw_token env identity)
  unfolding draw_token
  draw_token-Keeps w g = record { absent = g.absent; drawn = let before = g.drawn in ground arith }

  pub draw_token-IsDraw :
      (w : World) (token : String)
      → IsGone key first w
      → (draw_token env identity w).0 ≡ ok token
      → IsDraw identity first token
  unfolding draw_token
  draw_token-IsDraw w token g drawn = (w.draws, g.drawn, ground arith)

  pub read_clock-Keeps : Keeps key first (read_clock env)
  unfolding read_clock
  read_clock-Keeps w g = apart key first refl refl g

  pub create_access_token-Keeps :
      (subject : String) (extra : List (String × String))
      → Keeps key first (create_access_token env identity subject extra)
  unfolding create_access_token
  create_access_token-Keeps subject extra =
      search (bind-Keeps key first, draw_token-Keeps, read_clock-Keeps)

  pub choice-Keeps :
      {A : Type 0} (b : Bool) (m n : Exec A)
      → Keeps key first m
      → Keeps key first n
      → Keeps key first (if b then m else n)
  choice-Keeps true m n hm hn = hm
  choice-Keeps false m n hm hn = hn

  check_revoked-Keeps :
      (jti : Option JsonPrimitive) → Keeps key first (check_revoked env identity jti)
  unfolding check_revoked
  check_revoked-Keeps (some (JsonPrimitive.str jti)) w g =
      (bind-Keeps key first (catch (exists env identity (revoked_key jti)) unavailable) _
          (catch-Keeps key first (exists env identity (revoked_key jti)) unavailable
            (exists-Keeps key first env identity (revoked_key jti))
            (unavailable-Keeps key first Bool))
          λ revoked. choice-Keeps revoked _ _ (λ w g. g) (λ w g. g))
        w g
  check_revoked-Keeps none w g = g
  check_revoked-Keeps (some (JsonPrimitive.int n)) w g = g
  check_revoked-Keeps (some (JsonPrimitive.float f)) w g = g
  check_revoked-Keeps (some (JsonPrimitive.bool b)) w g = g
  check_revoked-Keeps (some JsonPrimitive.null) w g = g

  check_subject-Keeps :
      (payload : JsonObject) (sub : Option JsonPrimitive)
      → Keeps key first (check_subject env identity payload sub)
  unfolding check_subject
  check_subject-Keeps payload (some (JsonPrimitive.str subject)) w g =
      bind-Keeps key first (check_revoked env identity (get payload "jti")) _
        (check_revoked-Keeps (get payload "jti")) (λ _ w g. g) w g
  check_subject-Keeps payload none w g = g
  check_subject-Keeps payload (some (JsonPrimitive.int n)) w g = g
  check_subject-Keeps payload (some (JsonPrimitive.float f)) w g = g
  check_subject-Keeps payload (some (JsonPrimitive.bool b)) w g = g
  check_subject-Keeps payload (some JsonPrimitive.null) w g = g

  check_decoded-Keeps : (decoded : Decoded) → Keeps key first (check_decoded env identity decoded)
  unfolding check_decoded
  check_decoded-Keeps (claims payload) w g = check_subject-Keeps payload (get payload "sub") w g
  check_decoded-Keeps expired_signature w g = g
  check_decoded-Keeps invalid_token w g = g

  optional_subject-Keeps :
      (token : Option String) → Keeps key first (optional_subject env identity token)
  unfolding optional_subject decode_token_subject
  optional_subject-Keeps none w g = g
  optional_subject-Keeps (some token) w g =
      bind-Keeps key first (decode_token_subject env identity token) _
        (bind-Keeps key first (read_clock env) _ read_clock-Keeps
          λ now. check_decoded-Keeps (identity.jwt_decode now token))
        (λ subject w g. g) w g

  get_token-Keeps :
      (access_token authorization : Option String)
      → Keeps key first (get_token_from_request env identity access_token authorization)
  unfolding get_token_from_request bearer
  get_token-Keeps (some token) authorization w g = g
  get_token-Keeps none none w g = g
  get_token-Keeps none (some authorization) w g = choice-Keeps _ _ _ (λ w g. g) (λ w g. g) w g

  pub get_optional_user-Keeps :
      (access_token authorization : Option String)
      → Keeps key first (get_optional_user env identity access_token authorization)
  unfolding get_optional_user
  get_optional_user-Keeps access_token authorization =
      bind-Keeps key first (get_token_from_request env identity access_token authorization) _
        (get_token-Keeps access_token authorization) optional_subject-Keeps

  required-Keeps : (user : Option String) → Keeps key first (required env identity user)
  unfolding required
  required-Keeps none w g = g
  required-Keeps (some user) w g = g

  pub require_authenticated_user-Keeps :
      (access_token authorization : Option String)
      → Keeps key first (require_authenticated_user env identity access_token authorization)
  unfolding require_authenticated_user
  require_authenticated_user-Keeps access_token authorization =
      bind-Keeps key first (get_optional_user env identity access_token authorization) _
        (get_optional_user-Keeps access_token authorization) required-Keeps

  pub login_for_access_token-Keeps :
      (username password : String)
      → Keeps key first (login_for_access_token env identity username password)
  unfolding login_for_access_token
  login_for_access_token-Keeps username password =
      bind-Keeps key first
        (lift (verify_password env identity password identity.settings.admin_password_hash)) _
        (λ w g. g)
        λ password_ok. choice-Keeps _ _ _ (λ w g. g) (create_access_token-Keeps username [])

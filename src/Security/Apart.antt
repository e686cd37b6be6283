-- ===== src/Security/Apart.antt =====
-- A look at a token leaves the tables and the jobs alone.
use python_fastapi_poc.Prelude.{suc, ◌≡◌, refl, ◌∙◌, String, Option, none, some, arith}
use python_fastapi_poc.Domain.{JsonPrimitive, JsonObject, get}
use python_fastapi_poc.Env.{Env}
use python_fastapi_poc.Identity.{Identity, Decoded, claims, expired_signature, invalid_token}
use python_fastapi_poc.Session.{Result, ok, raise, Exec, World, and_then, ◌>>=◌, read_clock}
use python_fastapi_poc.Redis.{exists, command, unavailable}
use python_fastapi_poc.Security.{
  check_revoked, check_subject, check_decoded, decode_token_subject, optional_subject, bearer,
  get_token_from_request, get_optional_user, required, require_authenticated_user,
}

abbrev pub Leaves : World → World → Type 0
Leaves w v = (v.committed ≡ w.committed) × (v.working ≡ w.working) × (v.jobs ≡ w.jobs)

and_then-Leaves :
    {A B : Type 0} (r : Result A) (f : A → Exec B) (w v : World)
    → Leaves w v
    → ((a : A) (u : World) → Leaves u (f a u).1)
    → Leaves w (and_then r f v).1
and_then-Leaves (raise e) f w v h hf = h
and_then-Leaves (ok a) f w v (c, o, j) hf = let (c', o', j') = hf a v in (c' ∙ c, o' ∙ o, j' ∙ j)

pub bind-Leaves :
    {A B : Type 0} (m : Exec A) (f : A → Exec B)
    → ((u : World) → Leaves u (m u).1)
    → ((a : A) (u : World) → Leaves u (f a u).1)
    → (w : World) → Leaves w ((m >>= f) w).1
bind-Leaves m f hm hf w = and_then-Leaves (m w).0 f w (m w).1 (hm w) hf

module _ (env : Env) (identity : Identity) where
  check_subject-Leaves :
      (payload : JsonObject) (sub : Option JsonPrimitive) (w : World)
      → Leaves w (check_subject env identity payload sub w).1
  unfolding check_subject check_revoked exists command unavailable
  check_subject-Leaves payload (some (JsonPrimitive.str s)) w =
      (ground arith, ground arith, ground arith)
  check_subject-Leaves payload none w = (refl, refl, refl)
  check_subject-Leaves payload (some (JsonPrimitive.int n)) w = (refl, refl, refl)
  check_subject-Leaves payload (some (JsonPrimitive.float f)) w = (refl, refl, refl)
  check_subject-Leaves payload (some (JsonPrimitive.bool b)) w = (refl, refl, refl)
  check_subject-Leaves payload (some JsonPrimitive.null) w = (refl, refl, refl)

  check_decoded-Leaves :
      (decoded : Decoded) (w : World) → Leaves w (check_decoded env identity decoded w).1
  unfolding check_decoded
  check_decoded-Leaves (claims payload) w = check_subject-Leaves payload (get payload "sub") w
  check_decoded-Leaves expired_signature w = (refl, refl, refl)
  check_decoded-Leaves invalid_token w = (refl, refl, refl)

  decode_token_subject-Leaves :
      (token : String) (w : World) → Leaves w (decode_token_subject env identity token w).1
  unfolding decode_token_subject read_clock
  decode_token_subject-Leaves token w =
      check_decoded-Leaves (identity.jwt_decode (env.now w.readings) token)
        (record w { readings = suc w.readings })

  optional_subject-Leaves :
      (token : Option String) (w : World) → Leaves w (optional_subject env identity token w).1
  unfolding optional_subject
  optional_subject-Leaves none w = (refl, refl, refl)
  optional_subject-Leaves (some token) w =
      bind-Leaves (decode_token_subject env identity token) _ (decode_token_subject-Leaves token)
        (λ subject u. (refl, refl, refl)) w

  get_token-Leaves :
      (access_token authorization : Option String) (w : World)
      → Leaves w (get_token_from_request env identity access_token authorization w).1
  unfolding get_token_from_request bearer
  get_token-Leaves (some token) authorization w = (refl, refl, refl)
  get_token-Leaves none none w = (refl, refl, refl)
  get_token-Leaves none (some authorization) w = (ground arith, ground arith, ground arith)

  required-Leaves : (user : Option String) (w : World) → Leaves w (required env identity user w).1
  unfolding required
  required-Leaves none w = (refl, refl, refl)
  required-Leaves (some user) w = (refl, refl, refl)

  get_optional_user-Leaves :
      (access_token authorization : Option String) (w : World)
      → Leaves w (get_optional_user env identity access_token authorization w).1
  unfolding get_optional_user
  get_optional_user-Leaves access_token authorization =
      bind-Leaves (get_token_from_request env identity access_token authorization) _
        (get_token-Leaves access_token authorization) optional_subject-Leaves

  pub require_authenticated_user-Leaves :
      (access_token authorization : Option String) (w : World)
      → Leaves w (require_authenticated_user env identity access_token authorization w).1
  unfolding require_authenticated_user
  require_authenticated_user-Leaves access_token authorization =
      bind-Leaves (get_optional_user env identity access_token authorization) _
        (get_optional_user-Leaves access_token authorization) required-Leaves

-- ===== src/Security/Claims.antt =====
-- What becomes of a token's own claims when the allowlisted ones are added.
use python_fastapi_poc.Prelude.{
  ◌≡◌, refl, ◌∙◌, sym, subst, inl, inr, String, false, List, [], ◌∷◌, str_eq, eq_iff, Bool-cases,
  rows_where, pos, some, ℕ, ◌+◌, ◌*◌, ◌/◌, arith,
}
use python_fastapi_poc.Domain.{JsonPrimitive, JsonObject, get}
use python_fastapi_poc.Env.{Env}
use python_fastapi_poc.Identity.{Identity}
use python_fastapi_poc.Security.{set_key, update, safe_claims, access_claims}

get-set_key :
    (key k : String) (v : JsonPrimitive) (o : JsonObject)
    → str_eq k key ≡ false
    → get (set_key k v o) key ≡ get o key
unfolding set_key get
get-set_key key k v [] other = rw other refl
get-set_key key k v ((j, u) ∷ o) other = elim (Bool-cases (str_eq j k)) [
  | inl same ↦
      let elsewhere : str_eq j key ≡ false =
        subst (λ s. str_eq s key ≡ false) (sym ((eq_iff j k).0 same)) other in
      rw (same, elsewhere) refl
  | inr apart ↦ rw apart (ground (arith, get-set_key key k v o other))
]

-- The allowlist keeps the added claims from those with another name.
get-safe_claims :
    (key : String) (extra : List (String × String)) (o : JsonObject)
    → str_eq "name" key ≡ false
    → str_eq "picture" key ≡ false
    → get (update o (safe_claims extra)) key ≡ get o key
unfolding update safe_claims rows_where
get-safe_claims key [] o name picture = refl
get-safe_claims key ((k, v) ∷ extra) o name picture = elim (Bool-cases (str_eq k "name")) [
  | inl is_name ↦ rw is_name (
      get-safe_claims key extra (set_key k (JsonPrimitive.str v) o) name picture
      ∙ get-set_key key k (JsonPrimitive.str v) o
          (subst (λ s. str_eq s key ≡ false) (sym ((eq_iff k "name").0 is_name)) name))
  | inr no_name ↦ elim (Bool-cases (str_eq k "picture")) [
    | inl is_picture ↦
        rw (no_name, is_picture)
          (get-safe_claims key extra (set_key k (JsonPrimitive.str v) o) name picture
            ∙ get-set_key key k (JsonPrimitive.str v) o (
                subst (λ s. str_eq s key ≡ false) (sym ((eq_iff k "picture").0 is_picture))
                  picture))
    | inr no_picture ↦ rw (no_name, no_picture) (get-safe_claims key extra o name picture)
  ]
]

module _ (env : Env) (identity : Identity) (subject jti : String) (now : ℕ)
    (extra : List (String × String)) where
  pub sub-access_claims :
      get (access_claims env identity subject jti now extra) "sub"
      ≡ some (JsonPrimitive.str subject)
  unfolding access_claims get
  sub-access_claims = get-safe_claims "sub" extra _ refl refl

  pub jti-access_claims :
      get (access_claims env identity subject jti now extra) "jti" ≡ some (JsonPrimitive.str jti)
  unfolding access_claims get
  jti-access_claims = get-safe_claims "jti" extra _ refl refl

  pub exp-access_claims :
      get (access_claims env identity subject jti now extra) "exp"
      ≡ some (
          JsonPrimitive.int
            (pos ((now + identity.settings.access_token_expire_minutes * 60000000) / 1000000)))
  unfolding access_claims get
  exp-access_claims = get-safe_claims "exp" extra _ refl refl

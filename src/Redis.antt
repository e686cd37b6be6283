-- ===== src/Redis.antt =====
-- backend/redis_client.py, as the program uses it: SETEX, GETDEL, EXISTS and DEL on the store in the
-- `World`. A command reads the server's clock once.
pub mod Laws
pub mod Gone
use python_fastapi_poc.Prelude.{
  ℕ, suc, ◌+◌, ◌*◌, String, Bool, true, false, Option, none, some, List, [], ◌∷◌, str_eq, ltb, not,
  ◌==◌, ◌&&◌, first_where, rows_where, if◌then◌else◌,
}
use python_fastapi_poc.Env.{Env}
use python_fastapi_poc.Identity.{Identity, Answer, answered, refused, lost}
use python_fastapi_poc.Session.{
  Result, ok, raise, Exception, throw, http_exception, Exec, World, Key, Entry, state_key, pkce_key,
  refresh_key, revoked_key, redis_error,
}

abbrev pub Store : Type 0
Store = List (Key × Entry)

abbrev pub eq_key : Key → Key → Bool
eq_key (state_key a) (state_key b) = str_eq a b
eq_key (pkce_key a) (pkce_key b) = str_eq a b
eq_key (refresh_key a) (refresh_key b) = str_eq a b
eq_key (revoked_key a) (revoked_key b) = str_eq a b
eq_key _ _ = false

-- An expired entry is not there.
unfoldable pub find : ℕ → Key → Store → Option String
find now key [] = none
find now key ((k, e) ∷ store) =
    if eq_key k key && ltb now e.expires_at then some e.value else find now key store

unfoldable pub remove : Key → Store → Store
remove key store = rows_where (λ p. not (eq_key p.0 key)) store

unfoldable pub put : ℕ → Key → ℕ → String → Store → Store
unfolding remove
put now key ttl value store =
    (key, record { value = value; expires_at = now + ttl * 1000000 }) ∷ remove key store

abbrev pub is_some : {A : Type 0} → Option A → Bool
is_some none = false
is_some (some a) = true

-- What is left of a command, given its fate.
fate : {A : Type 0} → Answer → A → Store → World → Result A × World
fate answered a store w = (ok a, record w { redis = store })
fate refused a store w = (raise redis_error, w)
fate lost a store w = (raise redis_error, record w { redis = store })

-- `except RedisError as err: raise HTTPException(503)`
unfoldable pub unavailable : {A : Type 0} → Exception → Exec A
unavailable redis_error = throw (http_exception 503)
unavailable e = throw e

module _ (env : Env) (identity : Identity) where
  unfoldable pub command : {A : Type 0} → (ℕ → Store → A) → (ℕ → Store → Store) → Exec A
  unfolding fate
  command result change w =
      let now = env.now w.readings in
      let counted : World = record w { readings = suc w.readings; commands = suc w.commands } in
      fate (identity.answer w.commands) (result now w.redis) (change now w.redis) counted

  -- The server refuses an expiry of 0.
  unfoldable pub setex : Key → ℕ → String → Exec (Unit {0})
  unfolding command
  setex key ttl value =
      if ttl == 0
      then throw redis_error
      else command (λ now store. tt) (λ now. put now key ttl value)

  -- Two SETEX in one MULTI/EXEC.
  unfoldable pub setex_both : Key → String → Key → String → ℕ → Exec (Unit {0})
  unfolding command
  setex_both k v l u ttl =
      command (λ now store. tt) (λ now store. put now l ttl u (put now k ttl v store))

  unfoldable pub getdel : Key → Exec (Option String)
  unfolding command
  getdel key = command (λ now. find now key) (λ now. remove key)

  unfoldable pub exists : Key → Exec Bool
  unfolding command
  exists key = command (λ now store. is_some (find now key store)) (λ now store. store)

  unfoldable pub delete : Key → Exec (Unit {0})
  unfolding command
  delete key = command (λ now store. tt) (λ now. remove key)

-- ===== src/Redis/Laws.antt =====
-- The store under the commands.
use python_fastapi_poc.Prelude.{
  ℕ, ◌≡◌, String, true, none, some, [], ◌∷◌, ltb, ◌+◌, ◌*◌, rows_where, if◌then◌else◌, arith,
  eq_iff, eq_refl,
}
use python_fastapi_poc.Session.{Key, state_key, pkce_key, refresh_key, revoked_key}
use python_fastapi_poc.Redis.{Store, eq_key, find, remove, put}

pub eq_key-eq : (a b : Key) → eq_key a b ≡ true → a ≡ b
eq_key-eq (state_key a) (state_key b) h = ground (arith, eq_iff a b)
eq_key-eq (pkce_key a) (pkce_key b) h = ground (arith, eq_iff a b)
eq_key-eq (refresh_key a) (refresh_key b) h = ground (arith, eq_iff a b)
eq_key-eq (revoked_key a) (revoked_key b) h = ground (arith, eq_iff a b)
eq_key-eq _ _ h = ground arith

pub eq_key_refl : (a : Key) → eq_key a a ≡ true
eq_key_refl (state_key a) = eq_refl a
eq_key_refl (pkce_key a) = eq_refl a
eq_key_refl (refresh_key a) = eq_refl a
eq_key_refl (revoked_key a) = eq_refl a

pub find-remove :
    (now : ℕ) (k key : Key) (store : Store)
    → find now key (remove k store) ≡ (if eq_key k key then none else find now key store)
unfolding find remove rows_where
find-remove now k key [] = ground arith
find-remove now k key ((j, e) ∷ store) = ground (
  arith,
  find-remove now k key store,
  eq_key-eq k key,
  eq_key-eq j k,
  eq_key-eq j key,
  eq_key_refl k,
)

pub find-put :
    (now t ttl : ℕ) (k key : Key) (v : String) (store : Store)
    → find now key (put t k ttl v store) ≡ (
        if eq_key k key
        then if ltb now (t + ttl * 1000000) then some v else none
        else find now key store)
unfolding put find
find-put now t ttl k key v store = ground (arith, find-remove now k key store)

-- ===== src/Redis/Gone.antt =====
-- A key that is not in the store, and that no later draw can bring back: what each operation does
-- to it, with a rule for each way to build one.
use python_fastapi_poc.Prelude.{
  ℕ, suc, ◌≤◌, ◌≡◌, ◌≢◌, refl, sym, ap, ◌∙◌, subst, String, Bool-cases, inl, inr, false, Option,
  none, List, [], ◌∷◌, arith, ◌==◌,
}
use python_fastapi_poc.Models.{Db}
use python_fastapi_poc.Env.{Env}
use python_fastapi_poc.Identity.{Identity, Answer, answered, refused, lost}
use python_fastapi_poc.Session.{
  Result, ok, raise, Exception, Exec, World, Key, and_then, handled, catch, ◌>>=◌, with_session,
  select, statement, commit, flush, one_or_none, redis_error, http_exception,
}
use python_fastapi_poc.Redis.{
  Store, eq_key, find, put, remove, fate, command, setex, setex_both, getdel, exists, delete,
  unavailable, is_some,
}
use python_fastapi_poc.Redis.Laws.{find-put, find-remove, eq_key_refl}

-- Keys are absent at every time.
pub record IsGone (key : Key) (first : ℕ) (w : World) : Type 0 where
  pub absent : (now : ℕ) → find now key w.redis ≡ none
  pub drawn : first ≤ w.draws

module _ (key : Key) (first : ℕ) where
  abbrev pub Keeps : {A : Type 0} → Exec A → Type 0
  Keeps m = (w : World) → IsGone key first w → IsGone key first (m w).1

  -- What leaves the store and the draws alone.
  pub apart :
      {w v : World}
      → v.redis ≡ w.redis
      → v.draws ≡ w.draws
      → IsGone key first w
      → IsGone key first v
  apart {w} {v} same draws g = record {
    absent = λ now. ap (find now key) same ∙ g.absent now;
    drawn = subst (λ n. first ≤ n) (sym draws) g.drawn;
  }

  module _ {A B : Type 0} where
    and_then-Keeps :
        (r : Result A) (f : A → Exec B) → ((a : A) → r ≡ ok a → Keeps (f a)) → Keeps (and_then r f)
    and_then-Keeps (ok a) f hf w g = hf a refl w g
    and_then-Keeps (raise e) f hf w g = g

    pub bind-Keeps :
        (m : Exec A) (f : A → Exec B) → Keeps m → ((a : A) → Keeps (f a)) → Keeps (m >>= f)
    bind-Keeps m f hm hf w g = and_then-Keeps (m w).0 f (λ a e. hf a) (m w).1 (hm w g)

    -- Once gone, a key stays so.
    pub bind-IsGone :
        (m : Exec A) (f : A → Exec B) (w : World)
        → IsGone key first (m w).1
        → ((a : A) → Keeps (f a))
        → IsGone key first ((m >>= f) w).1
    bind-IsGone m f w g hf = and_then-Keeps (m w).0 f (λ a e. hf a) (m w).1 g

    -- The same, with what is known of the value.
    pub bind-Keeps_of :
        (Q : A → Type 0) (m : Exec A) (f : A → Exec B)
        → Keeps m
        → ((w : World) (a : A) → IsGone key first w → (m w).0 ≡ ok a → Q a)
        → ((a : A) → Q a → Keeps (f a))
        → Keeps (m >>= f)
    bind-Keeps_of Q m f hm known hf w g =
        and_then-Keeps (m w).0 f (λ a e. hf a (known w a g e)) (m w).1 (hm w g)

  module _ {A : Type 0} where
    handled-Keeps :
        (r : Result A) (h : Exception → Exec A)
        → ((e : Exception) → Keeps (h e))
        → Keeps (handled r h)
    handled-Keeps (ok a) h hh w g = g
    handled-Keeps (raise e) h hh w g = hh e w g

    pub catch-Keeps :
        (m : Exec A) (h : Exception → Exec A)
        → Keeps m
        → ((e : Exception) → Keeps (h e))
        → Keeps (catch m h)
    catch-Keeps m h hm hh w g = handled-Keeps (m w).0 h hh (m w).1 (hm w g)

    pub catch-IsGone :
        (m : Exec A) (h : Exception → Exec A) (w : World)
        → IsGone key first (m w).1
        → ((e : Exception) → Keeps (h e))
        → IsGone key first (catch m h w).1
    catch-IsGone m h w g hh = handled-Keeps (m w).0 h hh (m w).1 g

    pub with_session-Keeps : (m : Exec A) → Keeps m → Keeps (with_session m)
    unfolding with_session
    with_session-Keeps m hm w g =
        apart refl refl (hm (record w { working = w.committed }) (apart refl refl g))

  pub unavailable-Keeps : (A : Type 0) (e : Exception) → Keeps (unavailable {A = A} e)
  unfolding unavailable
  unavailable-Keeps A redis_error w g = g
  unavailable-Keeps A _ w g = g

  fate-Keeps :
      {A : Type 0} (answer : Answer) (a : A) (store : Store) (w : World)
      → IsGone key first w
      → ((now : ℕ) → find now key store ≡ none)
      → IsGone key first (fate answer a store w).1
  unfolding fate
  fate-Keeps answered a store w g h = record { absent = h; drawn = g.drawn }
  fate-Keeps refused a store w g h = g
  fate-Keeps lost a store w g h = record { absent = h; drawn = g.drawn }

  module _ (env : Env) (identity : Identity) where
    command-Keeps :
        {A : Type 0} (result : ℕ → Store → A) (change : ℕ → Store → Store)
        → ((now t : ℕ) (store : Store)
            → find now key store ≡ none
            → find now key (change t store) ≡ none)
        → Keeps (command env identity result change)
    unfolding command
    command-Keeps result change h w g =
        fate-Keeps (identity.answer w.commands) (result (env.now w.readings) w.redis)
          (change (env.now w.readings) w.redis)
          (record w { readings = suc w.readings; commands = suc w.commands }) (apart refl refl g)
          λ now. h now (env.now w.readings) w.redis (g.absent now)

    pub setex-Keeps :
        (k : Key) (ttl : ℕ) (v : String) → eq_key k key ≡ false → Keeps (setex env identity k ttl v)
    unfolding setex
    setex-Keeps k ttl v other w g = elim (Bool-cases (ttl == 0)) [
      | inl e ↦ rw e g
      | inr e ↦ rw e (
          command-Keeps (λ now store. tt) (λ t. put t k ttl v)
            (λ now t store h. find-put now t ttl k key v store ∙ rw other h) w g)
    ]

    pub setex_both-Keeps :
        (k l : Key) (u v : String) (ttl : ℕ)
        → eq_key k key ≡ false
        → eq_key l key ≡ false
        → Keeps (setex_both env identity k u l v ttl)
    unfolding setex_both
    setex_both-Keeps k l u v ttl other other' =
        command-Keeps (λ now store. tt) (λ t store. put t l ttl v (put t k ttl u store))
          λ now t store h.
            find-put now t ttl l key v (put t k ttl u store)
            ∙ rw other' (find-put now t ttl k key u store ∙ rw other h)

    gone-remove :
        (now t : ℕ) (k : Key) (store : Store)
        → find now key store ≡ none
        → find now key (remove k store) ≡ none
    gone-remove now t k store h = ground (arith, find-remove now k key store)

    pub getdel-Keeps : (k : Key) → Keeps (getdel env identity k)
    unfolding getdel
    getdel-Keeps k =
        command-Keeps (λ now. find now k) (λ t. remove k) λ now t store. gone-remove now t k store

    pub delete-Keeps : (k : Key) → Keeps (delete env identity k)
    unfolding delete
    delete-Keeps k =
        command-Keeps (λ now store. tt) (λ t. remove k) λ now t store. gone-remove now t k store

    pub exists-Keeps : (k : Key) → Keeps (exists env identity k)
    unfolding exists
    exists-Keeps k =
        command-Keeps (λ now store. is_some (find now k store)) (λ t store. store)
          λ now t store h. h

    pub select-Keeps : {A : Type 0} (query : Db → A) → Keeps (select env query)
    unfolding select statement
    select-Keeps query w g = apart (ground arith) (ground arith) g

    pub commit-Keeps : Keeps (commit env)
    unfolding commit flush statement
    commit-Keeps w g = apart (ground arith) (ground arith) g

  pub one_or_none-Keeps : {A : Type 0} (rows : List A) → Keeps (one_or_none rows)
  unfolding one_or_none
  one_or_none-Keeps [] w g = g
  one_or_none-Keeps (x ∷ []) w g = g
  one_or_none-Keeps (x ∷ y ∷ rest) w g = g

-- The status of a refusal: that of the handler, unless Redis did not answer.
abbrev pub refusal : Answer → ℕ → ℕ
refusal answered status = status
refusal refused status = 503
refusal lost status = 503

-- What `unavailable` makes of the fate of a command.
abbrev pub reply : {A : Type 0} → Answer → A → Result A
reply answered a = ok a
reply refused a = raise (http_exception 503)
reply lost a = raise (http_exception 503)

module _ (env : Env) (identity : Identity) (key : Key) where
  remove-absent : (now : ℕ) (store : Store) → find now key (remove key store) ≡ none
  remove-absent now store = ground (arith, find-remove now key key store, eq_key_refl key)

  fate-IsGone :
      (answer : Answer) (a : Option String) (store : Store) (w : World)
      → answer ≢ refused
      → ((now : ℕ) → find now key store ≡ none)
      → IsGone key w.draws (catch (fate answer a store) unavailable w).1
  unfolding fate unavailable
  fate-IsGone answered a store w works h = record { absent = h; drawn = ground arith }
  fate-IsGone refused a store w works h = absurd (works refl)
  fate-IsGone lost a store w works h = record { absent = h; drawn = ground arith }

  fate-absent :
      (answer : Answer) (a : Option String) (store : Store) (w : World)
      → (catch (fate answer a store) unavailable w).0 ≡ reply answer a
  unfolding fate unavailable
  fate-absent answered a store w = refl
  fate-absent refused a store w = refl
  fate-absent lost a store w = refl

  -- A GETDEL that takes effect.
  pub getdel-IsGone :
      (w : World)
      → identity.answer w.commands ≢ refused
      → IsGone key w.draws (catch (getdel env identity key) unavailable w).1
  unfolding getdel command
  getdel-IsGone w works =
      let now = env.now w.readings in
      fate-IsGone (identity.answer w.commands) (find now key w.redis) (remove key w.redis)
        (record w { readings = suc w.readings; commands = suc w.commands }) works
        λ later. remove-absent later w.redis

  -- A GETDEL of a key that is not there.
  pub getdel-absent :
      (first : ℕ) (w : World)
      → IsGone key first w
      → (catch (getdel env identity key) unavailable w).0 ≡ reply (identity.answer w.commands) none
  unfolding getdel command
  getdel-absent first w g =
      let now = env.now w.readings in
      fate-absent (identity.answer w.commands) (find now key w.redis) (remove key w.redis)
        (record w { readings = suc w.readings; commands = suc w.commands })
      ∙ ap (reply (identity.answer w.commands)) (g.absent now)

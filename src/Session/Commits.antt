-- ===== src/Session/Commits.antt =====
-- What an operation leaves committed: a rule for each way to build one.
use python_fastapi_poc.Prelude.{
  ℕ, suc, false, true, ◌≡◌, ◌≢◌, refl, ◌⊎◌, inl, inr, Option, none, some, arith, sym, ◌∙◌, subst,
}
use python_fastapi_poc.Models.{Db}
use python_fastapi_poc.Env.{Env}
use python_fastapi_poc.Session.{
  Result, ok, raise, Exception, Exec, World, and_then, handled, catch, ◌>>=◌, ◌>>◌, statement,
  select, execute, flush, commit, refresh, found, foreign_keys_hold, users_are_unique,
  positions_are_unique,
}

-- The outcome of an operation that started with `before` committed: it raised and `before` is
-- still what is committed, or what is committed satisfies `Q`.
abbrev pub Commits : {A : Type 0} → Db → (Db → Type 0) → Result A × World → Type 0
Commits before Q out =
    ((e : Exception) × (out.0 ≡ raise e) × (out.1.committed ≡ before)) ⊎ Q out.1.committed

-- If the operation returns, its value and the world satisfy `Q`.
abbrev pub Ensures : {A : Type 0} → (A → World → Type 0) → Result A × World → Type 0
Ensures {A} Q out = (a : A) → out.0 ≡ ok a → Q a out.1

-- An operation that commits nothing.
abbrev pub Reads : {A : Type 0} → Exec A → Type 0
Reads m = (w : World) → (m w).1.committed ≡ w.committed

Result-cases :
    {A : Type 0} (r : Result A) → ((a : A) × (r ≡ ok a)) ⊎ ((e : Exception) × (r ≡ raise e))
Result-cases (ok a) = inl (a, refl)
Result-cases (raise e) = inr (e, refl)

module _ {A B : Type 0} {before : Db} (Q : Db → Type 0) where
  raised-Commits :
      (r : Result A) (f : A → Exec B) (w : World)
      → w.committed ≡ before
      → ((a : A) → r ≡ ok a → Commits before Q (f a w))
      → Commits before Q (and_then r f w)
  raised-Commits (ok a) f w same next = next a refl
  raised-Commits (raise e) f w same next = inl (e, refl, same)

  pub bind-Commits :
      (m : Exec A) (f : A → Exec B) (w : World)
      → (m w).1.committed ≡ before
      → ((a : A) → (m w).0 ≡ ok a → Commits before Q (f a (m w).1))
      → Commits before Q ((m >>= f) w)
  bind-Commits m f w same next = raised-Commits (m w).0 f (m w).1 same next

module _ {A B : Type 0} (Q : B → World → Type 0) where
  and_then-Ensures :
      (r : Result A) (f : A → Exec B) (w : World)
      → ((a : A) → r ≡ ok a → Ensures Q (f a w))
      → Ensures Q (and_then r f w)
  and_then-Ensures (ok a) f w next = next a refl
  and_then-Ensures (raise e) f w next = λ b h. cc

  pub bind-Ensures :
      (m : Exec A) (f : A → Exec B) (w : World)
      → ((a : A) → (m w).0 ≡ ok a → Ensures Q (f a (m w).1))
      → Ensures Q ((m >>= f) w)
  bind-Ensures m f w next = and_then-Ensures (m w).0 f (m w).1 next

module _ {A : Type 0} (Q : A → World → Type 0) (handler : Exception → Exec A)
    (raises : (e : Exception) (w : World) (a : A) → (handler e w).0 ≢ ok a) where
  handled-Ensures :
      (r : Result A) (w : World) → ((a : A) → r ≡ ok a → Q a w) → Ensures Q (handled r handler w)
  handled-Ensures (ok a) w h b e = h b e
  handled-Ensures (raise x) w h b e = absurd (raises x w b e)

  -- Past a handler that always raises, the body has returned.
  pub catch-Ensures :
      (body : Exec A) (w : World) → Ensures Q (body w) → Ensures Q (catch body handler w)
  catch-Ensures body w h = handled-Ensures (body w).0 (body w).1 h

module _ {A B : Type 0} where
  Reads-and_then :
      (r : Result A) (f : A → Exec B) (w : World)
      → ((a : A) → Reads (f a))
      → (and_then r f w).1.committed ≡ w.committed
  Reads-and_then (ok a) f w rest = rest a w
  Reads-and_then (raise e) f w rest = refl

  pub Reads-bind :
      (m : Exec A) (f : A → Exec B) → Reads m → ((a : A) → Reads (f a)) → Reads (m >>= f)
  Reads-bind m f h rest w = Reads-and_then (m w).0 f (m w).1 rest ∙ h w

module _ (env : Env) where
  pub Reads-statement : Reads (statement env)
  unfolding statement
  Reads-statement w = ground arith

  pub Reads-select : {A : Type 0} (query : Db → A) → Reads (select env query)
  unfolding select
  Reads-select query w = ground arith

  pub Reads-execute : (change : Db → Db) → Reads (execute env change)
  unfolding execute
  Reads-execute change w = ground arith

  pub Reads-flush : Reads (flush env)
  unfolding flush
  Reads-flush w = ground arith

  pub Reads-found : {A : Type 0} (row : Option A) → Reads (found row)
  Reads-found none w = refl
  Reads-found (some a) w = refl

  pub Reads-refresh : {A : Type 0} (query : Db → Option A) → Reads (refresh env query)
  unfolding refresh
  Reads-refresh query w = ground (arith)

  -- The result of a query is its value on the open transaction.
  pub select-ok :
      {A : Type 0} (query : Db → A) (w : World) {a : A}
      → (select env query w).0 ≡ ok a
      → (a ≡ query w.working) × ((select env query w).1.working ≡ w.working)
  unfolding select
  select-ok query w h = ground arith

  pub execute-ok :
      (change : Db → Db) (w : World) {a : Unit {0}}
      → (execute env change w).0 ≡ ok a
      → (execute env change w).1.working ≡ change w.working
  unfolding execute
  execute-ok change w h = ground arith

  pub flush-ok :
      (w : World) {a : Unit {0}} → (flush env w).0 ≡ ok a → (flush env w).1.working ≡ w.working
  unfolding flush
  flush-ok w h = ground arith

  -- A commit that fails commits nothing; one that returns commits the open transaction.
  pub commit_cases :
      (w : World)
      → ((e : Exception) × ((commit env w).0 ≡ raise e)
          × ((commit env w).1.committed ≡ w.committed))
        ⊎ (((commit env w).0 ≡ ok tt)
            × ((commit env w).1.committed ≡ w.working)
            × ((commit env w).1.working ≡ w.working))
  unfolding commit
  commit_cases w = elim (Result-cases (commit env w).0) [
    | inl (a, h) ↦ inr (ground arith, ground arith, ground arith)
    | inr (e, h) ↦ inl (e, h, ground arith)
  ]

  -- The end of a writing operation: a commit, then steps that commit nothing.
  pub finish-Commits :
      {A : Type 0} {before : Db} (Q : Db → Type 0) (k : Exec A) (w : World)
      → w.committed ≡ before
      → Reads k
      → Q w.working
      → Commits before Q ((commit env >> k) w)
  finish-Commits Q k w start reads q = elim (commit_cases w) [
    | inl (e, raised, same) ↦ inl (e, ground arith, ground arith)
    | inr (returned, done, _) ↦
        let kept : ((commit env >> k) w).1.committed ≡ w.working =
          ground (arith, reads (commit env w).1) in
        inr (subst Q (sym kept) q)
  ]

  pub commit-Commits :
      {before : Db} (Q : Db → Type 0) (w : World)
      → w.committed ≡ before
      → Q w.working
      → Commits before Q (commit env w)
  commit-Commits Q w start q = elim (commit_cases w) [
    | inl (e, raised, same) ↦ inl (e, raised, same ∙ start)
    | inr (returned, done, _) ↦ inr (subst Q (sym done) q)
  ]

  pub commit-ok :
      (w : World) {u : Unit {0}}
      → (commit env w).0 ≡ ok u
      → ((commit env w).1.committed ≡ w.working) × ((commit env w).1.working ≡ w.working)
  commit-ok w h = elim (commit_cases w) [
    | inl (e, raised, same) ↦ cc
    | inr (returned, done, kept) ↦ (done, kept)
  ]

  pub refresh-ok :
      {A : Type 0} (query : Db → Option A) (w : World) {a : A}
      → (refresh env query w).0 ≡ ok a
      → (query w.working ≡ some a) × ((refresh env query w).1.working ≡ w.working)
  unfolding refresh
  refresh-ok query w h = ground arith

  -- Only the scheduler's operations touch the jobs.
  pub jobs-flush : (w : World) → (flush env w).1.jobs ≡ w.jobs
  unfolding flush
  jobs-flush w = ground arith

  pub jobs-commit : (w : World) → (commit env w).1.jobs ≡ w.jobs
  unfolding commit
  jobs-commit w = ground arith

  pub jobs-refresh :
      {A : Type 0} (query : Db → Option A) (w : World) → (refresh env query w).1.jobs ≡ w.jobs
  unfolding refresh
  jobs-refresh query w = ground arith

  -- A commit that has nothing against it.
  pub commit-fine :
      (w : World)
      → ((n : ℕ) → env.fails n ≡ false)
      → foreign_keys_hold w.working ≡ true
      → users_are_unique w.working.users ≡ true
      → positions_are_unique w.working.actions ≡ true
      → ((commit env w).0 ≡ ok tt) × ((commit env w).1.committed ≡ w.working)
  unfolding commit flush statement
  commit-fine w works keys users positions =
      rw (works w.statements, keys, users, works (suc w.statements), positions) (refl, refl)

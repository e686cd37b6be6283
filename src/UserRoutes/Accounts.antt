-- ===== src/UserRoutes/Accounts.antt =====
-- What a sign-in does to the users.
use python_fastapi_poc.Prelude.{
  ℕ, suc, ◌≡◌, refl, ap, ◌∙◌, true, false, List, [], ◌∷◌, ◌++◌, map, arith,
}
use python_fastapi_poc.Models.{User}
use python_fastapi_poc.Env.{Env}
use python_fastapi_poc.Identity.{Identity}
use python_fastapi_poc.Session.{
  Result, ok, raise, World, http_exception, select, statement, commit, flush, rollback, one_or_none,
  foreign_keys_hold, positions_are_unique, users_are_unique, catch,
}
use python_fastapi_poc.Session.Commits.{commit-fine}
use python_fastapi_poc.GoogleOauth.{GoogleUserInfo}
use python_fastapi_poc.UserRoutes.{
  with_email, with_google_id, set_profile, store_user, upsert, add_user, conflict, on_users,
}
use python_fastapi_poc.UserRoutes.Unique.{
  users_are_unique-snoc, taken-refused, users_are_unique-set_profile, found-alone,
}

-- A database that has no trouble, at the start of a session.
pub record IsSound (env : Env) (w : World) : Type 0 where
  pub answers : (n : ℕ) → env.fails n ≡ false
  pub opened : w.working ≡ w.committed
  pub keys : foreign_keys_hold w.working ≡ true
  pub positions : positions_are_unique w.working.actions ≡ true
  pub users : users_are_unique w.working.users ≡ true

module _ (env : Env) where
  commit-refused :
      (w : World)
      → ((n : ℕ) → env.fails n ≡ false)
      → users_are_unique w.working.users ≡ false
      → ((catch (commit env) conflict w).0 ≡ raise (http_exception 409))
        × ((catch (commit env) conflict w).1.committed ≡ w.committed)
  unfolding commit flush statement conflict rollback
  commit-refused w works users = ground (arith, works w.statements)

  -- The row that a sign-in adds.
  abbrev pub new_user : GoogleUserInfo → World → User
  new_user info w = record {
    id = env.new_id (suc w.statements) (map (λ u. u.id) w.working.users);
    google_id = info.google_id;
    email = info.email;
    name = info.name;
    picture = info.picture;
    created_at = env.now w.readings;
  }

  module _ (identity : Identity) where
    stored_new :
        (info : GoogleUserInfo) (w : World)
        → env.fails w.statements ≡ false
        → with_google_id info.google_id w.working.users ≡ []
        → store_user env identity info w
          ≡ catch (commit env) conflict (record w {
            working = on_users (λ l. l ++ new_user info w ∷ []) w.working;
            statements = suc w.statements;
            readings = suc w.readings;
          })
    unfolding store_user select statement one_or_none upsert add_user
    stored_new info w works unknown = rw (works, unknown) refl

    stored_known :
        (info : GoogleUserInfo) (u : User) (w : World)
        → env.fails w.statements ≡ false
        → with_google_id info.google_id w.working.users ≡ u ∷ []
        → store_user env identity info w
          ≡ catch (commit env) conflict (record w {
            working = on_users (set_profile u.id info) w.working;
            statements = suc w.statements;
          })
    unfolding store_user select statement one_or_none upsert
    stored_known info u w works known = rw (works, known) refl

    caught-fine :
        (w : World)
        → ((commit env w).0 ≡ ok tt) × ((commit env w).1.committed ≡ w.working)
        → ((catch (commit env) conflict w).0 ≡ ok tt)
          × ((catch (commit env) conflict w).1.committed ≡ w.working)
    caught-fine w (done, kept) = rw done (refl, kept)

    -- A known account: its profile is stored, and its email is not.
    pub store_user_known :
        (info : GoogleUserInfo) (u : User) (rest : List User) (w : World)
        → IsSound env w
        → with_google_id info.google_id w.working.users ≡ u ∷ rest
        → ((store_user env identity info w).0 ≡ ok tt)
          × ((store_user env identity info w).1.committed
              ≡ on_users (set_profile u.id info) w.working)
    unfolding foreign_keys_hold
    store_user_known info u rest w sound known =
        let w₁ : World = record w {
          working = on_users (set_profile u.id info) w.working;
          statements = suc w.statements;
        } in
        let alone = found-alone info.google_id w.working.users rest u sound.users known in
        let step =
          stored_known info u w (sound.answers w.statements) (known ∙ ap (λ l. u ∷ l) alone) in
        let fine = caught-fine w₁ (
          commit-fine env w₁ sound.answers sound.keys
            (users_are_unique-set_profile u.id info w.working.users ∙ sound.users)
            sound.positions) in
        (ap (λ out. out.0) step ∙ fine.0, ap (λ out. out.1.committed) step ∙ fine.1)

    -- A new account: its row is stored.
    pub store_user_new :
        (info : GoogleUserInfo) (w : World)
        → IsSound env w
        → with_google_id info.google_id w.working.users ≡ []
        → with_email info.email w.working.users ≡ []
        → ((store_user env identity info w).0 ≡ ok tt)
          × ((store_user env identity info w).1.committed
              ≡ on_users (λ l. l ++ new_user info w ∷ []) w.working)
    unfolding foreign_keys_hold
    store_user_new info w sound unknown free =
        let w₁ : World = record w {
          working = on_users (λ l. l ++ new_user info w ∷ []) w.working;
          statements = suc w.statements;
          readings = suc w.readings;
        } in
        let step = stored_new info w (sound.answers w.statements) unknown in
        let fine = caught-fine w₁ (
          commit-fine env w₁ sound.answers sound.keys
            (users_are_unique-snoc (new_user info w) w.working.users unknown free sound.users)
            sound.positions) in
        (ap (λ out. out.0) step ∙ fine.0, ap (λ out. out.1.committed) step ∙ fine.1)

    -- A new account with an email that another has: a 409, and nothing is stored.
    pub store_user_taken :
        (info : GoogleUserInfo) (u : User) (rest : List User) (w : World)
        → IsSound env w
        → with_google_id info.google_id w.working.users ≡ []
        → with_email info.email w.working.users ≡ u ∷ rest
        → ((store_user env identity info w).0 ≡ raise (http_exception 409))
          × ((store_user env identity info w).1.committed ≡ w.committed)
    store_user_taken info u rest w sound unknown taken =
        let w₁ : World = record w {
          working = on_users (λ l. l ++ new_user info w ∷ []) w.working;
          statements = suc w.statements;
          readings = suc w.readings;
        } in
        let step = stored_new info w (sound.answers w.statements) unknown in
        let refused =
          commit-refused w₁ sound.answers
            (taken-refused (new_user info w) u w.working.users rest taken) in
        (ap (λ out. out.0) step ∙ refused.0, ap (λ out. out.1.committed) step ∙ refused.1)

    -- The outcome of a sign-in on the users, by those with its id and those with its email.
    abbrev pub upsert_spec :
        (by_id by_email : List User)
        → GoogleUserInfo
        → User
        → List User
        → Result (Unit {0}) × List User
    upsert_spec (u ∷ rest) by_email info row users = (ok tt, set_profile u.id info users)
    upsert_spec [] [] info row users = (ok tt, users ++ row ∷ [])
    upsert_spec [] (u ∷ rest) info row users = (raise (http_exception 409), users)

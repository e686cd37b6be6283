-- ===== src/Routes/Ordered.antt =====
-- The requests on an action, from the id in the path to what is committed.
use python_fastapi_poc.Prelude.{
  String, ℕ, ◌≡◌, refl, sym, ◌∙◌, subst, inl, inr, Option, none, some, List, first_where, ◌==◌,
  arith, ==_iff, [], ◌∷◌, Bool-cases,
}
use python_fastapi_poc.Models.{Action, Db}
use python_fastapi_poc.Env.{Env}
use python_fastapi_poc.Identity.{Identity}
use python_fastapi_poc.Security.{require_authenticated_user}
use python_fastapi_poc.Security.Apart.{require_authenticated_user-Leaves}
use python_fastapi_poc.Schemas.{ActionUpdate, validate_action_update}
use python_fastapi_poc.Session.{
  Result, ok, raise, Exception, World, handled, lift, select, statement, with_session, value_error,
  http_exception, integrity_error, database_error, multiple_results, invalid_request,
  overflow_error, attribute_error, redis_error, runtime_error, key_error, ◌>>◌,
}
use python_fastapi_poc.Session.Commits.{Commits, Ensures, bind-Ensures, bind-Commits, select-ok}
use python_fastapi_poc.Actions.{update_action}
use python_fastapi_poc.Actions.Positions.{get_action}
use python_fastapi_poc.Actions.Ordered.{IsOrdered}
use python_fastapi_poc.Actions.Update.{update_action-Commits}
use python_fastapi_poc.Actions.Update.Ordered.{Updated-IsOrdered}
use python_fastapi_poc.Routes.{
  get_action_or_404, or_404, unprocessable, update_loaded, update_action_handler,
}

get_action-id :
    (id : ℕ) (actions : List Action) (a : Action) → get_action id actions ≡ some a → a.id ≡ id
unfolding first_where
get_action-id id [] a h = absurd (ground arith)
get_action-id id (b ∷ actions) a h = elim (Bool-cases (b.id == id)) [
  | inl e ↦ ground (arith, (==_iff b.id id).0 e)
  | inr e ↦ get_action-id id actions a (ground arith)
]

unprocessable-raises :
    {A : Type 0} (e : Exception) (w : World)
    → (e' : Exception) × (unprocessable {A = A} e w ≡ (raise e', w))
unfolding unprocessable
unprocessable-raises (value_error r) w = (http_exception 422, refl)
unprocessable-raises integrity_error w = (integrity_error, refl)
unprocessable-raises database_error w = (database_error, refl)
unprocessable-raises multiple_results w = (multiple_results, refl)
unprocessable-raises invalid_request w = (invalid_request, refl)
unprocessable-raises overflow_error w = (overflow_error, refl)
unprocessable-raises attribute_error w = (attribute_error, refl)
unprocessable-raises redis_error w = (redis_error, refl)
unprocessable-raises runtime_error w = (runtime_error, refl)
unprocessable-raises (key_error k) w = (key_error k, refl)
unprocessable-raises (http_exception n) w = (http_exception n, refl)

module _ {A : Type 0} {before : Db} (Q : Db → Type 0) where
  handled-Commits :
      (r : Result A) (w : World)
      → Commits before Q (r, w)
      → Commits before Q (handled r unprocessable w)
  handled-Commits (ok a) w h = h
  handled-Commits (raise e) w h =
      let (e', same) = unprocessable-raises {A = A} e w in
      subst (Commits before Q) (sym same)
        (elim h [ inl (x, raised, kept) ↦ inl (e', refl, kept) | inr q ↦ inr q ])

or_404-ok :
    (row : Option Action) (v : World) (a : Action)
    → (or_404 row v).0 ≡ ok a
    → (row ≡ some a) × ((or_404 row v).1.working ≡ v.working)
unfolding or_404
or_404-ok none v a h = absurd (ground arith)
or_404-ok (some b) v a h = (ground arith, refl)

module _ (env : Env) where
  get_action_or_404-Ensures :
      (id : ℕ) (w : World)
      → Ensures
          (λ a after. (get_action a.id w.working.actions ≡ some a) × (after.working ≡ w.working))
          (get_action_or_404 env id w)
  unfolding get_action_or_404
  get_action_or_404-Ensures id w =
      let query = λ (db : Db). get_action id db.actions in
      bind-Ensures
        (λ a after. (get_action a.id w.working.actions ≡ some a) × (after.working ≡ w.working))
        (select env query) or_404 w
        λ row selected a h.
          let (here, kept) = select-ok env query w selected in
          let (found, same) = or_404-ok row (select env query w).1 a h in
          let stored = sym here ∙ found in
          (
            subst (λ k. get_action k w.working.actions ≡ some a)
                (sym (get_action-id id w.working.actions a stored)) stored,
            same ∙ kept,
          )

  get_action_or_404-Reads :
      (id : ℕ) (w : World) → (get_action_or_404 env id w).1.committed ≡ w.committed
  unfolding get_action_or_404 or_404 select statement
  get_action_or_404-Reads id w = ground arith

  update_loaded-Commits :
      (payload : ActionUpdate) (a : Action) (w : World)
      → get_action a.id w.working.actions ≡ some a
      → IsOrdered w.working.actions
      → Commits w.committed (λ db. IsOrdered db.actions) (update_loaded env payload a w)
  unfolding update_loaded
  update_loaded-Commits payload a w found h =
      let Q = λ (db : Db). IsOrdered db.actions in
      let body = lift (validate_action_update payload) >> update_action env a payload in
      let done =
        bind-Commits Q (lift (validate_action_update payload)) (λ u. update_action env a payload) w
          refl
          λ u valid. elim (update_action-Commits env a payload w) [
            | inl raised ↦ inl raised
            | inr updated ↦ inr (Updated-IsOrdered found h updated)
          ] in
      handled-Commits Q (body w).0 (body w).1 done

  module _ (identity : Identity) (access_token authorization : Option String) where
    authorized-Commits :
        (payload : ActionUpdate) (a : Action) (w : World)
        → get_action a.id w.working.actions ≡ some a
        → IsOrdered w.working.actions
        → Commits w.committed
            (λ db. IsOrdered db.actions)
            ((require_authenticated_user env identity access_token authorization
                >> update_loaded env payload a)
              w)
    authorized-Commits payload a w found h =
        let user = require_authenticated_user env identity access_token authorization in
        let Q = λ (db : Db). IsOrdered db.actions in
        let (same, opened, _) =
          require_authenticated_user-Leaves env identity access_token authorization w in
        bind-Commits Q user (λ _. update_loaded env payload a) w same
          λ email got.
            subst (λ db. Commits db Q (update_loaded env payload a (user w).1)) same
              (update_loaded-Commits payload a (user w).1
                (subst (λ (db : Db). get_action a.id db.actions ≡ some a) (sym opened) found)
                (subst (λ (db : Db). IsOrdered db.actions) (sym opened) h))

    -- A request to update an action, whatever its credentials, its id and its payload, leaves an
    -- ordered table ordered, on every outcome: an action that is not there, a user, a payload or a
    -- position that is refused, a server that fails, and a success.
    pub update_action_handler-IsOrdered :
        (id : ℕ) (payload : ActionUpdate) (w : World)
        → IsOrdered w.committed.actions
        → IsOrdered
            (update_action_handler env identity access_token authorization id payload
              w).1.committed.actions
    unfolding update_action_handler with_session
    update_action_handler-IsOrdered id payload w h =
        let w' : World = record w { working = w.committed } in
        let user = require_authenticated_user env identity access_token authorization in
        let Q = λ (db : Db). IsOrdered db.actions in
        let done =
          bind-Commits Q (get_action_or_404 env id)
            (λ action. user >> update_loaded env payload action) w' (get_action_or_404-Reads id w')
            λ a got.
              let (found, kept) = get_action_or_404-Ensures id w' a got in
              let v = (get_action_or_404 env id w').1 in
              let stored =
                subst (λ (db : Db). get_action a.id db.actions ≡ some a) (sym kept) found in
              let ordered = subst (λ (db : Db). IsOrdered db.actions) (sym kept) h in
              subst (λ db. Commits db Q ((user >> update_loaded env payload a) v))
                (get_action_or_404-Reads id w') (authorized-Commits payload a v stored ordered) in
        elim done [ inl (e, raised, same) ↦ rw same h | inr q ↦ q ]

-- ===== src/Actions/Create/Progress.antt =====
-- `create_action` succeeds where nothing is against it.
use mathlib.Core.List.{Mem, mem-cons_self, mem-cons_of_mem}
use python_fastapi_poc.Prelude.{
  ℕ, suc, ◌≤◌, ◌≡◌, refl, ap, ◌∙◌, subst, inl, inr, Bool, true, false, Bool-cases, Option, none,
  some, List, [], ◌∷◌, ◌++◌, ◌==◌, ◌&&◌, not, any, all, rows_where, arith, first_where, count, ℤ,
  pos_part, ==_iff,
}
use python_fastapi_poc.Models.{Action, ActionExecution, Db}
use python_fastapi_poc.Env.{Env}
use python_fastapi_poc.Schemas.{ActionCreate}
use python_fastapi_poc.Session.{
  World, ok, Exec, ◌>>=◌, select, statement, execute, commit, refresh, foreign_keys_hold,
  positions_are_unique, users_are_unique,
}
use python_fastapi_poc.Session.Commits.{commit-fine, commit-ok}
use python_fastapi_poc.Actions.{
  routine_actions, shift_up, create_action, make_room, insert_action, add_action, refresh_action,
  on_actions,
}
use python_fastapi_poc.Actions.Positions.{ids, positions, get_action}
use python_fastapi_poc.Actions.Ordered.{IsOrdered, Created-IsOrdered}
use python_fastapi_poc.Actions.Create.{
  Created, room, new_row, slot, next_position, make_room_lem, fresh-room,
}

module _ {A : Type 0} (p q : A → Bool) where
  all-weaken :
      (xs : List A) → ((x : A) → p x ≡ true → q x ≡ true) → all p xs ≡ true → all q xs ≡ true
  unfolding all
  all-weaken [] h hs = refl
  all-weaken (x ∷ xs) h hs = ground (arith, h x, all-weaken xs h)

-- On an ordered table no position is used twice.
no-other :
    (r p : ℕ) (actions : List Action)
    → count p (positions r actions) ≡ 0
    → all (λ b. not ((b.routine_id == r) && (b.position == p))) actions ≡ true
unfolding all positions routine_actions rows_where count
no-other r p [] h = refl
no-other r p (a ∷ actions) h = ground (arith, no-other r p actions)

single_unique :
    (actions : List Action)
    → ((r k : ℕ) → count k (positions r actions) ≤ 1)
    → positions_are_unique actions ≡ true
unfolding positions_are_unique positions routine_actions rows_where count
single_unique [] h = refl
single_unique (a ∷ actions) h = ground (
  arith,
  single_unique actions (λ r k. let c = h r k in ground arith),
  h a.routine_id a.position,
  no-other a.routine_id a.position actions,
)

pub IsOrdered-unique :
    (actions : List Action) → IsOrdered actions → positions_are_unique actions ≡ true
IsOrdered-unique actions h = single_unique actions λ r k. let c = h.contiguous r k in ground arith

-- The new row hangs on its routine, and the recorded steps on their actions.
all-shift_up :
    (r p : ℕ) (test : ℕ → Bool) (actions : List Action)
    → all (λ a. test a.routine_id) (shift_up r p actions) ≡ all (λ a. test a.routine_id) actions
unfolding all shift_up
all-shift_up r p test [] = refl
all-shift_up r p test (a ∷ actions) = ground (arith, all-shift_up r p test actions)

any-shift_up :
    (r p id : ℕ) (actions : List Action)
    → any (λ a. a.id == id) (shift_up r p actions) ≡ any (λ a. a.id == id) actions
unfolding any shift_up
any-shift_up r p id [] = refl
any-shift_up r p id (a ∷ actions) = ground (arith, any-shift_up r p id actions)

all-snoc :
    (test : Action → Bool) (actions : List Action) (a : Action)
    → all test (actions ++ a ∷ []) ≡ (all test actions && test a)
unfolding all
all-snoc test [] a = ground arith
all-snoc test (b ∷ actions) a = ground (arith, all-snoc test actions a)

any-snoc :
    (test : Action → Bool) (actions : List Action) (a : Action)
    → any test actions ≡ true
    → any test (actions ++ a ∷ []) ≡ true
unfolding any
any-snoc test [] a h = ground arith
any-snoc test (b ∷ actions) a h = ground (arith, any-snoc test actions a)

get_action-snoc :
    (actions : List Action) (a : Action)
    → ¬ Mem a.id (ids actions)
    → get_action a.id (actions ++ a ∷ []) ≡ some a
unfolding first_where
get_action-snoc [] a fresh = ground arith
get_action-snoc (b ∷ actions) a fresh = elim (Bool-cases (b.id == a.id)) [
  | inl same ↦
      absurd
        (fresh (subst (λ k. Mem k (ids (b ∷ actions))) ((==_iff b.id a.id).0 same) mem-cons_self))
  | inr other ↦ rw other (get_action-snoc actions a (λ m. fresh (mem-cons_of_mem b.id m)))
]

any-room :
    (r id : ℕ) (asked : Option ℤ) (actions : List Action) (a : Action)
    → any (λ b. b.id == id) actions ≡ true
    → any (λ b. b.id == id) (room r asked actions ++ a ∷ []) ≡ true
any-room r id none actions a h = any-snoc (λ b. b.id == id) actions a h
any-room r id (some p) actions a h =
    any-snoc (λ b. b.id == id) (shift_up r (pos_part p) actions) a
      (any-shift_up r (pos_part p) id actions ∙ h)

all-room :
    (r : ℕ) (asked : Option ℤ) (test : ℕ → Bool) (actions : List Action) (a : Action)
    → test a.routine_id ≡ true
    → all (λ b. test b.routine_id) actions ≡ true
    → all (λ b. test b.routine_id) (room r asked actions ++ a ∷ []) ≡ true
all-room r none test actions a own h =
    all-snoc (λ b. test b.routine_id) actions a ∙ rw (h, own) refl
all-room r (some p) test actions a own h =
    all-snoc (λ b. test b.routine_id) (shift_up r (pos_part p) actions) a
    ∙ rw (all-shift_up r (pos_part p) test actions, h, own) refl

-- The keys of the table with the new row.
room-keys :
    (r p id : ℕ) (payload : ActionCreate) (db : Db)
    → any (λ q. q.id == r) db.routines ≡ true
    → foreign_keys_hold db ≡ true
    → foreign_keys_hold
        (on_actions (λ l. room r payload.position l ++ new_row id r p payload ∷ []) db)
      ≡ true
unfolding foreign_keys_hold
room-keys r p id payload db parent h =
    let row = new_row id r p payload in
    let rows =
      all-room r payload.position (λ k. any (λ q. q.id == k) db.routines) db.actions row parent
        (ground arith) in
    let steps =
      all-weaken (λ (x : ActionExecution). any (λ a. a.id == x.action_id) db.actions)
        (λ x. any (λ a. a.id == x.action_id) (room r payload.position db.actions ++ row ∷ []))
        db.action_executions (λ x. any-room r x.action_id payload.position db.actions row)
        (ground arith) in
    ground (arith, rows, steps)

bind-ok :
    {A B : Type 0} (m : Exec A) (f : A → Exec B) (w : World) (a : A)
    → (m w).0 ≡ ok a
    → (m >>= f) w ≡ f a (m w).1
bind-ok m f w a h = rw h refl

module _ (env : Env) (answers : (n : ℕ) → env.fails n ≡ false) where
  refresh-fine :
      {A : Type 0} (query : Db → Option A) (w : World) (a : A)
      → query w.working ≡ some a
      → (refresh env query w).0 ≡ ok a
  unfolding refresh select statement
  refresh-fine query w a h = rw (answers w.statements, h) refl

  make_room-fine :
      (r next : ℕ) (asked : Option ℤ) (w : World) (p : ℕ)
      → slot next asked ≡ some p
      → (make_room env r next asked w).0 ≡ ok p
  unfolding make_room execute statement
  make_room-fine r next none w p h = ground arith
  make_room-fine r next (some asked) w p h = rw (make_room, h, answers w.statements) refl

  insert_action-fine :
      (a : Action) (w : World)
      → let id = env.new_id w.statements (ids w.working.actions) in
        let after = on_actions (λ l. l ++ record a { id = id } ∷ []) w.working in
        foreign_keys_hold after ≡ true
        → users_are_unique w.working.users ≡ true
        → positions_are_unique after.actions ≡ true
        → (insert_action env a w).0 ≡ ok (record a { id = id })
  unfolding insert_action add_action refresh_action
  insert_action-fine a w keys users positions =
      let id = env.new_id w.statements (ids w.working.actions) in
      let row = record a { id = id } in
      let w₁ : World = record w { working = on_actions (λ l. l ++ row ∷ []) w.working } in
      let (done, stored) = commit-fine env w₁ answers keys users positions in
      let (_, kept) = commit-ok env w₁ done in
      rw done (
        refresh-fine (λ db. get_action id db.actions) (commit env w₁).1 row
          (ap (λ (db : Db). get_action id db.actions) kept
            ∙ get_action-snoc w.working.actions row
                (env.new_id-fresh w.statements (ids w.working.actions))))

  -- On a server that does not fail and a sound, ordered table, `create_action` for a stored routine
  -- returns the new row, in the slot that the payload asks for, if it is in range.
  pub create_action_returns :
      (r p : ℕ) (payload : ActionCreate) (w : World)
      → foreign_keys_hold w.working ≡ true
      → users_are_unique w.working.users ≡ true
      → IsOrdered w.working.actions
      → any (λ q. q.id == r) w.working.routines ≡ true
      → slot (next_position r w.working.actions) payload.position ≡ some p
      → (id : ℕ) × ((create_action env r payload w).0 ≡ ok (new_row id r p payload))
  unfolding create_action select statement routine_actions
  create_action_returns r p payload w keys users ordered parent slotted =
      let next = next_position r w.working.actions in
      let w₁ : World = record w { statements = suc w.statements } in
      let roomed = make_room-fine r next payload.position w₁ p slotted in
      let (_, rows) = make_room_lem env r next payload.position w₁ roomed in
      let w₂ = (make_room env r next payload.position w₁).1 in
      let id = env.new_id w₂.statements (ids w₂.working.actions) in
      let fresh : ¬ Mem id (ids w.working.actions) =
        fresh-room env r id payload.position w.working.actions (
          subst (λ (db : Db). ¬ Mem id (ids db.actions)) rows
            (env.new_id-fresh w₂.statements (ids w₂.working.actions))) in
      let row = new_row id r p payload in
      let after = on_actions (λ l. room r payload.position l ++ row ∷ []) w.working in
      let same : on_actions (λ l. l ++ row ∷ []) w₂.working ≡ after =
        ap (on_actions (λ l. l ++ row ∷ [])) rows in
      let made : Created r payload w.working after = record {
        id = id;
        position = p;
        fresh = fresh;
        in_slot = slotted;
        rows = refl;
      } in
      let inserted =
        insert_action-fine (new_row 0 r p payload) w₂
          (ap foreign_keys_hold same ∙ room-keys r p id payload w.working parent keys)
          (ap (λ (db : Db). users_are_unique db.users) rows ∙ users)
          (ap (λ (db : Db). positions_are_unique db.actions) same
            ∙ IsOrdered-unique after.actions (Created-IsOrdered ordered made)) in
      let step : create_action env r payload w ≡ insert_action env (new_row 0 r p payload) w₂ =
        rw (answers w.statements, roomed) refl in
      (id, ap (λ out. out.0) step ∙ inserted)

-- ===== src/Queries/Active.antt =====
-- What the list of active executions holds.
use mathlib.Core.List.Perm
use mathlib.Core.Bool.{false≢true}
use python_fastapi_poc.Domain.{ExecutionStatus}
use mathlib.Core.List.{Perm, foldr, Mem, mem-cons_self, mem-cons_of_mem}
use python_fastapi_poc.Prelude.Members.{Mem-rows_where, rows_where-Mem, all-Mem}
use python_fastapi_poc.Prelude.{
  ℕ, suc, ◌≤◌, ◌⊎◌, ◌↔◌, Bool, count, if◌then◌else◌, ◌≡◌, refl, true, false, some, List, [], ◌∷◌,
  map, any, all, rows_where, first_where, sym, subst, ◌∙◌, Bool-cases, inl, inr, ◌==◌, arith,
}
use python_fastapi_poc.Models.{Routine, RoutineExecution, Db}
use python_fastapi_poc.Env.{Env, IsSorted}
use python_fastapi_poc.Session.{ok, World, select, statement, foreign_keys_hold}
use python_fastapi_poc.Routines.{get_row}
use python_fastapi_poc.Queries.{
  ActiveExecutionRow, is_active_status, joined, loaded, rows_of, and_row, with_routine, with_steps,
  get_active_executions,
}

get_row_of_any :
    (id : ℕ) (routines : List Routine)
    → any (λ r. r.id == id) routines ≡ true
    → (r : Routine) × (get_row id routines ≡ some r)
unfolding any first_where
get_row_of_any id [] h = absurd (ground arith)
get_row_of_any id (r ∷ routines) h = elim (Bool-cases (r.id == id)) [
  | inl e ↦ rw e (r, refl)
  | inr e ↦ rw e (get_row_of_any id routines (ground arith))
]

executions_of_sound :
    (db : Db)
    → foreign_keys_hold db ≡ true
    → all (λ e. any (λ r. r.id == e.routine_id) db.routines) db.executions ≡ true
unfolding foreign_keys_hold
executions_of_sound db h = ground arith

-- The row that is shown for an execution: its own fields, and the name of its routine.
pub record Shows (db : Db) (e : RoutineExecution) (row : ActiveExecutionRow) : Type 0 where
  pub id : row.execution.id ≡ e.id
  pub status : row.execution.status ≡ e.status
  pub scheduled_for : row.execution.scheduled_for ≡ e.scheduled_for
  pub named :
      (r : Routine) × (get_row e.routine_id db.routines ≡ some r)
      × (row.execution.routine_name ≡ r.name)

-- Every execution of a sound database has its routine.
loaded-ok :
    (db : Db) (e : RoutineExecution)
    → foreign_keys_hold db ≡ true
    → Mem e db.executions
    → (row : ActiveExecutionRow) × (loaded db e ≡ ok row) × Shows db e row
unfolding loaded joined with_routine with_steps
loaded-ok db e sound m =
    let (r, found) = get_row_of_any e.routine_id db.routines (
      all-Mem (λ x. any (λ r. r.id == x.routine_id) db.routines) e db.executions
        (executions_of_sound db sound) m) in
    rw found
      (_, refl, record { id = refl; status = refl; scheduled_for = refl; named = (r, found, refl) })

-- The rows show the executions of a list, in its order.
abbrev pub AllShown : Db → List RoutineExecution → List ActiveExecutionRow → Type 0
AllShown db [] [] = Unit
AllShown db (e ∷ rows) (x ∷ out) = Shows db e x × AllShown db rows out
AllShown db _ _ = ⊥

rows_of-ok :
    (db : Db) (rows : List RoutineExecution)
    → ((e : RoutineExecution) → Mem e rows → Mem e db.executions)
    → foreign_keys_hold db ≡ true
    → (out : List ActiveExecutionRow) × (rows_of (loaded db) rows ≡ ok out) × AllShown db rows out
unfolding rows_of and_row
rows_of-ok db [] h sound = ([], refl, tt)
rows_of-ok db (e ∷ rows) h sound =
    let (row, one, shown) = loaded-ok db e sound (h e mem-cons_self) in
    let (out, rest, all_shown) = rows_of-ok db rows (λ x m. h x (mem-cons_of_mem e m)) sound in
    rw (one, rest) (row ∷ out, refl, (shown, all_shown))

-- Queued, or running.
abbrev pub IsActive : ExecutionStatus → Type 0
IsActive status = (status ≡ ExecutionStatus.queued) ⊎ (status ≡ ExecutionStatus.running)

is_active_status-IsActive :
    (status : ExecutionStatus) → (is_active_status status ≡ true) ↔ IsActive status
is_active_status-IsActive ExecutionStatus.queued = (λ h. inl refl, λ h. refl)
is_active_status-IsActive ExecutionStatus.running = (λ h. inr refl, λ h. refl)
is_active_status-IsActive ExecutionStatus.completed =
    (λ h. absurd (false≢true h), λ h. elim h [ inl e ↦ cc | inr e ↦ cc ])
is_active_status-IsActive ExecutionStatus.failed =
    (λ h. absurd (false≢true h), λ h. elim h [ inl e ↦ cc | inr e ↦ cc ])

-- The list of active executions: every queued or running execution, no other one, none more often
-- than in the table, in the order of `scheduled_for`.
pub record IsActiveList (db : Db) (listed : List RoutineExecution) : Type 0 where
  pub members : (e : RoutineExecution) → Mem e listed ↔ (Mem e db.executions × IsActive e.status)
  pub once : (k : ℕ) → count k (map (λ e. e.id) listed) ≤ count k (map (λ e. e.id) db.executions)
  pub in_order : IsSorted (map (λ e. e.scheduled_for) listed)

step : ℕ → ℕ → ℕ → ℕ
step k x n = if x == k then suc n else n

count-foldr : (k : ℕ) (xs : List ℕ) → count k xs ≡ foldr (step k) 0 xs
unfolding count step
count-foldr k [] = refl
count-foldr k (x ∷ xs) = ground (arith, count-foldr k xs)

step_comm : (k x y n : ℕ) → step k x (step k y n) ≡ step k y (step k x n)
unfolding step
step_comm k x y n = ground arith

count-Perm : (k : ℕ) {xs ys : List ℕ} → Perm xs ys → count k xs ≡ count k ys
count-Perm k {xs} {ys} same =
    count-foldr k xs ∙ Perm.foldr-eq (hlevel) (step k) (step_comm k) same 0 ∙ sym (count-foldr k ys)

count-rows_where :
    (k : ℕ) (p : RoutineExecution → Bool) (rows : List RoutineExecution)
    → count k (map (λ e. e.id) (rows_where p rows)) ≤ count k (map (λ e. e.id) rows)
unfolding count rows_where
count-rows_where k p [] = omega arith
count-rows_where k p (e ∷ rows) = ground (arith, count-rows_where k p rows)

module _ (env : Env) where
  active-IsActiveList :
      (db : Db)
      → IsActiveList db (
          env.asc RoutineExecution
            (λ e. e.scheduled_for)
            (rows_where (λ e. is_active_status e.status) db.executions))
  active-IsActiveList db =
      let key = λ (e : RoutineExecution). e.scheduled_for in
      let test = λ (e : RoutineExecution). is_active_status e.status in
      let active = rows_where test db.executions in
      let same = env.asc-perm RoutineExecution key active in
      record {
        members = λ e. (
          λ m.
              let (there, h) = Mem-rows_where test e db.executions ((Perm.mem_iff same).0 m) in
              (there, (is_active_status-IsActive e.status).0 h),
          λ (there, h). (Perm.mem_iff same).1 (
              rows_where-Mem test e db.executions ((is_active_status-IsActive e.status).1 h) there),
        );
        once = λ k.
            subst (λ n. n ≤ count k (map (λ e. e.id) db.executions))
              (count-Perm k (Perm.symm (Perm.map (λ e. e.id) same)))
              (count-rows_where k test db.executions);
        in_order = env.asc-IsSorted RoutineExecution key active;
      }

  -- On a database whose foreign keys hold, and unless the server fails, the query shows all queued
  -- and running executions and no other ones, none more often than it is in the table, in the order
  -- of `scheduled_for` and with the names of their routines.
  pub get_active_executions-ok :
      (w : World)
      → foreign_keys_hold w.working ≡ true
      → env.fails w.statements ≡ false
      → (out : List ActiveExecutionRow) × (listed : List RoutineExecution) × ((get_active_executions
            env w).0
          ≡ ok out)
        × AllShown w.working listed out
        × IsActiveList w.working listed
  unfolding get_active_executions select statement
  get_active_executions-ok w sound works =
      let sorted =
        env.asc RoutineExecution (λ e. e.scheduled_for)
          (rows_where (λ e. is_active_status e.status) w.working.executions) in
      let whole = active-IsActiveList w.working in
      let (out, returned, shown) =
        rows_of-ok w.working sorted (λ e m. ((whole.members e).0 m).0) sound in
      rw (works, returned) (out, sorted, refl, shown, whole)

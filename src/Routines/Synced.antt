-- ===== src/Routines/Synced.antt =====
-- The scheduler's jobs agree with the `routines` table: exactly the active routines with a schedule
-- have a job, and it is the one that the row asks for.
use mathlib.Core.List.{Mem, mem-cons_self, mem-cons_of_mem}
use python_fastapi_poc.Prelude.{
  ℕ, ◌≡◌, refl, subst, inl, inr, true, false, Option, none, some, List, [], ◌∷◌, ◌++◌, map, ◌==◌,
  first_where, if◌then◌else◌, arith, Bool-cases, ==_iff,
}
use python_fastapi_poc.Models.{Routine}
use python_fastapi_poc.Env.{Env}
use python_fastapi_poc.Session.{Job}
use python_fastapi_poc.Scheduler.{snapshot_of, get_job, trigger_of}
use python_fastapi_poc.Scheduler.Jobs.{job_for}
use python_fastapi_poc.Routines.{get_row, set_row, is_manual}

-- The job that a row asks for, and the one that the table asks for under a key.
abbrev pub row_job : Env → Routine → Option Job
row_job env r = if r.is_active then job_for env (snapshot_of r) else none

abbrev pub wanted : Env → Option Routine → Option Job
wanted env none = none
wanted env (some r) = row_job env r

pub record IsSynced (env : Env) (routines : List Routine) (jobs : List Job) : Type 0 where
  pub at_key : (key : ℕ) → get_job key jobs ≡ wanted env (get_row key routines)

pub get_row-snoc :
    (key : ℕ) (routines : List Routine) (r : Routine)
    → get_row key routines ≡ none
    → get_row key (routines ++ r ∷ []) ≡ (if r.id == key then some r else none)
unfolding first_where
get_row-snoc key [] r h = refl
get_row-snoc key (s ∷ routines) r h = ground (arith, get_row-snoc key routines r)

pub get_row-snoc_other :
    (key : ℕ) (routines : List Routine) (r : Routine)
    → (r.id == key) ≡ false
    → get_row key (routines ++ r ∷ []) ≡ get_row key routines
unfolding first_where
get_row-snoc_other key [] r h = ground arith
get_row-snoc_other key (s ∷ routines) r h = ground (arith, get_row-snoc_other key routines r)

-- A key that no row has finds no row.
pub get_row-fresh :
    (key : ℕ) (routines : List Routine)
    → ¬ Mem key (map (λ r. r.id) routines)
    → get_row key routines ≡ none
unfolding first_where
get_row-fresh key [] h = refl
get_row-fresh key (r ∷ routines) h = elim (Bool-cases (r.id == key)) [
  | inl same ↦ absurd (
      h (
        subst (λ k. Mem k (map (λ s. s.id) (r ∷ routines))) ((==_iff r.id key).0 same)
          mem-cons_self))
  | inr other ↦ rw other (get_row-fresh key routines (λ m. h (mem-cons_of_mem r.id m)))
]

pub get-set_row :
    (key : ℕ) (r : Routine) (routines : List Routine)
    → get_row key (set_row r routines) ≡ (
        if r.id == key
        then elim (get_row key routines) [ none ↦ none | some _ ↦ some r ]
        else get_row key routines)
unfolding first_where set_row
get-set_row key r [] = ground arith
get-set_row key r (s ∷ routines) = ground (arith, get-set_row key r routines)

-- A manual routine asks for no job.
pub job_for-manual :
    (env : Env) (r : Routine)
    → is_manual r.schedule_type ≡ true
    → job_for env (snapshot_of r) ≡ none
unfolding trigger_of
job_for-manual env r h = ground arith

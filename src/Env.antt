-- ===== src/Env.antt =====
-- What the program takes from outside: the database server, the clock, APScheduler's parsers, and
-- Python's conversions of text. Only the laws of ordering and of fresh keys are assumed.
use mathlib.Core.List.{Mem, Perm}
use python_fastapi_poc.Prelude.{ℕ, ℤ, String, Bool, Option, List, [], ◌∷◌, ◌≤◌, map, All}

-- A list in which no number is followed by a smaller one.
abbrev pub IsSorted : List ℕ → Type 0
IsSorted [] = Unit
IsSorted (x ∷ xs) = All (λ y. x ≤ y) xs × IsSorted xs

abbrev pub IsSortedDesc : List ℕ → Type 0
IsSortedDesc [] = Unit
IsSortedDesc (x ∷ xs) = All (λ y. y ≤ x) xs × IsSortedDesc xs

pub record Env : Type 1 where
  -- ORDER BY key ASC and DESC; the order of rows with equal keys is the server's choice.
  pub asc : (A : Type 0) → (A → ℕ) → List A → List A
  pub desc : (A : Type 0) → (A → ℕ) → List A → List A
  pub asc-perm : (A : Type 0) (key : A → ℕ) (xs : List A) → Perm (asc A key xs) xs
  pub asc-IsSorted : (A : Type 0) (key : A → ℕ) (xs : List A) → IsSorted (map key (asc A key xs))
  pub desc-perm : (A : Type 0) (key : A → ℕ) (xs : List A) → Perm (desc A key xs) xs
  pub desc-IsSortedDesc :
      (A : Type 0) (key : A → ℕ) (xs : List A) → IsSortedDesc (map key (desc A key xs))
  -- The primary key that the n-th statement draws, given the keys in use.
  pub new_id : ℕ → List ℕ → ℕ
  pub new_id-fresh : (n : ℕ) (ids : List ℕ) → ¬ Mem (new_id n ids) ids
  -- Whether the n-th statement fails for a reason outside of the schema (a lost connection).
  pub fails : ℕ → Bool
  -- The n-th reading of a clock.
  pub now : ℕ → ℕ
  -- Whether `CronTrigger.from_crontab` accepts an expression.
  pub is_crontab : String → Bool
  -- Whether the number of seconds is too large for `timedelta`, or for `time.sleep`.
  pub timedelta_overflows : ℤ → Bool
  pub sleep_overflows : ℤ → Bool
  -- `int(text)`, none if it raises ValueError.
  pub int_of_str : String → Option ℤ
  -- `str` of a float, `==` of two floats, and of a float and an int.
  pub float_str : ℕ → String
  pub float_eq : ℕ → ℕ → Bool
  pub float_eq_int : ℕ → ℤ → Bool
  -- SQL `lower(name)`, and `name ILIKE '%search%'`.
  pub lower : String → String
  pub ilike : String → String → Bool

-- ===== src/Actions/Positions.antt =====
-- Positions of a routine's actions: contiguity, and what the UPDATE statements do to them.
use python_fastapi_poc.Prelude.{
  ℕ, ◌+◌, ◌-◌, ◌≤◌, ◌≡◌, ◌≢◌, refl, List, [], ◌∷◌, ◌++◌, map, leb, ltb, ◌==◌, ◌&&◌, if◌then◌else◌,
  rows_where, length, count, count-append, length-append, arith, Option, some, first_where,
}
use python_fastapi_poc.Models.{Action}
use python_fastapi_poc.Actions.{
  without, routine_actions, of_routine, max_position, shift_up, shift_down,
}

-- The positions that a routine's actions hold.
unfoldable pub positions : ℕ → List Action → List ℕ
unfolding routine_actions
positions routine_id actions = map (λ a. a.position) (routine_actions routine_id actions)

-- Each of 1 to n stands once in a list of n positions, and no other number does.
abbrev pub IsContiguous : List ℕ → Type 0
IsContiguous ps = (k : ℕ) → count k ps ≡ (if leb 1 k && leb k (length ps) then 1 else 0)

abbrev pub bump_from : ℕ → ℕ → ℕ
bump_from p q = if leb p q then q + 1 else q

abbrev pub drop_from : ℕ → ℕ → ℕ
drop_from p q = if ltb p q then q - 1 else q

pub positions-shift_up :
    (r p : ℕ) (actions : List Action)
    → positions r (shift_up r p actions) ≡ map (bump_from p) (positions r actions)
unfolding positions shift_up rows_where
positions-shift_up r p [] = refl
positions-shift_up r p (a ∷ actions) = ground (arith, positions-shift_up r p actions)

count-bump :
    (p k : ℕ) (ps : List ℕ)
    → count k (map (bump_from p) ps)
      ≡ (if ltb k p then count k ps else if k == p then 0 else count (k - 1) ps)
unfolding count
count-bump p k [] = ground arith
count-bump p k (q ∷ ps) = ground (arith, count-bump p k ps)

count-drop :
    (p k : ℕ) (ps : List ℕ)
    → count p ps ≡ 0
    → count k (map (drop_from p) ps) ≡ (if ltb k p then count k ps else count (k + 1) ps)
unfolding count
count-drop p k [] h = ground arith
count-drop p k (q ∷ ps) h = ground (arith, count-drop p k ps)

length-map-bump : (p : ℕ) (ps : List ℕ) → length (map (bump_from p) ps) ≡ length ps
length-map-bump p [] = refl
length-map-bump p (q ∷ ps) = ground (arith, length-map-bump p ps)

length-map-drop : (p : ℕ) (ps : List ℕ) → length (map (drop_from p) ps) ≡ length ps
length-map-drop p [] = refl
length-map-drop p (q ∷ ps) = ground (arith, length-map-drop p ps)

-- Making room at p and putting p there keeps contiguity.
pub IsContiguous-insert :
    (p : ℕ) (ps : List ℕ)
    → IsContiguous ps
    → 1 ≤ p
    → p ≤ length ps + 1
    → IsContiguous (map (bump_from p) ps ++ p ∷ [])
unfolding count
IsContiguous-insert p ps h lo hi k = ground (
  arith,
  count-append k (map (bump_from p) ps) (p ∷ []),
  length-append (map (bump_from p) ps) (p ∷ []),
  length-map-bump p ps,
  count-bump p k ps,
  h k,
  h (k - 1),
)

-- Taking p out and closing the gap keeps contiguity: `rest` holds what was left beside one p.
pub IsContiguous-remove :
    (p : ℕ) (ps rest : List ℕ)
    → IsContiguous ps
    → ((k : ℕ) → count k rest + (if p == k then 1 else 0) ≡ count k ps)
    → length ps ≡ length rest + 1
    → IsContiguous (map (drop_from p) rest)
IsContiguous-remove p ps rest h split len k = ground (
  arith,
  length-map-drop p rest,
  count-drop p k rest,
  split p,
  split k,
  split (k + 1),
  h k,
  h p,
  h (k + 1),
)

max_position-count :
    (xs : List Action)
    → 1 ≤ max_position xs
    → 1 ≤ count (max_position xs) (map (λ a. a.position) xs)
unfolding max_position count
max_position-count [] h = omega arith
max_position-count (a ∷ xs) h = ground (arith, max_position-count xs)

le-max_position :
    (k : ℕ) (xs : List Action) → 1 ≤ count k (map (λ a. a.position) xs) → k ≤ max_position xs
unfolding max_position count
le-max_position k [] h = omega arith
le-max_position k (a ∷ xs) h = ground (arith, le-max_position k xs)

pub length-map-position : (xs : List Action) → length (map (λ a. a.position) xs) ≡ length xs
length-map-position [] = refl
length-map-position (a ∷ xs) = ground (arith, length-map-position xs)

-- The greatest of contiguous positions is their number.
pub max_position-contiguous :
    (xs : List Action) → IsContiguous (map (λ a. a.position) xs) → max_position xs ≡ length xs
max_position-contiguous xs h = ground (
  arith,
  length-map-position xs,
  h (max_position xs),
  h (length xs),
  max_position-count xs,
  le-max_position (length xs) xs,
)

-- No two rows of a table have one key.
abbrev pub ids : List Action → List ℕ
ids actions = map (λ a. a.id) actions

abbrev pub IsKeyed : List ℕ → Type 0
IsKeyed keys = (k : ℕ) → count k keys ≤ 1

-- `session.get(Action, id)`
abbrev pub get_action : ℕ → List Action → Option Action
get_action id actions = first_where (λ a. a.id == id) actions

pub without_absent :
    (id : ℕ) (actions : List Action) → count id (ids actions) ≡ 0 → without id actions ≡ actions
unfolding without rows_where count
without_absent id [] h = refl
without_absent id (a ∷ actions) h = ground (arith, without_absent id actions)

pub count-without :
    (r id k : ℕ) (a : Action) (actions : List Action)
    → count id (ids actions) ≤ 1
    → get_action id actions ≡ some a
    → count k (positions r (without id actions))
        + (if of_routine r a && (a.position == k) then 1 else 0)
      ≡ count k (positions r actions)
unfolding positions without rows_where count first_where
count-without r id k a [] u e = cc
count-without r id k a (b ∷ actions) u e =
    ground (arith, count-without r id k a actions, without_absent id actions)

pub ids-shift_up : (r p : ℕ) (actions : List Action) → ids (shift_up r p actions) ≡ ids actions
unfolding shift_up
ids-shift_up r p [] = refl
ids-shift_up r p (a ∷ actions) = ground (arith, ids-shift_up r p actions)

pub positions-shift_down :
    (r p : ℕ) (actions : List Action)
    → positions r (shift_down r p actions) ≡ map (drop_from p) (positions r actions)
unfolding positions shift_down rows_where
positions-shift_down r p [] = refl
positions-shift_down r p (a ∷ actions) = ground (arith, positions-shift_down r p actions)

pub positions-shift_down_other :
    (r s p : ℕ) (actions : List Action)
    → r ≢ s
    → positions s (shift_down r p actions) ≡ positions s actions
unfolding positions shift_down rows_where
positions-shift_down_other r s p [] h = refl
positions-shift_down_other r s p (a ∷ actions) h =
    ground (arith, positions-shift_down_other r s p actions)

pub ids-shift_down : (r p : ℕ) (actions : List Action) → ids (shift_down r p actions) ≡ ids actions
unfolding shift_down
ids-shift_down r p [] = refl
ids-shift_down r p (a ∷ actions) = ground (arith, ids-shift_down r p actions)

pub count-ids-without :
    (k id : ℕ) (actions : List Action) → count k (ids (without id actions)) ≤ count k (ids actions)
unfolding without rows_where count
count-ids-without k id [] = omega arith
count-ids-without k id (a ∷ actions) = ground (arith, count-ids-without k id actions)

pub length-positions-without :
    (r id : ℕ) (a : Action) (actions : List Action)
    → count id (ids actions) ≤ 1
    → get_action id actions ≡ some a
    → length (positions r (without id actions)) + (if of_routine r a then 1 else 0)
      ≡ length (positions r actions)
unfolding positions without rows_where count first_where
length-positions-without r id a [] u e = cc
length-positions-without r id a (b ∷ actions) u e =
    ground (arith, length-positions-without r id a actions, without_absent id actions)

-- Without a row of another routine the positions stay.
pub positions-without_other :
    (r id : ℕ) (a : Action) (actions : List Action)
    → count id (ids actions) ≤ 1
    → get_action id actions ≡ some a
    → a.routine_id ≢ r
    → positions r (without id actions) ≡ positions r actions
unfolding positions without rows_where count first_where
positions-without_other r id a [] u e h = cc
positions-without_other r id a (b ∷ actions) u e h =
    ground (arith, positions-without_other r id a actions, without_absent id actions)

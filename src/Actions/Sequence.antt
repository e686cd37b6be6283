-- ===== src/Actions/Sequence.antt =====
-- A routine's actions as a sequence of keys by position, and what the UPDATE statements do to it.
use python_fastapi_poc.Prelude.{
  ℕ, suc, ◌+◌, ◌-◌, ◌<◌, ◌≡◌, ◌≢◌, refl, Option, none, some, List, [], ◌∷◌, ◌++◌, ltb, ◌==◌, ◌&&◌,
  if◌then◌else◌, rows_where, arith,
}
use python_fastapi_poc.Models.{Action}
use python_fastapi_poc.Actions.{of_routine, routine_actions, max_position, shift_up, shift_down}

-- The key of a routine's action at a position.
unfoldable pub id_at : ℕ → ℕ → List Action → Option ℕ
id_at r k [] = none
id_at r k (a ∷ actions) =
    let rest = id_at r k actions in if of_routine r a && (a.position == k) then some a.id else rest

-- A sequence with x put in at p, with what stood at p taken out, and with two places exchanged.
abbrev pub inserted : ℕ → ℕ → (ℕ → Option ℕ) → ℕ → Option ℕ
inserted p x s k = if ltb k p then s k else if k == p then some x else s (k - 1)

abbrev pub deleted : ℕ → (ℕ → Option ℕ) → ℕ → Option ℕ
deleted p s k = if ltb k p then s k else s (k + 1)

abbrev pub exchanged : ℕ → ℕ → (ℕ → Option ℕ) → ℕ → Option ℕ
exchanged p q s k = if k == p then s q else if k == q then s p else s k

pub id_at-shift_up :
    (r p k : ℕ) (actions : List Action)
    → id_at r k (shift_up r p actions)
      ≡ (if ltb k p then id_at r k actions else if k == p then none else id_at r (k - 1) actions)
unfolding id_at shift_up
id_at-shift_up r p k [] = ground arith
id_at-shift_up r p k (a ∷ actions) = ground (arith, id_at-shift_up r p k actions)

pub id_at-shift_up_other :
    (r s p k : ℕ) (actions : List Action)
    → r ≢ s
    → id_at s k (shift_up r p actions) ≡ id_at s k actions
unfolding id_at shift_up
id_at-shift_up_other r s p k [] h = refl
id_at-shift_up_other r s p k (a ∷ actions) h = ground (arith, id_at-shift_up_other r s p k actions)

pub id_at-snoc :
    (r k : ℕ) (actions : List Action) (a : Action)
    → id_at r k (actions ++ a ∷ []) ≡ elim (id_at r k actions) [
      | none ↦ if of_routine r a && (a.position == k) then some a.id else none
      | some x ↦ some x
    ]
unfolding id_at
id_at-snoc r k [] a = refl
id_at-snoc r k (b ∷ actions) a = ground (arith, id_at-snoc r k actions a)

-- Above the greatest position there is nothing.
pub id_at-above :
    (r k : ℕ) (actions : List Action)
    → max_position (routine_actions r actions) < k
    → id_at r k actions ≡ none
unfolding id_at max_position routine_actions rows_where
id_at-above r k [] h = refl
id_at-above r k (a ∷ actions) h = ground (arith, id_at-above r k actions)

-- With the gap closed, where p stood once.
pub id_at-shift_down :
    (r p k : ℕ) (actions : List Action)
    → id_at r p actions ≡ none
    → id_at r k (shift_down r p actions)
      ≡ (if ltb k p then id_at r k actions else id_at r (k + 1) actions)
unfolding id_at shift_down
id_at-shift_down r p k [] h = ground arith
id_at-shift_down r p k (a ∷ actions) h = ground (arith, id_at-shift_down r p k actions)

pub id_at-shift_down_other :
    (r s p k : ℕ) (actions : List Action)
    → r ≢ s
    → id_at s k (shift_down r p actions) ≡ id_at s k actions
unfolding id_at shift_down
id_at-shift_down_other r s p k [] h = refl
id_at-shift_down_other r s p k (a ∷ actions) h =
    ground (arith, id_at-shift_down_other r s p k actions)

-- The item of a list at a position, counted from p.
unfoldable pub item_from : ℕ → List ℕ → ℕ → Option ℕ
item_from p [] k = none
item_from p (i ∷ rest) k = let later = item_from (suc p) rest k in if k == p then some i else later

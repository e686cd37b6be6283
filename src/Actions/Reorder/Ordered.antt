-- ===== src/Actions/Reorder/Ordered.antt =====
-- `reorder_actions` gives the actions the positions 1 to n in the order of the ids.
use native.Mathlib.Decide.{ℕ_discrete}
use python_fastapi_poc.Prelude.{
  ℕ, suc, ◌+◌, ◌≤◌, ◌≡◌, ◌≢◌, refl, ap, ◌∙◌, subst, true, List, [], ◌∷◌, map, rows_where, length,
  count, arith,
}
use python_fastapi_poc.Prelude.Counts.{index_from, count-map-index_from, count-map_of_count}
use python_fastapi_poc.Models.{Action}
use python_fastapi_poc.Actions.{routine_actions, set_position, assign_positions, ids_match}
use python_fastapi_poc.Actions.Positions.{positions, ids, IsKeyed, IsContiguous}
use python_fastapi_poc.Actions.Ordered.{IsOrdered}
use python_fastapi_poc.Actions.Reorder.{
  positions-assign_positions, map-pos_after-absent, map-pos_after-present, ids_match-count,
  ids_match-length,
}

ids-set_position : (i p : ℕ) (actions : List Action) → ids (set_position i p actions) ≡ ids actions
unfolding set_position
ids-set_position i p [] = refl
ids-set_position i p (a ∷ actions) = ground (arith, ids-set_position i p actions)

ids-assign_positions :
    (p : ℕ) (order : List ℕ) (actions : List Action)
    → ids (assign_positions p order actions) ≡ ids actions
unfolding assign_positions
ids-assign_positions p [] actions = refl
ids-assign_positions p (i ∷ rest) actions =
    ids-assign_positions (suc p) rest (set_position i p actions) ∙ ids-set_position i p actions

-- The rows of two routines are different rows.
pub count-two_routines :
    (k r s : ℕ) (actions : List Action)
    → r ≢ s
    → count k (ids (routine_actions r actions)) + count k (ids (routine_actions s actions))
      ≤ count k (ids actions)
unfolding routine_actions rows_where count
count-two_routines k r s [] h = omega arith
count-two_routines k r s (a ∷ actions) h = ground (arith, count-two_routines k r s actions)

pub count-routine :
    (k r : ℕ) (actions : List Action)
    → count k (ids (routine_actions r actions)) ≤ count k (ids actions)
unfolding routine_actions rows_where count
count-routine k r [] = omega arith
count-routine k r (a ∷ actions) = ground (arith, count-routine k r actions)

module _ (r : ℕ) (order : List ℕ) (actions : List Action) (h : IsOrdered actions)
    (match : ids_match order (ids (routine_actions r actions)) ≡ true) where
  pub same_items : (k : ℕ) → count k (ids (routine_actions r actions)) ≡ count k order
  same_items =
      ids_match-count order (ids (routine_actions r actions))
        (λ k. omega (arith, count-routine k r actions, h.keyed k)) match

  same_length : length order ≡ length (ids (routine_actions r actions))
  same_length =
      ids_match-length order (ids (routine_actions r actions))
        (λ k. omega (arith, count-routine k r actions, h.keyed k)) match

  pub order-IsKeyed : IsKeyed order
  order-IsKeyed k = omega (arith, same_items k, count-routine k r actions, h.keyed k)

  -- The positions after the loop are the indices of the routine's ids in the order.
  positions-reordered :
      positions r (assign_positions 1 order actions)
      ≡ map (index_from 1 order) (ids (routine_actions r actions))
  positions-reordered =
      positions-assign_positions r 1 order actions
      ∙ map-pos_after-present 1 order (routine_actions r actions)
          (λ k m. omega (arith, same_items k, order-IsKeyed k))

  length-map-index : (xs : List ℕ) → length (map (index_from 1 order) xs) ≡ length xs
  length-map-index [] = refl
  length-map-index (x ∷ xs) = ap suc (length-map-index xs)

  reordered-IsContiguous : IsContiguous (positions r (assign_positions 1 order actions))
  reordered-IsContiguous = rw positions-reordered λ k. ground (
    arith,
    count-map_of_count (index_from 1 order) (ids (routine_actions r actions)) order same_items k,
    count-map-index_from k 1 order order-IsKeyed,
    length-map-index (ids (routine_actions r actions)),
    same_length,
  )

  positions-reordered_other :
      (s : ℕ) → r ≢ s → positions s (assign_positions 1 order actions) ≡ positions s actions
  unfolding positions
  positions-reordered_other s other =
      positions-assign_positions s 1 order actions
      ∙ map-pos_after-absent 1 order (routine_actions s actions)
          (λ k m. omega (arith, same_items k, count-two_routines k r s actions other, h.keyed k))

  pub reordered-IsOrdered : IsOrdered (assign_positions 1 order actions)
  reordered-IsOrdered = record {
    keyed = rw (ids-assign_positions 1 order actions) h.keyed;
    contiguous = λ s. elim (ℕ_discrete r s) [
      | yes own ↦
          subst (λ (t : ℕ). IsContiguous (positions t (assign_positions 1 order actions))) own
            reordered-IsContiguous
      | no other ↦ rw (positions-reordered_other s other) (h.contiguous s)
    ];
  }

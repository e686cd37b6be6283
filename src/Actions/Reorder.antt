-- ===== src/Actions/Reorder.antt =====
-- What `reorder_actions` commits.
pub mod Ordered
pub mod Request
pub mod Refined
use native.Mathlib.Decide.{ℕ_discrete}
use python_fastapi_poc.Prelude.{
  ℕ, suc, ◌+◌, ◌≤◌, ◌≡◌, ◌≢◌, refl, ap, ◌∙◌, sym, subst, ◌⊎◌, inl, inr, Bool, true, false, List, [],
  ◌∷◌, map, ◌==◌, ◌&&◌, leb, any, all, ==_iff, rows_where, if◌then◌else◌, length, count, arith,
  Option, some, Bool-cases,
}
use python_fastapi_poc.Prelude.Counts.{
  index_from, count-map-index_from, count-eq_of_le, count-map_of_count,
}
use python_fastapi_poc.Models.{Routine, Action, Db}
use python_fastapi_poc.Env.{Env}
use python_fastapi_poc.Session.{
  World, Exec, modify, select, commit, guard, value_error, action_ids_mismatch, pure, ◌>>=◌, ◌>>◌,
  with_session,
}
use python_fastapi_poc.Session.Commits.{
  Commits, Reads, bind-Commits, finish-Commits, Reads-bind, Reads-select, Reads-refresh, select-ok,
}
use python_fastapi_poc.Actions.{
  on_actions, of_routine, routine_actions, set_position, assign_positions, distinct, subset,
  ids_match, reload_actions, refresh_action, sort_by_position, reorder_actions,
}
use python_fastapi_poc.Actions.Positions.{positions, ids, IsKeyed, IsContiguous}
use python_fastapi_poc.Actions.Ordered.{IsOrdered}

-- The position of one row after the loop over the ids.
pub pos_after : ℕ → List ℕ → ℕ → ℕ → ℕ
pos_after p [] id old = old
pos_after p (i ∷ rest) id old = pos_after (suc p) rest id (if id == i then p else old)

after_first :
    (r p i : ℕ) (rest : List ℕ) (actions : List Action)
    → map
        (λ a. pos_after (suc p) rest a.id a.position)
        (routine_actions r (set_position i p actions))
      ≡ map (λ a. pos_after p (i ∷ rest) a.id a.position) (routine_actions r actions)
unfolding routine_actions rows_where set_position pos_after
after_first r p i rest [] = refl
after_first r p i rest (a ∷ actions) = ground (arith, after_first r p i rest actions)

pub positions-assign_positions :
    (r p : ℕ) (order : List ℕ) (actions : List Action)
    → positions r (assign_positions p order actions)
      ≡ map (λ a. pos_after p order a.id a.position) (routine_actions r actions)
unfolding positions assign_positions pos_after
positions-assign_positions r p [] actions = refl
positions-assign_positions r p (i ∷ rest) actions =
    positions-assign_positions r (suc p) rest (set_position i p actions)
    ∙ after_first r p i rest actions

pos_after-absent :
    (p id old : ℕ) (order : List ℕ) → count id order ≡ 0 → pos_after p order id old ≡ old
unfolding pos_after count
pos_after-absent p id old [] h = refl
pos_after-absent p id old (i ∷ rest) h = ground (arith, pos_after-absent (suc p) id old rest)

pos_after-present :
    (p id old : ℕ) (order : List ℕ)
    → count id order ≡ 1
    → pos_after p order id old ≡ index_from p order id
unfolding pos_after count index_from
pos_after-present p id old [] h = ground arith
pos_after-present p id old (i ∷ rest) h =
    ground (arith, pos_after-present (suc p) id old rest, pos_after-absent (suc p) id p rest)

pub map-pos_after-absent :
    (p : ℕ) (order : List ℕ) (rows : List Action)
    → ((k : ℕ) → 1 ≤ count k (ids rows) → count k order ≡ 0)
    → map (λ a. pos_after p order a.id a.position) rows ≡ map (λ a. a.position) rows
unfolding count
map-pos_after-absent p order [] h = refl
map-pos_after-absent p order (a ∷ rows) h = ground (
  arith,
  pos_after-absent p a.id a.position order (h a.id (ground arith)),
  map-pos_after-absent p order rows (λ k m. h k (ground arith)),
)

pub map-pos_after-present :
    (p : ℕ) (order : List ℕ) (rows : List Action)
    → ((k : ℕ) → 1 ≤ count k (ids rows) → count k order ≡ 1)
    → map (λ a. pos_after p order a.id a.position) rows ≡ map (index_from p order) (ids rows)
unfolding count
map-pos_after-present p order [] h = refl
map-pos_after-present p order (a ∷ rows) h = ground (
  arith,
  pos_after-present p a.id a.position order (h a.id (ground arith)),
  map-pos_after-present p order rows (λ k m. h k (ground arith)),
)

-- The two tests on ids, read as counts.
any-eq-count : (x : ℕ) (xs : List ℕ) → any (λ y. x == y) xs ≡ leb 1 (count x xs)
unfolding any count
any-eq-count x [] = refl
any-eq-count x (y ∷ xs) = ground (arith, any-eq-count x xs)

distinct-keyed : (keys : List ℕ) → IsKeyed keys → distinct keys ≡ keys
unfolding distinct count
distinct-keyed [] h = refl
distinct-keyed (x ∷ keys) h =
    ground (arith, distinct-keyed keys (λ k. ground (arith, h k)), any-eq-count x keys, h x)

subset-count : (k : ℕ) (xs ys : List ℕ) → subset xs ys ≡ true → 1 ≤ count k xs → 1 ≤ count k ys
unfolding subset all count
subset-count k [] ys h m = omega arith
subset-count k (x ∷ xs) ys h m = ground (arith, subset-count k xs ys, any-eq-count x ys)

-- Ids that match the routine's are a permutation of them.
pub ids_match-count :
    (order keys : List ℕ)
    → IsKeyed keys
    → ids_match order keys ≡ true
    → (k : ℕ) → count k keys ≡ count k order
unfolding ids_match
ids_match-count order keys h match =
    count-eq_of_le keys order (λ k. ground (arith, h k, subset-count k keys order))
      (ground (arith, distinct-keyed keys h))

-- Ids that match are as many as the routine's.
pub ids_match-length :
    (order keys : List ℕ) → IsKeyed keys → ids_match order keys ≡ true → length order ≡ length keys
unfolding ids_match
ids_match-length order keys h match = ground (arith, distinct-keyed keys h)

-- ===== src/Actions/Update/Ordered.antt =====
-- `update_action` keeps the table ordered: a swap exchanges two positions of one routine.
use python_fastapi_poc.Prelude.{
  ℕ, ◌+◌, ◌≤◌, ◌≡◌, refl, ◌∙◌, inl, inr, Bool, true, false, List, [], ◌∷◌, ◌==◌, ◌&&◌, rows_where,
  first_where, if◌then◌else◌, length, count, arith, Option, some, ℤ, pos, negsuc, pos_part,
}
use python_fastapi_poc.Domain.{ActionType, JsonObject}
use python_fastapi_poc.Models.{Action, Db}
use python_fastapi_poc.Env.{Env}
use python_fastapi_poc.Schemas.{ActionUpdate}
use python_fastapi_poc.Session.{World, with_session}
use python_fastapi_poc.Actions.{
  of_routine, routine_actions, occupants, set_position, set_content, update_action,
}
use python_fastapi_poc.Actions.Positions.{positions, ids, IsKeyed, get_action}
use python_fastapi_poc.Actions.Ordered.{IsOrdered}
use python_fastapi_poc.Actions.Update.{
  Updated, Moved, kept, swap, swapped, next_type, next_config, update_action-Commits,
}

ids-set_position : (i p : ℕ) (actions : List Action) → ids (set_position i p actions) ≡ ids actions
unfolding set_position
ids-set_position i p [] = refl
ids-set_position i p (a ∷ actions) = ground (arith, ids-set_position i p actions)

set_position-absent :
    (i p : ℕ) (actions : List Action)
    → count i (ids actions) ≡ 0
    → set_position i p actions ≡ actions
unfolding set_position count
set_position-absent i p [] h = refl
set_position-absent i p (a ∷ actions) h = ground (arith, set_position-absent i p actions)

-- Writing one row's position exchanges one position of its routine.
count-set_position :
    (r k p i : ℕ) (a : Action) (actions : List Action)
    → count i (ids actions) ≤ 1
    → get_action i actions ≡ some a
    → count k (positions r (set_position i p actions))
        + (if of_routine r a && (a.position == k) then 1 else 0)
      ≡ count k (positions r actions) + (if of_routine r a && (p == k) then 1 else 0)
unfolding positions routine_actions rows_where count first_where set_position
count-set_position r k p i a [] u e = cc
count-set_position r k p i a (b ∷ actions) u e =
    ground (arith, count-set_position r k p i a actions, set_position-absent i p actions)

length-positions-set_position :
    (r p i : ℕ) (actions : List Action)
    → length (positions r (set_position i p actions)) ≡ length (positions r actions)
unfolding positions routine_actions rows_where set_position
length-positions-set_position r p i [] = refl
length-positions-set_position r p i (b ∷ actions) =
    ground (arith, length-positions-set_position r p i actions)

-- Another row is found as before.
get-set_position_other :
    (i j p : ℕ) (actions : List Action)
    → (j == i) ≡ false
    → get_action j (set_position i p actions) ≡ get_action j actions
unfolding first_where set_position
get-set_position_other i j p [] h = refl
get-set_position_other i j p (b ∷ actions) h = ground (arith, get-set_position_other i j p actions)

-- The only row that a test finds has its key in the table, passes the test, and is the row of its
-- key.
module _ (test : Action → Bool) where
  only-count :
      (b : Action) (actions : List Action)
      → rows_where test actions ≡ b ∷ []
      → 1 ≤ count b.id (ids actions)
  unfolding rows_where count
  only-count b [] h = ground arith
  only-count b (x ∷ actions) h = ground (arith, only-count b actions)

  only-get :
      (b : Action) (actions : List Action)
      → IsKeyed (ids actions)
      → rows_where test actions ≡ b ∷ []
      → (get_action b.id actions ≡ some b) × (test b ≡ true)
  unfolding rows_where first_where count
  only-get b [] k h = ground arith
  only-get b (x ∷ actions) k h =
      ground (arith, only-get b actions (λ j. ground (arith, k j)), only-count b actions, k b.id)

-- What an occupant is: another row of the routine, at the position asked for.
record IsOccupant (a : Action) (new_pos : ℤ) (b : Action) : Type 0 where
  same_routine : b.routine_id ≡ a.routine_id
  there : pos_part new_pos ≡ b.position
  another : (b.id == a.id) ≡ false

occupants-IsOccupant :
    (a : Action) (new_pos : ℤ) (b : Action) (actions : List Action)
    → IsKeyed (ids actions)
    → occupants a new_pos actions ≡ b ∷ []
    → (get_action b.id actions ≡ some b) × IsOccupant a new_pos b
unfolding occupants
occupants-IsOccupant a (pos p) b actions k h =
    let (found, test) = only-get _ b actions k h in
    (found, record { same_routine = ground arith; there = ground arith; another = ground arith })
occupants-IsOccupant a (negsuc p) b actions k h =
    let (found, test) = only-get _ b actions k h in absurd (ground arith)

module _ (a : Action) (new_pos : ℤ) (b : Action) (actions : List Action) (h : IsOrdered actions)
    (found : get_action a.id actions ≡ some a) (one : occupants a new_pos actions ≡ b ∷ []) where
  count-swapped :
      (r k : ℕ)
      → count k (positions r (swapped a new_pos b actions)) ≡ count k (positions r actions)
  count-swapped r k =
      let (found_b, o) = occupants-IsOccupant a new_pos b actions h.keyed one in
      let first = set_position a.id (pos_part new_pos) actions in
      ground (
        arith,
        count-set_position r k (pos_part new_pos) a.id a actions (h.keyed a.id) found,
        count-set_position r k a.position b.id b first
            (rw (ids-set_position a.id (pos_part new_pos) actions) (h.keyed b.id))
            (get-set_position_other a.id b.id (pos_part new_pos) actions o.another ∙ found_b),
      )

  length-swapped :
      (r : ℕ) → length (positions r (swapped a new_pos b actions)) ≡ length (positions r actions)
  length-swapped r =
      length-positions-set_position r a.position b.id (set_position a.id (pos_part new_pos) actions)
      ∙ length-positions-set_position r (pos_part new_pos) a.id actions

  swapped-IsOrdered : IsOrdered (swapped a new_pos b actions)
  swapped-IsOrdered = record {
    keyed =
        rw (ids-set_position b.id a.position (set_position a.id (pos_part new_pos) actions))
          (rw (ids-set_position a.id (pos_part new_pos) actions) h.keyed);
    contiguous = λ r k. rw (count-swapped r k) (rw (length-swapped r) (h.contiguous r k));
  }

Moved-IsOrdered :
    {a : Action} {before after : Db} {asked : Option ℤ}
    → get_action a.id before.actions ≡ some a
    → IsOrdered before.actions
    → Moved a before after asked
    → IsOrdered after.actions
Moved-IsOrdered found h (kept same) = rw same h
Moved-IsOrdered {a} {before} found h (swap new_pos b one rows) =
    rw rows (swapped-IsOrdered a new_pos b before.actions h found one)

positions-set_content :
    (r id : ℕ) (t : ActionType) (c : JsonObject) (actions : List Action)
    → positions r (set_content id t c actions) ≡ positions r actions
unfolding positions routine_actions rows_where set_content
positions-set_content r id t c [] = refl
positions-set_content r id t c (b ∷ actions) =
    ground (arith, positions-set_content r id t c actions)

ids-set_content :
    (id : ℕ) (t : ActionType) (c : JsonObject) (actions : List Action)
    → ids (set_content id t c actions) ≡ ids actions
unfolding set_content
ids-set_content id t c [] = refl
ids-set_content id t c (b ∷ actions) = ground (arith, ids-set_content id t c actions)

content-IsOrdered :
    (id : ℕ) (t : ActionType) (c : JsonObject) (actions : List Action)
    → IsOrdered actions
    → IsOrdered (set_content id t c actions)
content-IsOrdered id t c actions h = record {
  keyed = rw (ids-set_content id t c actions) h.keyed;
  contiguous = λ r. rw (positions-set_content r id t c actions) (h.contiguous r);
}

pub Updated-IsOrdered :
    {a : Action} {payload : ActionUpdate} {before after : Db}
    → get_action a.id before.actions ≡ some a
    → IsOrdered before.actions
    → Updated a payload before after
    → IsOrdered after.actions
Updated-IsOrdered {a} {payload} found h done = rw done.rows (
    content-IsOrdered a.id (next_type a payload) (next_config a payload) _
      (Moved-IsOrdered found h done.swap_done))

module _ (env : Env) where
  -- A request that updates a stored action leaves an ordered table ordered, on every outcome.
  pub update_action-IsOrdered :
      (a : Action) (payload : ActionUpdate) (w : World)
      → get_action a.id w.committed.actions ≡ some a
      → IsOrdered w.committed.actions
      → IsOrdered (with_session (update_action env a payload) w).1.committed.actions
  unfolding with_session
  update_action-IsOrdered a payload w found h =
      elim (update_action-Commits env a payload (record w { working = w.committed })) [
        | inl (e, raised, same) ↦ rw same h
        | inr done ↦ Updated-IsOrdered found h done
      ]

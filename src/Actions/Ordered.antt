-- ===== src/Actions/Ordered.antt =====
-- The invariant of the `actions` table: keys are unique, and each routine's positions are 1 to n.
-- What an operation commits keeps it, whatever the operation's outcome.
use mathlib.Core.List.{Mem, mem-cons_self, mem-cons_of_mem}
use native.Mathlib.Decide.{ℕ_discrete}
use python_fastapi_poc.Prelude.{
  ℕ, ◌+◌, ◌≡◌, ◌≢◌, Bool-cases, ==_iff, refl, ap, ◌∙◌, sym, subst, inl, inr, List, [], ◌∷◌, ◌++◌,
  ◌==◌, rows_where, length, count, count-append, length-append, arith, ℤ, pos, negsuc, pos_part,
  Option, none, some,
}
use python_fastapi_poc.Models.{Action, Db}
use python_fastapi_poc.Env.{Env}
use python_fastapi_poc.Schemas.{ActionCreate}
use python_fastapi_poc.Session.{World, with_session}
use python_fastapi_poc.Actions.{routine_actions, shift_up, create_action}
use python_fastapi_poc.Actions.Positions.{
  positions, ids, IsKeyed, IsContiguous, IsContiguous-insert, length-map-position,
  max_position-contiguous, positions-shift_up, ids-shift_up,
}
use python_fastapi_poc.Actions.Create.{
  Created, slot, room, new_row, next_position, create_action-Commits,
}

pub record IsOrdered (actions : List Action) : Type 0 where
  pub keyed : IsKeyed (ids actions)
  pub contiguous : (r : ℕ) → IsContiguous (positions r actions)

count-fresh : (k : ℕ) (keys : List ℕ) → ¬ Mem k keys → count k keys ≡ 0
unfolding count
count-fresh k [] h = refl
count-fresh k (x ∷ keys) h = elim (Bool-cases (x == k)) [
  | inl same ↦ absurd (h (subst (λ y. Mem y (x ∷ keys)) ((==_iff x k).0 same) mem-cons_self))
  | inr other ↦ rw other (count-fresh k keys (λ m. h (mem-cons_of_mem x m)))
]

IsKeyed-snoc : (k : ℕ) (keys : List ℕ) → IsKeyed keys → ¬ Mem k keys → IsKeyed (keys ++ k ∷ [])
unfolding count
IsKeyed-snoc k keys h fresh j =
    ground (arith, count-append j keys (k ∷ []), count-fresh k keys fresh, h j)

ids-append : (xs ys : List Action) → ids (xs ++ ys) ≡ ids xs ++ ids ys
ids-append [] ys = refl
ids-append (x ∷ xs) ys = ap (λ l. x.id ∷ l) (ids-append xs ys)

ids-room :
    (r : ℕ) (asked : Option ℤ) (actions : List Action) → ids (room r asked actions) ≡ ids actions
ids-room r none actions = refl
ids-room r (some p) actions = ids-shift_up r (pos_part p) actions

-- A routine's new row comes last among its positions.
positions-snoc_own :
    (r : ℕ) (actions : List Action) (a : Action)
    → a.routine_id ≡ r
    → positions r (actions ++ a ∷ []) ≡ positions r actions ++ a.position ∷ []
unfolding positions rows_where
positions-snoc_own r [] a h = ground arith
positions-snoc_own r (b ∷ actions) a h = ground (arith, positions-snoc_own r actions a)

-- A row of another routine changes nothing of a routine's positions.
positions-snoc_other :
    (r : ℕ) (actions : List Action) (a : Action)
    → a.routine_id ≢ r
    → positions r (actions ++ a ∷ []) ≡ positions r actions
unfolding positions rows_where
positions-snoc_other r [] a h = ground arith
positions-snoc_other r (b ∷ actions) a h = ground (arith, positions-snoc_other r actions a)

positions-shift_up_other :
    (r s p : ℕ) (actions : List Action)
    → r ≢ s
    → positions s (shift_up r p actions) ≡ positions s actions
unfolding positions shift_up rows_where
positions-shift_up_other r s p [] h = refl
positions-shift_up_other r s p (a ∷ actions) h =
    ground (arith, positions-shift_up_other r s p actions)

IsContiguous-snoc : (ps : List ℕ) → IsContiguous ps → IsContiguous (ps ++ (length ps + 1) ∷ [])
unfolding count
IsContiguous-snoc ps h k =
    ground (
      arith,
      count-append k ps ((length ps + 1) ∷ []),
      length-append ps ((length ps + 1) ∷ []),
      h k,
    )

-- The next position of contiguous ones is their number plus one.
next_position-contiguous :
    (r : ℕ) (actions : List Action)
    → IsContiguous (positions r actions)
    → next_position r actions ≡ length (positions r actions) + 1
unfolding positions
next_position-contiguous r actions h = ground (
  arith,
  max_position-contiguous (routine_actions r actions) h,
  length-map-position (routine_actions r actions),
)

insert-IsContiguous :
    (r position : ℕ) (asked : Option ℤ) (actions : List Action)
    → IsContiguous (positions r actions)
    → slot (next_position r actions) asked ≡ some position
    → IsContiguous (positions r (room r asked actions) ++ position ∷ [])
insert-IsContiguous r position none actions h e =
    subst (λ (p : ℕ). IsContiguous (positions r actions ++ p ∷ []))
      (ground (arith, next_position-contiguous r actions h)) (IsContiguous-snoc _ h)
insert-IsContiguous r position (some (negsuc p)) actions h e = cc
insert-IsContiguous r position (some (pos p)) actions h e =
    let same : p ≡ position = ground arith in
    subst (λ (q : ℕ). IsContiguous (positions r (shift_up r p actions) ++ q ∷ [])) same
      (rw (positions-shift_up r p actions) (
        IsContiguous-insert p (positions r actions) h (ground arith)
          (ground (arith, next_position-contiguous r actions h))))

positions-room_other :
    (r s : ℕ) (asked : Option ℤ) (actions : List Action)
    → r ≢ s
    → positions s (room r asked actions) ≡ positions s actions
positions-room_other r s none actions h = refl
positions-room_other r s (some p) actions h = positions-shift_up_other r s (pos_part p) actions h

inserted-IsContiguous :
    (r s : ℕ) (asked : Option ℤ) (actions : List Action) (a : Action)
    → a.routine_id ≡ r
    → ((t : ℕ) → IsContiguous (positions t actions))
    → slot (next_position r actions) asked ≡ some a.position
    → IsContiguous (positions s (room r asked actions ++ a ∷ []))
inserted-IsContiguous r s asked actions a own h e = elim (ℕ_discrete r s) [
  | yes same ↦ rw (positions-snoc_own s (room r asked actions) a (own ∙ same)) (
      subst (λ (t : ℕ). IsContiguous (positions t (room r asked actions) ++ a.position ∷ [])) same
        (insert-IsContiguous r a.position asked actions (h r) e))
  | no other ↦
      rw (positions-snoc_other s (room r asked actions) a (λ q. other (sym own ∙ q)))
        (rw (positions-room_other r s asked actions other) (h s))
]

inserted-IsKeyed :
    (r : ℕ) (asked : Option ℤ) (actions : List Action) (a : Action)
    → IsKeyed (ids actions)
    → ¬ Mem a.id (ids actions)
    → IsKeyed (ids (room r asked actions ++ a ∷ []))
inserted-IsKeyed r asked actions a h fresh =
    rw (ids-append (room r asked actions) (a ∷ []))
      (rw (ids-room r asked actions) (IsKeyed-snoc a.id (ids actions) h fresh))

pub Created-IsOrdered :
    {r : ℕ} {payload : ActionCreate} {before after : Db}
    → IsOrdered before.actions
    → Created r payload before after
    → IsOrdered after.actions
Created-IsOrdered {r} {payload} {before} {after} h c =
    let row = new_row c.id r c.position payload in
    subst (λ (db : Db). IsOrdered db.actions) (sym c.rows)
      record {
        keyed = inserted-IsKeyed r payload.position before.actions row h.keyed c.fresh;
        contiguous = λ s.
            inserted-IsContiguous r s payload.position before.actions row refl h.contiguous
              c.in_slot;
      }

module _ (env : Env) where
  -- A request that creates an action leaves an ordered table ordered, on every outcome.
  pub create_action-IsOrdered :
      (r : ℕ) (payload : ActionCreate) (w : World)
      → IsOrdered w.committed.actions
      → IsOrdered (with_session (create_action env r payload) w).1.committed.actions
  unfolding with_session
  create_action-IsOrdered r payload w h =
      elim (create_action-Commits env r payload (record w { working = w.committed })) [
        | inl (e, raised, same) ↦ rw same h
        | inr c ↦ Created-IsOrdered h c
      ]

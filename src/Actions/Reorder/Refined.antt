-- ===== src/Actions/Reorder/Refined.antt =====
-- `reorder_actions`, as a change of the routine's sequence.
use python_fastapi_poc.Prelude.{
  ℕ, suc, ◌≤◌, ◌<◌, ◌≡◌, ◌≢◌, ◌⊎◌, refl, sym, ap, ◌∙◌, inl, inr, subst, true, Bool-cases, Option,
  none, some, List, [], ◌∷◌, ◌==◌, if◌then◌else◌, rows_where, arith, count, ==_iff,
}
use python_fastapi_poc.Prelude.Counts.{index_from}
use python_fastapi_poc.Models.{Routine, Action, Db}
use python_fastapi_poc.Env.{Env}
use python_fastapi_poc.Session.{World}
use python_fastapi_poc.Session.Commits.{Commits}
use python_fastapi_poc.Actions.{
  routine_actions, set_position, assign_positions, ids_match, reorder_actions,
}
use python_fastapi_poc.Actions.Positions.{ids, IsKeyed}
use python_fastapi_poc.Actions.Ordered.{IsOrdered}
use python_fastapi_poc.Actions.Sequence.{id_at, item_from}
use python_fastapi_poc.Actions.Reorder.{pos_after, pos_after-absent, pos_after-present}
use python_fastapi_poc.Actions.Reorder.Request.{reorder_actions-Commits}
use python_fastapi_poc.Actions.Reorder.Ordered.{same_items, order-IsKeyed, count-two_routines}

-- The key of the first row that is to stand at k.
first_at : (Action → ℕ) → ℕ → List Action → Option ℕ
first_at place k [] = none
first_at place k (a ∷ rows) =
    let rest = first_at place k rows in if place a == k then some a.id else rest

id_at-first_at :
    (r k : ℕ) (actions : List Action)
    → id_at r k actions ≡ first_at (λ a. a.position) k (routine_actions r actions)
unfolding id_at first_at routine_actions rows_where
id_at-first_at r k [] = refl
id_at-first_at r k (a ∷ actions) = ground (arith, id_at-first_at r k actions)

first_at-set_position :
    (r k p i : ℕ) (rest : List ℕ) (actions : List Action)
    → first_at
        (λ a. pos_after (suc p) rest a.id a.position)
        k
        (routine_actions r (set_position i p actions))
      ≡ first_at (λ a. pos_after p (i ∷ rest) a.id a.position) k (routine_actions r actions)
unfolding first_at routine_actions rows_where set_position pos_after
first_at-set_position r k p i rest [] = refl
first_at-set_position r k p i rest (a ∷ actions) =
    ground (arith, first_at-set_position r k p i rest actions)

-- After the loop, a row stands where its last assignment puts it.
id_at-assign_positions :
    (r k p : ℕ) (order : List ℕ) (actions : List Action)
    → id_at r k (assign_positions p order actions)
      ≡ first_at (λ a. pos_after p order a.id a.position) k (routine_actions r actions)
unfolding assign_positions pos_after
id_at-assign_positions r k p [] actions = id_at-first_at r k actions
id_at-assign_positions r k p (i ∷ rest) actions =
    id_at-assign_positions r k (suc p) rest (set_position i p actions)
    ∙ first_at-set_position r k p i rest actions

first_at-absent :
    (k p : ℕ) (order : List ℕ) (rows : List Action)
    → ((j : ℕ) → 1 ≤ count j (ids rows) → count j order ≡ 0)
    → first_at (λ a. pos_after p order a.id a.position) k rows ≡ first_at (λ a. a.position) k rows
unfolding first_at count
first_at-absent k p order [] h = refl
first_at-absent k p order (a ∷ rows) h = ground (
  arith,
  pos_after-absent p a.id a.position order (h a.id (ground arith)),
  first_at-absent k p order rows (λ j m. h j (ground arith)),
)

-- Items and indices.
index_from-ge : (p x : ℕ) (order : List ℕ) → p ≤ index_from p order x
unfolding index_from
index_from-ge p x [] = ground arith
index_from-ge p x (i ∷ rest) = ground (arith, index_from-ge (suc p) x rest)

item-index :
    (p x : ℕ) (order : List ℕ)
    → 1 ≤ count x order
    → item_from p order (index_from p order x) ≡ some x
unfolding item_from index_from count
item-index p x [] h = ground arith
item-index p x (i ∷ rest) h =
    ground (arith, item-index (suc p) x rest, index_from-ge (suc p) x rest)

item_from-below : (p k : ℕ) (order : List ℕ) → k < p → item_from p order k ≡ none
unfolding item_from
item_from-below p k [] h = refl
item_from-below p k (i ∷ rest) h = ground (arith, item_from-below (suc p) k rest)

-- In a list without repetitions, the index of the item at k is k.
index-item :
    (p k x : ℕ) (order : List ℕ)
    → IsKeyed order
    → item_from p order k ≡ some x
    → (index_from p order x ≡ k) × (1 ≤ count x order)
unfolding item_from index_from count
index-item p k x [] u h = ground arith
index-item p k x (i ∷ rest) u h = ground (
  arith,
  index-item (suc p) k x rest (λ j. let c = u j in ground arith),
  u i,
  item_from-below (suc p) p rest,
)

-- Rows that all have a place in the order stand as the order says.
first_at-order :
    (k p : ℕ) (order : List ℕ) (item : Option ℕ) (rows : List Action)
    → item_from p order k ≡ item
    → IsKeyed order
    → ((j : ℕ) → 1 ≤ count j (ids rows) → count j order ≡ 1)
    → (first_at (λ a. pos_after p order a.id a.position) k rows ≡ none)
      ⊎ (first_at (λ a. pos_after p order a.id a.position) k rows ≡ item)
unfolding first_at count
first_at-order k p order item [] e u h = inl refl
first_at-order k p order item (a ∷ rows) e u h =
    let place = pos_after-present p a.id a.position order (h a.id (ground arith)) in
    elim (Bool-cases (pos_after p order a.id a.position == k)) [
      | inr elsewhere ↦
          rw elsewhere (first_at-order k p order item rows e u (λ j m. h j (ground arith)))
      | inl here ↦
          let there : item_from p order k ≡ some a.id =
            subst (λ j. item_from p order j ≡ some a.id)
              (sym place ∙ (==_iff (pos_after p order a.id a.position) k).0 here)
              (item-index p a.id order (let c = h a.id (ground arith) in ground arith)) in
          rw here (inr (sym there ∙ e))
    ]

-- And one that is in the order is found.
first_at-found :
    (k p x : ℕ) (order : List ℕ) (rows : List Action)
    → index_from p order x ≡ k
    → 1 ≤ count x (ids rows)
    → ((j : ℕ) → 1 ≤ count j (ids rows) → count j order ≡ 1)
    → first_at (λ a. pos_after p order a.id a.position) k rows ≢ none
unfolding first_at count
first_at-found k p x order [] e m h none_found = ground arith
first_at-found k p x order (a ∷ rows) e m h none_found =
    let place = pos_after-present p a.id a.position order (h a.id (ground arith)) in
    elim (Bool-cases (pos_after p order a.id a.position == k)) [
      | inl here ↦ ground arith
      | inr elsewhere ↦ elim (Bool-cases (a.id == x)) [
        | inl same ↦ ground (arith, place, ap (index_from p order) ((==_iff a.id x).0 same))
        | inr other ↦
            first_at-found k p x order rows e (ground arith) (λ j l. h j (ground arith))
              (ground arith)
      ]
    ]

first_at-item :
    (k : ℕ) (order : List ℕ) (item : Option ℕ) (rows : List Action)
    → item_from 1 order k ≡ item
    → IsKeyed order
    → ((j : ℕ) → count j (ids rows) ≡ count j order)
    → ((j : ℕ) → 1 ≤ count j (ids rows) → count j order ≡ 1)
    → first_at (λ a. pos_after 1 order a.id a.position) k rows ≡ item
first_at-item k order none rows e u same h = elim (first_at-order k 1 order none rows e u h) [
  | inl nowhere ↦ nowhere
  | inr there ↦ there
]
first_at-item k order (some x) rows e u same h =
    elim (first_at-order k 1 order (some x) rows e u h) [
      | inl nowhere ↦
          let (place, listed) = index-item 1 k x order u e in
          absurd (first_at-found k 1 x order rows place (ground (arith, same x)) h nowhere)
      | inr there ↦ there
    ]

module _ (r : ℕ) (order : List ℕ) (actions : List Action) (h : IsOrdered actions)
    (match : ids_match order (ids (routine_actions r actions)) ≡ true) where
  reordered-items : (k : ℕ) → id_at r k (assign_positions 1 order actions) ≡ item_from 1 order k
  reordered-items k =
      let same = same_items r order actions h match in
      let u = order-IsKeyed r order actions h match in
      id_at-assign_positions r k 1 order actions
      ∙ first_at-item k order (item_from 1 order k) (routine_actions r actions) refl u same
          λ j m. let c = u j in let d = same j in ground arith

  reordered_others :
      (s k : ℕ) → r ≢ s → id_at s k (assign_positions 1 order actions) ≡ id_at s k actions
  reordered_others s k other =
      id_at-assign_positions s k 1 order actions
      ∙ first_at-absent k 1 order (routine_actions s actions) (λ j m. omega (
        arith,
        same_items r order actions h match j,
        count-two_routines j r s actions other,
        h.keyed j,
      ))
      ∙ sym (id_at-first_at s k actions)

module _ (env : Env) where
  -- On an ordered table, `reorder_actions` commits the sequence that the ids spell, from position 1
  -- on, and the sequences of the other routines as they were, or it raises and commits nothing.
  pub reorder_actions-items :
      (routine : Routine) (order : List ℕ) (w : World)
      → IsOrdered w.working.actions
      → Commits w.committed
          (λ after.
            (s k : ℕ)
            → id_at s k after.actions
              ≡ (if s == routine.id then item_from 1 order k else id_at s k w.working.actions))
          (reorder_actions env routine order w)
  reorder_actions-items routine order w h = elim (reorder_actions-Commits env routine order w) [
    | inl raised ↦ inl raised
    | inr done ↦ inr λ s k.
        ap (λ (db : Db). id_at s k db.actions) done.rows ∙ (elim (Bool-cases (s == routine.id)) [
          | inl own ↦ rw own (
              subst
                (λ t. id_at t k (assign_positions 1 order w.working.actions) ≡ item_from 1 order k)
                (sym ((==_iff s routine.id).0 own))
                (reordered-items routine.id order w.working.actions h done.accepted k))
          | inr other ↦ rw other (
              reordered_others routine.id order w.working.actions h done.accepted s k
                (ground arith))
        ])
  ]

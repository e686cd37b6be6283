-- ===== src/Actions/Refined.antt =====
-- The operations on actions, as operations on the routine's sequence.
use mathlib.Core.List.{Mem}
use python_fastapi_poc.Prelude.{
  ℕ, ◌+◌, ◌-◌, ◌≤◌, ◌≡◌, refl, sym, ap, ◌∙◌, inl, inr, subst, Bool-cases, Option, none, some, List,
  [], ◌∷◌, ◌++◌, ◌==◌, ◌&&◌, if◌then◌else◌, rows_where, arith, first_where, count, ℤ, pos, negsuc,
  pos_part, ==_iff,
}
use python_fastapi_poc.Models.{Action, Db}
use python_fastapi_poc.Env.{Env}
use python_fastapi_poc.Schemas.{ActionCreate}
use python_fastapi_poc.Session.{World}
use python_fastapi_poc.Session.Commits.{Commits}
use python_fastapi_poc.Actions.{
  of_routine, routine_actions, shift_up, without, in_range, create_action, delete_action,
}
use python_fastapi_poc.Actions.Positions.{ids, positions, get_action, without_absent, count-without}
use python_fastapi_poc.Actions.Ordered.{IsOrdered}
use python_fastapi_poc.Actions.Create.{room, new_row, slot, next_position, create_action-Commits}
use python_fastapi_poc.Actions.Delete.{removed, delete_action-Commits}
use python_fastapi_poc.Actions.Sequence.{
  id_at, inserted, deleted, id_at-shift_up, id_at-shift_up_other, id_at-snoc, id_at-above,
  id_at-shift_down, id_at-shift_down_other,
}

-- The sequences of all routines after a change of one.
abbrev pub Changed : ℕ → ((ℕ → Option ℕ) → ℕ → Option ℕ) → List Action → List Action → Type 0
Changed r change before after =
    (s k : ℕ)
    → id_at s k after ≡ (if s == r then change (λ j. id_at s j before) k else id_at s k before)

in_range_of :
    (next position : ℕ) (asked : ℤ)
    → in_range next asked ≡ some position
    → pos_part asked ≡ position
in_range_of next position (pos p) h = ground arith
in_range_of next position (negsuc p) h = ground arith

inserted-shift_up :
    (r id p : ℕ) (payload : ActionCreate) (actions : List Action)
    → Changed r (inserted p id) actions (shift_up r p actions ++ new_row id r p payload ∷ [])
inserted-shift_up r id p payload actions s k = elim (Bool-cases (s == r)) [
  | inl own ↦
      let same = (==_iff s r).0 own in
      rw own (
        subst
          (λ t.
            id_at t k (shift_up r p actions ++ new_row id r p payload ∷ [])
            ≡ inserted p id (λ j. id_at t j actions) k)
          (sym same)
          (ground (
            arith,
            id_at-snoc r k (shift_up r p actions) (new_row id r p payload),
            id_at-shift_up r p k actions,
          )))
  | inr other ↦ rw other (
      ground (
        arith,
        id_at-snoc s k (shift_up r p actions) (new_row id r p payload),
        id_at-shift_up_other r s p k actions,
      ))
]

inserted-room :
    (r id position : ℕ) (asked : Option ℤ) (payload : ActionCreate) (actions : List Action)
    → slot (next_position r actions) asked ≡ some position
    → Changed r
        (inserted position id)
        actions
        (room r asked actions ++ new_row id r position payload ∷ [])
inserted-room r id position none payload actions h s k = ground (
  arith,
  id_at-snoc s k actions (new_row id r position payload),
  id_at-above r k actions,
  id_at-above r (k - 1) actions,
  ap (λ j. id_at j k actions) {x = r} {y = s},
  ap (λ j. id_at j (k - 1) actions) {x = r} {y = s},
)
inserted-room r id position (some asked) payload actions h s k =
    subst
      (λ p.
        id_at s k (shift_up r p actions ++ new_row id r position payload ∷ [])
        ≡ (if s == r then inserted position id (λ j. id_at s j actions) k else id_at s k actions))
      (sym (in_range_of (next_position r actions) position asked h))
      (inserted-shift_up r id position payload actions s k)

module _ (env : Env) where
  -- `create_action` commits the sequence with a new key put in at the slot that the payload asks for,
  -- and the sequences of the other routines as they were, or it raises and commits nothing.
  pub create_action-inserted :
      (r : ℕ) (payload : ActionCreate) (w : World)
      → Commits w.committed
          (λ after.
            (id : ℕ) × (p : ℕ) × (¬ Mem id (ids w.working.actions))
            × (slot (next_position r w.working.actions) payload.position ≡ some p)
            × Changed r (inserted p id) w.working.actions after.actions)
          (create_action env r payload w)
  create_action-inserted r payload w = elim (create_action-Commits env r payload w) [
    | inl raised ↦ inl raised
    | inr made ↦ inr (
      made.id,
      made.position,
      made.fresh,
      made.in_slot,
      λ s k.
          ap (λ (db : Db). id_at s k db.actions) made.rows
          ∙ inserted-room r made.id made.position payload.position payload w.working.actions
              made.in_slot s k,
    )
  ]

id_at-unused :
    (r k : ℕ) (actions : List Action) → count k (positions r actions) ≡ 0 → id_at r k actions ≡ none
unfolding id_at positions routine_actions rows_where count
id_at-unused r k [] h = refl
id_at-unused r k (a ∷ actions) h = ground (arith, id_at-unused r k actions)

-- Where each position is used once, the row that is taken out leaves its place empty.
id_at-without :
    (a : Action) (s k : ℕ) (actions : List Action)
    → count a.id (ids actions) ≤ 1
    → ((r j : ℕ) → count j (positions r actions) ≤ 1)
    → get_action a.id actions ≡ some a
    → id_at s k (without a.id actions)
      ≡ (if of_routine s a && (a.position == k) then none else id_at s k actions)
unfolding id_at positions routine_actions rows_where count without first_where
id_at-without a s k [] keyed single found = cc
id_at-without a s k (b ∷ actions) keyed single found =
    let fewer : count a.id (ids actions) ≤ 1 = ground arith in
    let once : (r j : ℕ) → count j (positions r actions) ≤ 1 =
      λ r j. let h = single r j in ground arith in
    elim (Bool-cases (b.id == a.id)) [
      | inl same ↦ ground (arith, without_absent a.id actions, id_at-unused s k actions, single s k)
      | inr other ↦
          let rest : get_action a.id actions ≡ some a = ground arith in
          ground (
            arith,
            id_at-without a s k actions fewer once rest,
            count-without s a.id k a actions fewer rest,
            single s k,
          )
    ]

removed-deleted :
    (a : Action) (actions : List Action)
    → IsOrdered actions
    → get_action a.id actions ≡ some a
    → Changed a.routine_id (deleted a.position) actions (removed a actions)
removed-deleted a actions h found s k =
    let once : (r j : ℕ) → count j (positions r actions) ≤ 1 =
      λ r j. let c = h.contiguous r j in ground arith in
    let there : (t j : ℕ)
        → id_at t j (without a.id actions)
          ≡ (if of_routine t a && (a.position == j) then none else id_at t j actions) =
      λ t j. id_at-without a t j actions (h.keyed a.id) once found in
    elim (Bool-cases (s == a.routine_id)) [
      | inl own ↦
          let same = (==_iff s a.routine_id).0 own in
          rw own (
            subst
              (λ t. id_at t k (removed a actions) ≡ deleted a.position (λ j. id_at t j actions) k)
              (sym same)
              (ground (
                arith,
                id_at-shift_down a.routine_id a.position k (without a.id actions),
                there a.routine_id a.position,
                there a.routine_id k,
                there a.routine_id (k + 1),
              )))
      | inr other ↦ rw other (
          ground (
            arith,
            id_at-shift_down_other a.routine_id s a.position k (without a.id actions),
            there s k,
          ))
    ]

module _ (env : Env) where
  -- On an ordered table, `delete_action` of a stored action commits the sequence without its key, and
  -- the sequences of the other routines as they were, or it raises and commits nothing.
  pub delete_action-deleted :
      (a : Action) (w : World)
      → IsOrdered w.working.actions
      → get_action a.id w.working.actions ≡ some a
      → Commits w.committed
          (λ after. Changed a.routine_id (deleted a.position) w.working.actions after.actions)
          (delete_action env a w)
  delete_action-deleted a w h found = elim (delete_action-Commits env a w) [
    | inl raised ↦ inl raised
    | inr done ↦ inr λ s k.
        ap (λ (db : Db). id_at s k db.actions) done
        ∙ removed-deleted a w.working.actions h found s k
  ]

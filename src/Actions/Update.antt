-- ===== src/Actions/Update.antt =====
-- What `update_action` commits.
pub mod Ordered
pub mod InPlace
use python_fastapi_poc.Prelude.{
  ℕ, suc, ◌+◌, ◌≤◌, ◌≡◌, ◌≢◌, refl, ap, ◌∙◌, sym, subst, ◌⊎◌, inl, inr, Bool, true, false, List, [],
  ◌∷◌, map, ◌==◌, ◌&&◌, not, rows_where, first_where, if◌then◌else◌, Bool-cases, length, count,
  arith, Option, none, some, ℤ, pos, pos_part, eq_ℤ, or_else,
}
use python_fastapi_poc.Domain.{ActionType, JsonObject}
use python_fastapi_poc.Models.{Action, Db}
use python_fastapi_poc.Env.{Env}
use python_fastapi_poc.Schemas.{ActionUpdate, validate_action_config}
use python_fastapi_poc.Session.{
  World, Exec, Result, ok, raise, Exception, modify, select, flush, commit, one_or_none, lift,
  ◌>>=◌, ◌>>◌, with_session,
}
use python_fastapi_poc.Session.Commits.{
  Commits, Reads, bind-Commits, finish-Commits, Reads-select, Reads-refresh, Reads-flush, select-ok,
  flush-ok,
}
use python_fastapi_poc.Actions.{
  on_actions, occupants, set_position, set_content, swap_with, move_action, refresh_action,
  update_action,
}

abbrev pub swapped : Action → ℤ → Action → List Action → List Action
swapped a new_pos other actions =
    set_position other.id a.position (set_position a.id (pos_part new_pos) actions)

-- What the branch on the position does to the open transaction: nothing, or a swap with the one
-- occupant of the position.
pub data Moved (a : Action) (before after : Db) : Option ℤ → Type 0 where
  kept : after ≡ before → Moved a before after none
  swap :
      (new_pos : ℤ) (other : Action)
      → occupants a new_pos before.actions ≡ other ∷ []
      → after ≡ on_actions (swapped a new_pos other) before
      → Moved a before after (some new_pos)

module _ (env : Env) (a : Action) where
  swap_found :
      (new_pos : ℤ) (others : List Action) (w : World) {u : Unit {0}}
      → occupants a new_pos w.working.actions ≡ others
      → ((one_or_none others >>= swap_with env a new_pos) w).0 ≡ ok u
      → Moved a w.working
          ((one_or_none others >>= swap_with env a new_pos) w).1.working
          (some new_pos)
  unfolding one_or_none swap_with flush
  swap_found new_pos [] w e h = cc
  swap_found new_pos (other ∷ []) w e h = swap new_pos other e (ground arith)
  swap_found new_pos (x ∷ y ∷ rest) w e h = cc

  Reads-swap_found :
      (new_pos : ℤ) (others : List Action) (w : World)
      → ((one_or_none others >>= swap_with env a new_pos) w).1.committed ≡ w.committed
  unfolding one_or_none swap_with flush
  Reads-swap_found new_pos [] w = refl
  Reads-swap_found new_pos (other ∷ []) w = ground arith
  Reads-swap_found new_pos (x ∷ y ∷ rest) w = refl

  Reads-move_action :
      (asked : Option ℤ) (w : World) → (move_action env a asked w).1.committed ≡ w.committed
  unfolding move_action select
  Reads-move_action none w = refl
  Reads-move_action (some p) w = elim (Bool-cases (env.fails w.statements)) [
    | inl lost ↦ rw lost
    | inr sent ↦ rw sent (
        Reads-swap_found p (occupants a p w.working.actions)
          (record w { statements = suc w.statements }))
  ]

  move_action-Moved :
      (asked : Option ℤ) (w : World) {u : Unit {0}}
      → (move_action env a asked w).0 ≡ ok u
      → Moved a w.working (move_action env a asked w).1.working asked
  unfolding move_action select
  move_action-Moved none w h = kept refl
  move_action-Moved (some p) w h = elim (Bool-cases (env.fails w.statements)) [
    | inl lost ↦ absurd (ground arith)
    | inr sent ↦ rw sent (
        swap_found p (occupants a p w.working.actions) (record w { statements = suc w.statements })
          refl (rw sent at h))
  ]

-- The content after the update, and the table: the swap, then the content.
abbrev pub next_type : Action → ActionUpdate → ActionType
next_type a payload = or_else payload.action_type a.action_type

abbrev pub next_config : Action → ActionUpdate → JsonObject
next_config a payload = or_else payload.config a.config

pub record Updated (a : Action) (payload : ActionUpdate) (before after : Db) : Type 0 where
  pub moved : Db
  pub swap_done : Moved a before moved payload.position
  pub valid : validate_action_config (next_type a payload) (next_config a payload) ≡ ok tt
  pub rows :
      after ≡ on_actions (set_content a.id (next_type a payload) (next_config a payload)) moved

module _ (env : Env) where
  store_content :
      {before start moved : Db} (a : Action) (payload : ActionUpdate) (w : World)
      → w.committed ≡ before
      → w.working ≡ moved
      → Moved a start moved payload.position
      → Commits before (Updated a payload start) (
          (lift (validate_action_config (next_type a payload) (next_config a payload)) >>= λ _.
          modify (on_actions (set_content a.id (next_type a payload) (next_config a payload)))
          >>= λ _. commit env >>= λ _. refresh_action env a.id)
            w)
  unfolding refresh_action
  store_content {moved = moved} a payload w unchanged opened m =
      let t = next_type a payload in
      let c = next_config a payload in
      bind-Commits (Updated a payload _) (lift (validate_action_config t c)) _ w unchanged
        λ u checked.
          finish-Commits env (Updated a payload _) (refresh_action env a.id)
            (record w { working = on_actions (set_content a.id t c) w.working }) unchanged
            (Reads-refresh env _)
            record {
              moved = moved;
              swap_done = m;
              valid = checked;
              rows = ap (on_actions (set_content a.id t c)) opened;
            }

  -- `update_action` commits the swapped and edited table, having checked the content, or it raises
  -- and commits nothing: a swap that was flushed is lost with its session.
  pub update_action-Commits :
      (a : Action) (payload : ActionUpdate) (w : World)
      → Commits w.committed (Updated a payload w.working) (update_action env a payload w)
  unfolding update_action
  update_action-Commits a payload w =
      bind-Commits (Updated a payload w.working) (move_action env a payload.position) _ w
        (Reads-move_action env a payload.position w)
        λ u moved.
          store_content a payload _ (Reads-move_action env a payload.position w) refl
            (move_action-Moved env a payload.position w moved)

-- ===== src/Actions/Create.antt =====
-- What `create_action` commits.
pub mod Progress
use mathlib.Core.List.{Mem}
use python_fastapi_poc.Prelude.{
  ℕ, ◌+◌, ◌≡◌, refl, ap, ◌∙◌, subst, List, [], ◌∷◌, ◌++◌, rows_where, arith, ℤ, pos_part, Option,
  none, some,
}
use python_fastapi_poc.Models.{Action, Db}
use python_fastapi_poc.Env.{Env}
use python_fastapi_poc.Schemas.{ActionCreate}
use python_fastapi_poc.Session.{◌>>=◌, World, ok, select, execute}
use python_fastapi_poc.Actions.{
  routine_actions, of_routine, max_position, shift_up, in_range, on_actions, make_room, add_action,
  insert_action, refresh_action, create_action,
}
use python_fastapi_poc.Actions.Positions.{ids, ids-shift_up}
use python_fastapi_poc.Session.Commits.{
  Commits, bind-Commits, finish-Commits, Reads-select, Reads-refresh, select-ok,
}

-- The slot that a payload asks for, and the rows with room made for it.
abbrev pub slot : ℕ → Option ℤ → Option ℕ
slot next none = some next
slot next (some p) = in_range next p

abbrev pub room : ℕ → Option ℤ → List Action → List Action
room r none actions = actions
room r (some p) actions = shift_up r (pos_part p) actions

abbrev pub new_row : ℕ → ℕ → ℕ → ActionCreate → Action
new_row id r position payload = record {
  id = id;
  routine_id = r;
  position = position;
  action_type = payload.action_type;
  config = payload.config;
}

-- The next position to append at.
abbrev pub next_position : ℕ → List Action → ℕ
next_position r actions = max_position (routine_actions r actions) + 1

-- Either nothing is committed, or the table with one new row in the slot.
pub record Created (r : ℕ) (payload : ActionCreate) (before after : Db) : Type 0 where
  pub id : ℕ
  pub position : ℕ
  pub fresh : ¬ Mem id (ids before.actions)
  pub in_slot : slot (next_position r before.actions) payload.position ≡ some position
  pub rows :
      after
      ≡ on_actions
          (λ actions. room r payload.position actions ++ new_row id r position payload ∷ [])
          before

module _ (env : Env) where
  make_room_lem :
      (r next : ℕ) (asked : Option ℤ) (w : World) {position : ℕ}
      → (make_room env r next asked w).0 ≡ ok position
      → (slot next asked ≡ some position)
        × ((make_room env r next asked w).1.working ≡ on_actions (room r asked) w.working)
  unfolding make_room execute
  make_room_lem r next none w h = ground arith
  make_room_lem r next (some p) w h = ground arith

  Reads-make_room :
      (r next : ℕ) (asked : Option ℤ) (w : World)
      → (make_room env r next asked w).1.committed ≡ w.committed
  unfolding make_room execute
  Reads-make_room r next none w = refl
  Reads-make_room r next (some p) w = ground arith

  insert_action-Commits :
      {before : Db} (a : Action) (w : World) (Q : Db → Type 0)
      → w.committed ≡ before
      → ((id : ℕ)
          → ¬ Mem id (ids w.working.actions)
          → Q (on_actions (λ l. l ++ record a { id = id } ∷ []) w.working))
      → Commits before Q (insert_action env a w)
  unfolding insert_action add_action refresh_action
  insert_action-Commits a w Q start q =
      let id = env.new_id w.statements (ids w.working.actions) in
      finish-Commits env Q (refresh_action env id) (add_action env a w).1 start
        (Reads-refresh env _) (q id (env.new_id-fresh w.statements (ids w.working.actions)))

  -- A key that is fresh where room was made is fresh in the table.
  fresh-room :
      (r id : ℕ) (asked : Option ℤ) (actions : List Action)
      → ¬ Mem id (ids (room r asked actions))
      → ¬ Mem id (ids actions)
  fresh-room r id none actions h = h
  fresh-room r id (some p) actions h = rw (ids-shift_up r (pos_part p) actions) at h

  create_in_slot :
      {before start : Db} (r : ℕ) (payload : ActionCreate) (w : World) (next : ℕ)
      → w.committed ≡ before
      → w.working ≡ start
      → next ≡ next_position r start.actions
      → Commits before (Created r payload start) (
          (make_room env r next payload.position >>= λ position.
          insert_action env (new_row 0 r position payload))
            w)
  create_in_slot {start = start} r payload w next unchanged opened e =
      bind-Commits (Created r payload start) (make_room env r next payload.position)
        (λ position. insert_action env (new_row 0 r position payload)) w
        (Reads-make_room r next payload.position w ∙ unchanged)
        λ position roomed.
          let (slotted, rows) = make_room_lem r next payload.position w roomed in
          let rows' : (make_room env r next payload.position w).1.working
              ≡ on_actions (room r payload.position) start =
            rows ∙ ap (on_actions (room r payload.position)) opened in
          insert_action-Commits (new_row 0 r position payload) _ (Created r payload start)
            (Reads-make_room r next payload.position w ∙ unchanged)
            λ id fresh. record {
              id = id;
              position = position;
              fresh =
                  fresh-room r id payload.position start.actions
                    (subst (λ (db : Db). ¬ Mem id (ids db.actions)) rows' fresh);
              in_slot = rw (← e) slotted;
              rows = ap (on_actions (λ l. l ++ new_row id r position payload ∷ [])) rows';
            }

  -- `create_action` commits the table with the new row in its slot and the later actions moved up,
  -- or it raises and commits nothing.
  pub create_action-Commits :
      (r : ℕ) (payload : ActionCreate) (w : World)
      → Commits w.committed (Created r payload w.working) (create_action env r payload w)
  unfolding create_action routine_actions
  create_action-Commits r payload w =
      bind-Commits (Created r payload w.working)
        (select env (λ db. max_position (rows_where (of_routine r) db.actions))) _ w
        (Reads-select env _ w)
        λ max_pos selected.
          let (here, same) = select-ok env _ w selected in
          create_in_slot r payload _ (max_pos + 1) (Reads-select env _ w) same
            (ap (λ n. n + 1) here)

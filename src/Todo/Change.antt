-- ===== src/Todo/Change.antt =====
-- src/todo-core.ts: promoteNext, completePhase and the changes of state behind each operation.
use steak_pi.Prelude.{
  ℕ, suc, String, Bool, not, ◌&&◌, Option, none, some, List, [], ◌∷◌, map, ◌==◌, if◌then◌else◌,
  modify, any,
}
use mathlib.Core.Option
use steak_pi.Todo.{
  Field, TodoItem, TodoPhase, TodoState, Hit, Result, ◌>>=◌, Transition, has_status, set_status,
  truthy, modify_item, remove_item, pending, in_progress, done, blocked, undefined, unsupported_op,
  ok, throw, start, finish, drop, block, unblock, rm,
}
use steak_pi.Todo.Find.{resolve_task}

unfoldable pub any_in_progress : List TodoPhase → Bool
any_in_progress = any λ phase. any (has_status in_progress) phase.items

-- The items with the first pending one promoted, if there is one.
unfoldable pub promote_items : List TodoItem → Option (List TodoItem)
promote_items [] = none
promote_items (item ∷ rest) =
    if has_status pending item
    then some (set_status in_progress item ∷ rest)
    else Option.map (λ r. item ∷ r) (promote_items rest)

unfoldable pub promote_phases : List TodoPhase → List TodoPhase
promote_phases [] = []
promote_phases (phase ∷ rest) = elim (promote_items phase.items) [
  | some items ↦ record phase { items = items } ∷ rest
  | none ↦ phase ∷ promote_phases rest
]

unfoldable pub promote_next : TodoState → TodoState
unfolding any_in_progress promote_phases promote_items
promote_next s = if any_in_progress s.phases then s else record { phases = promote_phases s.phases }

unfoldable pub complete_phase : TodoPhase → TodoPhase
complete_phase phase = record phase { items = map (set_status done) phase.items }

abbrev pub complete_at : TodoState → ℕ → TodoState
complete_at s i = record { phases = modify s.phases i complete_phase }

-- Active items that are not kept become pending.
unfoldable pub demote_items : (ℕ → Bool) → ℕ → List TodoItem → List TodoItem
demote_items kept index [] = []
demote_items kept index (item ∷ rest) =
    (if has_status in_progress item && not (kept index) then set_status pending item else item)
    ∷ demote_items kept (suc index) rest

unfoldable pub demote_phases : (ℕ → ℕ → Bool) → ℕ → List TodoPhase → List TodoPhase
unfolding demote_items
demote_phases kept i [] = []
demote_phases kept i (phase ∷ rest) =
    record phase { items = demote_items (kept i) 0 phase.items } ∷ demote_phases kept (suc i) rest

abbrev pub is_at : Hit → ℕ → ℕ → Bool
is_at hit i index = hit.phase == i && hit.index == index

-- The single `start`.
unfoldable pub start_one : TodoState → Hit → TodoState
unfolding demote_phases
start_one s hit = record {
  phases = modify_item (demote_phases (is_at hit) 0 s.phases) hit (set_status in_progress);
}

unfoldable pub activate_all : List TodoPhase → List Hit → List TodoPhase
activate_all phases [] = phases
activate_all phases (hit ∷ rest) =
    activate_all (modify_item phases hit (set_status in_progress)) rest

unfoldable pub resolve_all : TodoState → List String → Result (List Hit)
resolve_all s [] = ok []
resolve_all s (task ∷ rest) = do
  hit ← resolve_task s task
  hits ← resolve_all s rest
  ok (hit ∷ hits)

unfoldable pub start_all : TodoState → List Hit → TodoState
unfolding activate_all demote_phases
start_all s hits = record {
  phases =
      activate_all (demote_phases (λ i index. any (λ hit. is_at hit i index) hits) 0 s.phases) hits;
}

-- `applyBulkStart`.
unfoldable pub bulk_start : TodoState → List String → Result TodoState
unfolding resolve_all
bulk_start s tasks = do hits ← resolve_all s tasks; ok (start_all s hits)

abbrev pub block_item : Field → TodoItem → TodoItem
block_item reason item =
    if truthy reason
    then record item { status = blocked; reason = reason }
    else record item { status = blocked }

abbrev pub unblock_item : TodoItem → TodoItem
unblock_item item = record item { status = pending; reason = undefined }

-- What one item undergoes; `none` where it is removed.
unfoldable pub act_on : Transition → Field → TodoState → Hit → Result TodoState
act_on finish reason s hit = ok (record { phases = modify_item s.phases hit (set_status done) })
act_on drop reason s hit = ok (record { phases = remove_item s.phases hit })
act_on rm reason s hit = ok (record { phases = remove_item s.phases hit })
act_on block reason s hit = ok (record { phases = modify_item s.phases hit (block_item reason) })
act_on unblock reason s hit = ok (record { phases = modify_item s.phases hit unblock_item })
act_on start reason s hit = throw unsupported_op

-- `applyBulkStep`, and the loop over the named tasks.
unfoldable pub bulk_step : Transition → Field → TodoState → String → Result TodoState
unfolding act_on
bulk_step op reason s task = do hit ← resolve_task s task; act_on op reason s hit

unfoldable pub bulk_steps : Transition → Field → TodoState → List String → Result TodoState
unfolding bulk_step
bulk_steps op reason s [] = ok s
bulk_steps op reason s (task ∷ rest) = do
  s' ← bulk_step op reason s task
  bulk_steps op reason s' rest

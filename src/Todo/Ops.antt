-- ===== src/Todo/Ops.antt =====
-- src/todo-core.ts: validateInitList, samePlan, applyBulkOp, applySingleOp and applyOp.
use steak_pi.Prelude.{
  ℕ, suc, String, Bool, true, false, not, ◌&&◌, ◌||◌, Option, none, some, List, [], ◌∷◌, ◌++◌, map,
  if◌then◌else◌, modify, remove_at, any, str_eq, is_blank,
}
use mathlib.Core.Option
use steak_pi.Todo.{
  Field, TodoItem, TodoPhase, TodoState, Hit, Result, ◌>>=◌, ◌>>◌, reject_if, require, Transition,
  ItemsField, InitEntry, InitList, TodoOp, PlanPhase, pending, undefined, null, string, other,
  unknown_task, unknown_phase, task_not_string, phase_not_string, items_not_names,
  reason_not_string, items_with_selector, empty_name, nothing_named, task_with_phase,
  requires_target, init_without_phases, unsupported_op, malformed_phase, ok, throw, start, finish,
  drop, block, unblock, rm, absent, not_array, array, not_list, entries, init, transition, append,
  view, unsupported,
}
use steak_pi.Todo.Find.{find_item, find_phase, resolve_task, selector}
use steak_pi.Todo.Change.{promote_next, complete_at, start_one, bulk_start, act_on, bulk_steps}
use steak_pi.Todo.Render.{render}

-- The strings of an array, unless one of its values is no string.
unfoldable pub texts : List Field → Option (List String)
texts [] = some []
texts (string s ∷ rest) = Option.map (λ r. s ∷ r) (texts rest)
texts (undefined ∷ rest) = none
texts (null ∷ rest) = none
texts (other b s ∷ rest) = none

unfoldable pub init_entry : ℕ → Field → ItemsField → Result PlanPhase
unfolding texts
init_entry i (string name) (array fields) = elim (texts fields) [
  | none ↦ throw (malformed_phase i)
  | some items ↦ ok (record { phase = name; items = items })
]
init_entry i _ _ = throw (malformed_phase i)

unfoldable pub init_entries : ℕ → List InitEntry → Result (List PlanPhase)
unfolding init_entry
init_entries i [] = ok []
init_entries i (e ∷ rest) = do
  phase ← init_entry i e.phase e.items
  phases ← init_entries (suc i) rest
  ok (phase ∷ phases)

unfoldable pub validate_init_list : InitList → Result (List PlanPhase)
unfolding init_entries
validate_init_list not_list = throw init_without_phases
validate_init_list (entries []) = throw init_without_phases
validate_init_list (entries (e ∷ rest)) = init_entries 1 (e ∷ rest)

unfoldable pub same_items : List TodoItem → List String → Bool
same_items [] [] = true
same_items (item ∷ items) (content ∷ contents) =
    str_eq content item.content && same_items items contents
same_items _ _ = false

unfoldable pub same_phases : List TodoPhase → List PlanPhase → Bool
unfolding same_items
same_phases [] [] = true
same_phases (phase ∷ phases) (entry ∷ rest) =
    (str_eq entry.phase phase.name && same_items phase.items entry.items) && same_phases phases rest
same_phases _ _ = false

unfoldable pub same_plan : TodoState → List PlanPhase → Bool
unfolding same_phases
same_plan s list = same_phases s.phases list

abbrev pub fresh_item : String → TodoItem
fresh_item content = record { content = content; status = pending; reason = undefined }

abbrev pub fresh_phase : PlanPhase → TodoPhase
fresh_phase entry = record { name = entry.phase; items = map fresh_item entry.items }

-- The caller's object after the call, and what the call returns or throws.
abbrev pub Reply : Type 0
Reply = TodoState × Result (TodoState × String)

-- A change in place: the caller's object is the one that is returned.
unfoldable pub in_place : TodoState → Result TodoState → Reply
in_place s (ok s') = (s', ok (s', render s'))
in_place s (throw e) = (s, throw e)

-- A change of a copy, or a new object.
unfoldable pub on_copy : TodoState → Result TodoState → Reply
on_copy s (ok s') = (s, ok (s', render s'))
on_copy s (throw e) = (s, throw e)

abbrev pub promoted : Result TodoState → Result TodoState
promoted (ok s) = ok (promote_next s)
promoted (throw e) = throw e

unfoldable pub init_op : TodoState → InitList → Result TodoState
init_op s list = do
  plan ← validate_init_list list
  ok (if same_plan s plan then s else promote_next (record { phases = map fresh_phase plan }))

unfoldable pub start_op : TodoState → Field → Result TodoState
start_op s task = do
  chosen ← selector task task_not_string
  name ← require chosen requires_target
  hit ← resolve_task s name
  ok (start_one s hit)

-- An operation on one task that resolves, promoting afterwards: `block` and `unblock`.
unfoldable pub task_op : Transition → Field → TodoState → Field → Result TodoState
task_op op reason s task = do
  chosen ← selector task task_not_string
  name ← require chosen requires_target
  hit ← resolve_task s name
  promoted (act_on op reason s hit)

-- `done`, `drop` and `rm` take a phase too, and a task's name may be a phase's.
unfoldable pub on_phase : Transition → TodoState → ℕ → TodoState
on_phase finish s i = complete_at s i
on_phase _ s i = record { phases = remove_at s.phases i }

-- Where no task is found, the name may be a phase's.
unfoldable pub task_or_phase : Transition → TodoState → String → Option Hit → Result TodoState
task_or_phase op s name (some hit) = act_on op undefined s hit
task_or_phase op s name none = do
  i ← require (find_phase s name) (unknown_task name)
  ok (on_phase op s i)

unfoldable pub named_task_op : Transition → TodoState → String → Result TodoState
unfolding task_or_phase
named_task_op op s name = do found ← find_item s name; task_or_phase op s name found

unfoldable pub choose_target :
    Transition → TodoState → Option String → Option String → Result TodoState
unfolding named_task_op on_phase
choose_target op s (some task) (some phase) = throw task_with_phase
choose_target op s (some task) none = named_task_op op s task
choose_target op s none (some phase) = do
  i ← require (find_phase s phase) (unknown_phase phase)
  ok (on_phase op s i)
choose_target op s none none = throw requires_target

unfoldable pub either_op : Transition → TodoState → Field → Field → Result TodoState
unfolding choose_target
either_op op s task phase = do
  name ← selector task task_not_string
  phase_name ← selector phase phase_not_string
  promoted (choose_target op s name phase_name)

unfoldable pub append_op : TodoState → String → List String → Result TodoState
append_op s name contents = do
  i ← require (find_phase s name) (unknown_phase name)
  ok (
      promote_next (record {
        phases =
            modify s.phases i
              λ phase. record phase { items = phase.items ++ map fresh_item contents };
      }))

-- The transitions of `applySingleOp`.
unfoldable pub single_transition : TodoState → Transition → Field → Field → Field → Result TodoState
unfolding start_op either_op task_op
single_transition s start task phase reason = start_op s task
single_transition s finish task phase reason = either_op finish s task phase
single_transition s drop task phase reason = either_op drop s task phase
single_transition s rm task phase reason = either_op rm s task phase
single_transition s block task phase reason = task_op block reason s task
single_transition s unblock task phase reason = task_op unblock reason s task

-- `applyBulkOp`: the batch runs on a copy.
unfoldable pub bulk_change : TodoState → Transition → List String → Field → Result TodoState
unfolding bulk_start bulk_steps
bulk_change s start names reason = promoted (bulk_start s names)
bulk_change s op names reason = promoted (bulk_steps op reason s names)

abbrev is_undefined : Field → Bool
is_undefined undefined = true
is_undefined _ = false

abbrev is_string : Field → Bool
is_string (string s) = true
is_string _ = false

abbrev is_some {ℓ} : {A : Type ℓ} → Option A → Bool
is_some none = false
is_some (some a) = true

-- An empty batch beside a task or a phase is no batch.
unfoldable pub batch_or_single : List String → Bool → Result (Option (List String))
batch_or_single [] true = ok none
batch_or_single [] false = throw nothing_named
batch_or_single (name ∷ names) true = throw items_with_selector
batch_or_single (name ∷ names) false =
    if any is_blank (name ∷ names) then throw empty_name else ok (some (name ∷ names))

-- The checks of `applyOp` on the `items` of a transition; `none` sends it down the single path.
unfoldable pub bulk_names : ItemsField → Field → Field → Field → Result (Option (List String))
unfolding texts batch_or_single
bulk_names absent task phase reason = ok none
bulk_names not_array task phase reason = throw items_not_names
bulk_names (array fields) task phase reason = do
  names ← require (texts fields) items_not_names
  reject_if (not (is_undefined reason) && not (is_string reason)) reason_not_string
  chosen ← selector task task_not_string
  phase_name ← selector phase phase_not_string
  batch_or_single names (is_some chosen || is_some phase_name)

unfoldable pub apply_transition :
    TodoState → Transition → Result (Option (List String)) → Field → Field → Field → Reply
unfolding in_place on_copy
apply_transition s op (throw e) task phase reason = (s, throw e)
apply_transition s op (ok (some names)) task phase reason =
    on_copy s (bulk_change s op names reason)
apply_transition s op (ok none) task phase reason =
    in_place s (single_transition s op task phase reason)

unfoldable pub apply_op : TodoState → TodoOp → Reply
unfolding apply_transition
apply_op s (init list) = on_copy s (init_op s list)
apply_op s (transition op items task phase reason) =
    apply_transition s op (bulk_names items task phase reason) task phase reason
apply_op s (append name contents) = in_place s (append_op s name contents)
apply_op s view = in_place s (ok s)
apply_op s unsupported = (s, throw unsupported_op)

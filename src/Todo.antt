-- ===== src/Todo.antt =====
-- src/todo-core.ts: the phased todo list. This file has the state, the operations as they arrive and
-- the errors; the children follow the code: finding, promoting, transitions, the dispatcher, the text.
pub mod Find
pub mod Change
pub mod Render
pub mod Ops
pub mod Locate
pub mod Active
pub mod Invariant
pub mod Plan
pub mod Computed
pub mod Keeps
pub mod Repeat
pub mod Atomic
mod Tests
use steak_pi.Prelude.{
  ℕ, String, Bool, true, false, not, Option, none, some, List, modify, remove_at, str_eq,
}

pub data TodoStatus : Type 0 where
  pending in_progress done blocked : TodoStatus

-- A value of unknown type in a call: absent, null, a string, or anything else with its truth value
-- and its text.
pub data Field : Type 0 where
  undefined null : Field
  string : String → Field
  other : Bool → String → Field

pub record TodoItem : Type 0 where
  pub content : String
  pub status : TodoStatus
  -- `undefined` where the item has no reason.
  pub reason : Field

pub record TodoPhase : Type 0 where
  pub name : String
  pub items : List TodoItem

pub record TodoState : Type 0 where
  pub phases : List TodoPhase

-- The place of an item: its phase's index and its own.
pub record Hit : Type 0 where
  pub phase : ℕ
  pub index : ℕ

-- `TodoError`, and the TypeError of a missing argument.
pub data TodoError : Type 0 where
  ambiguous_prefix unknown_task unknown_phase : String → TodoError
  task_not_string phase_not_string items_not_names reason_not_string : TodoError
  items_with_selector empty_name nothing_named task_with_phase requires_target : TodoError
  init_without_phases unsupported_op : TodoError
  malformed_phase : ℕ → TodoError

pub data Result {ℓ} (A : Type ℓ) : Type ℓ where
  ok : A → Result A
  throw : TodoError → Result A

infixl 5 ◌>>=◌ ◌>>◌
abbrev pub ◌>>=◌ {ℓ κ} : {A : Type ℓ} {B : Type κ} → Result A → (A → Result B) → Result B
ok a >>= f = f a
throw e >>= f = throw e

abbrev pub ◌>>◌ {ℓ} : {B : Type ℓ} → Result (Unit {0}) → Result B → Result B
m >> k = m >>= λ _. k

-- `if (test) throw error`.
abbrev pub reject_if : Bool → TodoError → Result (Unit {0})
reject_if true e = throw e
reject_if false e = ok tt

abbrev pub require {ℓ} : {A : Type ℓ} → Option A → TodoError → Result A
require none e = throw e
require (some a) e = ok a

pub data Transition : Type 0 where
  start finish drop block unblock rm : Transition

-- The `items` of a call.
pub data ItemsField : Type 0 where
  absent not_array : ItemsField
  array : List Field → ItemsField

-- A phase of an `init` call, and its list; `not_list` is a value that is no array.
pub record InitEntry : Type 0 where
  pub phase : Field
  pub items : ItemsField

pub data InitList : Type 0 where
  not_list : InitList
  entries : List InitEntry → InitList

-- `TodoOp`. The schema gives `append` a string and strings; the other arguments are checked here.
pub data TodoOp : Type 0 where
  init : InitList → TodoOp
  transition : Transition → ItemsField → Field → Field → Field → TodoOp
  append : String → List String → TodoOp
  view unsupported : TodoOp

-- A validated phase of an `init` call.
pub record PlanPhase : Type 0 where
  pub phase : String
  pub items : List String

abbrev pub is_status : TodoStatus → TodoStatus → Bool
is_status pending pending = true
is_status in_progress in_progress = true
is_status done done = true
is_status blocked blocked = true
is_status _ _ = false

abbrev pub has_status : TodoStatus → TodoItem → Bool
has_status st item = is_status item.status st

abbrev pub set_status : TodoStatus → TodoItem → TodoItem
set_status st item = record item { status = st }

-- JavaScript's truth value.
abbrev pub truthy : Field → Bool
truthy undefined = false
truthy null = false
truthy (string s) = not (str_eq s "")
truthy (other b s) = b

-- Change, or remove, the item at a place.
abbrev pub modify_item : List TodoPhase → Hit → (TodoItem → TodoItem) → List TodoPhase
modify_item phases hit f =
    modify phases hit.phase λ phase. record phase { items = modify phase.items hit.index f }

abbrev pub remove_item : List TodoPhase → Hit → List TodoPhase
remove_item phases hit =
    modify phases hit.phase λ phase. record phase { items = remove_at phase.items hit.index }

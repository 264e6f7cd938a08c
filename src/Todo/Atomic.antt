-- ===== src/Todo/Atomic.antt =====
-- Batches of src/todo-core.ts against single operations on the same task.
use steak_pi.Prelude.{
  ℕ, String, ◌≡◌, refl, ap, fun_ext, Bool, true, false, ◌||◌, some, [], ◌∷◌, arith, is_blank,
}
use steak_pi.Todo.{
  Field, TodoState, Hit, Result, ◌>>=◌, Transition, set_status, modify_item, in_progress, undefined,
  string, ok, throw, start, finish, drop, block, unblock, rm,
}
use steak_pi.Todo.Find.{find_item, resolve_task, selector}
use steak_pi.Todo.Change.{
  promote_next, demote_phases, is_at, start_one, resolve_all, start_all, bulk_start, act_on,
  bulk_step, bulk_steps,
}
use steak_pi.Todo.Ops.{
  promoted, start_op, task_op, task_or_phase, named_task_op, choose_target, either_op,
  single_transition, bulk_change,
}
use steak_pi.Todo.Active.{count-any_in_progress, start_one-count}
use steak_pi.Todo.Invariant.{resolve_task-IsTarget}

start_one-promoted :
    (s : TodoState) (name : String) (hit : Hit)
    → resolve_task s name ≡ ok hit
    → promote_next (start_one s hit) ≡ start_one s hit
unfolding promote_next
start_one-promoted s name hit e =
    let (item, at, why) = resolve_task-IsTarget s name hit e in
    rw (
      count-any_in_progress (start_one s hit).phases (omega (arith, start_one-count s hit item at)))

or_false : (b : Bool) → (b || false) ≡ b
or_false true = refl
or_false false = refl

start_all-one : (s : TodoState) (hit : Hit) → start_all s (hit ∷ []) ≡ start_one s hit
unfolding start_all start_one
start_all-one s hit =
    ap
      (λ (kept : ℕ → ℕ → Bool). record {
        phases = modify_item (demote_phases kept 0 s.phases) hit (set_status in_progress);
      })
      (fun_ext λ i. fun_ext λ index. or_false (is_at hit i index))

module _ (s : TodoState) (name : String) (hit : Hit) (plain : is_blank name ≡ false) where
  start_op-named : resolve_task s name ≡ ok hit → start_op s (string name) ≡ ok (start_one s hit)
  unfolding start_op selector
  start_op-named r = rw plain (rw r)

  task_op-named :
      (op : Transition) (reason : Field)
      → resolve_task s name ≡ ok hit
      → task_op op reason s (string name) ≡ promoted (act_on op reason s hit)
  unfolding task_op selector
  task_op-named op reason r = rw plain (rw r)

  either_op-named :
      (op : Transition)
      → find_item s name ≡ ok (some hit)
      → either_op op s (string name) undefined ≡ promoted (act_on op undefined s hit)
  unfolding either_op selector choose_target named_task_op task_or_phase
  either_op-named op f = rw plain (rw f)

  bulk_one :
      (op : Transition) (reason : Field)
      → resolve_task s name ≡ ok hit
      → bulk_steps op reason s (name ∷ []) ≡ act_on op reason s hit
  unfolding bulk_steps bulk_step
  bulk_one op reason r = rw r (returned (act_on op reason s hit))
    where
      returned : (m : Result TodoState) → (m >>= λ s'. ok s') ≡ m
      returned (ok t) = refl
      returned (throw e) = refl

  bulk_start-one : resolve_task s name ≡ ok hit → bulk_start s (name ∷ []) ≡ ok (start_one s hit)
  unfolding bulk_start resolve_all
  bulk_start-one r = rw r (ap (λ (t : TodoState). ok t) (start_all-one s hit))

-- A batch of one task does what the single operation on that task does, for a name that is not blank
-- and that resolves to a task.
pub bulk_change_one :
    (s : TodoState) (op : Transition) (name : String) (reason : Field) (hit : Hit)
    → is_blank name ≡ false
    → find_item s name ≡ ok (some hit)
    → bulk_change s op (name ∷ []) reason ≡ single_transition s op (string name) undefined reason
unfolding bulk_change single_transition resolve_task act_on
bulk_change_one s op name reason hit plain f = cases op
  where
    r : resolve_task s name ≡ ok hit
    r = rw f

    cases :
        (op : Transition)
        → bulk_change s op (name ∷ []) reason
          ≡ single_transition s op (string name) undefined reason
    cases start =
        rw (bulk_start-one s name hit plain r, start_op-named s name hit plain r)
          (ap (λ (t : TodoState). ok t) (start_one-promoted s name hit r))
    cases finish =
        rw (bulk_one s name hit plain finish reason r, either_op-named s name hit plain finish f)
    cases drop =
        rw (bulk_one s name hit plain drop reason r, either_op-named s name hit plain drop f)
    cases rm = rw (bulk_one s name hit plain rm reason r, either_op-named s name hit plain rm f)
    cases block =
        rw (bulk_one s name hit plain block reason r, task_op-named s name hit plain block reason r)
    cases unblock = rw (
      bulk_one s name hit plain unblock reason r,
      task_op-named s name hit plain unblock reason r,
    )

-- ===== src/Todo/Repeat.antt =====
-- A repeated plan of src/todo-core.ts: changes of status keep the plan, and an equal plan is no change.
use steak_pi.Prelude.{
  ℕ, String, ◌≡◌, refl, ap, ◌∙◌, Bool, true, false, Option, none, some, List, [], ◌∷◌, map, arith,
}
use steak_pi.Todo.{
  Field, TodoItem, TodoPhase, TodoState, Hit, Result, ◌>>=◌, require, Transition, ItemsField,
  InitList, PlanPhase, set_status, modify_item, in_progress, done, undefined, unknown_task,
  unknown_phase, task_not_string, phase_not_string, requires_target, ok, throw, start, finish, drop,
  block, unblock, rm, init, transition,
}
use steak_pi.Todo.Find.{find_item, find_phase, resolve_task, selector}
use steak_pi.Todo.Change.{
  complete_phase, complete_at, is_at, start_one, activate_all, resolve_all, start_all, bulk_start,
  block_item, unblock_item, act_on, bulk_step, bulk_steps,
}
use steak_pi.Todo.Ops.{
  validate_init_list, fresh_phase, on_copy, promoted, init_op, start_op, task_op, on_phase,
  task_or_phase, named_task_op, choose_target, either_op, single_transition, bulk_change,
  bulk_names, apply_op,
}
use steak_pi.Todo.Render.{render}
use steak_pi.Todo.Invariant.{Returns, Returns->>=}
use steak_pi.Todo.Plan.{
  contents_of, plan_of, same_plan_iff, plan_of-modify, modify_item-plan, promote_next-plan,
  demote_phases-plan, fresh-plan,
}
use steak_pi.Todo.Computed.{Returns-ok, computed, apply_op-computed}

-- The transitions that change no name and no content.
abbrev pub keeps_items : Transition → Bool
keeps_items drop = false
keeps_items rm = false
keeps_items _ = true

abbrev SamePlan : TodoState → TodoState → Type 0
SamePlan s s' = plan_of s'.phases ≡ plan_of s.phases

act_on-plan :
    (op : Transition) (reason : Field) (s : TodoState) (hit : Hit)
    → keeps_items op ≡ true
    → Returns (SamePlan s) (act_on op reason s hit)
unfolding act_on
act_on-plan start reason s hit k = tt
act_on-plan finish reason s hit k = modify_item-plan s.phases hit (set_status done) (λ x. refl)
act_on-plan drop reason s hit k = cc
act_on-plan rm reason s hit k = cc
act_on-plan block reason s hit k =
    modify_item-plan s.phases hit (block_item reason) (λ x. ground arith)
act_on-plan unblock reason s hit k = modify_item-plan s.phases hit unblock_item (λ x. refl)

set_done-contents :
    (items : List TodoItem) → contents_of (map (set_status done) items) ≡ contents_of items
set_done-contents [] = refl
set_done-contents (x ∷ items) = ap (λ (r : List String). x.content ∷ r) (set_done-contents items)

complete_at-plan : (s : TodoState) (i : ℕ) → SamePlan s (complete_at s i)
unfolding complete_phase
complete_at-plan s i =
    plan_of-modify s.phases i complete_phase (λ p. (refl, set_done-contents p.items))

activate_all-plan :
    (phases : List TodoPhase) (hits : List Hit)
    → plan_of (activate_all phases hits) ≡ plan_of phases
unfolding activate_all
activate_all-plan phases [] = refl
activate_all-plan phases (hit ∷ hits) =
    activate_all-plan (modify_item phases hit (set_status in_progress)) hits
    ∙ modify_item-plan phases hit (set_status in_progress) (λ x. refl)

start_all-plan : (s : TodoState) (hits : List Hit) → SamePlan s (start_all s hits)
unfolding start_all
start_all-plan s hits = activate_all-plan _ hits ∙ demote_phases-plan _ 0 s.phases

start_one-plan : (s : TodoState) (hit : Hit) → SamePlan s (start_one s hit)
unfolding start_one
start_one-plan s hit =
    modify_item-plan _ hit (set_status in_progress) (λ x. refl)
    ∙ demote_phases-plan (is_at hit) 0 s.phases

promoted-plan :
    (s : TodoState) (r : Result TodoState)
    → Returns (SamePlan s) r
    → Returns (SamePlan s) (promoted r)
promoted-plan s (ok s') h = promote_next-plan s' ∙ h
promoted-plan s (throw e) h = tt

choose_target-plan :
    (s : TodoState) (task phase : Option String)
    → Returns (SamePlan s) (choose_target finish s task phase)
unfolding choose_target on_phase named_task_op
choose_target-plan s (some task) (some phase) = tt
choose_target-plan s (some task) none = Returns->>= _ _ (find_item s task) λ found _.
    elim found as (λ f. Returns (SamePlan s) (task_or_phase finish s task f)) [
      | some hit ↦ act_on-plan finish undefined s hit refl
      | none ↦
          Returns->>= _ _ (require (find_phase s task) (unknown_task task))
            λ i _. complete_at-plan s i
    ]
choose_target-plan s none (some phase) =
    Returns->>= _ _ (require (find_phase s phase) (unknown_phase phase)) λ i _. complete_at-plan s i
choose_target-plan s none none = tt

task_op-plan :
    (op : Transition) (reason : Field) (s : TodoState) (task : Field)
    → keeps_items op ≡ true
    → Returns (SamePlan s) (task_op op reason s task)
unfolding task_op
task_op-plan op reason s task k = Returns->>= _ _ (selector task task_not_string) λ chosen _.
    Returns->>= _ _ (require chosen requires_target) λ name _.
      Returns->>= _ _ (resolve_task s name)
        λ hit _. promoted-plan s _ (act_on-plan op reason s hit k)

single_transition-plan :
    (s : TodoState) (op : Transition) (task phase reason : Field)
    → keeps_items op ≡ true
    → Returns (SamePlan s) (single_transition s op task phase reason)
unfolding single_transition start_op either_op
single_transition-plan s start task phase reason k =
    Returns->>= _ _ (selector task task_not_string) λ chosen _.
      Returns->>= _ _ (require chosen requires_target)
        λ name _. Returns->>= _ _ (resolve_task s name) λ hit _. start_one-plan s hit
single_transition-plan s finish task phase reason k =
    Returns->>= _ _ (selector task task_not_string) λ name _.
      Returns->>= _ _ (selector phase phase_not_string)
        λ phase_name _. promoted-plan s _ (choose_target-plan s name phase_name)
single_transition-plan s drop task phase reason k = cc
single_transition-plan s rm task phase reason k = cc
single_transition-plan s block task phase reason k = task_op-plan block reason s task k
single_transition-plan s unblock task phase reason k = task_op-plan unblock reason s task k

bulk_steps-plan :
    (op : Transition) (reason : Field) (s : TodoState) (names : List String)
    → keeps_items op ≡ true
    → Returns (SamePlan s) (bulk_steps op reason s names)
unfolding bulk_steps bulk_step
bulk_steps-plan op reason s [] k = refl
bulk_steps-plan op reason s (name ∷ names) k =
    after_first (bulk_step op reason s name)
      (Returns->>= _ _ (resolve_task s name) λ hit _. act_on-plan op reason s hit k)
      (λ s'. bulk_steps-plan op reason s' names k)
  where
    after_first :
        (r : Result TodoState)
        → Returns (SamePlan s) r
        → ((s' : TodoState) → Returns (SamePlan s') (bulk_steps op reason s' names))
        → Returns (SamePlan s) (r >>= λ s'. bulk_steps op reason s' names)
    after_first (ok s') h later = weaken (bulk_steps op reason s' names) (later s')
      where
        weaken : (r : Result TodoState) → Returns (SamePlan s') r → Returns (SamePlan s) r
        weaken (ok t) g = g ∙ h
        weaken (throw e) g = tt
    after_first (throw e) h later = tt

bulk_change-plan :
    (s : TodoState) (op : Transition) (names : List String) (reason : Field)
    → keeps_items op ≡ true
    → Returns (SamePlan s) (bulk_change s op names reason)
unfolding bulk_change bulk_start
bulk_change-plan s start names reason k =
    promoted-plan s _ (Returns->>= _ _ (resolve_all s names) λ hits _. start_all-plan s hits)
bulk_change-plan s finish names reason k =
    promoted-plan s _ (bulk_steps-plan finish reason s names k)
bulk_change-plan s drop names reason k = cc
bulk_change-plan s rm names reason k = cc
bulk_change-plan s block names reason k = promoted-plan s _ (bulk_steps-plan block reason s names k)
bulk_change-plan s unblock names reason k =
    promoted-plan s _ (bulk_steps-plan unblock reason s names k)

-- A start, done, block or unblock, of one task, of a phase or of a batch, changes no phase name and no
-- task content, and their order is kept.
pub transition-plan :
    (s s' : TodoState) (op : Transition) (items : ItemsField) (task phase reason : Field)
    (out : String)
    → keeps_items op ≡ true
    → (apply_op s (transition op items task phase reason)).1 ≡ ok (s', out)
    → plan_of s'.phases ≡ plan_of s.phases
unfolding computed
transition-plan s s' op items task phase reason out k e =
    Returns-ok (SamePlan s) (computed s (transition op items task phase reason)) s'
      (Returns->>= _ _ (bulk_names items task phase reason) λ names _.
        elim names
          as (λ n. Returns (SamePlan s) (elim n [
            | none ↦ single_transition s op task phase reason
            | some batch ↦ bulk_change s op batch reason
          ])) [
            | none ↦ single_transition-plan s op task phase reason k
            | some batch ↦ bulk_change-plan s op batch reason k
          ])
      (apply_op-computed s s' (transition op items task phase reason) out e)

init_op-plan :
    (s s' : TodoState) (list : InitList) (r : Result (List PlanPhase))
    → validate_init_list list ≡ r
    → init_op s list ≡ ok s'
    → r ≡ ok (plan_of s'.phases)
unfolding init_op
init_op-plan s s' list (throw e) v h = ground (arith, v)
init_op-plan s s' list (ok plan) v h = ground (
  arith,
  v,
  same_plan_iff s plan,
  promote_next-plan (record { phases = map fresh_phase plan }),
  fresh-plan plan,
)

-- After a successful `init`, the same `init` is no change of any list that still has the plan: the
-- call returns the list that it is given, with all recorded progress.
pub init_again :
    (s s' t : TodoState) (list : InitList) (out : String)
    → (apply_op s (init list)).1 ≡ ok (s', out)
    → plan_of t.phases ≡ plan_of s'.phases
    → apply_op t (init list) ≡ (t, ok (t, render t))
unfolding apply_op computed init_op on_copy
init_again s s' t list out h same =
    let valid : validate_init_list list ≡ ok (plan_of s'.phases) =
      init_op-plan s s' list _ refl (apply_op-computed s s' (init list) out h) in
    rw valid (rw ((same_plan_iff t (plan_of s'.phases)).1 same))

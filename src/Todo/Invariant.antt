-- ===== src/Todo/Invariant.antt =====
-- What every operation of src/todo-core.ts keeps: something is active while anything is pending, and
-- only a batch start makes several items active.
use steak_pi.Prelude.{
  ℕ, zero, suc, ◌≤◌, String, ◌≡◌, refl, false, Option, none, some, List, [], ◌∷◌, arith, modify,
  remove_at, count, count-modify_le, count-remove_at_le, count-map_zero,
}
use steak_pi.Todo.{
  Field, TodoItem, TodoPhase, TodoState, Hit, TodoError, Result, ◌>>=◌, require, Transition,
  has_status, set_status, modify_item, remove_item, in_progress, done, undefined, unknown_task,
  unknown_phase, task_not_string, requires_target, ok, throw, start, finish, drop, block, unblock,
  rm,
}
use steak_pi.Todo.Find.{find_item, find_phase, resolve_task, selector}
use steak_pi.Todo.Change.{complete_phase, block_item, unblock_item, act_on}
use steak_pi.Todo.Ops.{promoted, start_op, on_phase, task_or_phase, choose_target}
use steak_pi.Todo.Locate.{IsTarget, find_item_found}
use steak_pi.Todo.Active.{
  active_count, IsPromoted, start_one-count, promote_next-IsPromoted, promote_next-count,
}

-- What a returned state satisfies; nothing is asked of an error.
abbrev pub Returns : (TodoState → Type 0) → Result TodoState → Type 0
Returns P (ok s) = P s
Returns P (throw e) = Unit

abbrev pub HasOneActive : TodoState → Type 0
HasOneActive s = active_count s.phases ≤ 1

pub promoted-IsPromoted : (r : Result TodoState) → Returns IsPromoted (promoted r)
promoted-IsPromoted (ok s) = promote_next-IsPromoted s
promoted-IsPromoted (throw e) = tt

pub promoted-HasOneActive :
    (r : Result TodoState) → Returns HasOneActive r → Returns HasOneActive (promoted r)
promoted-HasOneActive (ok s) h = promote_next-count s h
promoted-HasOneActive (throw e) h = tt

module _ {ℓ} {A : Type ℓ} (P : TodoState → Type 0) (f : A → Result TodoState) where
  pub Returns->>= : (m : Result A) → ((a : A) → m ≡ ok a → Returns P (f a)) → Returns P (m >>= f)
  Returns->>= (ok a) h = h a refl
  Returns->>= (throw e) h = tt

modify_phases-count :
    (phases : List TodoPhase) (i : ℕ) (g : TodoPhase → TodoPhase)
    → ((p : TodoPhase)
        → count (has_status in_progress) (g p).items ≤ count (has_status in_progress) p.items)
    → active_count (modify phases i g) ≤ active_count phases
modify_phases-count [] i g h = omega arith
modify_phases-count (p ∷ phases) zero g h = omega (arith, h p)
modify_phases-count (p ∷ phases) (suc i) g h = omega (arith, modify_phases-count phases i g h)

remove_phase-count :
    (phases : List TodoPhase) (i : ℕ) → active_count (remove_at phases i) ≤ active_count phases
remove_phase-count [] i = omega arith
remove_phase-count (p ∷ phases) zero = omega arith
remove_phase-count (p ∷ phases) (suc i) = omega (arith, remove_phase-count phases i)

modify_item-count :
    (phases : List TodoPhase) (hit : Hit) (f : TodoItem → TodoItem)
    → ((x : TodoItem) → has_status in_progress (f x) ≡ false)
    → active_count (modify_item phases hit f) ≤ active_count phases
modify_item-count phases hit f h =
    modify_phases-count phases hit.phase _
      λ p. count-modify_le (has_status in_progress) p.items hit.index f h

remove_item-count :
    (phases : List TodoPhase) (hit : Hit)
    → active_count (remove_item phases hit) ≤ active_count phases
remove_item-count phases hit =
    modify_phases-count phases hit.phase _
      λ p. count-remove_at_le (has_status in_progress) p.items hit.index

-- One task's transition activates nothing.
pub act_on-HasOneActive :
    (op : Transition) (reason : Field) (s : TodoState) (hit : Hit)
    → HasOneActive s
    → Returns HasOneActive (act_on op reason s hit)
unfolding act_on
act_on-HasOneActive start reason s hit h = tt
act_on-HasOneActive finish reason s hit h =
    omega (arith, modify_item-count s.phases hit (set_status done) (λ x. refl))
act_on-HasOneActive drop reason s hit h = omega (arith, remove_item-count s.phases hit)
act_on-HasOneActive rm reason s hit h = omega (arith, remove_item-count s.phases hit)
act_on-HasOneActive block reason s hit h =
    omega (arith, modify_item-count s.phases hit (block_item reason) (λ x. ground arith))
act_on-HasOneActive unblock reason s hit h =
    omega (arith, modify_item-count s.phases hit unblock_item (λ x. refl))

on_phase-HasOneActive :
    (op : Transition) (s : TodoState) (i : ℕ) → HasOneActive s → HasOneActive (on_phase op s i)
unfolding on_phase complete_phase
on_phase-HasOneActive finish s i h = omega (
  arith,
  modify_phases-count s.phases i complete_phase (λ p.
      omega (arith, count-map_zero (has_status in_progress) (set_status done) p.items (λ x. refl))),
)
on_phase-HasOneActive start s i h = omega (arith, remove_phase-count s.phases i)
on_phase-HasOneActive drop s i h = omega (arith, remove_phase-count s.phases i)
on_phase-HasOneActive block s i h = omega (arith, remove_phase-count s.phases i)
on_phase-HasOneActive unblock s i h = omega (arith, remove_phase-count s.phases i)
on_phase-HasOneActive rm s i h = omega (arith, remove_phase-count s.phases i)

found_of_required :
    (r : Result (Option Hit)) (e : TodoError) (hit : Hit)
    → (r >>= λ found. require found e) ≡ ok hit
    → r ≡ ok (some hit)
found_of_required (ok none) e hit h = cc
found_of_required (ok (some found)) e hit h = cc
found_of_required (throw other_error) e hit h = cc

pub resolve_task-IsTarget :
    (s : TodoState) (task : String) (hit : Hit) → resolve_task s task ≡ ok hit → IsTarget s task hit
unfolding resolve_task
resolve_task-IsTarget s task hit h =
    find_item_found s task hit (found_of_required (find_item s task) (unknown_task task) hit h)

-- After the single `start` exactly one item is active.
pub start_op-active_count :
    (s : TodoState) (task : Field) → Returns (λ s'. active_count s'.phases ≡ 1) (start_op s task)
unfolding start_op
start_op-active_count s task = Returns->>= _ _ (selector task task_not_string) λ chosen _.
    Returns->>= _ _ (require chosen requires_target) λ name _.
      Returns->>= _ _ (resolve_task s name) λ hit e.
        let (item, at, why) = resolve_task-IsTarget s name hit e in start_one-count s hit item at

task_or_phase-HasOneActive :
    (op : Transition) (s : TodoState) (name : String) (found : Option Hit)
    → HasOneActive s
    → Returns HasOneActive (task_or_phase op s name found)
unfolding task_or_phase
task_or_phase-HasOneActive op s name (some hit) h = act_on-HasOneActive op undefined s hit h
task_or_phase-HasOneActive op s name none h =
    Returns->>= _ _ (require (find_phase s name) (unknown_task name))
      λ i _. on_phase-HasOneActive op s i h

pub choose_target-HasOneActive :
    (op : Transition) (s : TodoState) (task phase : Option String)
    → HasOneActive s
    → Returns HasOneActive (choose_target op s task phase)
unfolding choose_target
choose_target-HasOneActive op s (some task) (some phase) h = tt
choose_target-HasOneActive op s (some task) none h =
    Returns->>= _ _ (find_item s task) λ found _. task_or_phase-HasOneActive op s task found h
choose_target-HasOneActive op s none (some phase) h =
    Returns->>= _ _ (require (find_phase s phase) (unknown_phase phase))
      λ i _. on_phase-HasOneActive op s i h
choose_target-HasOneActive op s none none h = tt

-- ===== src/Todo/Keeps.antt =====
-- What applyOp of src/todo-core.ts keeps of the active items.
use steak_pi.Prelude.{
  ℕ, zero, suc, String, ◌≡◌, refl, sym, subst, ◌≢◌, inl, inr, Bool, true, false, none, some, List,
  [], ◌∷◌, ◌++◌, map, arith, Bool-cases, modify, count-append, count-map_zero,
}
use steak_pi.Todo.{
  Field, TodoPhase, TodoState, Result, ◌>>=◌, require, Transition, ItemsField, TodoOp, PlanPhase,
  has_status, in_progress, unknown_phase, task_not_string, phase_not_string, requires_target, ok,
  throw, start, finish, drop, block, unblock, rm, absent, not_array, array, init, transition,
  append, view, unsupported,
}
use steak_pi.Todo.Find.{find_phase, resolve_task, selector}
use steak_pi.Todo.Change.{act_on, bulk_step, bulk_steps}
use steak_pi.Todo.Ops.{
  texts, validate_init_list, same_plan, fresh_item, fresh_phase, promoted, init_op, start_op,
  task_op, choose_target, either_op, append_op, single_transition, bulk_change, batch_or_single,
  bulk_names, apply_op,
}
use steak_pi.Todo.Active.{
  active_count, IsPromoted, count-any_in_progress, promote_next-IsPromoted, promote_next-count,
}
use steak_pi.Todo.Invariant.{
  Returns, HasOneActive, promoted-IsPromoted, promoted-HasOneActive, Returns->>=,
  act_on-HasOneActive, start_op-active_count, choose_target-HasOneActive,
}
use steak_pi.Todo.Computed.{Returns-ok, computed, apply_op-computed}

task_op-IsPromoted :
    (op : Transition) (reason : Field) (s : TodoState) (task : Field)
    → Returns IsPromoted (task_op op reason s task)
unfolding task_op
task_op-IsPromoted op reason s task = Returns->>= _ _ (selector task task_not_string) λ chosen _.
    Returns->>= _ _ (require chosen requires_target) λ name _.
      Returns->>= _ _ (resolve_task s name) λ hit _. promoted-IsPromoted (act_on op reason s hit)

either_op-IsPromoted :
    (op : Transition) (s : TodoState) (task phase : Field)
    → Returns IsPromoted (either_op op s task phase)
unfolding either_op
either_op-IsPromoted op s task phase = Returns->>= _ _ (selector task task_not_string) λ name _.
    Returns->>= _ _ (selector phase phase_not_string)
      λ phase_name _. promoted-IsPromoted (choose_target op s name phase_name)

start_op-IsPromoted : (s : TodoState) (task : Field) → Returns IsPromoted (start_op s task)
start_op-IsPromoted s task = one_is_promoted (start_op s task) (start_op-active_count s task)
  where
    one_is_promoted :
        (r : Result TodoState) → Returns (λ s'. active_count s'.phases ≡ 1) r → Returns IsPromoted r
    one_is_promoted (ok s') h = inl (count-any_in_progress s'.phases (omega arith))
    one_is_promoted (throw e) h = tt

single_transition-IsPromoted :
    (s : TodoState) (op : Transition) (task phase reason : Field)
    → Returns IsPromoted (single_transition s op task phase reason)
unfolding single_transition
single_transition-IsPromoted s start task phase reason = start_op-IsPromoted s task
single_transition-IsPromoted s finish task phase reason = either_op-IsPromoted finish s task phase
single_transition-IsPromoted s drop task phase reason = either_op-IsPromoted drop s task phase
single_transition-IsPromoted s rm task phase reason = either_op-IsPromoted rm s task phase
single_transition-IsPromoted s block task phase reason = task_op-IsPromoted block reason s task
single_transition-IsPromoted s unblock task phase reason = task_op-IsPromoted unblock reason s task

bulk_change-promoted :
    (s : TodoState) (op : Transition) (names : List String) (reason : Field)
    → (r : Result TodoState) × (bulk_change s op names reason ≡ promoted r)
unfolding bulk_change
bulk_change-promoted s start names reason = (_, refl)
bulk_change-promoted s finish names reason = (_, refl)
bulk_change-promoted s drop names reason = (_, refl)
bulk_change-promoted s block names reason = (_, refl)
bulk_change-promoted s unblock names reason = (_, refl)
bulk_change-promoted s rm names reason = (_, refl)

bulk_change-IsPromoted :
    (s : TodoState) (op : Transition) (names : List String) (reason : Field)
    → Returns IsPromoted (bulk_change s op names reason)
bulk_change-IsPromoted s op names reason =
    let (r, e) = bulk_change-promoted s op names reason in
    subst (Returns IsPromoted) (sym e) (promoted-IsPromoted r)

computed-IsPromoted :
    (s : TodoState) (op : TodoOp) → IsPromoted s → Returns IsPromoted (computed s op)
unfolding computed init_op append_op
computed-IsPromoted s (init list) h = Returns->>= _ _ (validate_init_list list) λ plan _.
    elim (Bool-cases (same_plan s plan)) [
      | inl e ↦ rw e h
      | inr e ↦ rw e (promote_next-IsPromoted _)
    ]
computed-IsPromoted s (transition op items task phase reason) h =
    Returns->>= _ _ (bulk_names items task phase reason) λ names _.
      elim names
        as (λ n. Returns IsPromoted (elim n [
          | none ↦ single_transition s op task phase reason
          | some batch ↦ bulk_change s op batch reason
        ])) [
          | none ↦ single_transition-IsPromoted s op task phase reason
          | some batch ↦ bulk_change-IsPromoted s op batch reason
        ]
computed-IsPromoted s (append name contents) h =
    Returns->>= _ _ (require (find_phase s name) (unknown_phase name))
      λ i _. promote_next-IsPromoted _
computed-IsPromoted s view h = h
computed-IsPromoted s unsupported h = tt

-- Whatever operation succeeds, and in whatever state it starts where something is active or nothing
-- is pending, the state that it returns is such again: no pending item is left without an active one.
pub apply_op-IsPromoted :
    (s s' : TodoState) (op : TodoOp) (out : String)
    → IsPromoted s
    → (apply_op s op).1 ≡ ok (s', out)
    → IsPromoted s'
apply_op-IsPromoted s s' op out h e =
    Returns-ok IsPromoted (computed s op) s' (computed-IsPromoted s op h)
      (apply_op-computed s s' op out e)

-- A batch that starts tasks.
abbrev pub is_batch_start : TodoOp → Bool
is_batch_start (transition start (array (f ∷ fs)) task phase reason) = true
is_batch_start _ = false

bulk_steps-HasOneActive :
    (op : Transition) (reason : Field) (s : TodoState) (names : List String)
    → HasOneActive s
    → Returns HasOneActive (bulk_steps op reason s names)
unfolding bulk_steps bulk_step
bulk_steps-HasOneActive op reason s [] h = h
bulk_steps-HasOneActive op reason s (name ∷ names) h =
    after_first (bulk_step op reason s name)
      (Returns->>= _ _ (resolve_task s name) λ hit _. act_on-HasOneActive op reason s hit h)
      (λ s' h'. bulk_steps-HasOneActive op reason s' names h')
  where
    after_first :
        (r : Result TodoState)
        → Returns HasOneActive r
        → ((s' : TodoState)
            → HasOneActive s'
            → Returns HasOneActive (bulk_steps op reason s' names))
        → Returns HasOneActive (r >>= λ s'. bulk_steps op reason s' names)
    after_first (ok s') h' later = later s' h'
    after_first (throw e) h' later = tt

bulk_change-HasOneActive :
    (s : TodoState) (op : Transition) (names : List String) (reason : Field)
    → op ≢ start
    → HasOneActive s
    → Returns HasOneActive (bulk_change s op names reason)
unfolding bulk_change
bulk_change-HasOneActive s start names reason not_start h = absurd (not_start refl)
bulk_change-HasOneActive s finish names reason not_start h =
    promoted-HasOneActive _ (bulk_steps-HasOneActive finish reason s names h)
bulk_change-HasOneActive s drop names reason not_start h =
    promoted-HasOneActive _ (bulk_steps-HasOneActive drop reason s names h)
bulk_change-HasOneActive s block names reason not_start h =
    promoted-HasOneActive _ (bulk_steps-HasOneActive block reason s names h)
bulk_change-HasOneActive s unblock names reason not_start h =
    promoted-HasOneActive _ (bulk_steps-HasOneActive unblock reason s names h)
bulk_change-HasOneActive s rm names reason not_start h =
    promoted-HasOneActive _ (bulk_steps-HasOneActive rm reason s names h)

task_op-HasOneActive :
    (op : Transition) (reason : Field) (s : TodoState) (task : Field)
    → HasOneActive s
    → Returns HasOneActive (task_op op reason s task)
unfolding task_op
task_op-HasOneActive op reason s task h =
    Returns->>= _ _ (selector task task_not_string) λ chosen _.
      Returns->>= _ _ (require chosen requires_target) λ name _.
        Returns->>= _ _ (resolve_task s name)
          λ hit _. promoted-HasOneActive _ (act_on-HasOneActive op reason s hit h)

either_op-HasOneActive :
    (op : Transition) (s : TodoState) (task phase : Field)
    → HasOneActive s
    → Returns HasOneActive (either_op op s task phase)
unfolding either_op
either_op-HasOneActive op s task phase h = Returns->>= _ _ (selector task task_not_string) λ name _.
    Returns->>= _ _ (selector phase phase_not_string)
      λ phase_name _. promoted-HasOneActive _ (choose_target-HasOneActive op s name phase_name h)

start_op-HasOneActive : (s : TodoState) (task : Field) → Returns HasOneActive (start_op s task)
start_op-HasOneActive s task = one_at_most (start_op s task) (start_op-active_count s task)
  where
    one_at_most :
        (r : Result TodoState)
        → Returns (λ s'. active_count s'.phases ≡ 1) r
        → Returns HasOneActive r
    one_at_most (ok s') h = omega arith
    one_at_most (throw e) h = tt

single_transition-HasOneActive :
    (s : TodoState) (op : Transition) (task phase reason : Field)
    → HasOneActive s
    → Returns HasOneActive (single_transition s op task phase reason)
unfolding single_transition
single_transition-HasOneActive s start task phase reason h = start_op-HasOneActive s task
single_transition-HasOneActive s finish task phase reason h =
    either_op-HasOneActive finish s task phase h
single_transition-HasOneActive s drop task phase reason h =
    either_op-HasOneActive drop s task phase h
single_transition-HasOneActive s rm task phase reason h = either_op-HasOneActive rm s task phase h
single_transition-HasOneActive s block task phase reason h =
    task_op-HasOneActive block reason s task h
single_transition-HasOneActive s unblock task phase reason h =
    task_op-HasOneActive unblock reason s task h

-- Only a call with a non-empty array is a batch.
bulk_names-batch :
    (items : ItemsField) (op : Transition) (task phase reason : Field) (batch : List String)
    → is_batch_start (transition op items task phase reason) ≡ false
    → bulk_names items task phase reason ≡ ok (some batch)
    → op ≢ start
unfolding bulk_names batch_or_single texts
bulk_names-batch absent op task phase reason batch quiet h e = cc
bulk_names-batch not_array op task phase reason batch quiet h e = cc
bulk_names-batch (array []) op task phase reason batch quiet h e = ground arith
bulk_names-batch (array (f ∷ fs)) start task phase reason batch quiet h e = cc
bulk_names-batch (array (f ∷ fs)) finish task phase reason batch quiet h e = cc
bulk_names-batch (array (f ∷ fs)) drop task phase reason batch quiet h e = cc
bulk_names-batch (array (f ∷ fs)) block task phase reason batch quiet h e = cc
bulk_names-batch (array (f ∷ fs)) unblock task phase reason batch quiet h e = cc
bulk_names-batch (array (f ∷ fs)) rm task phase reason batch quiet h e = cc

fresh-active_count : (plan : List PlanPhase) → active_count (map fresh_phase plan) ≡ 0
fresh-active_count [] = refl
fresh-active_count (p ∷ plan) = omega (
  arith,
  count-map_zero (has_status in_progress) fresh_item p.items (λ x. refl),
  fresh-active_count plan,
)

append-active_count :
    (phases : List TodoPhase) (i : ℕ) (contents : List String)
    → active_count
        (modify phases i λ phase. record phase { items = phase.items ++ map fresh_item contents })
      ≡ active_count phases
append-active_count [] i contents = refl
append-active_count (p ∷ phases) zero contents = omega (
  arith,
  count-append (has_status in_progress) p.items (map fresh_item contents),
  count-map_zero (has_status in_progress) fresh_item contents (λ x. refl),
)
append-active_count (p ∷ phases) (suc i) contents =
    omega (arith, append-active_count phases i contents)

computed-HasOneActive :
    (s : TodoState) (op : TodoOp)
    → is_batch_start op ≡ false
    → HasOneActive s
    → Returns HasOneActive (computed s op)
unfolding computed init_op append_op
computed-HasOneActive s (init list) quiet h = Returns->>= _ _ (validate_init_list list) λ plan _.
    elim (Bool-cases (same_plan s plan)) [
      | inl e ↦ rw e h
      | inr e ↦ rw e (promote_next-count _ (omega (arith, fresh-active_count plan)))
    ]
computed-HasOneActive s (transition op items task phase reason) quiet h =
    Returns->>= _ _ (bulk_names items task phase reason) λ names e.
      elim names
          as (λ n.
            bulk_names items task phase reason ≡ ok n
            → Returns HasOneActive (elim n [
              | none ↦ single_transition s op task phase reason
              | some batch ↦ bulk_change s op batch reason
            ])) [
              | none ↦ λ _. single_transition-HasOneActive s op task phase reason h
              | some batch ↦ λ e.
                  bulk_change-HasOneActive s op batch reason
                    (bulk_names-batch items op task phase reason batch quiet e) h
            ]
        e
computed-HasOneActive s (append name contents) quiet h =
    Returns->>= _ _ (require (find_phase s name) (unknown_phase name))
      λ i _. promote_next-count _ (omega (arith, append-active_count s.phases i contents))
computed-HasOneActive s view quiet h = h
computed-HasOneActive s unsupported quiet h = tt

-- No operation but a batch start makes a second item active: if at most one is active before, at
-- most one is active in the state that a successful call returns.
pub apply_op-HasOneActive :
    (s s' : TodoState) (op : TodoOp) (out : String)
    → is_batch_start op ≡ false
    → HasOneActive s
    → (apply_op s op).1 ≡ ok (s', out)
    → HasOneActive s'
apply_op-HasOneActive s s' op out quiet h e =
    Returns-ok HasOneActive (computed s op) s' (computed-HasOneActive s op quiet h)
      (apply_op-computed s s' op out e)

-- ===== src/Todo/Plan.antt =====
-- The plan of a list of src/todo-core.ts: the names of its phases and the contents of their items.
use steak_pi.Prelude.{
  ℕ, zero, suc, String, ◌≡◌, refl, ap, inl, inr, Bool, true, some, List, [], ◌∷◌, map, arith,
  Bool-cases, Option-cases, modify, str_eq_iff,
}
use steak_pi.Todo.{TodoItem, TodoPhase, TodoState, Hit, PlanPhase, modify_item}
use steak_pi.Todo.Change.{
  any_in_progress, promote_items, promote_phases, promote_next, demote_items, demote_phases,
}
use steak_pi.Todo.Ops.{same_items, same_phases, same_plan, fresh_item, fresh_phase}

abbrev pub contents_of : List TodoItem → List String
contents_of = map λ item. item.content

abbrev pub plan_of : List TodoPhase → List PlanPhase
plan_of = map λ phase. record { phase = phase.name; items = contents_of phase.items }

same_items_iff :
    (items : List TodoItem) (contents : List String)
    → (same_items items contents ≡ true → contents_of items ≡ contents)
      × (contents_of items ≡ contents → same_items items contents ≡ true)
unfolding same_items
same_items_iff [] [] = (λ _. refl, λ _. refl)
same_items_iff [] (c ∷ cs) = (λ h. cc, λ h. cc)
same_items_iff (item ∷ items) [] = (λ h. cc, λ h. cc)
same_items_iff (item ∷ items) (c ∷ cs) = (
  λ h. ground (arith, str_eq_iff c item.content, (same_items_iff items cs).0),
  λ h. ground (arith, str_eq_iff c item.content, (same_items_iff items cs).1),
)

same_phases_iff :
    (phases : List TodoPhase) (plan : List PlanPhase)
    → (same_phases phases plan ≡ true → plan_of phases ≡ plan)
      × (plan_of phases ≡ plan → same_phases phases plan ≡ true)
unfolding same_phases
same_phases_iff [] [] = (λ _. refl, λ _. refl)
same_phases_iff [] (e ∷ es) = (λ h. cc, λ h. cc)
same_phases_iff (p ∷ phases) [] = (λ h. cc, λ h. cc)
same_phases_iff (p ∷ phases) (e ∷ es) = (
  λ h. ground (
    arith,
    str_eq_iff e.phase p.name,
    (same_items_iff p.items e.items).0,
    (same_phases_iff phases es).0,
  ),
  λ h. ground (
    arith,
    str_eq_iff e.phase p.name,
    (same_items_iff p.items e.items).1,
    (same_phases_iff phases es).1,
  ),
)

-- `samePlan` holds exactly of the list's own plan: same phase names and task contents, in order.
pub same_plan_iff :
    (s : TodoState) (plan : List PlanPhase)
    → (same_plan s plan ≡ true → plan_of s.phases ≡ plan)
      × (plan_of s.phases ≡ plan → same_plan s plan ≡ true)
unfolding same_plan
same_plan_iff s plan = same_phases_iff s.phases plan

-- Changes of status leave the plan alone.
contents_of-modify :
    (items : List TodoItem) (i : ℕ) (f : TodoItem → TodoItem)
    → ((x : TodoItem) → (f x).content ≡ x.content)
    → contents_of (modify items i f) ≡ contents_of items
contents_of-modify [] i f h = refl
contents_of-modify (x ∷ items) zero f h = ground (arith, h x)
contents_of-modify (x ∷ items) (suc i) f h = ground (arith, contents_of-modify items i f h)

pub plan_of-modify :
    (phases : List TodoPhase) (i : ℕ) (g : TodoPhase → TodoPhase)
    → ((p : TodoPhase) → ((g p).name ≡ p.name) × (contents_of (g p).items ≡ contents_of p.items))
    → plan_of (modify phases i g) ≡ plan_of phases
plan_of-modify [] i g h = refl
plan_of-modify (p ∷ phases) zero g h = ground (arith, h p)
plan_of-modify (p ∷ phases) (suc i) g h = ground (arith, plan_of-modify phases i g h)

pub modify_item-plan :
    (phases : List TodoPhase) (hit : Hit) (f : TodoItem → TodoItem)
    → ((x : TodoItem) → (f x).content ≡ x.content)
    → plan_of (modify_item phases hit f) ≡ plan_of phases
modify_item-plan phases hit f h =
    plan_of-modify phases hit.phase _ λ p. (refl, contents_of-modify p.items hit.index f h)

promote_items-contents :
    (items items' : List TodoItem)
    → promote_items items ≡ some items'
    → contents_of items' ≡ contents_of items
unfolding promote_items
promote_items-contents [] items' h = cc
promote_items-contents (item ∷ rest) items' h = elim (Option-cases (promote_items rest)) [
  | inl e ↦ ground arith
  | inr (r, e) ↦ ground (arith, promote_items-contents rest r e)
]

promote_phases-plan : (phases : List TodoPhase) → plan_of (promote_phases phases) ≡ plan_of phases
unfolding promote_phases
promote_phases-plan [] = refl
promote_phases-plan (p ∷ phases) = elim (Option-cases (promote_items p.items)) [
  | inl e ↦ rw (e, promote_phases) (ground (arith, promote_phases-plan phases))
  | inr (items, e) ↦ rw (e, promote_phases) (ground (arith, promote_items-contents p.items items e))
]

pub promote_next-plan : (s : TodoState) → plan_of (promote_next s).phases ≡ plan_of s.phases
unfolding promote_next
promote_next-plan s = elim (Bool-cases (any_in_progress s.phases)) [
  | inl e ↦ rw (e, promote_next)
  | inr e ↦ rw (e, promote_next) (promote_phases-plan s.phases)
]

demote_items-contents :
    (kept : ℕ → Bool) (index : ℕ) (items : List TodoItem)
    → contents_of (demote_items kept index items) ≡ contents_of items
unfolding demote_items
demote_items-contents kept index [] = refl
demote_items-contents kept index (x ∷ items) =
    ground (arith, demote_items-contents kept (suc index) items)

pub demote_phases-plan :
    (kept : ℕ → ℕ → Bool) (i : ℕ) (phases : List TodoPhase)
    → plan_of (demote_phases kept i phases) ≡ plan_of phases
unfolding demote_phases
demote_phases-plan kept i [] = refl
demote_phases-plan kept i (p ∷ phases) =
    ground (arith, demote_items-contents (kept i) 0 p.items, demote_phases-plan kept (suc i) phases)

fresh-contents : (contents : List String) → contents_of (map fresh_item contents) ≡ contents
fresh-contents [] = refl
fresh-contents (c ∷ cs) = ap (λ (r : List String). c ∷ r) (fresh-contents cs)

pub fresh-plan : (plan : List PlanPhase) → plan_of (map fresh_phase plan) ≡ plan
fresh-plan [] = refl
fresh-plan (p ∷ plan) = ground (arith, fresh-contents p.items, fresh-plan plan)

-- ===== src/Todo/Active.antt =====
-- The active items of src/todo-core.ts: how many there are, and that no pending item waits for nothing.
use steak_pi.Prelude.{
  ℕ, zero, suc, ◌+◌, ◌≤◌, ◌<◌, ◌≡◌, refl, ◌∙◌, ◌⊎◌, inl, inr, Bool, true, false, none, some, List,
  [], ◌∷◌, arith, ◌==◌, Bool-cases, Option-cases, get_elem?, modify, any, count, count_of_not-any,
  any_of_count,
}
use steak_pi.Todo.{
  TodoItem, TodoPhase, TodoState, Hit, has_status, set_status, pending, in_progress,
}
use steak_pi.Todo.Locate.{item_at}
use steak_pi.Todo.Change.{
  any_in_progress, promote_items, promote_phases, promote_next, demote_items, demote_phases, is_at,
  start_one,
}

abbrev pub active_count : List TodoPhase → ℕ
active_count [] = 0
active_count (phase ∷ rest) = count (has_status in_progress) phase.items + active_count rest

abbrev pub any_pending : List TodoPhase → Bool
any_pending = any λ phase. any (has_status pending) phase.items

-- Something is active, or nothing is pending.
abbrev pub IsPromoted : TodoState → Type 0
IsPromoted s = (any_in_progress s.phases ≡ true) ⊎ (any_pending s.phases ≡ false)

-- Promotion.
promote_items-none :
    (items : List TodoItem) → promote_items items ≡ none → any (has_status pending) items ≡ false
unfolding promote_items
promote_items-none [] h = refl
promote_items-none (item ∷ rest) h = ground (arith, promote_items-none rest)

promote_items-some :
    (items : List TodoItem) (items' : List TodoItem)
    → promote_items items ≡ some items'
    → count (has_status in_progress) items' ≡ suc (count (has_status in_progress) items)
unfolding promote_items
promote_items-some [] items' h = cc
promote_items-some (item ∷ rest) items' h = elim (Option-cases (promote_items rest)) [
  | inl e ↦ ground arith
  | inr (r, e) ↦ ground (arith, promote_items-some rest r e)
]

promote_phases-any :
    (phases : List TodoPhase)
    → (any_in_progress (promote_phases phases) ≡ true)
      ⊎ (any_pending (promote_phases phases) ≡ false)
unfolding promote_phases any_in_progress
promote_phases-any [] = inr refl
promote_phases-any (phase ∷ rest) = elim (Option-cases (promote_items phase.items)) [
  | inl e ↦
      rw (e, promote_phases)
        (ground (arith, promote_items-none phase.items e, promote_phases-any rest))
  | inr (items, e) ↦
      rw (e, promote_phases)
        (inl (
          ground (
            arith,
            any_of_count (has_status in_progress) items
                (omega (arith, promote_items-some phase.items items e)),
          )))
]

promote_phases-count :
    (phases : List TodoPhase) → active_count (promote_phases phases) ≤ suc (active_count phases)
unfolding promote_phases
promote_phases-count [] = omega arith
promote_phases-count (phase ∷ rest) = elim (Option-cases (promote_items phase.items)) [
  | inl e ↦ rw (e, promote_phases) (omega (arith, promote_phases-count rest))
  | inr (items, e) ↦ rw (e, promote_phases) (omega (arith, promote_items-some phase.items items e))
]

pub any_in_progress-count :
    (phases : List TodoPhase) → any_in_progress phases ≡ false → active_count phases ≡ 0
unfolding any_in_progress
any_in_progress-count [] h = refl
any_in_progress-count (phase ∷ rest) h =
    ground
      (arith, count_of_not-any (has_status in_progress) phase.items, any_in_progress-count rest)

pub count-any_in_progress :
    (phases : List TodoPhase) → 0 < active_count phases → any_in_progress phases ≡ true
unfolding any_in_progress
count-any_in_progress [] h = absurd (omega arith)
count-any_in_progress (phase ∷ rest) h =
    ground (arith, any_of_count (has_status in_progress) phase.items, count-any_in_progress rest)

-- Starting one task: everything else is demoted.
demote_items-count_zero :
    (kept : ℕ → Bool) (index : ℕ) (items : List TodoItem)
    → ((n : ℕ) → index ≤ n → kept n ≡ false)
    → count (has_status in_progress) (demote_items kept index items) ≡ 0
unfolding demote_items
demote_items-count_zero kept index [] h = refl
demote_items-count_zero kept index (item ∷ rest) h = ground (
  arith,
  h index (omega arith),
  demote_items-count_zero kept (suc index) rest (λ n k. h n (omega arith)),
)

demote_items-count_one :
    (hit : Hit) (index k : ℕ) (items : List TodoItem) (item : TodoItem)
    → hit.index ≡ index + k
    → get_elem? items k ≡ some item
    → (kept : ℕ → Bool) → ((n : ℕ) → kept n ≡ (hit.index == n))
    → count
        (has_status in_progress)
        (modify (demote_items kept index items) k (set_status in_progress))
      ≡ 1
unfolding demote_items
demote_items-count_one hit index k [] item e at kept same = cc
demote_items-count_one hit index zero (x ∷ items) item e at kept same =
    ground (arith, demote_items-count_zero kept (suc index) items (λ n le. same n ∙ ground arith))
demote_items-count_one hit index (suc k) (x ∷ items) item e at kept same = ground (
  arith,
  same index,
  demote_items-count_one hit (suc index) k items item (omega arith) at kept same,
)

demote_phases-count_zero :
    (kept : ℕ → ℕ → Bool) (i : ℕ) (phases : List TodoPhase)
    → ((a b : ℕ) → i ≤ a → kept a b ≡ false)
    → active_count (demote_phases kept i phases) ≡ 0
unfolding demote_phases
demote_phases-count_zero kept i [] h = refl
demote_phases-count_zero kept i (phase ∷ rest) h = omega (
  arith,
  demote_items-count_zero (kept i) 0 phase.items (λ n le. h i n (omega arith)),
  demote_phases-count_zero kept (suc i) rest (λ a b le. h a b (omega arith)),
)

start-count_from :
    (hit : Hit) (i k : ℕ) (phases : List TodoPhase) (phase : TodoPhase) (item : TodoItem)
    → hit.phase ≡ i + k
    → get_elem? phases k ≡ some phase
    → get_elem? phase.items hit.index ≡ some item
    → active_count (
        modify
          (demote_phases (is_at hit) i phases)
          k
          λ p. record p { items = modify p.items hit.index (set_status in_progress) })
      ≡ 1
unfolding demote_phases
start-count_from hit i k [] phase item e at found = cc
start-count_from hit i zero (p ∷ phases) phase item e at found = omega (
  arith,
  demote_items-count_one hit 0 hit.index p.items item (omega arith) (ground arith) (is_at hit i)
      (λ n. ground arith),
  demote_phases-count_zero (is_at hit) (suc i) phases (λ a b le. ground arith),
)
start-count_from hit i (suc k) (p ∷ phases) phase item e at found = omega (
  arith,
  demote_items-count_zero (is_at hit i) 0 p.items (λ n le. ground arith),
  start-count_from hit (suc i) k phases phase item (omega arith) at found,
)

pub start_one-count :
    (s : TodoState) (hit : Hit) (item : TodoItem)
    → item_at s.phases hit ≡ some item
    → active_count (start_one s hit).phases ≡ 1
unfolding start_one
start_one-count s hit item at = elim (Option-cases (get_elem? s.phases hit.phase)) [
  | inl e ↦ ground arith
  | inr (phase, e) ↦
      start-count_from hit 0 hit.phase s.phases phase item (omega arith) e (ground arith)
]

pub promote_next-IsPromoted : (s : TodoState) → IsPromoted (promote_next s)
unfolding promote_next
promote_next-IsPromoted s = elim (Bool-cases (any_in_progress s.phases)) [
  | inl e ↦ rw (e, promote_next) (inl e)
  | inr e ↦ rw (e, promote_next) (promote_phases-any s.phases)
]

pub promote_next-count :
    (s : TodoState) → active_count s.phases ≤ 1 → active_count (promote_next s).phases ≤ 1
unfolding promote_next
promote_next-count s h = elim (Bool-cases (any_in_progress s.phases)) [
  | inl e ↦ rw (e, promote_next) h
  | inr e ↦
      rw (e, promote_next)
        (omega (arith, any_in_progress-count s.phases e, promote_phases-count s.phases))
]

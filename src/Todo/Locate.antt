-- ===== src/Todo/Locate.antt =====
-- What findItem of src/todo-core.ts finds.
use steak_pi.Prelude.{
  ℕ, zero, suc, ◌+◌, String, ◌≡◌, refl, ◌∙◌, subst, ◌≢◌, ◌⊎◌, inl, inr, true, false, Option, none,
  some, List, [], ◌∷◌, arith, Bool-cases, Option-cases, get_elem?, find_index, All, All-append,
  All-map, Inside, Inside-append_left, Inside-append_right, find_index_found, find_index-none,
  str_eq_iff,
}
use package.text.Mathlib.Text.{starts_with}
use steak_pi.Todo.{TodoItem, TodoPhase, TodoState, Hit, Result, ok}
use steak_pi.Todo.Find.{
  has_content, find_exact, matches_in, prefix_matches, unique_match, find_item,
}

-- The item at a place.
abbrev pub item_at : List TodoPhase → Hit → Option TodoItem
item_at phases hit = elim (get_elem? phases hit.phase) [
  | none ↦ none
  | some phase ↦ get_elem? phase.items hit.index
]

-- The same, for a list of phases whose first has this index.
ItemFrom : ℕ → List TodoPhase → Hit → TodoItem → Type 0
ItemFrom i phases hit item =
    (k : ℕ) × (phase : TodoPhase) × (hit.phase ≡ i + k)
    × (get_elem? phases k ≡ some phase)
    × (get_elem? phase.items hit.index ≡ some item)

ItemFrom-item_at :
    (phases : List TodoPhase) (hit : Hit) (item : TodoItem)
    → ItemFrom 0 phases hit item
    → item_at phases hit ≡ some item
unfolding ItemFrom
ItemFrom-item_at phases hit item (k, phase, e, at, found) = ground arith

item_at-ItemFrom :
    (phases : List TodoPhase) (hit : Hit) (item : TodoItem)
    → item_at phases hit ≡ some item
    → ItemFrom 0 phases hit item
unfolding ItemFrom
item_at-ItemFrom phases hit item h = elim (Option-cases (get_elem? phases hit.phase)) [
  | inl e ↦ ground arith
  | inr (phase, e) ↦ (hit.phase, phase, omega arith, e, ground arith)
]

ItemFrom-later :
    (i : ℕ) (p : TodoPhase) (phases : List TodoPhase) (hit : Hit) (item : TodoItem)
    → ItemFrom (suc i) phases hit item
    → ItemFrom i (p ∷ phases) hit item
unfolding ItemFrom
ItemFrom-later i p phases hit item (k, phase, e, at, found) =
    (suc k, phase, omega (arith, e), at, found)

found_index :
    (task : String) (i : ℕ) (p : TodoPhase) (phases : List TodoPhase) (hit : Hit) (j k : ℕ)
    → find_exact task i (p ∷ phases) ≡ some hit
    → find_index (has_content task) 0 p.items ≡ some j
    → j ≡ 0 + k
    → (hit.phase ≡ i) × (k ≡ hit.index)
unfolding find_exact
found_index task i p phases hit j k h e same = (ground arith, ground arith)

find_exact_found :
    (task : String) (i : ℕ) (phases : List TodoPhase) (hit : Hit)
    → find_exact task i phases ≡ some hit
    → (item : TodoItem) × ItemFrom i phases hit item × (item.content ≡ task)
unfolding find_exact ItemFrom
find_exact_found task i [] hit h = cc
find_exact_found task i (p ∷ phases) hit h =
    elim (Option-cases (find_index (has_content task) 0 p.items)) [
      | inl e ↦
          let (item, at, same) =
            find_exact_found task (suc i) phases hit (rw (e, find_exact) at h) in
          (item, ItemFrom-later i p phases hit item at, same)
      | inr (j, e) ↦
          let (k, item, same, at, holds) = find_index_found (has_content task) 0 p.items j e in
          (
            item,
            (
              0,
              p,
              omega (arith, found_index task i p phases hit j k h e same),
              refl,
              subst (λ (n : ℕ). get_elem? p.items n ≡ some item)
                  (found_index task i p phases hit j k h e same).1 at,
            ),
            (str_eq_iff item.content task).0 holds,
          )
    ]

find_exact-none-cons :
    (task : String) (i : ℕ) (p : TodoPhase) (phases : List TodoPhase)
    → find_exact task i (p ∷ phases) ≡ none
    → (find_index (has_content task) 0 p.items ≡ none) × (find_exact task (suc i) phases ≡ none)
unfolding find_exact
find_exact-none-cons task i p phases h = (ground arith, ground arith)

find_exact-none :
    (task : String) (i : ℕ) (phases : List TodoPhase) (hit : Hit) (item : TodoItem)
    → find_exact task i phases ≡ none
    → ItemFrom i phases hit item
    → item.content ≢ task
unfolding ItemFrom
find_exact-none task i [] hit item h (k, phase, e, at, found) = cc
find_exact-none task i (p ∷ phases) hit item h (zero, phase, e, at, found) = ground (
  arith,
  find_index-none (has_content task) 0 p.items (find_exact-none-cons task i p phases h).0 hit.index
      item,
  str_eq_iff item.content task,
)
find_exact-none task i (p ∷ phases) hit item h (suc k, phase, e, at, found) =
    find_exact-none task (suc i) phases hit item (find_exact-none-cons task i p phases h).1
      (k, phase, omega (arith, e), at, found)

matches_in_all :
    (task : String) (i index : ℕ) (items : List TodoItem) (hit : Hit) (k : ℕ) (item : TodoItem)
    → hit.phase ≡ i
    → hit.index ≡ index + k
    → get_elem? items k ≡ some item
    → starts_with item.content task ≡ true
    → Inside hit (matches_in task i index items)
unfolding matches_in
matches_in_all task i index [] hit k item e f at h = ground arith
matches_in_all task i index (x ∷ items) hit zero item e f at h = ground arith
matches_in_all task i index (x ∷ items) hit (suc k) item e f at h =
    ground (arith, matches_in_all task i (suc index) items hit k item)

prefix_matches_all :
    (task : String) (i : ℕ) (phases : List TodoPhase) (hit : Hit) (item : TodoItem)
    → ItemFrom i phases hit item
    → starts_with item.content task ≡ true
    → Inside hit (prefix_matches task i phases)
unfolding prefix_matches ItemFrom
prefix_matches_all task i [] hit item (k, phase, e, at, found) h = cc
prefix_matches_all task i (p ∷ phases) hit item (zero, phase, e, at, found) h =
    Inside-append_left hit _ _ (
      matches_in_all task i 0 p.items hit hit.index item (omega (arith, e)) (omega arith)
        (ground arith) h)
prefix_matches_all task i (p ∷ phases) hit item (suc k, phase, e, at, found) h =
    Inside-append_right hit _ _
      (prefix_matches_all task (suc i) phases hit item (k, phase, omega (arith, e), at, found) h)

-- A match among the items of phase `i`, of which the first has this index.
abbrev MatchAt : String → ℕ → ℕ → List TodoItem → Hit → Type 0
MatchAt task i index items hit =
    (k : ℕ) × (item : TodoItem) × (hit.phase ≡ i)
    × (hit.index ≡ index + k)
    × (get_elem? items k ≡ some item)
    × (starts_with item.content task ≡ true)

MatchAt-later :
    (task : String) (i index : ℕ) (x : TodoItem) (items : List TodoItem) (hits : List Hit)
    → All (MatchAt task i (suc index) items) hits
    → All (MatchAt task i index (x ∷ items)) hits
MatchAt-later task i index x items hits h =
    All-map hits (λ hit (k, item, e, f, at, begins). (suc k, item, e, omega (arith, f), at, begins))
      h

matches_in_sound :
    (task : String) (i index : ℕ) (items : List TodoItem)
    → All (MatchAt task i index items) (matches_in task i index items)
unfolding matches_in
matches_in_sound task i index [] = tt
matches_in_sound task i index (x ∷ items) =
    let later = MatchAt-later task i index x items _ (matches_in_sound task i (suc index) items) in
    elim (Bool-cases (starts_with x.content task)) [
      | inl h ↦ rw (h, matches_in) ((0, x, refl, omega arith, refl, h), later)
      | inr h ↦ rw (h, matches_in) later
    ]

-- A place, counting phases from `i`, whose item begins with the text.
abbrev PrefixAt : String → ℕ → List TodoPhase → Hit → Type 0
PrefixAt task i phases hit =
    (item : TodoItem) × ItemFrom i phases hit item × (starts_with item.content task ≡ true)

prefix_matches_sound :
    (task : String) (i : ℕ) (phases : List TodoPhase)
    → All (PrefixAt task i phases) (prefix_matches task i phases)
unfolding prefix_matches ItemFrom
prefix_matches_sound task i [] = tt
prefix_matches_sound task i (p ∷ phases) =
    All-append (PrefixAt task i (p ∷ phases)) (matches_in task i 0 p.items) _
      (All-map (matches_in task i 0 p.items)
        (λ hit (k, item, e, f, at, h). (
          item,
          (
            0,
            p,
            omega (arith, e),
            refl,
            subst (λ (n : ℕ). get_elem? p.items n ≡ some item) (omega (arith, f)) at,
          ),
          h,
        ))
        (matches_in_sound task i 0 p.items))
      (All-map (prefix_matches task (suc i) phases)
        (λ hit (item, at, h). (item, ItemFrom-later i p phases hit item at, h))
        (prefix_matches_sound task (suc i) phases))

-- What a place that was found for a task is: its item has exactly that content, or else no item has
-- and it is the only one that begins with it.
abbrev pub IsTarget : TodoState → String → Hit → Type 0
IsTarget s task hit =
    (item : TodoItem) × (item_at s.phases hit ≡ some item)
    × ((item.content ≡ task)
        ⊎ ((starts_with item.content task ≡ true)
            × ((h : Hit) (x : TodoItem) → item_at s.phases h ≡ some x → x.content ≢ task)
            × ((h : Hit) (x : TodoItem)
                → item_at s.phases h ≡ some x
                → starts_with x.content task ≡ true
                → h ≡ hit)))

only_IsTarget :
    (s : TodoState) (task : String) (only : Hit)
    → find_exact task 0 s.phases ≡ none
    → prefix_matches task 0 s.phases ≡ only ∷ []
    → IsTarget s task only
only_IsTarget s task only none_exact e =
    let sound =
      subst (λ (hs : List Hit). All (PrefixAt task 0 s.phases) hs) e
        (prefix_matches_sound task 0 s.phases) in
    (
      sound.0.0,
      ItemFrom-item_at s.phases only sound.0.0 sound.0.1,
      inr (
        sound.0.2,
        λ h x at. find_exact-none task 0 s.phases h x none_exact (item_at-ItemFrom s.phases h x at),
        λ h x at begins. singleton_Inside h (complete h x at begins),
      ),
    )
  where
    complete :
        (h : Hit) (x : TodoItem)
        → item_at s.phases h ≡ some x
        → starts_with x.content task ≡ true
        → Inside h (only ∷ [])
    complete h x at begins =
        subst (λ (hs : List Hit). Inside h hs) e
          (prefix_matches_all task 0 s.phases h x (item_at-ItemFrom s.phases h x at) begins)

    singleton_Inside : (h : Hit) → Inside h (only ∷ []) → h ≡ only
    singleton_Inside h (inl same) = same
    singleton_Inside h (inr never) = elim never [ ]

unique_IsTarget :
    (s : TodoState) (task : String) (hit : Hit) (hits : List Hit)
    → find_exact task 0 s.phases ≡ none
    → prefix_matches task 0 s.phases ≡ hits
    → unique_match task hits ≡ ok (some hit)
    → IsTarget s task hit
unfolding unique_match
unique_IsTarget s task hit [] none_exact e h = cc
unique_IsTarget s task hit (only ∷ []) none_exact e h =
    subst (IsTarget s task) (cc) (only_IsTarget s task only none_exact e)
unique_IsTarget s task hit (one ∷ two ∷ rest) none_exact e h = cc

exact_IsTarget :
    (s : TodoState) (task : String) (hit : Hit)
    → find_exact task 0 s.phases ≡ some hit
    → IsTarget s task hit
exact_IsTarget s task hit e =
    let (item, at, same) = find_exact_found task 0 s.phases hit e in
    (item, ItemFrom-item_at s.phases hit item at, inl same)

-- A task that is found stands at a place that exists. Its item has exactly that content; or no item
-- has, and it is the only item whose content begins with the text.
pub find_item_found :
    (s : TodoState) (task : String) (hit : Hit)
    → find_item s task ≡ ok (some hit)
    → IsTarget s task hit
unfolding find_item
find_item_found s task hit h = elim (Option-cases (find_exact task 0 s.phases)) [
  | inl e ↦ unique_IsTarget s task hit _ e refl (rw (e, find_item) at h)
  | inr (found, e) ↦ exact_IsTarget s task hit (e ∙ same found (rw (e, find_item) at h))
]
  where
    same :
        (found : Hit)
        → ◌≡◌ {A = Result (Option Hit)} (ok (some found)) (ok (some hit))
        → some found ≡ some hit
    same found h = cc

no_match : (task : String) (hits : List Hit) → unique_match task hits ≡ ok none → hits ≡ []
unfolding unique_match
no_match task [] h = refl
no_match task (one ∷ []) h = cc
no_match task (one ∷ two ∷ rest) h = cc

find_item-none-parts :
    (s : TodoState) (task : String)
    → find_item s task ≡ ok none
    → (find_exact task 0 s.phases ≡ none) × (prefix_matches task 0 s.phases ≡ [])
unfolding find_item
find_item-none-parts s task h = elim (Option-cases (find_exact task 0 s.phases)) [
  | inl e ↦ (e, no_match task (prefix_matches task 0 s.phases) (rw (e, find_item) at h))
  | inr (found, e) ↦ absurd (wrong found (rw (e, find_item) at h))
]
  where
    wrong : (found : Hit) → ◌≡◌ {A = Result (Option Hit)} (ok (some found)) (ok none) → ⊥
    wrong found h = cc

-- A text that is not found is neither the content of an item nor the beginning of one.
pub find_item-none :
    (s : TodoState) (task : String) (hit : Hit) (item : TodoItem)
    → find_item s task ≡ ok none
    → item_at s.phases hit ≡ some item
    → (item.content ≢ task) × (starts_with item.content task ≡ false)
find_item-none s task hit item h at =
    let (exact, matched) = find_item-none-parts s task h in
    let place = item_at-ItemFrom s.phases hit item at in
    (
      find_exact-none task 0 s.phases hit item exact place,
      elim (Bool-cases (starts_with item.content task)) [
        | inl begins ↦
            elim (subst (λ (hs : List Hit). Inside hit hs) matched
              (prefix_matches_all task 0 s.phases hit item place begins)) [ ]
        | inr other_text ↦ other_text
      ],
    )

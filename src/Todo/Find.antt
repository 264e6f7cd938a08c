-- ===== src/Todo/Find.antt =====
-- src/todo-core.ts: findItem, findPhase, resolveTask and selector.
use steak_pi.Prelude.{
  ℕ, suc, String, Bool, Option, none, some, List, [], ◌∷◌, ◌++◌, if◌then◌else◌, find_index, str_eq,
  is_blank,
}
use text.Mathlib.Text.{starts_with}
use steak_pi.Todo.{
  Field, TodoItem, TodoPhase, TodoState, Hit, TodoError, Result, ◌>>=◌, require, undefined, null,
  string, other, ambiguous_prefix, unknown_task, ok, throw,
}

abbrev pub is_named : String → TodoPhase → Bool
is_named name phase = str_eq phase.name name

abbrev pub has_content : String → TodoItem → Bool
has_content task item = str_eq item.content task

-- The first phase that has the exact content, and the index of its first such item.
unfoldable pub find_exact : String → ℕ → List TodoPhase → Option Hit
find_exact task i [] = none
find_exact task i (phase ∷ rest) = elim (find_index (has_content task) 0 phase.items) [
  | none ↦ find_exact task (suc i) rest
  | some index ↦ some (record { phase = i; index = index })
]

unfoldable pub matches_in : String → ℕ → ℕ → List TodoItem → List Hit
matches_in task i index [] = []
matches_in task i index (item ∷ rest) =
    if starts_with item.content task
    then record { phase = i; index = index } ∷ matches_in task i (suc index) rest
    else matches_in task i (suc index) rest

-- Every item whose content begins with the text.
unfoldable pub prefix_matches : String → ℕ → List TodoPhase → List Hit
unfolding matches_in
prefix_matches task i [] = []
prefix_matches task i (phase ∷ rest) =
    matches_in task i 0 phase.items ++ prefix_matches task (suc i) rest

unfoldable pub unique_match : String → List Hit → Result (Option Hit)
unique_match task [] = ok none
unique_match task (hit ∷ []) = ok (some hit)
unique_match task (hit ∷ more ∷ rest) = throw (ambiguous_prefix task)

unfoldable pub find_item : TodoState → String → Result (Option Hit)
unfolding find_exact prefix_matches unique_match
find_item s task = elim (find_exact task 0 s.phases) [
  | some hit ↦ ok (some hit)
  | none ↦ unique_match task (prefix_matches task 0 s.phases)
]

-- `findPhase`, as the index of the phase.
unfoldable pub find_phase : TodoState → String → Option ℕ
find_phase s name = find_index (is_named name) 0 s.phases

unfoldable pub resolve_task : TodoState → String → Result Hit
resolve_task s task = do found ← find_item s task; require found (unknown_task task)

-- `selector`: an absent, null or blank value selects nothing.
unfoldable pub selector : Field → TodoError → Result (Option String)
selector undefined e = ok none
selector null e = ok none
selector (other b s) e = throw e
selector (string s) e = ok (if is_blank s then none else some s)

-- ===== src/Todo/Render.antt =====
-- src/todo-core.ts: phaseProgress and render.
use steak_pi.Prelude.{
  ℕ, suc, ◌+◌, String, ◌&&◌, List, [], ◌∷◌, ◌++◌, map, ◌==◌, if◌then◌else◌, length, count, decimal,
  join_lines,
}
use Prim.Native.String.{◌++◌ as concat}
use steak_pi.Todo.{
  TodoStatus, Field, TodoItem, TodoPhase, TodoState, is_status, has_status, truthy, pending,
  in_progress, done, blocked, undefined, null, string, other,
}

abbrev pub status_mark : TodoStatus → String
status_mark done = "[x]"
status_mark in_progress = "[>]"
status_mark pending = "[ ]"
status_mark blocked = "[!]"

unfoldable pub all_items : List TodoPhase → List TodoItem
all_items [] = []
all_items (phase ∷ rest) = phase.items ++ all_items rest

unfoldable pub phase_progress : TodoPhase → ℕ × ℕ
phase_progress phase = (count (has_status done) phase.items, length phase.items)

abbrev printed : Field → String
printed undefined = "undefined"
printed null = "null"
printed (string s) = s
printed (other b s) = s

abbrev glue : List String → String
glue [] = ""
glue (s ∷ rest) = concat s (glue rest)

item_line : TodoItem → String
item_line item =
    let suffix : String =
      if is_status item.status blocked && truthy item.reason
      then glue (" — " ∷ printed item.reason ∷ [])
      else "" in
    glue ("   " ∷ status_mark item.status ∷ " " ∷ item.content ∷ suffix ∷ [])

phase_line : ℕ → TodoPhase → String
unfolding phase_progress
phase_line i phase =
    let (finished, total) = phase_progress phase in
    glue (
      decimal (i + 1)
      ∷ ". "
      ∷ phase.name
      ∷ " ("
      ∷ decimal finished
      ∷ "/"
      ∷ decimal total
      ∷ ")"
      ∷ [])

phase_lines : ℕ → List TodoPhase → List String
unfolding phase_line item_line
phase_lines i [] = []
phase_lines i (phase ∷ rest) =
    phase_line i phase ∷ (map item_line phase.items ++ phase_lines (suc i) rest)

unfoldable pub render : TodoState → String
unfolding phase_lines all_items
render s =
    let everything = all_items s.phases in
    let finished = count (has_status done) everything in
    let notice : List String =
      if length everything == 0
      then "Todo list is empty. Use init with a phased list." ∷ []
      else [] in
    join_lines (
      notice
      ++ (phase_lines 0 s.phases
          ++ glue
              ("Overall: " ∷ decimal finished ∷ "/" ∷ decimal (length everything) ∷ " done." ∷ [])
            ∷ []))

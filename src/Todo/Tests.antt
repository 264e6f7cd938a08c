-- ===== src/Todo/Tests.antt =====
-- A list of two phases: the theorems of the todo list at calls that promote, start, batch and repeat.
use steak_pi.Prelude.{
  String, ◌≡◌, refl, inl, none, some, [], ◌∷◌, arith, is_blank, decimal, join_lines,
}
use steak_pi.Todo.{
  TodoStatus, TodoItem, TodoState, Hit, InitList, TodoOp, pending, in_progress, done, undefined,
  string, ambiguous_prefix, ok, throw, start, finish, absent, array, entries, init, transition,
}
use steak_pi.Todo.Find.{find_item, find_phase, resolve_task, selector}
use steak_pi.Todo.Change.{any_in_progress, promote_next, act_on}
use steak_pi.Todo.Ops.{
  texts, validate_init_list, same_plan, on_copy, init_op, single_transition, bulk_change,
  bulk_names, apply_op,
}
use steak_pi.Todo.Render.{all_items, phase_progress, render}
use steak_pi.Todo.Active.{IsPromoted}
use steak_pi.Todo.Invariant.{HasOneActive}
use steak_pi.Todo.Plan.{plan_of}
use steak_pi.Todo.Keeps.{apply_op-IsPromoted, apply_op-HasOneActive}
use steak_pi.Todo.Repeat.{transition-plan, init_again}
use steak_pi.Todo.Atomic.{bulk_change_one}

abbrev item : String → TodoStatus → TodoItem
item content st = record { content = content; status = st; reason = undefined }

abbrev work : TodoState
work = record {
  phases =
      record {
        name = "build";
        items = item "write code" in_progress ∷ item "write docs" pending ∷ [];
      }
      ∷ record { name = "check"; items = item "test" pending ∷ [] }
      ∷ [];
}

abbrev empty_list : TodoState
empty_list = record { phases = [] }

abbrev plan : InitList
plan = entries (
    record {
      phase = string "build";
      items = array (string "write code" ∷ string "write docs" ∷ []);
    }
    ∷ record { phase = string "check"; items = array (string "test" ∷ []) }
    ∷ [])

init_test : (apply_op empty_list (init plan)).1 ≡ ok (work, render work)
unfolding apply_op on_copy init_op validate_init_list texts same_plan promote_next
init_test = refl

render_test :
    render work
    ≡ "1. build (0/2)\n   [>] write code\n   [ ] write docs\n2. check (0/1)\n   [ ] test\nOverall: 0/3 done."
unfolding render phase_progress all_items decimal join_lines
render_test = refl

abbrev done_op : TodoOp
done_op = transition finish absent (string "write c") undefined undefined

abbrev after_done : TodoState
after_done = record {
  phases =
      record { name = "build"; items = item "write code" done ∷ item "write docs" in_progress ∷ [] }
      ∷ record { name = "check"; items = item "test" pending ∷ [] }
      ∷ [];
}

done_test : (apply_op work done_op).1 ≡ ok (after_done, render after_done)
unfolding apply_op single_transition find_item find_phase resolve_task selector is_blank
    promote_next act_on bulk_names
done_test = refl

work-IsPromoted : IsPromoted work
unfolding any_in_progress
work-IsPromoted = inl refl

apply_op-IsPromoted_example : IsPromoted after_done
apply_op-IsPromoted_example =
    apply_op-IsPromoted work after_done done_op (render after_done) work-IsPromoted done_test

apply_op-HasOneActive_example : HasOneActive after_done
apply_op-HasOneActive_example =
    apply_op-HasOneActive work after_done done_op (render after_done) refl (omega arith) done_test

ambiguous :
    (apply_op work (transition start absent (string "write") undefined undefined)).1
    ≡ throw (ambiguous_prefix "write")
unfolding apply_op single_transition find_item resolve_task selector is_blank bulk_names
ambiguous = refl

abbrev second : Hit
second = record { phase = 1; index = 0 }

finds_test : find_item work "te" ≡ ok (some second)
unfolding find_item
finds_test = refl

misses : find_item work "deploy" ≡ ok none
unfolding find_item
misses = refl

bulk_change_one_example :
    bulk_change work start ("te" ∷ []) undefined
    ≡ single_transition work start (string "te") undefined undefined
bulk_change_one_example =
    bulk_change_one work start "te" undefined second (unfold is_blank in refl) finds_test

transition-plan_example : plan_of after_done.phases ≡ plan_of work.phases
transition-plan_example =
    transition-plan work after_done finish absent (string "write c") undefined undefined
      (render after_done) refl done_test

init_again_example :
    apply_op after_done (init plan) ≡ (after_done, ok (after_done, render after_done))
init_again_example = init_again empty_list work after_done plan (render work) init_test refl

-- ===== src/Coordinator/Tests.antt =====
-- A run of src/subagents/coordinator.ts with two places and three tasks.
use steak_pi.Prelude.{min, ◌≡◌, refl, true, false, none, some, List, [], ◌∷◌, keep}
use steak_pi.Coordinator.{
  Run, SubagentCoordinator, WorkerResult, is_active, pump, Event, step, steps, queued, done,
  run_done, starts, runs, leaves, returns, throws, cancels_task, cancels, expires,
}
use steak_pi.Coordinator.Registry.{
  max_retained_terminal_runs, RunRequest, fresh_task, fresh_run, settled_count, prune_terminal_runs,
  prune_terminal_runs-retained,
}
use steak_pi.Coordinator.Settled.{state_at, steps-state_at}
use steak_pi.Coordinator.Wait.{
  WaitEvent, snapshot, wait, notices, IsHonest, wait-IsHonest, next_task, timeout_of, changed,
  fired,
}
use steak_pi.Coordinator.Slots.{IsCounted, steps-pump-IsCounted}

abbrev three_tasks : RunRequest
three_tasks = record {
  id = "r";
  active = true;
  concurrency = 2;
  task_ids = "a" ∷ "b" ∷ "c" ∷ [];
  task_states = queued ∷ queued ∷ queued ∷ [];
  timeout_ms = 60000;
  max_turns = 5;
}

abbrev report : WorkerResult
report = record { state = done; has_body = true; error = none; turns = some 2; usage = 7 }

abbrev life : List Event
life =
    starts 0
    ∷ runs 0
    ∷ returns 0 report
    ∷ leaves 0
    ∷ cancels_task "b" "enough"
    ∷ throws 1 "gone"
    ∷ leaves 1
    ∷ []

steps-pump-IsCounted_example : IsCounted (steps (pump (fresh_run three_tasks)) life)
steps-pump-IsCounted_example = steps-pump-IsCounted three_tasks life

-- The third task has the place that the first two left.
life_in_flight : (steps (pump (fresh_run three_tasks)) life).in_flight ≡ 1
unfolding steps step pump
life_in_flight = refl

abbrev reported : Run
reported = record (fresh_run three_tasks) {
  tasks = record (fresh_task "a") { state = done; dispatched = true } ∷ fresh_task "b" ∷ [];
}

abbrev too_late : List Event
too_late = cancels "stop" ∷ expires ∷ throws 0 "late" ∷ returns 0 report ∷ []

steps-state_at_example : state_at (steps reported too_late).tasks 0 ≡ some done
steps-state_at_example = steps-state_at reported too_late 0 done refl refl

abbrev over : Run
over = record (fresh_run three_tasks) { state = run_done }

abbrev history : SubagentCoordinator
history = record { runs = over ∷ fresh_run three_tasks ∷ []; closed = false }

prune_terminal_runs-retained_example :
    let kept = (prune_terminal_runs history).runs in
    (keep (λ run. is_active run.state) kept ≡ keep (λ run. is_active run.state) history.runs)
    × (settled_count kept ≡ min (settled_count history.runs) max_retained_terminal_runs)
prune_terminal_runs-retained_example = prune_terminal_runs-retained history

abbrev progress : List WaitEvent
progress = changed (fresh_run three_tasks) ∷ changed over ∷ fired ∷ []

history-snapshot : snapshot history "r" ≡ some over
unfolding snapshot
history-snapshot = refl

wait-IsHonest_example :
    IsHonest next_task 0 (notices (wait history "r" (some next_task) (timeout_of 5) false) progress)
wait-IsHonest_example =
    wait-IsHonest history "r" next_task (timeout_of 5) false over progress history-snapshot

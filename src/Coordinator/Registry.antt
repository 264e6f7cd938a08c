-- ===== src/Coordinator/Registry.antt =====
-- src/subagents/coordinator.ts: `start` with its checks, and the pruning of settled runs.
use steak_pi.Prelude.{
  ℕ, zero, suc, ◌-◌, min, String, ◌≡◌, refl, inl, inr, Bool, true, false, not, ◌&&◌, ◌||◌, Option,
  none, some, List, [], ◌∷◌, ◌++◌, map, arith, leb, if◌then◌else◌, Bool-cases, length, any, keep,
  count, str_eq,
}
use steak_pi.Capacity.{max_concurrency}
use steak_pi.Coordinator.{
  TaskState, Task, Run, SubagentCoordinator, is_queued, is_active, pump, queued, run_running,
}

abbrev pub max_tasks : ℕ
max_tasks = 8

abbrev pub max_active_runs : ℕ
max_active_runs = 16

abbrev pub max_retained_terminal_runs : ℕ
max_retained_terminal_runs = 50

abbrev pub min_timeout_ms : ℕ
min_timeout_ms = 1000

abbrev pub max_timeout_ms : ℕ
max_timeout_ms = 28800000

-- What `start` is given; numbers are natural, a negative or fractional one is refused like zero.
pub record RunRequest : Type 0 where
  pub id : String
  pub active : Bool
  pub concurrency : ℕ
  pub task_ids : List String
  pub task_states : List TaskState
  pub timeout_ms : ℕ
  pub max_turns : ℕ

pub data StartError : Type 0 where
  is_shut_down run_exists too_many_runs not_running bad_concurrency : StartError
  bad_tasks bad_timeout bad_turns task_not_queued duplicate_task_ids : StartError

pub data Started : Type 0 where
  started : SubagentCoordinator → Started
  refused : StartError → Started

within : ℕ → ℕ → ℕ → Bool
within low n high = leb low n && leb n high

unfoldable pub has_duplicates : List String → Bool
has_duplicates [] = false
has_duplicates (id ∷ rest) = any (λ j. str_eq j id) rest || has_duplicates rest

-- The checks in order; the largest number of turns is a parameter.
unfoldable pub check_start : ℕ → SubagentCoordinator → RunRequest → Option StartError
unfolding within has_duplicates
check_start max_worker_turns c r =
    if c.closed
    then some is_shut_down
    else if any (λ run. str_eq run.id r.id) c.runs
    then some run_exists
    else if leb max_active_runs (count (λ run. is_active run.state) c.runs)
    then some too_many_runs
    else if not r.active
    then some not_running
    else if not (within 1 r.concurrency max_concurrency)
    then some bad_concurrency
    else if not (within 1 (length r.task_ids) max_tasks)
    then some bad_tasks
    else if not (within min_timeout_ms r.timeout_ms max_timeout_ms)
    then some bad_timeout
    else if not (within 1 r.max_turns max_worker_turns)
    then some bad_turns
    else if any (λ s. not (is_queued s)) r.task_states
    then some task_not_queued
    else if has_duplicates r.task_ids
    then some duplicate_task_ids
    else none

abbrev pub fresh_task : String → Task
fresh_task id = record {
  id = id;
  state = queued;
  dispatched = false;
  live = false;
  accounted = false;
  stop_state = none;
  stop_message = none;
  signalled = false;
  turns = 0;
  usage = 0;
  error = none;
}

abbrev pub fresh_run : RunRequest → Run
fresh_run r = record {
  id = r.id;
  state = run_running;
  concurrency = r.concurrency;
  timeout_ms = r.timeout_ms;
  max_turns = r.max_turns;
  tasks = map fresh_task r.task_ids;
  in_flight = 0;
  accepting = true;
  completion_count = 0;
  usage = 0;
}

unfoldable pub start : ℕ → SubagentCoordinator → RunRequest → Started
unfolding check_start
start max_worker_turns c r = elim (check_start max_worker_turns c r) [
  | some e ↦ refused e
  | none ↦ started (record c { runs = c.runs ++ pump (fresh_run r) ∷ [] })
]

-- The oldest settled runs taken out, as many as there are too many.
unfoldable pub drop_settled : ℕ → List Run → List Run
drop_settled excess [] = []
drop_settled zero (run ∷ rest) = run ∷ rest
drop_settled (suc excess) (run ∷ rest) =
    let fewer = drop_settled excess rest in
    let same = drop_settled (suc excess) rest in if is_active run.state then run ∷ same else fewer

abbrev pub settled_count : List Run → ℕ
settled_count = count (λ run. not (is_active run.state))

unfoldable pub prune_terminal_runs : SubagentCoordinator → SubagentCoordinator
unfolding drop_settled
prune_terminal_runs c = record c {
  runs = drop_settled (settled_count c.runs - max_retained_terminal_runs) c.runs;
}

drop_settled-count :
    (excess : ℕ) (runs : List Run)
    → settled_count (drop_settled excess runs) ≡ settled_count runs - excess
unfolding drop_settled
drop_settled-count excess [] = omega arith
drop_settled-count zero (run ∷ rest) = omega arith
drop_settled-count (suc excess) (run ∷ rest) =
    ground (arith, drop_settled-count excess rest, drop_settled-count (suc excess) rest)

drop_settled-active :
    (excess : ℕ) (runs : List Run)
    → keep (λ run. is_active run.state) (drop_settled excess runs)
      ≡ keep (λ run. is_active run.state) runs
unfolding drop_settled
drop_settled-active excess [] = refl
drop_settled-active zero (run ∷ rest) = refl
drop_settled-active (suc excess) (run ∷ rest) = elim (Bool-cases (is_active run.state)) [
  | inl e ↦ rw (e, drop_settled-active (suc excess) rest) (simp e)
  | inr e ↦ rw (e, drop_settled-active excess rest) refl
]

-- Pruning keeps every active run, in order, and leaves no more settled runs than are retained; where
-- there are no more, it leaves all of them.
pub prune_terminal_runs-retained :
    (c : SubagentCoordinator)
    → let kept = (prune_terminal_runs c).runs in
      (keep (λ run. is_active run.state) kept ≡ keep (λ run. is_active run.state) c.runs)
      × (settled_count kept ≡ min (settled_count c.runs) max_retained_terminal_runs)
unfolding prune_terminal_runs
prune_terminal_runs-retained c = (
  drop_settled-active _ c.runs,
  omega (arith, drop_settled-count (settled_count c.runs - max_retained_terminal_runs) c.runs),
)

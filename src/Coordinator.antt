-- ===== src/Coordinator.antt =====
-- src/subagents/coordinator.ts: the life of a run and of its tasks.
-- A task holds the fields of its record and of its runtime that decide what happens next; `live` says
-- that its `execute` has started and not ended. The texts of reports, telemetry, the launch queue's
-- snapshots and the retries inside `execute` are left out: a worker's last result is what arrives.
-- Usage is one number. `has_body` is what `reportBody` finds of a result's output.
pub mod Registry
pub mod Settled
pub mod Slots
pub mod Wait
mod Tests
use mathlib.Core.Option
use steak_pi.Prelude.{
  ℕ, zero, suc, ◌+◌, ◌-◌, String, Bool, true, false, not, ◌&&◌, ◌||◌, Option, none, some, List, [],
  ◌∷◌, map, if◌then◌else◌, or_else, get_elem?, modify, any, all, count, find_index, str_eq,
}

pub data TaskState : Type 0 where
  queued starting running waiting done failed aborted timed_out : TaskState

pub data RunState : Type 0 where
  run_running run_done run_failed run_aborted : RunState

pub record Task : Type 0 where
  pub id : String
  pub state : TaskState
  pub dispatched : Bool
  pub live : Bool
  pub accounted : Bool
  pub stop_state : Option TaskState
  pub stop_message : Option String
  pub signalled : Bool
  pub turns : ℕ
  pub usage : ℕ
  pub error : Option String

pub record Run : Type 0 where
  pub id : String
  pub state : RunState
  pub concurrency : ℕ
  pub timeout_ms : ℕ
  pub max_turns : ℕ
  pub tasks : List Task
  pub in_flight : ℕ
  pub accepting : Bool
  pub completion_count : ℕ
  pub usage : ℕ

-- The runs in insertion order.
pub record SubagentCoordinator : Type 0 where
  pub runs : List Run
  pub closed : Bool

pub record WorkerResult : Type 0 where
  pub state : TaskState
  pub has_body : Bool
  pub error : Option String
  pub turns : Option ℕ
  pub usage : ℕ

abbrev pub is_terminal : TaskState → Bool
is_terminal queued = false
is_terminal starting = false
is_terminal running = false
is_terminal waiting = false
is_terminal _ = true

abbrev pub is_queued : TaskState → Bool
is_queued queued = true
is_queued _ = false

abbrev is_done : TaskState → Bool
is_done done = true
is_done _ = false

abbrev is_failure : TaskState → Bool
is_failure failed = true
is_failure timed_out = true
is_failure _ = false

abbrev is_aborted : TaskState → Bool
is_aborted aborted = true
is_aborted _ = false

abbrev pub is_active : RunState → Bool
is_active run_running = true
is_active _ = false

-- The state of a run whose tasks have all settled.
abbrev outcome : List Task → RunState
outcome tasks =
    if any (λ t. is_failure t.state) tasks
    then run_failed
    else if any (λ t. is_aborted t.state) tasks
    then run_aborted
    else run_done

unfoldable pub finish_run_if_settled : Run → Run
finish_run_if_settled run =
    if is_active run.state && all (λ t. is_terminal t.state) run.tasks
    then record run { accepting = false; state = outcome run.tasks }
    else run

-- A success without a body is a failure.
abbrev pub final_state : TaskState → WorkerResult → TaskState
final_state state result = if is_done state && not result.has_body then failed else state

abbrev final_error : TaskState → WorkerResult → Option String
final_error state result =
    if is_done state && not result.has_body
    then some "Child produced no final output"
    else result.error

abbrev pub finished : TaskState → WorkerResult → Task → Task
finished state result t = record t {
  state = final_state state result;
  turns = or_else result.turns t.turns;
  usage = result.usage;
  error = final_error state result;
  accounted = true;
}

abbrev pub with_task : Run → ℕ → (Task → Task) → Run
with_task run i change = record run { tasks = modify run.tasks i change }

-- The task's result noted, and its usage counted once.
abbrev pub entered : Run → ℕ → Task → TaskState → WorkerResult → Run
entered run i t state result = record run {
  tasks = modify run.tasks i (finished state result);
  usage = if t.accounted then run.usage else run.usage + result.usage;
  completion_count = run.completion_count + 1;
}

unfoldable pub finish_task : Run → ℕ → TaskState → WorkerResult → Run
unfolding finish_run_if_settled
finish_task run i state result = elim (get_elem? run.tasks i) [
  | none ↦ run
  | some t ↦
      if is_terminal t.state then run else finish_run_if_settled (entered run i t state result)
]

abbrev pub stopped_result : Task → String → WorkerResult
stopped_result t text = record {
  state = aborted;
  has_body = true;
  error = some text;
  turns = some t.turns;
  usage = t.usage;
}

abbrev pub stopping : TaskState → String → Task → Task
stopping state text t = record t {
  stop_state = some state;
  stop_message = some text;
  signalled = true;
}

-- A task that was dispatched settles when its `execute` does; another settles at once.
unfoldable pub stop_task : Run → ℕ → TaskState → String → Run
unfolding finish_task
stop_task run i state text = elim (get_elem? run.tasks i) [
  | none ↦ run
  | some t ↦
      let stopped = with_task run i (stopping state text) in
      if t.dispatched then stopped else finish_task stopped i state (stopped_result t text)
]

-- `stopTask` for each task of the run, from an index on, that is not terminal.
unfoldable pub stop_all : Run → ℕ → List Task → TaskState → String → Run
unfolding stop_task
stop_all run i [] state text = run
stop_all run i (t ∷ rest) state text =
    stop_all (if is_terminal t.state then run else stop_task run i state text) (suc i) rest state
      text

abbrev pub may_start : Task → Bool
may_start t = is_queued t.state && not t.dispatched

abbrev pub dispatch : Task → Task
dispatch t = record t { dispatched = true; live = true }

-- The loop of `pump`: the first tasks that may start, as far as there is room.
unfoldable pub dispatch_some : ℕ → List Task → List Task × ℕ
dispatch_some room [] = ([], 0)
dispatch_some zero (t ∷ rest) = (t ∷ rest, 0)
dispatch_some (suc room) (t ∷ rest) =
    let (tasks, count) = dispatch_some room rest in
    let (others, fewer) = dispatch_some (suc room) rest in
    if may_start t then (dispatch t ∷ tasks, suc count) else (t ∷ others, fewer)

unfoldable pub pump : Run → Run
unfolding dispatch_some
pump run =
    if run.accepting && is_active run.state
    then (let (tasks, count) = dispatch_some (run.concurrency - run.in_flight) run.tasks in
        record run { tasks = tasks; in_flight = run.in_flight + count })
    else run

-- `cancel` of one task.
unfoldable pub cancel_task : Run → String → String → Run × Bool
unfolding stop_task pump
cancel_task run id reason = elim (find_index (λ t. str_eq t.id id) 0 run.tasks) [
  | none ↦ (run, false)
  | some i ↦ elim (get_elem? run.tasks i) [
    | none ↦ (run, false)
    | some t ↦
        if is_terminal t.state then (run, false) else (pump (stop_task run i aborted reason), true)
  ]
]

-- The end of a whole run: `cancel`, `shutdown` and `expire`.
unfoldable pub stop_run : Run → TaskState → String → Run
unfolding stop_all
stop_run run state reason =
    if is_active run.state
    then stop_all (record run { accepting = false }) 0 run.tasks state reason
    else run

unfoldable pub cancel_run : Run → String → Run × Bool
unfolding stop_run
cancel_run run reason = (stop_run run aborted reason, is_active run.state)

unfoldable pub expire : Run → Run
unfolding stop_run
expire run = stop_run run timed_out "Run deadline exceeded"

unfoldable pub shutdown : SubagentCoordinator → SubagentCoordinator
unfolding stop_run
shutdown c = record c {
  closed = true;
  runs = map (λ run. stop_run run aborted "Coordinator shut down") c.runs;
}

-- The stages of `execute`: the session's slot is granted, then the machine's.
abbrev pub advance : TaskState → Task → Task
advance state t = if t.signalled || is_terminal t.state then t else record t { state = state }

-- The result of a task that was stopped.
abbrev pub explained : Task → WorkerResult → WorkerResult
explained t result = record result {
  error = some (or_else result.error (or_else t.stop_message ""));
}

abbrev pub caught_state : Task → TaskState
caught_state t = or_else t.stop_state (if t.signalled then aborted else failed)

abbrev pub caught_result : Task → String → WorkerResult
caught_result t text = stopped_result t (if t.signalled then or_else t.stop_message text else text)

-- The worker returned, or a step of `execute` threw.
unfoldable pub return_result : Run → ℕ → WorkerResult → Run
unfolding finish_task
return_result run i result = elim (get_elem? run.tasks i) [
  | none ↦ run
  | some t ↦ elim t.stop_state [
    | none ↦ finish_task run i result.state result
    | some stop ↦ finish_task run i stop (explained t result)
  ]
]

unfoldable pub catch_error : Run → ℕ → String → Run
unfolding finish_task
catch_error run i text = elim (get_elem? run.tasks i) [
  | none ↦ run
  | some t ↦ finish_task run i (caught_state t) (caught_result t text)
]

abbrev pub gone : Task → Task
gone t = record t { live = false }

abbrev pub left : Run → ℕ → Run
left run i = record run { tasks = modify run.tasks i gone; in_flight = run.in_flight - 1 }

-- The `finally` of `pump`: the task's place is free again.
unfoldable pub leave : Run → ℕ → Run
unfolding pump
leave run i = elim (get_elem? run.tasks i) [
  | none ↦ run
  | some t ↦ if t.live then pump (left run i) else run
]

pub data ProgressState : Type 0 where
  now_starting now_running now_waiting : ProgressState

abbrev pub task_state : ProgressState → TaskState
task_state now_starting = starting
task_state now_running = running
task_state now_waiting = waiting

-- What `applyProgress` reads of a worker's progress.
pub record WorkerProgress : Type 0 where
  pub state : Option ProgressState
  pub turns : Option ℕ
  pub usage : Option ℕ

abbrev pub progressed : WorkerProgress → Task → Task
progressed p t = if is_terminal t.state then t else record t {
  state = or_else (Option.map task_state p.state) t.state;
  turns = or_else p.turns t.turns;
  usage = or_else p.usage t.usage;
}

pub data Event : Type 0 where
  starts runs leaves : ℕ → Event
  returns : ℕ → WorkerResult → Event
  throws : ℕ → String → Event
  progresses : ℕ → WorkerProgress → Event
  cancels_task : String → String → Event
  cancels : String → Event
  expires : Event

unfoldable pub step : Run → Event → Run
unfolding return_result catch_error leave cancel_task cancel_run expire
step run (starts i) = with_task run i (advance starting)
step run (runs i) = with_task run i (advance running)
step run (leaves i) = leave run i
step run (returns i result) = return_result run i result
step run (throws i text) = catch_error run i text
step run (progresses i p) = with_task run i (progressed p)
step run (cancels_task id reason) = (cancel_task run id reason).0
step run (cancels reason) = (cancel_run run reason).0
step run expires = expire run

unfoldable pub steps : Run → List Event → Run
steps run [] = run
steps run (e ∷ es) = steps (step run e) es

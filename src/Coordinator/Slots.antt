-- ===== src/Coordinator/Slots.antt =====
-- The places of a run in src/subagents/coordinator.ts: how many of its tasks are in flight.
use steak_pi.Prelude.{
  ℕ, zero, suc, ◌+◌, ◌-◌, ◌≤◌, String, ◌≡◌, refl, sym, ◌∙◌, inl, inr, true, false, ◌&&◌, ◌||◌, List,
  [], ◌∷◌, map, arith, Bool-cases, Option-cases, get_elem?, modify, all, count, find_index, All,
  count-modify, str_eq,
}
use steak_pi.Coordinator.Registry.{RunRequest, fresh_task, fresh_run}
use steak_pi.Coordinator.{
  TaskState, Task, Run, WorkerResult, is_terminal, is_active, finish_run_if_settled, finished,
  with_task, entered, finish_task, stopped_result, stopping, stop_task, stop_all, may_start,
  dispatch_some, pump, cancel_task, stop_run, cancel_run, expire, advance, explained, caught_state,
  caught_result, return_result, catch_error, gone, left, leave, WorkerProgress, progressed, Event,
  step, steps, starting, running, aborted, timed_out, starts, runs, leaves, returns, throws,
  progresses, cancels_task, cancels, expires,
}

abbrev pub lives : List Task → ℕ
lives = count (λ task. task.live)

-- A task that was not dispatched does not run.
abbrev pub Waits : Task → Type 0
Waits task = task.dispatched ≡ false → task.live ≡ false

-- `inFlight` is the number of tasks whose `execute` runs, and it is at most the run's width.
pub record IsCounted (run : Run) : Type 0 where
  pub exact : run.in_flight ≡ lives run.tasks
  pub bounded : run.in_flight ≤ run.concurrency
  pub waits : All Waits run.tasks

-- A change that leaves the places alone.
abbrev Keeps : (Task → Task) → Type 0
Keeps f = (task : Task) → ((f task).live ≡ task.live) × ((f task).dispatched ≡ task.dispatched)

lives-modify :
    (f : Task → Task) (tasks : List Task) (i : ℕ) → Keeps f → lives (modify tasks i f) ≡ lives tasks
lives-modify f [] i k = refl
lives-modify f (t ∷ rest) zero k = ground (arith, (k t).0)
lives-modify f (t ∷ rest) (suc i) k = ground (arith, lives-modify f rest i k)

Waits-modify :
    (f : Task → Task) (tasks : List Task) (i : ℕ)
    → ((task : Task) → Waits task → Waits (f task))
    → All Waits tasks
    → All Waits (modify tasks i f)
Waits-modify f [] i k h = tt
Waits-modify f (t ∷ rest) zero k h = (k t h.0, h.1)
Waits-modify f (t ∷ rest) (suc i) k h = (h.0, Waits-modify f rest i k h.1)

Keeps-Waits : (f : Task → Task) → Keeps f → (task : Task) → Waits task → Waits (f task)
Keeps-Waits f k task h e = (k task).0 ∙ h (sym (k task).1 ∙ e)

modify-IsCounted :
    (run : Run) (i : ℕ) (f : Task → Task)
    → Keeps f
    → IsCounted run
    → IsCounted (record run { tasks = modify run.tasks i f })
modify-IsCounted run i f k h = record {
  exact = h.exact ∙ sym (lives-modify f run.tasks i k);
  bounded = h.bounded;
  waits = Waits-modify f run.tasks i (Keeps-Waits f k) h.waits;
}

-- Fields that the places do not depend on.
settle-IsCounted : (run : Run) → IsCounted run → IsCounted (finish_run_if_settled run)
unfolding finish_run_if_settled
settle-IsCounted run h =
    elim (Bool-cases (is_active run.state && all (λ t. is_terminal t.state) run.tasks)) [
      | inl e ↦ rw e (record { exact = h.exact; bounded = h.bounded; waits = h.waits })
      | inr e ↦ rw e h
    ]

finish_task-IsCounted :
    (run : Run) (i : ℕ) (state : TaskState) (result : WorkerResult)
    → IsCounted run
    → IsCounted (finish_task run i state result)
unfolding finish_task
finish_task-IsCounted run i state result h = elim (Option-cases (get_elem? run.tasks i)) [
  | inl e ↦ rw (e, finish_task) h
  | inr (task, e) ↦ elim (Bool-cases (is_terminal task.state)) [
    | inl over ↦ rw (e, finish_task) (rw over h)
    | inr unsettled ↦
        rw (e, finish_task)
          (rw unsettled (
            let changed = modify-IsCounted run i (finished state result) (λ t. (refl, refl)) h in
            settle-IsCounted (entered run i task state result)
              (record { exact = changed.exact; bounded = changed.bounded; waits = changed.waits })))
  ]
]

stop_task-IsCounted :
    (run : Run) (i : ℕ) (state : TaskState) (text : String)
    → IsCounted run
    → IsCounted (stop_task run i state text)
unfolding stop_task
stop_task-IsCounted run i state text h = elim (Option-cases (get_elem? run.tasks i)) [
  | inl e ↦ rw (e, stop_task) h
  | inr (task, e) ↦
      let stopped = modify-IsCounted run i (stopping state text) (λ t. (refl, refl)) h in
      elim (Bool-cases task.dispatched) [
        | inl out ↦ rw (e, stop_task) (rw out stopped)
        | inr inside ↦
            rw (e, stop_task)
              (rw inside (
                finish_task-IsCounted (with_task run i (stopping state text)) i state
                  (stopped_result task text) stopped))
      ]
]

stop_all-IsCounted :
    (run : Run) (i : ℕ) (tasks : List Task) (state : TaskState) (text : String)
    → IsCounted run
    → IsCounted (stop_all run i tasks state text)
unfolding stop_all
stop_all-IsCounted run i [] state text h = h
stop_all-IsCounted run i (t ∷ rest) state text h = elim (Bool-cases (is_terminal t.state)) [
  | inl e ↦ rw e (stop_all-IsCounted run (suc i) rest state text h)
  | inr e ↦ rw e (
      stop_all-IsCounted (stop_task run i state text) (suc i) rest state text
        (stop_task-IsCounted run i state text h))
]

stop_run-IsCounted :
    (run : Run) (state : TaskState) (text : String)
    → IsCounted run
    → IsCounted (stop_run run state text)
unfolding stop_run
stop_run-IsCounted run state text h = elim (Bool-cases (is_active run.state)) [
  | inl e ↦ rw e (
      stop_all-IsCounted (record run { accepting = false }) 0 run.tasks state text
        (record { exact = h.exact; bounded = h.bounded; waits = h.waits }))
  | inr e ↦ rw e h
]

may_start-dispatched : (task : Task) → may_start task ≡ true → task.dispatched ≡ false
may_start-dispatched task e = ground arith

dispatch_some-lives :
    (room : ℕ) (tasks : List Task)
    → All Waits tasks
    → lives (dispatch_some room tasks).0 ≡ lives tasks + (dispatch_some room tasks).1
unfolding dispatch_some
dispatch_some-lives room [] h = omega arith
dispatch_some-lives zero (t ∷ rest) h = omega arith
dispatch_some-lives (suc room) (t ∷ rest) h = elim (Bool-cases (may_start t)) [
  | inl e ↦ rw e (ground (arith, h.0 (may_start-dispatched t e), dispatch_some-lives room rest h.1))
  | inr e ↦ rw e (ground (arith, dispatch_some-lives (suc room) rest h.1))
]

dispatch_some_le : (room : ℕ) (tasks : List Task) → (dispatch_some room tasks).1 ≤ room
unfolding dispatch_some
dispatch_some_le room [] = omega arith
dispatch_some_le zero (t ∷ rest) = omega arith
dispatch_some_le (suc room) (t ∷ rest) = elim (Bool-cases (may_start t)) [
  | inl e ↦ rw e (omega (arith, dispatch_some_le room rest))
  | inr e ↦ rw e (dispatch_some_le (suc room) rest)
]

dispatch_some-Waits :
    (room : ℕ) (tasks : List Task) → All Waits tasks → All Waits (dispatch_some room tasks).0
unfolding dispatch_some
dispatch_some-Waits room [] h = tt
dispatch_some-Waits zero (t ∷ rest) h = h
dispatch_some-Waits (suc room) (t ∷ rest) h = elim (Bool-cases (may_start t)) [
  | inl e ↦ rw e (λ k. cc k, dispatch_some-Waits room rest h.1)
  | inr e ↦ rw e (h.0, dispatch_some-Waits (suc room) rest h.1)
]

pump-IsCounted : (run : Run) → IsCounted run → IsCounted (pump run)
unfolding pump
pump-IsCounted run h = elim (Bool-cases (run.accepting && is_active run.state)) [
  | inr e ↦ rw e h
  | inl e ↦
      let room = run.concurrency - run.in_flight in
      rw e (record {
        exact = omega (arith, h.exact, dispatch_some-lives room run.tasks h.waits);
        bounded = omega (arith, h.bounded, dispatch_some_le room run.tasks);
        waits = dispatch_some-Waits room run.tasks h.waits;
      })
]

leave-IsCounted : (run : Run) (i : ℕ) → IsCounted run → IsCounted (leave run i)
unfolding leave
leave-IsCounted run i h = elim (Option-cases (get_elem? run.tasks i)) [
  | inl e ↦ rw (e, leave) h
  | inr (task, e) ↦ elim (Bool-cases task.live) [
    | inr idle ↦ rw (e, leave) (rw idle h)
    | inl busy ↦
        rw (e, leave)
          (rw busy (
            let fewer = count-modify (λ t. t.live) run.tasks i gone task e in
            pump-IsCounted (left run i) (record {
              exact = ground (arith, busy, h.exact, fewer);
              bounded = omega (arith, h.bounded);
              waits = Waits-modify gone run.tasks i (λ t w k. refl) h.waits;
            })))
  ]
]

return_result-IsCounted :
    (run : Run) (i : ℕ) (result : WorkerResult)
    → IsCounted run
    → IsCounted (return_result run i result)
unfolding return_result
return_result-IsCounted run i result h = elim (Option-cases (get_elem? run.tasks i)) [
  | inl e ↦ rw (e, return_result) h
  | inr (task, e) ↦ elim (Option-cases task.stop_state) [
    | inl s ↦ rw (e, return_result) (rw s (finish_task-IsCounted run i result.state result h))
    | inr (stop, s) ↦
        rw (e, return_result) (rw s (finish_task-IsCounted run i stop (explained task result) h))
  ]
]

catch_error-IsCounted :
    (run : Run) (i : ℕ) (text : String) → IsCounted run → IsCounted (catch_error run i text)
unfolding catch_error
catch_error-IsCounted run i text h = elim (Option-cases (get_elem? run.tasks i)) [
  | inl e ↦ rw (e, catch_error) h
  | inr (task, e) ↦
      rw (e, catch_error)
        (finish_task-IsCounted run i (caught_state task) (caught_result task text) h)
]

cancel_task-IsCounted :
    (run : Run) (id reason : String) → IsCounted run → IsCounted (cancel_task run id reason).0
unfolding cancel_task
cancel_task-IsCounted run id reason h =
    elim (Option-cases (find_index (λ t. str_eq t.id id) 0 run.tasks)) [
      | inl e ↦ rw (e, cancel_task) h
      | inr (i, e) ↦ elim (Option-cases (get_elem? run.tasks i)) [
        | inl m ↦ rw (e, cancel_task) (rw m h)
        | inr (task, m) ↦ elim (Bool-cases (is_terminal task.state)) [
          | inl over ↦ rw (e, cancel_task) (rw (m, over) h)
          | inr unsettled ↦
              rw (e, cancel_task)
                (rw (m, unsettled)
                  (pump-IsCounted (stop_task run i aborted reason)
                    (stop_task-IsCounted run i aborted reason h)))
        ]
      ]
    ]

advance-Keeps : (state : TaskState) → Keeps (advance state)
advance-Keeps state t = elim (Bool-cases (t.signalled || is_terminal t.state)) [
  | inl e ↦ rw e (refl, refl)
  | inr e ↦ rw e (refl, refl)
]

progressed-Keeps : (p : WorkerProgress) → Keeps (progressed p)
progressed-Keeps p t = elim (Bool-cases (is_terminal t.state)) [
  | inl e ↦ rw e (refl, refl)
  | inr e ↦ rw e (refl, refl)
]

step-IsCounted : (run : Run) (e : Event) → IsCounted run → IsCounted (step run e)
unfolding step cancel_run expire
step-IsCounted run (starts i) h =
    modify-IsCounted run i (advance starting) (advance-Keeps starting) h
step-IsCounted run (runs i) h = modify-IsCounted run i (advance running) (advance-Keeps running) h
step-IsCounted run (leaves i) h = leave-IsCounted run i h
step-IsCounted run (returns i result) h = return_result-IsCounted run i result h
step-IsCounted run (throws i text) h = catch_error-IsCounted run i text h
step-IsCounted run (progresses i p) h = modify-IsCounted run i (progressed p) (progressed-Keeps p) h
step-IsCounted run (cancels_task id reason) h = cancel_task-IsCounted run id reason h
step-IsCounted run (cancels reason) h = stop_run-IsCounted run aborted reason h
step-IsCounted run expires h = stop_run-IsCounted run timed_out _ h

steps-IsCounted : (run : Run) (es : List Event) → IsCounted run → IsCounted (steps run es)
unfolding steps
steps-IsCounted run [] h = h
steps-IsCounted run (e ∷ es) h = steps-IsCounted (step run e) es (step-IsCounted run e h)

fresh_tasks-lives : (ids : List String) → lives (map fresh_task ids) ≡ 0
fresh_tasks-lives [] = refl
fresh_tasks-lives (id ∷ ids) = fresh_tasks-lives ids

fresh_tasks-Waits : (ids : List String) → All Waits (map fresh_task ids)
fresh_tasks-Waits [] = tt
fresh_tasks-Waits (id ∷ ids) = (λ k. refl, fresh_tasks-Waits ids)

-- After a run is made and pumped, and whatever its tasks, its callers and its deadline do then:
-- `inFlight` is the number of tasks whose `execute` runs, and it never passes the run's width.
pub steps-pump-IsCounted :
    (r : RunRequest) (es : List Event) → IsCounted (steps (pump (fresh_run r)) es)
steps-pump-IsCounted r es = steps-IsCounted (pump (fresh_run r)) es (
    pump-IsCounted (fresh_run r) (record {
      exact = sym (fresh_tasks-lives r.task_ids);
      bounded = omega arith;
      waits = fresh_tasks-Waits r.task_ids;
    }))

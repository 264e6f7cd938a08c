-- ===== src/Coordinator/Settled.antt =====
-- The settled tasks of src/subagents/coordinator.ts: their state is final.
use steak_pi.Prelude.{
  ℕ, zero, suc, ◌-◌, String, ◌≡◌, refl, sym, ap, ◌∙◌, subst, inl, inr, true, false, ◌&&◌, Option,
  none, some, List, [], ◌∷◌, arith, Bool-cases, Option-cases, get_elem?, modify, all, find_index,
  str_eq,
}
use steak_pi.Coordinator.{
  TaskState, Task, Run, WorkerResult, is_terminal, is_active, finish_run_if_settled, finished,
  with_task, entered, finish_task, stopped_result, stopping, stop_task, stop_all, may_start,
  dispatch_some, pump, cancel_task, stop_run, cancel_run, expire, advance, explained, caught_state,
  caught_result, return_result, catch_error, gone, left, leave, WorkerProgress, progressed, Event,
  step, steps, starting, running, aborted, timed_out, starts, runs, leaves, returns, throws,
  progresses, cancels_task, cancels, expires,
}

-- The state of a task, by its place.
abbrev pub state_at : List Task → ℕ → Option TaskState
state_at [] i = none
state_at (t ∷ rest) zero = some t.state
state_at (t ∷ rest) (suc i) = state_at rest i

module _ (i : ℕ) (st : TaskState) (over : is_terminal st ≡ true) where
  -- The task at this place has settled in this state.
  abbrev IsOver : Run → Type 0
  IsOver run = state_at run.tasks i ≡ some st

  -- A change of one task that leaves its state alone where it has settled.
  modify-IsOver :
      (f : Task → Task) (tasks : List Task) (j k : ℕ)
      → ((t : Task)
          → get_elem? tasks j ≡ some t
          → is_terminal t.state ≡ true
          → (f t).state ≡ t.state)
      → state_at tasks k ≡ some st
      → state_at (modify tasks j f) k ≡ some st
  modify-IsOver f [] j k keep_state h = h
  modify-IsOver f (t ∷ rest) zero zero keep_state h =
      ap (λ (s : TaskState). some s)
        (keep_state t refl (subst (λ s. is_terminal s ≡ true) (cc h) over))
      ∙ h
  modify-IsOver f (t ∷ rest) zero (suc k) keep_state h = h
  modify-IsOver f (t ∷ rest) (suc j) zero keep_state h = h
  modify-IsOver f (t ∷ rest) (suc j) (suc k) keep_state h = modify-IsOver f rest j k keep_state h

  settle-IsOver : (run : Run) → IsOver run → IsOver (finish_run_if_settled run)
  unfolding finish_run_if_settled
  settle-IsOver run h =
      elim (Bool-cases (is_active run.state && all (λ t. is_terminal t.state) run.tasks)) [
        | inl e ↦ rw e h
        | inr e ↦ rw e h
      ]

  finish_task-IsOver :
      (run : Run) (j : ℕ) (state : TaskState) (result : WorkerResult)
      → IsOver run
      → IsOver (finish_task run j state result)
  unfolding finish_task
  finish_task-IsOver run j state result h = elim (Option-cases (get_elem? run.tasks j)) [
    | inl e ↦ rw (e, finish_task) h
    | inr (task, e) ↦ elim (Bool-cases (is_terminal task.state)) [
      | inl ended ↦ rw (e, finish_task) (rw ended h)
      | inr unsettled ↦
          rw (e, finish_task)
            (rw unsettled (
              settle-IsOver (entered run j task state result) (
                modify-IsOver (finished state result) run.tasks j i
                  (λ t e' ended. absurd (other_task task t unsettled ended (sym e ∙ e'))) h)))
    ]
  ]
    where
      other_task :
          (t u : Task)
          → is_terminal t.state ≡ false
          → is_terminal u.state ≡ true
          → ◌≡◌ {A = Option Task} (some t) (some u)
          → ⊥
      other_task t u a b e = cc

  stop_task-IsOver :
      (run : Run) (j : ℕ) (state : TaskState) (text : String)
      → IsOver run
      → IsOver (stop_task run j state text)
  unfolding stop_task
  stop_task-IsOver run j state text h = elim (Option-cases (get_elem? run.tasks j)) [
    | inl e ↦ rw (e, stop_task) h
    | inr (task, e) ↦
        let stopped : IsOver (with_task run j (stopping state text)) =
          modify-IsOver (stopping state text) run.tasks j i (λ t e' ended. refl) h in
        elim (Bool-cases task.dispatched) [
          | inl out ↦ rw (e, stop_task) (rw out stopped)
          | inr inside ↦
              rw (e, stop_task)
                (rw inside (
                  finish_task-IsOver (with_task run j (stopping state text)) j state
                    (stopped_result task text) stopped))
        ]
  ]

  stop_all-IsOver :
      (run : Run) (j : ℕ) (tasks : List Task) (state : TaskState) (text : String)
      → IsOver run
      → IsOver (stop_all run j tasks state text)
  unfolding stop_all
  stop_all-IsOver run j [] state text h = h
  stop_all-IsOver run j (t ∷ rest) state text h = elim (Bool-cases (is_terminal t.state)) [
    | inl e ↦ rw (e, stop_all) (stop_all-IsOver run (suc j) rest state text h)
    | inr e ↦
        rw (e, stop_all)
          (stop_all-IsOver (stop_task run j state text) (suc j) rest state text
            (stop_task-IsOver run j state text h))
  ]

  stop_run-IsOver :
      (run : Run) (state : TaskState) (text : String)
      → IsOver run
      → IsOver (stop_run run state text)
  unfolding stop_run
  stop_run-IsOver run state text h = elim (Bool-cases (is_active run.state)) [
    | inl e ↦ rw e (stop_all-IsOver (record run { accepting = false }) 0 run.tasks state text h)
    | inr e ↦ rw e h
  ]

  dispatch_some-state_at :
      (room : ℕ) (tasks : List Task) (k : ℕ)
      → state_at (dispatch_some room tasks).0 k ≡ state_at tasks k
  unfolding dispatch_some
  dispatch_some-state_at room [] k = refl
  dispatch_some-state_at zero (t ∷ rest) k = refl
  dispatch_some-state_at (suc room) (t ∷ rest) zero = elim (Bool-cases (may_start t)) [
    | inl e ↦ rw e refl
    | inr e ↦ rw e refl
  ]
  dispatch_some-state_at (suc room) (t ∷ rest) (suc k) = elim (Bool-cases (may_start t)) [
    | inl e ↦ rw e (dispatch_some-state_at room rest k)
    | inr e ↦ rw e (dispatch_some-state_at (suc room) rest k)
  ]

  pump-IsOver : (run : Run) → IsOver run → IsOver (pump run)
  unfolding pump
  pump-IsOver run h = elim (Bool-cases (run.accepting && is_active run.state)) [
    | inl e ↦ rw e (dispatch_some-state_at (run.concurrency - run.in_flight) run.tasks i ∙ h)
    | inr e ↦ rw e h
  ]

  leave-IsOver : (run : Run) (j : ℕ) → IsOver run → IsOver (leave run j)
  unfolding leave
  leave-IsOver run j h = elim (Option-cases (get_elem? run.tasks j)) [
    | inl e ↦ rw (e, leave) h
    | inr (task, e) ↦ elim (Bool-cases task.live) [
      | inr idle ↦ rw (e, leave) (rw idle h)
      | inl busy ↦
          rw (e, leave)
            (rw busy
              (pump-IsOver (left run j) (modify-IsOver gone run.tasks j i (λ t e' ended. refl) h)))
    ]
  ]

  return_result-IsOver :
      (run : Run) (j : ℕ) (result : WorkerResult) → IsOver run → IsOver (return_result run j result)
  unfolding return_result
  return_result-IsOver run j result h = elim (Option-cases (get_elem? run.tasks j)) [
    | inl e ↦ rw (e, return_result) h
    | inr (task, e) ↦ elim (Option-cases task.stop_state) [
      | inl s ↦ rw (e, return_result) (rw s (finish_task-IsOver run j result.state result h))
      | inr (stop, s) ↦
          rw (e, return_result) (rw s (finish_task-IsOver run j stop (explained task result) h))
    ]
  ]

  catch_error-IsOver :
      (run : Run) (j : ℕ) (text : String) → IsOver run → IsOver (catch_error run j text)
  unfolding catch_error
  catch_error-IsOver run j text h = elim (Option-cases (get_elem? run.tasks j)) [
    | inl e ↦ rw (e, catch_error) h
    | inr (task, e) ↦
        rw (e, catch_error)
          (finish_task-IsOver run j (caught_state task) (caught_result task text) h)
  ]

  cancel_task-IsOver :
      (run : Run) (id reason : String) → IsOver run → IsOver (cancel_task run id reason).0
  unfolding cancel_task
  cancel_task-IsOver run id reason h =
      elim (Option-cases (find_index (λ t. str_eq t.id id) 0 run.tasks)) [
        | inl e ↦ rw (e, cancel_task) h
        | inr (j, e) ↦ elim (Option-cases (get_elem? run.tasks j)) [
          | inl m ↦ rw (e, cancel_task) (rw m h)
          | inr (task, m) ↦ elim (Bool-cases (is_terminal task.state)) [
            | inl ended ↦ rw (e, cancel_task) (rw (m, ended) h)
            | inr unsettled ↦
                rw (e, cancel_task)
                  (rw (m, unsettled)
                    (pump-IsOver (stop_task run j aborted reason)
                      (stop_task-IsOver run j aborted reason h)))
          ]
        ]
      ]

  advance-state :
      (state : TaskState) (t : Task)
      → is_terminal t.state ≡ true
      → (advance state t).state ≡ t.state
  advance-state state t ended = ground arith

  progressed-state :
      (p : WorkerProgress) (t : Task)
      → is_terminal t.state ≡ true
      → (progressed p t).state ≡ t.state
  progressed-state p t ended = rw ended refl

  step-IsOver : (run : Run) (e : Event) → IsOver run → IsOver (step run e)
  unfolding step cancel_run expire
  step-IsOver run (starts j) h =
      modify-IsOver (advance starting) run.tasks j i (λ t e. advance-state starting t) h
  step-IsOver run (runs j) h =
      modify-IsOver (advance running) run.tasks j i (λ t e. advance-state running t) h
  step-IsOver run (leaves j) h = leave-IsOver run j h
  step-IsOver run (returns j result) h = return_result-IsOver run j result h
  step-IsOver run (throws j text) h = catch_error-IsOver run j text h
  step-IsOver run (progresses j p) h =
      modify-IsOver (progressed p) run.tasks j i (λ t e. progressed-state p t) h
  step-IsOver run (cancels_task id reason) h = cancel_task-IsOver run id reason h
  step-IsOver run (cancels reason) h = stop_run-IsOver run aborted reason h
  step-IsOver run expires h = stop_run-IsOver run timed_out _ h

-- A settled task keeps its state, whatever its worker, its callers or the deadline do later.
pub steps-state_at :
    (run : Run) (es : List Event) (i : ℕ) (st : TaskState)
    → is_terminal st ≡ true
    → state_at run.tasks i ≡ some st
    → state_at (steps run es).tasks i ≡ some st
unfolding steps
steps-state_at run [] i st over h = h
steps-state_at run (e ∷ es) i st over h =
    steps-state_at (step run e) es i st over (step-IsOver i st over run e h)

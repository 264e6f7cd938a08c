-- ===== src/Coordinator/Wait.antt =====
-- src/subagents/coordinator.ts: `wait`, and the views of the registered runs.
use steak_pi.Prelude.{
  ℕ, ◌<◌, String, ◌≡◌, refl, subst, ◌⊎◌, inl, inr, Bool, true, false, not, ◌&&◌, ◌||◌, Option, none,
  some, List, [], ◌∷◌, arith, ltb, if◌then◌else◌, Bool-cases, any, keep, find, str_eq,
}
use steak_pi.Coordinator.{Run, SubagentCoordinator, is_active, is_aborted, outcome}

pub data WaitMode : Type 0 where
  all_tasks next_task : WaitMode

-- `bad_wait` is a timeout that is negative or not finite.
pub data WaitTimeout : Type 0 where
  no_timeout bad_wait : WaitTimeout
  timeout_of : ℕ → WaitTimeout

pub data WaitOutcome : Type 0 where
  resolved : Run → WaitOutcome
  unknown_run unknown_mode bad_timeout_ms aborted_wait timed_out_wait : WaitOutcome

-- A promise that is settled, or one that waits; `baseline` is the count that it began at.
pub data Waiting : Type 0 where
  settled : WaitOutcome → Waiting
  pending : WaitMode → ℕ → Waiting

-- The run changed, the timer fired, the caller's signal was aborted.
pub data WaitEvent : Type 0 where
  changed : Run → WaitEvent
  fired aborts : WaitEvent

unfoldable pub snapshot : SubagentCoordinator → String → Option Run
snapshot c id = find (λ run. str_eq run.id id) c.runs

unfoldable pub has : SubagentCoordinator → String → Bool
has c id = any (λ run. str_eq run.id id) c.runs

unfoldable pub active_runs : SubagentCoordinator → List Run
active_runs c = keep (λ run. is_active run.state) c.runs

abbrev is_next : WaitMode → Bool
is_next next_task = true
is_next all_tasks = false

abbrev pub is_ready : WaitMode → ℕ → Run → Bool
is_ready mode baseline run =
    not (is_active run.state) || (is_next mode && ltb baseline run.completion_count)

abbrev begin_wait : Run → WaitMode → Bool → Waiting
begin_wait run mode is_aborted =
    if is_aborted
    then settled aborted_wait
    else if is_ready mode run.completion_count run
    then settled (resolved run)
    else pending mode run.completion_count

-- The checks of `wait` in order; `none` is a mode that does not exist.
unfoldable pub wait : SubagentCoordinator → String → Option WaitMode → WaitTimeout → Bool → Waiting
unfolding snapshot
wait c id mode timeout is_aborted = elim (snapshot c id) [
  | none ↦ settled unknown_run
  | some run ↦ elim mode [
    | none ↦ settled unknown_mode
    | some m ↦ elim timeout [
      | no_timeout ↦ begin_wait run m is_aborted
      | bad_wait ↦ settled bad_timeout_ms
      | timeout_of ms ↦ begin_wait run m is_aborted
    ]
  ]
]

-- What the listeners of a waiting promise do; a settled one has none.
unfoldable pub notice : Waiting → WaitEvent → Waiting
notice (settled outcome) e = settled outcome
notice (pending mode baseline) (changed run) =
    if is_ready mode baseline run then settled (resolved run) else pending mode baseline
notice (pending mode baseline) fired = settled timed_out_wait
notice (pending mode baseline) aborts = settled aborted_wait

unfoldable pub notices : Waiting → List WaitEvent → Waiting
notices w [] = w
notices w (e ∷ es) = notices (notice w e) es

-- The run is over or, if a next task was waited for, it has more settled tasks than at the start.
abbrev pub IsOver : WaitMode → ℕ → Run → Type 0
IsOver mode baseline run =
    (is_active run.state ≡ false) ⊎ ((mode ≡ next_task) × (baseline < run.completion_count))

ready-IsOver :
    (mode : WaitMode) (baseline : ℕ) (run : Run)
    → is_ready mode baseline run ≡ true
    → IsOver mode baseline run
ready-IsOver mode baseline run e = elim (Bool-cases (is_active run.state)) [
  | inr over ↦ inl over
  | inl active ↦ inr (later mode (ground arith))
]
  where
    later :
        (m : WaitMode)
        → is_next m && ltb baseline run.completion_count ≡ true
        → (m ≡ next_task) × (baseline < run.completion_count)
    later next_task t = (refl, ground arith)
    later all_tasks t = cc t

-- What a promise tells its caller: a run that is over or, if a next task was waited for, one with
-- more settled tasks than at the start.
abbrev pub IsHonest : WaitMode → ℕ → Waiting → Type 0
IsHonest mode baseline (settled (resolved run)) = IsOver mode baseline run
IsHonest mode baseline (settled _) = Unit
IsHonest mode baseline (pending mode' baseline') = (mode' ≡ mode) × (baseline' ≡ baseline)

notice-IsHonest :
    (mode : WaitMode) (baseline : ℕ) (w : Waiting) (e : WaitEvent)
    → IsHonest mode baseline w
    → IsHonest mode baseline (notice w e)
unfolding notice
notice-IsHonest mode baseline (settled outcome) e h = h
notice-IsHonest mode baseline (pending mode' baseline') (changed run) h =
    elim (Bool-cases (is_ready mode' baseline' run)) [
      | inl e ↦ rw e (
          subst (λ m. IsOver m baseline run) h.0
            (subst (λ n. IsOver mode' n run) h.1 (ready-IsOver mode' baseline' run e)))
      | inr e ↦ rw e h
    ]
notice-IsHonest mode baseline (pending mode' baseline') fired h = tt
notice-IsHonest mode baseline (pending mode' baseline') aborts h = tt

notices-IsHonest :
    (mode : WaitMode) (baseline : ℕ) (w : Waiting) (es : List WaitEvent)
    → IsHonest mode baseline w
    → IsHonest mode baseline (notices w es)
unfolding notices
notices-IsHonest mode baseline w [] h = h
notices-IsHonest mode baseline w (e ∷ es) h =
    notices-IsHonest mode baseline (notice w e) es (notice-IsHonest mode baseline w e h)

begin_wait-IsHonest :
    (run : Run) (mode : WaitMode) (is_aborted : Bool)
    → IsHonest mode run.completion_count (begin_wait run mode is_aborted)
begin_wait-IsHonest run mode true = tt
begin_wait-IsHonest run mode false = elim (Bool-cases (is_ready mode run.completion_count run)) [
  | inl e ↦ rw e (ready-IsOver mode run.completion_count run e)
  | inr e ↦ rw e (refl, refl)
]

-- Whatever happens after a `wait` on a registered run: if it resolves, the run that it resolves with
-- is over or, where the next task was waited for, has more settled tasks than when the wait began.
pub wait-IsHonest :
    (c : SubagentCoordinator) (id : String) (mode : WaitMode) (timeout : WaitTimeout)
    (is_aborted : Bool) (run : Run) (es : List WaitEvent)
    → snapshot c id ≡ some run
    → IsHonest mode run.completion_count (notices (wait c id (some mode) timeout is_aborted) es)
unfolding wait
wait-IsHonest c id mode timeout is_aborted run es e =
    notices-IsHonest mode run.completion_count (wait c id (some mode) timeout is_aborted) es
      (first timeout)
  where
    first :
        (timeout : WaitTimeout)
        → IsHonest mode run.completion_count (wait c id (some mode) timeout is_aborted)
    first no_timeout = rw (e, wait) (begin_wait-IsHonest run mode is_aborted)
    first bad_wait = rw (e, wait) tt
    first (timeout_of ms) = rw (e, wait) (begin_wait-IsHonest run mode is_aborted)

-- ===== src/Scheduler/Tests.antt =====
-- Two launches on one slot: the scheduler's theorems at a run that queues, grants and aborts.
use steak_pi.Prelude.{
  ◌≡◌, refl, not, ◌&&◌, none, some, List, [], ◌∷◌, ◌++◌, if◌then◌else◌, str_eq, no_entries,
}
use steak_pi.Capacity.{defaults, session_cap}
use steak_pi.Scheduler.{
  Scheduler, new, has_fired, has_room, grant, visit, drain_from, drain, acquire, let_go, release,
  without, on_abort, notify_all, abort, Event, step, run, acquires, releases, aborts,
}
use steak_pi.Scheduler.Inv.{InvAt, run-Inv}
use steak_pi.Scheduler.Settled.{IsSettled, run-new-IsSettled}
use steak_pi.Scheduler.Fifo.{line_for, release-line, acquire-line}

abbrev single : Scheduler
single = record {
  max_concurrency = 1;
  config = defaults;
  active_leases = 0;
  active_by_bucket = no_entries;
  queue = [];
  aborted = [];
  leases = [];
  rejected = [];
  next_id = 0;
}

single-new : new 1 defaults ≡ some single
unfolding new
single-new = refl

abbrev contended : List Event
contended =
    acquires none "a" ∷ acquires (some 7) "a" ∷ acquires none "b" ∷ aborts 7 ∷ releases 0 ∷ []

contended_grants : (run single contended).rejected ≡ 1 ∷ []
unfolding run step acquire release abort on_abort notify_all drain drain_from visit has_room grant
    let_go without has_fired session_cap
contended_grants = refl

run-Inv_example : InvAt "a" (run single contended)
run-Inv_example = run-Inv 1 defaults single contended "a" single-new

run-new-IsSettled_example : IsSettled (run single contended)
run-new-IsSettled_example = run-new-IsSettled 1 defaults single contended single-new

release-line_example :
    line_for "b" (release (run single contended) 1) ≡ line_for "b" (run single contended)
release-line_example = release-line "b" (run single contended) 1

acquire-line_example :
    line_for "a" (acquire (run single contended) none "a")
    ≡ line_for "a" (run single contended)
      ++ (if str_eq "a" "a" && not (has_fired (run single contended).aborted none)
          then (run single contended).next_id ∷ []
          else [])
acquire-line_example = acquire-line "a" (run single contended) none "a"

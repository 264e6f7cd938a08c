-- ===== src/Scheduler/Inv.antt =====
-- The counters of scheduler.ts agree with the leases that are out, and stay under their ceilings.
use steak_pi.Prelude.{
  ℕ, ◌+◌, ◌≤◌, String, ◌≡◌, ◌≢◌, inl, inr, Bool, true, false, not, ◌&&◌, Option, none, some, List,
  [], ◌∷◌, ◌++◌, arith, Bool-cases, Option-cases, get_elem?, count, count-append, count-modify,
  str_eq, str_eq_iff,
}
use steak_pi.Capacity.Bounds.{load_capacity_config-InRange}
use steak_pi.Capacity.{CapacityConfig, CapsFile}
use steak_pi.Scheduler.{
  QueuedAcquire, Lease, Scheduler, new, default_session_scheduler, active_for, cap_for, has_room,
  grant, visit, drain_from, drain, acquire, mark_released, let_go, release, without, on_abort,
  notify_all, abort, resume_run, Event, step, run, acquires, releases, aborts, resumes, listens,
}

abbrev pub is_open : Lease → Bool
is_open l = not l.released

abbrev pub is_open_for : String → Lease → Bool
is_open_for provider l = not l.released && str_eq l.provider provider

-- The counters as one provider sees them.
pub record InvAt (provider : String) (s : Scheduler) : Type 0 where
  pub counted : s.active_leases ≡ count is_open s.leases
  pub within : s.active_leases ≤ s.max_concurrency
  pub bucketed : active_for s provider ≡ count (is_open_for provider) s.leases
  pub capped : active_for s provider ≤ cap_for s provider

module _ (p : String) where
  grant-InvAt :
      (s : Scheduler) (entry : QueuedAcquire)
      → has_room s entry.provider ≡ true
      → InvAt p s
      → InvAt p (grant s entry)
  unfolding grant has_room
  grant-InvAt s entry room v = ground (
    arith,
    count-append is_open s.leases,
    count-append is_open s.leases
        (record { id = entry.id; provider = entry.provider; released = false } ∷ []),
    count-append (is_open_for p) s.leases
        (record { id = entry.id; provider = entry.provider; released = false } ∷ []),
    str_eq_iff p entry.provider,
    str_eq_iff entry.provider p,
  )

  visit-InvAt : (s : Scheduler) (entry : QueuedAcquire) → InvAt p s → InvAt p (visit s entry)
  unfolding visit active_for cap_for
  visit-InvAt s entry v = ground (arith, grant-InvAt s entry)

  drain_from-InvAt :
      (s : Scheduler) (entries : List QueuedAcquire) → InvAt p s → InvAt p (drain_from s entries)
  unfolding drain_from
  drain_from-InvAt s [] v = v
  drain_from-InvAt s (entry ∷ rest) v =
      drain_from-InvAt (visit s entry) rest (visit-InvAt s entry v)

  drain-InvAt : (s : Scheduler) → InvAt p s → InvAt p (drain s)
  unfolding drain active_for cap_for
  drain-InvAt s v = drain_from-InvAt (record s { queue = [] }) s.queue (ground arith)

  let_go-InvAt :
      (s : Scheduler) (index : ℕ) (lease : Lease)
      → get_elem? s.leases index ≡ some lease
      → lease.released ≡ false
      → InvAt p s
      → InvAt p (let_go s index lease)
  unfolding let_go active_for cap_for
  let_go-InvAt s index lease found live v = ground (
    arith,
    count-modify is_open s.leases index mark_released lease found,
    count-modify (is_open_for p) s.leases index mark_released lease found,
    str_eq_iff p lease.provider,
    str_eq_iff lease.provider p,
  )

  release-InvAt : (s : Scheduler) (index : ℕ) → InvAt p s → InvAt p (release s index)
  unfolding release
  release-InvAt s index v = elim (Option-cases (get_elem? s.leases index)) [
    | inl e ↦ rw (e, release) v
    | inr (lease, e) ↦ elim (Bool-cases lease.released) [
      | inl gone ↦ rw (e, release) (simp gone v)
      | inr live ↦
          rw (e, release)
            (simp live (drain-InvAt (let_go s index lease) (let_go-InvAt s index lease e live v)))
    ]
  ]

  acquire-InvAt :
      (s : Scheduler) (signal : Option ℕ) (provider : String)
      → InvAt p s
      → InvAt p (acquire s signal provider)
  unfolding acquire active_for cap_for
  acquire-InvAt s signal provider v = ground (
    arith,
    drain-InvAt (record s {
      next_id = s.next_id + 1;
      queue = s.queue ++ record { id = s.next_id; provider = provider; signal = signal } ∷ [];
    }),
  )

  on_abort-InvAt : (s : Scheduler) (entry : QueuedAcquire) → InvAt p s → InvAt p (on_abort s entry)
  unfolding on_abort active_for cap_for
  on_abort-InvAt s entry v = ground (
    arith,
    drain-InvAt
        (record s { queue = without entry.id s.queue; rejected = s.rejected ++ entry.id ∷ [] }),
  )

  notify_all-InvAt :
      (s : Scheduler) (signal : ℕ) (entries : List QueuedAcquire)
      → InvAt p s
      → InvAt p (notify_all s signal entries)
  unfolding notify_all
  notify_all-InvAt s signal [] v = v
  notify_all-InvAt s signal (entry ∷ rest) v = elim (Bool-cases (listens signal entry)) [
    | inl told ↦
        rw (told, notify_all)
          (notify_all-InvAt (on_abort s entry) signal rest (on_abort-InvAt s entry v))
    | inr not_told ↦ rw (not_told, notify_all) (notify_all-InvAt s signal rest v)
  ]

  step-InvAt : (s : Scheduler) (e : Event) → InvAt p s → InvAt p (step s e)
  unfolding step abort resume_run active_for cap_for
  step-InvAt s (acquires signal provider) v = acquire-InvAt s signal provider v
  step-InvAt s (releases index) v = release-InvAt s index v
  step-InvAt s (aborts signal) v =
      notify_all-InvAt (record s { aborted = signal ∷ s.aborted }) signal s.queue (ground arith)
  step-InvAt s (resumes index signal) v = ground (arith, release-InvAt s index v)

  run-InvAt : (s : Scheduler) (es : List Event) → InvAt p s → InvAt p (run s es)
  unfolding run
  run-InvAt s [] v = v
  run-InvAt s (e ∷ es) v = run-InvAt (step s e) es (step-InvAt s e v)

  new-InvAt :
      (most : ℕ) (config : CapacityConfig) (s : Scheduler) → new most config ≡ some s → InvAt p s
  unfolding new active_for cap_for
  new-InvAt most config s h = ground arith

-- After any sequence of calls, aborts and releases on a scheduler built from any configuration, the
-- session's count and each provider's count equal the number of leases that are still out, and
-- neither passes its ceiling.
pub run-Inv :
    (most : ℕ) (config : CapacityConfig) (s : Scheduler) (es : List Event) (provider : String)
    → new most config ≡ some s
    → InvAt provider (run s es)
run-Inv most config s es provider h = run-InvAt provider s es (new-InvAt provider most config s h)

-- The scheduler of a session is always built: no capacity file makes its constructor throw.
pub default_session_scheduler_total : (file : CapsFile) → default_session_scheduler file ≢ none
unfolding default_session_scheduler new
default_session_scheduler_total file = ground (arith, load_capacity_config-InRange file)

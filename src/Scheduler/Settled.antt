-- ===== src/Scheduler/Settled.antt =====
-- scheduler.ts never leaves a launch waiting that has room.
use steak_pi.Prelude.{
  ℕ, String, ◌≡◌, refl, subst, ◌⊎◌, inl, inr, Bool, true, false, ◌&&◌, Option, some, List, [], ◌∷◌,
  ◌++◌, arith, ◌==◌, if◌then◌else◌, Bool-cases, Option-cases, get_elem?, any, All, All-append,
  All-map, any_self, All-of_not-any, All-zip, str_eq_iff,
}
use steak_pi.Capacity.{CapacityConfig}
use steak_pi.Scheduler.{
  QueuedAcquire, Scheduler, new, active_for, cap_for, has_fired, has_room, grant, visit, drain_from,
  drain, acquire, let_go, release, on_abort, notify_all, abort, resume_run, Event, step, run,
  acquires, releases, aborts, resumes, visit_cases, listens,
}

-- The entry may neither be granted nor rejected now.
abbrev pub IsStuck : Scheduler → QueuedAcquire → Type 0
IsStuck s entry = (has_fired s.aborted entry.signal ≡ false) × (has_room s entry.provider ≡ false)

-- Every launch in the queue has to wait.
abbrev pub IsSettled : Scheduler → Type 0
IsSettled s = All (IsStuck s) s.queue

grant-IsStuck :
    (s : Scheduler) (entry waiting : QueuedAcquire)
    → IsStuck s waiting
    → IsStuck (grant s entry) waiting
unfolding grant has_room active_for cap_for
grant-IsStuck s entry waiting h = ground (arith, str_eq_iff waiting.provider entry.provider)

grant-queue : (s : Scheduler) (entry : QueuedAcquire) → (grant s entry).queue ≡ s.queue
unfolding grant
grant-queue s entry = refl

pub visit-IsSettled :
    (s : Scheduler) (entry : QueuedAcquire) → IsSettled s → IsSettled (visit s entry)
unfolding has_room active_for cap_for
visit-IsSettled s entry h =
    visit_cases IsSettled s entry (λ fired. All-map s.queue (λ e k. k) h)
      (λ quiet room. rw (grant-queue s entry) (All-map s.queue (λ w. grant-IsStuck s entry w) h))
      λ quiet full.
        All-map (s.queue ++ entry ∷ []) (λ e k. k)
          (All-append (IsStuck s) s.queue (entry ∷ []) h ((quiet, full), tt))

drain_from-IsSettled :
    (s : Scheduler) (entries : List QueuedAcquire) → IsSettled s → IsSettled (drain_from s entries)
unfolding drain_from
drain_from-IsSettled s [] h = h
drain_from-IsSettled s (entry ∷ rest) h =
    drain_from-IsSettled (visit s entry) rest (visit-IsSettled s entry h)

pub drain-IsSettled : (s : Scheduler) → IsSettled (drain s)
unfolding drain
drain-IsSettled s = drain_from-IsSettled (record s { queue = [] }) s.queue tt

release-IsSettled : (s : Scheduler) (index : ℕ) → IsSettled s → IsSettled (release s index)
unfolding release
release-IsSettled s index h = elim (Option-cases (get_elem? s.leases index)) [
  | inl e ↦ rw (e, release) h
  | inr (lease, e) ↦ elim (Bool-cases lease.released) [
    | inl gone ↦ rw (e, release) (simp gone h)
    | inr live ↦ rw (e, release) (simp live (drain-IsSettled (let_go s index lease)))
  ]
]

acquire-IsSettled :
    (s : Scheduler) (signal : Option ℕ) (provider : String)
    → IsSettled s
    → IsSettled (acquire s signal provider)
unfolding acquire has_room active_for cap_for
acquire-IsSettled s signal provider h = elim (Bool-cases (has_fired s.aborted signal)) [
  | inl fired ↦ rw (fired, acquire) (All-map s.queue (λ e k. k) h)
  | inr quiet ↦ rw (quiet, acquire) (drain-IsSettled _)
]

-- While the listeners of a signal are told, an entry is stuck or still to be told.
abbrev IsTold : ℕ → List QueuedAcquire → Scheduler → QueuedAcquire → Type 0
IsTold signal rest s e =
    IsStuck s e ⊎ (any (λ (x : QueuedAcquire). x.id == e.id && listens signal x) rest ≡ true)

settled-IsTold :
    (signal : ℕ) (rest : List QueuedAcquire) (s : Scheduler)
    → IsSettled s
    → All (IsTold signal rest s) s.queue
settled-IsTold signal rest s h = All-map s.queue (λ e k. inl k) h

on_abort-IsTold :
    (signal : ℕ) (entry : QueuedAcquire) (rest : List QueuedAcquire) (s : Scheduler)
    → All (IsTold signal (entry ∷ rest) s) s.queue
    → All (IsTold signal rest (on_abort s entry)) (on_abort s entry).queue
unfolding on_abort
on_abort-IsTold signal entry rest s h =
    elim (Bool-cases (any (λ (other : QueuedAcquire). other.id == entry.id) s.queue)) [
      | inl here ↦ rw (here, on_abort) (settled-IsTold signal rest _ (drain-IsSettled _))
      | inr gone ↦
          rw (gone, on_abort)
            (All-zip s.queue (λ e told miss. ground arith) h
              (All-of_not-any (λ (other : QueuedAcquire). other.id == entry.id) s.queue gone))
    ]

notify_all-IsSettled :
    (signal : ℕ) (rest : List QueuedAcquire) (s : Scheduler)
    → All (IsTold signal rest s) s.queue
    → IsSettled (notify_all s signal rest)
unfolding notify_all
notify_all-IsSettled signal [] s h = All-map s.queue (λ e told. ground arith) h
notify_all-IsSettled signal (entry ∷ rest) s h = elim (Bool-cases (listens signal entry)) [
  | inl hears ↦
      rw (hears, notify_all)
        (notify_all-IsSettled signal rest (on_abort s entry)
          (on_abort-IsTold signal entry rest s h))
  | inr deaf ↦
      rw (deaf, notify_all)
        (notify_all-IsSettled signal rest s (All-map s.queue (λ e told. ground arith) h))
]

has_fired-cons :
    (signal : ℕ) (fired : List ℕ) (e : QueuedAcquire)
    → listens signal e ≡ false
    → has_fired fired e.signal ≡ false
    → has_fired (signal ∷ fired) e.signal ≡ false
unfolding listens has_fired
has_fired-cons signal fired e deaf quiet = ground arith

abort-IsSettled : (s : Scheduler) (signal : ℕ) → IsSettled s → IsSettled (abort s signal)
unfolding abort has_room active_for cap_for
abort-IsSettled s signal h =
    notify_all-IsSettled signal s.queue (record s { aborted = signal ∷ s.aborted })
      (All-zip s.queue (λ e stuck found. fires e stuck found) h
        (any_self (listens signal) (λ e x. x.id == e.id && listens signal x) s.queue
          (λ x t. ground arith)))
  where
    fires :
        (e : QueuedAcquire)
        → IsStuck s e
        → (listens signal e ≡ true
            → any (λ (x : QueuedAcquire). x.id == e.id && listens signal x) s.queue ≡ true)
        → IsTold signal s.queue (record s { aborted = signal ∷ s.aborted }) e
    fires e stuck found = elim (Bool-cases (listens signal e)) [
      | inl hears ↦ inr (found hears)
      | inr deaf ↦ inl (has_fired-cons signal s.aborted e deaf stuck.0, stuck.1)
    ]

IsSettled-if :
    (b : Bool) (m n : Scheduler × Bool)
    → IsSettled m.0
    → IsSettled n.0
    → IsSettled (if b then m else n).0
IsSettled-if true m n h k = h
IsSettled-if false m n h k = k

step-IsSettled : (s : Scheduler) (e : Event) → IsSettled s → IsSettled (step s e)
unfolding step resume_run
step-IsSettled s (acquires signal provider) h = acquire-IsSettled s signal provider h
step-IsSettled s (releases index) h = release-IsSettled s index h
step-IsSettled s (aborts signal) h = abort-IsSettled s signal h
step-IsSettled s (resumes index signal) h =
    IsSettled-if (has_fired s.aborted signal) _ _ (release-IsSettled s index h) h

run-IsSettled : (s : Scheduler) (es : List Event) → IsSettled s → IsSettled (run s es)
unfolding run
run-IsSettled s [] h = h
run-IsSettled s (e ∷ es) h = run-IsSettled (step s e) es (step-IsSettled s e h)

new-IsSettled :
    (most : ℕ) (config : CapacityConfig) (s : Scheduler) → new most config ≡ some s → IsSettled s
unfolding new
new-IsSettled most config s h =
    subst (λ (q : List QueuedAcquire). All (IsStuck s) q) (empty most config s h) tt
  where
    empty :
        (most : ℕ) (config : CapacityConfig) (s : Scheduler)
        → new most config ≡ some s
        → [] ≡ s.queue
    empty most config s h = ground arith

-- The scheduler is work-conserving: after any sequence of calls, aborts and releases, every launch
-- that is still queued has a live signal and no room, at its provider or in the session.
pub run-new-IsSettled :
    (most : ℕ) (config : CapacityConfig) (s : Scheduler) (es : List Event)
    → new most config ≡ some s
    → IsSettled (run s es)
run-new-IsSettled most config s es h = run-IsSettled s es (new-IsSettled most config s h)

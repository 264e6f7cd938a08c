-- ===== src/Scheduler.antt =====
-- src/subagents/scheduler.ts: the launch slots of one session.
-- A promise is the number that `acquire` hands out, a lease its index among the granted ones, and an
-- abort signal a number; `leases` and `rejected` record in which order promises were settled.
mod Inv
mod Settled
mod Fifo
mod Tests
use steak_pi.Prelude.{
  ℕ, suc, ◌+◌, ◌-◌, min, String, ◌≡◌, inl, inr, Bool, true, false, ◌&&◌, Option, none, some, List,
  [], ◌∷◌, ◌++◌, ltb, leb, ◌==◌, if◌then◌else◌, Bool-cases, or_else, get_elem?, modify, any, Map,
  no_entries, put, delete,
}
use steak_pi.Capacity.{CapacityConfig, CapsFile, load_capacity_config, session_cap, other}

pub record QueuedAcquire : Type 0 where
  pub id : ℕ
  pub provider : String
  pub signal : Option ℕ

pub record Lease : Type 0 where
  pub id : ℕ
  pub provider : String
  pub released : Bool

pub record Scheduler : Type 0 where
  pub max_concurrency : ℕ
  pub config : CapacityConfig
  pub active_leases : ℕ
  pub active_by_bucket : Map ℕ
  pub queue : List QueuedAcquire
  -- The environment: signals that have fired, and settled promises.
  pub aborted : List ℕ
  pub leases : List Lease
  pub rejected : List ℕ
  pub next_id : ℕ

-- The constructor; `none` is its RangeError.
unfoldable pub new : ℕ → CapacityConfig → Option Scheduler
new most config =
    if leb 1 most && leb most 64
    then some (record {
      max_concurrency = most;
      config = config;
      active_leases = 0;
      active_by_bucket = no_entries;
      queue = [];
      aborted = [];
      leases = [];
      rejected = [];
      next_id = 0;
    })
    else none

unfoldable pub default_session_scheduler : CapsFile → Option Scheduler
unfolding new
default_session_scheduler file =
    let config = load_capacity_config file in new config.session.global config

unfoldable pub active_for : Scheduler → String → ℕ
active_for s provider = or_else (s.active_by_bucket provider) 0

unfoldable pub cap_for : Scheduler → String → ℕ
cap_for s provider = min (session_cap s.config provider) s.max_concurrency

unfoldable pub has_fired : List ℕ → Option ℕ → Bool
has_fired fired none = false
has_fired fired (some signal) = any (λ n. n == signal) fired

unfoldable pub has_room : Scheduler → String → Bool
unfolding active_for cap_for
has_room s provider =
    if leb s.max_concurrency s.active_leases
    then false
    else ltb (active_for s provider) (cap_for s provider)

unfoldable pub grant : Scheduler → QueuedAcquire → Scheduler
unfolding active_for
grant s entry = record s {
  active_leases = s.active_leases + 1;
  active_by_bucket = put s.active_by_bucket entry.provider (active_for s entry.provider + 1);
  leases = s.leases ++ record { id = entry.id; provider = entry.provider; released = false } ∷ [];
}

-- One round of the loop of `drain`: reject, keep or grant the entry under the cursor.
unfoldable pub visit : Scheduler → QueuedAcquire → Scheduler
visit s entry =
    if has_fired s.aborted entry.signal
    then record s { rejected = s.rejected ++ entry.id ∷ [] }
    else if has_room s entry.provider
    then grant s entry
    else record s { queue = s.queue ++ entry ∷ [] }

visit_cases {ℓ} :
    (P : Scheduler → Type ℓ) (s : Scheduler) (entry : QueuedAcquire)
    → (has_fired s.aborted entry.signal ≡ true
        → P (record s { rejected = s.rejected ++ entry.id ∷ [] }))
    → (has_fired s.aborted entry.signal ≡ false
        → has_room s entry.provider ≡ true
        → P (grant s entry))
    → (has_fired s.aborted entry.signal ≡ false
        → has_room s entry.provider ≡ false
        → P (record s { queue = s.queue ++ entry ∷ [] }))
    → P (visit s entry)
unfolding visit
visit_cases P s entry fired room full = elim (Bool-cases (has_fired s.aborted entry.signal)) [
  | inl e ↦ rw (e, visit) (fired e)
  | inr e ↦ elim (Bool-cases (has_room s entry.provider)) [
    | inl r ↦ rw (e, visit) (rw (r, visit) (room e r))
    | inr r ↦ rw (e, visit) (rw (r, visit) (full e r))
  ]
]

unfoldable pub drain_from : Scheduler → List QueuedAcquire → Scheduler
drain_from s [] = s
drain_from s (entry ∷ rest) = drain_from (visit s entry) rest

unfoldable pub drain : Scheduler → Scheduler
drain s = drain_from (record s { queue = [] }) s.queue

unfoldable pub acquire : Scheduler → Option ℕ → String → Scheduler
acquire s signal provider =
    let id = s.next_id in
    let numbered = record s { next_id = suc id } in
    if has_fired s.aborted signal
    then record numbered { rejected = s.rejected ++ id ∷ [] }
    else drain (record numbered {
      queue = s.queue ++ record { id = id; provider = provider; signal = signal } ∷ [];
    })

give_back : Map ℕ → String → Map ℕ
give_back buckets provider =
    let current = or_else (buckets provider) 1 in
    if leb current 1 then delete buckets provider else put buckets provider (current - 1)

abbrev pub mark_released : Lease → Lease
mark_released l = record l { released = true }

-- What a release does to the counts, before it drains.
unfoldable pub let_go : Scheduler → ℕ → Lease → Scheduler
unfolding give_back
let_go s index lease = record s {
  active_leases = s.active_leases - 1;
  active_by_bucket = give_back s.active_by_bucket lease.provider;
  leases = modify s.leases index mark_released;
}

-- A call of the lease with this index.
unfoldable pub release : Scheduler → ℕ → Scheduler
release s index = elim (get_elem? s.leases index) [
  | none ↦ s
  | some lease ↦ if lease.released then s else drain (let_go s index lease)
]

unfoldable pub without : ℕ → List QueuedAcquire → List QueuedAcquire
without id [] = []
without id (entry ∷ rest) = if entry.id == id then rest else entry ∷ without id rest

-- The abort listener of one entry.
unfoldable pub on_abort : Scheduler → QueuedAcquire → Scheduler
on_abort s entry =
    if any (λ (other : QueuedAcquire). other.id == entry.id) s.queue
    then drain
        (record s { queue = without entry.id s.queue; rejected = s.rejected ++ entry.id ∷ [] })
    else s

listens : ℕ → QueuedAcquire → Bool
listens signal entry = has_fired (signal ∷ []) entry.signal

unfoldable pub notify_all : Scheduler → ℕ → List QueuedAcquire → Scheduler
unfolding listens
notify_all s signal [] = s
notify_all s signal (entry ∷ rest) =
    notify_all (if listens signal entry then on_abort s entry else s) signal rest

-- A signal fires: it is marked, then each entry that listens to it is told.
unfoldable pub abort : Scheduler → ℕ → Scheduler
abort s signal = notify_all (record s { aborted = signal ∷ s.aborted }) signal s.queue

-- `run`, from the moment its lease is granted: launch, or give the slot back if the signal fired.
unfoldable pub resume_run : Scheduler → ℕ → Option ℕ → Scheduler × Bool
resume_run s index signal =
    if has_fired s.aborted signal then (release s index, false) else (s, true)

pub data Event : Type 0 where
  acquires : Option ℕ → String → Event
  releases aborts : ℕ → Event
  resumes : ℕ → Option ℕ → Event

unfoldable pub step : Scheduler → Event → Scheduler
step s (acquires signal provider) = acquire s signal provider
step s (releases index) = release s index
step s (aborts signal) = abort s signal
step s (resumes index signal) = (resume_run s index signal).0

unfoldable pub run : Scheduler → List Event → Scheduler
run s [] = s
run s (e ∷ es) = run (step s e) es

-- ===== src/Scheduler/Fifo.antt =====
-- The order in which scheduler.ts grants the launches of one provider.
use steak_pi.Prelude.{
  ℕ, zero, suc, String, ◌≡◌, refl, sym, ap, ◌∙◌, inl, inr, true, false, not, ◌&&◌, Option, List, [],
  ◌∷◌, ◌++◌, arith, if◌then◌else◌, Bool-cases, Option-cases, get_elem?, modify, All, str_eq,
  str_eq_iff,
}
use mathlib.Core.List.{append_assoc, append-nil}
use steak_pi.Scheduler.{
  QueuedAcquire, Lease, Scheduler, has_fired, has_room, grant, visit, drain_from, drain, acquire,
  mark_released, let_go, release, visit_cases,
}
use steak_pi.Scheduler.Settled.{IsStuck, IsSettled, visit-IsSettled}

-- The launches of one provider that were granted, and those that wait on a live signal.
abbrev pub granted_for : String → List Lease → List ℕ
granted_for p [] = []
granted_for p (l ∷ ls) = if str_eq l.provider p then l.id ∷ granted_for p ls else granted_for p ls

abbrev pub waiting_for : String → List ℕ → List QueuedAcquire → List ℕ
waiting_for p fired [] = []
waiting_for p fired (e ∷ es) =
    if str_eq e.provider p && not (has_fired fired e.signal)
    then e.id ∷ waiting_for p fired es
    else waiting_for p fired es

-- The launches of a provider in the order of their service: granted ones, then waiting ones.
abbrev pub line_for : String → Scheduler → List ℕ
line_for p s = granted_for p s.leases ++ waiting_for p s.aborted s.queue

module _ (p : String) where
  granted_for-append :
      (xs ys : List Lease) → granted_for p (xs ++ ys) ≡ granted_for p xs ++ granted_for p ys
  granted_for-append [] ys = refl
  granted_for-append (x ∷ xs) ys = ground (arith, granted_for-append xs ys)

  waiting_for-append :
      (fired : List ℕ) (xs ys : List QueuedAcquire)
      → waiting_for p fired (xs ++ ys) ≡ waiting_for p fired xs ++ waiting_for p fired ys
  waiting_for-append fired [] ys = refl
  waiting_for-append fired (x ∷ xs) ys = ground (arith, waiting_for-append fired xs ys)

  -- While a provider has room, none of its launches is stuck.
  none_stuck :
      (s : Scheduler) (q : List QueuedAcquire)
      → has_room s p ≡ true
      → All (IsStuck s) q
      → waiting_for p s.aborted q ≡ []
  none_stuck s [] room h = refl
  none_stuck s (e ∷ q) room h = ground (arith, none_stuck s q room h.1, str_eq_iff e.provider p)

  grant-line :
      (s : Scheduler) (e : QueuedAcquire)
      → IsSettled s
      → has_fired s.aborted e.signal ≡ false
      → has_room s e.provider ≡ true
      → line_for p (grant s e) ≡ line_for p s ++ waiting_for p s.aborted (e ∷ [])
  unfolding grant
  grant-line s e h quiet room = ground (
    arith,
    none_stuck s s.queue,
    str_eq_iff e.provider p,
    granted_for-append s.leases
        (record { id = e.id; provider = e.provider; released = false } ∷ []),
    append-nil (granted_for p s.leases),
    append-nil (granted_for p s.leases ++ e.id ∷ []),
    append-nil (granted_for p s.leases ++ waiting_for p s.aborted s.queue),
  )

  -- A round of `drain` moves the entry to the end of what was granted or kept.
  visit-line :
      (s : Scheduler) (e : QueuedAcquire)
      → IsSettled s
      → line_for p (visit s e) ≡ line_for p s ++ waiting_for p s.aborted (e ∷ [])
  visit-line s e h =
      visit_cases (λ t. line_for p t ≡ line_for p s ++ waiting_for p s.aborted (e ∷ [])) s e
        (λ fired. ground (arith, append-nil (line_for p s))) (grant-line s e h)
        λ quiet full. rw (waiting_for-append s.aborted s.queue (e ∷ [])) (
          sym (
            append_assoc (granted_for p s.leases) (waiting_for p s.aborted s.queue)
              (waiting_for p s.aborted (e ∷ []))))

  visit-aborted : (s : Scheduler) (e : QueuedAcquire) → (visit s e).aborted ≡ s.aborted
  unfolding visit grant
  visit-aborted s e = ground arith

  line_step :
      (s : Scheduler) (e : QueuedAcquire) (es : List QueuedAcquire)
      → (line_for p s ++ waiting_for p s.aborted (e ∷ [])) ++ waiting_for p s.aborted es
        ≡ line_for p s ++ waiting_for p s.aborted (e ∷ es)
  line_step s e es =
      append_assoc (line_for p s) (waiting_for p s.aborted (e ∷ [])) (waiting_for p s.aborted es)
      ∙ ap (λ (w : List ℕ). line_for p s ++ w) (sym (waiting_for-append s.aborted (e ∷ []) es))

  drain_from-line :
      (s : Scheduler) (es : List QueuedAcquire)
      → IsSettled s
      → line_for p (drain_from s es) ≡ line_for p s ++ waiting_for p s.aborted es
  unfolding drain_from
  drain_from-line s [] h = sym (append-nil (line_for p s))
  drain_from-line s (e ∷ es) h =
      drain_from-line (visit s e) es (visit-IsSettled s e h)
      ∙ rw (visit-line s e h, visit-aborted s e) (line_step s e es)

  -- Draining serves a provider in the order of its queue, and loses no live launch of it.
  drain-line : (s : Scheduler) → line_for p (drain s) ≡ line_for p s
  unfolding drain
  drain-line s =
      drain_from-line (record s { queue = [] }) s.queue tt
      ∙ rw (append-nil (granted_for p s.leases))

  -- A released lease stays where it is in the line.
  granted_for-modify :
      (ls : List Lease) (index : ℕ)
      → granted_for p (modify ls index mark_released) ≡ granted_for p ls
  granted_for-modify [] index = refl
  granted_for-modify (l ∷ ls) zero = refl
  granted_for-modify (l ∷ ls) (suc index) = ground (arith, granted_for-modify ls index)

  let_go-line :
      (s : Scheduler) (index : ℕ) (lease : Lease) → line_for p (let_go s index lease) ≡ line_for p s
  unfolding let_go
  let_go-line s index lease = rw (granted_for-modify s.leases index)

-- A call of a lease, the first or a later one, leaves every provider's line as it was: it may turn
-- waiting launches into granted ones, but only from the front.
pub release-line :
    (p : String) (s : Scheduler) (index : ℕ) → line_for p (release s index) ≡ line_for p s
unfolding release
release-line p s index = elim (Option-cases (get_elem? s.leases index)) [
  | inl e ↦ rw (e, release)
  | inr (lease, e) ↦ elim (Bool-cases lease.released) [
    | inl gone ↦ rw (e, release) (simp gone)
    | inr live ↦
        rw (e, release)
          (simp live (drain-line p (let_go s index lease) ∙ let_go-line p s index lease))
  ]
]

-- A launch that is asked for with a live signal joins the end of its provider's line, and no other
-- line changes; one whose signal has fired joins none.
pub acquire-line :
    (p : String) (s : Scheduler) (signal : Option ℕ) (provider : String)
    → line_for p (acquire s signal provider)
      ≡ line_for p s
        ++ (if str_eq provider p && not (has_fired s.aborted signal) then s.next_id ∷ [] else [])
unfolding acquire
acquire-line p s signal provider = elim (Bool-cases (has_fired s.aborted signal)) [
  | inl fired ↦ rw (fired, acquire) (ground (arith, append-nil (line_for p s)))
  | inr quiet ↦
      rw (quiet, acquire)
        (drain-line p _
          ∙ ground (
            arith,
            quiet,
            waiting_for-append p s.aborted s.queue
                (record { id = s.next_id; provider = provider; signal = signal } ∷ []),
            append-nil (line_for p s),
            append-nil (waiting_for p s.aborted s.queue),
            append_assoc (granted_for p s.leases) (waiting_for p s.aborted s.queue)
                (s.next_id ∷ []),
          ))
]

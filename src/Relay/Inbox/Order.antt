-- ===== src/Relay/Inbox/Order.antt =====
-- The order of the messages that readInbox of src/subagents/relay.ts hands out, and its cursor.
use steak_pi.Prelude.{
  ℕ, zero, suc, ◌-◌, ◌≤◌, ◌<◌, min, ◌≡◌, refl, inl, inr, false, Option, none, some, List, [], ◌∷◌,
  ◌++◌, arith, leb, Bool-cases, Option-cases, length, All, take, drop, count_before,
  take-append-drop, length-take_le,
}
use steak_pi.Relay.{RelayEnvelope}
use steak_pi.Relay.Inbox.{barrier_of, cursor_of, at_barrier, last_seq, unread, batch_size, read_box}

-- The numbers rise, from above a bound.
abbrev pub Ascending : ℕ → List RelayEnvelope → Type 0
Ascending n [] = Unit
Ascending n (m ∷ rest) = (n < m.seq) × Ascending m.seq rest

-- Every number is below that of each unresolved message.
abbrev pub BelowAll : ℕ → List RelayEnvelope → Type 0
BelowAll n = All (λ m. n < m.seq)

barrier_of-none : (n : ℕ) (xs : List RelayEnvelope) → barrier_of xs ≡ none → BelowAll n xs
unfolding barrier_of
barrier_of-none n [] e = tt
barrier_of-none n (x ∷ xs) e = elim (Option-cases (barrier_of xs)) [
  | inl none_left ↦ ground arith
  | inr (least, e') ↦ ground arith
]

barrier_of-below :
    (n barrier : ℕ) (xs : List RelayEnvelope)
    → barrier_of xs ≡ some barrier
    → n < barrier
    → BelowAll n xs
unfolding barrier_of
barrier_of-below n barrier [] e h = tt
barrier_of-below n barrier (x ∷ xs) e h = elim (Option-cases (barrier_of xs)) [
  | inl none_left ↦ (ground arith, barrier_of-none n xs none_left)
  | inr (least, e') ↦ (ground arith, barrier_of-below n least xs e' (ground arith))
]

barrier_of_pos :
    (barrier : ℕ) (xs : List RelayEnvelope)
    → barrier_of xs ≡ some barrier
    → BelowAll 0 xs
    → 0 < barrier
unfolding barrier_of
barrier_of_pos barrier [] e h = cc
barrier_of_pos barrier (x ∷ xs) e h = elim (Option-cases (barrier_of xs)) [
  | inl none_left ↦ ground arith
  | inr (least, e') ↦ ground (arith, barrier_of_pos least xs e' h.1)
]

-- The entries before the barrier.
take_before :
    (barrier : Option ℕ) (xs : List RelayEnvelope) (size : ℕ)
    → size ≤ count_before (at_barrier barrier) xs
    → All (λ m. at_barrier barrier m ≡ false) (take size xs)
take_before barrier xs zero h = tt
take_before barrier [] (suc size) h = tt
take_before barrier (x ∷ xs) (suc size) h = elim (Bool-cases (at_barrier barrier x)) [
  | inl e ↦ absurd (ground arith)
  | inr e ↦ (e, take_before barrier xs size (ground arith))
]

last_seq-below :
    (barrier n : ℕ) (xs : List RelayEnvelope)
    → n < barrier
    → All (λ m. at_barrier (some barrier) m ≡ false) xs
    → last_seq xs n < barrier
last_seq-below barrier n [] h a = h
last_seq-below barrier n (x ∷ xs) h a = last_seq-below barrier x.seq xs (ground arith) a.1

drop_while-Ascending :
    (n cursor : ℕ) (xs : List RelayEnvelope) → Ascending n xs → Ascending cursor (unread cursor xs)
drop_while-Ascending n cursor [] a = tt
drop_while-Ascending n cursor (x ∷ xs) a = elim (Bool-cases (leb x.seq cursor)) [
  | inl e ↦ rw e (drop_while-Ascending x.seq cursor xs a.1)
  | inr e ↦ rw e (ground arith, a.1)
]

-- What lies beyond a read begins after the number that it publishes.
drop-Ascending :
    (n size : ℕ) (xs : List RelayEnvelope)
    → Ascending n xs
    → Ascending (last_seq (take size xs) n) (drop size xs)
drop-Ascending n zero xs a = a
drop-Ascending n (suc size) [] a = tt
drop-Ascending n (suc size) (x ∷ xs) a = drop-Ascending x.seq size xs a.1

-- Nothing of a list that begins after the cursor is skipped.
unread-Ascending :
    (cursor : ℕ) (xs : List RelayEnvelope) → Ascending cursor xs → unread cursor xs ≡ xs
unread-Ascending cursor [] a = refl
unread-Ascending cursor (x ∷ xs) a = ground arith

read_below :
    (limit mailbox_limit barrier n : ℕ) (xs : List RelayEnvelope)
    → n < barrier
    → last_seq (take (batch_size limit mailbox_limit (some barrier) xs) xs) n < barrier
read_below limit mailbox_limit barrier n xs h =
    last_seq-below barrier n _ h (
      take_before (some barrier) xs (batch_size limit mailbox_limit (some barrier) xs)
        (omega arith))

-- A read never publishes a number at or past an unresolved message, and hands out no more than it was
-- asked for.
pub read_box-cursor :
    (mailbox_limit after limit : ℕ) (mailbox unresolved : List RelayEnvelope)
    → BelowAll 0 unresolved
    → let result = (read_box mailbox_limit mailbox unresolved after limit).1 in
      BelowAll result.next_seq unresolved × (length result.messages ≤ min limit mailbox_limit)
unfolding read_box
read_box-cursor mailbox_limit after limit mailbox unresolved h = (
  elim (Option-cases (barrier_of unresolved)) [
    | inl e ↦ barrier_of-none _ unresolved e
    | inr (barrier, e) ↦ barrier_of-below _ barrier unresolved e (
        rw (e, read_box)
          (read_below limit mailbox_limit barrier (cursor_of after (some barrier))
            (unread (cursor_of after (some barrier)) mailbox)
            (ground (arith, barrier_of_pos barrier unresolved e h))))
  ],
  omega (arith, length-take_le {0}),
)

min_pred : (n barrier : ℕ) → n < barrier → min n (barrier - 1) ≡ n
min_pred n barrier h = omega arith

-- The number that a read publishes is the next read's cursor.
cursor_of_read :
    (mailbox_limit limit after : ℕ) (mailbox unresolved : List RelayEnvelope)
    → BelowAll 0 unresolved
    → let barrier = barrier_of unresolved in
      let cursor = cursor_of after barrier in
      let fresh = unread cursor mailbox in
      let next = last_seq (take (batch_size limit mailbox_limit barrier fresh) fresh) cursor in
      cursor_of next barrier ≡ next
cursor_of_read mailbox_limit limit after mailbox unresolved h =
    elim (Option-cases (barrier_of unresolved)) [
      | inl e ↦ rw e refl
      | inr (barrier, e) ↦ rw e (
          min_pred _ barrier (
            read_below limit mailbox_limit barrier (cursor_of after (some barrier))
              (unread (cursor_of after (some barrier)) mailbox)
              (ground (arith, barrier_of_pos barrier unresolved e h))))
    ]

two_reads :
    (size n cursor : ℕ) (fresh : List RelayEnvelope) (size_of : List RelayEnvelope → ℕ)
    → Ascending n fresh
    → cursor ≡ last_seq (take size fresh) n
    → let left = unread cursor (drop size fresh) in
      take size fresh ++ (take (size_of left) left ++ drop (size_of left) left) ≡ fresh
two_reads size n cursor fresh size_of a e =
    rw
      (
        e,
        unread-Ascending _ _ (drop-Ascending n size fresh a),
        take-append-drop (size_of (drop size fresh)) (drop size fresh),
        take-append-drop size fresh,
      )
      refl

-- Two reads, the second from the number that the first published, hand out one stretch of the mailbox
-- in its order: between them no message is lost, repeated or overtaken. The mailbox is in order, and
-- the unresolved messages are those of the first read.
pub read_box-twice :
    (mailbox_limit after limit again : ℕ) (mailbox unresolved : List RelayEnvelope)
    → Ascending 0 mailbox
    → BelowAll 0 unresolved
    → let (left, first) = read_box mailbox_limit mailbox unresolved after limit in
      let (rest, second) = read_box mailbox_limit left unresolved first.next_seq again in
      first.messages ++ (second.messages ++ rest)
      ≡ unread (cursor_of after (barrier_of unresolved)) mailbox
unfolding read_box
read_box-twice mailbox_limit after limit again mailbox unresolved a h =
    two_reads
      (batch_size limit mailbox_limit (barrier_of unresolved)
        (unread (cursor_of after (barrier_of unresolved)) mailbox))
      (cursor_of after (barrier_of unresolved)) _
      (unread (cursor_of after (barrier_of unresolved)) mailbox)
      (λ left. batch_size again mailbox_limit (barrier_of unresolved) left)
      (drop_while-Ascending 0 (cursor_of after (barrier_of unresolved)) mailbox a)
      (cursor_of_read mailbox_limit limit after mailbox unresolved h)

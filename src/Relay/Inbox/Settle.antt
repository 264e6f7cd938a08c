-- ===== src/Relay/Inbox/Settle.antt =====
-- The settlement of a promised delivery in src/subagents/relay.ts: the fallback to the mailbox.
use steak_pi.Prelude.{
  ℕ, ◌+◌, ◌≤◌, ◌<◌, String, ◌≡◌, refl, sym, ◌≢◌, inl, inr, Bool, true, false, List, [], ◌∷◌, ◌++◌,
  arith, ltb, ◌==◌, Bool-cases, any, all, count, All, count-append, All-append, weight, All-map,
  str_eq_refl,
}
use steak_pi.Relay.{RelayEnvelope, RelayRun, box}
use steak_pi.Relay.Inbox.{insert_by_seq, sort_by_seq, without_seq, settle}
use steak_pi.Relay.Inbox.Order.{Ascending}

-- A message that waits under this number.
abbrev pub Waits : ℕ → List RelayEnvelope → Type 0
Waits seq xs = any (λ m. m.seq == seq) xs ≡ true

-- No other message has its number.
abbrev pub NoneAt : ℕ → List RelayEnvelope → Type 0
NoneAt seq = All (λ m. m.seq ≢ seq)

insert_by_seq-Ascending :
    (n : ℕ) (m : RelayEnvelope) (xs : List RelayEnvelope)
    → n < m.seq
    → NoneAt m.seq xs
    → Ascending n xs
    → Ascending n (insert_by_seq m xs)
unfolding insert_by_seq
insert_by_seq-Ascending n m [] h fresh a = (h, tt)
insert_by_seq-Ascending n m (x ∷ xs) h fresh a = elim (Bool-cases (ltb x.seq m.seq)) [
  | inl e ↦ rw e (a.0, insert_by_seq-Ascending x.seq m xs (ground arith) fresh.1 a.1)
  | inr e ↦ rw e (h, (ground (arith, fresh.0), a.1))
]

module _ {κ} (P : RelayEnvelope → Type κ) where
  All-insert_by_seq :
      (m : RelayEnvelope) (xs : List RelayEnvelope) → P m → All P xs → All P (insert_by_seq m xs)
  unfolding insert_by_seq
  All-insert_by_seq m [] h all = (h, tt)
  All-insert_by_seq m (x ∷ xs) h all = elim (Bool-cases (ltb x.seq m.seq)) [
    | inl e ↦ rw e (all.0, All-insert_by_seq m xs h all.1)
    | inr e ↦ rw e (h, all)
  ]

  All-sort_by_seq : (xs : List RelayEnvelope) → All P xs → All P (sort_by_seq xs)
  unfolding sort_by_seq
  All-sort_by_seq [] all = tt
  All-sort_by_seq (x ∷ xs) all =
      All-insert_by_seq x (sort_by_seq xs) all.0 (All-sort_by_seq xs all.1)

-- No two messages have one number.
abbrev pub Apart : List RelayEnvelope → Type 0
Apart [] = Unit
Apart (m ∷ rest) = NoneAt m.seq rest × Apart rest

sort_by_seq-Ascending :
    (n : ℕ) (xs : List RelayEnvelope)
    → All (λ m. n < m.seq) xs
    → Apart xs
    → Ascending n (sort_by_seq xs)
unfolding sort_by_seq
sort_by_seq-Ascending n [] above apart = tt
sort_by_seq-Ascending n (x ∷ xs) above apart =
    insert_by_seq-Ascending n x (sort_by_seq xs) above.0
      (All-sort_by_seq (λ m. m.seq ≢ x.seq) xs apart.0) (sort_by_seq-Ascending n xs above.1 apart.1)

Ascending-above :
    (k n : ℕ) (xs : List RelayEnvelope) → k ≤ n → Ascending n xs → All (λ m. k < m.seq) xs
Ascending-above k n [] h a = tt
Ascending-above k n (x ∷ xs) h a =
    (omega (arith, a.0), Ascending-above k x.seq xs (omega (arith, a.0)) a.1)

append-Apart :
    (n : ℕ) (xs : List RelayEnvelope) (m : RelayEnvelope)
    → Ascending n xs
    → NoneAt m.seq xs
    → Apart (xs ++ m ∷ [])
append-Apart n [] m a fresh = (tt, tt)
append-Apart n (x ∷ xs) m a fresh = (
  All-append (λ k. k.seq ≢ x.seq) xs (m ∷ [])
      (All-map xs (λ k above e. omega (arith, above, e))
        (Ascending-above x.seq x.seq xs (omega arith) a.1))
      (λ e. fresh.0 (sym e), tt),
  append-Apart x.seq xs m a.1 fresh.1,
)

count-insert_by_seq :
    (p : RelayEnvelope → Bool) (m : RelayEnvelope) (xs : List RelayEnvelope)
    → count p (insert_by_seq m xs) ≡ weight (p m) + count p xs
unfolding insert_by_seq
count-insert_by_seq p m [] = ground arith
count-insert_by_seq p m (x ∷ xs) = ground (arith, count-insert_by_seq p m xs)

count-sort_by_seq :
    (p : RelayEnvelope → Bool) (xs : List RelayEnvelope) → count p (sort_by_seq xs) ≡ count p xs
unfolding sort_by_seq
count-sort_by_seq p [] = refl
count-sort_by_seq p (x ∷ xs) =
    ground (arith, count-insert_by_seq p x (sort_by_seq xs), count-sort_by_seq p xs)

count-without_seq :
    (seq s : ℕ) (xs : List RelayEnvelope)
    → Waits seq xs
    → weight (seq == s) + count (λ m. m.seq == s) (without_seq seq xs) ≡ count (λ m. m.seq == s) xs
unfolding without_seq
count-without_seq seq s [] e = cc
count-without_seq seq s (x ∷ xs) e = ground (arith, count-without_seq seq s xs)

-- The messages of a peer under a number, in the mailbox or unresolved.
abbrev pub waiting : RelayRun → String → ℕ → ℕ
waiting run p s =
    count (λ m. m.seq == s) (box run.mailboxes p) + count (λ m. m.seq == s) (box run.pending p)

-- A refused delivery falls back to the mailbox at its own place: the mailbox stays in the order of the
-- numbers, and no message is lost or doubled under any number. The message is unresolved, its number is
-- positive and not that of a message in the mailbox, and the mailbox is in order.
pub settle-Ascending :
    (run : RelayRun) (recipient : String) (m : RelayEnvelope) (s : ℕ)
    → Waits m.seq (box run.pending recipient)
    → 0 < m.seq
    → NoneAt m.seq (box run.mailboxes recipient)
    → Ascending 0 (box run.mailboxes recipient)
    → let run' = settle run recipient m false in
      Ascending 0 (box run'.mailboxes recipient)
      × (waiting run' recipient s ≡ waiting run recipient s)
unfolding settle
settle-Ascending run recipient m s waits h fresh a =
    let mailbox = box run.mailboxes recipient in
    let pending = box run.pending recipient in
    rw (str_eq_refl recipient) (
      sort_by_seq-Ascending 0 (mailbox ++ m ∷ [])
          (All-append (λ k. 0 < k.seq) mailbox (m ∷ [])
            (Ascending-above 0 0 mailbox (omega arith) a) (h, tt))
          (append-Apart 0 mailbox m a fresh),
      ground (
        arith,
        count-sort_by_seq (λ k. k.seq == s) (mailbox ++ m ∷ []),
        count-append (λ k. k.seq == s) mailbox (m ∷ []),
        count-without_seq m.seq s pending waits,
      ),
    )

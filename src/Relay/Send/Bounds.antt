-- ===== src/Relay/Send/Bounds.antt =====
-- What send of src/subagents/relay.ts adds to a run: the numbers it counts and the quotas it keeps.
use steak_pi.Prelude.{
  suc, ◌+◌, ◌≤◌, String, ◌≡◌, refl, ap, subst, inl, inr, List, [], ◌∷◌, arith, Bool-cases, length,
  count, length-append, weight, str_eq, str_eq_iff, Map,
}
use steak_pi.Relay.{
  RelayEnvelope, Outcome, RelayRun, Limits, box, accepted_now, declined, thrown, promised,
}
use steak_pi.Relay.Send.{
  reserved, Post, enter, push, place, deliver_one, Tally, deliver_all, envelope_for,
}

-- Every text occurs at most once.
abbrev pub Distinct : List String → Type 0
Distinct xs = (p : String) → count (str_eq p) xs ≤ 1

-- The quotas of a run: the messages that it accepted, and the room that each mailbox has reserved.
abbrev pub InQuota : Limits → RelayRun → Type 0
InQuota limits run =
    (run.accepted ≤ limits.run_limit) × ((p : String) → reserved run p ≤ limits.mailbox_limit)

length-push :
    (boxes : Map (List RelayEnvelope)) (peer p : String) (m : RelayEnvelope)
    → length (box (push boxes peer m) p) ≤ length (box boxes p) + weight (str_eq p peer)
length-push boxes peer p m = elim (Bool-cases (str_eq p peer)) [
  | inl e ↦ rw (e, length-append, (str_eq_iff p peer).0 e) (omega arith)
  | inr e ↦ rw e (omega arith)
]

place-reserved :
    (run : RelayRun) (recipient p : String) (m : RelayEnvelope) (outcome : Outcome)
    → reserved (place run recipient m outcome).0 p ≤ reserved run p + weight (str_eq p recipient)
unfolding place
place-reserved run recipient p m accepted_now = omega arith
place-reserved run recipient p m promised = omega (arith, length-push run.pending recipient p m)
place-reserved run recipient p m declined = omega (arith, length-push run.mailboxes recipient p m)
place-reserved run recipient p m thrown = omega (arith, length-push run.mailboxes recipient p m)

place-counted :
    (run : RelayRun) (recipient : String) (m : RelayEnvelope) (outcome : Outcome)
    → let run' = (place run recipient m outcome).0 in
      (run'.accepted ≡ run.accepted) × (run'.next_seq ≡ run.next_seq)
unfolding place
place-counted run recipient m accepted_now = (refl, refl)
place-counted run recipient m promised = (refl, refl)
place-counted run recipient m declined = (refl, refl)
place-counted run recipient m thrown = (refl, refl)

deliver_one-reserved :
    (limits : Limits) (run : RelayRun) (post : Post) (recipient p : String)
    → reserved (deliver_one limits run post recipient).0 p
      ≤ reserved run p + weight (str_eq p recipient)
unfolding deliver_one enter
deliver_one-reserved limits run post recipient p =
    place-reserved (enter run post (envelope_for limits run post recipient) recipient) recipient p _
      _

deliver_one-counted :
    (limits : Limits) (run : RelayRun) (post : Post) (recipient : String)
    → let run' = (deliver_one limits run post recipient).0 in
      (run'.accepted ≡ run.accepted + 1) × (run'.next_seq ≡ run.next_seq + 1)
unfolding deliver_one enter
deliver_one-counted limits run post recipient =
    place-counted (enter run post (envelope_for limits run post recipient) recipient) recipient _ _

pub deliver_all-reserved :
    (limits : Limits) (run : RelayRun) (post : Post) (recipients : List String) (p : String)
    → reserved (deliver_all limits run post recipients).0 p
      ≤ reserved run p + count (str_eq p) recipients
unfolding deliver_all
deliver_all-reserved limits run post [] p = omega arith
deliver_all-reserved limits run post (r ∷ rs) p =
    let run' = (deliver_one limits run post r).0 in
    elim (Bool-cases (str_eq p r)) [
      | inl e ↦ rw e (
          omega (
            arith,
            deliver_all-reserved limits run' post rs p,
            subst (λ b. reserved run' p ≤ reserved run p + weight b) e
                (deliver_one-reserved limits run post r p),
          ))
      | inr e ↦ rw e (
          omega (
            arith,
            deliver_all-reserved limits run' post rs p,
            subst (λ b. reserved run' p ≤ reserved run p + weight b) e
                (deliver_one-reserved limits run post r p),
          ))
    ]

-- What the counters of a run and of an answer say after the deliveries.
abbrev pub Tallied : RelayRun → List String → RelayRun × Tally → Type 0
Tallied run recipients (run', tally) =
    (run'.accepted ≡ run.accepted + length recipients)
    × (run'.next_seq ≡ run.next_seq + length recipients)
    × (length tally.ids ≡ length recipients)
    × (tally.queued + tally.delivered ≡ length recipients)

pub deliver_all-Tallied :
    (limits : Limits) (run : RelayRun) (post : Post) (recipients : List String)
    → Tallied run recipients (deliver_all limits run post recipients)
unfolding deliver_all
deliver_all-Tallied limits run post [] = (omega arith, omega arith, refl, refl)
deliver_all-Tallied limits run post (r ∷ rs) =
    let first = deliver_one limits run post r in
    let (a, n, ids, sum) = deliver_all-Tallied limits first.0 post rs in
    let (a', n') = deliver_one-counted limits run post r in
    (
      omega (arith, a, a'),
      omega (arith, n, n'),
      ap suc ids,
      elim (Bool-cases first.2) [
        | inl e ↦ rw e (omega (arith, sum))
        | inr e ↦ rw e (omega (arith, sum))
      ],
    )

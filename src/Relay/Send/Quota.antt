-- ===== src/Relay/Send/Quota.antt =====
-- The quotas of a run under send of src/subagents/relay.ts, and what an answer of it says.
use steak_pi.Prelude.{
  ◌+◌, ◌≤◌, String, ◌≡◌, refl, ◌∙◌, subst, inl, inr, Bool, true, false, not, some, List, [], ◌∷◌,
  arith, leb, Bool-cases, length, any, keep, count, str_eq, str_eq_iff,
}
use steak_pi.Relay.Send.Told.{Told, deliver_all-Told, forget_request-Told}
use steak_pi.Relay.{RelayRun, Limits, run_broadcast_target}
use steak_pi.Relay.Send.{
  RelaySendInput, RelayRejectCode, Sent, Checked, ◌>>◌, reject_if, others, recipients_of, is_reply,
  reserved, check_room, Post, deliver_all, forget_request, check_send, dispatch_post, send, ok,
  rejected,
}
use steak_pi.Relay.Send.Accepted.{Checked-cases, check_send-Passed, check_room-ok}
use steak_pi.Relay.Send.Bounds.{Distinct, InQuota, deliver_all-reserved, deliver_all-Tallied}

count_of_none :
    (limits : Limits) (run : RelayRun) (p : String) (recipients : List String)
    → any (λ r. leb limits.mailbox_limit (reserved run r)) recipients ≡ false
    → count (str_eq p) recipients ≤ 1
    → reserved run p ≤ limits.mailbox_limit
    → reserved run p + count (str_eq p) recipients ≤ limits.mailbox_limit
count_of_none limits run p [] e once fits = omega (arith, fits)
count_of_none limits run p (r ∷ rs) e once fits = elim (Bool-cases (str_eq p r)) [
  | inl same ↦ rw same (ground (arith, (str_eq_iff p r).0 same))
  | inr other ↦ rw other (count_of_none limits run p rs (ground arith) (ground arith) fits)
]

count-keep_le : (p test : String → Bool) (xs : List String) → count p (keep test xs) ≤ count p xs
count-keep_le p test [] = omega arith
count-keep_le p test (x ∷ xs) = ground (arith, count-keep_le p test xs)

-- The recipients that were found are distinct.
abbrev AllDistinct : Checked (List String) → Type 0
AllDistinct (rejected code) = Unit
AllDistinct (ok recipients) = Distinct recipients

guarded-AllDistinct :
    (test : Bool) (code : RelayRejectCode) (xs : List String)
    → Distinct xs
    → AllDistinct ((reject_if test code) >> ok xs)
guarded-AllDistinct true code xs d = tt
guarded-AllDistinct false code xs d = d

recipients_of-AllDistinct :
    (run : RelayRun) (sender to : String)
    → Distinct run.peers
    → AllDistinct (recipients_of run sender to)
unfolding recipients_of others
recipients_of-AllDistinct run sender to d = elim (Bool-cases (str_eq to run_broadcast_target)) [
  | inl e ↦ rw e (
      guarded-AllDistinct _ _ _ (λ p.
        omega (arith, d p, count-keep_le (str_eq p) (λ peer. not (str_eq peer sender)) run.peers)))
  | inr e ↦ rw e (guarded-AllDistinct _ _ _ (λ p. ground arith))
]

pub send_rejected :
    (limits : Limits) (run : RelayRun) (sender : String) (input : RelaySendInput)
    (code : RelayRejectCode)
    → check_send limits run sender input ≡ rejected code
    → send limits run sender input ≡ (run, rejected code)
unfolding send
send_rejected limits run sender input code e = rw (e, send) refl

pub send_ok :
    (limits : Limits) (run : RelayRun) (sender : String) (input : RelaySendInput) (post : Post)
    (recipients : List String)
    → check_send limits run sender input ≡ ok (post, recipients)
    → send limits run sender input ≡ dispatch_post limits run post recipients
unfolding send
send_ok limits run sender input post recipients e = rw (e, send) refl

-- The requests have no part in the quotas.
forget_request-InQuota :
    (limits : Limits) (run : RelayRun) (post : Post)
    → InQuota limits run
    → InQuota limits (forget_request run post)
forget_request-InQuota limits run post q = elim (Bool-cases (is_reply post.kind)) [
  | inl e ↦ rw e q
  | inr e ↦ rw e q
]

dispatch_post-InQuota :
    (limits : Limits) (run : RelayRun) (post : Post) (recipients : List String)
    → Distinct recipients
    → InQuota limits run
    → check_room limits run recipients ≡ ok tt
    → InQuota limits (dispatch_post limits run post recipients).0
unfolding dispatch_post
dispatch_post-InQuota limits run post recipients d (total, fits) e =
    let (room, boxes) = check_room-ok limits run recipients e in
    let (run', tally) = deliver_all limits run post recipients in
    forget_request-InQuota limits run' post (
      omega (arith, room, (deliver_all-Tallied limits run post recipients).0),
      λ p. omega (
        arith,
        deliver_all-reserved limits run post recipients p,
        count_of_none limits run p recipients boxes (d p) (fits p),
      ),
    )

-- `send` keeps a run within its quotas, whatever it answers and whatever the callbacks return or throw,
-- as long as none of them calls the broker itself while the message is sent: it never accepts more
-- messages than the run's limit, nor reserves more room for a peer than a mailbox has. The peers are
-- distinct.
pub send-InQuota :
    (limits : Limits) (run : RelayRun) (sender : String) (input : RelaySendInput)
    → Distinct run.peers
    → InQuota limits run
    → InQuota limits (send limits run sender input).0
send-InQuota limits run sender input d q =
    elim (Checked-cases (check_send limits run sender input)) [
      | inl (code, e) ↦ rw (send_rejected limits run sender input code e) q
      | inr ((post, recipients), e) ↦
          let passed = check_send-Passed limits run sender input post recipients e in
          rw (send_ok limits run sender input post recipients e) (
            dispatch_post-InQuota limits run post recipients
              (subst AllDistinct passed.1 (recipients_of-AllDistinct run sender post.to d)) q
              passed.3)
    ]

-- What the answer says of the run before and after it, and of the recipients.
abbrev pub Answered : RelayRun → String → RelaySendInput → RelayRun × Checked Sent → Type 0
Answered run sender input (run', rejected code) = run' ≡ run
Answered run sender input (run', ok sent) =
    (to : String) × (recipients : List String) × (input.to ≡ some to)
    × (recipients_of run sender to ≡ ok recipients)
    × Told run.deliveries run' recipients sent.ids sent.queued sent.delivered
    × (sent.accepted ≡ length recipients)
    × (sent.queued + sent.delivered ≡ length recipients)
    × (run'.accepted ≡ run.accepted + length recipients)
    × (run'.next_seq ≡ run.next_seq + length recipients)

dispatch_post-Answered :
    (limits : Limits) (run : RelayRun) (sender : String) (input : RelaySendInput) (post : Post)
    (recipients : List String)
    → input.to ≡ some post.to
    → recipients_of run sender post.to ≡ ok recipients
    → Answered run sender input (dispatch_post limits run post recipients)
unfolding dispatch_post
dispatch_post-Answered limits run sender input post recipients named found =
    let (a, n, ids, sum) = deliver_all-Tallied limits run post recipients in
    let (run', tally) = deliver_all limits run post recipients in
    let (a', n') = forget_request-counted run' post in
    (
      post.to,
      recipients,
      named,
      found,
      forget_request-Told run.deliveries run' post recipients tally.ids tally.queued tally.delivered
          (deliver_all-Told limits run post recipients),
      refl,
      sum,
      a' ∙ a,
      n' ∙ n,
    )
  where
    forget_request-counted :
        (run : RelayRun) (post : Post)
        → ((forget_request run post).accepted ≡ run.accepted)
          × ((forget_request run post).next_seq ≡ run.next_seq)
    forget_request-counted run post = elim (Bool-cases (is_reply post.kind)) [
      | inl e ↦ rw e (refl, refl)
      | inr e ↦ rw e (refl, refl)
    ]

-- A rejected message leaves the run as it was. An accepted one goes to each recipient that its target
-- stands for. The answer has an id for each of them, in their order: an envelope with that id waits in
-- the recipient's mailbox or unresolved, or the recipient's own callback returned that it took an
-- envelope with that id. The answer counts both kinds, and the run's counters advance by the number of
-- recipients. The callbacks do not call the broker themselves while the message is sent.
pub send-Answered :
    (limits : Limits) (run : RelayRun) (sender : String) (input : RelaySendInput)
    → Answered run sender input (send limits run sender input)
send-Answered limits run sender input = elim (Checked-cases (check_send limits run sender input)) [
  | inl (code, e) ↦ rw (send_rejected limits run sender input code e) refl
  | inr ((post, recipients), e) ↦
      let passed = check_send-Passed limits run sender input post recipients e in
      rw (send_ok limits run sender input post recipients e)
        (dispatch_post-Answered limits run sender input post recipients passed.5 passed.1)
]

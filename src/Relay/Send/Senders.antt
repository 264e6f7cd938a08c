-- ===== src/Relay/Send/Senders.antt =====
-- Who a message comes from in send of src/subagents/relay.ts.
use steak_pi.Prelude.{
  String, ◌≡◌, refl, ◌∙◌, inl, inr, List, [], ◌∷◌, Bool-cases, all, All, All-append, str_eq, Map,
}
use steak_pi.Relay.{
  RelayEnvelope, Outcome, RelayRun, Limits, box, accepted_now, declined, thrown, promised,
}
use steak_pi.Relay.Send.{
  RelaySendInput, is_reply, Post, enter, push, place, deliver_one, deliver_all, check_send,
  dispatch_post, send, envelope_for,
}
use steak_pi.Relay.Send.Accepted.{Checked-cases, check_send-Passed}
use steak_pi.Relay.Send.Quota.{send_rejected, send_ok}

-- Every message that waits in the run, in a mailbox or unresolved, has the property.
abbrev pub AllWaiting {κ} : (RelayEnvelope → Type κ) → RelayRun → Type κ
AllWaiting P run = (p : String) → All P (box run.mailboxes p) × All P (box run.pending p)

module _ {κ} (P : RelayEnvelope → Type κ) where
  push-All :
      (boxes : Map (List RelayEnvelope)) (peer p : String) (m : RelayEnvelope)
      → P m
      → All P (box boxes peer)
      → All P (box boxes p)
      → All P (box (push boxes peer m) p)
  push-All boxes peer p m new own all = elim (Bool-cases (str_eq p peer)) [
    | inl e ↦ rw e (All-append P _ (m ∷ []) own (new, tt))
    | inr e ↦ rw e all
  ]

  place-AllWaiting :
      (run : RelayRun) (recipient : String) (m : RelayEnvelope) (outcome : Outcome)
      → P m
      → AllWaiting P run
      → AllWaiting P (place run recipient m outcome).0
  unfolding place
  place-AllWaiting run recipient m accepted_now new all = all
  place-AllWaiting run recipient m promised new all =
      λ p. ((all p).0, push-All run.pending recipient p m new (all recipient).1 (all p).1)
  place-AllWaiting run recipient m declined new all =
      λ p. (push-All run.mailboxes recipient p m new (all recipient).0 (all p).0, (all p).1)
  place-AllWaiting run recipient m thrown new all =
      λ p. (push-All run.mailboxes recipient p m new (all recipient).0 (all p).0, (all p).1)

  deliver_one-AllWaiting :
      (limits : Limits) (run : RelayRun) (post : Post) (recipient : String)
      → ((m : RelayEnvelope) → m.from ≡ post.sender → m.run_id ≡ run.id → P m)
      → AllWaiting P run
      → AllWaiting P (deliver_one limits run post recipient).0
  unfolding deliver_one enter envelope_for
  deliver_one-AllWaiting limits run post recipient new all =
      let m = envelope_for limits run post recipient in
      place-AllWaiting (enter run post m recipient) recipient m _ (new m refl refl) all

place-id :
    (run : RelayRun) (recipient : String) (m : RelayEnvelope) (outcome : Outcome)
    → (place run recipient m outcome).0.id ≡ run.id
unfolding place
place-id run recipient m accepted_now = refl
place-id run recipient m promised = refl
place-id run recipient m declined = refl
place-id run recipient m thrown = refl

deliver_one-id :
    (limits : Limits) (run : RelayRun) (post : Post) (recipient : String)
    → (deliver_one limits run post recipient).0.id ≡ run.id
unfolding deliver_one enter
deliver_one-id limits run post recipient =
    place-id (enter run post (envelope_for limits run post recipient) recipient) recipient _ _

module _ {κ} (P : RelayEnvelope → Type κ) where
  deliver_all-AllWaiting :
      (limits : Limits) (run : RelayRun) (post : Post) (recipients : List String)
      → ((m : RelayEnvelope) → m.from ≡ post.sender → m.run_id ≡ run.id → P m)
      → AllWaiting P run
      → AllWaiting P (deliver_all limits run post recipients).0
  unfolding deliver_all
  deliver_all-AllWaiting limits run post [] new all = all
  deliver_all-AllWaiting limits run post (r ∷ rs) new all =
      deliver_all-AllWaiting limits (deliver_one limits run post r).0 post rs
        (λ m from id. new m from (id ∙ deliver_one-id limits run post r))
        (deliver_one-AllWaiting P limits run post r new all)

  dispatch_post-AllWaiting :
      (limits : Limits) (run : RelayRun) (post : Post) (recipients : List String)
      → ((m : RelayEnvelope) → m.from ≡ post.sender → m.run_id ≡ run.id → P m)
      → AllWaiting P run
      → AllWaiting P (dispatch_post limits run post recipients).0
  unfolding dispatch_post
  dispatch_post-AllWaiting limits run post recipients new all =
      elim (Bool-cases (is_reply post.kind)) [
        | inl e ↦ rw e (deliver_all-AllWaiting limits run post recipients new all)
        | inr e ↦ rw e (deliver_all-AllWaiting limits run post recipients new all)
      ]

-- A sender cannot pose as another: whatever holds of each message that waits in a run, and of each
-- message of that run that names the bound sender as its origin, holds of each message that waits
-- after a `send` of that sender.
pub send-AllWaiting {κ} :
    (P : RelayEnvelope → Type κ) (limits : Limits) (run : RelayRun) (sender : String)
    (input : RelaySendInput)
    → ((m : RelayEnvelope) → m.from ≡ sender → m.run_id ≡ run.id → P m)
    → AllWaiting P run
    → AllWaiting P (send limits run sender input).0
send-AllWaiting P limits run sender input new all =
    elim (Checked-cases (check_send limits run sender input)) [
      | inl (code, e) ↦ rw (send_rejected limits run sender input code e) all
      | inr ((post, recipients), e) ↦
          let passed = check_send-Passed limits run sender input post recipients e in
          rw (send_ok limits run sender input post recipients e) (
            dispatch_post-AllWaiting P limits run post recipients
              (λ m from. new m (from ∙ passed.4)) all)
    ]

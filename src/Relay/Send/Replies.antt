-- ===== src/Relay/Send/Replies.antt =====
-- Replies under send of src/subagents/relay.ts: a request is answered once.
use steak_pi.Prelude.{
  String, ◌≡◌, refl, ap, subst, ◌≢◌, inl, inr, false, not, Option, none, some, List, [], ◌∷◌, arith,
  Bool-cases, str_eq, str_eq_refl, Map,
}
use steak_pi.Relay.{Kind, Request, RelayRun, Limits, reply}
use steak_pi.Relay.Send.{
  RelaySendInput, RelayRejectCode, Sent, Checked, check_kind, answers, check_reply, Post,
  check_send, dispatch_post, send, kind_of, reply_of, invalid_reply, ok, rejected,
}
use steak_pi.Relay.Send.Accepted.{then_ok, Checked-cases, check_send-Passed}
use steak_pi.Relay.Send.Quota.{send_rejected, send_ok}

-- The message is a reply to this request.
abbrev pub RepliesTo : String → RelaySendInput → Type 0
RepliesTo id input = (input.kind ≡ kind_of reply) × (input.reply_to ≡ reply_of id)

answers_unknown :
    (requests : Map Request) (id sender : String) (recipients : List String)
    → requests id ≡ none
    → answers requests id sender recipients ≡ false
unfolding answers
answers_unknown requests id sender [] e = refl
answers_unknown requests id sender (r ∷ []) e = rw (e, answers) refl
answers_unknown requests id sender (r ∷ s ∷ rs) e = refl

check_reply_unknown :
    (run : RelayRun) (sender id : String) (recipients : List String) (answered : Option String)
    → run.requests id ≡ none
    → check_reply run sender reply (reply_of id) recipients ≢ ok answered
unfolding check_reply
check_reply_unknown run sender id recipients answered missing e = elim (Bool-cases (str_eq id "")) [
  | inl empty ↦ ground arith
  | inr some_id ↦ ground (arith, answers_unknown run.requests id sender recipients missing)
]

-- The request that a reply with this id answers.
check_reply-id :
    (run : RelayRun) (sender id : String) (recipients : List String) (answered : Option String)
    → check_reply run sender reply (reply_of id) recipients ≡ ok answered
    → answered ≡ some id
unfolding check_reply
check_reply-id run sender id recipients answered e =
    let (named, e1) = then_ok (str_eq id "") invalid_reply _ answered e in
    let known = not (answers run.requests id sender recipients) in
    let (asked, e2) = then_ok known invalid_reply (ok (some id)) answered e1 in cc e2

kind_of_reply : (kind : Kind) → check_kind (kind_of reply) ≡ ok kind → kind ≡ reply
unfolding check_kind
kind_of_reply kind e = cc e

-- What a passed check says of a reply.
passed-reply :
    (limits : Limits) (run : RelayRun) (sender id : String) (input : RelaySendInput) (post : Post)
    (recipients : List String)
    → RepliesTo id input
    → check_send limits run sender input ≡ ok (post, recipients)
    → (post.kind ≡ reply)
      × (check_reply run sender reply (reply_of id) recipients ≡ ok post.reply_to)
passed-reply limits run sender id input post recipients (k, r) e =
    let passed = check_send-Passed limits run sender input post recipients e in
    let kind_ok =
      kind_of_reply post.kind (subst (λ kind. check_kind kind ≡ ok post.kind) k passed.0) in
    (
      kind_ok,
      subst (λ kind. check_reply run sender kind (reply_of id) recipients ≡ ok post.reply_to)
          kind_ok
          (subst (λ field. check_reply run sender post.kind field recipients ≡ ok post.reply_to) r
            passed.2),
    )

forgotten :
    (limits : Limits) (run : RelayRun) (post : Post) (recipients : List String) (id : String)
    → post.kind ≡ reply
    → post.reply_to ≡ some id
    → (dispatch_post limits run post recipients).0.requests id ≡ none
unfolding dispatch_post
forgotten limits run post recipients id k r = rw (k, r, str_eq_refl id) refl

pub send_unknown :
    (limits : Limits) (run : RelayRun) (sender id : String) (input : RelaySendInput)
    → RepliesTo id input
    → run.requests id ≡ none
    → (code : RelayRejectCode) × (send limits run sender input ≡ (run, rejected code))
send_unknown limits run sender id input replies missing =
    elim (Checked-cases (check_send limits run sender input)) [
      | inl (code, e) ↦ (code, send_rejected limits run sender input code e)
      | inr ((post, recipients), e) ↦
          let (k, answered) = passed-reply limits run sender id input post recipients replies e in
          absurd (check_reply_unknown run sender id recipients post.reply_to missing answered)
    ]

pub send-forgets :
    (limits : Limits) (run : RelayRun) (sender id : String) (input : RelaySendInput) (sent : Sent)
    → RepliesTo id input
    → (send limits run sender input).1 ≡ ok sent
    → (send limits run sender input).0.requests id ≡ none
send-forgets limits run sender id input sent replies e =
    elim (Checked-cases (check_send limits run sender input)) [
      | inl (code, e') ↦ absurd (
          cc (
            ap (λ (r : RelayRun × Checked Sent). r.1)
                (send_rejected limits run sender input code e'),
            e,
          ))
      | inr ((post, recipients), e') ↦
          let (k, answered) = passed-reply limits run sender id input post recipients replies e' in
          rw (send_ok limits run sender input post recipients e') (
            forgotten limits run post recipients id k
              (check_reply-id run sender id recipients post.reply_to answered))
    ]

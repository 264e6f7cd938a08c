-- ===== src/Relay/Send.antt =====
-- src/subagents/relay.ts: send, with its checks in order, and the delivery to each recipient.
pub mod Accepted
pub mod Bounds
pub mod Quota
pub mod Replies
pub mod Senders
pub mod Told
pub mod Ids
pub mod Once
use steak_pi.Prelude.{
  ℕ, suc, ◌+◌, String, Bool, true, false, not, ◌&&◌, Option, none, some, List, [], ◌∷◌, ◌++◌, ltb,
  leb, ◌==◌, if◌then◌else◌, or_else, length, any, keep, str_eq, is_blank, units, decimal, Map, put,
  delete,
}
use Prim.Native.String.{◌++◌ as concat}
use steak_pi.Relay.{
  Kind, RelayEnvelope, Outcome, Request, RelayRun, Limits, run_broadcast_target, box, has_peer,
  message, request, reply, accepted_now, declined, thrown, promised,
}

-- Arguments of unknown type: `none` is a value that is no string.
pub data KindField : Type 0 where
  no_kind bad_kind : KindField
  kind_of : Kind → KindField

pub data ReplyField : Type 0 where
  no_reply bad_reply : ReplyField
  reply_of : String → ReplyField

pub record RelaySendInput : Type 0 where
  pub to : Option String
  pub body : Option String
  pub kind : KindField
  pub reply_to : ReplyField

pub data RelayRejectCode : Type 0 where
  closed invalid_body body_too_large invalid_kind invalid_reply invalid_target : RelayRejectCode
  self_send no_recipients mailbox_full run_full : RelayRejectCode

pub data Status : Type 0 where
  queued_status delivered_status mixed_status : Status

pub record Sent : Type 0 where
  pub status : Status
  pub ids : List String
  pub accepted : ℕ
  pub queued : ℕ
  pub delivered : ℕ

pub data Checked {ℓ} (A : Type ℓ) : Type ℓ where
  ok : A → Checked A
  rejected : RelayRejectCode → Checked A

infixl 5 ◌>>=◌ ◌>>◌
abbrev pub ◌>>=◌ {ℓ κ} : {A : Type ℓ} {B : Type κ} → Checked A → (A → Checked B) → Checked B
ok a >>= f = f a
rejected c >>= f = rejected c

abbrev pub ◌>>◌ {ℓ} : {B : Type ℓ} → Checked (Unit {0}) → Checked B → Checked B
m >> k = m >>= λ _. k

abbrev pub reject_if : Bool → RelayRejectCode → Checked (Unit {0})
reject_if true c = rejected c
reject_if false c = ok tt

check_body : Limits → Option String → Checked String
check_body limits none = rejected invalid_body
check_body limits (some body) = do
  reject_if (is_blank body) invalid_body
  reject_if (ltb limits.body_limit (units body)) body_too_large
  ok body

pub check_kind : KindField → Checked Kind
check_kind no_kind = ok message
check_kind bad_kind = rejected invalid_kind
check_kind (kind_of kind) = ok kind

check_target : Option String → String → Checked String
check_target none sender = rejected invalid_target
check_target (some to) sender = do
  reject_if (str_eq to "") invalid_target
  reject_if (str_eq to sender) self_send
  ok to

unfoldable pub others : String → List String → List String
others sender peers = keep (λ peer. not (str_eq peer sender)) peers

abbrev is_empty {ℓ} : {A : Type ℓ} → List A → Bool
is_empty [] = true
is_empty (x ∷ xs) = false

unfoldable pub recipients_of : RelayRun → String → String → Checked (List String)
unfolding others
recipients_of run sender to =
    if str_eq to run_broadcast_target
    then reject_if (is_empty (others sender run.peers)) no_recipients
      >> ok (others sender run.peers)
    else reject_if (not (has_peer run.peers to)) invalid_target >> ok (to ∷ [])

abbrev pub is_reply : Kind → Bool
is_reply reply = true
is_reply _ = false

-- A reply answers a recorded request of its only recipient to this sender.
unfoldable pub answers : Map Request → String → String → List String → Bool
answers requests id sender (recipient ∷ []) = elim (requests id) [
  | none ↦ false
  | some r ↦ str_eq r.from recipient && str_eq r.to sender
]
answers requests id sender _ = false

-- The id that a reply answers; other kinds carry none.
unfoldable pub check_reply :
    RelayRun → String → Kind → ReplyField → List String → Checked (Option String)
unfolding answers
check_reply run sender reply no_reply recipients = rejected invalid_reply
check_reply run sender reply bad_reply recipients = rejected invalid_reply
check_reply run sender reply (reply_of id) recipients = do
  reject_if (str_eq id "") invalid_reply
  reject_if (not (answers run.requests id sender recipients)) invalid_reply
  ok (some id)
check_reply run sender kind no_reply recipients = ok none
check_reply run sender kind bad_reply recipients = rejected invalid_reply
check_reply run sender kind (reply_of id) recipients = rejected invalid_reply

abbrev pub reserved : RelayRun → String → ℕ
reserved run peer = length (box run.mailboxes peer) + length (box run.pending peer)

-- The quotas: of the run, then of each recipient's mailbox.
unfoldable pub check_room : Limits → RelayRun → List String → Checked (Unit {0})
check_room limits run recipients = do
  reject_if (ltb limits.run_limit (run.accepted + length recipients)) run_full
  reject_if (any (λ r. leb limits.mailbox_limit (reserved run r)) recipients) mailbox_full

-- A message that passed every check.
pub record Post : Type 0 where
  pub sender : String
  pub to : String
  pub kind : Kind
  pub body : String
  pub reply_to : Option String

envelope_for : Limits → RelayRun → Post → String → RelayEnvelope
envelope_for limits run post recipient =
    let seq = run.next_seq in
    record {
      run_id = run.id;
      id = concat run.id (concat ":" (decimal seq));
      seq = seq;
      from = post.sender;
      to = if str_eq post.to run_broadcast_target then run_broadcast_target else recipient;
      kind = post.kind;
      body = post.body;
      reply_to = post.reply_to;
      created_at = limits.now seq;
    }

is_request : Kind → Bool
is_request request = true
is_request _ = false

-- The run with the message counted, and a request noted.
unfoldable pub enter : RelayRun → Post → RelayEnvelope → String → RelayRun
unfolding is_request
enter run post envelope recipient = record run {
  next_seq = run.next_seq + 1;
  accepted = run.accepted + 1;
  requests =
      if is_request post.kind
      then put run.requests envelope.id (record { from = post.sender; to = recipient })
      else run.requests;
}

-- What the recipient's callback does; a backlog, or no callback, is as good as a refusal.
unfoldable pub attempt : RelayRun → String → RelayEnvelope → Outcome
attempt run recipient envelope =
    if reserved run recipient == 0
    then elim (run.deliveries recipient) [
      | none ↦ declined
      | some registration ↦ registration.callback envelope
    ]
    else declined

abbrev pub push : Map (List RelayEnvelope) → String → RelayEnvelope → Map (List RelayEnvelope)
push boxes peer envelope = put boxes peer (box boxes peer ++ envelope ∷ [])

-- Where the envelope goes, and whether it was delivered.
unfoldable pub place : RelayRun → String → RelayEnvelope → Outcome → RelayRun × Bool
place run recipient envelope accepted_now = (run, true)
place run recipient envelope promised =
    (record run { pending = push run.pending recipient envelope }, false)
place run recipient envelope declined =
    (record run { mailboxes = push run.mailboxes recipient envelope }, false)
place run recipient envelope thrown =
    (record run { mailboxes = push run.mailboxes recipient envelope }, false)

unfoldable pub deliver_one : Limits → RelayRun → Post → String → RelayRun × String × Bool
unfolding enter attempt place envelope_for
deliver_one limits run post recipient =
    let envelope = envelope_for limits run post recipient in
    let (run', handled) =
      place (enter run post envelope recipient) recipient envelope
        (attempt run recipient envelope) in
    (run', envelope.id, handled)

pub record Tally : Type 0 where
  pub ids : List String
  pub queued : ℕ
  pub delivered : ℕ

unfoldable pub deliver_all : Limits → RelayRun → Post → List String → RelayRun × Tally
unfolding deliver_one
deliver_all limits run post [] = (run, record { ids = []; queued = 0; delivered = 0 })
deliver_all limits run post (recipient ∷ rest) =
    let (run', id, handled) = deliver_one limits run post recipient in
    let (run'', tally) = deliver_all limits run' post rest in
    (
      run'',
      record {
        ids = id ∷ tally.ids;
        queued = if handled then tally.queued else suc tally.queued;
        delivered = if handled then suc tally.delivered else tally.delivered;
      },
    )

abbrev pub forget_request : RelayRun → Post → RelayRun
forget_request run post =
    if is_reply post.kind
    then record run { requests = delete run.requests (or_else post.reply_to "") }
    else run

abbrev status_of : Tally → Status
status_of tally =
    if tally.queued == 0
    then delivered_status
    else if tally.delivered == 0
    then queued_status
    else mixed_status

-- The checks of `send`, in the order of the source.
unfoldable pub check_send :
    Limits → RelayRun → String → RelaySendInput → Checked (Post × List String)
unfolding check_body check_kind check_target recipients_of check_reply check_room
check_send limits run sender input = do
  body ← check_body limits input.body
  kind ← check_kind input.kind
  to ← check_target input.to sender
  recipients ← recipients_of run sender to
  reply_to ← check_reply run sender kind input.reply_to recipients
  check_room limits run recipients
  ok (
    record { sender = sender; to = to; kind = kind; body = body; reply_to = reply_to },
    recipients,
  )

unfoldable pub dispatch_post : Limits → RelayRun → Post → List String → RelayRun × Checked Sent
unfolding deliver_all
dispatch_post limits run post recipients =
    let (run', tally) = deliver_all limits run post recipients in
    (
      forget_request run' post,
      ok (record {
        status = status_of tally;
        ids = tally.ids;
        accepted = length recipients;
        queued = tally.queued;
        delivered = tally.delivered;
      }),
    )

unfoldable pub send : Limits → RelayRun → String → RelaySendInput → RelayRun × Checked Sent
unfolding check_send dispatch_post
send limits run sender input = elim (check_send limits run sender input) [
  | rejected code ↦ (run, rejected code)
  | ok (post, recipients) ↦ dispatch_post limits run post recipients
]

-- ===== src/Relay/Tests.antt =====
-- Runs of src/subagents/relay.ts on concrete messages.
use steak_pi.Prelude.{
  ℕ, ◌+◌, ◌≤◌, ◌<◌, min, ◌≡◌, refl, inl, inr, false, none, some, [], ◌∷◌, ◌++◌, arith, Bool-cases,
  length, All, str_eq, str_eq_iff, is_blank, units, decimal, no_entries, put, delete,
}
use steak_pi.Relay.{RelayEnvelope, RelayRun, Limits, box, has_peer, message, request, reply}
use steak_pi.Relay.Inbox.{barrier_of, read_box, settle}
use steak_pi.Relay.Inbox.Order.{Ascending, read_box-cursor, read_box-twice}
use steak_pi.Relay.Inbox.Settle.{waiting, settle-Ascending}
use steak_pi.Relay.Send.{
  RelaySendInput, RelayRejectCode, Sent, send, no_kind, kind_of, no_reply, reply_of, queued_status,
  ok, rejected,
}
use steak_pi.Relay.Send.Quota.{send-InQuota, Answered, send-Answered}
use steak_pi.Relay.Send.Bounds.{Distinct, InQuota}
use steak_pi.Relay.Send.Once.{run_events, send-once, sends}
use steak_pi.Relay.Send.Senders.{AllWaiting, send-AllWaiting}
use steak_pi.Relay.Broker.{
  RelayBroker, RelayPeer, empty_boxes, new_run, check_run, create_run, cleanup, done,
}
use steak_pi.Relay.Broker.Stale.{IsShut, create_run-IsShut}

abbrev small : Limits
small = record { body_limit = 10; mailbox_limit = 2; run_limit = 5; now = λ n. 1000 + n }

abbrev note : ℕ → RelayEnvelope
note seq = record {
  run_id = "r";
  id = "r:1";
  seq = seq;
  from = "ada";
  to = "bob";
  kind = message;
  body = "hi";
  reply_to = none;
  created_at = 0;
}

abbrev duo : RelayRun
duo = new_run "r" 0 ("ada" ∷ "bob" ∷ [])

abbrev hello : RelaySendInput
hello = record { to = some "bob"; body = some "hello"; kind = no_kind; reply_to = no_reply }

abbrev question : RelaySendInput
question = record {
  to = some "bob";
  body = some "why?";
  kind = kind_of request;
  reply_to = no_reply;
}

abbrev answer : RelaySendInput
answer = record {
  to = some "ada";
  body = some "because";
  kind = kind_of reply;
  reply_to = reply_of "r:1";
}

-- One message is out, the next is unresolved: the read stops before it.
read_box-cursor_example :
    let result = (read_box 100 (note 1 ∷ note 3 ∷ []) (note 2 ∷ []) 0 5).1 in
    (All (λ (m : RelayEnvelope). result.next_seq < m.seq) (note 2 ∷ []))
    × (length result.messages ≤ min 5 100)
read_box-cursor_example =
    read_box-cursor 100 0 5 (note 1 ∷ note 3 ∷ []) (note 2 ∷ []) (omega arith, tt)

read_box-twice_example :
    let (left, first) = read_box 100 (note 1 ∷ note 2 ∷ note 3 ∷ []) [] 0 1 in
    let (rest, second) = read_box 100 left [] first.next_seq 1 in
    first.messages ++ (second.messages ++ rest) ≡ note 1 ∷ note 2 ∷ note 3 ∷ []
unfolding barrier_of
read_box-twice_example =
    read_box-twice 100 0 1 1 (note 1 ∷ note 2 ∷ note 3 ∷ []) []
      (omega arith, (omega arith, (omega arith, tt))) tt

abbrev refused : RelayRun
refused = record duo {
  mailboxes = put duo.mailboxes "bob" (note 1 ∷ note 3 ∷ []);
  pending = put duo.pending "bob" (note 2 ∷ []);
}

settle-Ascending_example :
    let run' = settle refused "bob" (note 2) false in
    Ascending 0 (box run'.mailboxes "bob") × (waiting run' "bob" 2 ≡ waiting refused "bob" 2)
settle-Ascending_example =
    settle-Ascending refused "bob" (note 2) 2 refl (omega arith) (omega arith, (omega arith, tt))
      (omega arith, (omega arith, tt))

duo-Distinct : Distinct duo.peers
unfolding new_run
duo-Distinct p = elim (Bool-cases (str_eq p "ada")) [
  | inl e ↦ rw ((str_eq_iff p "ada").0 e) (omega arith)
  | inr e ↦ rw e (ground arith)
]

duo-InQuota : InQuota small duo
unfolding new_run empty_boxes
duo-InQuota = (
  omega arith,
  λ p. elim (Bool-cases (has_peer ("ada" ∷ "bob" ∷ []) p)) [
    | inl e ↦ rw e (omega arith)
    | inr e ↦ rw e (omega arith)
  ],
)

send-InQuota_example : InQuota small (send small duo "ada" hello).0
send-InQuota_example = send-InQuota small duo "ada" hello duo-Distinct duo-InQuota

send-Answered_example : Answered duo "ada" hello (send small duo "ada" hello)
send-Answered_example = send-Answered small duo "ada" hello

duo-empty : AllWaiting (λ m. m.from ≡ "ada") duo
unfolding new_run empty_boxes
duo-empty p = elim (Bool-cases (has_peer ("ada" ∷ "bob" ∷ []) p)) [
  | inl e ↦ rw e (tt, tt)
  | inr e ↦ rw e (tt, tt)
]

abbrev asked : RelayRun
asked = run_events small duo (sends "ada" question ∷ [])

abbrev answered : Sent
answered = record {
  status = queued_status;
  ids = "r:2" ∷ [];
  accepted = 1;
  queued = 1;
  delivered = 0;
}

asked-answered : (send small asked "bob" answer).1 ≡ ok answered
unfolding run_events send new_run is_blank units decimal
asked-answered = refl

-- Asked again between the reply and the second attempt.
send-once_example :
    let run' = run_events small (send small asked "bob" answer).0 (sends "ada" question ∷ []) in
    (code : RelayRejectCode) × (send small run' "bob" answer ≡ (run', rejected code))
send-once_example =
    send-once small "r" 0 ("ada" ∷ "bob" ∷ []) (sends "ada" question ∷ [])
      (sends "ada" question ∷ []) "bob" "bob" "r:1" answer answer answered (refl, refl)
      asked-answered (refl, refl)

send-AllWaiting_example : AllWaiting (λ m. m.from ≡ "ada") (send small duo "ada" hello).0
unfolding new_run empty_boxes
send-AllWaiting_example =
    send-AllWaiting (λ m. m.from ≡ "ada") small duo "ada" hello (λ m from id. from)
      (λ p. duo-empty p)

abbrev registry : RelayBroker
registry = record { limits = small; runs = put no_entries "r" duo; next_serial = 1; next_token = 1 }

abbrev ada : RelayPeer
ada = record { run_id = "r"; serial = 0; sender_id = "ada"; token = 0; closed_flag = false }

abbrev again : RelayBroker
again = record registry {
  runs = put (delete registry.runs "r") "r" (new_run "r" 1 ("ada" ∷ []));
  next_serial = 2;
}

created_again : create_run (cleanup registry "r").0 "r" ("ada" ∷ []) ≡ done again
unfolding create_run cleanup check_run
created_again = refl

create_run-IsShut_example : IsShut again ada × IsShut (cleanup registry "r").0 ada
create_run-IsShut_example =
    create_run-IsShut registry again ada ("ada" ∷ []) (omega arith) created_again

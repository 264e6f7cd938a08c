-- ===== src/Relay/Broker.antt =====
-- src/subagents/relay.ts: the registry of runs, and the peers that are bound to them.
pub mod Stale
use steak_pi.Prelude.{
  ℕ, ◌+◌, String, Bool, true, false, not, ◌&&◌, ◌||◌, Option, none, some, List, [], ◌∷◌, leb, ◌==◌,
  if◌then◌else◌, or_else, str_eq, Map, no_entries, put, delete,
}
use steak_pi.Relay.{
  RelayEnvelope, Outcome, RelayRun, Limits, relay_body_limit, relay_mailbox_limit, relay_run_limit,
  max_safe_integer, run_broadcast_target, has_peer,
}
use steak_pi.Relay.Send.{RelaySendInput, Sent, Checked, others, send, closed, rejected}
use steak_pi.Relay.Inbox.{InboxResult, read_inbox, settle}

-- `next_serial` and `next_token` are the objects and symbols not made yet.
pub record RelayBroker : Type 0 where
  pub limits : Limits
  pub runs : Map RelayRun
  pub next_serial : ℕ
  pub next_token : ℕ

-- What the closures of a bound peer hold; `serial` is the run object.
pub record RelayPeer : Type 0 where
  pub run_id : String
  pub serial : ℕ
  pub sender_id : String
  pub token : ℕ
  pub closed_flag : Bool

pub data RunError : Type 0 where
  empty_run_id existing_run no_peers : RunError
  invalid_peer duplicate_peer : String → RunError
  unknown_run unknown_peer : String → RunError

pub data Attempted {ℓ} (A : Type ℓ) : Type ℓ where
  done : A → Attempted A
  failed : RunError → Attempted A

-- The limits that the constructor takes: positive safe integers, the default where there is none.
abbrev positive_integer : Option ℕ → ℕ → Option ℕ
positive_integer value fallback =
    let resolved = or_else value fallback in
    if leb 1 resolved && leb resolved max_safe_integer then some resolved else none

unfoldable pub new_broker : Option ℕ → Option ℕ → Option ℕ → (ℕ → ℕ) → Option RelayBroker
new_broker body mailbox run now = elim (positive_integer body relay_body_limit) [
  | none ↦ none
  | some body_limit ↦ elim (positive_integer mailbox relay_mailbox_limit) [
    | none ↦ none
    | some mailbox_limit ↦ elim (positive_integer run relay_run_limit) [
      | none ↦ none
      | some run_limit ↦ some (record {
        limits = record {
          body_limit = body_limit;
          mailbox_limit = mailbox_limit;
          run_limit = run_limit;
          now = now;
        };
        runs = no_entries;
        next_serial = 0;
        next_token = 0;
      })
    ]
  ]
]

-- The peers checked in order; the first argument is those seen.
unfoldable pub check_peers : List String → List String → Option RunError
check_peers seen [] = none
check_peers seen (peer ∷ rest) =
    let later = check_peers (peer ∷ seen) rest in
    if str_eq peer "" || str_eq peer run_broadcast_target
    then some (invalid_peer peer)
    else if has_peer seen peer
    then some (duplicate_peer peer)
    else later

-- An empty mailbox for each peer.
unfoldable pub empty_boxes : List String → Map (List RelayEnvelope)
empty_boxes peers p = if has_peer peers p then some [] else none

unfoldable pub new_run : String → ℕ → List String → RelayRun
unfolding empty_boxes
new_run id serial peers = record {
  id = id;
  serial = serial;
  peers = peers;
  mailboxes = empty_boxes peers;
  pending = empty_boxes peers;
  deliveries = no_entries;
  requests = no_entries;
  next_seq = 1;
  accepted = 0;
}

is_some {ℓ} : {A : Type ℓ} → Option A → Bool
is_some none = false
is_some (some a) = true

-- The error that `createRun` throws.
unfoldable pub check_run : RelayBroker → String → List String → Option RunError
unfolding check_peers is_some
check_run broker id [] =
    if str_eq id ""
    then some empty_run_id
    else if is_some (broker.runs id)
    then some existing_run
    else some no_peers
check_run broker id (peer ∷ rest) =
    if str_eq id ""
    then some empty_run_id
    else if is_some (broker.runs id)
    then some existing_run
    else check_peers [] (peer ∷ rest)

unfoldable pub create_run : RelayBroker → String → List String → Attempted RelayBroker
unfolding check_run new_run
create_run broker id peers = elim (check_run broker id peers) [
  | some e ↦ failed e
  | none ↦ done (record broker {
    runs = put broker.runs id (new_run id broker.next_serial peers);
    next_serial = broker.next_serial + 1;
  })
]

abbrev set_run : RelayBroker → String → RelayRun → RelayBroker
set_run broker id run = record broker { runs = put broker.runs id run }

register : RelayRun → String → ℕ → Option (RelayEnvelope → Outcome) → RelayRun
register run sender token none = run
register run sender token (some callback) = record run {
  deliveries = put run.deliveries sender (record { token = token; callback = callback });
}

unfoldable pub bind :
    RelayBroker
    → String
    → String
    → Option (RelayEnvelope → Outcome)
    → Attempted (RelayBroker × RelayPeer)
unfolding register
bind broker run_id sender callback = elim (broker.runs run_id) [
  | none ↦ failed (unknown_run run_id)
  | some run ↦
      if not (has_peer run.peers sender)
      then failed (unknown_peer sender)
      else done (
        record broker {
          runs = put broker.runs run_id (register run sender broker.next_token callback);
          next_token = broker.next_token + 1;
        },
        record {
          run_id = run_id;
          serial = run.serial;
          sender_id = sender;
          token = broker.next_token;
          closed_flag = false;
        },
      )
]

-- The run of a binding, as long as both are alive.
unfoldable pub live_run : RelayBroker → RelayPeer → Option RelayRun
live_run broker peer = if peer.closed_flag then none else elim (broker.runs peer.run_id) [
  | none ↦ none
  | some run ↦ if run.serial == peer.serial then some run else none
]

unfoldable pub peer_send : RelayBroker → RelayPeer → RelaySendInput → RelayBroker × Checked Sent
unfolding live_run
peer_send broker peer input = elim (live_run broker peer) [
  | none ↦ (broker, rejected closed)
  | some run ↦
      let (run', result) = send broker.limits run peer.sender_id input in
      (set_run broker peer.run_id run', result)
]

-- `none` is a RangeError.
unfoldable pub peer_inbox :
    RelayBroker → RelayPeer → Option ℕ → Option ℕ → Option (RelayBroker × InboxResult)
unfolding live_run read_inbox
peer_inbox broker peer after limit = elim (live_run broker peer) [
  | none ↦ some (broker, record { messages = []; next_seq = or_else after 0; remaining = 0 })
  | some run ↦
      elim (read_inbox broker.limits run peer.sender_id (or_else after 0)
        (or_else limit broker.limits.mailbox_limit)) [
          | none ↦ none
          | some (run', result) ↦ some (set_run broker peer.run_id run', result)
        ]
]

unfoldable pub peer_peers : RelayBroker → RelayPeer → List String
unfolding live_run others
peer_peers broker peer = elim (live_run broker peer) [
  | none ↦ []
  | some run ↦ others peer.sender_id run.peers
]

-- The callback of this binding taken away, where it is still the registered one.
unregister : RelayRun → RelayPeer → RelayRun
unregister run peer = elim (run.deliveries peer.sender_id) [
  | none ↦ run
  | some registration ↦
      if registration.token == peer.token
      then record run { deliveries = delete run.deliveries peer.sender_id }
      else run
]

unfoldable pub peer_close : RelayBroker → RelayPeer → RelayBroker × RelayPeer
unfolding live_run unregister
peer_close broker peer = elim (live_run broker peer) [
  | none ↦ (broker, record peer { closed_flag = true })
  | some run ↦
      (set_run broker peer.run_id (unregister run peer), record peer { closed_flag = true })
]

unfoldable pub list_peers : RelayBroker → String → List String
list_peers broker id = elim (broker.runs id) [ none ↦ [] | some run ↦ run.peers ]

unfoldable pub cleanup : RelayBroker → String → RelayBroker × Bool
unfolding is_some
cleanup broker id = (record broker { runs = delete broker.runs id }, is_some (broker.runs id))

-- The acknowledgement of a promised delivery arrives; `serial` is the run object that waits for it.
unfoldable pub settle_delivery :
    RelayBroker → String → ℕ → String → RelayEnvelope → Bool → RelayBroker
unfolding settle
settle_delivery broker id serial recipient envelope took = elim (broker.runs id) [
  | none ↦ broker
  | some run ↦
      if run.serial == serial
      then set_run broker id (settle run recipient envelope took)
      else broker
]

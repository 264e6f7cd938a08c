-- ===== src/Relay.antt =====
-- src/subagents/relay.ts: messages between the workers of one run.
-- A run is a record; `runs` finds it by its id, and `serial` tells a run from a later one of the same
-- id, as object identity does. A delivery callback is a function of the envelope into what the broker
-- sees of its outcome; a promise that it returns is settled by a later call of `settle`. A callback that
-- itself calls the broker while `send` waits for it is not modelled: the source calls it in the middle
-- of its loop, after the checks.
pub mod Inbox
pub mod Send
mod Tests
pub mod Broker
use steak_pi.Prelude.{ℕ, String, Bool, Option, List, [], or_else, any, str_eq, Map}

pub data Kind : Type 0 where
  message request reply status : Kind

pub record RelayEnvelope : Type 0 where
  pub run_id : String
  pub id : String
  pub seq : ℕ
  pub from : String
  pub to : String
  pub kind : Kind
  pub body : String
  pub reply_to : Option String
  pub created_at : ℕ

-- What a callback does: it returns a value other than `false`, returns `false`, throws, or returns a
-- promise.
pub data Outcome : Type 0 where
  accepted_now declined thrown promised : Outcome

pub record DeliveryRegistration : Type 0 where
  pub token : ℕ
  pub callback : RelayEnvelope → Outcome

pub record Request : Type 0 where
  pub from : String
  pub to : String

-- `mailboxes` and `pending` have an entry for each peer as long as the run is registered.
pub record RelayRun : Type 0 where
  pub id : String
  pub serial : ℕ
  pub peers : List String
  pub mailboxes : Map (List RelayEnvelope)
  pub pending : Map (List RelayEnvelope)
  pub deliveries : Map DeliveryRegistration
  pub requests : Map Request
  pub next_seq : ℕ
  pub accepted : ℕ

-- The limits of a broker, and its clock: the time at which the envelope of a number is made.
pub record Limits : Type 0 where
  pub body_limit : ℕ
  pub mailbox_limit : ℕ
  pub run_limit : ℕ
  pub now : ℕ → ℕ

abbrev pub relay_body_limit : ℕ
relay_body_limit = 4000

abbrev pub relay_mailbox_limit : ℕ
relay_mailbox_limit = 100

abbrev pub relay_run_limit : ℕ
relay_run_limit = 500

abbrev pub max_safe_integer : ℕ
max_safe_integer = 9007199254740991

abbrev pub run_broadcast_target : String
run_broadcast_target = "#run"

-- The messages of a peer; the `!` of the source.
abbrev pub box : Map (List RelayEnvelope) → String → List RelayEnvelope
box boxes peer = or_else (boxes peer) []

-- `peerSet.has(peer)`.
abbrev pub has_peer : List String → String → Bool
has_peer peers peer = any (λ p. str_eq p peer) peers

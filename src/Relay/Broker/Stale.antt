-- ===== src/Relay/Broker/Stale.antt =====
-- Bindings that outlive their run in src/subagents/relay.ts.
use steak_pi.Prelude.{
  ℕ, ◌<◌, String, ◌≡◌, refl, subst, inl, inr, true, Option, none, some, List, [], arith, Bool-cases,
  Option-cases, or_else, str_eq_refl, put_self,
}
use steak_pi.Relay.{RelayRun}
use steak_pi.Relay.Send.{RelaySendInput, closed, rejected}
use steak_pi.Relay.Broker.{
  RelayBroker, RelayPeer, Attempted, new_run, check_run, create_run, live_run, peer_send,
  peer_inbox, peer_peers, peer_close, cleanup, done, failed,
}

-- Without its run, a binding is closed: it sends nothing, reads nothing and sees no peers.
abbrev pub IsShut : RelayBroker → RelayPeer → Type 0
IsShut broker peer =
    ((input : RelaySendInput) → peer_send broker peer input ≡ (broker, rejected closed))
    × ((after limit : Option ℕ)
        → peer_inbox broker peer after limit
          ≡ some (broker, record { messages = []; next_seq = or_else after 0; remaining = 0 }))
    × (peer_peers broker peer ≡ [])

IsShut-of :
    (broker : RelayBroker) (peer : RelayPeer) → live_run broker peer ≡ none → IsShut broker peer
unfolding peer_send peer_inbox peer_peers
IsShut-of broker peer e = (
  λ input. rw (e, peer_send) refl,
  λ after limit. rw (e, peer_inbox) refl,
  rw (e, peer_peers) refl,
)

closed-live_run :
    (broker : RelayBroker) (peer : RelayPeer)
    → peer.closed_flag ≡ true
    → live_run broker peer ≡ none
unfolding live_run
closed-live_run broker peer e = rw e refl

peer_close-closed :
    (broker : RelayBroker) (peer : RelayPeer) → (peer_close broker peer).1.closed_flag ≡ true
unfolding peer_close
peer_close-closed broker peer = elim (Option-cases (live_run broker peer)) [
  | inl e ↦ rw (e, peer_close) refl
  | inr (run, e) ↦ rw (e, peer_close) refl
]

-- A binding that was closed is shut for good, whatever the broker does afterwards.
pub peer_close-IsShut :
    (broker other : RelayBroker) (peer : RelayPeer) → IsShut other (peer_close broker peer).1
peer_close-IsShut broker other peer =
    IsShut-of other (peer_close broker peer).1
      (closed-live_run other (peer_close broker peer).1 (peer_close-closed broker peer))

older-live_run :
    (broker : RelayBroker) (peer : RelayPeer) (run : RelayRun)
    → broker.runs peer.run_id ≡ some run
    → peer.serial < run.serial
    → live_run broker peer ≡ none
unfolding live_run
older-live_run broker peer run e older = elim (Bool-cases peer.closed_flag) [
  | inl is_closed ↦ rw is_closed refl
  | inr open_still ↦ rw (open_still, e) (ground arith)
]

missing-live_run :
    (broker : RelayBroker) (peer : RelayPeer)
    → broker.runs peer.run_id ≡ none
    → live_run broker peer ≡ none
unfolding live_run
missing-live_run broker peer e = elim (Bool-cases peer.closed_flag) [
  | inl is_closed ↦ rw is_closed refl
  | inr open_still ↦ rw (open_still, e) refl
]

-- If the run was created, the binding does not reach it.
abbrev Unreached : RelayPeer → Attempted RelayBroker → Type 0
Unreached peer (failed e) = Unit
Unreached peer (done broker) = live_run broker peer ≡ none

create_run-Unreached :
    (broker : RelayBroker) (peer : RelayPeer) (peers : List String)
    → peer.serial < broker.next_serial
    → Unreached peer (create_run broker peer.run_id peers)
unfolding create_run new_run
create_run-Unreached broker peer peers older =
    elim (Option-cases (check_run broker peer.run_id peers)) [
      | inr (error, e) ↦ rw (e, create_run) tt
      | inl e ↦
          rw (e, create_run)
            (older-live_run _ peer (new_run peer.run_id broker.next_serial peers)
              (put_self broker.runs peer.run_id _) older)
    ]

-- A binding is shut once its run is cleaned up, and also after a run of the same id was created again:
-- it does not reach the new run. The binding's run is older than the next one that the broker makes.
pub create_run-IsShut :
    (broker broker' : RelayBroker) (peer : RelayPeer) (peers : List String)
    → peer.serial < broker.next_serial
    → create_run (cleanup broker peer.run_id).0 peer.run_id peers ≡ done broker'
    → IsShut broker' peer × IsShut (cleanup broker peer.run_id).0 peer
unfolding cleanup
create_run-IsShut broker broker' peer peers older e =
    let cleaned = (cleanup broker peer.run_id).0 in
    (
      IsShut-of broker' peer
          (subst (Unreached peer) e (create_run-Unreached cleaned peer peers older)),
      IsShut-of cleaned peer (missing-live_run cleaned peer (rw (str_eq_refl peer.run_id) refl)),
    )

-- ===== src/Relay/Inbox.antt =====
-- src/subagents/relay.ts: readInbox, and the settlement of a promised delivery.
pub mod Order
pub mod Settle
use steak_pi.Prelude.{
  ℕ, ◌-◌, min, String, Bool, false, ◌&&◌, Option, none, some, List, [], ◌∷◌, ◌++◌, ltb, leb, ◌==◌,
  if◌then◌else◌, length, take, drop, drop_while, count_before, put,
}
use steak_pi.Relay.{RelayEnvelope, RelayRun, Limits, max_safe_integer, box}

pub record InboxResult : Type 0 where
  pub messages : List RelayEnvelope
  pub next_seq : ℕ
  pub remaining : ℕ

-- The least number among unresolved messages; none stands for Infinity.
unfoldable pub barrier_of : List RelayEnvelope → Option ℕ
barrier_of [] = none
barrier_of (m ∷ rest) = elim (barrier_of rest) [
  | none ↦ some m.seq
  | some least ↦ some (min m.seq least)
]

abbrev pub cursor_of : ℕ → Option ℕ → ℕ
cursor_of after none = after
cursor_of after (some barrier) = min after (barrier - 1)

abbrev pub at_barrier : Option ℕ → RelayEnvelope → Bool
at_barrier none m = false
at_barrier (some barrier) m = leb barrier m.seq

-- The number of the last message, or the cursor where there is none.
abbrev pub last_seq : List RelayEnvelope → ℕ → ℕ
last_seq [] cursor = cursor
last_seq (m ∷ rest) cursor = last_seq rest m.seq

-- The messages after the cursor, and how many of them a read may hand out.
abbrev pub unread : ℕ → List RelayEnvelope → List RelayEnvelope
unread cursor = drop_while λ m. leb m.seq cursor

abbrev pub batch_size : ℕ → ℕ → Option ℕ → List RelayEnvelope → ℕ
batch_size limit mailbox_limit barrier fresh =
    min (min limit mailbox_limit) (count_before (at_barrier barrier) fresh)

-- `readInbox` on the mailbox and the unresolved messages of one peer: what stays, and the answer.
unfoldable pub read_box :
    ℕ → List RelayEnvelope → List RelayEnvelope → ℕ → ℕ → List RelayEnvelope × InboxResult
unfolding barrier_of
read_box mailbox_limit mailbox unresolved after limit =
    let barrier = barrier_of unresolved in
    let cursor = cursor_of after barrier in
    let fresh = unread cursor mailbox in
    let size = batch_size limit mailbox_limit barrier fresh in
    let messages = take size fresh in
    let left = drop size fresh in
    (
      left,
      record { messages = messages; next_seq = last_seq messages cursor; remaining = length left },
    )

unfoldable pub with_box :
    RelayRun → String → List RelayEnvelope × InboxResult → RelayRun × InboxResult
with_box run peer (left, answer) = (record run { mailboxes = put run.mailboxes peer left }, answer)

-- `none` is the RangeError of an argument that is no safe integer.
unfoldable pub read_inbox : Limits → RelayRun → String → ℕ → ℕ → Option (RelayRun × InboxResult)
unfolding read_box with_box
read_inbox limits run peer after limit =
    if leb after max_safe_integer && leb limit max_safe_integer
    then some (
        with_box run peer (
          read_box limits.mailbox_limit (box run.mailboxes peer) (box run.pending peer) after
            limit))
    else none

unfoldable pub insert_by_seq : RelayEnvelope → List RelayEnvelope → List RelayEnvelope
insert_by_seq m [] = m ∷ []
insert_by_seq m (x ∷ rest) = if ltb x.seq m.seq then x ∷ insert_by_seq m rest else m ∷ x ∷ rest

-- `mailbox.sort((a, b) => a.seq - b.seq)`.
unfoldable pub sort_by_seq : List RelayEnvelope → List RelayEnvelope
unfolding insert_by_seq
sort_by_seq [] = []
sort_by_seq (m ∷ rest) = insert_by_seq m (sort_by_seq rest)

-- The first message of this number taken out.
unfoldable pub without_seq : ℕ → List RelayEnvelope → List RelayEnvelope
without_seq seq [] = []
without_seq seq (m ∷ rest) = if m.seq == seq then rest else m ∷ without_seq seq rest

-- A promised delivery to a peer is settled: with `false`, or a rejection, it falls back to the mailbox.
unfoldable pub settle : RelayRun → String → RelayEnvelope → Bool → RelayRun
unfolding sort_by_seq without_seq
settle run recipient envelope took =
    let settled = record run {
      pending = put run.pending recipient (without_seq envelope.seq (box run.pending recipient));
    } in
    if took then settled else record settled {
      mailboxes =
          put run.mailboxes recipient (sort_by_seq (box run.mailboxes recipient ++ envelope ∷ []));
    }

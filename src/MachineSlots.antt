-- ===== src/MachineSlots.antt =====
-- src/subagents/machine-slots.ts: the launch slots that the sessions of one computer share.
-- This file is one slot index: its lease file, its claim file, and the attempts of all processes on it.
-- A move is one file operation of one attempt (`trySlot`, then the release of its lease), so that a
-- sequence of moves is any interleaving of processes; a process may die between any two. An attempt is
-- named by the nonce of its stamps, which `randomUUID` makes unique. The stamps of its lease and
-- of its claim have the same nonce here, as the two files are never compared; a pid is not used again.
-- A stamp is written to a private
-- file first and then linked, so that publishing is one move. A process whose state cannot be proved
-- (EPERM, or another error of `kill`) counts as alive, as `pidAlive` has it.
pub mod Safe
pub mod Moves
pub mod Exclusion
pub mod WaitFree
pub mod Bucket
pub mod Alone
pub mod Admission
pub mod Tickets
mod Tests
use steak_pi.Prelude.{
  ℕ, Bool, true, false, ◌&&◌, Option, none, some, List, [], ◌∷◌, ◌==◌, if◌then◌else◌,
}

pub record HolderStamp : Type 0 where
  pub pid : ℕ
  pub born : ℕ
  pub nonce : ℕ

-- A file that is there: a stamp, or content that cannot be read or parsed.
pub data File : Type 0 where
  stamped : HolderStamp → File
  unreadable : File

-- Where an attempt is: in `trySlot`, in the `finally` that gives the claim back (with whether the
-- attempt has a lease), or in the release of its lease.
pub data Place : Type 0 where
  begins reads_slot links_empty links_slot confirms : Place
  judges links_claim rechecks unlinks_stale : HolderStamp → Place
  reads_claim unlinks_claim : Bool → Place
  holds reads_own unlinks_own : Place
  gave_up released : Place

pub record Try : Type 0 where
  pub pid : ℕ
  pub born : ℕ
  pub place : Place

pub record Disk : Type 0 where
  pub slot : Option File
  pub claim : Option File
  pub dead : ℕ → Bool
  pub tries : ℕ → Try

abbrev pub stamp : ℕ → Try → HolderStamp
stamp n t = record { pid = t.pid; born = t.born; nonce = n }

abbrev pub stamp_of : Disk → ℕ → HolderStamp
stamp_of d n = stamp n (d.tries n)

abbrev pub same_holder : HolderStamp → HolderStamp → Bool
same_holder a b = a.pid == b.pid && (a.born == b.born && a.nonce == b.nonce)

-- `readStamp(path).holder`, compared with a stamp.
abbrev pub is_stamp : Option File → HolderStamp → Bool
is_stamp none s = false
is_stamp (some unreadable) s = false
is_stamp (some (stamped t)) s = same_holder t s

-- `current.nonce === stamp.nonce && current.pid === process.pid`.
abbrev pub is_own : Option File → HolderStamp → Bool
is_own none s = false
is_own (some unreadable) s = false
is_own (some (stamped t)) s = t.nonce == s.nonce && t.pid == s.pid

abbrev pub is_present : Option File → Bool
is_present none = false
is_present (some f) = true

abbrev pub goes : Disk → ℕ → Place → Disk
goes d n place = record d {
  tries = λ k. if k == n then record (d.tries k) { place = place } else d.tries k;
}

-- `readStamp(path)` of the lease, outside the claim.
abbrev pub seen : Option File → Place
seen none = links_empty
seen (some unreadable) = gave_up
seen (some (stamped s)) = judges s

-- One file operation of an attempt that is at this place.
unfoldable pub act : Disk → ℕ → Place → Disk
act d n begins = goes d n (if is_present d.claim then gave_up else reads_slot)
act d n reads_slot = goes d n (seen d.slot)
act d n links_empty =
    if is_present d.slot
    then goes d n gave_up
    else goes (record d { slot = some (stamped (stamp_of d n)) }) n holds
act d n (judges s) = goes d n (if d.dead s.pid then links_claim s else gave_up)
act d n (links_claim s) =
    if is_present d.claim
    then goes d n gave_up
    else goes (record d { claim = some (stamped (stamp_of d n)) }) n (rechecks s)
act d n (rechecks s) = goes d n (
    if is_present d.slot
    then (if is_stamp d.slot s then unlinks_stale s else reads_claim false)
    else links_slot)
act d n (unlinks_stale s) = goes (record d { slot = none }) n links_slot
act d n links_slot =
    if is_present d.slot
    then goes d n (reads_claim false)
    else goes (record d { slot = some (stamped (stamp_of d n)) }) n confirms
act d n confirms = goes d n (reads_claim (is_stamp d.slot (stamp_of d n)))
act d n (reads_claim leased) = goes d n (
    if is_own d.claim (stamp_of d n)
    then unlinks_claim leased
    else if leased
    then holds
    else gave_up)
act d n (unlinks_claim leased) =
    goes (record d { claim = none }) n (if leased then holds else gave_up)
act d n holds = goes d n reads_own
act d n reads_own = goes d n (if is_own d.slot (stamp_of d n) then unlinks_own else released)
act d n unlinks_own = goes (record d { slot = none }) n released
act d n gave_up = d
act d n released = d

-- A move of an attempt, or the death of a process.
pub data Event : Type 0 where
  moves dies : ℕ → Event

unfoldable pub step : Disk → Event → Disk
unfolding act
step d (moves n) = if d.dead (d.tries n).pid then d else act d n (d.tries n).place
step d (dies pid) = record d { dead = λ p. if p == pid then true else d.dead p }

unfoldable pub run : Disk → List Event → Disk
run d [] = d
run d (e ∷ es) = run (step d e) es

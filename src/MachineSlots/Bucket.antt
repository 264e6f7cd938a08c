-- ===== src/MachineSlots/Bucket.antt =====
-- The buckets of src/subagents/machine-slots.ts: `tryBucket`, `inspectBucket` and `heldCount`. An index is
-- its lease file and its claim file; `pid_status` is what `kill(pid, 0)` says of a process.
use steak_pi.Prelude.{
  ℕ, zero, suc, ◌+◌, Bool, true, false, not, ◌||◌, Option, none, some, List, [], ◌∷◌, ◌++◌,
  if◌then◌else◌, any,
}
use steak_pi.MachineSlots.{
  HolderStamp, File, Place, Disk, step, stamped, unreadable, begins, holds, moves,
}
use steak_pi.MachineSlots.WaitFree.{returned}

pub data Status : Type 0 where
  live dead unknown : Status

pub data OwnerKind : Type 0 where
  lease claim : OwnerKind

pub record SlotOwner : Type 0 where
  pub index : ℕ
  pub holder : Option HolderStamp
  pub kind : OwnerKind
  pub status : Status

pub record SlotBucketSnapshot : Type 0 where
  pub cap : ℕ
  pub held : ℕ
  pub owners : List SlotOwner

pub record SlotFiles : Type 0 where
  pub lease_file : Option File
  pub claim_file : Option File

-- What `readdirSync` of the bucket's directory says.
pub data Directory : Type 0 where
  missing inaccessible : Directory
  listed : (ℕ → SlotFiles) → Directory

abbrev pub is_dead : Status → Bool
is_dead dead = true
is_dead _ = false

abbrev pub is_claim : OwnerKind → Bool
is_claim claim = true
is_claim lease = false

-- `trySlot` of an attempt that no other disturbs.
unfoldable pub try_slot : ℕ → Disk → ℕ → Disk
try_slot zero d n = d
try_slot (suc fuel) d n =
    let next = try_slot fuel (step d (moves n)) n in if returned (d.tries n).place then d else next

abbrev pub is_lease : Place → Bool
is_lease holds = true
is_lease _ = false

module _ (pid_status : ℕ → Status) where
  unfoldable pub owner_of : ℕ → OwnerKind → File → SlotOwner
  owner_of i kind (stamped s) = record {
    index = i;
    holder = some s;
    kind = kind;
    status = pid_status s.pid;
  }
  owner_of i kind unreadable = record { index = i; holder = none; kind = kind; status = unknown }

  unfoldable pub inspect_file : ℕ → OwnerKind → Option File → List SlotOwner
  inspect_file i kind none = []
  inspect_file i kind (some f) = owner_of i kind f ∷ []

  -- A claim parks an index even when it is dead, a lease only while it is not.
  abbrev pub blocks : SlotOwner → Bool
  blocks o = is_claim o.kind || not (is_dead o.status)

  unfoldable pub inspect_index : ℕ → SlotFiles → List SlotOwner
  inspect_index i files =
      inspect_file i lease files.lease_file ++ inspect_file i claim files.claim_file

  unfoldable pub inspect_from : ℕ → ℕ → (ℕ → SlotFiles) → SlotBucketSnapshot → SlotBucketSnapshot
  inspect_from i zero files acc = acc
  inspect_from i (suc n) files acc =
      let owners = inspect_index i (files i) in
      inspect_from (suc i) n files (record acc {
        held = if any blocks owners then acc.held + 1 else acc.held;
        owners = acc.owners ++ owners;
      })

  -- Every index of an inaccessible directory counts as held.
  unfoldable pub unknown_from : ℕ → ℕ → List SlotOwner
  unknown_from i zero = []
  unknown_from i (suc n) =
      record { index = i; holder = none; kind = lease; status = unknown } ∷ unknown_from (suc i) n

  unfoldable pub inspect_bucket : Directory → ℕ → SlotBucketSnapshot
  inspect_bucket missing cap = record { cap = cap; held = 0; owners = [] }
  inspect_bucket inaccessible cap = record { cap = cap; held = cap; owners = unknown_from 0 cap }
  inspect_bucket (listed files) cap =
      inspect_from 0 cap files (record { cap = cap; held = 0; owners = [] })

  abbrev pub held_count : Directory → ℕ → ℕ
  held_count d cap = (inspect_bucket d cap).held

  -- A slot index that one attempt of this process is about to try.
  abbrev pub fresh_disk : SlotFiles → ℕ → ℕ → Disk
  fresh_disk files pid born = record {
    slot = files.lease_file;
    claim = files.claim_file;
    dead = λ p. is_dead (pid_status p);
    tries = λ n. record { pid = pid; born = born; place = begins };
  }

  -- `tryBucket`: the first index that gives a lease.
  unfoldable pub try_from : ℕ → ℕ → (ℕ → SlotFiles) → ℕ → ℕ → ℕ → Option ℕ
  try_from i zero files pid born nonce = none
  try_from i (suc n) files pid born nonce =
      let rest = try_from (suc i) n files pid born nonce in
      if is_lease ((try_slot 10 (fresh_disk (files i) pid born) nonce).tries nonce).place
      then some i
      else rest

  unfoldable pub try_bucket : Bool → (ℕ → SlotFiles) → ℕ → ℕ → ℕ → ℕ → Option ℕ
  try_bucket aborted files cap pid born nonce =
      if aborted then none else try_from 0 cap files pid born nonce

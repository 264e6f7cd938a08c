-- ===== src/MachineSlots/Admission.antt =====
-- What `heldCount` of src/subagents/machine-slots.ts says about `tryBucket`.
use steak_pi.Prelude.{
  ℕ, zero, suc, ◌+◌, ◌≤◌, ◌≡◌, refl, ap, ◌∙◌, inl, inr, Bool, true, false, not, Option, none, some,
  [], ◌++◌, arith, ltb, if◌then◌else◌, Bool-cases, any,
}
use steak_pi.MachineSlots.{
  File, Disk, is_present, goes, act, stamped, unreadable, reads_slot, gave_up,
}
use steak_pi.MachineSlots.WaitFree.{goes-place}
use steak_pi.MachineSlots.Bucket.{
  Status, SlotBucketSnapshot, SlotFiles, is_dead, owner_of, inspect_file, blocks, inspect_index,
  inspect_from, inspect_bucket, held_count, fresh_disk, try_from, try_bucket, lease, claim, listed,
}
use steak_pi.MachineSlots.Alone.{
  leases, leases-next, gave_up-leases, stale-leases, empty-leases, live-leases, unreadable-leases,
}

abbrev pub is_found : Option ℕ → Bool
is_found none = false
is_found (some i) = true

module _ (pid_status : ℕ → Status) where
  -- An undisturbed attempt on the index.
  alone : SlotFiles → ℕ → ℕ → ℕ → Bool
  alone files pid born n = leases 10 (fresh_disk pid_status files pid born) n

  blocked : ℕ → SlotFiles → Bool
  blocked i files = any (blocks pid_status) (inspect_index pid_status i files)

  claim-blocks : (i : ℕ) (f : File) → blocks pid_status (owner_of pid_status i claim f) ≡ true
  unfolding owner_of
  claim-blocks i (stamped s) = refl
  claim-blocks i unreadable = refl

  abbrev file_dead : File → Bool
  file_dead (stamped s) = is_dead (pid_status s.pid)
  file_dead unreadable = false

  lease-blocks :
      (i : ℕ) (f : File) → blocks pid_status (owner_of pid_status i lease f) ≡ not (file_dead f)
  unfolding owner_of
  lease-blocks i (stamped s) = refl
  lease-blocks i unreadable = refl

  -- An attempt that no other disturbs gets a lease exactly at an index that does not count as held.
  alone-blocked :
      (files : SlotFiles) (i pid born n : ℕ)
      → is_dead (pid_status pid) ≡ false
      → alone files pid born n ≡ not (blocked i files)
  unfolding alone act blocked inspect_index inspect_file
  alone-blocked files i pid born n living =
      leases-next 9 (fresh_disk pid_status files pid born) n living refl
      ∙ from_claim files.lease_file files.claim_file
    where
      disk : Option File → Option File → Disk
      disk l c = fresh_disk pid_status (record { lease_file = l; claim_file = c }) pid born

      from_claim :
          (l c : Option File)
          → leases 9 (goes (disk l c) n (if is_present c then gave_up else reads_slot)) n
            ≡ not (
                any
                  (blocks pid_status)
                  (inspect_file pid_status i lease l ++ inspect_file pid_status i claim c))
      from_claim none (some f) =
          gave_up-leases 9 (goes (disk none (some f)) n gave_up) n
            (goes-place (disk none (some f)) n gave_up)
          ∙ rw (claim-blocks i f) refl
      from_claim (some l) (some f) =
          gave_up-leases 9 (goes (disk (some l) (some f)) n gave_up) n
            (goes-place (disk (some l) (some f)) n gave_up)
          ∙ rw (claim-blocks i f) (ground arith)
      from_claim none none = empty-leases (disk none none) n living
      from_claim (some unreadable) none =
          unreadable-leases (disk (some unreadable) none) n living
          ∙ rw (lease-blocks i unreadable) refl
      from_claim (some (stamped s)) none = elim (Bool-cases (is_dead (pid_status s.pid))) [
        | inl e ↦
            stale-leases (disk (some (stamped s)) none) n living s e
            ∙ rw (lease-blocks i (stamped s)) (rw e refl)
        | inr e ↦
            live-leases (disk (some (stamped s)) none) n living s e
            ∙ rw (lease-blocks i (stamped s)) (rw e refl)
      ]

  -- Counted on from `held`, the blocked ones among the next indices.
  count-blocked : ℕ → ℕ → (ℕ → SlotFiles) → ℕ
  count-blocked i zero files = 0
  count-blocked i (suc n) files =
      (if blocked i (files i) then 1 else 0) + count-blocked (suc i) n files

  held-count :
      (i n : ℕ) (files : ℕ → SlotFiles) (acc : SlotBucketSnapshot)
      → (inspect_from pid_status i n files acc).held ≡ acc.held + count-blocked i n files
  unfolding inspect_from count-blocked blocked
  held-count i zero files acc = ground arith
  held-count i (suc n) files acc = let h = held-count (suc i) n files in h _ ∙ ground arith

  count-bound : (i n : ℕ) (files : ℕ → SlotFiles) → count-blocked i n files ≤ n
  unfolding count-blocked
  count-bound i zero files = ground arith
  count-bound i (suc n) files = let h = count-bound (suc i) n files in ground arith

  -- Below full, the search succeeds; full, it fails.
  try-count :
      (files : ℕ → SlotFiles) (pid born nonce : ℕ)
      → is_dead (pid_status pid) ≡ false
      → (i n : ℕ)
      → (is_found (try_from pid_status i n files pid born nonce)) ≡ ltb (count-blocked i n files) n
  unfolding try_from count-blocked alone leases
  try-count files pid born nonce living i zero = ground arith
  try-count files pid born nonce living i (suc n) =
      let h = try-count files pid born nonce living (suc i) n in
      let index = alone-blocked (files i) i pid born nonce living in
      let most = count-bound (suc i) n files in
      elim (Bool-cases (blocked i (files i))) [
        | inl e ↦ rw (index ∙ ap not e) (rw e (h ∙ ground arith))
        | inr e ↦ rw (index ∙ ap not e) (rw e (ground arith))
      ]

  -- If the process is alive and the attempt is not aborted, `tryBucket` undisturbed finds a slot exactly
  -- when `heldCount` of the readable directory is below the cap, and `heldCount` never exceeds the cap.
  pub held_count-try_bucket :
      (files : ℕ → SlotFiles) (cap pid born nonce : ℕ)
      → is_dead (pid_status pid) ≡ false
      → (is_found (try_bucket pid_status false files cap pid born nonce)
          ≡ ltb (held_count pid_status (listed files) cap) cap)
        × (held_count pid_status (listed files) cap ≤ cap)
  unfolding try_bucket inspect_bucket
  held_count-try_bucket files cap pid born nonce living =
      let held : held_count pid_status (listed files) cap ≡ count-blocked 0 cap files =
        held-count 0 cap files (record { cap = cap; held = 0; owners = [] }) ∙ omega arith in
      let most = count-bound 0 cap files in
      (rw held (try-count files pid born nonce living 0 cap), rw held most)

-- ===== src/MachineSlots/Alone.antt =====
-- `trySlot` of src/subagents/machine-slots.ts on an index that no other attempt touches.
use steak_pi.Prelude.{
  ℕ, zero, suc, ◌≡◌, refl, ap, ◌∙◌, inl, inr, Bool, true, false, Option, none, some, arith, ◌==◌,
  if◌then◌else◌, Bool-cases,
}
use steak_pi.MachineSlots.{
  HolderStamp, File, Place, Try, Disk, stamp, stamp_of, same_holder, is_stamp, is_own, goes, act,
  step, stamped, unreadable, reads_slot, links_empty, links_slot, confirms, judges, links_claim,
  rechecks, unlinks_stale, reads_claim, unlinks_claim, holds, gave_up,
}
use steak_pi.MachineSlots.Safe.{at_place, moved}
use steak_pi.MachineSlots.WaitFree.{returned}
use steak_pi.MachineSlots.Bucket.{try_slot, is_lease}

-- `trySlot`, with so many moves left, ends with a lease.
unfoldable pub leases : ℕ → Disk → ℕ → Bool
leases fuel d n = is_lease ((try_slot fuel d n).tries n).place

pub leases-next :
    (fuel : ℕ) (d : Disk) (n : ℕ)
    → d.dead (d.tries n).pid ≡ false
    → returned (d.tries n).place ≡ false
    → leases (suc fuel) d n ≡ leases fuel (act d n (d.tries n).place) n
unfolding leases try_slot step
leases-next fuel d n living busy = rw busy (rw living refl)

pub holds-leases :
    (fuel : ℕ) (d : Disk) (n : ℕ) → (d.tries n).place ≡ holds → leases fuel d n ≡ true
unfolding leases try_slot
holds-leases zero d n e = rw e refl
holds-leases (suc fuel) d n e = rw e (rw e refl)

pub gave_up-leases :
    (fuel : ℕ) (d : Disk) (n : ℕ) → (d.tries n).place ≡ gave_up → leases fuel d n ≡ false
unfolding leases try_slot
gave_up-leases zero d n e = rw e refl
gave_up-leases (suc fuel) d n e = rw e (rw e refl)

module _ (d : Disk) (n : ℕ) (living : d.dead (d.tries n).pid ≡ false) where
  moved-try : (a b : Option File) (p : Place) → (moved d n a b p).tries n ≡ at_place d n p
  moved-try a b p = elim (Bool-cases (n == n)) [ inl e ↦ rw e refl | inr e ↦ absurd (ground arith) ]

  moved-stamp : (a b : Option File) (p : Place) → stamp_of (moved d n a b p) n ≡ stamp_of d n
  moved-stamp a b p = ap (stamp n) (moved-try a b p)

  place-moved : (a b : Option File) (p : Place) → ((moved d n a b p).tries n).place ≡ p
  place-moved a b p = ap (λ (t : Try). t.place) (moved-try a b p)

  moved-moved :
      (a b c e : Option File) (p q : Place) → moved (moved d n a b p) n c e q ≡ moved d n c e q
  moved-moved a b c e p q i = record { slot = c; claim = e; dead = d.dead; tries = λ k. again k i }
    where
      again : (k : ℕ) → (moved (moved d n a b p) n c e q).tries k ≡ (moved d n c e q).tries k
      again k = elim (Bool-cases (k == n)) [ inl e ↦ rw e refl | inr e ↦ rw e refl ]

  -- One move of an attempt that is alone on the index.
  ahead :
      (fuel : ℕ) (a b c e : Option File) (p q : Place)
      → returned p ≡ false
      → act (moved d n a b p) n p ≡ moved (moved d n a b p) n c e q
      → leases (suc fuel) (moved d n a b p) n ≡ leases fuel (moved d n c e q) n
  ahead fuel a b c e p q busy acts =
      leases-next fuel (moved d n a b p) n
        (ap (λ (t : Try). d.dead t.pid) (moved-try a b p) ∙ living)
        (ap (λ (t : Try). returned t.place) (moved-try a b p) ∙ busy)
      ∙ ap (λ x. leases fuel x n)
          (ap (act (moved d n a b p) n) (place-moved a b p) ∙ acts ∙ moved-moved a b c e p q)

  same_holder_refl : (s : HolderStamp) → same_holder s s ≡ true
  same_holder_refl s = ground arith

  own_refl : (s : HolderStamp) → is_own (some (stamped s)) s ≡ true
  own_refl s = ground arith

  -- A stale lease is replaced, under the claim.
  pub stale-leases :
      (s : HolderStamp)
      → d.dead s.pid ≡ true
      → leases 9 (moved d n (some (stamped s)) none reads_slot) n ≡ true
  unfolding act
  stale-leases s gone =
      let l = some (stamped s) in
      let mine = some (stamped (stamp_of d n)) in
      ahead 8 l none l none reads_slot (judges s) refl refl
      ∙ ahead 7 l none l none (judges s) (links_claim s) refl (rw gone refl)
      ∙ ahead 6 l none l mine (links_claim s) (rechecks s) refl
          (rw (moved-stamp l none (links_claim s)) refl)
      ∙ ahead 5 l mine l mine (rechecks s) (unlinks_stale s) refl (rw (same_holder_refl s) refl)
      ∙ ahead 4 l mine none mine (unlinks_stale s) links_slot refl refl
      ∙ ahead 3 none mine mine mine links_slot confirms refl
          (rw (moved-stamp none mine links_slot) refl)
      ∙ ahead 2 mine mine mine mine confirms (reads_claim true) refl (
          ap (λ b. goes (moved d n mine mine confirms) n (reads_claim b))
            (ap (is_stamp mine) (moved-stamp mine mine confirms) ∙ same_holder_refl (stamp_of d n)))
      ∙ ahead 1 mine mine mine mine (reads_claim true) (unlinks_claim true) refl (
          ap
            (λ b.
              goes (moved d n mine mine (reads_claim true)) n
                (if b then unlinks_claim true else holds))
            (ap (is_own mine) (moved-stamp mine mine (reads_claim true)) ∙ own_refl (stamp_of d n)))
      ∙ ahead 0 mine mine mine none (unlinks_claim true) holds refl refl
      ∙ holds-leases 0 (moved d n mine none holds) n (place-moved mine none holds)

  -- An empty index is leased.
  pub empty-leases : leases 9 (moved d n none none reads_slot) n ≡ true
  unfolding act
  empty-leases =
      let mine = some (stamped (stamp_of d n)) in
      ahead 8 none none none none reads_slot links_empty refl refl
      ∙ ahead 7 none none mine none links_empty holds refl
          (rw (moved-stamp none none links_empty) refl)
      ∙ holds-leases 7 (moved d n mine none holds) n (place-moved mine none holds)

  -- The lease of a process that may be alive is left alone, as is one that cannot be read.
  pub live-leases :
      (s : HolderStamp)
      → d.dead s.pid ≡ false
      → leases 9 (moved d n (some (stamped s)) none reads_slot) n ≡ false
  unfolding act
  live-leases s living =
      let l = some (stamped s) in
      ahead 8 l none l none reads_slot (judges s) refl refl
      ∙ ahead 7 l none l none (judges s) gave_up refl (rw living refl)
      ∙ gave_up-leases 7 (moved d n l none gave_up) n (place-moved l none gave_up)

  pub unreadable-leases : leases 9 (moved d n (some unreadable) none reads_slot) n ≡ false
  unfolding act
  unreadable-leases =
      let l = some unreadable in
      ahead 8 l none l none reads_slot gave_up refl refl
      ∙ gave_up-leases 8 (moved d n l none gave_up) n (place-moved l none gave_up)

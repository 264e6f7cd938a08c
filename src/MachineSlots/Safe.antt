-- ===== src/MachineSlots/Safe.antt =====
-- What the two files of a slot index of src/subagents/machine-slots.ts are to each attempt on it.
use steak_pi.Prelude.{
  ℕ, ◌≡◌, refl, subst, inl, inr, Bool, true, false, Option, none, some, arith, ◌==◌, Bool-cases,
}
use steak_pi.MachineSlots.{
  HolderStamp, File, Place, Try, Disk, stamp, goes, stamped, begins, reads_slot, links_empty,
  links_slot, confirms, judges, links_claim, rechecks, unlinks_stale, reads_claim, unlinks_claim,
  holds, reads_own, unlinks_own, gave_up, released,
}

-- From the link of the lease to its removal.
abbrev pub owns : Place → Bool
owns confirms = true
owns (reads_claim leased) = leased
owns (unlinks_claim leased) = leased
owns holds = true
owns reads_own = true
owns unlinks_own = true
owns _ = false

-- From the link of the claim to its removal.
abbrev pub claims : Place → Bool
claims (rechecks s) = true
claims (unlinks_stale s) = true
claims links_slot = true
claims confirms = true
claims (reads_claim leased) = true
claims (unlinks_claim leased) = true
claims _ = false

-- The stale stamp that an attempt has judged.
abbrev pub stale : Place → Option HolderStamp
stale (links_claim s) = some s
stale (rechecks s) = some s
stale (unlinks_stale s) = some s
stale _ = none

abbrev pub unlinks : Place → Option HolderStamp
unlinks (unlinks_stale s) = some s
unlinks _ = none

abbrev pub Judged : Disk → Try → Type 0
Judged d t = (s : HolderStamp) → stale t.place ≡ some s → d.dead s.pid ≡ true

-- What the files are to one attempt, as long as its process lives: its lease while it owns one, its
-- claim while it has one, and the stale lease that it is about to remove.
abbrev pub Keeps : Option File → Option File → ℕ → Try → Type 0
Keeps slot claim n t =
    (owns t.place ≡ true → slot ≡ some (stamped (stamp n t)))
    × (claims t.place ≡ true → claim ≡ some (stamped (stamp n t)))
    × ((s : HolderStamp) → unlinks t.place ≡ some s → slot ≡ some (stamped s))

abbrev pub IsSafe : Disk → Type 0
IsSafe d =
    (n : ℕ)
    → Judged d (d.tries n) × (d.dead (d.tries n).pid ≡ false → Keeps d.slot d.claim n (d.tries n))

abbrev pub at_place : Disk → ℕ → Place → Try
at_place d n place = record (d.tries n) { place = place }

-- The disk after a move: the files, and where the attempt then is.
abbrev pub moved : Disk → ℕ → Option File → Option File → Place → Disk
moved d n slot claim place = goes (record d { slot = slot; claim = claim }) n place

-- A move is safe if the new files fit the mover, and each other living attempt.
pub moved-IsSafe :
    (d : Disk) (n : ℕ) (slot claim : Option File) (place : Place)
    → IsSafe d
    → ((k : ℕ) → (k == n) ≡ false → d.dead (d.tries k).pid ≡ false → Keeps slot claim k (d.tries k))
    → Judged d (at_place d n place)
    → Keeps slot claim n (at_place d n place)
    → IsSafe (moved d n slot claim place)
moved-IsSafe d n slot claim place h others judged own k = elim (Bool-cases (k == n)) [
  | inr e ↦ rw e ((h k).0, others k e)
  | inl e ↦
      let same : n ≡ k = ground arith in
      rw e (
        subst (λ j. Judged d (at_place d j place)) same judged,
        λ alive. subst (λ j. Keeps slot claim j (at_place d j place)) same own,
      )
]

pub unlinks-claims : (p : Place) (s : HolderStamp) → unlinks p ≡ some s → claims p ≡ true
unlinks-claims begins s e = cc
unlinks-claims reads_slot s e = cc
unlinks-claims links_empty s e = cc
unlinks-claims links_slot s e = cc
unlinks-claims confirms s e = cc
unlinks-claims (judges t) s e = cc
unlinks-claims (links_claim t) s e = cc
unlinks-claims (rechecks t) s e = cc
unlinks-claims (unlinks_stale t) s e = refl
unlinks-claims (reads_claim l) s e = cc
unlinks-claims (unlinks_claim l) s e = cc
unlinks-claims holds s e = cc
unlinks-claims reads_own s e = cc
unlinks-claims unlinks_own s e = cc
unlinks-claims gave_up s e = cc
unlinks-claims released s e = cc

pub unlinks-stale : (p : Place) (s : HolderStamp) → unlinks p ≡ some s → stale p ≡ some s
unlinks-stale begins s e = cc
unlinks-stale reads_slot s e = cc
unlinks-stale links_empty s e = cc
unlinks-stale links_slot s e = cc
unlinks-stale confirms s e = cc
unlinks-stale (judges t) s e = cc
unlinks-stale (links_claim t) s e = cc
unlinks-stale (rechecks t) s e = cc
unlinks-stale (unlinks_stale t) s e = e
unlinks-stale (reads_claim l) s e = cc
unlinks-stale (unlinks_claim l) s e = cc
unlinks-stale holds s e = cc
unlinks-stale reads_own s e = cc
unlinks-stale unlinks_own s e = cc
unlinks-stale gave_up s e = cc
unlinks-stale released s e = cc

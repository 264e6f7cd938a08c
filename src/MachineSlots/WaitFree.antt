-- ===== src/MachineSlots/WaitFree.antt =====
-- `trySlot` of src/subagents/machine-slots.ts never waits for another attempt.
use steak_pi.Prelude.{
  ℕ, ◌+◌, ◌-◌, ◌≤◌, ◌≡◌, refl, sym, ap, ◌∙◌, subst, inl, inr, Bool, true, false, not, Option, none,
  some, List, [], ◌∷◌, arith, leb, ◌==◌, if◌then◌else◌, Bool-cases,
}
use steak_pi.MachineSlots.{
  File, Place, Disk, goes, seen, act, Event, step, run, stamped, unreadable, begins, reads_slot,
  links_empty, links_slot, confirms, judges, links_claim, rechecks, unlinks_stale, reads_claim,
  unlinks_claim, holds, reads_own, unlinks_own, gave_up, released, moves, dies,
}

-- How many moves an attempt can still make.
abbrev rank : Place → ℕ
rank begins = 13
rank reads_slot = 12
rank (judges s) = 11
rank (links_claim s) = 10
rank (rechecks s) = 9
rank (unlinks_stale s) = 8
rank links_slot = 7
rank confirms = 6
rank (reads_claim leased) = 5
rank (unlinks_claim leased) = 4
rank links_empty = 4
rank holds = 3
rank reads_own = 2
rank unlinks_own = 1
rank gave_up = 0
rank released = 0

-- `trySlot` has returned, with a lease or without.
abbrev pub returned : Place → Bool
returned p = leb (rank p) 3

-- The attempt has no lease, or has given it back.
abbrev pub ended : Place → Bool
ended gave_up = true
ended released = true
ended _ = false

-- How many of the events are moves of this attempt.
abbrev pub counts : ℕ → Event → ℕ
counts n (moves m) = if m == n then 1 else 0
counts n (dies pid) = 0

unfoldable pub moves_of : ℕ → List Event → ℕ
moves_of n [] = 0
moves_of n (e ∷ es) = counts n e + moves_of n es

abbrev place_of : Disk → ℕ → Place
place_of d n = (d.tries n).place

abbrev alive : Disk → ℕ → Bool
alive d n = not (d.dead (d.tries n).pid)

pub goes-place : (d : Disk) (n : ℕ) (p : Place) → ((goes d n p).tries n).place ≡ p
goes-place d n p = ground arith

seen-rank : (f : Option File) → rank (seen f) ≤ 11
seen-rank none = ground arith
seen-rank (some unreadable) = ground arith
seen-rank (some (stamped s)) = ground arith

-- Every move of an attempt that has not ended uses up rank.
act-rank :
    (d : Disk) (n : ℕ) (p : Place)
    → (d.tries n).place ≡ p
    → rank ((act d n p).tries n).place ≤ rank p - 1
unfolding act
act-rank d n begins e = ground arith
act-rank d n reads_slot e = rw (goes-place d n (seen d.slot)) (seen-rank d.slot)
act-rank d n links_empty e = ground arith
act-rank d n links_slot e = ground arith
act-rank d n confirms e = ground arith
act-rank d n (judges s) e = ground arith
act-rank d n (links_claim s) e = ground arith
act-rank d n (rechecks s) e = ground arith
act-rank d n (unlinks_stale s) e = ground arith
act-rank d n (reads_claim l) e = ground arith
act-rank d n (unlinks_claim l) e = ground arith
act-rank d n holds e = ground arith
act-rank d n reads_own e = ground arith
act-rank d n unlinks_own e = ground arith
act-rank d n gave_up e = ground arith
act-rank d n released e = ground arith

-- A move changes no other attempt, and no process.
act-others :
    (d : Disk) (n : ℕ) (p : Place) (k : ℕ)
    → ((act d n p).dead ((act d n p).tries k).pid ≡ d.dead (d.tries k).pid)
      × ((k == n) ≡ false → ((act d n p).tries k).place ≡ (d.tries k).place)
unfolding act
act-others d n begins k = (ground arith, λ e. ground arith)
act-others d n reads_slot k = (ground arith, λ e. ground arith)
act-others d n links_empty k = (ground arith, λ e. ground arith)
act-others d n links_slot k = (ground arith, λ e. ground arith)
act-others d n confirms k = (ground arith, λ e. ground arith)
act-others d n (judges s) k = (ground arith, λ e. ground arith)
act-others d n (links_claim s) k = (ground arith, λ e. ground arith)
act-others d n (rechecks s) k = (ground arith, λ e. ground arith)
act-others d n (unlinks_stale s) k = (ground arith, λ e. ground arith)
act-others d n (reads_claim l) k = (ground arith, λ e. ground arith)
act-others d n (unlinks_claim l) k = (ground arith, λ e. ground arith)
act-others d n holds k = (ground arith, λ e. ground arith)
act-others d n reads_own k = (ground arith, λ e. ground arith)
act-others d n unlinks_own k = (ground arith, λ e. ground arith)
act-others d n gave_up k = (ground arith, λ e. ground arith)
act-others d n released k = (ground arith, λ e. ground arith)

step-moves :
    (d : Disk) (m : ℕ)
    → d.dead (d.tries m).pid ≡ false
    → step d (moves m) ≡ act d m (d.tries m).place
unfolding step
step-moves d m e = rw e refl

step-dead : (d : Disk) (m : ℕ) → d.dead (d.tries m).pid ≡ true → step d (moves m) ≡ d
unfolding step
step-dead d m e = rw e refl

step-alive : (d : Disk) (e : Event) (n : ℕ) → alive (step d e) n ≡ true → alive d n ≡ true
unfolding step
step-alive d (moves m) n l = elim (Bool-cases (d.dead (d.tries m).pid)) [
  | inl e ↦ subst (λ x. alive x n ≡ true) (step-dead d m e) l
  | inr e ↦
      ap not (sym (act-others d m (d.tries m).place n).0)
      ∙ subst (λ x. alive x n ≡ true) (step-moves d m e) l
]
step-alive d (dies pid) n l = ground arith

-- Of a living attempt, each move counts.
step-rank :
    (d : Disk) (e : Event) (n : ℕ)
    → alive d n ≡ true
    → rank (place_of (step d e) n) ≤ rank (place_of d n) - counts n e
unfolding step
step-rank d (moves m) n l = elim (Bool-cases (m == n)) [
  | inl e ↦
      let same : n ≡ m = ground arith in
      let living : d.dead (d.tries m).pid ≡ false = ground arith in
      rw e (rw same (rw (step-moves d m living) (act-rank d m (d.tries m).place refl)))
  | inr e ↦ rw e (elim (Bool-cases (d.dead (d.tries m).pid)) [
    | inl dead ↦ rw (step-dead d m dead) omega arith
    | inr living ↦
        rw (step-moves d m living)
          (rw ((act-others d m (d.tries m).place n).1 (ground arith)) omega arith)
  ])
]
step-rank d (dies pid) n l = ground arith

run-rank :
    (d : Disk) (es : List Event) (n : ℕ)
    → alive (run d es) n ≡ true
    → (alive d n ≡ true) × (rank (place_of (run d es) n) ≤ rank (place_of d n) - moves_of n es)
unfolding run moves_of
run-rank d [] n l = (l, ground arith)
run-rank d (e ∷ es) n l =
    let (living, fits) = run-rank (step d e) es n l in
    let before = step-alive d e n living in
    let one = step-rank d e n before in (before, omega arith)

rank-ended : (p : Place) → rank p ≤ 0 → ended p ≡ true
rank-ended begins e = absurd (omega arith)
rank-ended reads_slot e = absurd (omega arith)
rank-ended links_empty e = absurd (omega arith)
rank-ended links_slot e = absurd (omega arith)
rank-ended confirms e = absurd (omega arith)
rank-ended (judges s) e = absurd (omega arith)
rank-ended (links_claim s) e = absurd (omega arith)
rank-ended (rechecks s) e = absurd (omega arith)
rank-ended (unlinks_stale s) e = absurd (omega arith)
rank-ended (reads_claim l) e = absurd (omega arith)
rank-ended (unlinks_claim l) e = absurd (omega arith)
rank-ended holds e = absurd (omega arith)
rank-ended reads_own e = absurd (omega arith)
rank-ended unlinks_own e = absurd (omega arith)
rank-ended gave_up e = refl
rank-ended released e = refl

-- In an attempt that begins in a process that is alive in the end, `trySlot` returns within ten of its
-- own moves, and the release of its lease, if it has one, is over within thirteen, whatever the other
-- attempts and processes do in between.
pub run-settles :
    (d : Disk) (es : List Event) (n : ℕ)
    → (d.tries n).place ≡ begins
    → (run d es).dead ((run d es).tries n).pid ≡ false
    → (10 ≤ moves_of n es → returned ((run d es).tries n).place ≡ true)
      × (13 ≤ moves_of n es → ended ((run d es).tries n).place ≡ true)
run-settles d es n b l =
    let fits = (run-rank d es n (ap not l)).1 in
    let start : rank (d.tries n).place ≡ 13 = ap rank b in
    (λ m. ground arith, λ m. rank-ended (place_of (run d es) n) (omega arith))

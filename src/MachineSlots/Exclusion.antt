-- ===== src/MachineSlots/Exclusion.antt =====
-- Who may hold a slot index of src/subagents/machine-slots.ts.
use steak_pi.Prelude.{
  ℕ, ◌≡◌, ap, inl, inr, Bool, true, false, not, ◌&&◌, some, List, [], ◌∷◌, arith, ◌==◌,
  if◌then◌else◌, Bool-cases,
}
use steak_pi.MachineSlots.{
  HolderStamp, Disk, stamp_of, Event, step, run, stamped, begins, moves, dies,
}
use steak_pi.MachineSlots.Safe.{owns, IsSafe}
use steak_pi.MachineSlots.Moves.{act-IsSafe}

-- An event keeps every living attempt's lease and claim.
step-IsSafe : (d : Disk) (e : Event) → IsSafe d → IsSafe (step d e)
unfolding step
step-IsSafe d (moves m) h n = elim (Bool-cases (d.dead (d.tries m).pid)) [
  | inl e ↦ rw e (h n)
  | inr e ↦ rw e (act-IsSafe d m h e (d.tries m).place (h m).0 ((h m).1 e) n)
]
step-IsSafe d (dies pid) h n =
    (λ s e. grown s.pid ((h n).0 s e), λ living. (h n).1 (still (d.tries n).pid living))
  where
    grown : (p : ℕ) → d.dead p ≡ true → (if p == pid then true else d.dead p) ≡ true
    grown p e = ground arith

    still : (p : ℕ) → (if p == pid then true else d.dead p) ≡ false → d.dead p ≡ false
    still p e = ground arith

run-IsSafe : (d : Disk) (es : List Event) → IsSafe d → IsSafe (run d es)
unfolding run
run-IsSafe d [] h = h
run-IsSafe d (e ∷ es) h = run-IsSafe (step d e) es (step-IsSafe d e h)

begins-IsSafe : (d : Disk) → ((n : ℕ) → (d.tries n).place ≡ begins) → IsSafe d
begins-IsSafe d fresh n = rw (fresh n) (λ s e. cc e, λ living. (λ o. cc o, λ c. cc c, λ s e. cc e))

-- An attempt of a living process that owns the lease of the index.
unfoldable pub has_lease : Disk → ℕ → Bool
has_lease d n = not (d.dead (d.tries n).pid) && owns (d.tries n).place

leased-stamp :
    (d : Disk) (n : ℕ) → IsSafe d → has_lease d n ≡ true → d.slot ≡ some (stamped (stamp_of d n))
unfolding has_lease
leased-stamp d n h e =
    let living : d.dead (d.tries n).pid ≡ false = ground arith in
    let owned : owns (d.tries n).place ≡ true = ground arith in ((h n).1 living).0 owned

-- Whatever the two files of an index hold at first, after any interleaving of the moves of the
-- attempts and of deaths of processes, two attempts that own its lease in living processes are one.
pub run-exclusive :
    (d : Disk)
    → ((n : ℕ) → (d.tries n).place ≡ begins)
    → (es : List Event) (m n : ℕ) → has_lease (run d es) m ≡ true
    → has_lease (run d es) n ≡ true
    → m ≡ n
run-exclusive d fresh es m n o p =
    let safe = run-IsSafe d es (begins-IsSafe d fresh) in
    let stamps : stamp_of (run d es) m ≡ stamp_of (run d es) n =
      cc (leased-stamp (run d es) m safe o, leased-stamp (run d es) n safe p) in
    ap (λ (s : HolderStamp). s.nonce) stamps

-- ===== src/MachineSlots/Moves.antt =====
-- The file operations of src/subagents/machine-slots.ts keep every living attempt's lease and claim.
use steak_pi.Prelude.{
  ℕ, ◌≡◌, refl, sym, ap, ◌∙◌, inl, inr, Bool, true, false, Option, none, some, arith, ◌==◌,
  if◌then◌else◌, Bool-cases,
}
use steak_pi.MachineSlots.{
  HolderStamp, File, Place, Try, Disk, stamp, stamp_of, is_stamp, is_own, is_present, goes, seen,
  act, stamped, unreadable, begins, reads_slot, links_empty, links_slot, confirms, judges,
  links_claim, rechecks, unlinks_stale, reads_claim, unlinks_claim, holds, reads_own, unlinks_own,
  gave_up, released,
}
use steak_pi.MachineSlots.Safe.{
  owns, claims, stale, unlinks, Judged, Keeps, IsSafe, at_place, moved, moved-IsSafe,
  unlinks-claims, unlinks-stale,
}

stamp-ext : (s t : HolderStamp) → s.pid ≡ t.pid → s.born ≡ t.born → s.nonce ≡ t.nonce → s ≡ t
stamp-ext s t p b n i = record { pid = p i; born = b i; nonce = n i }

module _ (d : Disk) (n : ℕ) (h : IsSafe d) (alive : d.dead (d.tries n).pid ≡ false) where
  -- A move that leaves both files alone.
  stays-IsSafe :
      (place : Place)
      → Judged d (at_place d n place)
      → Keeps d.slot d.claim n (at_place d n place)
      → IsSafe (goes d n place)
  stays-IsSafe place = moved-IsSafe d n d.slot d.claim place h (λ k e living. (h k).1 living)

  -- A lease is linked where there is none.
  links-IsSafe :
      (place : Place)
      → d.slot ≡ none
      → Judged d (at_place d n place)
      → Keeps (some (stamped (stamp_of d n))) d.claim n (at_place d n place)
      → IsSafe (moved d n (some (stamped (stamp_of d n))) d.claim place)
  links-IsSafe place empty =
      moved-IsSafe d n (some (stamped (stamp_of d n))) d.claim place h λ k e living.
        let (own, claim, still) = (h k).1 living in
        (λ o. absurd (cc (own o, empty)), claim, λ s u. absurd (cc (still s u, empty)))

  -- A claim is linked where there is none.
  links_claim-IsSafe :
      (place : Place)
      → d.claim ≡ none
      → Judged d (at_place d n place)
      → Keeps d.slot (some (stamped (stamp_of d n))) n (at_place d n place)
      → IsSafe (moved d n d.slot (some (stamped (stamp_of d n))) place)
  links_claim-IsSafe place empty =
      moved-IsSafe d n d.slot (some (stamped (stamp_of d n))) place h λ k e living.
        let (own, claim, still) = (h k).1 living in (own, λ c. absurd (cc (claim c, empty)), still)

  nonces : (k : ℕ) (t u : Try) → stamp k t ≡ stamp n u → (k == n) ≡ true
  nonces k t u e = let same : k ≡ n = ap (λ (s : HolderStamp). s.nonce) e in ground arith

  file_stamp :
      (f : Option File) (s t : HolderStamp) → f ≡ some (stamped s) → f ≡ some (stamped t) → s ≡ t
  file_stamp f s t a b = cc (a, b)

  living_stale :
      (k : ℕ) (s : HolderStamp)
      → d.dead (d.tries k).pid ≡ false
      → d.dead s.pid ≡ true
      → stamp_of d k ≡ s
      → ⊥
  living_stale k s living gone e = cc (living, gone, e)

  one_claim :
      (k : ℕ)
      → d.claim ≡ some (stamped (stamp_of d k))
      → d.claim ≡ some (stamped (stamp_of d n))
      → (k == n) ≡ true
  one_claim k a b =
      nonces k (d.tries k) (d.tries n) (file_stamp d.claim (stamp_of d k) (stamp_of d n) a b)

  -- A stale lease is removed under the claim.
  unlinks_stale-IsSafe :
      (s : HolderStamp)
      → d.dead s.pid ≡ true
      → Keeps d.slot d.claim n (at_place d n (unlinks_stale s))
      → IsSafe (moved d n none d.claim links_slot)
  unlinks_stale-IsSafe s gone facts =
      moved-IsSafe d n none d.claim links_slot h
        (λ k e living.
          let (own, claim, still) = (h k).1 living in
          (
            λ o. absurd (
                living_stale k s living gone
                  (file_stamp d.slot (stamp_of d k) s (own o) (facts.2 s refl))),
            claim,
            λ u f.
                absurd (
                  cc
                    (e, one_claim k (claim (unlinks-claims (d.tries k).place u f)) (facts.1 refl))),
          ))
        (λ t e. ground arith) (λ o. ground arith, facts.1, λ t e. ground arith)

  -- A living owner removes its own lease.
  unlinks_own-IsSafe :
      Keeps d.slot d.claim n (at_place d n unlinks_own) → IsSafe (moved d n none d.claim released)
  unlinks_own-IsSafe facts =
      moved-IsSafe d n none d.claim released h
        (λ k e living.
          let (own, claim, still) = (h k).1 living in
          (
            λ o. absurd (
                cc (
                  e,
                  nonces k (d.tries k) (d.tries n)
                      (file_stamp d.slot (stamp_of d k) (stamp_of d n) (own o) (facts.0 refl)),
                )),
            claim,
            λ u f. absurd (
                living_stale n u alive ((h k).0 u (unlinks-stale (d.tries k).place u f))
                  (file_stamp d.slot (stamp_of d n) u (facts.0 refl) (still u f))),
          ))
        (λ t e. ground arith) (λ o. ground arith, λ c. ground arith, λ t e. ground arith)

  -- A living claimant removes its own claim.
  unlinks_claim-IsSafe :
      (leased : Bool) (place : Place)
      → claims place ≡ false
      → unlinks place ≡ none
      → stale place ≡ none
      → owns place ≡ leased
      → Keeps d.slot d.claim n (at_place d n (unlinks_claim leased))
      → IsSafe (moved d n d.slot none place)
  unlinks_claim-IsSafe leased place c u j o facts =
      moved-IsSafe d n d.slot none place h
        (λ k e living.
          let (own, claim, still) = (h k).1 living in
          (own, λ c. absurd (cc (e, one_claim k (claim c) (facts.1 refl))), still))
        (λ t e. cc (j, e)) (λ i. facts.0 (sym o ∙ i), λ i. cc (c, i), λ t e. cc (u, e))

  -- A place that neither owns, claims nor judges anything.
  free-IsSafe :
      (place : Place)
      → (owns place ≡ false)
        × (claims place ≡ false)
        × (stale place ≡ none)
        × (unlinks place ≡ none)
      → IsSafe (goes d n place)
  free-IsSafe place free =
      stays-IsSafe place (λ s e. cc (free.2, e))
        (λ o. cc (free.0, o), λ c. cc (free.1, c), λ s e. cc (free.3, e))

  -- The claim is still held, the lease is not.
  claim_only-IsSafe :
      (place : Place)
      → (owns place ≡ false) × (stale place ≡ none) × (unlinks place ≡ none)
      → d.claim ≡ some (stamped (stamp_of d n))
      → IsSafe (goes d n place)
  claim_only-IsSafe place free c =
      stays-IsSafe place (λ s e. cc (free.1, e))
        (λ o. cc (free.0, o), λ i. c, λ s e. cc (free.2, e))

  absent : (f : Option File) → is_present f ≡ false → f ≡ none
  absent none e = refl
  absent (some f) e = cc

  is_stamp-file : (f : Option File) (s : HolderStamp) → is_stamp f s ≡ true → f ≡ some (stamped s)
  is_stamp-file none s e = cc
  is_stamp-file (some unreadable) s e = cc
  is_stamp-file (some (stamped t)) s e =
      let pids : t.pid ≡ s.pid = ground arith in
      let borns : t.born ≡ s.born = ground arith in
      let nonces : t.nonce ≡ s.nonce = ground arith in
      ap (λ u. some (stamped u)) (stamp-ext t s pids borns nonces)

  -- A file operation keeps every living attempt's lease and claim.
  pub act-IsSafe :
      (p : Place)
      → Judged d (at_place d n p)
      → Keeps d.slot d.claim n (at_place d n p)
      → IsSafe (act d n p)
  unfolding act
  act-IsSafe begins j f = elim (Bool-cases (is_present d.claim)) [
    | inl e ↦ rw e (free-IsSafe gave_up (refl, refl, refl, refl))
    | inr e ↦ rw e (free-IsSafe reads_slot (refl, refl, refl, refl))
  ]
  act-IsSafe reads_slot j f = seen-IsSafe d.slot
    where
      seen-IsSafe : (f : Option File) → IsSafe (goes d n (seen f))
      seen-IsSafe none = free-IsSafe links_empty (refl, refl, refl, refl)
      seen-IsSafe (some unreadable) = free-IsSafe gave_up (refl, refl, refl, refl)
      seen-IsSafe (some (stamped s)) = free-IsSafe (judges s) (refl, refl, refl, refl)
  act-IsSafe links_empty j f = elim (Bool-cases (is_present d.slot)) [
    | inl e ↦ rw e (free-IsSafe gave_up (refl, refl, refl, refl))
    | inr e ↦
        rw e
          (links-IsSafe holds (absent d.slot e) (λ s i. cc i) (λ o. refl, λ c. cc c, λ s i. cc i))
  ]
  act-IsSafe links_slot j f = elim (Bool-cases (is_present d.slot)) [
    | inl e ↦ rw e (claim_only-IsSafe (reads_claim false) (refl, refl, refl) (f.1 refl))
    | inr e ↦ rw e (
        links-IsSafe confirms (absent d.slot e) (λ s i. cc i)
          (λ o. refl, λ c. f.1 refl, λ s i. cc i))
  ]
  act-IsSafe confirms j f =
      stays-IsSafe (reads_claim (is_stamp d.slot (stamp_of d n))) (λ s e. cc e)
        (λ o. f.0 refl, λ c. f.1 refl, λ s e. cc e)
  act-IsSafe (judges s) j f = elim (Bool-cases (d.dead s.pid)) [
    | inl e ↦
        rw e (stays-IsSafe (links_claim s) (λ t i. cc (e, i)) (λ o. cc o, λ c. cc c, λ t i. cc i))
    | inr e ↦ rw e (free-IsSafe gave_up (refl, refl, refl, refl))
  ]
  act-IsSafe (links_claim s) j f = elim (Bool-cases (is_present d.claim)) [
    | inl e ↦ rw e (free-IsSafe gave_up (refl, refl, refl, refl))
    | inr e ↦
        rw e
          (links_claim-IsSafe (rechecks s) (absent d.claim e) j (λ o. cc o, λ c. refl, λ t i. cc i))
  ]
  act-IsSafe (rechecks s) j f = elim (Bool-cases (is_present d.slot)) [
    | inl e ↦ elim (Bool-cases (is_stamp d.slot s)) [
      | inl same ↦ rw e (
          rw same (
            stays-IsSafe (unlinks_stale s) j (
              λ o. cc o,
              λ c. f.1 refl,
              λ t i. is_stamp-file d.slot s same ∙ ap (λ u. some (stamped u)) (cc i),
            )))
      | inr other ↦
          rw e (rw other (claim_only-IsSafe (reads_claim false) (refl, refl, refl) (f.1 refl)))
    ]
    | inr e ↦ rw e (claim_only-IsSafe links_slot (refl, refl, refl) (f.1 refl))
  ]
  act-IsSafe (unlinks_stale s) j f = unlinks_stale-IsSafe s (j s refl) f
  act-IsSafe (reads_claim l) j f = elim (Bool-cases (is_own d.claim (stamp_of d n))) [
    | inl e ↦ rw e (stays-IsSafe (unlinks_claim l) j f)
    | inr e ↦ rw e (given l f)
  ]
    where
      given :
          (l : Bool)
          → Keeps d.slot d.claim n (at_place d n (reads_claim l))
          → IsSafe (goes d n (if l then holds else gave_up))
      given true g = stays-IsSafe holds (λ s i. cc i) (g.0, λ c. cc c, λ s i. cc i)
      given false g = free-IsSafe gave_up (refl, refl, refl, refl)
  act-IsSafe (unlinks_claim true) j f = unlinks_claim-IsSafe true holds refl refl refl refl f
  act-IsSafe (unlinks_claim false) j f = unlinks_claim-IsSafe false gave_up refl refl refl refl f
  act-IsSafe holds j f = stays-IsSafe reads_own (λ s e. cc e) f
  act-IsSafe reads_own j f = elim (Bool-cases (is_own d.slot (stamp_of d n))) [
    | inl e ↦ rw e (stays-IsSafe unlinks_own (λ s i. cc i) f)
    | inr e ↦ rw e (free-IsSafe released (refl, refl, refl, refl))
  ]
  act-IsSafe unlinks_own j f = unlinks_own-IsSafe f
  act-IsSafe gave_up j f = h
  act-IsSafe released j f = h

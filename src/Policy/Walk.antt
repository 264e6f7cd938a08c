-- ===== src/Policy/Walk.antt =====
-- The walk to an existing ancestor in src/subagents/policy.ts ends.
use steak_pi.Prelude.{
  ℕ, zero, suc, ◌+◌, ◌<◌, String, ◌≡◌, refl, subst, ◌≢◌, ◌⊎◌, inl, inr, Bool, true, false, Option,
  none, some, List, [], arith, Bool-cases, str_eq, str_eq_iff, units,
}
use steak_pi.Policy.{Checked, Stat, World, walk_unfinished, ok, rejected, found, absent, failed}
use steak_pi.Policy.Paths.{starts_with, walk_step, projection_from, physical_projection}

abbrev is_unfinished {ℓ} : {A : Type ℓ} → Checked A → Bool
is_unfinished (ok a) = false
is_unfinished (rejected walk_unfinished) = true
is_unfinished (rejected _) = false

-- An absolute path of POSIX.
abbrev pub is_rooted : String → Bool
is_rooted p = starts_with "/" p

module _ (w : World)
    (shorter : (p : String)
      → is_rooted p ≡ true
      → (w.dirname p ≡ p)
        ⊎ ((is_rooted (w.dirname p) ≡ true) × (units (w.dirname p) < units p))) where
  walk_step-finishes :
      (current : String) (missing : List String) (stat : Stat) (real : Option String)
      (parent : String) (above : Checked String)
      → (str_eq parent current ≡ false → is_unfinished above ≡ false)
      → is_unfinished (walk_step w current missing stat real parent above) ≡ false
  walk_step-finishes current missing found none parent above up = refl
  walk_step-finishes current missing found (some real) parent above up = refl
  walk_step-finishes current missing failed real parent above up = refl
  walk_step-finishes current missing absent real parent above up =
      elim (Bool-cases (str_eq parent current)) [ inl e ↦ rw e refl | inr e ↦ rw e (up e) ]

  up :
      (p : String) (n : ℕ)
      → is_rooted p ≡ true
      → units p < suc n
      → str_eq (w.dirname p) p ≡ false
      → (is_rooted (w.dirname p) ≡ true) × (units (w.dirname p) < n)
  up p n root lt e = elim (shorter p root) [
    | inl same ↦ absurd (cc (e, (str_eq_iff (w.dirname p) p).1 same))
    | inr (rooted, less) ↦ (rooted, omega arith)
  ]

  projection_from-finishes :
      (fuel : ℕ) (current : String) (missing : List String)
      → is_rooted current ≡ true
      → units current < fuel
      → is_unfinished (projection_from w fuel current missing) ≡ false
  unfolding projection_from
  projection_from-finishes zero current missing root lt = absurd (omega arith)
  projection_from-finishes (suc fuel) current missing root lt =
      walk_step-finishes current missing (w.lstat current) (w.realpath current) (w.dirname current)
        _
        (λ e.
          let (rooted, less) = up current fuel root lt e in
          projection_from-finishes fuel (w.dirname current) _ rooted less)

  -- From an absolute path the walk of `physicalProjection` ends, with a path or one of the errors of the
  -- code, before its fuel, one more than the path's length, is used up. Of `dirname` it asks that for an
  -- absolute path it gives the path itself or a shorter absolute one.
  pub physical_projection_finishes :
      (target : String)
      → is_rooted target ≡ true
      → physical_projection w target ≢ rejected walk_unfinished
  physical_projection_finishes target root e =
      let finished = projection_from-finishes (units target + 1) target [] root (omega arith) in
      cc (subst (λ (x : Checked String). is_unfinished x ≡ false) e finished)

-- ===== src/Capacity/Bounds.antt =====
-- The limits of capacity.ts stay in their ranges, whatever the file holds.
use steak_pi.Prelude.{
  ℕ, ◌≤◌, min, String, ◌≡◌, inl, inr, Option, none, some, List, [], ◌∷◌, arith, Option-cases,
  or_else, All,
}
use steak_pi.Capacity.{
  Setting, Tier, CapsFile, sanitize_providers, global_from, load_capacity_config, ceiling,
  session_cap, machine_cap, integer, other, no_path, unreadable, parsed, within, sanitize_entries,
}

-- A ceiling that a launch can use: at least one, and at most `most`.
abbrev pub InRange : ℕ → ℕ → Type 0
InRange most n = (1 ≤ n) × (n ≤ most)

abbrev ProvidersInRange : List (String × ℕ) → Type 0
ProvidersInRange = All (λ entry. InRange 64 entry.1)

abbrev pub TierInRange : ℕ → Tier → Type 0
TierInRange most t = InRange most t.global × ProvidersInRange t.providers

within-InRange : (v : Setting) (most n : ℕ) → within v most ≡ some n → InRange most n
unfolding within
within-InRange (integer m) most n h = ground arith
within-InRange other most n h = ground arith

sanitize_entries-InRange : (es : List (String × Setting)) → ProvidersInRange (sanitize_entries es)
unfolding sanitize_entries
sanitize_entries-InRange [] = tt
sanitize_entries-InRange ((key, value) ∷ rest) = elim (Option-cases (within value 64)) [
  | inl e ↦ rw (e, sanitize_entries) (sanitize_entries-InRange rest)
  | inr (n, e) ↦
      rw (e, sanitize_entries) (within-InRange value 64 n e, sanitize_entries-InRange rest)
]

sanitize_providers-InRange :
    (es : Option (List (String × Setting))) → ProvidersInRange (or_else (sanitize_providers es) [])
unfolding sanitize_providers
sanitize_providers-InRange none = tt
sanitize_providers-InRange (some es) = sanitize_entries-InRange es

global_from-InRange :
    (v : Setting) (fallback most : ℕ)
    → InRange most fallback
    → InRange most (global_from v fallback most)
unfolding global_from
global_from-InRange v fallback most h = elim (Option-cases (within v most)) [
  | inl e ↦ rw (e, global_from) h
  | inr (n, e) ↦ rw (e, global_from) (within-InRange v most n e)
]

-- Whatever the file holds, both tiers of the loaded configuration are in range: every ceiling is at
-- least 1, those of providers are at most 64, the session's total is at most 64 and the machine's
-- at most 128.
pub load_capacity_config-InRange :
    (file : CapsFile)
    → let config = load_capacity_config file in
      TierInRange 64 config.session × TierInRange 128 config.machine
unfolding load_capacity_config
load_capacity_config-InRange no_path =
    (((omega arith, omega arith), tt), ((omega arith, omega arith), tt))
load_capacity_config-InRange unreadable =
    (((omega arith, omega arith), tt), ((omega arith, omega arith), tt))
load_capacity_config-InRange (parsed session machine) = (
  (
    global_from-InRange session.global 14 64 (omega arith, omega arith),
    sanitize_providers-InRange session.providers,
  ),
  (
    global_from-InRange machine.global 24 128 (omega arith, omega arith),
    sanitize_providers-InRange machine.providers,
  ),
)

ceiling-InRange :
    (ps : List (String × ℕ)) (provider : String) (fallback : ℕ)
    → ProvidersInRange ps
    → InRange 64 fallback
    → InRange 64 (or_else (ceiling ps provider) fallback)
unfolding ceiling
ceiling-InRange [] provider fallback h k = k
ceiling-InRange ((key, cap) ∷ rest) provider fallback h k =
    ground (arith, ceiling-InRange rest provider fallback h.1 k)

-- Under any loaded configuration every provider has at least one launch slot in a session and on
-- the machine, and never more than the tier's total.
pub caps-InRange :
    (file : CapsFile) (provider : String)
    → let config = load_capacity_config file in
      InRange (min config.session.global 64) (session_cap config provider)
      × InRange config.machine.global (machine_cap config provider)
unfolding session_cap machine_cap
caps-InRange file provider = ground (
  arith,
  ceiling-InRange (load_capacity_config file).session.providers provider 8
      (load_capacity_config-InRange file).0.1,
  ceiling-InRange (load_capacity_config file).machine.providers provider 12
      (load_capacity_config-InRange file).1.1,
  load_capacity_config-InRange file,
)

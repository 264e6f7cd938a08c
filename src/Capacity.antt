-- ===== src/Capacity.antt =====
-- src/subagents/capacity.ts: the launch limits of a session and of the machine.
-- The configuration file is read and parsed elsewhere: `CapsFile` is what the parse hands over.
pub mod Bounds
use steak_pi.Prelude.{
  ℕ, ◌+◌, min, String, ◌&&◌, Option, none, some, List, [], ◌∷◌, leb, if◌then◌else◌, or_else, str_eq,
}

-- A JSON value: a whole number from 0 on, or anything else (an absent one too).
pub data Setting : Type 0 where
  integer : ℕ → Setting
  other : Setting

pub record Tier : Type 0 where
  pub providers : List (String × ℕ)
  pub global : ℕ

pub record CapacityConfig : Type 0 where
  pub session : Tier
  pub machine : Tier

-- One tier as it stands in the file; `none` where `providers` is no object.
pub record RawTier : Type 0 where
  pub providers : Option (List (String × Setting))
  pub global : Setting

-- No file, one that cannot be read or parsed, or its two tiers.
pub data CapsFile : Type 0 where
  no_path unreadable : CapsFile
  parsed : RawTier → RawTier → CapsFile

abbrev pub max_concurrency : ℕ
max_concurrency = 8

abbrev pub defaults : CapacityConfig
defaults = record {
  session = record { providers = []; global = max_concurrency + 6 };
  machine = record { providers = []; global = 24 };
}

-- The test of `sanitizeProviders` and of `globalFrom`, up to a given number.
within : Setting → ℕ → Option ℕ
within (integer n) most = if leb 1 n && leb n most then some n else none
within other most = none

sanitize_entries : List (String × Setting) → List (String × ℕ)
unfolding within
sanitize_entries [] = []
sanitize_entries ((key, value) ∷ rest) = elim (within value 64) [
  | none ↦ sanitize_entries rest
  | some n ↦ (key, n) ∷ sanitize_entries rest
]

unfoldable pub sanitize_providers : Option (List (String × Setting)) → Option (List (String × ℕ))
unfolding sanitize_entries
sanitize_providers none = none
sanitize_providers (some entries) = some (sanitize_entries entries)

unfoldable pub global_from : Setting → ℕ → ℕ → ℕ
unfolding within
global_from input fallback most = or_else (within input most) fallback

unfoldable pub load_capacity_config : CapsFile → CapacityConfig
unfolding sanitize_providers global_from
load_capacity_config no_path = defaults
load_capacity_config unreadable = defaults
load_capacity_config (parsed session machine) = record {
  session = record {
    providers = or_else (sanitize_providers session.providers) [];
    global = global_from session.global defaults.session.global 64;
  };
  machine = record {
    providers = or_else (sanitize_providers machine.providers) [];
    global = global_from machine.global defaults.machine.global 128;
  };
}

-- `providers[provider]`.
unfoldable pub ceiling : List (String × ℕ) → String → Option ℕ
ceiling [] provider = none
ceiling ((key, cap) ∷ rest) provider =
    if str_eq key provider then some cap else ceiling rest provider

unfoldable pub session_cap : CapacityConfig → String → ℕ
unfolding ceiling
session_cap config provider =
    min
      (min (or_else (ceiling config.session.providers provider) max_concurrency)
        config.session.global)
      64

unfoldable pub machine_cap : CapacityConfig → String → ℕ
unfolding ceiling
machine_cap config provider =
    min (or_else (ceiling config.machine.providers provider) 12) config.machine.global

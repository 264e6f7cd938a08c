-- ===== src/Policy.antt =====
-- src/subagents/policy.ts: the checks that a dispatch of subagents passes before anything starts.
-- This file has what its parts share: the outcome of a check, the values of the caller, and the code
-- outside the repository that the checks call. The text of an error is left out, its reason is kept.
mod Tests
pub mod Paths
pub mod Request
pub mod Ids
pub mod Dispatch
pub mod Ownership
pub mod Disjoint
pub mod Walk
pub mod Crossing
pub mod Writes
use steak_pi.Prelude.{
  ℕ, String, ◌≡◌, refl, Bool, true, false, Option, List, if◌then◌else◌, is_blank, trim,
}

pub data Refusal : Type 0 where
  not_nonempty not_boolean not_in_range not_harness not_task_class not_role not_list : Refusal
  null_byte traversal outside_cwd escapes_cwd : Refusal
  unresolved_symlink not_inspected no_ancestor cwd_not_directory cwd_missing : Refusal
  needs_owned_path not_owned read_only_owner no_owned_path overlaps rule_not_exact : Refusal
  retired_model bad_time task_count label_not_unique not_account not_claude_route no_safe_id :
      Refusal
  -- Of the model only: the walk to an existing ancestor has used up its fuel.
  walk_unfinished : Refusal

pub data Checked {ℓ} (A : Type ℓ) : Type ℓ where
  ok : A → Checked A
  rejected : Refusal → Checked A

infixl 5 ◌>>=◌ ◌>>◌
unfoldable pub ◌>>=◌ {ℓ κ} : {A : Type ℓ} {B : Type κ} → Checked A → (A → Checked B) → Checked B
ok a >>= f = f a
rejected e >>= f = rejected e

abbrev pub ◌>>◌ {ℓ κ} : {A : Type ℓ} {B : Type κ} → Checked A → Checked B → Checked B
m >> k = m >>= λ _. k

abbrev pub guard : Bool → Refusal → Checked (Unit {0})
guard true e = ok tt
guard false e = rejected e

-- A successful bind has succeeded in both parts.
pub bind_ok {ℓ κ} :
    {A : Type ℓ} {B : Type κ} (m : Checked A) (f : A → Checked B) (b : B)
    → (m >>= f) ≡ ok b
    → (a : A) × (m ≡ ok a) × (f a ≡ ok b)
unfolding ◌>>=◌
bind_ok (ok a) f b e = (a, refl, e)
bind_ok (rejected r) f b e = cc

pub ok_inj {ℓ} : {A : Type ℓ} (a b : A) → ok a ≡ ok b → a ≡ b
ok_inj a b e = cc

pub guard_ok : (c : Bool) (r : Refusal) (u : Unit {0}) → guard c r ≡ ok u → c ≡ true
guard_ok true r u e = refl
guard_ok false r u e = cc

-- A value that the caller gives: `undefined`, one of another type, or one of the type that is wanted.
pub data Input {ℓ} (A : Type ℓ) : Type ℓ where
  undefined mistyped : Input A
  given : A → Input A

-- What `lstatSync` says of a path: it is there, it is not (`ENOENT`, `ENOTDIR`), or another error.
pub data Stat : Type 0 where
  found absent failed : Stat

-- `node:path`, `node:fs`, the Unicode functions and the clock of the platform.
pub record World : Type 0 where
  pub folds_case : Bool
  pub is_darwin : Bool
  pub nfc : String → String
  pub lower : String → String
  pub relative : String → String → String
  pub is_absolute : String → Bool
  pub resolve : String → List String → String
  pub dirname : String → String
  pub lstat : String → Stat
  pub realpath : String → Option String
  pub is_directory : String → Option Bool
  -- `Date.now()` when a dispatch is normalized.
  pub clock : ℕ

-- A path as it is written and as the file system resolves it.
pub record Location : Type 0 where
  pub lexical : String
  pub physical : String

abbrev pub nonempty_string : Input String → Checked String
nonempty_string undefined = rejected not_nonempty
nonempty_string mistyped = rejected not_nonempty
nonempty_string (given s) = if is_blank s then rejected not_nonempty else ok (trim s)

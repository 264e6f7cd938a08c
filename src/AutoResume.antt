-- ===== src/AutoResume.antt =====
-- src/subagents/auto-resume.ts: which failures of a worker are resumed, and after how long.
-- The regular expressions are parameters: `never` is the test of NEVER, and `matches` that of the
-- pattern of a rule of TRANSIENT, by its place, both on the trimmed text.
pub mod Bounds
mod Tests
use steak_pi.Prelude.{
  ℕ, suc, ◌-◌, min, String, Bool, ◌&&◌, ◌||◌, Option, none, some, List, [], ◌∷◌, leb, if◌then◌else◌,
  or_else, length, get_elem?, str_eq,
}

abbrev pub max_auto_resumes : ℕ
max_auto_resumes = 2

abbrev pub codex_reply_limit_reason : String
codex_reply_limit_reason = "codex reply limit"

pub record Rule : Type 0 where
  pub reason : String
  pub delays_ms : List ℕ

abbrev rule : String → List ℕ → Rule
rule reason delays_ms = record { reason = reason; delays_ms = delays_ms }

abbrev pub transient : List Rule
transient =
    rule codex_reply_limit_reason (5000 ∷ [])
    ∷ rule "rate limited" (60000 ∷ 120000 ∷ [])
    ∷ rule "network drop" (10000 ∷ 30000 ∷ [])
    ∷ rule "provider stream cut" (10000 ∷ 30000 ∷ [])
    ∷ rule "provider stream stalled" (10000 ∷ 30000 ∷ [])
    ∷ rule "Claude Code stream cut" (10000 ∷ 30000 ∷ [])
    ∷ rule "Claude Code process died" (10000 ∷ 30000 ∷ [])
    ∷ rule "provider overloaded" (30000 ∷ 90000 ∷ [])
    ∷ []

pub record TransientFailure : Type 0 where
  pub reason : String
  pub delay_ms : ℕ

-- The delay of an attempt, or the last one; every rule has one.
abbrev pub delay_at : Rule → ℕ → ℕ
delay_at r attempt = or_else (get_elem? r.delays_ms (min attempt (length r.delays_ms - 1))) 0

abbrev pub retried : Rule → ℕ → Option TransientFailure
retried r attempt =
    if str_eq r.reason codex_reply_limit_reason && leb 1 attempt
    then none
    else some (record { reason = r.reason; delay_ms = delay_at r attempt })

-- The first rule that matches decides.
unfoldable pub first_rule : (ℕ → Bool) → ℕ → List Rule → ℕ → Option TransientFailure
first_rule matches i [] attempt = none
first_rule matches i (r ∷ rest) attempt =
    let later = first_rule matches (suc i) rest attempt in
    if matches i then retried r attempt else later

unfoldable pub transient_failure :
    (String → Bool) → (ℕ → String → Bool) → Option String → ℕ → Option TransientFailure
unfolding first_rule
transient_failure never matches none attempt = none
transient_failure never matches (some text) attempt =
    if str_eq text "" || leb max_auto_resumes attempt || never text
    then none
    else first_rule (λ i. matches i text) 0 transient attempt

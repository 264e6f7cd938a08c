-- ===== src/AutoResume/Bounds.antt =====
-- When src/subagents/auto-resume.ts resumes, and the delays that it asks for.
use steak_pi.Prelude.{
  ℕ, zero, suc, ◌≤◌, ◌<◌, String, ◌≡◌, subst, inl, inr, Bool, false, ◌&&◌, ◌||◌, Option, none, some,
  List, [], ◌∷◌, arith, leb, if◌then◌else◌, Bool-cases, All, str_eq, str_eq_iff,
}
use steak_pi.AutoResume.{
  max_auto_resumes, codex_reply_limit_reason, Rule, transient, TransientFailure, delay_at, retried,
  first_rule, transient_failure,
}

-- The delay is between five seconds and two minutes, and a Codex reply limit is resumed only once.
abbrev pub IsPaced : ℕ → TransientFailure → Type 0
IsPaced attempt f =
    (5000 ≤ f.delay_ms)
    × (f.delay_ms ≤ 120000)
    × (f.reason ≡ codex_reply_limit_reason → attempt ≡ 0)

abbrev InPace : ℕ → Rule → Type 0
InPace attempt r = (5000 ≤ delay_at r attempt) × (delay_at r attempt ≤ 120000)

delays-InPace : (attempt : ℕ) → attempt < 2 → All (InPace attempt) transient
delays-InPace zero h = (
  (omega arith, omega arith),
  (
    (omega arith, omega arith),
    (
      (omega arith, omega arith),
      (
        (omega arith, omega arith),
        (
          (omega arith, omega arith),
          (
            (omega arith, omega arith),
            ((omega arith, omega arith), ((omega arith, omega arith), tt)),
          ),
        ),
      ),
    ),
  ),
)
delays-InPace (suc zero) h = (
  (omega arith, omega arith),
  (
    (omega arith, omega arith),
    (
      (omega arith, omega arith),
      (
        (omega arith, omega arith),
        (
          (omega arith, omega arith),
          (
            (omega arith, omega arith),
            ((omega arith, omega arith), ((omega arith, omega arith), tt)),
          ),
        ),
      ),
    ),
  ),
)
delays-InPace (suc (suc n)) h = absurd (omega arith)

-- If the failure is resumed, it is paced.
abbrev Paced : ℕ → Option TransientFailure → Type 0
Paced attempt none = Unit
Paced attempt (some f) = IsPaced attempt f

only_first :
    (reason : String) (attempt : ℕ)
    → str_eq reason codex_reply_limit_reason && leb 1 attempt ≡ false
    → reason ≡ codex_reply_limit_reason
    → attempt ≡ 0
only_first reason attempt e same =
    ground (arith, (str_eq_iff reason codex_reply_limit_reason).1 same)

retried-Paced : (r : Rule) (attempt : ℕ) → InPace attempt r → Paced attempt (retried r attempt)
retried-Paced r attempt pace =
    elim (Bool-cases (str_eq r.reason codex_reply_limit_reason && leb 1 attempt)) [
      | inl e ↦ rw e tt
      | inr e ↦ rw e (pace.0, pace.1, only_first r.reason attempt e)
    ]

first_rule-IsPaced :
    (matches : ℕ → Bool) (i : ℕ) (rules : List Rule) (attempt : ℕ) (f : TransientFailure)
    → All (InPace attempt) rules
    → first_rule matches i rules attempt ≡ some f
    → IsPaced attempt f
unfolding first_rule
first_rule-IsPaced matches i [] attempt f pace e = cc
first_rule-IsPaced matches i (r ∷ rest) attempt f pace e = elim (Bool-cases (matches i)) [
  | inl hit ↦
      subst (Paced attempt)
        (subst
          (λ b. (if b then retried r attempt else first_rule matches (suc i) rest attempt) ≡ some f)
          hit e)
        (retried-Paced r attempt pace.0)
  | inr miss ↦ first_rule-IsPaced matches (suc i) rest attempt f pace.1 (
      subst
        (λ b. (if b then retried r attempt else first_rule matches (suc i) rest attempt) ≡ some f)
        miss e)
]

-- A failure is resumed at most twice, never where its text is one that must not be retried, and after
-- a delay between five seconds and two minutes; a Codex reply limit is resumed only once.
pub transient_failure-IsPaced :
    (never : String → Bool) (matches : ℕ → String → Bool) (text : String) (attempt : ℕ)
    (f : TransientFailure)
    → transient_failure never matches (some text) attempt ≡ some f
    → (attempt < max_auto_resumes) × (never text ≡ false) × IsPaced attempt f
unfolding transient_failure
transient_failure-IsPaced never matches text attempt f e =
    elim (Bool-cases (str_eq text "" || leb max_auto_resumes attempt || never text)) [
      | inl stop ↦ absurd (
          cc (
            subst
              (λ b.
                (if b then none else first_rule (λ i. matches i text) 0 transient attempt) ≡ some f)
              stop e))
      | inr go ↦
          let early : attempt < 2 = ground arith in
          (
            early,
            ground arith,
            first_rule-IsPaced (λ i. matches i text) 0 transient attempt f
                (delays-InPace attempt early)
                (subst
                  (λ b.
                    (if b then none else first_rule (λ i. matches i text) 0 transient attempt)
                    ≡ some f)
                  go e),
          )
    ]

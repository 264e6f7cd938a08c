-- ===== src/AutoResume/Tests.antt =====
-- A network drop in src/subagents/auto-resume.ts.
use steak_pi.Prelude.{ℕ, ◌<◌, String, ◌≡◌, refl, Bool, false, some, ◌==◌}
use steak_pi.AutoResume.{max_auto_resumes, TransientFailure, transient_failure}
use steak_pi.AutoResume.Bounds.{IsPaced, transient_failure-IsPaced}

-- Only the third rule matches, as for a connection that was reset.
abbrev reset_only : ℕ → String → Bool
reset_only i text = i == 2

abbrev nothing_final : String → Bool
nothing_final text = false

abbrev dropped : TransientFailure
dropped = record { reason = "network drop"; delay_ms = 30000 }

reset-dropped : transient_failure nothing_final reset_only (some "ECONNRESET") 1 ≡ some dropped
unfolding transient_failure
reset-dropped = refl

transient_failure-IsPaced_example :
    (1 < max_auto_resumes) × (nothing_final "ECONNRESET" ≡ false) × IsPaced 1 dropped
transient_failure-IsPaced_example =
    transient_failure-IsPaced nothing_final reset_only "ECONNRESET" 1 dropped reset-dropped

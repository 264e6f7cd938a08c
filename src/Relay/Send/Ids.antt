-- ===== src/Relay/Send/Ids.antt =====
-- The ids of envelopes in src/subagents/relay.ts: different numbers of a run give different ids.
use steak_pi.Prelude.{
  ℕ, zero, suc, ◌+◌, ◌-◌, ◌*◌, ◌≤◌, ◌<◌, String, ◌≡◌, sym, ap, ◌∙◌, inl, inr, arith, ltb,
  Bool-cases, decimal, decimal-digit, decimal-step,
}
use Prim.Native.Nat.{◌/◌, ◌%◌}
use Prim.Native.Char.{code}
use Prim.Native.String.{◌++◌ as concat}
use text.Mathlib.TextLemmas.{nil-append, cons-append, append_assoc, append_cancel_left}

-- `${run.id}:${seq}`.
abbrev pub id_at : String → ℕ → String
id_at run_id seq = concat run_id (concat ":" (decimal seq))

value_of : ℕ → String → ℕ
value_of m String.[] = m
value_of m (String.◌∷◌ c s) = value_of (m * 10 + (code c - 48)) s

value_of-digit :
    (m d : ℕ) (t : String) → d < 10 → value_of m (concat (decimal d) t) ≡ value_of (m * 10 + d) t
unfolding value_of
value_of-digit m d t lt =
    let (c, k, e) = decimal-digit d lt in
    ap (λ s. value_of m (concat s t)) e
    ∙ ap (value_of m) (cons-append c "" t ∙ ap (String.◌∷◌ c) (nil-append t))
    ∙ ap (λ x. value_of x t) (omega (arith, k))

value_of-decimal :
    (fuel n : ℕ) (t : String) → n < fuel → value_of 0 (concat (decimal n) t) ≡ value_of n t
value_of-decimal zero n t lt = absurd (omega arith)
value_of-decimal (suc fuel) n t lt = elim (Bool-cases (ltb n 10)) [
  | inl e ↦ value_of-digit 0 n t (ground arith) ∙ ap (λ x. value_of x t) (omega arith)
  | inr e ↦
      let large : 10 ≤ n = ground arith in
      ap (λ s. value_of 0 (concat s t)) (decimal-step n large)
      ∙ ap (value_of 0) (append_assoc (decimal (n / 10)) (decimal (n % 10)) t)
      ∙ value_of-decimal fuel (n / 10) (concat (decimal (n % 10)) t) (omega arith)
      ∙ value_of-digit (n / 10) (n % 10) t (omega arith)
      ∙ ap (λ x. value_of x t) (omega arith)
]

decimal_injective : (m n : ℕ) → decimal m ≡ decimal n → m ≡ n
unfolding value_of
decimal_injective m n e =
    sym (value_of-decimal (suc m) m "" (omega arith))
    ∙ ap (λ s. value_of 0 (concat s "")) e
    ∙ value_of-decimal (suc n) n "" (omega arith)

pub id_at_injective : (run_id : String) (m n : ℕ) → id_at run_id m ≡ id_at run_id n → m ≡ n
id_at_injective run_id m n e = decimal_injective m n (
    append_cancel_left ":" (decimal m) (decimal n)
      (append_cancel_left run_id (concat ":" (decimal m)) (concat ":" (decimal n)) e))

-- ===== src/MachineSlots/Tickets.antt =====
-- The FIFO tickets of src/subagents/machine-slots.ts: how a ticket is named and numbered.
use Prim.Native.Nat.{◌/◌, ◌%◌}
use steak_pi.Prelude.{
  ℕ, zero, suc, ◌+◌, ◌-◌, ◌*◌, ◌≤◌, ◌<◌, max, String, ◌≡◌, refl, sym, ap, ◌∙◌, subst, inl, inr,
  Bool, true, false, not, ◌&&◌, ◌||◌, Option, none, some, List, [], ◌∷◌, arith, ltb, leb, ◌==◌,
  if◌then◌else◌, Bool-cases, and_true, get_elem?, str_eq, decimal, decimal-digit, decimal-step,
}
use Prim.Native.Char.{Char, code}
use Prim.Native.String.{◌++◌ as concat}
use text.Mathlib.TextLemmas.{nil-append, cons-append, append_assoc}

-- A character of `[a-f0-9-]`.
abbrev pub is_hex_dash : ℕ → Bool
is_hex_dash c = (leb 97 c && leb c 102) || (leb 48 c && leb c 57) || c == 45

-- What `[a-f0-9-]+\.ticket$` matches, after some characters of the class or none.
unfoldable pub ends_ticket : Bool → String → Bool
ends_ticket some_read String.[] = false
ends_ticket some_read (String.◌∷◌ c s) =
    let rest = ends_ticket true s in
    if is_hex_dash (code c) then rest else some_read && str_eq (String.◌∷◌ c s) ".ticket"

abbrev pub max_safe_integer : ℕ
max_safe_integer = 9007199254740991

-- The digits, the dash and the end of a name, after the digits that have been read.
unfoldable pub number_after : ℕ → Bool → String → Option ℕ
number_after n some_read String.[] = none
number_after n some_read (String.◌∷◌ c s) =
    let more = number_after (n * 10 + (code c - 48)) true s in
    if leb 48 (code c) && leb (code c) 57
    then more
    else if some_read && code c == 45 && ends_ticket false s
    then (if ltb 0 n && leb n max_safe_integer then some n else none)
    else none

abbrev pub ticket_number : String → Option ℕ
ticket_number name = number_after 0 false name

abbrev pub ticket_name : ℕ → String → String
ticket_name number nonce = concat (decimal number) (concat "-" (concat nonce ".ticket"))

-- The number that a new ticket takes: more than every ticket that the directory lists.
abbrev pub above : Option ℕ → ℕ → ℕ
above none number = number
above (some previous) number = max number (previous + 1)

unfoldable pub next_number : ℕ → List String → ℕ
next_number number [] = number
next_number number (name ∷ names) = next_number (above (ticket_number name) number) names

unfoldable pub is_nonce : String → Bool
is_nonce String.[] = true
is_nonce (String.◌∷◌ c s) = is_hex_dash (code c) && is_nonce s

-- The number of a new ticket in a directory with these names, or the error that the range is exhausted.
unfoldable pub fresh_number : List String → Option ℕ
fresh_number names =
    let number = next_number 1 names in if leb number max_safe_integer then some number else none

one_char : (c : Char) (t : String) → concat (String.◌∷◌ c "") t ≡ String.◌∷◌ c t
one_char c t = cons-append c "" t ∙ ap (String.◌∷◌ c) (nil-append t)

number-digit :
    (m : ℕ) (b : Bool) (c : Char) (d : ℕ) (t : String)
    → code c ≡ 48 + d
    → d < 10
    → number_after m b (String.◌∷◌ c t) ≡ number_after (m * 10 + d) true t
unfolding number_after
number-digit m b c d t k lt =
    let test : leb 48 (code c) && leb (code c) 57 ≡ true = ground arith in
    rw test (ap (λ x. number_after (m * 10 + x) true t) (omega arith))

number-decimal_digit :
    (m : ℕ) (b : Bool) (d : ℕ) (t : String)
    → d < 10
    → number_after m b (concat (decimal d) t) ≡ number_after (m * 10 + d) true t
number-decimal_digit m b d t lt =
    let (c, k, e) = decimal-digit d lt in
    ap (λ s. number_after m b (concat s t)) e
    ∙ ap (number_after m b) (one_char c t)
    ∙ number-digit m b c d t k lt

-- Reading a number that is written in decimal.
number-decimal :
    (fuel n : ℕ) (t : String)
    → n < fuel
    → number_after 0 false (concat (decimal n) t) ≡ number_after n true t
number-decimal zero n t lt = absurd (omega arith)
number-decimal (suc fuel) n t lt = elim (Bool-cases (ltb n 10)) [
  | inl e ↦
      number-decimal_digit 0 false n t (ground arith)
      ∙ ap (λ x. number_after x true t) (omega arith)
  | inr e ↦
      let large : 10 ≤ n = ground arith in
      ap (λ s. number_after 0 false (concat s t)) (decimal-step n large)
      ∙ ap (number_after 0 false) (append_assoc (decimal (n / 10)) (decimal (n % 10)) t)
      ∙ number-decimal fuel (n / 10) (concat (decimal (n % 10)) t) (omega arith)
      ∙ number-decimal_digit (n / 10) true (n % 10) t (omega arith)
      ∙ ap (λ x. number_after x true t) (omega arith)
]

ends-nonce :
    (b : Bool) (nonce : String)
    → is_nonce nonce ≡ true
    → b || not (str_eq nonce "") ≡ true
    → ends_ticket b (concat nonce ".ticket") ≡ true
unfolding is_nonce ends_ticket
ends-nonce true String.[] h e = ap (ends_ticket true) (nil-append ".ticket") ∙ refl
ends-nonce false String.[] h e = cc e
ends-nonce b (String.◌∷◌ c s) h e =
    let (hex, rest) = and_true (is_hex_dash (code c)) (is_nonce s) h in
    ap (ends_ticket b) (cons-append c s ".ticket") ∙ rw hex (ends-nonce true s rest refl)

number-end :
    (n : ℕ) (s : String)
    → 0 < n
    → n ≤ max_safe_integer
    → ends_ticket false s ≡ true
    → number_after n true (concat "-" s) ≡ some n
unfolding number_after
number-end n s pos safe ends =
    ap (number_after n true) (one_char _ s) ∙ rw ends (rw (in_range n pos safe) refl)
  where
    in_range : (n : ℕ) → 0 < n → n ≤ max_safe_integer → ltb 0 n && leb n max_safe_integer ≡ true
    in_range n p q = ground arith

-- The name of a ticket whose number is positive and safe, and whose nonce is not empty and only of
-- characters of a UUID, is read back as its number.
pub ticket_number-ticket_name :
    (n : ℕ) (nonce : String)
    → 0 < n
    → n ≤ max_safe_integer
    → is_nonce nonce ≡ true
    → str_eq nonce "" ≡ false
    → ticket_number (ticket_name n nonce) ≡ some n
ticket_number-ticket_name n nonce pos safe hex filled =
    number-decimal (suc n) n (concat "-" (concat nonce ".ticket")) (omega arith)
    ∙ number-end n (concat nonce ".ticket") pos safe (ends-nonce false nonce hex (ap not filled))

next_number-grows : (names : List String) (start : ℕ) → start ≤ next_number start names
unfolding next_number
next_number-grows [] start = omega arith
next_number-grows (name ∷ names) start =
    let h = next_number-grows names (above (ticket_number name) start) in
    let g = above-grows (ticket_number name) start in omega arith
  where
    above-grows : (o : Option ℕ) (start : ℕ) → start ≤ above o start
    above-grows none start = omega arith
    above-grows (some m) start = omega arith

above-exceeds : (o : Option ℕ) (start n : ℕ) → o ≡ some n → n < above o start
above-exceeds none start n e = cc e
above-exceeds (some m) start n e = let same : m ≡ n = cc e in omega arith

next_number_exceeds :
    (names : List String) (start i n : ℕ) (name : String)
    → get_elem? names i ≡ some name
    → ticket_number name ≡ some n
    → n < next_number start names
unfolding next_number
next_number_exceeds [] start i n name at e = cc
next_number_exceeds (x ∷ names) start zero n name at e =
    let h = next_number-grows names (above (ticket_number x) start) in
    let more = above-exceeds (ticket_number x) start n (cc (at, e)) in omega arith
next_number_exceeds (x ∷ names) start (suc i) n name at e =
    next_number_exceeds names (above (ticket_number x) start) i n name at e

-- A ticket of a safe positive number that the directory lists has a smaller number than the one that is
-- taken after it.
pub fresh_number_later :
    (names : List String) (i n m : ℕ) (nonce : String)
    → 0 < n
    → n ≤ max_safe_integer
    → is_nonce nonce ≡ true
    → str_eq nonce "" ≡ false
    → get_elem? names i ≡ some (ticket_name n nonce)
    → fresh_number names ≡ some m
    → n < m
unfolding fresh_number
fresh_number_later names i n m nonce pos safe hex filled at e =
    let less =
      next_number_exceeds names 1 i n (ticket_name n nonce) at
        (ticket_number-ticket_name n nonce pos safe hex filled) in
    elim (Bool-cases (leb (next_number 1 names) max_safe_integer)) [
      | inl fits ↦
          let same : some (next_number 1 names) ≡ some m = sym (rw fits refl) ∙ e in
          subst (λ k. n < k) (some_inj _ m same) less
      | inr over ↦ absurd (none_some m (sym (rw over refl) ∙ e))
    ]
  where
    none_some : (m : ℕ) → none ≡ some m → ⊥
    none_some m e = cc e

    some_inj : (a b : ℕ) → some a ≡ some b → a ≡ b
    some_inj a b e = cc e

-- ===== src/Prelude/Text.antt =====
-- What the program uses of JavaScript strings, over native text.
use Prim.Native.Nat.{ℕ, zero, suc, ◌+◌, ◌/◌, ◌%◌, ◌<◌, ◌≤◌}
use native.Mathlib.Omega.{arith}
use Prim.Native.Char.{Char, code}
use Prim.Native.String.{String, ◌++◌}
use mathlib.Core.Path.{◌≡◌, refl, sym, subst}
use mathlib.Core.Logic.{◌⊎◌, inl, inr}
use mathlib.Core.Bool.{Bool, true, false, ◌&&◌, ◌||◌}
use mathlib.Core.List.{List, [], ◌∷◌}
use text.Mathlib.Text.{◌==◌}
use text.Mathlib.TextEquality.{eq_iff}
use text.Mathlib.TextPositions.{eq_refl}
use steak_pi.Prelude.Tests.{leb, ◌==◌ as nat_beq, if◌then◌else◌}

-- `s === t`.
abbrev pub str_eq : String → String → Bool
str_eq s t = s == t

pub str_eq_iff : (s t : String) → (str_eq s t ≡ true → s ≡ t) × (s ≡ t → str_eq s t ≡ true)
str_eq_iff s t = eq_iff s t

pub str_eq_refl : (s : String) → str_eq s s ≡ true
str_eq_refl s = eq_refl s

-- The characters that `trim` removes: white space and line ends of ECMAScript.
unfoldable pub is_space : ℕ → Bool
is_space c =
    (leb 9 c && leb c 13)
    || nat_beq c 32
    || nat_beq c 160
    || nat_beq c 5760
    || (leb 8192 c && leb c 8202)
    || nat_beq c 8232
    || nat_beq c 8233
    || nat_beq c 8239
    || nat_beq c 8287
    || nat_beq c 12288
    || nat_beq c 65279

-- `s.trimStart()`.
trim_start : String → String
unfolding is_space
trim_start String.[] = ""
trim_start (String.◌∷◌ c s) = if is_space (code c) then trim_start s else String.◌∷◌ c s

-- `s.trim().length === 0`.
unfoldable pub is_blank : String → Bool
unfolding is_space
is_blank String.[] = true
is_blank (String.◌∷◌ c s) = is_space (code c) && is_blank s

trim_end : String → String
unfolding is_blank
trim_end String.[] = ""
trim_end (String.◌∷◌ c s) =
    let rest = trim_end s in if is_space (code c) && is_blank s then "" else String.◌∷◌ c rest

-- `s.trim()`.
unfoldable pub trim : String → String
unfolding trim_start trim_end
trim s = trim_end (trim_start s)

-- `s.length`: UTF-16 units.
unfoldable pub units : String → ℕ
units String.[] = 0
units (String.◌∷◌ c s) = (if leb 65536 (code c) then 2 else 1) + units s

digit : ℕ → String
digit n =
    if nat_beq n 0
    then "0"
    else if nat_beq n 1
    then "1"
    else if nat_beq n 2
    then "2"
    else if nat_beq n 3
    then "3"
    else if nat_beq n 4
    then "4"
    else if nat_beq n 5
    then "5"
    else if nat_beq n 6
    then "6"
    else if nat_beq n 7
    then "7"
    else if nat_beq n 8
    then "8"
    else "9"

decimal_from : ℕ → ℕ → String
unfolding digit
decimal_from zero n = ""
decimal_from (suc fuel) n =
    let front = decimal_from fuel (n / 10) in if leb 10 n then front ++ digit (n % 10) else digit n

-- `String(n)`; the fuel is more than the number of digits.
unfoldable pub decimal : ℕ → String
unfolding decimal_from
decimal n = decimal_from (suc n) n

decimal_from-fuel : (f g n : ℕ) → n < f → n < g → decimal_from f n ≡ decimal_from g n
unfolding decimal_from
decimal_from-fuel zero g n h k = elim h [ ]
decimal_from-fuel (suc f) zero n h k = elim k [ ]
decimal_from-fuel (suc f) (suc g) n h k = ground (arith, decimal_from-fuel f g (n / 10))

digit-cases : (d : ℕ) → d < 10 → (c : Char) × (code c ≡ 48 + d) × (digit d ≡ String.◌∷◌ c "")
unfolding digit
digit-cases d lt = elim (below_ten d lt) [
  | inl e ↦ subst Shown (sym e) (_, refl, refl)
  | inr (inl e) ↦ subst Shown (sym e) (_, refl, refl)
  | inr (inr (inl e)) ↦ subst Shown (sym e) (_, refl, refl)
  | inr (inr (inr (inl e))) ↦ subst Shown (sym e) (_, refl, refl)
  | inr (inr (inr (inr (inl e)))) ↦ subst Shown (sym e) (_, refl, refl)
  | inr (inr (inr (inr (inr (inl e))))) ↦ subst Shown (sym e) (_, refl, refl)
  | inr (inr (inr (inr (inr (inr (inl e)))))) ↦ subst Shown (sym e) (_, refl, refl)
  | inr (inr (inr (inr (inr (inr (inr (inl e))))))) ↦ subst Shown (sym e) (_, refl, refl)
  | inr (inr (inr (inr (inr (inr (inr (inr (inl e)))))))) ↦ subst Shown (sym e) (_, refl, refl)
  | inr (inr (inr (inr (inr (inr (inr (inr (inr (e))))))))) ↦ subst Shown (sym e) (_, refl, refl)
]
  where
    Shown : ℕ → Type 0
    Shown d = (c : Char) × (code c ≡ 48 + d) × (digit d ≡ String.◌∷◌ c "")

    below_ten :
        (d : ℕ)
        → d < 10
        → (d ≡ 0)
          ⊎ ((d ≡ 1)
              ⊎ ((d ≡ 2)
                  ⊎ ((d ≡ 3)
                      ⊎ ((d ≡ 4) ⊎ ((d ≡ 5) ⊎ ((d ≡ 6) ⊎ ((d ≡ 7) ⊎ ((d ≡ 8) ⊎ ((d ≡ 9))))))))))
    below_ten d lt = omega arith

-- A single digit is one character.
pub decimal-digit :
    (d : ℕ) → d < 10 → (c : Char) × (code c ≡ 48 + d) × (decimal d ≡ String.◌∷◌ c "")
unfolding decimal decimal_from
decimal-digit d lt =
    let (c, k, e) = digit-cases d lt in
    let small : leb 10 d ≡ false = ground arith in (c, k, rw small e)

-- The last digit is the remainder by ten, the others are those of the quotient.
pub decimal-step : (n : ℕ) → 10 ≤ n → decimal n ≡ decimal (n / 10) ++ decimal (n % 10)
unfolding decimal decimal_from
decimal-step n h = ground (arith, decimal_from-fuel n (suc (n / 10)) (n / 10))

-- `lines.join("\n")`.
unfoldable pub join_lines : List String → String
join_lines [] = ""
join_lines (l ∷ []) = l
join_lines (l ∷ m ∷ rest) = l ++ "\n" ++ join_lines (m ∷ rest)

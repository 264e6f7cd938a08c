-- ===== src/Prelude/Lists.antt =====
-- Lists measured, indexed and searched by native numbers and Boolean tests.
use Prim.Native.Nat.{ℕ, zero, suc, ◌+◌, ◌<◌, ◌≤◌}
use mathlib.Core.Path.{◌≡◌, refl, ap}
use mathlib.Core.Bool.{Bool, true, false, ◌&&◌, ◌||◌}
use mathlib.Core.Logic.{◌⊎◌, inl, inr}
use mathlib.Core.List.{map, List, [], ◌∷◌, ◌++◌}
use mathlib.Core.Option.{Option, none, some}
use native.Mathlib.Omega.{arith}
use steak_pi.Prelude.Tests.{if◌then◌else◌, Bool-cases}

module _ {ℓ} {A : Type ℓ} where
  abbrev pub length : List A → ℕ
  length [] = 0
  length (x ∷ xs) = suc (length xs)

  abbrev pub get_elem? : List A → ℕ → Option A
  get_elem? [] i = none
  get_elem? (x ∷ xs) zero = some x
  get_elem? (x ∷ xs) (suc i) = get_elem? xs i

  -- Change one entry; out of bounds nothing happens.
  abbrev pub modify : List A → ℕ → (A → A) → List A
  modify [] i f = []
  modify (x ∷ xs) zero f = f x ∷ xs
  modify (x ∷ xs) (suc i) f = x ∷ modify xs i f

  -- `xs.splice(i, 1)`.
  abbrev pub remove_at : List A → ℕ → List A
  remove_at [] i = []
  remove_at (x ∷ xs) zero = xs
  remove_at (x ∷ xs) (suc i) = x ∷ remove_at xs i

  -- `xs.some(p)`.
  abbrev pub any : (A → Bool) → List A → Bool
  any p [] = false
  any p (x ∷ xs) = p x || any p xs

  -- `xs.every(p)`.
  abbrev pub all : (A → Bool) → List A → Bool
  all p [] = true
  all p (x ∷ xs) = p x && all p xs

  -- `xs.filter(p)`.
  abbrev pub keep : (A → Bool) → List A → List A
  keep p [] = []
  keep p (x ∷ xs) = if p x then x ∷ keep p xs else keep p xs

  -- `xs.filter(p).length`.
  abbrev pub count : (A → Bool) → List A → ℕ
  count p [] = 0
  count p (x ∷ xs) = if p x then suc (count p xs) else count p xs

  -- `xs.find(p)`.
  abbrev pub find : (A → Bool) → List A → Option A
  find p [] = none
  find p (x ∷ xs) = if p x then some x else find p xs

  -- `xs.findIndex(p)`, counting from `i`.
  abbrev pub find_index : (A → Bool) → ℕ → List A → Option ℕ
  find_index p i [] = none
  find_index p i (x ∷ xs) = if p x then some i else find_index p (suc i) xs

  -- A predicate of every entry.
  abbrev pub All {κ} : (A → Type κ) → List A → Type κ
  All P [] = Unit
  All P (x ∷ xs) = P x × All P xs

module _ {ℓ} {A : Type ℓ} where
  pub length-append : (xs ys : List A) → length (xs ++ ys) ≡ length xs + length ys
  length-append [] ys = omega arith
  length-append (x ∷ xs) ys = omega (arith, length-append xs ys)

  pub count-append : (p : A → Bool) (xs ys : List A) → count p (xs ++ ys) ≡ count p xs + count p ys
  count-append p [] ys = omega arith
  count-append p (x ∷ xs) ys = ground (arith, count-append p xs ys)

  pub length-modify : (xs : List A) (i : ℕ) (f : A → A) → length (modify xs i f) ≡ length xs
  length-modify [] i f = refl
  length-modify (x ∷ xs) zero f = refl
  length-modify (x ∷ xs) (suc i) f = ap suc (length-modify xs i f)

  pub All-append {κ} : (P : A → Type κ) (xs ys : List A) → All P xs → All P ys → All P (xs ++ ys)
  All-append P [] ys h k = k
  All-append P (x ∷ xs) ys h k = (h.0, All-append P xs ys h.1 k)

-- One when the test holds.
abbrev pub weight : Bool → ℕ
weight true = 1
weight false = 0

module _ {ℓ} {A : Type ℓ} where
  -- A changed entry changes a count by that entry alone.
  pub count-modify :
      (p : A → Bool) (xs : List A) (i : ℕ) (f : A → A) (x : A)
      → get_elem? xs i ≡ some x
      → count p (modify xs i f) + weight (p x) ≡ count p xs + weight (p (f x))
  count-modify p [] i f x h = cc
  count-modify p (y ∷ ys) zero f x h = ground arith
  count-modify p (y ∷ ys) (suc i) f x h = ground (arith, count-modify p ys i f x h)

  pub keep-append : (p : A → Bool) (xs ys : List A) → keep p (xs ++ ys) ≡ keep p xs ++ keep p ys
  keep-append p [] ys = refl
  keep-append p (x ∷ xs) ys = ground (arith, keep-append p xs ys)

module _ {ℓ κ μ} {A : Type ℓ} {P : A → Type κ} {Q : A → Type μ} where
  pub All-map : (xs : List A) → ((x : A) → P x → Q x) → All P xs → All Q xs
  All-map [] f h = tt
  All-map (x ∷ xs) f h = (f x h.0, All-map xs f h.1)

module _ {ℓ} {A : Type ℓ} where
  -- Where a relation holds of an entry and itself, every entry finds one that it relates to.
  pub any_self :
      (test : A → Bool) (related : A → A → Bool) (xs : List A)
      → ((x : A) → test x ≡ true → related x x ≡ true)
      → All (λ x. test x ≡ true → any (related x) xs ≡ true) xs
  any_self test related [] h = tt
  any_self test related (x ∷ xs) h = (
    λ t. ground (arith, h x t),
    All-map xs (λ y f t. ground (arith, f t)) (any_self test related xs h),
  )

  -- What a search misses, every entry fails.
  pub All-of_not-any : (p : A → Bool) (xs : List A) → any p xs ≡ false → All (λ x. p x ≡ false) xs
  All-of_not-any p [] h = tt
  All-of_not-any p (x ∷ xs) h = (ground arith, All-of_not-any p xs (ground arith))

  pub All-zip {κ μ ν} :
      {P : A → Type κ} {Q : A → Type μ} {R : A → Type ν} (xs : List A)
      → ((x : A) → P x → Q x → R x)
      → All P xs
      → All Q xs
      → All R xs
  All-zip [] f h k = tt
  All-zip (x ∷ xs) f h k = (f x h.0 k.0, All-zip xs f h.1 k.1)

-- False, at any level.
pub data Never {ℓ} : Type ℓ where

module _ {ℓ} {A : Type ℓ} where
  -- Some entry of the list is equal to this one.
  abbrev pub Inside : A → List A → Type ℓ
  Inside a [] = Never
  Inside a (x ∷ xs) = (a ≡ x) ⊎ Inside a xs

  pub Inside-append_left : (a : A) (xs ys : List A) → Inside a xs → Inside a (xs ++ ys)
  Inside-append_left a [] ys h = elim h [ ]
  Inside-append_left a (x ∷ xs) ys (inl e) = inl e
  Inside-append_left a (x ∷ xs) ys (inr h) = inr (Inside-append_left a xs ys h)

  pub Inside-append_right : (a : A) (xs ys : List A) → Inside a ys → Inside a (xs ++ ys)
  Inside-append_right a [] ys h = h
  Inside-append_right a (x ∷ xs) ys h = inr (Inside-append_right a xs ys h)

  -- Where `findIndex`, counting from `i`, finds an entry.
  pub find_index_found :
      (p : A → Bool) (i : ℕ) (xs : List A) (j : ℕ)
      → find_index p i xs ≡ some j
      → (k : ℕ) × (x : A) × (j ≡ i + k) × (get_elem? xs k ≡ some x) × (p x ≡ true)
  find_index_found p i [] j h = cc
  find_index_found p i (x ∷ xs) j h = elim (Bool-cases (p x)) [
    | inl hit ↦ (0, x, ground arith, refl, hit)
    | inr miss ↦
        let (k, y, e, at, holds) = find_index_found p (suc i) xs j (ground arith) in
        (suc k, y, omega (arith, e), at, holds)
  ]

  pub find_index-none :
      (p : A → Bool) (i : ℕ) (xs : List A)
      → find_index p i xs ≡ none
      → (k : ℕ) (x : A) → get_elem? xs k ≡ some x
      → p x ≡ false
  find_index-none p i [] h k x e = cc
  find_index-none p i (y ∷ ys) h zero x e = ground arith
  find_index-none p i (y ∷ ys) h (suc k) x e = find_index-none p (suc i) ys (ground arith) k x e

module _ {ℓ} {A : Type ℓ} (p : A → Bool) where
  -- A change to an entry that then fails the test does not raise the count.
  pub count-modify_le :
      (xs : List A) (i : ℕ) (f : A → A)
      → ((x : A) → p (f x) ≡ false)
      → count p (modify xs i f) ≤ count p xs
  count-modify_le [] i f h = omega arith
  count-modify_le (x ∷ xs) zero f h = ground (arith, h x)
  count-modify_le (x ∷ xs) (suc i) f h = ground (arith, count-modify_le xs i f h)

  pub count-remove_at_le : (xs : List A) (i : ℕ) → count p (remove_at xs i) ≤ count p xs
  count-remove_at_le [] i = omega arith
  count-remove_at_le (x ∷ xs) zero = ground arith
  count-remove_at_le (x ∷ xs) (suc i) = ground (arith, count-remove_at_le xs i)

  pub count-map_zero {κ} :
      {B : Type κ} (f : B → A) (ys : List B) → ((y : B) → p (f y) ≡ false) → count p (map f ys) ≡ 0
  count-map_zero f [] h = refl
  count-map_zero f (y ∷ ys) h = ground (arith, h y, count-map_zero f ys h)

  pub count_of_not-any : (xs : List A) → any p xs ≡ false → count p xs ≡ 0
  count_of_not-any [] h = refl
  count_of_not-any (x ∷ xs) h = ground (arith, count_of_not-any xs)

  pub any_of_count : (xs : List A) → 0 < count p xs → any p xs ≡ true
  any_of_count [] h = absurd (omega arith)
  any_of_count (x ∷ xs) h = ground (arith, any_of_count xs)

module _ {ℓ} {A : Type ℓ} where
  abbrev pub take : ℕ → List A → List A
  take zero xs = []
  take (suc n) [] = []
  take (suc n) (x ∷ xs) = x ∷ take n xs

  abbrev pub drop : ℕ → List A → List A
  drop zero xs = xs
  drop (suc n) [] = []
  drop (suc n) (x ∷ xs) = drop n xs

  -- The entries from the first that fails the test on.
  abbrev pub drop_while : (A → Bool) → List A → List A
  drop_while p [] = []
  drop_while p (x ∷ xs) = if p x then drop_while p xs else x ∷ xs

  -- How many entries precede the first that passes the test.
  abbrev pub count_before : (A → Bool) → List A → ℕ
  count_before p [] = 0
  count_before p (x ∷ xs) = if p x then 0 else suc (count_before p xs)

  pub take-append-drop : (n : ℕ) (xs : List A) → take n xs ++ drop n xs ≡ xs
  take-append-drop zero xs = refl
  take-append-drop (suc n) [] = refl
  take-append-drop (suc n) (x ∷ xs) = ap (λ (r : List A). x ∷ r) (take-append-drop n xs)

  pub length-take_le : (n : ℕ) (xs : List A) → length (take n xs) ≤ n
  length-take_le zero xs = omega arith
  length-take_le (suc n) [] = omega arith
  length-take_le (suc n) (x ∷ xs) = omega (arith, length-take_le n xs)

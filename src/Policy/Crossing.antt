-- ===== src/Policy/Crossing.antt =====
-- Tasks of one dispatch of src/subagents/policy.ts whose owned paths cross are the same task.
use steak_pi.Prelude.{
  ℕ, zero, suc, String, ◌≡◌, refl, sym, ap, ◌∙◌, subst, ◌⊎◌, inl, inr, Bool, true, false, not, ◌&&◌,
  ◌||◌, some, List, [], ◌∷◌, ◌++◌, arith, and_true, and_both, get_elem?, all, Inside,
  Inside-append_left, Inside-append_right,
}
use steak_pi.Policy.{Checked, World, Location, ok, rejected}
use steak_pi.Policy.Request.{TaskRecord, Owner}
use steak_pi.Policy.Paths.{is_within, physical_projection}
use steak_pi.Policy.Dispatch.{overlap}
use steak_pi.Policy.Disjoint.{lexicals, all_owned_paths, is_apart, AllPlaced}

-- Of two beginnings of a list one is a beginning of the other.
pub prefixes-compare :
    (a b xs ys : List String)
    → a ++ xs ≡ b ++ ys
    → ((rest : List String) × (b ≡ a ++ rest)) ⊎ ((rest : List String) × (a ≡ b ++ rest))
prefixes-compare [] b xs ys e = inl (b, refl)
prefixes-compare (x ∷ a) [] xs ys e = inr (x ∷ a, refl)
prefixes-compare (x ∷ a) (y ∷ b) xs ys e =
    let head : x ≡ y = cc e in
    let tail : a ++ xs ≡ b ++ ys = cc e in
    elim (prefixes-compare a b xs ys tail) [
      | inl (rest, f) ↦ inl (rest, cc (head, f))
      | inr (rest, f) ↦ inr (rest, cc (head, f))
    ]

module _ (w : World) where
  abbrev pub nested : String → String → Bool
  nested p q = is_within w p q || is_within w q p

  -- Where two paths resolve to.
  abbrev resolved_cross : Checked String → Checked String → Bool
  resolved_cross (ok a) (ok b) = nested a b
  resolved_cross (ok a) (rejected e) = false
  resolved_cross (rejected e) b = false

  -- One path lies below the other, as written or as resolved.
  abbrev pub crosses : String → String → Bool
  crosses p q = nested p q || resolved_cross (physical_projection w p) (physical_projection w q)

  abbrev pub IsLocated : Location → Type 0
  IsLocated l = physical_projection w l.lexical ≡ ok l.physical

  pub located-crosses :
      (a b : Location) → IsLocated a → IsLocated b → crosses a.lexical b.lexical ≡ overlap w a b
  located-crosses a b e f =
      ap (λ x. nested a.lexical b.lexical || resolved_cross x (physical_projection w b.lexical)) e
      ∙ ap (λ y. nested a.lexical b.lexical || resolved_cross (ok a.physical) y) f

  unfoldable pub apart_paths : List String → Bool
  apart_paths [] = true
  apart_paths (p ∷ ps) = all (λ q. not (crosses p q)) ps && apart_paths ps

  all-lexicals :
      (root : Location) (o : Owner) (os : List Owner)
      → IsLocated o.place
      → AllPlaced w root os
      → all (λ (p : Owner). not (overlap w o.place p.place)) os ≡ true
      → all (λ q. not (crosses o.place.lexical q)) (lexicals os) ≡ true
  all-lexicals root o [] at placed a = refl
  all-lexicals root o (p ∷ os) at placed a =
      let (first, rest) = and_true _ _ a in
      let same = located-crosses o.place p.place at (placed 0 p refl).2 in
      and_both _ _ (subst (λ b. not b ≡ true) (sym same) first)
        (all-lexicals root o os at (λ i. placed (suc i)) rest)

  pub lexicals-apart :
      (root : Location) (os : List Owner)
      → AllPlaced w root os
      → is_apart w os ≡ true
      → apart_paths (lexicals os) ≡ true
  unfolding is_apart apart_paths
  lexicals-apart root [] placed a = refl
  lexicals-apart root (o ∷ os) placed a =
      let (first, rest) = and_true _ _ a in
      and_both _ _ (all-lexicals root o os (placed 0 o refl).2 (λ i. placed (suc i)) first)
        (lexicals-apart root os (λ i. placed (suc i)) rest)

  all-Inside :
      (f : String → Bool) (xs : List String) (q : String)
      → all f xs ≡ true
      → Inside q xs
      → f q ≡ true
  all-Inside f [] q a h = elim h [ ]
  all-Inside f (x ∷ xs) q a (inl e) = subst (λ z. f z ≡ true) (sym e) (and_true _ _ a).0
  all-Inside f (x ∷ xs) q a (inr h) = all-Inside f xs q (and_true _ _ a).1 h

  apart-append :
      (xs ys : List String)
      → apart_paths (xs ++ ys) ≡ true
      → (apart_paths ys ≡ true)
        × ((p q : String) → Inside p xs → Inside q ys → not (crosses p q) ≡ true)
  unfolding apart_paths
  apart-append [] ys a = (a, λ p q h k. elim h [ ])
  apart-append (x ∷ xs) ys a =
      let (first, rest) = and_true _ _ a in
      let (tail, across) = apart-append xs ys rest in
      (
        tail,
        λ p q h k. elim h [
          | inl e ↦
              subst (λ z. not (crosses z q) ≡ true) (sym e)
                (all-Inside (λ y. not (crosses x y)) (xs ++ ys) q first
                  (Inside-append_right q xs ys k))
          | inr h' ↦ across p q h' k
        ],
      )

  pub owned-Inside :
      (ts : List TaskRecord) (i : ℕ) (t : TaskRecord) (p : String)
      → get_elem? ts i ≡ some t
      → Inside p t.owned_paths
      → Inside p (all_owned_paths ts)
  owned-Inside [] i t p at h = absurd (cc at)
  owned-Inside (u ∷ ts) zero t p at h =
      let same : u ≡ t = cc at in
      Inside-append_left p u.owned_paths (all_owned_paths ts)
        (subst (λ (z : TaskRecord). Inside p z.owned_paths) (sym same) h)
  owned-Inside (u ∷ ts) (suc i) t p at h =
      Inside-append_right p u.owned_paths (all_owned_paths ts) (owned-Inside ts i t p at h)

  or_swap : (x y : Bool) → x || y ≡ y || x
  or_swap x y = ground arith

  resolved_cross_swap : (x y : Checked String) → resolved_cross x y ≡ resolved_cross y x
  resolved_cross_swap (ok a) (ok b) = or_swap (is_within w a b) (is_within w b a)
  resolved_cross_swap (ok a) (rejected e) = refl
  resolved_cross_swap (rejected e) (ok b) = refl
  resolved_cross_swap (rejected e) (rejected f) = refl

  crosses_swap : (p q : String) → crosses p q ≡ true → crosses q p ≡ true
  crosses_swap p q e =
      ap (λ b. b || resolved_cross (physical_projection w q) (physical_projection w p))
        (or_swap (is_within w q p) (is_within w p q))
      ∙ ap (λ b. nested p q || b)
          (resolved_cross_swap (physical_projection w q) (physical_projection w p))
      ∙ e

  -- Tasks with owned paths that cross are the same task.
  pub crossing_tasks :
      (ts : List TaskRecord) (i j : ℕ) (s t : TaskRecord) (p q : String)
      → apart_paths (all_owned_paths ts) ≡ true
      → get_elem? ts i ≡ some s
      → get_elem? ts j ≡ some t
      → Inside p s.owned_paths
      → Inside q t.owned_paths
      → crosses p q ≡ true
      → i ≡ j
  crossing_tasks [] i j s t p q a e f h k c = absurd (cc e)
  crossing_tasks (u ∷ ts) zero zero s t p q a e f h k c = refl
  crossing_tasks (u ∷ ts) zero (suc j) s t p q a e f h k c =
      let same : u ≡ s = cc e in
      let mine = subst (λ (z : TaskRecord). Inside p z.owned_paths) (sym same) h in
      let free =
        (apart-append u.owned_paths (all_owned_paths ts) a).1 p q mine
          (owned-Inside ts j t q f k) in
      absurd (cc (free, c))
  crossing_tasks (u ∷ ts) (suc i) zero s t p q a e f h k c =
      let same : u ≡ t = cc f in
      let mine = subst (λ (z : TaskRecord). Inside q z.owned_paths) (sym same) k in
      let free =
        (apart-append u.owned_paths (all_owned_paths ts) a).1 q p mine
          (owned-Inside ts i s p e h) in
      absurd (cc (free, crosses_swap p q c))
  crossing_tasks (u ∷ ts) (suc i) (suc j) s t p q a e f h k c = ap suc (
      crossing_tasks ts i j s t p q (apart-append u.owned_paths (all_owned_paths ts) a).0 e f h k c)

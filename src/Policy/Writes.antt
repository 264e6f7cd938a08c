-- ===== src/Policy/Writes.antt =====
-- Who may write where: `assertOwnedPath` of src/subagents/policy.ts for the tasks of one dispatch.
use steak_pi.Prelude.{
  ℕ, String, ◌≡◌, refl, sym, ap, ◌∙◌, subst, inl, inr, Bool, true, false, not, ◌&&◌, ◌||◌, some,
  List, [], ◌∷◌, ◌++◌, arith, if◌then◌else◌, Bool-cases, and_true, get_elem?, any, Inside, str_eq,
  is_blank, trim,
}
use steak_pi.Policy.{
  bind_ok, ok_inj, guard_ok, Input, World, Location, not_nonempty, not_owned, ok, rejected, given,
}
use steak_pi.Policy.Request.{DispatchInput, TaskRecord, RunRecord, Names}
use steak_pi.Policy.Paths.{
  starts_with, comparable_path, is_within, physical_projection, path_under_cwd, locate_all,
  is_owner, assert_owned_path,
}
use steak_pi.Policy.Dispatch.{overlap, normalize_dispatch}
use steak_pi.Policy.Disjoint.{all_owned_paths, path_under_cwd-IsPlaced, normalize_dispatch-disjoint}
use steak_pi.Policy.Crossing.{
  prefixes-compare, nested, crosses, IsLocated, located-crosses, apart_paths, lexicals-apart,
  owned-Inside, crossing_tasks,
}

-- A relative path that does not lead upwards.
abbrev pub stays_below : World → String → Bool
stays_below w rel =
    str_eq rel ""
    || (not (starts_with "../" rel) && (not (str_eq rel "..") && not (w.is_absolute rel)))

module _ (w : World) where
  path_under_cwd-lexical :
      (root : Location) (p : String) (l : Location)
      → path_under_cwd w root (given p) ≡ ok l
      → l.lexical ≡ w.resolve root.lexical (trim p ∷ [])
  unfolding path_under_cwd
  path_under_cwd-lexical root p l h =
      let (supplied, e0, h0) = bind_ok _ _ l h in
      let (u1, e1, h1) = bind_ok _ _ l h0 in
      let (u2, e2, h2) = bind_ok _ _ l h1 in
      let (physical, e3, h3) = bind_ok _ _ l h2 in
      let (u4, e4, h4) = bind_ok _ _ l h3 in
      sym (ap (λ (z : Location). z.lexical) (ok_inj _ l h4))
      ∙ ap (λ s. w.resolve root.lexical (s ∷ [])) (trimmed (is_blank p) supplied e0)
    where
      trimmed :
          (blank : Bool) (s : String)
          → (if blank then rejected not_nonempty else ok (trim p)) ≡ ok s
          → s ≡ trim p
      trimmed true s e = absurd (cc e)
      trimmed false s e = sym (ok_inj _ s e)

  -- A path that the task owns, where it is now, owns the place.
  Owning : Location → Location → List String → Type 0
  Owning root candidate owned =
      (p : String) × (owner : Location) × Inside p owned
      × (owner.lexical ≡ w.resolve root.lexical (trim p ∷ []))
      × IsLocated w owner
      × (is_within w owner.physical candidate.physical ≡ true)

  owner_among :
      (root : Location) (candidate : Location) (owned : List String) (owners : List Location)
      → locate_all w root owned ≡ ok owners
      → any (is_owner w candidate) owners ≡ true
      → Owning root candidate owned
  unfolding Owning
  owner_among root candidate [] owners e a =
      absurd (cc (ap (any (is_owner w candidate)) (ok_inj _ owners e), a))
  owner_among root candidate (p ∷ ps) owners e a =
      let (first, e0, h0) = bind_ok _ _ owners e in
      let (rest, e1, h1) = bind_ok _ _ owners h0 in
      let both : is_owner w candidate first || any (is_owner w candidate) rest ≡ true =
        ap (any (is_owner w candidate)) (ok_inj _ owners h1) ∙ a in
      elim (Bool-cases (is_owner w candidate first)) [
        | inl here ↦ (
          p,
          first,
          inl refl,
          path_under_cwd-lexical root p first e0,
          (path_under_cwd-IsPlaced w root (given p) p first e0).2,
          (and_true _ _ here).1,
        )
        | inr other ↦
            let (q, owner, among, at, located, below) =
              owner_among root candidate ps rest e1 (rest_true _ _ both other) in
            (q, owner, inr among, at, located, below)
      ]
    where
      rest_true : (x y : Bool) → x || y ≡ true → x ≡ false → y ≡ true
      rest_true x y e f = ground arith

  assert_owned_path-Owning :
      (cwd path : String) (owned : List String) (x : String)
      → assert_owned_path w cwd path owned true ≡ ok x
      → (root : Location) × (c : Location) × (c.lexical ≡ x) × IsLocated w c × Owning root c owned
  unfolding assert_owned_path
  assert_owned_path-Owning cwd path owned x h =
      let (root, e0, h0) = bind_ok _ _ x h in
      let (c, e1, h1) = bind_ok _ _ x h0 in
      let (u2, e2, h2) = bind_ok _ _ x h1 in
      let (owners, e3, h3) = bind_ok _ _ x h2 in
      let (u4, e4, h4) = bind_ok _ _ x h3 in
      (
        root,
        c,
        ok_inj _ x h4,
        (path_under_cwd-IsPlaced w root (given path) path c e1).2,
        owner_among root c owned owners e3 (guard_ok _ not_owned u4 e4),
      )

module _ (w : World) (segments : String → List String)
    (relative_below : (p c : String)
      → stays_below w (w.relative p c) ≡ true
      → (rest : List String) × (segments c ≡ segments p ++ rest))
    (below_relative : (p c : String) (rest : List String)
      → segments c ≡ segments p ++ rest
      → stays_below w (w.relative p c) ≡ true) where
  -- Of two paths that a third lies below, one lies below the other.
  below_cross :
      (p q c : String) → is_within w p c ≡ true → is_within w q c ≡ true → nested w p q ≡ true
  below_cross p q c x y =
      let (xs, e) = relative_below (comparable_path w p) (comparable_path w c) x in
      let (ys, f) = relative_below (comparable_path w q) (comparable_path w c) y in
      elim (prefixes-compare _ _ xs ys (sym e ∙ f)) [
        | inl (rest, g) ↦
            or_left _ _ (below_relative (comparable_path w p) (comparable_path w q) rest g)
        | inr (rest, g) ↦
            or_right _ _ (below_relative (comparable_path w q) (comparable_path w p) rest g)
      ]
    where
      or_left : (a b : Bool) → a ≡ true → a || b ≡ true
      or_left a b e = ground arith

      or_right : (a b : Bool) → b ≡ true → a || b ≡ true
      or_right a b e = ground arith

  -- Owners of the same place overlap.
  owners-overlap :
      (a b c d : Location)
      → is_within w a.physical c.physical ≡ true
      → is_within w b.physical d.physical ≡ true
      → c.physical ≡ d.physical
      → overlap w a b ≡ true
  owners-overlap a b c d x y same =
      or_right (nested w a.lexical b.lexical) (nested w a.physical b.physical) (
        below_cross a.physical b.physical c.physical x
          (subst (λ z. is_within w b.physical z ≡ true) (sym same) y))
    where
      or_right : (a b : Bool) → b ≡ true → a || b ≡ true
      or_right a b e = ground arith

  -- No two tasks of an admitted dispatch may write the same file: if one is allowed to write a path, and
  -- one another path (or the same) that the file system resolves to the same place, they are the same
  -- task. Of `relative` it asks that it does not lead upwards exactly where the segments of the one path,
  -- once resolved, begin those of the other; of the owned paths, that they have no blanks at their ends,
  -- and that `resolve` gives them back, as it does absolute paths. The file system stays as it is.
  pub one_writer :
      (names : Names) (input : DispatchInput) (cwd model thinking : String) (now : Input ℕ)
      (id : Input String) (r : RunRecord) (i j : ℕ) (s t : TaskRecord) (one other x y : String)
      → normalize_dispatch w names input cwd model thinking now id ≡ ok r
      → ((base p : String)
          → Inside p (all_owned_paths r.tasks)
          → (trim p ≡ p) × (w.resolve base (p ∷ []) ≡ p))
      → get_elem? r.tasks i ≡ some s
      → get_elem? r.tasks j ≡ some t
      → assert_owned_path w r.cwd one s.owned_paths true ≡ ok x
      → assert_owned_path w r.cwd other t.owned_paths true ≡ ok y
      → physical_projection w x ≡ physical_projection w y
      → i ≡ j
  unfolding Owning
  one_writer names input cwd model thinking now id r i j s t one other x y made reread at_i at_j
        ok_i ok_j same =
      let (root, owners, is_root, paths, apart, placed) =
        normalize_dispatch-disjoint w names input cwd model thinking now id r made in
      let free =
        subst (λ ps. apart_paths w ps ≡ true) paths (lexicals-apart w root owners placed apart) in
      let (root1, c, c_x, at_c, (p, a, in_p, a_p, at_a, below_a)) =
        assert_owned_path-Owning w r.cwd one s.owned_paths x ok_i in
      let (root2, d, d_y, at_d, (q, b, in_q, b_q, at_b, below_b)) =
        assert_owned_path-Owning w r.cwd other t.owned_paths y ok_j in
      let own_p = a_p ∙ itself root1.lexical p (owned-Inside w r.tasks i s p at_i in_p) in
      let own_q = b_q ∙ itself root2.lexical q (owned-Inside w r.tasks j t q at_j in_q) in
      let place : c.physical ≡ d.physical = one_place c d c_x d_y at_c at_d in
      let cross : crosses w a.lexical b.lexical ≡ true =
        located-crosses w a b at_a at_b ∙ owners-overlap a b c d below_a below_b place in
      crossing_tasks w r.tasks i j s t p q free at_i at_j in_p in_q (
        subst (λ z. crosses w z q ≡ true) own_p
          (subst (λ z. crosses w a.lexical z ≡ true) own_q cross))
    where
      itself :
          (base p : String) → Inside p (all_owned_paths r.tasks) → w.resolve base (trim p ∷ []) ≡ p
      itself base p h =
          let (trimmed, resolved) = reread base p h in
          ap (λ z. w.resolve base (z ∷ [])) trimmed ∙ resolved

      one_place :
          (c d : Location)
          → c.lexical ≡ x
          → d.lexical ≡ y
          → IsLocated w c
          → IsLocated w d
          → c.physical ≡ d.physical
      one_place c d e f at_c at_d = ok_inj c.physical d.physical (
          sym at_c
          ∙ ap (physical_projection w) e
          ∙ same
          ∙ sym (ap (physical_projection w) f)
          ∙ at_d)

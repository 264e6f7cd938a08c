-- ===== src/Policy/Disjoint.antt =====
-- The paths that the tasks of one dispatch of src/subagents/policy.ts own do not overlap.
use steak_pi.Prelude.{
  ℕ, zero, suc, ◌+◌, String, ◌≡◌, refl, sym, ap, ◌∙◌, subst, Bool, true, false, not, ◌&&◌, some,
  List, [], ◌∷◌, ◌++◌, arith, and_true, and_both, or_false, not-true, get_elem?, any, all,
}
use steak_pi.Policy.{
  bind_ok, ok_inj, guard_ok, Input, World, Location, outside_cwd, escapes_cwd, overlaps, ok,
}
use steak_pi.Policy.Request.{
  HarnessId, SubagentTaskInput, DispatchInput, TaskRecord, RunRecord, Owner, Names,
}
use steak_pi.Policy.Paths.{is_within, physical_projection, path_under_cwd}
use steak_pi.Policy.Dispatch.{
  overlap, overlaps_owner, own_paths, normalize_task, normalize_tasks, normalize_dispatch,
}
use steak_pi.Policy.Ownership.{admitted}
use mathlib.Core.List.{append-nil, append_assoc}

abbrev pub lexicals : List Owner → List String
lexicals [] = []
lexicals (o ∷ os) = o.place.lexical ∷ lexicals os

abbrev pub all_owned_paths : List TaskRecord → List String
all_owned_paths [] = []
all_owned_paths (t ∷ ts) = t.owned_paths ++ all_owned_paths ts

pub some_inj : {A : Type 0} (x y : A) → some x ≡ some y → x ≡ y
some_inj x y e = cc

all_snoc :
    {A : Type 0} (f : A → Bool) (xs : List A) (x : A) → all f (xs ++ (x ∷ [])) ≡ all f xs && f x
all_snoc f [] x = ground arith
all_snoc f (y ∷ xs) x = let h = all_snoc f xs x in ground arith

lexicals_snoc :
    (os : List Owner) (o : Owner)
    → lexicals (os ++ (o ∷ [])) ≡ lexicals os ++ (o.place.lexical ∷ [])
lexicals_snoc [] o = refl
lexicals_snoc (p ∷ os) o = ap (λ x. p.place.lexical ∷ x) (lexicals_snoc os o)

module _ (w : World) where
  -- No place in the list overlaps another, as written or as resolved.
  unfoldable pub is_apart : List Owner → Bool
  is_apart [] = true
  is_apart (o ∷ os) = all (λ (p : Owner). not (overlap w o.place p.place)) os && is_apart os

  -- Where each owner is: below the working directory, as written and as the file system resolves it.
  abbrev pub IsPlaced : Location → Owner → Type 0
  IsPlaced root o =
      (is_within w root.lexical o.place.lexical ≡ true)
      × (is_within w root.physical o.place.physical ≡ true)
      × (physical_projection w o.place.lexical ≡ ok o.place.physical)

  abbrev pub AllPlaced : Location → List Owner → Type 0
  AllPlaced root os = (i : ℕ) (o : Owner) → get_elem? os i ≡ some o → IsPlaced root o

  apart-snoc :
      (os : List Owner) (o : Owner)
      → is_apart os ≡ true
      → any (overlaps_owner w o.place) os ≡ false
      → is_apart (os ++ (o ∷ [])) ≡ true
  unfolding is_apart
  apart-snoc [] o a free = refl
  apart-snoc (p ∷ os) o a free =
      let (first, rest) = and_true _ _ a in
      let (apart, others) = or_false _ _ free in
      let last = all_snoc (λ (q : Owner). not (overlap w p.place q.place)) os o in
      and_both _ _ (last ∙ and_both _ _ first (ap not apart)) (apart-snoc os o rest others)

  placed-snoc :
      (root : Location) (os : List Owner) (o : Owner)
      → AllPlaced root os
      → IsPlaced root o
      → AllPlaced root (os ++ (o ∷ []))
  placed-snoc root [] o a at zero p e = subst (IsPlaced root) {y = p} (some_inj o p e) at
  placed-snoc root [] o a at (suc i) p e = cc
  placed-snoc root (q ∷ os) o a at zero p e = a 0 p e
  placed-snoc root (q ∷ os) o a at (suc i) p e = placed-snoc root os o (λ j. a (suc j)) at i p e

  pub path_under_cwd-IsPlaced :
      (root : Location) (p : Input String) (label : String) (l : Location)
      → path_under_cwd w root p ≡ ok l
      → IsPlaced root (record { owner = label; place = l })
  unfolding path_under_cwd
  path_under_cwd-IsPlaced root p label l h =
      let (supplied, e0, h0) = bind_ok _ _ l h in
      let (u1, e1, h1) = bind_ok _ _ l h0 in
      let (u2, e2, h2) = bind_ok _ _ l h1 in
      let (physical, e3, h3) = bind_ok _ _ l h2 in
      let (u4, e4, h4) = bind_ok _ _ l h3 in
      subst (λ x. IsPlaced root (record { owner = label; place = x })) (ok_inj _ l h4)
        (guard_ok _ outside_cwd u2 e2, guard_ok _ escapes_cwd u4 e4, e3)

  -- What a step of the dispatch adds to the owners.
  abbrev Adds : Location → List Owner → List Owner → List String → Type 0
  Adds root before after paths =
      (is_apart before ≡ true → is_apart after ≡ true)
      × (AllPlaced root before → AllPlaced root after)
      × (lexicals after ≡ lexicals before ++ paths)

  grows :
      (root : Location) (label : String) (owners : List Owner) (l : Location) (p : Input String)
      (more : List Owner × List String)
      → path_under_cwd w root p ≡ ok l
      → any (overlaps_owner w l) owners ≡ false
      → Adds root (owners ++ (record { owner = label; place = l } ∷ [])) more.0 more.1
      → Adds root owners more.0 (l.lexical ∷ more.1)
  grows root label owners l p more e free (apart, placed, path) =
      let mine : Owner = record { owner = label; place = l } in
      (
        λ a. apart (apart-snoc owners mine a free),
        λ a. placed (placed-snoc root owners mine a (path_under_cwd-IsPlaced root p label l e)),
        path
            ∙ ap (λ (z : List String). z ++ more.1) (lexicals_snoc owners mine)
            ∙ append_assoc (lexicals owners) (l.lexical ∷ []) more.1,
      )

  own_paths-Adds :
      (root : Location) (harness : HarnessId) (label : String) (owners : List Owner)
      (ps : List (Input String)) (x : List Owner × List String)
      → own_paths w root harness label owners ps ≡ ok x
      → Adds root owners x.0 x.1
  unfolding own_paths
  own_paths-Adds root harness label owners [] x h =
      subst (λ (y : List Owner × List String). Adds root owners y.0 y.1) (ok_inj _ x h)
        (λ a. a, λ a. a, sym (append-nil (lexicals owners)))
  own_paths-Adds root harness label owners (p ∷ ps) x h =
      let (l, e0, h0) = bind_ok _ _ x h in
      let (u1, e1, h1) = bind_ok _ _ x h0 in
      let (u2, e2, h2) = bind_ok _ _ x h1 in
      let (more, e3, h3) = bind_ok _ _ x h2 in
      subst (λ (y : List Owner × List String). Adds root owners y.0 y.1) (ok_inj _ x h3)
        (grows root label owners l p more e0 (not-true _ (guard_ok _ overlaps u2 e2)) (
          own_paths-Adds root harness label (owners ++ (record { owner = label; place = l } ∷ []))
            ps more e3))

module _ (w : World) (names : Names) where
  normalize_task-Adds :
      (root : Location) (harness : HarnessId) (run_id : String) (index : ℕ) (labels : List String)
      (owners : List Owner) (source : SubagentTaskInput)
      (x : (List String × List Owner) × TaskRecord)
      → normalize_task w names root harness run_id index labels owners source ≡ ok x
      → Adds w root owners x.0.1 x.1.owned_paths
  unfolding normalize_task
  normalize_task-Adds root harness run_id index labels owners source x h =
      let (label, e0, h0) = bind_ok _ _ x h in
      let (u1, e1, h1) = bind_ok _ _ x h0 in
      let (task, e2, h2) = bind_ok _ _ x h1 in
      let (role, e3, h3) = bind_ok _ _ x h2 in
      let (may_edit, e4, h4) = bind_ok _ _ x h3 in
      let (allow_bash, e5, h5) = bind_ok _ _ x h4 in
      let (task_class, e6, h6) = bind_ok _ _ x h5 in
      let (paths, e7, h7) = bind_ok _ _ x h6 in
      let (u8, e8, h8) = bind_ok _ _ x h7 in
      let (u9, e9, h9) = bind_ok _ _ x h8 in
      let (owned, e10, h10) = bind_ok _ _ x h9 in
      subst
        (λ (y : (List String × List Owner) × TaskRecord). Adds w root owners y.0.1 y.1.owned_paths)
        (ok_inj _ x h10) (own_paths-Adds w root harness label owners paths owned e10)

  normalize_tasks-Adds :
      (root : Location) (harness : HarnessId) (run_id : String) (index : ℕ) (labels : List String)
      (owners : List Owner) (ts : List SubagentTaskInput) (x : List Owner × List TaskRecord)
      → normalize_tasks w names root harness run_id index labels owners ts ≡ ok x
      → Adds w root owners x.0 (all_owned_paths x.1)
  unfolding normalize_tasks
  normalize_tasks-Adds root harness run_id index labels owners [] x h =
      subst (λ (y : List Owner × List TaskRecord). Adds w root owners y.0 (all_owned_paths y.1))
        (ok_inj _ x h) (λ a. a, λ a. a, sym (append-nil (lexicals owners)))
  normalize_tasks-Adds root harness run_id index labels owners (t ∷ ts) x h =
      let (first, e0, h0) = bind_ok _ _ x h in
      let (rest, e1, h1) = bind_ok _ _ x h0 in
      let (apart0, placed0, path0) =
        normalize_task-Adds root harness run_id index labels owners t first e0 in
      let (apart1, placed1, path1) =
        normalize_tasks-Adds root harness run_id (index + 1) first.0.0 first.0.1 ts rest e1 in
      subst (λ (y : List Owner × List TaskRecord). Adds w root owners y.0 (all_owned_paths y.1))
        (ok_inj _ x h1)
        (
          λ a. apart1 (apart0 a),
          λ a. placed1 (placed0 a),
          path1
              ∙ ap (λ (z : List String). z ++ all_owned_paths rest.1) path0
              ∙ append_assoc (lexicals owners) first.1.owned_paths (all_owned_paths rest.1),
        )

  -- The owned paths of all tasks of an admitted dispatch, in order, are the written forms of places that
  -- do not overlap, as written or as the file system resolves them, and each of which lies below the
  -- working directory in both forms.
  pub normalize_dispatch-disjoint :
      (input : DispatchInput) (cwd model thinking : String) (now : Input ℕ) (id : Input String)
      (r : RunRecord)
      → normalize_dispatch w names input cwd model thinking now id ≡ ok r
      → (root : Location) × (owners : List Owner) × (r.cwd ≡ root.lexical)
        × (lexicals owners ≡ all_owned_paths r.tasks)
        × (is_apart w owners ≡ true)
        × AllPlaced w root owners
  unfolding is_apart
  normalize_dispatch-disjoint input cwd model thinking now id r h =
      let a = admitted w names input cwd model thinking now id r h in
      let (apart, placed, paths) =
        normalize_tasks-Adds a.root r.harness r.id 0 [] [] input.tasks (a.owners, r.tasks) a.made in
      (a.root, a.owners, a.is_root, paths, apart none_apart, placed (λ i o e. cc e))
    where
      none_apart : is_apart w [] ≡ true
      none_apart = refl

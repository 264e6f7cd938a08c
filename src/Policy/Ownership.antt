-- ===== src/Policy/Ownership.antt =====
-- What a dispatch of src/subagents/policy.ts that is admitted looks like: its sizes, and who owns which
-- paths.
use steak_pi.Prelude.{
  ℕ, ◌≤◌, min, max, String, ◌≡◌, refl, subst, true, ◌&&◌, List, [], arith, ltb, leb, length,
}
use steak_pi.Capacity.{max_concurrency}
use steak_pi.Coordinator.Registry.{max_tasks, min_timeout_ms, max_timeout_ms}
use steak_pi.Policy.{
  bind_ok, ok_inj, guard_ok, Input, World, Location, task_count, ok, undefined, mistyped, given,
}
use steak_pi.Policy.Request.{
  default_timeout_ms, default_max_turns, max_max_turns, DispatchInput, RunRecord, Owner, Names,
  integer_in_range,
}
use steak_pi.Policy.Dispatch.{normalize_tasks, normalize_dispatch}

abbrev pub InRange : RunRecord → Type 0
InRange r =
    (1 ≤ r.concurrency)
    × (r.concurrency ≤ max_concurrency)
    × (min_timeout_ms ≤ r.timeout_ms)
    × (r.timeout_ms ≤ max_timeout_ms)
    × (1 ≤ r.max_turns)
    × (r.max_turns ≤ max_max_turns)

in_range :
    (x : Input ℕ) (fallback low high n : ℕ)
    → low ≤ fallback
    → fallback ≤ high
    → integer_in_range x fallback low high ≡ ok n
    → (low ≤ n) × (n ≤ high)
in_range undefined fallback low high n a b e = ground arith
in_range mistyped fallback low high n a b e = ground arith
in_range (given x) fallback low high n a b e = ground arith

module _ (w : World) (names : Names) where
  -- What the checks of an admitted dispatch have found.
  pub record Admitted (input : DispatchInput) (r : RunRecord) : Type 0 where
    pub root : Location
    pub owners : List Owner
    pub is_counted : ltb 0 (length input.tasks) && leb (length input.tasks) max_tasks ≡ true
    pub width :
        integer_in_range input.concurrency
          (min max_concurrency (max 1 (length input.tasks)))
          1
          max_concurrency
        ≡ ok r.concurrency
    pub timeout :
        integer_in_range input.timeout_ms default_timeout_ms min_timeout_ms max_timeout_ms
        ≡ ok r.timeout_ms
    pub turns : integer_in_range input.max_turns default_max_turns 1 max_max_turns ≡ ok r.max_turns
    pub is_root : r.cwd ≡ root.lexical
    pub made :
        normalize_tasks w names root r.harness r.id 0 [] [] input.tasks ≡ ok (owners, r.tasks)

  pub admitted :
      (input : DispatchInput) (cwd model thinking : String) (now : Input ℕ) (id : Input String)
      (r : RunRecord)
      → normalize_dispatch w names input cwd model thinking now id ≡ ok r
      → Admitted input r
  unfolding normalize_dispatch
  admitted input cwd model thinking now id r h =
      let (x0, e0, h0) = bind_ok _ _ r h in
      let (x1, e1, h1) = bind_ok _ _ r h0 in
      let (x2, e2, h2) = bind_ok _ _ r h1 in
      let (root, e3, h3) = bind_ok _ _ r h2 in
      let (goal, e4, h4) = bind_ok _ _ r h3 in
      let (model_name, e5, h5) = bind_ok _ _ r h4 in
      let (thinking_level, e6, h6) = bind_ok _ _ r h5 in
      let (created_at, e7, h7) = bind_ok _ _ r h6 in
      let (counted, e8, h8) = bind_ok _ _ r h7 in
      let (constraints, e9, h9) = bind_ok _ _ r h8 in
      let (contract, e10, h10) = bind_ok _ _ r h9 in
      let (concurrency, e11, h11) = bind_ok _ _ r h10 in
      let (timeout_ms, e12, h12) = bind_ok _ _ r h11 in
      let (max_turns, e13, h13) = bind_ok _ _ r h12 in
      let (background, e14, h14) = bind_ok _ _ r h13 in
      let (harness, e15, h15) = bind_ok _ _ r h14 in
      let (account, e16, h16) = bind_ok _ _ r h15 in
      let (id', e17, h17) = bind_ok _ _ r h16 in
      let (tasks', e18, h18) = bind_ok _ _ r h17 in
      let same = ok_inj _ r h18 in
      subst (Admitted input) same (record {
        root = root;
        owners = tasks'.0;
        is_counted = guard_ok _ task_count _ e8;
        width = e11;
        timeout = e12;
        turns = e13;
        is_root = refl;
        made = e18;
      })

  -- Every admitted dispatch has one to eight tasks, and its width, its time and its turns are in the
  -- ranges of the limits, whether the caller has set them or not.
  pub normalize_dispatch-InRange :
      (input : DispatchInput) (cwd model thinking : String) (now : Input ℕ) (id : Input String)
      (r : RunRecord)
      → normalize_dispatch w names input cwd model thinking now id ≡ ok r
      → InRange r × (1 ≤ length input.tasks) × (length input.tasks ≤ max_tasks)
  normalize_dispatch-InRange input cwd model thinking now id r h =
      let a = admitted input cwd model thinking now id r h in
      let counted = a.is_counted in
      let (w0, w1) =
        in_range input.concurrency _ 1 max_concurrency r.concurrency (omega arith) (omega arith)
          a.width in
      let (t0, t1) =
        in_range input.timeout_ms default_timeout_ms min_timeout_ms max_timeout_ms r.timeout_ms
          (omega arith) (omega arith) a.timeout in
      let (n0, n1) =
        in_range input.max_turns default_max_turns 1 max_max_turns r.max_turns (omega arith)
          (omega arith) a.turns in
      ((w0, w1, t0, t1, n0, n1), ground arith, ground arith)

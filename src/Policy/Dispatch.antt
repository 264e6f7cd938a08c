-- ===== src/Policy/Dispatch.antt =====
-- `normalizeDispatch` of src/subagents/policy.ts, and the part of `claudeOwnedPathRules` in
-- src/subagents/claude-owned-paths.ts that it calls.
use steak_pi.Prelude.{
  ℕ, ◌+◌, min, max, String, Bool, false, not, ◌&&◌, ◌||◌, Option, none, some, List, [], ◌∷◌, ◌++◌,
  ltb, leb, ◌==◌, if◌then◌else◌, length, any, str_eq, units, decimal,
}
use steak_pi.Capacity.{max_concurrency}
use steak_pi.Coordinator.Registry.{max_tasks, min_timeout_ms, max_timeout_ms}
use steak_pi.Policy.{
  Checked, ◌>>=◌, ◌>>◌, guard, Input, World, Location, nonempty_string, not_task_class,
  read_only_owner, no_owned_path, overlaps, rule_not_exact, retired_model, bad_time, task_count,
  label_not_unique, not_account, not_claude_route, ok, rejected, undefined, mistyped, given,
}
use steak_pi.Policy.Request.{
  HarnessId, default_timeout_ms, default_max_turns, max_max_turns, SubagentTaskInput, DispatchInput,
  TaskRecord, RunRecord, Owner, Names, boolean_or_default, integer_in_range, normalize_harness,
  normalize_role, is_claude_code, normalize_constraints, normalize_contract, supplied_paths,
}
use steak_pi.Policy.Ids.{safe_display_id}
use steak_pi.Policy.Paths.{starts_with, is_within, normalized_cwd, path_under_cwd}
use Prim.Native.Char.{code}
use Prim.Native.String.{◌++◌ as concat}

-- A character that `PERMISSION_RULE_UNSAFE` matches.
abbrev pub is_rule_unsafe : ℕ → Bool
is_rule_unsafe c =
    c == 42
    || c == 63
    || c == 91
    || c == 93
    || c == 123
    || c == 125
    || c == 40
    || c == 41
    || c == 33
    || c == 92
    || c == 10
    || c == 13

unfoldable pub has_rule_unsafe : String → Bool
has_rule_unsafe String.[] = false
has_rule_unsafe (String.◌∷◌ c s) = is_rule_unsafe (code c) || has_rule_unsafe s

-- `.replace(/\/+$/, "")`
unfoldable pub strip_slashes : String → String
strip_slashes String.[] = ""
strip_slashes (String.◌∷◌ c s) =
    let rest = strip_slashes s in if code c == 47 && str_eq rest "" then "" else String.◌∷◌ c rest

-- `path.replace(/\/+$/, "") || "/"`
abbrev pub rule_form : String → String
rule_form path = let form = strip_slashes path in if str_eq form "" then "/" else form

-- Whether `claudeOwnedPathRules([lexical], () => physical)` returns.
abbrev pub has_exact_rules : Location → Bool
has_exact_rules l =
    starts_with "/" l.lexical
    && (not (has_rule_unsafe (rule_form l.lexical))
        && (str_eq l.physical "" || not (has_rule_unsafe (rule_form l.physical))))

-- `now`, which is the clock's if the caller leaves it out.
abbrev pub timestamp : ℕ → Input ℕ → Checked ℕ
timestamp clock undefined = ok clock
timestamp clock mistyped = rejected bad_time
timestamp clock (given n) = ok n

module _ (w : World) where
  -- The two places overlap, as written or as resolved.
  abbrev pub overlap : Location → Location → Bool
  overlap a b =
      (is_within w a.lexical b.lexical || is_within w b.lexical a.lexical)
      || (is_within w a.physical b.physical || is_within w b.physical a.physical)

  abbrev pub overlaps_owner : Location → Owner → Bool
  overlaps_owner place o = overlap o.place place

  -- The owned paths of one task, after the owners so far.
  unfoldable pub own_paths :
      Location
      → HarnessId
      → String
      → List Owner
      → List (Input String)
      → Checked (List Owner × List String)
  own_paths root harness label owners [] = ok (owners, [])
  own_paths root harness label owners (p ∷ ps) = do
    place ← path_under_cwd w root p
    guard (not (is_claude_code harness) || has_exact_rules place) rule_not_exact
    guard (not (any (overlaps_owner place) owners)) overlaps
    let mine : Owner = record { owner = label; place = place }
    more ← own_paths root harness label (owners ++ (mine ∷ [])) ps
    ok (more.0, place.lexical ∷ more.1)

  module _ (names : Names) where
    abbrev pub normalize_task_class : Input String → Checked (Option String)
    normalize_task_class undefined = ok none
    normalize_task_class mistyped = rejected not_task_class
    normalize_task_class (given s) =
        if not (names.is_task_class s) || ltb 48 (units s)
        then rejected not_task_class
        else ok (some s)

    -- One task: its record, and the labels and owners after it.
    unfoldable pub normalize_task :
        Location
        → HarnessId
        → String
        → ℕ
        → List String
        → List Owner
        → SubagentTaskInput
        → Checked ((List String × List Owner) × TaskRecord)
    normalize_task root harness run_id index labels owners source = do
      label ← nonempty_string source.label
      let key = w.lower label
      guard (not (any (str_eq key) labels)) label_not_unique
      task ← nonempty_string source.task
      role ← normalize_role source.role
      may_edit ← boolean_or_default source.may_edit false
      allow_bash ← boolean_or_default source.allow_bash false
      task_class ← normalize_task_class source.task_class
      paths ← supplied_paths source.owned_paths
      guard (may_edit || not (ltb 0 (length paths))) read_only_owner
      guard (not may_edit || ltb 0 (length paths)) no_owned_path
      owned ← own_paths root harness label owners paths
      ok (
        (labels ++ (key ∷ []), owned.0),
        record {
          id = concat run_id (concat "-task-" (decimal (index + 1)));
          label = label;
          task = task;
          role = role;
          may_edit = may_edit;
          owned_paths = owned.1;
          allow_bash = allow_bash;
          task_class = task_class;
        },
      )

    unfoldable pub normalize_tasks :
        Location
        → HarnessId
        → String
        → ℕ
        → List String
        → List Owner
        → List SubagentTaskInput
        → Checked (List Owner × List TaskRecord)
    normalize_tasks root harness run_id index labels owners [] = ok (owners, [])
    normalize_tasks root harness run_id index labels owners (t ∷ ts) = do
      first ← normalize_task root harness run_id index labels owners t
      rest ← normalize_tasks root harness run_id (index + 1) first.0.0 first.0.1 ts
      ok (rest.0, first.1 ∷ rest.1)

    abbrev pub check_account : Input String → HarnessId → String → Checked (Option String)
    check_account undefined harness model = ok none
    check_account mistyped harness model = rejected not_account
    check_account (given account) harness model = do
      guard (names.is_account account) not_account
      guard (is_claude_code harness && names.is_claude_model model) not_claude_route
      ok (some account)

    unfoldable pub normalize_dispatch :
        DispatchInput → String → String → String → Input ℕ → Input String → Checked RunRecord
    normalize_dispatch input cwd model thinking now fresh_id = do
      guard (not (names.is_retired input.model)) retired_model
      guard (not (names.is_retired input.profile)) retired_model
      guard (not (names.is_retired (given model))) retired_model
      root ← normalized_cwd w cwd
      goal ← nonempty_string input.goal
      model_name ← nonempty_string (given model)
      thinking_level ← nonempty_string (given thinking)
      created_at ← timestamp w.clock now
      guard (ltb 0 (length input.tasks) && leb (length input.tasks) max_tasks) task_count
      constraints ← normalize_constraints input.constraints
      contract ← normalize_contract input.contract
      let width = min max_concurrency (max 1 (length input.tasks))
      concurrency ← integer_in_range input.concurrency width 1 max_concurrency
      timeout_ms ←
          integer_in_range input.timeout_ms default_timeout_ms min_timeout_ms max_timeout_ms
      max_turns ← integer_in_range input.max_turns default_max_turns 1 max_max_turns
      background ← boolean_or_default input.background false
      harness ← normalize_harness input.harness
      account ← check_account input.claude_account harness model
      id ← safe_display_id names.nfkd fresh_id
      let run_id = concat "run-" id
      tasks ← normalize_tasks root harness run_id 0 [] [] input.tasks
      ok (record {
        id = run_id;
        goal = goal;
        constraints = constraints;
        contract = contract;
        cwd = root.lexical;
        model = model_name;
        harness = harness;
        claude_account = account;
        thinking_level = thinking_level;
        concurrency = concurrency;
        timeout_ms = timeout_ms;
        max_turns = max_turns;
        background = background;
        created_at = created_at;
        tasks = tasks.1;
      })

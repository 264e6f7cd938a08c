-- ===== src/Policy/Request.antt =====
-- The input of `normalizeDispatch` in src/subagents/policy.ts, the run that it makes, and the checks of
-- single fields. The sizes are those of src/subagents/types.ts.
use steak_pi.Prelude.{
  ℕ, String, Bool, true, false, ◌||◌, Option, none, some, List, [], ◌∷◌, ltb, if◌then◌else◌,
}
use steak_pi.Policy.{
  Checked, ◌>>=◌, Input, Location, nonempty_string, not_boolean, not_in_range, not_harness,
  not_role, not_list, ok, rejected, undefined, mistyped, given,
}

pub data HarnessId : Type 0 where
  pi claude_code : HarnessId

pub data SubagentRole : Type 0 where
  scout worker reviewer : SubagentRole

abbrev pub default_timeout_ms : ℕ
default_timeout_ms = 600000

abbrev pub default_max_turns : ℕ
default_max_turns = 64

abbrev pub max_max_turns : ℕ
max_max_turns = 2048

pub record SubagentTaskInput : Type 0 where
  pub label : Input String
  pub task : Input String
  pub role : Input SubagentRole
  pub may_edit : Input Bool
  pub allow_bash : Input Bool
  pub task_class : Input String
  pub owned_paths : Input (List (Input String))

-- An integer that is negative is `mistyped` here: it is rejected for the same reason.
pub record DispatchInput : Type 0 where
  pub goal : Input String
  pub model : Input String
  pub profile : Input String
  pub constraints : Input (List (Input String))
  pub contract : Input String
  pub concurrency : Input ℕ
  pub timeout_ms : Input ℕ
  pub max_turns : Input ℕ
  pub background : Input Bool
  pub harness : Input HarnessId
  pub claude_account : Input String
  pub tasks : List SubagentTaskInput

pub record TaskRecord : Type 0 where
  pub id : String
  pub label : String
  pub task : String
  pub role : SubagentRole
  pub may_edit : Bool
  pub owned_paths : List String
  pub allow_bash : Bool
  pub task_class : Option String

pub record RunRecord : Type 0 where
  pub id : String
  pub goal : String
  pub constraints : List String
  pub contract : Option String
  pub cwd : String
  pub model : String
  pub harness : HarnessId
  pub claude_account : Option String
  pub thinking_level : String
  pub concurrency : ℕ
  pub timeout_ms : ℕ
  pub max_turns : ℕ
  pub background : Bool
  pub created_at : ℕ
  pub tasks : List TaskRecord

-- An entry of `ownership`: whose path it is.
pub record Owner : Type 0 where
  pub owner : String
  pub place : Location

-- What other files of the repository and the run time say of a name.
pub record Names : Type 0 where
  pub is_retired : Input String → Bool
  pub is_task_class : String → Bool
  pub is_account : String → Bool
  pub is_claude_model : String → Bool
  pub nfkd : String → String

abbrev pub boolean_or_default : Input Bool → Bool → Checked Bool
boolean_or_default undefined fallback = ok fallback
boolean_or_default mistyped fallback = rejected not_boolean
boolean_or_default (given b) fallback = ok b

abbrev pub integer_in_range : Input ℕ → ℕ → ℕ → ℕ → Checked ℕ
integer_in_range undefined fallback low high = ok fallback
integer_in_range mistyped fallback low high = rejected not_in_range
integer_in_range (given n) fallback low high =
    if ltb n low || ltb high n then rejected not_in_range else ok n

abbrev pub normalize_harness : Input HarnessId → Checked HarnessId
normalize_harness undefined = ok pi
normalize_harness mistyped = rejected not_harness
normalize_harness (given h) = ok h

abbrev pub normalize_role : Input SubagentRole → Checked SubagentRole
normalize_role undefined = ok worker
normalize_role mistyped = rejected not_role
normalize_role (given r) = ok r

abbrev pub is_claude_code : HarnessId → Bool
is_claude_code pi = false
is_claude_code claude_code = true

abbrev pub nonempty_strings : List (Input String) → Checked (List String)
nonempty_strings [] = ok []
nonempty_strings (x ∷ xs) = do
  first ← nonempty_string x
  rest ← nonempty_strings xs
  ok (first ∷ rest)

abbrev pub normalize_constraints : Input (List (Input String)) → Checked (List String)
normalize_constraints undefined = ok []
normalize_constraints mistyped = rejected not_list
normalize_constraints (given xs) = nonempty_strings xs

abbrev pub normalize_contract : Input String → Checked (Option String)
normalize_contract undefined = ok none
normalize_contract x = do text ← nonempty_string x; ok (some text)

abbrev pub supplied_paths : Input (List (Input String)) → Checked (List (Input String))
supplied_paths undefined = ok []
supplied_paths mistyped = rejected not_list
supplied_paths (given xs) = ok xs

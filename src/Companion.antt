-- ===== src/Companion.antt =====
-- src/tui/model.ts: the state that the terminal's companion line shows, and its reducer.
-- `activeTools` is the list of the object's entries; only its size and, where it has one entry alone,
-- that entry's name are read.
pub mod Coherent
pub mod Errors
mod Tests
use steak_pi.Prelude.{
  ℕ, ◌+◌, ◌-◌, String, Bool, true, false, not, ◌||◌, Option, List, [], ◌∷◌, ltb, if◌then◌else◌,
  or_else, length, str_eq, decimal,
}
use Prim.Native.String.{◌++◌ as concat}

pub data UiPhase : Type 0 where
  ready thinking responding tool waiting compacting complete error stopped : UiPhase

pub record ActiveTool : Type 0 where
  pub id : String
  pub name : String

pub record CompanionState : Type 0 where
  pub phase : UiPhase
  pub detail : String
  pub agent_active : Bool
  pub prompt_depth : ℕ
  pub had_error : Bool
  pub active_tools : List ActiveTool

pub data StreamKind : Type 0 where
  thinking_kind text_kind toolcall_kind : StreamKind

-- `none` is an optional field that is absent; an absent flag is false.
pub data CompanionAction : Type 0 where
  session : Option String → CompanionAction
  agent_start prompt_end compact_start compact_end settled : CompanionAction
  stream : StreamKind → CompanionAction
  tool_start : String → String → CompanionAction
  tool_end : String → String → Bool → CompanionAction
  prompt_start : Option String → CompanionAction
  compact_fail : Bool → Option String → CompanionAction
  message_error : Bool → Option String → CompanionAction

abbrev pub initial_companion_state : String → CompanionState
initial_companion_state hint = record {
  phase = ready;
  detail = hint;
  agent_active = false;
  prompt_depth = 0;
  had_error = false;
  active_tools = [];
}

-- `{ ...tools, [id]: name }`.
unfoldable pub set_tool : String → String → List ActiveTool → List ActiveTool
set_tool id name [] = record { id = id; name = name } ∷ []
set_tool id name (t ∷ rest) =
    if str_eq t.id id then record t { name = name } ∷ rest else t ∷ set_tool id name rest

-- `delete tools[id]`.
unfoldable pub delete_tool : String → List ActiveTool → List ActiveTool
delete_tool id [] = []
delete_tool id (t ∷ rest) = if str_eq t.id id then rest else t ∷ delete_tool id rest

abbrev pub busy_phase : List ActiveTool → UiPhase → UiPhase
busy_phase tools idle = if ltb 0 (length tools) then tool else idle

abbrev is_error : UiPhase → Bool
is_error error = true
is_error _ = false

abbrev is_stopped : UiPhase → Bool
is_stopped stopped = true
is_stopped _ = false

abbrev stream_phase : StreamKind → UiPhase
stream_phase text_kind = responding
stream_phase _ = thinking

abbrev stream_detail : StreamKind → String
stream_detail toolcall_kind = "preparing tool"
stream_detail _ = ""

abbrev failed_phase : Bool → UiPhase
failed_phase aborted = if aborted then stopped else error

abbrev pub tool_ended : CompanionState → String → Bool → List ActiveTool → CompanionState
tool_ended state name failed tools =
    if failed
    then record state { phase = error; detail = name; had_error = true; active_tools = tools }
    else if state.had_error
    then record state { phase = error; active_tools = tools }
    else record state { phase = busy_phase tools thinking; detail = ""; active_tools = tools }

abbrev pub prompt_ended : CompanionState → ℕ → CompanionState
prompt_ended state depth = record state {
  phase =
      if ltb 0 depth
      then waiting
      else if state.had_error
      then error
      else busy_phase state.active_tools (if state.agent_active then thinking else ready);
  detail = "";
  prompt_depth = depth;
}

abbrev pub settled_state : CompanionState → CompanionState
settled_state state = record state {
  phase =
      if state.had_error || is_error state.phase
      then error
      else if is_stopped state.phase
      then stopped
      else complete;
  detail =
      if state.had_error || is_error state.phase || is_stopped state.phase
      then state.detail
      else "";
  agent_active = false;
  active_tools = [];
}

unfoldable pub reduce_companion_state : CompanionState → CompanionAction → CompanionState
unfolding set_tool delete_tool
reduce_companion_state state (session hint) = initial_companion_state (or_else hint "")
reduce_companion_state state agent_start = record state {
  phase = thinking;
  detail = "";
  agent_active = true;
  had_error = false;
  active_tools = [];
}
reduce_companion_state state (stream kind) = record state {
  phase = stream_phase kind;
  detail = stream_detail kind;
  agent_active = true;
  had_error = false;
}
reduce_companion_state state (tool_start id name) = record state {
  phase = if state.had_error then error else tool;
  detail = if state.had_error then state.detail else "";
  agent_active = true;
  active_tools = set_tool id name state.active_tools;
}
reduce_companion_state state (tool_end id name failed) =
    tool_ended state name failed (delete_tool id state.active_tools)
reduce_companion_state state (prompt_start title) = record state {
  phase = waiting;
  detail = or_else title "input needed";
  prompt_depth = state.prompt_depth + 1;
}
reduce_companion_state state prompt_end = prompt_ended state (state.prompt_depth - 1)
reduce_companion_state state compact_start = record state { phase = compacting; detail = "" }
reduce_companion_state state compact_end = record state {
  phase = ready;
  detail = "compacted";
  had_error = false;
}
reduce_companion_state state (compact_fail aborted text) = record state {
  phase = failed_phase aborted;
  detail = or_else text (if aborted then "compaction cancelled" else "compaction failed");
  had_error = not aborted;
}
reduce_companion_state state (message_error aborted text) = record state {
  phase = failed_phase aborted;
  detail = or_else text "";
  had_error = not aborted;
}
reduce_companion_state state settled = settled_state state

-- The state after a sequence of actions.
unfoldable pub reduce_all : CompanionState → List CompanionAction → CompanionState
reduce_all state [] = state
reduce_all state (action ∷ rest) = reduce_all (reduce_companion_state state action) rest

pub data StatusTone : Type 0 where
  dim accent success warning error_tone : StatusTone

pub record StatusText : Type 0 where
  pub text : String
  pub tone : StatusTone

abbrev with_detail : String → String → String → StatusTone → StatusText
with_detail prefix detail plain tone = record {
  text = if str_eq detail "" then plain else concat prefix detail;
  tone = tone;
}

-- What the tool phase shows.
abbrev pub tools_text : List ActiveTool → String
tools_text [] = "◆ tool running"
tools_text (t ∷ []) = concat "◆ tool " t.name
tools_text (t ∷ u ∷ rest) = concat "◆ tools " (decimal (length (t ∷ u ∷ rest)))

unfoldable pub status_presentation : CompanionState → StatusText
status_presentation state = elim state.phase [
  | ready ↦ with_detail "● " state.detail "● ready" dim
  | thinking ↦ with_detail "◆ " state.detail "◆ thinking" accent
  | responding ↦ record { text = "◆ responding"; tone = accent }
  | tool ↦ record { text = tools_text state.active_tools; tone = accent }
  | waiting ↦ with_detail "◇ waiting · " state.detail "◇ waiting" warning
  | compacting ↦ record { text = "◆ compacting"; tone = warning }
  | complete ↦ record { text = "✓ complete"; tone = success }
  | error ↦ with_detail "! error · " state.detail "! error" error_tone
  | stopped ↦ with_detail "! stopped · " state.detail "! stopped" warning
]

-- ===== src/Companion/Coherent.antt =====
-- The invariant of every state that the reducer of src/tui/model.ts reaches.
use steak_pi.Prelude.{
  ℕ, zero, suc, ◌-◌, ◌≤◌, ◌<◌, max, String, ◌≡◌, refl, sym, subst, inl, inr, Bool, true, false, not,
  ◌||◌, List, [], ◌∷◌, arith, ltb, if◌then◌else◌, Bool-cases, or_else, length, count, str_eq,
  str_eq_iff,
}
use steak_pi.Companion.{
  UiPhase, ActiveTool, CompanionState, StreamKind, CompanionAction, initial_companion_state,
  set_tool, delete_tool, busy_phase, tool_ended, prompt_ended, settled_state,
  reduce_companion_state, reduce_all, ready, thinking, responding, tool, waiting, compacting,
  complete, error, stopped, thinking_kind, text_kind, toolcall_kind, session, agent_start,
  prompt_end, compact_start, compact_end, settled, stream, tool_start, tool_end, prompt_start,
  compact_fail, message_error, is_error, is_stopped,
}

-- How many entries an id has among the active tools.
abbrev pub entries_of : String → List ActiveTool → ℕ
entries_of id = count (λ t. str_eq t.id id)

-- The phases that a remembered error allows.
abbrev pub holds_error : UiPhase → Bool
holds_error error = true
holds_error waiting = true
holds_error compacting = true
holds_error _ = false

abbrev pub is_tool : UiPhase → Bool
is_tool tool = true
is_tool _ = false

abbrev pub is_waiting : UiPhase → Bool
is_waiting waiting = true
is_waiting _ = false

-- One entry for each tool, a tool in the tool phase, a prompt in the waiting phase, an agent that
-- runs the tools, and an error that is remembered only where it shows or a prompt hides it.
pub record IsCoherent (state : CompanionState) : Type 0 where
  pub one_entry : (id : String) → entries_of id state.active_tools ≤ 1
  pub has_tool : is_tool state.phase ≡ true → 0 < length state.active_tools
  pub has_prompt : is_waiting state.phase ≡ true → 0 < state.prompt_depth
  pub has_agent : 0 < length state.active_tools → state.agent_active ≡ true
  pub shows_error : state.had_error ≡ true → holds_error state.phase ≡ true

set_tool-other :
    (id name j : String) (tools : List ActiveTool)
    → str_eq id j ≡ false
    → entries_of j (set_tool id name tools) ≡ entries_of j tools
unfolding set_tool
set_tool-other id name j [] h = ground arith
set_tool-other id name j (t ∷ rest) h = ground (arith, set_tool-other id name j rest h)

set_tool-own :
    (id name : String) (tools : List ActiveTool)
    → entries_of id (set_tool id name tools) ≤ max 1 (entries_of id tools)
unfolding set_tool
set_tool-own id name [] = ground arith
set_tool-own id name (t ∷ rest) = ground (arith, set_tool-own id name rest)

set_tool-entries :
    (id name j : String) (tools : List ActiveTool)
    → entries_of j tools ≤ 1
    → entries_of j (set_tool id name tools) ≤ 1
set_tool-entries id name j tools h = elim (Bool-cases (str_eq id j)) [
  | inl e ↦ rw (sym ((str_eq_iff id j).0 e)) (
      omega (
        arith,
        set_tool-own id name tools,
        subst (λ k. entries_of k tools ≤ 1) (sym ((str_eq_iff id j).0 e)) h,
      ))
  | inr e ↦ omega (arith, h, set_tool-other id name j tools e)
]

set_tool_pos : (id name : String) (tools : List ActiveTool) → 0 < length (set_tool id name tools)
unfolding set_tool
set_tool_pos id name [] = omega arith
set_tool_pos id name (t ∷ rest) = ground arith

delete_tool-entries :
    (id j : String) (tools : List ActiveTool)
    → entries_of j (delete_tool id tools) ≤ entries_of j tools
unfolding delete_tool
delete_tool-entries id j [] = omega arith
delete_tool-entries id j (t ∷ rest) = ground (arith, delete_tool-entries id j rest)

delete_tool-length :
    (id : String) (tools : List ActiveTool) → length (delete_tool id tools) ≤ length tools
unfolding delete_tool
delete_tool-length id [] = omega arith
delete_tool-length id (t ∷ rest) = ground (arith, delete_tool-length id rest)

-- Each part of the invariant asked of the fields that one action sets.
coherent :
    (state : CompanionState)
    → ((id : String) → entries_of id state.active_tools ≤ 1)
    → (is_tool state.phase ≡ true → 0 < length state.active_tools)
    → (is_waiting state.phase ≡ true → 0 < state.prompt_depth)
    → (0 < length state.active_tools → state.agent_active ≡ true)
    → (state.had_error ≡ true → holds_error state.phase ≡ true)
    → IsCoherent state
coherent state a b c d e = record {
  one_entry = a;
  has_tool = b;
  has_prompt = c;
  has_agent = d;
  shows_error = e;
}

idle-IsCoherent :
    (state : CompanionState) (phase : UiPhase) (detail : String) (active : Bool) (had_error : Bool)
    → is_tool phase ≡ false
    → (is_waiting phase ≡ true → 0 < state.prompt_depth)
    → (had_error ≡ true → holds_error phase ≡ true)
    → IsCoherent (record state {
      phase = phase;
      detail = detail;
      agent_active = active;
      had_error = had_error;
      active_tools = [];
    })
idle-IsCoherent state phase detail active had_error t w e =
    coherent _ (λ id. omega arith) (λ h. ground arith) w (λ h. absurd (omega arith)) e

-- A change of phase that keeps the tools.
phase-IsCoherent :
    (state : CompanionState) (phase : UiPhase) (detail : String) (active had_error : Bool)
    → IsCoherent state
    → is_tool phase ≡ false
    → is_waiting phase ≡ false
    → (state.agent_active ≡ true → active ≡ true)
    → (had_error ≡ true → holds_error phase ≡ true)
    → IsCoherent (record state {
      phase = phase;
      detail = detail;
      agent_active = active;
      had_error = had_error;
    })
phase-IsCoherent state phase detail active had_error h t w a e =
    coherent _ h.one_entry (λ i. ground arith) (λ i. ground arith) (λ i. a (h.has_agent i)) e

initial-IsCoherent : (hint : String) → IsCoherent (initial_companion_state hint)
initial-IsCoherent hint =
    coherent _ (λ id. omega arith) (λ i. ground arith) (λ i. ground arith)
      (λ i. absurd (omega arith)) (λ i. ground arith)

-- A phase that needs neither a tool nor a prompt.
abbrev is_calm : UiPhase → Bool
is_calm phase = not (is_tool phase || is_waiting phase)

calm_idle : (active : Bool) → is_calm (if active then thinking else ready) ≡ true
calm_idle true = refl
calm_idle false = refl

busy-tool :
    (tools : List ActiveTool) (idle : UiPhase)
    → is_calm idle ≡ true
    → is_tool (busy_phase tools idle) ≡ true
    → 0 < length tools
busy-tool [] idle c h = ground arith
busy-tool (t ∷ rest) idle c h = omega arith

busy-waiting {ℓ} :
    {P : Type ℓ} (tools : List ActiveTool) (idle : UiPhase)
    → is_calm idle ≡ true
    → is_waiting (busy_phase tools idle) ≡ true
    → P
busy-waiting [] idle c h = absurd (ground arith)
busy-waiting (t ∷ rest) idle c h = absurd (ground arith)

fewer-one :
    (state : CompanionState) (id : String)
    → IsCoherent state
    → (j : String) → entries_of j (delete_tool id state.active_tools) ≤ 1
fewer-one state id h j = omega (arith, h.one_entry j, delete_tool-entries id j state.active_tools)

fewer-agent :
    (state : CompanionState) (id : String)
    → IsCoherent state
    → 0 < length (delete_tool id state.active_tools)
    → state.agent_active ≡ true
fewer-agent state id h i = h.has_agent (omega (arith, i, delete_tool-length id state.active_tools))

tool_ended-IsCoherent :
    (state : CompanionState) (id name : String) (failed : Bool)
    → IsCoherent state
    → IsCoherent (tool_ended state name failed (delete_tool id state.active_tools))
tool_ended-IsCoherent state id name true h =
    coherent _ (fewer-one state id h) (λ i. ground arith) (λ i. ground arith)
      (fewer-agent state id h) (λ i. refl)
tool_ended-IsCoherent state id name false h = elim (Bool-cases state.had_error) [
  | inl e ↦ rw e (
      coherent _ (fewer-one state id h) (λ i. ground arith) (λ i. ground arith)
        (fewer-agent state id h) (λ i. refl))
  | inr e ↦ rw e (
      coherent _ (fewer-one state id h) (busy-tool _ thinking refl) (busy-waiting _ thinking refl)
        (fewer-agent state id h) (λ i. ground arith))
]

ltb_pos : (n : ℕ) → ltb 0 (suc n) ≡ true
ltb_pos n = ground arith

prompt_ended-IsCoherent :
    (state : CompanionState) (depth : ℕ) → IsCoherent state → IsCoherent (prompt_ended state depth)
prompt_ended-IsCoherent state (suc depth) h =
    rw (ltb_pos depth)
      (coherent _ h.one_entry (λ i. ground arith) (λ i. omega arith) h.has_agent (λ i. refl))
prompt_ended-IsCoherent state zero h = elim (Bool-cases state.had_error) [
  | inl e ↦
      rw e (coherent _ h.one_entry (λ i. ground arith) (λ i. ground arith) h.has_agent (λ i. refl))
  | inr e ↦ rw e (
      coherent _ h.one_entry (busy-tool _ _ (calm_idle state.agent_active))
        (busy-waiting _ _ (calm_idle state.agent_active)) h.has_agent (λ i. ground arith))
]

settled_state-IsCoherent :
    (state : CompanionState) → IsCoherent state → IsCoherent (settled_state state)
settled_state-IsCoherent state h = elim (Bool-cases (state.had_error || is_error state.phase)) [
  | inl e ↦
      rw e
        (idle-IsCoherent state error _ false state.had_error refl (λ i. ground arith) (λ i. refl))
  | inr e ↦ elim (Bool-cases (is_stopped state.phase)) [
    | inl s ↦
        rw (e, s)
          (idle-IsCoherent state stopped _ false state.had_error refl (λ i. ground arith)
            (λ i. ground arith))
    | inr s ↦
        rw (e, s)
          (idle-IsCoherent state complete _ false state.had_error refl (λ i. ground arith)
            (λ i. ground arith))
  ]
]

stream-IsCoherent :
    (state : CompanionState) (kind : StreamKind)
    → IsCoherent state
    → IsCoherent (reduce_companion_state state (stream kind))
unfolding reduce_companion_state
stream-IsCoherent state thinking_kind h =
    phase-IsCoherent state thinking _ true false h refl refl (λ i. refl) (λ i. ground arith)
stream-IsCoherent state text_kind h =
    phase-IsCoherent state responding _ true false h refl refl (λ i. refl) (λ i. ground arith)
stream-IsCoherent state toolcall_kind h =
    phase-IsCoherent state thinking _ true false h refl refl (λ i. refl) (λ i. ground arith)

-- Every action keeps the invariant.
reduce_companion_state-IsCoherent :
    (state : CompanionState) (action : CompanionAction)
    → IsCoherent state
    → IsCoherent (reduce_companion_state state action)
unfolding reduce_companion_state
reduce_companion_state-IsCoherent state (session hint) h = initial-IsCoherent (or_else hint "")
reduce_companion_state-IsCoherent state agent_start h =
    idle-IsCoherent state thinking "" true false refl (λ i. ground arith) (λ i. ground arith)
reduce_companion_state-IsCoherent state (stream kind) h = stream-IsCoherent state kind h
reduce_companion_state-IsCoherent state (tool_start id name) h = elim (Bool-cases state.had_error) [
  | inl e ↦ rw e (
      coherent _ (λ j. set_tool-entries id name j state.active_tools (h.one_entry j))
        (λ i. set_tool_pos id name state.active_tools) (λ i. ground arith) (λ i. refl) (λ i. refl))
  | inr e ↦ rw e (
      coherent _ (λ j. set_tool-entries id name j state.active_tools (h.one_entry j))
        (λ i. set_tool_pos id name state.active_tools) (λ i. ground arith) (λ i. refl)
        (λ i. ground arith))
]
reduce_companion_state-IsCoherent state (tool_end id name failed) h =
    tool_ended-IsCoherent state id name failed h
reduce_companion_state-IsCoherent state (prompt_start title) h =
    coherent _ h.one_entry (λ i. ground arith) (λ i. omega arith) h.has_agent (λ i. refl)
reduce_companion_state-IsCoherent state prompt_end h =
    prompt_ended-IsCoherent state (state.prompt_depth - 1) h
reduce_companion_state-IsCoherent state compact_start h =
    phase-IsCoherent state compacting "" _ _ h refl refl (λ i. i) (λ i. refl)
reduce_companion_state-IsCoherent state compact_end h =
    phase-IsCoherent state ready "compacted" _ false h refl refl (λ i. i) (λ i. ground arith)
reduce_companion_state-IsCoherent state (compact_fail true text) h =
    phase-IsCoherent state stopped _ _ false h refl refl (λ i. i) (λ i. ground arith)
reduce_companion_state-IsCoherent state (compact_fail false text) h =
    phase-IsCoherent state error _ _ true h refl refl (λ i. i) (λ i. refl)
reduce_companion_state-IsCoherent state (message_error true text) h =
    phase-IsCoherent state stopped _ _ false h refl refl (λ i. i) (λ i. ground arith)
reduce_companion_state-IsCoherent state (message_error false text) h =
    phase-IsCoherent state error _ _ true h refl refl (λ i. i) (λ i. refl)
reduce_companion_state-IsCoherent state settled h = settled_state-IsCoherent state h

reduce_all-IsCoherent :
    (state : CompanionState) (actions : List CompanionAction)
    → IsCoherent state
    → IsCoherent (reduce_all state actions)
unfolding reduce_all
reduce_all-IsCoherent state [] h = h
reduce_all-IsCoherent state (action ∷ rest) h =
    reduce_all-IsCoherent (reduce_companion_state state action) rest
      (reduce_companion_state-IsCoherent state action h)

-- Whatever actions arrive after the first state: each active tool has one entry, the tool phase has a
-- tool to show and the waiting phase an open prompt, an agent is active while tools are, and a
-- remembered error shows, but for a prompt or a compaction over it.
pub reduce_all-initial :
    (hint : String) (actions : List CompanionAction)
    → IsCoherent (reduce_all (initial_companion_state hint) actions)
reduce_all-initial hint actions =
    reduce_all-IsCoherent (initial_companion_state hint) actions (initial-IsCoherent hint)

-- ===== src/Companion/Errors.antt =====
-- Errors and the status line of src/tui/model.ts.
use steak_pi.Prelude.{
  ◌<◌, String, ◌≡◌, refl, ◌⊎◌, inl, inr, Bool, true, false, List, [], ◌∷◌, arith, length, All,
  decimal,
}
use steak_pi.Companion.{
  ActiveTool, CompanionState, CompanionAction, initial_companion_state, reduce_companion_state,
  reduce_all, tools_text, status_presentation, tool, error, session, agent_start, prompt_end,
  compact_start, compact_end, settled, stream, tool_start, tool_end, prompt_start, compact_fail,
  message_error,
}
use Prim.Native.String.{◌++◌ as concat}
use steak_pi.Companion.Coherent.{reduce_all-initial}

-- The actions that forget an error: a new session, agent run or stream, and a compaction or a message
-- that ended well or was aborted.
abbrev pub forgets : CompanionAction → Bool
forgets (session hint) = true
forgets agent_start = true
forgets (stream kind) = true
forgets compact_end = true
forgets (compact_fail aborted text) = aborted
forgets (message_error aborted text) = aborted
forgets _ = false

keeps_error :
    (state : CompanionState) (action : CompanionAction)
    → forgets action ≡ false
    → state.had_error ≡ true
    → (reduce_companion_state state action).had_error ≡ true
unfolding reduce_companion_state
keeps_error state (session hint) f h = ground arith
keeps_error state agent_start f h = ground arith
keeps_error state (stream kind) f h = ground arith
keeps_error state compact_end f h = ground arith
keeps_error state (compact_fail aborted text) f h = ground arith
keeps_error state (message_error aborted text) f h = ground arith
keeps_error state (tool_start id name) f h = h
keeps_error state (tool_end id name true) f h = refl
keeps_error state (tool_end id name false) f h = rw h refl
keeps_error state (prompt_start title) f h = h
keeps_error state prompt_end f h = h
keeps_error state compact_start f h = h
keeps_error state settled f h = h

-- An error is shown when the agent settles, whatever happened since that does not forget it.
pub settled-error :
    (state : CompanionState) (actions : List CompanionAction)
    → All (λ a. forgets a ≡ false) actions
    → state.had_error ≡ true
    → (reduce_companion_state (reduce_all state actions) settled).phase ≡ error
unfolding reduce_all reduce_companion_state
settled-error state [] kept h = rw h refl
settled-error state (action ∷ rest) kept h =
    settled-error (reduce_companion_state state action) rest kept.1
      (keeps_error state action kept.0 h)

-- The status line names the only tool that runs, or says how many run.
abbrev pub NamesTools : List ActiveTool → String → Type 0
NamesTools tools text =
    ((t : ActiveTool) × (tools ≡ t ∷ []) × (text ≡ concat "◆ tool " t.name))
    ⊎ ((1 < length tools) × (text ≡ concat "◆ tools " (decimal (length tools))))

tools_text-NamesTools :
    (tools : List ActiveTool) → 0 < length tools → NamesTools tools (tools_text tools)
tools_text-NamesTools [] h = absurd (omega arith)
tools_text-NamesTools (t ∷ []) h = inl (t, refl, refl)
tools_text-NamesTools (t ∷ u ∷ rest) h = inr (omega arith, refl)

-- In the tool phase of a reached state the status line names the only active tool or says how many are
-- active: it never shows the fallback for an unknown tool.
pub status_presentation-NamesTools :
    (hint : String) (actions : List CompanionAction)
    → let state = reduce_all (initial_companion_state hint) actions in
      state.phase ≡ tool → NamesTools state.active_tools (status_presentation state).text
unfolding status_presentation
status_presentation-NamesTools hint actions e =
    let state = reduce_all (initial_companion_state hint) actions in
    rw e (
      tools_text-NamesTools state.active_tools
        ((reduce_all-initial hint actions).has_tool (rw e refl)))

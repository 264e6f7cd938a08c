-- ===== src/Companion/Tests.antt =====
-- A session of src/tui/model.ts with two tools, one of which fails.
use steak_pi.Prelude.{◌≡◌, refl, List, [], ◌∷◌}
use steak_pi.Companion.{
  CompanionAction, initial_companion_state, reduce_companion_state, reduce_all, status_presentation,
  tool, agent_start, tool_start,
}
use steak_pi.Companion.Coherent.{IsCoherent, reduce_all-initial}
use steak_pi.Companion.Errors.{NamesTools, status_presentation-NamesTools}

abbrev two_tools : List CompanionAction
two_tools = agent_start ∷ tool_start "1" "read" ∷ tool_start "2" "bash" ∷ []

reduce_all-initial_example : IsCoherent (reduce_all (initial_companion_state "hi") two_tools)
reduce_all-initial_example = reduce_all-initial "hi" two_tools

two_tools_phase : (reduce_all (initial_companion_state "") two_tools).phase ≡ tool
unfolding reduce_all reduce_companion_state
two_tools_phase = refl

status_presentation-NamesTools_example :
    let state = reduce_all (initial_companion_state "") two_tools in
    NamesTools state.active_tools (status_presentation state).text
status_presentation-NamesTools_example = status_presentation-NamesTools "" two_tools two_tools_phase

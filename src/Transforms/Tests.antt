-- ===== src/Transforms/Tests.antt =====
-- A session of extensions/ultracompress/src/transforms.ts with one old read.
use steak_pi.Prelude.{none, some, List, [], ◌∷◌, All}
use steak_pi.Transforms.{AgentLikeMessage, collect_candidates, assistant, tool_result, plain}
use steak_pi.Transforms.Candidates.{IsCandidate, collect_candidates-IsCandidate}

abbrev session : List AgentLikeMessage
session =
    record { role = tool_result; tool_name = some "read"; content = plain "a long text" }
    ∷ record { role = assistant; tool_name = none; content = plain "so" }
    ∷ []

collect_candidates-IsCandidate_example :
    All (IsCandidate 4 session) (collect_candidates session 4 (λ text. text))
collect_candidates-IsCandidate_example = collect_candidates-IsCandidate session 4 (λ text. text)

-- ===== src/Transforms.antt =====
-- extensions/ultracompress/src/transforms.ts: which tool results may be archived, and where the frames
-- of an archived result go.
-- Of a block only its text is read here; a block without a text is `none`.
pub mod Candidates
mod Tests
use steak_pi.Prelude.{
  ℕ, suc, ◌-◌, String, Bool, true, false, not, ◌&&◌, ◌||◌, Option, none, some, List, [], ◌∷◌, ◌++◌,
  ltb, leb, if◌then◌else◌, length, find_index, take, drop, str_eq, units,
}

pub data Role : Type 0 where
  user assistant tool_result other_role : Role

pub data Content : Type 0 where
  plain : String → Content
  blocks : List (Option String) → Content

pub record AgentLikeMessage : Type 0 where
  pub role : Role
  pub tool_name : Option String
  pub content : Content

pub record TextBlock : Type 0 where
  pub index : ℕ
  pub text : String

pub record Candidate : Type 0 where
  pub message_index : ℕ
  pub block_index : ℕ
  pub text : String
  pub key : String

unfoldable pub texts_from : ℕ → List (Option String) → List TextBlock
texts_from i [] = []
texts_from i (none ∷ rest) = texts_from (suc i) rest
texts_from i (some text ∷ rest) = record { index = i; text = text } ∷ texts_from (suc i) rest

unfoldable pub text_blocks : Content → List TextBlock
unfolding texts_from
text_blocks (plain text) = if str_eq text "" then [] else record { index = 0; text = text } ∷ []
text_blocks (blocks bs) = texts_from 0 bs

abbrev pub is_user : AgentLikeMessage → Bool
is_user m = elim m.role [
  | user ↦ true
  | assistant ↦ false
  | tool_result ↦ false
  | other_role ↦ false
]

abbrev pub is_assistant : AgentLikeMessage → Bool
is_assistant m = elim m.role [
  | user ↦ false
  | assistant ↦ true
  | tool_result ↦ false
  | other_role ↦ false
]

abbrev pub is_tool_result : AgentLikeMessage → Bool
is_tool_result m = elim m.role [
  | user ↦ false
  | assistant ↦ false
  | tool_result ↦ true
  | other_role ↦ false
]

abbrev pub is_named : AgentLikeMessage → String → Bool
is_named m name = elim m.tool_name [ none ↦ false | some tool ↦ str_eq tool name ]

unfoldable pub is_retrieval_result : AgentLikeMessage → Bool
is_retrieval_result m = is_tool_result m && is_named m "ultracompress_recall"

-- The last index that passes a test, among entries that are counted from a number.
unfoldable pub last_index : (AgentLikeMessage → Bool) → ℕ → List AgentLikeMessage → Option ℕ
last_index p i [] = none
last_index p i (m ∷ rest) = elim (last_index p (suc i) rest) [
  | some j ↦ some j
  | none ↦ if p m then some i else none
]

-- `none` stands for -1.
unfoldable pub last_assistant_index : List AgentLikeMessage → Option ℕ
unfolding last_index
last_assistant_index = last_index is_assistant 0

abbrev pub is_after : ℕ → Option ℕ → Bool
is_after i none = true
is_after i (some j) = ltb j i

-- A message that is left as it is: no tool result, a retrieval, or a read that no request has seen.
unfoldable pub is_exempt : AgentLikeMessage → ℕ → Option ℕ → Bool
unfolding is_retrieval_result
is_exempt m i last =
    not (is_tool_result m)
    || is_retrieval_result m
    || ((is_named m "read" || is_named m "bash") && is_after i last)

-- The text blocks of one message that are long enough.
unfoldable pub candidates_of : ℕ → (String → String) → ℕ → List TextBlock → List Candidate
candidates_of min_chars key_fn i [] = []
candidates_of min_chars key_fn i (b ∷ rest) =
    let later = candidates_of min_chars key_fn i rest in
    if leb min_chars (units b.text)
    then record { message_index = i; block_index = b.index; text = b.text; key = key_fn b.text }
      ∷ later
    else later

unfoldable pub collect_from :
    ℕ → (String → String) → Option ℕ → ℕ → List AgentLikeMessage → List Candidate
unfolding candidates_of is_exempt text_blocks
collect_from min_chars key_fn last i [] = []
collect_from min_chars key_fn last i (m ∷ rest) =
    (if is_exempt m i last then [] else candidates_of min_chars key_fn i (text_blocks m.content))
    ++ collect_from min_chars key_fn last (suc i) rest

unfoldable pub collect_candidates : List AgentLikeMessage → ℕ → (String → String) → List Candidate
unfolding collect_from last_assistant_index
collect_candidates messages min_chars key_fn =
    collect_from min_chars key_fn (last_assistant_index messages) 0 messages

-- The next user message after an index, or else the nearest before it; `none` stands for -1.
unfoldable pub next_user_index : List AgentLikeMessage → ℕ → Option ℕ
unfolding last_index
next_user_index messages from = elim (find_index is_user (suc from) (drop (suc from) messages)) [
  | some i ↦ some i
  | none ↦ last_index is_user 0 (take from messages)
]

-- The keys of the cache in insertion order: the oldest ones over the limit go.
unfoldable pub cap_cache : List String → ℕ → List String
cap_cache keys max_size =
    if leb (length keys) max_size then keys else drop (length keys - max_size) keys

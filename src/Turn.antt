-- ===== src/Turn.antt =====
-- extensions/claude-code/turn-relay.ts: `AnthropicCapture`, which reads the event stream of one turn while
-- it is passed on. Text is the list of its UTF-16 units. `JSON.parse` of an event and of the arguments of
-- a tool is a parameter, and so is the text decoder; a stream that makes one of them throw has no state
-- afterwards. `J` is the type of JSON objects, `U` that of token counts.
pub mod Frames
pub mod Apply
pub mod Capture
pub mod Chunks
pub mod Relay
pub mod Limits
mod Tests
use steak_pi.Prelude.{ℕ, Bool, Option, none, some, List}

abbrev pub Text : Type 0
Text = List ℕ

pub data Delta : Type 0 where
  text_delta thinking_delta signature_delta input_json_delta : Text → Delta

-- What an event sets: a field that is not there, `null`, or a text.
pub data Patch : Type 0 where
  untouched nulled : Patch
  set_to : Text → Patch

module _ (J U : Type 0) where
  pub data NativeContentBlock : Type 0 where
    text_block : Text → NativeContentBlock
    thinking_block : Text → Option Text → NativeContentBlock
    redacted_thinking : NativeContentBlock
    tool_use : J → NativeContentBlock

  -- `content` may have holes, as an event sets any index. `extra` are the fields the code does not name.
  pub record NativeMessage : Type 0 where
    pub content : List (Option NativeContentBlock)
    pub usage : Option U
    pub stop_reason : Option Text
    pub stop_sequence : Option Text
    pub extra : List (Text × J)

  pub data AnthropicStreamEvent : Type 0 where
    message_start : NativeMessage → AnthropicStreamEvent
    content_block_start : ℕ → NativeContentBlock → AnthropicStreamEvent
    content_block_delta : ℕ → Delta → AnthropicStreamEvent
    content_block_stop : ℕ → AnthropicStreamEvent
    message_delta : Patch → Patch → List (Text × J) → Option U → AnthropicStreamEvent
    message_stop : AnthropicStreamEvent
    error_event : Text → Text → AnthropicStreamEvent
    unknown_event : AnthropicStreamEvent

  -- What has been read of the turn; `events` are the calls of `onEvent`.
  pub record Seen : Type 0 where
    pub message : Option NativeMessage
    pub complete : Bool
    pub error : Option Text
    pub arguments : List (ℕ × Text)
    pub events : List AnthropicStreamEvent

  pub record AnthropicCapture (D : Type 0) : Type 0 where
    pub seen : Seen
    pub pending : Text
    pub decoder : D

abbrev pub and_then {ℓ κ} : {A : Type ℓ} {B : Type κ} → Option A → (A → Option B) → Option B
and_then none f = none
and_then (some a) f = f a

-- ===== src/Turn/Capture.antt =====
-- `AnthropicCapture` of extensions/claude-code/turn-relay.ts: `feed`, `finish` and `consumeFrames`.
use steak_pi.Prelude.{
  ℕ, zero, suc, Bool, true, false, Option, none, some, List, [], ◌∷◌, ◌++◌, ◌==◌, if◌then◌else◌,
  length, is_space,
}
use steak_pi.Turn.{Text, AnthropicStreamEvent, Seen, AnthropicCapture, and_then}
use steak_pi.Turn.Frames.{line_feed, newline, find_frame}
use steak_pi.Turn.Apply.{apply}

-- `frame.split(/\r?\n/)`
unfoldable pub split_lines : Text → List Text
unfolding newline line_feed
split_lines [] = [] ∷ []
split_lines (c ∷ s) = split_at c (is_present (newline (c ∷ s))) (split_lines s)
  where
    is_present : Option Text → Bool
    is_present none = false
    is_present (some t) = true

    add : ℕ → List Text → List Text
    add c [] = (c ∷ []) ∷ []
    add c (l ∷ ls) = (c ∷ l) ∷ ls

    -- A carriage return before a line feed goes with it, and the line feed ends the line.
    split_at : ℕ → Bool → List Text → List Text
    split_at c ends lines = if c == 10 then [] ∷ lines else if ends then lines else add c lines

-- The text after `prefix`, if it begins with it.
unfoldable pub without_prefix : Text → Text → Option Text
without_prefix [] s = some s
without_prefix (c ∷ p) [] = none
without_prefix (c ∷ p) (d ∷ s) = let rest = without_prefix p s in if c == d then rest else none

-- "data:"
abbrev pub data_prefix : Text
data_prefix = 100 ∷ 97 ∷ 116 ∷ 97 ∷ 58 ∷ []

unfoldable pub trim_start_text : Text → Text
trim_start_text [] = []
trim_start_text (c ∷ s) = if is_space c then trim_start_text s else c ∷ s

abbrev pub data_lines : List Text → List Text
data_lines [] = []
data_lines (l ∷ ls) = add (without_prefix data_prefix l) (data_lines ls)
  where
    add : Option Text → List Text → List Text
    add none rest = rest
    add (some t) rest = trim_start_text t ∷ rest

-- `.join("\n")`
abbrev pub join_text : List Text → Text
join_text [] = []
join_text (l ∷ []) = l
join_text (l ∷ m ∷ ls) = l ++ 10 ∷ join_text (m ∷ ls)

abbrev pub frame_data : Text → Text
frame_data frame = join_text (data_lines (split_lines frame))

-- No data, or the mark at the end of a stream.
unfoldable pub is_skipped : Text → Bool
unfolding without_prefix
is_skipped [] = true
is_skipped (c ∷ s) = is_done (without_prefix (91 ∷ 68 ∷ 79 ∷ 78 ∷ 69 ∷ 93 ∷ []) (c ∷ s))
  where
    is_done : Option Text → Bool
    is_done (some []) = true
    is_done _ = false

-- The text decoder: a state, and what a chunk of bytes adds to the text.
pub record TextDecoder (D : Type 0) : Type 0 where
  pub decode : D → List ℕ → D × Text
  pub flush : D → D × Text

-- What `JSON.parse` and the merging of token counts are.
pub record Parsers (J U : Type 0) : Type 0 where
  pub parse_event : Text → Option (AnthropicStreamEvent J U)
  pub parse_input : Text → Option J
  pub no_input : J
  pub merge : Option U → U → U
  pub unknown_error : Text

module _ {J U : Type 0} (parsers : Parsers J U) where
  abbrev pub apply_event : Seen J U → AnthropicStreamEvent J U → Option (Seen J U)
  apply_event c event =
      and_then
        (apply J U parsers.parse_input parsers.no_input parsers.merge parsers.unknown_error c event)
        λ c'. some (record c' { events = c'.events ++ (event ∷ []) })

  -- One frame.
  unfoldable pub process : Seen J U → Text → Option (Seen J U)
  process c frame =
      let data_text = frame_data frame in
      if is_skipped data_text
      then some c
      else and_then (parsers.parse_event data_text) (apply_event c)

  -- The first frame, if there is one, then what is read of the text after it.
  abbrev pub on_frame :
      Text
      → Seen J U
      → (Text → Seen J U → Option (Seen J U × Text))
      → Option (Text × Text)
      → Option (Seen J U × Text)
  on_frame s c later none = some (c, s)
  on_frame s c later (some (frame, rest)) = and_then (process c frame) (later rest)

  -- The frames that are complete, and the text that is left; a frame is shorter than the text.
  unfoldable pub consume_frames : ℕ → Text → Seen J U → Option (Seen J U × Text)
  consume_frames zero s c = some (c, s)
  consume_frames (suc fuel) s c =
      on_frame s c (λ rest c'. consume_frames fuel rest c') (find_frame s)

  module _ {D : Type 0} (decoder : TextDecoder D) where
    abbrev pub take_text : AnthropicCapture J U D → D × Text → Option (AnthropicCapture J U D)
    take_text c (state, text) =
        let s = c.pending ++ text in
        and_then (consume_frames (length s) s c.seen)
          λ x. some (record { seen = x.0; pending = x.1; decoder = state })

    unfoldable pub feed : AnthropicCapture J U D → List ℕ → Option (AnthropicCapture J U D)
    feed c chunk = take_text c (decoder.decode c.decoder chunk)

    unfoldable pub finish : AnthropicCapture J U D → Option (AnthropicCapture J U D)
    finish c = take_text c (decoder.flush c.decoder)

    -- The chunks of the response as they arrive, and its end.
    unfoldable pub feed_all :
        AnthropicCapture J U D → List (List ℕ) → Option (AnthropicCapture J U D)
    feed_all c [] = some c
    feed_all c (chunk ∷ chunks) = and_then (feed c chunk) λ c'. feed_all c' chunks

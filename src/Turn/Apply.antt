-- ===== src/Turn/Apply.antt =====
-- `apply` of extensions/claude-code/turn-relay.ts: what one event of the stream does to the message.
use steak_pi.Prelude.{
  ℕ, zero, suc, Bool, true, false, ◌&&◌, Option, none, some, List, [], ◌∷◌, ◌++◌, ltb, leb, ◌==◌,
  if◌then◌else◌, or_else, length, is_space,
}
use steak_pi.Turn.{
  Text, Delta, Patch, NativeContentBlock, NativeMessage, AnthropicStreamEvent, Seen, and_then,
  text_delta, thinking_delta, signature_delta, input_json_delta, untouched, nulled, set_to,
  text_block, thinking_block, redacted_thinking, tool_use, message_start, content_block_start,
  content_block_delta, content_block_stop, message_delta, message_stop, error_event, unknown_event,
}

-- `content[index] = block`, past the end with holes.
abbrev pub set_block {ℓ} : {A : Type ℓ} → List (Option A) → ℕ → A → List (Option A)
set_block [] zero b = some b ∷ []
set_block [] (suc i) b = none ∷ set_block [] i b
set_block (x ∷ xs) zero b = some b ∷ xs
set_block (x ∷ xs) (suc i) b = x ∷ set_block xs i b

abbrev pub block_at {ℓ} : {A : Type ℓ} → List (Option A) → ℕ → Option A
block_at [] i = none
block_at (x ∷ xs) zero = x
block_at (x ∷ xs) (suc i) = block_at xs i

abbrev pub arguments_at : List (ℕ × Text) → ℕ → Option Text
arguments_at [] i = none
arguments_at (x ∷ xs) i = if x.0 == i then some x.1 else arguments_at xs i

abbrev pub set_arguments : List (ℕ × Text) → ℕ → Text → List (ℕ × Text)
set_arguments [] i t = (i, t) ∷ []
set_arguments (x ∷ xs) i t = if x.0 == i then (i, t) ∷ xs else x ∷ set_arguments xs i t

abbrev pub delete_arguments : List (ℕ × Text) → ℕ → List (ℕ × Text)
delete_arguments [] i = []
delete_arguments (x ∷ xs) i = if x.0 == i then xs else x ∷ delete_arguments xs i

-- `text.trim()` is empty.
unfoldable pub is_blank_text : Text → Bool
is_blank_text [] = true
is_blank_text (c ∷ s) = is_space c && is_blank_text s

-- `[type, message].filter(Boolean).join(": ") || "unknown stream error"`
unfoldable pub error_text : Text → Text → Text → Text
error_text unknown [] [] = unknown
error_text unknown [] (c ∷ m) = c ∷ m
error_text unknown (c ∷ t) [] = c ∷ t
error_text unknown (c ∷ t) (d ∷ m) = (c ∷ t) ++ 58 ∷ 32 ∷ d ∷ m

abbrev pub patched : Patch → Option Text → Option Text
patched untouched old = old
patched nulled old = none
patched (set_to t) old = some t

abbrev is_same_text : Text → Text → Bool
is_same_text [] [] = true
is_same_text [] (d ∷ u) = false
is_same_text (c ∷ t) [] = false
is_same_text (c ∷ t) (d ∷ u) = c == d && is_same_text t u

-- `message[key] = value`, a new key at the end.
abbrev pub set_field {ℓ} : {J : Type ℓ} → List (Text × J) → Text × J → List (Text × J)
set_field [] field = field ∷ []
set_field (old ∷ rest) field =
    if is_same_text old.0 field.0 then field ∷ rest else old ∷ set_field rest field

abbrev pub assigned {ℓ} : {J : Type ℓ} → List (Text × J) → List (Text × J) → List (Text × J)
assigned old [] = old
assigned old (field ∷ fields) = assigned (set_field old field) fields

abbrev pub is_reason : Option Text → Bool
is_reason none = false
is_reason (some t) = ltb 0 (length t)

module _ (J U : Type 0) (parse_input : Text → Option J) (no_input : J) (merge : Option U → U → U)
    (unknown_error : Text) where
  abbrev pub with_content :
      Seen J U → NativeMessage J U → List (Option (NativeContentBlock J U)) → Seen J U
  with_content c m content = record c { message = some (record m { content = content }) }

  -- A delta of a block that is there.
  unfoldable pub apply_delta :
      Seen J U → NativeMessage J U → ℕ → NativeContentBlock J U → Delta → Seen J U
  apply_delta c m i (text_block text) (text_delta t) =
      with_content c m (set_block m.content i (text_block (text ++ t)))
  apply_delta c m i (thinking_block text signature) (thinking_delta t) =
      with_content c m (set_block m.content i (thinking_block (text ++ t) signature))
  apply_delta c m i (thinking_block text signature) (signature_delta t) =
      with_content c m
        (set_block m.content i (thinking_block text (some (or_else signature [] ++ t))))
  apply_delta c m i (tool_use input) (input_json_delta t) = record c {
    arguments = set_arguments c.arguments i (or_else (arguments_at c.arguments i) [] ++ t);
  }
  apply_delta c m i block delta = c

  abbrev pub input_of : Text → Option J
  input_of raw = if is_blank_text raw then some no_input else parse_input raw

  -- The end of a tool's block with arguments.
  abbrev pub stop_tool : Seen J U → NativeMessage J U → ℕ → Option Text → Option (Seen J U)
  stop_tool c m i none = some c
  stop_tool c m i (some raw) = and_then (input_of raw) λ input.
      some (record (with_content c m (set_block m.content i (tool_use input))) {
        arguments = delete_arguments c.arguments i;
      })

  abbrev pub on_block :
      Seen J U
      → ℕ
      → (NativeMessage J U → NativeContentBlock J U → Option (Seen J U))
      → Option (Seen J U)
  on_block c i act = in_message c.message
    where
      in_content : NativeMessage J U → Option (NativeContentBlock J U) → Option (Seen J U)
      in_content m none = some c
      in_content m (some block) = act m block

      in_message : Option (NativeMessage J U) → Option (Seen J U)
      in_message none = some c
      in_message (some m) = in_content m (block_at m.content i)

  abbrev pub stop_block :
      Seen J U → ℕ → NativeMessage J U → NativeContentBlock J U → Option (Seen J U)
  stop_block c i m (tool_use input) = stop_tool c m i (arguments_at c.arguments i)
  stop_block c i m (text_block t) = some c
  stop_block c i m (thinking_block t s) = some c
  stop_block c i m redacted_thinking = some c

  abbrev pub merged : Option U → Option U → Option U
  merged old none = old
  merged old (some u) = some (merge old u)

  -- `Object.assign(message, delta)`: each field of the delta replaces the message's, then the usage is
  -- merged. A delta has no `content` or `usage` of its own.
  abbrev pub patch_message :
      Seen J U → Option (NativeMessage J U) → Patch → Patch → List (Text × J) → Option U → Seen J U
  patch_message c none reason sequence extra usage = c
  patch_message c (some m) reason sequence extra usage = record c {
    message = some (record m {
      stop_reason = patched reason m.stop_reason;
      stop_sequence = patched sequence m.stop_sequence;
      extra = assigned m.extra extra;
      usage = merged m.usage usage;
    });
  }

  abbrev pub start_block :
      Seen J U → Option (NativeMessage J U) → ℕ → NativeContentBlock J U → Seen J U
  start_block c none i block = c
  start_block c (some m) i block = with_content c m (set_block m.content i block)

  abbrev pub has_reason : Option (NativeMessage J U) → Bool
  has_reason none = false
  has_reason (some m) = is_reason m.stop_reason

  unfoldable pub apply : Seen J U → AnthropicStreamEvent J U → Option (Seen J U)
  apply c (message_start m) = some (record c { message = some m })
  apply c (content_block_start i block) = some (start_block c c.message i block)
  apply c (content_block_delta i delta) =
      on_block c i λ m block. some (apply_delta c m i block delta)
  apply c (content_block_stop i) = on_block c i (stop_block c i)
  apply c (message_delta reason sequence extra usage) =
      some (patch_message c c.message reason sequence extra usage)
  apply c message_stop =
      some (record c { complete = has_reason c.message && leb (length c.arguments) 0 })
  apply c (error_event kind text) =
      some (record c { error = some (error_text unknown_error kind text) })
  apply c unknown_event = some c

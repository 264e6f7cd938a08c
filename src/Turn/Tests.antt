-- ===== src/Turn/Tests.antt =====
-- Runs of extensions/claude-code/turn-relay.ts.
use steak_pi.Prelude.{
  ℕ, ◌+◌, ◌≤◌, ◌≡◌, refl, true, false, Option, none, some, List, [], ◌∷◌, ◌==◌, if◌then◌else◌,
  is_space,
}
use steak_pi.Turn.{
  Text, NativeMessage, AnthropicStreamEvent, AnthropicCapture, message_start, message_stop,
}
use steak_pi.Turn.Frames.{line_feed, newline, blank_line, find_frame}
use steak_pi.Turn.Apply.{apply}
use steak_pi.Turn.Capture.{
  split_lines, without_prefix, trim_start_text, is_skipped, TextDecoder, Parsers, process,
  consume_frames, feed, feed_all,
}
use steak_pi.Turn.Relay.{
  new_relay, RelayCall, begin_turn, admit, relay_call, relay_calls, Attempt, attempts_from,
  relay_request, requests, served_ends, refused_ends, begins_turn, read_first, connection_failed,
  responded, commits,
}
use steak_pi.Turn.Limits.{
  serves, served, turns, relay_calls_single, WithinPolicy, relay_request-WithinPolicy,
}
use steak_pi.Turn.Chunks.{joined, feed_all-joined}

abbrev ended_message : NativeMessage (Unit {0}) (Unit {0})
ended_message = record {
  content = [];
  usage = none;
  stop_reason = some (120 ∷ []);
  stop_sequence = none;
  extra = [];
}

-- "m" stands for the start of that message, "e" for its end.
abbrev letter_events : Text → Option (AnthropicStreamEvent (Unit {0}) (Unit {0}))
letter_events [] = none
letter_events (c ∷ s) =
    if c == 109
    then some (message_start ended_message)
    else if c == 101
    then some message_stop
    else none

abbrev letters : Parsers (Unit {0}) (Unit {0})
letters = record {
  parse_event = letter_events;
  parse_input = λ t. none;
  no_input = tt;
  merge = λ old u. u;
  unknown_error = 63 ∷ [];
}

-- One byte a character.
abbrev plain_decoder : TextDecoder (Unit {0})
plain_decoder = record { decode = λ d bytes. (d, bytes); flush = λ d. (d, []) }

abbrev new_capture : AnthropicCapture (Unit {0}) (Unit {0}) (Unit {0})
new_capture = record {
  seen = record { message = none; complete = false; error = none; arguments = []; events = [] };
  pending = [];
  decoder = tt;
}

-- "data: m\r", "\n\r\ndata: e\n" and "\nda"
abbrev first_chunk : List ℕ
first_chunk = 100 ∷ 97 ∷ 116 ∷ 97 ∷ 58 ∷ 32 ∷ 109 ∷ 13 ∷ []

abbrev more_chunks : List (List ℕ)
more_chunks =
    (10 ∷ 13 ∷ 10 ∷ 100 ∷ 97 ∷ 116 ∷ 97 ∷ 58 ∷ 32 ∷ 101 ∷ 10 ∷ []) ∷ (10 ∷ 100 ∷ 97 ∷ []) ∷ []

cut_run :
    feed_all letters plain_decoder new_capture (first_chunk ∷ more_chunks)
    ≡ some (record {
      seen = record {
        message = some ended_message;
        complete = true;
        error = none;
        arguments = [];
        events = message_start ended_message ∷ message_stop ∷ [];
      };
      pending = 100 ∷ 97 ∷ [];
      decoder = tt;
    })
unfolding feed_all feed consume_frames find_frame blank_line newline line_feed process apply
    is_space split_lines without_prefix trim_start_text is_skipped
cut_run = refl

feed_all-joined_example :
    feed_all letters plain_decoder new_capture (first_chunk ∷ more_chunks)
    ≡ feed letters plain_decoder new_capture (joined first_chunk more_chunks)
feed_all-joined_example =
    feed_all-joined letters plain_decoder (λ d a b. refl) new_capture first_chunk more_chunks

abbrev two_turns : List RelayCall
two_turns =
    requests true ∷ requests true ∷ served_ends ∷ refused_ends ∷ begins_turn ∷ requests true ∷ []

two_turns_run : served new_relay two_turns ≡ 2
unfolding served serves relay_call admit begin_turn
two_turns_run = refl

relay_calls_single_example :
    ((relay_calls new_relay two_turns).serving ≤ 1)
    × (served new_relay two_turns ≤ 1 + turns two_turns)
relay_calls_single_example = relay_calls_single two_turns

-- The connection is reset, then the upstream is overloaded, then it answers.
abbrev flaky : ℕ → Attempt
flaky n = record {
  is_aborted = false;
  is_cancelled = false;
  outcome =
      if n == 1
      then connection_failed true
      else if n == 2
      then responded 529 read_first
      else responded 200 read_first;
  pause_fails = false;
}

flaky_run : relay_request 3 flaky ≡ commits (record { attempts = 3; retries = 2 })
unfolding relay_request attempts_from
flaky_run = refl

relay_request-WithinPolicy_example : WithinPolicy 3 (relay_request 3 flaky)
relay_request-WithinPolicy_example = relay_request-WithinPolicy 3 flaky

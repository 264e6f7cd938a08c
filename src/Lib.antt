-- ===== src/Lib.antt =====
-- The core of Steak Pi: the rules for subagents that run side by side, the plan list that the agent
-- keeps, the capture of a relayed response, a cache, and the line of the terminal that shows what it does.
--
-- Capacity models src/subagents/capacity.ts: the ceilings of a session and of the machine, as they are
--   loaded from the user's file. The file is a value: absent, unreadable or parsed.
-- Scheduler models src/subagents/scheduler.ts: `SessionScheduler`, which hands out launch slots under
--   those ceilings. A scheduler is a record; `acquire`, the call of a lease and the abort of a signal are
--   functions on it, and `run` is any sequence of them. A promise that is resolved is a lease in the
--   list, one that is rejected an entry of `rejected`.
-- Todo models src/todo-core.ts: `applyOp` and all of its operations. An operation returns the list as its
--   caller's object holds it afterwards, and the new list with its text, or the error.
-- Relay models src/subagents/relay.ts: Relay.Send is `send`, Relay.Inbox `readInbox` and the settlement
--   of a promised delivery, Relay.Broker the runs and the bound peers. A run's object identity is its
--   serial number, a binding's symbol its token. A delivery callback is a function of the envelope into
--   what the broker sees of it: a value, `false`, an exception or a promise. A callback that itself calls
--   the broker while `send` waits for it is not modelled. The clock is an argument.
-- Companion models src/tui/model.ts: the reducer behind the status line, and the text of that line.
-- Coordinator models src/subagents/coordinator.ts: a run is its record and its runtime in one, its tasks
--   are a list, and each stage of the asynchronous `execute` is an event that arrives at any time.
--   Coordinator.Registry is `start` and the pruning of settled runs.
-- Transforms models extensions/ultracompress/src/transforms.ts: which tool results may be archived.
-- AutoResume models src/subagents/auto-resume.ts: which failures of a worker are resumed.
--
-- MachineSlots models src/subagents/machine-slots.ts: one slot index is its lease file, its claim file and
--   the attempts of all processes on it, and each move is one file operation of `trySlot`, of the claim's
--   release or of the lease's, so a list of moves and deaths is any interleaving with crashes. The nonces
--   are unique, and a pid is not used again. MachineSlots.Bucket is `tryBucket`, `inspectBucket` and
--   `heldCount`, with what `kill(pid, 0)` says as a parameter. MachineSlots.Tickets
--   is the names and numbers of tickets; the queue of `acquire` is not modelled.
-- Policy models src/subagents/policy.ts: Policy.Paths is the path rules and `assertOwnedPath`, Policy.Request the
--   input and the checks of single fields, Policy.Ids `safeDisplayId`, Policy.Dispatch `normalizeDispatch`. The
--   functions of node:path and node:fs are a parameter. The walk of `physicalProjection` runs on fuel, the
--   path's length and one, which is enough when `dirname` shortens the absolute paths that it changes.
--   Callers may change files between a dispatch and a write; what is said of both takes one state of the files.
-- TextKeyCache models extensions/ultracompress/src/text-key-cache.ts, the memory of the keys that the
--   transforms look up; its map is the list of its entries, the oldest first.
-- Turn models `AnthropicCapture` of extensions/claude-code/turn-relay.ts, which reads a response while it is
--   relayed: Turn.Frames cuts the stream, Turn.Capture takes the data of a frame and feeds the capture, and
--   Turn.Apply is the effect of an event on the message. Text is a list of UTF-16 units. `consumeFrames` runs
--   on fuel, the length of the text, which is enough since each frame shortens it. `JSON.parse`, the text
--   decoder and the merging of token counts are parameters. Turn.Relay is which requests
--   `TurnRelay` serves and how often it tries one; headers, sockets and the rest of a response are left out.
-- The coordinator is the client of Capacity and Scheduler: a task gets a slot of the session before it
-- starts. The tasks of a run talk over one run of Relay.
--
-- Numbers are natural numbers: the program's counters are small integers far below 2^53, and where a
-- number comes from outside, its check (integer, safe, positive) is part of the model. Map keys are
-- strings. Loops are structural recursion on lists, with four exceptions that take fuel: the printing
-- of decimals (fuel is the number: each step divides by ten), the walk of `physicalProjection`,
-- `consumeFrames` of the stream (each frame shortens the text) and the attempts of a relayed request,
-- whose number the policy bounds.
--
-- Not modelled: the drawing of the terminal, child processes, files and sockets, the host's extension
-- interface, and the routing tables of models; they are glue around the components above or checks of
-- long configuration files.
pub mod Prelude
pub mod Capacity
pub mod Scheduler
pub mod TextKeyCache
pub mod Todo
pub mod Policy
pub mod Relay
pub mod Companion
pub mod Coordinator
pub mod Transforms
pub mod Turn
pub mod AutoResume
pub mod MachineSlots

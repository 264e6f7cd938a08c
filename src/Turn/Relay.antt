-- ===== src/Turn/Relay.antt =====
-- `TurnRelay` of extensions/claude-code/turn-relay.ts: which requests of the worker are relayed, and how often
-- one is tried. A request that `handle` lets through is served; the attempts of one request are given by
-- what happens in each.
use steak_pi.Prelude.{
  ℕ, zero, suc, ◌+◌, ◌-◌, Bool, true, false, not, ◌&&◌, ◌||◌, List, [], ◌∷◌, ltb, ◌==◌,
  if◌then◌else◌,
}

pub record TurnRelay : Type 0 where
  pub used : Bool
  pub cancelled : Bool
  pub closed : Bool
  pub denied : ℕ
  -- The operations in `active`: requests that are served, and those that are refused.
  pub serving : ℕ
  pub refusing : ℕ

abbrev pub new_relay : TurnRelay
new_relay = record {
  used = false;
  cancelled = false;
  closed = false;
  denied = 0;
  serving = 0;
  refusing = 0;
}

-- A request with whether method, path and origin fit, the end of an operation, and the calls of the host.
pub data RelayCall : Type 0 where
  requests : Bool → RelayCall
  served_ends refused_ends : RelayCall
  begins_turn finishes_turn closes : RelayCall

-- `beginTurn`; it throws on a relay that is closed or has an active operation.
unfoldable pub begin_turn : TurnRelay → TurnRelay
begin_turn r =
    if r.closed || ltb 0 (r.serving + r.refusing)
    then r
    else record r { used = false; cancelled = false; denied = 0 }

unfoldable pub finish_turn : TurnRelay → TurnRelay
finish_turn r = record r { cancelled = true }

unfoldable pub close_relay : TurnRelay → TurnRelay
unfolding finish_turn
close_relay r = finish_turn (record r { closed = true })

-- The beginning of `handle`.
unfoldable pub admit : TurnRelay → Bool → TurnRelay
admit r fits =
    if not fits
    then record r { refusing = r.refusing + 1 }
    else if r.cancelled || r.used
    then record r { denied = r.denied + 1; refusing = r.refusing + 1 }
    else record r { used = true; serving = r.serving + 1 }

unfoldable pub relay_call : TurnRelay → RelayCall → TurnRelay
relay_call r (requests fits) = admit r fits
relay_call r served_ends = record r { serving = r.serving - 1 }
relay_call r refused_ends = record r { refusing = r.refusing - 1 }
relay_call r begins_turn = begin_turn r
relay_call r finishes_turn = finish_turn r
relay_call r closes = close_relay r

unfoldable pub relay_calls : TurnRelay → List RelayCall → TurnRelay
relay_calls r [] = r
relay_calls r (c ∷ cs) = relay_calls (relay_call r c) cs

-- What the first read of a response gives: an error, which may be a transient one of the network, or not.
pub data FirstRead : Type 0 where
  read_failed : Bool → FirstRead
  read_first : FirstRead

-- What a request upstream gives: an error, or a status and the first read.
pub data Upstream : Type 0 where
  connection_failed : Bool → Upstream
  responded : ℕ → FirstRead → Upstream

-- One attempt: whether the turn is aborted or cancelled, what comes back, and whether the pause after it
-- is aborted or too long.
pub record Attempt : Type 0 where
  pub is_aborted : Bool
  pub is_cancelled : Bool
  pub outcome : Upstream
  pub pause_fails : Bool

pub record RelayLog : Type 0 where
  pub attempts : ℕ
  pub retries : ℕ

pub data RelayOutcome : Type 0 where
  commits throws : RelayLog → RelayOutcome
  -- Of the model only: the fuel is used up.
  unfinished : RelayOutcome

abbrev pub is_retryable_status : ℕ → Bool
is_retryable_status s = s == 500 || s == 502 || s == 503 || s == 504 || s == 529

-- `noteRetry`, the pause, and the attempts after it.
abbrev pub retry_or_throw : Bool → RelayLog → RelayOutcome → RelayOutcome
retry_or_throw fails log later = if fails then throws log else later

abbrev pub after_read : Bool → Bool → RelayLog → RelayLog → FirstRead → RelayOutcome → RelayOutcome
after_read can fails log noted read_first later = commits log
after_read can fails log noted (read_failed transient) later =
    if can && transient then retry_or_throw fails noted later else throws log

abbrev pub after_upstream :
    Bool → Bool → RelayLog → RelayLog → Upstream → RelayOutcome → RelayOutcome
after_upstream can fails log noted (connection_failed transient) later =
    if can && transient then retry_or_throw fails noted later else throws log
after_upstream can fails log noted (responded status read) later =
    if can && is_retryable_status status
    then retry_or_throw fails noted later
    else after_read can fails log noted read later

-- The loop over the attempts, from one of them on, with what the attempts before have left.
unfoldable pub attempts_from : ℕ → ℕ → (ℕ → Attempt) → ℕ → RelayLog → RelayOutcome
attempts_from zero limit what attempt log = unfinished
attempts_from (suc fuel) limit what attempt log =
    let at = what attempt in
    let started : RelayLog = record log { attempts = attempt } in
    let noted : RelayLog = record started { retries = log.retries + 1 } in
    let later = attempts_from fuel limit what (attempt + 1) noted in
    if at.is_aborted
    then throws log
    else after_upstream (ltb attempt limit && not at.is_cancelled) at.pause_fails started noted
        at.outcome later

-- All attempts of one request.
unfoldable pub relay_request : ℕ → (ℕ → Attempt) → RelayOutcome
relay_request limit what =
    attempts_from (limit + 1) limit what 1 (record { attempts = 0; retries = 0 })

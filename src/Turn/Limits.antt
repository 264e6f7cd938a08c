-- ===== src/Turn/Limits.antt =====
-- How much `TurnRelay` of extensions/claude-code/turn-relay.ts sends upstream.
use steak_pi.Prelude.{
  ℕ, zero, suc, ◌+◌, ◌≤◌, ◌<◌, max, ◌≡◌, refl, inl, inr, Bool, true, false, not, ◌&&◌, ◌||◌, List,
  [], ◌∷◌, arith, ltb, if◌then◌else◌, Bool-cases,
}
use steak_pi.Turn.Relay.{
  TurnRelay, new_relay, RelayCall, begin_turn, finish_turn, close_relay, admit, relay_call,
  relay_calls, Upstream, Attempt, RelayLog, RelayOutcome, is_retryable_status, retry_or_throw,
  after_upstream, attempts_from, relay_request, requests, served_ends, refused_ends, begins_turn,
  finishes_turn, closes, read_failed, read_first, connection_failed, responded, commits, throws,
  unfinished,
}

-- One request is served at most, and none while the turn could still take one.
abbrev IsSingle : TurnRelay → Type 0
IsSingle r = (r.serving ≤ 1) × (r.used ≡ false → r.serving ≡ 0)

relay_call-IsSingle : (r : TurnRelay) (c : RelayCall) → IsSingle r → IsSingle (relay_call r c)
unfolding relay_call admit begin_turn finish_turn close_relay
relay_call-IsSingle r (requests fits) (one, free) = (ground arith, λ e. ground arith)
relay_call-IsSingle r served_ends (one, free) = (ground arith, λ e. ground arith)
relay_call-IsSingle r refused_ends h = h
relay_call-IsSingle r begins_turn (one, free) = (ground arith, λ e. ground arith)
relay_call-IsSingle r finishes_turn h = h
relay_call-IsSingle r closes h = h

-- How many requests a call serves, and how many turns it begins.
unfoldable pub serves : TurnRelay → RelayCall → ℕ
serves r (requests fits) = if fits && not (r.cancelled || r.used) then 1 else 0
serves r _ = 0

unfoldable pub served : TurnRelay → List RelayCall → ℕ
served r [] = 0
served r (c ∷ cs) = serves r c + served (relay_call r c) cs

unfoldable pub turns : List RelayCall → ℕ
turns [] = 0
turns (begins_turn ∷ cs) = 1 + turns cs
turns (_ ∷ cs) = turns cs

abbrev left : TurnRelay → ℕ
left r = if r.used then 0 else 1

served-turns : (r : TurnRelay) (cs : List RelayCall) → served r cs ≤ left r + turns cs
unfolding served serves turns relay_call admit begin_turn finish_turn close_relay
served-turns r [] = omega arith
served-turns r (requests fits ∷ cs) =
    let h = served-turns (relay_call r (requests fits)) cs in ground arith
served-turns r (served_ends ∷ cs) =
    let h = served-turns (relay_call r served_ends) cs in ground arith
served-turns r (refused_ends ∷ cs) =
    let h = served-turns (relay_call r refused_ends) cs in ground arith
served-turns r (begins_turn ∷ cs) =
    let h = served-turns (relay_call r begins_turn) cs in ground arith
served-turns r (finishes_turn ∷ cs) =
    let h = served-turns (relay_call r finishes_turn) cs in ground arith
served-turns r (closes ∷ cs) = let h = served-turns (relay_call r closes) cs in ground arith

relay_calls-IsSingle :
    (r : TurnRelay) (cs : List RelayCall) → IsSingle r → IsSingle (relay_calls r cs)
unfolding relay_calls
relay_calls-IsSingle r [] h = h
relay_calls-IsSingle r (c ∷ cs) h =
    relay_calls-IsSingle (relay_call r c) cs (relay_call-IsSingle r c h)

-- Whatever the worker asks for and the host calls on a new relay, never two requests are served at once,
-- and in all at most one for each turn, the one that is open at first included.
pub relay_calls_single :
    (cs : List RelayCall)
    → ((relay_calls new_relay cs).serving ≤ 1) × (served new_relay cs ≤ 1 + turns cs)
relay_calls_single cs =
    ((relay_calls-IsSingle new_relay cs (omega arith, λ e. refl)).0, served-turns new_relay cs)

-- The attempts and the retries of a request are within the policy, and its loop has ended.
abbrev pub WithinPolicy : ℕ → RelayOutcome → Type 0
WithinPolicy limit (commits l) = (l.attempts ≤ max 1 limit) × (l.retries < max 1 limit)
WithinPolicy limit (throws l) = (l.attempts ≤ max 1 limit) × (l.retries < max 1 limit)
WithinPolicy limit unfinished = ⊥

module _ (limit : ℕ) (fails : Bool) (log noted : RelayLog) (later : RelayOutcome)
    (here : WithinPolicy limit (throws log)) where
  retried-WithinPolicy :
      (can : Bool)
      → (can ≡ true → WithinPolicy limit (throws noted))
      → (can ≡ true → WithinPolicy limit later)
      → (transient : Bool) (otherwise : RelayOutcome) → WithinPolicy limit otherwise
      → WithinPolicy limit
          (if can && transient then retry_or_throw fails noted later else otherwise)
  retried-WithinPolicy false noting going t otherwise o = o
  retried-WithinPolicy true noting going false otherwise o = o
  retried-WithinPolicy true noting going true otherwise o = paused fails
    where
      paused : (b : Bool) → WithinPolicy limit (retry_or_throw b noted later)
      paused true = noting refl
      paused false = going refl

  after_upstream-WithinPolicy :
      (can : Bool) (u : Upstream)
      → (can ≡ true → WithinPolicy limit (throws noted))
      → (can ≡ true → WithinPolicy limit later)
      → WithinPolicy limit (after_upstream can fails log noted u later)
  after_upstream-WithinPolicy can (connection_failed t) noting going =
      retried-WithinPolicy can noting going t (throws log) here
  after_upstream-WithinPolicy can (responded status read_first) noting going =
      retried-WithinPolicy can noting going (is_retryable_status status) (commits log) here
  after_upstream-WithinPolicy can (responded status (read_failed t)) noting going =
      retried-WithinPolicy can noting going (is_retryable_status status) _
        (retried-WithinPolicy can noting going t (throws log) here)

attempts_from-WithinPolicy :
    (fuel limit : ℕ) (what : ℕ → Attempt) (attempt : ℕ) (log : RelayLog)
    → max 1 limit < fuel + attempt
    → attempt ≤ max 1 limit
    → log.attempts ≤ attempt
    → log.retries < attempt
    → WithinPolicy limit (attempts_from fuel limit what attempt log)
unfolding attempts_from
attempts_from-WithinPolicy zero limit what attempt log f a l r = absurd (omega arith)
attempts_from-WithinPolicy (suc fuel) limit what attempt log f a l r =
    elim (Bool-cases (what attempt).is_aborted) [
      | inl e ↦ rw e (omega arith, omega arith)
      | inr e ↦ rw e (
          after_upstream-WithinPolicy limit (what attempt).pause_fails
            (record { attempts = attempt; retries = log.retries })
            (record { attempts = attempt; retries = log.retries + 1 })
            (attempts_from fuel limit what (attempt + 1)
              (record { attempts = attempt; retries = log.retries + 1 }))
            (omega arith, omega arith) (ltb attempt limit && not (what attempt).is_cancelled)
            (what attempt).outcome (λ can. let k = room can in (omega arith, omega arith))
            (λ can.
              attempts_from-WithinPolicy fuel limit what (attempt + 1) _ (omega arith) (room can)
                (omega arith) (omega arith)))
    ]
  where
    room : ltb attempt limit && not (what attempt).is_cancelled ≡ true → attempt + 1 ≤ max 1 limit
    room can = ground arith

-- The loop over the attempts ends by itself, before its fuel is used up, and makes at most as many
-- attempts as the policy allows, at least one; it retries fewer times than that, whatever comes back.
pub relay_request-WithinPolicy :
    (limit : ℕ) (what : ℕ → Attempt) → WithinPolicy limit (relay_request limit what)
unfolding relay_request
relay_request-WithinPolicy limit what =
    attempts_from-WithinPolicy (limit + 1) limit what 1 (record { attempts = 0; retries = 0 })
      (omega arith) (omega arith) (omega arith) (omega arith)

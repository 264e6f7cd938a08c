-- ===== src/Relay/Send/Once.antt =====
-- A request of src/subagents/relay.ts is answered once, whatever else happens in its run.
use steak_pi.Prelude.{
  ℕ, ◌+◌, ◌<◌, String, ◌≡◌, refl, sym, ap, ◌∙◌, subst, inl, inr, Bool, true, false, ◌&&◌, Option,
  none, some, List, [], ◌∷◌, arith, leb, if◌then◌else◌, Bool-cases, or_else, str_eq, str_eq_iff,
  Map, put, delete,
}
use steak_pi.Relay.{
  RelayEnvelope, Outcome, DeliveryRegistration, Request, RelayRun, Limits, max_safe_integer,
  accepted_now, declined, thrown, promised,
}
use steak_pi.Relay.Inbox.{InboxResult, with_box, read_inbox, settle}
use steak_pi.Relay.Broker.{new_run}
use steak_pi.Relay.Send.{
  RelaySendInput, RelayRejectCode, Sent, Checked, is_reply, Post, enter, place, deliver_one,
  deliver_all, check_send, dispatch_post, send, ok, rejected, envelope_for, is_request,
}
use steak_pi.Relay.Send.Accepted.{Checked-cases}
use steak_pi.Relay.Send.Quota.{send_rejected, send_ok}
use steak_pi.Relay.Send.Ids.{id_at, id_at_injective}
use steak_pi.Relay.Send.Replies.{RepliesTo, send_unknown, send-forgets}

-- What may happen in a run; `registers` stands for any change of the callbacks.
pub data RunEvent : Type 0 where
  sends : String → RelaySendInput → RunEvent
  reads : String → ℕ → ℕ → RunEvent
  settles : String → RelayEnvelope → Bool → RunEvent
  registers : Map DeliveryRegistration → RunEvent

abbrev read_result : RelayRun → Option (RelayRun × InboxResult) → RelayRun
read_result run none = run
read_result run (some (run', answer)) = run'

abbrev pub run_event : Limits → RelayRun → RunEvent → RelayRun
run_event limits run (sends sender input) = (send limits run sender input).0
run_event limits run (reads peer after limit) =
    read_result run (read_inbox limits run peer after limit)
run_event limits run (settles peer m took) = settle run peer m took
run_event limits run (registers deliveries) = record run { deliveries = deliveries }

unfoldable pub run_events : Limits → RelayRun → List RunEvent → RelayRun
run_events limits run [] = run
run_events limits run (e ∷ es) = run_events limits (run_event limits run e) es

-- A property of the id of a run, its next number and its requests.
module _ (P : String → ℕ → Map Request → Type 0)
    (counts : (id : String) (n : ℕ) (rs : Map Request) → P id n rs → P id (n + 1) rs)
    (records : (id : String) (n : ℕ) (rs : Map Request) (r : Request)
      → P id n rs
      → P id (n + 1) (put rs (id_at id n) r))
    (deletes : (id key : String) (n : ℕ) (rs : Map Request)
      → P id n rs
      → P id n (delete rs key)) where
  abbrev On : RelayRun → Type 0
  On run = P run.id run.next_seq run.requests

  enter-On :
      (limits : Limits) (run : RelayRun) (post : Post) (recipient : String)
      → On run
      → On (enter run post (envelope_for limits run post recipient) recipient)
  unfolding enter envelope_for is_request
  enter-On limits run post recipient h = elim (Bool-cases (is_request post.kind)) [
    | inl e ↦ rw e (records run.id run.next_seq run.requests _ h)
    | inr e ↦ rw e (counts run.id run.next_seq run.requests h)
  ]

  place-On :
      (run : RelayRun) (recipient : String) (m : RelayEnvelope) (outcome : Outcome)
      → On run
      → On (place run recipient m outcome).0
  unfolding place
  place-On run recipient m accepted_now h = h
  place-On run recipient m promised h = h
  place-On run recipient m declined h = h
  place-On run recipient m thrown h = h

  deliver_all-On :
      (limits : Limits) (run : RelayRun) (post : Post) (recipients : List String)
      → On run
      → On (deliver_all limits run post recipients).0
  unfolding deliver_all deliver_one
  deliver_all-On limits run post [] h = h
  deliver_all-On limits run post (r ∷ rs) h =
      deliver_all-On limits (deliver_one limits run post r).0 post rs (
        place-On (enter run post (envelope_for limits run post r) r) r _ _
          (enter-On limits run post r h))

  send-On :
      (limits : Limits) (run : RelayRun) (sender : String) (input : RelaySendInput)
      → On run
      → On (send limits run sender input).0
  unfolding dispatch_post
  send-On limits run sender input h = elim (Checked-cases (check_send limits run sender input)) [
    | inl (code, e) ↦ rw (send_rejected limits run sender input code e) h
    | inr ((post, recipients), e) ↦
        let run' = (deliver_all limits run post recipients).0 in
        let h' = deliver_all-On limits run post recipients h in
        rw (send_ok limits run sender input post recipients e)
          (elim (Bool-cases (is_reply post.kind)) [
            | inl answered ↦
                rw answered
                  (deletes run'.id (or_else post.reply_to "") run'.next_seq run'.requests h')
            | inr other ↦ rw other h'
          ])
  ]

  event-On :
      (limits : Limits) (run : RelayRun) (e : RunEvent) → On run → On (run_event limits run e)
  unfolding read_inbox settle with_box
  event-On limits run (sends sender input) h = send-On limits run sender input h
  event-On limits run (reads peer after limit) h =
      elim (Bool-cases (leb after max_safe_integer && leb limit max_safe_integer)) [
        | inl e ↦ rw e h
        | inr e ↦ rw e h
      ]
  event-On limits run (settles peer m true) h = h
  event-On limits run (settles peer m false) h = h
  event-On limits run (registers deliveries) h = h

  events-On :
      (limits : Limits) (run : RelayRun) (es : List RunEvent)
      → On run
      → On (run_events limits run es)
  unfolding run_events
  events-On limits run [] h = h
  events-On limits run (e ∷ es) h =
      events-On limits (run_event limits run e) es (event-On limits run e h)

-- The number of an id that this run gave out.
abbrev Given : String → String → ℕ → Type 0
Given key id n = (m : ℕ) × (m < n) × (key ≡ id_at id m)

-- Every recorded request has an id that the run gave out.
abbrev Numbered : String → ℕ → Map Request → Type 0
Numbered id n rs = (key : String) (r : Request) → rs key ≡ some r → Given key id n

-- An id that was given out and is not recorded any more.
abbrev Spent : String → String → ℕ → Map Request → Type 0
Spent key id n rs = (rs key ≡ none) × Given key id n

later : (key id : String) (n : ℕ) → Given key id n → Given key id (n + 1)
later key id n (m, less, named) = (m, omega (arith, less), named)

put-Numbered :
    (id : String) (n : ℕ) (rs : Map Request) (r : Request)
    → Numbered id n rs
    → Numbered id (n + 1) (put rs (id_at id n) r)
put-Numbered id n rs r h key q at = elim (Bool-cases (str_eq key (id_at id n))) [
  | inl e ↦ (n, omega arith, (str_eq_iff key (id_at id n)).0 e)
  | inr e ↦ later key id n (h key q (subst (λ b. (if b then some r else rs key) ≡ some q) e at))
]

delete-Numbered :
    (id gone : String) (n : ℕ) (rs : Map Request)
    → Numbered id n rs
    → Numbered id n (delete rs gone)
delete-Numbered id gone n rs h key q at = elim (Bool-cases (str_eq key gone)) [
  | inl e ↦ absurd (cc (subst (λ b. (if b then none else rs key) ≡ some q) e at))
  | inr e ↦ h key q (subst (λ b. (if b then none else rs key) ≡ some q) e at)
]

put-Spent :
    (key id : String) (n : ℕ) (rs : Map Request) (r : Request)
    → Spent key id n rs
    → Spent key id (n + 1) (put rs (id_at id n) r)
put-Spent key id n rs r (missing, (m, less, named)) = elim (Bool-cases (str_eq key (id_at id n))) [
  | inl e ↦
      let same = id_at_injective id m n (sym named ∙ (str_eq_iff key (id_at id n)).0 e) in
      absurd (omega (arith, same, less))
  | inr e ↦ (rw e missing, (m, omega (arith, less), named))
]

delete-Spent :
    (key id gone : String) (n : ℕ) (rs : Map Request)
    → Spent key id n rs
    → Spent key id n (delete rs gone)
delete-Spent key id gone n rs (missing, given) = elim (Bool-cases (str_eq key gone)) [
  | inl e ↦ (rw e refl, given)
  | inr e ↦ (rw e missing, given)
]

run_events-Numbered :
    (limits : Limits) (run : RelayRun) (es : List RunEvent)
    → Numbered run.id run.next_seq run.requests
    → let run' = run_events limits run es in Numbered run'.id run'.next_seq run'.requests
run_events-Numbered =
    events-On Numbered (λ id n rs h key q at. later key id n (h key q at)) put-Numbered
      delete-Numbered

-- The id of a request that a reply was accepted for.
answered-Given :
    (limits : Limits) (run : RelayRun) (sender key : String) (input : RelaySendInput) (sent : Sent)
    → Numbered run.id run.next_seq run.requests
    → RepliesTo key input
    → (send limits run sender input).1 ≡ ok sent
    → Given key run.id run.next_seq
answered-Given limits run sender key input sent numbered replies e =
    by_request (run.requests key) refl
  where
    by_request : (o : Option Request) → run.requests key ≡ o → Given key run.id run.next_seq
    by_request (some r) at = numbered key r at
    by_request none at =
        let (code, refused) = send_unknown limits run sender key input replies at in
        absurd (cc (ap (λ (x : RelayRun × Checked Sent). x.1) refused, e))

accepted-Spent :
    (limits : Limits) (run : RelayRun) (sender key : String) (input : RelaySendInput) (sent : Sent)
    → Numbered run.id run.next_seq run.requests
    → RepliesTo key input
    → (send limits run sender input).1 ≡ ok sent
    → let run' = (send limits run sender input).0 in Spent key run'.id run'.next_seq run'.requests
accepted-Spent limits run sender key input sent numbered replies e = (
  send-forgets limits run sender key input sent replies e,
  send-On (λ id n rs. Given key id n) (λ id n rs. later key id n) (λ id n rs r. later key id n)
      (λ id gone n rs given. given) limits run sender input
      (answered-Given limits run sender key input sent numbered replies e),
)

-- A request is answered once. In a run that starts empty, whatever happened before (sends by anyone,
-- reads, settled deliveries, changed callbacks): once a reply to a request was accepted, and whatever
-- happens in the run from then on, a reply to that request is rejected, from any sender, and changes
-- nothing. The callbacks do not call the broker themselves while a message is sent.
pub send-once :
    (limits : Limits) (run_id : String) (serial : ℕ) (peers : List String)
    (before between : List RunEvent) (sender again key : String) (first second : RelaySendInput)
    (sent : Sent)
    → let run = run_events limits (new_run run_id serial peers) before in
      RepliesTo key first
      → (send limits run sender first).1 ≡ ok sent
      → RepliesTo key second
      → let run' = run_events limits (send limits run sender first).0 between in
        (code : RelayRejectCode) × (send limits run' again second ≡ (run', rejected code))
unfolding new_run
send-once limits run_id serial peers before between sender again key first second sent replies e
      replies' =
    let run = run_events limits (new_run run_id serial peers) before in
    let numbered =
      run_events-Numbered limits (new_run run_id serial peers) before (λ k q at. absurd (cc at)) in
    let spent =
      events-On (Spent key) (λ id n rs s. (s.0, later key id n s.1)) (put-Spent key)
        (delete-Spent key) limits (send limits run sender first).0 between
        (accepted-Spent limits run sender key first sent numbered replies e) in
    send_unknown limits (run_events limits (send limits run sender first).0 between) again key
      second replies' spent.0

-- ===== src/Relay/Send/Told.antt =====
-- What the answer of send of src/subagents/relay.ts says of each recipient.
use steak_pi.Prelude.{
  ℕ, suc, String, ◌≡◌, refl, subst, ◌⊎◌, inl, inr, Bool, true, false, Option, none, some, List, [],
  ◌∷◌, ◌==◌, if◌then◌else◌, Bool-cases, Inside, Inside-append_left, Inside-append_right, str_eq,
  str_eq_iff, str_eq_refl, Map,
}
use steak_pi.Relay.{
  RelayEnvelope, Outcome, DeliveryRegistration, Request, RelayRun, Limits, box, accepted_now,
  declined, thrown, promised,
}
use steak_pi.Relay.Send.{
  is_reply, reserved, Post, enter, attempt, push, place, deliver_one, Tally, deliver_all,
  forget_request, envelope_for,
}

-- An envelope with the id waits for the peer, in its mailbox or unresolved.
abbrev pub Waits : RelayRun → String → String → Type 0
Waits run peer id =
    (m : RelayEnvelope) × (m.id ≡ id)
    × (Inside m (box run.mailboxes peer) ⊎ Inside m (box run.pending peer))

-- The peer's own callback took an envelope with the id.
abbrev pub Handed : Map DeliveryRegistration → String → String → Type 0
Handed deliveries peer id =
    (registration : DeliveryRegistration) × (m : RelayEnvelope) × (deliveries peer
      ≡ some registration)
    × (m.id ≡ id)
    × (registration.callback m ≡ accepted_now)

-- The recipients with the ids they were told, and how many of these wait and were handed over.
pub data Told (deliveries : Map DeliveryRegistration) (run : RelayRun)
    : List String → List String → ℕ → ℕ → Type 0 where
  told_none : Told deliveries run [] [] 0 0
  told_waits :
      {peer id : String} {peers ids : List String} {queued delivered : ℕ}
      → Waits run peer id
      → Told deliveries run peers ids queued delivered
      → Told deliveries run (peer ∷ peers) (id ∷ ids) (suc queued) delivered
  told_handed :
      {peer id : String} {peers ids : List String} {queued delivered : ℕ}
      → Handed deliveries peer id
      → Told deliveries run peers ids queued delivered
      → Told deliveries run (peer ∷ peers) (id ∷ ids) queued (suc delivered)

Inside-push :
    (boxes : Map (List RelayEnvelope)) (peer p : String) (m n : RelayEnvelope)
    → Inside m (box boxes p)
    → Inside m (box (push boxes peer n) p)
Inside-push boxes peer p m n waits = elim (Bool-cases (str_eq p peer)) [
  | inl e ↦ rw e (
      Inside-append_left m (box boxes peer) (n ∷ [])
        (subst (λ q. Inside m (box boxes q)) ((str_eq_iff p peer).0 e) waits))
  | inr e ↦ rw e waits
]

Inside-push_new :
    (boxes : Map (List RelayEnvelope)) (peer : String) (m : RelayEnvelope)
    → Inside m (box (push boxes peer m) peer)
Inside-push_new boxes peer m =
    rw (str_eq_refl peer) (Inside-append_right m (box boxes peer) (m ∷ []) (inl refl))

place-Waits :
    (run : RelayRun) (recipient : String) (m : RelayEnvelope) (outcome : Outcome) (peer id : String)
    → Waits run peer id
    → Waits (place run recipient m outcome).0 peer id
unfolding place
place-Waits run recipient m accepted_now peer id waits = waits
place-Waits run recipient m promised peer id (n, named, inl h) = (n, named, inl h)
place-Waits run recipient m promised peer id (n, named, inr h) =
    (n, named, inr (Inside-push run.pending recipient peer n m h))
place-Waits run recipient m declined peer id (n, named, inl h) =
    (n, named, inl (Inside-push run.mailboxes recipient peer n m h))
place-Waits run recipient m declined peer id (n, named, inr h) = (n, named, inr h)
place-Waits run recipient m thrown peer id (n, named, inl h) =
    (n, named, inl (Inside-push run.mailboxes recipient peer n m h))
place-Waits run recipient m thrown peer id (n, named, inr h) = (n, named, inr h)

place-deliveries :
    (run : RelayRun) (recipient : String) (m : RelayEnvelope) (outcome : Outcome)
    → (place run recipient m outcome).0.deliveries ≡ run.deliveries
unfolding place
place-deliveries run recipient m accepted_now = refl
place-deliveries run recipient m promised = refl
place-deliveries run recipient m declined = refl
place-deliveries run recipient m thrown = refl

-- What an answer says of one recipient.
abbrev Reached : Map DeliveryRegistration → RelayRun → String → String → Bool → Type 0
Reached deliveries run peer id true = Handed deliveries peer id
Reached deliveries run peer id false = Waits run peer id

place-Reached :
    (deliveries : Map DeliveryRegistration) (run : RelayRun) (recipient : String)
    (m : RelayEnvelope) (outcome : Outcome)
    → (outcome ≡ accepted_now → Handed deliveries recipient m.id)
    → let placed = place run recipient m outcome in
      Reached deliveries placed.0 recipient m.id placed.1
unfolding place
place-Reached deliveries run recipient m accepted_now handed = handed refl
place-Reached deliveries run recipient m promised handed =
    (m, refl, inr (Inside-push_new run.pending recipient m))
place-Reached deliveries run recipient m declined handed =
    (m, refl, inl (Inside-push_new run.mailboxes recipient m))
place-Reached deliveries run recipient m thrown handed =
    (m, refl, inl (Inside-push_new run.mailboxes recipient m))

attempt-Handed :
    (run : RelayRun) (recipient : String) (m : RelayEnvelope)
    → attempt run recipient m ≡ accepted_now
    → Handed run.deliveries recipient m.id
unfolding attempt
attempt-Handed run recipient m e =
    by_room (reserved run recipient == 0) (run.deliveries recipient) refl e
  where
    by_room :
        (free : Bool) (o : Option DeliveryRegistration)
        → run.deliveries recipient ≡ o
        → (if free
            then elim o as (λ x. Outcome) [
              | none ↦ declined
              | some registration ↦ registration.callback m
            ]
            else declined)
          ≡ accepted_now
        → Handed run.deliveries recipient m.id
    by_room false o at h = absurd (cc h)
    by_room true none at h = absurd (cc h)
    by_room true (some registration) at h = (registration, m, at, refl, h)

deliver_one-Reached :
    (limits : Limits) (run : RelayRun) (post : Post) (recipient : String)
    → let (run', id, handled) = deliver_one limits run post recipient in
      Reached run.deliveries run' recipient id handled
unfolding deliver_one enter
deliver_one-Reached limits run post recipient =
    let m = envelope_for limits run post recipient in
    place-Reached run.deliveries (enter run post m recipient) recipient m (attempt run recipient m)
      (attempt-Handed run recipient m)

deliver_one-kept :
    (limits : Limits) (run : RelayRun) (post : Post) (recipient peer id : String)
    → let run' = (deliver_one limits run post recipient).0 in
      (run'.deliveries ≡ run.deliveries) × (Waits run peer id → Waits run' peer id)
unfolding deliver_one enter
deliver_one-kept limits run post recipient peer id =
    let m = envelope_for limits run post recipient in
    let run' = enter run post m recipient in
    (
      place-deliveries run' recipient m (attempt run recipient m),
      place-Waits run' recipient m (attempt run recipient m) peer id,
    )

deliver_all-Waits :
    (limits : Limits) (run : RelayRun) (post : Post) (recipients : List String) (peer id : String)
    → Waits run peer id
    → Waits (deliver_all limits run post recipients).0 peer id
unfolding deliver_all
deliver_all-Waits limits run post [] peer id waits = waits
deliver_all-Waits limits run post (r ∷ rs) peer id waits =
    deliver_all-Waits limits (deliver_one limits run post r).0 post rs peer id
      ((deliver_one-kept limits run post r peer id).1 waits)

abbrev TalliedTold : Map DeliveryRegistration → RelayRun → List String → Tally → Type 0
TalliedTold deliveries run recipients tally =
    Told deliveries run recipients tally.ids tally.queued tally.delivered

pub deliver_all-Told :
    (limits : Limits) (run : RelayRun) (post : Post) (recipients : List String)
    → let (run', tally) = deliver_all limits run post recipients in
      TalliedTold run.deliveries run' recipients tally
unfolding deliver_all
deliver_all-Told limits run post [] = told_none
deliver_all-Told limits run post (r ∷ rs) =
    let (run', id, handled) = deliver_one limits run post r in
    let later =
      subst
        (λ d.
          TalliedTold d (deliver_all limits run' post rs).0 rs (deliver_all limits run' post rs).1)
        (deliver_one-kept limits run post r r id).0 (deliver_all-Told limits run' post rs) in
    reached run' (deliver_all limits run' post rs).0 (deliver_all limits run' post rs).1 handled
      (deliver_one-Reached limits run post r)
      (λ waits. deliver_all-Waits limits run' post rs r id waits) later
  where
    reached :
        {deliveries : Map DeliveryRegistration} {peer id : String} {peers : List String}
        (now final : RelayRun) (tally : Tally) (handled : Bool)
        → Reached deliveries now peer id handled
        → (Waits now peer id → Waits final peer id)
        → TalliedTold deliveries final peers tally
        → TalliedTold deliveries final (peer ∷ peers) (record {
          ids = id ∷ tally.ids;
          queued = if handled then tally.queued else suc tally.queued;
          delivered = if handled then suc tally.delivered else tally.delivered;
        })
    reached now final tally true handed keeps told = told_handed handed told
    reached now final tally false waits keeps told = told_waits (keeps waits) told

-- The requests have no part in it.
pub forget_request-Told :
    (deliveries : Map DeliveryRegistration) (run : RelayRun) (post : Post)
    (recipients ids : List String) (queued delivered : ℕ)
    → Told deliveries run recipients ids queued delivered
    → Told deliveries (forget_request run post) recipients ids queued delivered
forget_request-Told deliveries run post recipients ids queued delivered told =
    elim (Bool-cases (is_reply post.kind)) [
      | inl e ↦ rw e (without_requests told)
      | inr e ↦ rw e told
    ]
  where
    without_requests :
        {requests : Map Request} {peers names : List String} {q d : ℕ}
        → Told deliveries run peers names q d
        → Told deliveries (record run { requests = requests }) peers names q d
    without_requests told_none = told_none
    without_requests (told_waits waits told) = told_waits waits (without_requests told)
    without_requests (told_handed handed told) = told_handed handed (without_requests told)

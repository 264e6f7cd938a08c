-- ===== src/Relay/Send/Accepted.antt =====
-- What an accepted message has passed in send of src/subagents/relay.ts.
use steak_pi.Prelude.{
  ◌+◌, ◌≤◌, String, ◌≡◌, refl, subst, ◌⊎◌, inl, inr, Bool, true, false, Option, none, some, List,
  arith, ltb, leb, length, any, str_eq,
}
use steak_pi.Relay.{RelayRun, Limits}
use steak_pi.Relay.Send.{
  RelaySendInput, RelayRejectCode, Checked, ◌>>=◌, ◌>>◌, reject_if, check_kind, recipients_of,
  check_reply, reserved, check_room, Post, check_send, invalid_target, self_send, mailbox_full,
  run_full, ok, rejected, check_body, check_target,
}

bind_ok {ℓ κ} :
    {A : Type ℓ} {B : Type κ} (m : Checked A) (f : A → Checked B) (b : B)
    → (m >>= f) ≡ ok b
    → (a : A) × (m ≡ ok a) × (f a ≡ ok b)
bind_ok (ok a) f b e = (a, refl, e)
bind_ok (rejected c) f b e = cc

pub then_ok {ℓ} :
    {B : Type ℓ} (test : Bool) (code : RelayRejectCode) (m : Checked B) (b : B)
    → ((reject_if test code) >> m) ≡ ok b
    → (test ≡ false) × (m ≡ ok b)
then_ok true code m b e = cc
then_ok false code m b e = (refl, e)

reject_if_ok : (test : Bool) (code : RelayRejectCode) → reject_if test code ≡ ok tt → test ≡ false
reject_if_ok true code e = cc
reject_if_ok false code e = refl

pub Checked-cases {ℓ} :
    {A : Type ℓ} (c : Checked A)
    → ((code : RelayRejectCode) × (c ≡ rejected code)) ⊎ ((a : A) × (c ≡ ok a))
Checked-cases (ok a) = inr (a, refl)
Checked-cases (rejected code) = inl (code, refl)

check_target-names :
    (field : Option String) (sender to : String)
    → check_target field sender ≡ ok to
    → field ≡ some to
unfolding check_target
check_target-names none sender to e = cc e
check_target-names (some target) sender to e =
    let (filled, e1) = then_ok (str_eq target "") invalid_target _ to e in
    let (foreign, e2) = then_ok (str_eq target sender) self_send (ok target) to e1 in cc e2

-- What each step of the checks found.
abbrev pub Passed :
    Limits → RelayRun → String → RelaySendInput → Checked (Post × List String) → Type 0
Passed limits run sender input (rejected code) = Unit
Passed limits run sender input (ok (post, recipients)) =
    (check_kind input.kind ≡ ok post.kind)
    × (recipients_of run sender post.to ≡ ok recipients)
    × (check_reply run sender post.kind input.reply_to recipients ≡ ok post.reply_to)
    × (check_room limits run recipients ≡ ok tt)
    × (post.sender ≡ sender)
    × (input.to ≡ some post.to)

pub check_send-Passed :
    (limits : Limits) (run : RelayRun) (sender : String) (input : RelaySendInput) (post : Post)
    (recipients : List String)
    → check_send limits run sender input ≡ ok (post, recipients)
    → Passed limits run sender input (ok (post, recipients))
unfolding check_send
check_send-Passed limits run sender input post recipients e =
    let (body, body_ok, e1) = bind_ok (check_body limits input.body) _ _ e in
    let (kind, kind_ok, e2) = bind_ok (check_kind input.kind) _ _ e1 in
    let (to, to_ok, e3) = bind_ok (check_target input.to sender) _ _ e2 in
    let (rs, rs_ok, e4) = bind_ok (recipients_of run sender to) _ _ e3 in
    let (answered, reply_ok, e5) = bind_ok (check_reply run sender kind input.reply_to rs) _ _ e4 in
    let (unit, room_ok, e6) = bind_ok (check_room limits run rs) _ _ e5 in
    subst (Passed limits run sender input) e6
      (kind_ok, rs_ok, reply_ok, room_ok, refl, check_target-names input.to sender to to_ok)

-- The room that the quotas left.
pub check_room-ok :
    (limits : Limits) (run : RelayRun) (recipients : List String)
    → check_room limits run recipients ≡ ok tt
    → (run.accepted + length recipients ≤ limits.run_limit)
      × (any (λ r. leb limits.mailbox_limit (reserved run r)) recipients ≡ false)
unfolding check_room
check_room-ok limits run recipients e =
    let full = ltb limits.run_limit (run.accepted + length recipients) in
    let (room, e') = then_ok full run_full _ _ e in (ground arith, reject_if_ok _ mailbox_full e')

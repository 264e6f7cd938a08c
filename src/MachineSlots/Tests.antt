-- ===== src/MachineSlots/Tests.antt =====
-- Runs of src/subagents/machine-slots.ts.
use steak_pi.Prelude.{
  ℕ, ◌+◌, ◌≤◌, ◌<◌, String, ◌≡◌, refl, true, false, none, some, List, [], ◌∷◌, arith, ltb, ◌==◌,
  if◌then◌else◌, decimal,
}
use steak_pi.MachineSlots.{Disk, act, Event, step, run, stamped, begins, moves, dies}
use steak_pi.MachineSlots.Exclusion.{has_lease, run-exclusive}
use steak_pi.MachineSlots.WaitFree.{returned, ended, moves_of, run-settles}
use steak_pi.MachineSlots.Admission.{is_found, held_count-try_bucket}
use steak_pi.MachineSlots.Tickets.{
  ends_ticket, number_after, ticket_number, ticket_name, next_number, is_nonce, fresh_number,
  ticket_number-ticket_name, fresh_number_later,
}
use steak_pi.MachineSlots.Bucket.{
  Status, SlotFiles, try_slot, owner_of, inspect_file, inspect_index, inspect_from, inspect_bucket,
  held_count, try_from, try_bucket, live, dead, listed,
}

-- A lease of the dead process 3, which attempts 1 and 2 of the processes 11 and 12 find.
abbrev stale_disk : Disk
stale_disk = record {
  slot = some (stamped (record { pid = 3; born = 40; nonce = 9 }));
  claim = none;
  dead = λ p. p == 3;
  tries = λ n. record { pid = n + 10; born = 50; place = begins };
}

abbrev interleaving : List Event
interleaving =
    moves 1
    ∷ moves 2
    ∷ moves 1
    ∷ moves 2
    ∷ moves 1
    ∷ moves 2
    ∷ moves 1
    ∷ moves 2
    ∷ moves 1
    ∷ moves 1
    ∷ moves 1
    ∷ dies 4
    ∷ moves 1
    ∷ moves 1
    ∷ moves 1
    ∷ []

run-exclusive_example : ◌≡◌ {A = ℕ} 1 1
unfolding run step act has_lease
run-exclusive_example = run-exclusive stale_disk (λ n. refl) interleaving 1 1 refl refl

run-settles_example :
    (10 ≤ moves_of 1 interleaving → returned ((run stale_disk interleaving).tries 1).place ≡ true)
    × (13 ≤ moves_of 1 interleaving → ended ((run stale_disk interleaving).tries 1).place ≡ true)
unfolding run step act
run-settles_example = run-settles stale_disk interleaving 1 refl refl

abbrev statuses : ℕ → Status
statuses p = if p == 3 then dead else live

-- Index 0 has a living lease, index 1 a dead one, index 2 an abandoned claim.
abbrev bucket_files : ℕ → SlotFiles
bucket_files i =
    if i == 0
    then record {
      lease_file = some (stamped (record { pid = 5; born = 1; nonce = 1 }));
      claim_file = none;
    }
    else if i == 1
    then record {
      lease_file = some (stamped (record { pid = 3; born = 1; nonce = 2 }));
      claim_file = none;
    }
    else record {
      lease_file = none;
      claim_file = some (stamped (record { pid = 3; born = 1; nonce = 3 }));
    }

bucket_run : try_bucket statuses false bucket_files 3 11 50 7 ≡ some 1
unfolding try_bucket try_from try_slot step act
bucket_run = refl

bucket_held : held_count statuses (listed bucket_files) 3 ≡ 2
unfolding inspect_bucket inspect_from inspect_index inspect_file owner_of
bucket_held = refl

held_count-try_bucket_example :
    (is_found (try_bucket statuses false bucket_files 3 11 50 7)
      ≡ ltb (held_count statuses (listed bucket_files) 3) 3)
    × (held_count statuses (listed bucket_files) 3 ≤ 3)
held_count-try_bucket_example = held_count-try_bucket statuses bucket_files 3 11 50 7 refl

ticket_number-ticket_name_example : ticket_number (ticket_name 120 "ab-3") ≡ some 120
unfolding is_nonce
ticket_number-ticket_name_example =
    ticket_number-ticket_name 120 "ab-3" (omega arith) (omega arith) refl refl

abbrev ticket_files : List String
ticket_files = "other" ∷ ticket_name 120 "ab-3" ∷ "7-c.ticket" ∷ []

fresh_run : fresh_number ticket_files ≡ some 121
unfolding fresh_number next_number number_after ends_ticket decimal
fresh_run = refl

fresh_number_later_example : 120 < 121
unfolding is_nonce
fresh_number_later_example =
    fresh_number_later ticket_files 1 120 121 "ab-3" (omega arith) (omega arith) refl refl refl
      fresh_run

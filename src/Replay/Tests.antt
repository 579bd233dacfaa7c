-- ===== src/Replay/Tests.antt =====
-- One signer's requests, the sweep and the valve.
use anet_hub.Prelude.{◌≡◌, ◌≢◌, ◌≤◌, refl, arith, max, length, [], ◌∷◌}
use anet_hub.Replay.{
  Shard, Signer, accepted, replayed, accept, accept_locked, accept_signer, note_time, seen_at,
  sweep, flatten, here, next, swept, relieved,
}
use anet_hub.Replay.Times.{note_time-length}
use anet_hub.Replay.Once.{new_shard, accepted_once, before_start_refused}

abbrev first : Shard
first = (accept 60000 1 100000 16 100010 (new_shard 100000)).1

first_accepted : (accept 60000 1 100000 16 100010 (new_shard 100000)).0 ≡ accepted
unfolding accept accept_locked accept_signer
first_accepted = refl

then_replayed : (accept 60000 1 100000 16 100020 first).0 ≡ replayed
unfolding accept accept_locked accept_signer note_time seen_at sweep
then_replayed = refl

accepted_once_example :
    (accept 60000 1 100000 64 100050 (flatten 1 (sweep 60000 100040 first))).0 ≢ accepted
accepted_once_example =
    accepted_once 60000 100000 1 100000 16 64 100010 100050 here first_accepted (
      next (flatten 1 (sweep 60000 100040 first))
        (next (sweep 60000 100040 first) here (swept 100040 refl)) (relieved 1 refl))

before_start_refused_example : (accept 60000 1 99999 16 100010 (new_shard 100000)).0 ≢ accepted
before_start_refused_example =
    before_start_refused 60000 100000 1 99999 16 100010 (omega arith) here

abbrev busy : Signer
busy = record { floor = 5; max_seen = 8; recent = 6 ∷ 8 ∷ [] }

note_time-length_example : length (note_time 9 2 busy).recent ≤ max 2 1
note_time-length_example = note_time-length 9 2 busy

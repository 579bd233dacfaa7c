-- ===== src/Bodies/Tests.antt =====
-- A hub that holds at most 100 bytes, where the request 2 holds 40 of them.
use anet_hub.Prelude.{◌≡◌, refl, [], ◌∷◌, arith}
use anet_hub.Prelude.Int.{pos, ◌+ℤ◌, ◌-ℤ◌}
use anet_hub.Prelude.Table.{value_of}
use anet_hub.Bodies.{
  Budget, eof, body, over_budget, too_large, hold_take, take, read, release, read_peer_body, reads,
  returns, here, next,
}
use anet_hub.Bodies.Whole.{IsWithin, Run-IsWithin, release-read_peer_body}

abbrev shared : Budget
shared = record { limit = pos 100; used = pos 40; holds = (2, pos 40) ∷ [] }

shared-IsWithin : IsWithin shared
unfolding ◌+ℤ◌
shared-IsWithin = record { all_held = refl; no_debt = λ r. ground arith; in_limit = omega arith }

reads_thirty : (read_peer_body 1 (pos 30) 50 (10 ∷ 20 ∷ []) eof shared).0 ≡ body 30
unfolding read_peer_body read hold_take take ◌+ℤ◌ ◌-ℤ◌
reads_thirty = refl

no_room : (read_peer_body 1 (pos 0) 80 (30 ∷ 40 ∷ []) eof shared).0 ≡ over_budget
unfolding read_peer_body read hold_take take ◌+ℤ◌ ◌-ℤ◌
no_room = refl

too_long : (read_peer_body 1 (pos 0) 20 (10 ∷ 11 ∷ []) eof shared).0 ≡ too_large
unfolding read_peer_body read hold_take take ◌+ℤ◌ ◌-ℤ◌
too_long = refl

Run-IsWithin_example :
    IsWithin (release 2 (read_peer_body 1 (pos 30) 50 (10 ∷ 20 ∷ []) eof shared).1)
Run-IsWithin_example = Run-IsWithin shared shared-IsWithin (
    next (release 2 (read_peer_body 1 (pos 30) 50 (10 ∷ 20 ∷ []) eof shared).1)
      (next (read_peer_body 1 (pos 30) 50 (10 ∷ 20 ∷ []) eof shared).1 here
        (reads 1 (pos 30) 50 (10 ∷ 20 ∷ []) eof refl))
      (returns 2 refl))

release-read_peer_body_example :
    (release 1 (read_peer_body 1 (pos 0) 80 (30 ∷ 40 ∷ []) eof shared).1).used
    ≡ pos 40 -ℤ value_of 1 shared.holds
release-read_peer_body_example = release-read_peer_body 1 (pos 0) 80 (30 ∷ 40 ∷ []) eof shared

-- ===== src/Sessions/Tests.antt =====
-- A session that is opened, found and dropped.
use anet_hub.Prelude.{◌≡◌, ◌≢◌, ◌<◌, refl, some, none}
use anet_hub.Sessions.{
  Sessions, no_sessions, new_session, open_session, open_wait, recent_opens, sweep, prune_aid,
  record_session, get, drop, Run, started, next, opens_session,
}
use anet_hub.Sessions.Ends.{Run-IsBounded, get-drop}
use anet_hub.Sessions.Keeps.{IsBounded}

-- The AID 5 opens the session 70 and the AID 6 the session 71, in the hour 1.
abbrev one_open : Sessions
one_open = (open_session 5 70 9 3600000000000 no_sessions).1

abbrev two_open : Sessions
two_open = (open_session 6 71 8 3600000000001 one_open).1

two_run : Run two_open
two_run =
    next one_open two_open (next no_sessions one_open started (opens_session 5 70 9 3600000000000))
      (opens_session 6 71 8 3600000000001)

found_before : (get (λ _. 16) 70 3600000000002 two_open).0 ≡ some (new_session 5 70 9 3600000000000)
unfolding get open_session open_wait recent_opens sweep prune_aid record_session
found_before = refl

gone_after : (get (λ _. 16) 70 3600000000002 (drop 5 two_open)).0 ≡ none
unfolding get open_session open_wait recent_opens sweep prune_aid record_session drop
gone_after = refl

found_other : get (λ _. 16) 71 3600000000002 (drop 5 two_open) ≡ (
  some (new_session 6 71 8 3600000000001),
  (get (λ _. 16) 71 3600000000002 (drop 5 two_open)).1,
)
unfolding get open_session open_wait recent_opens sweep prune_aid record_session drop
found_other = refl

get-drop_example :
    ((new_session 6 71 8 3600000000001).aid ≢ 5)
    × ((new_session 6 71 8 3600000000001).sid ≡ 71)
    × (3600000000002 < (new_session 6 71 8 3600000000001).exp)
get-drop_example =
    get-drop (λ _. 16) 5 71 3600000000002 two_open
      (get (λ _. 16) 71 3600000000002 (drop 5 two_open)).1 (new_session 6 71 8 3600000000001)
      two_run found_other

Run-IsBounded_example : IsBounded two_open
Run-IsBounded_example = Run-IsBounded two_run

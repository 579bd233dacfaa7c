-- ===== src/Replay/Once.antt =====
-- Repeats of a signed time (internal/aghub/auth2.go, RC1).
use anet_hub.Prelude.{ℕ, ◌-◌, ◌≡◌, ◌≢◌, ◌<◌, max, [], arith}
use anet_hub.Replay.{accepted, Shard, accept, Run}
use anet_hub.Replay.Keeps.{accept-Known_accepted, accept_refuses, Run-Known}

-- newRC1, of one part.
abbrev pub new_shard : ℕ → Shard
new_shard now = record { signers = []; gone = max (now - 1) 0; swept = now }

-- No signed time of a signer is accepted twice: whatever requests of any signers come between, in any
-- order, with the clock forward or back, and whatever the sweeps and the valve drop to save memory.
pub accepted_once :
    (max_skew t₀ aid ts k k' now now' : ℕ) {sh sh' : Shard}
    → Run max_skew (new_shard t₀) sh
    → (accept max_skew aid ts k now sh).0 ≡ accepted
    → Run max_skew (accept max_skew aid ts k now sh).1 sh'
    → (accept max_skew aid ts k' now' sh').0 ≢ accepted
accepted_once max_skew t₀ aid ts k k' now now' {sh} {sh'} r e r' =
    accept_refuses max_skew aid ts k' now' sh' (
      Run-Known max_skew aid ts (accept max_skew aid ts k now sh).1
        (accept-Known_accepted max_skew aid ts k now sh
          (Run-Known max_skew aid 0 (new_shard t₀) (omega arith) r) e)
        r')

-- No time from before the state was made is accepted, in any run from then on: what an earlier
-- process accepted and was signed before the restart stays refused.
pub before_start_refused :
    (max_skew t₀ aid ts k now : ℕ) {sh : Shard}
    → ts < t₀
    → Run max_skew (new_shard t₀) sh
    → (accept max_skew aid ts k now sh).0 ≢ accepted
before_start_refused max_skew t₀ aid ts k now {sh} old r =
    accept_refuses max_skew aid ts k now sh
      (Run-Known max_skew aid ts (new_shard t₀) (omega arith) r)

-- ===== src/Admission/Tests.antt =====
-- The gate at work.
use anet_hub.Prelude.{
  ℕ, ◌≡◌, ◌≤◌, ◌+◌, ◌↔◌, refl, Bool, true, false, none, some, List, [], ◌∷◌, ◌==◌, All, arith,
}
use anet_hub.Prelude.Int.{pos}
use anet_hub.Registry.{Store, via_open, mode_open}
use anet_hub.Admission.{AdmissionWrite}
use anet_hub.Admission.Gate.{
  Hashes, Gate, kind_signup, kind_trial, ip_v4, new_gate, reserve_signup, roll_day, committed,
  signup_quota, trial_budget, trial_budget_hub, signup_hold,
}
use anet_hub.Admission.Gate.Counts.{Held, IsCounted, total, signup_use, trial_use, hub_use}
use anet_hub.Admission.Gate.Steps.{signs_up, goes_through, Run, here, next}
use anet_hub.Admission.Gate.Runs.{Run-IsCounted}
use anet_hub.Admission.Gate.Limits.{SeparatesLevels}
use anet_hub.Admission.Gate.Within.{HoldsWithin, Run-limited}
use anet_hub.Admission.Door.{Request, admission_gate}
use anet_hub.Admission.Door.Decides.{Passes, LetIn, gate_iff}

-- A level's counter is its number, whatever the network.
abbrev level_number : Bool → ℕ → ℕ
level_number true b = b + b + 1
level_number false b = b + b

abbrev hashes : Hashes
hashes = record {
  mac = λ key kind v b a. level_number v b;
  seed = λ h. h;
  hour_of = λ ms. 0;
  pow_holds = λ aid seed nonce. nonce == 7;
}

level_number_eq : (v w : Bool) (b c : ℕ) → level_number v b ≡ level_number w c → (v ≡ w) × (b ≡ c)
level_number_eq true true b c e = (refl, omega (arith, e))
level_number_eq true false b c e = absurd (omega (arith, e))
level_number_eq false true b c e = absurd (omega (arith, e))
level_number_eq false false b c e = (refl, omega (arith, e))

hashes-SeparatesLevels : SeparatesLevels hashes
hashes-SeparatesLevels = record { level = λ key kind v w b c a d e. level_number_eq v w b c e }

abbrev keys : List ℕ
keys = 64 ∷ 48 ∷ []

abbrev after_signup : Gate
after_signup = (reserve_signup hashes 4 (some (ip_v4 77)) 1000000000 new_gate).1

abbrev signing_up : Held
signing_up = record { gate = after_signup; going = signup_hold (pos 0) keys ∷ []; kept = [] }

abbrev signed_up : Held
signed_up = record {
  gate = committed (signup_hold (pos 0) keys) after_signup;
  going = [];
  kept = signup_hold (pos 0) keys ∷ [];
}

gate_runs : Run hashes signed_up
unfolding reserve_signup roll_day
gate_runs =
    next signed_up
      (next signing_up here (signs_up 4 (some (ip_v4 77)) 1000000000 (omega arith) refl))
      (goes_through [] (signup_hold (pos 0) keys) [] refl refl)

Run-IsCounted_example : IsCounted signed_up
Run-IsCounted_example = Run-IsCounted hashes gate_runs

Run-limited_example :
    All (HoldsWithin hashes signed_up kind_signup (signup_use signed_up.gate.day)) signup_quota
    × All (HoldsWithin hashes signed_up kind_trial (trial_use signed_up.gate.day)) trial_budget
    × (total (hub_use signed_up.gate.day) signed_up.going
          + total (hub_use signed_up.gate.day) signed_up.kept
        ≤ trial_budget_hub)
Run-limited_example = Run-limited hashes hashes-SeparatesLevels gate_runs

abbrev open_store : Store
open_store = record {
  ledger = record {
    agents = [];
    balances = [];
    entries = [];
    settled = [];
    guards = [];
    due = [];
    owed = [];
    cleared = [];
    hub_cleared = [];
    first_verify = [];
    redemptions = [];
    totals = record {
      issued = pos 0;
      redeemed = pos 0;
      events_since_publish = 0;
      last_to_day = none;
    };
  };
  accounts = [];
  rows = λ t. [];
  withdrawn = [];
  admitted = [];
  windows = [];
  last_window = 0;
  mode = some mode_open;
  tombstones = [];
  quotas = [];
  dereg_events = [];
  kel_changes = 0;
  restoring = false;
  reviewed = λ aid. false;
}

abbrev request : Request
request = record {
  aid = 2;
  check_only = false;
  pow_seed = some 0;
  pow_nonce = 7;
  address = some (ip_v4 77);
}

abbrev by_quota_now : AdmissionWrite
by_quota_now = record { via = via_open; window = 0; now = 1000000000 }

gate_iff_example :
    Passes
      (admission_gate hashes 4 request 1000000000 open_store new_gate).0
      by_quota_now
      (some (signup_hold (pos 0) keys))
    ↔ LetIn hashes 4 request 1000000000 open_store new_gate by_quota_now
        (some (signup_hold (pos 0) keys))
gate_iff_example =
    gate_iff hashes 4 request 1000000000 open_store new_gate by_quota_now
      (some (signup_hold (pos 0) keys))

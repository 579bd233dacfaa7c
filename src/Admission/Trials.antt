-- ===== src/Admission/Trials.antt =====
-- internal/aghub/admission.go: probation, the trial credit, and the sweep of inactive accounts.
use anet_hub.Prelude.{
  ℕ, ◌+◌, ◌/◌, Bool, true, false, Option, none, some, List, [], ◌∷◌, ◌&&◌, not, leb, if◌then◌else◌,
}
use anet_hub.Prelude.Int.{ℤ, pos, ltb_ℤ, leb_ℤ, eqb_ℤ}
use anet_hub.Prelude.Table.{Table, lookup, value_of}
use anet_hub.Ledger.Issue.{issue_tx, unix_milli}
use anet_hub.Registry.{
  Via, via_list, Trial, trial_none, trial_pending, trial_granted, Account, Store, Kels, Failure,
  Outcome, fails, done, in_ledger, ◌>>=◌,
}
use anet_hub.Registry.Departs.{dereg_inactive, deregister_tx, after_dereg}
use anet_hub.Admission.{change_account, reason_trial_credit, trial_credits}
use anet_hub.Admission.Windows.{prune_windows}
use anet_hub.Admission.Gate.{Ip, Hashes, Gate, GateHold, reserve_trial, release}

abbrev until_of : Option Account → Option ℤ
until_of none = none
until_of (some a) = a.probation_until

-- ProbationUntil: when, and whether it is now.
unfoldable pub probation_until_of : ℕ → ℕ → Store → Option ℤ × Bool
probation_until_of aid now s = elim (until_of (lookup aid s.accounts)) [
  | none ↦ (none, false)
  | some u ↦ (some u, ltb_ℤ (unix_milli now) u)
]

-- trialState
pub record TrialState : Type 0 where
  pub until : Option ℤ
  pub trial : Option Trial

abbrev nothing_said : TrialState
nothing_said = record { until = none; trial = none }

abbrev not_negative : Option ℤ → Option ℤ
not_negative none = none
not_negative (some u) = if leb_ℤ (pos 0) u then some u else none

abbrev stated : Via → Trial → Option ℤ → TrialState
stated via_list t u = nothing_said
stated via trial_none u = nothing_said
stated via t u = record { until = not_negative u; trial = some t }

unfoldable pub trial_state_of : ℕ → Store → TrialState
trial_state_of aid s = elim (lookup aid s.accounts) [
  | none ↦ nothing_said
  | some a ↦ stated a.admitted_via a.trial a.probation_until
]

abbrev over_by : ℤ → Option ℤ → Bool
over_by ms none = false
over_by ms (some u) = leb_ℤ u ms

abbrev is_pending : Trial → Bool
is_pending trial_pending = true
is_pending t = false

-- Whether the credit is pending and the probation over.
abbrev pub is_earned : ℤ → Option Account → Bool
is_earned ms none = false
is_earned ms (some a) = is_pending a.trial && over_by ms a.probation_until

abbrev pub granted_now : Account → Account
granted_now a = record a { trial = trial_granted }

abbrev pub pay_trial : ℕ → ℕ → ℕ → Store → Outcome Store
pay_trial hub aid now s = do
  l ← in_ledger (issue_tx hub aid trial_credits reason_trial_credit now s.ledger)
  done (change_account aid granted_now (record s { ledger = l }))

-- The transaction of maybeGrantTrial, once the budget has a place.
unfoldable pub grant_trial_tx : ℕ → ℕ → ℕ → Store → Outcome (Bool × Store)
grant_trial_tx hub aid now s =
    if is_earned (unix_milli now) (lookup aid s.accounts)
    then (pay_trial hub aid now s >>= λ s'. done (true, s'))
    else done (false, s)

-- InactiveAfter, in seconds.
abbrev inactive_after : ℕ
inactive_after = 604800

abbrev never_seen : Option ℕ → Bool
never_seen none = true
never_seen (some t) = false

abbrev long_idle : ℕ → Account → Bool
long_idle now a =
    leb (a.registered_at + inactive_after) (now / 1000000000) && never_seen a.last_seen_at

-- The condition of the sweep on one AID.
abbrev pub is_inactive : ℕ → ℕ → Store → Bool
is_inactive now aid s = elim (lookup aid s.accounts) [
  | none ↦ false
  | some a ↦
      long_idle now a && eqb_ℤ (value_of aid s.ledger.balances) (pos 0) && not (s.reviewed aid)
]

unfoldable pub sweep_one : Kels → ℕ → ℕ → ℕ → Store → Outcome (Bool × Store)
sweep_one kels aid scanned now s =
    if is_inactive scanned aid s
    then (deregister_tx kels dereg_inactive aid now s >>= λ left. done (true, left.1))
    else done (false, s)

abbrev pub swept : Bool → Bool → ℕ → Store → Store
swept in_process true aid s = after_dereg in_process aid s
swept in_process false aid s = s

-- The loop of SweepInactive over the AIDs of its scan: how many left, and the failure that ended it.
unfoldable pub sweep_each : Kels → Bool → ℕ → ℕ → List ℕ → Store → (ℕ × Option Failure) × Store
sweep_each kels in_process scanned now [] s = ((0, none), s)
sweep_each kels in_process scanned now (aid ∷ aids) s = elim (sweep_one kels aid scanned now s) [
  | fails e ↦ ((0, some e), s)
  | done (left, s') ↦
      let rest = sweep_each kels in_process scanned now aids (swept in_process left aid s') in
      (((if left then 1 else 0) + rest.0.0, rest.0.1), rest.1)
]

-- An AID in its place among AIDs in ascending order. The order of the numbers stands for that of the
-- texts.
abbrev put_in_order : ℕ → List ℕ → List ℕ
put_in_order aid [] = aid ∷ []
put_in_order aid (x ∷ xs) =
    let rest = put_in_order aid xs in if leb aid x then aid ∷ x ∷ xs else x ∷ rest

-- SELECT … WHERE the account is inactive ORDER BY aid
abbrev pub scan : ℕ → Store → Table Account → List ℕ
scan now s [] = []
scan now s (e ∷ d) =
    let rest = scan now s d in if is_inactive now e.0 s then put_in_order e.0 rest else rest

abbrev pub and_windows : ℕ → (ℕ × Option Failure) × Store → (ℕ × Option Failure) × Store
and_windows now ((n, some e), s) = ((n, some e), s)
and_windows now ((n, none), s) = ((n, none), record s { windows = prune_windows now s.windows })

unfoldable pub sweep_inactive : Kels → Bool → ℕ → Store → (ℕ × Option Failure) × Store
sweep_inactive kels in_process now s =
    and_windows now (sweep_each kels in_process now now (scan now s s.accounts) s)

-- The end of maybeGrantTrial: a hold that did not pay is given back.
abbrev end_trial_hold :
    GateHold → Store → Gate → Outcome (Bool × Store) → (Outcome Bool × Store) × Gate
end_trial_hold h s g (done (true, s')) = ((done true, s'), g)
end_trial_hold h s g (done (false, s')) = ((done false, s), release h g)
end_trial_hold h s g (fails e) = ((fails e, s), release h g)

abbrev with_trial_hold : ℕ → ℕ → ℕ → Store → Option GateHold × Gate → (Outcome Bool × Store) × Gate
with_trial_hold hub aid now s (none, g) = ((done false, s), g)
with_trial_hold hub aid now s (some h, g) = end_trial_hold h s g (grant_trial_tx hub aid now s)

unfoldable pub maybe_grant_trial :
    Hashes → ℕ → ℕ → ℕ → Option Ip → ℕ → Store → Gate → (Outcome Bool × Store) × Gate
maybe_grant_trial hashes fresh hub aid ip now s g =
    if is_earned (unix_milli now) (lookup aid s.accounts)
    then with_trial_hold hub aid now s (reserve_trial hashes fresh ip now g)
    else ((done false, s), g)

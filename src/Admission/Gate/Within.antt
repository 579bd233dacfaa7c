-- ===== src/Admission/Gate/Within.antt =====
-- The daily limits in every run of the gate (internal/aghub/admission.go).
use anet_hub.Prelude.{
  ℕ, ◌+◌, ◌-◌, ◌≤◌, ◌≡◌, Option, some, List, [], ◌∷◌, inl, inr, Bool-cases, Option-cases, ◌==◌, leb,
  if◌then◌else◌, All, arith,
}
use anet_hub.Prelude.Int.{pos, leb_ℤ, eqb_ℤ, ◌+ℤ◌}
use anet_hub.Prelude.Table.{Table}
use anet_hub.Ledger.Issue.{utc_day}
use anet_hub.Registry.{Window}
use anet_hub.Admission.Gate.{
  Ip, NetLimit, Kind, kind_signup, kind_trial, Hashes, Gate, GateHold, count_at, roll_day,
  free_keys, net_key, signup_quota, trial_budget, trial_budget_hub, hold_signup, give_window,
  hold_trial, signup_keys, trial_keys, reserve_signup, reserve_trial, reserve_window, release,
  committed, or_zero, take_all, give_all,
}
use anet_hub.Admission.Gate.Counts.{count_at-give_all, signup_use, trial_use, hub_use, total, Held}
use anet_hub.Admission.Gate.Steps.{
  Step, signs_up, tries, takes_place, gives_back, goes_through, Run, here, next,
}
use anet_hub.Admission.Gate.Runs.{Run-IsCounted}
use anet_hub.Admission.Gate.Limits.{SeparatesLevels, level_times, HasLimit, within_after}

-- Every counter of the level is within its limit.
abbrev LevelWithin : Hashes → ℕ → Kind → Table ℕ → NetLimit → Type 0
LevelWithin hashes key kind d l =
    (ip : Ip) (k : ℕ) → net_key hashes key kind l ip ≡ some k → count_at k d ≤ l.most

-- The level is once in the table, with one limit.
abbrev IsOnce : List NetLimit → NetLimit → Type 0
IsOnce ls l = HasLimit l ls × (level_times l ls ≤ 1)

signup_quota-IsOnce : All (IsOnce signup_quota) signup_quota
signup_quota-IsOnce = ground arith

trial_budget-IsOnce : All (IsOnce trial_budget) trial_budget
trial_budget-IsOnce = ground arith

module _ (hashes : Hashes) (key : ℕ) (kind : Kind) where
  fewer-LevelWithin :
      (d e : Table ℕ) (ls : List NetLimit)
      → ((k : ℕ) → count_at k e ≤ count_at k d)
      → All (LevelWithin hashes key kind d) ls
      → All (LevelWithin hashes key kind e) ls
  fewer-LevelWithin d e [] less w = tt
  fewer-LevelWithin d e (l ∷ ls) less (w, ws) =
      (λ ip k own. omega (arith, less k, w ip k own), fewer-LevelWithin d e ls less ws)

  empty-LevelWithin : (ls : List NetLimit) → All (LevelWithin hashes key kind []) ls
  empty-LevelWithin [] = tt
  empty-LevelWithin (l ∷ ls) = (λ ip k own. omega arith, empty-LevelWithin ls)

  taken-LevelWithin :
      (ip : Ip) (d : Table ℕ) (whole ls : List NetLimit) (ks : List ℕ)
      → SeparatesLevels hashes
      → free_keys hashes key kind ip d whole ≡ some ks
      → All (IsOnce whole) ls
      → All (LevelWithin hashes key kind d) ls
      → All (LevelWithin hashes key kind (take_all ks d)) ls
  taken-LevelWithin ip d whole [] ks sep e once w = tt
  taken-LevelWithin ip d whole (l ∷ ls) ks sep e (once, onces) (w, ws) = (
    λ jp k own.
        within_after hashes sep key kind ip jp d l k own whole ks e once.0 once.1 (w jp k own),
    taken-LevelWithin ip d whole ls ks sep e onces ws,
  )

record IsWithin (hashes : Hashes) (g : Gate) : Type 0 where
  signups : All (LevelWithin hashes g.day_key kind_signup g.signup) signup_quota
  trials : All (LevelWithin hashes g.day_key kind_trial g.trials) trial_budget
  hub : g.trial_n ≤ trial_budget_hub

roll_day-IsWithin :
    (hashes : Hashes) (fresh now : ℕ) (g : Gate)
    → IsWithin hashes g
    → IsWithin hashes (roll_day fresh now g)
unfolding roll_day
roll_day-IsWithin hashes fresh now g w = elim (Bool-cases (eqb_ℤ (utc_day now) g.day)) [
  | inl same ↦ rw same w
  | inr new ↦ rw new (record {
    signups = empty-LevelWithin hashes fresh kind_signup signup_quota;
    trials = empty-LevelWithin hashes fresh kind_trial trial_budget;
    hub = omega arith;
  })
]

reserve_signup-IsWithin :
    (hashes : Hashes) (ip : Option Ip) (g : Gate)
    → SeparatesLevels hashes
    → IsWithin hashes g
    → IsWithin hashes (hold_signup g (signup_keys hashes ip g)).1
reserve_signup-IsWithin hashes ip g sep w = elim (Option-cases (signup_keys hashes ip g)) [
  | inl full ↦ rw full w
  | inr (ks, free) ↦ rw free (record {
    signups =
        taken-LevelWithin hashes g.day_key kind_signup (or_zero ip) g.signup signup_quota
          signup_quota ks sep free signup_quota-IsOnce w.signups;
    trials = w.trials;
    hub = w.hub;
  })
]

reserve_trial-IsWithin :
    (hashes : Hashes) (ip : Option Ip) (g : Gate)
    → SeparatesLevels hashes
    → IsWithin hashes g
    → IsWithin hashes (hold_trial g (trial_keys hashes ip g)).1
reserve_trial-IsWithin hashes ip g sep w = elim (Bool-cases (leb trial_budget_hub g.trial_n)) [
  | inl spent ↦ rw spent w
  | inr left ↦
      elim (Option-cases
        (free_keys hashes g.day_key kind_trial (or_zero ip) g.trials trial_budget)) [
          | inl full ↦ rw (left, full) w
          | inr (ks, free) ↦
              rw (left, free)
                (record {
                  signups = w.signups;
                  trials =
                      taken-LevelWithin hashes g.day_key kind_trial (or_zero ip) g.trials
                        trial_budget trial_budget ks sep free trial_budget-IsOnce w.trials;
                  hub = ground (arith, left);
                })
        ]
]

reserve_window-IsWithin :
    (hashes : Hashes) (w : ℕ × Window) (g : Gate)
    → IsWithin hashes g
    → IsWithin hashes (reserve_window w g).1
unfolding reserve_window
reserve_window-IsWithin hashes w g i =
    elim (Bool-cases (leb_ℤ w.1.max_places (w.1.used +ℤ pos (count_at w.0 g.window)))) [
      | inl full ↦ rw full i
      | inr free ↦ rw free (record { signups = i.signups; trials = i.trials; hub = i.hub })
    ]

give_window-IsWithin :
    (hashes : Hashes) (id : ℕ) (g : Gate) → IsWithin hashes g → IsWithin hashes (give_window id g)
give_window-IsWithin hashes id g i = elim (Bool-cases (id == 0)) [
  | inl unset ↦ rw unset i
  | inr set ↦ rw set (record { signups = i.signups; trials = i.trials; hub = i.hub })
]

less_given : (ks : List ℕ) (d : Table ℕ) (k : ℕ) → count_at k (give_all ks d) ≤ count_at k d
less_given ks d k = omega (arith, count_at-give_all k ks d)

given-IsWithin :
    (hashes : Hashes) (h : GateHold) (g : Gate)
    → IsWithin hashes g
    → IsWithin hashes (record g {
      signup = give_all h.signup g.signup;
      trials = give_all h.trials g.trials;
      trial_n = if h.trial_n then g.trial_n - 1 else g.trial_n;
    })
given-IsWithin hashes h g i = record {
  signups =
      fewer-LevelWithin hashes g.day_key kind_signup g.signup (give_all h.signup g.signup)
        signup_quota (less_given h.signup g.signup) i.signups;
  trials =
      fewer-LevelWithin hashes g.day_key kind_trial g.trials (give_all h.trials g.trials)
        trial_budget (less_given h.trials g.trials) i.trials;
  hub = ground (arith, i.hub);
}

release-IsWithin :
    (hashes : Hashes) (h : GateHold) (g : Gate) → IsWithin hashes g → IsWithin hashes (release h g)
unfolding release
release-IsWithin hashes h g i =
    let i' = give_window-IsWithin hashes h.window g i in
    elim (Bool-cases (eqb_ℤ h.day g.day)) [
      | inl today ↦ rw today (given-IsWithin hashes h (give_window h.window g) i')
      | inr other ↦ rw other i'
    ]

step-IsWithin :
    (hashes : Hashes) (s s' : Held)
    → SeparatesLevels hashes
    → Step hashes s s'
    → IsWithin hashes s.gate
    → IsWithin hashes s'.gate
unfolding reserve_signup reserve_trial committed
step-IsWithin hashes s s' sep (signs_up fresh ip now on e) w = rw e (
    reserve_signup-IsWithin hashes ip (roll_day fresh now s.gate) sep
      (roll_day-IsWithin hashes fresh now s.gate w))
step-IsWithin hashes s s' sep (tries fresh ip now on e) w = rw e (
    reserve_trial-IsWithin hashes ip (roll_day fresh now s.gate) sep
      (roll_day-IsWithin hashes fresh now s.gate w))
step-IsWithin hashes s s' sep (takes_place v e) w = rw e (reserve_window-IsWithin hashes v s.gate w)
step-IsWithin hashes s s' sep (gives_back pre h post e f) w =
    rw f (release-IsWithin hashes h s.gate w)
step-IsWithin hashes s s' sep (goes_through pre h post e f) w =
    rw f (give_window-IsWithin hashes h.window s.gate w)

Run-IsWithin :
    (hashes : Hashes) {s : Held} → SeparatesLevels hashes → Run hashes s → IsWithin hashes s.gate
Run-IsWithin hashes sep here = record {
  signups = empty-LevelWithin hashes 0 kind_signup signup_quota;
  trials = empty-LevelWithin hashes 0 kind_trial trial_budget;
  hub = omega arith;
}
Run-IsWithin hashes sep (next {s} s' r step) =
    step-IsWithin hashes s s' sep step (Run-IsWithin hashes sep r)

-- The holds of one kind that count for a network's level today are within the limit.
abbrev pub HoldsWithin : Hashes → Held → Kind → (ℕ → GateHold → ℕ) → NetLimit → Type 0
HoldsWithin hashes s kind uses l =
    (ip : Ip) (k : ℕ)
    → net_key hashes s.gate.day_key kind l ip ≡ some k
    → total (uses k) s.going + total (uses k) s.kept ≤ l.most

counted-HoldsWithin :
    (hashes : Hashes) (s : Held) (kind : Kind) (uses : ℕ → GateHold → ℕ) (d : Table ℕ)
    (ls : List NetLimit)
    → ((k : ℕ) → count_at k d ≡ total (uses k) s.going + total (uses k) s.kept)
    → All (LevelWithin hashes s.gate.day_key kind d) ls
    → All (HoldsWithin hashes s kind uses) ls
counted-HoldsWithin hashes s kind uses d [] counted w = tt
counted-HoldsWithin hashes s kind uses d (l ∷ ls) counted (w, ws) = (
  λ ip k own. omega (arith, counted k, w ip k own),
  counted-HoldsWithin hashes s kind uses d ls counted ws,
)

-- Where the HMAC tells the levels apart, in every run of the gate from the start of the process, at
-- a clock that does not step back over midnight, the open registrations of the day that are in
-- progress or went through are, at every level of every network, at most that level's signup quota,
-- and the trial grants at most its trial budget, and those of all networks at most 100.
pub Run-limited :
    (hashes : Hashes) {s : Held}
    → SeparatesLevels hashes
    → Run hashes s
    → All (HoldsWithin hashes s kind_signup (signup_use s.gate.day)) signup_quota
      × All (HoldsWithin hashes s kind_trial (trial_use s.gate.day)) trial_budget
      × (total (hub_use s.gate.day) s.going + total (hub_use s.gate.day) s.kept ≤ trial_budget_hub)
Run-limited hashes {s} sep r =
    let c = Run-IsCounted hashes r in
    let w = Run-IsWithin hashes sep r in
    (
      counted-HoldsWithin hashes s kind_signup (signup_use s.gate.day) s.gate.signup signup_quota
          c.signup w.signups,
      counted-HoldsWithin hashes s kind_trial (trial_use s.gate.day) s.gate.trials trial_budget
          c.trials w.trials,
      omega (arith, c.trial_n, w.hub),
    )

-- ===== src/Admission/Gate/Runs.antt =====
-- The counters in every run of the gate (internal/aghub/admission.go).
use anet_hub.Prelude.{
  ℕ, ◌+◌, ◌≡◌, ◌≢◌, refl, false, Option, none, some, List, [], ◌∷◌, ◌++◌, inl, inr, Bool-cases, All,
  arith,
}
use anet_hub.Prelude.Int.{ℤ, pos, ◌≤ℤ◌, eqb_ℤ, leb_ℤ, ◌+ℤ◌}
use anet_hub.Ledger.Issue.{utc_day}
use anet_hub.Registry.{Window}
use anet_hub.Admission.Gate.{
  Hashes, Gate, GateHold, count_at, roll_day, hold_signup, hold_trial, signup_keys, trial_keys,
  give_window, reserve_signup, reserve_trial, reserve_window, release, committed,
}
use anet_hub.Admission.Gate.Counts.{
  count_at-insert, count_at-less_one, count_at-take_all, count_at-give_all, signup_use, trial_use,
  hub_use, window_use, total, total_one, IsPast, IsPast-one, IsPast-later, Held, IsCounted,
}
use anet_hub.Admission.Gate.Steps.{
  IsOnwards, held_by, Step, signs_up, tries, takes_place, gives_back, goes_through, at_start, Run,
  here, next,
}

-- On a new day no hold counts.
total_signup_new :
    (d e : ℤ) (k : ℕ) (hs : List GateHold)
    → d ≤ℤ e
    → eqb_ℤ e d ≡ false
    → All (IsPast d) hs
    → total (signup_use e k) hs ≡ 0
total_signup_new d e k [] le ne a = refl
total_signup_new d e k (h ∷ hs) le ne (p, a) =
    let rest = total_signup_new d e k hs le ne a in ground (arith, p, le, ne, rest)

total_trial_new :
    (d e : ℤ) (k : ℕ) (hs : List GateHold)
    → d ≤ℤ e
    → eqb_ℤ e d ≡ false
    → All (IsPast d) hs
    → total (trial_use e k) hs ≡ 0
total_trial_new d e k [] le ne a = refl
total_trial_new d e k (h ∷ hs) le ne (p, a) =
    let rest = total_trial_new d e k hs le ne a in ground (arith, p, le, ne, rest)

total_hub_new :
    (d e : ℤ) (hs : List GateHold)
    → d ≤ℤ e
    → eqb_ℤ e d ≡ false
    → All (IsPast d) hs
    → total (hub_use e) hs ≡ 0
total_hub_new d e [] le ne a = refl
total_hub_new d e (h ∷ hs) le ne (p, a) =
    let rest = total_hub_new d e hs le ne a in ground (arith, p, le, ne, rest)

roll_day-IsCounted :
    (fresh now : ℕ) (g : Gate) (going kept : List GateHold)
    → IsOnwards now g
    → IsCounted (record { gate = g; going = going; kept = kept })
    → IsCounted (record { gate = roll_day fresh now g; going = going; kept = kept })
unfolding roll_day
roll_day-IsCounted fresh now g going kept on c = elim (Bool-cases (eqb_ℤ (utc_day now) g.day)) [
  | inl same ↦ rw same c
  | inr new ↦ rw new (record {
    signup = λ k. omega (
      arith,
      total_signup_new g.day (utc_day now) k going on new c.going_past,
      total_signup_new g.day (utc_day now) k kept on new c.kept_past,
    );
    trials = λ k. omega (
      arith,
      total_trial_new g.day (utc_day now) k going on new c.going_past,
      total_trial_new g.day (utc_day now) k kept on new c.kept_past,
    );
    trial_n = omega (
      arith,
      total_hub_new g.day (utc_day now) going on new c.going_past,
      total_hub_new g.day (utc_day now) kept on new c.kept_past,
    );
    window = c.window;
    clock = omega arith;
    going_past = IsPast-later g.day (utc_day now) going on c.going_past;
    kept_past = IsPast-later g.day (utc_day now) kept on c.kept_past;
  })
]

hold_signup-IsCounted :
    (g : Gate) (o : Option (List ℕ)) (going kept : List GateHold)
    → IsCounted (record { gate = g; going = going; kept = kept })
    → IsCounted (held_by (hold_signup g o) (record { gate = g; going = going; kept = kept }))
hold_signup-IsCounted g none going kept c = c
hold_signup-IsCounted g (some ks) going kept c = record {
  signup = λ k. ground (arith, c.signup k, count_at-take_all k ks g.signup);
  trials = λ k. ground (arith, c.trials k);
  trial_n = ground (arith, c.trial_n);
  window = λ id set. ground (arith, c.window id set);
  clock = c.clock;
  going_past = (omega arith, c.going_past);
  kept_past = c.kept_past;
}

hold_trial-IsCounted :
    (g : Gate) (o : Option (List ℕ)) (going kept : List GateHold)
    → IsCounted (record { gate = g; going = going; kept = kept })
    → IsCounted (held_by (hold_trial g o) (record { gate = g; going = going; kept = kept }))
hold_trial-IsCounted g none going kept c = c
hold_trial-IsCounted g (some ks) going kept c = record {
  signup = λ k. ground (arith, c.signup k);
  trials = λ k. ground (arith, c.trials k, count_at-take_all k ks g.trials);
  trial_n = ground (arith, c.trial_n);
  window = λ id set. ground (arith, c.window id set);
  clock = c.clock;
  going_past = (omega arith, c.going_past);
  kept_past = c.kept_past;
}

reserve_window-IsCounted :
    (w : ℕ × Window) (s : Held) → IsCounted s → IsCounted (held_by (reserve_window w s.gate) s)
unfolding reserve_window
reserve_window-IsCounted w s c =
    elim (Bool-cases (leb_ℤ w.1.max_places (w.1.used +ℤ pos (count_at w.0 s.gate.window)))) [
      | inl full ↦ rw full c
      | inr free ↦ rw free (record {
        signup = λ k. ground (arith, c.signup k);
        trials = λ k. ground (arith, c.trials k);
        trial_n = ground (arith, c.trial_n);
        window = λ id set. ground (
          arith,
          c.window id set,
          count_at-insert id w.0 (count_at w.0 s.gate.window + 1) s.gate.window,
        );
        clock = c.clock;
        going_past = (c.clock, c.going_past);
        kept_past = c.kept_past;
      })
    ]

-- The window counts without the hold that is taken off the list.
window_without :
    (id : ℕ) (g : Gate) (pre : List GateHold) (h : GateHold) (post : List GateHold)
    → id ≢ 0
    → count_at id g.window ≡ total (window_use id) (pre ++ h ∷ post)
    → count_at id (give_window h.window g).window ≡ total (window_use id) (pre ++ post)
window_without id g pre h post set e =
    ground
      (arith, e, set, total_one (window_use id) pre h post, count_at-less_one id h.window g.window)

committed-IsCounted :
    (g : Gate) (pre : List GateHold) (h : GateHold) (post kept : List GateHold)
    → IsCounted (record { gate = g; going = pre ++ h ∷ post; kept = kept })
    → IsCounted (record { gate = committed h g; going = pre ++ post; kept = h ∷ kept })
unfolding committed
committed-IsCounted g pre h post kept c =
    let (own, past) = IsPast-one g.day pre h post c.going_past in
    record {
      signup = λ k. ground (arith, c.signup k, total_one (signup_use g.day k) pre h post);
      trials = λ k. ground (arith, c.trials k, total_one (trial_use g.day k) pre h post);
      trial_n = ground (arith, c.trial_n, total_one (hub_use g.day) pre h post);
      window = λ id set. window_without id g pre h post set (c.window id set);
      clock = ground (arith, c.clock);
      going_past = ground (arith, past);
      kept_past = ground (arith, own, c.kept_past);
    }

release-IsCounted :
    (g : Gate) (pre : List GateHold) (h : GateHold) (post kept : List GateHold)
    → IsCounted (record { gate = g; going = pre ++ h ∷ post; kept = kept })
    → IsCounted (record { gate = release h g; going = pre ++ post; kept = kept })
unfolding release
release-IsCounted g pre h post kept c =
    let (own, past) = IsPast-one g.day pre h post c.going_past in
    record {
      signup = λ k. ground (
        arith,
        c.signup k,
        total_one (signup_use g.day k) pre h post,
        count_at-give_all k h.signup g.signup,
      );
      trials = λ k. ground (
        arith,
        c.trials k,
        total_one (trial_use g.day k) pre h post,
        count_at-give_all k h.trials g.trials,
      );
      trial_n = ground (arith, c.trial_n, total_one (hub_use g.day) pre h post);
      window = λ id set. ground (arith, window_without id g pre h post set (c.window id set));
      clock = ground (arith, c.clock);
      going_past = ground (arith, past);
      kept_past = ground (arith, c.kept_past);
    }

step-IsCounted : (hashes : Hashes) (s s' : Held) → Step hashes s s' → IsCounted s → IsCounted s'
unfolding reserve_signup reserve_trial
step-IsCounted hashes s s' (signs_up fresh ip now on e) c = rw e (
    let g' = roll_day fresh now s.gate in
    hold_signup-IsCounted g' (signup_keys hashes ip g') s.going s.kept
      (roll_day-IsCounted fresh now s.gate s.going s.kept on c))
step-IsCounted hashes s s' (tries fresh ip now on e) c = rw e (
    let g' = roll_day fresh now s.gate in
    hold_trial-IsCounted g' (trial_keys hashes ip g') s.going s.kept
      (roll_day-IsCounted fresh now s.gate s.going s.kept on c))
step-IsCounted hashes s s' (takes_place w e) c = rw e (reserve_window-IsCounted w s c)
step-IsCounted hashes s s' (gives_back pre h post e f) c =
    rw f (release-IsCounted s.gate pre h post s.kept (ground (arith, e, c)))
step-IsCounted hashes s s' (goes_through pre h post e f) c =
    rw f (committed-IsCounted s.gate pre h post s.kept (ground (arith, e, c)))

at_start-IsCounted : IsCounted at_start
at_start-IsCounted = record {
  signup = λ k. refl;
  trials = λ k. refl;
  trial_n = refl;
  window = λ id set. refl;
  clock = omega arith;
  going_past = tt;
  kept_past = tt;
}

-- In every run of the gate from the start of the process, at a clock that does not step back over
-- midnight, every counter is the number of holds that it stands for: a network's count and the hub's
-- those of the day, in progress or gone through, a window's count those of that window in progress.
pub Run-IsCounted : (hashes : Hashes) {s : Held} → Run hashes s → IsCounted s
Run-IsCounted hashes here = at_start-IsCounted
Run-IsCounted hashes (next {s} s' r step) = step-IsCounted hashes s s' step (Run-IsCounted hashes r)

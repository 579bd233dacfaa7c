-- ===== src/Registration/Flow/Returns.antt =====
-- What a registration that writes nothing leaves of the gate (internal/aghub/server.go hRegister).
use anet_hub.Prelude.{
  ℕ, ◌+◌, ◌≡◌, ◌≢◌, ◌⊎◌, refl, [], ◌∷◌, inl, inr, Bool, true, false, Option, none, some, List,
  Bool-cases, Option-cases, if◌then◌else◌, arith,
}
use anet_hub.Prelude.Int.{ℤ, pos, ◌+ℤ◌, leb_ℤ}
use anet_hub.Prelude.Table.{Table, contains, insert, lookup}
use anet_hub.Ledger.Issue.{unix_milli}
use anet_hub.Registry.{
  Window, Mode, mode_open, mode_closed, mode_other, Store, Kels, Outcome, fails, done,
}
use anet_hub.Admission.{mode_of}
use anet_hub.Admission.Windows.{open_window}
use anet_hub.Admission.Gate.{
  Hashes, Gate, GateHold, count_at, roll_day, signup_keys, hold_signup, reserve_signup,
  reserve_window, release,
}
use anet_hub.Admission.Gate.Counts.{
  count_at-take_all, count_at-give_all, count_at-insert, count_at-less_one,
}
use anet_hub.Admission.Door.{
  Request, GateAnswer, refused, passes, admission_gate, Entrance, shut, by_quota, by_window,
  entrance, reserve, through_quota, through_window, is_shut, by_open_window, entrance_of,
  has_worked,
}
use anet_hub.Registration.{Entry, register_agent}
use anet_hub.Registration.Flow.{
  refused_later, enquiry, wrote_row, give_back, after_write, through_gate, after_gate, register,
}

-- The two gates count the same.
pub record SameCounts (g h : Gate) : Type 0 where
  pub signup : (k : ℕ) → count_at k g.signup ≡ count_at k h.signup
  pub trials : (k : ℕ) → count_at k g.trials ≡ count_at k h.trials
  pub trial_n : g.trial_n ≡ h.trial_n
  pub window : (id : ℕ) → count_at id g.window ≡ count_at id h.window

hold_signup-SameCounts :
    (g : Gate) (o : Option (List ℕ))
    → SameCounts (give_back (hold_signup g o).0 (hold_signup g o).1) g
unfolding release
hold_signup-SameCounts g none = record {
  signup = λ k. refl;
  trials = λ k. refl;
  trial_n = refl;
  window = λ id. refl;
}
hold_signup-SameCounts g (some ks) = record {
  signup = λ k. ground (
    arith,
    count_at-take_all k ks g.signup,
    count_at-give_all k ks (hold_signup g (some ks)).1.signup,
  );
  trials = λ k. ground arith;
  trial_n = ground arith;
  window = λ id. ground arith;
}

reserve_window-SameCounts :
    (w : ℕ × Window) (g : Gate)
    → w.0 ≢ 0
    → SameCounts (give_back (reserve_window w g).0 (reserve_window w g).1) g
unfolding reserve_window release
reserve_window-SameCounts w g set =
    elim (Bool-cases (leb_ℤ w.1.max_places (w.1.used +ℤ pos (count_at w.0 g.window)))) [
      | inl full ↦
          rw full
            (record { signup = λ k. refl; trials = λ k. refl; trial_n = refl; window = λ id. refl })
      | inr free ↦ rw free (record {
        signup = λ k. ground arith;
        trials = λ k. ground arith;
        trial_n = ground arith;
        window = λ id. ground (
          arith,
          set,
          count_at-insert id w.0 (count_at w.0 g.window + 1) g.window,
          count_at-insert w.0 w.0 (count_at w.0 g.window + 1) g.window,
          count_at-less_one id w.0 (insert w.0 (count_at w.0 g.window + 1) g.window),
        );
      })
    ]

abbrev hold_of : GateAnswer → Option GateHold
hold_of (refused r) = none
hold_of (passes adm hold st) = hold

through_quota-hold_of :
    (now : ℕ) (r : Option GateHold × Gate)
    → (hold_of (through_quota now r).0 ≡ r.0) × ((through_quota now r).1 ≡ r.1)
through_quota-hold_of now (none, g) = (refl, refl)
through_quota-hold_of now (some h, g) = (refl, refl)

through_window-hold_of :
    (now id : ℕ) (r : Option GateHold × Gate)
    → (hold_of (through_window now id r).0 ≡ r.0) × ((through_window now id r).1 ≡ r.1)
through_window-hold_of now id (none, g) = (refl, refl)
through_window-hold_of now id (some h, g) = (refl, refl)

-- Nothing is kept of the gate, but that a new day may have begun.
abbrev pub IsReturned : ℕ → ℕ → Gate → Gate → Type 0
IsReturned fresh now g g' = SameCounts g' g ⊎ SameCounts g' (roll_day fresh now g)

same_itself : (g : Gate) → SameCounts g g
same_itself g = record {
  signup = λ k. refl;
  trials = λ k. refl;
  trial_n = refl;
  window = λ id. refl;
}

abbrev HasId : Entrance → Type 0
HasId (by_window w) = w.0 ≢ 0
HasId en = true ≡ true

reserve-IsReturned :
    (hashes : Hashes) (fresh : ℕ) (req : Request) (now : ℕ) (en : Entrance) (g : Gate)
    → HasId en
    → IsReturned fresh now g (
        give_back
          (hold_of (reserve hashes fresh req now en g).0)
          (reserve hashes fresh req now en g).1)
unfolding reserve_signup
reserve-IsReturned hashes fresh req now shut g set = inl (same_itself g)
reserve-IsReturned hashes fresh req now by_quota g set =
    let g' = roll_day fresh now g in
    let o = signup_keys hashes req.address g' in
    let (held, gate) = through_quota-hold_of now (hold_signup g' o) in
    inr (rw (held, gate) (hold_signup-SameCounts g' o))
reserve-IsReturned hashes fresh req now (by_window w) g set =
    let (held, gate) = through_window-hold_of now w.0 (reserve_window w g) in
    inl (rw (held, gate) (reserve_window-SameCounts w g set))

open_window_id :
    (ms : ℤ) (ws : Table Window) (w : ℕ × Window)
    → lookup 0 ws ≡ none
    → open_window ms ws ≡ some w
    → w.0 ≢ 0
unfolding open_window
open_window_id ms [] w z e = absurd cc
open_window_id ms (v ∷ d) w z e =
    let set : v.0 ≢ 0 = ground (arith, z) in
    let rest_z : lookup 0 d ≡ none = ground (arith, z) in
    elim (Option-cases (open_window ms d)) [
      | inl alone ↦ ground (arith, e, alone, set)
      | inr (u, other) ↦
          let q = open_window_id ms d u rest_z other in ground (arith, e, other, set, q)
    ]

by_open_window-HasId :
    (o : Option (ℕ × Window)) → ((w : ℕ × Window) → o ≡ some w → w.0 ≢ 0) → HasId (by_open_window o)
by_open_window-HasId none ids = refl
by_open_window-HasId (some w) ids = elim (Bool-cases (leb_ℤ w.1.max_places w.1.used)) [
  | inl full ↦ rw full refl
  | inr free ↦ rw free (ids w refl)
]

entrance-HasId : (now : ℕ) (s : Store) → lookup 0 s.windows ≡ none → HasId (entrance now s)
entrance-HasId now s z = by_mode s.mode
  where
    ids : (w : ℕ × Window) → open_window (unix_milli now) s.windows ≡ some w → w.0 ≢ 0
    ids w found = open_window_id (unix_milli now) s.windows w z found

    by_mode :
        (m : Option Mode) → HasId (entrance_of (mode_of m) (open_window (unix_milli now) s.windows))
    by_mode none = by_open_window-HasId _ ids
    by_mode (some mode_open) = refl
    by_mode (some mode_closed) = by_open_window-HasId _ ids
    by_mode (some (mode_other t)) = by_open_window-HasId _ ids

through_gate-IsReturned :
    (hashes : Hashes) (fresh : ℕ) (req : Request) (now : ℕ) (s : Store) (g : Gate)
    → lookup 0 s.windows ≡ none
    → let r = through_gate hashes fresh req now s g in
      IsReturned fresh now g (give_back (hold_of r.0) r.1)
unfolding admission_gate
through_gate-IsReturned hashes fresh req now s g z =
    elim (Bool-cases (contains req.aid s.ledger.agents)) [
      | inl known ↦ rw known (inl (same_itself g))
      | inr unknown ↦ elim (Bool-cases (contains req.aid s.admitted)) [
        | inl listed ↦ rw (unknown, listed) (inl (same_itself g))
        | inr newcomer ↦ elim (Bool-cases (is_shut (entrance now s))) [
          | inl closed ↦ rw (unknown, newcomer, closed) (inl (same_itself g))
          | inr opened ↦ elim (Bool-cases req.check_only) [
            | inl asks ↦ rw (unknown, newcomer, opened, asks) (inl (same_itself g))
            | inr real ↦ elim (Bool-cases (has_worked hashes req now)) [
              | inl worked ↦
                  rw (unknown, newcomer, opened, real, worked)
                    (reserve-IsReturned hashes fresh req now (entrance now s) g
                      (entrance-HasId now s z))
              | inr idle ↦ rw (unknown, newcomer, opened, real, idle) (inl (same_itself g))
            ]
          ]
        ]
      ]
    ]

after_write-give_back :
    (hold : Option GateHold) (s : Store) (o : Outcome (Bool × Store)) (g : Gate)
    → (after_write hold s o g).0.0 ≢ wrote_row true
    → (after_write hold s o g).1 ≡ give_back hold g
after_write-give_back hold s (fails e) g unwritten = refl
after_write-give_back hold s (done (true, s')) g unwritten = absurd (unwritten refl)
after_write-give_back hold s (done (false, s')) g unwritten = refl

after_gate-give_back :
    (kels : Kels) (hub : ℕ) (checks_fail keys_stale : Bool) (req : Request) (e : Entry) (now : ℕ)
    (s : Store) (r : GateAnswer × Gate)
    → (after_gate kels hub checks_fail keys_stale req e now s r).0.0 ≢ wrote_row true
    → (after_gate kels hub checks_fail keys_stale req e now s r).1 ≡ give_back (hold_of r.0) r.1
after_gate-give_back kels hub checks_fail keys_stale req e now s (refused x, g) unwritten = refl
after_gate-give_back kels hub true keys_stale req e now s (passes adm hold st, g) unwritten = refl
after_gate-give_back kels hub false keys_stale req e now s (passes adm hold st, g) unwritten =
    by_question req.check_only keys_stale unwritten
  where
    by_question :
        (asks stale : Bool)
        → (if asks
            then ((enquiry st, s), give_back hold g)
            else if stale
            then ((refused_later, s), give_back hold g)
            else after_write hold s (register_agent kels hub e adm now s) g).0.0
          ≢ wrote_row true
        → (if asks
            then ((enquiry st, s), give_back hold g)
            else if stale
            then ((refused_later, s), give_back hold g)
            else after_write hold s (register_agent kels hub e adm now s) g).1
          ≡ give_back hold g
    by_question true stale u = refl
    by_question false true u = refl
    by_question false false u =
        after_write-give_back hold s (register_agent kels hub e adm now s) g u

-- A registration that does not write its admission, refused at the gate, by a later check or by the
-- write, only asking, or finding its row written by another since the gate, leaves no place taken,
-- whatever the tables have become since the gate: every network, every window and the trials count
-- what they counted, or, where a new day begins with it, what that day begins with; windows have
-- ids from 1.
pub register-IsReturned :
    (kels : Kels) (hashes : Hashes) (fresh hub : ℕ) (checks_fail keys_stale : Bool) (req : Request)
    (e : Entry) (now : ℕ) (seen s : Store) (g : Gate)
    → lookup 0 seen.windows ≡ none
    → (register kels hashes fresh hub checks_fail keys_stale req e now seen s g).0.0
      ≢ wrote_row true
    → IsReturned fresh now g
        (register kels hashes fresh hub checks_fail keys_stale req e now seen s g).1
unfolding register
register-IsReturned kels hashes fresh hub checks_fail keys_stale req e now seen s g z unwritten =
    let r = through_gate hashes fresh req now seen g in
    rw (after_gate-give_back kels hub checks_fail keys_stale req e now s r unwritten)
      (through_gate-IsReturned hashes fresh req now seen g z)

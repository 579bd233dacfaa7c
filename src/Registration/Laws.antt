-- ===== src/Registration/Laws.antt =====
-- What the first registration of an AID takes of admission (internal/aghub/aghub.go putAgent,
-- admission.go writeAdmissionTx).
use anet_hub.Prelude.{
  ℕ, ◌≡◌, refl, inl, inr, Bool, true, false, Option, none, some, Bool-cases, Option-cases,
  if◌then◌else◌, arith, not,
}
use anet_hub.Prelude.Int.{ℤ, pos, ◌+ℤ◌, ltb_ℤ}
use anet_hub.Prelude.Table.{lookup, insert, contains, lookup-insert}
use anet_hub.Ledger.Issue.{unix_milli}
use anet_hub.Registry.{
  Via, via_list, via_window, via_open, via_registered, Trial, trial_none, trial_pending, Account,
  Window, Store, Kels, Outcome, fails, done, ◌>>=◌, >>=-eq-done, stop_if-bind, done_store,
  window_filled, deregistered_meanwhile,
}
use anet_hub.Admission.{
  AdmissionWrite, pay_list_grant_tx, change_account, from_list, on_probation, take_place, write_via,
  write_admission_tx, probation_period,
}
use anet_hub.Registration.{
  Entry, put_agent, over_bounds, check_extends, write_row, admit_entry, account_row,
  is_registered_before, note_change, release_tx,
}

-- The admission columns of the AID's row.
abbrev pub HasColumns : ℕ → Store → Via → Option ℤ → Trial → Type 0
HasColumns aid s via until trial =
    (a : Account) × (lookup aid s.accounts ≡ some a)
    × (a.admitted_via ≡ via)
    × (a.probation_until ≡ until)
    × (a.trial ≡ trial)

abbrev pub OnProbation : ℕ → ℕ → Store → Via → Type 0
OnProbation aid now s via =
    HasColumns aid s via (some (unix_milli now +ℤ probation_period)) trial_pending

-- A place of the window was free, and is taken.
abbrev pub PlaceTaken : ℕ → Store → Store → Type 0
PlaceTaken id s s' =
    (w : Window) × (lookup id s.windows ≡ some w)
    × (ltb_ℤ w.used w.max_places ≡ true)
    × (lookup id s'.windows ≡ some (record w { used = w.used +ℤ pos 1 }))

-- What a new row rests on, by its way in.
abbrev pub EnteredBy : Via → ℕ → AdmissionWrite → Store → Store → Type 0
EnteredBy via_list aid adm s s' =
    (contains aid s.admitted ≡ true) × HasColumns aid s' via_list none trial_none
EnteredBy via_window aid adm s s' =
    PlaceTaken adm.window s s' × OnProbation aid adm.now s' via_window
EnteredBy via_open aid adm s s' = OnProbation aid adm.now s' via_open
EnteredBy via_registered aid adm s s' = true ≡ false

-- The tables that admission changes are left alone.
record SameEntry (s s' : Store) : Type 0 where
  accounts : s'.accounts ≡ s.accounts
  windows : s'.windows ≡ s.windows

note_change-SameEntry :
    (kels : Kels) (e : Entry) (held : Option ℕ) (s s' : Store)
    → note_change kels e held s ≡ done s'
    → SameEntry s s'
note_change-SameEntry kels e held s s' went = record {
  accounts = ground (arith, went);
  windows = ground (arith, went);
}

pay_list_grant_tx-SameEntry :
    (hub aid now : ℕ) (s s' : Store) (n : ℤ)
    → pay_list_grant_tx hub aid now s ≡ done (n, s')
    → SameEntry s s'
unfolding pay_list_grant_tx
pay_list_grant_tx-SameEntry hub aid now s s' n e = record {
  accounts = ground (arith, e);
  windows = ground (arith, e);
}

change_account-HasColumns :
    (aid : ℕ) (f : Account → Account) (s : Store) (a : Account)
    → lookup aid s.accounts ≡ some a
    → lookup aid (change_account aid f s).accounts ≡ some (f a)
change_account-HasColumns aid f s a h =
    rw (h, change_account) (ground (arith, lookup-insert aid aid (f a) s.accounts))

take_place-PlaceTaken :
    (id : ℕ) (s s' : Store)
    → take_place id s ≡ done s'
    → PlaceTaken id s s' × (s'.accounts ≡ s.accounts)
take_place-PlaceTaken id s s' e = elim (Option-cases (lookup id s.windows)) [
  | inl absent ↦
      let h : take_place id s ≡ fails window_filled = rw (absent, take_place) refl in
      absurd (ground (arith, h, e))
  | inr (w, present) ↦ elim (Bool-cases (ltb_ℤ w.used w.max_places)) [
    | inl free ↦
        let w' = record w { used = w.used +ℤ pos 1 } in
        let h : take_place id s ≡ done (record s { windows = insert id w' s.windows }) =
          rw (present, free, take_place) refl in
        let same : s' ≡ record s { windows = insert id w' s.windows } = ground (arith, h, e) in
        (
          (w, present, free, rw same (ground (arith, lookup-insert id id w' s.windows))),
          rw same refl,
        )
    | inr full ↦
        let h : take_place id s ≡ fails window_filled = rw (present, full, take_place) refl in
        absurd (ground (arith, h, e))
  ]
]

write_via-EnteredBy :
    (hub aid now : ℕ) (via : Via) (adm : AdmissionWrite) (s s' : Store) (a : Account)
    → lookup aid s.accounts ≡ some a
    → write_via hub aid via adm now s ≡ done s'
    → EnteredBy via aid adm s s'
write_via-EnteredBy hub aid now via_list adm s s' a row e =
    let (listed, e1) = stop_if-bind (not (contains aid s.admitted)) _ _ e in
    let t = change_account aid from_list s in
    let (paid, pay, rest) = >>=-eq-done (pay_list_grant_tx hub aid now t) _ e1 in
    let same : s' ≡ paid.1 = ground (arith, rest) in
    let kept = pay_list_grant_tx-SameEntry hub aid now t paid.1 paid.0 pay in
    (
      ground (arith, listed),
      (
        from_list a,
        rw (same, kept.accounts) (change_account-HasColumns aid from_list s a row),
        refl,
        refl,
        refl,
      ),
    )
write_via-EnteredBy hub aid now via_window adm s s' a row e =
    let (t, taken, rest) = >>=-eq-done (take_place adm.window s) _ e in
    let (place, kept) = take_place-PlaceTaken adm.window s t taken in
    let f = on_probation via_window adm.now in
    let same : s' ≡ change_account aid f t = ground (arith, rest) in
    let held : lookup aid t.accounts ≡ some a = rw kept row in
    let windows : (change_account aid f t).windows ≡ t.windows = rw (held, change_account) refl in
    (
      (place.0, place.1, place.2, rw (same, windows) place.3),
      (f a, rw same (change_account-HasColumns aid f t a held), refl, refl, refl),
    )
write_via-EnteredBy hub aid now via_open adm s s' a row e =
    let f = on_probation via_open adm.now in
    let same : s' ≡ change_account aid f s = ground (arith, e) in
    (f a, rw same (change_account-HasColumns aid f s a row), refl, refl, refl)
write_via-EnteredBy hub aid now via_registered adm s s' a row e = absurd cc

-- The same, on tables that have the same lists and windows.
moved-EnteredBy :
    (via : Via) (aid : ℕ) (adm : AdmissionWrite) (s t t' u : Store)
    → t.admitted ≡ s.admitted
    → t.windows ≡ s.windows
    → SameEntry t' u
    → EnteredBy via aid adm t t'
    → EnteredBy via aid adm s u
moved-EnteredBy via_list aid adm s t t' u a w k e = (rw (← a) e.0, rw k.accounts e.1)
moved-EnteredBy via_window aid adm s t t' u a w k e =
    ((e.0.0, rw (← w) e.0.1, e.0.2, rw k.windows e.0.3), rw k.accounts e.1)
moved-EnteredBy via_open aid adm s t t' u a w k e = rw k.accounts e
moved-EnteredBy via_registered aid adm s t t' u a w k e = e

release-SameEntry :
    (longer : Bool) (aid : ℕ) (s s' u : Store)
    → SameEntry s s'
    → u ≡ (if longer then release_tx aid s' else s')
    → SameEntry s u
release-SameEntry longer aid s s' u k e = record {
  accounts = ground (arith, e, k.accounts);
  windows = ground (arith, e, k.windows);
}

-- The write of an AID that is not registered goes through only by the way in that the gate gave: by
-- the list only while the AID is on it, without probation or trial; by a window only with a free
-- place, which it takes; by a window or open registration with probation for 72 hours and the trial
-- credit pending; and never as one that was registered at the gate.
pub put_agent-EnteredBy :
    (kels : Kels) (hub : ℕ) (e : Entry) (adm : AdmissionWrite) (now : ℕ) (s s' : Store)
    (wrote : Bool)
    → contains e.aid s.ledger.agents ≡ false
    → put_agent kels hub e (some adm) now s ≡ done (wrote, s')
    → EnteredBy adm.via e.aid adm s s'
unfolding put_agent write_admission_tx
put_agent-EnteredBy kels hub e adm now s s' wrote new went =
    let (fits, e1) = stop_if-bind (over_bounds e.caps) _ _ went in
    let (longer, extends, e2) = >>=-eq-done (check_extends kels e s) _ e1 in
    let t = write_row e now s in
    let (w, admitted, e3) =
      >>=-eq-done (admit_entry hub e.aid (contains e.aid s.ledger.agents) (some adm) now t) _ e2 in
    let (u, noted, e4) = >>=-eq-done (note_change kels e (lookup e.aid s.ledger.agents) w.1) _ e3 in
    let last : s' ≡ (if longer then release_tx e.aid u else u) = done_store e4 in
    let kept =
      release-SameEntry longer e.aid w.1 u s'
        (note_change-SameEntry kels e (lookup e.aid s.ledger.agents) w.1 u noted) last in
    elim (Bool-cases (is_registered_before adm.via)) [
      | inl before ↦
          let h : ◌≡◌ {A = Outcome (Bool × Store)} (fails deregistered_meanwhile) (done w) =
            rw (← admitted, new, before, admit_entry) refl in
          absurd (ground (arith, h))
      | inr gated ↦
          let h : (write_admission_tx hub e.aid adm now t >>= λ v. done (true, v)) ≡ done w =
            rw (← admitted, new, gated, admit_entry) refl in
          let (v, written, rest) = >>=-eq-done (write_admission_tx hub e.aid adm now t) _ h in
          let same : w.1 ≡ v = ground (arith, rest) in
          let row : lookup e.aid t.accounts ≡ some (account_row e now (lookup e.aid s.accounts)) =
            ground (
              arith,
              lookup-insert e.aid e.aid (account_row e now (lookup e.aid s.accounts)) s.accounts,
            ) in
          moved-EnteredBy adm.via e.aid adm s t w.1 s' refl refl kept
            (rw same (write_via-EnteredBy hub e.aid now adm.via adm t v _ row written))
    ]

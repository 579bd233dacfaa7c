-- ===== src/Hub/Leaves.antt =====
-- Departures, and what goes through them, as sequences of the changes (internal/aghub/deregister.go,
-- admission.go).
use anet_hub.Prelude.{
  ℕ, ◌≡◌, refl, ap, inl, inr, Bool, true, false, Option, none, some, List, [], ◌∷◌, Bool-cases,
  if◌then◌else◌, arith,
}
use anet_hub.Prelude.Table.{Table, erase, contains}
use anet_hub.Registry.{
  Window, Store, Kels, Failure, Outcome, fails, done, ◌>>=◌, not_registered, >>=-eq-done,
  done_store, Outcome-cases,
}
use anet_hub.Registry.Departs.{
  Departure, DeregResult, dereg_revoked, dereg_inactive, by_operator, put_tombstone, dereg_steps,
  drop_decisions, note_departure, deregister_tx, after_dereg, commit, after, deregister,
}
use anet_hub.Registry.Departs.Laws.{agent_row-eq, deregister_tx-eq, withdraw_ledger}
use anet_hub.Admission.{revoke_admission, or_unlist, unlist, finish_revoke}
use anet_hub.Admission.Windows.{prune_windows}
use anet_hub.Admission.Trials.{
  is_inactive, sweep_one, swept, sweep_each, scan, and_windows, sweep_inactive,
}
use anet_hub.Hub.Changes.{
  keeps, moves_windows, leaves, Trail, here, one_change, Trail-append, PlacesWithin,
}

pub deregister_tx-Trail :
    (kels : Kels) (hub : ℕ) (why : Departure) (aid now : ℕ) (s s' : Store) (r : DeregResult)
    → deregister_tx kels why aid now s ≡ done (r, s')
    → Trail kels hub s s'
deregister_tx-Trail kels hub why aid now s s' r e =
    let (row, there, done_so) = deregister_tx-eq kels why aid now s s' r e in
    let t = put_tombstone aid row.0 now s in
    let same : s' ≡ note_departure aid now (drop_decisions why aid (dereg_steps aid now row.1 t)) =
      ap (λ p. p.1) done_so in
    let (l, w, d) = withdraw_ledger aid now row.1 t in
    rw same (elim (Bool-cases (by_operator why)) [
      | inl operator ↦
          rw (operator, drop_decisions)
            (one_change (leaves aid row.0 now (agent_row-eq aid s row there) (rw l refl) w d))
      | inr other ↦
          rw (other, drop_decisions)
            (one_change (leaves aid row.0 now (agent_row-eq aid s row there) (rw l refl) w d))
    ])

after_dereg-Trail :
    (kels : Kels) (hub : ℕ) (in_process : Bool) (aid : ℕ) (s : Store)
    → Trail kels hub s (after_dereg in_process aid s)
after_dereg-Trail kels hub true aid s = one_change (keeps refl refl refl)
after_dereg-Trail kels hub false aid s = here

pub deregister-Trail :
    (kels : Kels) (hub : ℕ) (in_process : Bool) (why : Departure) (aid now : ℕ) (s : Store)
    → Trail kels hub s (deregister kels in_process why aid now s).1
unfolding deregister
deregister-Trail kels hub in_process why aid now s = ends (deregister_tx kels why aid now s) refl
  where
    ends :
        (o : Outcome (DeregResult × Store))
        → deregister_tx kels why aid now s ≡ o
        → Trail kels hub s (after (after_dereg in_process aid) (commit s o)).1
    ends (fails e) eq = here
    ends (done (r, s')) eq =
        Trail-append (deregister_tx-Trail kels hub why aid now s s' r eq)
          (after_dereg-Trail kels hub in_process aid s')

pub revoke_admission-Trail :
    (kels : Kels) (hub : ℕ) (in_process : Bool) (aid now : ℕ) (s : Store)
    → Trail kels hub s (revoke_admission kels in_process aid now s).1
unfolding revoke_admission
revoke_admission-Trail kels hub in_process aid now s = elim (Bool-cases (kels.valid_aid aid)) [
  | inl valid ↦ rw valid (ends (deregister_tx kels dereg_revoked aid now s) refl)
  | inr bad ↦ rw bad here
]
  where
    unlisted :
        (finish_revoke in_process aid (commit s (unlist aid s))).1
        ≡ (if contains aid s.admitted then record s { admitted = erase aid s.admitted } else s)
    unlisted = elim (Bool-cases (contains aid s.admitted)) [
      | inl listed ↦ rw (listed, unlist) refl
      | inr absent ↦ rw (absent, unlist) refl
    ]

    ends :
        (o : Outcome (DeregResult × Store))
        → deregister_tx kels dereg_revoked aid now s ≡ o
        → Trail kels hub s (finish_revoke in_process aid (commit s (or_unlist aid s o))).1
    ends (fails not_registered) eq =
        rw unlisted (one_change (keeps (ground arith) (ground arith) (ground arith)))
    ends (done (r, s')) eq =
        Trail-append (deregister_tx-Trail kels hub dereg_revoked aid now s s' r eq)
          (after_dereg-Trail kels hub in_process aid s')
    ends (fails e) eq = here

sweep_one-Trail :
    (kels : Kels) (hub aid scanned now : ℕ) (s s' : Store) (left : Bool)
    → sweep_one kels aid scanned now s ≡ done (left, s')
    → Trail kels hub s s'
unfolding sweep_one
sweep_one-Trail kels hub aid scanned now s s' left e =
    elim (Bool-cases (is_inactive scanned aid s)) [
      | inl idle ↦
          let h : (deregister_tx kels dereg_inactive aid now s >>= λ gone. done (true, gone.1))
              ≡ done (left, s') =
            rw (← e, idle, sweep_one) refl in
          let (gone, went, rest) = >>=-eq-done (deregister_tx kels dereg_inactive aid now s) _ h in
          let same : s' ≡ gone.1 = done_store rest in
          rw same (deregister_tx-Trail kels hub dereg_inactive aid now s gone.1 gone.0 went)
      | inr active ↦
          let h : ◌≡◌ {A = Outcome (Bool × Store)} (done (false, s)) (done (left, s')) =
            rw (← e, active, sweep_one) refl in
          let same : s' ≡ s = done_store h in rw same here
    ]

swept-Trail :
    (kels : Kels) (hub : ℕ) (in_process left : Bool) (aid : ℕ) (s : Store)
    → Trail kels hub s (swept in_process left aid s)
swept-Trail kels hub in_process true aid s = after_dereg-Trail kels hub in_process aid s
swept-Trail kels hub in_process false aid s = here

sweep_each-Trail :
    (kels : Kels) (hub : ℕ) (in_process : Bool) (scanned now : ℕ) (aids : List ℕ) (s : Store)
    → Trail kels hub s (sweep_each kels in_process scanned now aids s).1
unfolding sweep_each
sweep_each-Trail kels hub in_process scanned now [] s = here
sweep_each-Trail kels hub in_process scanned now (aid ∷ aids) s =
    elim (Outcome-cases (sweep_one kels aid scanned now s)) [
      | inl (e, failed) ↦ rw (failed, sweep_each) here
      | inr ((left, s'), went) ↦
          let t = swept in_process left aid s' in
          rw (went, sweep_each)
            (Trail-append
              (Trail-append (sweep_one-Trail kels hub aid scanned now s s' left went)
                (swept-Trail kels hub in_process left aid s'))
              (sweep_each-Trail kels hub in_process scanned now aids t))
    ]

prune_windows-PlacesWithin :
    (now : ℕ) (ws : Table Window) → PlacesWithin ws → PlacesWithin (prune_windows now ws)
unfolding prune_windows
prune_windows-PlacesWithin now [] p = p
prune_windows-PlacesWithin now (e ∷ d) (p, ps) =
    let rest = prune_windows-PlacesWithin now d ps in ground (arith, p, rest)

and_windows-Trail :
    (kels : Kels) (hub now : ℕ) (r : (ℕ × Option Failure) × Store)
    → Trail kels hub r.1 (and_windows now r).1
and_windows-Trail kels hub now ((n, some e), s) = here
and_windows-Trail kels hub now ((n, none), s) =
    one_change (moves_windows refl (prune_windows-PlacesWithin now s.windows) refl)

pub sweep_inactive-Trail :
    (kels : Kels) (hub : ℕ) (in_process : Bool) (now : ℕ) (s : Store)
    → Trail kels hub s (sweep_inactive kels in_process now s).1
unfolding sweep_inactive
sweep_inactive-Trail kels hub in_process now s =
    let r = sweep_each kels in_process now now (scan now s s.accounts) s in
    Trail-append (sweep_each-Trail kels hub in_process now now (scan now s s.accounts) s)
      (and_windows-Trail kels hub now r)

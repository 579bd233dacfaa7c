-- ===== src/Hub/Laws.antt =====
-- What holds in every run of the registry's operations (internal/aghub/admission.go, deregister.go,
-- aghub.go).
use anet_hub.Prelude.{ℕ, ◌+◌, ◌≡◌, ◌≢◌, refl, inl, inr, some, [], ◌∷◌, Option-cases, arith}
use anet_hub.Prelude.Int.{ℤ}
use anet_hub.Prelude.Table.{Table, insert}
use anet_hub.Ledger.Issue.{unix_milli}
use anet_hub.Ledger.Sound.{IsSound}
use anet_hub.Registry.{
  Window, Mode, mode_closed, mode_open, mode_other, Store, Kels, done, >>=-eq-done, stop_if-bind,
  done_store,
}
use anet_hub.Registration.{known_raw}
use anet_hub.Admission.{set_admission_mode}
use anet_hub.Admission.Windows.{
  open_window, open_sign_up, close_sign_up, new_window, out_of_bounds, none_open,
}
use anet_hub.Hub.{
  Step, sets_mode, admits, revokes, opens_window, closes_window, registers, earns_trial, departs,
  sweeps, Run,
}
use anet_hub.Hub.Changes.{
  keeps, moves_windows, Trail, one_change, Trail-append, PlaceWithin, PlacesWithin, Trail-IsSound,
  Trail-PlacesWithin, HoldsOn, ExtendsOn, Trail-HoldsOn,
}
use anet_hub.Hub.Trails.{admit-Trail, insert-PlacesWithin}
use anet_hub.Hub.Rows.{register_agent-Trail, grant_trial_tx-Trail}
use anet_hub.Hub.Leaves.{deregister-Trail, revoke_admission-Trail, sweep_inactive-Trail}

set_admission_mode-Trail :
    (kels : Kels) (hub : ℕ) (m : Mode) (s s' : Store)
    → set_admission_mode m s ≡ done s'
    → Trail kels hub s s'
unfolding set_admission_mode
set_admission_mode-Trail kels hub (mode_other t) s s' e = absurd cc
set_admission_mode-Trail kels hub mode_closed s s' e =
    one_change (keeps (ground (arith, e)) (ground (arith, e)) (ground (arith, e)))
set_admission_mode-Trail kels hub mode_open s s' e =
    one_change (keeps (ground (arith, e)) (ground (arith, e)) (ground (arith, e)))

open_sign_up-Trail :
    (kels : Kels) (hub : ℕ) (d places : ℤ) (label now : ℕ) (s s' : Store) (w : ℕ × Window)
    → open_sign_up d places label now s ≡ done (w, s')
    → Trail kels hub s s'
unfolding open_sign_up
open_sign_up-Trail kels hub d places label now s s' w e =
    let (bounded, e1) = stop_if-bind (out_of_bounds d places) _ _ e in
    let (u, unopened, e2) = >>=-eq-done (none_open (open_window (unix_milli now) s.windows)) _ e1 in
    let v = new_window d places label now in
    let same : s' ≡ record s {
      windows = insert (s.last_window + 1) v s.windows;
      last_window = s.last_window + 1;
    } =
      done_store e2 in
    rw same (
      one_change (
        moves_windows refl
          (insert-PlacesWithin (s.last_window + 1) v s.windows (ground (arith, bounded))) refl))

-- A window that is open is a row.
open_window-PlaceWithin :
    (ms : ℤ) (ws : Table Window) (w : ℕ × Window)
    → open_window ms ws ≡ some w
    → PlacesWithin ws
    → PlaceWithin w
unfolding open_window
open_window-PlaceWithin ms [] w e p = absurd cc
open_window-PlaceWithin ms (v ∷ d) w e (p, ps) = elim (Option-cases (open_window ms d)) [
  | inl alone ↦ ground (arith, e, alone, p)
  | inr (u, other) ↦
      let q = open_window-PlaceWithin ms d u other ps in ground (arith, e, other, p, q)
]

close_sign_up-Trail :
    (kels : Kels) (hub now : ℕ) (s : Store) → Trail kels hub s (close_sign_up now s).1
unfolding close_sign_up
close_sign_up-Trail kels hub now s = elim (Option-cases (open_window (unix_milli now) s.windows)) [
  | inl closed ↦ rw (closed, close_sign_up) (one_change (keeps refl refl refl))
  | inr (w, found) ↦
      rw (found, close_sign_up)
        (one_change (
          moves_windows refl
            (λ p.
              insert-PlacesWithin w.0 (record w.1 { closes_at = unix_milli now }) s.windows
                (open_window-PlaceWithin (unix_milli now) s.windows w found p) p)
            refl))
]

step-Trail :
    (kels : Kels) (hub now : ℕ) (s s' : Store) → Step kels hub now s s' → Trail kels hub s s'
step-Trail kels hub now s s' (sets_mode m e) = set_admission_mode-Trail kels hub m s s' e
step-Trail kels hub now s s' (admits aid grant label label_set r away e) =
    admit-Trail kels hub aid grant label label_set now s s' r away e
step-Trail kels hub now s s' (revokes in_process aid e) =
    rw e (revoke_admission-Trail kels hub in_process aid now s)
step-Trail kels hub now s s' (opens_window d places label w e) =
    open_sign_up-Trail kels hub d places label now s s' w e
step-Trail kels hub now s s' (closes_window e) = rw e (close_sign_up-Trail kels hub now s)
step-Trail kels hub now s s' (registers e events adm wrote away given stored ok) =
    register_agent-Trail kels hub e events adm now s s' wrote away given stored ok
step-Trail kels hub now s s' (earns_trial aid paid away e) =
    grant_trial_tx-Trail kels hub aid now s s' paid away e
step-Trail kels hub now s s' (departs in_process why aid e) =
    rw e (deregister-Trail kels hub in_process why aid now s)
step-Trail kels hub now s s' (sweeps in_process e) =
    rw e (sweep_inactive-Trail kels hub in_process now s)

Run-Trail : (kels : Kels) (hub : ℕ) {s s' : Store} → Run kels hub s s' → Trail kels hub s s'
Run-Trail kels hub Run.here = Trail.here
Run-Trail kels hub (Run.next {s} now s' r step) =
    Trail-append (Run-Trail kels hub r) (step-Trail kels hub now s s' step)

-- In every run of admissions, revocations, sign-up windows, registrations, trial credits,
-- departures and sweeps, in any order and with any arguments, the ledger stays sound, where the hub
-- has an AID and none of these names it for an admission or a registration.
pub Run-ledger-IsSound :
    (kels : Kels) (hub : ℕ) {s s' : Store}
    → hub ≢ 0
    → Run kels hub s s'
    → IsSound hub s.ledger
    → IsSound hub s'.ledger
Run-ledger-IsSound kels hub set r i = Trail-IsSound kels hub set (Run-Trail kels hub r) i

-- In every run of the registry's operations no sign-up window admits more than it was opened for, whatever
-- the registrations saw of it at the gate, where none had at the start.
pub Run-PlacesWithin :
    (kels : Kels) (hub : ℕ) {s s' : Store}
    → Run kels hub s s'
    → PlacesWithin s.windows
    → PlacesWithin s'.windows
Run-PlacesWithin kels hub r i = Trail-PlacesWithin kels hub (Run-Trail kels hub r) i

-- In every run of the registry's operations the key history that the hub knows of an AID, registered or as a
-- tombstone, only grows: where it held one, it holds that one or one that extends it, through any
-- departures and registrations, where what extends an extension extends the first.
pub Run-HoldsOn :
    (kels : Kels) (hub : ℕ) {s s' : Store} (aid a : ℕ)
    → ExtendsOn kels
    → Run kels hub s s'
    → known_raw aid s ≡ some a
    → HoldsOn kels aid a s'
Run-HoldsOn kels hub aid a on r h = Trail-HoldsOn kels hub aid a on (Run-Trail kels hub r) h

-- ===== src/Hub.antt =====
-- The operations on the registry (internal/aghub/admission.go, deregister.go, aghub.go) as one
-- transition system, and the few kinds of change that they are made of.
pub mod Changes
pub mod Trails
pub mod Rows
pub mod Leaves
pub mod Laws
mod Tests
use anet_hub.Prelude.{ℕ, ◌≡◌, ◌≢◌, Bool, Option, some, List}
use anet_hub.Prelude.Int.{ℤ}
use anet_hub.Registry.{Window, Mode, Store, Kels, done}
use anet_hub.Registry.Departs.{Departure, deregister}
use anet_hub.Admission.{AdmitResult, AdmissionWrite, set_admission_mode, admit, revoke_admission}
use anet_hub.Admission.Windows.{open_sign_up, close_sign_up}
use anet_hub.Admission.Trials.{grant_trial_tx, sweep_inactive}
use anet_hub.Registration.{Entry, register_agent}

-- One operation at the hub's time `now`. A registration writes what an earlier look through the gate
-- gave it, whatever that was: the tables may have changed since.
pub data Step (kels : Kels) (hub now : ℕ) (s s' : Store) : Type 0 where
  sets_mode : (m : Mode) → set_admission_mode m s ≡ done s' → Step kels hub now s s'
  admits :
      (aid : ℕ) (grant : ℤ) (label : ℕ) (label_set : Bool) (r : AdmitResult)
      → aid ≢ hub
      → admit kels hub aid grant label label_set now s ≡ done (r, s')
      → Step kels hub now s s'
  revokes :
      (in_process : Bool) (aid : ℕ)
      → s' ≡ (revoke_admission kels in_process aid now s).1
      → Step kels hub now s s'
  opens_window :
      (d places : ℤ) (label : ℕ) (w : ℕ × Window)
      → open_sign_up d places label now s ≡ done (w, s')
      → Step kels hub now s s'
  closes_window : s' ≡ (close_sign_up now s).1 → Step kels hub now s s'
  registers :
      (e : Entry) (events : List ℕ) (adm : Option AdmissionWrite) (wrote : Bool)
      → e.aid ≢ hub
      → e.events ≡ some events
      → kels.decode e.kel ≡ some events
      → register_agent kels hub e adm now s ≡ done (wrote, s')
      → Step kels hub now s s'
  earns_trial :
      (aid : ℕ) (paid : Bool)
      → aid ≢ hub
      → grant_trial_tx hub aid now s ≡ done (paid, s')
      → Step kels hub now s s'
  departs :
      (in_process : Bool) (why : Departure) (aid : ℕ)
      → s' ≡ (deregister kels in_process why aid now s).1
      → Step kels hub now s s'
  sweeps :
      (in_process : Bool) → s' ≡ (sweep_inactive kels in_process now s).1 → Step kels hub now s s'

-- A run from the tables `start`.
pub data Run (kels : Kels) (hub : ℕ) (start : Store) : Store → Type 0 where
  here : Run kels hub start start
  next :
      {s : Store} (now : ℕ) (s' : Store)
      → Run kels hub start s
      → Step kels hub now s s'
      → Run kels hub start s'

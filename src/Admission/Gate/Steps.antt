-- ===== src/Admission/Gate/Steps.antt =====
-- The gate as a transition system: reservations, and what becomes of them, in any order
-- (internal/aghub/admission.go).
use anet_hub.Prelude.{ℕ, ◌≡◌, Option, none, some, List, [], ◌∷◌, ◌++◌}
use anet_hub.Prelude.Int.{◌≤ℤ◌}
use anet_hub.Ledger.Issue.{utc_day}
use anet_hub.Registry.{Window}
use anet_hub.Admission.Gate.{
  Ip, Hashes, Gate, GateHold, new_gate, reserve_signup, reserve_trial, reserve_window, release,
  committed,
}
use anet_hub.Admission.Gate.Counts.{Held}

-- A clock that does not step back over midnight.
abbrev pub IsOnwards : ℕ → Gate → Type 0
IsOnwards now g = g.day ≤ℤ utc_day now

abbrev pub and_hold : Option GateHold → List GateHold → List GateHold
and_hold none hs = hs
and_hold (some h) hs = h ∷ hs

abbrev pub held_by : Option GateHold × Gate → Held → Held
held_by (o, g) s = record s { gate = g; going = and_hold o s.going }

pub data Step (hashes : Hashes) (s s' : Held) : Type 0 where
  signs_up :
      (fresh : ℕ) (ip : Option Ip) (now : ℕ)
      → IsOnwards now s.gate
      → s' ≡ held_by (reserve_signup hashes fresh ip now s.gate) s
      → Step hashes s s'
  tries :
      (fresh : ℕ) (ip : Option Ip) (now : ℕ)
      → IsOnwards now s.gate
      → s' ≡ held_by (reserve_trial hashes fresh ip now s.gate) s
      → Step hashes s s'
  takes_place : (w : ℕ × Window) → s' ≡ held_by (reserve_window w s.gate) s → Step hashes s s'
  gives_back :
      (pre : List GateHold) (h : GateHold) (post : List GateHold)
      → s.going ≡ pre ++ h ∷ post
      → s' ≡ record { gate = release h s.gate; going = pre ++ post; kept = s.kept }
      → Step hashes s s'
  goes_through :
      (pre : List GateHold) (h : GateHold) (post : List GateHold)
      → s.going ≡ pre ++ h ∷ post
      → s' ≡ record { gate = committed h s.gate; going = pre ++ post; kept = h ∷ s.kept }
      → Step hashes s s'

abbrev pub at_start : Held
at_start = record { gate = new_gate; going = []; kept = [] }

-- A run from the start of the process.
pub data Run (hashes : Hashes) : Held → Type 0 where
  here : Run hashes at_start
  next : {s : Held} (s' : Held) → Run hashes s → Step hashes s s' → Run hashes s'

-- ===== src/Admission/Door.antt =====
-- internal/aghub/server.go admissionGate: the gate of /register, for an AID not registered here.
pub mod Decides
use anet_hub.Prelude.{ℕ, Bool, true, false, Option, none, some, not, if◌then◌else◌}
use anet_hub.Prelude.Int.{leb_ℤ}
use anet_hub.Prelude.Table.{contains}
use anet_hub.Ledger.Issue.{unix_milli}
use anet_hub.Registry.{via_list, via_window, via_open, Window, Mode, mode_open, Store}
use anet_hub.Admission.{AdmissionWrite, mode_of}
use anet_hub.Admission.Windows.{open_window}
use anet_hub.Admission.Gate.{Ip, Hashes, Gate, GateHold, reserve_signup, reserve_window, check_pow}

-- RegisterRequest's part in the gate, with the client's address.
pub record Request : Type 0 where
  pub aid : ℕ
  pub check_only : Bool
  pub pow_seed : Option ℕ
  pub pow_nonce : ℕ
  pub address : Option Ip

pub data GateRefusal : Type 0 where
  admission_required pow_required registration_quota : GateRefusal

-- CheckAdmitted and CheckOpen
pub data CheckStatus : Type 0 where
  check_admitted check_open : CheckStatus

-- What the registration writes beside its row, and what it holds of the gate.
pub data GateAnswer : Type 0 where
  refused : GateRefusal → GateAnswer
  passes : Option AdmissionWrite → Option GateHold → CheckStatus → GateAnswer

-- The way in for an AID that is not on the list.
pub data Entrance : Type 0 where
  shut by_quota : Entrance
  by_window : ℕ × Window → Entrance

abbrev pub by_open_window : Option (ℕ × Window) → Entrance
by_open_window none = shut
by_open_window (some w) = if leb_ℤ w.1.max_places w.1.used then shut else by_window w

abbrev pub entrance_of : Mode → Option (ℕ × Window) → Entrance
entrance_of mode_open w = by_quota
entrance_of mode w = by_open_window w

abbrev pub entrance : ℕ → Store → Entrance
entrance now s = entrance_of (mode_of s.mode) (open_window (unix_milli now) s.windows)

abbrev pub through_quota : ℕ → Option GateHold × Gate → GateAnswer × Gate
through_quota now (none, g) = (refused registration_quota, g)
through_quota now (some h, g) =
    (passes (some (record { via = via_open; window = 0; now = now })) (some h) check_open, g)

abbrev pub through_window : ℕ → ℕ → Option GateHold × Gate → GateAnswer × Gate
through_window now id (none, g) = (refused admission_required, g)
through_window now id (some h, g) =
    (passes (some (record { via = via_window; window = id; now = now })) (some h) check_open, g)

abbrev pub reserve : Hashes → ℕ → Request → ℕ → Entrance → Gate → GateAnswer × Gate
reserve hashes fresh req now shut g = (refused admission_required, g)
reserve hashes fresh req now by_quota g =
    through_quota now (reserve_signup hashes fresh req.address now g)
reserve hashes fresh req now (by_window w) g = through_window now w.0 (reserve_window w g)

abbrev pub is_shut : Entrance → Bool
is_shut shut = true
is_shut e = false

abbrev pub has_worked : Hashes → Request → ℕ → Bool
has_worked hashes req now = check_pow hashes req.aid req.pow_seed req.pow_nonce now

unfoldable pub admission_gate : Hashes → ℕ → Request → ℕ → Store → Gate → GateAnswer × Gate
admission_gate hashes fresh req now s g =
    if contains req.aid s.admitted
    then (passes (some (record { via = via_list; window = 0; now = now })) none check_admitted, g)
    else if is_shut (entrance now s)
    then (refused admission_required, g)
    else if req.check_only
    then (passes none none check_open, g)
    else if not (has_worked hashes req now)
    then (refused pow_required, g)
    else reserve hashes fresh req now (entrance now s) g

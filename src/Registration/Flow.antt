-- ===== src/Registration/Flow.antt =====
-- internal/aghub/server.go hRegister from step 4 on: the gate, the write, and what becomes of the
-- hold. What steps 5 to 7 and step 9 answer (the key history, the signature, the witness, the key
-- set) is an argument. The tables are read twice, at the gate (`seen`) and at the write (`s`): others
-- may have changed them between.
pub mod Returns
use anet_hub.Prelude.{ℕ, Bool, true, false, Option, none, some, if◌then◌else◌}
use anet_hub.Prelude.Table.{contains}
use anet_hub.Registry.{via_registered, Store, Kels, Failure, Outcome, fails, done}
use anet_hub.Admission.Gate.{Hashes, Gate, GateHold, release, committed}
use anet_hub.Admission.Door.{
  Request, GateAnswer, refused, passes, GateRefusal, CheckStatus, check_admitted, admission_gate,
}
use anet_hub.Registration.{Entry, register_agent}

pub data RegisterAnswer : Type 0 where
  refused_at_gate : GateRefusal → RegisterAnswer
  refused_later : RegisterAnswer
  enquiry : CheckStatus → RegisterAnswer
  failed : Failure → RegisterAnswer
  wrote_row : Bool → RegisterAnswer

-- The deferred release of a registration that did not write its admission.
abbrev pub give_back : Option GateHold → Gate → Gate
give_back none g = g
give_back (some h) g = release h g

abbrev pub commit_hold : Option GateHold → Gate → Gate
commit_hold none g = g
commit_hold (some h) g = committed h g

abbrev pub after_write :
    Option GateHold → Store → Outcome (Bool × Store) → Gate → (RegisterAnswer × Store) × Gate
after_write hold s (fails e) g = ((failed e, s), give_back hold g)
after_write hold s (done (true, s')) g = ((wrote_row true, s'), commit_hold hold g)
after_write hold s (done (false, s')) g = ((wrote_row false, s'), give_back hold g)

abbrev pub through_gate : Hashes → ℕ → Request → ℕ → Store → Gate → GateAnswer × Gate
through_gate hashes fresh req now s g =
    if contains req.aid s.ledger.agents
    then (
      passes (some (record { via = via_registered; window = 0; now = now })) none check_admitted,
      g,
    )
    else admission_gate hashes fresh req now s g

abbrev pub after_gate :
    Kels
    → ℕ
    → Bool
    → Bool
    → Request
    → Entry
    → ℕ
    → Store
    → GateAnswer × Gate
    → (RegisterAnswer × Store) × Gate
after_gate kels hub checks_fail keys_stale req e now s (refused r, g) = ((refused_at_gate r, s), g)
after_gate kels hub checks_fail keys_stale req e now s (passes adm hold st, g) =
    if checks_fail
    then ((refused_later, s), give_back hold g)
    else if req.check_only
    then ((enquiry st, s), give_back hold g)
    else if keys_stale
    then ((refused_later, s), give_back hold g)
    else after_write hold s (register_agent kels hub e adm now s) g

unfoldable pub register :
    Kels
    → Hashes
    → ℕ
    → ℕ
    → Bool
    → Bool
    → Request
    → Entry
    → ℕ
    → Store
    → Store
    → Gate
    → (RegisterAnswer × Store) × Gate
register kels hashes fresh hub checks_fail keys_stale req e now seen s g =
    after_gate kels hub checks_fail keys_stale req e now s
      (through_gate hashes fresh req now seen g)

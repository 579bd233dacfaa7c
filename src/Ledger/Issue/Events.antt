-- ===== src/Ledger/Issue/Events.antt =====
-- What one supply event does to the totals.
use anet_hub.Prelude.{ℕ, ◌≡◌, arith, ◌+◌}
use anet_hub.Prelude.Int.{ℤ, ◌+ℤ◌, ◌≤ℤ◌, -ℤ_parts, +ℤ_parts, max_ℤ64}
use anet_hub.Ledger.State.{ok, Totals}
use anet_hub.Ledger.Issue.{SupplyKind, supply_issued, supply_redeemed, supply_event}

pub redeemed-supply_event :
    (amt : ℤ) (now : ℕ) (t t' : Totals)
    → supply_event supply_redeemed amt now t ≡ ok t'
    → (t'.redeemed ≡ t.redeemed +ℤ amt) × (t'.issued ≡ t.issued)
unfolding supply_event
redeemed-supply_event amt now t t' e = ground arith

pub issued-supply_event :
    (amt : ℤ) (now : ℕ) (t t' : Totals)
    → supply_event supply_issued amt now t ≡ ok t'
    → (t'.issued ≡ t.issued +ℤ amt) × (t'.redeemed ≡ t.redeemed) × (t'.issued ≤ℤ max_ℤ64)
unfolding supply_event
issued-supply_event amt now t t' e = ground (arith, -ℤ_parts max_ℤ64 amt, +ℤ_parts t.issued amt)

-- Every supply event counts towards the next epoch.
pub events-supply_event :
    (k : SupplyKind) (amt : ℤ) (now : ℕ) (t t' : Totals)
    → supply_event k amt now t ≡ ok t'
    → t'.events_since_publish ≡ t.events_since_publish + 1
unfolding supply_event
events-supply_event k amt now t t' e = ground arith

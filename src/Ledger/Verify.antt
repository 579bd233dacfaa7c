-- ===== src/Ledger/Verify.antt =====
-- internal/aghub/facilitator.go VerifyWithRequirements: whether a payment would settle, with nothing
-- moved but the record of a first verification.
pub mod Frame
pub mod Again
pub mod Passes
pub mod Settles
mod Tests
use anet_hub.Prelude.{ℕ, Bool, true, false, Option, none, some, ◌==◌, not, if◌then◌else◌}
use anet_hub.Prelude.Int.{ℤ, pos, ltb_ℤ}
use anet_hub.Prelude.Table.{Table, lookup, contains, value_of}
use anet_hub.Ledger.State.{
  Reason, malformed, invalid_requirements, invalid_amount, network_mismatch, payee_mismatch,
  payee_not_local, insufficient_funds, duplicate_nonce, duplicate_binding, Authorization, Ledger,
}
use anet_hub.Ledger.Core.{Core}
use anet_hub.Ledger.Rows.{amount_int64}
use anet_hub.Ledger.Issue.{unix_milli}
use anet_hub.Ledger.Settle.{guard_key}
use anet_hub.Ledger.Payment.{
  Payload, Requirements, Check, check_requirements, Vetted, vetted, unvetted, verified_auth,
}
use anet_hub.Ledger.Facilitator.{key_at_first_verify, payee_is_this_hub}

-- payment.VerifyResponse
pub record VerifyResponse : Type 0 where
  pub is_valid : Bool
  pub invalid_reason : Option Reason
  pub payer : ℕ

abbrev pub invalid : Reason → Option Authorization → VerifyResponse
invalid r none = record { is_valid = false; invalid_reason = some r; payer = 0 }
invalid r (some auth) = record { is_valid = false; invalid_reason = some r; payer = auth.payer }

abbrev pub valid : Authorization → VerifyResponse
valid auth = record { is_valid = true; invalid_reason = none; payer = auth.payer }

-- guardHeld
unfoldable pub guard_held : Option ℕ → ℤ → Table ℤ → Bool
guard_held none now_ms t = false
guard_held (some g) now_ms t = elim (lookup g t) [ none ↦ false | some until ↦ ltb_ℤ now_ms until ]

-- The balance.
unfoldable pub verify_funds : Authorization → Ledger → VerifyResponse
verify_funds auth l = elim (amount_int64 auth.amount) [
  | none ↦ invalid invalid_amount (some auth)
  | some amt ↦
      if ltb_ℤ (value_of auth.payer l.balances) (pos amt)
      then invalid insufficient_funds (some auth)
      else valid auth
]

unfoldable pub verify_current : Authorization → Check × Ledger → VerifyResponse × Ledger
verify_current auth (some r, l) = (invalid r (some auth), l)
verify_current auth (none, l) = (verify_funds auth l, l)

-- From the terms on.
unfoldable pub verify_vetted :
    Core → ℕ → Payload → Requirements → Vetted → Ledger → VerifyResponse × Ledger
verify_vetted core now p req (unvetted a r) l = (invalid r a, l)
verify_vetted core now p req (vetted auth id kel) l = elim (check_requirements core p auth req) [
  | some r ↦ (invalid r (some auth), l)
  | none ↦
      if contains id l.settled
      then (invalid duplicate_nonce (some auth), l)
      else elim (guard_key core auth) [
        | none ↦ (invalid malformed (some auth), l)
        | some guard ↦
            if guard_held guard (unix_milli now) l.guards
            then (invalid duplicate_binding (some auth), l)
            else verify_current auth (key_at_first_verify core auth id kel (unix_milli now) l)
      ]
]

unfoldable pub verify_with_requirements :
    Core → ℕ → ℕ → Option Payload → Option Requirements → Ledger → VerifyResponse × Ledger
verify_with_requirements core hub now p none l = (invalid invalid_requirements none, l)
verify_with_requirements core hub now none (some req) l = (invalid malformed none, l)
verify_with_requirements core hub now (some p) (some req) l =
    if payee_is_this_hub hub req.pay_to
    then (invalid payee_mismatch none, l)
    else if not (contains req.pay_to l.agents)
    then (invalid payee_not_local none, l)
    else if not (p.network == core.credit_network hub)
    then (invalid network_mismatch none, l)
    else verify_vetted core now p req (verified_auth core hub p l) l

-- ===== src/Ledger/Redeem.antt =====
-- internal/aghub/redemption.go, Redeem: a payment to the hub itself, noted with its reference.
pub mod Keeps
use anet_hub.Prelude.{ℕ, Option, none, some, ◌==◌, ◌&&◌, not, ltb, if◌then◌else◌, List}
use anet_hub.Prelude.Int.{pos}
use anet_hub.Prelude.Table.{lookup, insert}
use anet_hub.Ledger.State.{
  Reason, malformed, invalid_amount, payee_mismatch, settlement_failed, refusal, own_liability,
  Result, ok, err, Authorization, RedemptionRow, Ledger, Response,
}
use anet_hub.Ledger.Core.{Core, SignedEvent}
use anet_hub.Ledger.Rows.{amount_int64, stored_amount}
use anet_hub.Ledger.Issue.{unix_milli}
use anet_hub.Ledger.Settle.{receipt_again, settle_auth}
use anet_hub.Ledger.Payment.{Payload, Check, Vetted, vetted, unvetted, verified_auth}
use anet_hub.Ledger.Facilitator.{key_at_first_verify}

-- A reference: the text, its length in bytes, and the interaction id "redeem:" ++ text.
pub record Reference : Type 0 where
  pub text : ℕ
  pub bytes : ℕ
  pub interaction_id : ℕ

abbrev pub max_redeem_reference : ℕ
max_redeem_reference = 256

abbrev pub reason_or_failed : Option Reason → Reason
reason_or_failed none = settlement_failed
reason_or_failed (some r) = r

-- Redemption, without the row's running number.
pub record Redemption : Type 0 where
  pub auth_id : ℕ
  pub aid : ℕ
  pub amount : ℕ
  pub reference : ℕ
  pub at : ℕ
  pub receipt : Option ℕ

-- settledBefore, as redemptionOf reads it: an error on a stored amount that could not have been
-- settled, or the receipt where there is a settlement.
unfoldable pub receipt_before : Core → ℕ → ℕ → Ledger → Option (Option ℕ)
receipt_before core hub id l = elim (lookup id l.settled) [
  | none ↦ some none
  | some row ↦ elim (stored_amount row.amount) [
    | none ↦ none
    | some amount ↦ some (receipt_again core hub id row amount)
  ]
]

-- redemptionOf where a row is there.
unfoldable pub redemption_of : Core → ℕ → ℕ → RedemptionRow → Ledger → Result Redemption
redemption_of core hub id row l = elim (stored_amount row.amount) [
  | none ↦ err (refusal settlement_failed)
  | some amount ↦ elim (receipt_before core hub id l) [
    | none ↦ err (refusal settlement_failed)
    | some receipt ↦ ok (record {
      auth_id = id;
      aid = row.aid;
      amount = amount;
      reference = row.reference;
      at = row.at;
      receipt = receipt;
    })
  ]
]

-- The note after a settlement that succeeded. The row of credit_redemption is under the
-- authorization's id; there is none yet.
unfoldable pub note_redemption :
    Authorization → ℕ → ℕ → Reference → ℕ → Response × Ledger → Result Redemption × Ledger
note_redemption auth id amt reference now (out, l) =
    let row : RedemptionRow = record {
      aid = auth.payer;
      amount = pos amt;
      reference = reference.text;
      at = now;
    } in
    if out.success
    then (
      ok (record {
        auth_id = out.transaction;
        aid = auth.payer;
        amount = auth.amount;
        reference = reference.text;
        at = now;
        receipt = out.receipt;
      }),
      record l { redemptions = insert out.transaction row l.redemptions },
    )
    else (err (refusal (reason_or_failed out.reason)), l)

abbrev pub redeem_current :
    Core → ℕ → ℕ → Authorization → ℕ → ℕ → Reference → Check × Ledger → Result Redemption × Ledger
redeem_current core hub now auth id amt reference (some r, l) = (err (refusal r), l)
redeem_current core hub now auth id amt reference (none, l) =
    note_redemption auth id amt reference now
      (settle_auth core hub now (record auth { interaction_id = 0 }) id 0 l)

-- Redeem once the amount is known.
unfoldable pub redeem_amount :
    Core
    → ℕ
    → ℕ
    → Reference
    → Authorization
    → ℕ
    → List SignedEvent
    → ℕ
    → Ledger
    → Result Redemption × Ledger
redeem_amount core hub now reference auth id kel amt l =
    if not (auth.pay_to == hub)
    then (err (refusal payee_mismatch), l)
    else if auth.payer == hub
    then (err own_liability, l)
    else if ltb max_redeem_reference reference.bytes
    then (err (refusal malformed), l)
    else if not (auth.interaction_id == 0) && not (auth.interaction_id == reference.interaction_id)
    then (err (refusal malformed), l)
    else elim (lookup id l.redemptions) [
      | some prior ↦ (redemption_of core hub id prior l, l)
      | none ↦
          redeem_current core hub now auth id amt reference
            (key_at_first_verify core auth id kel (unix_milli now) l)
    ]

unfoldable pub redeem_vetted :
    Core → ℕ → ℕ → Reference → Vetted → Ledger → Result Redemption × Ledger
redeem_vetted core hub now reference (unvetted a r) l = (err (refusal r), l)
redeem_vetted core hub now reference (vetted auth id kel) l = elim (amount_int64 auth.amount) [
  | none ↦ (err (refusal invalid_amount), l)
  | some amt ↦ redeem_amount core hub now reference auth id kel amt l
]

unfoldable pub redeem :
    Core → ℕ → ℕ → Option Payload → Reference → Ledger → Result Redemption × Ledger
redeem core hub now none reference l = (err (refusal malformed), l)
redeem core hub now (some p) reference l =
    redeem_vetted core hub now reference (verified_auth core hub p l) l

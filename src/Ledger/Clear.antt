-- ===== src/Ledger/Clear.antt =====
-- Clearing between hubs (internal/aghub/facilitator.go ClearFromPeer and DischargeDue, and
-- redemption.go SettleOwed): a peer's receipt credits an account here once, within its window.
-- The peer's key history is an argument, as it is of the code.
pub mod Keeps
pub mod Once
use anet_hub.Prelude.{
  ℕ, Bool, Option, none, some, List, [], ◌∷◌, ◌++◌, ◌==◌, ◌&&◌, ◌||◌, not, if◌then◌else◌,
}
use anet_hub.Prelude.Int.{ℤ, pos, neg, ◌+ℤ◌, ◌-ℤ◌, ltb_ℤ, leb_ℤ}
use anet_hub.Prelude.Table.{lookup, contains, insert, value_of}
use anet_hub.Ledger.State.{
  ◌>>=◌, ◌>>◌, invalid_amount, payee_mismatch, refusal, no_receipt, wrong_ledger, bad_signature,
  receipt_too_old, not_positive, over_due, not_own_statement, other_hub, over_owed, Result, ok, err,
  fail_if, text, Receipt, ClearedRow, Ledger,
}
use anet_hub.Ledger.Core.{Core, SignedEvent}
use anet_hub.Ledger.Rows.{amount_int64, add_to_row, issuance_room}
use anet_hub.Ledger.Issue.{unix_milli, supply_issued, supply_event, entry_of}

-- peerReceiptMaxAge in ms; relayauth.MaxSkewMillis is a parameter, `max_skew`.
abbrev pub peer_receipt_max_age : ℤ
peer_receipt_max_age = pos 604800000

unfoldable pub in_clear_window : ℕ → ℕ → ℤ → Bool
in_clear_window max_skew now settle_at = not (
    ltb_ℤ settle_at (unix_milli now -ℤ peer_receipt_max_age)
    || ltb_ℤ (unix_milli now +ℤ pos max_skew) settle_at)

abbrev pub cleared_row : ℕ → ℕ → ℕ → Receipt → ClearedRow
cleared_row peer amt now rec = record {
  peer_aid = peer;
  pay_to = rec.pay_to;
  amount = pos amt;
  at = now;
  settle_at = rec.settle_at;
}

-- The transaction from the row of credit_cleared to the commit.
unfoldable pub clear_tx : ℕ → ℕ → ℕ → Receipt → ℕ → Ledger → Result Ledger
clear_tx hub now peer rec amt l = do
  issuance_room amt l.totals
  paid ← add_to_row rec.pay_to (pos amt) l.balances
  balances' ← add_to_row hub (neg amt) paid
  owed' ← add_to_row peer (pos amt) l.owed
  totals' ← supply_event supply_issued (pos amt) now l.totals
  ok (record l {
    cleared = insert rec.auth_id (cleared_row peer amt now rec) l.cleared;
    balances = balances';
    owed = owed';
    totals = totals';
    entries =
        l.entries
        ++ (entry_of rec.pay_to (pos amt) (text rec.auth_id) now
            ∷ entry_of hub (neg amt) (text rec.auth_id) now
            ∷ []);
  })

-- ClearFromPeer from the point where the amount is known.
unfoldable pub clear_amount :
    Core → ℕ → ℕ → ℕ → ℕ → List SignedEvent → Receipt → ℕ → Ledger → Result Ledger
clear_amount core max_skew hub now peer kel rec amt l = do
  fail_if (not (rec.network == core.credit_network peer)) wrong_ledger
  fail_if (not (hub == 0) && rec.pay_to == hub) (refusal payee_mismatch)
  fail_if (not (core.verify_receipt rec kel peer rec.settle_at)) bad_signature
  (if contains rec.auth_id l.cleared
      then ok l
      else if in_clear_window max_skew now rec.settle_at
      then clear_tx hub now peer rec amt l
      else err receipt_too_old)

unfoldable pub clear_from_peer :
    Core → ℕ → ℕ → ℕ → ℕ → List SignedEvent → Option Receipt → Ledger → Result Ledger
clear_from_peer core max_skew hub now peer kel none l = err no_receipt
clear_from_peer core max_skew hub now peer kel (some rec) l = elim (amount_int64 rec.amount) [
  | none ↦ err (refusal invalid_amount)
  | some amt ↦ clear_amount core max_skew hub now peer kel rec amt l
]

-- UPDATE hub_due SET amount = amount - ? WHERE amount >= ?
unfoldable pub discharge_due : ℕ → ℤ → Ledger → Result Ledger
discharge_due peer amount l = do
  fail_if (leb_ℤ amount (pos 0)) not_positive
  elim (lookup peer l.due) [
    | none ↦ err over_due
    | some due ↦
        if leb_ℤ amount due
        then ok (record l { due = insert peer (due -ℤ amount) l.due })
        else err over_due
  ]

-- SettleOwed from the point where the statement is checked.
unfoldable pub reduce_owed : ℕ → ℕ → ℕ → Ledger → Result Ledger
reduce_owed id peer amt l =
    if contains id l.hub_cleared
    then ok l
    else if ltb_ℤ (value_of peer l.owed) (pos amt)
    then err over_owed
    else ok (record l {
      hub_cleared = insert id (peer, pos amt) l.hub_cleared;
      owed = insert peer (value_of peer l.owed -ℤ pos amt) l.owed;
    })

unfoldable pub settle_owed :
    Core → ℕ → ℕ → List SignedEvent → Option Receipt → Ledger → Result Ledger
settle_owed core hub peer kel none l = err no_receipt
settle_owed core hub peer kel (some rec) l = elim (amount_int64 rec.amount) [
  | none ↦ err (refusal invalid_amount)
  | some amt ↦ do
    fail_if (not (rec.payer == peer)) not_own_statement
    fail_if (not (rec.pay_to == hub)) other_hub
    fail_if (not (core.verify_receipt rec kel peer rec.settle_at)) bad_signature
    reduce_owed rec.auth_id peer amt l
]

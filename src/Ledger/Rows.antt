-- ===== src/Ledger/Rows.antt =====
-- internal/aghub/amount.go: amounts in range, and a bounded change of one row.
pub mod Bounds
use anet_hub.Prelude.{ℕ, Bool, true, Option, none, some, ◌==◌, ◌||◌, ltb, if◌then◌else◌}
use anet_hub.Prelude.Int.{
  ℤ, pos, pos_part, ◌+ℤ◌, ◌-ℤ◌, ltb_ℤ, leb_ℤ, eqb_ℤ, max_int64, min_ℤ64, max_ℤ64,
}
use anet_hub.Prelude.Table.{Table, lookup, insert, value_of}
use anet_hub.Ledger.State.{refusal, invalid_amount, Result, ok, err, Totals}

-- A wire amount, a uint64, as a ledger amount.
unfoldable pub amount_int64 : ℕ → Option ℕ
amount_int64 n = if n == 0 || ltb max_int64 n then none else some n

-- A ledger amount read back, as the uint64 that a response states.
unfoldable pub stored_amount : ℤ → Option ℕ
stored_amount n = if leb_ℤ n (pos 0) then none else some (pos_part n)

-- The statement's WHERE clause: the row that is there can take the change.
unfoldable pub row_takes : ℕ → ℤ → Table ℤ → Bool
row_takes key delta t = elim (lookup key t) [
  | none ↦ true
  | some v ↦ if ltb_ℤ delta (pos 0) then leb_ℤ (min_ℤ64 -ℤ delta) v else leb_ℤ v (max_ℤ64 -ℤ delta)
]

unfoldable pub add_to_row : ℕ → ℤ → Table ℤ → Result (Table ℤ)
add_to_row key delta t =
    if eqb_ℤ delta min_ℤ64
    then err (refusal invalid_amount)
    else if row_takes key delta t
    then ok (insert key (value_of key t +ℤ delta) t)
    else err (refusal invalid_amount)

unfoldable pub issuance_room : ℕ → Totals → Result (Unit {0})
issuance_room amt totals =
    if ltb_ℤ (max_ℤ64 -ℤ pos amt) totals.issued then err (refusal invalid_amount) else ok tt

-- ===== src/Ledger/Issue.antt =====
-- internal/aghub/facilitator.go and supply.go: how credit is created, and the supply events.
-- `hub` is the store's hubAID, 0 for a store with no hub identity.
pub mod Events
pub mod Keeps
pub mod Pays
use anet_hub.Prelude.{
  ℕ, ◌+◌, ◌/◌, Option, none, some, [], ◌∷◌, ◌++◌, ◌==◌, ◌&&◌, not, if◌then◌else◌,
}
use anet_hub.Prelude.Int.{ℤ, pos, pos_part, ◌+ℤ◌, ◌-ℤ◌, ltb_ℤ, leb_ℤ, eqb_ℤ, max_ℤ64}
use anet_hub.Prelude.Table.{value_of}
use anet_hub.Ledger.State.{
  ◌>>=◌, ◌>>◌, refusal, invalid_amount, not_positive, over_range, Result, ok, fail_if, EntryReason,
  text, operator_grant, issued_for, Entry, Totals, Ledger,
}
use anet_hub.Ledger.Rows.{add_to_row, issuance_room}

-- time.Time.UnixMilli, for a clock past 1970.
abbrev pub unix_milli : ℕ → ℤ
unix_milli now = pos (now / 1000000)

abbrev pub utc_day : ℕ → ℤ
utc_day now = pos (now / 1000000 / 86400000)

pub data SupplyKind : Type 0 where
  supply_issued supply_redeemed : SupplyKind

abbrev pub start_clock : Option ℤ → ℕ → Option ℤ
start_clock none now = some (utc_day now -ℤ pos 1)
start_clock (some d) now = some d

-- The column that the event moves, and the totals with it moved.
abbrev pub total_of : SupplyKind → Totals → ℤ
total_of supply_issued t = t.issued
total_of supply_redeemed t = t.redeemed

abbrev pub move_total : SupplyKind → ℤ → Totals → Totals
move_total supply_issued v t = record t { issued = v }
move_total supply_redeemed v t = record t { redeemed = v }

unfoldable pub supply_event : SupplyKind → ℤ → ℕ → Totals → Result Totals
supply_event kind amt now t = do
  fail_if (leb_ℤ amt (pos 0)) not_positive
  fail_if (ltb_ℤ (max_ℤ64 -ℤ amt) (total_of kind t)) (refusal invalid_amount)
  ok (record (move_total kind (total_of kind t +ℤ amt) t) {
    events_since_publish = t.events_since_publish + 1;
    last_to_day = start_clock t.last_to_day now;
  })

abbrev pub entry_of : ℕ → ℤ → EntryReason → ℕ → Entry
entry_of a d r t = record { aid = a; delta = d; reason = r; at = t }

-- The issuer's side of a credit: the hub's own row, its entry and the supply event.
unfoldable pub issuer_side : ℕ → ℤ → EntryReason → ℕ → Ledger → Result Ledger
issuer_side hub amount why now l = do
  fail_if (ltb_ℤ amount (pos 0)) not_positive
  balances' ← add_to_row hub (pos 0 -ℤ amount) l.balances
  totals' ← supply_event supply_issued amount now l.totals
  ok (record l {
    balances = balances';
    entries = l.entries ++ (entry_of hub (pos 0 -ℤ amount) (issued_for why) now ∷ []);
    totals = totals';
  })

unfoldable pub credit_tx : ℕ → ℕ → ℤ → EntryReason → ℕ → Ledger → Result Ledger
credit_tx hub aid amount why now l = if eqb_ℤ amount (pos 0) then ok l else do
  l' ← if not (hub == 0) && not (aid == hub) then issuer_side hub amount why now l else ok l
  balances' ← add_to_row aid amount l'.balances
  ok (record l' {
    balances = balances';
    entries = l'.entries ++ (entry_of aid amount why now ∷ []);
  })

unfoldable pub issue_tx : ℕ → ℕ → ℤ → EntryReason → ℕ → Ledger → Result Ledger
issue_tx hub aid amount why now l = do
  fail_if (leb_ℤ amount (pos 0)) not_positive
  (if not (hub == 0) && not (aid == hub) then issuance_room (pos_part amount) l.totals else ok tt)
  credit_tx hub aid amount why now l

abbrev pub grant_reason : EntryReason → EntryReason
grant_reason (text t) = if t == 0 then operator_grant else text t
grant_reason r = r

unfoldable pub grant_credit : ℕ → ℕ → ℤ → EntryReason → ℕ → Ledger → Result Ledger
grant_credit hub aid amount why now l = do
  fail_if (leb_ℤ amount (pos 0)) not_positive
  fail_if (ltb_ℤ (max_ℤ64 -ℤ amount) (value_of aid l.balances)) over_range
  issue_tx hub aid amount (grant_reason why) now l

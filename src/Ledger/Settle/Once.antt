-- ===== src/Ledger/Settle/Once.antt =====
-- Repeats of a settlement, and second payments for a task (internal/aghub/facilitator.go settleAuth).
use anet_hub.Prelude.{ℕ, ◌+◌, ◌<◌, ◌/◌, ◌≡◌, inl, inr, true, false, Option, some, arith}
use anet_hub.Prelude.Int.{ℤ, pos, ◌+ℤ◌, leb_ℤ, +ℤ_parts}
use anet_hub.Prelude.Table.{lookup, lookup-insert}
use anet_hub.Ledger.State.{Ledger, Authorization, Response, SettledRow}
use anet_hub.Ledger.Core.{Core}
use anet_hub.Ledger.Rows.{stored_amount}
use anet_hub.Ledger.Issue.{unix_milli}
use anet_hub.Ledger.Settle.Outcomes.{
  Commits, Leaves, settle_auth-cases, settle_tx-committed, move_credit_frame,
}
use anet_hub.Ledger.Settle.{
  guard_kept, sign_receipt, guard_key, take_guard, settled_row, receipt_again, prior_success,
  repeat_of, settled_now, receipt_of, settle_auth,
}

-- The row that a commit leaves under the authorization's id.
pub Commits-row :
    (core : Core) (hub now : ℕ) (auth : Authorization) (id via : ℕ) (l : Ledger)
    (c : Commits core hub now auth id via l)
    → lookup id c.result.settled ≡ some (settled_row now auth via c.amt c.receipt c.guard)
Commits-row core hub now auth id via l c =
    let (g, _, _, moved) =
      settle_tx-committed hub now auth id via c.amt c.receipt c.guard l c.result c.tables in
    let (kept, _, _) = move_credit_frame hub now auth id via c.amt _ c.result moved in
    rw kept (
      ground
        (arith, lookup-insert id id (settled_row now auth via c.amt c.receipt c.guard) l.settled))

-- The binding that a commit leaves is live for 30 days.
pub Commits-guard :
    (core : Core) (hub now : ℕ) (auth : Authorization) (id via : ℕ) (l : Ledger)
    (c : Commits core hub now auth id via l) {g : ℕ}
    → c.guard ≡ some g
    → lookup g c.result.guards ≡ some (unix_milli now +ℤ guard_kept)
unfolding take_guard
Commits-guard core hub now auth id via l c {g} e =
    let (t, _, taken, moved) =
      settle_tx-committed hub now auth id via c.amt c.receipt c.guard l c.result c.tables in
    let (_, kept, _) = move_credit_frame hub now auth id via c.amt _ c.result moved in
    rw kept (ground (arith, lookup-insert g g (unix_milli now +ℤ guard_kept) l.guards))

-- An authorization that is already settled moves nothing, at any later time and for any caller.
pub settled_stays :
    (core : Core) (hub now : ℕ) (auth : Authorization) (id via : ℕ) (l : Ledger) {row : SettledRow}
    → lookup id l.settled ≡ some row
    → (settle_auth core hub now auth id via l).1 ≡ l
settled_stays core hub now auth id via l e = elim (settle_auth-cases core hub now auth id via l) [
  | inl c ↦
      let (_, fresh, _, _) =
        settle_tx-committed hub now auth id via c.amt c.receipt c.guard l c.result c.tables in
      absurd (ground arith)
  | inr k ↦ k.same
]

-- What a committed settlement's repeat is answered with.
abbrev pub repeated : Response → Response
repeated out = record out { replayed = true }

-- Without a key there is no receipt, now or later.
unsigned :
    (core : Core) (hub id : ℕ) (row : SettledRow) (amount now : ℕ) (auth : Authorization)
    → sign_receipt core (receipt_of auth id now) ≡ some row.receipt
    → receipt_again core hub id row amount ≡ row.receipt
unfolding sign_receipt
unsigned core hub id row amount now auth e = ground arith

-- The answer to a repeat, from the row that the settlement left.
pub repeat_of_row :
    (core : Core) (hub now id : ℕ) (auth : Authorization) (via amt : ℕ) (rec guard : Option ℕ)
    (l : Ledger)
    → lookup id l.settled ≡ some (settled_row now auth via amt rec guard)
    → stored_amount (pos amt) ≡ some auth.amount
    → sign_receipt core (receipt_of auth id now) ≡ some rec
    → auth.network ≡ core.credit_network hub
    → repeat_of core hub id auth via l ≡ some (repeated (settled_now auth id rec))
unfolding repeat_of prior_success settled_now
repeat_of_row core hub now id auth via amt rec guard l r a s n =
    ground
      (arith, unsigned core hub id (settled_row now auth via amt rec guard) auth.amount now auth s)

-- An authorization that settled as new moves nothing when presented next, whenever, on whatever terms and for whichever hub it
-- is presented.
pub settle_auth_once :
    (core : Core) (hub now later : ℕ) (auth other : Authorization) (id via via' : ℕ) (l : Ledger)
    → (settle_auth core hub now auth id via l).0.success ≡ true
    → (settle_auth core hub now auth id via l).0.replayed ≡ false
    → (settle_auth core hub later other id via' (settle_auth core hub now auth id via l).1).1
      ≡ (settle_auth core hub now auth id via l).1
settle_auth_once core hub now later auth other id via via' l done fresh =
    elim (settle_auth-cases core hub now auth id via l) [
      | inl c ↦ rw c.answers (
          settled_stays core hub later other id via' c.result
            (Commits-row core hub now auth id via l c))
      | inr k ↦ absurd (ground (arith, k.told))
    ]

-- A live binding refuses every other authorization of the payer for the task.
bound_refuses :
    (core : Core) (hub now : ℕ) (auth : Authorization) (id via g : ℕ) (until : ℤ) (l : Ledger)
    → guard_key core auth ≡ some (some g)
    → lookup g l.guards ≡ some until
    → leb_ℤ until (unix_milli now) ≡ false
    → Leaves core hub now auth id via l
unfolding take_guard
bound_refuses core hub now auth id via g until l key held live =
    elim (settle_auth-cases core hub now auth id via l) [
      | inl c ↦
          let (t, _, taken, _) =
            settle_tx-committed hub now auth id via c.amt c.receipt c.guard l c.result c.tables in
          absurd (ground (arith, c.binding))
      | inr k ↦ k
    ]

-- One payment for a task: within 30 days after an authorization that names a task has settled as new,
-- an authorization with the same binding key, presented next, does not succeed as new and moves
-- nothing.
pub settle_auth_binds :
    (core : Core) (hub now later : ℕ) (auth second : Authorization) (id id' via via' : ℕ)
    (l : Ledger) {g : ℕ}
    → guard_key core auth ≡ some (some g)
    → guard_key core second ≡ some (some g)
    → (settle_auth core hub now auth id via l).0.success ≡ true
    → (settle_auth core hub now auth id via l).0.replayed ≡ false
    → later / 1000000 < now / 1000000 + 2592000000
    → Leaves core hub later second id' via' (settle_auth core hub now auth id via l).1
settle_auth_binds core hub now later auth second id id' via via' l {g} k k' done fresh soon =
    elim (settle_auth-cases core hub now auth id via l) [
      | inl c ↦
          let same : c.guard ≡ some g = ground (arith, c.binding) in
          rw c.answers (
            bound_refuses core hub later second id' via' g (unix_milli now +ℤ guard_kept) c.result
              k' (Commits-guard core hub now auth id via l c same)
              (ground (arith, +ℤ_parts (unix_milli now) guard_kept)))
      | inr u ↦ absurd (ground (arith, u.told))
    ]

-- A settled row stays as it is whatever else is settled.
pub settled_kept :
    (core : Core) (hub now : ℕ) (auth : Authorization) (id via k : ℕ) (l : Ledger)
    {row : SettledRow}
    → lookup k l.settled ≡ some row
    → lookup k (settle_auth core hub now auth id via l).1.settled ≡ some row
settled_kept core hub now auth id via k l e = elim (settle_auth-cases core hub now auth id via l) [
  | inl c ↦
      let (g, fresh, _, moved) =
        settle_tx-committed hub now auth id via c.amt c.receipt c.guard l c.result c.tables in
      let (kept, _, _) = move_credit_frame hub now auth id via c.amt _ c.result moved in
      rw (c.answers, kept)
        (ground
          (arith, lookup-insert k id (settled_row now auth via c.amt c.receipt c.guard) l.settled))
  | inr u ↦ rw u.same e
]

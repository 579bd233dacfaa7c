-- ===== src/Ledger/Settle.antt =====
-- internal/aghub/facilitator.go, settleAuth and what it calls: one authorization moves its credit
-- once, in one transaction, or nothing moves.
pub mod Keeps
pub mod Outcomes
pub mod Once
pub mod Pays
use anet_hub.Prelude.{
  ℕ, Bool, true, false, Option, none, some, [], ◌∷◌, ◌++◌, ◌==◌, ◌&&◌, ◌||◌, not, if◌then◌else◌,
}
use anet_hub.Prelude.Int.{ℤ, pos, neg, ◌+ℤ◌, ltb_ℤ, leb_ℤ}
use anet_hub.Prelude.Table.{Table, lookup, contains, insert, value_of}
use anet_hub.Ledger.State.{
  ◌>>=◌, ◌>>◌, Reason, malformed, invalid_amount, payee_mismatch, payee_not_local,
  insufficient_funds, duplicate_nonce, duplicate_binding, settlement_failed, Fault, refusal, Result,
  ok, err, fail_if, text, Authorization, Receipt, SettledRow, Ledger, Response,
}
use anet_hub.Ledger.Core.{Core}
use anet_hub.Ledger.Rows.{amount_int64, stored_amount, add_to_row}
use anet_hub.Ledger.Issue.{unix_milli, supply_redeemed, supply_event, entry_of}

-- guardKept in ms.
abbrev pub guard_kept : ℤ
guard_kept = pos 2592000000

abbrev pub or_zero : Option ℕ → ℕ
or_zero none = 0
or_zero (some n) = n

-- refusedSettlement, for an authorization that was not read and for one that was.
abbrev pub refused_unread : Reason → ℕ → Response
refused_unread r network = record {
  success = false;
  reason = some r;
  payer = 0;
  transaction = 0;
  network = network;
  amount = 0;
  replayed = false;
  receipt = none;
  original = none;
}

unfoldable pub refused_settlement : Core → Reason → Option Authorization → ℕ → Response
refused_settlement core r none network = refused_unread r network
refused_settlement core r (some auth) network = record (refused_unread r network) {
  payer = auth.payer;
  amount = auth.amount;
  transaction = or_zero (core.auth_id auth);
}

-- What a registered account, or the hub itself, is.
unfoldable pub banks_here : ℕ → ℕ → Ledger → Bool
banks_here hub aid l = aid == hub || contains aid l.agents

-- The signed receipt of a settlement: none without a key, and no answer where signing fails.
unfoldable pub sign_receipt : Core → Receipt → Option (Option ℕ)
sign_receipt core r = elim core.sign_receipt [
  | none ↦ some none
  | some sign ↦ elim (sign r) [ none ↦ none | some raw ↦ some (some raw) ]
]

-- settleGuardKey where there is an interaction id; no answer where the hash input is refused.
unfoldable pub guard_key : Core → Authorization → Option (Option ℕ)
guard_key core auth =
    if auth.interaction_id == 0
    then some none
    else elim (core.settle_guard auth.payer auth.interaction_id) [
      | none ↦ none
      | some g ↦ some (some g)
    ]

-- The upsert into settle_guard: a live binding is not taken over.
unfoldable pub take_guard : Option ℕ → ℤ → Table ℤ → Option (Table ℤ)
take_guard none now_ms t = some t
take_guard (some g) now_ms t = elim (lookup g t) [
  | none ↦ some (insert g (now_ms +ℤ guard_kept) t)
  | some until ↦ if leb_ℤ until now_ms then some (insert g (now_ms +ℤ guard_kept) t) else none
]

-- The balances: the payer falls, and the payee rises where it banks here.
unfoldable pub move_balances : Authorization → ℕ → Bool → Table ℤ → Result (Table ℤ)
move_balances auth amt local t = do
  t' ← add_to_row auth.payer (neg amt) t
  (if local then add_to_row auth.pay_to (pos amt) t' else ok t')

-- A forwarded settlement: this hub owes the peer, and the credit comes home to the hub's row.
unfoldable pub owe_peer : ℕ → ℕ → ℕ → Ledger → Result Ledger
owe_peer hub via amt l = do
  due' ← add_to_row via (pos amt) l.due
  balances' ← add_to_row hub (pos amt) l.balances
  ok (record l { due = due'; balances = balances' })

-- The transaction from the balance check to the commit.
unfoldable pub move_credit : ℕ → ℕ → Authorization → ℕ → ℕ → ℕ → Ledger → Result Ledger
move_credit hub now auth id via amt l = do
  fail_if (ltb_ℤ (value_of auth.payer l.balances) (pos amt)) (refusal insufficient_funds)
  let local = banks_here hub auth.pay_to l
  fail_if (via == 0 && not local) (refusal payee_not_local)
  fail_if (not (via == 0) && local) (refusal payee_mismatch)
  balances' ← move_balances auth amt local l.balances
  totals' ←
      (if auth.pay_to == hub || not (via == 0)
        then supply_event supply_redeemed (pos amt) now l.totals
        else ok l.totals)
  l' ←
      (let moved = record l { balances = balances'; totals = totals' } in
        if via == 0 then ok moved else owe_peer hub via amt moved)
  let credited = (if via == 0 then auth.pay_to else hub)
  ok (record l' {
    entries =
        l'.entries
        ++ (entry_of auth.payer (neg amt) (text id) now
            ∷ entry_of credited (pos amt) (text id) now
            ∷ []);
  })

-- How the transaction ends: on the primary key of credit_settled, on a live binding, by a fault, or
-- with the tables it commits.
pub data Outcome : Type 0 where
  conflict bound : Outcome
  failed : Fault → Outcome
  committed : Ledger → Outcome

abbrev pub outcome_of : Result Ledger → Outcome
outcome_of (ok l) = committed l
outcome_of (err e) = failed e

abbrev pub settled_row : ℕ → Authorization → ℕ → ℕ → Option ℕ → Option ℕ → SettledRow
settled_row now auth via amt rec guard = record {
  payer = auth.payer;
  pay_to = auth.pay_to;
  amount = pos amt;
  at = now;
  receipt = rec;
  not_after = auth.not_after;
  guard_h = guard;
  via = via;
}

unfoldable pub settle_tx :
    ℕ → ℕ → Authorization → ℕ → ℕ → ℕ → Option ℕ → Option ℕ → Ledger → Outcome
settle_tx hub now auth id via amt rec guard l =
    if contains id l.settled then conflict else elim (take_guard guard (unix_milli now) l.guards) [
      | none ↦ bound
      | some guards' ↦ outcome_of (
          move_credit hub now auth id via amt (record l {
            settled = insert id (settled_row now auth via amt rec guard) l.settled;
            guards = guards';
          }))
    ]

-- guardHolder: the first kept settlement that holds the binding.
abbrev pub same_guard : ℕ → Option ℕ → Bool
same_guard g none = false
same_guard g (some h) = g == h

unfoldable pub guard_holder : ℕ → Table SettledRow → Option ℕ
guard_holder g [] = none
guard_holder g (e ∷ d) = if same_guard g e.1.guard_h then some e.0 else guard_holder g d

unfoldable pub binding_refusal : Core → Authorization → Option ℕ → Ledger → Response
binding_refusal core auth none l =
    refused_settlement core duplicate_binding (some auth) auth.network
binding_refusal core auth (some g) l =
    record (refused_settlement core duplicate_binding (some auth) auth.network) {
      original = guard_holder g l.settled;
    }

-- settledBefore's answer from the row.
abbrev pub receipt_again : Core → ℕ → ℕ → SettledRow → ℕ → Option ℕ
receipt_again core hub id row amount = elim row.receipt [
  | some raw ↦ some raw
  | none ↦
      elim (sign_receipt core (record {
        auth_id = id;
        payer = row.payer;
        pay_to = row.pay_to;
        amount = amount;
        network = core.credit_network hub;
        settle_at = unix_milli row.at;
      })) [ none ↦ none | some raw ↦ raw ]
]

unfoldable pub prior_success : Core → ℕ → ℕ → SettledRow → ℕ → Response
prior_success core hub id row amount = record {
  success = true;
  reason = none;
  payer = row.payer;
  transaction = id;
  network = core.credit_network hub;
  amount = amount;
  replayed = true;
  receipt = receipt_again core hub id row amount;
  original = none;
}

-- repeatOf, with settledBefore: no answer where the authorization has not been settled here.
unfoldable pub repeat_of : Core → ℕ → ℕ → Authorization → ℕ → Ledger → Option Response
repeat_of core hub id auth via l = elim (lookup id l.settled) [
  | none ↦ none
  | some row ↦ elim (stored_amount row.amount) [
    | none ↦ some (refused_settlement core settlement_failed (some auth) (core.credit_network hub))
    | some amount ↦ some (
        if row.via == via
        then prior_success core hub id row amount
        else refused_settlement core duplicate_nonce (some auth) (core.credit_network hub))
  ]
]

abbrev pub reason_of : Fault → Reason
reason_of (refusal r) = r
reason_of _ = settlement_failed

unfoldable pub settled_now : Authorization → ℕ → Option ℕ → Response
settled_now auth id rec = record {
  success = true;
  reason = none;
  payer = auth.payer;
  transaction = id;
  network = auth.network;
  amount = auth.amount;
  replayed = false;
  receipt = rec;
  original = none;
}

abbrev pub answer :
    Core → ℕ → Authorization → ℕ → ℕ → Option ℕ → Option ℕ → Ledger → Outcome → Response × Ledger
answer core hub auth id via rec guard l conflict = (
  elim (repeat_of core hub id auth via l) [
    | some out ↦ out
    | none ↦ refused_settlement core settlement_failed (some auth) auth.network
  ],
  l,
)
answer core hub auth id via rec guard l bound = (binding_refusal core auth guard l, l)
answer core hub auth id via rec guard l (failed e) =
    (refused_settlement core (reason_of e) (some auth) auth.network, l)
answer core hub auth id via rec guard l (committed l') = (settled_now auth id rec, l')

abbrev pub receipt_of : Authorization → ℕ → ℕ → Receipt
receipt_of auth id now = record {
  auth_id = id;
  payer = auth.payer;
  pay_to = auth.pay_to;
  amount = auth.amount;
  network = auth.network;
  settle_at = unix_milli now;
}

unfoldable pub settle_auth : Core → ℕ → ℕ → Authorization → ℕ → ℕ → Ledger → Response × Ledger
settle_auth core hub now auth id via l =
    let fail : Reason → Response × Ledger =
      λ r. (refused_settlement core r (some auth) auth.network, l) in
    elim (amount_int64 auth.amount) [
      | none ↦ fail invalid_amount
      | some amt ↦ elim (guard_key core auth) [
        | none ↦ fail malformed
        | some guard ↦ elim (sign_receipt core (receipt_of auth id now)) [
          | none ↦ fail settlement_failed
          | some rec ↦
              answer core hub auth id via rec guard l
                (settle_tx hub now auth id via amt rec guard l)
        ]
      ]
    ]

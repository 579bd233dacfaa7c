-- ===== src/Ledger/Settle/Outcomes.antt =====
-- How a settlement ends (internal/aghub/facilitator.go settleAuth).
use anet_hub.Prelude.{
  ℕ, ◌≡◌, refl, ◌⊎◌, inl, inr, true, false, Option, none, some, arith, Option-cases,
}
use anet_hub.Prelude.Int.{ℤ}
use anet_hub.Prelude.Table.{Table, contains, insert}
use anet_hub.Ledger.State.{
  ok, Reason, malformed, invalid_amount, settlement_failed, Ledger, Authorization, Response,
}
use anet_hub.Ledger.Core.{Core}
use anet_hub.Ledger.Rows.{amount_int64}
use anet_hub.Ledger.Rows.Bounds.{amount_int64-some}
use anet_hub.Ledger.Issue.{unix_milli}
use anet_hub.Ledger.Sound.{IsSound}
use anet_hub.Ledger.Settle.Keeps.{move_credit-IsSound}
use anet_hub.Ledger.Settle.{
  refused_settlement, sign_receipt, guard_key, take_guard, move_credit, owe_peer, Outcome, conflict,
  bound, failed, committed, settled_row, settle_tx, binding_refusal, prior_success, repeat_of,
  reason_of, settled_now, answer, receipt_of, settle_auth,
}

-- A settlement that commits: the parts that it was made of.
pub record Commits (core : Core) (hub now : ℕ) (auth : Authorization) (id via : ℕ) (l : Ledger)
    : Type 0 where
  pub amt : ℕ
  pub guard : Option ℕ
  pub receipt : Option ℕ
  pub result : Ledger
  pub amount : amount_int64 auth.amount ≡ some amt
  pub binding : guard_key core auth ≡ some guard
  pub signed : sign_receipt core (receipt_of auth id now) ≡ some receipt
  pub tables : settle_tx hub now auth id via amt receipt guard l ≡ committed result
  pub answers : settle_auth core hub now auth id via l ≡ (settled_now auth id receipt, result)

-- Any other settlement: nothing moved, and a success is a repeat of an earlier one.
pub record Leaves (core : Core) (hub now : ℕ) (auth : Authorization) (id via : ℕ) (l : Ledger)
    : Type 0 where
  pub same : (settle_auth core hub now auth id via l).1 ≡ l
  pub told :
      ((settle_auth core hub now auth id via l).0.success ≡ false)
      ⊎ ((settle_auth core hub now auth id via l).0.replayed ≡ true)

refused-success :
    (core : Core) (r : Reason) (auth : Authorization) (n : ℕ)
    → (refused_settlement core r (some auth) n).success ≡ false
unfolding refused_settlement
refused-success core r auth n = refl

binding_refusal-success :
    (core : Core) (auth : Authorization) (g : Option ℕ) (l : Ledger)
    → (binding_refusal core auth g l).success ≡ false
unfolding binding_refusal refused_settlement
binding_refusal-success core auth none l = refl
binding_refusal-success core auth (some g) l = refl

-- A repeat is refused, or is flagged as a repeat.
repeat_of-told :
    (core : Core) (hub id : ℕ) (auth : Authorization) (via : ℕ) (l : Ledger) {out : Response}
    → repeat_of core hub id auth via l ≡ some out
    → (out.success ≡ false) ⊎ (out.replayed ≡ true)
unfolding repeat_of prior_success refused_settlement
repeat_of-told core hub id auth via l e = ground arith

answer_told :
    (core : Core) (hub : ℕ) (auth : Authorization) (id via : ℕ) (rec guard : Option ℕ) (l : Ledger)
    (o : Outcome)
    → ((r : Ledger) × (o ≡ committed r))
      ⊎ (((answer core hub auth id via rec guard l o).1 ≡ l)
          × (((answer core hub auth id via rec guard l o).0.success ≡ false)
              ⊎ ((answer core hub auth id via rec guard l o).0.replayed ≡ true)))
answer_told core hub auth id via rec guard l conflict =
    elim (Option-cases (repeat_of core hub id auth via l)) [
      | inl q ↦
          inr
            (refl, inl (rw (q, answer) (refused-success core settlement_failed auth auth.network)))
      | inr (out, q) ↦ inr (refl, rw (q, answer) (repeat_of-told core hub id auth via l q))
    ]
answer_told core hub auth id via rec guard l bound =
    inr (refl, inl (binding_refusal-success core auth guard l))
answer_told core hub auth id via rec guard l (failed e) =
    inr (refl, inl (refused-success core (reason_of e) auth auth.network))
answer_told core hub auth id via rec guard l (committed r) = inl (r, refl)

pub settle_auth-cases :
    (core : Core) (hub now : ℕ) (auth : Authorization) (id via : ℕ) (l : Ledger)
    → Commits core hub now auth id via l ⊎ Leaves core hub now auth id via l
unfolding settle_auth
settle_auth-cases core hub now auth id via l = elim (Option-cases (amount_int64 auth.amount)) [
  | inl a ↦ inr (record {
    same = rw (a, settle_auth);
    told = inl (rw (a, settle_auth) (refused-success core invalid_amount auth auth.network));
  })
  | inr (amt, a) ↦ elim (Option-cases (guard_key core auth)) [
    | inl g ↦ inr (record {
      same = rw (a, g, settle_auth);
      told = inl (rw (a, g, settle_auth) (refused-success core malformed auth auth.network));
    })
    | inr (guard, g) ↦ elim (Option-cases (sign_receipt core (receipt_of auth id now))) [
      | inl s ↦ inr (record {
        same = rw (a, g, s, settle_auth);
        told =
            inl (
              rw (a, g, s, settle_auth) (refused-success core settlement_failed auth auth.network));
      })
      | inr (rec, s) ↦
          elim (answer_told core hub auth id via rec guard l
            (settle_tx hub now auth id via amt rec guard l)) [
              | inl (r, t) ↦ inl (record {
                amt = amt;
                guard = guard;
                receipt = rec;
                result = r;
                amount = a;
                binding = g;
                signed = s;
                tables = t;
                answers = rw (a, g, s, t, settle_auth);
              })
              | inr (same, told) ↦ inr (record {
                same = rw (a, g, s, settle_auth) same;
                told = rw (a, g, s, settle_auth) told;
              })
            ]
    ]
  ]
]

-- The transaction's moves of credit touch neither the settled rows, the bindings nor the accounts.
pub move_credit_frame :
    (hub now : ℕ) (auth : Authorization) (id via amt : ℕ) (l l' : Ledger)
    → move_credit hub now auth id via amt l ≡ ok l'
    → (l'.settled ≡ l.settled) × (l'.guards ≡ l.guards) × (l'.agents ≡ l.agents)
unfolding move_credit owe_peer
move_credit_frame hub now auth id via amt l l' e = ground arith

pub settle_tx-committed :
    (hub now : ℕ) (auth : Authorization) (id via amt : ℕ) (rec guard : Option ℕ) (l r : Ledger)
    → settle_tx hub now auth id via amt rec guard l ≡ committed r
    → (g : Table ℤ) × (contains id l.settled ≡ false)
      × (take_guard guard (unix_milli now) l.guards ≡ some g)
      × (move_credit hub now auth id via amt (record l {
        settled = insert id (settled_row now auth via amt rec guard) l.settled;
        guards = g;
      })
          ≡ ok r)
unfolding settle_tx
settle_tx-committed hub now auth id via amt rec guard l r e = ground arith

-- Settling keeps the ledger sound, whatever the authorization, on every branch.
pub settle_auth-IsSound :
    (core : Core) (hub now : ℕ) (auth : Authorization) (id via : ℕ) (l : Ledger)
    → IsSound hub l
    → IsSound hub (settle_auth core hub now auth id via l).1
settle_auth-IsSound core hub now auth id via l s =
    elim (settle_auth-cases core hub now auth id via l) [
      | inl c ↦
          let (g, _, _, moved) =
            settle_tx-committed hub now auth id via c.amt c.receipt c.guard l c.result c.tables in
          let (_, pos_amt, _) = amount_int64-some auth.amount c.amount in
          rw c.answers (
            move_credit-IsSound hub now auth id via c.amt _ c.result
              (record { backed = s.backed; covered = s.covered }) pos_amt moved)
      | inr k ↦ rw k.same s
    ]

-- settleAuth alone: where it answers with a refusal or a repeat, every table is as it was given it.
pub settle_auth_unchanged :
    (core : Core) (hub now : ℕ) (auth : Authorization) (id via : ℕ) (l : Ledger)
    → ((settle_auth core hub now auth id via l).0.success ≡ false)
      ⊎ ((settle_auth core hub now auth id via l).0.replayed ≡ true)
    → (settle_auth core hub now auth id via l).1 ≡ l
unfolding settled_now
settle_auth_unchanged core hub now auth id via l h =
    elim (settle_auth-cases core hub now auth id via l) [
      | inl c ↦ ground (arith, c.answers)
      | inr k ↦ k.same
    ]

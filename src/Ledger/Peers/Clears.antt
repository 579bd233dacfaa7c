-- ===== src/Ledger/Peers/Clears.antt =====
-- What ClearPeerSettlement credits (internal/aghub/facilitator.go).
use anet_hub.Prelude.{
  ℕ, ◌≡◌, ◌≢◌, refl, sym, ap, ◌∙◌, ◌⊎◌, inl, inr, true, Option, none, some, List, arith,
  Option-cases,
}
use anet_hub.Prelude.Int.{pos, neg, ◌+ℤ◌}
use anet_hub.Prelude.Table.{contains, value_of}
use anet_hub.Ledger.Issue.{supply_issued, supply_event}
use anet_hub.Ledger.State.{
  >>=-eq-ok, Fault, receipt_too_old, Result, ok, err, Authorization, Receipt, Ledger, Response,
}
use anet_hub.Ledger.Core.{Core, SignedEvent}
use anet_hub.Ledger.Rows.{add_to_row, issuance_room}
use anet_hub.Ledger.Rows.Bounds.{amount_int64-some, value_of-add_to_row, value_of-add_to_row_ne}
use anet_hub.Ledger.Clear.{clear_tx, clear_amount, clear_from_peer}
use anet_hub.Ledger.Clear.Once.{clear_tx-row}
use anet_hub.Ledger.Clear.Keeps.{clear_amount_payee, clear_amount-ok, clear_from_peer-ok}
use anet_hub.Ledger.Payment.{Requirements}
use anet_hub.Ledger.Peers.{
  Receipts, check_receipt, after_clear, clear_receipt, receipt_in, clear_peer_settlement,
}

-- A receipt that names what was forwarded.
pub record Names (core : Core) (rec : Receipt) (auth : Authorization) (req : Requirements)
    : Type 0 where
  pub id : core.auth_id auth ≡ some rec.auth_id
  pub payer : rec.payer ≡ auth.payer
  pub network : rec.network ≡ req.network
  pub pay_to : rec.pay_to ≡ req.pay_to
  pub amount : rec.amount ≡ auth.amount

check_receipt-Names :
    (core : Core) (rec : Receipt) (auth : Authorization) (req : Requirements)
    → check_receipt core rec auth req ≡ none
    → Names core rec auth req
unfolding check_receipt
check_receipt-Names core rec auth req e = record {
  id = ground arith;
  payer = ground arith;
  network = ground arith;
  pay_to = ground arith;
  amount = ground arith;
}

after_clear-cases :
    (core : Core) (auth : Authorization) (network : ℕ) (out : Response) (l : Ledger)
    (r : Result Ledger)
    → ((after_clear core auth network out l r).1 ≡ l)
      ⊎ ((l' : Ledger) × (r ≡ ok l') × (after_clear core auth network out l r ≡ (out, l')))
unfolding after_clear
after_clear-cases core auth network out l (ok l') = inr (l', refl, refl)
after_clear-cases core auth network out l (err e) = inl (unmoved e)
  where
    unmoved : (e : Fault) → (after_clear core auth network out l (err e)).1 ≡ l
    unmoved receipt_too_old = refl
    unmoved _ = refl

-- Either nothing changes, or the receipt that the answer carries was cleared.
pub record Cleared (core : Core) (rs : Receipts) (kel_for : Receipt → Option (List SignedEvent))
    (skew hub now peer : ℕ) (out : Response) (auth : Authorization) (req : Requirements)
    (l l' : Ledger) : Type 0 where
  pub rec : Receipt
  pub kel : List SignedEvent
  pub carried : receipt_in rs out ≡ some rec
  pub checked : check_receipt core rec auth req ≡ none
  pub known : kel_for rec ≡ some kel
  pub cleared : clear_from_peer core skew hub now peer kel (some rec) l ≡ ok l'

pub clear_peer_settlement-cases :
    (core : Core) (rs : Receipts) (kel_for : Receipt → Option (List SignedEvent))
    (skew hub now peer : ℕ) (out : Response) (auth : Authorization) (req : Requirements)
    (l : Ledger)
    → ((clear_peer_settlement core rs kel_for skew hub now peer out auth req l).1 ≡ l)
      ⊎ ((l' : Ledger) × Cleared core rs kel_for skew hub now peer out auth req l l'
          × (clear_peer_settlement core rs kel_for skew hub now peer out auth req l ≡ (out, l')))
unfolding clear_peer_settlement clear_receipt
clear_peer_settlement-cases core rs kel_for skew hub now peer out auth req l =
    elim (Option-cases (receipt_in rs out)) [
      | inl q ↦ inl (rw (q, clear_peer_settlement, clear_receipt) refl)
      | inr (rec, carried) ↦ elim (Option-cases (check_receipt core rec auth req)) [
        | inr (r, q) ↦ inl (rw (carried, q, clear_peer_settlement, clear_receipt) refl)
        | inl checked ↦ elim (Option-cases (kel_for rec)) [
          | inl q ↦ inl (rw (carried, checked, q, clear_peer_settlement, clear_receipt) refl)
          | inr (kel, known) ↦
              let r = clear_from_peer core skew hub now peer kel (some rec) l in
              let whole : clear_peer_settlement core rs kel_for skew hub now peer out auth req l
                  ≡ after_clear core auth req.network out l r =
                rw (carried, checked, known, clear_peer_settlement, clear_receipt) refl in
              elim (after_clear-cases core auth req.network out l r) [
                | inl same ↦ inl (rw whole same)
                | inr (l', cleared, done) ↦ inr (
                  l',
                  record {
                    rec = rec;
                    kel = kel;
                    carried = carried;
                    checked = checked;
                    known = known;
                    cleared = cleared;
                  },
                  whole ∙ done,
                )
              ]
        ]
      ]
    ]

credited :
    (hub now peer : ℕ) (rec : Receipt) (amt : ℕ) (l l' : Ledger)
    → hub ≢ rec.pay_to
    → clear_tx hub now peer rec amt l ≡ ok l'
    → (value_of rec.pay_to l'.balances ≡ value_of rec.pay_to l.balances +ℤ pos amt)
      × (value_of peer l'.owed ≡ value_of peer l.owed +ℤ pos amt)
unfolding clear_tx
credited hub now peer rec amt l l' away e =
    let (_, _, e0) = >>=-eq-ok (issuance_room amt l.totals) _ e in
    let (u, received, e1) = >>=-eq-ok (add_to_row rec.pay_to (pos amt) l.balances) _ e0 in
    let (v, spent, e2) = >>=-eq-ok (add_to_row hub (neg amt) u) _ e1 in
    let (o, owes, e3) = >>=-eq-ok (add_to_row peer (pos amt) l.owed) _ e2 in
    let (k, event, e4) = >>=-eq-ok (supply_event supply_issued (pos amt) now l.totals) _ e3 in
    let eb : l'.balances ≡ v = ground arith in
    let eo : l'.owed ≡ o = ground arith in
    (
      rw eb (
          value_of-add_to_row_ne rec.pay_to hub (neg amt) u v spent (λ q. away (sym q))
          ∙ value_of-add_to_row rec.pay_to rec.pay_to (pos amt) l.balances u received refl),
      rw eo (value_of-add_to_row peer peer (pos amt) l.owed o owes refl),
    )

-- ClearPeerSettlement changes nothing, or it answers the peer's success and credits the payee that
-- was required with exactly the amount of the authorization, which the peer then owes: its receipt
-- names the authorization, its payer and the ledger it was forwarded to. The hub has an identity.
pub clear_peer_settlement_credits :
    (core : Core) (rs : Receipts) (kel_for : Receipt → Option (List SignedEvent))
    (skew hub now peer : ℕ) (out : Response) (auth : Authorization) (req : Requirements)
    (l l' : Ledger) (a : Response)
    → hub ≢ 0
    → clear_peer_settlement core rs kel_for skew hub now peer out auth req l ≡ (a, l')
    → (l' ≡ l)
      ⊎ ((rec : Receipt) × (receipt_in rs out ≡ some rec)
          × Names core rec auth req
          × (a ≡ out)
          × (value_of req.pay_to l'.balances ≡ value_of req.pay_to l.balances +ℤ pos auth.amount)
          × (value_of peer l'.owed ≡ value_of peer l.owed +ℤ pos auth.amount))
clear_peer_settlement_credits core rs kel_for skew hub now peer out auth req l l' a set e =
    elim (clear_peer_settlement-cases core rs kel_for skew hub now peer out auth req l) [
      | inl same ↦ inl (sym (ap (λ (x : Response × Ledger). x.1) e) ∙ same)
      | inr (l₁, c, done) ↦
          let whole : (a, l') ≡ (out, l₁) = sym e ∙ done in
          let el : l' ≡ l₁ = cc in
          let ea : a ≡ out = cc in
          let n = check_receipt-Names core c.rec auth req c.checked in
          let (amt, amount, cleared) =
            clear_from_peer-ok core skew hub now peer c.kel c.rec l l₁ c.cleared in
          let (same_amt, _, _) = amount_int64-some c.rec.amount amount in
          let away = clear_amount_payee core skew hub now peer c.kel c.rec amt l l₁ set cleared in
          elim (clear_amount-ok core skew hub now peer c.kel c.rec amt l l₁ cleared) [
            | inl (_, same) ↦ inl (el ∙ same)
            | inr (_, _, tx) ↦
                let (more, owes) = credited hub now peer c.rec amt l l₁ away tx in
                let is : amt ≡ auth.amount = same_amt ∙ n.amount in
                inr (c.rec, c.carried, n, ea, rw (el, ← n.pay_to, ← is) more, rw (el, ← is) owes)
          ]
    ]

clear_from_peer_again :
    (core : Core) (skew hub now now' peer : ℕ) (kel : List SignedEvent) (rec : Receipt)
    (l l' x : Ledger)
    → clear_from_peer core skew hub now peer kel (some rec) l ≡ ok x
    → contains rec.auth_id l'.cleared ≡ true
    → clear_from_peer core skew hub now' peer kel (some rec) l' ≡ ok l'
unfolding clear_from_peer clear_amount
clear_from_peer_again core skew hub now now' peer kel rec l l' x e has = ground (arith, has)

-- A settlement that was cleared here is retried on the ledger it left, at any clock: the same answer
-- of the peer changes nothing more, and is answered again.
pub clear_peer_settlement_again :
    (core : Core) (rs : Receipts) (kel_for : Receipt → Option (List SignedEvent))
    (skew hub now now' peer : ℕ) (out : Response) (auth : Authorization) (req : Requirements)
    (l l' : Ledger) (a : Response)
    → clear_peer_settlement core rs kel_for skew hub now peer out auth req l ≡ (a, l')
    → l' ≢ l
    → clear_peer_settlement core rs kel_for skew hub now' peer out auth req l' ≡ (out, l')
unfolding clear_peer_settlement clear_receipt after_clear
clear_peer_settlement_again core rs kel_for skew hub now now' peer out auth req l l' a e moved =
    elim (clear_peer_settlement-cases core rs kel_for skew hub now peer out auth req l) [
      | inl same ↦ absurd (moved (sym (ap (λ (x : Response × Ledger). x.1) e) ∙ same))
      | inr (l₁, c, done) ↦
          let whole : (a, l') ≡ (out, l₁) = sym e ∙ done in
          let el : l' ≡ l₁ = cc in
          let (amt, amount, cleared) =
            clear_from_peer-ok core skew hub now peer c.kel c.rec l l₁ c.cleared in
          elim (clear_amount-ok core skew hub now peer c.kel c.rec amt l l₁ cleared) [
            | inl (_, same) ↦ absurd (moved (el ∙ same))
            | inr (_, _, tx) ↦
                let row = clear_tx-row hub now peer c.rec amt l l₁ tx in
                let has : contains c.rec.auth_id l'.cleared ≡ true = rw el (ground (arith, row)) in
                let again =
                  clear_from_peer_again core skew hub now now' peer c.kel c.rec l l' l₁ c.cleared
                    has in
                rw (c.carried, c.checked, c.known, again, clear_peer_settlement, clear_receipt) refl
          ]
    ]

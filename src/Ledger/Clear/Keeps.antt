-- ===== src/Ledger/Clear/Keeps.antt =====
-- Clearing and the invariant (internal/aghub/facilitator.go ClearFromPeer; redemption.go SettleOwed).
use anet_hub.Prelude.{
  ℕ, ◌≡◌, ◌≢◌, ap, ◌⊎◌, inl, inr, true, false, Option, none, some, arith, Bool-cases, Option-cases,
  ◌==◌, List,
}
use anet_hub.Prelude.Int.{ℤ, pos, neg, pos_part, neg_part, ◌-ℤ◌, ◌≤ℤ◌, int_laws}
use anet_hub.Prelude.Table.{
  Table, lookup, contains, insert, value_of, sum_except-insert_ne, sum_except-insert_self,
  insert-NonNegExcept,
}
use anet_hub.Ledger.State.{ok, Totals, Ledger, Receipt, >>=-eq-ok}
use anet_hub.Ledger.Core.{Core, SignedEvent}
use anet_hub.Ledger.Rows.{amount_int64, add_to_row, issuance_room}
use anet_hub.Ledger.Issue.{supply_issued, supply_event}
use anet_hub.Ledger.Sound.{IsCovered, IsSound}
use anet_hub.Ledger.Clear.{
  in_clear_window, clear_tx, clear_amount, clear_from_peer, discharge_due, reduce_owed, settle_owed,
}
use anet_hub.Ledger.Issue.Keeps.{neg-eq-sub, account_first-IsBacked, issued-IsCovered}

clear_tx-IsSound :
    (hub now peer : ℕ) (rec : Receipt) (amt : ℕ) (l l' : Ledger)
    → IsSound hub l
    → hub ≢ rec.pay_to
    → clear_tx hub now peer rec amt l ≡ ok l'
    → IsSound hub l'
unfolding clear_tx
clear_tx-IsSound hub now peer rec amt l l' s away e =
    let (_, _, e0) = >>=-eq-ok (issuance_room amt l.totals) _ e in
    let (u, received, e1) = >>=-eq-ok (add_to_row rec.pay_to (pos amt) l.balances) _ e0 in
    let (v, spent, e2) = >>=-eq-ok (add_to_row hub (neg amt) u) _ e1 in
    let (o, owed, e3) = >>=-eq-ok (add_to_row peer (pos amt) l.owed) _ e2 in
    let (k, event, e4) = >>=-eq-ok (supply_event supply_issued (pos amt) now l.totals) _ e3 in
    let eb : l'.balances ≡ v = ground arith in
    let ek : l'.totals ≡ k = ground arith in
    let ed : l'.due ≡ l.due = ground arith in
    record {
      backed =
          rw (eb, ek)
            (account_first-IsBacked hub rec.pay_to now (pos amt) (neg amt) l.balances u v l.totals k
              s.backed away (omega arith) (neg-eq-sub amt) event received spent);
      covered = rw (ed, ek) (issued-IsCovered (pos amt) now l.due l.totals k s.covered event);
    }

-- A receipt taken is one cleared before, or one dated in the window and cleared now.
pub clear_amount-ok :
    (core : Core) (skew hub now peer : ℕ) (kel : List SignedEvent) (rec : Receipt) (amt : ℕ)
    (l l' : Ledger)
    → clear_amount core skew hub now peer kel rec amt l ≡ ok l'
    → ((contains rec.auth_id l.cleared ≡ true) × (l' ≡ l))
      ⊎ ((contains rec.auth_id l.cleared ≡ false)
          × (in_clear_window skew now rec.settle_at ≡ true)
          × (clear_tx hub now peer rec amt l ≡ ok l'))
unfolding clear_amount
clear_amount-ok core skew hub now peer kel rec amt l l' e = ground arith

pub clear_amount_payee :
    (core : Core) (skew hub now peer : ℕ) (kel : List SignedEvent) (rec : Receipt) (amt : ℕ)
    (l l' : Ledger)
    → hub ≢ 0
    → clear_amount core skew hub now peer kel rec amt l ≡ ok l'
    → hub ≢ rec.pay_to
unfolding clear_amount
clear_amount_payee core skew hub now peer kel rec amt l l' set e = ground arith

-- A receipt that was taken, with its amount.
pub clear_from_peer-ok :
    (core : Core) (skew hub now peer : ℕ) (kel : List SignedEvent) (rec : Receipt) (l l' : Ledger)
    → clear_from_peer core skew hub now peer kel (some rec) l ≡ ok l'
    → (amt : ℕ) × (amount_int64 rec.amount ≡ some amt)
      × (clear_amount core skew hub now peer kel rec amt l ≡ ok l')
unfolding clear_from_peer
clear_from_peer-ok core skew hub now peer kel rec l l' e =
    elim (Option-cases (amount_int64 rec.amount)) [
      | inl q ↦ absurd (ground arith)
      | inr (amt, q) ↦ (amt, q, ground arith)
    ]

-- On a hub with an identity, clearing a peer's receipt, where it goes through, keeps the ledger sound.
pub clear_from_peer-IsSound :
    (core : Core) (skew hub now peer : ℕ) (kel : List SignedEvent) (rec : Option Receipt)
    (l l' : Ledger)
    → hub ≢ 0
    → IsSound hub l
    → clear_from_peer core skew hub now peer kel rec l ≡ ok l'
    → IsSound hub l'
unfolding clear_from_peer
clear_from_peer-IsSound core skew hub now peer kel none l l' set s e = absurd (ground arith)
clear_from_peer-IsSound core skew hub now peer kel (some rec) l l' set s e =
    let (amt, _, cleared) = clear_from_peer-ok core skew hub now peer kel rec l l' e in
    elim (clear_amount-ok core skew hub now peer kel rec amt l l' cleared) [
      | inl (_, same) ↦ rw same s
      | inr (_, _, done) ↦
          clear_tx-IsSound hub now peer rec amt l l' s
            (clear_amount_payee core skew hub now peer kel rec amt l l' set cleared) done
    ]

discharged :
    (peer : ℕ) (due amount : ℤ) (d : Table ℤ) (k : Totals)
    → lookup peer d ≡ some due
    → pos 1 ≤ℤ amount
    → amount ≤ℤ due
    → IsCovered d k
    → IsCovered (insert peer (due -ℤ amount) d) k
discharged peer due amount d k e gain enough c = record {
  due_nonneg = insert-NonNegExcept 0 peer (due -ℤ amount) d c.due_nonneg (inr (omega int_laws));
  due_bound = elim (Bool-cases (0 == peer)) [
    | inl zero_key ↦
        let same : 0 ≡ peer = ground arith in rw (← same, sum_except-insert_self) c.due_bound
    | inr other_key ↦
        let moved = sum_except-insert_ne 0 peer (due -ℤ amount) d (λ q. absurd (ground arith)) in
        let held : value_of peer d ≡ due = rw (value_of, e) in
        omega (
          int_laws,
          c.due_bound,
          ap pos_part moved,
          ap neg_part moved,
          ap pos_part held,
          ap neg_part held,
        )
  ];
}

-- Discharging what is owed to a peer, where it goes through, keeps the ledger sound.
pub discharge_due-IsSound :
    (hub peer : ℕ) (amount : ℤ) (l l' : Ledger)
    → IsSound hub l
    → discharge_due peer amount l ≡ ok l'
    → IsSound hub l'
unfolding discharge_due
discharge_due-IsSound hub peer amount l l' s e = elim (Option-cases (lookup peer l.due)) [
  | inl q ↦ absurd (ground arith)
  | inr (due, q) ↦
      let eb : l'.balances ≡ l.balances = ground arith in
      let ek : l'.totals ≡ l.totals = ground arith in
      let ed : l'.due ≡ insert peer (due -ℤ amount) l.due = ground arith in
      record {
        backed = rw (eb, ek) s.backed;
        covered =
            rw (ed, ek)
              (discharged peer due amount l.due l.totals q (ground arith) (ground arith) s.covered);
      }
]

-- A peer's discharge statement that is taken keeps the ledger sound.
pub settle_owed-IsSound :
    (core : Core) (hub peer : ℕ) (kel : List SignedEvent) (rec : Option Receipt) (l l' : Ledger)
    → IsSound hub l
    → settle_owed core hub peer kel rec l ≡ ok l'
    → IsSound hub l'
unfolding settle_owed reduce_owed
settle_owed-IsSound core hub peer kel none l l' s e = absurd (ground arith)
settle_owed-IsSound core hub peer kel (some rec) l l' s e =
    let eb : l'.balances ≡ l.balances = ground arith in
    let ek : l'.totals ≡ l.totals = ground arith in
    let ed : l'.due ≡ l.due = ground arith in
    record { backed = rw (eb, ek) s.backed; covered = rw (ed, ek) s.covered }

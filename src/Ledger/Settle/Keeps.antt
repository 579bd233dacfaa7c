-- ===== src/Ledger/Settle/Keeps.antt =====
-- Settlements and the invariant (internal/aghub/facilitator.go settleAuth).
use anet_hub.Prelude.{
  ℕ, ◌<◌, ◌≡◌, ◌≢◌, sym, ◌∙◌, inl, inr, Bool, true, false, arith, Bool-cases, ◌==◌, ◌||◌, ◌&&◌, not,
  if◌then◌else◌,
}
use anet_hub.Prelude.Int.{ℤ, ltb_ℤ, pos, neg, ◌≤ℤ◌, int_laws}
use anet_hub.Prelude.Table.{Table, value_of, value_of_nonneg}
use anet_hub.Ledger.State.{ok, Totals, Ledger, Authorization, >>=-eq-ok, fail_if-bind}
use anet_hub.Ledger.Rows.{add_to_row}
use anet_hub.Ledger.Rows.Bounds.{sum_except-add_to_row, add_to_row-NonNegExcept}
use anet_hub.Ledger.Issue.{supply_redeemed, supply_event}
use anet_hub.Ledger.Issue.Events.{redeemed-supply_event}
use anet_hub.Ledger.Sound.{
  IsBacked, IsCovered, IsSound, sum_except-transfer, value_of_hub-transfer, transfer-NonNegExcept,
  sum_except-retire, value_of_hub-retire, retire-NonNegExcept, retire_add_up, retire_hub_row,
  hub_cannot_pay, rises,
}
use anet_hub.Ledger.Settle.{banks_here, move_balances, owe_peer, move_credit}

-- A payment between two accounts.
transfer-IsBacked :
    (h p q amt : ℕ) (t u v : Table ℤ) (k : Totals)
    → IsBacked h t k
    → h ≢ p
    → h ≢ q
    → pos amt ≤ℤ value_of p t
    → add_to_row p (neg amt) t ≡ ok u
    → add_to_row q (pos amt) u ≡ ok v
    → IsBacked h v k
transfer-IsBacked h p q amt t u v k b hp hq funds paid received = record {
  add_up = sum_except-transfer h p q amt t u v paid received hp funds b.no_debt hq ∙ b.add_up;
  hub_row = value_of_hub-transfer h p q amt t u v paid received hp funds b.no_debt hq ∙ b.hub_row;
  no_debt = transfer-NonNegExcept h p q amt t u v paid received hp funds b.no_debt hq;
  issued_max = b.issued_max;
  redeemed_nonneg = b.redeemed_nonneg;
}

-- Credit that leaves circulation.
retire-IsBacked :
    (h p amt now : ℕ) (t u v : Table ℤ) (k k' : Totals)
    → IsBacked h t k
    → h ≢ p
    → pos amt ≤ℤ value_of p t
    → add_to_row p (neg amt) t ≡ ok u
    → add_to_row h (pos amt) u ≡ ok v
    → supply_event supply_redeemed (pos amt) now k ≡ ok k'
    → IsBacked h v k'
retire-IsBacked h p amt now t u v k k' b hp funds paid received event =
    let (redeemed, issued) = redeemed-supply_event (pos amt) now k k' event in
    record {
      add_up =
          sum_except-retire h p amt t u v paid received hp funds b.no_debt
          ∙ rw issued (retire_add_up _ k.issued _ _ amt b.add_up redeemed);
      hub_row =
          value_of_hub-retire h p amt t u v paid received hp funds b.no_debt
          ∙ rw issued (retire_hub_row _ k.issued _ _ amt b.hub_row redeemed);
      no_debt = retire-NonNegExcept h p amt t u v paid received hp funds b.no_debt;
      issued_max = rw issued b.issued_max;
      redeemed_nonneg = rw redeemed (rises _ amt b.redeemed_nonneg);
    }

-- The steps that a committed transaction went through.
pub record Steps (hub now : ℕ) (auth : Authorization) (via amt : ℕ) (l l' : Ledger) : Type 0 where
  pub paid : Table ℤ
  pub totals : Totals
  pub last : Ledger
  pub funds : pos amt ≤ℤ value_of auth.payer l.balances
  pub side : banks_here hub auth.pay_to l ≡ (via == 0)
  pub moved : move_balances auth amt (via == 0) l.balances ≡ ok paid
  pub event :
      (if auth.pay_to == hub || not (via == 0)
        then supply_event supply_redeemed (pos amt) now l.totals
        else ok l.totals)
      ≡ ok totals
  pub owing :
      (let after = record l { balances = paid; totals = totals } in
        if via == 0 then ok after else owe_peer hub via amt after)
      ≡ ok last
  pub balances_last : l'.balances ≡ last.balances
  pub totals_last : l'.totals ≡ last.totals
  pub due_last : l'.due ≡ last.due

pub move_credit-Steps :
    (hub now : ℕ) (auth : Authorization) (id via amt : ℕ) (l l' : Ledger)
    → move_credit hub now auth id via amt l ≡ ok l'
    → Steps hub now auth via amt l l'
unfolding move_credit
move_credit-Steps hub now auth id via amt l l' e =
    let here = banks_here hub auth.pay_to l in
    let (f1, e1) = fail_if-bind (ltb_ℤ (value_of auth.payer l.balances) (pos amt)) _ _ e in
    let (f2, e2) = fail_if-bind (via == 0 && not here) _ _ e1 in
    let (f3, e3) = fail_if-bind (not (via == 0) && here) _ _ e2 in
    let side : banks_here hub auth.pay_to l ≡ (via == 0) = ground arith in
    let (paid, moved, e4) = >>=-eq-ok (move_balances auth amt here l.balances) _ e3 in
    let (totals, event, e5) =
      >>=-eq-ok
        (if auth.pay_to == hub || not (via == 0)
          then supply_event supply_redeemed (pos amt) now l.totals
          else ok l.totals)
        _ e4 in
    let (last, owing, e6) =
      >>=-eq-ok
        (let after = record l { balances = paid; totals = totals } in
          if via == 0 then ok after else owe_peer hub via amt after)
        _ e5 in
    record {
      paid = paid;
      totals = totals;
      last = last;
      funds = ground arith;
      side = side;
      moved = rw (← side) moved;
      event = event;
      owing = owing;
      balances_last = ground arith;
      totals_last = ground arith;
      due_last = ground arith;
    }

move_balances-ok :
    (auth : Authorization) (amt : ℕ) (here : Bool) (t v : Table ℤ)
    → move_balances auth amt here t ≡ ok v
    → (u : Table ℤ) × (add_to_row auth.payer (neg amt) t ≡ ok u)
      × ((if here then add_to_row auth.pay_to (pos amt) u else ok u) ≡ ok v)
unfolding move_balances
move_balances-ok auth amt here t v e = >>=-eq-ok (add_to_row auth.payer (neg amt) t) _ e

owe_peer-ok :
    (hub via amt : ℕ) (l m : Ledger)
    → owe_peer hub via amt l ≡ ok m
    → (d : Table ℤ) × (b : Table ℤ) × (add_to_row via (pos amt) l.due ≡ ok d)
      × (add_to_row hub (pos amt) l.balances ≡ ok b)
      × (m ≡ record l { due = d; balances = b })
unfolding owe_peer
owe_peer-ok hub via amt l m e =
    let (d, owed, e1) = >>=-eq-ok (add_to_row via (pos amt) l.due) _ e in
    let (b, home, e2) = >>=-eq-ok (add_to_row hub (pos amt) l.balances) _ e1 in
    (d, b, owed, home, ground arith)

-- What is owed to a peer grows by what was redeemed.
owe-IsCovered :
    (via amt now : ℕ) (d d' : Table ℤ) (k k' : Totals)
    → IsCovered d k
    → via ≢ 0
    → add_to_row via (pos amt) d ≡ ok d'
    → supply_event supply_redeemed (pos amt) now k ≡ ok k'
    → IsCovered d' k'
owe-IsCovered via amt now d d' k k' c ne owed event =
    let (redeemed, issued) = redeemed-supply_event (pos amt) now k k' event in
    let apart : 0 ≢ via = λ e. ne (sym e) in
    let grown = sum_except-add_to_row 0 via (pos amt) d d' owed apart in
    record {
      due_nonneg =
          add_to_row-NonNegExcept 0 via (pos amt) d d' owed c.due_nonneg
            (inr (rises _ amt (value_of_nonneg 0 via d c.due_nonneg apart)));
      due_bound = rw (grown, redeemed) (omega (int_laws, c.due_bound));
    }

-- Redeeming leaves what is owed covered.
redeem-IsCovered :
    (amt now : ℕ) (d : Table ℤ) (k k' : Totals)
    → IsCovered d k
    → supply_event supply_redeemed (pos amt) now k ≡ ok k'
    → IsCovered d k'
redeem-IsCovered amt now d k k' c event =
    let (redeemed, issued) = redeemed-supply_event (pos amt) now k k' event in
    record { due_nonneg = c.due_nonneg; due_bound = rw redeemed (omega (int_laws, c.due_bound)) }

module _ (hub now : ℕ) (auth : Authorization) (via amt : ℕ) (l l' : Ledger) (s : IsSound hub l)
    (pos_amt : 0 < amt) (steps : Steps hub now auth via amt l l') where
  payer_not_hub : hub ≢ auth.payer
  payer_not_hub = hub_cannot_pay hub amt l.balances l.totals s.backed pos_amt auth.payer steps.funds

  abbrev LastIs : Table ℤ → Table ℤ → Totals → Type 0
  LastIs b d k = (l'.balances ≡ b) × (l'.due ≡ d) × (l'.totals ≡ k)

  last-IsSound :
      (b d : Table ℤ) (k : Totals)
      → LastIs b d k
      → IsBacked hub b k
      → IsCovered d k
      → IsSound hub l'
  last-IsSound b d k (eb, ed, ek) backed covered = record {
    backed = rw (eb, ek) backed;
    covered = rw (ed, ek) covered;
  }

  last_here : (via == 0) ≡ true → LastIs steps.paid l.due steps.totals
  last_here z =
      let e = steps.owing in ground (arith, steps.balances_last, steps.totals_last, steps.due_last)

  redeem-IsSound : (via == 0) ≡ true → auth.pay_to ≡ hub → IsSound hub l'
  redeem-IsSound z home =
      let (u, pay, rest) = move_balances-ok auth amt (via == 0) l.balances steps.paid steps.moved in
      let received : add_to_row hub (pos amt) u ≡ ok steps.paid = ground arith in
      let event : supply_event supply_redeemed (pos amt) now l.totals ≡ ok steps.totals =
        ground (arith, steps.event) in
      last-IsSound steps.paid l.due steps.totals (last_here z)
        (retire-IsBacked hub auth.payer amt now l.balances u steps.paid l.totals steps.totals
          s.backed payer_not_hub steps.funds pay received event)
        (redeem-IsCovered amt now l.due l.totals steps.totals s.covered event)

  transfer-IsSound : (via == 0) ≡ true → auth.pay_to ≢ hub → IsSound hub l'
  transfer-IsSound z away =
      let (u, pay, rest) = move_balances-ok auth amt (via == 0) l.balances steps.paid steps.moved in
      let received : add_to_row auth.pay_to (pos amt) u ≡ ok steps.paid = ground arith in
      let same : l.totals ≡ steps.totals = ground (arith, steps.event) in
      last-IsSound steps.paid l.due steps.totals (last_here z)
        (rw (← same) (
          transfer-IsBacked hub auth.payer auth.pay_to amt l.balances u steps.paid l.totals s.backed
            payer_not_hub (λ e. away (sym e)) steps.funds pay received))
        (rw (← same) s.covered)

  forwarded-IsSound : (via == 0) ≡ false → IsSound hub l'
  forwarded-IsSound z =
      let (u, pay, rest) = move_balances-ok auth amt (via == 0) l.balances steps.paid steps.moved in
      let same : u ≡ steps.paid = ground arith in
      let event : supply_event supply_redeemed (pos amt) now l.totals ≡ ok steps.totals =
        ground (arith, steps.event) in
      let after : Ledger = record l { balances = steps.paid; totals = steps.totals } in
      let owing : owe_peer hub via amt after ≡ ok steps.last = ground (arith, steps.owing) in
      let (d, b, owed, home, e) = owe_peer-ok hub via amt after steps.last owing in
      last-IsSound b d steps.totals
        (ground (arith, steps.balances_last, steps.totals_last, steps.due_last))
        (retire-IsBacked hub auth.payer amt now l.balances u b l.totals steps.totals s.backed
          payer_not_hub steps.funds pay (rw same home) event)
        (owe-IsCovered via amt now l.due d l.totals steps.totals s.covered (ground arith) owed
          event)

pub move_credit-IsSound :
    (hub now : ℕ) (auth : Authorization) (id via amt : ℕ) (l l' : Ledger)
    → IsSound hub l
    → 0 < amt
    → move_credit hub now auth id via amt l ≡ ok l'
    → IsSound hub l'
move_credit-IsSound hub now auth id via amt l l' s pos_amt e =
    let steps = move_credit-Steps hub now auth id via amt l l' e in
    elim (Bool-cases (via == 0)) [
      | inl z ↦ elim (Bool-cases (auth.pay_to == hub)) [
        | inl home ↦ redeem-IsSound hub now auth via amt l l' s pos_amt steps z (ground arith)
        | inr away ↦ transfer-IsSound hub now auth via amt l l' s pos_amt steps z (ground arith)
      ]
      | inr z ↦ forwarded-IsSound hub now auth via amt l l' s pos_amt steps z
    ]

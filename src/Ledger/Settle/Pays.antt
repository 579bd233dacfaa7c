-- ===== src/Ledger/Settle/Pays.antt =====
-- Payments that nothing stands against (internal/aghub/facilitator.go settleAuth).
use anet_hub.Prelude.{
  ℕ, ◌≤◌, ◌<◌, ◌≡◌, ◌≢◌, refl, sym, ap, ◌∙◌, true, false, Option, some, [], ◌∷◌, ◌++◌, ◌==◌, arith,
}
use anet_hub.Prelude.Int.{
  ℤ, pos, neg, ◌+ℤ◌, ◌≤ℤ◌, ltb_ℤ, int_laws, IsInt64, max_int64, min_ℤ64, neg_parts, pos_part,
  neg_part,
}
use anet_hub.Prelude.Table.{Table, contains, insert, value_of}
use anet_hub.Ledger.State.{ok, Authorization, Ledger, text}
use anet_hub.Ledger.Core.{Core}
use anet_hub.Ledger.Rows.{amount_int64, add_to_row}
use anet_hub.Ledger.Rows.Bounds.{
  add_to_row_takes, amount_int64-some, value_of-add_to_row, value_of-add_to_row_ne,
}
use anet_hub.Ledger.Issue.{unix_milli, entry_of}
use anet_hub.Ledger.Settle.{
  banks_here, sign_receipt, guard_key, take_guard, move_balances, move_credit, settled_row,
  settle_tx, settled_now, receipt_of, committed, settle_auth,
}

takes_less : (v : ℤ) (amt : ℕ) → 0 < amt → pos amt ≤ℤ v → IsInt64 v → IsInt64 (v +ℤ neg amt)
takes_less v amt up funds h = omega int_laws

small_change : (amt : ℕ) → amt ≤ max_int64 → neg amt ≢ min_ℤ64
small_change amt h e = omega (int_laws, neg_parts amt, ap pos_part e, ap neg_part e)

-- Both rows take the amount.
move_balances_takes :
    (auth : Authorization) (amt : ℕ) (t : Table ℤ)
    → 0 < amt
    → amt ≤ max_int64
    → pos amt ≤ℤ value_of auth.payer t
    → IsInt64 (value_of auth.payer t)
    → auth.payer ≢ auth.pay_to
    → IsInt64 (value_of auth.pay_to t +ℤ pos amt)
    → (t' : Table ℤ) × (move_balances auth amt true t ≡ ok t')
      × (value_of auth.payer t' ≡ value_of auth.payer t +ℤ neg amt)
      × (value_of auth.pay_to t' ≡ value_of auth.pay_to t +ℤ pos amt)
unfolding move_balances
move_balances_takes auth amt t up top funds h ne room =
    let u = insert auth.payer (value_of auth.payer t +ℤ neg amt) t in
    let paid : add_to_row auth.payer (neg amt) t ≡ ok u =
      add_to_row_takes auth.payer (neg amt) t (small_change amt top)
        (takes_less _ amt up funds h) in
    let same : value_of auth.pay_to u ≡ value_of auth.pay_to t =
      value_of-add_to_row_ne auth.pay_to auth.payer (neg amt) t u paid (λ e. ne (sym e)) in
    let v = insert auth.pay_to (value_of auth.pay_to u +ℤ pos amt) u in
    let received : add_to_row auth.pay_to (pos amt) u ≡ ok v =
      add_to_row_takes auth.pay_to (pos amt) u (ground arith) (rw same room) in
    (
      v,
      rw paid received,
      value_of-add_to_row_ne auth.payer auth.pay_to (pos amt) u v received ne
          ∙ value_of-add_to_row auth.payer auth.payer (neg amt) t u paid refl,
      value_of-add_to_row auth.pay_to auth.pay_to (pos amt) u v received refl
          ∙ ap (λ x. x +ℤ pos amt) same,
    )

move_credit_takes :
    (hub now : ℕ) (auth : Authorization) (id amt : ℕ) (l : Ledger)
    → 0 < amt
    → amt ≤ max_int64
    → pos amt ≤ℤ value_of auth.payer l.balances
    → IsInt64 (value_of auth.payer l.balances)
    → auth.payer ≢ auth.pay_to
    → IsInt64 (value_of auth.pay_to l.balances +ℤ pos amt)
    → auth.pay_to ≢ hub
    → contains auth.pay_to l.agents ≡ true
    → (l' : Ledger) × (move_credit hub now auth id 0 amt l ≡ ok l')
      × (value_of auth.payer l'.balances ≡ value_of auth.payer l.balances +ℤ neg amt)
      × (value_of auth.pay_to l'.balances ≡ value_of auth.pay_to l.balances +ℤ pos amt)
unfolding move_credit banks_here
move_credit_takes hub now auth id amt l up top funds h ne room away here_too =
    let (t', moved, less, more) = move_balances_takes auth amt l.balances up top funds h ne room in
    let other : (auth.pay_to == hub) ≡ false = ground arith in
    let enough : ltb_ℤ (value_of auth.payer l.balances) (pos amt) ≡ false = ground arith in
    (
      record l {
        balances = t';
        entries =
            l.entries
            ++ (entry_of auth.payer (neg amt) (text id) now
                ∷ entry_of auth.pay_to (pos amt) (text id) now
                ∷ []);
      },
      rw (enough, other, here_too, moved) refl,
      less,
      more,
    )

-- A new authorization for an account here goes through and moves exactly its amount from the payer
-- to the payee, where the payer is another account that holds the amount in a row of the int64
-- range, the payee is not the hub itself and has room for it in its row, the ledger takes the amount
-- and the key of the binding is known, no live binding stands against it, and its receipt is signed.
pub settle_auth_pays :
    (core : Core) (hub now : ℕ) (auth : Authorization) (id amt : ℕ) (guard rec : Option ℕ)
    (guards' : Table ℤ) (l : Ledger)
    → amount_int64 auth.amount ≡ some amt
    → guard_key core auth ≡ some guard
    → sign_receipt core (receipt_of auth id now) ≡ some rec
    → contains id l.settled ≡ false
    → take_guard guard (unix_milli now) l.guards ≡ some guards'
    → pos amt ≤ℤ value_of auth.payer l.balances
    → IsInt64 (value_of auth.payer l.balances)
    → auth.payer ≢ auth.pay_to
    → IsInt64 (value_of auth.pay_to l.balances +ℤ pos amt)
    → auth.pay_to ≢ hub
    → contains auth.pay_to l.agents ≡ true
    → ((settle_auth core hub now auth id 0 l).0 ≡ settled_now auth id rec)
      × (value_of auth.payer (settle_auth core hub now auth id 0 l).1.balances
          ≡ value_of auth.payer l.balances +ℤ neg amt)
      × (value_of auth.pay_to (settle_auth core hub now auth id 0 l).1.balances
          ≡ value_of auth.pay_to l.balances +ℤ pos amt)
unfolding settle_auth settle_tx
settle_auth_pays core hub now auth id amt guard rec guards' l amount key signed new free funds h ne
      room away banks =
    let (_, up, top) = amount_int64-some auth.amount amount in
    let noted = record l {
      settled = insert id (settled_row now auth 0 amt rec guard) l.settled;
      guards = guards';
    } in
    let (l', done, less, more) =
      move_credit_takes hub now auth id amt noted up top funds h ne room away banks in
    let went : settle_tx hub now auth id 0 amt rec guard l ≡ committed l' =
      rw (settle_tx, new, free, done) refl in
    let whole : settle_auth core hub now auth id 0 l ≡ (settled_now auth id rec, l') =
      rw (settle_auth, amount, key, signed, went) refl in
    rw whole (refl, less, more)

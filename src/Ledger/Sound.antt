-- ===== src/Ledger/Sound.antt =====
-- The invariant of the ledger (supply.go, P-PAY-3, with the bounds that it rests on), and the two
-- ways in which credit moves from an account.
use anet_hub.Prelude.{ℕ, ◌<◌, ◌≡◌, ◌≢◌, refl, ap, ◌∙◌, inl, inr}
use anet_hub.Prelude.Int.{ℤ, pos, neg, pos_part, neg_part, ◌+ℤ◌, ◌-ℤ◌, ◌≤ℤ◌, int_laws, max_ℤ64}
use anet_hub.Prelude.Table.{
  Table, value_of, sum_except, NonNegExcept, value_of_nonneg, sum_except_nonneg,
}
use anet_hub.Ledger.State.{ok, Totals, Ledger}
use anet_hub.Ledger.Rows.{add_to_row}
use anet_hub.Ledger.Rows.Bounds.{
  value_of-add_to_row, value_of-add_to_row_ne, sum_except-add_to_row_self, sum_except-add_to_row,
  add_to_row-NonNegExcept,
}

-- The balances against the totals: the accounts hold what was issued and not redeemed, the hub's
-- own row holds the negative of it, no account is below zero, and the totals are in range.
pub record IsBacked (hub : ℕ) (balances : Table ℤ) (t : Totals) : Type 0 where
  pub add_up : sum_except hub balances ≡ t.issued -ℤ t.redeemed
  pub hub_row : value_of hub balances ≡ t.redeemed -ℤ t.issued
  pub no_debt : NonNegExcept hub balances
  pub issued_max : t.issued ≤ℤ max_ℤ64
  pub redeemed_nonneg : pos 0 ≤ℤ t.redeemed

-- What this hub owes its peers came out of what was redeemed.
pub record IsCovered (due : Table ℤ) (t : Totals) : Type 0 where
  pub due_nonneg : NonNegExcept 0 due
  pub due_bound : sum_except 0 due ≤ℤ t.redeemed

-- The invariant.
pub record IsSound (hub : ℕ) (l : Ledger) : Type 0 where
  pub backed : IsBacked hub l.balances l.totals
  pub covered : IsCovered l.due l.totals

pub +ℤ_neg_pos : (a : ℤ) (n : ℕ) → a +ℤ neg n +ℤ pos n ≡ a
+ℤ_neg_pos a n = omega int_laws

pub covers : (a : ℤ) (n : ℕ) → pos n ≤ℤ a → pos 0 ≤ℤ a +ℤ neg n
covers a n h = omega int_laws

pub rises : (a : ℤ) (n : ℕ) → pos 0 ≤ℤ a → pos 0 ≤ℤ a +ℤ pos n
rises a n h = omega int_laws

-- From one account to another, or to itself: the accounts hold what they held.
module _ (h p q amt : ℕ) (t u v : Table ℤ) (paid : add_to_row p (neg amt) t ≡ ok u)
    (received : add_to_row q (pos amt) u ≡ ok v) (hp : h ≢ p) (funds : pos amt ≤ℤ value_of p t)
    (n : NonNegExcept h t) where
  pub after_payer : NonNegExcept h u
  after_payer = add_to_row-NonNegExcept h p (neg amt) t u paid n (inr (covers _ amt funds))

  pub sum_except-transfer : h ≢ q → sum_except h v ≡ sum_except h t
  sum_except-transfer hq =
      sum_except-add_to_row h q (pos amt) u v received hq
      ∙ ap (λ s. s +ℤ pos amt) (sum_except-add_to_row h p (neg amt) t u paid hp)
      ∙ +ℤ_neg_pos _ amt

  pub value_of_hub-transfer : h ≢ q → value_of h v ≡ value_of h t
  value_of_hub-transfer hq =
      value_of-add_to_row_ne h q (pos amt) u v received hq
      ∙ value_of-add_to_row_ne h p (neg amt) t u paid hp

  pub transfer-NonNegExcept : h ≢ q → NonNegExcept h v
  transfer-NonNegExcept hq =
      add_to_row-NonNegExcept h q (pos amt) u v received after_payer
        (inr (rises _ amt (value_of_nonneg h q u after_payer hq)))

-- From an account to the hub's own row.
module _ (h p amt : ℕ) (t u v : Table ℤ) (paid : add_to_row p (neg amt) t ≡ ok u)
    (received : add_to_row h (pos amt) u ≡ ok v) (hp : h ≢ p) (funds : pos amt ≤ℤ value_of p t)
    (n : NonNegExcept h t) where
  pub sum_except-retire : sum_except h v ≡ sum_except h t +ℤ neg amt
  sum_except-retire =
      sum_except-add_to_row_self h (pos amt) u v received
      ∙ sum_except-add_to_row h p (neg amt) t u paid hp

  pub value_of_hub-retire : value_of h v ≡ value_of h t +ℤ pos amt
  value_of_hub-retire =
      value_of-add_to_row h h (pos amt) u v received refl
      ∙ ap (λ s. s +ℤ pos amt) (value_of-add_to_row_ne h p (neg amt) t u paid hp)

  pub retire-NonNegExcept : NonNegExcept h v
  retire-NonNegExcept =
      add_to_row-NonNegExcept h h (pos amt) u v received
        (add_to_row-NonNegExcept h p (neg amt) t u paid n (inr (covers _ amt funds))) (inl refl)

-- The arithmetic of a supply event.
pub retire_add_up :
    (s i r r' : ℤ) (amt : ℕ) → s ≡ i -ℤ r → r' ≡ r +ℤ pos amt → s +ℤ neg amt ≡ i -ℤ r'
retire_add_up s i r r' amt e f =
    omega (int_laws, ap pos_part e, ap neg_part e, ap pos_part f, ap neg_part f)

pub retire_hub_row :
    (b i r r' : ℤ) (amt : ℕ) → b ≡ r -ℤ i → r' ≡ r +ℤ pos amt → b +ℤ pos amt ≡ r' -ℤ i
retire_hub_row b i r r' amt e f =
    omega (int_laws, ap pos_part e, ap neg_part e, ap pos_part f, ap neg_part f)

-- A backed ledger's hub row holds no credit to spend.
pub hub_cannot_pay :
    (hub amt : ℕ) (b : Table ℤ) (t : Totals)
    → IsBacked hub b t
    → 0 < amt
    → (p : ℕ) → pos amt ≤ℤ value_of p b
    → hub ≢ p
hub_cannot_pay hub amt b t k pos_amt p funds e =
    let spend : pos amt ≤ℤ value_of hub b = rw e funds in
    omega (
      int_laws,
      sum_except_nonneg hub b k.no_debt,
      ap pos_part k.add_up,
      ap neg_part k.add_up,
      ap pos_part k.hub_row,
      ap neg_part k.hub_row,
    )

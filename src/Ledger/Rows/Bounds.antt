-- ===== src/Ledger/Rows/Bounds.antt =====
-- What a change of one row does, and when it is refused.
use anet_hub.Prelude.{ℕ, inl, inr, true, ◌<◌, ◌≤◌, ◌≡◌, ◌≢◌, refl, ◌⊎◌, some, arith, Option-cases}
use anet_hub.Prelude.Int.{
  ℤ, pos, ◌+ℤ◌, ◌≤ℤ◌, +ℤ_parts, -ℤ_parts, +ℤ_cancel, int_laws, max_int64, max_ℤ64, min_ℤ64, IsInt64,
}
use anet_hub.Prelude.Table.{
  Table, lookup, insert, value_of, sum, sum_except, lookup-insert, sum-insert,
  sum_except-insert_self, sum_except-insert_ne, NonNegExcept, insert-NonNegExcept,
}
use anet_hub.Ledger.State.{ok}
use anet_hub.Ledger.Rows.{amount_int64, stored_amount, add_to_row, row_takes}

pub add_to_row-ok :
    (k : ℕ) (d : ℤ) (t t' : Table ℤ)
    → add_to_row k d t ≡ ok t'
    → t' ≡ insert k (value_of k t +ℤ d) t
unfolding add_to_row
add_to_row-ok k d t t' e = ground arith

-- The row under the key rises by the change.
pub value_of-add_to_row :
    (j k : ℕ) (d : ℤ) (t t' : Table ℤ)
    → add_to_row k d t ≡ ok t'
    → j ≡ k
    → value_of j t' ≡ value_of j t +ℤ d
value_of-add_to_row j k d t t' e q =
    ground (arith, add_to_row-ok k d t t' e, lookup-insert j k (value_of k t +ℤ d) t)

pub value_of-add_to_row_ne :
    (j k : ℕ) (d : ℤ) (t t' : Table ℤ)
    → add_to_row k d t ≡ ok t'
    → j ≢ k
    → value_of j t' ≡ value_of j t
value_of-add_to_row_ne j k d t t' e ne =
    ground (arith, add_to_row-ok k d t t' e, lookup-insert j k (value_of k t +ℤ d) t)

pub sum_except-add_to_row_self :
    (h : ℕ) (d : ℤ) (t t' : Table ℤ) → add_to_row h d t ≡ ok t' → sum_except h t' ≡ sum_except h t
sum_except-add_to_row_self h d t t' e =
    rw (add_to_row-ok h d t t' e) (sum_except-insert_self h (value_of h t +ℤ d) t)

pub sum_except-add_to_row :
    (h k : ℕ) (d : ℤ) (t t' : Table ℤ)
    → add_to_row k d t ≡ ok t'
    → h ≢ k
    → sum_except h t' ≡ sum_except h t +ℤ d
sum_except-add_to_row h k d t t' e ne =
    rw (add_to_row-ok k d t t' e)
      (+ℤ_cancel _ (value_of k t) _ d (sum_except-insert_ne h k (value_of k t +ℤ d) t ne))

pub sum-add_to_row :
    (k : ℕ) (d : ℤ) (t t' : Table ℤ) → add_to_row k d t ≡ ok t' → sum t' ≡ sum t +ℤ d
sum-add_to_row k d t t' e =
    rw (add_to_row-ok k d t t' e)
      (+ℤ_cancel _ (value_of k t) _ d (sum-insert k (value_of k t +ℤ d) t))

pub add_to_row-NonNegExcept :
    (h k : ℕ) (d : ℤ) (t t' : Table ℤ)
    → add_to_row k d t ≡ ok t'
    → NonNegExcept h t
    → (h ≡ k) ⊎ (pos 0 ≤ℤ value_of k t +ℤ d)
    → NonNegExcept h t'
add_to_row-NonNegExcept h k d t t' e n p =
    rw (add_to_row-ok k d t t' e) (insert-NonNegExcept h k (value_of k t +ℤ d) t n p)

row_takes-IsInt64 :
    (k : ℕ) (d : ℤ) (t : Table ℤ)
    → IsInt64 d
    → row_takes k d t ≡ true
    → d ≢ min_ℤ64
    → IsInt64 (value_of k t)
    → IsInt64 (value_of k t +ℤ d)
unfolding row_takes
row_takes-IsInt64 k d t h e ne r = elim (Option-cases (lookup k t)) [
  | inl q ↦ ground (arith, +ℤ_parts (pos 0) d)
  | inr (v, q) ↦ ground (arith, +ℤ_parts v d, -ℤ_parts min_ℤ64 d, -ℤ_parts max_ℤ64 d)
]

-- A change within the int64 range that is taken leaves a row that was in that range in it.
pub add_to_row-IsInt64 :
    (k : ℕ) (d : ℤ) (t t' : Table ℤ)
    → IsInt64 d
    → IsInt64 (value_of k t)
    → add_to_row k d t ≡ ok t'
    → IsInt64 (value_of k t')
unfolding add_to_row
add_to_row-IsInt64 k d t t' h r e =
    rw (value_of-add_to_row k k d t t' e refl)
      (row_takes-IsInt64 k d t h (ground arith) (ground arith) r)

-- A change, other than the least int64, whose result is in the int64 range is taken, and the row then
-- holds the result.
pub add_to_row_takes :
    (k : ℕ) (d : ℤ) (t : Table ℤ)
    → d ≢ min_ℤ64
    → IsInt64 (value_of k t +ℤ d)
    → add_to_row k d t ≡ ok (insert k (value_of k t +ℤ d) t)
unfolding add_to_row row_takes
add_to_row_takes k d t ne h = grind int_laws

pub amount_int64-some :
    (n : ℕ) {amt : ℕ} → amount_int64 n ≡ some amt → (amt ≡ n) × (0 < amt) × (amt ≤ max_int64)
unfolding amount_int64
amount_int64-some n e = ground arith

-- A wire amount that the ledger takes is read back from its row as it was.
pub stored_amount-amount_int64 :
    (n : ℕ) {amt : ℕ} → amount_int64 n ≡ some amt → stored_amount (pos amt) ≡ some n
unfolding amount_int64 stored_amount
stored_amount-amount_int64 n e = ground arith

-- ===== src/Prelude/Table.antt =====
-- A table of rows under a primary key, as an association list, and the sums of its columns.
-- Keys are texts that the program only compares; a text stands as a number, 0 for the empty one.
use anet_hub.Prelude.{
  ℕ, ◌≡◌, refl, ◌≢◌, ◌⊎◌, ⊤, Bool, true, false, Option, none, some, List, [], ◌∷◌, arith, ◌==◌,
  if◌then◌else◌,
}
use anet_hub.Prelude.Int.{ℤ, pos, ◌+ℤ◌, ◌≤ℤ◌, int_laws}

abbrev pub Table {ℓ} : Type ℓ → Type ℓ
Table V = List (ℕ × V)

module _ {ℓ} {V : Type ℓ} where
  abbrev pub lookup : ℕ → Table V → Option V
  lookup k [] = none
  lookup k (e ∷ d) = if k == e.0 then some e.1 else lookup k d

  abbrev pub contains : ℕ → Table V → Bool
  contains k d = elim (lookup k d) [ none ↦ false | some _ ↦ true ]

  -- The row under the key is replaced, or added at the end.
  abbrev pub insert : ℕ → V → Table V → Table V
  insert k v [] = (k, v) ∷ []
  insert k v (e ∷ d) = if k == e.0 then (k, v) ∷ d else e ∷ insert k v d

  abbrev pub erase : ℕ → Table V → Table V
  erase k [] = []
  erase k (e ∷ d) = let rest = erase k d in if k == e.0 then rest else e ∷ rest

  pub lookup-insert :
      (j k : ℕ) (v : V) (d : Table V)
      → lookup j (insert k v d) ≡ (if j == k then some v else lookup j d)
  lookup-insert j k v [] = refl
  lookup-insert j k v (e ∷ d) = ground (arith, lookup-insert j k v d)

  pub lookup-erase :
      (j k : ℕ) (d : Table V) → lookup j (erase k d) ≡ (if j == k then none else lookup j d)
  lookup-erase j k [] = ground arith
  lookup-erase j k (e ∷ d) = ground (arith, lookup-erase j k d)

-- COALESCE of the column under the key, 0 where there is no row.
abbrev pub value_of : ℕ → Table ℤ → ℤ
value_of k d = elim (lookup k d) [ none ↦ pos 0 | some v ↦ v ]

-- SUM of the column over the rows under other keys than `h`.
abbrev pub sum_except : ℕ → Table ℤ → ℤ
sum_except h [] = pos 0
sum_except h (e ∷ d) = (if h == e.0 then pos 0 else e.1) +ℤ sum_except h d

-- SUM of the column.
abbrev pub sum : Table ℤ → ℤ
sum [] = pos 0
sum (e ∷ d) = e.1 +ℤ sum d

pub sum_except-insert_self :
    (h : ℕ) (v : ℤ) (d : Table ℤ) → sum_except h (insert h v d) ≡ sum_except h d
sum_except-insert_self h v [] = grind int_laws
sum_except-insert_self h v (e ∷ d) = grind (int_laws, sum_except-insert_self h v d)

pub sum_except-insert_ne :
    (h k : ℕ) (v : ℤ) (d : Table ℤ)
    → h ≢ k
    → sum_except h (insert k v d) +ℤ value_of k d ≡ sum_except h d +ℤ v
sum_except-insert_ne h k v [] ne = grind int_laws
sum_except-insert_ne h k v (e ∷ d) ne = grind (int_laws, sum_except-insert_ne h k v d ne)

pub sum-insert : (k : ℕ) (v : ℤ) (d : Table ℤ) → sum (insert k v d) +ℤ value_of k d ≡ sum d +ℤ v
sum-insert k v [] = grind int_laws
sum-insert k v (e ∷ d) = grind (int_laws, sum-insert k v d)

-- No row under another key than `h` is negative.
abbrev pub NonNegExcept : ℕ → Table ℤ → Type 0
NonNegExcept h [] = ⊤
NonNegExcept h (e ∷ d) = ((h ≡ e.0) ⊎ (pos 0 ≤ℤ e.1)) × NonNegExcept h d

pub insert-NonNegExcept :
    (h k : ℕ) (v : ℤ) (d : Table ℤ)
    → NonNegExcept h d
    → (h ≡ k) ⊎ (pos 0 ≤ℤ v)
    → NonNegExcept h (insert k v d)
insert-NonNegExcept h k v [] n p = (p, tt)
insert-NonNegExcept h k v (e ∷ d) n p = ground (arith, insert-NonNegExcept h k v d n.1 p)

pub value_of_nonneg : (h k : ℕ) (d : Table ℤ) → NonNegExcept h d → h ≢ k → pos 0 ≤ℤ value_of k d
value_of_nonneg h k [] n ne = omega arith
value_of_nonneg h k (e ∷ d) n ne = ground (arith, value_of_nonneg h k d n.1 ne)

pub sum_except_nonneg : (h : ℕ) (d : Table ℤ) → NonNegExcept h d → pos 0 ≤ℤ sum_except h d
sum_except_nonneg h [] n = omega arith
sum_except_nonneg h (e ∷ d) n = grind (int_laws, sum_except_nonneg h d n.1)

pub value_of-le-sum_except :
    (h k : ℕ) (d : Table ℤ) → NonNegExcept h d → h ≢ k → value_of k d ≤ℤ sum_except h d
value_of-le-sum_except h k [] n ne = omega arith
value_of-le-sum_except h k (e ∷ d) n ne =
    grind (int_laws, sum_except_nonneg h d n.1, value_of-le-sum_except h k d n.1 ne)

-- Two accounts together hold at most what all accounts hold.
pub value_of_pair-le-sum_except :
    (h j k : ℕ) (d : Table ℤ)
    → NonNegExcept h d
    → h ≢ j
    → h ≢ k
    → j ≢ k
    → value_of j d +ℤ value_of k d ≤ℤ sum_except h d
value_of_pair-le-sum_except h j k [] n nj nk jk = omega int_laws
value_of_pair-le-sum_except h j k (e ∷ d) n nj nk jk = grind (
  int_laws,
  value_of-le-sum_except h j d n.1 nj,
  value_of-le-sum_except h k d n.1 nk,
  value_of_pair-le-sum_except h j k d n.1 nj nk jk,
)

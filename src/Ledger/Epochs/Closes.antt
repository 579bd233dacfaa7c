-- ===== src/Ledger/Epochs/Closes.antt =====
-- A ledger that adds up is published (internal/aghub/supply.go).
use anet_hub.Prelude.{
  ℕ, ◌+◌, ◌≡◌, ◌≢◌, refl, ap, ◌∙◌, ◌⊎◌, inl, inr, true, false, Option, some, List, [], ◌∷◌, ◌==◌,
  ◌||◌, not, Bool-cases, arith,
}
use anet_hub.Prelude.Int.{
  ℤ, pos, negsuc, pos_part, neg_part, ◌+ℤ◌, ◌-ℤ◌, ◌≤ℤ◌, ltb_ℤ, eqb_ℤ, int_laws,
}
use anet_hub.Prelude.Table.{Table, contains, value_of, sum_except, NonNegExcept}
use anet_hub.Ledger.State.{Ledger, Totals}
use anet_hub.Ledger.Core.{Core}
use anet_hub.Ledger.Issue.{utc_day}
use anet_hub.Ledger.Sound.{IsSound}
use anet_hub.Ledger.Run.{Run}
use anet_hub.Ledger.Run.Laws.{Run-IsSound}
use anet_hub.Ledger.Epochs.{
  Leaf, Tree, Epoch, Recorder, Published, Closing, publishes, balance_leaves, agent_leaves,
  leaves_of, supply_head, next_seq, prev_of, has_id, has_day, adds_up, draft, write_epoch,
  close_epoch, is_due_after, publish_due, supply, consistent,
}

eqb_ℤ-refl : (a b : ℤ) → a ≡ b → eqb_ℤ a b ≡ true
eqb_ℤ-refl a b e = rw e (ground arith)

-- The supply invariant that the operator reads holds in every run from a sound ledger, on a hub with
-- an identity.
pub Run-consistent :
    (core : Core) (skew hub t₀ : ℕ) (start : Ledger) (p : Published) {t : ℕ} {l : Ledger}
    → hub ≢ 0
    → IsSound hub start
    → Run core skew hub t₀ start t l
    → consistent (supply hub l p) ≡ true
unfolding consistent supply
Run-consistent core skew hub t₀ start p {t} {l} set s r =
    let b = (Run-IsSound core skew hub t₀ start set s r).backed in
    let row : value_of hub l.balances ≡ pos 0 -ℤ (l.totals.issued -ℤ l.totals.redeemed) =
      omega (int_laws, ap pos_part b.hub_row, ap neg_part b.hub_row) in
    rw (eqb_ℤ-refl _ _ b.add_up, eqb_ℤ-refl _ _ row) refl

abbrev pub total : List Leaf → ℕ
total [] = 0
total (x ∷ xs) = x.balance + total xs

leaf_row :
    (hub aid : ℕ) (v : ℤ) (d : Table ℤ) (xs : List Leaf)
    → balance_leaves hub d ≡ some xs
    → pos (total xs) ≡ sum_except hub d
    → (hub ≡ aid) ⊎ (pos 0 ≤ℤ v)
    → (ys : List Leaf) × (balance_leaves hub ((aid, v) ∷ d) ≡ some ys)
      × (pos (total ys) ≡ sum_except hub ((aid, v) ∷ d))
unfolding balance_leaves
leaf_row hub aid (pos n) d xs e t h = elim (Bool-cases (aid == hub)) [
  | inl own ↦ (xs, rw (own, e) refl, grind (int_laws, ap pos_part t, ap neg_part t))
  | inr other ↦ (
    record { aid = aid; balance = n } ∷ xs,
    rw (other, e) refl,
    grind (int_laws, ap pos_part t, ap neg_part t),
  )
]
leaf_row hub aid (negsuc n) d xs e t h = elim (Bool-cases (aid == hub)) [
  | inl own ↦ (xs, rw (own, e) refl, grind (int_laws, ap pos_part t, ap neg_part t))
  | inr other ↦ absurd (ground arith)
]

-- The leaves of a ledger without debt are there, and add up to the accounts.
balance_leaves_add_up :
    (hub : ℕ) (d : Table ℤ)
    → NonNegExcept hub d
    → (xs : List Leaf) × (balance_leaves hub d ≡ some xs) × (pos (total xs) ≡ sum_except hub d)
unfolding balance_leaves
balance_leaves_add_up hub [] n = ([], refl, refl)
balance_leaves_add_up hub (e ∷ d) n =
    let (xs, q, t) = balance_leaves_add_up hub d n.1 in leaf_row hub e.0 e.1 d xs q t n.0

agent_leaves_add_up :
    (hub : ℕ) (balances : Table ℤ) (agents : Table ℕ) (xs : List Leaf)
    → (ys : List Leaf) × (agent_leaves hub balances agents (some xs) ≡ some ys)
      × (total ys ≡ total xs)
unfolding agent_leaves
agent_leaves_add_up hub balances [] xs = (xs, refl, refl)
agent_leaves_add_up hub balances (e ∷ d) xs =
    let (ys, q, t) = agent_leaves_add_up hub balances d xs in
    elim (Bool-cases (e.0 == hub || contains e.0 balances)) [
      | inl has ↦ (ys, rw (has, q) refl, t)
      | inr without ↦
          (record { aid = e.0; balance = 0 } ∷ ys, rw (without, q) refl, omega (arith, t))
    ]

pub leaves_of_add_up :
    (hub : ℕ) (l : Ledger)
    → NonNegExcept hub l.balances
    → (xs : List Leaf) × (leaves_of hub l ≡ some xs) × (pos (total xs) ≡ sum_except hub l.balances)
unfolding leaves_of
leaves_of_add_up hub l n =
    let (xs, q, t) = balance_leaves_add_up hub l.balances n in
    let (ys, r, u) = agent_leaves_add_up hub l.balances l.agents xs in (ys, rw q r, rw u t)

-- What liabtree promises: a tree it builds states the sum of its leaves.
abbrev pub StatesSum : Recorder → Type 0
StatesSum rec =
    (xs : List Leaf) (day : ℤ) (t : Tree) → rec.build xs day ≡ some t → t.outstanding ≡ total xs

adds_up_sound :
    (hub : ℕ) (l : Ledger) (xs : List Leaf) (t : Tree)
    → IsSound hub l
    → t.outstanding ≡ total xs
    → pos (total xs) ≡ sum_except hub l.balances
    → (adds_up t (l.totals.issued -ℤ l.totals.redeemed) (value_of hub l.balances) ≡ true)
      × (pos t.outstanding ≡ l.totals.issued -ℤ l.totals.redeemed)
adds_up_sound hub l xs t s e u =
    let b = s.backed in
    let sum : pos t.outstanding ≡ l.totals.issued -ℤ l.totals.redeemed = rw e (u ∙ b.add_up) in
    let row : value_of hub l.balances ≡ pos 0 -ℤ (l.totals.issued -ℤ l.totals.redeemed) =
      omega (int_laws, ap pos_part b.hub_row, ap neg_part b.hub_row) in
    let out : not (ltb_ℤ (l.totals.issued -ℤ l.totals.redeemed) (pos 0)) ≡ true =
      rw (← sum) (ground arith) in
    (rw (out, eqb_ℤ-refl _ _ sum, eqb_ℤ-refl _ _ row) refl, sum)

unfoldable published_as : Epoch → Tree → ℕ → Totals → Published → Closing
published_as e t id k p =
    let e' : Epoch = record e { id = id } in
    publishes e' (record k { events_since_publish = 0; last_to_day = some e.to_day })
      (record { chain = e' ∷ p.chain; leaves = (e.to_day, t.entries) ∷ p.leaves })

write_epoch_lem :
    (sign : Epoch → Option ℕ) (e : Epoch) (t : Tree) (k : Totals) (p : Published) (id : ℕ)
    → sign e ≡ some id
    → has_id id p.chain ≡ false
    → write_epoch sign e t k p ≡ published_as e t id k p
unfolding write_epoch published_as
write_epoch_lem sign e t k p id signed new = rw (signed, new, write_epoch) refl

close_epoch_lem :
    (rec : Recorder) (sign : Epoch → Option ℕ) (hub now : ℕ) (from to : ℤ) (l : Ledger)
    (p : Published) (xs : List Leaf) (t : Tree)
    → leaves_of hub l ≡ some xs
    → rec.build xs to ≡ some t
    → adds_up t (l.totals.issued -ℤ l.totals.redeemed) (value_of hub l.balances) ≡ true
    → close_epoch rec sign hub now from to l p
      ≡ write_epoch sign
          (draft
            (next_seq (supply_head p.chain))
            (prev_of rec.genesis_prev (supply_head p.chain))
            from
            to
            t
            now)
          t
          l.totals
          p
unfolding close_epoch
close_epoch_lem rec sign hub now from to l p xs t leaves built fine =
    rw (leaves, built, fine, close_epoch) refl

-- A sound ledger's epoch closes. On a hub with an identity and a signing key, where an epoch up to
-- yesterday is due and none ends on that day, the leaves are read, their tree is built, trees state the
-- sum of their leaves, and the record is signed under a new id: the hub publishes an epoch that
-- follows the last day covered, runs to yesterday, and states exactly what was issued and not redeemed.
pub publish_due_closes :
    (rec : Recorder) (hub now : ℕ) (l : Ledger) (p : Published) (sign : Epoch → Option ℕ) (last : ℤ)
    (xs : List Leaf) (t : Tree) (id : ℕ)
    → hub ≢ 0
    → IsSound hub l
    → StatesSum rec
    → rec.sign ≡ some sign
    → l.totals.last_to_day ≡ some last
    → is_due_after (utc_day now -ℤ pos 1) last l.totals.events_since_publish ≡ true
    → has_day (utc_day now -ℤ pos 1) p.chain ≡ false
    → leaves_of hub l ≡ some xs
    → rec.build xs (utc_day now -ℤ pos 1) ≡ some t
    → sign (
        draft
          (next_seq (supply_head p.chain))
          (prev_of rec.genesis_prev (supply_head p.chain))
          (last +ℤ pos 1)
          (utc_day now -ℤ pos 1)
          t
          now)
      ≡ some id
    → has_id id p.chain ≡ false
    → (e : Epoch) × (k : Totals) × (p' : Published) × (publish_due rec hub now l p
        ≡ publishes e k p')
      × (e.from_day ≡ last +ℤ pos 1)
      × (e.to_day ≡ utc_day now -ℤ pos 1)
      × (pos e.outstanding ≡ l.totals.issued -ℤ l.totals.redeemed)
unfolding publish_due published_as close_epoch
publish_due_closes rec hub now l p sign last xs t id set s sums signs counted due day leaves built
      signed new =
    let (ys, q, u) = leaves_of_add_up hub l s.backed.no_debt in
    let same : ys ≡ xs = cc in
    let (fine, sum) =
      adds_up_sound hub l xs t s (sums xs (utc_day now -ℤ pos 1) t built) (rw (← same) u) in
    let named : (hub == 0) ≡ false = ground arith in
    let day' = utc_day now -ℤ pos 1 in
    let e' : Epoch =
      record (draft (next_seq (supply_head p.chain))
        (prev_of rec.genesis_prev (supply_head p.chain)) (last +ℤ pos 1) day' t now) { id = id } in
    (
      e',
      record l.totals { events_since_publish = 0; last_to_day = some day' },
      record { chain = e' ∷ p.chain; leaves = (day', t.entries) ∷ p.leaves },
      rw (signs, named, counted, due, day)
          (close_epoch_lem rec sign hub now (last +ℤ pos 1) day' l p xs t leaves built fine
            ∙ write_epoch_lem sign _ t l.totals p id signed new),
      refl,
      refl,
      sum,
    )

-- ===== src/Ledger/Issue/Keeps.antt =====
-- Issuing and the invariant (internal/aghub/facilitator.go creditTx, GrantCredit).
use anet_hub.Prelude.{
  ℕ, ◌≡◌, ◌≢◌, refl, sym, ap, ◌∙◌, inl, inr, true, arith, Bool-cases, ◌==◌, ◌&&◌, not,
  if◌then◌else◌, [], ◌∷◌, ◌++◌,
}
use anet_hub.Prelude.Int.{ℤ, pos, neg, pos_part, neg_part, ◌+ℤ◌, ◌-ℤ◌, ◌≤ℤ◌, ltb_ℤ, eqb_ℤ, int_laws}
use anet_hub.Prelude.Table.{Table, value_of, sum_except, NonNegExcept, value_of_nonneg}
use anet_hub.Ledger.State.{ok, Totals, Ledger, EntryReason, ◌>>=◌, >>=-eq-ok, fail_if-bind}
use anet_hub.Ledger.Rows.{add_to_row}
use anet_hub.Ledger.Rows.Bounds.{
  value_of-add_to_row, value_of-add_to_row_ne, sum_except-add_to_row_self, sum_except-add_to_row,
  add_to_row-NonNegExcept,
}
use anet_hub.Ledger.Issue.{
  supply_issued, supply_event, issuer_side, credit_tx, issue_tx, grant_credit, grant_reason,
  entry_of,
}
use anet_hub.Ledger.Issue.Events.{issued-supply_event}
use anet_hub.Ledger.Sound.{IsBacked, IsCovered, IsSound}

-- The arithmetic of an issuance.
issue_add_up : (s i i' r : ℤ) (amt : ℤ) → s ≡ i -ℤ r → i' ≡ i +ℤ amt → s +ℤ amt ≡ i' -ℤ r
issue_add_up s i i' r amt e f =
    omega (int_laws, ap pos_part e, ap neg_part e, ap pos_part f, ap neg_part f)

issue_hub_row :
    (b i i' r amt less : ℤ) → b ≡ r -ℤ i → i' ≡ i +ℤ amt → less ≡ pos 0 -ℤ amt → b +ℤ less ≡ r -ℤ i'
issue_hub_row b i i' r amt less e f g = omega (
  int_laws,
  ap pos_part e,
  ap neg_part e,
  ap pos_part f,
  ap neg_part f,
  ap pos_part g,
  ap neg_part g,
)

gains : (a d : ℤ) → pos 0 ≤ℤ a → pos 0 ≤ℤ d → pos 0 ≤ℤ a +ℤ d
gains a d h k = omega int_laws

pub neg-eq-sub : (n : ℕ) → neg n ≡ pos 0 -ℤ pos n
neg-eq-sub n = omega int_laws

-- Credit created for an account, with the hub's own row falling by it before or after.
module _ (h p now : ℕ) (amt less : ℤ) (t u v : Table ℤ) (k k' : Totals) (b : IsBacked h t k)
    (hp : h ≢ p) (gain : pos 0 ≤ℤ amt) (opposite : less ≡ pos 0 -ℤ amt)
    (event : supply_event supply_issued amt now k ≡ ok k') where
  issue-IsBacked :
      sum_except h v ≡ sum_except h t +ℤ amt
      → value_of h v ≡ value_of h t +ℤ less
      → NonNegExcept h v
      → IsBacked h v k'
  issue-IsBacked sum row debt =
      let (issued, redeemed, top) = issued-supply_event amt now k k' event in
      record {
        add_up = sum ∙ rw redeemed (issue_add_up _ k.issued _ k.redeemed amt b.add_up issued);
        hub_row =
            row
            ∙ rw redeemed
                (issue_hub_row _ k.issued _ k.redeemed amt less b.hub_row issued opposite);
        no_debt = debt;
        issued_max = top;
        redeemed_nonneg = rw redeemed b.redeemed_nonneg;
      }

  hub_first-IsBacked : add_to_row h less t ≡ ok u → add_to_row p amt u ≡ ok v → IsBacked h v k'
  hub_first-IsBacked spent received =
      let n = add_to_row-NonNegExcept h h less t u spent b.no_debt (inl refl) in
      issue-IsBacked
        (sum_except-add_to_row h p amt u v received hp
          ∙ ap (λ s. s +ℤ amt) (sum_except-add_to_row_self h less t u spent))
        (value_of-add_to_row_ne h p amt u v received hp
          ∙ value_of-add_to_row h h less t u spent refl)
        (add_to_row-NonNegExcept h p amt u v received n
          (inr (gains _ amt (value_of_nonneg h p u n hp) gain)))

  pub account_first-IsBacked :
      add_to_row p amt t ≡ ok u → add_to_row h less u ≡ ok v → IsBacked h v k'
  account_first-IsBacked received spent =
      let n =
        add_to_row-NonNegExcept h p amt t u received b.no_debt
          (inr (gains _ amt (value_of_nonneg h p t b.no_debt hp) gain)) in
      issue-IsBacked
        (sum_except-add_to_row_self h less u v spent
          ∙ sum_except-add_to_row h p amt t u received hp)
        (value_of-add_to_row h h less u v spent refl
          ∙ ap (λ s. s +ℤ less) (value_of-add_to_row_ne h p amt t u received hp))
        (add_to_row-NonNegExcept h h less u v spent n (inl refl))

pub issued-IsCovered :
    (amt : ℤ) (now : ℕ) (d : Table ℤ) (k k' : Totals)
    → IsCovered d k
    → supply_event supply_issued amt now k ≡ ok k'
    → IsCovered d k'
issued-IsCovered amt now d k k' c event =
    let (_, redeemed, _) = issued-supply_event amt now k k' event in
    record { due_nonneg = c.due_nonneg; due_bound = rw redeemed c.due_bound }

-- The issuer's side and the account's, in the order of the code.
credited-IsSound :
    (hub aid now : ℕ) (amount : ℤ) (why : EntryReason) (l m l' : Ledger)
    → aid ≢ hub
    → IsSound hub l
    → issuer_side hub amount why now l ≡ ok m
    → (b : Table ℤ) → add_to_row aid amount m.balances ≡ ok b
    → l'.balances ≡ b
    → l'.totals ≡ m.totals
    → l'.due ≡ m.due
    → IsSound hub l'
unfolding issuer_side
credited-IsSound hub aid now amount why l m l' away s e b received eb ek ed =
    let (positive, e0) = fail_if-bind (ltb_ℤ amount (pos 0)) _ _ e in
    let (u, spent, e1) = >>=-eq-ok (add_to_row hub (pos 0 -ℤ amount) l.balances) _ e0 in
    let (k, event, e2) = >>=-eq-ok (supply_event supply_issued amount now l.totals) _ e1 in
    let mb : m.balances ≡ u = ground arith in
    let mk : m.totals ≡ k = ground arith in
    let md : m.due ≡ l.due = ground arith in
    let got : add_to_row aid amount u ≡ ok b = rw (← mb) received in
    record {
      backed =
          rw (eb, ek, mk)
            (hub_first-IsBacked hub aid now amount (pos 0 -ℤ amount) l.balances u b l.totals k
              s.backed (λ q. away (sym q)) (ground arith) refl event spent got);
      covered = rw (ed, ek, md, mk) (issued-IsCovered amount now l.due l.totals k s.covered event);
    }

credit_tx-IsSound :
    (hub aid now : ℕ) (amount : ℤ) (why : EntryReason) (l l' : Ledger)
    → hub ≢ 0
    → aid ≢ hub
    → IsSound hub l
    → credit_tx hub aid amount why now l ≡ ok l'
    → IsSound hub l'
unfolding credit_tx
credit_tx-IsSound hub aid now amount why l l' set away s e =
    elim (Bool-cases (eqb_ℤ amount (pos 0))) [
      | inl nothing ↦ let same : l' ≡ l = ground arith in rw same s
      | inr some_amount ↦
          let issuing : (not (hub == 0) && not (aid == hub)) ≡ true = ground arith in
          let steps : ((if not (hub == 0) && not (aid == hub)
                  then issuer_side hub amount why now l
                  else ok l)
                >>= λ m. add_to_row aid amount m.balances >>= λ b. ok (record m {
                  balances = b;
                  entries = m.entries ++ (entry_of aid amount why now ∷ []);
                }))
              ≡ ok l' =
            ground arith in
          let (m, issuer, e1) =
            >>=-eq-ok
              (if not (hub == 0) && not (aid == hub)
                then issuer_side hub amount why now l
                else ok l)
              _ steps in
          let (b, received, e2) = >>=-eq-ok (add_to_row aid amount m.balances) _ e1 in
          credited-IsSound hub aid now amount why l m l' away s (ground arith) b received
            (ground arith) (ground arith) (ground arith)
    ]

-- An issuance to another account than the hub's own row keeps the ledger sound.
pub issue_tx-IsSound :
    (hub aid now : ℕ) (amount : ℤ) (why : EntryReason) (l l' : Ledger)
    → hub ≢ 0
    → aid ≢ hub
    → IsSound hub l
    → issue_tx hub aid amount why now l ≡ ok l'
    → IsSound hub l'
unfolding issue_tx
issue_tx-IsSound hub aid now amount why l l' set away s e =
    credit_tx-IsSound hub aid now amount why l l' set away s (ground arith)

-- It changes no key history.
credit_tx-agents :
    (hub aid now : ℕ) (amount : ℤ) (why : EntryReason) (l l' : Ledger)
    → credit_tx hub aid amount why now l ≡ ok l'
    → l'.agents ≡ l.agents
unfolding credit_tx issuer_side
credit_tx-agents hub aid now amount why l l' e = ground arith

pub issue_tx-agents :
    (hub aid now : ℕ) (amount : ℤ) (why : EntryReason) (l l' : Ledger)
    → issue_tx hub aid amount why now l ≡ ok l'
    → l'.agents ≡ l.agents
unfolding issue_tx
issue_tx-agents hub aid now amount why l l' e =
    credit_tx-agents hub aid now amount why l l' (ground arith)

-- A grant that went through, to another account than the hub's own row, keeps the ledger sound.
pub grant_credit-IsSound :
    (hub aid now : ℕ) (amount : ℤ) (why : EntryReason) (l l' : Ledger)
    → hub ≢ 0
    → aid ≢ hub
    → IsSound hub l
    → grant_credit hub aid amount why now l ≡ ok l'
    → IsSound hub l'
unfolding grant_credit issue_tx
grant_credit-IsSound hub aid now amount why l l' set away s e =
    credit_tx-IsSound hub aid now amount (grant_reason why) l l' set away s (ground arith)

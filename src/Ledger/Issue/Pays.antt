-- ===== src/Ledger/Issue/Pays.antt =====
-- What an issuance brings an account (internal/aghub/facilitator.go creditTx, issueTx).
use anet_hub.Prelude.{
  ℕ, ◌≡◌, ◌≢◌, refl, ap, ◌∙◌, inl, inr, false, arith, Bool-cases, ◌==◌, ◌&&◌, not, if◌then◌else◌,
  [], ◌∷◌, ◌++◌,
}
use anet_hub.Prelude.Int.{ℤ, pos, ◌+ℤ◌, ◌-ℤ◌, ltb_ℤ, leb_ℤ, eqb_ℤ}
use anet_hub.Prelude.Table.{value_of}
use anet_hub.Ledger.State.{ok, Ledger, EntryReason, ◌>>=◌, >>=-eq-ok, fail_if-bind}
use anet_hub.Ledger.Rows.{add_to_row}
use anet_hub.Ledger.Rows.Bounds.{value_of-add_to_row, value_of-add_to_row_ne}
use anet_hub.Ledger.Issue.{supply_issued, supply_event, issuer_side, credit_tx, issue_tx, entry_of}

issuer_side-balance :
    (hub aid now : ℕ) (amount : ℤ) (why : EntryReason) (l m : Ledger)
    → aid ≢ hub
    → issuer_side hub amount why now l ≡ ok m
    → value_of aid m.balances ≡ value_of aid l.balances
unfolding issuer_side
issuer_side-balance hub aid now amount why l m away e =
    let (positive, e0) = fail_if-bind (ltb_ℤ amount (pos 0)) _ _ e in
    let (u, spent, e1) = >>=-eq-ok (add_to_row hub (pos 0 -ℤ amount) l.balances) _ e0 in
    let (k, event, e2) = >>=-eq-ok (supply_event supply_issued amount now l.totals) _ e1 in
    let mb : m.balances ≡ u = ground arith in
    rw mb (value_of-add_to_row_ne aid hub (pos 0 -ℤ amount) l.balances u spent away)

-- The account gains the amount.
pub issue_tx-balance :
    (hub aid now : ℕ) (amount : ℤ) (why : EntryReason) (l l' : Ledger)
    → aid ≢ hub
    → issue_tx hub aid amount why now l ≡ ok l'
    → value_of aid l'.balances ≡ value_of aid l.balances +ℤ amount
unfolding issue_tx credit_tx
issue_tx-balance hub aid now amount why l l' away e =
    let (positive, e0) = fail_if-bind (leb_ℤ amount (pos 0)) _ _ e in
    let some_amount : eqb_ℤ amount (pos 0) ≡ false = ground arith in
    let e1 : ((if not (hub == 0) && not (aid == hub)
            then issuer_side hub amount why now l
            else ok l)
          >>= λ m. add_to_row aid amount m.balances >>= λ b. ok (record m {
            balances = b;
            entries = m.entries ++ (entry_of aid amount why now ∷ []);
          }))
        ≡ ok l' =
      ground arith in
    let (m, issuer, e2) =
      >>=-eq-ok
        (if not (hub == 0) && not (aid == hub) then issuer_side hub amount why now l else ok l) _
        e1 in
    let (b, received, e3) = >>=-eq-ok (add_to_row aid amount m.balances) _ e2 in
    let lb : l'.balances ≡ b = ground arith in
    let before : value_of aid m.balances ≡ value_of aid l.balances =
      elim (Bool-cases (not (hub == 0) && not (aid == hub))) [
        | inl issuing ↦
            issuer_side-balance hub aid now amount why l m away (rw (← issuer, issuing) refl)
        | inr own ↦ let same : ok l ≡ ok m = rw (← issuer, own) refl in ground (arith, same)
      ] in
    rw lb
      (value_of-add_to_row aid aid amount m.balances b received refl ∙ ap (λ v. v +ℤ amount) before)

-- ===== src/Admission/Paid.antt =====
-- The credit that admission pays (internal/aghub/admission.go payListGrantTx, maybeGrantTrial).
use anet_hub.Prelude.{
  ℕ, ◌≡◌, ◌≢◌, refl, inl, inr, Bool, true, false, Option, none, some, Bool-cases, Option-cases,
  arith,
}
use anet_hub.Prelude.Int.{ℤ, pos, ◌+ℤ◌, int_laws}
use anet_hub.Prelude.Table.{lookup, insert, lookup-insert, value_of}
use anet_hub.Ledger.State.{ok, Ledger}
use anet_hub.Ledger.Issue.{issue_tx, unix_milli}
use anet_hub.Ledger.Issue.Pays.{issue_tx-balance}
use anet_hub.Registry.{
  Account, Admission, Store, Outcome, done, in_ledger, ◌>>=◌, >>=-eq-done, in_ledger-eq-done,
  done_store,
}
use anet_hub.Admission.{
  pay_list_grant_tx, pay_admission, is_owed, paid_admission, reason_admission_grant,
  reason_trial_credit, trial_credits,
}
use anet_hub.Admission.Trials.{grant_trial_tx, is_earned, pay_trial, granted_now}

plus_nothing : (a : ℤ) → a ≡ a +ℤ pos 0
plus_nothing a = omega int_laws

done_value :
    {A : Type 0} {x y : A} {s t : Store}
    → ◌≡◌ {A = Outcome (A × Store)} (done (x, s)) (done (y, t))
    → y ≡ x
done_value h = ground (arith, h)

not_owed_again :
    (hub aid later : ℕ) (a : Admission) (s : Store)
    → lookup aid s.admitted ≡ some a
    → is_owed a ≡ false
    → pay_list_grant_tx hub aid later s ≡ done (pos 0, s)
unfolding pay_list_grant_tx
not_owed_again hub aid later a s row settled = rw (row, settled, pay_list_grant_tx) refl

unlisted_again :
    (hub aid later : ℕ) (s : Store)
    → lookup aid s.admitted ≡ none
    → pay_list_grant_tx hub aid later s ≡ done (pos 0, s)
unfolding pay_list_grant_tx
unlisted_again hub aid later s absent = rw (absent, pay_list_grant_tx) refl

-- A list's grant that goes through brings the account what it says, nothing where nothing is owed,
-- and the next one, at any time, pays nothing, as long as the hub's own row is not the account's.
pub pay_list_grant_tx_once :
    (hub aid now later : ℕ) (s s' : Store) (n : ℤ)
    → aid ≢ hub
    → pay_list_grant_tx hub aid now s ≡ done (n, s')
    → (value_of aid s'.ledger.balances ≡ value_of aid s.ledger.balances +ℤ n)
      × (pay_list_grant_tx hub aid later s' ≡ done (pos 0, s'))
unfolding pay_list_grant_tx
pay_list_grant_tx_once hub aid now later s s' n away e =
    elim (Option-cases (lookup aid s.admitted)) [
      | inl absent ↦
          let h : ◌≡◌ {A = Outcome (ℤ × Store)} (done (pos 0, s)) (done (n, s')) =
            rw (← e, absent, pay_list_grant_tx) refl in
          let same : s' ≡ s = done_store h in
          let none_paid : n ≡ pos 0 = done_value h in
          (
            rw (same, none_paid) (plus_nothing (value_of aid s.ledger.balances)),
            rw same (unlisted_again hub aid later s absent),
          )
      | inr (a, row) ↦ elim (Bool-cases (is_owed a)) [
        | inl owed ↦
            let h : pay_admission hub aid now a s ≡ done (n, s') =
              rw (← e, row, owed, pay_list_grant_tx) refl in
            let (l, paid, rest) =
              >>=-eq-done (in_ledger (issue_tx hub aid a.grant reason_admission_grant now s.ledger))
                _ h in
            let t = record s { ledger = l; admitted = insert aid (paid_admission a) s.admitted } in
            let same : s' ≡ t = done_store rest in
            let all_paid : n ≡ a.grant = done_value rest in
            (
              rw (same, all_paid)
                  (issue_tx-balance hub aid now a.grant reason_admission_grant s.ledger l away (
                    in_ledger-eq-done (issue_tx hub aid a.grant reason_admission_grant now s.ledger)
                      paid)),
              rw same (
                  not_owed_again hub aid later (paid_admission a) t
                    (ground (arith, lookup-insert aid aid (paid_admission a) s.admitted))
                    (ground arith)),
            )
        | inr settled ↦
            let h : ◌≡◌ {A = Outcome (ℤ × Store)} (done (pos 0, s)) (done (n, s')) =
              rw (← e, row, settled, pay_list_grant_tx) refl in
            let same : s' ≡ s = done_store h in
            let none_paid : n ≡ pos 0 = done_value h in
            (
              rw (same, none_paid) (plus_nothing (value_of aid s.ledger.balances)),
              rw same (not_owed_again hub aid later a s row settled),
            )
      ]
    ]

earned_row : (ms : ℤ) (o : Option Account) → is_earned ms o ≡ true → (a : Account) × (o ≡ some a)
earned_row ms none e = absurd cc
earned_row ms (some a) e = (a, refl)

granted-not_earned :
    (hub aid later : ℕ) (a : Account) (s : Store)
    → lookup aid s.accounts ≡ some (granted_now a)
    → grant_trial_tx hub aid later s ≡ done (false, s)
unfolding grant_trial_tx
granted-not_earned hub aid later a s row = rw (row, grant_trial_tx) refl

-- What the payment has done, where the account has a row.
pay_trial-eq :
    (hub aid now : ℕ) (a : Account) (s t : Store)
    → lookup aid s.accounts ≡ some a
    → pay_trial hub aid now s ≡ done t
    → (l : Ledger) × (issue_tx hub aid trial_credits reason_trial_credit now s.ledger ≡ ok l)
      × (t ≡ record s { ledger = l; accounts = insert aid (granted_now a) s.accounts })
pay_trial-eq hub aid now a s t row pays =
    let (l, issued, last) =
      >>=-eq-done (in_ledger (issue_tx hub aid trial_credits reason_trial_credit now s.ledger)) _
        pays in
    (
      l,
      in_ledger-eq-done (issue_tx hub aid trial_credits reason_trial_credit now s.ledger) issued,
      ground (arith, last, row),
    )

trial_paid :
    (hub aid now : ℕ) (s s' : Store)
    → is_earned (unix_milli now) (lookup aid s.accounts) ≡ true
    → grant_trial_tx hub aid now s ≡ done (true, s')
    → pay_trial hub aid now s ≡ done s'
unfolding grant_trial_tx
trial_paid hub aid now s s' earned e =
    let h : (pay_trial hub aid now s >>= λ t. done (true, t)) ≡ done (true, s') =
      rw (← e, earned, grant_trial_tx) refl in
    let (t, pays, rest) = >>=-eq-done (pay_trial hub aid now s) _ h in
    let same : s' ≡ t = done_store rest in rw same pays

-- A trial credit that is paid brings the account 20 credits, and it is not paid again at any time
-- on what it leaves, as long as the hub's own row is not the account's.
pub grant_trial_tx_once :
    (hub aid now later : ℕ) (s s' : Store)
    → aid ≢ hub
    → grant_trial_tx hub aid now s ≡ done (true, s')
    → (value_of aid s'.ledger.balances ≡ value_of aid s.ledger.balances +ℤ pos 20)
      × (grant_trial_tx hub aid later s' ≡ done (false, s'))
unfolding grant_trial_tx
grant_trial_tx_once hub aid now later s s' away e =
    elim (Bool-cases (is_earned (unix_milli now) (lookup aid s.accounts))) [
      | inl earned ↦
          let (a, row) = earned_row (unix_milli now) (lookup aid s.accounts) earned in
          let (l, issued, same) =
            pay_trial-eq hub aid now a s s' row (trial_paid hub aid now s s' earned e) in
          let v = record s { ledger = l; accounts = insert aid (granted_now a) s.accounts } in
          (
            rw same (
                issue_tx-balance hub aid now trial_credits reason_trial_credit s.ledger l away
                  issued),
            rw same (
                granted-not_earned hub aid later a v
                  (ground (arith, lookup-insert aid aid (granted_now a) s.accounts))),
          )
      | inr unearned ↦
          let h : ◌≡◌ {A = Outcome (Bool × Store)} (done (false, s)) (done (true, s')) =
            rw (← e, unearned, grant_trial_tx) refl in
          absurd (ground (arith, h))
    ]

-- ===== src/Hub/Trails.antt =====
-- Admissions as sequences of the changes (internal/aghub/admission.go).
use anet_hub.Prelude.{
  ℕ, ◌≡◌, ◌≢◌, refl, inl, inr, Bool, false, [], ◌∷◌, Bool-cases, Option-cases, ◌==◌, if◌then◌else◌,
  arith, not,
}
use anet_hub.Prelude.Int.{ℤ, pos, ◌≤ℤ◌, ◌+ℤ◌, ltb_ℤ, int_laws}
use anet_hub.Prelude.Table.{Table, lookup, insert, contains}
use anet_hub.Ledger.Issue.{issue_tx, unix_milli}
use anet_hub.Registry.{
  Via, via_list, via_window, via_open, via_registered, window_filled, Account, Window, Store, Kels,
  Outcome, fails, done, in_ledger, >>=-eq-done, stop_if-bind, in_ledger-eq-done, done_store,
}
use anet_hub.Admission.{
  AdmitResult, admit_result, AdmissionWrite, list_row, put_listed, paid_before, vouched,
  admit_registered, from_list, on_probation, write_via, pay_list_grant_tx, pay_admission, is_owed,
  paid_admission, change_account, admit_tx, admit, write_listed, take_place, write_admission_tx,
  reason_admission_grant,
}
use anet_hub.Hub.Changes.{
  keeps, moves_windows, issues, Trail, here, one_change, Trail-append, PlacesWithin,
}

pub change_account-keeps :
    (kels : Kels) (hub aid : ℕ) (f : Account → Account) (s : Store)
    → Trail kels hub s (change_account aid f s)
change_account-keeps kels hub aid f s = elim (Option-cases (lookup aid s.accounts)) [
  | inl absent ↦ rw (absent, change_account) here
  | inr (a, present) ↦ rw (present, change_account) (one_change (keeps refl refl refl))
]

pay_list_grant_tx-Trail :
    (kels : Kels) (hub aid now : ℕ) (s s' : Store) (n : ℤ)
    → aid ≢ hub
    → pay_list_grant_tx hub aid now s ≡ done (n, s')
    → Trail kels hub s s'
unfolding pay_list_grant_tx
pay_list_grant_tx-Trail kels hub aid now s s' n away e =
    elim (Option-cases (lookup aid s.admitted)) [
      | inl absent ↦
          let h : ◌≡◌ {A = Outcome (ℤ × Store)} (done (pos 0, s)) (done (n, s')) =
            rw (← e, absent, pay_list_grant_tx) refl in
          let same : s' ≡ s = done_store h in rw same here
      | inr (a, present) ↦ elim (Bool-cases (is_owed a)) [
        | inl owed ↦
            let h : pay_admission hub aid now a s ≡ done (n, s') =
              rw (← e, present, owed, pay_list_grant_tx) refl in
            let (l, paid, rest) =
              >>=-eq-done (in_ledger (issue_tx hub aid a.grant reason_admission_grant now s.ledger))
                _ h in
            let same : s'
                ≡ record s { ledger = l; admitted = insert aid (paid_admission a) s.admitted } =
              done_store rest in
            rw same (
              one_change (
                issues aid a.grant reason_admission_grant now away
                  (in_ledger-eq-done (issue_tx hub aid a.grant reason_admission_grant now s.ledger)
                    paid)
                  refl refl))
        | inr settled ↦
            let h : ◌≡◌ {A = Outcome (ℤ × Store)} (done (pos 0, s)) (done (n, s')) =
              rw (← e, present, settled, pay_list_grant_tx) refl in
            let same : s' ≡ s = done_store h in rw same here
      ]
    ]

pub admit_tx-Trail :
    (kels : Kels) (hub aid : ℕ) (grant : ℤ) (label : ℕ) (label_set : Bool) (now : ℕ) (s s' : Store)
    (r : AdmitResult)
    → aid ≢ hub
    → admit_tx hub aid grant label label_set now s ≡ done (r, s')
    → Trail kels hub s s'
unfolding admit_tx
admit_tx-Trail kels hub aid grant label label_set now s s' r away e =
    let a = list_row grant label label_set now (lookup aid s.admitted) in
    let t = put_listed aid a s in
    let listed : Trail kels hub s t = one_change (keeps refl refl refl) in
    elim (Bool-cases (contains aid s.ledger.agents)) [
      | inl here_already ↦
          let u = change_account aid (vouched (unix_milli now)) t in
          let h : admit_registered hub aid now (paid_before grant (lookup aid s.admitted)) t
              ≡ done (r, s') =
            rw (← e, here_already, admit_tx) refl in
          let (paid, pay, rest) = >>=-eq-done (pay_list_grant_tx hub aid now u) _ h in
          let same : s' ≡ paid.1 = done_store rest in
          rw same (
            Trail-append listed (
              Trail-append (change_account-keeps kels hub aid (vouched (unix_milli now)) t)
                (pay_list_grant_tx-Trail kels hub aid now u paid.1 paid.0 away pay)))
      | inr unknown ↦
          let already = paid_before grant (lookup aid s.admitted) in
          let h : ◌≡◌ {A = Outcome (AdmitResult × Store)}
              (done (admit_result false (pos 0) (if a.granted then pos 0 else a.grant) already, t))
              (done (r, s')) =
            rw (← e, unknown, admit_tx) refl in
          let same : s' ≡ t = done_store h in rw same listed
    ]

pub admit-Trail :
    (kels : Kels) (hub aid : ℕ) (grant : ℤ) (label : ℕ) (label_set : Bool) (now : ℕ) (s s' : Store)
    (r : AdmitResult)
    → aid ≢ hub
    → admit kels hub aid grant label label_set now s ≡ done (r, s')
    → Trail kels hub s s'
unfolding admit
admit-Trail kels hub aid grant label label_set now s s' r away e =
    let (valid, e1) = stop_if-bind (not (kels.valid_aid aid)) _ _ e in
    let (not_negative, e2) = stop_if-bind (ltb_ℤ grant (pos 0)) _ _ e1 in
    admit_tx-Trail kels hub aid grant label label_set now s s' r away e2

pub insert-PlacesWithin :
    (id : ℕ) (w : Window) (ws : Table Window)
    → w.used ≤ℤ w.max_places
    → PlacesWithin ws
    → PlacesWithin (insert id w ws)
insert-PlacesWithin id w [] fits p = (fits, tt)
insert-PlacesWithin id w (e ∷ d) fits (p, ps) = elim (Bool-cases (id == e.0)) [
  | inl own ↦ rw own (fits, ps)
  | inr other ↦ rw other (p, insert-PlacesWithin id w d fits ps)
]

pub take_place-Trail :
    (kels : Kels) (hub id : ℕ) (s s' : Store) → take_place id s ≡ done s' → Trail kels hub s s'
take_place-Trail kels hub id s s' e = elim (Option-cases (lookup id s.windows)) [
  | inl absent ↦
      let h : take_place id s ≡ fails window_filled = rw (absent, take_place) refl in
      absurd (ground (arith, h, e))
  | inr (w, present) ↦ elim (Bool-cases (ltb_ℤ w.used w.max_places)) [
    | inl free ↦
        let w' = record w { used = w.used +ℤ pos 1 } in
        let h : take_place id s ≡ done (record s { windows = insert id w' s.windows }) =
          rw (present, free, take_place) refl in
        let same : s' ≡ record s { windows = insert id w' s.windows } = ground (arith, h, e) in
        rw same (
          one_change (
            moves_windows refl (insert-PlacesWithin id w' s.windows (grind (int_laws, free))) refl))
    | inr full ↦
        let h : take_place id s ≡ fails window_filled = rw (present, full, take_place) refl in
        absurd (ground (arith, h, e))
  ]
]

write_listed-Trail :
    (kels : Kels) (hub aid now : ℕ) (s s' : Store)
    → aid ≢ hub
    → write_listed hub aid now s ≡ done s'
    → Trail kels hub s s'
write_listed-Trail kels hub aid now s s' away e =
    let (listed, e1) = stop_if-bind (not (contains aid s.admitted)) _ _ e in
    let t = change_account aid from_list s in
    let (paid, pay, rest) = >>=-eq-done (pay_list_grant_tx hub aid now t) _ e1 in
    let same : s' ≡ paid.1 = ground (arith, rest) in
    rw same (
      Trail-append (change_account-keeps kels hub aid from_list s)
        (pay_list_grant_tx-Trail kels hub aid now t paid.1 paid.0 away pay))

write_via-Trail :
    (kels : Kels) (hub aid now : ℕ) (via : Via) (adm : AdmissionWrite) (s s' : Store)
    → aid ≢ hub
    → write_via hub aid via adm now s ≡ done s'
    → Trail kels hub s s'
write_via-Trail kels hub aid now via_list adm s s' away e =
    write_listed-Trail kels hub aid now s s' away e
write_via-Trail kels hub aid now via_window adm s s' away e =
    let (t, taken, rest) = >>=-eq-done (take_place adm.window s) _ e in
    let same : s' ≡ change_account aid (on_probation via_window adm.now) t = ground (arith, rest) in
    rw same (
      Trail-append (take_place-Trail kels hub adm.window s t taken)
        (change_account-keeps kels hub aid (on_probation via_window adm.now) t))
write_via-Trail kels hub aid now via_open adm s s' away e =
    let same : s' ≡ change_account aid (on_probation via_open adm.now) s = ground (arith, e) in
    rw same (change_account-keeps kels hub aid (on_probation via_open adm.now) s)
write_via-Trail kels hub aid now via_registered adm s s' away e = absurd cc

pub write_admission_tx-Trail :
    (kels : Kels) (hub aid now : ℕ) (adm : AdmissionWrite) (s s' : Store)
    → aid ≢ hub
    → write_admission_tx hub aid adm now s ≡ done s'
    → Trail kels hub s s'
unfolding write_admission_tx
write_admission_tx-Trail kels hub aid now adm s s' away e =
    write_via-Trail kels hub aid now adm.via adm s s' away e

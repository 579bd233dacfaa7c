-- ===== src/Hub/Rows.antt =====
-- Registrations, trial credit and windows as sequences of the changes (internal/aghub/aghub.go
-- putAgent, admission.go).
use anet_hub.Prelude.{
  ℕ, ◌≡◌, ◌≢◌, refl, ◌∙◌, inl, inr, Bool, true, false, Option, none, some, List, Bool-cases,
  Option-cases, if◌then◌else◌, arith,
}
use anet_hub.Prelude.Table.{lookup, contains}
use anet_hub.Ledger.Issue.{issue_tx, unix_milli}
use anet_hub.Registry.{
  Store, Kels, Outcome, fails, done, in_ledger, ◌>>=◌, >>=-eq-done, stop_if-bind, in_ledger-eq-done,
  done_store, kel_not_extended, kel_undecodable, deregistered_meanwhile,
}
use anet_hub.Registry.Departs.{grows}
use anet_hub.Admission.{
  AdmissionWrite, change_account, write_admission_tx, trial_credits, reason_trial_credit,
}
use anet_hub.Admission.Trials.{grant_trial_tx, is_earned, pay_trial, granted_now}
use anet_hub.Registration.{
  Entry, put_agent, register_agent, over_bounds, check_extends, known_kel, known_raw, decoded,
  if_extends, write_row, admit_entry, is_registered_before, note_change, release_tx, is_empty,
}
use anet_hub.Hub.Changes.{
  keeps, issues, writes_row, Trail, here, one_change, Trail-append, ExtendsHeld,
}
use anet_hub.Hub.Trails.{change_account-keeps, write_admission_tx-Trail}

-- What was held, decoded, is extended by the events.
if_extends-eq :
    (kels : Kels) (events held : List ℕ) (longer : Bool)
    → if_extends kels events (some held) ≡ done longer
    → kels.extends held events ≡ true
if_extends-eq kels events held longer e = elim (Bool-cases (kels.extends held events)) [
  | inl extends ↦ extends
  | inr forked ↦
      let h : fails kel_not_extended ≡ done longer = rw (← e, forked, if_extends) refl in
      absurd (ground (arith, h))
]

check_extends-ExtendsHeld :
    (kels : Kels) (e : Entry) (events : List ℕ) (s : Store) (longer : Bool)
    → e.events ≡ some events
    → kels.decode e.kel ≡ some events
    → check_extends kels e s ≡ done longer
    → ExtendsHeld kels e.aid e.kel s
unfolding known_kel
check_extends-ExtendsHeld kels e events s longer given stored passed held h =
    let k : (decoded kels (known_raw e.aid s) >>= if_extends kels events) ≡ done longer =
      rw (← passed, given, check_extends, known_kel) refl in
    elim (Option-cases (kels.decode held)) [
      | inl broken ↦
          let f : fails kel_undecodable ≡ done longer = rw (← k, h, broken, decoded) refl in
          absurd (ground (arith, f))
      | inr (old, decodes) ↦
          let f : if_extends kels events (some old) ≡ done longer =
            rw (← k, h, decodes, decoded) refl in
          rw (grows, decodes, stored) (if_extends-eq kels events old longer f)
    ]

admit_entry-Trail :
    (kels : Kels) (hub aid : ℕ) (existed : Bool) (adm : Option AdmissionWrite) (now : ℕ)
    (s s' : Store) (wrote : Bool)
    → aid ≢ hub
    → admit_entry hub aid existed adm now s ≡ done (wrote, s')
    → Trail kels hub s s'
admit_entry-Trail kels hub aid existed none now s s' wrote away e =
    let same : s' ≡ s = done_store e in rw same here
admit_entry-Trail kels hub aid true (some adm) now s s' wrote away e =
    elim (Bool-cases (is_registered_before adm.via)) [
      | inl before ↦
          let h : ◌≡◌ {A = Outcome (Bool × Store)} (done (false, s)) (done (wrote, s')) =
            rw (← e, before, admit_entry) refl in
          let same : s' ≡ s = done_store h in rw same here
      | inr gated ↦
          let h : ◌≡◌ {A = Outcome (Bool × Store)} (done (false, s)) (done (wrote, s')) =
            rw (← e, gated, admit_entry) refl in
          let same : s' ≡ s = done_store h in rw same here
    ]
admit_entry-Trail kels hub aid false (some adm) now s s' wrote away e =
    elim (Bool-cases (is_registered_before adm.via)) [
      | inl before ↦
          let h : ◌≡◌ {A = Outcome (Bool × Store)} (fails deregistered_meanwhile)
              (done (wrote, s')) =
            rw (← e, before, admit_entry) refl in
          absurd (ground (arith, h))
      | inr gated ↦
          let h : (write_admission_tx hub aid adm now s >>= λ t. done (true, t))
              ≡ done (wrote, s') =
            rw (← e, gated, admit_entry) refl in
          let (t, written, rest) = >>=-eq-done (write_admission_tx hub aid adm now s) _ h in
          let same : s' ≡ t = done_store rest in
          rw same (write_admission_tx-Trail kels hub aid now adm s t away written)
    ]

-- The tables that the changes are about are left alone.
note_change-Trail :
    (kels : Kels) (hub : ℕ) (e : Entry) (held : Option ℕ) (s s' : Store)
    → note_change kels e held s ≡ done s'
    → Trail kels hub s s'
note_change-Trail kels hub e held s s' passed =
    one_change (keeps (ground (arith, passed)) (ground (arith, passed)) (ground (arith, passed)))

put_agent-Trail :
    (kels : Kels) (hub : ℕ) (e : Entry) (events : List ℕ) (adm : Option AdmissionWrite) (now : ℕ)
    (s s' : Store) (wrote : Bool)
    → e.aid ≢ hub
    → e.events ≡ some events
    → kels.decode e.kel ≡ some events
    → put_agent kels hub e adm now s ≡ done (wrote, s')
    → Trail kels hub s s'
unfolding put_agent
put_agent-Trail kels hub e events adm now s s' wrote away given stored passed =
    let (fits, e1) = stop_if-bind (over_bounds e.caps) _ _ passed in
    let (longer, extends, e2) = >>=-eq-done (check_extends kels e s) _ e1 in
    let t = write_row e now s in
    let (w, admitted, e3) =
      >>=-eq-done (admit_entry hub e.aid (contains e.aid s.ledger.agents) adm now t) _ e2 in
    let (u, noted, e4) = >>=-eq-done (note_change kels e (lookup e.aid s.ledger.agents) w.1) _ e3 in
    let same : s' ≡ (if longer then release_tx e.aid u else u) = done_store e4 in
    let written : Trail kels hub s t = one_change (
      writes_row e.aid e.kel (check_extends-ExtendsHeld kels e events s longer given stored extends)
        refl refl refl) in
    let released : Trail kels hub u (if longer then release_tx e.aid u else u) =
      one_change (keeps (ground arith) (ground arith) (ground arith)) in
    rw same (
      Trail-append
        (Trail-append written (
          admit_entry-Trail kels hub e.aid (contains e.aid s.ledger.agents) adm now t w.1 w.0 away
            admitted))
        (Trail-append (note_change-Trail kels hub e (lookup e.aid s.ledger.agents) w.1 u noted)
          released))

pub register_agent-Trail :
    (kels : Kels) (hub : ℕ) (e : Entry) (events : List ℕ) (adm : Option AdmissionWrite) (now : ℕ)
    (s s' : Store) (wrote : Bool)
    → e.aid ≢ hub
    → e.events ≡ some events
    → kels.decode e.kel ≡ some events
    → register_agent kels hub e adm now s ≡ done (wrote, s')
    → Trail kels hub s s'
unfolding register_agent
register_agent-Trail kels hub e events adm now s s' wrote away given stored passed =
    let (some_events, e1) = stop_if-bind (is_empty e.events) _ _ passed in
    put_agent-Trail kels hub e events adm now s s' wrote away given stored e1

pub grant_trial_tx-Trail :
    (kels : Kels) (hub aid now : ℕ) (s s' : Store) (paid : Bool)
    → aid ≢ hub
    → grant_trial_tx hub aid now s ≡ done (paid, s')
    → Trail kels hub s s'
unfolding grant_trial_tx
grant_trial_tx-Trail kels hub aid now s s' paid away e =
    elim (Bool-cases (is_earned (unix_milli now) (lookup aid s.accounts))) [
      | inl earned ↦
          let h : (pay_trial hub aid now s >>= λ t. done (true, t)) ≡ done (paid, s') =
            rw (← e, earned, grant_trial_tx) refl in
          let (t, pays, rest) = >>=-eq-done (pay_trial hub aid now s) _ h in
          let (l, issued, last) =
            >>=-eq-done
              (in_ledger (issue_tx hub aid trial_credits reason_trial_credit now s.ledger)) _
              pays in
          let u = record s { ledger = l } in
          let end_ : t ≡ change_account aid granted_now u = ground (arith, last) in
          let same : s' ≡ change_account aid granted_now u = done_store rest ∙ end_ in
          rw same (
            Trail-append
              (one_change (
                issues aid trial_credits reason_trial_credit now away
                  (in_ledger-eq-done
                    (issue_tx hub aid trial_credits reason_trial_credit now s.ledger) issued)
                  refl refl))
              (change_account-keeps kels hub aid granted_now u))
      | inr unearned ↦
          let h : ◌≡◌ {A = Outcome (Bool × Store)} (done (false, s)) (done (paid, s')) =
            rw (← e, unearned, grant_trial_tx) refl in
          let same : s' ≡ s = done_store h in rw same here
    ]

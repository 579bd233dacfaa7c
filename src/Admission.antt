-- ===== src/Admission.antt =====
-- internal/aghub/admission.go: the admission list, the mode, and what a first registration writes.
-- `hub` is the hub's AID, `now` its clock in nanoseconds.
pub mod Windows
pub mod Trials
pub mod Gate
pub mod Door
pub mod Paid
mod Tests
use anet_hub.Prelude.{
  ℕ, ◌+◌, Bool, true, false, Option, none, some, List, [], ◌∷◌, ◌&&◌, not, if◌then◌else◌,
}
use anet_hub.Prelude.Int.{ℤ, pos, ltb_ℤ, ◌+ℤ◌}
use anet_hub.Prelude.Table.{lookup, insert, erase, contains}
use anet_hub.Ledger.State.{EntryReason, text}
use anet_hub.Ledger.Issue.{issue_tx, unix_milli}
use anet_hub.Registry.{
  Via, via_list, via_window, via_open, via_registered, Trial, trial_none, trial_pending, Account,
  Admission, Mode, mode_closed, mode_open, mode_other, Store, Kels, Outcome, fails, done, stop_if,
  in_ledger, ◌>>=◌, ◌>>◌, bad_aid, negative_grant, unknown_mode, not_listed, window_filled,
  not_admitted, unknown_route, not_registered,
}
use anet_hub.Registry.Departs.{dereg_revoked, deregister_tx, DeregResult, after_dereg, commit}

-- admissionMode
abbrev pub mode_of : Option Mode → Mode
mode_of (some mode_open) = mode_open
mode_of _ = mode_closed

abbrev set_mode : Mode → Store → Outcome Store
set_mode (mode_other t) s = fails unknown_mode
set_mode m s = done (record s { mode = some m })

unfoldable pub set_admission_mode : Mode → Store → Outcome Store
set_admission_mode m s = set_mode m s

-- ProbationPeriod in ms, and TrialCredits.
abbrev pub probation_period : ℤ
probation_period = pos 259200000

abbrev pub trial_credits : ℤ
trial_credits = pos 20

-- The two reasons, as texts.
abbrev pub reason_admission_grant : EntryReason
reason_admission_grant = text 1

abbrev pub reason_trial_credit : EntryReason
reason_trial_credit = text 2

abbrev pub paid_admission : Admission → Admission
paid_admission a = record a { granted = true }

abbrev pub is_owed : Admission → Bool
is_owed a = ltb_ℤ (pos 0) a.grant && not a.granted

abbrev pub pay_admission : ℕ → ℕ → ℕ → Admission → Store → Outcome (ℤ × Store)
pay_admission hub aid now a s = do
  l ← in_ledger (issue_tx hub aid a.grant reason_admission_grant now s.ledger)
  done (a.grant, record s { ledger = l; admitted = insert aid (paid_admission a) s.admitted })

unfoldable pub pay_list_grant_tx : ℕ → ℕ → ℕ → Store → Outcome (ℤ × Store)
pay_list_grant_tx hub aid now s = elim (lookup aid s.admitted) [
  | none ↦ done (pos 0, s)
  | some a ↦ if is_owed a then pay_admission hub aid now a s else done (pos 0, s)
]

pub record AdmitResult : Type 0 where
  pub registered : Bool
  pub paid : ℤ
  pub grant : ℤ
  pub already_granted : Bool

abbrev pub listed_row : Admission → ℤ → ℕ → Bool → Admission
listed_row a grant label label_set = record {
  label = if label_set then label else a.label;
  grant = if ltb_ℤ (pos 0) grant && not a.granted then grant else a.grant;
  granted = a.granted;
  created_at = a.created_at;
}

-- The row of the list that admitTx leaves, and whether the grant asked for was paid before.
abbrev pub list_row : ℤ → ℕ → Bool → ℕ → Option Admission → Admission
list_row grant label label_set now none = record {
  label = label;
  grant = grant;
  granted = false;
  created_at = unix_milli now;
}
list_row grant label label_set now (some a) = listed_row a grant label label_set

abbrev pub paid_before : ℤ → Option Admission → Bool
paid_before grant none = false
paid_before grant (some a) = ltb_ℤ (pos 0) grant && a.granted

-- CASE WHEN probation_until > ms THEN ms, and the trial of an account that is vouched for.
abbrev pub end_probation : ℤ → Option ℤ → Option ℤ
end_probation ms none = none
end_probation ms (some u) = if ltb_ℤ ms u then some ms else some u

abbrev pub end_trial : Trial → Trial
end_trial trial_pending = trial_none
end_trial t = t

abbrev pub vouched : ℤ → Account → Account
vouched ms a = record a {
  admitted_via = via_list;
  probation_until = end_probation ms a.probation_until;
  trial = end_trial a.trial;
}

-- UPDATE agent WHERE aid=?
abbrev pub change_account : ℕ → (Account → Account) → Store → Store
change_account aid f s = elim (lookup aid s.accounts) [
  | none ↦ s
  | some a ↦ record s { accounts = insert aid (f a) s.accounts }
]

abbrev pub put_listed : ℕ → Admission → Store → Store
put_listed aid a s = record s { admitted = insert aid a s.admitted }

abbrev pub admit_result : Bool → ℤ → ℤ → Bool → AdmitResult
admit_result registered paid grant already = record {
  registered = registered;
  paid = paid;
  grant = grant;
  already_granted = already;
}

abbrev pub admit_registered : ℕ → ℕ → ℕ → Bool → Store → Outcome (AdmitResult × Store)
admit_registered hub aid now already s = do
  paid ← pay_list_grant_tx hub aid now (change_account aid (vouched (unix_milli now)) s)
  done (admit_result true paid.0 (pos 0) already, paid.1)

unfoldable pub admit_tx : ℕ → ℕ → ℤ → ℕ → Bool → ℕ → Store → Outcome (AdmitResult × Store)
admit_tx hub aid grant label label_set now s =
    let a = list_row grant label label_set now (lookup aid s.admitted) in
    let already = paid_before grant (lookup aid s.admitted) in
    let s' = put_listed aid a s in
    if contains aid s.ledger.agents
    then admit_registered hub aid now already s'
    else done (admit_result false (pos 0) (if a.granted then pos 0 else a.grant) already, s')

unfoldable pub admit : Kels → ℕ → ℕ → ℤ → ℕ → Bool → ℕ → Store → Outcome (AdmitResult × Store)
admit kels hub aid grant label label_set now s = do
  stop_if (not (kels.valid_aid aid)) bad_aid
  stop_if (ltb_ℤ grant (pos 0)) negative_grant
  admit_tx hub aid grant label label_set now s

abbrev counts : AdmitResult → ℕ
counts r = if r.registered then 1 else 0

-- AdmitFile's transaction, over the distinct AIDs of the file.
unfoldable pub admit_all : ℕ → List ℕ → ℤ → ℕ → Bool → ℕ → Store → Outcome (ℕ × Store)
admit_all hub [] grant label label_set now s = done (0, s)
admit_all hub (aid ∷ aids) grant label label_set now s = do
  first ← admit_tx hub aid grant label label_set now s
  rest ← admit_all hub aids grant label label_set now first.1
  done (counts first.0 + rest.0, rest.1)

pub record RevokeResult : Type 0 where
  pub registered : Bool
  pub balance : ℤ

abbrev pub unlist : ℕ → Store → Outcome (RevokeResult × Store)
unlist aid s =
    if contains aid s.admitted
    then done (
      record { registered = false; balance = pos 0 },
      record s { admitted = erase aid s.admitted },
    )
    else fails not_listed

abbrev pub or_unlist : ℕ → Store → Outcome (DeregResult × Store) → Outcome (RevokeResult × Store)
or_unlist aid s (done (r, s')) = done (record { registered = true; balance = r.balance }, s')
or_unlist aid s (fails not_registered) = unlist aid s
or_unlist aid s (fails failure) = fails failure

abbrev pub finish_revoke : Bool → ℕ → Outcome RevokeResult × Store → Outcome RevokeResult × Store
finish_revoke in_process aid (fails failure, s) = (fails failure, s)
finish_revoke in_process aid (done r, s) =
    (done r, if r.registered then after_dereg in_process aid s else s)

unfoldable pub revoke_admission : Kels → Bool → ℕ → ℕ → Store → Outcome RevokeResult × Store
revoke_admission kels in_process aid now s =
    if kels.valid_aid aid
    then finish_revoke in_process aid
        (commit s (or_unlist aid s (deregister_tx kels dereg_revoked aid now s)))
    else (fails bad_aid, s)

-- What the first registration of an AID writes beside its row.
pub record AdmissionWrite : Type 0 where
  pub via : Via
  pub window : ℕ
  pub now : ℕ

abbrev pub from_list : Account → Account
from_list a = record a { admitted_via = via_list; probation_until = none; trial = trial_none }

abbrev pub on_probation : Via → ℕ → Account → Account
on_probation via now a = record a {
  admitted_via = via;
  probation_until = some (unix_milli now +ℤ probation_period);
  trial = trial_pending;
}

abbrev pub write_listed : ℕ → ℕ → ℕ → Store → Outcome Store
write_listed hub aid now s = do
  stop_if (not (contains aid s.admitted)) not_admitted
  paid ← pay_list_grant_tx hub aid now (change_account aid from_list s)
  done paid.1

-- UPDATE admission_window SET used = used + 1 WHERE id=? AND used < max
abbrev pub take_place : ℕ → Store → Outcome Store
take_place id s = elim (lookup id s.windows) [
  | none ↦ fails window_filled
  | some w ↦
      if ltb_ℤ w.used w.max_places
      then done (record s { windows = insert id (record w { used = w.used +ℤ pos 1 }) s.windows })
      else fails window_filled
]

abbrev pub write_via : ℕ → ℕ → Via → AdmissionWrite → ℕ → Store → Outcome Store
write_via hub aid via_list adm now s = write_listed hub aid now s
write_via hub aid via_window adm now s = do
  s' ← take_place adm.window s
  done (change_account aid (on_probation via_window adm.now) s')
write_via hub aid via_open adm now s = done (change_account aid (on_probation via_open adm.now) s)
write_via hub aid via_registered adm now s = fails unknown_route

unfoldable pub write_admission_tx : ℕ → ℕ → AdmissionWrite → ℕ → Store → Outcome Store
write_admission_tx hub aid adm now s = write_via hub aid adm.via adm now s

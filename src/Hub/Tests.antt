-- ===== src/Hub/Tests.antt =====
-- Registrations, departures and the gate at work.
use anet_hub.Prelude.{
  ℕ, ◌≡◌, ◌≢◌, refl, Bool, true, false, none, some, List, [], ◌∷◌, ◌==◌, leb, arith,
}
use anet_hub.Prelude.Int.{pos, ◌+ℤ◌, ◌-ℤ◌, int_laws}
use anet_hub.Prelude.Table.{value_of}
use anet_hub.Ledger.State.{Ledger}
use anet_hub.Ledger.Issue.{issue_tx, credit_tx, issuer_side, supply_event}
use anet_hub.Ledger.Rows.{add_to_row, issuance_room, row_takes}
use anet_hub.Ledger.Sound.{IsSound}
use anet_hub.Registry.{Store, Kels, Outcome, fails, done, via_list, via_window, Window, Admission}
use anet_hub.Registry.Departs.{DeregResult, dereg_self, deregister, deregister_tx, write_tombstone}
use anet_hub.Registry.Departs.Laws.{IsGone, deregister_tx-IsGone}
use anet_hub.Admission.{AdmissionWrite, pay_list_grant_tx, write_admission_tx}
use anet_hub.Admission.Trials.{grant_trial_tx}
use anet_hub.Admission.Paid.{pay_list_grant_tx_once, grant_trial_tx_once}
use anet_hub.Registration.{Entry, put_agent, register_agent, over_bounds, known_kel, known_raw}
use anet_hub.Registration.Laws.{EnteredBy, put_agent-EnteredBy}
use anet_hub.Admission.Gate.{Hashes, new_gate, check_pow, reserve_window}
use anet_hub.Admission.Windows.{open_window}
use anet_hub.Admission.Door.{Request, admission_gate}
use anet_hub.Registration.Flow.{refused_later, wrote_row, register}
use anet_hub.Registration.Flow.Returns.{IsReturned, register-IsReturned}
use anet_hub.Hub.{registers, departs, Run, here, next}
use anet_hub.Hub.Changes.{PlacesWithin, HoldsOn, ExtendsOn}
use anet_hub.Hub.Laws.{Run-ledger-IsSound, Run-PlacesWithin, Run-HoldsOn}

-- A key history of one event stands for its number, and a later one extends it.
abbrev first_le : List ℕ → List ℕ → Bool
first_le (a ∷ xs) (b ∷ ys) = leb a b
first_le _ _ = false

abbrev kels : Kels
kels = record {
  decode = λ k. some (k ∷ []);
  extends = first_le;
  seq_of = λ e. e;
  keys_seq = λ k. some k;
  valid_aid = λ aid. true;
}

kels-ExtendsOn : ExtendsOn kels
kels-ExtendsOn = record { extends_on = λ a b c p q. ground (arith, p, q) }

abbrev books : Ledger
books = record {
  agents = [];
  balances = [];
  entries = [];
  settled = [];
  guards = [];
  due = [];
  owed = [];
  cleared = [];
  hub_cleared = [];
  first_verify = [];
  redemptions = [];
  totals = record {
    issued = pos 0;
    redeemed = pos 0;
    events_since_publish = 0;
    last_to_day = none;
  };
}

abbrev listed_two : Admission
listed_two = record { label = 0; grant = pos 5; granted = false; created_at = pos 1 }

abbrev window_one : Window
window_one = record {
  opens_at = pos 0;
  closes_at = pos 600000000;
  max_places = pos 2;
  used = pos 1;
  label = 0;
}

-- AID 2 is on the list for 5 credits, and a window is open.
abbrev start : Store
start = record {
  ledger = books;
  accounts = [];
  rows = λ t. [];
  withdrawn = [];
  admitted = (2, listed_two) ∷ [];
  windows = (1, window_one) ∷ [];
  last_window = 1;
  mode = none;
  tombstones = [];
  quotas = [];
  dereg_events = [];
  kel_changes = 0;
  restoring = false;
  reviewed = λ aid. false;
}

abbrev entry : ℕ → Entry
entry aid = record {
  aid = aid;
  name = 0;
  caps = record { declared = 4; trimmed = 4; size = 3 } ∷ [];
  kel = 3;
  events = some (3 ∷ []);
}

abbrev by_list : AdmissionWrite
by_list = record { via = via_list; window = 0; now = 1000000000 }

abbrev by_place : AdmissionWrite
by_place = record { via = via_window; window = 1; now = 1000000000 }

abbrev stored : {A : Type 0} → Outcome (A × Store) → Store
stored (done (a, s)) = s
stored (fails e) = start

abbrev registered : Store
registered = stored (register_agent kels 9 (entry 2) (some by_list) 1000000000 start)

abbrev placed : Store
placed = stored (put_agent kels 9 (entry 3) (some by_place) 1000000000 start)

abbrev departed : Store
departed = (deregister kels false dereg_self 2 2000000000 registered).1

registers_two :
    register_agent kels 9 (entry 2) (some by_list) 1000000000 start ≡ done (true, registered)
unfolding register_agent put_agent over_bounds known_kel write_admission_tx pay_list_grant_tx
    issue_tx credit_tx issuer_side supply_event add_to_row issuance_room ◌-ℤ◌ row_takes
registers_two = refl

grant_paid : value_of 2 registered.ledger.balances ≡ pos 5
unfolding register_agent put_agent over_bounds known_kel write_admission_tx pay_list_grant_tx
    issue_tx credit_tx issuer_side supply_event add_to_row issuance_room ◌-ℤ◌ ◌+ℤ◌ row_takes
grant_paid = refl

known_two : known_raw 2 registered ≡ some 3
unfolding register_agent put_agent over_bounds known_kel write_admission_tx pay_list_grant_tx
    issue_tx credit_tx issuer_side supply_event add_to_row issuance_room ◌-ℤ◌ row_takes
known_two = refl

two_runs : Run kels 9 start departed
two_runs =
    next 2000000000 departed
      (next 1000000000 registered here
        (registers (entry 2) (3 ∷ []) (some by_list) true (omega arith) refl refl registers_two))
      (departs false dereg_self 2 refl)

then_departs : Run kels 9 registered departed
then_departs = next 2000000000 departed here (departs false dereg_self 2 refl)

books-IsSound : IsSound 9 books
books-IsSound = record {
  backed = record {
    add_up = omega int_laws;
    hub_row = omega int_laws;
    no_debt = tt;
    issued_max = omega arith;
    redeemed_nonneg = omega arith;
  };
  covered = record { due_nonneg = tt; due_bound = omega arith };
}

Run-ledger-IsSound_example : IsSound 9 departed.ledger
Run-ledger-IsSound_example = Run-ledger-IsSound kels 9 (omega arith) two_runs books-IsSound

start-PlacesWithin : PlacesWithin start.windows
start-PlacesWithin = (omega arith, tt)

Run-PlacesWithin_example : PlacesWithin departed.windows
Run-PlacesWithin_example = Run-PlacesWithin kels 9 two_runs start-PlacesWithin

Run-HoldsOn_example : HoldsOn kels 2 3 departed
Run-HoldsOn_example = Run-HoldsOn kels 9 2 3 kels-ExtendsOn then_departs known_two

places_three : put_agent kels 9 (entry 3) (some by_place) 1000000000 start ≡ done (true, placed)
unfolding put_agent over_bounds known_kel write_admission_tx
places_three = refl

put_agent-EnteredBy_example : EnteredBy via_window 3 by_place start placed
put_agent-EnteredBy_example =
    put_agent-EnteredBy kels 9 (entry 3) by_place 1000000000 start placed true refl places_three

abbrev granted : Store
granted = stored (pay_list_grant_tx 9 2 1000000000 start)

grants_five : pay_list_grant_tx 9 2 1000000000 start ≡ done (pos 5, granted)
unfolding pay_list_grant_tx issue_tx credit_tx issuer_side supply_event add_to_row issuance_room
    ◌-ℤ◌ row_takes
grants_five = refl

pay_list_grant_tx_once_example :
    (value_of 2 granted.ledger.balances ≡ value_of 2 start.ledger.balances +ℤ pos 5)
    × (pay_list_grant_tx 9 2 2000000000 granted ≡ done (pos 0, granted))
pay_list_grant_tx_once_example =
    pay_list_grant_tx_once 9 2 1000000000 2000000000 start granted (pos 5) (omega arith) grants_five

-- 73 hours later.
abbrev tried : Store
tried = stored (grant_trial_tx 9 3 262801000000000 placed)

pays_trial : grant_trial_tx 9 3 262801000000000 placed ≡ done (true, tried)
unfolding grant_trial_tx issue_tx credit_tx issuer_side supply_event add_to_row issuance_room
    put_agent over_bounds known_kel write_admission_tx ◌-ℤ◌ ◌+ℤ◌ row_takes
pays_trial = refl

grant_trial_tx_once_example :
    (value_of 3 tried.ledger.balances ≡ value_of 3 placed.ledger.balances +ℤ pos 20)
    × (grant_trial_tx 9 3 262802000000000 tried ≡ done (false, tried))
grant_trial_tx_once_example =
    grant_trial_tx_once 9 3 262801000000000 262802000000000 placed tried (omega arith) pays_trial

abbrev gone : Store
gone = stored (deregister_tx kels dereg_self 2 2000000000 registered)

abbrev told : DeregResult
told = record { undelivered = 0; balance = pos 5 }

leaves_two : deregister_tx kels dereg_self 2 2000000000 registered ≡ done (told, gone)
unfolding deregister_tx write_tombstone register_agent put_agent over_bounds known_kel
    write_admission_tx pay_list_grant_tx issue_tx credit_tx issuer_side supply_event add_to_row
    issuance_room ◌-ℤ◌ ◌+ℤ◌ row_takes
leaves_two = refl

deregister_tx-IsGone_example : IsGone dereg_self 2 2000000000 registered gone told
deregister_tx-IsGone_example =
    deregister_tx-IsGone kels dereg_self 2 2000000000 registered gone told leaves_two

-- The window has a free place, the work is good, and a later check refuses.
abbrev some_hashes : Hashes
some_hashes = record {
  mac = λ key kind v b a. b;
  seed = λ h. h;
  hour_of = λ ms. 0;
  pow_holds = λ aid seed nonce. nonce == 7;
}

abbrev knock : Request
knock = record { aid = 3; check_only = false; pow_seed = some 0; pow_nonce = 7; address = none }

refused_knock :
    (register kels some_hashes 4 9 true false knock (entry 3) 1000000000 start start new_gate).0.0
    ≡ refused_later
unfolding register admission_gate open_window check_pow reserve_window ◌+ℤ◌
refused_knock = refl

not_registered_knock :
    (register kels some_hashes 4 9 true false knock (entry 3) 1000000000 start start new_gate).0.0
    ≢ wrote_row true
not_registered_knock e = absurd (ground (arith, e, refused_knock))

register-IsReturned_example :
    IsReturned 4 1000000000 new_gate
      (register kels some_hashes 4 9 true false knock (entry 3) 1000000000 start start new_gate).1
register-IsReturned_example =
    register-IsReturned kels some_hashes 4 9 true false knock (entry 3) 1000000000 start start
      new_gate (ground arith) not_registered_knock

-- ===== src/Ledger/Run/Tests.antt =====
-- Runs of the ledger, and the theorems at them.
use anet_hub.Prelude.{ℕ, ◌≡◌, refl, false, none, some, [], ◌∷◌, arith}
use anet_hub.Prelude.Int.{neg, ℤ, pos, negsuc, leb_ℤ, ◌+ℤ◌, ◌-ℤ◌}
use anet_hub.Ledger.State.{Receipt, Ledger, ok, text, EntryReason}
use anet_hub.Ledger.Rows.{add_to_row, row_takes, amount_int64, issuance_room}
use anet_hub.Ledger.Issue.{unix_milli, supply_event, issuer_side, credit_tx, issue_tx, grant_credit}
use anet_hub.Ledger.Sound.{IsSound}
use anet_hub.Ledger.Settle.{
  banks_here, sign_receipt, guard_key, take_guard, move_balances, move_credit, settle_tx,
  settled_now, settle_auth,
}
use anet_hub.Ledger.Settle.Once.{repeated}
use anet_hub.Ledger.Clear.{
  in_clear_window, clear_tx, clear_amount, clear_from_peer, discharge_due, reduce_owed, settle_owed,
}
use anet_hub.Ledger.Payment.{
  implausible_envelope, implausible_signature, last_key, vetted, auth_window, parse_auth,
  verify_signed, verified_auth, check_terms, check_requirements,
}
use anet_hub.Ledger.Facilitator.{settled_kept_after, settle_vetted, settle_with_requirements}
use anet_hub.Ledger.Facilitator.Doors.{OnlyFirstVerify, RefusesExpired}
use anet_hub.Ledger.Facilitator.Spent.{FixesWindow}
use anet_hub.Ledger.Redeem.{Reference}
use anet_hub.Ledger.Janitor.{prune, prune_ledger}
use anet_hub.Ledger.Run.{here, next, settle, janitor}
use anet_hub.Ledger.Run.Laws.{Run-IsSound, settled_never_again}
use anet_hub.Ledger.Run.Repeats.{settled_answered_again}
use anet_hub.Ledger.Run.Cleared.{clear_from_peer_once}
use anet_hub.Ledger.Tests.{
  pay, window_id, born, test_core, book, book-IsSound, paid, pay_success, pay_fresh, order, terms,
}

abbrev peer_receipt : Receipt
peer_receipt = record {
  auth_id = 70;
  payer = 30;
  pay_to = 2;
  amount = 5;
  network = 4;
  settle_at = pos 40;
}

test_core-RefusesExpired : RefusesExpired test_core
test_core-RefusesExpired a kel t late q = ground arith

window_id-injective : (x y : ℤ) (id : ℕ) → window_id x ≡ some id → window_id y ≡ some id → x ≡ y
window_id-injective (pos a) (pos b) id e f = cc
window_id-injective (negsuc a) y id e f = cc
window_id-injective (pos a) (negsuc b) id e f = cc

test_core-FixesWindow : FixesWindow test_core
test_core-FixesWindow a b id e f = window_id-injective a.not_after b.not_after id e f

Run-IsSound_example : IsSound 1 (
    prune_ledger 90000000
      (settle_with_requirements test_core none 1 50000000 (some order) (some terms) book).1)
Run-IsSound_example = Run-IsSound test_core 0 1 0 book (omega arith) book-IsSound (
    next 90000000
      (prune_ledger 90000000
        (settle_with_requirements test_core none 1 50000000 (some order) (some terms) book).1)
      (next 50000000
        (settle_with_requirements test_core none 1 50000000 (some order) (some terms) book).1 here
        (omega arith) (settle (some order) (some terms) refl))
      (omega arith) (janitor refl))

-- The payment is presented again after the janitor has run.
abbrev paid_later : Ledger
paid_later = prune_ledger 90000000 paid

order_presents : verified_auth test_core 1 order paid_later ≡ vetted pay 100 born
unfolding verified_auth implausible_envelope implausible_signature last_key parse_auth auth_window
    verify_signed prune_ledger settle_auth amount_int64 guard_key sign_receipt settle_tx take_guard
    move_credit banks_here move_balances add_to_row row_takes settled_now ◌+ℤ◌ ◌-ℤ◌ neg
order_presents = refl

settled_never_again_example :
    OnlyFirstVerify paid_later
      (settle_vetted test_core 1 95000000 order terms 0
        (verified_auth test_core 1 order paid_later)
        paid_later).1
settled_never_again_example =
    settled_never_again test_core 0 1 50000000 0 0 pay 100 book 95000000 order terms
      test_core-RefusesExpired test_core-FixesWindow refl pay_success pay_fresh
      (next 90000000 paid_later here (omega arith) (janitor refl)) (omega arith)
      (λ auth kel id' e. ground (arith, order_presents))

order_meets : check_requirements test_core order pay terms ≡ none
unfolding check_requirements check_terms amount_int64
order_meets = refl

paid_later_young : leb_ℤ pay.not_after (unix_milli 90000000 -ℤ settled_kept_after) ≡ false
unfolding ◌-ℤ◌
paid_later_young = refl

-- At the ms 950, long after the window.
settled_answered_again_example :
    settle_vetted test_core 1 950000000 order terms 0
      (verified_auth test_core 1 order paid_later)
      paid_later
    ≡ (repeated (settle_auth test_core 1 50000000 pay 100 0 book).0, paid_later)
settled_answered_again_example =
    settled_answered_again test_core 0 1 50000000 pay 100 0 book 950000000 order terms refl
      pay_success pay_fresh (next 90000000 paid_later here (omega arith) (janitor refl))
      paid_later_young order_presents order_meets

abbrev invoice : Reference
invoice = record { text = 12; bytes = 3; interaction_id = 13 }

abbrev cleared_now : Ledger
cleared_now = record book {
  cleared =
      (70, record { peer_aid = 9; pay_to = 2; amount = pos 5; at = 50000000; settle_at = pos 40 })
      ∷ [];
  balances = (1, negsuc 54) ∷ (2, pos 55) ∷ [];
  owed = (9, pos 5) ∷ [];
  totals = record {
    issued = pos 55;
    redeemed = pos 0;
    events_since_publish = 2;
    last_to_day = some (negsuc 0);
  };
  entries =
      record { aid = 2; delta = pos 5; reason = text 70; at = 50000000 }
      ∷ record { aid = 1; delta = negsuc 4; reason = text 70; at = 50000000 }
      ∷ [];
}

clears : clear_from_peer test_core 0 1 50000000 9 [] (some peer_receipt) book ≡ ok cleared_now
unfolding clear_from_peer clear_amount clear_tx in_clear_window amount_int64 issuance_room
    add_to_row row_takes supply_event ◌+ℤ◌ ◌-ℤ◌ neg
clears = refl

abbrev granted_now : Ledger
granted_now = record book {
  balances = (1, negsuc 54) ∷ (2, pos 50) ∷ (3, pos 5) ∷ [];
  totals = record {
    issued = pos 55;
    redeemed = pos 0;
    events_since_publish = 2;
    last_to_day = some (negsuc 0);
  };
  entries =
      record { aid = 1; delta = negsuc 4; reason = EntryReason.issued_for (text 14); at = 50000000 }
      ∷ record { aid = 3; delta = pos 5; reason = text 14; at = 50000000 }
      ∷ [];
}

grants : grant_credit 1 3 (pos 5) (text 14) 50000000 book ≡ ok granted_now
unfolding grant_credit issue_tx credit_tx issuer_side issuance_room add_to_row row_takes
    supply_event ◌+ℤ◌ ◌-ℤ◌
grants = refl

-- A payment of 20 was forwarded to the peer 9, and the peer owes this hub 6.
abbrev between : Ledger
between = record book {
  balances = (1, negsuc 29) ∷ (2, pos 30) ∷ [];
  due = (9, pos 20) ∷ [];
  owed = (9, pos 6) ∷ [];
  totals = record {
    issued = pos 50;
    redeemed = pos 20;
    events_since_publish = 2;
    last_to_day = none;
  };
}

between-IsSound : IsSound 1 between
unfolding ◌+ℤ◌ ◌-ℤ◌
between-IsSound = record {
  backed = record {
    add_up = refl;
    hub_row = refl;
    no_debt = ground arith;
    issued_max = omega arith;
    redeemed_nonneg = omega arith;
  };
  covered = record { due_nonneg = ground arith; due_bound = omega arith };
}

discharges : discharge_due 9 (pos 8) between ≡ ok (record between { due = (9, pos 12) ∷ [] })
unfolding discharge_due ◌+ℤ◌ ◌-ℤ◌
discharges = refl

-- The peer's statement that it has discharged 5 of what it owes.
abbrev statement : Receipt
statement = record peer_receipt { payer = 9; pay_to = 1 }

abbrev stated : Ledger
stated = record between { hub_cleared = (70, (9, pos 5)) ∷ []; owed = (9, pos 1) ∷ [] }

states : settle_owed test_core 1 9 [] (some statement) between ≡ ok stated
unfolding settle_owed reduce_owed amount_int64 ◌+ℤ◌ ◌-ℤ◌
states = refl

-- The peer repeats its receipt after the janitor has run twice.
abbrev cleared_later : Ledger
cleared_later = prune_ledger 65000000 (prune_ledger 60000000 cleared_now)

clears_again :
    clear_from_peer test_core 0 1 70000000 9 [] (some peer_receipt) cleared_later ≡ ok cleared_later
unfolding clear_from_peer clear_amount amount_int64 prune_ledger prune ◌-ℤ◌
clears_again = refl

clear_from_peer_once_example : cleared_later ≡ cleared_later
clear_from_peer_once_example =
    clear_from_peer_once test_core 0 1 50000000 9 9 [] [] peer_receipt book cleared_now 70000000
      cleared_later refl clears
      (next 65000000 cleared_later
        (next 60000000 (prune_ledger 60000000 cleared_now) here (omega arith) (janitor refl))
        (omega arith) (janitor refl))
      (omega arith) clears_again

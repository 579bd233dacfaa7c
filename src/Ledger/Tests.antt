-- ===== src/Ledger/Tests.antt =====
-- A hub with two accounts, and the theorems at it.
use anet_hub.Prelude.{
  ℕ, ◌≡◌, refl, inl, true, false, Option, none, some, List, [], ◌∷◌, ◌==◌, if◌then◌else◌, arith,
}
use anet_hub.Prelude.Int.{neg, ℤ, pos, negsuc, ltb_ℤ, ◌+ℤ◌, ◌-ℤ◌, IsInt64}
use anet_hub.Prelude.Table.{value_of, contains}
use anet_hub.Ledger.State.{Authorization, Ledger, Response, ok}
use anet_hub.Ledger.Core.{Core, SignedEvent, inception, verified, expired}
use anet_hub.Ledger.Rows.{add_to_row, row_takes, amount_int64}
use anet_hub.Ledger.Rows.Bounds.{add_to_row-IsInt64}
use anet_hub.Ledger.Issue.{unix_milli}
use anet_hub.Ledger.Sound.{IsSound}
use anet_hub.Ledger.Settle.{
  refused_settlement, banks_here, sign_receipt, guard_key, take_guard, move_balances, move_credit,
  settle_tx, repeat_of, receipt_of, settled_now, settle_auth,
}
use anet_hub.Ledger.Settle.Outcomes.{Leaves}
use anet_hub.Ledger.Settle.Pays.{settle_auth_pays}
use anet_hub.Ledger.Settle.Once.{settle_auth_once, settle_auth_binds}
use anet_hub.Ledger.Payment.{
  implausible_envelope, implausible_signature, last_key, Payload, Requirements, auth_window,
  parse_auth, verify_signed, verified_auth, check_terms, check_requirements,
}
use anet_hub.Ledger.Facilitator.{
  first_verify_delete_after, count_of_payer, write_first_verify, new_first_verify,
  record_first_verify, key_at_first_verify, settle_current, settle_vetted, settle_with_requirements,
}
use anet_hub.Ledger.Facilitator.Doors.{OnlyFirstVerify}
use anet_hub.Ledger.Facilitator.Refusals.{refused-OnlyFirstVerify}

-- The authorization of 20 from 2 to 3 for the task 5, whose window closes at the ms 100.
abbrev pub pay : Authorization
pay = record {
  payer = 2;
  pay_to = 3;
  amount = 20;
  network = 4;
  interaction_id = 5;
  issued_at = pos 10;
  not_after = pos 100;
  key_state_seq = 0;
}

abbrev pub window_id : ℤ → Option ℕ
window_id (pos n) = some n
window_id (negsuc n) = none

abbrev pub born : List SignedEvent
born = record { event_type = inception; keys = 9 ∷ [] } ∷ []

abbrev pub test_core : Core
test_core = record {
  scheme_credit = 6;
  credit_network = λ hub. 4;
  parse_amount = λ n. some n;
  decode_authorization = λ n. if n == 7 then some pay else none;
  auth_id = λ a. window_id a.not_after;
  verify = λ a kel t. if ltb_ℤ a.not_after t then expired else verified;
  envelope_valid = λ a. true;
  preimage = λ a. some 1;
  sig = λ a. 1;
  key_size = λ k. 32;
  ed25519_verify = λ k m s. true;
  unmarshal_kel = λ raw. some born;
  replay = λ kel. some (record { seq = 0; active = true });
  settle_guard = λ payer task. some task;
  sign_receipt = some (λ r. some 8);
  verify_receipt = λ r kel seq t. true;
}

-- The hub 1 has issued 50 to 2.
abbrev pub book : Ledger
book = record {
  agents = (2, 11) ∷ (3, 11) ∷ [];
  balances = (1, negsuc 49) ∷ (2, pos 50) ∷ [];
  entries = [];
  settled = [];
  guards = [];
  due = [];
  owed = [];
  cleared = [];
  hub_cleared = [];
  first_verify = [];
  redemptions = [];
  totals = record {
    issued = pos 50;
    redeemed = pos 0;
    events_since_publish = 1;
    last_to_day = none;
  };
}

pub book-IsSound : IsSound 1 book
unfolding ◌+ℤ◌ ◌-ℤ◌
book-IsSound = record {
  backed = record {
    add_up = refl;
    hub_row = refl;
    no_debt = ground arith;
    issued_max = omega arith;
    redeemed_nonneg = omega arith;
  };
  covered = record { due_nonneg = ground arith; due_bound = omega arith };
}

-- The ledger after the payment at the ms 50.
abbrev pub paid : Ledger
paid = (settle_auth test_core 1 50000000 pay 100 0 book).1

paid_balances : value_of 3 paid.balances ≡ pos 20
unfolding settle_auth amount_int64 guard_key sign_receipt settle_tx take_guard move_credit
    banks_here move_balances add_to_row row_takes settled_now ◌+ℤ◌ ◌-ℤ◌ neg
paid_balances = refl

pay_succeeds : (settle_auth test_core 1 50000000 pay 100 0 book).0 ≡ settled_now pay 100 (some 8)
unfolding settle_auth amount_int64 guard_key sign_receipt settle_tx take_guard move_credit
    banks_here move_balances add_to_row row_takes settled_now ◌+ℤ◌ ◌-ℤ◌ neg
pay_succeeds = refl

pub pay_success : (settle_auth test_core 1 50000000 pay 100 0 book).0.success ≡ true
unfolding settled_now
pay_success = rw pay_succeeds refl

pub pay_fresh : (settle_auth test_core 1 50000000 pay 100 0 book).0.replayed ≡ false
unfolding settled_now
pay_fresh = rw pay_succeeds refl

abbrev pub order : Payload
order = record { scheme = 6; network = 4; pay_to = 3; amount = 20; authorization = 7 }

abbrev pub terms : Requirements
terms = record { scheme = 6; network = 4; pay_to = 3; amount = 20 }

settle_auth_once_example : (settle_auth test_core 1 60000000 pay 100 9 paid).1 ≡ paid
settle_auth_once_example =
    settle_auth_once test_core 1 50000000 60000000 pay pay 100 0 9 book pay_success pay_fresh

-- Another authorization for the same task.
abbrev pay_again : Authorization
pay_again = record pay { not_after = pos 200 }

pay-guard_key : guard_key test_core pay ≡ some (some 5)
unfolding guard_key
pay-guard_key = refl

pay_again-guard_key : guard_key test_core pay_again ≡ some (some 5)
unfolding guard_key
pay_again-guard_key = refl

settle_auth_binds_example : Leaves test_core 1 60000000 pay_again 200 0 paid
settle_auth_binds_example =
    settle_auth_binds test_core 1 50000000 60000000 pay pay_again 100 200 0 0 book pay-guard_key
      pay_again-guard_key pay_success pay_fresh (omega arith)

-- The payer has 5.
abbrev poor : Ledger
poor = record book { balances = (1, negsuc 4) ∷ (2, pos 5) ∷ [] }

abbrev poor_answer : Response × Ledger
poor_answer = settle_with_requirements test_core none 1 50000000 (some order) (some terms) poor

poor_refused : poor_answer.0.success ≡ false
unfolding settle_with_requirements verified_auth implausible_envelope implausible_signature last_key
    parse_auth auth_window verify_signed check_requirements settle_vetted repeat_of settle_current
    key_at_first_verify record_first_verify new_first_verify write_first_verify count_of_payer
    first_verify_delete_after settle_auth amount_int64 guard_key sign_receipt settle_tx take_guard
    move_credit move_balances add_to_row row_takes banks_here refused_settlement check_terms ◌+ℤ◌
    ◌-ℤ◌ neg
poor_refused = refl

-- The refused order left a record of its first verification.
poor_noted : contains 100 poor_answer.1.first_verify ≡ true
unfolding settle_with_requirements verified_auth implausible_envelope implausible_signature last_key
    parse_auth auth_window verify_signed check_requirements settle_vetted repeat_of settle_current
    key_at_first_verify record_first_verify new_first_verify write_first_verify count_of_payer
    first_verify_delete_after settle_auth amount_int64 guard_key sign_receipt settle_tx take_guard
    move_credit move_balances add_to_row row_takes banks_here refused_settlement check_terms ◌+ℤ◌
    ◌-ℤ◌ neg
poor_noted = refl

refused-OnlyFirstVerify_example : OnlyFirstVerify poor poor_answer.1
refused-OnlyFirstVerify_example =
    refused-OnlyFirstVerify test_core 1 50000000 (some order) (some terms) poor poor_answer
      (inl refl) (inl poor_refused)

adds : add_to_row 2 (pos 5) book.balances ≡ ok ((1, negsuc 49) ∷ (2, pos 55) ∷ [])
unfolding add_to_row row_takes ◌+ℤ◌ ◌-ℤ◌
adds = refl

add_to_row-IsInt64_example : IsInt64 (value_of 2 ((1, negsuc 49) ∷ (2, pos 55) ∷ []))
add_to_row-IsInt64_example =
    add_to_row-IsInt64 2 (pos 5) book.balances ((1, negsuc 49) ∷ (2, pos 55) ∷ []) (ground arith)
      (ground arith) adds

takes_wire : amount_int64 20 ≡ some 20
unfolding amount_int64
takes_wire = refl

pay-sign_receipt : sign_receipt test_core (receipt_of pay 100 50000000) ≡ some (some 8)
unfolding sign_receipt
pay-sign_receipt = refl

pay-take_guard :
    take_guard (some 5) (unix_milli 50000000) book.guards ≡ some ((5, pos 2592000050) ∷ [])
unfolding take_guard ◌+ℤ◌
pay-take_guard = refl

settle_auth_pays_example :
    ((settle_auth test_core 1 50000000 pay 100 0 book).0 ≡ settled_now pay 100 (some 8))
    × (value_of 2 (settle_auth test_core 1 50000000 pay 100 0 book).1.balances
        ≡ value_of 2 book.balances +ℤ neg 20)
    × (value_of 3 (settle_auth test_core 1 50000000 pay 100 0 book).1.balances
        ≡ value_of 3 book.balances +ℤ pos 20)
unfolding ◌+ℤ◌
settle_auth_pays_example =
    settle_auth_pays test_core 1 50000000 pay 100 20 (some 5) (some 8) ((5, pos 2592000050) ∷ [])
      book takes_wire pay-guard_key pay-sign_receipt refl pay-take_guard (omega arith)
      (ground arith) (ground arith) (ground arith) (ground arith) refl

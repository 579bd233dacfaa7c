-- ===== src/Ledger/Verify/Tests.antt =====
-- A payment that is verified and then settled.
use anet_hub.Prelude.{◌≡◌, refl, some, none, arith}
use anet_hub.Prelude.Int.{pos, neg, ◌+ℤ◌, ◌-ℤ◌, IsInt64}
use anet_hub.Prelude.Table.{value_of}
use anet_hub.Ledger.State.{Ledger}
use anet_hub.Ledger.Tests.{test_core, book, order, terms, pay, born}
use anet_hub.Ledger.Rows.{amount_int64}
use anet_hub.Ledger.Settle.{guard_key, sign_receipt, settled_now, receipt_of}
use anet_hub.Ledger.Payment.{
  vetted, verified_auth, verify_signed, parse_auth, auth_window, check_requirements, check_terms,
  implausible_envelope, implausible_signature, last_key,
}
use anet_hub.Ledger.Facilitator.{
  key_at_first_verify, record_first_verify, new_first_verify, write_first_verify, count_of_payer,
  settle_with_requirements,
}
use anet_hub.Ledger.Verify.{
  valid, guard_held, verify_funds, verify_current, verify_vetted, verify_with_requirements,
}
use anet_hub.Ledger.Verify.Settles.{verify_then_settle}

abbrev verified_book : Ledger
verified_book = (verify_with_requirements test_core 1 50000000 (some order) (some terms) book).1

vetted_now : verified_auth test_core 1 order book ≡ vetted pay 100 born
unfolding verified_auth verify_signed parse_auth auth_window amount_int64 implausible_envelope
    implausible_signature last_key ◌-ℤ◌
vetted_now = refl

verified_now :
    verify_with_requirements test_core 1 50000000 (some order) (some terms) book
    ≡ (valid pay, verified_book)
unfolding verified_auth verify_signed parse_auth auth_window amount_int64 implausible_envelope
    implausible_signature last_key ◌-ℤ◌ verify_with_requirements verify_vetted verify_current
    verify_funds guard_held guard_key check_requirements check_terms key_at_first_verify
    record_first_verify new_first_verify write_first_verify count_of_payer
verified_now = refl

signed_now : sign_receipt test_core (receipt_of pay 100 50000000) ≡ some (some 8)
unfolding sign_receipt
signed_now = refl

room_now : IsInt64 (value_of 3 book.balances +ℤ pos 20)
unfolding ◌+ℤ◌
room_now = (omega arith, omega arith)

verify_then_settle_example :
    ((settle_with_requirements test_core none 1 50000000 (some order) (some terms) verified_book).0
      ≡ settled_now pay 100 (some 8))
    × (value_of 2
          (settle_with_requirements test_core none 1 50000000
            (some order)
            (some terms)
            verified_book).1.balances
        ≡ value_of 2 book.balances +ℤ neg 20)
    × (value_of 3
          (settle_with_requirements test_core none 1 50000000
            (some order)
            (some terms)
            verified_book).1.balances
        ≡ value_of 3 book.balances +ℤ pos 20)
verify_then_settle_example =
    verify_then_settle test_core 1 50000000 order terms pay 100 born (some 8) book verified_book
      vetted_now verified_now signed_now (omega arith, omega arith) (omega arith) room_now

-- ===== src/Ledger/Peers/Tests.antt =====
-- A payment on the ledger of the peer hub 30, forwarded, settled there and cleared here.
use anet_hub.Prelude.{
  ℕ, ◌≡◌, ◌≢◌, ap, sym, ◌∙◌, refl, ◌⊎◌, true, false, Option, none, some, List, ◌==◌, if◌then◌else◌,
  arith,
}
use anet_hub.Prelude.Int.{pos, neg, ◌+ℤ◌, ◌-ℤ◌}
use anet_hub.Prelude.Table.{value_of}
use anet_hub.Ledger.State.{Receipt, Response, Ledger}
use anet_hub.Ledger.Core.{Core, SignedEvent}
use anet_hub.Ledger.Tests.{test_core, book, terms, pay, born}
use anet_hub.Ledger.Rows.{amount_int64, add_to_row, row_takes, issuance_room}
use anet_hub.Ledger.Issue.{supply_event}
use anet_hub.Ledger.Clear.{clear_from_peer, clear_amount, clear_tx, in_clear_window}
use anet_hub.Ledger.Peers.{
  Receipts, PeerCalls, receipt_in, check_receipt, after_clear, clear_receipt, clear_peer_settlement,
}
use anet_hub.Ledger.Peers.Clears.{Names, clear_peer_settlement_credits, clear_peer_settlement_again}

-- This hub's own ledger is 44, and the peer's is 4.
abbrev entry_core : Core
entry_core = record test_core { credit_network = λ h. if h == 1 then 44 else 4 }

abbrev settled_there : Receipt
settled_there = record {
  auth_id = 100;
  payer = 2;
  pay_to = 3;
  amount = 20;
  network = 4;
  settle_at = pos 40;
}

abbrev readers : Receipts
readers = record { from_base64 = λ b. some b; unmarshal = λ raw. some settled_there; seq = λ r. 0 }

abbrev kel_now : Receipt → Option (List SignedEvent)
kel_now r = some born

abbrev kel_of : ℕ → Option (List SignedEvent)
kel_of aid = some born

abbrev peer_success : Response
peer_success = record {
  success = true;
  reason = none;
  payer = 2;
  transaction = 100;
  network = 4;
  amount = 20;
  replayed = false;
  receipt = some 5;
  original = none;
}

abbrev calls : PeerCalls
calls = record {
  peer_of = λ n. some 30;
  encode = λ p r. some 9;
  settle_at = λ n b. some (record { status = 200; body = 6; from = 30 });
  not_settled = λ b. false;
  decode = λ b. some peer_success;
}

abbrev cleared_book : Ledger
cleared_book =
    (clear_peer_settlement entry_core readers kel_now 0 1 50000000 30 peer_success pay terms book).1

clears_now :
    clear_peer_settlement entry_core readers kel_now 0 1 50000000 30 peer_success pay terms book
    ≡ (peer_success, cleared_book)
unfolding clear_peer_settlement receipt_in clear_receipt check_receipt after_clear clear_from_peer
    clear_amount clear_tx in_clear_window amount_int64 issuance_room add_to_row row_takes
    supply_event ◌+ℤ◌ ◌-ℤ◌ neg
clears_now = refl

cleared_balance : value_of 3 cleared_book.balances ≡ pos 20
unfolding clear_peer_settlement receipt_in clear_receipt check_receipt after_clear clear_from_peer
    clear_amount clear_tx in_clear_window amount_int64 issuance_room add_to_row row_takes
    supply_event ◌+ℤ◌ ◌-ℤ◌ neg
cleared_balance = refl

book_moved : cleared_book ≢ book
book_moved e =
    let same : pos 20 ≡ pos 0 =
      sym cleared_balance ∙ ap (λ (l : Ledger). value_of 3 l.balances) e in
    absurd cc

clear_peer_settlement_credits_example :
    (cleared_book ≡ book)
    ⊎ ((rec : Receipt) × (receipt_in readers peer_success ≡ some rec)
        × Names entry_core rec pay terms
        × (peer_success ≡ peer_success)
        × (value_of 3 cleared_book.balances ≡ value_of 3 book.balances +ℤ pos 20)
        × (value_of 30 cleared_book.owed ≡ value_of 30 book.owed +ℤ pos 20))
clear_peer_settlement_credits_example =
    clear_peer_settlement_credits entry_core readers kel_now 0 1 50000000 30 peer_success pay terms
      book cleared_book peer_success (omega arith) clears_now

clear_peer_settlement_again_example :
    clear_peer_settlement entry_core readers kel_now 0 1 60000000 30 peer_success pay terms
      cleared_book
    ≡ (peer_success, cleared_book)
clear_peer_settlement_again_example =
    clear_peer_settlement_again entry_core readers kel_now 0 1 50000000 60000000 30 peer_success pay
      terms book cleared_book peer_success clears_now book_moved

-- ===== src/Ledger/Epochs/Tests.antt =====
-- A hub that publishes its first epoch, and the theorems at it.
use anet_hub.Prelude.{ℕ, ◌+◌, ◌≡◌, refl, true, none, some, List, [], ◌∷◌, arith}
use anet_hub.Prelude.Int.{pos, ◌+ℤ◌, ◌-ℤ◌}
use anet_hub.Ledger.State.{Ledger, Totals}
use anet_hub.Ledger.Tests.{test_core, book, book-IsSound, order, terms}
use anet_hub.Ledger.Issue.{utc_day}
use anet_hub.Ledger.Sound.{IsSound}
use anet_hub.Ledger.Facilitator.{settle_with_requirements}
use anet_hub.Ledger.Janitor.{prune_ledger}
use anet_hub.Ledger.Run.{here, next, settle, janitor}
use anet_hub.Ledger.Epochs.{
  Leaf, Tree, Epoch, Recorder, Published, publishes, leaves_of, balance_leaves, agent_leaves,
  write_epoch, close_epoch, publish_due, is_due_after, supply, consistent,
}
use anet_hub.Ledger.Epochs.Closes.{total, publish_due_closes, Run-consistent, StatesSum}
use anet_hub.Ledger.Epochs.Chain.{
  IsLinked, fresh, change, publish, History-IsLinked, publish_due_states,
}

abbrev test_tree : List Leaf → Tree
test_tree xs = record { root = 7; depth = 3; outstanding = total xs; entries = xs }

abbrev test_recorder : Recorder
test_recorder = record {
  build = λ xs day. some (test_tree xs);
  sign = some (λ e. some (e.seq + 100));
  genesis_prev = 99;
}

-- 50 are issued, the clock of epochs starts at the day 0, and 20 events are past.
abbrev counted_book : Ledger
counted_book = record book {
  totals = record book.totals { events_since_publish = 20; last_to_day = some (pos 0) };
}

counted_book_sound : StatesSum test_recorder
counted_book_sound xs day t e = cc

abbrev unpublished : Published
unpublished = record { chain = []; leaves = [] }

-- In the day 2.
abbrev third_day : ℕ
third_day = 172800000000000

abbrev leaves_now : List Leaf
leaves_now = record { aid = 3; balance = 0 } ∷ record { aid = 2; balance = 50 } ∷ []

leaves_found : leaves_of 1 counted_book ≡ some leaves_now
unfolding leaves_of balance_leaves agent_leaves
leaves_found = refl

abbrev first_epoch : Epoch
first_epoch = record {
  seq = 0;
  id = 100;
  prev_id = 99;
  from_day = pos 1;
  to_day = pos 1;
  root = 7;
  outstanding = 50;
  depth = 3;
  published_at = pos 172800000;
}

abbrev published_totals : Totals
published_totals = record book.totals { events_since_publish = 0; last_to_day = some (pos 1) }

abbrev published_now : Published
published_now = record { chain = first_epoch ∷ []; leaves = (pos 1, leaves_now) ∷ [] }

publishes_now :
    publish_due test_recorder 1 third_day counted_book unpublished
    ≡ publishes first_epoch published_totals published_now
unfolding publish_due close_epoch write_epoch leaves_of balance_leaves agent_leaves ◌+ℤ◌ ◌-ℤ◌
publishes_now = refl

History-IsLinked_example :
    IsLinked 99 (record { totals = published_totals; published = published_now })
History-IsLinked_example = History-IsLinked test_recorder 1 (
    change (record { totals = counted_book.totals; published = unpublished }) _
      (fresh counted_book.totals)
      (publish third_day counted_book first_epoch published_totals published_now refl
        publishes_now))

publish_due_states_example :
    (pos 50 ≡ counted_book.totals.issued -ℤ counted_book.totals.redeemed)
    × (published_now.chain ≡ first_epoch ∷ [])
publish_due_states_example =
    publish_due_states test_recorder 1 third_day counted_book unpublished first_epoch
      published_totals published_now publishes_now

-- A payment, and the janitor after it.
abbrev worked : Ledger
worked =
    prune_ledger 90000000
      (settle_with_requirements test_core none 1 50000000 (some order) (some terms) book).1

Run-consistent_example : consistent (supply 1 worked unpublished) ≡ true
Run-consistent_example =
    Run-consistent test_core 0 1 0 book unpublished (omega arith) book-IsSound (
      next 90000000 worked
        (next 50000000
          (settle_with_requirements test_core none 1 50000000 (some order) (some terms) book).1 here
          (omega arith) (settle (some order) (some terms) refl))
        (omega arith) (janitor refl))

counted_book-IsSound : IsSound 1 counted_book
counted_book-IsSound = record {
  backed = record {
    add_up = book-IsSound.backed.add_up;
    hub_row = book-IsSound.backed.hub_row;
    no_debt = book-IsSound.backed.no_debt;
    issued_max = book-IsSound.backed.issued_max;
    redeemed_nonneg = book-IsSound.backed.redeemed_nonneg;
  };
  covered = record {
    due_nonneg = book-IsSound.covered.due_nonneg;
    due_bound = book-IsSound.covered.due_bound;
  };
}

due_now : is_due_after (utc_day third_day -ℤ pos 1) (pos 0) 20 ≡ true
unfolding ◌-ℤ◌
due_now = refl

publish_due_closes_example :
    (e : Epoch) × (k : Totals) × (p' : Published) × (publish_due test_recorder 1 third_day
        counted_book unpublished
      ≡ publishes e k p')
    × (e.from_day ≡ pos 0 +ℤ pos 1)
    × (e.to_day ≡ utc_day third_day -ℤ pos 1)
    × (pos e.outstanding ≡ counted_book.totals.issued -ℤ counted_book.totals.redeemed)
publish_due_closes_example =
    publish_due_closes test_recorder 1 third_day counted_book unpublished (λ e. some (e.seq + 100))
      (pos 0) leaves_now (test_tree leaves_now) 100 (omega arith) counted_book-IsSound
      counted_book_sound refl refl due_now refl leaves_found refl refl refl

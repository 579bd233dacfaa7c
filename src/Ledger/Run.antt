-- ===== src/Ledger/Run.antt =====
-- The hub's ledger as a transition system: every operation that changes a table, at a clock that does
-- not step back, in any order and with any arguments.
pub mod Rows
pub mod Laws
pub mod Repeats
pub mod Cleared
mod Tests
use anet_hub.Prelude.{ℕ, ◌≤◌, ◌≡◌, ◌≢◌, none, some, Option, List}
use anet_hub.Prelude.Int.{ℤ}
use anet_hub.Ledger.State.{EntryReason, Receipt, Totals, ok, Ledger}
use anet_hub.Ledger.Core.{Core, SignedEvent}
use anet_hub.Ledger.Issue.{grant_credit}
use anet_hub.Ledger.Clear.{clear_from_peer, discharge_due, settle_owed}
use anet_hub.Ledger.Payment.{Payload, Requirements}
use anet_hub.Ledger.Facilitator.{settle_with_requirements, settle_for_peer}
use anet_hub.Ledger.Redeem.{Reference, redeem}
use anet_hub.Ledger.Verify.{verify_with_requirements}
use anet_hub.Ledger.Peers.{Receipts, PeerCalls, peer_settler}
use anet_hub.Ledger.Epochs.{Recorder, Published, Epoch, publishes, publish_due}
use anet_hub.Ledger.Janitor.{prune_ledger}

-- One operation at the hub's time `now`.
pub data Step (core : Core) (skew hub now : ℕ) (l l' : Ledger) : Type 0 where
  settle :
      (p : Option Payload) (req : Option Requirements)
      → l' ≡ (settle_with_requirements core none hub now p req l).1
      → Step core skew hub now l l'
  fed_settle :
      (peer : ℕ) (p : Option Payload) (req : Option Requirements)
      → l' ≡ (settle_for_peer core hub now peer p req l).1
      → Step core skew hub now l l'
  entry_settle :
      (calls : PeerCalls) (rs : Receipts) (get : ℕ → Option (List SignedEvent))
      (refresh : Option (ℕ → Option (List SignedEvent))) (p : Option Payload)
      (req : Option Requirements)
      → l'
        ≡ (settle_with_requirements core
            (some (peer_settler core calls rs get refresh skew hub now))
            hub
            now
            p
            req
            l).1
      → Step core skew hub now l l'
  verify :
      (p : Option Payload) (req : Option Requirements)
      → l' ≡ (verify_with_requirements core hub now p req l).1
      → Step core skew hub now l l'
  publish :
      (rec : Recorder) (p p' : Published) (e : Epoch) (k : Totals)
      → publish_due rec hub now l p ≡ publishes e k p'
      → l' ≡ record l { totals = k }
      → Step core skew hub now l l'
  redeem_credit :
      (p : Option Payload) (reference : Reference)
      → l' ≡ (redeem core hub now p reference l).1
      → Step core skew hub now l l'
  clear :
      (peer : ℕ) (kel : List SignedEvent) (rec : Option Receipt)
      → clear_from_peer core skew hub now peer kel rec l ≡ ok l'
      → Step core skew hub now l l'
  grant :
      (aid : ℕ) (amount : ℤ) (why : EntryReason)
      → aid ≢ hub
      → grant_credit hub aid amount why now l ≡ ok l'
      → Step core skew hub now l l'
  discharge :
      (peer : ℕ) (amount : ℤ) → discharge_due peer amount l ≡ ok l' → Step core skew hub now l l'
  fed_clear :
      (peer : ℕ) (kel : List SignedEvent) (rec : Option Receipt)
      → settle_owed core hub peer kel rec l ≡ ok l'
      → Step core skew hub now l l'
  janitor : l' ≡ prune_ledger now l → Step core skew hub now l l'

-- A run from the ledger `start` at the time `t₀`.
pub data Run (core : Core) (skew hub t₀ : ℕ) (start : Ledger) : ℕ → Ledger → Type 0 where
  here : Run core skew hub t₀ start t₀ start
  next :
      {t : ℕ} {l : Ledger} (t' : ℕ) (l' : Ledger)
      → Run core skew hub t₀ start t l
      → t ≤ t'
      → Step core skew hub t' l l'
      → Run core skew hub t₀ start t' l'

-- ===== src/Ledger/Run/Rows.antt =====
-- What each operation does to the settled rows, and the remaining cases of the invariant.
use anet_hub.Prelude.{
  ℕ, ◌≡◌, ap, ◌∙◌, ◌⊎◌, inl, inr, Bool, true, false, Option, none, some, List, [], ◌∷◌, arith,
  Bool-cases,
}
use anet_hub.Prelude.Int.{ℤ, ltb_ℤ, -ℤ_parts}
use anet_hub.Prelude.Table.{Table, lookup}
use anet_hub.Ledger.State.{Authorization, SettledRow, Ledger, ok, EntryReason, Receipt}
use anet_hub.Ledger.Core.{Core, SignedEvent}
use anet_hub.Ledger.Issue.{unix_milli, grant_credit, issue_tx, credit_tx, issuer_side}
use anet_hub.Ledger.Sound.{IsSound}
use anet_hub.Ledger.Clear.{
  clear_from_peer, clear_amount, clear_tx, discharge_due, settle_owed, reduce_owed,
}
use anet_hub.Ledger.Settle.Once.{settled_kept}
use anet_hub.Ledger.Payment.{Payload, Requirements, Check, Vetted, verified_auth}
use anet_hub.Ledger.Peers.{PeerCalls, Receipts, peer_settler}
use anet_hub.Ledger.Peers.Keeps.{stays, clears, settle_through_peers-cases}
use anet_hub.Ledger.Facilitator.{
  key_at_first_verify, settle_current, settle_vetted, settle_with_requirements, settle_for_peer,
  settled_kept_after,
}
use anet_hub.Ledger.Facilitator.Doors.{
  OnlyFirstVerify, key_at_first_verify_frame, settle_vetted-cases,
}
use anet_hub.Ledger.Janitor.{prune, prune_ledger, settled_past}

-- The row under the key stays.
abbrev pub KeepsRow : ℕ → SettledRow → Ledger → Ledger → Type 0
KeepsRow k row l l' = lookup k l.settled ≡ some row → lookup k l'.settled ≡ some row

pub settle_current-KeepsRow :
    (core : Core) (hub now : ℕ) (auth : Authorization) (id via : ℕ) (c : Check × Ledger) (k : ℕ)
    (row : SettledRow) (l : Ledger)
    → OnlyFirstVerify l c.1
    → KeepsRow k row l (settle_current core hub now auth id via c).1
unfolding settle_current
settle_current-KeepsRow core hub now auth id via (some r, l') k row l f held =
    ap (λ (x : Ledger). lookup k x.settled) f ∙ held
settle_current-KeepsRow core hub now auth id via (none, l') k row l f held =
    settled_kept core hub now auth id via k l' (ap (λ (x : Ledger). lookup k x.settled) f ∙ held)

settle_vetted-KeepsRow :
    (core : Core) (hub now : ℕ) (p : Payload) (req : Requirements) (via : ℕ) (v : Vetted) (k : ℕ)
    (row : SettledRow) (l : Ledger)
    → KeepsRow k row l (settle_vetted core hub now p req via v l).1
settle_vetted-KeepsRow core hub now p req via v k row l held =
    elim (settle_vetted-cases core hub now p req via v l) [
      | inl same ↦ rw same held
      | inr (auth, id, kel, _, e) ↦ rw e (
          settle_current-KeepsRow core hub now auth id via
            (key_at_first_verify core auth id kel (unix_milli now) l) k row l
            (key_at_first_verify_frame core auth id kel (unix_milli now) l) held)
    ]

pub settle_with_requirements-KeepsRow :
    (core : Core) (hub now : ℕ) (p : Option Payload) (req : Option Requirements) (k : ℕ)
    (row : SettledRow) (l : Ledger)
    → KeepsRow k row l (settle_with_requirements core none hub now p req l).1
unfolding settle_with_requirements
settle_with_requirements-KeepsRow core hub now p none k row l held = held
settle_with_requirements-KeepsRow core hub now none (some req) k row l held = held
settle_with_requirements-KeepsRow core hub now (some p) (some req) k row l held =
    ground
      (arith, settle_vetted-KeepsRow core hub now p req 0 (verified_auth core hub p l) k row l held)

pub settle_for_peer-KeepsRow :
    (core : Core) (hub now peer : ℕ) (p : Option Payload) (req : Option Requirements) (k : ℕ)
    (row : SettledRow) (l : Ledger)
    → KeepsRow k row l (settle_for_peer core hub now peer p req l).1
unfolding settle_for_peer
settle_for_peer-KeepsRow core hub now peer p none k row l held = held
settle_for_peer-KeepsRow core hub now peer none (some req) k row l held = held
settle_for_peer-KeepsRow core hub now peer (some p) (some req) k row l held = ground (
  arith,
  settle_vetted-KeepsRow core hub now p req peer (verified_auth core hub p l) k row l held,
)

lookup-prune :
    (past : ℕ × SettledRow → Bool) (k : ℕ) (row : SettledRow) (d : Table SettledRow)
    → lookup k d ≡ some row
    → past (k, row) ≡ false
    → lookup k (prune past d) ≡ some row
unfolding prune
lookup-prune past k row [] e keep = absurd (ground arith)
lookup-prune past k row (x ∷ d) e keep = ground (arith, lookup-prune past k row d)

-- The janitor deletes a settled row only where it is past its time.
pub prune_ledger-KeepsRow :
    (now k : ℕ) (row : SettledRow) (l : Ledger)
    → lookup k l.settled ≡ some row
    → (lookup k (prune_ledger now l).settled ≡ some row) ⊎ (settled_past now (k, row) ≡ true)
unfolding prune_ledger
prune_ledger-KeepsRow now k row l held = elim (Bool-cases (settled_past now (k, row))) [
  | inl past ↦ inr past
  | inr kept ↦ inl (lookup-prune (settled_past now) k row l.settled held kept)
]

-- A row past its time is a week past its window.
pub settled_past-late :
    (now k : ℕ) (row : SettledRow)
    → settled_past now (k, row) ≡ true
    → ltb_ℤ row.not_after (unix_milli now) ≡ true
settled_past-late now k row past = ground (arith, -ℤ_parts (unix_milli now) settled_kept_after)

pub prune_ledger-IsSound :
    (hub now : ℕ) (l : Ledger) → IsSound hub l → IsSound hub (prune_ledger now l)
unfolding prune_ledger
prune_ledger-IsSound hub now l s = record { backed = s.backed; covered = s.covered }

pub grant_credit-KeepsRow :
    (hub aid now : ℕ) (amount : ℤ) (why : EntryReason) (k : ℕ) (row : SettledRow) (l l' : Ledger)
    → grant_credit hub aid amount why now l ≡ ok l'
    → KeepsRow k row l l'
unfolding grant_credit issue_tx credit_tx issuer_side
grant_credit-KeepsRow hub aid now amount why k row l l' e held = ground arith

pub clear_from_peer-KeepsRow :
    (core : Core) (skew hub now peer : ℕ) (kel : List SignedEvent) (rec : Option Receipt) (k : ℕ)
    (row : SettledRow) (l l' : Ledger)
    → clear_from_peer core skew hub now peer kel rec l ≡ ok l'
    → KeepsRow k row l l'
unfolding clear_from_peer clear_amount clear_tx
clear_from_peer-KeepsRow core skew hub now peer kel rec k row l l' e held = ground arith

pub discharge_due-KeepsRow :
    (peer : ℕ) (amount : ℤ) (k : ℕ) (row : SettledRow) (l l' : Ledger)
    → discharge_due peer amount l ≡ ok l'
    → KeepsRow k row l l'
unfolding discharge_due
discharge_due-KeepsRow peer amount k row l l' e held = ground arith

pub settle_owed-KeepsRow :
    (core : Core) (hub peer : ℕ) (kel : List SignedEvent) (rec : Option Receipt) (k : ℕ)
    (row : SettledRow) (l l' : Ledger)
    → settle_owed core hub peer kel rec l ≡ ok l'
    → KeepsRow k row l l'
unfolding settle_owed reduce_owed
settle_owed-KeepsRow core hub peer kel rec k row l l' e held = ground arith

pub settle_through_peers-KeepsRow :
    (core : Core) (calls : PeerCalls) (rs : Receipts) (get : ℕ → Option (List SignedEvent))
    (refresh : Option (ℕ → Option (List SignedEvent))) (skew hub now : ℕ) (p : Option Payload)
    (req : Option Requirements) (k : ℕ) (row : SettledRow) (l l' : Ledger)
    → l'
      ≡ (settle_with_requirements core
          (some (peer_settler core calls rs get refresh skew hub now))
          hub
          now
          p
          req
          l).1
    → KeepsRow k row l l'
settle_through_peers-KeepsRow core calls rs get refresh skew hub now p req k row l l' e held =
    elim (settle_through_peers-cases core calls rs get refresh skew hub now p req l l' e) [
      | inl (stays same) ↦ rw same held
      | inl (clears peer kel rec done) ↦
          clear_from_peer-KeepsRow core skew hub now peer kel (some rec) k row l l' done held
      | inr (q, r, same) ↦
          rw same
            (settle_vetted-KeepsRow core hub now q r 0 (verified_auth core hub q l) k row l held)
    ]

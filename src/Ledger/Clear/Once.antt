-- ===== src/Ledger/Clear/Once.antt =====
-- Repeats of a peer's receipt (internal/aghub/facilitator.go ClearFromPeer, janitor.go).
use anet_hub.Prelude.{
  ℕ, ◌≤◌, ◌≡◌, inl, inr, true, false, Bool, Option, none, some, List, [], ◌∷◌, Bool-cases, arith,
}
use anet_hub.Prelude.Int.{ℤ, ◌-ℤ◌, leb_ℤ, -ℤ_parts}
use anet_hub.Prelude.Table.{Table, lookup, contains, insert, lookup-insert}
use anet_hub.Ledger.State.{ok, ClearedRow, Receipt, Ledger}
use anet_hub.Ledger.Core.{Core, SignedEvent}
use anet_hub.Ledger.Issue.{unix_milli}
use anet_hub.Ledger.Clear.{
  peer_receipt_max_age, in_clear_window, cleared_row, clear_tx, clear_from_peer,
}
use anet_hub.Ledger.Clear.Keeps.{clear_amount-ok, clear_from_peer-ok}
use anet_hub.Ledger.Janitor.{cleared_kept_after, prune, cleared_past, prune_ledger}

-- The receipt `id`, settled at `at`, is on record here, or too old at `now` to be taken.
pub data IsClosed (id : ℕ) (at : ℤ) (now : ℕ) (l : Ledger) : Type 0 where
  on_record :
      (row : ClearedRow)
      → lookup id l.cleared ≡ some row
      → row.settle_at ≡ at
      → IsClosed id at now l
  too_old : leb_ℤ at (unix_milli now -ℤ cleared_kept_after) ≡ true → IsClosed id at now l

pub clear_tx-cleared :
    (hub now peer : ℕ) (rec : Receipt) (amt : ℕ) (l l' : Ledger)
    → clear_tx hub now peer rec amt l ≡ ok l'
    → l'.cleared ≡ insert rec.auth_id (cleared_row peer amt now rec) l.cleared
unfolding clear_tx
clear_tx-cleared hub now peer rec amt l l' e = ground arith

pub clear_tx-row :
    (hub now peer : ℕ) (rec : Receipt) (amt : ℕ) (l l' : Ledger)
    → clear_tx hub now peer rec amt l ≡ ok l'
    → lookup rec.auth_id l'.cleared ≡ some (cleared_row peer amt now rec)
clear_tx-row hub now peer rec amt l l' e =
    rw (clear_tx-cleared hub now peer rec amt l l' e) (
      ground
        (arith, lookup-insert rec.auth_id rec.auth_id (cleared_row peer amt now rec) l.cleared))

-- A row that is there stays, whatever receipt is cleared.
pub clear_from_peer-keeps :
    (core : Core) (skew hub now peer : ℕ) (kel : List SignedEvent) (rec : Option Receipt) (k : ℕ)
    (row : ClearedRow) (l l' : Ledger)
    → clear_from_peer core skew hub now peer kel rec l ≡ ok l'
    → lookup k l.cleared ≡ some row
    → lookup k l'.cleared ≡ some row
unfolding clear_from_peer
clear_from_peer-keeps core skew hub now peer kel none k row l l' e h = absurd (ground arith)
clear_from_peer-keeps core skew hub now peer kel (some rec) k row l l' e h =
    let (amt, _, cleared) = clear_from_peer-ok core skew hub now peer kel rec l l' e in
    elim (clear_amount-ok core skew hub now peer kel rec amt l l' cleared) [
      | inl (_, same) ↦ rw same h
      | inr (new, _, done) ↦
          rw (clear_tx-cleared hub now peer rec amt l l' done)
            (ground (arith, lookup-insert k rec.auth_id (cleared_row peer amt now rec) l.cleared))
    ]

lookup-prune_cleared :
    (past : ℕ × ClearedRow → Bool) (k : ℕ) (row : ClearedRow) (d : Table ClearedRow)
    → lookup k d ≡ some row
    → past (k, row) ≡ false
    → lookup k (prune past d) ≡ some row
unfolding prune
lookup-prune_cleared past k row [] e keep = absurd (ground arith)
lookup-prune_cleared past k row (x ∷ d) e keep = ground (arith, lookup-prune_cleared past k row d)

pub later-IsClosed :
    (id : ℕ) (at : ℤ) (t now : ℕ) (l : Ledger) → t ≤ now → IsClosed id at t l → IsClosed id at now l
later-IsClosed id at t now l le (on_record row h e) = on_record row h e
later-IsClosed id at t now l le (too_old e) = too_old (
    ground (
      arith,
      -ℤ_parts (unix_milli t) cleared_kept_after,
      -ℤ_parts (unix_milli now) cleared_kept_after,
    ))

pub prune-IsClosed :
    (id : ℕ) (at : ℤ) (now : ℕ) (l : Ledger)
    → IsClosed id at now l
    → IsClosed id at now (prune_ledger now l)
unfolding prune_ledger
prune-IsClosed id at now l (too_old e) = too_old e
prune-IsClosed id at now l (on_record row h e) = elim (Bool-cases (cleared_past now (id, row))) [
  | inl past ↦ too_old (rw (← e) past)
  | inr kept ↦ on_record row (lookup-prune_cleared (cleared_past now) id row l.cleared h kept) e
]

shut :
    (core : Core) (skew hub now : ℕ) (rec : Receipt) (l : Ledger) (t : ℕ)
    → IsClosed rec.auth_id rec.settle_at t l
    → t ≤ now
    → contains rec.auth_id l.cleared ≡ false
    → in_clear_window skew now rec.settle_at ≡ true
    → ⊥
unfolding in_clear_window
shut core skew hub now rec l t (on_record row h e) le new inside = absurd (ground arith)
shut core skew hub now rec l t (too_old e) le new inside = absurd (
    ground (
      arith,
      -ℤ_parts (unix_milli t) cleared_kept_after,
      -ℤ_parts (unix_milli now) peer_receipt_max_age,
    ))

-- A receipt that is closed moves nothing.
pub IsClosed-refuses :
    (core : Core) (skew hub now peer : ℕ) (kel : List SignedEvent) (rec : Receipt) (l l' : Ledger)
    (t : ℕ)
    → IsClosed rec.auth_id rec.settle_at t l
    → t ≤ now
    → clear_from_peer core skew hub now peer kel (some rec) l ≡ ok l'
    → l' ≡ l
IsClosed-refuses core skew hub now peer kel rec l l' t closed le e =
    let (amt, _, cleared) = clear_from_peer-ok core skew hub now peer kel rec l l' e in
    elim (clear_amount-ok core skew hub now peer kel rec amt l l' cleared) [
      | inl (_, same) ↦ same
      | inr (new, inside, _) ↦ absurd (shut core skew hub now rec l t closed le new inside)
    ]

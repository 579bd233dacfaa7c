-- ===== src/Ledger/Janitor.antt =====
-- internal/aghub/janitor.go: the retention of the ledger's tables (ledgerRetention, PruneLedger).
-- The liability leaves, the write-ahead log and the log lines are not modelled.
use anet_hub.Prelude.{ℕ, Bool, List, [], ◌∷◌, if◌then◌else◌}
use anet_hub.Prelude.Int.{ℤ, pos, ◌-ℤ◌, ltb_ℤ, leb_ℤ}
use anet_hub.Ledger.State.{Entry, SettledRow, ClearedRow, FirstVerify, RedemptionRow, Ledger}
use anet_hub.Ledger.Issue.{unix_milli}
use anet_hub.Ledger.Facilitator.{settled_kept_after}

-- ledgerWindow in ns, clearedKeptAfter in ms.
abbrev pub ledger_window : ℤ
ledger_window = pos 1209600000000000

abbrev pub cleared_kept_after : ℤ
cleared_kept_after = pos 691200000

-- DELETE FROM … WHERE the row is past its time.
unfoldable pub prune {ℓ} : {A : Type ℓ} → (A → Bool) → List A → List A
prune past [] = []
prune past (x ∷ xs) = let rest = prune past xs in if past x then rest else x ∷ rest

-- at < windowStart(now), on stamps of nanoseconds.
unfoldable pub before_window : ℕ → ℕ → Bool
before_window now at = ltb_ℤ (pos at) (pos now -ℤ ledger_window)

abbrev pub settled_past : ℕ → ℕ × SettledRow → Bool
settled_past now e = leb_ℤ e.1.not_after (unix_milli now -ℤ settled_kept_after)

abbrev pub guard_past : ℕ → ℕ × ℤ → Bool
guard_past now e = leb_ℤ e.1 (unix_milli now)

abbrev pub cleared_past : ℕ → ℕ × ClearedRow → Bool
cleared_past now e = leb_ℤ e.1.settle_at (unix_milli now -ℤ cleared_kept_after)

abbrev pub first_verify_past : ℕ → ℕ × FirstVerify → Bool
first_verify_past now e = leb_ℤ e.1.delete_after (unix_milli now)

unfoldable pub prune_ledger : ℕ → Ledger → Ledger
prune_ledger now l = record l {
  entries = prune (λ (e : Entry). before_window now e.at) l.entries;
  redemptions = prune (λ (e : ℕ × RedemptionRow). before_window now e.1.at) l.redemptions;
  settled = prune (settled_past now) l.settled;
  guards = prune (guard_past now) l.guards;
  cleared = prune (cleared_past now) l.cleared;
  first_verify = prune (first_verify_past now) l.first_verify;
}

-- ===== src/Ledger/Run/Repeats.antt =====
-- Repeats of a settlement, in every run after it (internal/aghub/facilitator.go SettleWithRequirements
-- and SettleForPeer, from the signature on, with repeatOf; janitor.go PruneLedger).
use anet_hub.Prelude.{ℕ, ◌≤◌, ◌≡◌, refl, ap, ◌⊎◌, inl, inr, true, false, none, some, List, arith}
use anet_hub.Prelude.Int.{◌-ℤ◌, leb_ℤ, -ℤ_parts}
use anet_hub.Prelude.Table.{lookup}
use anet_hub.Ledger.State.{Authorization, SettledRow, Ledger}
use anet_hub.Ledger.Core.{Core, SignedEvent}
use anet_hub.Ledger.Rows.Bounds.{stored_amount-amount_int64}
use anet_hub.Ledger.Issue.{unix_milli}
use anet_hub.Ledger.Settle.{settled_row, settle_auth}
use anet_hub.Ledger.Settle.Outcomes.{Commits, settle_auth-cases}
use anet_hub.Ledger.Settle.Once.{repeated, repeat_of_row, Commits-row}
use anet_hub.Ledger.Payment.{Payload, Requirements, check_requirements, vetted, verified_auth}
use anet_hub.Ledger.Facilitator.{settled_kept_after, settle_vetted}
use anet_hub.Ledger.Janitor.{settled_past}
use anet_hub.Ledger.Run.{Step, Run, here, next}
use anet_hub.Ledger.Run.Laws.{Step-row}

-- The row is there, or is past its time at `t`.
abbrev RowUntilPast : ℕ → SettledRow → ℕ → Ledger → Type 0
RowUntilPast k row t l = (lookup k l.settled ≡ some row) ⊎ (settled_past t (k, row) ≡ true)

settled_past-later :
    (t t' k : ℕ) (row : SettledRow)
    → t ≤ t'
    → settled_past t (k, row) ≡ true
    → settled_past t' (k, row) ≡ true
settled_past-later t t' k row le past =
    ground (
      arith,
      -ℤ_parts (unix_milli t) settled_kept_after,
      -ℤ_parts (unix_milli t') settled_kept_after,
    )

Step-RowUntilPast :
    (core : Core) (skew hub t t' k : ℕ) (row : SettledRow) (l l' : Ledger)
    → t ≤ t'
    → Step core skew hub t' l l'
    → RowUntilPast k row t l
    → RowUntilPast k row t' l'
Step-RowUntilPast core skew hub t t' k row l l' le st (inl held) =
    Step-row core skew hub t' k row l l' st held
Step-RowUntilPast core skew hub t t' k row l l' le st (inr past) =
    inr (settled_past-later t t' k row le past)

Run-RowUntilPast :
    (core : Core) (skew hub t₀ k : ℕ) (row : SettledRow) (start : Ledger) {t : ℕ} {l : Ledger}
    → lookup k start.settled ≡ some row
    → Run core skew hub t₀ start t l
    → RowUntilPast k row t l
Run-RowUntilPast core skew hub t₀ k row start held here = inl held
Run-RowUntilPast core skew hub t₀ k row start held (next {t} {l = m} t' l' r le st) =
    Step-RowUntilPast core skew hub t t' k row m l' le st
      (Run-RowUntilPast core skew hub t₀ k row start held r)

-- The row of a settlement is there after every run that ends in its time.
kept_row :
    (core : Core) (skew hub t₀ : ℕ) (auth : Authorization) (id via : ℕ) (l₀ : Ledger)
    (c : Commits core hub t₀ auth id via l₀) {t : ℕ} {l : Ledger}
    → Run core skew hub t₀ c.result t l
    → leb_ℤ auth.not_after (unix_milli t -ℤ settled_kept_after) ≡ false
    → lookup id l.settled ≡ some (settled_row t₀ auth via c.amt c.receipt c.guard)
kept_row core skew hub t₀ auth id via l₀ c r young =
    elim (Run-RowUntilPast core skew hub t₀ id (settled_row t₀ auth via c.amt c.receipt c.guard)
      c.result (Commits-row core hub t₀ auth id via l₀ c) r) [
        | inl held ↦ held
        | inr past ↦ absurd (ground arith)
      ]

-- A settlement on this hub's network that went through as new is answered again in every run of the
-- ledger after it whose last operation is less than 7 days past the authorization's window: where
-- the same caller presents the authorization again at /x402/settle or /fed/v3/settle, its payee past
-- the door's test, its signature verified and its terms met, it is answered at any clock, also after
-- the window, with the success it was told, flagged as a repeat, and no table changes.
pub settled_answered_again :
    (core : Core) (skew hub t₀ : ℕ) (auth : Authorization) (id via : ℕ) (l₀ : Ledger) {t : ℕ}
    {l : Ledger} (now : ℕ) (p : Payload) (req : Requirements) {kel : List SignedEvent}
    → auth.network ≡ core.credit_network hub
    → (settle_auth core hub t₀ auth id via l₀).0.success ≡ true
    → (settle_auth core hub t₀ auth id via l₀).0.replayed ≡ false
    → Run core skew hub t₀ (settle_auth core hub t₀ auth id via l₀).1 t l
    → leb_ℤ auth.not_after (unix_milli t -ℤ settled_kept_after) ≡ false
    → verified_auth core hub p l ≡ vetted auth id kel
    → check_requirements core p auth req ≡ none
    → settle_vetted core hub now p req via (verified_auth core hub p l) l
      ≡ (repeated (settle_auth core hub t₀ auth id via l₀).0, l)
unfolding settle_vetted
settled_answered_again core skew hub t₀ auth id via l₀ {t} {l} now p req {kel} n done fresh r young
      presents meets =
    elim (settle_auth-cases core hub t₀ auth id via l₀) [
      | inl c ↦
          let run : Run core skew hub t₀ c.result t l = rw (← ap (λ x. x.1) c.answers) r in
          let told =
            repeat_of_row core hub t₀ id auth via c.amt c.receipt c.guard l
              (kept_row core skew hub t₀ auth id via l₀ c run young)
              (stored_amount-amount_int64 auth.amount c.amount) c.signed n in
          rw (c.answers, presents, meets, told, settle_vetted) refl
      | inr k ↦ absurd (ground (arith, k.told))
    ]

-- ===== src/Ledger/Facilitator/Spent.antt =====
-- Authorizations that are settled here, or whose window has closed (internal/aghub/facilitator.go).
use anet_hub.Prelude.{ℕ, ◌≡◌, refl, ap, ◌∙◌, inl, inr, true, none, some, List, arith}
use anet_hub.Prelude.Int.{ℤ, ltb_ℤ}
use anet_hub.Prelude.Table.{lookup}
use anet_hub.Ledger.State.{Reason, Authorization, SettledRow, Ledger}
use anet_hub.Ledger.Core.{Core, SignedEvent}
use anet_hub.Ledger.Issue.{unix_milli}
use anet_hub.Ledger.Settle.Once.{settled_stays}
use anet_hub.Ledger.Payment.{Payload, Requirements, Check, vetted, verified_auth}
use anet_hub.Ledger.Facilitator.{key_at_first_verify, settle_current, settle_vetted}
use anet_hub.Ledger.Facilitator.Doors.{
  OnlyFirstVerify, key_at_first_verify_frame, RefusesExpired, key_at_first_verify_expired,
  verified_auth-id, settle_vetted-cases,
}

-- The authorization `id`, whose window ends at `not_after`, is settled here, or is expired at `now`.
pub data IsSpent (id : ℕ) (not_after : ℤ) (now : ℕ) (l : Ledger) : Type 0 where
  settled :
      (row : SettledRow)
      → lookup id l.settled ≡ some row
      → row.not_after ≡ not_after
      → IsSpent id not_after now l
  expired : ltb_ℤ not_after (unix_milli now) ≡ true → IsSpent id not_after now l

-- What auth.ID promises: it is a content id, so it fixes the end of the window.
abbrev pub FixesWindow : Core → Type 0
FixesWindow core =
    (a b : Authorization) (id : ℕ)
    → core.auth_id a ≡ some id
    → core.auth_id b ≡ some id
    → a.not_after ≡ b.not_after

refused_here :
    (core : Core) (hub now : ℕ) (auth : Authorization) (id via : ℕ) (c : Check × Ledger)
    (r : Reason) (l : Ledger)
    → c.0 ≡ some r
    → OnlyFirstVerify l c.1
    → OnlyFirstVerify l (settle_current core hub now auth id via c).1
unfolding settle_current
refused_here core hub now auth id via (none, l') r l q f = absurd (ground arith)
refused_here core hub now auth id via (some r', l') r l q f = f

held_here :
    (core : Core) (hub now : ℕ) (auth : Authorization) (id via : ℕ) (c : Check × Ledger)
    (l : Ledger) {row : SettledRow}
    → lookup id l.settled ≡ some row
    → OnlyFirstVerify l c.1
    → OnlyFirstVerify l (settle_current core hub now auth id via c).1
unfolding settle_current
held_here core hub now auth id via (some r, l') l held f = f
held_here core hub now auth id via (none, l') l held f =
    let there = ap (λ (x : Ledger). lookup id x.settled) f ∙ held in
    rw (settled_stays core hub now auth id via l' there) f

-- Past the checks, a spent authorization changes no table but the records of first verifications.
settle_current_spent :
    (core : Core) (hub now : ℕ) (auth : Authorization) (id via : ℕ) (kel : List SignedEvent)
    (l : Ledger)
    → RefusesExpired core
    → IsSpent id auth.not_after now l
    → OnlyFirstVerify l
        (settle_current core hub now auth id via
          (key_at_first_verify core auth id kel (unix_milli now) l)).1
unfolding settle_current
settle_current_spent core hub now auth id via kel l refuses (expired late) =
    let (r, q) = key_at_first_verify_expired core auth id kel (unix_milli now) l refuses late in
    refused_here core hub now auth id via (key_at_first_verify core auth id kel (unix_milli now) l)
      r l q (key_at_first_verify_frame core auth id kel (unix_milli now) l)
settle_current_spent core hub now auth id via kel l refuses (settled row held same) =
    held_here core hub now auth id via (key_at_first_verify core auth id kel (unix_milli now) l) l
      held (key_at_first_verify_frame core auth id kel (unix_milli now) l)

-- A payment by an authorization that is spent moves nothing, whatever door it comes through.
pub settle_vetted_spent :
    (core : Core) (hub now : ℕ) (p : Payload) (req : Requirements) (via : ℕ) (l : Ledger)
    (paid : Authorization) (id : ℕ)
    → RefusesExpired core
    → FixesWindow core
    → core.auth_id paid ≡ some id
    → IsSpent id paid.not_after now l
    → ((auth : Authorization) (kel : List SignedEvent) (id' : ℕ)
        → verified_auth core hub p l ≡ vetted auth id' kel
        → id' ≡ id)
    → OnlyFirstVerify l (settle_vetted core hub now p req via (verified_auth core hub p l) l).1
settle_vetted_spent core hub now p req via l paid id refuses fixes named spent presents =
    elim (settle_vetted-cases core hub now p req via (verified_auth core hub p l) l) [
      | inl same ↦ rw same refl
      | inr (auth, id', kel, v, e) ↦
          let same : id' ≡ id = presents auth kel id' v in
          let window : paid.not_after ≡ auth.not_after =
            fixes paid auth id named (rw (← same) (verified_auth-id core hub p l v)) in
          rw e (
            settle_current_spent core hub now auth id' via kel l refuses
              (rw (← window, same) spent))
    ]

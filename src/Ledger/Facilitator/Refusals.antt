-- ===== src/Ledger/Facilitator/Refusals.antt =====
-- Settlements that are refused, at the doors (internal/aghub/facilitator.go SettleWithRequirements and
-- SettleForPeer).
use anet_hub.Prelude.{ℕ, ◌≡◌, refl, ◌⊎◌, inl, inr, true, false, Option, none, some, arith}
use anet_hub.Ledger.State.{Authorization, Ledger, Response}
use anet_hub.Ledger.Core.{Core}
use anet_hub.Ledger.Issue.{unix_milli}
use anet_hub.Ledger.Settle.Outcomes.{settle_auth_unchanged}
use anet_hub.Ledger.Payment.{Payload, Requirements, Check, Vetted, verified_auth}
use anet_hub.Ledger.Facilitator.{
  key_at_first_verify, settle_current, settle_vetted, settle_with_requirements, settle_for_peer,
}
use anet_hub.Ledger.Facilitator.Doors.{
  OnlyFirstVerify, key_at_first_verify_frame, settle_vetted-cases,
}

-- A response that is a refusal, or is flagged as a repeat.
abbrev pub IsNoNewSuccess : Response → Type 0
IsNoNewSuccess out = (out.success ≡ false) ⊎ (out.replayed ≡ true)

settle_current_refused :
    (core : Core) (hub now : ℕ) (auth : Authorization) (id via : ℕ) (c : Check × Ledger)
    (l : Ledger)
    → OnlyFirstVerify l c.1
    → IsNoNewSuccess (settle_current core hub now auth id via c).0
    → OnlyFirstVerify l (settle_current core hub now auth id via c).1
unfolding settle_current
settle_current_refused core hub now auth id via (some r, l') l f told = f
settle_current_refused core hub now auth id via (none, l') l f told =
    rw (settle_auth_unchanged core hub now auth id via l' told) f

settle_vetted_refused :
    (core : Core) (hub now : ℕ) (p : Payload) (req : Requirements) (via : ℕ) (v : Vetted)
    (l : Ledger)
    → IsNoNewSuccess (settle_vetted core hub now p req via v l).0
    → OnlyFirstVerify l (settle_vetted core hub now p req via v l).1
settle_vetted_refused core hub now p req via v l told =
    elim (settle_vetted-cases core hub now p req via v l) [
      | inl same ↦ rw same refl
      | inr (auth, id, kel, _, e) ↦ rw e (
          settle_current_refused core hub now auth id via
            (key_at_first_verify core auth id kel (unix_milli now) l) l
            (key_at_first_verify_frame core auth id kel (unix_milli now) l) (rw (← e) told))
    ]

settle_with_requirements_refused :
    (core : Core) (hub now : ℕ) (p : Option Payload) (req : Option Requirements) (l : Ledger)
    → IsNoNewSuccess (settle_with_requirements core none hub now p req l).0
    → OnlyFirstVerify l (settle_with_requirements core none hub now p req l).1
unfolding settle_with_requirements
settle_with_requirements_refused core hub now p none l told = refl
settle_with_requirements_refused core hub now none (some req) l told = refl
settle_with_requirements_refused core hub now (some p) (some req) l told =
    ground (arith, settle_vetted_refused core hub now p req 0 (verified_auth core hub p l) l)

settle_for_peer_refused :
    (core : Core) (hub now peer : ℕ) (p : Option Payload) (req : Option Requirements) (l : Ledger)
    → IsNoNewSuccess (settle_for_peer core hub now peer p req l).0
    → OnlyFirstVerify l (settle_for_peer core hub now peer p req l).1
unfolding settle_for_peer
settle_for_peer_refused core hub now peer p none l told = refl
settle_for_peer_refused core hub now peer none (some req) l told = refl
settle_for_peer_refused core hub now peer (some p) (some req) l told =
    ground (arith, settle_vetted_refused core hub now p req peer (verified_auth core hub p l) l)

-- What /x402/settle or /fed/v3/settle answers to any payload and requirements, where it is a refusal
-- or the repeat of an earlier settlement, leaves every table as it was but the records of first
-- verifications. No settlement is forwarded to a peer.
pub refused-OnlyFirstVerify :
    (core : Core) (hub now : ℕ) (p : Option Payload) (req : Option Requirements) (l : Ledger)
    (x : Response × Ledger)
    → (x ≡ settle_with_requirements core none hub now p req l)
      ⊎ ((peer : ℕ) × (x ≡ settle_for_peer core hub now peer p req l))
    → (x.0.success ≡ false) ⊎ (x.0.replayed ≡ true)
    → OnlyFirstVerify l x.1
refused-OnlyFirstVerify core hub now p req l x (inl e) told =
    rw e (settle_with_requirements_refused core hub now p req l (rw (← e) told))
refused-OnlyFirstVerify core hub now p req l x (inr (peer, e)) told =
    rw e (settle_for_peer_refused core hub now peer p req l (rw (← e) told))

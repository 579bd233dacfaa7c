-- ===== src/Ledger/Verify/Frame.antt =====
-- What VerifyWithRequirements may change (internal/aghub/facilitator.go).
use anet_hub.Prelude.{ℕ, ◌≡◌, refl, inl, inr, Option, none, some, arith, Bool-cases, Option-cases}
use anet_hub.Prelude.Table.{contains}
use anet_hub.Ledger.State.{Authorization, Ledger}
use anet_hub.Ledger.Core.{Core}
use anet_hub.Ledger.Issue.{unix_milli}
use anet_hub.Ledger.Settle.{guard_key}
use anet_hub.Ledger.Payment.{
  Payload, Requirements, Check, check_requirements, Vetted, vetted, unvetted, verified_auth,
}
use anet_hub.Ledger.Facilitator.Doors.{OnlyFirstVerify, key_at_first_verify_frame}
use anet_hub.Ledger.Verify.{guard_held, verify_current, verify_vetted, verify_with_requirements}

verify_current_ledger :
    (auth : Authorization) (c : Check × Ledger) → (verify_current auth c).1 ≡ c.1
unfolding verify_current
verify_current_ledger auth (none, l) = refl
verify_current_ledger auth (some r, l) = refl

verify_vetted_frame :
    (core : Core) (now : ℕ) (p : Payload) (req : Requirements) (v : Vetted) (l : Ledger)
    → OnlyFirstVerify l (verify_vetted core now p req v l).1
unfolding verify_vetted
verify_vetted_frame core now p req (unvetted a r) l = refl
verify_vetted_frame core now p req (vetted auth id kel) l =
    elim (Option-cases (check_requirements core p auth req)) [
      | inr (r, q) ↦ rw (q, verify_vetted) refl
      | inl terms ↦ elim (Bool-cases (contains id l.settled)) [
        | inl spent ↦ rw (terms, spent, verify_vetted) refl
        | inr new ↦ elim (Option-cases (guard_key core auth)) [
          | inl q ↦ rw (terms, new, q, verify_vetted) refl
          | inr (guard, keyed) ↦ elim (Bool-cases (guard_held guard (unix_milli now) l.guards)) [
            | inl held ↦ rw (terms, new, keyed, held, verify_vetted) refl
            | inr free ↦
                rw (terms, new, keyed, free, verify_vetted, verify_current_ledger)
                  (key_at_first_verify_frame core auth id kel (unix_milli now) l)
          ]
        ]
      ]
    ]

pub verify_with_requirements_frame :
    (core : Core) (hub now : ℕ) (p : Option Payload) (req : Option Requirements) (l : Ledger)
    → OnlyFirstVerify l (verify_with_requirements core hub now p req l).1
unfolding verify_with_requirements
verify_with_requirements_frame core hub now p none l = refl
verify_with_requirements_frame core hub now none (some req) l = refl
verify_with_requirements_frame core hub now (some p) (some req) l =
    ground (arith, verify_vetted_frame core now p req (verified_auth core hub p l) l)

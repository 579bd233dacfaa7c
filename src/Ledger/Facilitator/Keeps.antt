-- ===== src/Ledger/Facilitator/Keeps.antt =====
-- The doors and the invariant (internal/aghub/facilitator.go).
use anet_hub.Prelude.{ℕ, ◌≡◌, ap, inl, inr, Option, none, some, arith}
use anet_hub.Ledger.State.{Authorization, Ledger}
use anet_hub.Ledger.Core.{Core}
use anet_hub.Ledger.Issue.{unix_milli}
use anet_hub.Ledger.Sound.{IsSound}
use anet_hub.Ledger.Settle.Outcomes.{settle_auth-IsSound}
use anet_hub.Ledger.Payment.{Payload, Requirements, Check, Vetted, verified_auth}
use anet_hub.Ledger.Facilitator.{
  key_at_first_verify, settle_current, settle_vetted, settle_with_requirements, settle_for_peer,
}
use anet_hub.Ledger.Facilitator.Doors.{
  OnlyFirstVerify, key_at_first_verify_frame, settle_vetted-cases,
}

pub OnlyFirstVerify-IsSound :
    (hub : ℕ) (l l' : Ledger) → OnlyFirstVerify l l' → IsSound hub l → IsSound hub l'
OnlyFirstVerify-IsSound hub l l' f s =
    let eb : l'.balances ≡ l.balances = ap (λ (x : Ledger). x.balances) f in
    let ek : l'.totals ≡ l.totals = ap (λ (x : Ledger). x.totals) f in
    let ed : l'.due ≡ l.due = ap (λ (x : Ledger). x.due) f in
    record { backed = rw (eb, ek) s.backed; covered = rw (ed, ek) s.covered }

settle_current-IsSound :
    (core : Core) (hub now : ℕ) (auth : Authorization) (id via : ℕ) (c : Check) (l : Ledger)
    → IsSound hub l
    → IsSound hub (settle_current core hub now auth id via (c, l)).1
unfolding settle_current
settle_current-IsSound core hub now auth id via (some r) l s = s
settle_current-IsSound core hub now auth id via none l s =
    settle_auth-IsSound core hub now auth id via l s

pub settle_vetted-IsSound :
    (core : Core) (hub now : ℕ) (p : Payload) (req : Requirements) (via : ℕ) (v : Vetted)
    (l : Ledger)
    → IsSound hub l
    → IsSound hub (settle_vetted core hub now p req via v l).1
settle_vetted-IsSound core hub now p req via v l s =
    elim (settle_vetted-cases core hub now p req via v l) [
      | inl same ↦ rw same s
      | inr (auth, id, kel, _, e) ↦
          let (c, l') = key_at_first_verify core auth id kel (unix_milli now) l in
          rw e (
            settle_current-IsSound core hub now auth id via c l' (
              OnlyFirstVerify-IsSound hub l l'
                (key_at_first_verify_frame core auth id kel (unix_milli now) l) s))
    ]

-- /x402/settle keeps a sound ledger sound, for any payload and requirements, where no settlement is
-- forwarded to a peer.
pub settle_with_requirements-IsSound :
    (core : Core) (hub now : ℕ) (p : Option Payload) (req : Option Requirements) (l : Ledger)
    → IsSound hub l
    → IsSound hub (settle_with_requirements core none hub now p req l).1
unfolding settle_with_requirements
settle_with_requirements-IsSound core hub now p none l s = s
settle_with_requirements-IsSound core hub now none (some req) l s = s
settle_with_requirements-IsSound core hub now (some p) (some req) l s =
    ground (arith, s, settle_vetted-IsSound core hub now p req 0 (verified_auth core hub p l) l s)

-- /fed/v3/settle keeps a sound ledger sound, for any peer, payload and requirements.
pub settle_for_peer-IsSound :
    (core : Core) (hub now peer : ℕ) (p : Option Payload) (req : Option Requirements) (l : Ledger)
    → IsSound hub l
    → IsSound hub (settle_for_peer core hub now peer p req l).1
unfolding settle_for_peer
settle_for_peer-IsSound core hub now peer p none l s = s
settle_for_peer-IsSound core hub now peer none (some req) l s = s
settle_for_peer-IsSound core hub now peer (some p) (some req) l s =
    ground
      (arith, s, settle_vetted-IsSound core hub now p req peer (verified_auth core hub p l) l s)

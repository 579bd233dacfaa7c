-- ===== src/Ledger/Verify/Passes.antt =====
-- What a payment that VerifyWithRequirements takes has passed (internal/aghub/facilitator.go).
use anet_hub.Prelude.{
  ℕ, ◌≡◌, refl, sym, ap, ◌∙◌, inl, inr, true, false, Option, none, some, List, ◌==◌, Bool-cases,
  Option-cases,
}
use anet_hub.Prelude.Int.{pos, ltb_ℤ}
use anet_hub.Prelude.Table.{contains, value_of}
use anet_hub.Ledger.State.{
  malformed, payee_mismatch, payee_not_local, network_mismatch, duplicate_nonce, duplicate_binding,
  invalid_amount, insufficient_funds, Authorization, Ledger,
}
use anet_hub.Ledger.Core.{Core, SignedEvent}
use anet_hub.Ledger.Rows.{amount_int64}
use anet_hub.Ledger.Issue.{unix_milli}
use anet_hub.Ledger.Settle.{guard_key}
use anet_hub.Ledger.Payment.{
  Payload, Requirements, Check, check_requirements, Vetted, vetted, verified_auth,
}
use anet_hub.Ledger.Facilitator.{key_at_first_verify, payee_is_this_hub}
use anet_hub.Ledger.Verify.{
  invalid, valid, guard_held, verify_funds, verify_current, verify_vetted, verify_with_requirements,
}

-- What a payment that verifies has passed.
pub record Passed (core : Core) (now : ℕ) (p : Payload) (req : Requirements) (auth : Authorization)
    (id : ℕ) (kel : List SignedEvent) (l l' : Ledger) : Type 0 where
  pub terms : check_requirements core p auth req ≡ none
  pub new : contains id l.settled ≡ false
  pub guard : Option ℕ
  pub keyed : guard_key core auth ≡ some guard
  pub free : guard_held guard (unix_milli now) l.guards ≡ false
  pub current : key_at_first_verify core auth id kel (unix_milli now) l ≡ (none, l')
  pub amt : ℕ
  pub amount : amount_int64 auth.amount ≡ some amt
  pub funds : ltb_ℤ (value_of auth.payer l'.balances) (pos amt) ≡ false

verify_current_passes :
    (auth : Authorization) (x : Check × Ledger) (l' : Ledger)
    → verify_current auth x ≡ (valid auth, l')
    → (x ≡ (none, l'))
      × (amt : ℕ) × (amount_int64 auth.amount ≡ some amt)
      × (ltb_ℤ (value_of auth.payer l'.balances) (pos amt) ≡ false)
unfolding verify_current verify_funds
verify_current_passes auth (some r, l) l' e = absurd cc
verify_current_passes auth (none, l) l' e = elim (Option-cases (amount_int64 auth.amount)) [
  | inl q ↦
      let h : verify_funds auth l ≡ invalid invalid_amount (some auth) =
        rw (q, verify_funds) refl in
      absurd cc
  | inr (amt, q) ↦ elim (Bool-cases (ltb_ℤ (value_of auth.payer l.balances) (pos amt))) [
    | inl poor ↦
        let h : verify_funds auth l ≡ invalid insufficient_funds (some auth) =
          rw (q, poor, verify_funds) refl in
        absurd cc
    | inr enough ↦ let same : l ≡ l' = cc in (rw same refl, amt, q, rw (← same) enough)
  ]
]

pub verify_vetted-Passed :
    (core : Core) (now : ℕ) (p : Payload) (req : Requirements) (auth : Authorization) (id : ℕ)
    (kel : List SignedEvent) (l l' : Ledger)
    → verify_vetted core now p req (vetted auth id kel) l ≡ (valid auth, l')
    → Passed core now p req auth id kel l l'
unfolding verify_vetted verify_current verify_funds
verify_vetted-Passed core now p req auth id kel l l' e =
    elim (Option-cases (check_requirements core p auth req)) [
      | inr (r, q) ↦
          let h : verify_vetted core now p req (vetted auth id kel) l ≡ (invalid r (some auth), l) =
            rw (q, verify_vetted) refl in
          absurd cc
      | inl terms ↦ elim (Bool-cases (contains id l.settled)) [
        | inl spent ↦
            let h : verify_vetted core now p req (vetted auth id kel) l
                ≡ (invalid duplicate_nonce (some auth), l) =
              rw (terms, spent, verify_vetted) refl in
            absurd cc
        | inr new ↦ elim (Option-cases (guard_key core auth)) [
          | inl q ↦
              let h : verify_vetted core now p req (vetted auth id kel) l
                  ≡ (invalid malformed (some auth), l) =
                rw (terms, new, q, verify_vetted) refl in
              absurd cc
          | inr (guard, keyed) ↦ elim (Bool-cases (guard_held guard (unix_milli now) l.guards)) [
            | inl held ↦
                let h : verify_vetted core now p req (vetted auth id kel) l
                    ≡ (invalid duplicate_binding (some auth), l) =
                  rw (terms, new, keyed, held, verify_vetted) refl in
                absurd cc
            | inr free ↦
                let h : verify_vetted core now p req (vetted auth id kel) l
                    ≡ verify_current auth
                        (key_at_first_verify core auth id kel (unix_milli now) l) =
                  rw (terms, new, keyed, free, verify_vetted) refl in
                let (current, amt, amount, funds) =
                  verify_current_passes auth
                    (key_at_first_verify core auth id kel (unix_milli now) l) l' (sym h ∙ e) in
                record {
                  terms = terms;
                  new = new;
                  guard = guard;
                  keyed = keyed;
                  free = free;
                  current = current;
                  amt = amt;
                  amount = amount;
                  funds = funds;
                }
          ]
        ]
      ]
    ]

pub verify_with_requirements-vetted :
    (core : Core) (hub now : ℕ) (p : Payload) (req : Requirements) (v : Vetted) (l l' : Ledger)
    (auth : Authorization)
    → verified_auth core hub p l ≡ v
    → verify_with_requirements core hub now (some p) (some req) l ≡ (valid auth, l')
    → (payee_is_this_hub hub req.pay_to ≡ false)
      × (contains req.pay_to l.agents ≡ true)
      × ((p.network == core.credit_network hub) ≡ true)
      × (verify_vetted core now p req v l ≡ (valid auth, l'))
unfolding verify_with_requirements
verify_with_requirements-vetted core hub now p req v l l' auth q e =
    elim (Bool-cases (payee_is_this_hub hub req.pay_to)) [
      | inl own ↦
          let h : verify_with_requirements core hub now (some p) (some req) l
              ≡ (invalid payee_mismatch none, l) =
            rw (own, verify_with_requirements) refl in
          absurd cc
      | inr away ↦ elim (Bool-cases (contains req.pay_to l.agents)) [
        | inr out ↦
            let h : verify_with_requirements core hub now (some p) (some req) l
                ≡ (invalid payee_not_local none, l) =
              rw (away, out, verify_with_requirements) refl in
            absurd cc
        | inl banks ↦ elim (Bool-cases (p.network == core.credit_network hub)) [
          | inr other ↦
              let h : verify_with_requirements core hub now (some p) (some req) l
                  ≡ (invalid network_mismatch none, l) =
                rw (away, banks, other, verify_with_requirements) refl in
              absurd cc
          | inl here_too ↦
              let h : verify_with_requirements core hub now (some p) (some req) l
                  ≡ verify_vetted core now p req (verified_auth core hub p l) l =
                rw (away, banks, here_too, verify_with_requirements) refl in
              (
                away,
                banks,
                here_too,
                ap (λ x. verify_vetted core now p req x l) (sym q) ∙ sym h ∙ e,
              )
        ]
      ]
    ]

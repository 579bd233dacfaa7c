-- ===== src/Ledger/Verify/Settles.antt =====
-- What VerifyWithRequirements takes, SettleWithRequirements settles (internal/aghub/facilitator.go).
use anet_hub.Prelude.{
  ℕ, ◌≡◌, ◌≢◌, refl, ap, ◌∙◌, inl, inr, true, false, Option, none, some, List, arith, Option-cases,
}
use anet_hub.Prelude.Int.{ℤ, pos, neg, ◌+ℤ◌, leb_ℤ, IsInt64}
use anet_hub.Prelude.Table.{Table, lookup, insert, contains, value_of}
use anet_hub.Ledger.State.{Authorization, Ledger}
use anet_hub.Ledger.Core.{Core, SignedEvent}
use anet_hub.Ledger.Issue.{unix_milli}
use anet_hub.Ledger.Settle.{
  guard_kept, take_guard, sign_receipt, receipt_of, repeat_of, settled_now, settle_auth,
}
use anet_hub.Ledger.Rows.Bounds.{amount_int64-some}
use anet_hub.Ledger.Settle.Pays.{settle_auth_pays}
use anet_hub.Ledger.Payment.{
  Payload, Requirements, Check, check_requirements, check_terms, Vetted, vetted, verified_auth,
  verify_signed,
}
use anet_hub.Ledger.Facilitator.{
  payee_is_this_hub, settle_current, settle_vetted, settle_with_requirements,
}
use anet_hub.Ledger.Facilitator.Doors.{OnlyFirstVerify, key_at_first_verify_frame}
use anet_hub.Ledger.Verify.{valid, guard_held, verify_with_requirements}
use anet_hub.Ledger.Verify.Passes.{Passed, verify_vetted-Passed, verify_with_requirements-vetted}
use anet_hub.Ledger.Verify.Again.{key_at_first_verify_again}

-- A binding that is not held is taken.
take_free_guard :
    (guard : Option ℕ) (now_ms : ℤ) (t : Table ℤ)
    → guard_held guard now_ms t ≡ false
    → (t' : Table ℤ) × (take_guard guard now_ms t ≡ some t')
unfolding guard_held take_guard
take_free_guard none now_ms t free = (t, refl)
take_free_guard (some g) now_ms t free = elim (Option-cases (lookup g t)) [
  | inl q ↦ (insert g (now_ms +ℤ guard_kept) t, rw (q, take_guard) refl)
  | inr (until, q) ↦
      let past : leb_ℤ until now_ms ≡ true = ground (arith, q) in
      (insert g (now_ms +ℤ guard_kept) t, rw (q, past, take_guard) refl)
]

check_requirements_payee :
    (core : Core) (p : Payload) (auth : Authorization) (req : Requirements)
    → check_requirements core p auth req ≡ none
    → (auth.pay_to ≡ req.pay_to) × (req.pay_to ≢ 0)
unfolding check_requirements check_terms
check_requirements_payee core p auth req e = (ground arith, ground arith)

verified_auth_frame :
    (core : Core) (hub : ℕ) (p : Payload) (l l' : Ledger)
    → OnlyFirstVerify l l'
    → verified_auth core hub p l' ≡ verified_auth core hub p l
unfolding verified_auth verify_signed
verified_auth_frame core hub p l l' f = ap (λ x. verified_auth core hub p x) f

settle_vetted_goes_on :
    (core : Core) (hub now : ℕ) (p : Payload) (req : Requirements) (auth : Authorization) (id : ℕ)
    (kel : List SignedEvent) (l l' : Ledger)
    → Passed core now p req auth id kel l l'
    → OnlyFirstVerify l l'
    → settle_vetted core hub now p req 0 (vetted auth id kel) l'
      ≡ settle_auth core hub now auth id 0 l'
unfolding settle_vetted repeat_of settle_current
settle_vetted_goes_on core hub now p req auth id kel l l' passed f =
    let settled : l'.settled ≡ l.settled = ap (λ (x : Ledger). x.settled) f in
    let unseen : repeat_of core hub id auth 0 l' ≡ none = rw settled (ground (arith, passed.new)) in
    rw
      (
        passed.terms,
        unseen,
        key_at_first_verify_again core auth id kel (unix_milli now) l l' passed.current,
        settle_vetted,
      )
      refl

settle_with_requirements_local :
    (core : Core) (hub now : ℕ) (p : Payload) (req : Requirements) (v : Vetted) (l : Ledger)
    → payee_is_this_hub hub req.pay_to ≡ false
    → contains req.pay_to l.agents ≡ true
    → verified_auth core hub p l ≡ v
    → settle_with_requirements core none hub now (some p) (some req) l
      ≡ settle_vetted core hub now p req 0 v l
unfolding settle_with_requirements
settle_with_requirements_local core hub now p req v l away banks q =
    rw (away, banks, q, settle_with_requirements) refl

-- A payment that /x402/verify takes, /x402/settle then takes at the same time, where no settlement is
-- forwarded: it is settled, and exactly its amount moves from the payer to the payee. The payer's
-- account is another than the payee's, its row is in the int64 range, the payee's row has room for
-- the amount, and the receipt is signed.
pub verify_then_settle :
    (core : Core) (hub now : ℕ) (p : Payload) (req : Requirements) (auth : Authorization) (id : ℕ)
    (kel : List SignedEvent) (rec : Option ℕ) (l l' : Ledger)
    → verified_auth core hub p l ≡ vetted auth id kel
    → verify_with_requirements core hub now (some p) (some req) l ≡ (valid auth, l')
    → sign_receipt core (receipt_of auth id now) ≡ some rec
    → IsInt64 (value_of auth.payer l.balances)
    → auth.payer ≢ auth.pay_to
    → IsInt64 (value_of auth.pay_to l.balances +ℤ pos auth.amount)
    → ((settle_with_requirements core none hub now (some p) (some req) l').0
        ≡ settled_now auth id rec)
      × (value_of auth.payer
            (settle_with_requirements core none hub now (some p) (some req) l').1.balances
          ≡ value_of auth.payer l.balances +ℤ neg auth.amount)
      × (value_of auth.pay_to
            (settle_with_requirements core none hub now (some p) (some req) l').1.balances
          ≡ value_of auth.pay_to l.balances +ℤ pos auth.amount)
verify_then_settle core hub now p req auth id kel rec l l' vetted_now verified_now signed range ne
      room =
    let (away, banks, _, passes) =
      verify_with_requirements-vetted core hub now p req (vetted auth id kel) l l' auth vetted_now
        verified_now in
    let passed = verify_vetted-Passed core now p req auth id kel l l' passes in
    let f : OnlyFirstVerify l l' =
      rw (← ap (λ (x : Check × Ledger). x.1) passed.current)
        (key_at_first_verify_frame core auth id kel (unix_milli now) l) in
    let eb : l'.balances ≡ l.balances = ap (λ (x : Ledger). x.balances) f in
    let ea : l'.agents ≡ l.agents = ap (λ (x : Ledger). x.agents) f in
    let es : l'.settled ≡ l.settled = ap (λ (x : Ledger). x.settled) f in
    let eg : l'.guards ≡ l.guards = ap (λ (x : Ledger). x.guards) f in
    let (to, named) = check_requirements_payee core p auth req passed.terms in
    let (same, up, top) = amount_int64-some auth.amount passed.amount in
    let (guards', taken) = take_free_guard passed.guard (unix_milli now) l.guards passed.free in
    let whole : settle_with_requirements core none hub now (some p) (some req) l'
        ≡ settle_auth core hub now auth id 0 l' =
      settle_with_requirements_local core hub now p req (vetted auth id kel) l' away (rw ea banks)
        (verified_auth_frame core hub p l l' f ∙ vetted_now)
      ∙ settle_vetted_goes_on core hub now p req auth id kel l l' passed f in
    let (went, less, more) =
      settle_auth_pays core hub now auth id passed.amt passed.guard rec guards' l' passed.amount
        passed.keyed signed (rw es passed.new) (rw eg taken) (ground (arith, passed.funds))
        (rw eb range) ne (rw (eb, same) room) (ground arith) (rw ea (rw to banks)) in
    (rw whole went, rw whole (less ∙ rw (eb, same) refl), rw whole (more ∙ rw (eb, same) refl))

-- ===== src/Ledger/Facilitator/Doors.antt =====
-- What passes the doors: the parts of the ledger that the checks may touch, and which payments reach
-- the settlement.
use anet_hub.Prelude.{
  ℕ, ◌≡◌, ◌≢◌, refl, ◌⊎◌, inl, inr, Bool, true, false, none, some, List, suc, take, leb, length,
  arith, Bool-cases, Option-cases,
}
use anet_hub.Prelude.Int.{ℤ, ltb_ℤ}
use anet_hub.Ledger.State.{Reason, Authorization, Ledger}
use anet_hub.Ledger.Core.{Core, SignedEvent, Verdict, verified, expired, bad_window, bad_sig}
use anet_hub.Ledger.Issue.{unix_milli}
use anet_hub.Ledger.Settle.{repeat_of}
use anet_hub.Ledger.Payment.{
  Payload, Requirements, Check, check_requirements, Vetted, vetted, unvetted, vet, verified_auth,
  verify_signed, verify_check,
}
use anet_hub.Ledger.Facilitator.{
  Recorded, unreadable, recorded, write_first_verify, new_first_verify, record_first_verify,
  after_record, key_at_first_verify, settle_current, settle_vetted,
}

-- Only the records of first verifications differ.
abbrev pub OnlyFirstVerify : Ledger → Ledger → Type 0
OnlyFirstVerify l l' = l' ≡ record l { first_verify = l'.first_verify }

write_first_verify_frame :
    (auth : Authorization) (id : ℕ) (tip : Bool) (now_ms : ℤ) (l : Ledger)
    → OnlyFirstVerify l (write_first_verify auth id tip now_ms l)
unfolding write_first_verify
write_first_verify_frame auth id tip now_ms l = ground arith

record_first_verify_frame :
    (core : Core) (auth : Authorization) (id : ℕ) (now_ms : ℤ) (l : Ledger) {tip : Bool}
    {l' : Ledger}
    → record_first_verify core auth id now_ms l ≡ recorded tip l'
    → OnlyFirstVerify l l'
unfolding record_first_verify new_first_verify
record_first_verify_frame core auth id now_ms l e = grind (arith, write_first_verify_frame)

after_record_frame :
    (core : Core) (auth : Authorization) (kel : List SignedEvent) (now_ms : ℤ) (l : Ledger)
    (r : Recorded)
    → ((tip : Bool) (l' : Ledger) → r ≡ recorded tip l' → OnlyFirstVerify l l')
    → OnlyFirstVerify l (after_record core auth kel now_ms l r).1
after_record_frame core auth kel now_ms l unreadable h = refl
after_record_frame core auth kel now_ms l (recorded true l') h = h true l' refl
after_record_frame core auth kel now_ms l (recorded false l') h = h false l' refl

pub key_at_first_verify_frame :
    (core : Core) (auth : Authorization) (id : ℕ) (kel : List SignedEvent) (now_ms : ℤ) (l : Ledger)
    → OnlyFirstVerify l (key_at_first_verify core auth id kel now_ms l).1
unfolding key_at_first_verify
key_at_first_verify_frame core auth id kel now_ms l =
    elim (Bool-cases (leb (length kel) auth.key_state_seq)) [
      | inl beyond ↦ rw (beyond, key_at_first_verify) refl
      | inr within ↦
          elim (Option-cases
            (verify_check (core.verify auth (take (suc auth.key_state_seq) kel) now_ms))) [
              | inr (r, q) ↦ rw (within, q, key_at_first_verify) refl
              | inl q ↦
                  rw (within, q, key_at_first_verify)
                    (after_record_frame core auth kel now_ms l
                      (record_first_verify core auth id now_ms l)
                      (λ tip l' e. record_first_verify_frame core auth id now_ms l e))
            ]
    ]

-- What Authorization.Verify promises: an authorization is refused after its window.
abbrev pub RefusesExpired : Core → Type 0
RefusesExpired core =
    (a : Authorization) (kel : List SignedEvent) (t : ℤ)
    → ltb_ℤ a.not_after t ≡ true
    → core.verify a kel t ≢ verified

not_verified : (v : Verdict) → v ≢ verified → (r : Reason) × (verify_check v ≡ some r)
not_verified verified h = absurd (h refl)
not_verified expired h = (_, refl)
not_verified bad_window h = (_, refl)
not_verified bad_sig h = (_, refl)

-- Where the signature check refuses what is past its window, an authorization past its window does
-- not pass the check of its window and key, whatever was
-- recorded of it.
pub key_at_first_verify_expired :
    (core : Core) (auth : Authorization) (id : ℕ) (kel : List SignedEvent) (now_ms : ℤ) (l : Ledger)
    → RefusesExpired core
    → ltb_ℤ auth.not_after now_ms ≡ true
    → (r : Reason) × ((key_at_first_verify core auth id kel now_ms l).0 ≡ some r)
unfolding key_at_first_verify
key_at_first_verify_expired core auth id kel now_ms l refuses late =
    elim (Bool-cases (leb (length kel) auth.key_state_seq)) [
      | inl beyond ↦
          let (r, q) = not_verified (core.verify auth kel now_ms) (refuses auth kel now_ms late) in
          (r, rw (beyond, key_at_first_verify) q)
      | inr within ↦
          let cut = take (suc auth.key_state_seq) kel in
          let (r, q) = not_verified (core.verify auth cut now_ms) (refuses auth cut now_ms late) in
          (r, rw (within, q, key_at_first_verify) refl)
    ]

vet_id :
    (auth auth' : Authorization) (id id' : ℕ) (kel kel' : List SignedEvent) (c : Check)
    → vet auth id kel c ≡ vetted auth' id' kel'
    → (auth ≡ auth') × (id ≡ id')
vet_id auth auth' id id' kel kel' none e = (cc, cc)
vet_id auth auth' id id' kel kel' (some r) e = (cc, cc)

verify_signed-id :
    (core : Core) (auth auth' : Authorization) (id id' : ℕ) (l : Ledger) {kel : List SignedEvent}
    → verify_signed core auth id l ≡ vetted auth' id' kel
    → (auth ≡ auth') × (id ≡ id')
unfolding verify_signed
verify_signed-id core auth auth' id id' l e = grind (arith, vet_id)

-- The id of a vetted authorization is the id of its content.
pub verified_auth-id :
    (core : Core) (hub : ℕ) (p : Payload) (l : Ledger) {auth : Authorization} {id : ℕ}
    {kel : List SignedEvent}
    → verified_auth core hub p l ≡ vetted auth id kel
    → core.auth_id auth ≡ some id
unfolding verified_auth
verified_auth-id core hub p l e = grind (arith, verify_signed-id)

-- A door ends with the ledger as it was, or with the settlement of an authorization that was vetted
-- and is current.
pub settle_vetted-cases :
    (core : Core) (hub now : ℕ) (p : Payload) (req : Requirements) (via : ℕ) (v : Vetted)
    (l : Ledger)
    → ((settle_vetted core hub now p req via v l).1 ≡ l)
      ⊎ ((auth : Authorization) × (id : ℕ) × (kel : List SignedEvent) × (v ≡ vetted auth id kel)
          × (settle_vetted core hub now p req via v l
              ≡ settle_current core hub now auth id via
                  (key_at_first_verify core auth id kel (unix_milli now) l)))
unfolding settle_vetted
settle_vetted-cases core hub now p req via (unvetted a r) l = inl refl
settle_vetted-cases core hub now p req via (vetted auth id kel) l =
    elim (Option-cases (check_requirements core p auth req)) [
      | inr (r, q) ↦ inl (rw (q, settle_vetted) refl)
      | inl q ↦ elim (Option-cases (repeat_of core hub id auth via l)) [
        | inr (out, s) ↦ inl (rw (q, s, settle_vetted) refl)
        | inl s ↦ inr (auth, id, kel, refl, rw (q, s, settle_vetted) refl)
      ]
    ]
